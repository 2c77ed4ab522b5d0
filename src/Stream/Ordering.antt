-- ===== src/Stream/Ordering.antt =====
-- The order in which a stream of scripts/lib/rollback-plan.mjs is rolled back.
use mathlib.Core.List.{Perm}
use mathlib.Core.List.Perm
use claude_housekeeper.Base.{
  [], ◌≡◌, ◌≢◌, ◌≤◌, ◌⊎◌, refl, inl, inr, true, false, List, ◌∷◌, some, Option, map, arith,
  Bool-cases,
}
use claude_housekeeper.Contracts.{Text}
use claude_housekeeper.Disk.{Host, Disk}
use claude_housekeeper.Stream.{
  Chunk, ChunkMeta, chunk_before, insert_chunk, sort_chunks, collect_chunks, plan_chunk,
  plan_listing, StreamDir, parsed, sub_plans, compose_stream_rollback_plan, plan_chunks,
}

-- No chunk comes strictly before the one in front of it.
abbrev IsOrdered : List Chunk → Type 0
IsOrdered [] = Unit
IsOrdered (c ∷ []) = Unit
IsOrdered (c ∷ k ∷ ks) = (chunk_before k c ≡ false) × IsOrdered (k ∷ ks)

-- A chunk may be rolled back before another: one that was applied in part before one that was not, and
-- otherwise one with an index that is not smaller.
abbrev pub IsEarlier : Chunk → Chunk → Type 0
IsEarlier c k =
    ((c.partial_apply ≡ true) × (k.partial_apply ≡ false))
    ⊎ ((c.partial_apply ≡ k.partial_apply) × (k.chunk_index ≤ c.chunk_index))

-- Every chunk may be rolled back before the next one.
abbrev pub IsReversed : List Chunk → Type 0
IsReversed [] = Unit
IsReversed (c ∷ []) = Unit
IsReversed (c ∷ k ∷ ks) = IsEarlier c k × IsReversed (k ∷ ks)

IsEarlier-of_chunk_before : (c k : Chunk) → chunk_before k c ≡ false → IsEarlier c k
IsEarlier-of_chunk_before c k h = elim (Bool-cases c.partial_apply) [
  | inl p ↦ elim (Bool-cases k.partial_apply) [ inl q ↦ ground (arith, p, q) | inr q ↦ inl (p, q) ]
  | inr p ↦ elim (Bool-cases k.partial_apply) [
    | inl q ↦ absurd (ground (arith, p, q))
    | inr q ↦ ground (arith, p, q)
  ]
]

chunk_before_asymm : (a b : Chunk) → chunk_before a b ≡ true → chunk_before b a ≡ false
chunk_before_asymm a b h = ground arith

insert_chunk-IsOrdered :
    (c : Chunk) (ks : List Chunk) → IsOrdered ks → IsOrdered (insert_chunk c ks)
unfolding insert_chunk
insert_chunk-IsOrdered c [] h = tt
insert_chunk-IsOrdered c (k ∷ []) h = ground (arith, chunk_before_asymm k c)
insert_chunk-IsOrdered c (k ∷ j ∷ ks) h =
    ground (arith, chunk_before_asymm k c, insert_chunk-IsOrdered c (j ∷ ks) h.1)

sort_chunks-IsOrdered : (cs : List Chunk) → IsOrdered (sort_chunks cs)
unfolding sort_chunks
sort_chunks-IsOrdered [] = tt
sort_chunks-IsOrdered (c ∷ cs) =
    insert_chunk-IsOrdered c (sort_chunks cs) (sort_chunks-IsOrdered cs)

IsReversed-of_IsOrdered : (cs : List Chunk) → IsOrdered cs → IsReversed cs
IsReversed-of_IsOrdered [] h = tt
IsReversed-of_IsOrdered (c ∷ []) h = tt
IsReversed-of_IsOrdered (c ∷ k ∷ ks) (p, h) =
    (IsEarlier-of_chunk_before c k p, IsReversed-of_IsOrdered (k ∷ ks) h)

insert_chunk-perm : (c : Chunk) (ks : List Chunk) → Perm (insert_chunk c ks) (c ∷ ks)
unfolding insert_chunk
insert_chunk-perm c [] = Perm.refl (c ∷ [])
insert_chunk-perm c (k ∷ ks) = elim (Bool-cases (chunk_before k c)) [
  | inl e ↦ rw e (Perm.trans (Perm.cons k (insert_chunk-perm c ks)) (Perm.swap c k ks))
  | inr e ↦ rw e (Perm.refl (c ∷ k ∷ ks))
]

sort_chunks-perm : (cs : List Chunk) → Perm (sort_chunks cs) cs
unfolding sort_chunks
sort_chunks-perm [] = Perm.refl []
sort_chunks-perm (c ∷ cs) =
    Perm.trans (insert_chunk-perm c (sort_chunks cs)) (Perm.cons c (sort_chunks-perm cs))

plan_chunks-eq :
    (h : Host) (d : Disk) (cs : List Chunk)
    → cs ≢ []
    → plan_chunks h d cs ≡ sub_plans (map (plan_chunk h d) (sort_chunks cs))
plan_chunks-eq h d [] n = absurd (n refl)
plan_chunks-eq h d (c ∷ cs) n = refl

-- For a stream with a readable parent and directory, and at least one chunk to roll back, the plan
-- holds the single-operation plan of each of these chunks once: the chunks that were applied in part
-- come first, and among the others and among those the chunk index falls.
pub compose_stream_rollback_plan_order :
    (h : Host) (d : Disk) (s : StreamDir) {files : List (Text × Option ChunkMeta)}
    → s.parent ≡ parsed
    → s.listing ≡ some files
    → collect_chunks files ≢ []
    → (order : List Chunk) × (compose_stream_rollback_plan h d s
        ≡ sub_plans (map (plan_chunk h d) order))
      × IsReversed order
      × Perm order (collect_chunks files)
unfolding compose_stream_rollback_plan plan_listing
compose_stream_rollback_plan_order h d s {files} p l n = (
  sort_chunks (collect_chunks files),
  rw (p, compose_stream_rollback_plan)
      (rw (l, plan_listing) (plan_chunks-eq h d (collect_chunks files) n)),
  IsReversed-of_IsOrdered (sort_chunks (collect_chunks files))
      (sort_chunks-IsOrdered (collect_chunks files)),
  sort_chunks-perm (collect_chunks files),
)
