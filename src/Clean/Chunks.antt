-- ===== src/Clean/Chunks.antt =====
-- The chunks of `composeStreamCleanPlan` in scripts/lib/clean-plan.mjs.
use claude_housekeeper.Base.{
  ℕ, zero, suc, ◌+◌, ◌-◌, ◌≤◌, ◌≡◌, ◌∙◌, refl, sym, ap, Bool, false, ltb, ltb-false→le, ltb→lt,
  some, inl, inr, List, [], ◌∷◌, ◌++◌, length, length-take, length-drop, take, drop,
  take-append-drop, arith, All, Bool-cases, Option-cases,
}
use Prim.Native.Nat.{◌/◌}
use claude_housekeeper.Contracts.{Text, ExecutionClass}
use claude_housekeeper.Clean.Batch.{
  Pair, Moment, batch_cap, compose_pairs, within_budget, empty_batch, compose_batch_clean_plan,
  stream_chunk_size, chunks_from, stream_chunks, total_chunks, at_least_one, chunk_request,
  StreamItem, planned, yield_chunks, compose_stream_clean_plan,
}

abbrev pub concat {ℓ} : {A : Type ℓ} → List (List A) → List A
concat [] = []
concat (xs ∷ xss) = xs ++ concat xss

-- A chunk has a pair, and at most 50.
abbrev pub IsChunk : List Pair → Type 0
IsChunk chunk = (1 ≤ length chunk) × (length chunk ≤ stream_chunk_size)

drop-drop {ℓ} : {A : Type ℓ} (n k : ℕ) (xs : List A) → drop n (drop k xs) ≡ drop (k + n) xs
drop-drop n zero xs = let e : 0 + n ≡ n = omega arith in rw e refl
drop-drop zero (suc k) [] = let e : suc k + 0 ≡ suc k = omega arith in rw e refl
drop-drop (suc n) (suc k) [] = let e : suc k + suc n ≡ suc (k + suc n) = omega arith in rw e refl
drop-drop n (suc k) (x ∷ xs) =
    let e : suc k + n ≡ suc (k + n) = omega arith in rw e (drop-drop n k xs)

drop-all {ℓ} : {A : Type ℓ} (n : ℕ) (xs : List A) → length xs ≤ n → drop n xs ≡ []
drop-all zero [] h = refl
drop-all zero (x ∷ xs) h = absurd (omega arith)
drop-all (suc n) [] h = refl
drop-all (suc n) (x ∷ xs) h = drop-all n xs (omega arith)

record AreChunks (pairs : List Pair) (offset : ℕ) (chunks : List (List Pair)) : Type 0 where
  joined : concat chunks ≡ drop offset pairs
  sized : All IsChunk chunks
  counted : length chunks ≡ (length pairs - offset + 49) / 50

chunks_from-AreChunks :
    (n offset : ℕ) (pairs : List Pair)
    → length pairs - offset ≤ n
    → AreChunks pairs offset (chunks_from n offset pairs)
unfolding chunks_from
chunks_from-AreChunks zero offset pairs h = record {
  joined = sym (drop-all offset pairs (omega arith));
  sized = tt;
  counted = omega arith;
}
chunks_from-AreChunks (suc n) offset pairs h = elim (Bool-cases (ltb offset (length pairs))) [
  | inl b ↦
      let lt = ltb→lt _ _ b in
      let rest = drop offset pairs in
      let l = length-drop offset pairs in
      let t = length-take stream_chunk_size rest in
      let ih = chunks_from-AreChunks n (offset + stream_chunk_size) pairs (omega arith) in
      rw b (record {
        joined =
            ap (λ xs. take stream_chunk_size rest ++ xs)
              (ih.joined ∙ sym (drop-drop stream_chunk_size offset pairs))
            ∙ take-append-drop stream_chunk_size rest;
        sized = ((omega (arith, l, t), omega (arith, t)), ih.sized);
        counted = omega (arith, ih.counted);
      })
  | inr b ↦
      let le = ltb-false→le _ _ b in
      rw b (record { joined = sym (drop-all offset pairs le); sized = tt; counted = omega arith })
]

-- The items of the chunks: each pair is composed, and no cap or budget refuses a chunk.
abbrev pub planned_chunks :
    (ℕ → ℕ → Moment) → Text → (ExecutionClass → Bool) → ℕ → ℕ → List (List Pair) → List StreamItem
planned_chunks at home allowed total i [] = []
planned_chunks at home allowed total i (chunk ∷ chunks) =
    planned i total (compose_pairs (at i) home allowed 0 chunk (empty_batch []))
    ∷ planned_chunks at home allowed total (suc i) chunks

batch_cap-chunk : (n : ℕ) → 1 ≤ n → n ≤ stream_chunk_size → batch_cap (some n) ≡ n
unfolding batch_cap
batch_cap-chunk zero h k = absurd (omega arith)
batch_cap-chunk (suc n) h k = omega arith

compose_batch_clean_plan-chunk :
    (at : ℕ → Moment) (home : Text) (allowed : ExecutionClass → Bool) (chunk : List Pair)
    → IsChunk chunk
    → compose_batch_clean_plan at home (chunk_request allowed chunk)
      ≡ compose_pairs at home allowed 0 chunk (empty_batch [])
unfolding compose_batch_clean_plan within_budget
compose_batch_clean_plan-chunk at home allowed chunk (p, q) = ground (
  arith,
  batch_cap-chunk (length chunk) p q,
  Option-cases (compose_pairs at home allowed 0 chunk (empty_batch [])),
)

yield_chunks-planned :
    (at : ℕ → ℕ → Moment) (home : Text) (allowed : ExecutionClass → Bool) (total i : ℕ)
    (chunks : List (List Pair))
    → All IsChunk chunks
    → yield_chunks at home allowed total i chunks ≡ planned_chunks at home allowed total i chunks
unfolding yield_chunks
yield_chunks-planned at home allowed total i [] a = refl
yield_chunks-planned at home allowed total i (chunk ∷ chunks) ((p, q), a) = ground (
  arith,
  compose_batch_clean_plan-chunk (at i) home allowed chunk (p, q),
  yield_chunks-planned at home allowed total (suc i) chunks a,
)

-- The chunks of a stream are its pairs in order, each with at least one and at most 50 of them; the total
-- that every item carries is their number, or 1 where there is none. A stream that resumes no other
-- yields one item for each chunk, in order, and no cap, chunk or aggregate budget refuses any of them.
pub compose_stream_clean_plan_chunks :
    (at : ℕ → ℕ → Moment) (home : Text) (allowed : ExecutionClass → Bool) (pairs : List Pair)
    → (concat (stream_chunks pairs) ≡ pairs)
      × All IsChunk (stream_chunks pairs)
      × (total_chunks pairs ≡ at_least_one (length (stream_chunks pairs)))
      × (compose_stream_clean_plan at home allowed false pairs
          ≡ planned_chunks at home allowed (total_chunks pairs) 0 (stream_chunks pairs))
unfolding compose_stream_clean_plan stream_chunks total_chunks
compose_stream_clean_plan_chunks at home allowed pairs =
    let c = chunks_from-AreChunks (length pairs) 0 pairs (omega arith) in
    (
      c.joined,
      c.sized,
      ap at_least_one (omega (arith, c.counted)),
      yield_chunks-planned at home allowed (total_chunks pairs) 0 (stream_chunks pairs) c.sized,
    )
