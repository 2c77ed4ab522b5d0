-- ===== src/Clean/Rounds.antt =====
-- One round of the loop of `executeStreamCleanPlan` in scripts/lib/clean-plan.mjs, and what it leaves.
use claude_housekeeper.Base.{
  [], ℕ, zero, suc, ◌≡◌, ◌∙◌, refl, sym, ap, ◌⊎◌, inl, inr, Bool, true, false, ltb, Option, none,
  some, List, ◌∷◌, ◌++◌, length, map, arith, All, Bool-cases, Option-cases, String, Result, ok, err,
}
use claude_housekeeper.Contracts.{Text}
use claude_housekeeper.Posix.{codes}
use claude_housekeeper.Disk.{Manifest, Disk}
use claude_housekeeper.Snapshot.{SnapshotError}
use claude_housekeeper.Stream.{ChunkMeta}
use claude_housekeeper.Clean.{batch_pair_cap_exceeded}
use claude_housekeeper.Clean.Walks.{IsFinite, compose_clean_plan-IsSelection}
use claude_housekeeper.Contracts.{ExecutionClass}
use claude_housekeeper.Clean.Batch.{
  Moment, BatchRequest, batch_cap, compose_pairs, add_plan, empty_batch, refusal_of, within_budget,
  chunk_request, compose_batch_clean_plan, Pair, Batch,
}
use claude_housekeeper.Clean.Compose.{CleanOperation}
use claude_housekeeper.Clean.Streaming.{
  ParentStatus, in_progress, halted, StreamParent, Progress, LoopEnd, goes_on, breaks, threw,
  walk_not_over, chunk_slug, chunk_meta, halt, complete, record_chunk, Setting, conclude_round,
  execute_round, batch_round, stream_round,
}

abbrev pub upto : ℕ → List ℕ
upto zero = []
upto (suc i) = upto i ++ i ∷ []

abbrev pub chunk_file : ℕ × Option Manifest → Text × Option ChunkMeta
chunk_file (i, m) = (chunk_slug i ++ codes ".json", some (chunk_meta m))

abbrev pub is_partial : ℕ × Option Manifest → Bool
is_partial (i, m) = (chunk_meta m).partial_apply

-- The first `k` chunks were executed, none of them in part, and are recorded as completed.
pub record IsCompleted (k : ℕ) (s : Progress) (done : List (ℕ × Option Manifest)) : Type 0 where
  pub whole : All (λ c. is_partial c ≡ false) done
  pub numbered : map (λ c. c.0) done ≡ upto k
  pub completed : s.parent.completed_chunks ≡ map chunk_slug (upto k)
  pub files : s.files ≡ map chunk_file s.chunks

abbrev pub IsUnhalted : ParentStatus → StreamParent → Type 0
IsUnhalted t p = (p.status ≡ t) × (p.halted_at_chunk ≡ none) × (p.stream_partial ≡ false)

pub record IsGoing (i : ℕ) (s : Progress) : Type 0 where
  pub done : IsCompleted i s s.chunks
  pub unhalted : IsUnhalted in_progress s.parent

at_disk :
    (d : Disk) (i : ℕ) (s : Progress)
    → IsCompleted i s s.chunks
    → IsCompleted i (record s { disk = d }) s.chunks
at_disk d i s h = record {
  whole = h.whole;
  numbered = h.numbered;
  completed = h.completed;
  files = h.files;
}

-- The loop was left at chunk `i`: by a halt, with the results of the completed chunks and perhaps one that
-- was applied in part, or by an error.
abbrev pub IsLeft : ℕ → LoopEnd → Progress → Type 0
IsLeft i goes_on s = ⊥
IsLeft i (breaks k) s =
    (k ≡ i)
    × (s.parent.status ≡ halted)
    × (s.parent.halted_at_chunk ≡ some (chunk_slug i))
    × (s.parent.stream_partial ≡ true)
    × (done : List (ℕ × Option Manifest)) × IsCompleted i s done
    × ((s.chunks ≡ done)
        ⊎ ((m : Manifest) × (m.partial_apply ≡ true) × (s.chunks ≡ done ++ (i, some m) ∷ [])))
IsLeft i (threw e) s = IsUnhalted in_progress s.parent × IsCompleted i s s.chunks
IsLeft i walk_not_over s = ⊥

abbrev pub IsRound : ℕ → LoopEnd × Progress → Type 0
IsRound i (e, s) = ((e ≡ goes_on) × IsGoing (suc i) s) ⊎ IsLeft i e s

All-snoc {ℓ} :
    {A : Type ℓ} (P : A → Type 0) (xs : List A) (x : A) → All P xs → P x → All P (xs ++ x ∷ [])
All-snoc P [] x a h = (h, tt)
All-snoc P (y ∷ xs) x (q, a) h = (q, All-snoc P xs x a h)

map-snoc {ℓ κ} :
    {A : Type ℓ} {B : Type κ} (f : A → B) (xs : List A) (x : A)
    → map f (xs ++ x ∷ []) ≡ map f xs ++ f x ∷ []
map-snoc f [] x = refl
map-snoc f (y ∷ xs) x = ap (λ ys. f y ∷ ys) (map-snoc f xs x)

-- The file of a chunk's result is written as the result is kept.
files-snoc :
    (s : Progress) (c : ℕ × Option Manifest)
    → s.files ≡ map chunk_file s.chunks
    → s.files ++ chunk_file c ∷ [] ≡ map chunk_file (s.chunks ++ c ∷ [])
files-snoc s c e = ap (λ fs. fs ++ chunk_file c ∷ []) e ∙ sym (map-snoc chunk_file s.chunks c)

record_chunk-IsRound :
    (i : ℕ) (m : Option Manifest) (s : Progress) → IsGoing i s → IsRound i (record_chunk i m s)
unfolding record_chunk halt complete
record_chunk-IsRound i m s h = elim (Bool-cases (is_partial (i, m))) [
  | inl p ↦
      let left : (x : Manifest) × (x.partial_apply ≡ true)
          × (s.chunks ++ (i, m) ∷ [] ≡ s.chunks ++ (i, some x) ∷ []) =
        elim (Option-cases m) [
          | inl e ↦ absurd (ground (arith, e, p))
          | inr (x, e) ↦ (x, ground (arith, e, p), rw e refl)
        ] in
      rw p (
        inr (
          refl,
          refl,
          refl,
          refl,
          s.chunks,
          record {
            whole = h.done.whole;
            numbered = h.done.numbered;
            completed = h.done.completed;
            files = files-snoc s (i, m) h.done.files;
          },
          inr left,
        ))
  | inr p ↦ rw p (
      inl (
        refl,
        record {
          done = record {
            whole = All-snoc (λ c. is_partial c ≡ false) s.chunks (i, m) h.done.whole p;
            numbered =
                map-snoc (λ c. c.0) s.chunks (i, m) ∙ ap (λ ns. ns ++ i ∷ []) h.done.numbered;
            completed =
                ap (λ ss. ss ++ chunk_slug i ∷ []) h.done.completed
                ∙ sym (map-snoc chunk_slug (upto i) i);
            files = files-snoc s (i, m) h.done.files;
          };
          unhalted = h.unhalted;
        },
      ))
]

conclude_round-IsRound :
    (i : ℕ) (r : Result SnapshotError (Option Manifest) × Disk) (s : Progress)
    → IsGoing i s
    → IsRound i (conclude_round i r s)
unfolding conclude_round
conclude_round-IsRound i (err e, d) s h = inr (h.unhalted, at_disk d i s h.done)
conclude_round-IsRound i (ok m, d) s h =
    record_chunk-IsRound i m (record s { disk = d })
      (record { done = at_disk d i s h.done; unhalted = h.unhalted })

execute_round-IsRound :
    (g : Setting) (i : ℕ) (consent : String) (ops : List CleanOperation) (s : Progress)
    → IsGoing i s
    → IsRound i (execute_round g i consent ops s)
unfolding execute_round halt
execute_round-IsRound g i consent [] s h = inr (
  refl,
  refl,
  refl,
  refl,
  s.chunks,
  record {
    whole = h.done.whole;
    numbered = h.done.numbered;
    completed = h.done.completed;
    files = h.done.files;
  },
  inl refl,
)
execute_round-IsRound g i consent (op ∷ ops) s h = conclude_round-IsRound i _ s h

compose_pairs_total :
    (at : ℕ → Moment) (home : Text) (allowed : ExecutionClass → Bool) (i : ℕ) (ps : List Pair)
    (b : Batch)
    → ((j : ℕ) → IsFinite (at j).view)
    → (b' : Batch) × (compose_pairs at home allowed i ps b ≡ some b')
unfolding compose_pairs
compose_pairs_total at home allowed i [] b finite = (b, refl)
compose_pairs_total at home allowed i (p ∷ ps) b finite =
    let m = at i in
    let (plan, drifted, e, checked, selected, kept) =
      compose_clean_plan-IsSelection m.view m.read home m.findings
        (record { target = p.target; path = p.path; allowed_execution_classes = allowed })
        (finite i) in
    let (b', q) = compose_pairs_total at home allowed (suc i) ps (add_plan plan b) finite in
    (b', rw (e, compose_pairs) q)

compose_batch_clean_plan_total :
    (at : ℕ → Moment) (home : Text) (r : BatchRequest)
    → ((j : ℕ) → IsFinite (at j).view)
    → (b : Batch) × (compose_batch_clean_plan at home r ≡ some b)
unfolding compose_batch_clean_plan
compose_batch_clean_plan_total at home r finite =
    elim (Bool-cases (ltb (batch_cap r.cap) (length r.pairs))) [
      | inl over ↦ (empty_batch (refusal_of batch_pair_cap_exceeded ∷ []), rw over refl)
      | inr fits ↦
          let (b, q) =
            compose_pairs_total at home r.allowed_execution_classes 0 r.pairs (empty_batch [])
              finite in
          (within_budget r.skip_aggregate_budget b, rw (fits, q, compose_batch_clean_plan) refl)
    ]

-- Every file system that a chunk is composed on is finite.
abbrev pub AreFinite : Setting → Type 0
AreFinite g = (i j : ℕ) → IsFinite (g.at i j).view

pub stream_round-IsRound :
    (g : Setting) (i : ℕ) (chunk : List Pair) (s : Progress)
    → AreFinite g
    → IsGoing i s
    → IsRound i (stream_round g i chunk s)
unfolding stream_round batch_round
stream_round-IsRound g i chunk s finite h =
    let (b, e) =
      compose_batch_clean_plan_total (g.at i) g.home (chunk_request g.allowed chunk) (finite i) in
    rw (stream_round, e) (execute_round-IsRound g i (g.consent b) b.operations s h)
