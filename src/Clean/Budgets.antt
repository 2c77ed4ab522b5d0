-- ===== src/Clean/Budgets.antt =====
-- The budgets of a batch, and the chunks of a stream, of scripts/lib/clean-plan.mjs.
use claude_housekeeper.Base.{
  ℕ, zero, suc, ◌+◌, ◌≤◌, ◌≡◌, refl, Bool, false, ltb, ltb-false→le, Option, none, some, inl, inr,
  List, [], ◌∷◌, map, length, length-append, length-map, arith, Bool-cases, Option-cases, String,
}
use claude_housekeeper.Contracts.{Text, ExecutionClass}
use claude_housekeeper.Policy.{ReadJson, load_config}
use claude_housekeeper.Audit.{Finding}
use claude_housekeeper.Snapshot.{max_operation_files, max_operation_bytes}
use claude_housekeeper.Clean.View.{View}
use claude_housekeeper.Clean.Compose.{
  CleanOperation, Refusal, CleanPlan, Request, compose_clean_plan, keep_one, candidates_of,
  drifted_paths, context_of, sort_candidates, sort_operations, hash_report,
}
use claude_housekeeper.Clean.Execution.{Removal, dir_of, flatten_operations}
use claude_housekeeper.Clean.Batch.{
  batch_cap, batch_max_pairs, Pair, Moment, BatchRequest, Batch, kept_operations, add_plan,
  compose_pairs, total_files, total_estimate, within_budget, empty_batch, compose_batch_clean_plan,
}

length-flatten_operations :
    (ops : List CleanOperation) → length (flatten_operations ops) ≡ total_files ops
unfolding flatten_operations total_files
length-flatten_operations [] = refl
length-flatten_operations (op ∷ ops) =
    let f : Text → Removal = λ p. record { path = p; dir = dir_of op } in
    omega (
      arith,
      length-append (map f op.expanded_files) (flatten_operations ops),
      length-map op.expanded_files f,
      length-flatten_operations ops,
    )

keep_one-single :
    (hash : String) (ops : List CleanOperation) (rs : List Refusal)
    → length (keep_one hash ops rs).operations ≤ 1
unfolding keep_one
keep_one-single hash [] rs = omega arith
keep_one-single hash (o ∷ os) rs = omega arith

compose_clean_plan-single :
    (v : View) (read : Text → ReadJson) (home : Text) (fs : List Finding) (r : Request)
    (plan : CleanPlan)
    → compose_clean_plan v read home fs r ≡ some plan
    → length plan.operations ≤ 1
unfolding compose_clean_plan
compose_clean_plan-single v read home fs r plan e =
    elim (Option-cases (drifted_paths v home (candidates_of r fs))) [
      | inl q ↦ absurd (ground arith)
      | inr (drifted, q) ↦
          let c = context_of v home (load_config read home none).rules r fs drifted in
          elim (Option-cases (sort_candidates v c (candidates_of r fs))) [
            | inl p ↦ absurd (ground arith)
            | inr ((ops, rs), p) ↦
                let same : keep_one (hash_report v fs) (sort_operations ops) rs ≡ plan =
                  ground arith in
                rw (← same) (keep_one-single (hash_report v fs) (sort_operations ops) rs)
          ]
    ]

length-kept_operations : (ops : List CleanOperation) → length (kept_operations ops) ≤ length ops
unfolding kept_operations
length-kept_operations [] = omega arith
length-kept_operations (op ∷ ops) = ground (arith, length-kept_operations ops)

compose_pairs-length :
    (at : ℕ → Moment) (home : Text) (allowed : ExecutionClass → Bool) (i : ℕ) (ps : List Pair)
    (b b' : Batch)
    → compose_pairs at home allowed i ps b ≡ some b'
    → length b'.operations ≤ length b.operations + length ps
unfolding compose_pairs add_plan
compose_pairs-length at home allowed i [] b b' e =
    let same : b ≡ b' = ground arith in rw (← same) (omega arith)
compose_pairs-length at home allowed i (p ∷ ps) b b' e =
    let m = at i in
    let r : Request = record {
      target = p.target;
      path = p.path;
      allowed_execution_classes = allowed;
    } in
    elim (Option-cases (compose_clean_plan m.view m.read home m.findings r)) [
      | inl q ↦ absurd (ground arith)
      | inr (plan, q) ↦
          let ih =
            compose_pairs-length at home allowed (suc i) ps (add_plan plan b) b' (ground arith) in
          let one = compose_clean_plan-single m.view m.read home m.findings r plan q in
          omega (
            arith,
            ih,
            one,
            length-kept_operations plan.operations,
            length-append b.operations (kept_operations plan.operations),
          )
    ]

within_budget-bounds :
    (b : Batch)
    → let b' = within_budget false b in
      (total_files b'.operations ≤ max_operation_files)
      × (total_estimate b'.operations ≤ max_operation_bytes)
      × (length b'.operations ≤ length b.operations)
unfolding within_budget
within_budget-bounds b = elim (Bool-cases (ltb max_operation_files (total_files b.operations))) [
  | inl f ↦ rw f (unfold total_files total_estimate in (omega arith, omega arith, omega arith))
  | inr f ↦ elim (Bool-cases (ltb max_operation_bytes (total_estimate b.operations))) [
    | inl g ↦
        rw (f, g) (unfold total_files total_estimate in (omega arith, omega arith, omega arith))
    | inr g ↦ rw (f, g) (ltb-false→le _ _ f, ltb-false→le _ _ g, omega arith)
  ]
]

batch_cap_bounds : (o : Option ℕ) → (1 ≤ batch_cap o) × (batch_cap o ≤ batch_max_pairs)
unfolding batch_cap
batch_cap_bounds none = omega arith
batch_cap_bounds (some zero) = omega arith
batch_cap_bounds (some (suc n)) = omega arith

-- A batch that is composed with the aggregate budget has at most 50 files, counted over all its
-- operations, which are estimated at no more than 10 MiB, and no more operations than its cap, which is
-- at most 50: the snapshot of the batch is not refused for its number of files.
pub compose_batch_clean_plan_bounds :
    (at : ℕ → Moment) (home : Text) (r : BatchRequest) (b : Batch)
    → compose_batch_clean_plan at home r ≡ some b
    → r.skip_aggregate_budget ≡ false
    → (length (flatten_operations b.operations) ≤ max_operation_files)
      × (total_estimate b.operations ≤ max_operation_bytes)
      × (length b.operations ≤ batch_cap r.cap)
      × (batch_cap r.cap ≤ batch_max_pairs)
unfolding compose_batch_clean_plan
compose_batch_clean_plan_bounds at home r b e s =
    elim (Bool-cases (ltb (batch_cap r.cap) (length r.pairs))) [
      | inl over ↦
          let nothing : b.operations ≡ [] = ground arith in
          let bound = (batch_cap_bounds r.cap).1 in
          rw nothing (
            unfold flatten_operations total_estimate in
            (omega arith, omega arith, omega arith, bound))
      | inr fits ↦
          elim (Option-cases
            (compose_pairs at home r.allowed_execution_classes 0 r.pairs (empty_batch []))) [
              | inl q ↦ absurd (ground arith)
              | inr (c, q) ↦
                  let same : b ≡ within_budget false c = ground arith in
                  let (f, g, k) = within_budget-bounds c in
                  let n =
                    compose_pairs-length at home r.allowed_execution_classes 0 r.pairs
                      (empty_batch []) c q in
                  rw same (
                    omega (arith, f, length-flatten_operations (within_budget false c).operations),
                    g,
                    omega (arith, k, n, ltb-false→le _ _ fits),
                    (batch_cap_bounds r.cap).1,
                  )
            ]
    ]
