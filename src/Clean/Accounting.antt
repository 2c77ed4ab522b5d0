-- ===== src/Clean/Accounting.antt =====
-- No candidate of `composeCleanPlan` in scripts/lib/clean-plan.mjs is lost: its path and detector stand in an
-- operation or in a refusal of the plan.
use mathlib.Core.List.{Perm, perm_middle}
use mathlib.Core.List.Perm
use claude_housekeeper.Base.{
  [], ◌≡◌, refl, String, some, List, ◌∷◌, ◌++◌, map, arith, inl, inr, Bool-cases, Option-cases,
}
use claude_housekeeper.Contracts.{Text}
use claude_housekeeper.Audit.{Finding}
use claude_housekeeper.Clean.{Context, classify_finding}
use claude_housekeeper.Clean.View.{View}
use claude_housekeeper.Clean.Compose.{
  CleanOperation, Refusal, refusal, for_rules, build_operation, sort_candidates, comes_first,
  insert_operation, sort_operations, keep_one, left_over,
}
use claude_housekeeper.Clean.Selection.{Verdict-cases}

abbrev pub finding_key : Finding → Text × String
finding_key f = (f.target_path, f.id)

abbrev pub operation_key : CleanOperation → Text × String
operation_key o = (o.target_path, o.detector_id)

abbrev pub refusal_key : Refusal → Text × String
refusal_key r = (r.target_path, r.detector_id)

-- The path and the detector of every operation and every refusal.
abbrev pub keys : List CleanOperation → List Refusal → List (Text × String)
keys ops rs = map operation_key ops ++ map refusal_key rs

build_operation-key :
    (v : View) (f : Finding) (op : CleanOperation)
    → build_operation v f ≡ some op
    → operation_key op ≡ finding_key f
unfolding build_operation
build_operation-key v f op e =
    let p : op.target_path ≡ f.target_path = ground arith in
    let d : op.detector_id ≡ f.id = ground arith in rw (p, d) refl

pub sort_candidates-perm :
    (v : View) (c : Context) (fs : List Finding) (ops : List CleanOperation) (rs : List Refusal)
    → sort_candidates v c fs ≡ some (ops, rs)
    → Perm (keys ops rs) (map finding_key fs)
unfolding sort_candidates
sort_candidates-perm v c [] ops rs e =
    let p : ops ≡ [] = ground arith in let q : rs ≡ [] = ground arith in rw (p, q) (Perm.refl [])
sort_candidates-perm v c (f ∷ fs) ops rs e = elim (Option-cases (sort_candidates v c fs)) [
  | inl q ↦ elim (Verdict-cases (classify_finding (for_rules f) c)) [
    | inl a ↦ elim (Option-cases (build_operation v f)) [
      | inl b ↦ absurd (ground arith)
      | inr (op, b) ↦ absurd (ground arith)
    ]
    | inr (r, a) ↦ absurd (ground arith)
  ]
  | inr ((os, ss), q) ↦
      let h = sort_candidates-perm v c fs os ss q in
      elim (Verdict-cases (classify_finding (for_rules f) c)) [
        | inl a ↦ elim (Option-cases (build_operation v f)) [
          | inl b ↦ absurd (ground arith)
          | inr (op, b) ↦
              let p : ops ≡ op ∷ os = ground arith in
              let t : rs ≡ ss = ground arith in
              rw (p, t, build_operation-key v f op b) (Perm.cons (finding_key f) h)
        ]
        | inr (r, a) ↦
            let p : ops ≡ os = ground arith in
            let t : rs ≡ refusal r f ∷ ss = ground arith in
            rw (p, t)
              (Perm.trans (perm_middle (map operation_key os) (map refusal_key ss))
                (Perm.cons (finding_key f) h))
      ]
]

insert_operation-perm :
    (o : CleanOperation) (ps : List CleanOperation) → Perm (insert_operation o ps) (o ∷ ps)
unfolding insert_operation
insert_operation-perm o [] = Perm.refl (o ∷ [])
insert_operation-perm o (p ∷ ps) = elim (Bool-cases (comes_first p o)) [
  | inl e ↦ rw e (Perm.trans (Perm.cons p (insert_operation-perm o ps)) (Perm.swap o p ps))
  | inr e ↦ rw e (Perm.refl (o ∷ p ∷ ps))
]

sort_operations-perm : (ops : List CleanOperation) → Perm (sort_operations ops) ops
unfolding sort_operations
sort_operations-perm [] = Perm.refl []
sort_operations-perm (o ∷ os) =
    Perm.trans (insert_operation-perm o (sort_operations os))
      (Perm.cons o (sort_operations-perm os))

-- The operations that are left over follow the refusals.
left_over-perm :
    (rs : List Refusal) (os : List CleanOperation)
    → Perm (map refusal_key (rs ++ map left_over os)) (keys os rs)
left_over-perm [] [] = Perm.refl []
left_over-perm [] (o ∷ os) = Perm.cons (operation_key o) (left_over-perm [] os)
left_over-perm (r ∷ rs) os =
    Perm.trans (Perm.cons (refusal_key r) (left_over-perm rs os))
      (Perm.symm (perm_middle (map operation_key os) (map refusal_key rs)))

keep_one-keys :
    (hash : String) (ops : List CleanOperation) (rs : List Refusal)
    → let plan = keep_one hash ops rs in Perm (keys plan.operations plan.refused) (keys ops rs)
unfolding keep_one
keep_one-keys hash [] rs = Perm.refl (map refusal_key rs)
keep_one-keys hash (o ∷ os) rs = Perm.cons (operation_key o) (left_over-perm rs os)

pub keep_one-perm :
    (hash : String) (ops : List CleanOperation) (rs : List Refusal)
    → let plan = keep_one hash (sort_operations ops) rs in
      Perm (keys plan.operations plan.refused) (keys ops rs)
keep_one-perm hash ops rs =
    Perm.trans (keep_one-keys hash (sort_operations ops) rs)
      (Perm.append_right (map refusal_key rs) (Perm.map operation_key (sort_operations-perm ops)))
