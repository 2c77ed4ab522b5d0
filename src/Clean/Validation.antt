-- ===== src/Clean/Validation.antt =====
-- scripts/lib/clean-plan.mjs: `validateCleanPlan`, on the findings and the view of the moment of the call. The
-- time that a valid plan is marked with is left out.
use claude_housekeeper.Base.{
  [], ◌≡◌, ◌∙◌, refl, sym, ap, inl, inr, Bool, true, false, ◌&&◌, String, Option, none, some, List,
  ◌∷◌, In, any, filter, map, if◌then◌else◌, is_some, str_eq, eq_refl, arith, Bool-cases,
  Option-cases,
}
use claude_housekeeper.Contracts.{Text}
use claude_housekeeper.Posix.{text_eq, text_eq_refl, text_eq_sound}
use claude_housekeeper.Policy.{ReadJson, ProtectionRule, load_config}
use claude_housekeeper.Audit.{Finding}
use claude_housekeeper.Snapshot.{blocking_rule}
use claude_housekeeper.Clean.View.{View, has_mcp_server}
use claude_housekeeper.Clean.Acceptance.{classify_finding_iff}
use claude_housekeeper.Clean.Compose.{
  CleanOperation, Refusal, CleanPlan, Request, hash_report, compose_clean_plan, context_of,
  drifted_paths, sort_candidates, keep_one, sort_operations, candidates_of, is_there, for_rules,
  build_operation,
}
use claude_housekeeper.Clean.Selection.{
  IsFromAccepted, keep_one-IsSelection, sort_candidates-IsSorting,
}

-- The values of `PlanDriftError`.
pub data Drift : Type 0 where
  report_changed policy_changed mcp_gained : Drift

-- The loop over the operations: the first that is protected now, or that has an MCP server.
unfoldable pub recheck_operations :
    View → List ProtectionRule → Text → List CleanOperation → Option Drift
recheck_operations v rules home [] = none
recheck_operations v rules home (op ∷ ops) =
    if is_some (blocking_rule home op.target_path rules)
    then some policy_changed
    else if v.exists op.target_path && has_mcp_server v op.target_path
    then some mcp_gained
    else recheck_operations v rules home ops

-- `validateCleanPlan`: the error that it throws, or `none` where it returns.
unfoldable pub validate_clean_plan :
    View → (Text → ReadJson) → Text → List Finding → CleanPlan → Option Drift
unfolding recheck_operations
validate_clean_plan v read home fs plan =
    if str_eq (hash_report v fs) plan.report_hash
    then recheck_operations v (load_config read home none).rules home plan.operations
    else some report_changed

-- A candidate with the property is among the paths of those that have it.
pub any_path :
    (p : Finding → Bool) (f : Finding) (fs : List Finding)
    → In f fs
    → p f ≡ true
    → any (text_eq f.target_path) (map (λ g. g.target_path) (filter p fs)) ≡ true
any_path p f [] i h = elim i [ ]
any_path p f (g ∷ fs) (inl e) h =
    let k : p g ≡ true = ap p (sym e) ∙ h in
    let q : text_eq f.target_path g.target_path ≡ true =
      ap (λ x. text_eq f.target_path x.target_path) (sym e) ∙ text_eq_refl f.target_path in
    rw k (rw q refl)
any_path p f (g ∷ fs) (inr m) h = elim (Bool-cases (p g)) [
  | inl k ↦ rw k (elim (Bool-cases (text_eq f.target_path g.target_path)) [
    | inl q ↦ rw q refl
    | inr q ↦ rw q (any_path p f fs m h)
  ])
  | inr k ↦ rw k (any_path p f fs m h)
]

pub build_operation-target_path :
    (v : View) (f : Finding) (op : CleanOperation)
    → build_operation v f ≡ some op
    → op.target_path ≡ f.target_path
unfolding build_operation
build_operation-target_path v f op e = ground arith

recheck_operations-none :
    (v : View) (rules : List ProtectionRule) (home : Text) (ops : List CleanOperation)
    → ((op : CleanOperation)
        → In op ops
        → (blocking_rule home op.target_path rules ≡ none)
          × ((v.exists op.target_path && has_mcp_server v op.target_path) ≡ false))
    → recheck_operations v rules home ops ≡ none
unfolding recheck_operations
recheck_operations-none v rules home [] h = refl
recheck_operations-none v rules home (op ∷ ops) h =
    let (p, q) = h op (inl refl) in
    rw (p, q) (recheck_operations-none v rules home ops (λ o i. h o (inr i)))

keep_one-report_hash :
    (hash : String) (ops : List CleanOperation) (rs : List Refusal)
    → (keep_one hash ops rs).report_hash ≡ hash
unfolding keep_one
keep_one-report_hash hash [] rs = refl
keep_one-report_hash hash (op ∷ ops) rs = refl

module _ (v : View) (home : Text) (rules : List ProtectionRule) (r : Request) (fs : List Finding)
    (drifted : List Text) where
  IsFromAccepted-recheck :
      (op : CleanOperation)
      → v.exists [] ≡ false
      → IsFromAccepted v (context_of v home rules r fs drifted) (candidates_of r fs) op
      → (blocking_rule home op.target_path rules ≡ none)
        × ((v.exists op.target_path && has_mcp_server v op.target_path) ≡ false)
  unfolding context_of
  IsFromAccepted-recheck op bare h =
      let f = h.finding in
      let same = build_operation-target_path v f op h.built in
      let c =
        (classify_finding_iff (for_rules f) (context_of v home rules r fs drifted)).0 h.verdict in
      let found = λ (g : Finding). is_there v g && has_mcp_server v g.target_path in
      rw same (
        c.unprotected,
        elim (Bool-cases (text_eq f.target_path [])) [
          | inl none_given ↦ rw (text_eq_sound f.target_path [] none_given) (ground (arith, bare))
          | inr given ↦ elim (Bool-cases (found f)) [
            | inl served ↦
                absurd
                  (ground (arith, c.no_mcp, any_path found f (candidates_of r fs) h.member served))
            | inr unserved ↦ ground (arith, given, unserved)
          ]
        ],
      )

-- A plan that was composed is valid at once: on the same report, files and configuration, where no file
-- has the empty path, `validateCleanPlan` finds no drift in it.
pub compose-validate_clean_plan :
    (v : View) (read : Text → ReadJson) (home : Text) (fs : List Finding) (r : Request)
    (plan : CleanPlan)
    → v.exists [] ≡ false
    → compose_clean_plan v read home fs r ≡ some plan
    → validate_clean_plan v read home fs plan ≡ none
unfolding compose_clean_plan validate_clean_plan
compose-validate_clean_plan v read home fs r plan bare e =
    elim (Option-cases (drifted_paths v home (candidates_of r fs))) [
      | inl q ↦ absurd (ground arith)
      | inr (drifted, q) ↦
          let rules = (load_config read home none).rules in
          let c = context_of v home rules r fs drifted in
          elim (Option-cases (sort_candidates v c (candidates_of r fs))) [
            | inl t ↦ absurd (ground arith)
            | inr ((ops, rs), t) ↦
                let same : keep_one (hash_report v fs) (sort_operations ops) rs ≡ plan =
                  ground arith in
                let s =
                  keep_one-IsSelection v c (hash_report v fs) (candidates_of r fs) ops rs
                    (sort_candidates-IsSorting v c (candidates_of r fs) ops rs t) in
                rw (← same) (
                  rw
                    (
                      keep_one-report_hash (hash_report v fs) (sort_operations ops) rs,
                      eq_refl (hash_report v fs),
                    )
                    (recheck_operations-none v rules home _ (λ op i.
                      IsFromAccepted-recheck v home rules r fs drifted op bare (s.chosen op i))))
          ]
    ]
