-- ===== src/Clean/Safety.antt =====
-- Which files a plan of `composeCleanPlan` in scripts/lib/clean-plan.mjs never names.
use claude_housekeeper.Base.{
  [], ◌≡◌, refl, inl, inr, Bool, false, ◌&&◌, none, some, List, ◌∷◌, In, any, filter, map, All,
  or_else, str_eq, arith, Bool-cases, Option-cases,
}
use claude_housekeeper.Contracts.{Text}
use claude_housekeeper.Posix.{codes, text_eq, text_eq_sound, basename, starts_with, split_sep}
use claude_housekeeper.Policy.{
  ReadJson, ProtectionRule, has_path, path_matches_protection, load_config,
}
use claude_housekeeper.Audit.{Finding}
use claude_housekeeper.Snapshot.{blocking_rule}
use claude_housekeeper.Clean.{with_slashes, is_sector_boundary, is_credential_segment}
use claude_housekeeper.Clean.View.{View, has_mcp_server}
use claude_housekeeper.Clean.Acceptance.{classify_finding_iff, any-false, not_sector_boundary}
use claude_housekeeper.Clean.Compose.{
  CleanOperation, CleanPlan, Request, hash_report, compose_clean_plan, context_of, drifted_paths,
  sort_candidates, keep_one, sort_operations, candidates_of, is_there, is_symlink, for_rules,
}
use claude_housekeeper.Clean.Selection.{
  IsFromAccepted, keep_one-IsSelection, sort_candidates-IsSorting,
}
use claude_housekeeper.Clean.Validation.{any_path, build_operation-target_path}

-- A path that no rule covers, that is no `.env` file, and that has no segment `credentials` or `secrets`, with
-- either slash.
pub record IsOutside (home : Text) (rules : List ProtectionRule) (t : Text) : Type 0 where
  pub uncovered :
      All
        (λ r. (has_path r.path && path_matches_protection (or_else r.path []) t home) ≡ false)
        rules
  pub segments :
      All
        (λ s. (text_eq s (codes "credentials") ≡ false) × (text_eq s (codes "secrets") ≡ false))
        (split_sep (with_slashes t))
  pub no_env : text_eq (basename (with_slashes t)) (codes ".env") ≡ false
  pub no_env_variant : starts_with (basename (with_slashes t)) (codes ".env.") ≡ false

-- The target is outside, it is no link and has no MCP server, no finding of the report says that a hook refers to
-- it, and no finding says that an operation was interrupted.
pub record IsSafe (v : View) (home : Text) (rules : List ProtectionRule) (fs : List Finding)
    (t : Text) : Type 0 where
  pub outside : IsOutside home rules t
  pub no_link : (v.exists t && is_symlink (v.lstat t)) ≡ false
  pub no_mcp : (v.exists t && has_mcp_server v t) ≡ false
  pub no_hook :
      All
        (λ g. (str_eq g.id "plugin.cache_referenced_by_hook" && text_eq t g.target_path) ≡ false)
        fs
  pub settled : All (λ g. str_eq g.id "housekeeper.interrupted_operation" ≡ false) fs

blocking_rule-uncovered :
    (home t : Text) (rules : List ProtectionRule)
    → blocking_rule home t rules ≡ none
    → All
        (λ r. (has_path r.path && path_matches_protection (or_else r.path []) t home) ≡ false)
        rules
unfolding blocking_rule
blocking_rule-uncovered home t [] e = tt
blocking_rule-uncovered home t (r ∷ rs) e = elim (Option-cases r.path) [
  | inl n ↦ (ground (arith, n), blocking_rule-uncovered home t rs (ground (arith, n, e)))
  | inr (p, q) ↦
      let c : (has_path (some p) && path_matches_protection p t home) ≡ false =
        ground (arith, q, e) in
      (rw q c, blocking_rule-uncovered home t rs (ground (arith, q, e, c)))
]

-- No path of those that have a property is the text.
any_path_false :
    (p : Finding → Bool) (t : Text) (fs : List Finding)
    → any (text_eq t) (map (λ g. g.target_path) (filter p fs)) ≡ false
    → All (λ g. (p g && text_eq t g.target_path) ≡ false) fs
any_path_false p t [] e = tt
any_path_false p t (g ∷ fs) e = elim (Bool-cases (p g)) [
  | inl k ↦ (ground (arith, k, e), any_path_false p t fs (ground (arith, k, e)))
  | inr k ↦ (ground (arith, k), any_path_false p t fs (ground (arith, k, e)))
]

no_path :
    (p : Finding → Bool) (fs : List Finding)
    → map (λ g. g.target_path) (filter p fs) ≡ []
    → All (λ g. p g ≡ false) fs
no_path p [] e = tt
no_path p (g ∷ fs) e = elim (Bool-cases (p g)) [
  | inl k ↦ absurd (ground (arith, k, e))
  | inr k ↦ (k, no_path p fs (ground (arith, k, e)))
]

both_false :
    (ss : List Text)
    → All (λ s. is_credential_segment s ≡ false) ss
    → All
        (λ s. (text_eq s (codes "credentials") ≡ false) × (text_eq s (codes "secrets") ≡ false))
        ss
both_false [] a = tt
both_false (s ∷ ss) (p, a) = (ground (arith, p), both_false ss a)

not_sector_boundary-no_env :
    (t home : Text)
    → is_sector_boundary t home ≡ false
    → (text_eq (basename (with_slashes t)) (codes ".env") ≡ false)
      × (starts_with (basename (with_slashes t)) (codes ".env.") ≡ false)
unfolding is_sector_boundary
not_sector_boundary-no_env t home e = ground arith

not_sector_boundary-IsOutside :
    (home t : Text) (rules : List ProtectionRule)
    → blocking_rule home t rules ≡ none
    → is_sector_boundary t home ≡ false
    → IsOutside home rules t
not_sector_boundary-IsOutside home t rules b e = record {
  uncovered = blocking_rule-uncovered home t rules b;
  segments =
      both_false (split_sep (with_slashes t)) (
        any-false is_credential_segment (split_sep (with_slashes t))
          (not_sector_boundary t home e));
  no_env = (not_sector_boundary-no_env t home e).0;
  no_env_variant = (not_sector_boundary-no_env t home e).1;
}

empty-IsOutside :
    (home : Text) (rules : List ProtectionRule)
    → blocking_rule home [] rules ≡ none
    → IsOutside home rules []
unfolding basename
empty-IsOutside home rules b = record {
  uncovered = blocking_rule-uncovered home [] rules b;
  segments = ((refl, refl), tt);
  no_env = refl;
  no_env_variant = refl;
}

-- A property that a candidate does not have by the paths of those that have it.
candidate_false :
    (p : Finding → Bool) (f : Finding) (fs : List Finding)
    → In f fs
    → any (text_eq f.target_path) (map (λ g. g.target_path) (filter p fs)) ≡ false
    → p f ≡ false
candidate_false p f fs i e = elim (Bool-cases (p f)) [
  | inl k ↦ absurd (ground (arith, e, any_path p f fs i k))
  | inr k ↦ k
]

at_path :
    (v : View) (b : Bool) (f : Finding)
    → v.exists [] ≡ false
    → (is_there v f && b) ≡ false
    → (v.exists f.target_path && b) ≡ false
at_path v b f bare e = elim (Bool-cases (text_eq f.target_path [])) [
  | inl k ↦ rw (text_eq_sound f.target_path [] k) (ground (arith, bare))
  | inr k ↦ ground (arith, k, e)
]

module _ (v : View) (home : Text) (rules : List ProtectionRule) (r : Request) (fs : List Finding)
    (drifted : List Text) where
  IsFromAccepted-IsSafe :
      (op : CleanOperation)
      → v.exists [] ≡ false
      → IsFromAccepted v (context_of v home rules r fs drifted) (candidates_of r fs) op
      → IsSafe v home rules fs op.target_path
  unfolding context_of
  IsFromAccepted-IsSafe op bare h =
      let f = h.finding in
      let candidates = candidates_of r fs in
      let c =
        (classify_finding_iff (for_rules f) (context_of v home rules r fs drifted)).0 h.verdict in
      rw (build_operation-target_path v f op h.built) (record {
        outside = elim (Bool-cases (text_eq f.target_path [])) [
          | inl k ↦
              let same = text_eq_sound f.target_path [] k in
              let b : blocking_rule home [] rules ≡ none = rw same at c.unprotected in
              rw same (empty-IsOutside home rules b)
          | inr k ↦
              not_sector_boundary-IsOutside home f.target_path rules c.unprotected
                (ground (arith, k, c.inside))
        ];
        no_link = at_path v (is_symlink (v.lstat f.target_path)) f bare (
            candidate_false (λ g. is_there v g && is_symlink (v.lstat g.target_path)) f candidates
              h.member c.no_symlink);
        no_mcp = at_path v (has_mcp_server v f.target_path) f bare (
            candidate_false (λ g. is_there v g && has_mcp_server v g.target_path) f candidates
              h.member c.no_mcp);
        no_hook =
            any_path_false (λ g. str_eq g.id "plugin.cache_referenced_by_hook") f.target_path fs
              c.no_hook;
        settled = no_path (λ g. str_eq g.id "housekeeper.interrupted_operation") fs c.settled;
      })

-- Every operation of a composed plan has a target that no rule of the configuration covers, that is no `.env`
-- file and has no segment `credentials` or `secrets`, that is no symbolic link and has no MCP server, and that
-- no finding says a hook refers to; and a plan with an operation is composed only where no finding says that an
-- operation was interrupted. No file has the empty path.
pub compose_clean_plan-IsSafe :
    (v : View) (read : Text → ReadJson) (home : Text) (fs : List Finding) (r : Request)
    (plan : CleanPlan) (op : CleanOperation)
    → v.exists [] ≡ false
    → compose_clean_plan v read home fs r ≡ some plan
    → In op plan.operations
    → IsSafe v home (load_config read home none).rules fs op.target_path
unfolding compose_clean_plan
compose_clean_plan-IsSafe v read home fs r plan op bare e i =
    elim (Option-cases (drifted_paths v home (candidates_of r fs))) [
      | inl q ↦ absurd (ground arith)
      | inr (drifted, q) ↦
          let rules = (load_config read home none).rules in
          let c = context_of v home rules r fs drifted in
          elim (Option-cases (sort_candidates v c (candidates_of r fs))) [
            | inl t ↦ absurd (ground arith)
            | inr ((ops, rs), t) ↦
                let same : keep_one (hash_report v fs) (sort_operations ops) rs ≡ plan =
                  ground arith in
                let s =
                  keep_one-IsSelection v c (hash_report v fs) (candidates_of r fs) ops rs
                    (sort_candidates-IsSorting v c (candidates_of r fs) ops rs t) in
                IsFromAccepted-IsSafe v home rules r fs drifted op bare
                  (s.chosen op (rw (← same) at i))
          ]
    ]
