-- ===== src/Clean/Walks.antt =====
-- The walks of scripts/lib/clean-plan.mjs end: `walkDir` follows no link, so a tree that is finite is read to
-- its end, and a plan is composed.
use mathlib.Core.List.{Perm}
use mathlib.Core.List.Perm
use claude_housekeeper.Base.{
  ℕ, zero, suc, ◌+◌, ◌≤◌, ◌<◌, ◌≡◌, refl, Bool, true, false, ◌&&◌, none, some, List, [], ◌∷◌, ◌++◌,
  map, arith, inl, inr, Bool-cases, Option-cases, String, str_eq, or_else, any, if◌then◌else◌,
}
use claude_housekeeper.Contracts.{Text}
use claude_housekeeper.Posix.{codes, join}
use claude_housekeeper.Policy.{ReadJson, load_config}
use claude_housekeeper.Observe.{Kind}
use claude_housekeeper.Audit.{Finding}
use claude_housekeeper.Clean.{Context, classify_finding, local_command_identical}
use claude_housekeeper.Clean.View.{
  View, Plugin, estimate_bytes, listed_files, push_directories, walk_rounds, walk_dir, install_path,
  any_match, any_plugin_matches, any_plugin_command_matches_hash, basename_md,
}
use claude_housekeeper.Clean.Compose.{
  CleanOperation, Refusal, CleanPlan, Request, candidates_of, context_of, drifted_paths, for_rules,
  is_there, build_operation, file_unlink_detectors, operation, dir_rmtree, file_unlink, refusal,
  sort_candidates, sort_operations, keep_one, compose_clean_plan, hash_report,
}
use claude_housekeeper.Clean.Accounting.{keys, finding_key, keep_one-perm, sort_candidates-perm}
use claude_housekeeper.Clean.Selection.{
  IsSelection, sort_candidates-IsSorting, keep_one-IsSelection, Verdict-cases,
}

-- The directories on a stack and those below them, for a bound on the directories below each.
abbrev pub weight : (Text → ℕ) → List Text → ℕ
weight size [] = 0
weight size (p ∷ ps) = suc (size p) + weight size ps

-- The tree is finite: each directory has a bound on the directories below it, which counts those of its
-- entries, and the model allows a walk that many rounds.
pub record IsFinite (v : View) : Type 0 where
  pub size : Text → ℕ
  pub nested :
      (p : Text) (es : List (Text × Kind))
      → v.list p ≡ some es
      → weight size (push_directories p es []) ≤ size p
  pub bounded : (p : Text) → size p < v.rounds

weight-push_directories :
    (size : Text → ℕ) (p : Text) (es : List (Text × Kind)) (stack : List Text)
    → weight size (push_directories p es stack)
      ≡ weight size (push_directories p es []) + weight size stack
unfolding push_directories
weight-push_directories size p [] stack = omega arith
weight-push_directories size p ((name, Kind.symlink) ∷ es) stack =
    weight-push_directories size p es stack
weight-push_directories size p ((name, Kind.file) ∷ es) stack =
    weight-push_directories size p es stack
weight-push_directories size p ((name, Kind.other) ∷ es) stack =
    weight-push_directories size p es stack
weight-push_directories size p ((name, Kind.directory) ∷ es) stack = omega (
  arith,
  weight-push_directories size p es (join p name ∷ stack),
  weight-push_directories size p es (join p name ∷ []),
)

module _ (v : View) (finite : IsFinite v) where
  walk_rounds_total :
      (n : ℕ) (stack out : List Text)
      → weight finite.size stack ≤ n
      → (files : List Text) × (walk_rounds n v stack out ≡ some files)
  unfolding walk_rounds
  walk_rounds_total zero [] out h = (out, refl)
  walk_rounds_total zero (p ∷ stack) out h = absurd (omega arith)
  walk_rounds_total (suc n) [] out h = (out, refl)
  walk_rounds_total (suc n) (p ∷ stack) out h = elim (Option-cases (v.list p)) [
    | inl e ↦ rw (e, walk_rounds) (walk_rounds_total n stack out (omega arith))
    | inr (es, e) ↦
        rw (e, walk_rounds)
          (walk_rounds_total n (push_directories p es stack) (out ++ listed_files p es)
            (omega (arith, weight-push_directories finite.size p es stack, finite.nested p es e)))
  ]

  walk_dir_total : (p : Text) → (files : List Text) × (walk_dir v p ≡ some files)
  unfolding walk_dir
  walk_dir_total p = walk_rounds_total v.rounds (p ∷ []) [] (omega (arith, finite.bounded p))

  any_plugin_matches_total :
      (home command : Text) (want : String) (rs : List Plugin)
      → (b : Bool) × (any_plugin_matches v home command want rs ≡ some b)
  unfolding any_plugin_matches
  any_plugin_matches_total home command want [] = (false, refl)
  any_plugin_matches_total home command want (r ∷ rs) =
      let dir = join (install_path home r) (codes "commands") in
      let (b, rest) = any_plugin_matches_total home command want rs in
      let (files, walked) = walk_dir_total dir in
      elim (Bool-cases (v.exists dir)) [
        | inl e ↦ elim (Bool-cases (any_match v dir command want files)) [
          | inl m ↦ (true, rw (e, walked, any_plugin_matches, m) refl)
          | inr m ↦ (b, rw (e, walked, any_plugin_matches, m) rest)
        ]
        | inr e ↦ (b, rw e rest)
      ]

  any_plugin_command_matches_hash_total :
      (home command : Text) (want : String)
      → (b : Bool) × (any_plugin_command_matches_hash v home command want ≡ some b)
  unfolding any_plugin_command_matches_hash
  any_plugin_command_matches_hash_total home command want = elim (Bool-cases (str_eq want "")) [
    | inl e ↦ (false, rw e refl)
    | inr e ↦ rw e (any_plugin_matches_total home command want v.installed)
  ]

  drifted_paths_total :
      (home : Text) (fs : List Finding) → (ps : List Text) × (drifted_paths v home fs ≡ some ps)
  unfolding drifted_paths
  drifted_paths_total home [] = ([], refl)
  drifted_paths_total home (f ∷ fs) =
      let (ps, rest) = drifted_paths_total home fs in
      let (b, matched) =
        any_plugin_command_matches_hash_total home (basename_md f.target_path)
          (or_else (v.sha256 f.target_path) "") in
      elim (Bool-cases (str_eq f.id local_command_identical && is_there v f)) [
        | inl e ↦ elim (Bool-cases b) [
          | inl m ↦ (ps, rw (e, matched, drifted_paths, m) rest)
          | inr m ↦ (f.target_path ∷ ps, rw (e, matched, drifted_paths, m, rest) refl)
        ]
        | inr e ↦ (ps, rw e rest)
      ]

  build_operation_total : (f : Finding) → (op : CleanOperation) × (build_operation v f ≡ some op)
  unfolding build_operation
  build_operation_total f =
      let (files, walked) = walk_dir_total f.target_path in
      elim (Bool-cases (any (str_eq f.id) file_unlink_detectors)) [
        | inl e ↦ (
          operation f file_unlink
              (if v.exists f.target_path then or_else (v.stat_size f.target_path) 0 else 0)
              (f.target_path ∷ []),
          rw e refl,
        )
        | inr e ↦ elim (Bool-cases (v.exists f.target_path)) [
          | inl t ↦ (
            operation f dir_rmtree (estimate_bytes v files) files,
            rw (e, t, walked, build_operation) refl,
          )
          | inr t ↦ (operation f dir_rmtree 0 [], rw (e, t) refl)
        ]
      ]

  sort_candidates_total :
      (c : Context) (fs : List Finding)
      → (ops : List CleanOperation) × (rs : List Refusal) × (sort_candidates v c fs
          ≡ some (ops, rs))
  unfolding sort_candidates
  sort_candidates_total c [] = ([], [], refl)
  sort_candidates_total c (f ∷ fs) =
      let (ops, rs, rest) = sort_candidates_total c fs in
      let (op, built) = build_operation_total f in
      elim (Verdict-cases (classify_finding (for_rules f) c)) [
        | inl a ↦ (op ∷ ops, rs, rw (a, rest, built, sort_candidates) refl)
        | inr (r, a) ↦ (ops, refusal r f ∷ rs, rw (a, rest, sort_candidates) refl)
      ]

-- On a finite file system a plan is composed. The paths and detectors of its operations and refusals are
-- those of the candidates, each as often; it has one operation exactly where a candidate is accepted: that of
-- an accepted candidate, and every other accepted candidate's operation removes more bytes, or as many under
-- a path that is not before it.
pub compose_clean_plan-IsSelection :
    (v : View) (read : Text → ReadJson) (home : Text) (fs : List Finding) (r : Request)
    → IsFinite v
    → (plan : CleanPlan) × (drifted : List Text) × (compose_clean_plan v read home fs r ≡ some plan)
      × (drifted_paths v home (candidates_of r fs) ≡ some drifted)
      × IsSelection v
          (context_of v home (load_config read home none).rules r fs drifted)
          (candidates_of r fs)
          plan
      × Perm (keys plan.operations plan.refused) (map finding_key (candidates_of r fs))
unfolding compose_clean_plan
compose_clean_plan-IsSelection v read home fs r finite =
    let (drifted, checked) = drifted_paths_total v finite home (candidates_of r fs) in
    let c = context_of v home (load_config read home none).rules r fs drifted in
    let (ops, rs, found) = sort_candidates_total v finite c (candidates_of r fs) in
    (
      keep_one (hash_report v fs) (sort_operations ops) rs,
      drifted,
      rw (checked, compose_clean_plan, found) refl,
      checked,
      keep_one-IsSelection v c (hash_report v fs) (candidates_of r fs) ops rs
          (sort_candidates-IsSorting v c (candidates_of r fs) ops rs found),
      Perm.trans (keep_one-perm (hash_report v fs) ops rs)
          (sort_candidates-perm v c (candidates_of r fs) ops rs found),
    )
