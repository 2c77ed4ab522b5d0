-- ===== src/Clean/Compose.antt =====
-- scripts/lib/clean-plan.mjs: `composeCleanPlan`, on the findings of the report and a view of the file
-- system. Messages, next steps, the composition time and the lines of the learning log are left out.
use claude_housekeeper.Base.{
  ℕ, Bool, true, false, not, ◌&&◌, ◌||◌, ◌==◌, ltb, String, Option, none, some, List, [], ◌∷◌, ◌++◌,
  filter, map, if◌then◌else◌, or_else, str_eq, any,
}
use claude_housekeeper.Contracts.{Text, ExecutionClass}
use claude_housekeeper.Posix.{text_eq}
use claude_housekeeper.Policy.{ReadJson, load_config, ProtectionRule}
use claude_housekeeper.Observe.{Kind, Stat}
use claude_housekeeper.Gc.{text_lt}
use claude_housekeeper.Lock.{is_held}
use claude_housekeeper.Audit.{Finding}
use claude_housekeeper.Clean.{
  CleanReason, no_mutation_mapping, Verdict, accepted, refused, Context, classify_finding,
  stale_lock, local_command_identical,
}
use claude_housekeeper.Clean as Rules
use claude_housekeeper.Clean.View.{
  View, walk_dir, estimate_bytes, has_mcp_server, basename_md, any_plugin_command_matches_hash,
}

-- The kinds that a plan's operation may have; the composition makes the first two.
pub data MutationKind : Type 0 where
  dir_rmtree file_unlink json_rewrite settings_rewrite : MutationKind

pub record CleanOperation : Type 0 where
  pub detector_id : String
  pub target_path : Text
  pub mutation_kind : MutationKind
  pub estimated_bytes : ℕ
  pub expanded_files : List Text

pub record Refusal : Type 0 where
  pub reason : CleanReason
  pub target_path : Text
  pub detector_id : String

pub record CleanPlan : Type 0 where
  pub operations : List CleanOperation
  pub refused : List Refusal
  pub report_hash : String

-- The options of a call; an empty path stands for no path.
pub record Request : Type 0 where
  pub target : String
  pub path : Text
  pub allowed_execution_classes : ExecutionClass → Bool

-- `hashReport`
unfoldable pub hash_report : View → List Finding → String
hash_report v fs = v.digest (map (λ f. (f.id, f.target_path, f.stance)) fs)

abbrev pub paths_of : String → List Finding → List Text
paths_of id fs = map (λ f. f.target_path) (filter (λ f. str_eq f.id id) fs)

-- The findings that a request asks for.
unfoldable pub candidates_of : Request → List Finding → List Finding
candidates_of r fs =
    filter (λ f. str_eq f.id r.target && (text_eq r.path [] || text_eq f.target_path r.path)) fs

abbrev pub is_there : View → Finding → Bool
is_there v f = not (text_eq f.target_path []) && v.exists f.target_path

abbrev pub is_symlink : Option Stat → Bool
is_symlink none = false
is_symlink (some s) = elim s.kind [ Kind.symlink ↦ true | _ ↦ false ]

-- `freshLockPaths`: the stored times are read as `acquireLock` reads them.
unfoldable pub is_fresh_lock : View → Finding → Bool
is_fresh_lock v f =
    str_eq f.id stale_lock && is_there v f && is_held v.now (v.lock_text f.target_path)

-- `driftedLocalCommandPaths`
unfoldable pub drifted_paths : View → Text → List Finding → Option (List Text)
drifted_paths v home [] = some []
drifted_paths v home (f ∷ fs) =
    let rest = drifted_paths v home fs in
    if str_eq f.id local_command_identical && is_there v f
    then elim (any_plugin_command_matches_hash v home (basename_md f.target_path)
        (or_else (v.sha256 f.target_path) "")) [
          | none ↦ none
          | some matched ↦
              if matched
              then rest
              else (elim rest [ none ↦ none | some ps ↦ some (f.target_path ∷ ps) ])
        ]
    else rest

-- The sets that the classifier is given.
unfoldable pub context_of :
    View → Text → List ProtectionRule → Request → List Finding → List Text → Context
unfolding is_fresh_lock candidates_of
context_of v home rules r fs drifted =
    let candidates = candidates_of r fs in
    let paths = λ (p : Finding → Bool). map (λ f. f.target_path) (filter p candidates) in
    record {
      home = home;
      interruptions = paths_of "housekeeper.interrupted_operation" fs;
      symlinked_paths = paths (λ f. is_there v f && is_symlink (v.lstat f.target_path));
      mcp_paths = paths (λ f. is_there v f && has_mcp_server v f.target_path);
      ref_by_hook_paths = paths_of "plugin.cache_referenced_by_hook" fs;
      do_not_touch_rules = rules;
      fresh_lock_paths = paths (is_fresh_lock v);
      drifted_local_command_paths = drifted;
      allowed_execution_classes = r.allowed_execution_classes;
    }

-- What the classifier reads of a report's finding.
abbrev pub for_rules : Finding → Rules.Finding
for_rules f = record {
  id = f.id;
  target_path = f.target_path;
  surface = some f.surface;
  policy_matches = f.policy_matches;
}

-- `FILE_UNLINK_DETECTORS_V02`
abbrev pub file_unlink_detectors : List String
file_unlink_detectors = stale_lock ∷ local_command_identical ∷ "registry.command_dangling" ∷ []

abbrev pub operation : Finding → MutationKind → ℕ → List Text → CleanOperation
operation f kind bytes files = record {
  detector_id = f.id;
  target_path = f.target_path;
  mutation_kind = kind;
  estimated_bytes = bytes;
  expanded_files = files;
}

-- The operation for an accepted finding; `none` is a walk that is not over.
unfoldable pub build_operation : View → Finding → Option CleanOperation
build_operation v f =
    let p = f.target_path in
    if any (str_eq f.id) file_unlink_detectors
    then some
        (operation f file_unlink (if v.exists p then or_else (v.stat_size p) 0 else 0) (p ∷ []))
    else if v.exists p
    then elim (walk_dir v p) [
      | none ↦ none
      | some files ↦ some (operation f dir_rmtree (estimate_bytes v files) files)
    ]
    else some (operation f dir_rmtree 0 [])

abbrev pub refusal : CleanReason → Finding → Refusal
refusal reason f = record { reason = reason; target_path = f.target_path; detector_id = f.id }

abbrev pub Sorted : Type 0
Sorted = Option (List CleanOperation × List Refusal)

abbrev pub add_refusal : Refusal → Sorted → Sorted
add_refusal r none = none
add_refusal r (some (ops, rs)) = some (ops, r ∷ rs)

abbrev pub add_operation : Option CleanOperation → Sorted → Sorted
add_operation none _ = none
add_operation (some op) none = none
add_operation (some op) (some (ops, rs)) = some (op ∷ ops, rs)

-- The loop over the candidates: the operations, and the refusals.
unfoldable pub sort_candidates : View → Context → List Finding → Sorted
unfolding build_operation
sort_candidates v c [] = some ([], [])
sort_candidates v c (f ∷ fs) =
    let rest = sort_candidates v c fs in
    elim (classify_finding (for_rules f) c) [
      | refused reason ↦ add_refusal (refusal reason f) rest
      | accepted ↦ add_operation (build_operation v f) rest
    ]

-- The order of `operations.sort`: by bytes, then by path.
abbrev pub comes_first : CleanOperation → CleanOperation → Bool
comes_first a b =
    ltb a.estimated_bytes b.estimated_bytes
    || a.estimated_bytes == b.estimated_bytes && text_lt a.target_path b.target_path

unfoldable pub insert_operation : CleanOperation → List CleanOperation → List CleanOperation
insert_operation o [] = o ∷ []
insert_operation o (p ∷ ps) = if comes_first p o then p ∷ insert_operation o ps else o ∷ p ∷ ps

unfoldable pub sort_operations : List CleanOperation → List CleanOperation
unfolding insert_operation
sort_operations [] = []
sort_operations (o ∷ os) = insert_operation o (sort_operations os)

-- The refusal of an operation that is left for another call.
abbrev pub left_over : CleanOperation → Refusal
left_over op = record {
  reason = no_mutation_mapping;
  target_path = op.target_path;
  detector_id = op.detector_id;
}

-- One operation for each plan.
unfoldable pub keep_one : String → List CleanOperation → List Refusal → CleanPlan
keep_one hash [] rs = record { operations = []; refused = rs; report_hash = hash }
keep_one hash (o ∷ os) rs = record {
  operations = o ∷ [];
  refused = rs ++ map left_over os;
  report_hash = hash;
}

-- `composeCleanPlan`; `none` is a walk that is not over.
unfoldable pub compose_clean_plan :
    View → (Text → ReadJson) → Text → List Finding → Request → Option CleanPlan
unfolding sort_candidates sort_operations keep_one context_of drifted_paths
compose_clean_plan v read home fs r = elim (drifted_paths v home (candidates_of r fs)) [
  | none ↦ none
  | some drifted ↦
      elim (sort_candidates v (context_of v home (load_config read home none).rules r fs drifted)
        (candidates_of r fs)) [
          | none ↦ none
          | some (ops, rs) ↦ some (keep_one (hash_report v fs) (sort_operations ops) rs)
        ]
]
