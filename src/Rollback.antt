-- ===== src/Rollback.antt =====
-- scripts/lib/rollback-plan.mjs: composing, validating and executing a rollback, and aborting an
-- operation that was not applied. Times of composition and validation are left out of the plans, and
-- so are the line for the learning log and the lock, which module Lock models.
pub mod Compose
pub mod Restore
pub mod Outcomes
use claude_housekeeper.Base.{
  [], ℕ, Bool, true, false, not, ◌&&◌, String, Option, none, some, List, ◌∷◌, map, any,
  if◌then◌else◌, str_eq, or_else, Result, ok, err, and_then,
}
use claude_housekeeper.Contracts.{Text}
use claude_housekeeper.Posix.{text_eq}
use claude_housekeeper.Disk.{
  Host, Nodes, exists, hash_file, copy_file, remove_tree, Status, planned, snapshot_taken, applied,
  verified, rolled_back, aborted, FileSnapshot, Manifest, Stored, malformed, manifest, Disk,
  put_manifest, snapshot_dir, read_manifest,
}

-- `ROLLBACKABLE_STATUSES`
abbrev pub is_rollbackable : Status → Bool
is_rollbackable applied = true
is_rollbackable verified = true
is_rollbackable snapshot_taken = true
is_rollbackable _ = false

pub data RefusalReason : Type 0 where
  manifest_not_found manifest_malformed manifest_not_rollbackable snapshot_tree_missing
        snapshot_tree_incomplete :
      RefusalReason
  drift_detected : Option String → Option String → RefusalReason

-- `makeRefusal`, without its message
pub record Refusal : Type 0 where
  pub reason : RefusalReason
  pub target_path : Text

-- The kind of a `rollbackOp`: the one that `ROLLBACK_REGISTRY` holds, or another.
pub data RollbackKind : Type 0 where
  file_restore_from_snapshot unregistered : RollbackKind

pub record RollbackOp : Type 0 where
  pub original_path : Text
  pub sha_before : String
  pub sha_after : Option String
  pub snapshot_path : Text
  pub kind : RollbackKind

pub record Plan : Type 0 where
  pub op_id : Text
  pub operations : List RollbackOp
  pub refused : List Refusal

pub data RollbackError : Type 0 where
  plan_drift : Text → Option String → Option String → RollbackError
  snapshot_integrity : Text → String → Option String → RollbackError
  kind_not_implemented : RollbackError
  abort_not_allowed : Status → RollbackError
  manifest_unreadable : RollbackError
  io_error : Text → RollbackError

abbrev pub empty_plan : Text → RefusalReason → Text → Plan
empty_plan id reason target = record {
  op_id = id;
  operations = [];
  refused = record { reason = reason; target_path = target } ∷ [];
}

-- `expectedPostApplyHash`; `none` expects the file to be gone.
abbrev pub expected_hash : Status → FileSnapshot → Option String
expected_hash snapshot_taken e = some e.sha_before
expected_hash _ e = e.sha_after

-- `detectDrift`: the expected and the actual hash where they differ.
unfoldable pub drift_from :
    Host → Nodes → Text → Option String → Option (Option String × Option String)
drift_from h ns p none =
    if exists h ns p then some (none, some (or_else (hash_file h ns p) "present")) else none
drift_from h ns p (some sha) =
    if exists h ns p
    then elim (hash_file h ns p) [
      | none ↦ some (some sha, none)
      | some actual ↦ if str_eq actual sha then none else some (some sha, some actual)
    ]
    else some (some sha, none)

unfoldable pub detect_drift :
    Host → Nodes → Status → FileSnapshot → Option (Option String × Option String)
unfolding drift_from
detect_drift h ns s e = drift_from h ns e.original_path (expected_hash s e)

-- `makeOperation`
abbrev pub make_operation : FileSnapshot → RollbackOp
make_operation e = record {
  original_path = e.original_path;
  sha_before = e.sha_before;
  sha_after = e.sha_after;
  snapshot_path = e.snapshot_path;
  kind = file_restore_from_snapshot;
}

abbrev pub has_snapshot : Host → Nodes → FileSnapshot → Bool
has_snapshot h ns e = not (text_eq e.snapshot_path []) && exists h ns e.snapshot_path

-- The first entry of a manifest whose snapshot file is missing.
unfoldable pub first_incomplete : Host → Nodes → List FileSnapshot → Option FileSnapshot
first_incomplete h ns [] = none
first_incomplete h ns (e ∷ es) = if has_snapshot h ns e then first_incomplete h ns es else some e

-- The first entry whose file is not in its post-apply state.
unfoldable pub first_drifted :
    Host
    → Nodes
    → Status
    → List FileSnapshot
    → Option (FileSnapshot × Option String × Option String)
first_drifted h ns s [] = none
first_drifted h ns s (e ∷ es) = elim (detect_drift h ns s e) [
  | none ↦ first_drifted h ns s es
  | some (expected, actual) ↦ some (e, expected, actual)
]

-- The checks of `composeRollbackPlan` on the files of a rollbackable manifest.
unfoldable pub compose_files : Host → Nodes → Text → Status → List FileSnapshot → Plan
unfolding first_incomplete first_drifted
compose_files h ns id s files = elim (first_incomplete h ns files) [
  | some e ↦ empty_plan id snapshot_tree_incomplete e.original_path
  | none ↦ elim (first_drifted h ns s files) [
    | some (e, expected, actual) ↦ empty_plan id (drift_detected expected actual) e.original_path
    | none ↦ record { op_id = id; operations = map make_operation files; refused = [] }
  ]
]

unfoldable pub compose_stored : Host → Disk → Text → Option Stored → Plan
unfolding compose_files
compose_stored h d id none = empty_plan id manifest_not_found []
compose_stored h d id (some malformed) = empty_plan id manifest_malformed []
compose_stored h d id (some (manifest m)) =
    if is_rollbackable m.status
    then (if d.snapshot_dirs id
        then compose_files h d.nodes id m.status m.files
        else empty_plan id snapshot_tree_missing [])
    else empty_plan id manifest_not_rollbackable []

-- `composeRollbackPlan` on an operation id
unfoldable pub compose_rollback_plan : Host → Disk → Text → Plan
unfolding compose_stored
compose_rollback_plan h d id = compose_stored h d id (d.manifests id)

-- The first snapshot file that is missing or does not hash to `sha256Before`.
unfoldable pub first_corrupt : Host → Nodes → List FileSnapshot → Option RollbackError
first_corrupt h ns [] = none
first_corrupt h ns (e ∷ es) =
    if has_snapshot h ns e
    then elim (hash_file h ns e.snapshot_path) [
      | none ↦ some (io_error e.snapshot_path)
      | some actual ↦
          if str_eq actual e.sha_before
          then first_corrupt h ns es
          else some (snapshot_integrity e.snapshot_path e.sha_before (some actual))
    ]
    else some (snapshot_integrity e.snapshot_path e.sha_before none)

-- `validateRollbackPlan`
unfoldable pub validate_rollback_plan : Host → Disk → Plan → Result RollbackError Plan
unfolding first_drifted first_corrupt
validate_rollback_plan h d plan = elim plan.refused [
  | _ ∷ _ ↦ ok plan
  | [] ↦ elim (read_manifest d plan.op_id) [
    | none ↦ err manifest_unreadable
    | some m ↦ elim (first_drifted h d.nodes m.status m.files) [
      | some (e, expected, actual) ↦ err (plan_drift e.original_path expected actual)
      | none ↦ elim (first_corrupt h d.nodes m.files) [
        | some x ↦ err x
        | none ↦ ok (record plan { operations = map make_operation m.files })
      ]
    ]
  ]
]

-- The restore of one operation: the copy, and the check of what it left. The files come back after
-- an error too.
unfoldable pub restore_one : Host → RollbackOp → Nodes → Result RollbackError (Unit {0}) × Nodes
restore_one h op ns = elim op.kind [
  | unregistered ↦ (err kind_not_implemented, ns)
  | file_restore_from_snapshot ↦ elim (copy_file h ns op.snapshot_path op.original_path) [
    | none ↦ (err (io_error op.snapshot_path), ns)
    | some after ↦ elim (hash_file h after op.original_path) [
      | none ↦ (err (io_error op.original_path), after)
      | some actual ↦
          if str_eq actual op.sha_before
          then (ok tt, after)
          else (err (snapshot_integrity op.snapshot_path op.sha_before (some actual)), after)
    ]
  ]
]

-- The restore loop of `executeRollbackPlan`.
unfoldable pub restore_all :
    Host → List RollbackOp → Nodes → Result RollbackError (Unit {0}) × Nodes
restore_all h [] ns = (ok tt, ns)
restore_all h (op ∷ ops) ns = and_then (restore_one h op ns) (λ _ after. restore_all h ops after)

-- `entry.rollbackVerified = true` for the entry that `filesByPath` holds for a path: the last one.
unfoldable pub mark_restored : Text → List FileSnapshot → List FileSnapshot
mark_restored p [] = []
mark_restored p (e ∷ es) =
    if text_eq p e.original_path && not (any (λ f. text_eq p f.original_path) es)
    then record e { rollback_verified = true } ∷ es
    else e ∷ mark_restored p es

unfoldable pub mark_all_restored : List RollbackOp → List FileSnapshot → List FileSnapshot
unfolding mark_restored
mark_all_restored [] files = files
mark_all_restored (op ∷ ops) files = mark_all_restored ops (mark_restored op.original_path files)

-- What `executeRollbackPlan` writes after its loop, which left these files.
unfoldable pub conclude_rollback :
    Plan
    → ℕ
    → Disk
    → Manifest
    → Result RollbackError (Unit {0}) × Nodes
    → Result RollbackError Manifest × Disk
unfolding mark_all_restored
conclude_rollback plan now d m (err x, ns) = (err x, record d { nodes = ns })
conclude_rollback plan now d m (ok _, ns) =
    let m' = record m {
      files = mark_all_restored plan.operations m.files;
      status = rolled_back;
      rolled_back_at = some now;
    } in
    (ok m', put_manifest (record d { nodes = ns }) plan.op_id (some (manifest m')))

-- `executeRollbackPlan`, between taking the lock and releasing it
unfoldable pub execute_rollback_plan : Host → Plan → ℕ → Disk → Result RollbackError Manifest × Disk
unfolding conclude_rollback
execute_rollback_plan h plan now d = elim (read_manifest d plan.op_id) [
  | none ↦ (err manifest_unreadable, d)
  | some m ↦ conclude_rollback plan now d m (restore_all h plan.operations d.nodes)
]

abbrev pub is_abortable : Status → Bool
is_abortable snapshot_taken = true
is_abortable planned = true
is_abortable _ = false

-- `abortRollbackOperation`, between taking the lock and releasing it; `claude` is the Claude directory
unfoldable pub abort_rollback_operation :
    Text → Text → ℕ → Disk → Result RollbackError Manifest × Disk
abort_rollback_operation claude id now d = elim (read_manifest d id) [
  | none ↦ (err manifest_unreadable, d)
  | some m ↦
      if is_abortable m.status
      then (let m' = record m { status = aborted; aborted_at = some now } in
          let removed = record d {
            nodes = remove_tree d.nodes (snapshot_dir claude id);
            snapshot_dirs = λ i. if text_eq id i then false else d.snapshot_dirs i;
          } in
          (ok m', put_manifest removed id (some (manifest m'))))
      else (err (abort_not_allowed m.status), d)
]
