-- ===== src/Snapshot.antt =====
-- scripts/lib/snapshot.mjs: budgets, the snapshot writer, and the operations on a manifest
-- (`applyOperation`, `verify`, `gcSnapshots`). A call returns its result or error and the disk; a disk
-- that was written to before an error stays written.
pub mod Gate
pub mod Capture
pub mod Config
use claude_housekeeper.Base.{
  [], ℕ, suc, ◌+◌, ◌*◌, false, ◌&&◌, ◌||◌, ltb, String, Option, none, some, List, ◌∷◌, ◌++◌, length,
  if◌then◌else◌, is_some, Result, ok, err,
}
use Prim.Native.Nat.{◌/◌, ◌%◌}
use claude_housekeeper.Contracts.{Text}
use claude_housekeeper.Posix.{codes, join, basename, text_eq}
use claude_housekeeper.Policy.{
  ReadJson, ProtectionRule, load_config, path_matches_protection, has_path,
}
use claude_housekeeper.Disk.{
  Host, Node, regular, link, Nodes, stat_node, node_bytes, atomic_write, Status, snapshot_taken,
  FileSnapshot, Manifest, manifest, Disk, put_manifest, snapshot_dir,
}

abbrev pub max_operation_files : ℕ
max_operation_files = 50

abbrev pub max_operation_bytes : ℕ
max_operation_bytes = 10 * 1024 * 1024

-- An entry of `blockedByProtection`.
pub record Blocked : Type 0 where
  pub path : Text
  pub rule : Text
  pub reason : String

pub data SnapshotError : Type 0 where
  refused_protected : List Blocked → SnapshotError
  refused_budget : ℕ → ℕ → SnapshotError
  io_error : Text → SnapshotError
  state_error : Text → Status → Status → SnapshotError
  drift : Text → String → String → SnapshotError
  manifest_unreadable : Text → SnapshotError

pub record SnapshotOptions : Type 0 where
  pub targets : List Text
  pub command : String
  pub mode : String
  pub consent_summary : String
  pub housekeeper_version : String

-- The sum of the `stat` sizes; a path that cannot be read throws.
unfoldable pub total_bytes : Host → Nodes → List Text → Result SnapshotError ℕ
total_bytes h ns [] = ok 0
total_bytes h ns (t ∷ ts) = elim (stat_node h ns t) [
  | none ↦ err (io_error t)
  | some node ↦ elim (total_bytes h ns ts) [
    | err e ↦ err e
    | ok n ↦ ok (length (node_bytes node) + n)
  ]
]

-- The first rule that covers a target.
unfoldable pub blocking_rule : Text → Text → List ProtectionRule → Option Blocked
blocking_rule home t [] = none
blocking_rule home t (r ∷ rs) = elim r.path [
  | none ↦ blocking_rule home t rs
  | some p ↦
      if has_path (some p) && path_matches_protection p t home
      then some (record { path = t; rule = p; reason = r.reason })
      else blocking_rule home t rs
]

unfoldable pub blocked_targets : Text → List ProtectionRule → List Text → List Blocked
blocked_targets home rules [] = []
blocked_targets home rules (t ∷ ts) = elim (blocking_rule home t rules) [
  | none ↦ blocked_targets home rules ts
  | some b ↦ b ∷ blocked_targets home rules ts
]

-- `String(seq).padStart(4, "0")` below 10000
abbrev pub pad4 : ℕ → Text
pad4 i = (48 + i / 1000 % 10) ∷ (48 + i / 100 % 10) ∷ (48 + i / 10 % 10) ∷ (48 + i % 10) ∷ []

-- `join(filesDir, seqStr + "_" + basename(path))`, whose parts are normalized already
unfoldable pub snapshot_file_path : Text → ℕ → Text → Text
snapshot_file_path dir seq t = dir ++ (codes "/files/" ++ (pad4 seq ++ (codes "_" ++ basename t)))

abbrev pub link_target : Node → Option Text
link_target (regular _ _) = none
link_target (link t) = some t

abbrev pub mode_bits : Node → ℕ
mode_bits (regular m _) = m
mode_bits (link _) = 511

-- The manifest entry of one target.
unfoldable pub file_entry : Host → Text → ℕ → Text → Node → FileSnapshot
unfolding snapshot_file_path
file_entry h dir seq t node = record {
  seq = seq;
  original_path = t;
  snapshot_path = snapshot_file_path dir seq t;
  sha_before = h.sha256 (node_bytes node);
  sha_after = none;
  mode = mode_bits node;
  size = length (node_bytes node);
  is_symlink = is_some (link_target node);
  symlink_target = link_target node;
  verify_failure = false;
  rollback_skipped = false;
  is_applied = none;
  rollback_verified = false;
}

abbrev pub prepend {ℓ κ μ} :
    {E : Type ℓ} {A : Type κ} {S : Type μ} → A → Result E (List A) × S → Result E (List A) × S
prepend a (ok as', s) = (ok (a ∷ as'), s)
prepend a (err e, s) = (err e, s)

-- The copying loop of `takeSnapshot`, from the sequence number `seq` on.
unfoldable pub copy_targets :
    Host → Text → ℕ → List Text → Nodes → Result SnapshotError (List FileSnapshot) × Nodes
copy_targets h dir seq [] ns = (ok [], ns)
copy_targets h dir seq (t ∷ ts) ns = elim (ns t) [
  | none ↦ (err (io_error t), ns)
  | some node ↦ prepend (file_entry h dir seq t node) (
      copy_targets h dir (suc seq) ts
        (atomic_write h ns (snapshot_file_path dir seq t) (node_bytes node)))
]

abbrev pub new_manifest : Text → Text → SnapshotOptions → ℕ → List FileSnapshot → Manifest
new_manifest id home o now files = record {
  id = id;
  home = home;
  status = snapshot_taken;
  created_at = now;
  captured_at = now;
  applied_at = none;
  verified_at = none;
  rolled_back_at = none;
  aborted_at = none;
  housekeeper_version = o.housekeeper_version;
  command = o.command;
  mode = o.mode;
  consent_summary = o.consent_summary;
  files = files;
  partial_apply = false;
  blocked_by_protection = [];
}

-- The disk once the snapshot directory is made and these files are there.
abbrev pub with_tree : Disk → Text → Nodes → Disk
with_tree d id ns = record d { nodes = ns; snapshot_dirs = λ i. text_eq id i || d.snapshot_dirs i }

-- The last writes of `takeSnapshot`, after its copying loop: meta.json, and the manifest last.
unfoldable pub finish_snapshot :
    Host
    → Text
    → Text
    → Text
    → SnapshotOptions
    → ℕ
    → Disk
    → Result SnapshotError (List FileSnapshot) × Nodes
    → Result SnapshotError Manifest × Disk
finish_snapshot h home id dir o now d (err e, ns) = (err e, with_tree d id ns)
finish_snapshot h home id dir o now d (ok files, ns) =
    let m = new_manifest id home o now files in
    (
      ok m,
      put_manifest
          (with_tree d id (atomic_write h ns (dir ++ codes "/meta.json") (h.encode_meta id now))) id
          (some (manifest m)),
    )

-- The writes of `takeSnapshot`, after its refusals.
unfoldable pub write_snapshot :
    Host → Text → Text → SnapshotOptions → ℕ → Disk → Result SnapshotError Manifest × Disk
write_snapshot h home id o now d =
    let dir = snapshot_dir (join home (codes ".claude")) id in
    finish_snapshot h home id dir o now d (copy_targets h dir 0 o.targets d.nodes)

-- The rest of `takeSnapshot`, after its protection check.
unfoldable pub snapshot_unblocked :
    Host
    → Text
    → Text
    → SnapshotOptions
    → ℕ
    → Disk
    → List Blocked
    → Result SnapshotError Manifest × Disk
snapshot_unblocked h home id o now d (b ∷ bs) = (err (refused_protected (b ∷ bs)), d)
snapshot_unblocked h home id o now d [] = write_snapshot h home id o now d

-- The rest of `takeSnapshot`, after its byte count.
unfoldable pub snapshot_counted :
    Host
    → (Text → ReadJson)
    → Text
    → Text
    → SnapshotOptions
    → ℕ
    → Disk
    → Result SnapshotError ℕ
    → Result SnapshotError Manifest × Disk
snapshot_counted h read home id o now d (err e) = (err e, d)
snapshot_counted h read home id o now d (ok bytes) =
    if ltb max_operation_bytes bytes
    then (err (refused_budget (length o.targets) bytes), d)
    else snapshot_unblocked h home id o now d
        (blocked_targets home (load_config read home none).rules o.targets)

-- `takeSnapshot`: the budget first, then the protection rules, then the writes. The id that
-- `generateOpId` draws and the clock are arguments.
unfoldable pub take_snapshot :
    Host
    → (Text → ReadJson)
    → Text
    → Text
    → SnapshotOptions
    → ℕ
    → Disk
    → Result SnapshotError Manifest × Disk
take_snapshot h read home id o now d =
    if ltb max_operation_files (length o.targets)
    then (err (refused_budget (length o.targets) 0), d)
    else snapshot_counted h read home id o now d (total_bytes h d.nodes o.targets)
