-- ===== src/Examples/Snapshots.antt =====
-- An operation of scripts/lib/snapshot.mjs on two files of a small disk.
use claude_housekeeper.Base.{
  [], ◌≡◌, ◌⊎◌, ◌↔◌, refl, true, false, some, none, ◌∷◌, List, if◌then◌else◌, map, ok, err, All,
  arith, inl, inr, sym, ap, ◌∙◌, Bool-cases,
}
use mathlib.Core.Bool.{false≢true}
use claude_housekeeper.Contracts.{Text}
use claude_housekeeper.Posix.{codes, text_eq, text_eq_sound, starts_with, basename, join, normalize}
use claude_housekeeper.Policy.{
  ReadJson, missing, parsed, load_config, path_matches_protection, normalized_match,
}
use claude_housekeeper.Disk.{
  Host, regular, Nodes, put_node, stat_node, follow, exists, hash_file, Status, applied, verified,
  FileSnapshot, Manifest, manifest, Disk,
}
use claude_housekeeper.Snapshot.{
  SnapshotError, refused_protected, drift, SnapshotOptions, total_bytes, take_snapshot,
  write_snapshot, copy_targets, file_entry, snapshot_file_path, snapshot_counted,
  snapshot_unblocked, blocked_targets, blocking_rule,
}
use claude_housekeeper.Snapshot.Gate.{IsAllowed, take_snapshot_gate}
use claude_housekeeper.Snapshot.Capture.{Captures, copy_targets-Captures}
use claude_housekeeper.Snapshot.Config.{take_snapshot_other_config}
use claude_housekeeper.Operation.{
  Mutation, apply_operation, apply_checked, apply_entries, apply_entry, record_applied, first_drift,
  verify,
}
use claude_housekeeper.Operation.Transitions.{
  Applied, IsConfirmed, apply_operation_atomic, verify_iff,
}
use claude_housekeeper.Rollback.{make_operation, restore_all}
use claude_housekeeper.Rollback.Restore.{bytes_of}
use claude_housekeeper.RoundTrip.{captured_bytes, snapshot-restore}

-- A host whose hash tells the texts of this file apart.
abbrev pub host : Host
host = record {
  sha256 = λ b.
      if text_eq b (codes "old")
      then "sha-old"
      else if text_eq b (codes "new")
      then "sha-new"
      else "sha";
  resolve_link = λ p t. t;
  default_mode = 420;
  encode_meta = λ i n. i;
  can_store = λ i. true;
  dir_stays = λ i. false;
  manifest_stays = λ i. false;
}

abbrev pub settings : Text
settings = codes "/h/.claude/settings.json"

abbrev pub plugin : Text
plugin = codes "/h/.claude/plugin"

abbrev pub start : Nodes
start p =
    if text_eq p settings
    then some (regular 420 (codes "old"))
    else if text_eq p plugin
    then some (regular 493 (codes "code"))
    else none

abbrev pub op_id : Text
op_id = codes "op_1"

abbrev pub dir : Text
dir = codes "/h/.claude/housekeeper/snapshots/op_1"

abbrev pub two_targets : List Text
two_targets = settings ∷ plugin ∷ []

abbrev pub entries : List FileSnapshot
entries =
    file_entry host dir 0 settings (regular 420 (codes "old"))
    ∷ file_entry host dir 1 plugin (regular 493 (codes "code"))
    ∷ []

abbrev pub captured : Nodes
captured =
    put_node (put_node start (snapshot_file_path dir 0 settings) (some (regular 420 (codes "old"))))
      (snapshot_file_path dir 1 plugin) (some (regular 420 (codes "code")))

copy_targets-Captures_example :
    Captures host dir 0 start captured two_targets entries
    × ((q : Text) → starts_with q dir ≡ false → captured q ≡ start q)
unfolding copy_targets snapshot_file_path basename
copy_targets-Captures_example =
    copy_targets-Captures host dir two_targets start entries captured refl (omega arith)
      (refl, (refl, tt))

-- The settings were rewritten and the plugin deleted.
abbrev pub changed : Nodes
changed = put_node (put_node captured settings (some (regular 420 (codes "new")))) plugin none

outside-ne :
    (p q : Text) → starts_with p dir ≡ false → starts_with q dir ≡ true → text_eq p q ≡ false
outside-ne p q o e = elim (Bool-cases (text_eq p q)) [
  | inl same ↦
      absurd
        (false≢true (sym o ∙ ap (λ (x : Text). starts_with x dir) (text_eq_sound p q same) ∙ e))
  | inr other ↦ other
]

keeps_snapshots : (q : Text) → starts_with q dir ≡ true → changed q ≡ captured q
keeps_snapshots q e = rw (outside-ne plugin q refl e, outside-ne settings q refl e) refl

snapshot-restore_example :
    (final : Nodes) × (restore_all host (map make_operation entries) changed ≡ (ok tt, final))
    × All (λ t. bytes_of (final t) ≡ captured_bytes (start t)) two_targets
unfolding copy_targets snapshot_file_path basename
snapshot-restore_example =
    snapshot-restore host dir two_targets start captured changed entries refl (omega arith)
      ((refl, tt), (tt, tt)) (refl, (refl, tt)) keeps_snapshots (refl, (refl, tt))

abbrev pub options : List Text → SnapshotOptions
options ts = record {
  targets = ts;
  command = "clean";
  mode = "confirm";
  consent_summary = "";
  housekeeper_version = "0.2.0";
}

abbrev pub empty_disk : Disk
empty_disk = record { nodes = start; manifests = λ i. none; snapshot_dirs = λ i. false }

-- The user's rules are in the Claude directory of the home /h.
abbrev claude_config : Text → ReadJson
claude_config p =
    if text_eq p (codes "/h/.claude/housekeeper/config.json")
    then parsed (record {
      do_not_touch =
          some (
            some (record { check = none; path = some settings; reason = none; scope = none }) ∷ []);
      protect = none;
    })
    else missing

-- With the Claude directory as home the rule is found, and the snapshot is refused; with the home that
-- the callers pass it is not.
take_snapshot_tests :
    (take_snapshot host claude_config (codes "/h/.claude") op_id (options two_targets) 5 empty_disk
      ≡ (
        err (
            refused_protected
              (record { path = settings; rule = settings; reason = "do-not-touch rule" } ∷ [])),
        empty_disk,
      ))
    × ((load_config claude_config (codes "/h") none).rules ≡ [])
unfolding take_snapshot snapshot_counted snapshot_unblocked total_bytes blocked_targets
    blocking_rule load_config stat_node path_matches_protection normalized_match
take_snapshot_tests = (refl, refl)

take_snapshot_gate_example :
    ((e : SnapshotError) × (take_snapshot host claude_config
          (codes "/h/.claude")
          op_id
          (options two_targets)
          5
          empty_disk
        ≡ (err e, empty_disk)))
    ⊎ (IsAllowed host claude_config (codes "/h/.claude") (options two_targets) empty_disk
        × (take_snapshot host claude_config
              (codes "/h/.claude")
              op_id
              (options two_targets)
              5
              empty_disk
            ≡ write_snapshot host (codes "/h/.claude") op_id (options two_targets) 5 empty_disk))
take_snapshot_gate_example =
    take_snapshot_gate host claude_config (codes "/h/.claude") op_id (options two_targets) 5
      empty_disk

take_snapshot_other_config_example :
    take_snapshot host claude_config (codes "/h") op_id (options two_targets) 5 empty_disk
    ≡ write_snapshot host (codes "/h") op_id (options two_targets) 5 empty_disk
unfolding total_bytes stat_node follow join normalize
take_snapshot_other_config_example =
    take_snapshot_other_config host claude_config (codes "/h") op_id (options two_targets) 5
      empty_disk 7 (omega arith) refl (omega arith) refl refl

abbrev pub taken : Manifest
taken = record {
  id = op_id;
  home = codes "/h";
  status = Status.snapshot_taken;
  created_at = 5;
  captured_at = 5;
  applied_at = none;
  verified_at = none;
  rolled_back_at = none;
  aborted_at = none;
  housekeeper_version = "0.2.0";
  command = "clean";
  mode = "confirm";
  consent_summary = "";
  files = entries;
  partial_apply = false;
  blocked_by_protection = [];
}

abbrev pub disk_with : Nodes → Manifest → Disk
disk_with ns m = record {
  nodes = ns;
  manifests = λ i. if text_eq i op_id then some (manifest m) else none;
  snapshot_dirs = λ i. text_eq i op_id;
}

-- Rewrites a file, and fails on the plugin.
abbrev rewrite : Mutation
rewrite p ns =
    if text_eq p settings
    then (true, put_node ns p (some (regular 420 (codes "new"))))
    else (false, ns)

abbrev delete : Mutation
delete p ns = (true, put_node ns p none)

apply_operation_atomic_example :
    Applied host op_id
      (rewrite ∷ delete ∷ [])
      (disk_with captured taken)
      taken
      (apply_operation host op_id (rewrite ∷ delete ∷ []) 6 (disk_with captured taken))
apply_operation_atomic_example =
    apply_operation_atomic host op_id (rewrite ∷ delete ∷ []) 6 (disk_with captured taken) taken
      refl

-- What the two mutations leave, and what `verify` then says.
abbrev pub done_entries : List FileSnapshot
done_entries =
    record (file_entry host dir 0 settings (regular 420 (codes "old"))) {
      sha_after = some "sha-new";
      is_applied = some true;
    }
    ∷ record (file_entry host dir 1 plugin (regular 493 (codes "code"))) { is_applied = some true }
    ∷ []

abbrev pub done : Manifest
done = record taken { status = applied; applied_at = some 6; files = done_entries }

apply_operation_tests :
    ((apply_operation host op_id (rewrite ∷ delete ∷ []) 6 (disk_with captured taken)).0 ≡ ok done)
    × ((apply_operation host op_id (delete ∷ rewrite ∷ []) 6 (disk_with changed taken)).0
        ≡ err (drift settings "sha-old" "sha-new"))
unfolding apply_operation apply_checked apply_entries apply_entry record_applied first_drift
    hash_file exists snapshot_file_path file_entry
apply_operation_tests = (refl, refl)

verify_iff_example :
    ((m' : Manifest) × ((verify host op_id 7 (disk_with changed done)).0 ≡ ok m')
      × (m'.status ≡ verified))
    ↔ All (IsConfirmed host changed) done_entries
verify_iff_example = verify_iff host op_id 7 (disk_with changed done) done refl refl
