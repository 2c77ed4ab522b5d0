-- ===== src/Examples/Rollbacks.antt =====
-- Rolling back, and aborting, the operation of the snapshot examples.
use claude_housekeeper.Base.{
  [], ◌≡◌, ◌≢◌, ◌⊎◌, ◌↔◌, refl, true, false, some, ◌∷◌, map, ok, err, All,
}
use claude_housekeeper.Contracts.{Text}
use claude_housekeeper.Posix.{codes, text_eq, basename}
use claude_housekeeper.Policy.{covers}
use claude_housekeeper.Disk.{
  regular, Nodes, put_node, stat_node, follow, exists, hash_file, copy_file, planned,
  snapshot_taken, rolled_back, aborted, Manifest, manifest, Disk, put_manifest, snapshot_dir,
}
use claude_housekeeper.Snapshot.{file_entry, snapshot_file_path}
use claude_housekeeper.Rollback.{
  Plan, abort_not_allowed, snapshot_integrity, make_operation, compose_rollback_plan, detect_drift,
  validate_rollback_plan, restore_one, restore_all, mark_all_restored, execute_rollback_plan,
  abort_rollback_operation,
}
use claude_housekeeper.Rollback.Compose.{IsRollable, compose_rollback_plan_iff}
use claude_housekeeper.Rollback.Restore.{AllRestorable, HasBytes, execute_rollback_plan_restores}
use claude_housekeeper.Rollback.Outcomes.{
  execute_rollback_plan_error, abort_rollback_operation_lem, partial_apply_not_rollable,
}
use claude_housekeeper.Examples.Snapshots.{
  host, settings, plugin, op_id, dir, captured, changed, taken, done, done_entries, disk_with,
}

abbrev plan : Plan
plan = record { op_id = op_id; operations = map make_operation done_entries; refused = [] }

-- The disk after the operation.
abbrev after_apply : Disk
after_apply = disk_with changed done

-- The same with a snapshot that was overwritten.
abbrev corrupted : Disk
corrupted =
    disk_with
      (put_node changed (snapshot_file_path dir 1 plugin) (some (regular 420 (codes "new")))) done

rollback_tests :
    (compose_rollback_plan host after_apply op_id ≡ plan)
    × (validate_rollback_plan host after_apply plan ≡ ok plan)
    × (validate_rollback_plan host corrupted plan
        ≡ err (snapshot_integrity (snapshot_file_path dir 1 plugin) "sha" (some "sha-new")))
    × ((compose_rollback_plan host (disk_with captured done) op_id).operations ≡ [])
unfolding compose_rollback_plan validate_rollback_plan snapshot_file_path file_entry exists basename
    detect_drift hash_file
rollback_tests = (refl, refl, refl, refl)

compose_rollback_plan_iff_example :
    ((compose_rollback_plan host after_apply op_id).refused ≡ [])
    ↔ ((m : Manifest) × IsRollable host after_apply op_id m)
compose_rollback_plan_iff_example = compose_rollback_plan_iff host after_apply op_id

restorable : AllRestorable host changed plan.operations
unfolding file_entry snapshot_file_path basename
restorable = (
  record {
    mode = 420;
    bytes = codes "old";
    snapshot = refl;
    hash = refl;
    unlinked = refl;
    kind = refl;
  },
  ((refl, refl), tt),
  (
    record {
      mode = 420;
      bytes = codes "code";
      snapshot = refl;
      hash = refl;
      unlinked = refl;
      kind = refl;
    },
    tt,
    tt,
  ),
)

execute_rollback_plan_restores_example :
    (m' : Manifest) × (after : Nodes) × (execute_rollback_plan host plan 8 after_apply
      ≡ (ok m', put_manifest (record after_apply { nodes = after }) op_id (some (manifest m'))))
    × (m'.status ≡ rolled_back)
    × All (HasBytes changed after) plan.operations
    × ((q : Text)
        → All (λ o. text_eq o.original_path q ≡ false) plan.operations
        → after q ≡ changed q)
execute_rollback_plan_restores_example =
    execute_rollback_plan_restores host plan 8 after_apply done refl restorable

execute_rollback_plan_error_example :
    (execute_rollback_plan host plan 8 corrupted).1.manifests ≡ corrupted.manifests
unfolding execute_rollback_plan restore_all restore_one copy_file snapshot_file_path file_entry
    basename hash_file
execute_rollback_plan_error_example =
    execute_rollback_plan_error host plan 8 corrupted
      {x = snapshot_integrity (snapshot_file_path dir 1 plugin) "sha" (some "sha-new")} refl

abbrev finished : Manifest
finished = record done {
  files = mark_all_restored plan.operations done_entries;
  status = rolled_back;
  rolled_back_at = some 8;
}

abort_rollback_operation_lem_example :
    let d = disk_with captured taken in
    let m' = record taken { status = aborted; aborted_at = some 9 } in
    let (r, d') = abort_rollback_operation (codes "/h/.claude") op_id 9 d in
    (((snapshot_taken ≡ planned) ⊎ (snapshot_taken ≡ snapshot_taken))
      × (r ≡ ok m')
      × (d'.manifests op_id ≡ some (manifest m'))
      × (d'.snapshot_dirs op_id ≡ false)
      × ((q : Text)
          → covers (snapshot_dir (codes "/h/.claude") op_id) q ≡ false
          → d'.nodes q ≡ captured q))
    ⊎ ((snapshot_taken ≢ planned)
        × (snapshot_taken ≢ snapshot_taken)
        × (r ≡ err (abort_not_allowed snapshot_taken))
        × (d' ≡ d))
abort_rollback_operation_lem_example =
    abort_rollback_operation_lem (codes "/h/.claude") op_id 9 (disk_with captured taken) taken refl

-- The settings were rewritten, and the mutation of the plugin failed and left it there.
abbrev half_done : Manifest
half_done = record done {
  partial_apply = true;
  files =
      record (file_entry host dir 0 settings (regular 420 (codes "old"))) {
        sha_after = some "sha-new";
        is_applied = some true;
      }
      ∷ record (file_entry host dir 1 plugin (regular 493 (codes "code"))) {
        is_applied = some false;
      }
      ∷ [];
}

abbrev half_disk : Disk
half_disk = disk_with (put_node captured settings (some (regular 420 (codes "new")))) half_done

partial_apply_not_rollable_example : (compose_rollback_plan host half_disk op_id).refused ≢ []
unfolding exists stat_node follow file_entry snapshot_file_path basename
partial_apply_not_rollable_example =
    partial_apply_not_rollable host half_disk op_id half_done refl refl refl
