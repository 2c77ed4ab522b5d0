-- ===== src/Examples/Plans.antt =====
-- Clean plans of scripts/lib/clean-plan.mjs on a plugin cache with two files.
use claude_housekeeper.Base.{
  [], ◌≡◌, ◌⊎◌, refl, true, false, ◌||◌, some, none, Option, ◌∷◌, if◌then◌else◌, ok, All, arith,
  inl, inr, Bool-cases, sym, ap, ◌∙◌, Result,
}
use mathlib.Core.Bool.{false≢true}
use claude_housekeeper.Contracts.{Text}
use claude_housekeeper.Posix.{
  codes, text_eq, text_eq_sound, text_eq_comm, starts_with, basename, join, normalize, dirname,
}
use claude_housekeeper.Policy.{ReadJson, missing, load_config}
use claude_housekeeper.Disk.{
  regular, Nodes, stat_node, follow, exists, hash_file, applied, verified, rolled_back, Manifest,
  manifest, Disk, snapshot_dir,
}
use claude_housekeeper.Snapshot.{
  SnapshotError, total_bytes, take_snapshot, write_snapshot, copy_targets, file_entry,
  snapshot_file_path, snapshot_counted, snapshot_unblocked, blocked_targets, blocking_rule,
  finish_snapshot,
}
use claude_housekeeper.Operation.{
  apply_operation, apply_checked, apply_entries, apply_entry, record_applied, first_drift, verify,
  verify_entries, verify_checked, entry_matches,
}
use claude_housekeeper.RoundTrip.{captured_bytes}
use claude_housekeeper.Rollback.{compose_rollback_plan, execute_rollback_plan}
use claude_housekeeper.Rollback.Restore.{bytes_of}
use claude_housekeeper.Lock.{World, idle}
use claude_housekeeper.Clean.Compose.{dir_rmtree, CleanOperation}
use claude_housekeeper.Clean.Execution.{
  Draw, Outcome, removals, remove_file, flatten_operations, apply_chunk, conclude_chunk,
  execute_batch_chunk, execute_operations, execute_clean_plan,
}
use claude_housekeeper.Clean.Removal.{touches}
use claude_housekeeper.Clean.Chunk.{paths, tree}
use claude_housekeeper.Clean.Recovery.{execute_batch_chunk_outcome}
use claude_housekeeper.Clean.Undo.{IsApartFrom, execute_batch_chunk-rollback}
use claude_housekeeper.Clean.Locking.{IsLocked, collected, execute_clean_plan-IsLocked}
use claude_housekeeper.Examples.Snapshots.{host}

abbrev pub cache : Text
cache = codes "/h/.claude/c"

abbrev pub first_file : Text
first_file = codes "/h/.claude/c/a"

abbrev pub second_file : Text
second_file = codes "/h/.claude/c/b"

abbrev nodes : Nodes
nodes p =
    if text_eq p first_file
    then some (regular 420 (codes "old"))
    else if text_eq p second_file
    then some (regular 493 (codes "new"))
    else none

abbrev pub disk : Disk
disk = record { nodes = nodes; manifests = λ i. none; snapshot_dirs = λ i. false }

abbrev read : Text → ReadJson
read p = missing

abbrev pub remove_cache : CleanOperation
remove_cache = record {
  detector_id = "plugin.cache_unreferenced";
  target_path = cache;
  mutation_kind = dir_rmtree;
  estimated_bytes = 6;
  expanded_files = first_file ∷ second_file ∷ [];
}

abbrev pub draw : Draw
draw = record { id = codes "op_1"; taken_at = 5; applied_at = 6; verified_at = 7 }

abbrev user_home : Text
user_home = codes "/h"

abbrev outcome : Outcome
outcome = execute_batch_chunk host read user_home draw "" (remove_cache ∷ []) disk

-- A manifest to stand for none.
abbrev no_manifest : Manifest
no_manifest = record {
  id = [];
  home = [];
  status = applied;
  created_at = 0;
  captured_at = 0;
  applied_at = none;
  verified_at = none;
  rolled_back_at = none;
  aborted_at = none;
  housekeeper_version = "";
  command = "";
  mode = "";
  consent_summary = "";
  files = [];
  partial_apply = true;
  blocked_by_protection = [];
}

abbrev manifest_of : Result SnapshotError (Option Manifest) → Manifest
manifest_of (ok (some m)) = m
manifest_of _ = no_manifest

abbrev final : Manifest
final = manifest_of outcome.0

returned : outcome.0 ≡ ok (some final)
unfolding execute_batch_chunk take_snapshot snapshot_counted snapshot_unblocked total_bytes
    blocked_targets blocking_rule load_config stat_node follow join normalize write_snapshot
    finish_snapshot copy_targets apply_chunk conclude_chunk apply_operation apply_checked
    apply_entries apply_entry record_applied first_drift hash_file exists verify verify_entries
    verify_checked entry_matches file_entry snapshot_file_path basename removals remove_file
    snapshot_dir
returned = refl

final_lem : (final.partial_apply ≡ false) × (final.status ≡ verified)
unfolding execute_batch_chunk take_snapshot snapshot_counted snapshot_unblocked total_bytes
    blocked_targets blocking_rule load_config stat_node follow join normalize write_snapshot
    finish_snapshot copy_targets apply_chunk conclude_chunk apply_operation apply_checked
    apply_entries apply_entry record_applied first_drift hash_file exists verify verify_entries
    verify_checked entry_matches file_entry snapshot_file_path basename removals remove_file
    snapshot_dir
final_lem = (refl, refl)

outcome_lem : outcome ≡ (ok (some final), outcome.1)
outcome_lem = ap (λ r. (r, outcome.1)) returned

-- Two prefixes of one text are prefixes of each other.
prefixes :
    (q s t : Text)
    → starts_with q s ≡ true
    → starts_with q t ≡ true
    → (starts_with s t || starts_with t s) ≡ true
prefixes q [] [] h k = refl
prefixes q [] (c ∷ t) h k = ground arith
prefixes q (c ∷ s) [] h k = refl
prefixes [] (c ∷ s) (d ∷ t) h k = ground arith
prefixes (a ∷ q) (c ∷ s) (d ∷ t) h k = ground (arith, prefixes q s t)

outside-ne :
    (dir p q : Text) → starts_with p dir ≡ false → starts_with q dir ≡ true → text_eq p q ≡ false
outside-ne dir p q o e = elim (Bool-cases (text_eq p q)) [
  | inl same ↦
      absurd
        (false≢true (sym o ∙ ap (λ (x : Text). starts_with x dir) (text_eq_sound p q same) ∙ e))
  | inr other ↦ other
]

apart :
    IsApartFrom
      (codes "/h/.claude/housekeeper/snapshots/op_1")
      (flatten_operations (remove_cache ∷ []))
unfolding flatten_operations
apart q e =
    let dir = codes "/h/.claude/housekeeper/snapshots/op_1" in
    let outside : (starts_with q (codes "/h/.claude/c/")) ≡ false =
      elim (Bool-cases (starts_with q (codes "/h/.claude/c/"))) [
        | inl s ↦ absurd (false≢true (prefixes q dir (codes "/h/.claude/c/") e s))
        | inr s ↦ s
      ] in
    let other : text_eq q cache ≡ false = text_eq_comm q cache ∙ outside-ne dir cache q refl e in
    (
      rw (outside-ne dir first_file q refl e, other, outside) refl,
      (rw (outside-ne dir second_file q refl e, other, outside) refl, tt),
    )

execute_batch_chunk_outcome_example :
    (outcome.1.manifests draw.id ≡ some (manifest final))
    × (((final.partial_apply ≡ true) × (final.status ≡ applied))
        ⊎ ((final.partial_apply ≡ false)
            × (final.status ≡ verified)
            × All (λ r. outcome.1.nodes r.path ≡ none) (flatten_operations (remove_cache ∷ []))))
    × ((q : Text)
        → starts_with q (tree user_home draw.id) ≡ false
        → All (λ r. touches q r ≡ false) (flatten_operations (remove_cache ∷ []))
        → outcome.1.nodes q ≡ disk.nodes q)
unfolding snapshot_dir join normalize flatten_operations
execute_batch_chunk_outcome_example =
    execute_batch_chunk_outcome host read user_home draw "" disk (remove_cache ∷ []) final outcome.1
      outcome_lem (refl, (refl, tt))

execute_batch_chunk-rollback_example :
    let plan = compose_rollback_plan host outcome.1 draw.id in
    (plan.refused ≡ [])
    × (m' : Manifest) × (d2 : Disk) × (execute_rollback_plan host plan 8 outcome.1 ≡ (ok m', d2))
    × (m'.status ≡ rolled_back)
    × All
        (λ t. bytes_of (d2.nodes t) ≡ captured_bytes (disk.nodes t))
        (paths (flatten_operations (remove_cache ∷ [])))
unfolding snapshot_dir join normalize flatten_operations
execute_batch_chunk-rollback_example =
    execute_batch_chunk-rollback host read user_home draw "" disk (remove_cache ∷ []) final
      outcome.1 8 outcome_lem final_lem.0 ((refl, tt), (tt, tt)) apart

abbrev pub unlocked : World
unlocked = record { file = none; now = 100; pc = λ p. idle }

execute_clean_plan-IsLocked_example :
    IsLocked 1 unlocked disk
      (execute_operations host read
        (dirname (codes "/h/.claude"))
        (λ i. draw)
        (λ o. "")
        0
        (remove_cache ∷ [])
        none
        (collected host (codes "/h/.claude") [] disk))
      (execute_clean_plan host read
        (codes "/h/.claude")
        1
        (λ i. draw)
        (λ o. "")
        []
        (remove_cache ∷ [])
        unlocked
        disk)
execute_clean_plan-IsLocked_example =
    execute_clean_plan-IsLocked host read (codes "/h/.claude") 1 [] (remove_cache ∷ []) unlocked
      disk (λ i. draw) (λ o. "") refl
