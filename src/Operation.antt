-- ===== src/Operation.antt =====
-- scripts/lib/snapshot.mjs: `applyOperation` and `verify` on a stored manifest.
pub mod Transitions
use claude_housekeeper.Base.{
  [], ℕ, Bool, true, false, not, ◌&&◌, ◌||◌, Option, none, some, List, ◌∷◌, if◌then◌else◌, str_eq,
  Result, ok, err,
}
use claude_housekeeper.Contracts.{Text}
use claude_housekeeper.Disk.{
  Host, Nodes, exists, hash_file, Status, snapshot_taken, applied, verified, FileSnapshot, Manifest,
  manifest, Disk, put_manifest, read_manifest,
}
use claude_housekeeper.Snapshot.{SnapshotError, io_error, state_error, drift, manifest_unreadable}

-- `ops[i].apply(path)`: whether it returned without an error, and the files that it leaves.
abbrev pub Mutation : Type 0
Mutation = Text → Nodes → Bool × Nodes

abbrev pub is_snapshot_taken : Status → Bool
is_snapshot_taken snapshot_taken = true
is_snapshot_taken _ = false

abbrev pub is_applied_status : Status → Bool
is_applied_status applied = true
is_applied_status _ = false

-- The drift check of `applyOperation`: the first error it throws.
unfoldable pub first_drift : Host → Nodes → List FileSnapshot → Option SnapshotError
first_drift h ns [] = none
first_drift h ns (e ∷ es) = elim (hash_file h ns e.original_path) [
  | none ↦ some (io_error e.original_path)
  | some sha ↦
      if str_eq sha e.sha_before
      then first_drift h ns es
      else some (drift e.original_path e.sha_before sha)
]

-- The entry after a mutation that returned.
unfoldable pub record_applied : Host → Nodes → FileSnapshot → FileSnapshot
record_applied h ns e = record e {
  sha_after = if exists h ns e.original_path then hash_file h ns e.original_path else none;
  is_applied = some true;
}

abbrev pub record_failed : FileSnapshot → FileSnapshot
record_failed e = record e { is_applied = some false }

-- One round of the apply loop; without a mutation for the entry, `ops[i].apply` throws.
unfoldable pub apply_entry : Host → List Mutation → FileSnapshot → Nodes → FileSnapshot × Nodes
unfolding record_applied
apply_entry h [] e ns = (record_failed e, ns)
apply_entry h (op ∷ ops) e ns =
    let (done, after) = op e.original_path ns in
    (if done then record_applied h after e else record_failed e, after)

abbrev pub rest_of {ℓ} : {A : Type ℓ} → List A → List A
rest_of [] = []
rest_of (x ∷ xs) = xs

-- The apply loop over the entries and the mutations.
unfoldable pub apply_entries :
    Host → List Mutation → List FileSnapshot → Nodes → List FileSnapshot × Nodes
unfolding apply_entry
apply_entries h ops [] ns = ([], ns)
apply_entries h ops (e ∷ es) ns =
    let (e', after) = apply_entry h ops e ns in
    let (es', last) = apply_entries h (rest_of ops) es after in (e' ∷ es', last)

abbrev pub is_failed : Option Bool → Bool
is_failed (some false) = true
is_failed _ = false

abbrev pub any_failed : List FileSnapshot → Bool
any_failed [] = false
any_failed (e ∷ es) = is_failed e.is_applied || any_failed es

-- The rest of `applyOperation`, after the drift check and its outcome. Where the manifest cannot be stored,
-- the call throws with the files mutated.
unfoldable pub apply_checked :
    Host
    → Text
    → List Mutation
    → ℕ
    → Disk
    → Manifest
    → Option SnapshotError
    → Result SnapshotError Manifest × Disk
apply_checked h id ops now d m (some e) = (err e, d)
apply_checked h id ops now d m none =
    let (files, ns) = apply_entries h ops m.files d.nodes in
    let m' = record m {
      files = files;
      partial_apply = m.partial_apply || any_failed files;
      status = applied;
      applied_at = some now;
    } in
    let mutated = record d { nodes = ns } in
    if h.can_store id
    then (ok m', put_manifest mutated id (some (manifest m')))
    else (err (io_error id), mutated)

-- `applyOperation`
unfoldable pub apply_operation :
    Host → Text → List Mutation → ℕ → Disk → Result SnapshotError Manifest × Disk
apply_operation h id ops now d = elim (read_manifest d id) [
  | none ↦ (err (manifest_unreadable id), d)
  | some m ↦
      if is_snapshot_taken m.status
      then apply_checked h id ops now d m (first_drift h d.nodes m.files)
      else (err (state_error id snapshot_taken m.status), d)
]

-- Whether the file of an entry is as the entry says; `none` is the error of `hashFile`.
unfoldable pub entry_matches : Host → Nodes → FileSnapshot → Option Bool
entry_matches h ns e = elim e.sha_after [
  | none ↦ some (not (exists h ns e.original_path))
  | some sha ↦ elim (hash_file h ns e.original_path) [
    | none ↦ none
    | some actual ↦ some (str_eq actual sha)
  ]
]

abbrev pub mark_verified : Bool → FileSnapshot → FileSnapshot
mark_verified true e = e
mark_verified false e = record e { verify_failure = true }

-- The loop of `verify`: the entries with their marks, and whether all matched.
unfoldable pub verify_entries :
    Host → Nodes → List FileSnapshot → Result SnapshotError (List FileSnapshot × Bool)
verify_entries h ns [] = ok ([], true)
verify_entries h ns (e ∷ es) = elim (entry_matches h ns e) [
  | none ↦ err (io_error e.original_path)
  | some matched ↦ elim (verify_entries h ns es) [
    | err x ↦ err x
    | ok (es', all_match) ↦ ok (mark_verified matched e ∷ es', matched && all_match)
  ]
]

-- What `verify` writes after its loop.
unfoldable pub verify_checked :
    Text
    → ℕ
    → Disk
    → Manifest
    → Result SnapshotError (List FileSnapshot × Bool)
    → Result SnapshotError Manifest × Disk
verify_checked id now d m (err e) = (err e, d)
verify_checked id now d m (ok (files, all_match)) =
    let m' =
      if all_match
      then record m { files = files; status = verified; verified_at = some now }
      else record m { files = files } in
    (ok m', put_manifest d id (some (manifest m')))

-- `verify`
unfoldable pub verify : Host → Text → ℕ → Disk → Result SnapshotError Manifest × Disk
verify h id now d = elim (read_manifest d id) [
  | none ↦ (err (manifest_unreadable id), d)
  | some m ↦
      if is_applied_status m.status
      then verify_checked id now d m (verify_entries h d.nodes m.files)
      else (err (state_error id applied m.status), d)
]
