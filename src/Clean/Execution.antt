-- ===== src/Clean/Execution.antt =====
-- scripts/lib/clean-plan.mjs: `executeCleanPlan`, `executeBatchCleanPlan` and `_executeBatchChunk`. A call
-- returns its result or error, the lock and the disk. The process takes and releases the lock without
-- interruption; the ids and clock readings of its snapshots, and the listing that `gcSnapshots` reads, are
-- arguments. The learning log is left out: an append that fails is caught.
use claude_housekeeper.Base.{
  ℕ, suc, Bool, true, false, String, Option, none, some, List, [], ◌∷◌, ◌++◌, map, any,
  if◌then◌else◌, Result, ok, err,
}
use claude_housekeeper.Contracts.{Text}
use claude_housekeeper.Posix.{codes, join, dirname, text_eq}
use claude_housekeeper.Policy.{ReadJson}
use claude_housekeeper.Disk.{Host, Nodes, put_node, remove_tree, Manifest, Disk}
use claude_housekeeper.Snapshot.{SnapshotError, SnapshotOptions, take_snapshot}
use claude_housekeeper.Operation.{Mutation, apply_operation, verify}
use claude_housekeeper.Gc.{gc_snapshots}
use claude_housekeeper.Lock.{World, Pc, holding, acquire, release}
use claude_housekeeper.Clean.Compose.{file_unlink, CleanOperation}

-- A file to remove, with the directory of its operation where that is removed as well.
pub record Removal : Type 0 where
  pub path : Text
  pub dir : Option Text

abbrev pub dir_of : CleanOperation → Option Text
dir_of op = elim op.mutation_kind [ file_unlink ↦ none | _ ↦ some op.target_path ]

-- `targets` with `dispatchByIndex`
unfoldable pub flatten_operations : List CleanOperation → List Removal
flatten_operations [] = []
flatten_operations (op ∷ ops) =
    map (λ p. record { path = p; dir = dir_of op }) op.expanded_files ++ flatten_operations ops

abbrev pub has_dir : Text → Removal → Bool
has_dir dir r = elim r.dir [ none ↦ false | some d ↦ text_eq dir d ]

-- The directory that goes with a file: `dirLastIndex` names its last file.
abbrev pub last_dir : Option Text → List Removal → Option Text
last_dir none rest = none
last_dir (some dir) rest = if any (has_dir dir) rest then none else some dir

abbrev pub remove_last : Option Text → Nodes → Nodes
remove_last none ns = ns
remove_last (some dir) ns = remove_tree ns dir

-- One `apply`: the file itself, whose removal throws where it is missing, and then the directory.
unfoldable pub remove_file : Option Text → Mutation
remove_file dir p ns = elim (ns p) [
  | none ↦ (false, ns)
  | some _ ↦ (true, remove_last dir (put_node ns p none))
]

-- The `ops` that `applyOperation` is given.
unfoldable pub removals : List Removal → List Mutation
unfolding remove_file
removals [] = []
removals (r ∷ rs) = remove_file (last_dir r.dir rs) ∷ removals rs

-- What one snapshot draws from the outside: its id and three clock readings.
pub record Draw : Type 0 where
  pub id : Text
  pub taken_at : ℕ
  pub applied_at : ℕ
  pub verified_at : ℕ

abbrev pub snapshot_options : List Text → String → SnapshotOptions
snapshot_options targets consent = record {
  targets = targets;
  command = "clean";
  mode = "confirm";
  consent_summary = consent;
  housekeeper_version = "0.2.0";
}

abbrev pub Outcome : Type 0
Outcome = Result SnapshotError (Option Manifest) × Disk

abbrev pub found : Result SnapshotError Manifest × Disk → Outcome
found (ok m, d) = (ok (some m), d)
found (err e, d) = (err e, d)

-- After the apply loop: a partial application is returned as it is, anything else is verified.
unfoldable pub conclude_chunk : Host → Draw → Result SnapshotError Manifest × Disk → Outcome
conclude_chunk h w (err e, d) = (err e, d)
conclude_chunk h w (ok m, d) =
    if m.partial_apply then (ok (some m), d) else found (verify h w.id w.verified_at d)

-- The calls after `takeSnapshot`.
unfoldable pub apply_chunk :
    Host → Draw → List Removal → Result SnapshotError Manifest × Disk → Outcome
unfolding conclude_chunk removals
apply_chunk h w rs (err e, d) = (err e, d)
apply_chunk h w rs (ok m, d) =
    conclude_chunk h w (apply_operation h w.id (removals rs) w.applied_at d)

-- The part that the three calls share: one snapshot of every file, its removal, and the check.
unfoldable pub snapshot_and_remove :
    Host → (Text → ReadJson) → Text → Draw → String → List Removal → Disk → Outcome
unfolding apply_chunk
snapshot_and_remove h read home w consent rs d =
    apply_chunk h w rs (
      take_snapshot h read home w.id (snapshot_options (map (λ r. r.path) rs) consent) w.taken_at d)

abbrev pub snapshot_nonempty :
    Host → (Text → ReadJson) → Text → Draw → String → List Removal → Disk → Outcome
snapshot_nonempty h read home w consent [] d = (ok none, d)
snapshot_nonempty h read home w consent (r ∷ rs) d =
    snapshot_and_remove h read home w consent (r ∷ rs) d

-- `_executeBatchChunk`; `none` stands for the manifest that it makes up where there is no file.
unfoldable pub execute_batch_chunk :
    Host → (Text → ReadJson) → Text → Draw → String → List CleanOperation → Disk → Outcome
unfolding flatten_operations snapshot_and_remove
execute_batch_chunk h read home w consent ops d =
    snapshot_nonempty h read home w consent (flatten_operations ops) d

-- The loop of `executeCleanPlan`, one snapshot for each operation; it ends after a partial application.
unfoldable pub execute_operations :
    Host
    → (Text → ReadJson)
    → Text
    → (ℕ → Draw)
    → (CleanOperation → String)
    → ℕ
    → List CleanOperation
    → Option Manifest
    → Disk
    → Outcome
unfolding snapshot_and_remove flatten_operations
execute_operations h read home draws consent i [] last d = (ok last, d)
execute_operations h read home draws consent i (op ∷ ops) last d =
    let (r, d') =
      snapshot_and_remove h read home (draws i) (consent op) (flatten_operations (op ∷ [])) d in
    elim r [
      | err e ↦ (err e, d')
      | ok none ↦ (ok none, d')
      | ok (some m) ↦
          let rest = execute_operations h read home draws consent (suc i) ops (some m) d' in
          if m.partial_apply then (ok (some m), d') else rest
    ]

pub data ExecuteError : Type 0 where
  lock_held : ExecuteError
  failed : SnapshotError → ExecuteError

pub record Run : Type 0 where
  pub result : Result ExecuteError (Option Manifest)
  pub world : World
  pub disk : Disk

abbrev pub lift : Result SnapshotError (Option Manifest) → Result ExecuteError (Option Manifest)
lift (ok m) = ok m
lift (err e) = err (failed e)

-- The body of a `try` whose `finally` releases the lock.
unfoldable pub with_lock : ℕ → World → Disk → Pc → (Disk → Outcome) → Run
with_lock p w d (holding _) body =
    let (r, d') = body d in record { result = lift r; world = release p w; disk = d' }
with_lock p w d _ body = record { result = err lock_held; world = w; disk = d }

-- `executeBatchCleanPlan`, for the home `<home>/.claude` and a process.
unfoldable pub execute_batch_clean_plan :
    Host
    → (Text → ReadJson)
    → Text
    → ℕ
    → Draw
    → String
    → List Text
    → List CleanOperation
    → World
    → Disk
    → Run
unfolding with_lock execute_batch_chunk
execute_batch_clean_plan h read home p draw consent listing ops w d =
    let parent = dirname home in
    let locked = acquire p w in
    with_lock p locked d (locked.pc p) (λ e.
      execute_batch_chunk h read parent draw consent ops
        (gc_snapshots h (join parent (codes ".claude")) listing e).1)

-- `executeCleanPlan`
unfoldable pub execute_clean_plan :
    Host
    → (Text → ReadJson)
    → Text
    → ℕ
    → (ℕ → Draw)
    → (CleanOperation → String)
    → List Text
    → List CleanOperation
    → World
    → Disk
    → Run
unfolding with_lock execute_operations
execute_clean_plan h read home p draws consent listing ops w d =
    let parent = dirname home in
    let locked = acquire p w in
    with_lock p locked d (locked.pc p) (λ e.
      execute_operations h read parent draws consent 0 ops none
        (gc_snapshots h (join parent (codes ".claude")) listing e).1)
