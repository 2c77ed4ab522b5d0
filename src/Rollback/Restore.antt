-- ===== src/Rollback/Restore.antt =====
-- What executing a rollback of scripts/lib/rollback-plan.mjs leaves on disk.
use claude_housekeeper.Base.{
  [], ℕ, ◌≡◌, refl, sym, ap, ◌∙◌, Bool, true, false, Option, none, some, List, ◌∷◌, arith, All, ok,
  eq_refl,
}
use claude_housekeeper.Contracts.{Text}
use claude_housekeeper.Posix.{text_eq, text_eq_refl, text_eq_comm}
use claude_housekeeper.Disk.{
  Host, Node, regular, link, Nodes, put_node, follow, stat_node, hash_file, copy_file, rolled_back,
  Manifest, manifest, Disk, put_manifest, read_manifest,
}
use claude_housekeeper.Rollback.{
  RollbackOp, file_restore_from_snapshot, Plan, restore_one, restore_all, mark_all_restored,
  execute_rollback_plan,
}

-- The bytes of a regular file.
abbrev pub bytes_of : Option Node → Option Text
bytes_of (some (regular m b)) = some b
bytes_of _ = none

abbrev pub is_link : Option Node → Bool
is_link (some (link t)) = true
is_link _ = false

-- The snapshot is a regular file with the recorded hash, and no link stands at the original path.
pub record CanRestore (h : Host) (ns : Nodes) (op : RollbackOp) : Type 0 where
  pub mode : ℕ
  pub bytes : Text
  pub snapshot : ns op.snapshot_path ≡ some (regular mode bytes)
  pub hash : h.sha256 bytes ≡ op.sha_before
  pub unlinked : is_link (ns op.original_path) ≡ false
  pub kind : op.kind ≡ file_restore_from_snapshot

abbrev pub restored_nodes : Nodes → RollbackOp → ℕ → Text → Nodes
restored_nodes ns op m b = put_node ns op.original_path (some (regular m b))

pub follow_regular :
    (h : Host) (ns : Nodes) (p : Text) (m : ℕ) (b : Text)
    → ns p ≡ some (regular m b)
    → stat_node h ns p ≡ some (regular m b)
unfolding stat_node
follow_regular h ns p m b e = ground arith

follow_unlinked :
    (h : Host) (ns : Nodes) (p : Text) → is_link (ns p) ≡ false → follow 40 h ns p ≡ some p
unfolding follow
follow_unlinked h ns p e = ground arith

copy_file_lem :
    (h : Host) (ns : Nodes) (op : RollbackOp) (c : CanRestore h ns op)
    → copy_file h ns op.snapshot_path op.original_path ≡ some (restored_nodes ns op c.mode c.bytes)
unfolding copy_file
copy_file_lem h ns op c = ground (
  arith,
  follow_regular h ns op.snapshot_path c.mode c.bytes,
  follow_unlinked h ns op.original_path,
)

hash_file-restored :
    (h : Host) (ns : Nodes) (op : RollbackOp) (c : CanRestore h ns op)
    → hash_file h (restored_nodes ns op c.mode c.bytes) op.original_path ≡ some op.sha_before
unfolding hash_file
hash_file-restored h ns op c = rw (text_eq_refl op.original_path, hash_file) (rw c.hash refl)

restore_one_lem :
    (h : Host) (ns : Nodes) (op : RollbackOp) (c : CanRestore h ns op)
    → restore_one h op ns ≡ (ok tt, restored_nodes ns op c.mode c.bytes)
unfolding restore_one
restore_one_lem h ns op c =
    rw (c.kind, restore_one)
      (rw (copy_file_lem h ns op c, restore_one)
        (rw (hash_file-restored h ns op c, restore_one) (rw (eq_refl op.sha_before))))

-- Away from the original path of the operation nothing changes.
restored_nodes-ne :
    (ns : Nodes) (op : RollbackOp) (m : ℕ) (b : Text) (q : Text)
    → text_eq op.original_path q ≡ false
    → restored_nodes ns op m b q ≡ ns q
restored_nodes-ne ns op m b q e = rw e

-- A later operation reads and writes other paths than an earlier one writes.
abbrev pub IsApart : RollbackOp → RollbackOp → Type 0
IsApart op later =
    (text_eq op.original_path later.snapshot_path ≡ false)
    × (text_eq op.original_path later.original_path ≡ false)

-- Every operation can be restored, and none writes where a later one reads or writes.
abbrev pub AllRestorable : Host → Nodes → List RollbackOp → Type 0
AllRestorable h ns [] = Unit
AllRestorable h ns (op ∷ ops) = CanRestore h ns op × All (IsApart op) ops × AllRestorable h ns ops

CanRestore-restored :
    (h : Host) (ns : Nodes) (op later : RollbackOp) (m : ℕ) (b : Text)
    → IsApart op later
    → CanRestore h ns later
    → CanRestore h (restored_nodes ns op m b) later
CanRestore-restored h ns op later m b (p, q) c = record {
  mode = c.mode;
  bytes = c.bytes;
  snapshot = rw p c.snapshot;
  hash = c.hash;
  unlinked = rw q c.unlinked;
  kind = c.kind;
}

AllRestorable-restored :
    (h : Host) (ns : Nodes) (op : RollbackOp) (m : ℕ) (b : Text) (ops : List RollbackOp)
    → All (IsApart op) ops
    → AllRestorable h ns ops
    → AllRestorable h (restored_nodes ns op m b) ops
AllRestorable-restored h ns op m b [] a r = tt
AllRestorable-restored h ns op m b (o ∷ ops) (p, a) (c, q, r) =
    (CanRestore-restored h ns op o m b p c, q, AllRestorable-restored h ns op m b ops a r)

-- What the restore loop leaves: each original path has the bytes of its snapshot.
abbrev pub HasBytes : Nodes → Nodes → RollbackOp → Type 0
HasBytes before after op = bytes_of (after op.original_path) ≡ bytes_of (before op.snapshot_path)

HasBytes-restored :
    (ns after : Nodes) (op : RollbackOp) (m : ℕ) (b : Text) (ops : List RollbackOp)
    → All (IsApart op) ops
    → All (HasBytes (restored_nodes ns op m b) after) ops
    → All (HasBytes ns after) ops
HasBytes-restored ns after op m b [] a h = tt
HasBytes-restored ns after op m b (o ∷ ops) ((p, q), a) (e, h) = (
  e ∙ ap bytes_of (restored_nodes-ne ns op m b o.snapshot_path p),
  HasBytes-restored ns after op m b ops a h,
)

apart_from_head :
    (op : RollbackOp) (ops : List RollbackOp)
    → All (IsApart op) ops
    → All (λ o. text_eq o.original_path op.original_path ≡ false) ops
apart_from_head op [] a = tt
apart_from_head op (o ∷ ops) ((p, q), a) =
    (text_eq_comm o.original_path op.original_path ∙ q, apart_from_head op ops a)

bytes_of-restored :
    (h : Host) (ns : Nodes) (op : RollbackOp) (c : CanRestore h ns op)
    → bytes_of (restored_nodes ns op c.mode c.bytes op.original_path)
      ≡ bytes_of (ns op.snapshot_path)
bytes_of-restored h ns op c = rw (text_eq_refl op.original_path) (sym (ap bytes_of c.snapshot))

restore_all-step :
    (h : Host) (op : RollbackOp) (ops : List RollbackOp) (ns next after : Nodes)
    → restore_one h op ns ≡ (ok tt, next)
    → restore_all h ops next ≡ (ok tt, after)
    → restore_all h (op ∷ ops) ns ≡ (ok tt, after)
unfolding restore_all
restore_all-step h op ops ns next after p q = rw p q

-- The run of the restore loop: it succeeds, every original path gets the bytes of its snapshot, and
-- no other path changes.
pub record Restored (h : Host) (ns : Nodes) (ops : List RollbackOp) (after : Nodes) : Type 0 where
  pub run : restore_all h ops ns ≡ (ok tt, after)
  pub bytes : All (HasBytes ns after) ops
  pub frame : (q : Text) → All (λ o. text_eq o.original_path q ≡ false) ops → after q ≡ ns q

pub restore_all_lem :
    (h : Host) (ns : Nodes) (ops : List RollbackOp)
    → AllRestorable h ns ops
    → (after : Nodes) × Restored h ns ops after
restore_all_lem h ns [] r =
    (ns, record { run = unfold restore_all in refl; bytes = tt; frame = λ q a. refl })
restore_all_lem h ns (op ∷ ops) (c, a, r) =
    let next = restored_nodes ns op c.mode c.bytes in
    let (after, t) =
      restore_all_lem h next ops (AllRestorable-restored h ns op c.mode c.bytes ops a r) in
    (
      after,
      record {
        run = restore_all-step h op ops ns next after (restore_one_lem h ns op c) t.run;
        bytes = (
          ap bytes_of (t.frame op.original_path (apart_from_head op ops a))
              ∙ bytes_of-restored h ns op c,
          HasBytes-restored ns after op c.mode c.bytes ops a t.bytes,
        );
        frame = λ q f. t.frame q f.1 ∙ restored_nodes-ne ns op c.mode c.bytes q f.0;
      },
    )

-- With a readable manifest, and operations that can all be restored and do not interfere, executing
-- the plan succeeds: the manifest is stored as `rolled_back`, every original path has the bytes of its
-- snapshot, and no other path changes.
pub execute_rollback_plan_restores :
    (h : Host) (plan : Plan) (now : ℕ) (d : Disk) (m : Manifest)
    → read_manifest d plan.op_id ≡ some m
    → AllRestorable h d.nodes plan.operations
    → (m' : Manifest) × (after : Nodes) × (execute_rollback_plan h plan now d
        ≡ (ok m', put_manifest (record d { nodes = after }) plan.op_id (some (manifest m'))))
      × (m'.status ≡ rolled_back)
      × All (HasBytes d.nodes after) plan.operations
      × ((q : Text)
          → All (λ o. text_eq o.original_path q ≡ false) plan.operations
          → after q ≡ d.nodes q)
execute_rollback_plan_restores h plan now d m e r =
    let (after, t) = restore_all_lem h d.nodes plan.operations r in
    (
      record m {
        files = mark_all_restored plan.operations m.files;
        status = rolled_back;
        rolled_back_at = some now;
      },
      after,
      unfold execute_rollback_plan in rw (e, execute_rollback_plan) (rw t.run),
      refl,
      t.bytes,
      t.frame,
    )
