-- ===== src/Examples/Collection.antt =====
-- Collections of scripts/lib/snapshot.mjs on disks with a few verified operations.
use mathlib.Core.List.{Perm}
use claude_housekeeper.Gc.Order.{IsUpTo}
use claude_housekeeper.Gc.Newest.{gc_snapshots_newest}
use claude_housekeeper.Base.{
  [], ◌≡◌, ◌≤◌, ◌*◌, ◌-◌, ◌++◌, refl, ◌⊎◌, true, false, none, All, some, ◌∷◌, List, map, length,
  take, arith, if◌then◌else◌,
}
use claude_housekeeper.Contracts.{Text}
use claude_housekeeper.Posix.{codes, text_eq}
use claude_housekeeper.Disk.{verified, applied, Disk, manifest}
use claude_housekeeper.Gc.{
  gc_snapshots, non_terminal_ids, terminal_ids, sort_ids, insert_id, remove_operations,
}
use claude_housekeeper.Gc.Retention.{terminals, gc_snapshots_removes_kept, gc_snapshots_spares}
use claude_housekeeper.Examples.Snapshots.{host, taken, start}

abbrev claude : Text
claude = codes "/h/.claude"

-- Operation "x" was applied; every other operation is verified.
abbrev disk : Disk
disk = record {
  nodes = start;
  manifests = λ i. some (
      manifest
        (record taken { id = i; status = if text_eq i (codes "x") then applied else verified }));
  snapshot_dirs = λ i. true;
}

abbrev letters : Text → List Text
letters = map (λ c. c ∷ [])

abbrev seven : List Text
seven = letters (codes "gfxedcba")

abbrev twelve : List Text
twelve = letters (codes "lkjihgxfedcba")

gc_snapshots_tests :
    ((gc_snapshots host claude twelve disk).0.removed ≡ letters (codes "ab"))
    × ((gc_snapshots host claude twelve disk).0.kept ≡ letters (codes "xcdefghijkl"))
    × ((gc_snapshots host claude seven disk).0.removed ≡ letters (codes "abcd"))
    × ((gc_snapshots host claude seven disk).0.kept ≡ letters (codes "xabcdefg"))
unfolding gc_snapshots sort_ids terminal_ids non_terminal_ids
gc_snapshots_tests = (refl, refl, refl, refl)

gc_snapshots_removes_kept_example :
    let (r, d') = gc_snapshots host claude seven disk in
    (r.kept ≡ non_terminal_ids disk seven ++ terminals seven disk)
    × (r.removed ≡ take (2 * length (terminals seven disk) - 10) (terminals seven disk))
    × (d' ≡ remove_operations host claude r.removed disk)
    × (length r.removed ≡ 2 * length (terminals seven disk) - 10)
    × (2 ≤ length r.removed)
unfolding terminal_ids sort_ids insert_id
gc_snapshots_removes_kept_example =
    gc_snapshots_removes_kept host claude seven disk (omega arith) (omega arith)

gc_snapshots_spares_example :
    (gc_snapshots host claude twelve disk).1.manifests (codes "x") ≡ disk.manifests (codes "x")
gc_snapshots_spares_example = gc_snapshots_spares host claude twelve disk (codes "x") refl

gc_snapshots_newest_example :
    let (r, d') = gc_snapshots host claude twelve disk in
    (newest : List Text) × (length newest ≡ 10)
    × (r.kept ≡ non_terminal_ids disk twelve ++ newest)
    × Perm (r.removed ++ newest) (terminal_ids disk twelve)
    × All (λ i. All (IsUpTo i) newest) r.removed
    × All (λ i. (host.manifest_stays i ≡ true) ⊎ (d'.manifests i ≡ none)) r.removed
    × ((j : Text) → All (λ i. text_eq i j ≡ false) r.removed → d'.manifests j ≡ disk.manifests j)
unfolding terminal_ids
gc_snapshots_newest_example = gc_snapshots_newest host claude twelve disk (omega arith)
