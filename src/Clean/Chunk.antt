-- ===== src/Clean/Chunk.antt =====
-- The calls that `_executeBatchChunk` of scripts/lib/clean-plan.mjs makes, one after the other, where it
-- returns a manifest.
use claude_housekeeper.Base.{
  ℕ, ◌≡◌, ◌∙◌, refl, sym, ap, inl, inr, ◌||◌, some, List, ◌++◌, arith, Bool-cases, Option-cases,
  ok-injective, String, Result, ok, err, map,
}
use claude_housekeeper.Contracts.{Text}
use claude_housekeeper.Posix.{codes, join}
use claude_housekeeper.Policy.{ReadJson}
use claude_housekeeper.Disk.{
  Host, Nodes, atomic_write, applied, FileSnapshot, Manifest, manifest, Disk, put_manifest,
  read_manifest, snapshot_dir,
}
use claude_housekeeper.Snapshot.{
  SnapshotError, copy_targets, new_manifest, with_tree, finish_snapshot, write_snapshot,
  take_snapshot,
}
use claude_housekeeper.Snapshot.Gate.{IsAllowed, take_snapshot_gate}
use claude_housekeeper.Operation.{
  Mutation, apply_operation, apply_checked, apply_entries, any_failed, first_drift,
  is_snapshot_taken,
}
use claude_housekeeper.Clean.Execution.{Removal, Draw, snapshot_options}

-- What `applyOperation` leaves where it returns.
pub apply_operation-ok :
    (h : Host) (id : Text) (ops : List Mutation) (now : ℕ) (d : Disk) (m m' : Manifest) (d' : Disk)
    → read_manifest d id ≡ some m
    → apply_operation h id ops now d ≡ (ok m', d')
    → let (files, ns) = apply_entries h ops m.files d.nodes in
      (m' ≡ record m {
        files = files;
        partial_apply = m.partial_apply || any_failed files;
        status = applied;
        applied_at = some now;
      })
      × (d' ≡ put_manifest (record d { nodes = ns }) id (some (manifest m')))
unfolding apply_operation apply_checked
apply_operation-ok h id ops now d m m' d' r e = elim (Bool-cases (is_snapshot_taken m.status)) [
  | inl s ↦ elim (Option-cases (first_drift h d.nodes m.files)) [
    | inl f ↦ elim (Bool-cases (h.can_store id)) [
      | inl stores ↦
          let run = rw (r, apply_operation, s, f, apply_checked, stores) at e in
          let same = ap (λ (p : Result SnapshotError Manifest × Disk). p.0) run in
          let q = ok-injective same in
          (sym q, rw (← q) (sym (ap (λ (p : Result SnapshotError Manifest × Disk). p.1) run)))
      | inr fails ↦
          let run = rw (r, apply_operation, s, f, apply_checked, fails) at e in
          absurd (ground (arith, ap (λ (p : Result SnapshotError Manifest × Disk). p.0) run))
    ]
    | inr (x, f) ↦
        let run = rw (r, apply_operation, s, f, apply_checked) at e in
        absurd (ground (arith, ap (λ (p : Result SnapshotError Manifest × Disk). p.0) run))
  ]
  | inr s ↦
      let run = rw (r, apply_operation, s) at e in
      absurd (ground (arith, ap (λ (p : Result SnapshotError Manifest × Disk). p.0) run))
]

abbrev pub paths : List Removal → List Text
paths rs = map (λ r. r.path) rs

-- The directory of a snapshot.
abbrev pub tree : Text → Text → Text
tree home id = snapshot_dir (join home (codes ".claude")) id

module _ (h : Host) (read : Text → ReadJson) (home : Text) (w : Draw) (consent : String)
    (rs : List Removal) (d : Disk) where
  -- The snapshot that was taken.
  pub record Taken (m : Manifest) (d' : Disk) : Type 0 where
    pub entries : List FileSnapshot
    pub after : Nodes
    pub allowed : IsAllowed h read home (snapshot_options (paths rs) consent) d
    pub copied : copy_targets h (tree home w.id) 0 (paths rs) d.nodes ≡ (ok entries, after)
    pub stored : m ≡ new_manifest w.id home (snapshot_options (paths rs) consent) w.taken_at entries
    pub disk :
        d'
        ≡ put_manifest
            (with_tree d w.id (
              atomic_write h after
                (tree home w.id ++ codes "/meta.json")
                (h.encode_meta w.id w.taken_at)))
            w.id
            (some (manifest m))

  finish_snapshot-Taken :
      (m : Manifest) (d' : Disk) (r : Result SnapshotError (List FileSnapshot) × Nodes)
      → IsAllowed h read home (snapshot_options (paths rs) consent) d
      → copy_targets h (tree home w.id) 0 (paths rs) d.nodes ≡ r
      → finish_snapshot h home w.id
          (tree home w.id)
          (snapshot_options (paths rs) consent)
          w.taken_at
          d
          r
        ≡ (ok m, d')
      → Taken m d'
  unfolding finish_snapshot
  finish_snapshot-Taken m d' (err x, ns) a c e =
      absurd (ground (arith, ap (λ (p : Result SnapshotError Manifest × Disk). p.0) e))
  finish_snapshot-Taken m d' (ok es, ns) a c e =
      let q : m ≡ new_manifest w.id home (snapshot_options (paths rs) consent) w.taken_at es =
        cc (ap (λ (p : Result SnapshotError Manifest × Disk). p.0) e) in
      record {
        entries = es;
        after = ns;
        allowed = a;
        copied = c;
        stored = q;
        disk = rw q (sym (ap (λ (p : Result SnapshotError Manifest × Disk). p.1) e));
      }

  pub take_snapshot-Taken :
      (m : Manifest) (d' : Disk)
      → take_snapshot h read home w.id (snapshot_options (paths rs) consent) w.taken_at d
        ≡ (ok m, d')
      → Taken m d'
  take_snapshot-Taken m d' e =
      elim (take_snapshot_gate h read home w.id (snapshot_options (paths rs) consent) w.taken_at
        d) [
          | inl (x, t) ↦
              absurd
                (ground (arith, ap (λ (p : Result SnapshotError Manifest × Disk). p.0) (sym t ∙ e)))
          | inr (a, t) ↦
              finish_snapshot-Taken m d' (copy_targets h (tree home w.id) 0 (paths rs) d.nodes) a
                refl (unfold write_snapshot in (sym t ∙ e))
        ]
