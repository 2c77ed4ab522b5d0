-- ===== src/Clean/Recovery.antt =====
-- How a chunk of a clean plan of scripts/lib/clean-plan.mjs ends.
use claude_housekeeper.Base.{
  [], ◌≡◌, ◌∙◌, refl, sym, ap, ◌⊎◌, inl, inr, true, false, none, some, List, ◌∷◌, arith, All,
  Result, ok, err, map, String,
}
use claude_housekeeper.Contracts.{Text}
use claude_housekeeper.Posix.{codes, starts_with}
use claude_housekeeper.Policy.{ReadJson}
use claude_housekeeper.Disk.{Host, Nodes, applied, verified, Manifest, manifest, Disk}
use claude_housekeeper.Snapshot.{SnapshotError, take_snapshot}
use claude_housekeeper.Snapshot.Capture.{copy_targets-Captures, text_eq-outside}
use claude_housekeeper.Operation.{any_failed, apply_operation}
use claude_housekeeper.Clean.Compose.{CleanOperation}
use claude_housekeeper.Clean.Execution.{
  Removal, removals, Draw, Outcome, snapshot_options, apply_chunk, snapshot_and_remove,
  flatten_operations, execute_batch_chunk, snapshot_nonempty,
}
use claude_housekeeper.Clean.Removal.{removed, touches, apply_entries-IsRemoved}
use claude_housekeeper.Clean.Chunk.{take_snapshot-Taken, paths, tree}
use claude_housekeeper.Clean.Outcome.{Executed, AreFor-Captures, apply_chunk-Executed}

module _ (h : Host) (read : Text → ReadJson) (home : Text) (w : Draw) (consent : String)
    (d : Disk) where
  chunk-Executed_from :
      (rs : List Removal) (m : Manifest) (d' : Disk) (r : Result SnapshotError Manifest × Disk)
      → All (λ t. starts_with t (tree home w.id) ≡ false) (paths rs)
      → take_snapshot h read home w.id (snapshot_options (paths rs) consent) w.taken_at d ≡ r
      → apply_chunk h w rs r ≡ (ok (some m), d')
      → Executed h read home w consent rs d m d'
  unfolding apply_chunk
  chunk-Executed_from rs m d' (err x, d0) out t e =
      absurd (ground (arith, ap (λ (p : Outcome). p.0) e))
  chunk-Executed_from rs m d' (ok m0, d0) out t e =
      let taken = take_snapshot-Taken h read home w consent rs d m0 d0 t in
      let (c, frame) =
        copy_targets-Captures h (tree home w.id) (paths rs) d.nodes taken.entries taken.after
          taken.copied (omega (arith, taken.allowed.count_within)) out in
      apply_chunk-Executed h read home w consent rs d m0 m d0 d'
        (apply_operation h w.id (removals rs) w.applied_at d0) taken
        (AreFor-Captures h (tree home w.id) 0 d.nodes taken.after rs taken.entries c) refl e

  pub nonempty-Executed :
      (rs : List Removal) (m : Manifest) (d' : Disk)
      → All (λ t. starts_with t (tree home w.id) ≡ false) (paths rs)
      → snapshot_nonempty h read home w consent rs d ≡ (ok (some m), d')
      → Executed h read home w consent rs d m d'
  unfolding snapshot_and_remove
  nonempty-Executed [] m d' out e = absurd (ground (arith, ap (λ (p : Outcome). p.0) e))
  nonempty-Executed (r ∷ rs) m d' out e =
      chunk-Executed_from (r ∷ rs) m d'
        (take_snapshot h read home w.id (snapshot_options (paths (r ∷ rs)) consent) w.taken_at d)
        out refl e

  -- What the chunk left of a path outside the new snapshot's directory that no removal may touch.
  Executed-frame :
      (rs : List Removal) (m : Manifest) (d' : Disk)
      → All (λ t. starts_with t (tree home w.id) ≡ false) (paths rs)
      → Executed h read home w consent rs d m d'
      → (q : Text) → starts_with q (tree home w.id) ≡ false
      → All (λ r. touches q r ≡ false) rs
      → d'.nodes q ≡ d.nodes q
  Executed-frame rs m d' out x q away t =
      let s = x.taken in
      let (c, frame) =
        copy_targets-Captures h (tree home w.id) (paths rs) d.nodes s.entries s.after s.copied
          (omega (arith, s.allowed.count_within)) out in
      let run =
        apply_entries-IsRemoved h rs s.entries x.taken_disk.nodes
          (AreFor-Captures h (tree home w.id) 0 d.nodes s.after rs s.entries c) in
      ap (λ (ns : Nodes). ns q) x.nodes
      ∙ run.frame q t
      ∙ ap (λ (e : Disk). e.nodes q) s.disk
      ∙ rw (text_eq-outside (tree home w.id) (codes "/meta.json") q away) (frame q away)

  -- Where no removal failed, the entries say so, and every target is gone.
  pub Executed-gone :
      (rs : List Removal) (m : Manifest) (d' : Disk)
      → All (λ t. starts_with t (tree home w.id) ≡ false) (paths rs)
      → (x : Executed h read home w consent rs d m d') → any_failed m.files ≡ false
      → (m.files ≡ map removed x.taken.entries) × All (λ r. d'.nodes r.path ≡ none) rs
  Executed-gone rs m d' out x f =
      let s = x.taken in
      let (c, frame) =
        copy_targets-Captures h (tree home w.id) (paths rs) d.nodes s.entries s.after s.copied
          (omega (arith, s.allowed.count_within)) out in
      let run =
        apply_entries-IsRemoved h rs s.entries x.taken_disk.nodes
          (AreFor-Captures h (tree home w.id) 0 d.nodes s.after rs s.entries c) in
      let (same, gone) = run.gone (ap any_failed (sym x.files) ∙ f) in
      (x.files ∙ same, rw x.nodes gone)

  -- A chunk of a clean plan whose targets lie outside the directory of its snapshot, where it returns a
  -- manifest, has stored it. Either a removal failed, and it is `applied` and marked as partial; or it is
  -- `verified`, and every target is gone. In both cases all other paths are as they were, but for the
  -- snapshot's directory and the directories that the plan removes.
  pub execute_batch_chunk_outcome :
      (ops : List CleanOperation) (m : Manifest) (d' : Disk)
      → execute_batch_chunk h read home w consent ops d ≡ (ok (some m), d')
      → All (λ t. starts_with t (tree home w.id) ≡ false) (paths (flatten_operations ops))
      → (d'.manifests w.id ≡ some (manifest m))
        × (((m.partial_apply ≡ true) × (m.status ≡ applied))
            ⊎ ((m.partial_apply ≡ false)
                × (m.status ≡ verified)
                × All (λ r. d'.nodes r.path ≡ none) (flatten_operations ops)))
        × ((q : Text)
            → starts_with q (tree home w.id) ≡ false
            → All (λ r. touches q r ≡ false) (flatten_operations ops)
            → d'.nodes q ≡ d.nodes q)
  unfolding execute_batch_chunk
  execute_batch_chunk_outcome ops m d' e out =
      let rs = flatten_operations ops in
      let x = nonempty-Executed rs m d' out e in
      (
        x.manifests,
        elim x.outcome [
          | inl (f, p, s) ↦ inl (p, s)
          | inr (f, p, s) ↦ inr (p, s, (Executed-gone rs m d' out x f).1)
        ],
        Executed-frame rs m d' out x,
      )
