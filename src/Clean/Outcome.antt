-- ===== src/Clean/Outcome.antt =====
-- What `_executeBatchChunk` of scripts/lib/clean-plan.mjs leaves where it returns a manifest.
use claude_housekeeper.Base.{
  [], ℕ, suc, ◌≡◌, ◌∙◌, refl, sym, ap, ◌⊎◌, inl, inr, Bool, true, false, ◌||◌, Option, none, some,
  List, ◌∷◌, arith, All, Bool-cases, ok-injective, or_else, if◌then◌else◌, String, Result, ok, err,
  map,
}
use claude_housekeeper.Contracts.{Text}
use claude_housekeeper.Posix.{text_eq_refl}
use claude_housekeeper.Policy.{ReadJson}
use claude_housekeeper.Disk.{
  Host, Nodes, applied, verified, FileSnapshot, Manifest, manifest, Disk, put_manifest,
  read_manifest, parsed_manifest,
}
use claude_housekeeper.Snapshot.{SnapshotError, file_entry}
use claude_housekeeper.Snapshot.Capture.{Captures}
use claude_housekeeper.Operation.{
  apply_operation, apply_entries, any_failed, verify, verify_checked,
}
use claude_housekeeper.Operation.Transitions.{IsConfirmed, verify_entries-eq_of_confirmed}
use claude_housekeeper.Clean.Execution.{Removal, removals, Draw, Outcome, found, conclude_chunk}
use claude_housekeeper.Clean.Removal.{AreFor, removed, exists-none, apply_entries-IsRemoved}
use claude_housekeeper.Clean.Chunk.{Taken, apply_operation-ok}

IsConfirmed-of_gone :
    (h : Host) (ns : Nodes) (rs : List Removal) (es : List FileSnapshot)
    → AreFor rs es
    → All (λ r. ns r.path ≡ none) rs
    → All (IsConfirmed h ns) (map removed es)
IsConfirmed-of_gone h ns [] [] a g = tt
IsConfirmed-of_gone h ns (r ∷ rs) (e ∷ es) (same, a) (gone, g) =
    (exists-none h ns e.original_path (ap ns same ∙ gone), IsConfirmed-of_gone h ns rs es a g)
IsConfirmed-of_gone h ns [] (e ∷ es) a g = absurd a
IsConfirmed-of_gone h ns (r ∷ rs) [] a g = absurd a

pub AreFor-Captures :
    (h : Host) (dir : Text) (seq : ℕ) (before after : Nodes) (rs : List Removal)
    (es : List FileSnapshot)
    → Captures h dir seq before after (map (λ r. r.path) rs) es
    → AreFor rs es
unfolding file_entry
AreFor-Captures h dir seq before after [] [] c = tt
AreFor-Captures h dir seq before after (r ∷ rs) (e ∷ es) ((node, found, entry, copy), c) = (
  ap (λ (x : FileSnapshot). x.original_path) entry,
  AreFor-Captures h dir (suc seq) before after rs es c,
)
AreFor-Captures h dir seq before after [] (e ∷ es) c = absurd c
AreFor-Captures h dir seq before after (r ∷ rs) [] c = absurd c

-- `verify` on an applied manifest whose files are all as recorded.
verify-confirmed :
    (h : Host) (id : Text) (now : ℕ) (d : Disk) (m : Manifest)
    → read_manifest d id ≡ some m
    → m.status ≡ applied
    → All (IsConfirmed h d.nodes) m.files
    → let m' = record m { status = verified; verified_at = some now } in
      verify h id now d ≡ (ok m', put_manifest d id (some (manifest m')))
unfolding verify verify_checked
verify-confirmed h id now d m r s c =
    rw (r, verify)
      (rw s (rw (verify_entries-eq_of_confirmed h d.nodes m.files c, verify_checked) refl))

-- The outcomes of a returned manifest.
abbrev pub IsSettled : Manifest → Type 0
IsSettled m =
    ((any_failed m.files ≡ true) × (m.partial_apply ≡ true) × (m.status ≡ applied))
    ⊎ ((any_failed m.files ≡ false) × (m.partial_apply ≡ false) × (m.status ≡ verified))

-- The manifest and the disk that end a chunk, from those after the apply loop.
record Concluded (id : Text) (m1 m : Manifest) (d1 d' : Disk) : Type 0 where
  nodes : d'.nodes ≡ d1.nodes
  files : m.files ≡ m1.files
  manifests : d'.manifests id ≡ some (manifest m)
  dirs : d'.snapshot_dirs ≡ d1.snapshot_dirs
  outcome : IsSettled m

pair-eq :
    (m m' : Manifest) (d d' : Disk)
    → ◌≡◌ {A = Outcome} (ok (some m), d) (ok (some m'), d')
    → (m' ≡ m) × (d' ≡ d)
pair-eq m m' d d' e = (
  sym (ap (λ (o : Option Manifest). or_else o m) (ok-injective (ap (λ (p : Outcome). p.0) e))),
  sym (ap (λ (p : Outcome). p.1) e),
)

branch :
    (h : Host) (w : Draw) (m1 : Manifest) (d1 : Disk) {b : Bool}
    → m1.partial_apply ≡ b
    → conclude_chunk h w (ok m1, d1)
      ≡ (if b then (ok (some m1), d1) else found (verify h w.id w.verified_at d1))
unfolding conclude_chunk
branch h w m1 d1 q =
    ap (λ b. if b then (ok (some m1), d1) else found (verify h w.id w.verified_at d1)) q

conclude_chunk-Concluded :
    (h : Host) (w : Draw) (m1 m : Manifest) (d1 d' : Disk)
    → d1.manifests w.id ≡ some (manifest m1)
    → m1.status ≡ applied
    → m1.partial_apply ≡ any_failed m1.files
    → (any_failed m1.files ≡ false → All (IsConfirmed h d1.nodes) m1.files)
    → conclude_chunk h w (ok m1, d1) ≡ (ok (some m), d')
    → Concluded w.id m1 m d1 d'
conclude_chunk-Concluded h w m1 m d1 d' r s p c e = elim (Bool-cases (any_failed m1.files)) [
  | inl f ↦
      let (x, y) = pair-eq m1 m d1 d' (sym (branch h w m1 d1 (p ∙ f)) ∙ e) in
      rw (x, y)
        (record {
          nodes = refl;
          files = refl;
          manifests = r;
          dirs = refl;
          outcome = inl (f, p ∙ f, s);
        })
  | inr f ↦
      let m2 = record m1 { status = verified; verified_at = some w.verified_at } in
      let v = verify-confirmed h w.id w.verified_at d1 m1 (ap parsed_manifest r) s (c f) in
      let (x, y) =
        pair-eq m2 m (put_manifest d1 w.id (some (manifest m2))) d'
          (sym (branch h w m1 d1 (p ∙ f) ∙ ap found v) ∙ e) in
      rw (x, y)
        (record {
          nodes = refl;
          files = refl;
          manifests = rw (text_eq_refl w.id) refl;
          dirs = refl;
          outcome = inr (f, p ∙ f, refl);
        })
]

module _ (h : Host) (read : Text → ReadJson) (home : Text) (w : Draw) (consent : String)
    (rs : List Removal) (d : Disk) where
  -- The run of the apply loop after the snapshot, and the manifest that the call returned.
  pub record Executed (m : Manifest) (d' : Disk) : Type 0 where
    pub taken_manifest : Manifest
    pub taken_disk : Disk
    pub taken : Taken h read home w consent rs d taken_manifest taken_disk
    pub nodes : d'.nodes ≡ (apply_entries h (removals rs) taken.entries taken_disk.nodes).1
    pub files : m.files ≡ (apply_entries h (removals rs) taken.entries taken_disk.nodes).0
    pub manifests : d'.manifests w.id ≡ some (manifest m)
    pub dirs : d'.snapshot_dirs ≡ taken_disk.snapshot_dirs
    pub outcome : IsSettled m

  pub apply_chunk-Executed :
      (m0 m : Manifest) (d0 d' : Disk) (r : Result SnapshotError Manifest × Disk)
      (t : Taken h read home w consent rs d m0 d0)
      → AreFor rs t.entries
      → apply_operation h w.id (removals rs) w.applied_at d0 ≡ r
      → conclude_chunk h w r ≡ (ok (some m), d')
      → Executed m d'
  apply_chunk-Executed m0 m d0 d' (err x, d1) t a p e =
      absurd (unfold conclude_chunk in ground (arith, ap (λ (p : Outcome). p.0) e))
  apply_chunk-Executed m0 m d0 d' (ok m1, d1) t a p e =
      let stored : read_manifest d0 w.id ≡ some m0 = rw t.disk (rw (text_eq_refl w.id) refl) in
      let entries : m0.files ≡ t.entries = ap (λ (x : Manifest). x.files) t.stored in
      let (x, y) = apply_operation-ok h w.id (removals rs) w.applied_at d0 m0 m1 d1 stored p in
      let after : Nodes = (apply_entries h (removals rs) t.entries d0.nodes).1 in
      let files : m1.files ≡ (apply_entries h (removals rs) t.entries d0.nodes).0 =
        ap (λ (v : Manifest). v.files) x
        ∙ ap (λ es. (apply_entries h (removals rs) es d0.nodes).0) entries in
      let nodes : d1.nodes ≡ after =
        ap (λ (v : Disk). v.nodes) y
        ∙ ap (λ es. (apply_entries h (removals rs) es d0.nodes).1) entries in
      let partial : m1.partial_apply ≡ any_failed m1.files =
        ap (λ (v : Manifest). v.partial_apply) x
        ∙ ap
            (λ (v : Manifest).
              v.partial_apply || any_failed (apply_entries h (removals rs) m0.files d0.nodes).0)
            t.stored
        ∙ ap (λ (v : Manifest). any_failed v.files) (sym x) in
      let run = apply_entries-IsRemoved h rs t.entries d0.nodes a in
      let c =
        conclude_chunk-Concluded h w m1 m d1 d' (rw y (rw (text_eq_refl w.id) refl))
          (ap (λ (v : Manifest). v.status) x) partial
          (λ f.
            let (same, gone) = run.gone (ap any_failed (sym files) ∙ f) in
            rw (nodes, files, same) (IsConfirmed-of_gone h after rs t.entries a gone))
          e in
      record {
        taken_manifest = m0;
        taken_disk = d0;
        taken = t;
        nodes = c.nodes ∙ nodes;
        files = c.files ∙ files;
        manifests = c.manifests;
        dirs = c.dirs ∙ ap (λ (v : Disk). v.snapshot_dirs) y;
        outcome = c.outcome;
      }
