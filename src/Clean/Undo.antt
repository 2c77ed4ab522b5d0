-- ===== src/Clean/Undo.antt =====
-- A chunk of a clean plan of scripts/lib/clean-plan.mjs, and its rollback by scripts/lib/rollback-plan.mjs.
use claude_housekeeper.Base.{
  [], ℕ, suc, ◌≡◌, ◌∙◌, refl, ap, inl, inr, true, false, none, some, List, ◌∷◌, arith, All,
  Bool-cases, ok, map, String,
}
use mathlib.Core.Path.{ap₂}
use claude_housekeeper.Contracts.{Text}
use claude_housekeeper.Posix.{codes, starts_with, text_eq, text_eq_refl}
use claude_housekeeper.Policy.{ReadJson}
use claude_housekeeper.Disk.{
  Host, Nodes, regular, node_bytes, exists, verified, rolled_back, FileSnapshot, Manifest, manifest,
  Disk, put_manifest, parsed_manifest,
}
use claude_housekeeper.Snapshot.{file_entry, snapshot_file_path}
use claude_housekeeper.Snapshot.Capture.{Captures, copy_targets-Captures, text_eq-prefix}
use claude_housekeeper.Operation.{any_failed}
use claude_housekeeper.RoundTrip.{
  AreDistinct, IsKept, starts_with-append, captured-AllRestorable, restored_bytes, captured_bytes,
}
use claude_housekeeper.Rollback.{
  Plan, make_operation, has_snapshot, compose_rollback_plan, execute_rollback_plan,
}
use claude_housekeeper.Rollback.Restore.{
  bytes_of, is_link, follow_regular, execute_rollback_plan_restores,
}
use claude_housekeeper.Rollback.Compose.{IsReady, IsRollable, compose_rollback_plan_lem}
use claude_housekeeper.Clean.Compose.{CleanOperation}
use claude_housekeeper.Clean.Execution.{Removal, Draw, flatten_operations, execute_batch_chunk}
use claude_housekeeper.Clean.Removal.{removed, touches, exists-none, apply_entries-IsRemoved}
use claude_housekeeper.Clean.Chunk.{paths, tree}
use claude_housekeeper.Clean.Outcome.{Executed, AreFor-Captures}
use claude_housekeeper.Clean.Recovery.{nonempty-Executed, Executed-gone}

-- No removal may touch what lies in the directory.
abbrev pub IsApartFrom : Text → List Removal → Type 0
IsApartFrom dir rs = (q : Text) → starts_with q dir ≡ true → All (λ r. touches q r ≡ false) rs

outside_of_touches :
    (dir : Text) (rs : List Removal)
    → All (λ r. starts_with r.path dir ≡ true → touches r.path r ≡ false) rs
    → All (λ t. starts_with t dir ≡ false) (paths rs)
outside_of_touches dir [] a = tt
outside_of_touches dir (r ∷ rs) (p, a) = (
  elim (Bool-cases (starts_with r.path dir)) [
    | inl s ↦ absurd (ground (arith, p s, text_eq_refl r.path))
    | inr s ↦ s
  ],
  outside_of_touches dir rs a,
)

All-each :
    (dir : Text) (rs : List Removal)
    → ((q : Text) → starts_with q dir ≡ true → All (λ r. touches q r ≡ false) rs)
    → All (λ r. starts_with r.path dir ≡ true → touches r.path r ≡ false) rs
All-each dir [] f = tt
All-each dir (r ∷ rs) f = ((λ s. (f r.path s).0), All-each dir rs (λ q s. (f q s).1))

-- Then no target lies in the directory.
pub paths-outside :
    (dir : Text) (rs : List Removal)
    → IsApartFrom dir rs
    → All (λ t. starts_with t dir ≡ false) (paths rs)
paths-outside dir rs a = outside_of_touches dir rs (All-each dir rs a)

-- A captured entry has no hash of its own yet, so its removal leaves its operation alone.
make_operation-removed :
    (h : Host) (dir : Text) (seq : ℕ) (before after : Nodes) (ts : List Text)
    (es : List FileSnapshot)
    → Captures h dir seq before after ts es
    → map make_operation (map removed es) ≡ map make_operation es
unfolding file_entry
make_operation-removed h dir seq before after [] [] c = refl
make_operation-removed h dir seq before after (t ∷ ts) (e ∷ es) ((node, found, entry, copy), c) =
    ap₂ (λ x xs. x ∷ xs) (rw entry refl)
      (make_operation-removed h dir (suc seq) before after ts es c)
make_operation-removed h dir seq before after [] (e ∷ es) c = absurd c
make_operation-removed h dir seq before after (t ∷ ts) [] c = absurd c

snapshot_file_path-ne_nil :
    (dir t : Text) (seq : ℕ) → text_eq (snapshot_file_path dir seq t) [] ≡ false
unfolding snapshot_file_path
snapshot_file_path-ne_nil [] t seq = refl
snapshot_file_path-ne_nil (c ∷ dir) t seq = refl

has_snapshot_of_regular :
    (h : Host) (ns : Nodes) (e : FileSnapshot) (m : ℕ) (b : Text)
    → text_eq e.snapshot_path [] ≡ false
    → ns e.snapshot_path ≡ some (regular m b)
    → has_snapshot h ns e ≡ true
unfolding exists
has_snapshot_of_regular h ns e m b p r = rw p (rw (follow_regular h ns e.snapshot_path m b r) refl)

-- The entries of files that were removed are ready for a rollback plan.
removed-IsReady :
    (h : Host) (dir : Text) (seq : ℕ) (before after changed : Nodes) (rs : List Removal)
    (es : List FileSnapshot)
    → IsKept dir after changed
    → Captures h dir seq before after (paths rs) es
    → All (λ r. changed r.path ≡ none) rs
    → All (IsReady h changed verified) (map removed es)
unfolding file_entry
removed-IsReady h dir seq before after changed [] [] k c g = tt
removed-IsReady h dir seq before after changed (r ∷ rs) (e ∷ es) k ((node, found, entry, copy), c)
      (gone, g) =
    (
      (
        has_snapshot_of_regular h changed (removed e) h.default_mode (node_bytes node)
            (rw entry (snapshot_file_path-ne_nil dir r.path seq)) (rw entry (k seq r.path ∙ copy)),
        exists-none h changed e.original_path (rw entry gone),
      ),
      removed-IsReady h dir (suc seq) before after changed rs es k c g,
    )
removed-IsReady h dir seq before after changed [] (e ∷ es) k c g = absurd c
removed-IsReady h dir seq before after changed (r ∷ rs) [] k c g = absurd c

unlinked_of_gone :
    (ns : Nodes) (rs : List Removal)
    → All (λ r. ns r.path ≡ none) rs
    → All (λ t. is_link (ns t) ≡ false) (paths rs)
unlinked_of_gone ns [] g = tt
unlinked_of_gone ns (r ∷ rs) (p, g) = (rw p refl, unlinked_of_gone ns rs g)

module _ (h : Host) (read : Text → ReadJson) (home : Text) (w : Draw) (consent : String)
    (d : Disk) where
  -- The chunk leaves the snapshot files alone.
  Executed-IsKept :
      (rs : List Removal) (m : Manifest) (d' : Disk)
      → IsApartFrom (tree home w.id) rs
      → (x : Executed h read home w consent rs d m d')
      → Captures h (tree home w.id) 0 d.nodes x.taken.after (paths rs) x.taken.entries
      → IsKept (tree home w.id) x.taken.after d'.nodes
  unfolding snapshot_file_path
  Executed-IsKept rs m d' apart x c seq t =
      let q = snapshot_file_path (tree home w.id) seq t in
      let s = x.taken in
      let run =
        apply_entries-IsRemoved h rs s.entries x.taken_disk.nodes
          (AreFor-Captures h (tree home w.id) 0 d.nodes s.after rs s.entries c) in
      ap (λ (ns : Nodes). ns q) x.nodes
      ∙ run.frame q (apart q (starts_with-append (tree home w.id) _))
      ∙ ap (λ (e : Disk). e.nodes q) s.disk
      ∙ rw (text_eq-prefix (tree home w.id) (codes "/meta.json") _) refl

  Executed-IsRollable :
      (rs : List Removal) (m : Manifest) (d' : Disk)
      → (x : Executed h read home w consent rs d m d')
      → Captures h (tree home w.id) 0 d.nodes x.taken.after (paths rs) x.taken.entries
      → IsKept (tree home w.id) x.taken.after d'.nodes
      → m.status ≡ verified
      → m.files ≡ map removed x.taken.entries
      → All (λ r. d'.nodes r.path ≡ none) rs
      → IsRollable h d' w.id m
  Executed-IsRollable rs m d' x c k v same gone = record {
    stored = x.manifests;
    status = rw v refl;
    tree = rw (x.dirs, x.taken.disk, text_eq_refl w.id) refl;
    files =
        rw (v, same)
          (removed-IsReady h (tree home w.id) 0 d.nodes x.taken.after d'.nodes rs x.taken.entries k
            c gone);
  }

  -- A chunk of a clean plan, with distinct targets and no removal in the directory of its snapshot, that
  -- returns a manifest that is not partial: the rollback plan for it has no refusal, executing the plan
  -- succeeds, and every target has the bytes again that it had before the chunk.
  pub execute_batch_chunk-rollback :
      (ops : List CleanOperation) (m : Manifest) (d' : Disk) (now : ℕ)
      → execute_batch_chunk h read home w consent ops d ≡ (ok (some m), d')
      → m.partial_apply ≡ false
      → AreDistinct (paths (flatten_operations ops))
      → IsApartFrom (tree home w.id) (flatten_operations ops)
      → let plan = compose_rollback_plan h d' w.id in
        (plan.refused ≡ [])
        × (m' : Manifest) × (d2 : Disk) × (execute_rollback_plan h plan now d' ≡ (ok m', d2))
        × (m'.status ≡ rolled_back)
        × All
            (λ t. bytes_of (d2.nodes t) ≡ captured_bytes (d.nodes t))
            (paths (flatten_operations ops))
  unfolding execute_batch_chunk
  execute_batch_chunk-rollback ops m d' now e p distinct apart =
      let rs = flatten_operations ops in
      let out = paths-outside (tree home w.id) rs apart in
      let x = nonempty-Executed h read home w consent d rs m d' out e in
      let (f, v) : (any_failed m.files ≡ false) × (m.status ≡ verified) =
        ground (arith, x.outcome) in
      let (same, gone) = Executed-gone h read home w consent d rs m d' out x f in
      let s = x.taken in
      let (c, frame) =
        copy_targets-Captures h (tree home w.id) (paths rs) d.nodes s.entries s.after s.copied
          (omega (arith, s.allowed.count_within)) out in
      let k = Executed-IsKept rs m d' apart x c in
      let made =
        compose_rollback_plan_lem h d' w.id m (Executed-IsRollable rs m d' x c k v same gone) in
      let ops_eq =
        ap (map make_operation) same
        ∙ make_operation-removed h (tree home w.id) 0 d.nodes s.after (paths rs) s.entries c in
      let ready =
        captured-AllRestorable h (tree home w.id) 0 d.nodes s.after d'.nodes (paths rs) s.entries k
          distinct out (unlinked_of_gone d'.nodes rs gone) c in
      let plan : Plan = record {
        op_id = w.id;
        operations = map make_operation s.entries;
        refused = [];
      } in
      let (m', after, run, status, bytes, same_elsewhere) =
        execute_rollback_plan_restores h plan now d' m (ap parsed_manifest x.manifests) ready in
      rw (made, ops_eq)
        (
          refl,
          m',
          put_manifest (record d' { nodes = after }) w.id (some (manifest m')),
          run,
          status,
          restored_bytes h (tree home w.id) 0 d.nodes s.after d'.nodes after (paths rs) s.entries k
              c bytes,
        )
