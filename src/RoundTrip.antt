-- ===== src/RoundTrip.antt =====
-- The snapshot writer of scripts/lib/snapshot.mjs with the restore of scripts/lib/rollback-plan.mjs:
-- what was captured comes back, whatever happened to the targets in between.
use claude_housekeeper.Base.{
  [], ℕ, suc, ◌≤◌, ◌≡◌, ◌∙◌, refl, sym, ap, true, false, Option, none, some, List, ◌∷◌, ◌++◌, map,
  arith, All, length, ok,
}
use claude_housekeeper.Contracts.{Text}
use claude_housekeeper.Posix.{text_eq, text_eq_comm, starts_with}
use claude_housekeeper.Disk.{Host, Node, regular, node_bytes, Nodes, FileSnapshot}
use claude_housekeeper.Snapshot.{snapshot_file_path, file_entry, copy_targets}
use claude_housekeeper.Snapshot.Capture.{
  Captures, copy_targets-Captures, snapshot_file_path-outside,
}
use claude_housekeeper.Rollback.{RollbackOp, make_operation, restore_all}
use claude_housekeeper.Rollback.Restore.{
  bytes_of, is_link, CanRestore, IsApart, AllRestorable, HasBytes, restore_all_lem,
}

abbrev pub AreDistinct : List Text → Type 0
AreDistinct [] = Unit
AreDistinct (t ∷ ts) = All (λ u. text_eq t u ≡ false) ts × AreDistinct ts

starts_with-nil : (s : Text) → starts_with s [] ≡ true
starts_with-nil [] = refl
starts_with-nil (c ∷ s) = refl

pub starts_with-append : (p s : Text) → starts_with (p ++ s) p ≡ true
starts_with-append [] s = starts_with-nil s
starts_with-append (c ∷ p) s = ground (arith, starts_with-append p s)

-- The snapshot files are as they were.
abbrev pub IsKept : Text → Nodes → Nodes → Type 0
IsKept dir after changed =
    (seq : ℕ) (t : Text)
    → changed (snapshot_file_path dir seq t) ≡ after (snapshot_file_path dir seq t)

IsKept-of_tree :
    (dir : Text) (after changed : Nodes)
    → ((q : Text) → starts_with q dir ≡ true → changed q ≡ after q)
    → IsKept dir after changed
unfolding snapshot_file_path
IsKept-of_tree dir after changed kept seq t =
    kept (snapshot_file_path dir seq t) (starts_with-append dir _)

-- The later operations do not touch a target that comes before them.
captured-IsApart :
    (h : Host) (dir : Text) (seq : ℕ) (before after : Nodes) (t : Text) (op : RollbackOp)
    (ts : List Text) (es : List FileSnapshot)
    → op.original_path ≡ t
    → starts_with t dir ≡ false
    → All (λ u. text_eq t u ≡ false) ts
    → Captures h dir seq before after ts es
    → All (IsApart op) (map make_operation es)
unfolding file_entry
captured-IsApart h dir seq before after t op [] [] same out d c = tt
captured-IsApart h dir seq before after t op (u ∷ ts) (e ∷ es) same out (d, ds)
      ((node, found, entry, copy), cs) =
    rw (same, entry)
      (
        (
          text_eq_comm t (snapshot_file_path dir seq u)
              ∙ snapshot_file_path-outside dir u t seq out,
          d,
        ),
        captured-IsApart h dir (suc seq) before after t op ts es same out ds cs,
      )
captured-IsApart h dir seq before after t op [] (e ∷ es) same out d c = absurd c
captured-IsApart h dir seq before after t op (u ∷ ts) [] same out d c = absurd c

captured-CanRestore :
    (h : Host) (dir : Text) (seq : ℕ) (after changed : Nodes) (t : Text) (e : FileSnapshot)
    (node : Node)
    → IsKept dir after changed
    → is_link (changed t) ≡ false
    → e ≡ file_entry h dir seq t node
    → after (snapshot_file_path dir seq t) ≡ some (regular h.default_mode (node_bytes node))
    → CanRestore h changed (make_operation e)
unfolding file_entry
captured-CanRestore h dir seq after changed t e node kept l entry copy = rw entry (record {
  mode = h.default_mode;
  bytes = node_bytes node;
  snapshot = kept seq t ∙ copy;
  hash = refl;
  unlinked = l;
  kind = refl;
})

pub captured-AllRestorable :
    (h : Host) (dir : Text) (seq : ℕ) (before after changed : Nodes) (ts : List Text)
    (es : List FileSnapshot)
    → IsKept dir after changed
    → AreDistinct ts
    → All (λ t. starts_with t dir ≡ false) ts
    → All (λ t. is_link (changed t) ≡ false) ts
    → Captures h dir seq before after ts es
    → AllRestorable h changed (map make_operation es)
captured-AllRestorable h dir seq before after changed [] [] kept d out l c = tt
captured-AllRestorable h dir seq before after changed (t ∷ ts) (e ∷ es) kept (d, ds) (o, os) (l, ls)
      ((node, found, entry, copy), cs) =
    (
      captured-CanRestore h dir seq after changed t e node kept l entry copy,
      captured-IsApart h dir (suc seq) before after t (make_operation e) ts es
          (ap (λ (x : FileSnapshot). x.original_path) entry ∙ unfold file_entry in refl) o d cs,
      captured-AllRestorable h dir (suc seq) before after changed ts es kept ds os ls cs,
    )
captured-AllRestorable h dir seq before after changed [] (e ∷ es) kept d out l c = absurd c
captured-AllRestorable h dir seq before after changed (u ∷ ts) [] kept d out l c = absurd c

-- The bytes that a target had when it was captured: a link's target text, or the file's bytes.
abbrev pub captured_bytes : Option Node → Option Text
captured_bytes none = none
captured_bytes (some node) = some (node_bytes node)

pub restored_bytes :
    (h : Host) (dir : Text) (seq : ℕ) (before after changed final : Nodes) (ts : List Text)
    (es : List FileSnapshot)
    → IsKept dir after changed
    → Captures h dir seq before after ts es
    → All (HasBytes changed final) (map make_operation es)
    → All (λ t. bytes_of (final t) ≡ captured_bytes (before t)) ts
unfolding file_entry
restored_bytes h dir seq before after changed final [] [] kept c b = tt
restored_bytes h dir seq before after changed final (t ∷ ts) (e ∷ es) kept
      ((node, found, entry, copy), cs) (b, bs) =
    (
      (rw entry at b) ∙ ap bytes_of (kept seq t ∙ copy) ∙ sym (ap captured_bytes found),
      restored_bytes h dir (suc seq) before after changed final ts es kept cs bs,
    )
restored_bytes h dir seq before after changed final [] (e ∷ es) kept c b = absurd c
restored_bytes h dir seq before after changed final (u ∷ ts) [] kept c b = absurd c

-- Distinct targets outside the snapshot directory are captured; then the files change in any way that
-- leaves the snapshot directory alone and puts no link at a target. Restoring the captured entries
-- succeeds, and gives every target the bytes that it had when it was captured.
pub snapshot-restore :
    (h : Host) (dir : Text) (ts : List Text) (before after changed : Nodes) (es : List FileSnapshot)
    → copy_targets h dir 0 ts before ≡ (ok es, after)
    → length ts ≤ 10000
    → AreDistinct ts
    → All (λ t. starts_with t dir ≡ false) ts
    → ((q : Text) → starts_with q dir ≡ true → changed q ≡ after q)
    → All (λ t. is_link (changed t) ≡ false) ts
    → (final : Nodes) × (restore_all h (map make_operation es) changed ≡ (ok tt, final))
      × All (λ t. bytes_of (final t) ≡ captured_bytes (before t)) ts
snapshot-restore h dir ts before after changed es e b d out kept l =
    let k = IsKept-of_tree dir after changed kept in
    let (c, frame) = copy_targets-Captures h dir ts before es after e b out in
    let (final, r) =
      restore_all_lem h changed (map make_operation es)
        (captured-AllRestorable h dir 0 before after changed ts es k d out l c) in
    (final, r.run, restored_bytes h dir 0 before after changed final ts es k c r.bytes)
