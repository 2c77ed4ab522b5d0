-- ===== src/Snapshot/Capture.antt =====
-- What the copying loop of `takeSnapshot` in scripts/lib/snapshot.mjs leaves: a copy of every target,
-- and the targets as they were.
use claude_housekeeper.Base.{
  [], ℕ, suc, ◌+◌, ◌≤◌, ◌<◌, ◌≡◌, ◌∙◌, refl, sym, ap, inl, inr, false, some, List, ◌∷◌, ◌++◌, arith,
  All, length, Option-cases, Result, ok, err,
}
use claude_housekeeper.Contracts.{Text}
use claude_housekeeper.Posix.{text_eq, text_eq_refl, starts_with, codes, basename}
use claude_housekeeper.Disk.{Host, Node, regular, node_bytes, Nodes, atomic_write, FileSnapshot}
use claude_housekeeper.Snapshot.{
  SnapshotError, pad4, snapshot_file_path, file_entry, prepend, copy_targets,
}

pub text_eq-prefix : (p s t : Text) → text_eq (p ++ s) (p ++ t) ≡ text_eq s t
text_eq-prefix [] s t = refl
text_eq-prefix (c ∷ p) s t = ground (arith, text_eq-prefix p s t)

pub text_eq-outside : (p s t : Text) → starts_with t p ≡ false → text_eq (p ++ s) t ≡ false
text_eq-outside [] s t h = ground arith
text_eq-outside (c ∷ p) s [] h = refl
text_eq-outside (c ∷ p) s (d ∷ t) h = ground (arith, text_eq-outside p s t)

-- Two sequence numbers below 10000 name different files.
snapshot_file_path-ne :
    (dir s t : Text) (i j : ℕ)
    → i < j
    → j < 10000
    → text_eq (snapshot_file_path dir j t) (snapshot_file_path dir i s) ≡ false
unfolding snapshot_file_path
snapshot_file_path-ne dir s t i j h k =
    rw
      (text_eq-prefix dir (codes "/files/" ++ (pad4 j ++ (codes "_" ++ basename t)))
        (codes "/files/" ++ (pad4 i ++ (codes "_" ++ basename s))))
      (ground arith)

pub snapshot_file_path-outside :
    (dir t q : Text) (i : ℕ)
    → starts_with q dir ≡ false
    → text_eq (snapshot_file_path dir i t) q ≡ false
unfolding snapshot_file_path
snapshot_file_path-outside dir t q i h =
    text_eq-outside dir (codes "/files/" ++ (pad4 i ++ (codes "_" ++ basename t))) q h

prepend-inv :
    (a : FileSnapshot) (r : Result SnapshotError (List FileSnapshot) × Nodes)
    (es : List FileSnapshot) (after : Nodes)
    → prepend a r ≡ (ok es, after)
    → (fs : List FileSnapshot) × (r ≡ (ok fs, after)) × (es ≡ a ∷ fs)
prepend-inv a (ok fs, s) es after e = (fs, cc, cc)
prepend-inv a (err x, s) es after e = absurd (ground arith)

copy_targets-nil :
    (h : Host) (dir : Text) (seq : ℕ) (ns : Nodes) (es : List FileSnapshot) (after : Nodes)
    → copy_targets h dir seq [] ns ≡ (ok es, after)
    → (es ≡ []) × (after ≡ ns)
unfolding copy_targets
copy_targets-nil h dir seq ns es after e = (
  cc (ap (λ (p : Result SnapshotError (List FileSnapshot) × Nodes). p.0) e),
  sym (ap (λ (p : Result SnapshotError (List FileSnapshot) × Nodes). p.1) e),
)

-- One round of the loop that succeeded.
copy_targets-cons :
    (h : Host) (dir : Text) (seq : ℕ) (t : Text) (ts : List Text) (ns : Nodes)
    (es : List FileSnapshot) (after : Nodes)
    → copy_targets h dir seq (t ∷ ts) ns ≡ (ok es, after)
    → (node : Node) × (fs : List FileSnapshot) × (ns t ≡ some node)
      × (copy_targets h dir
            (suc seq)
            ts
            (atomic_write h ns (snapshot_file_path dir seq t) (node_bytes node))
          ≡ (ok fs, after))
      × (es ≡ file_entry h dir seq t node ∷ fs)
unfolding copy_targets
copy_targets-cons h dir seq t ts ns es after e = elim (Option-cases (ns t)) [
  | inl lost ↦ absurd (ground arith)
  | inr (node, found) ↦
      let (fs, r, q) =
        prepend-inv (file_entry h dir seq t node)
          (copy_targets h dir (suc seq) ts
            (atomic_write h ns (snapshot_file_path dir seq t) (node_bytes node)))
          es after (rw (found, copy_targets) at e) in
      (node, fs, found, r, q)
]

-- The loop writes only snapshot files with the numbers from `seq` on.
copy_targets-frame :
    (h : Host) (dir : Text) (seq : ℕ) (ts : List Text) (ns : Nodes) (es : List FileSnapshot)
    (after : Nodes) (q : Text)
    → copy_targets h dir seq ts ns ≡ (ok es, after)
    → ((j : ℕ) (t : Text)
        → seq ≤ j
        → j < seq + length ts
        → text_eq (snapshot_file_path dir j t) q ≡ false)
    → after q ≡ ns q
copy_targets-frame h dir seq [] ns es after q e far =
    ap (λ (f : Nodes). f q) (copy_targets-nil h dir seq ns es after e).1
copy_targets-frame h dir seq (t ∷ ts) ns es after q e far =
    let (node, fs, found, r, c) = copy_targets-cons h dir seq t ts ns es after e in
    copy_targets-frame h dir (suc seq) ts
      (atomic_write h ns (snapshot_file_path dir seq t) (node_bytes node)) fs after q r
      (λ j u l m. far j u (omega arith) (omega arith))
    ∙ rw (far seq t (omega arith) (omega arith))

-- Each entry describes its target as it was before the loop, and its snapshot file holds the bytes.
abbrev pub Captures : Host → Text → ℕ → Nodes → Nodes → List Text → List FileSnapshot → Type 0
Captures h dir seq before after [] [] = Unit
Captures h dir seq before after (t ∷ ts) (e ∷ es) =
    ((node : Node) × (before t ≡ some node)
      × (e ≡ file_entry h dir seq t node)
      × (after (snapshot_file_path dir seq t) ≡ some (regular h.default_mode (node_bytes node))))
    × Captures h dir (suc seq) before after ts es
Captures h dir seq before after [] (e ∷ es) = ⊥
Captures h dir seq before after (t ∷ ts) [] = ⊥

copy_targets-Captures_from :
    (h : Host) (dir : Text) (before : Nodes) (seq : ℕ) (ts : List Text) (ns : Nodes)
    (es : List FileSnapshot) (after : Nodes)
    → copy_targets h dir seq ts ns ≡ (ok es, after)
    → seq + length ts ≤ 10000
    → All (λ t. starts_with t dir ≡ false) ts
    → ((q : Text) → starts_with q dir ≡ false → ns q ≡ before q)
    → Captures h dir seq before after ts es
copy_targets-Captures_from h dir before seq [] ns es after e b out same =
    rw ((copy_targets-nil h dir seq ns es after e).0) tt
copy_targets-Captures_from h dir before seq (t ∷ ts) ns es after e b (o, out) same =
    let (node, fs, found, r, c) = copy_targets-cons h dir seq t ts ns es after e in
    let next = atomic_write h ns (snapshot_file_path dir seq t) (node_bytes node) in
    rw c (
      (
        node,
        sym (same t o) ∙ found,
        refl,
        copy_targets-frame h dir (suc seq) ts next fs after (snapshot_file_path dir seq t) r
              (λ j u l m. snapshot_file_path-ne dir t u seq j l (omega arith))
            ∙ rw (text_eq_refl (snapshot_file_path dir seq t)),
      ),
      copy_targets-Captures_from h dir before (suc seq) ts next fs after r (omega arith) out
          (λ q away. rw (snapshot_file_path-outside dir t q seq away) (same q away)),
    )

-- When the copying loop of `takeSnapshot` succeeds on at most 10000 targets outside the snapshot
-- directory, there is an entry for every target, in order, with the hash and the description of the
-- target, a snapshot file of its own that holds the target's bytes, and every path outside the snapshot
-- directory is as it was.
pub copy_targets-Captures :
    (h : Host) (dir : Text) (ts : List Text) (ns : Nodes) (es : List FileSnapshot) (after : Nodes)
    → copy_targets h dir 0 ts ns ≡ (ok es, after)
    → length ts ≤ 10000
    → All (λ t. starts_with t dir ≡ false) ts
    → Captures h dir 0 ns after ts es × ((q : Text) → starts_with q dir ≡ false → after q ≡ ns q)
copy_targets-Captures h dir ts ns es after e b out = (
  copy_targets-Captures_from h dir ns 0 ts ns es after e (omega arith) out (λ q away. refl),
  λ q away.
      copy_targets-frame h dir 0 ts ns es after q e
        (λ j t l m. snapshot_file_path-outside dir t q j away),
)
