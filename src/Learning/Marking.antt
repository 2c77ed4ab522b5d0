-- ===== src/Learning/Marking.antt =====
-- What pruning and marking in scripts/lib/learning.mjs keep.
use claude_housekeeper.Base.{
  [], ℕ, ◌-◌, ◌*◌, ◌≡◌, refl, ap, ◌≤◌, ◌<◌, ◌⊎◌, leb, inl, inr, Option-cases, Bool, true, not,
  String, Option, none, some, is_some, List, ◌∷◌, map, filter, find, All, arith, Bool-cases, ok,
}
use claude_housekeeper.Contracts.{Text}
use claude_housekeeper.Posix.{text_eq, text_eq_refl}
use claude_housekeeper.Learning.{
  Line, applied_record, find_applied, detector_of, path_of, Entry, entry, LogFile, lines,
  records_of, read_jsonl_file, keep_recent, prune_records, prune_file, prune_files,
  prune_learning_files, Marker, StateFile, markers, old_markers, put_marker, marker_of, lookup,
  nonempty_string, nonempty_text, mark_false_positive,
}

-- The second list is left of the first when each record with a time of `cutoff` or later is kept, and each
-- record with an earlier time, or none, is dropped.
pub data Recents (cutoff : ℕ) : List (Option Entry) → List (Option Entry) → Type 0 where
  nothing : Recents cutoff [] []
  keeps :
      {e : Entry} {rs ss : List (Option Entry)} (t : ℕ)
      → e.time ≡ some t
      → cutoff ≤ t
      → Recents cutoff rs ss
      → Recents cutoff (some e ∷ rs) (some e ∷ ss)
  drops :
      {e : Entry} {rs ss : List (Option Entry)}
      → (e.time ≡ none) ⊎ ((t : ℕ) × (e.time ≡ some t) × (t < cutoff))
      → Recents cutoff rs ss
      → Recents cutoff (some e ∷ rs) ss

records_of-map-entry : (es : List Entry) → records_of (map entry es) ≡ map some es
unfolding records_of
records_of-map-entry [] = refl
records_of-map-entry (e ∷ es) = ap (λ rs. some e ∷ rs) (records_of-map-entry es)

keep_recent_total :
    (cutoff : ℕ) (rs : List (Option Entry))
    → All (λ r. is_some r ≡ true) rs
    → (es : List Entry) × (keep_recent cutoff rs ≡ some es) × Recents cutoff rs (map some es)
unfolding keep_recent
keep_recent_total cutoff [] a = ([], refl, nothing)
keep_recent_total cutoff (none ∷ rs) (p, a) = absurd (ground (arith, p))
keep_recent_total cutoff (some e ∷ rs) (p, a) =
    let (es, q, s) = keep_recent_total cutoff rs a in
    elim (Option-cases e.time) [
      | inl b ↦ (es, rw (q, keep_recent, b) refl, drops (inl b) s)
      | inr (t, b) ↦ elim (Bool-cases (leb cutoff t)) [
        | inl l ↦ (e ∷ es, rw (q, keep_recent, b, l) refl, keeps t b (ground (arith, l)) s)
        | inr l ↦ (es, rw (q, keep_recent, b, l) refl, drops (inr (t, b, ground (arith, l))) s)
      ]
    ]

-- The file reads, and no record of it is null.
abbrev pub IsClean : LogFile → Type 0
IsClean f =
    (rs : List (Option Entry)) × (read_jsonl_file f ≡ ok rs) × All (λ r. is_some r ≡ true) rs

-- The file holds the recent records of another, in order.
abbrev pub IsPruned : ℕ → LogFile → LogFile → Type 0
IsPruned cutoff f g =
    (rs : List (Option Entry)) × (ss : List (Option Entry)) × (read_jsonl_file f ≡ ok rs)
    × (read_jsonl_file g ≡ ok ss)
    × Recents cutoff rs ss

prune_file-IsPruned :
    (cutoff : ℕ) (f : LogFile)
    → IsClean f
    → (g : LogFile) × (prune_file cutoff f ≡ ok g) × IsPruned cutoff f g
unfolding prune_file prune_records
prune_file-IsPruned cutoff f ([], e, a) = (f, rw (e, prune_file) refl, ([], [], e, e, nothing))
prune_file-IsPruned cutoff f (r ∷ rs, e, a) =
    let (es, q, s) = keep_recent_total cutoff (r ∷ rs) a in
    (
      lines (map entry es),
      rw (e, prune_file, q) refl,
      (r ∷ rs, map some es, e, unfold read_jsonl_file in ap ok (records_of-map-entry es), s),
    )

abbrev pub ArePruned : ℕ → List LogFile → List LogFile → Type 0
ArePruned cutoff [] [] = Unit
ArePruned cutoff (f ∷ fs) (g ∷ gs) = IsPruned cutoff f g × ArePruned cutoff fs gs
ArePruned cutoff _ _ = ⊥

prune_files-ArePruned :
    (cutoff : ℕ) (fs : List LogFile)
    → All IsClean fs
    → ((prune_files cutoff fs).0 ≡ none) × ArePruned cutoff fs (prune_files cutoff fs).1
unfolding prune_files
prune_files-ArePruned cutoff [] a = (refl, tt)
prune_files-ArePruned cutoff (f ∷ fs) (c, a) =
    let (g, e, p) = prune_file-IsPruned cutoff f c in
    let (q, r) = prune_files-ArePruned cutoff fs a in rw (e, prune_files) (q, (p, r))

-- Where every file reads and has no null record, pruning succeeds, and each file then has exactly its
-- records with a time of at most `days` days before `now`, in order; those without a time are dropped.
pub prune_learning_files-ArePruned :
    (now days : ℕ) (fs : List LogFile)
    → All IsClean fs
    → ((prune_learning_files now days fs).0 ≡ none)
      × ArePruned (now - days * 86400000) fs (prune_learning_files now days fs).1
unfolding prune_learning_files
prune_learning_files-ArePruned now days fs a = prune_files-ArePruned (now - days * 86400000) fs a

abbrev pub is_of : Text → Marker → Bool
is_of op m = text_eq m.op_id op

put_marker-others :
    (m : Marker) (ms : List Marker)
    → filter (λ x. not (is_of m.op_id x)) (put_marker m ms) ≡ filter (λ x. not (is_of m.op_id x)) ms
unfolding put_marker
put_marker-others m [] = rw (text_eq_refl m.op_id) refl
put_marker-others m (x ∷ ms) = elim (Bool-cases (is_of m.op_id x)) [
  | inl e ↦ rw (e, text_eq_refl m.op_id) refl
  | inr e ↦ rw (e, put_marker-others m ms, e) refl
]

put_marker-find : (m : Marker) (ms : List Marker) → find (is_of m.op_id) (put_marker m ms) ≡ some m
unfolding put_marker
put_marker-find m [] = rw (text_eq_refl m.op_id) refl
put_marker-find m (x ∷ ms) = elim (Bool-cases (is_of m.op_id x)) [
  | inl e ↦ rw (e, text_eq_refl m.op_id) refl
  | inr e ↦ rw (e, put_marker-find m ms, e) refl
]

put_marker_twice :
    (m n : Marker) (ms : List Marker)
    → m.op_id ≡ n.op_id
    → put_marker n (put_marker m ms) ≡ put_marker n ms
unfolding put_marker
put_marker_twice m n [] same = rw (same, text_eq_refl n.op_id) refl
put_marker_twice m n (x ∷ ms) same = elim (Bool-cases (is_of n.op_id x)) [
  | inl e ↦ rw (same, e, text_eq_refl n.op_id) refl
  | inr e ↦ rw (same, e, put_marker_twice m n ms same, e) refl
]

-- Marking an operation leaves every marker of another operation as it is, in order; the marker that is found
-- for the operation is the new one, with the time of the call; and what an earlier call marked for the same
-- operation makes no difference.
pub mark_false_positive_lem :
    (op : Text) (now : ℕ) (detector : Option String) (path : Option Text) (applied : LogFile)
    (s : StateFile)
    → let mark = λ (t : ℕ) (x : StateFile). mark_false_positive op t detector path applied x in
      let new = old_markers (mark now s) in
      (filter (λ x. not (is_of op x)) new ≡ filter (λ x. not (is_of op x)) (old_markers s))
      × ((m : Marker) × (find (is_of op) new ≡ some m) × (m.op_id ≡ op) × (m.marked_at ≡ now))
      × ((t : ℕ) → mark now (mark t s) ≡ mark now s)
unfolding mark_false_positive
mark_false_positive_lem op now detector path applied s =
    let found = lookup op (read_jsonl_file applied) in
    let m =
      λ (t : ℕ). marker_of op t (nonempty_string detector none) (nonempty_text path none) found in
    let old = old_markers s in
    (
      put_marker-others (m now) old,
      (m now, put_marker-find (m now) old, refl, refl),
      λ t. ap markers (put_marker_twice (m t) (m now) old refl),
    )

-- The line that `appendApplied` writes.
abbrev written : ℕ × Text → Line
written (t, o) = entry (applied_record t o)

find_applied-written :
    (op : Text) (ops : List (ℕ × Text))
    → let found = find_applied op (records_of (map written ops)) in
      (detector_of found none ≡ none) × (path_of found none ≡ none)
unfolding find_applied records_of
find_applied-written op [] = (refl, refl)
find_applied-written op ((t, o) ∷ ops) = elim (Bool-cases (text_eq o op)) [
  | inl e ↦ rw e (refl, refl)
  | inr e ↦ rw e (find_applied-written op ops)
]

-- With the lines that `appendApplied` writes, and without hints, the marker names no detector and no path.
mark_false_positive-written :
    (op : Text) (now : ℕ) (ops : List (ℕ × Text)) (s : StateFile)
    → (m : Marker) × (find
          (is_of op)
          (old_markers (mark_false_positive op now none none (lines (map written ops)) s))
        ≡ some m)
      × (m.target_detector ≡ none)
      × (m.target_path ≡ none)
unfolding mark_false_positive read_jsonl_file
mark_false_positive-written op now ops s =
    let found = find_applied op (records_of (map written ops)) in
    let m = marker_of op now none none found in
    let (d, p) = find_applied-written op ops in (m, put_marker-find m (old_markers s), d, p)
