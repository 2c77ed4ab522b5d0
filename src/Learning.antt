-- ===== src/Learning.antt =====
-- scripts/lib/learning.mjs: the learning log. A file is its lines, each as what it parses to; every file ends
-- in a line break, as the program writes it. `time` is `new Date(ts).getTime()`, `none` where that is NaN;
-- clock readings are arguments. A value that is no object is an entry without fields, except null.
pub mod Marking
use claude_housekeeper.Base.{
  [], ℕ, ◌-◌, ◌*◌, Bool, true, false, leb, String, Option, none, some, List, ◌∷◌, ◌++◌, map, filter,
  if◌then◌else◌, or_else, str_eq, Result, ok, err,
}
use claude_housekeeper.Contracts.{Text}
use claude_housekeeper.Posix.{text_eq}

pub record Entry : Type 0 where
  pub time : Option ℕ
  pub op_id : Option Text
  pub detector_id : Option String
  pub target_path : Option Text

-- `null_line` parses to null, on which a field access throws.
pub data Line : Type 0 where
  blank malformed null_line : Line
  entry : Entry → Line

pub data LogFile : Type 0 where
  missing unreadable : LogFile
  lines : List Line → LogFile

pub data LogError : Type 0 where
  read_failed null_record : LogError

-- The records of the lines, in order; `none` is null.
unfoldable pub records_of : List Line → List (Option Entry)
records_of [] = []
records_of (blank ∷ ls) = records_of ls
records_of (malformed ∷ ls) = records_of ls
records_of (null_line ∷ ls) = none ∷ records_of ls
records_of (entry e ∷ ls) = some e ∷ records_of ls

-- `readJsonlFile`
unfoldable pub read_jsonl_file : LogFile → Result LogError (List (Option Entry))
unfolding records_of
read_jsonl_file missing = ok []
read_jsonl_file unreadable = err read_failed
read_jsonl_file (lines ls) = ok (records_of ls)

-- `appendJsonlLine`
unfoldable pub append_jsonl_line : LogFile → Entry → Result LogError LogFile
append_jsonl_line missing e = ok (lines (entry e ∷ []))
append_jsonl_line unreadable e = err read_failed
append_jsonl_line (lines ls) e = ok (lines (ls ++ entry e ∷ []))

-- The record of `appendApplied`: it has neither `detectorId` nor `targetPath`.
abbrev pub applied_record : ℕ → Text → Entry
applied_record now op = record {
  time = some now;
  op_id = some op;
  detector_id = none;
  target_path = none;
}

-- `!isNaN(ts) && ts >= cutoff`
abbrev pub is_recent : ℕ → Entry → Bool
is_recent cutoff e = elim e.time [ none ↦ false | some t ↦ leb cutoff t ]

-- `records.filter`; `none` is the error that a null record throws.
unfoldable pub keep_recent : ℕ → List (Option Entry) → Option (List Entry)
keep_recent cutoff [] = some []
keep_recent cutoff (none ∷ rs) = none
keep_recent cutoff (some e ∷ rs) = elim (keep_recent cutoff rs) [
  | none ↦ none
  | some es ↦ some (if is_recent cutoff e then e ∷ es else es)
]

-- The file that is written for the records that are kept.
abbrev pub write_kept : Option (List Entry) → Result LogError LogFile
write_kept none = err null_record
write_kept (some es) = ok (lines (map entry es))

-- One round of the loop of `pruneLearningFiles`, after the file was read: no record, no write.
unfoldable pub prune_records : ℕ → LogFile → List (Option Entry) → Result LogError LogFile
unfolding keep_recent
prune_records cutoff f [] = ok f
prune_records cutoff f (r ∷ rs) = write_kept (keep_recent cutoff (r ∷ rs))

unfoldable pub prune_file : ℕ → LogFile → Result LogError LogFile
unfolding read_jsonl_file prune_records
prune_file cutoff f = elim (read_jsonl_file f) [ err e ↦ err e | ok rs ↦ prune_records cutoff f rs ]

-- The loop: the files before an error are written, those after it are not looked at.
unfoldable pub prune_files : ℕ → List LogFile → Option LogError × List LogFile
unfolding prune_file
prune_files cutoff [] = (none, [])
prune_files cutoff (f ∷ fs) =
    let (e, gs) = prune_files cutoff fs in
    elim (prune_file cutoff f) [ err x ↦ (some x, f ∷ fs) | ok g ↦ (e, g ∷ gs) ]

-- `pruneLearningFiles`; times do not lie before 1970, where the cutoff stops.
unfoldable pub prune_learning_files : ℕ → ℕ → List LogFile → Option LogError × List LogFile
unfolding prune_files
prune_learning_files now days fs = prune_files (now - days * 86400000) fs

pub record Marker : Type 0 where
  pub op_id : Text
  pub marked_at : ℕ
  pub target_detector : Option String
  pub target_path : Option Text

-- state.json: missing or malformed, the counter of an older version, another shape, or the markers.
pub data StateFile : Type 0 where
  unusable other_shape : StateFile
  counter : ℕ → StateFile
  markers : List Marker → StateFile

-- `if (match.detectorId)`: an empty text does not count.
abbrev pub nonempty_string : Option String → Option String → Option String
nonempty_string none hint = hint
nonempty_string (some s) hint = if str_eq s "" then hint else some s

abbrev pub nonempty_text : Option Text → Option Text → Option Text
nonempty_text none hint = hint
nonempty_text (some []) hint = hint
nonempty_text (some (c ∷ s)) hint = some (c ∷ s)

abbrev pub has_op : Text → Entry → Bool
has_op op e = elim e.op_id [ none ↦ false | some o ↦ text_eq o op ]

-- `appliedRecords.find`; a null record before the match throws, which is caught.
unfoldable pub find_applied : Text → List (Option Entry) → Option Entry
find_applied op [] = none
find_applied op (none ∷ rs) = none
find_applied op (some e ∷ rs) =
    let rest = find_applied op rs in if has_op op e then some e else rest

abbrev pub lookup : Text → Result LogError (List (Option Entry)) → Option Entry
lookup op (err e) = none
lookup op (ok rs) = find_applied op rs

abbrev pub detector_of : Option Entry → Option String → Option String
detector_of none hint = hint
detector_of (some e) hint = nonempty_string e.detector_id hint

abbrev pub path_of : Option Entry → Option Text → Option Text
path_of none hint = hint
path_of (some e) hint = nonempty_text e.target_path hint

abbrev pub marker_of : Text → ℕ → Option String → Option Text → Option Entry → Marker
marker_of op now detector path found = record {
  op_id = op;
  marked_at = now;
  target_detector = detector_of found detector;
  target_path = path_of found path;
}

abbrev pub old_markers : StateFile → List Marker
old_markers (markers ms) = ms
old_markers _ = []

-- The first marker of the operation is replaced; where there is none, the marker goes last.
unfoldable pub put_marker : Marker → List Marker → List Marker
put_marker m [] = m ∷ []
put_marker m (x ∷ ms) =
    let rest = put_marker m ms in if text_eq x.op_id m.op_id then m ∷ ms else x ∷ rest

-- `markFalsePositive`, with the hints of the caller and the file of applied operations.
unfoldable pub mark_false_positive :
    Text → ℕ → Option String → Option Text → LogFile → StateFile → StateFile
unfolding put_marker find_applied read_jsonl_file
mark_false_positive op now detector path applied s = markers (
    put_marker
      (marker_of op now (nonempty_string detector none) (nonempty_text path none)
        (lookup op (read_jsonl_file applied)))
      (old_markers s))
