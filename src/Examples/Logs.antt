-- ===== src/Examples/Logs.antt =====
-- A learning log of scripts/lib/learning.mjs: two applied operations, one of them old, and a malformed line.
use claude_housekeeper.Base.{[], ℕ, ◌≡◌, ◌-◌, ◌*◌, refl, not, none, some, ◌∷◌, filter, find}
use claude_housekeeper.Posix.{codes}
use claude_housekeeper.Learning.{
  LogFile, missing, lines, malformed, entry, applied_record, read_jsonl_file, prune_learning_files,
  Marker, StateFile, markers, old_markers, mark_false_positive,
}
use claude_housekeeper.Learning.Marking.{
  is_of, ArePruned, prune_learning_files-ArePruned, mark_false_positive_lem,
}

abbrev log : LogFile
log = lines (
    entry (applied_record 5 (codes "op_1"))
    ∷ malformed
    ∷ entry (applied_record 90000000 (codes "op_2"))
    ∷ [])

prune_learning_files-ArePruned_example :
    ((prune_learning_files 100000000 1 (missing ∷ log ∷ [])).0 ≡ none)
    × ArePruned
        (100000000 - 1 * 86400000)
        (missing ∷ log ∷ [])
        (prune_learning_files 100000000 1 (missing ∷ log ∷ [])).1
unfolding read_jsonl_file
prune_learning_files-ArePruned_example =
    prune_learning_files-ArePruned 100000000 1 (missing ∷ log ∷ [])
      (([], refl, tt), ((_, refl, (refl, (refl, tt))), tt))

abbrev state : StateFile
state = markers (
    record { op_id = codes "op_2"; marked_at = 1; target_detector = none; target_path = none } ∷ [])

mark_false_positive_lem_example :
    let mark = λ (t : ℕ) (x : StateFile). mark_false_positive (codes "op_1") t none none log x in
    let new = old_markers (mark 7 state) in
    (filter (λ x. not (is_of (codes "op_1") x)) new
      ≡ filter (λ x. not (is_of (codes "op_1") x)) (old_markers state))
    × ((m : Marker) × (find (is_of (codes "op_1")) new ≡ some m)
        × (m.op_id ≡ codes "op_1")
        × (m.marked_at ≡ 7))
    × ((t : ℕ) → mark 7 (mark t state) ≡ mark 7 state)
mark_false_positive_lem_example = mark_false_positive_lem (codes "op_1") 7 none none log state
