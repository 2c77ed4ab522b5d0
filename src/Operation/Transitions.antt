-- ===== src/Operation/Transitions.antt =====
-- The status transitions of `applyOperation` and `verify` in scripts/lib/snapshot.mjs.
use claude_housekeeper.Base.{
  [], ℕ, ◌≡◌, ◌↔◌, refl, ap, ◌∙◌, ◌⊎◌, Result-cases, inl, inr, Bool, true, false, Option, none,
  some, List, ◌∷◌, arith, All, Bool-cases, Option-cases, Result, ok, err, str_eq, eq_iff, eq_refl,
  String,
}
use claude_housekeeper.Contracts.{Text}
use claude_housekeeper.Posix.{text_eq_refl}
use claude_housekeeper.Disk.{
  Host, Nodes, exists, hash_file, Status, snapshot_taken, applied, verified, FileSnapshot, Manifest,
  Disk, read_manifest,
}
use claude_housekeeper.Snapshot.{SnapshotError}
use claude_housekeeper.Operation.{
  Mutation, is_snapshot_taken, first_drift, apply_checked, apply_entries, verify_checked,
  apply_operation, entry_matches, verify_entries, verify,
}

-- No file of the manifest has changed since the snapshot.
abbrev pub IsUndrifted : Host → Nodes → FileSnapshot → Type 0
IsUndrifted h ns e = hash_file h ns e.original_path ≡ some e.sha_before

first_drift-none :
    (h : Host) (ns : Nodes) (es : List FileSnapshot)
    → first_drift h ns es ≡ none
    → All (IsUndrifted h ns) es
unfolding first_drift
first_drift-none h ns [] e = tt
first_drift-none h ns (f ∷ fs) e = elim (Option-cases (hash_file h ns f.original_path)) [
  | inl lost ↦ absurd (ground arith)
  | inr (sha, found) ↦ elim (Bool-cases (str_eq sha f.sha_before)) [
    | inl same ↦ (
      rw found (ap some ((eq_iff sha f.sha_before).0 same)),
      first_drift-none h ns fs (ground arith),
    )
    | inr other ↦ absurd (ground arith)
  ]
]

is_snapshot_taken_sound : (s : Status) → is_snapshot_taken s ≡ true → s ≡ snapshot_taken
is_snapshot_taken_sound s e = ground arith

-- What a call of `applyOperation` on a manifest that it could read has done.
abbrev pub Applied :
    Host → Text → List Mutation → Disk → Manifest → Result SnapshotError Manifest × Disk → Type 0
Applied h id ops d m (ok m', d') =
    (m.status ≡ snapshot_taken)
    × All (IsUndrifted h d.nodes) m.files
    × (m'.status ≡ applied)
    × (read_manifest d' id ≡ some m')
    × (d'.nodes ≡ (apply_entries h ops m.files d.nodes).1)
Applied h id ops d m (err x, d') =
    (d' ≡ d)
    ⊎ ((h.can_store id ≡ false)
        × (m.status ≡ snapshot_taken)
        × All (IsUndrifted h d.nodes) m.files
        × (d'.nodes ≡ (apply_entries h ops m.files d.nodes).1)
        × (read_manifest d' id ≡ some m))

apply_checked-Applied :
    (h : Host) (id : Text) (ops : List Mutation) (now : ℕ) (d : Disk) (m : Manifest)
    (o : Option SnapshotError)
    → read_manifest d id ≡ some m
    → m.status ≡ snapshot_taken
    → first_drift h d.nodes m.files ≡ o
    → Applied h id ops d m (apply_checked h id ops now d m o)
unfolding apply_checked
apply_checked-Applied h id ops now d m (some x) r s e = inl refl
apply_checked-Applied h id ops now d m none r s e =
    let same = first_drift-none h d.nodes m.files e in
    elim (Bool-cases (h.can_store id)) [
      | inl stores ↦ rw stores (s, same, refl, rw (text_eq_refl id), refl)
      | inr fails ↦ rw fails (inr (fails, s, same, refl, r))
    ]

-- On a readable manifest, a call of `applyOperation` that returns found the status `snapshot_taken` and every
-- file at its recorded hash, left the files that the mutations leave, and stored the manifest that it returns,
-- as `applied`. A call that throws has changed nothing on the disk, with one exception: where storing the
-- manifest fails at the end, no file had drifted, the mutations stay, and the manifest is the one before.
pub apply_operation_atomic :
    (h : Host) (id : Text) (ops : List Mutation) (now : ℕ) (d : Disk) (m : Manifest)
    → read_manifest d id ≡ some m
    → Applied h id ops d m (apply_operation h id ops now d)
unfolding apply_operation
apply_operation_atomic h id ops now d m e = elim (Bool-cases (is_snapshot_taken m.status)) [
  | inl s ↦
      rw (e, apply_operation)
        (rw s (
          apply_checked-Applied h id ops now d m (first_drift h d.nodes m.files) e
            (is_snapshot_taken_sound m.status s) refl))
  | inr other ↦ rw (e, apply_operation) (rw other (inl refl))
]

-- A path that should be gone is gone, and one that should have a hash has it.
abbrev pub IsAt : Host → Nodes → Text → Option String → Type 0
IsAt h ns p none = exists h ns p ≡ false
IsAt h ns p (some sha) = hash_file h ns p ≡ some sha

-- The file of an entry is as the entry records it.
abbrev pub IsConfirmed : Host → Nodes → FileSnapshot → Type 0
IsConfirmed h ns e = IsAt h ns e.original_path e.sha_after

entry_matches-IsConfirmed :
    (h : Host) (ns : Nodes) (e : FileSnapshot)
    → entry_matches h ns e ≡ some true
    → IsConfirmed h ns e
unfolding entry_matches
entry_matches-IsConfirmed h ns e m = elim (Option-cases e.sha_after) [
  | inl gone ↦ rw gone (ground arith)
  | inr (sha, recorded) ↦ elim (Option-cases (hash_file h ns e.original_path)) [
    | inl lost ↦ absurd (ground arith)
    | inr (actual, found) ↦ rw recorded (found ∙ ap some ((eq_iff actual sha).0 (ground arith)))
  ]
]

entry_matches_of_IsConfirmed :
    (h : Host) (ns : Nodes) (e : FileSnapshot)
    → IsConfirmed h ns e
    → entry_matches h ns e ≡ some true
unfolding entry_matches
entry_matches_of_IsConfirmed h ns e c = elim (Option-cases e.sha_after) [
  | inl gone ↦
      let absent : exists h ns e.original_path ≡ false = rw gone at c in
      rw (gone, entry_matches) (rw absent refl)
  | inr (sha, recorded) ↦
      let found : hash_file h ns e.original_path ≡ some sha = rw recorded at c in
      rw (recorded, entry_matches) (rw (found, entry_matches) (rw (eq_refl sha) refl))
]

verify_entries_all_match :
    (h : Host) (ns : Nodes) (es es' : List FileSnapshot)
    → verify_entries h ns es ≡ ok (es', true)
    → All (IsConfirmed h ns) es
unfolding verify_entries
verify_entries_all_match h ns [] es' e = tt
verify_entries_all_match h ns (f ∷ fs) es' e = elim (Option-cases (entry_matches h ns f)) [
  | inl lost ↦ absurd (ground arith)
  | inr (b, found) ↦ elim (Result-cases (verify_entries h ns fs)) [
    | inl ((gs, all_match), rest) ↦
        let both : (b ≡ true) × (all_match ≡ true) = ground arith in
        (
          entry_matches-IsConfirmed h ns f (found ∙ ap some both.0),
          verify_entries_all_match h ns fs gs (rest ∙ ap (λ (x : Bool). ok (gs, x)) both.1),
        )
    | inr (x, rest) ↦ absurd (ground arith)
  ]
]

pub verify_entries-eq_of_confirmed :
    (h : Host) (ns : Nodes) (es : List FileSnapshot)
    → All (IsConfirmed h ns) es
    → verify_entries h ns es ≡ ok (es, true)
unfolding verify_entries
verify_entries-eq_of_confirmed h ns [] c = refl
verify_entries-eq_of_confirmed h ns (f ∷ fs) (p, c) =
    rw (entry_matches_of_IsConfirmed h ns f p, verify_entries)
      (rw (verify_entries-eq_of_confirmed h ns fs c, verify_entries))

module _ (h : Host) (id : Text) (now : ℕ) (d : Disk) (m : Manifest) where
  verify-eq :
      read_manifest d id ≡ some m
      → m.status ≡ applied
      → verify h id now d ≡ verify_checked id now d m (verify_entries h d.nodes m.files)
  unfolding verify
  verify-eq e s = rw (e, verify) (rw s refl)

  verify_checked-status :
      (r : Result SnapshotError (List FileSnapshot × Bool)) (m' : Manifest)
      → m.status ≡ applied
      → (verify_checked id now d m r).0 ≡ ok m'
      → m'.status ≡ verified
      → (es : List FileSnapshot) × (r ≡ ok (es, true))
  unfolding verify_checked
  verify_checked-status (err x) m' s e v = absurd (ground arith)
  verify_checked-status (ok (es, true)) m' s e v = (es, refl)
  verify_checked-status (ok (es, false)) m' s e v = absurd (ground arith)

  -- `verify` on an applied manifest returns it as `verified` exactly when every file has its recorded
  -- hash, or is gone where the entry records a deletion.
  pub verify_iff :
      read_manifest d id ≡ some m
      → m.status ≡ applied
      → ((m' : Manifest) × ((verify h id now d).0 ≡ ok m') × (m'.status ≡ verified))
        ↔ All (IsConfirmed h d.nodes) m.files
  verify_iff e s = (
    (λ (m', r, v).
        let (es, all_match) =
          verify_checked-status (verify_entries h d.nodes m.files) m' s (rw (verify-eq e s) at r)
            v in
        verify_entries_all_match h d.nodes m.files es all_match),
    (λ c. (
      record m { status = verified; verified_at = some now },
      rw (verify-eq e s)
          (rw (verify_entries-eq_of_confirmed h d.nodes m.files c) (unfold verify_checked in refl)),
      refl,
    )),
  )
