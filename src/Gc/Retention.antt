-- ===== src/Gc/Retention.antt =====
-- Which operations `gcSnapshots` of scripts/lib/snapshot.mjs removes.
use claude_housekeeper.Base.{
  [], ℕ, ◌+◌, ◌-◌, ◌*◌, ◌≤◌, ◌<◌, ◌≡◌, ◌∙◌, refl, sym, ap, zero, suc, inl, inr, true, false, List,
  ◌∷◌, ◌++◌, arith, length, take, All, Bool-cases, leb, length-take, take-append-drop,
}
use mathlib.Core.Bool.{false≢true}
use claude_housekeeper.Contracts.{Text}
use claude_housekeeper.Posix.{text_eq, text_eq_sound}
use claude_housekeeper.Disk.{Host, Disk, read_manifest}
use claude_housekeeper.Gc.{
  is_gc_terminal, text_lt, insert_id, sort_ids, slice_last, has_status, terminal_ids,
  non_terminal_ids, remove_operation, remove_operations, gc_snapshots,
}

-- The terminal operations that the directory lists, the oldest first.
abbrev pub terminals : List Text → Disk → List Text
terminals ids d = sort_ids (terminal_ids d ids)

-- From ten terminal operations on, the ids that are removed, then those of the terminal operations that
-- are kept, are the terminal ids in order, and exactly ten are kept.
gc_snapshots_partition :
    (host : Host) (claude : Text) (ids : List Text) (d : Disk)
    → 10 ≤ length (terminals ids d)
    → let r = (gc_snapshots host claude ids d).0 in
      (r.removed ++ slice_last 10 (terminals ids d) ≡ terminals ids d)
      × (r.kept ≡ non_terminal_ids d ids ++ slice_last 10 (terminals ids d))
      × (length r.removed + 10 ≡ length (terminals ids d))
unfolding gc_snapshots
gc_snapshots_partition host claude ids d h =
    let e : leb 10 (length (terminals ids d)) ≡ true = ground arith in
    rw e (
      take-append-drop (length (terminals ids d) - 10) (terminals ids d),
      refl,
      omega (arith, length-take (length (terminals ids d) - 10) (terminals ids d)),
    )

-- Up to five terminal operations nothing is removed.
gc_snapshots_few :
    (host : Host) (claude : Text) (ids : List Text) (d : Disk)
    → length (terminals ids d) ≤ 5
    → ((gc_snapshots host claude ids d).0.removed ≡ []) × ((gc_snapshots host claude ids d).1 ≡ d)
unfolding gc_snapshots remove_operations
gc_snapshots_few host claude ids d h =
    let e : leb 10 (length (terminals ids d)) ≡ false = ground arith in
    let z : 2 * length (terminals ids d) - 10 ≡ 0 = omega arith in rw e (rw z (refl, refl))

-- With six to nine terminal operations all of them are reported as kept, and the oldest `2 * n - 10`
-- of them, at least two, are reported as removed, and the call removes them from the disk, too, as far as
-- it can.
pub gc_snapshots_removes_kept :
    (host : Host) (claude : Text) (ids : List Text) (d : Disk)
    → 5 < length (terminals ids d)
    → length (terminals ids d) < 10
    → let (r, d') = gc_snapshots host claude ids d in
      (r.kept ≡ non_terminal_ids d ids ++ terminals ids d)
      × (r.removed ≡ take (2 * length (terminals ids d) - 10) (terminals ids d))
      × (d' ≡ remove_operations host claude r.removed d)
      × (length r.removed ≡ 2 * length (terminals ids d) - 10)
      × (2 ≤ length r.removed)
unfolding gc_snapshots
gc_snapshots_removes_kept host claude ids d h k =
    let e : leb 10 (length (terminals ids d)) ≡ false = ground arith in
    let z : length (terminals ids d) - 10 ≡ 0 = omega arith in
    rw (e, z)
      (
        refl,
        refl,
        refl,
        omega (arith, length-take (2 * length (terminals ids d) - 10) (terminals ids d)),
        omega (arith, length-take (2 * length (terminals ids d) - 10) (terminals ids d)),
      )

-- The manifest of an id on this disk is terminal.
abbrev pub IsTerminal : Disk → Text → Type 0
IsTerminal d i = has_status is_gc_terminal (read_manifest d i) ≡ true

terminal_ids-IsTerminal : (d : Disk) (ids : List Text) → All (IsTerminal d) (terminal_ids d ids)
unfolding terminal_ids
terminal_ids-IsTerminal d [] = tt
terminal_ids-IsTerminal d (i ∷ is) =
    elim (Bool-cases (has_status is_gc_terminal (read_manifest d i))) [
      | inl e ↦ rw e (e, terminal_ids-IsTerminal d is)
      | inr e ↦ rw e (terminal_ids-IsTerminal d is)
    ]

module _ {ℓ} (P : Text → Type ℓ) where
  pub All-insert_id : (i : Text) (is : List Text) → P i → All P is → All P (insert_id i is)
  unfolding insert_id
  All-insert_id i [] p h = (p, tt)
  All-insert_id i (j ∷ js) p (q, h) = elim (Bool-cases (text_lt j i)) [
    | inl e ↦ rw e (q, All-insert_id i js p h)
    | inr e ↦ rw e (p, (q, h))
  ]

  All-sort_ids : (is : List Text) → All P is → All P (sort_ids is)
  unfolding sort_ids
  All-sort_ids [] h = tt
  All-sort_ids (i ∷ is) (p, h) = All-insert_id i (sort_ids is) p (All-sort_ids is h)

  All-take : (n : ℕ) (is : List Text) → All P is → All P (take n is)
  All-take zero is h = tt
  All-take (suc n) [] h = tt
  All-take (suc n) (i ∷ is) (p, h) = (p, All-take n is h)

removed-IsTerminal :
    (host : Host) (claude : Text) (ids : List Text) (d : Disk)
    → All (IsTerminal d) (gc_snapshots host claude ids d).0.removed
unfolding gc_snapshots
removed-IsTerminal host claude ids d =
    let all_terminal =
      All-sort_ids (IsTerminal d) (terminal_ids d ids) (terminal_ids-IsTerminal d ids) in
    elim (Bool-cases (leb 10 (length (terminals ids d)))) [
      | inl e ↦
          rw e
            (All-take (IsTerminal d) (length (terminals ids d) - 10) (terminals ids d) all_terminal)
      | inr e ↦ rw e (
          All-take (IsTerminal d) (2 * length (terminals ids d) - 10) (terminals ids d)
            all_terminal)
    ]

pub remove_operation-ne :
    (host : Host) (claude i : Text) (d : Disk) (j : Text)
    → text_eq i j ≡ false
    → (remove_operation host claude i d).manifests j ≡ d.manifests j
unfolding remove_operation
remove_operation-ne host claude i d j p = elim (Bool-cases (host.dir_stays i)) [
  | inl s ↦ elim (Bool-cases (host.manifest_stays i)) [
    | inl t ↦ rw (s, t) refl
    | inr t ↦ rw (s, t, p) refl
  ]
  | inr s ↦ elim (Bool-cases (host.manifest_stays i)) [
    | inl t ↦ rw (s, t) refl
    | inr t ↦ rw (s, t, p) refl
  ]
]

pub remove_operations-ne :
    (host : Host) (claude : Text) (is : List Text) (d : Disk) (j : Text)
    → All (λ i. text_eq i j ≡ false) is
    → (remove_operations host claude is d).manifests j ≡ d.manifests j
unfolding remove_operations
remove_operations-ne host claude [] d j h = refl
remove_operations-ne host claude (i ∷ is) d j (p, h) =
    remove_operations-ne host claude is (remove_operation host claude i d) j h
    ∙ remove_operation-ne host claude i d j p

ne_of_IsTerminal :
    (d : Disk) (j : Text) (is : List Text)
    → has_status is_gc_terminal (read_manifest d j) ≡ false
    → All (IsTerminal d) is
    → All (λ i. text_eq i j ≡ false) is
ne_of_IsTerminal d j [] n h = tt
ne_of_IsTerminal d j (i ∷ is) n (t, h) = elim (Bool-cases (text_eq i j)) [
  | inl e ↦
      let same = text_eq_sound i j e in
      absurd (
        false≢true
          (sym n ∙ ap (λ (x : Text). has_status is_gc_terminal (read_manifest d x)) (sym same) ∙ t))
  | inr e ↦ (e, ne_of_IsTerminal d j is n h)
]

-- A manifest that is not `verified` or `rolled_back`, and a file that is no readable manifest, is never
-- touched, whatever the directory lists.
pub gc_snapshots_spares :
    (host : Host) (claude : Text) (ids : List Text) (d : Disk) (j : Text)
    → has_status is_gc_terminal (read_manifest d j) ≡ false
    → (gc_snapshots host claude ids d).1.manifests j ≡ d.manifests j
unfolding gc_snapshots
gc_snapshots_spares host claude ids d j n =
    (remove_operations-ne host claude (gc_snapshots host claude ids d).0.removed d j (
      ne_of_IsTerminal d j (gc_snapshots host claude ids d).0.removed n
        (removed-IsTerminal host claude ids d)))
