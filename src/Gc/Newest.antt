-- ===== src/Gc/Newest.antt =====
-- The operations that `gcSnapshots` of scripts/lib/snapshot.mjs keeps, where it keeps ten.
use mathlib.Core.List.{Perm}
use mathlib.Core.List.Perm
use claude_housekeeper.Base.{
  [], ℕ, zero, suc, ◌-◌, ◌≤◌, ◌≡◌, refl, ◌⊎◌, ◌∙◌, inl, inr, true, false, none, List, ◌∷◌, ◌++◌,
  arith, length, take, drop, All, Bool-cases, leb, length-drop, take-append-drop,
}
use claude_housekeeper.Contracts.{Text}
use claude_housekeeper.Posix.{text_eq, text_eq_refl}
use claude_housekeeper.Disk.{Host, Disk}
use claude_housekeeper.Gc.{
  text_lt, insert_id, sort_ids, terminal_ids, non_terminal_ids, remove_operation, remove_operations,
  gc_snapshots,
}
use claude_housekeeper.Gc.Order.{IsUpTo, IsUpTo-of_text_lt, IsUpTo-of_lt, IsUpTo-trans}
use claude_housekeeper.Gc.Retention.{All-insert_id, remove_operation-ne, remove_operations-ne}

-- Every text is up to all that follow it.
abbrev IsSorted : List Text → Type 0
IsSorted [] = Unit
IsSorted (i ∷ is) = All (IsUpTo i) is × IsSorted is

All-trans : (i j : Text) (is : List Text) → IsUpTo i j → All (IsUpTo j) is → All (IsUpTo i) is
All-trans i j [] h a = tt
All-trans i j (k ∷ ks) h (p, a) = (IsUpTo-trans h p, All-trans i j ks h a)

insert_id-IsSorted : (i : Text) (is : List Text) → IsSorted is → IsSorted (insert_id i is)
unfolding insert_id
insert_id-IsSorted i [] h = (tt, tt)
insert_id-IsSorted i (j ∷ js) (a, h) = elim (Bool-cases (text_lt j i)) [
  | inl e ↦ rw e (All-insert_id (IsUpTo j) i js (IsUpTo-of_lt j i e) a, insert_id-IsSorted i js h)
  | inr e ↦ let first = IsUpTo-of_text_lt i j e in rw e ((first, All-trans i j js first a), (a, h))
]

sort_ids-IsSorted : (is : List Text) → IsSorted (sort_ids is)
unfolding sort_ids
sort_ids-IsSorted [] = tt
sort_ids-IsSorted (i ∷ is) = insert_id-IsSorted i (sort_ids is) (sort_ids-IsSorted is)

insert_id-perm : (i : Text) (is : List Text) → Perm (insert_id i is) (i ∷ is)
unfolding insert_id
insert_id-perm i [] = Perm.refl (i ∷ [])
insert_id-perm i (j ∷ js) = elim (Bool-cases (text_lt j i)) [
  | inl e ↦ rw e (Perm.trans (Perm.cons j (insert_id-perm i js)) (Perm.swap i j js))
  | inr e ↦ rw e (Perm.refl (i ∷ j ∷ js))
]

sort_ids-perm : (is : List Text) → Perm (sort_ids is) is
unfolding sort_ids
sort_ids-perm [] = Perm.refl []
sort_ids-perm (i ∷ is) =
    Perm.trans (insert_id-perm i (sort_ids is)) (Perm.cons i (sort_ids-perm is))

length-insert_id : (i : Text) (is : List Text) → length (insert_id i is) ≡ suc (length is)
unfolding insert_id
length-insert_id i [] = refl
length-insert_id i (j ∷ js) = ground (arith, length-insert_id i js)

length-sort_ids : (is : List Text) → length (sort_ids is) ≡ length is
unfolding sort_ids
length-sort_ids [] = refl
length-sort_ids (i ∷ is) = omega (arith, length-insert_id i (sort_ids is), length-sort_ids is)

All-drop : (P : Text → Type 0) (n : ℕ) (is : List Text) → All P is → All P (drop n is)
All-drop P zero is a = a
All-drop P (suc n) [] a = tt
All-drop P (suc n) (i ∷ is) (p, a) = All-drop P n is a

-- What is taken off a sorted list is up to all that is left.
take-IsUpTo-drop :
    (n : ℕ) (is : List Text) → IsSorted is → All (λ i. All (IsUpTo i) (drop n is)) (take n is)
take-IsUpTo-drop zero is h = tt
take-IsUpTo-drop (suc n) [] h = tt
take-IsUpTo-drop (suc n) (i ∷ is) (a, h) = (All-drop (IsUpTo i) n is a, take-IsUpTo-drop n is h)

module _ (host : Host) (claude : Text) where
  remove_operation-none :
      (i : Text) (d : Disk) (j : Text)
      → d.manifests j ≡ none
      → (remove_operation host claude i d).manifests j ≡ none
  unfolding remove_operation
  remove_operation-none i d j h = elim (Bool-cases (text_eq i j)) [
    | inl e ↦ elim (Bool-cases (host.manifest_stays i)) [
      | inl t ↦ elim (Bool-cases (host.dir_stays i)) [ inl s ↦ rw (t, s) h | inr s ↦ rw (t, s) h ]
      | inr t ↦ rw (t, e) refl
    ]
    | inr e ↦ remove_operation-ne host claude i d j e ∙ h
  ]

  remove_operations-none :
      (is : List Text) (d : Disk) (j : Text)
      → d.manifests j ≡ none
      → (remove_operations host claude is d).manifests j ≡ none
  unfolding remove_operations
  remove_operations-none [] d j h = h
  remove_operations-none (i ∷ is) d j h =
      remove_operations-none is (remove_operation host claude i d) j (remove_operation-none i d j h)

  remove_operation-gone :
      (i : Text) (d : Disk)
      → host.manifest_stays i ≡ false
      → (remove_operation host claude i d).manifests i ≡ none
  unfolding remove_operation
  remove_operation-gone i d t = rw (t, text_eq_refl i) refl

  remove_operations-gone :
      (is : List Text) (d : Disk)
      → All
          (λ i.
            (host.manifest_stays i ≡ true)
            ⊎ ((remove_operations host claude is d).manifests i ≡ none))
          is
  unfolding remove_operations
  remove_operations-gone [] d = tt
  remove_operations-gone (i ∷ is) d = (
    elim (Bool-cases (host.manifest_stays i)) [
      | inl t ↦ inl t
      | inr t ↦ inr (
          remove_operations-none is (remove_operation host claude i d) i
            (remove_operation-gone i d t))
    ],
    remove_operations-gone is (remove_operation host claude i d),
  )

-- From ten terminal operations on, `gcSnapshots` keeps ten of them and removes the others. Every id that is
-- removed is a beginning of every id that is kept, or has a smaller code where they first differ. A removed
-- id has no manifest any more, unless its file could not be removed, and the manifest of every other id is
-- as it was.
pub gc_snapshots_newest :
    (host : Host) (claude : Text) (ids : List Text) (d : Disk)
    → 10 ≤ length (terminal_ids d ids)
    → let (r, d') = gc_snapshots host claude ids d in
      (newest : List Text) × (length newest ≡ 10)
      × (r.kept ≡ non_terminal_ids d ids ++ newest)
      × Perm (r.removed ++ newest) (terminal_ids d ids)
      × All (λ i. All (IsUpTo i) newest) r.removed
      × All (λ i. (host.manifest_stays i ≡ true) ⊎ (d'.manifests i ≡ none)) r.removed
      × ((j : Text) → All (λ i. text_eq i j ≡ false) r.removed → d'.manifests j ≡ d.manifests j)
unfolding gc_snapshots
gc_snapshots_newest host claude ids d h =
    let all = terminal_ids d ids in
    let sorted = sort_ids all in
    let n = length sorted - 10 in
    let size = length-sort_ids all in
    let e : leb 10 (length sorted) ≡ true = ground (arith, size, h) in
    rw e (
      drop n sorted,
      omega (arith, size, h, length-drop n sorted),
      refl,
      rw (take-append-drop n sorted) (sort_ids-perm all),
      take-IsUpTo-drop n sorted (sort_ids-IsSorted all),
      remove_operations-gone host claude (take n sorted) d,
      λ j other. remove_operations-ne host claude (take n sorted) d j other,
    )
