-- ===== src/Assembly/Summary.antt =====
-- What the head of a report of scripts/lib/audit.mjs says of its findings: the stance counts, the primary
-- finding and the boundaries.
use claude_housekeeper.Base.{
  ℕ, zero, suc, ap, ◌+◌, ◌≤◌, ◌<◌, ◌≡◌, refl, ◌⊎◌, inl, inr, Bool, true, false, none, some, List,
  [], ◌∷◌, ◌++◌, arith, ◌==◌, Bool-cases, length, find, filter, All, All-map,
}
use claude_housekeeper.Contracts.{StanceName}
use claude_housekeeper.Audit.{Finding}
use claude_housekeeper.Assembly.{
  StanceSummary, no_stances, add_stance, count_from, count_stances, priority, first_by_priority,
  pick_primary,
}

-- The count of one stance.
abbrev pub count_of : StanceName → StanceSummary → ℕ
count_of StanceName.inform c = c.inform
count_of StanceName.watch c = c.watch
count_of StanceName.review c = c.review
count_of StanceName.probe c = c.probe
count_of StanceName.protect c = c.protect
count_of StanceName.prepare c = c.prepare
count_of StanceName.repair c = c.repair
count_of StanceName.block c = c.block

abbrev pub has_stance : StanceName → Finding → Bool
has_stance s f = priority f.stance == priority s

count_of-add_stance :
    (s t : StanceName) (c : StanceSummary)
    → count_of s (add_stance t c)
      ≡ (elim (priority t == priority s) [ true ↦ 1 | false ↦ 0 ]) + count_of s c
count_of-add_stance s t c = ground arith

count_of-count_from :
    (s : StanceName) (fs : List Finding) (c : StanceSummary)
    → count_of s (count_from c fs) ≡ length (filter (has_stance s) fs) + count_of s c
unfolding count_from
count_of-count_from s [] c = omega arith
count_of-count_from s (f ∷ fs) c =
    ground
      (arith, count_of-count_from s fs (add_stance f.stance c), count_of-add_stance s f.stance c)

-- Each count is the number of findings with that stance.
count_of-count_stances :
    (s : StanceName) (fs : List Finding)
    → count_of s (count_stances fs) ≡ length (filter (has_stance s) fs)
unfolding count_stances
count_of-count_stances s fs = ground (arith, count_of-count_from s fs no_stances)

-- The finding comes before every other one of the least priority.
record IsPrimary (g : Finding) (fs : List Finding) : Type 0 where
  before : List Finding
  after : List Finding
  place : fs ≡ before ++ g ∷ after
  strict : All (λ f. priority g.stance < priority f.stance) before
  least : All (λ f. priority g.stance ≤ priority f.stance) after

-- No finding is before the priority `k`.
abbrev From : ℕ → List Finding → Type 0
From k fs = All (λ f. k ≤ priority f.stance) fs

find-holds {ℓ} : {A : Type ℓ} (p : A → Bool) (x : A) (xs : List A) → find p xs ≡ some x → p x ≡ true
find-holds p x [] e = ground arith
find-holds p x (y ∷ ys) e = ground (arith, find-holds p x ys)

find_stance :
    (k : ℕ) (fs : List Finding)
    → From k fs
    → ((g : Finding) × (find (λ f. priority f.stance == k) fs ≡ some g) × IsPrimary g fs)
      ⊎ ((find (λ f. priority f.stance == k) fs ≡ none) × From (k + 1) fs)
find_stance k [] h = inr (refl, tt)
find_stance k (f ∷ fs) (p, h) = elim (Bool-cases (priority f.stance == k)) [
  | inl e ↦
      let q : priority f.stance ≡ k = ground arith in
      inl (
        f,
        rw e refl,
        record {
          before = [];
          after = fs;
          place = refl;
          strict = tt;
          least =
              All-map (λ x. k ≤ priority x.stance) (λ x. priority f.stance ≤ priority x.stance)
                (λ x r. omega arith) fs h;
        },
      )
  | inr e ↦ elim (find_stance k fs h) [
    | inl (g, found, r) ↦ inl (
      g,
      rw (e, found) refl,
      record {
        before = f ∷ r.before;
        after = r.after;
        place = ap (λ xs. f ∷ xs) r.place;
        strict = (ground (arith, find-holds (λ x. priority x.stance == k) g fs found), r.strict);
        least = r.least;
      },
    )
    | inr (missing, r) ↦ inr (rw (e, missing) refl, (ground arith, r))
  ]
]

-- `n` priorities from `k` on.
abbrev range : ℕ → ℕ → List ℕ
range k zero = []
range k (suc n) = k ∷ range (k + 1) n

first_by_priority_lem :
    (n k : ℕ) (fs : List Finding)
    → From k fs
    → ((g : Finding) × (first_by_priority (range k n) fs ≡ some g) × IsPrimary g fs)
      ⊎ ((first_by_priority (range k n) fs ≡ none) × From (k + n) fs)
unfolding first_by_priority
first_by_priority_lem zero k fs h = inr (refl, let e : k + 0 ≡ k = omega arith in rw e h)
first_by_priority_lem (suc n) k fs h = elim (find_stance k fs h) [
  | inl (g, found, r) ↦ inl (g, ground arith, r)
  | inr (missing, r) ↦ elim (first_by_priority_lem n (k + 1) fs r) [
    | inl (g, found, q) ↦ inl (g, ground arith, q)
    | inr (m, q) ↦ inr (ground arith, let e : k + suc n ≡ k + 1 + n = omega arith in rw e q)
  ]
]

From-zero : (fs : List Finding) → From 0 fs
From-zero [] = tt
From-zero (f ∷ fs) = (omega arith, From-zero fs)

From-tail : (k : ℕ) (f : Finding) (fs : List Finding) → From k (f ∷ fs) → From k fs
From-tail k f fs (p, h) = h

-- The primary finding of a report with findings is the first of those of the least priority.
pick_primary-IsPrimary :
    (f : Finding) (fs : List Finding)
    → (g : Finding) × (pick_primary (f ∷ fs) ≡ some g) × IsPrimary g (f ∷ fs)
unfolding pick_primary
pick_primary-IsPrimary f fs = elim (first_by_priority_lem 7 0 (f ∷ fs) (From-zero (f ∷ fs))) [
  | inl (g, found, r) ↦ (g, rw found refl, r)
  | inr (missing, r) ↦ (
    f,
    rw missing refl,
    record {
      before = [];
      after = fs;
      place = refl;
      strict = tt;
      least =
          All-map (λ x. 7 ≤ priority x.stance) (λ x. priority f.stance ≤ priority x.stance)
            (λ x q. ground arith) fs (From-tail 7 f fs r);
    },
  )
]
