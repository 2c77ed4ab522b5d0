-- ===== src/Clean/Selection.antt =====
-- What `composeCleanPlan` of scripts/lib/clean-plan.mjs puts into a plan: the candidate that it selects, and
-- the end of its walks.
use claude_housekeeper.Base.{
  suc, ◌+◌, ◌≤◌, ◌<◌, ltb, ◌≡◌, ◌∙◌, refl, ap, true, false, some, List, [], ◌∷◌, map, arith, inl,
  inr, ◌⊎◌, Bool-cases, Option-cases, length, length-append, length-map, In, String,
}
use claude_housekeeper.Contracts.{Text}
use claude_housekeeper.Gc.{text_lt}
use claude_housekeeper.Gc.Order.{IsUpTo, IsUpTo-of_text_lt}
use claude_housekeeper.Audit.{Finding}
use claude_housekeeper.Clean.{CleanReason, Verdict, accepted, refused, Context, classify_finding}
use claude_housekeeper.Clean.View.{View}
use claude_housekeeper.Clean.Compose.{
  CleanOperation, Refusal, CleanPlan, for_rules, build_operation, sort_candidates, comes_first,
  insert_operation, sort_operations, keep_one, left_over,
}

text_lt_irrefl : (s : Text) → text_lt s s ≡ false
text_lt_irrefl [] = refl
text_lt_irrefl (a ∷ s) = ground (arith, text_lt_irrefl s)

text_lt_asym : (s t : Text) → text_lt s t ≡ true → text_lt t s ≡ false
text_lt_asym [] [] h = refl
text_lt_asym [] (b ∷ t) h = refl
text_lt_asym (a ∷ s) [] h = ground arith
text_lt_asym (a ∷ s) (b ∷ t) h = ground (arith, text_lt_asym s t)

-- What is between two texts is after the first or before the second.
text_lt_between : (s t u : Text) → text_lt s t ≡ false → text_lt t u ≡ false → text_lt s u ≡ false
text_lt_between [] [] u h k = k
text_lt_between [] (b ∷ t) u h k = ground arith
text_lt_between (a ∷ s) t [] h k = refl
text_lt_between (a ∷ s) [] (c ∷ u) h k = ground arith
text_lt_between (a ∷ s) (b ∷ t) (c ∷ u) h k = ground (arith, text_lt_between s t u)

comes_first_irrefl : (a : CleanOperation) → comes_first a a ≡ false
comes_first_irrefl a = ground (arith, text_lt_irrefl a.target_path)

comes_first_asym : (a b : CleanOperation) → comes_first a b ≡ true → comes_first b a ≡ false
comes_first_asym a b h = ground (arith, text_lt_asym a.target_path b.target_path)

comes_first_between :
    (a b c : CleanOperation)
    → comes_first a b ≡ false
    → comes_first b c ≡ false
    → comes_first a c ≡ false
comes_first_between a b c h k =
    ground (arith, text_lt_between a.target_path b.target_path c.target_path)

-- An operation may be selected before another: it removes fewer bytes, or as many and its path is not after
-- the other's.
abbrev pub IsFirst : CleanOperation → CleanOperation → Type 0
IsFirst o x =
    (o.estimated_bytes < x.estimated_bytes)
    ⊎ ((o.estimated_bytes ≡ x.estimated_bytes) × IsUpTo o.target_path x.target_path)

IsFirst-of_comes_first : (x o : CleanOperation) → comes_first x o ≡ false → IsFirst o x
IsFirst-of_comes_first x o h = elim (Bool-cases (ltb o.estimated_bytes x.estimated_bytes)) [
  | inl l ↦ inl (ground (arith, l))
  | inr l ↦
      let e : o.estimated_bytes ≡ x.estimated_bytes = ground (arith, h, l) in
      let k : text_lt x.target_path o.target_path ≡ false = ground (arith, h, l) in
      inr (e, IsUpTo-of_text_lt o.target_path x.target_path k)
]

length-insert_operation :
    (o : CleanOperation) (ps : List CleanOperation)
    → length (insert_operation o ps) ≡ suc (length ps)
unfolding insert_operation
length-insert_operation o [] = refl
length-insert_operation o (p ∷ ps) = ground (arith, length-insert_operation o ps)

-- The first operation of a sorted list.
record IsHead (ops : List CleanOperation) : Type 0 where
  head : CleanOperation
  rest : List CleanOperation
  sorted : sort_operations ops ≡ head ∷ rest
  member : In head ops
  least : (x : CleanOperation) → In x ops → comes_first x head ≡ false
  counted : suc (length rest) ≡ length ops

sort_operations-IsHead : (o : CleanOperation) (os : List CleanOperation) → IsHead (o ∷ os)
unfolding sort_operations insert_operation
sort_operations-IsHead o [] = record {
  head = o;
  rest = [];
  sorted = refl;
  member = inl refl;
  least = λ x i. elim i [ inl e ↦ rw e (comes_first_irrefl o) | inr j ↦ elim j [ ] ];
  counted = refl;
}
sort_operations-IsHead o (p ∷ ps) =
    let h = sort_operations-IsHead p ps in
    elim (Bool-cases (comes_first h.head o)) [
      | inl b ↦ record {
        head = h.head;
        rest = insert_operation o h.rest;
        sorted = rw (h.sorted, b) refl;
        member = inr h.member;
        least = λ x i. elim i [ inl e ↦ rw e (comes_first_asym h.head o b) | inr j ↦ h.least x j ];
        counted = omega (arith, length-insert_operation o h.rest, h.counted);
      }
      | inr b ↦ record {
        head = o;
        rest = h.head ∷ h.rest;
        sorted = rw (h.sorted, b) refl;
        member = inl refl;
        least = λ x i. elim i [
          | inl e ↦ rw e (comes_first_irrefl o)
          | inr j ↦ comes_first_between x h.head o (h.least x j) b
        ];
        counted = omega (arith, h.counted);
      }
    ]

pub Verdict-cases : (x : Verdict) → (x ≡ accepted) ⊎ ((r : CleanReason) × (x ≡ refused r))
Verdict-cases accepted = inl refl
Verdict-cases (refused r) = inr (r, refl)

module _ (v : View) (c : Context) where
  -- The operation of a finding that the classifier accepts.
  pub record IsFromAccepted (fs : List Finding) (op : CleanOperation) : Type 0 where
    pub finding : Finding
    pub member : In finding fs
    pub verdict : classify_finding (for_rules finding) c ≡ accepted
    pub built : build_operation v finding ≡ some op

  -- Every finding has its operation or its refusal.
  pub record IsSorting (fs : List Finding) (ops : List CleanOperation) (rs : List Refusal)
      : Type 0 where
    counted : length ops + length rs ≡ length fs
    chosen : (op : CleanOperation) → In op ops → IsFromAccepted fs op
    complete :
        (f : Finding)
        → In f fs
        → classify_finding (for_rules f) c ≡ accepted
        → (op : CleanOperation) × (build_operation v f ≡ some op) × In op ops

  weaken :
      (f : Finding) (fs : List Finding) (op : CleanOperation)
      → IsFromAccepted fs op
      → IsFromAccepted (f ∷ fs) op
  weaken f fs op h = record {
    finding = h.finding;
    member = inr h.member;
    verdict = h.verdict;
    built = h.built;
  }

  pub sort_candidates-IsSorting :
      (fs : List Finding) (ops : List CleanOperation) (rs : List Refusal)
      → sort_candidates v c fs ≡ some (ops, rs)
      → IsSorting fs ops rs
  unfolding sort_candidates
  sort_candidates-IsSorting [] ops rs e =
      let p : ops ≡ [] = ground arith in
      let q : rs ≡ [] = ground arith in
      rw (p, q)
        (record { counted = refl; chosen = λ op i. elim i [ ]; complete = λ f i a. elim i [ ] })
  sort_candidates-IsSorting (f ∷ fs) ops rs e = elim (Option-cases (sort_candidates v c fs)) [
    | inl q ↦ elim (Verdict-cases (classify_finding (for_rules f) c)) [
      | inl a ↦ elim (Option-cases (build_operation v f)) [
        | inl b ↦ absurd (ground arith)
        | inr (op, b) ↦ absurd (ground arith)
      ]
      | inr (r, a) ↦ absurd (ground arith)
    ]
    | inr ((os, ss), q) ↦
        let h = sort_candidates-IsSorting fs os ss q in
        elim (Verdict-cases (classify_finding (for_rules f) c)) [
          | inl a ↦ elim (Option-cases (build_operation v f)) [
            | inl b ↦ absurd (ground arith)
            | inr (op, b) ↦
                let p : ops ≡ op ∷ os = ground arith in
                let t : rs ≡ ss = ground arith in
                rw (p, t)
                  (record {
                    counted = omega (arith, h.counted);
                    chosen = λ x i. elim i [
                      | inl m ↦
                          rw m (record { finding = f; member = inl refl; verdict = a; built = b })
                      | inr m ↦ weaken f fs x (h.chosen x m)
                    ];
                    complete = λ g i k. elim i [
                      | inl m ↦ (op, ap (build_operation v) m ∙ b, inl refl)
                      | inr m ↦ let (x, y, z) = h.complete g m k in (x, y, inr z)
                    ];
                  })
          ]
          | inr (r, a) ↦
              let p : ops ≡ os = ground arith in
              let t : length rs ≡ suc (length ss) = ground arith in
              rw p (record {
                counted = omega (arith, h.counted, t);
                chosen = λ x i. weaken f fs x (h.chosen x i);
                complete = λ g i k. elim i [
                  | inl m ↦ absurd (ground (arith, ap (λ y. classify_finding (for_rules y) c) m))
                  | inr m ↦ h.complete g m k
                ];
              })
        ]
  ]

  -- The plan accounts for every candidate and holds an operation exactly where one is accepted: a single
  -- one, of an accepted candidate, that no other accepted candidate's operation comes before.
  pub record IsSelection (fs : List Finding) (plan : CleanPlan) : Type 0 where
    pub counted : length plan.operations + length plan.refused ≡ length fs
    pub single : length plan.operations ≤ 1
    pub chosen : (o : CleanOperation) → In o plan.operations → IsFromAccepted fs o
    pub least :
        (f : Finding)
        → In f fs
        → classify_finding (for_rules f) c ≡ accepted
        → (x : CleanOperation) × (o : CleanOperation) × (build_operation v f ≡ some x)
          × (plan.operations ≡ o ∷ [])
          × IsFirst o x

  pub keep_one-IsSelection :
      (hash : String) (fs : List Finding) (ops : List CleanOperation) (rs : List Refusal)
      → IsSorting fs ops rs
      → IsSelection fs (keep_one hash (sort_operations ops) rs)
  unfolding keep_one
  keep_one-IsSelection hash fs [] rs h =
      unfold sort_operations in
      record {
        counted = h.counted;
        single = omega arith;
        chosen = λ o i. elim i [ ];
        least = λ f i a. let (op, b, m) = h.complete f i a in elim m [ ];
      }
  keep_one-IsSelection hash fs (o ∷ os) rs h =
      let k = sort_operations-IsHead o os in
      rw (k.sorted) (record {
        counted = omega (
          arith,
          h.counted,
          k.counted,
          length-append rs (map left_over k.rest),
          length-map k.rest left_over,
        );
        single = omega arith;
        chosen = λ x i. elim i [ inl e ↦ rw e (h.chosen k.head k.member) | inr j ↦ elim j [ ] ];
        least = λ f i a.
            let (op, b, m) = h.complete f i a in
            (op, k.head, b, refl, IsFirst-of_comes_first op k.head (k.least op m));
      })
