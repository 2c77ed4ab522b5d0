-- ===== src/Observe/Links.antt =====
-- Which paths the walk of scripts/lib/observe.mjs reaches: those that real directories lead to, and no path
-- through a symbolic link.
use claude_housekeeper.Base.{
  In, In-snoc, ℕ, zero, suc, ◌≡◌, ◌⊎◌, refl, Option, some, List, [], ◌∷◌, arith, inl, inr, leb,
  Bool-cases, Option-cases, List-cases, length,
}
use claude_housekeeper.Contracts.{Text}
use claude_housekeeper.Posix.{join}
use claude_housekeeper.Observe.{
  Kind, Stat, Entry, entry, pushed, System, Walk, visit, visit_names, read_directory, rounds, stop,
  max_files, max_wall_ms, start, safe_is_directory, walk_bounded, number_or, default_max_files,
  default_max_wall_ms,
}

module _ (sys : System) (root : Text) where
  -- The name `n` of the directory `p` is there, with the state `s`.
  pub record IsChild (p n : Text) (s : Stat) : Type 0 where
    pub names : List Text
    pub listed : sys.readdir p ≡ some names
    pub member : In n names
    pub there : sys.lstat (join p n) ≡ some s

  -- The directories that real directories lead to from the root.
  pub data IsBelow : Text → Type 0 where
    top : IsBelow root
    down :
        (p n : Text) (s : Stat)
        → IsBelow p
        → IsChild p n s
        → s.kind ≡ Kind.directory
        → IsBelow (join p n)

  -- An entry of a directory that real directories lead to.
  pub record IsFound (e : Entry) : Type 0 where
    pub parent : Text
    pub name : Text
    pub stat : Stat
    pub below : IsBelow parent
    pub child : IsChild parent name stat
    pub same : e ≡ entry (join parent name) stat

  -- All that a walk has recorded or put on its stack is found.
  pub record IsSound (w : Walk) : Type 0 where
    pub entries : (e : Entry) → In e w.entries → IsFound e
    pub stack : (p : Text) → In p w.stack → IsBelow p

  pushed_cases :
      (k : Kind) (full p : Text) (stack : List Text)
      → In p (pushed k full stack)
      → ((k ≡ Kind.directory) × (p ≡ full)) ⊎ In p stack
  pushed_cases Kind.directory full p stack (inl e) = inl (refl, e)
  pushed_cases Kind.directory full p stack (inr h) = inr h
  pushed_cases Kind.file full p stack h = inr h
  pushed_cases Kind.symlink full p stack h = inr h
  pushed_cases Kind.other full p stack h = inr h

  visit-IsSound :
      (p n : Text) (names : List Text) (w : Walk)
      → IsBelow p
      → sys.readdir p ≡ some names
      → In n names
      → IsSound w
      → IsSound (visit (join p n) (sys.lstat (join p n)) w)
  unfolding visit
  visit-IsSound p n names w b l m h = elim (Option-cases (sys.lstat (join p n))) [
    | inl e ↦ rw (e, visit) h
    | inr (s, e) ↦
        let c : IsChild p n s = record { names = names; listed = l; member = m; there = e } in
        rw (e, visit)
          (record {
            entries = λ x i. elim (In-snoc x (entry (join p n) s) w.entries i) [
              | inl j ↦ h.entries x j
              | inr q ↦ record { parent = p; name = n; stat = s; below = b; child = c; same = q }
            ];
            stack = λ x i. elim (pushed_cases s.kind (join p n) x w.stack i) [
              | inl (k, q) ↦ rw q (IsBelow.down p n s b c k)
              | inr j ↦ h.stack x j
            ];
          })
  ]

  visit_names-IsSound :
      (most : ℕ) (p : Text) (names : List Text) (rest : List Text) (w : Walk)
      → IsBelow p
      → sys.readdir p ≡ some names
      → ((n : Text) → In n rest → In n names)
      → IsSound w
      → IsSound (visit_names sys most root p rest w)
  unfolding visit_names
  visit_names-IsSound most p names [] w b l m h = h
  visit_names-IsSound most p names (n ∷ rest) w b l m h =
      elim (Bool-cases (leb most (length w.entries))) [
        | inl e ↦ rw e (record { entries = h.entries; stack = h.stack })
        | inr e ↦ rw e (
            visit_names-IsSound most p names rest (visit (join p n) (sys.lstat (join p n)) w) b l
              (λ x i. m x (inr i)) (visit-IsSound p n names w b l (m n (inl refl)) h))
      ]

  read_directory-IsSound :
      (most : ℕ) (p : Text) (w : Walk)
      → IsBelow p
      → IsSound w
      → IsSound (read_directory sys most root p w)
  unfolding read_directory
  read_directory-IsSound most p w b h = elim (Option-cases (sys.readdir p)) [
    | inl e ↦ rw (e, read_directory) (record { entries = h.entries; stack = h.stack })
    | inr (names, e) ↦
        rw (e, read_directory) (visit_names-IsSound most p names names w b e (λ x i. i) h)
  ]

  pub rounds-IsSound :
      (n most wall : ℕ) (w v : Walk)
      → IsSound w
      → rounds n sys most wall root w ≡ some v
      → IsSound v
  unfolding rounds
  rounds-IsSound zero most wall w v h e = ground arith
  rounds-IsSound (suc n) most wall w v h e = elim (List-cases w.stack) [
    | inl q ↦ let same : v ≡ w = ground arith in rw same h
    | inr (p, stack, q) ↦
        let popped = record w { stack = stack } in
        let next = read_directory sys most root p popped in
        let k : IsSound next =
          read_directory-IsSound most p popped (h.stack p (rw q (inl refl)))
            (record { entries = h.entries; stack = λ x i. h.stack x (rw q (inr i)) }) in
        elim (Bool-cases (leb most (length w.entries))) [
          | inl b ↦
              let same : v ≡ stop max_files root w = ground arith in
              rw same (record { entries = h.entries; stack = h.stack })
          | inr b ↦ elim (Bool-cases (leb wall (sys.elapsed n))) [
            | inl c ↦
                let same : v ≡ stop max_wall_ms root w = ground arith in
                rw same (record { entries = h.entries; stack = h.stack })
            | inr c ↦ elim (Bool-cases next.stopped) [
              | inl d ↦ let same : v ≡ next = ground arith in rw same k
              | inr d ↦ rounds-IsSound n most wall next v k (ground arith)
            ]
          ]
        ]
  ]

-- Every entry of a walk, stopped or not, is the state of a name in a directory that real directories
-- lead to from the root, and only such directories are left on its stack: no link is followed.
pub walk_bounded-IsSound :
    (sys : System) (root : Text) (files_limit wall_limit : Option ℕ) (w : Walk)
    → walk_bounded sys root files_limit wall_limit ≡ some w
    → IsSound sys root w
unfolding walk_bounded
walk_bounded-IsSound sys root files_limit wall_limit w e =
    let most = number_or files_limit default_max_files in
    let wall = number_or wall_limit default_max_wall_ms in
    elim (Bool-cases (safe_is_directory sys root)) [
      | inl d ↦
          rounds-IsSound sys root (suc (suc most)) most wall (start (root ∷ [])) w
            (record {
              entries = λ x i. elim i [ ];
              stack = λ x i. elim i [ inl q ↦ rw q IsBelow.top | inr j ↦ elim j [ ] ];
            })
            (ground arith)
      | inr d ↦
          let same : w ≡ start [] = ground arith in
          rw same (record { entries = λ x i. elim i [ ]; stack = λ x i. elim i [ ] })
    ]
