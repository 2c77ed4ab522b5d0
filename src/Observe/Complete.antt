-- ===== src/Observe/Complete.antt =====
-- A walk of scripts/lib/observe.mjs that no budget stopped has seen everything.
use claude_housekeeper.Base.{
  In, In-append_left, In-append_last, In-snoc, ℕ, zero, suc, ◌≡◌, ◌↔◌, ◌⊎◌, refl, sym, ap, ◌∙◌,
  true, false, Option, none, some, List, [], ◌∷◌, ◌++◌, arith, inl, inr, leb, Bool-cases,
  Option-cases, List-cases, length,
}
use mathlib.Core.Path.{subst}
use claude_housekeeper.Contracts.{Text}
use claude_housekeeper.Posix.{join}
use claude_housekeeper.Observe.{
  Kind, Stat, Entry, entry, pushed, System, Walk, visit, visit_names, read_directory, rounds, start,
  safe_is_directory, number_or, default_max_files, default_max_wall_ms, walk_bounded,
}
use claude_housekeeper.Observe.Links.{IsChild, IsBelow, IsFound, walk_bounded-IsSound}

module _ (sys : System) (root : Text) where
  -- Every child of the directory has its entry.
  abbrev Done : Walk → Text → Type 0
  Done w p = (n : Text) (s : Stat) → IsChild sys root p n s → In (entry (join p n) s) w.entries

  -- The directories that the walk knows.
  abbrev Known : Walk → Text → Type 0
  Known w p = (p ≡ root) ⊎ ((s : Stat) × (s.kind ≡ Kind.directory) × In (entry p s) w.entries)

  -- The directory waits, is done, or is the one that is being read.
  abbrev Settled : Text → Walk → Text → Type 0
  Settled current w p = In p w.stack ⊎ Done w p ⊎ (p ≡ current)

  -- Every known directory waits, is done, or is the one that is being read.
  abbrev IsPending : Text → Walk → Type 0
  IsPending current w = (p : Text) → Known w p → Settled current w p

  In-pushed :
      (k : Kind) (full p : Text) (stack : List Text) → In p stack → In p (pushed k full stack)
  In-pushed Kind.directory full p stack h = inr h
  In-pushed Kind.file full p stack h = h
  In-pushed Kind.symlink full p stack h = h
  In-pushed Kind.other full p stack h = h

  In-pushed_self :
      (k : Kind) (full p : Text) (stack : List Text)
      → k ≡ Kind.directory
      → p ≡ full
      → In p (pushed k full stack)
  In-pushed_self k full p stack e q = rw e (inl q)

  visit-grows :
      (full : Text) (o : Option Stat) (w : Walk) (e : Entry)
      → In e w.entries
      → In e (visit full o w).entries
  unfolding visit
  visit-grows full none w e h = h
  visit-grows full (some s) w e h = In-append_left e w.entries (entry full s ∷ []) h

  visit_last :
      (full : Text) (s : Stat) (w : Walk) → In (entry full s) (visit full (some s) w).entries
  unfolding visit
  visit_last full s w = In-append_last (entry full s) w.entries

  visit_found :
      (full : Text) (s : Stat) (w : Walk)
      → sys.lstat full ≡ some s
      → In (entry full s) (visit full (sys.lstat full) w).entries
  visit_found full s w e = rw e (visit_last full s w)

  visit-IsPending :
      (current full : Text) (o : Option Stat) (w : Walk)
      → IsPending current w
      → IsPending current (visit full o w)
  unfolding visit
  visit-IsPending current full none w h = h
  visit-IsPending current full (some s) w h = λ p k.
      let grow : (e : Entry) → In e w.entries → In e (w.entries ++ entry full s ∷ []) =
        λ e i. In-append_left e w.entries (entry full s ∷ []) i in
      let old : Known w p → Settled current (visit full (some s) w) p = λ j. elim (h p j) [
        | inl i ↦ inl (In-pushed s.kind full p w.stack i)
        | inr (inl d) ↦ inr (inl (λ n t c. grow (entry (join p n) t) (d n t c)))
        | inr (inr e) ↦ inr (inr e)
      ] in
      elim k [
        | inl e ↦ old (inl e)
        | inr (t, dir, i) ↦ elim (In-snoc (entry p t) (entry full s) w.entries i) [
          | inl j ↦ old (inr (t, dir, j))
          | inr e ↦ inl (
              In-pushed_self s.kind full p w.stack (sym (ap (λ x. x.kind) e) ∙ dir)
                (ap (λ x. x.path) e))
        ]
      ]

  -- The names that are left are read: what was known stays pending, and they all get their entries.
  visit_names-IsPending :
      (most : ℕ) (current : Text) (names : List Text) (w : Walk)
      → (visit_names sys most root current names w).stopped ≡ false
      → IsPending current w
      → let v = visit_names sys most root current names w in
        IsPending current v
        × ((e : Entry) → In e w.entries → In e v.entries)
        × ((n : Text) (s : Stat)
            → In n names
            → sys.lstat (join current n) ≡ some s
            → In (entry (join current n) s) v.entries)
  unfolding visit_names
  visit_names-IsPending most current [] w f h = (h, λ e i. i, λ n s i. elim i [ ])
  visit_names-IsPending most current (m ∷ names) w f h =
      let full = join current m in
      elim (Bool-cases (leb most (length w.entries))) [
        | inl e ↦ ground arith
        | inr e ↦
            let next = visit full (sys.lstat full) w in
            let (k, grow, all) =
              visit_names-IsPending most current names next (ground arith)
                (visit-IsPending current full (sys.lstat full) w h) in
            rw e (
              k,
              λ x i. grow x (visit-grows full (sys.lstat full) w x i),
              λ n s i l. elim i [
                | inl q ↦ grow (entry (join current n) s) (rw q (visit_found full s w (rw (← q) l)))
                | inr j ↦ all n s j l
              ],
            )
      ]

  -- Every known directory waits or is done.
  abbrev IsRest : Walk → Type 0
  IsRest w = (p : Text) → Known w p → In p w.stack ⊎ Done w p

  popped-IsPending :
      (current : Text) (stack : List Text) (w : Walk)
      → w.stack ≡ current ∷ stack
      → IsRest w
      → IsPending current (record w { stack = stack })
  popped-IsPending current stack w e h p k = elim (h p k) [
    | inl i ↦
        let j : In p (current ∷ stack) = subst (λ t. In p t) e i in
        elim j [ inl q ↦ inr (inr q) | inr r ↦ inl r ]
    | inr d ↦ inr (inl d)
  ]

  -- A directory that was read to its end is done.
  read_directory-IsRest :
      (most : ℕ) (current : Text) (w : Walk)
      → (read_directory sys most root current w).stopped ≡ false
      → IsPending current w
      → IsRest (read_directory sys most root current w)
  unfolding read_directory
  read_directory-IsRest most current w f h = elim (Option-cases (sys.readdir current)) [
    | inl e ↦
        rw (e, read_directory)
          (λ p k. elim (h p k) [
            | inl i ↦ inl i
            | inr (inl d) ↦ inr d
            | inr (inr q) ↦ inr (λ n s c. ground (arith, c.listed))
          ])
    | inr (names, e) ↦
        let (k, grow, all) = visit_names-IsPending most current names w (ground arith) h in
        rw (e, read_directory)
          (λ p j. elim (k p j) [
            | inl i ↦ inl i
            | inr (inl d) ↦ inr d
            | inr (inr q) ↦ inr (λ n s c.
                let c' = subst (λ x. IsChild sys root x n s) q c in
                let same : c'.names ≡ names = cc (c'.listed, e) in
                rw q (all n s (subst (λ l. In n l) same c'.member) c'.there))
          ])
  ]

  -- A walk that ends unstopped has settled everything that it knows.
  rounds-IsRest :
      (n most wall : ℕ) (w v : Walk)
      → w.stopped ≡ false
      → IsRest w
      → rounds n sys most wall root w ≡ some v
      → v.stopped ≡ false
      → IsRest v × (v.stack ≡ [])
  unfolding rounds
  rounds-IsRest zero most wall w v s h e f = ground arith
  rounds-IsRest (suc n) most wall w v s h e f = elim (List-cases w.stack) [
    | inl q ↦ let same : v ≡ w = ground arith in rw same (h, q)
    | inr (p, stack, q) ↦
        let popped = record w { stack = stack } in
        let next = read_directory sys most root p popped in
        elim (Bool-cases (leb most (length w.entries))) [
          | inl b ↦ ground arith
          | inr b ↦ elim (Bool-cases (leb wall (sys.elapsed n))) [
            | inl c ↦ ground arith
            | inr c ↦ elim (Bool-cases next.stopped) [
              | inl d ↦ ground arith
              | inr d ↦
                  rounds-IsRest n most wall next v d
                    (read_directory-IsRest most p popped d (popped-IsPending p stack w q h))
                    (ground arith) f
            ]
          ]
        ]
  ]

  rest-Done : (v : Walk) → IsRest v → v.stack ≡ [] → (p : Text) → Known v p → Done v p
  rest-Done v h q p k = elim (h p k) [
    | inl i ↦ let j : In p [] = subst (λ t. In p t) q i in elim j [ ]
    | inr d ↦ d
  ]

  -- What a walk with no rest has recorded: every directory below the root.
  below-Known :
      (v : Walk) → IsRest v → v.stack ≡ [] → (p : Text) → IsBelow sys root p → Known v p × Done v p
  below-Known v h q p IsBelow.top = (inl refl, rest-Done v h q root (inl refl))
  below-Known v h q _ (IsBelow.down p n s b c k) =
      let (known, done) = below-Known v h q p b in
      let known' : Known v (join p n) = inr (s, k, done n s c) in
      (known', rest-Done v h q (join p n) known')

-- A walk that no budget stopped has an entry for exactly the files, links and directories of the
-- directories that real directories lead to from the root: none is missed and none is behind a link.
pub walk_bounded_complete :
    (sys : System) (root : Text) (files_limit wall_limit : Option ℕ) (w : Walk)
    → safe_is_directory sys root ≡ true
    → walk_bounded sys root files_limit wall_limit ≡ some w
    → w.stopped ≡ false
    → (e : Entry) → IsFound sys root e ↔ In e w.entries
unfolding walk_bounded
walk_bounded_complete sys root files_limit wall_limit w d found f e =
    let most = number_or files_limit default_max_files in
    let wall = number_or wall_limit default_max_wall_ms in
    let run : rounds (suc (suc most)) sys most wall root (start (root ∷ [])) ≡ some w =
      ground arith in
    let (rest, empty) =
      rounds-IsRest sys root (suc (suc most)) most wall (start (root ∷ [])) w refl
        (λ p k. elim k [ inl q ↦ inl (inl q) | inr (s, dir, i) ↦ elim i [ ] ]) run f in
    (
      λ g.
          let (_, done) = below-Known sys root w rest empty g.parent g.below in
          rw (g.same) (done g.name g.stat g.child),
      (walk_bounded-IsSound sys root files_limit wall_limit w found).entries e,
    )
