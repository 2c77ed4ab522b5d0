-- ===== src/Observe/Bounds.antt =====
-- The budgets of the walk of scripts/lib/observe.mjs: it ends, its entries stay within the limit, and it
-- says that it was stopped.
use claude_housekeeper.Base.{
  ℕ, zero, suc, ◌+◌, ◌-◌, ◌≤◌, ◌<◌, ◌≡◌, refl, ap, Bool, true, false, ◌||◌, Option, none, some,
  List, [], ◌∷◌, ◌++◌, arith, inl, inr, leb, Bool-cases, Option-cases, List-cases, length,
  length-append, any,
}
use claude_housekeeper.Contracts.{Text}
use claude_housekeeper.Posix.{join}
use claude_housekeeper.Observe.{
  Kind, Stat, pushed, entry, Degraded, Reason, max_files, max_wall_ms, unreadable_directory, System,
  Walk, number_or, default_max_files, visit, visit_names, read_directory, rounds, stop, start,
  walk_bounded, safe_is_directory, default_max_wall_ms,
}

-- The directories that wait, and the entries that are left: every round uses one of them up.
abbrev potential : ℕ → Walk → ℕ
potential most w = length w.stack + (most - length w.entries)

abbrev is_budget : Degraded → Bool
is_budget d = elim d.reason [ unreadable_directory ↦ false | _ ↦ true ]

-- The entries are within the limit, and the walk is stopped exactly when it reports a budget.
pub record IsWithin (most : ℕ) (w : Walk) : Type 0 where
  pub bounded : length w.entries ≤ most
  pub reported : w.stopped ≡ any is_budget w.degraded

any-snoc {ℓ} :
    {A : Type ℓ} (p : A → Bool) (xs : List A) (x : A) → any p (xs ++ x ∷ []) ≡ (any p xs || p x)
any-snoc p [] x = ground arith
any-snoc p (y ∷ xs) x = ground (arith, any-snoc p xs x)

stop-IsWithin :
    (most : ℕ) (reason : Reason) (root : Text) (w : Walk)
    → is_budget (record { reason = reason; path = root }) ≡ true
    → length w.entries ≤ most
    → IsWithin most (stop reason root w)
stop-IsWithin most reason root w b h = record {
  bounded = h;
  reported =
      ground (arith, any-snoc is_budget w.degraded (record { reason = reason; path = root }));
}

length-pushed :
    (k : Kind) (full : Text) (stack : List Text) → length (pushed k full stack) ≤ suc (length stack)
length-pushed Kind.directory full stack = omega arith
length-pushed Kind.file full stack = omega arith
length-pushed Kind.symlink full stack = omega arith
length-pushed Kind.other full stack = omega arith

module _ (most : ℕ) where
  visit-IsWithin :
      (full : Text) (s : Option Stat) (w : Walk)
      → length w.entries < most
      → IsWithin most w
      → IsWithin most (visit full s w) × (potential most (visit full s w) ≤ potential most w)
  unfolding visit
  visit-IsWithin full none w b h = (h, omega arith)
  visit-IsWithin full (some s) w b h =
      let e = length-append w.entries (entry full s ∷ []) in
      let p = length-pushed s.kind full w.stack in
      (record { bounded = omega (arith, e); reported = h.reported }, omega (arith, e, p))

  visit_names-IsWithin :
      (sys : System) (root current : Text) (names : List Text) (w : Walk)
      → IsWithin most w
      → let v = visit_names sys most root current names w in
        IsWithin most v × (potential most v ≤ potential most w)
  unfolding visit_names
  visit_names-IsWithin sys root current [] w h = (h, omega arith)
  visit_names-IsWithin sys root current (name ∷ names) w h =
      elim (Bool-cases (leb most (length w.entries))) [
        | inl e ↦ rw e (stop-IsWithin most max_files root w refl h.bounded, omega arith)
        | inr e ↦
            let full = join current name in
            let (k, q) = visit-IsWithin full (sys.lstat full) w (ground arith) h in
            let (k', q') =
              visit_names-IsWithin sys root current names (visit full (sys.lstat full) w) k in
            rw e (k', omega (arith, q, q'))
      ]

  read_directory-IsWithin :
      (sys : System) (root current : Text) (w : Walk)
      → IsWithin most w
      → let v = read_directory sys most root current w in
        IsWithin most v × (potential most v ≤ potential most w)
  unfolding read_directory
  read_directory-IsWithin sys root current w h = elim (Option-cases (sys.readdir current)) [
    | inl e ↦
        rw (e, read_directory)
          (
            record {
              bounded = h.bounded;
              reported = ground (
                arith,
                h.reported,
                any-snoc is_budget w.degraded
                    (record { reason = unreadable_directory; path = current }),
              );
            },
            omega arith,
          )
    | inr (names, e) ↦ rw (e, read_directory) (visit_names-IsWithin sys root current names w h)
  ]

  -- Fuel above the potential of a walk is enough.
  rounds_total :
      (n : ℕ) (sys : System) (wall : ℕ) (root : Text) (w : Walk)
      → IsWithin most w
      → potential most w < n
      → (v : Walk) × (rounds n sys most wall root w ≡ some v) × IsWithin most v
  unfolding rounds
  rounds_total zero sys wall root w h p = ground arith
  rounds_total (suc n) sys wall root w h p = elim (List-cases w.stack) [
    | inl e ↦ (w, rw e refl, h)
    | inr (current, stack, e) ↦
        let popped = record w { stack = stack } in
        let (k, q) =
          read_directory-IsWithin sys root current popped
            (record { bounded = h.bounded; reported = h.reported }) in
        let next = read_directory sys most root current popped in
        let (v, found, r) =
          rounds_total n sys wall root next k (omega (arith, q, p, ap length e)) in
        elim (Bool-cases (leb most (length w.entries))) [
          | inl b ↦ (
            stop max_files root w,
            rw (e, b) refl,
            stop-IsWithin most max_files root w refl h.bounded,
          )
          | inr b ↦ elim (Bool-cases (leb wall (sys.elapsed n))) [
            | inl c ↦ (
              stop max_wall_ms root w,
              rw (e, b, c) refl,
              stop-IsWithin most max_wall_ms root w refl h.bounded,
            )
            | inr c ↦ elim (Bool-cases next.stopped) [
              | inl d ↦ (next, rw (e, b, c, d) refl, k)
              | inr d ↦ (v, rw (e, b, c, d) found, r)
            ]
          ]
        ]
  ]

-- The walk of a tree always ends, however the tree is linked: it returns at most as many entries as the
-- limit (5000 where the limit is no positive number), and it is marked as stopped exactly when it
-- reports a budget that was hit.
pub walk_bounded_total :
    (sys : System) (root : Text) (files_limit wall_limit : Option ℕ)
    → (w : Walk) × (walk_bounded sys root files_limit wall_limit ≡ some w)
      × IsWithin (number_or files_limit default_max_files) w
unfolding walk_bounded
walk_bounded_total sys root files_limit wall_limit =
    let most = number_or files_limit default_max_files in
    let wall = number_or wall_limit default_max_wall_ms in
    elim (Bool-cases (safe_is_directory sys root)) [
      | inl e ↦
          let (w, found, r) =
            rounds_total most (suc (suc most)) sys wall root (start (root ∷ []))
              (record { bounded = omega arith; reported = refl }) (omega arith) in
          (w, rw e found, r)
      | inr e ↦ (start [], rw e refl, record { bounded = omega arith; reported = refl })
    ]
