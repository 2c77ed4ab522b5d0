-- ===== src/Policy/Matches.antt =====
-- The list that `matchPolicy` of scripts/lib/policy.mjs returns: its order, its entries, and what it
-- means for the stance engine.
use mathlib.Core.List.{Perm}
use mathlib.Core.List.Perm
use claude_housekeeper.Base.{
  [], ◌≡◌, ◌≢◌, ◌≤◌, ◌⊎◌, length, refl, Bool, true, false, ◌&&◌, ◌||◌, List, ◌∷◌, ◌++◌, arith, any,
  find, is_some, or_else,
}
use claude_housekeeper.Contracts.{
  Text, PolicyMatch, PolicyType, do_not_touch, allowance, standing_consent, StanceName,
}
use claude_housekeeper.Posix.{text_eq}
use claude_housekeeper.Policy.{
  PolicyRule, PolicySet, has_path, path_matches_protection, match_rule, match_rules, comes_before,
  insert_match, sort_matches, match_policy,
}
use claude_housekeeper.Stance.{do_not_touch_match, decide_stance}
use claude_housekeeper.Findings.{Args, is_do_not_touch}
use claude_housekeeper.Stance.Ladder.{decide_stance_core_cases}

-- No entry ranks strictly before the one in front of it.
abbrev IsOrdered : List PolicyMatch → Type 0
IsOrdered [] = Unit
IsOrdered (m ∷ []) = Unit
IsOrdered (m ∷ n ∷ ms) = (comes_before n m ≡ false) × IsOrdered (n ∷ ms)

-- A match may stand in front of another: a do-not-touch rule before the two other types, an allowance
-- before a standing consent, and within a type a pattern that is at least as long.
abbrev pub IsOver : PolicyMatch → PolicyMatch → Type 0
IsOver m n =
    ((m.type ≡ n.type) × (length n.pattern ≤ length m.pattern))
    ⊎ ((m.type ≡ do_not_touch) × (n.type ≢ do_not_touch))
    ⊎ ((m.type ≡ allowance) × (n.type ≡ standing_consent))

-- Every entry may stand in front of the next one.
abbrev pub IsRanked : List PolicyMatch → Type 0
IsRanked [] = Unit
IsRanked (m ∷ []) = Unit
IsRanked (m ∷ n ∷ ms) = IsOver m n × IsRanked (n ∷ ms)

-- The matches of the three loops, in the order in which they are collected.
abbrev pub collected : Text → PolicySet → List PolicyMatch
collected target policy =
    match_rules do_not_touch target policy.home policy.do_not_touch
    ++ match_rules allowance target policy.home policy.allowances
    ++ match_rules standing_consent target policy.home policy.standing_consent

find-eq-any {ℓ} : {A : Type ℓ} (p : A → Bool) (xs : List A) → is_some (find p xs) ≡ any p xs
find-eq-any p [] = refl
find-eq-any p (x ∷ xs) = ground (arith, find-eq-any p xs)

any-append {ℓ} :
    {A : Type ℓ} (p : A → Bool) (xs ys : List A) → any p (xs ++ ys) ≡ (any p xs || any p ys)
any-append p [] ys = refl
any-append p (x ∷ xs) ys = ground (arith, any-append p xs ys)

any-insert_match :
    (p : PolicyMatch → Bool) (m : PolicyMatch) (ms : List PolicyMatch)
    → any p (insert_match m ms) ≡ (p m || any p ms)
unfolding insert_match
any-insert_match p m [] = refl
any-insert_match p m (n ∷ ms) = ground (arith, any-insert_match p m ms)

any-sort_matches :
    (p : PolicyMatch → Bool) (ms : List PolicyMatch) → any p (sort_matches ms) ≡ any p ms
unfolding sort_matches
any-sort_matches p [] = refl
any-sort_matches p (m ∷ ms) =
    ground (arith, any-insert_match p m (sort_matches ms), any-sort_matches p ms)

-- Some rule of a list has a path that covers the target.
abbrev pub is_covered : Text → Text → List PolicyRule → Bool
is_covered target home rules =
    any (λ r. has_path r.path && path_matches_protection (or_else r.path []) target home) rules

any-match_rules :
    (type : PolicyType) (target home : Text) (rules : List PolicyRule)
    → any (λ m. is_do_not_touch m.type) (match_rules type target home rules)
      ≡ (is_do_not_touch type && is_covered target home rules)
unfolding match_rules match_rule
any-match_rules type target home [] = ground arith
any-match_rules type target home (r ∷ rs) = ground (arith, any-match_rules type target home rs)

do_not_touch_match-match_policy :
    (target : Text) (policy : PolicySet)
    → text_eq target [] ≡ false
    → is_some (do_not_touch_match (match_policy target policy))
      ≡ is_covered target policy.home policy.do_not_touch
unfolding match_policy do_not_touch_match
do_not_touch_match-match_policy target policy h =
    let dnt = λ (m : PolicyMatch). is_do_not_touch m.type in
    rw
      (
        h,
        find-eq-any dnt (sort_matches (collected target policy)),
        any-sort_matches dnt (collected target policy),
      )
      (ground (
        arith,
        any-append dnt
            (match_rules do_not_touch target policy.home policy.do_not_touch
              ++ match_rules allowance target policy.home policy.allowances)
            (match_rules standing_consent target policy.home policy.standing_consent),
        any-append dnt (match_rules do_not_touch target policy.home policy.do_not_touch)
            (match_rules allowance target policy.home policy.allowances),
        any-match_rules do_not_touch target policy.home policy.do_not_touch,
        any-match_rules allowance target policy.home policy.allowances,
        any-match_rules standing_consent target policy.home policy.standing_consent,
      ))

-- With the matches of `matchPolicy`, an argument whose path a do-not-touch rule covers gets the stance
-- `protect`, whatever its other classes, evidence, mode and consent are.
covered_path-protect :
    (a : Args) (target : Text) (policy : PolicySet)
    → text_eq target [] ≡ false
    → a.matches ≡ match_policy target policy
    → is_covered target policy.home policy.do_not_touch ≡ true
    → (decide_stance a).stance ≡ StanceName.protect
unfolding decide_stance
covered_path-protect a target policy h e c =
    ground (arith, decide_stance_core_cases a, do_not_touch_match-match_policy target policy h)
