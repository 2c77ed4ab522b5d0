-- ===== src/Policy/Cover.antt =====
-- Which paths a rule of scripts/lib/policy.mjs covers, in terms of path segments.
use claude_housekeeper.Base.{
  [], ◌≡◌, refl, Bool, true, false, ◌&&◌, ◌==◌, List, ◌∷◌, ◌++◌, arith, if◌then◌else◌, inl, inr,
  Bool-cases, length, take, ◌-◌, length-append, drop, All,
}
use claude_housekeeper.Contracts.{Text}
use claude_housekeeper.Posix.{
  codes, sep, text_eq, text_eq_refl, ends_with, split_sep, normalize, is_absolute, join,
}
use claude_housekeeper.Policy.{covers, normalized_match, path_matches_protection}

-- The segments of one path begin those of another.
abbrev pub is_prefix : List Text → List Text → Bool
is_prefix [] ts = true
is_prefix (s ∷ ss) [] = false
is_prefix (s ∷ ss) (t ∷ ts) = text_eq s t && is_prefix ss ts

split_sep_cases : (p : Text) → (s : Text) × (ss : List Text) × (split_sep p ≡ s ∷ ss)
split_sep_cases [] = ([], [], refl)
split_sep_cases (c ∷ p) = elim (Bool-cases (c == sep)) [
  | inl e ↦ ([], split_sep p, rw e)
  | inr e ↦ let (s, ss, q) = split_sep_cases p in (c ∷ s, ss, rw (e, q))
]

covers_lem : (p s : Text) → covers p s ≡ is_prefix (split_sep p) (split_sep s)
covers_lem [] [] = ground arith
covers_lem [] (d ∷ s) = ground (arith, split_sep_cases s)
covers_lem (c ∷ p) [] = ground (arith, split_sep_cases p)
covers_lem (c ∷ p) (d ∷ s) = ground (arith, split_sep_cases s, split_sep_cases p, covers_lem p s)

-- The pattern as `pathMatchesProtection` compares it.
abbrev pub full_pattern : Text → Text → Text
full_pattern pattern home = normalize (if is_absolute pattern then pattern else join home pattern)

-- A rule that ends in neither `/**` nor `/*` covers exactly the paths whose segments begin with those of the
-- rule: an asterisk anywhere else, as in `commands/local-*`, is an ordinary character.
pub path_matches_protection_plain :
    (pattern issue home : Text)
    → ends_with (full_pattern pattern home) (codes "/**") ≡ false
    → ends_with (full_pattern pattern home) (codes "/*") ≡ false
    → path_matches_protection pattern issue home
      ≡ is_prefix (split_sep (full_pattern pattern home)) (split_sep (normalize issue))
unfolding path_matches_protection normalized_match
path_matches_protection_plain pattern issue home h k =
    rw (h, k) (covers_lem (full_pattern pattern home) (normalize issue))

ends_with-append : (s t : Text) → ends_with (s ++ t) t ≡ true
ends_with-append [] [] = refl
ends_with-append [] (c ∷ t) = ground (arith, text_eq_refl (c ∷ t))
ends_with-append (c ∷ s) t = ground (arith, ends_with-append s t)

take-append {ℓ} : {A : Type ℓ} (s t : List A) → take (length s) (s ++ t) ≡ s
take-append [] t = refl
take-append (c ∷ s) t = rw (take-append s t)

normalized_match_tree :
    (prefix path : Text)
    → normalized_match (prefix ++ codes "/**") path ≡ is_prefix (split_sep prefix) (split_sep path)
unfolding normalized_match
normalized_match_tree prefix path =
    let e : length (prefix ++ codes "/**") - 3 ≡ length prefix =
      omega (arith, length-append prefix (codes "/**")) in
    rw (ends_with-append prefix (codes "/**"), e, take-append prefix (codes "/**"))
      (covers_lem prefix path)

-- A rule that ends in `/**` covers exactly the directory before it and what lies below.
pub path_matches_protection_tree :
    (pattern issue home prefix : Text)
    → full_pattern pattern home ≡ prefix ++ codes "/**"
    → path_matches_protection pattern issue home
      ≡ is_prefix (split_sep prefix) (split_sep (normalize issue))
unfolding path_matches_protection
path_matches_protection_tree pattern issue home prefix h =
    rw h (normalized_match_tree prefix (normalize issue))

-- Every segment after the first is non-empty: no separator is doubled or last.
abbrev pub IsClean : Text → Type 0
IsClean p = All (λ s. text_eq s [] ≡ false) (drop 1 (split_sep p))

split_sep-trailing : (q : Text) → split_sep (q ++ sep ∷ []) ≡ split_sep q ++ [] ∷ []
split_sep-trailing [] = refl
split_sep-trailing (c ∷ q) = ground (arith, split_sep-trailing q, split_sep_cases q)

is_prefix-trailing :
    (ss ts : List Text) → All (λ s. text_eq s [] ≡ false) ts → is_prefix (ss ++ [] ∷ []) ts ≡ false
is_prefix-trailing [] [] h = refl
is_prefix-trailing [] (t ∷ ts) h = ground arith
is_prefix-trailing (s ∷ ss) [] h = refl
is_prefix-trailing (s ∷ ss) (t ∷ ts) h = ground (arith, is_prefix-trailing ss ts h.1)

not-covers_trailing : (q p : Text) → IsClean p → covers (q ++ sep ∷ []) p ≡ false
not-covers_trailing q p h =
    let (s, ss, e) = split_sep_cases p in
    let (t, ts, e') = split_sep_cases q in
    rw (covers_lem (q ++ sep ∷ []) p, split_sep-trailing q)
      (ground (arith, is_prefix-trailing ts ss, e, e'))

text_eq-trailing_tree : (q : Text) → text_eq (q ++ sep ∷ []) (codes "/**") ≡ false
text_eq-trailing_tree [] = refl
text_eq-trailing_tree (a ∷ []) = ground arith
text_eq-trailing_tree (a ∷ b ∷ []) = ground arith
text_eq-trailing_tree (a ∷ b ∷ c ∷ []) = ground arith
text_eq-trailing_tree (a ∷ b ∷ c ∷ d ∷ q) = ground arith

text_eq-trailing_star : (q : Text) → text_eq (q ++ sep ∷ []) (codes "/*") ≡ false
text_eq-trailing_star [] = refl
text_eq-trailing_star (a ∷ []) = ground arith
text_eq-trailing_star (a ∷ b ∷ []) = ground arith
text_eq-trailing_star (a ∷ b ∷ c ∷ q) = ground arith

ends_with-trailing :
    (q : Text)
    → (ends_with (q ++ sep ∷ []) (codes "/**") ≡ false)
      × (ends_with (q ++ sep ∷ []) (codes "/*") ≡ false)
ends_with-trailing [] = (refl, refl)
ends_with-trailing (c ∷ q) =
    ground
      (arith, ends_with-trailing q, text_eq-trailing_tree (c ∷ q), text_eq-trailing_star (c ∷ q))

normalized_match-trailing :
    (q path : Text) → IsClean path → normalized_match (q ++ sep ∷ []) path ≡ false
unfolding normalized_match
normalized_match-trailing q path h =
    let (tree, star) = ends_with-trailing q in rw (tree, star) (not-covers_trailing q path h)

-- A rule whose normal form keeps a trailing separator protects no path whose normal form has neither
-- a doubled nor a trailing separator: not the directory, and nothing below it.
pub trailing_separator_protects_nothing :
    (pattern issue home q : Text)
    → full_pattern pattern home ≡ q ++ sep ∷ []
    → IsClean (normalize issue)
    → path_matches_protection pattern issue home ≡ false
unfolding path_matches_protection
trailing_separator_protects_nothing pattern issue home q h clean =
    rw h (normalized_match-trailing q (normalize issue) clean)
