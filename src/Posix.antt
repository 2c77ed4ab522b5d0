-- ===== src/Posix.antt =====
-- The parts of Node's `path` module that the program calls, on POSIX paths: `isAbsolute`, `normalize`,
-- `join`, `dirname` and `basename`. A path is its character codes, and `path.sep` is "/".
use Prim.Native.Char.{code}
use claude_housekeeper.Base.{
  [], ℕ, Bool, true, false, not, ◌&&◌, ◌||◌, ◌==◌, ◌≡◌, ◌↔◌, refl, String, List, ◌∷◌, ◌++◌, arith,
  if◌then◌else◌, filter, or_else,
}
use mathlib.Core.List.{reverse, head?}
use claude_housekeeper.Contracts.{Text}

abbrev pub codes : String → Text
codes String.[] = []
codes (String.◌∷◌ c s) = code c ∷ codes s

abbrev pub sep : ℕ
sep = b'/'

-- `s === t`
abbrev pub text_eq : Text → Text → Bool
text_eq [] [] = true
text_eq (a ∷ s) (b ∷ t) = a == b && text_eq s t
text_eq _ _ = false

pub text_eq_sound : (s t : Text) → text_eq s t ≡ true → s ≡ t
text_eq_sound [] [] h = ground arith
text_eq_sound (a ∷ s) (b ∷ t) h = ground (arith, text_eq_sound s t)
text_eq_sound [] (b ∷ t) h = ground arith
text_eq_sound (a ∷ s) [] h = ground arith

pub text_eq_refl : (s : Text) → text_eq s s ≡ true
text_eq_refl [] = ground arith
text_eq_refl (a ∷ s) = ground (arith, text_eq_refl s)

pub text_eq_iff : (s t : Text) → (text_eq s t ≡ true) ↔ (s ≡ t)
text_eq_iff s t = (text_eq_sound s t, λ e. rw e (text_eq_refl t))

-- `s.startsWith(t)`
abbrev pub starts_with : Text → Text → Bool
starts_with s [] = true
starts_with [] (b ∷ t) = false
starts_with (a ∷ s) (b ∷ t) = a == b && starts_with s t

-- `s.endsWith(t)`
abbrev pub ends_with : Text → Text → Bool
ends_with [] t = text_eq [] t
ends_with (a ∷ s) t = text_eq (a ∷ s) t || ends_with s t

-- `s.split("/")`, with the segment read so far in front
abbrev pub push_front : ℕ → List Text → List Text
push_front c [] = (c ∷ []) ∷ []
push_front c (s ∷ ss) = (c ∷ s) ∷ ss

abbrev pub split_sep : Text → List Text
split_sep [] = [] ∷ []
split_sep (c ∷ s) = let rest = split_sep s in if c == sep then [] ∷ rest else push_front c rest

abbrev pub join_sep : List Text → Text
join_sep [] = []
join_sep (s ∷ []) = s
join_sep (s ∷ t ∷ ss) = s ++ sep ∷ join_sep (t ∷ ss)

abbrev pub is_absolute : Text → Bool
is_absolute p = starts_with p (sep ∷ [])

-- What ".." does to the segments kept so far, the top at the head.
abbrev pub pop_segment : Bool → List Text → List Text
pop_segment absolute [] = if absolute then [] else codes ".." ∷ []
pop_segment absolute (s ∷ stack) = if text_eq s (codes "..") then codes ".." ∷ s ∷ stack else stack

-- One segment of `normalizeString`; `stack` has its top at the head.
abbrev pub resolve_segment : Bool → List Text → Text → List Text
resolve_segment absolute stack s =
    if text_eq s [] || text_eq s (codes ".")
    then stack
    else if text_eq s (codes "..")
    then pop_segment absolute stack
    else s ∷ stack

abbrev pub resolve_segments : Bool → List Text → List Text → List Text
resolve_segments absolute stack [] = reverse stack
resolve_segments absolute stack (s ∷ ss) =
    resolve_segments absolute (resolve_segment absolute stack s) ss

-- `path.normalize`
unfoldable pub normalize : Text → Text
normalize p =
    let absolute = is_absolute p in
    let trailing = ends_with p (sep ∷ []) in
    let body = join_sep (resolve_segments absolute [] (split_sep p)) in
    if text_eq body []
    then (if absolute then sep ∷ [] else if trailing then codes "./" else codes ".")
    else (if absolute then sep ∷ [] else []) ++ body ++ (if trailing then sep ∷ [] else [])

-- `path.join` of two parts
unfoldable pub join : Text → Text → Text
unfolding normalize
join a b =
    if text_eq a []
    then normalize b
    else if text_eq b []
    then normalize a
    else normalize (a ++ sep ∷ b)

-- The segments of a path that are not empty, the last first.
abbrev pub segments_reversed : Text → List Text
segments_reversed p = reverse (filter (λ s. not (text_eq s [])) (split_sep p))

abbrev pub drop_seps : Text → Text
drop_seps [] = []
drop_seps (c ∷ s) = if c == sep then drop_seps s else c ∷ s

abbrev pub drop_name : Text → Text
drop_name [] = []
drop_name (c ∷ s) = if c == sep then c ∷ s else drop_name s

-- On a reversed path: its trailing separators, its last segment and the separators before it.
abbrev pub drop_last_segment : Text → Text
drop_last_segment p = drop_seps (drop_name (drop_seps p))

-- `path.basename`
unfoldable pub basename : Text → Text
basename p = or_else (head? (segments_reversed p)) []

-- `path.dirname`: the path up to the separators before its last segment
unfoldable pub dirname : Text → Text
dirname p =
    let absolute = is_absolute p in
    let up = drop_last_segment (reverse p) in
    if text_eq up [] then (if absolute then sep ∷ [] else codes ".") else reverse up

normalize_tests :
    (normalize (codes "/a/./b//../c/") ≡ codes "/a/c/")
    × (normalize (codes "../../x") ≡ codes "../../x")
    × (normalize (codes "/..") ≡ codes "/")
    × (dirname (codes "/a/b/") ≡ codes "/a")
    × (basename (codes "/a/b/") ≡ codes "b")
    × (join (codes "/h/") (codes "x") ≡ codes "/h/x")
    × (normalize (codes "a/") ≡ codes "a/")
unfolding normalize dirname basename join
normalize_tests = (refl, refl, refl, refl, refl, refl, refl)

pub text_eq_comm : (s t : Text) → text_eq s t ≡ text_eq t s
text_eq_comm [] [] = refl
text_eq_comm [] (b ∷ t) = refl
text_eq_comm (a ∷ s) [] = refl
text_eq_comm (a ∷ s) (b ∷ t) = ground (arith, text_eq_comm s t)
