-- ===== src/Policy.antt =====
-- scripts/lib/policy.mjs: protection rules, their matching, and the order of the matches. A parsed
-- config value keeps what the code reads of it: a field of another type, or none, is `none`.
pub mod Cover
pub mod Matches
use Prim.Native.String.{◌++◌ as join_text}
use claude_housekeeper.Base.{
  [], ℕ, ◌-◌, Bool, false, ◌&&◌, ◌||◌, not, ◌==◌, ltb, String, Option, none, some, List, ◌∷◌, ◌++◌,
  length, take, filter, if◌then◌else◌, or_else, str_eq,
}
use claude_housekeeper.Contracts.{
  Text, PolicyMatch, PolicyType, do_not_touch, allowance, standing_consent,
}
use claude_housekeeper.Posix.{
  codes, sep, text_eq, starts_with, ends_with, is_absolute, normalize, join, dirname,
}

-- An entry of `value.doNotTouch` or `value.protect`.
pub record RawRule : Type 0 where
  pub check : Option String
  pub path : Option Text
  pub reason : Option String
  pub scope : Option String

-- `none` stands for an entry that is no object, and a missing or non-array field for `none`.
pub record ConfigValue : Type 0 where
  pub do_not_touch : Option (List (Option RawRule))
  pub protect : Option (List (Option RawRule))

pub record ProtectionRule : Type 0 where
  pub check : Option String
  pub path : Option Text
  pub reason : String
  pub scope : String

abbrev pub to_rule : RawRule → ProtectionRule
to_rule r = record {
  check = r.check;
  path = r.path;
  reason = or_else r.reason "do-not-touch rule";
  scope = or_else r.scope "user";
}

-- `Boolean(value)` of a text or `null`
abbrev pub has_text : Option String → Bool
has_text none = false
has_text (some s) = not (str_eq s "")

abbrev pub has_path : Option Text → Bool
has_path none = false
has_path (some p) = not (text_eq p [])

abbrev pub to_rules : List (Option RawRule) → List ProtectionRule
to_rules [] = []
to_rules (none ∷ rs) = to_rules rs
to_rules (some r ∷ rs) = to_rule r ∷ to_rules rs

-- `normalizeProtectionRules`
unfoldable pub normalize_protection_rules : ConfigValue → List ProtectionRule
normalize_protection_rules v =
    filter (λ r. has_text r.check || has_path r.path)
      (to_rules (or_else v.do_not_touch [] ++ or_else v.protect []))

-- What `readJson` finds at a path.
pub data ReadJson : Type 0 where
  missing : ReadJson
  parsed : ConfigValue → ReadJson
  failed : String → ReadJson

pub record Config : Type 0 where
  pub file : Option Text
  pub rules : List ProtectionRule
  pub error : Option String

-- The loop of `loadConfig` over its candidates.
unfoldable pub first_config : (Text → ReadJson) → List Text → Config
unfolding normalize_protection_rules
first_config read [] = record { file = none; rules = []; error = none }
first_config read (file ∷ files) = elim (read file) [
  | missing ↦ first_config read files
  | parsed v ↦ record { file = some file; rules = normalize_protection_rules v; error = none }
  | failed e ↦ record { file = some file; rules = []; error = some e }
]

-- `loadConfig`
unfoldable pub load_config : (Text → ReadJson) → Text → Option Text → Config
unfolding first_config join
load_config read home explicit_path = first_config read (
    filter (λ p. not (text_eq p []))
      (or_else explicit_path []
        ∷ join (join home (codes "housekeeper")) (codes "config.json")
        ∷ join home (codes "housekeeper.json")
        ∷ []))

-- `path === prefix || path.startsWith(prefix + "/")`
abbrev pub covers : Text → Text → Bool
covers prefix path = text_eq path prefix || starts_with path (prefix ++ sep ∷ [])

-- The tests of `pathMatchesProtection` on the normalized pattern and path.
unfoldable pub normalized_match : Text → Text → Bool
unfolding dirname
normalized_match pattern path =
    if ends_with pattern (codes "/**")
    then covers (take (length pattern - 3) pattern) path
    else if ends_with pattern (codes "/*")
    then text_eq (dirname path) (take (length pattern - 2) pattern)
    else covers pattern path

-- `pathMatchesProtection`
unfoldable pub path_matches_protection : Text → Text → Text → Bool
path_matches_protection pattern issue_path home =
    normalized_match (normalize (if is_absolute pattern then pattern else join home pattern))
      (normalize issue_path)

-- An entry of one of the policy's lists.
pub record PolicyRule : Type 0 where
  pub path : Option Text
  pub reason : Option String
  pub scope : Option String
  pub max_stance : Option String

pub record PolicySet : Type 0 where
  pub home : Text
  pub do_not_touch : List PolicyRule
  pub allowances : List PolicyRule
  pub standing_consent : List PolicyRule

-- `value || fallback` on a text
abbrev pub text_or : Option String → String → String
text_or o d = if has_text o then or_else o d else d

abbrev pub default_reason : PolicyType → String
default_reason do_not_touch = "do-not-touch rule"
default_reason allowance = "allowed by policy"
default_reason standing_consent = "standing consent"

abbrev pub effect_of : PolicyType → PolicyRule → String
effect_of do_not_touch _ = "stance protect, action none"
effect_of allowance _ = "stance review, action none"
effect_of standing_consent rule = join_text "stance up to " (text_or rule.max_stance "prepare")

-- The match of one rule, if it has a path that covers the target.
unfoldable pub match_rule : PolicyType → Text → Text → PolicyRule → Option PolicyMatch
match_rule type target home rule =
    let pattern : Text = or_else rule.path [] in
    if has_path rule.path && path_matches_protection pattern target home
    then some (record {
      type = type;
      pattern = pattern;
      path = target;
      reason = text_or rule.reason (default_reason type);
      scope = text_or rule.scope "user";
      effect = effect_of type rule;
    })
    else none

-- One of the three loops of `matchPolicy`.
unfoldable pub match_rules : PolicyType → Text → Text → List PolicyRule → List PolicyMatch
unfolding match_rule
match_rules type target home [] = []
match_rules type target home (r ∷ rs) = elim (match_rule type target home r) [
  | none ↦ match_rules type target home rs
  | some m ↦ m ∷ match_rules type target home rs
]

abbrev pub type_order : PolicyType → ℕ
type_order do_not_touch = 0
type_order allowance = 1
type_order standing_consent = 2

-- Whether the comparison of `out.sort` puts `b` strictly before `a`.
abbrev pub comes_before : PolicyMatch → PolicyMatch → Bool
comes_before b a =
    ltb (type_order b.type) (type_order a.type)
    || type_order b.type == type_order a.type && ltb (length a.pattern) (length b.pattern)

-- JavaScript's stable sort, by insertion.
unfoldable pub insert_match : PolicyMatch → List PolicyMatch → List PolicyMatch
insert_match m [] = m ∷ []
insert_match m (n ∷ ns) = if comes_before n m then n ∷ insert_match m ns else m ∷ n ∷ ns

unfoldable pub sort_matches : List PolicyMatch → List PolicyMatch
unfolding insert_match
sort_matches [] = []
sort_matches (m ∷ ms) = insert_match m (sort_matches ms)

-- `matchPolicy`
unfoldable pub match_policy : Text → PolicySet → List PolicyMatch
unfolding match_rules sort_matches
match_policy target policy =
    if text_eq target []
    then []
    else sort_matches (
        match_rules do_not_touch target policy.home policy.do_not_touch
        ++ match_rules allowance target policy.home policy.allowances
        ++ match_rules standing_consent target policy.home policy.standing_consent)
