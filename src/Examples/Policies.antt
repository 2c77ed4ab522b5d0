-- ===== src/Examples/Policies.antt =====
-- Protection rules of scripts/lib/policy.mjs on concrete paths.
use claude_housekeeper.Base.{[], ◌≡◌, refl, true, false, some, none, ◌∷◌}
use claude_housekeeper.Contracts.{Text}
use claude_housekeeper.Posix.{codes, split_sep, normalize, join, dirname}
use claude_housekeeper.Policy.{
  PolicyRule, PolicySet, normalized_match, path_matches_protection, match_policy,
}
use claude_housekeeper.Policy.Cover.{
  is_prefix, path_matches_protection_plain, path_matches_protection_tree,
  trailing_separator_protects_nothing,
}
use claude_housekeeper.Findings.{Args, diagnose, integrity}

abbrev home : Text
home = codes "/h/.claude"

abbrev skill : Text
skill = codes "/h/.claude/skills/a/SKILL.md"

abbrev rule : Text → PolicyRule
rule p = record { path = some p; reason = none; scope = none; max_stance = none }

abbrev policy : PolicySet
policy = record {
  home = home;
  do_not_touch = rule (codes "skills/**") ∷ rule (codes "skills/a/*") ∷ rule (codes "plugins") ∷ [];
  allowances = rule (codes "skills") ∷ [];
  standing_consent = [];
}

abbrev finding : Args
finding = record {
  surface = none;
  evidence = record {
    structural = [];
    loader = [];
    behavioral = [];
    ownership = [];
    freshness = [];
    reversibility = [];
    missing = [];
    conflicting = true;
  };
  missing_keys = [];
  matches = match_policy skill policy;
  mode = diagnose;
  finding_class = integrity;
  consent_granted = true;
}

path_matches_protection_tests :
    (path_matches_protection (codes "skills/**") skill home ≡ true)
    × (path_matches_protection (codes "skills/a/*") skill home ≡ true)
    × (path_matches_protection (codes "skills/*") skill home ≡ false)
    × (path_matches_protection (codes "skill") skill home ≡ false)
    × (path_matches_protection (codes "/h/.claude/x/../skills") skill home ≡ true)
unfolding path_matches_protection normalized_match normalize join dirname
path_matches_protection_tests = (refl, refl, refl, refl, refl)

path_matches_protection_plain_example :
    path_matches_protection (codes "skills") skill home
    ≡ is_prefix (split_sep (normalize (join home (codes "skills")))) (split_sep (normalize skill))
unfolding normalize join
path_matches_protection_plain_example =
    path_matches_protection_plain (codes "skills") skill home refl refl

path_matches_protection_tree_example :
    path_matches_protection (codes "skills/**") skill home
    ≡ is_prefix (split_sep (codes "/h/.claude/skills")) (split_sep (normalize skill))
unfolding normalize join
path_matches_protection_tree_example =
    path_matches_protection_tree (codes "skills/**") skill home (codes "/h/.claude/skills") refl

trailing_separator_protects_nothing_example :
    path_matches_protection (codes "skills/") skill home ≡ false
unfolding normalize join
trailing_separator_protects_nothing_example =
    trailing_separator_protects_nothing (codes "skills/") skill home (codes "/h/.claude/skills")
      refl (refl, (refl, (refl, (refl, (refl, tt)))))
