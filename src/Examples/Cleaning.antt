-- ===== src/Examples/Cleaning.antt =====
-- Findings that scripts/lib/clean-plan.mjs classifies.
use claude_housekeeper.Base.{[], ◌≡◌, refl, false, some, none, ◌∷◌}
use claude_housekeeper.Contracts.{Text}
use claude_housekeeper.Posix.{codes, join, basename}
use claude_housekeeper.Surface.{
  Hints, classify_surface, classify_normalized, classify_other, is_housekeeper_path, is_secret_path,
  is_plugin_cache_version_dir_path, strip_trailing_sep, normal_target,
}
use claude_housekeeper.Snapshot.{blocking_rule}
use claude_housekeeper.Clean.{
  Finding, Context, accepted, refused, sector_boundary, owner, no_mutation_mapping,
  plan_state_error, is_inert, classify_finding, is_sector_boundary,
}

abbrev home : Text
home = codes "/h/.claude"

abbrev cache : Text
cache = codes "/h/.claude/plugins/cache/m/p/1.0"

abbrev hints : Hints
hints = record {
  home = some home;
  loaded = false;
  is_plugin_cache_version_dir = false;
  is_hook_command = false;
  is_mcp_command = false;
}

abbrev unreferenced : Finding
unreferenced = record {
  id = "plugin.cache_unreferenced";
  target_path = cache;
  surface = some (classify_surface cache hints);
  policy_matches = [];
}

abbrev context : Context
context = record {
  home = home;
  interruptions = [];
  symlinked_paths = [];
  mcp_paths = [];
  ref_by_hook_paths = [];
  do_not_touch_rules = [];
  fresh_lock_paths = [];
  drifted_local_command_paths = [];
  allowed_execution_classes = is_inert;
}

-- A path below a credential directory, with Windows separators.
abbrev windows_secret : Finding
windows_secret = record unreferenced { target_path = codes "C:\\h\\secrets\\x"; surface = none }

-- A lockfile, as a finding of a detector that is not about it.
abbrev lockfile : Finding
lockfile = record unreferenced {
  target_path = codes "/h/.claude/housekeeper/lock";
  surface = some (classify_surface (codes "/h/.claude/housekeeper/lock") hints);
}

classify_finding_tests :
    (classify_finding unreferenced context ≡ accepted)
    × (classify_finding unreferenced (record context { interruptions = cache ∷ [] })
        ≡ refused plan_state_error)
    × (classify_finding windows_secret context ≡ refused sector_boundary)
    × (classify_finding lockfile context ≡ refused owner)
    × (classify_finding (record unreferenced { id = "plugin.expected_orphan" }) context
        ≡ refused no_mutation_mapping)
unfolding classify_finding blocking_rule is_sector_boundary join basename classify_surface
    classify_normalized is_housekeeper_path normal_target strip_trailing_sep is_secret_path
    classify_other is_plugin_cache_version_dir_path
classify_finding_tests = (refl, refl, refl, refl, refl)
