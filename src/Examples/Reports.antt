-- ===== src/Examples/Reports.antt =====
-- Reports that scripts/lib/audit.mjs assembles from detectors' outputs.
use claude_housekeeper.Base.{[], ◌≡◌, ◌⊎◌, refl, true, false, some, none, ◌∷◌, ◌++◌, List, any}
use claude_housekeeper.Contracts.{Text, StanceName, OwnerClass, default_surface}
use claude_housekeeper.Posix.{codes, text_eq, normalize, join}
use claude_housekeeper.Surface.{Hints}
use claude_housekeeper.Findings.{
  diagnose, integrity, includes, is_out_of_scope, is_unknown_owner, is_checkpoint_only,
}
use claude_housekeeper.Policy.{ProtectionRule, path_matches_protection, normalized_match}
use claude_housekeeper.Detectors.{
  DetectorOutput, selected_detectors, settings_detectors, always_on_detectors,
}
use claude_housekeeper.Stance.{
  decide_stance, decide_stance_core, hard_protect, hard_block, protect_or_block,
}
use claude_housekeeper.Audit.{
  Finding, apply_safe_mode_limits, surface_of, args_of, make_finding, build_finding,
  collect_policy_matches,
}
use claude_housekeeper.Assembly.{Home, Report, make_report, kept_outputs, assemble_report}
use claude_housekeeper.Assembly.Safety.{
  guarded-protect, guarded_output-boundary, build_finding-block,
}

abbrev home : Text
home = codes "/h/.claude"

abbrev hints : Hints
hints = record {
  home = some home;
  loaded = false;
  is_plugin_cache_version_dir = false;
  is_hook_command = false;
  is_mcp_command = false;
}

-- A hook whose command is missing.
abbrev pub dangling : DetectorOutput
dangling = record {
  id = "settings.hook_path_dangling";
  finding_class = integrity;
  surface = none;
  surface_hints = hints;
  evidence = record {
    structural = "hook command path does not exist" ∷ [];
    loader = [];
    behavioral = [];
    ownership = [];
    freshness = [];
    reversibility = [];
    missing = [];
    conflicting = true;
  };
  missing_keys = [];
  target_path = codes "/h/.claude/settings.json";
  summary = "Hook command path is missing";
  claim_level = none;
  next_allowed_step = none;
  blocked_actions = none;
  force_stance = none;
  hardenable = true;
  cleanable = false;
  history_available = none;
}

-- A finding without a proof that it can be rolled back.
abbrev unproved : DetectorOutput
unproved = record dangling {
  id = "settings.invalid_json";
  missing_keys = "rollback-proof" ∷ [];
  target_path = codes "/h/.claude/settings.local.json";
  surface = some (record default_surface { owner_class = OwnerClass.user_owned });
}

-- A detector that would repair.
abbrev forced : DetectorOutput
forced = record dangling {
  id = "home.scan_budget_hit";
  target_path = home;
  force_stance = some StanceName.repair;
}

abbrev rules : List ProtectionRule
rules =
    record {
      check = some "path";
      path = some (codes "settings.json");
      reason = "mine";
      scope = "user";
    }
    ∷ []

abbrev ordinary : Home
ordinary = record {
  path = home;
  is_there = true;
  rules = rules;
  markers = λ i t. 0;
  outputs = unproved ∷ dangling ∷ forced ∷ [];
  clean = forced;
}

abbrev build : DetectorOutput → Finding
build = build_finding home diagnose (collect_policy_matches home rules) (λ i t. 0)

abbrev report : Report
report = make_report home diagnose (build unproved ∷ build dangling ∷ build forced ∷ [])

report_lem : assemble_report ordinary "settings" diagnose ≡ some report
unfolding assemble_report selected_detectors kept_outputs
report_lem = refl

guarded_output-boundary_example :
    any (λ b. text_eq b.path dangling.target_path) report.boundaries ≡ true
unfolding path_matches_protection selected_detectors normalized_match normalize join
guarded_output-boundary_example =
    guarded_output-boundary ordinary "settings" diagnose report dangling (unproved ∷ [])
      (forced ∷ []) (settings_detectors ++ always_on_detectors) report_lem refl refl refl refl refl
      refl refl

build_finding-block_example :
    let s = surface_of home diagnose unproved in
    (is_out_of_scope s.scope_class ≡ true)
    ⊎ (is_unknown_owner s.owner_class ≡ true)
    ⊎ (is_checkpoint_only s.rollback_class ≡ true)
    ⊎ (includes "rollback-proof" unproved.missing_keys ≡ true)
unfolding build_finding make_finding args_of surface_of apply_safe_mode_limits decide_stance
    decide_stance_core hard_protect hard_block protect_or_block
build_finding-block_example =
    build_finding-block home diagnose (λ t. []) (λ i t. 0) unproved refl refl

guarded-protect_example :
    (build_finding home diagnose (collect_policy_matches home rules) (λ i t. 0) dangling).stance
    ≡ StanceName.protect
unfolding path_matches_protection normalized_match normalize join
guarded-protect_example = guarded-protect ordinary diagnose dangling refl refl refl
