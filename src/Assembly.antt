-- ===== src/Assembly.antt =====
-- scripts/lib/audit.mjs: the report that `assembleReport` puts together from findings: the stance counts, the
-- boundaries, the primary finding, and the reports on a home that is there or not.
pub mod Summary
pub mod Safety
use Prim.Native.String.{◌++◌ as join_text}
use claude_housekeeper.Base.{
  ℕ, zero, suc, ◌+◌, Bool, true, false, ◌&&◌, ◌||◌, String, Option, none, some, List, [], ◌∷◌, ◌++◌,
  any, find, filter, map, if◌then◌else◌, or_else, str_eq, ◌==◌,
}
use claude_housekeeper.Contracts.{
  Text, Surface, SurfaceClass, OwnerClass, LoadBearingClass, SensitivityClass, ExecutionClass,
  RollbackClass, ScopeClass, high, Evidence, Stance, StanceName, PolicyMatch, do_not_touch,
  default_surface,
}
use claude_housekeeper.Posix.{codes, starts_with, text_eq}
use claude_housekeeper.Policy.{ProtectionRule, path_matches_protection, has_path, has_text, text_or}
use claude_housekeeper.Findings.{
  Args, Mode, safe, FindingClass, integrity, is_safe, is_boundary, is_secret_content,
  is_secret_adjacent, includes,
}
use claude_housekeeper.Stance.{decide_stance}
use claude_housekeeper.Surface.{Hints, classify_surface}
use claude_housekeeper.SecretNames.{contains_any}
use claude_housekeeper.Detectors.{
  DetectorOutput, Probe, probe_catalog, mcp_probe, debug_hooks_probe, safe_mode_limits, lookup,
  selected_detectors,
}
use claude_housekeeper.Audit.{
  Finding, apply_safe_mode_limits, without_consent, plugin_blocked_actions, default_blocked_actions,
  pick_probe_metadata, degraded, surface_of, evidence_of, args_of, is_inform, seen_before,
  matches_of, make_finding, build_finding, collect_policy_matches,
}

-- `counts` of `countStances`
pub record StanceSummary : Type 0 where
  pub inform : ℕ
  pub watch : ℕ
  pub review : ℕ
  pub probe : ℕ
  pub protect : ℕ
  pub prepare : ℕ
  pub repair : ℕ
  pub block : ℕ

abbrev pub no_stances : StanceSummary
no_stances = record {
  inform = 0;
  watch = 0;
  review = 0;
  probe = 0;
  protect = 0;
  prepare = 0;
  repair = 0;
  block = 0;
}

-- `counts[f.stance] += 1`
abbrev pub add_stance : StanceName → StanceSummary → StanceSummary
add_stance StanceName.inform c = record c { inform = c.inform + 1 }
add_stance StanceName.watch c = record c { watch = c.watch + 1 }
add_stance StanceName.review c = record c { review = c.review + 1 }
add_stance StanceName.probe c = record c { probe = c.probe + 1 }
add_stance StanceName.protect c = record c { protect = c.protect + 1 }
add_stance StanceName.prepare c = record c { prepare = c.prepare + 1 }
add_stance StanceName.repair c = record c { repair = c.repair + 1 }
add_stance StanceName.block c = record c { block = c.block + 1 }

-- The loop of `countStances`, from the counts so far.
unfoldable pub count_from : StanceSummary → List Finding → StanceSummary
count_from c [] = c
count_from c (f ∷ fs) = count_from (add_stance f.stance c) fs

-- `countStances`
unfoldable pub count_stances : List Finding → StanceSummary
unfolding count_from
count_stances fs = count_from no_stances fs

pub data BoundaryType : Type 0 where
  sector_boundary secret_adjacent protected : BoundaryType

pub record Boundary : Type 0 where
  pub type : BoundaryType
  pub path : Text
  pub reason : String
  pub finding_id : String

-- `pickBoundaryType`
unfoldable pub pick_boundary_type : Finding → BoundaryType
pick_boundary_type f =
    if is_boundary f.surface.scope_class
    then sector_boundary
    else if is_secret_adjacent f.surface.sensitivity_class
        || is_secret_content f.surface.sensitivity_class
    then secret_adjacent
    else protected

abbrev pub is_protect : StanceName → Bool
is_protect StanceName.protect = true
is_protect _ = false

-- `collectBoundaries`
unfoldable pub collect_boundaries : List Finding → List Boundary
unfolding pick_boundary_type
collect_boundaries [] = []
collect_boundaries (f ∷ fs) =
    let rest = collect_boundaries fs in
    if is_protect f.stance
    then record {
      type = pick_boundary_type f;
      path = f.target_path;
      reason = text_or (some f.why) "boundary";
      finding_id = f.id;
    }
      ∷ rest
    else rest

-- The place of a stance in `PRIMARY_PRIORITY`; `repair` stands nowhere in it.
abbrev pub priority : StanceName → ℕ
priority StanceName.block = 0
priority StanceName.prepare = 1
priority StanceName.probe = 2
priority StanceName.review = 3
priority StanceName.protect = 4
priority StanceName.watch = 5
priority StanceName.inform = 6
priority StanceName.repair = 7

-- `PRIMARY_PRIORITY`
abbrev pub primary_priority : List ℕ
primary_priority = 0 ∷ 1 ∷ 2 ∷ 3 ∷ 4 ∷ 5 ∷ 6 ∷ []

-- The loop of `pickPrimary` over the priorities.
unfoldable pub first_by_priority : List ℕ → List Finding → Option Finding
first_by_priority [] fs = none
first_by_priority (k ∷ ks) fs = elim (find (λ f. priority f.stance == k) fs) [
  | some f ↦ some f
  | none ↦ first_by_priority ks fs
]

-- `pickPrimary`
unfoldable pub pick_primary : List Finding → Option Finding
unfolding first_by_priority
pick_primary [] = none
pick_primary (f ∷ fs) = some (or_else (first_by_priority primary_priority (f ∷ fs)) f)

-- What of `makeReport` is not copied from the arguments.
pub record Report : Type 0 where
  pub mode : Mode
  pub home : Text
  pub primary : Option String
  pub stance_summary : StanceSummary
  pub findings : List Finding
  pub boundaries : List Boundary

unfoldable pub make_report : Text → Mode → List Finding → Report
make_report home mode findings = record {
  mode = mode;
  home = home;
  primary = elim (pick_primary findings) [ none ↦ none | some f ↦ some f.id ];
  stance_summary = count_stances findings;
  findings = findings;
  boundaries = collect_boundaries findings;
}

-- `home.clean`, where no output is left.
abbrev pub or_clean : List DetectorOutput → DetectorOutput → List DetectorOutput
or_clean [] clean = clean ∷ []
or_clean (o ∷ os) clean = o ∷ os

-- The outputs that `push` keeps.
unfoldable pub kept_outputs :
    List String → List DetectorOutput → DetectorOutput → List DetectorOutput
kept_outputs selected outputs clean = or_clean (filter (λ o. includes o.id selected) outputs) clean

-- `detectHomeNotFound`; the text of its evidence is left without the path.
abbrev pub home_not_found : Text → DetectorOutput
home_not_found home = record {
  id = "home.not_found";
  finding_class = integrity;
  surface = some (record default_surface {
    surface_class = SurfaceClass.external_reference;
    owner_class = OwnerClass.user_owned;
    execution_class = ExecutionClass.inert;
    rollback_class = RollbackClass.not_applicable;
    scope_class = ScopeClass.in_scope;
    confidence = high;
  });
  surface_hints = record {
    home = none;
    loaded = false;
    is_plugin_cache_version_dir = false;
    is_hook_command = false;
    is_mcp_command = false;
  };
  evidence = record {
    structural = "requested home does not exist or is not a directory" ∷ [];
    loader = [];
    behavioral = [];
    ownership = [];
    freshness = [];
    reversibility = [];
    missing = [];
    conflicting = false;
  };
  missing_keys = "accessible Claude home directory" ∷ [];
  target_path = home;
  summary = "Claude home directory was not found";
  claim_level = none;
  next_allowed_step = some "verify --home value or create the directory before re-running";
  blocked_actions =
      some ("dependent inference" ∷ "settings parsing" ∷ "plugin scan" ∷ "operations scan" ∷ []);
  force_stance = some StanceName.block;
  hardenable = false;
  cleanable = false;
  history_available = none;
}

-- What `assembleReport` reads of the home: whether it is there, its rules and markers, what the
-- detectors return, and what `detectHomeClean` does.
pub record Home : Type 0 where
  pub path : Text
  pub is_there : Bool
  pub rules : List ProtectionRule
  pub markers : String → Text → ℕ
  pub outputs : List DetectorOutput
  pub clean : DetectorOutput

-- `earlyReport`
unfoldable pub early_report : Home → Mode → Report
early_report h mode =
    make_report h.path mode
      (build_finding h.path mode (λ t. []) (λ i t. 0) (home_not_found h.path) ∷ [])

-- `assembleReport`; `none` is the error of an unknown scope.
unfoldable pub assemble_report : Home → String → Mode → Option Report
unfolding early_report make_report
assemble_report h scope mode = elim (selected_detectors scope) [
  | none ↦ none
  | some selected ↦
      if h.is_there
      then some (
          make_report h.path mode (
            map (build_finding h.path mode (collect_policy_matches h.path h.rules) h.markers)
              (kept_outputs selected h.outputs h.clean)))
      else some (early_report h mode)
]
