-- ===== src/Findings.antt =====
-- The argument of `decideStance` in scripts/lib/stance.mjs, and the tests on its class names.
use claude_housekeeper.Base.{Bool, true, false, String, Option, none, some, List, any, str_eq}
use claude_housekeeper.Contracts.{
  Surface, Evidence, PolicyMatch, PolicyType, SurfaceClass, OwnerClass, LoadBearingClass,
  SensitivityClass, ExecutionClass, RollbackClass, ScopeClass,
}

pub data Mode : Type 0 where
  diagnose safe plan : Mode

pub data FindingClass : Type 0 where
  integrity hygiene shadow divergence behavioral contamination loader orientation : FindingClass

-- The argument of `decideStance`.
pub record Args : Type 0 where
  pub surface : Option Surface
  pub evidence : Evidence
  pub missing_keys : List String
  pub matches : List PolicyMatch
  pub mode : Mode
  pub finding_class : FindingClass
  pub consent_granted : Bool

-- A test of a field of `args.surface || {}`.
abbrev pub on_surface : (Surface → Bool) → Option Surface → Bool
on_surface p none = false
on_surface p (some s) = p s

abbrev pub is_do_not_touch : PolicyType → Bool
is_do_not_touch PolicyType.do_not_touch = true
is_do_not_touch _ = false

abbrev pub is_secret_content : SensitivityClass → Bool
is_secret_content SensitivityClass.secret_content = true
is_secret_content _ = false

abbrev pub is_boundary : ScopeClass → Bool
is_boundary ScopeClass.sector_boundary = true
is_boundary ScopeClass.parent_contains_boundary = true
is_boundary _ = false

abbrev pub is_out_of_scope : ScopeClass → Bool
is_out_of_scope ScopeClass.out_of_scope = true
is_out_of_scope _ = false

abbrev pub is_unknown_owner : OwnerClass → Bool
is_unknown_owner OwnerClass.unknown = true
is_unknown_owner _ = false

abbrev pub is_checkpoint_only : RollbackClass → Bool
is_checkpoint_only RollbackClass.checkpoint_only = true
is_checkpoint_only _ = false

abbrev pub is_snapshot_possible : RollbackClass → Bool
is_snapshot_possible RollbackClass.snapshot_possible = true
is_snapshot_possible _ = false

abbrev pub is_manifest_backed : RollbackClass → Bool
is_manifest_backed RollbackClass.manifest_backed = true
is_manifest_backed _ = false

abbrev pub is_secret_surface : SurfaceClass → Bool
is_secret_surface SurfaceClass.secret_adjacent = true
is_secret_surface _ = false

abbrev pub is_secret_adjacent : SensitivityClass → Bool
is_secret_adjacent SensitivityClass.secret_adjacent = true
is_secret_adjacent _ = false

abbrev pub is_shell_risk : ExecutionClass → Bool
is_shell_risk ExecutionClass.shell_expansion_risk = true
is_shell_risk _ = false

abbrev pub is_possibly_load_bearing : LoadBearingClass → Bool
is_possibly_load_bearing LoadBearingClass.possibly_load_bearing = true
is_possibly_load_bearing _ = false

abbrev pub is_safe : Mode → Bool
is_safe safe = true
is_safe _ = false

abbrev pub is_intent_class : FindingClass → Bool
is_intent_class shadow = true
is_intent_class divergence = true
is_intent_class _ = false

abbrev pub is_integrity : FindingClass → Bool
is_integrity integrity = true
is_integrity _ = false

-- `keys.includes(key)`
abbrev pub includes : String → List String → Bool
includes key keys = any (str_eq key) keys

-- `(policy.matches || []).find((m) => m && m.type === "doNotTouch")`
