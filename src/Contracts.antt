-- ===== src/Contracts.antt =====
-- scripts/lib/contracts.mjs: the plain objects that the other modules exchange. The class names of
-- docs/surface-classification-spec.md are data types; an absent `opts` field is `none`.
use claude_housekeeper.Base.{[], ℕ, Bool, String, Option, List}

-- A text that the program walks, such as a path: its character codes.
abbrev pub Text : Type 0
Text = List ℕ

pub data SurfaceClass : Type 0 where
  authored_config claude_app_data executable_surface secret_adjacent housekeeper_owned
        external_reference unknown :
      SurfaceClass

pub data OwnerClass : Type 0 where
  user_owned project_owned team_managed plugin_owned claude_managed housekeeper_owned shared
        unknown :
      OwnerClass

pub data LoadBearingClass : Type 0 where
  known_load_bearing possibly_load_bearing historically_load_bearing not_load_bearing unknown :
      LoadBearingClass

pub data SensitivityClass : Type 0 where
  public_structure private_path secret_adjacent secret_content regulated_or_personal unknown :
      SensitivityClass

pub data ExecutionClass : Type 0 where
  inert starts_process runs_hook starts_mcp runs_plugin_code shell_expansion_risk network_risk
        known_execution_context unknown :
      ExecutionClass

pub data RollbackClass : Type 0 where
  manifest_backed snapshot_possible native_reversible checkpoint_only external_side_effects
        irreversible not_applicable unknown :
      RollbackClass

pub data ScopeClass : Type 0 where
  in_scope protected sector_boundary parent_contains_boundary out_of_scope unknown : ScopeClass

pub data Confidence : Type 0 where
  low medium high : Confidence

-- `SurfaceClassification`
pub record Surface : Type 0 where
  pub surface_class : SurfaceClass
  pub owner_class : OwnerClass
  pub load_bearing_class : LoadBearingClass
  pub sensitivity_class : SensitivityClass
  pub execution_class : ExecutionClass
  pub rollback_class : RollbackClass
  pub scope_class : ScopeClass
  pub confidence : Confidence
  pub limits : List String

-- `makeSurfaceClassification()` with no options
abbrev pub default_surface : Surface
default_surface = record {
  surface_class = SurfaceClass.unknown;
  owner_class = OwnerClass.unknown;
  load_bearing_class = LoadBearingClass.unknown;
  sensitivity_class = SensitivityClass.unknown;
  execution_class = ExecutionClass.unknown;
  rollback_class = RollbackClass.unknown;
  scope_class = ScopeClass.unknown;
  confidence = medium;
  limits = [];
}

-- `EvidenceSet`; `conflicting` is the extra key that the stance engine reads
pub record Evidence : Type 0 where
  pub structural : List String
  pub loader : List String
  pub behavioral : List String
  pub ownership : List String
  pub freshness : List String
  pub reversibility : List String
  pub missing : List String
  pub conflicting : Bool

pub data StanceName : Type 0 where
  inform watch review probe protect prepare repair block : StanceName

-- the payload of `makeStance`
pub record Stance : Type 0 where
  pub stance : StanceName
  pub why : String
  pub missing_key : Option String
  pub next_allowed_step : String
  pub not_allowed : String
  pub user_decision_needed : Bool

pub data PolicyType : Type 0 where
  do_not_touch allowance standing_consent : PolicyType

-- `makePolicyMatch`, whose fields the callers give
pub record PolicyMatch : Type 0 where
  pub type : PolicyType
  pub pattern : Text
  pub path : Text
  pub reason : String
  pub scope : String
  pub effect : String
