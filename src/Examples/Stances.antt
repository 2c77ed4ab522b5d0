-- ===== src/Examples/Stances.antt =====
-- Inputs of the stance engine in scripts/lib/stance.mjs.
use claude_housekeeper.Base.{[], ◌≡◌, ◌⊎◌, ◌↔◌, refl, true, false, some, ◌∷◌}
use claude_housekeeper.Contracts.{
  Surface, Evidence, StanceName, SurfaceClass, OwnerClass, LoadBearingClass, SensitivityClass,
  ExecutionClass, RollbackClass, ScopeClass, high, default_surface,
}
use claude_housekeeper.Stance.{
  decide_stance, decide_stance_core, hard_protect, hard_block, protect_or_block, probe_steps,
  review_to_inform, degrade_repair,
}
use claude_housekeeper.Findings.{Args, diagnose, safe, integrity, hygiene}
use claude_housekeeper.Stance.Ladder.{
  must_protect, must_block, is_secret_class, is_patchable, is_repairable, IsCleared,
}
use claude_housekeeper.Stance.Safety.{prepare-IsCleared, protect_iff}

abbrev no_evidence : Evidence
no_evidence = record {
  structural = [];
  loader = [];
  behavioral = [];
  ownership = [];
  freshness = [];
  reversibility = [];
  missing = [];
  conflicting = false;
}

-- A settings file, as the classifier describes it.
abbrev settings_surface : Surface
settings_surface = record default_surface {
  surface_class = SurfaceClass.authored_config;
  owner_class = OwnerClass.user_owned;
  load_bearing_class = LoadBearingClass.known_load_bearing;
  sensitivity_class = SensitivityClass.private_path;
  execution_class = ExecutionClass.inert;
  rollback_class = RollbackClass.snapshot_possible;
  scope_class = ScopeClass.in_scope;
  confidence = high;
}

-- An integrity finding on the settings file, with a known patch target.
abbrev settings_finding : Args
settings_finding = record {
  surface = some settings_surface;
  evidence = no_evidence;
  missing_keys = [];
  matches = [];
  mode = diagnose;
  finding_class = integrity;
  consent_granted = false;
}

-- The same, in safe mode and without the loader key.
abbrev unproved_finding : Args
unproved_finding = record settings_finding { mode = safe; missing_keys = "loader-key" ∷ [] }

-- A consented finding on a surface with manifest-backed rollback.
abbrev consented_finding : Args
consented_finding = record settings_finding {
  surface = some (record settings_surface { rollback_class = RollbackClass.manifest_backed });
  finding_class = hygiene;
  consent_granted = true;
}

abbrev secret_finding : Args
secret_finding = record settings_finding {
  surface = some (record settings_surface { sensitivity_class = SensitivityClass.secret_content });
}

decide_stance_tests :
    ((decide_stance settings_finding).stance ≡ StanceName.prepare)
    × ((decide_stance unproved_finding).stance ≡ StanceName.probe)
    × ((decide_stance unproved_finding).missing_key ≡ some "loader-key")
    × ((decide_stance consented_finding).stance ≡ StanceName.prepare)
    × ((decide_stance consented_finding).missing_key ≡ some "v0.4 rollback infrastructure")
    × ((decide_stance secret_finding).stance ≡ StanceName.protect)
unfolding decide_stance decide_stance_core hard_protect hard_block protect_or_block probe_steps
    review_to_inform degrade_repair
decide_stance_tests = (refl, refl, refl, refl, refl, refl)

prepare-IsCleared_example :
    IsCleared consented_finding
    × ((is_patchable consented_finding ≡ true) ⊎ (is_repairable consented_finding ≡ true))
unfolding decide_stance decide_stance_core hard_protect hard_block protect_or_block probe_steps
    review_to_inform degrade_repair
prepare-IsCleared_example = prepare-IsCleared consented_finding refl

protect_iff_example : ((decide_stance secret_finding).stance ≡ StanceName.protect) ↔ (
    (must_protect secret_finding ≡ true)
    ⊎ ((must_block secret_finding ≡ false) × (is_secret_class secret_finding ≡ true)))
protect_iff_example = protect_iff secret_finding
