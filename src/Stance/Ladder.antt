-- ===== src/Stance/Ladder.antt =====
-- What each part of the ladder in scripts/lib/stance.mjs adds to the stance of the parts below it.
use claude_housekeeper.Base.{◌≡◌, ◌⊎◌, Bool, true, false, not, ◌&&◌, ◌||◌, arith, is_some}
use claude_housekeeper.Contracts.{Stance, StanceName}
use claude_housekeeper.Stance.{
  do_not_touch_match, hard_protect, hard_block, protect_or_block, probe_steps, review_to_inform,
  decide_stance_core,
}
use claude_housekeeper.Findings.{
  Args, on_surface, is_boundary, is_secret_content, is_secret_surface, is_secret_adjacent,
  is_out_of_scope, is_unknown_owner, is_checkpoint_only, is_snapshot_possible, is_manifest_backed,
  is_integrity, is_safe, is_shell_risk, is_possibly_load_bearing, includes,
}

-- A policy, content or boundary rule of §5 that protects whatever else holds.
abbrev pub must_protect : Args → Bool
must_protect a =
    is_some (do_not_touch_match a.matches)
    || on_surface (λ s. is_secret_content s.sensitivity_class) a.surface
    || on_surface (λ s. is_boundary s.scope_class) a.surface

-- A rule of §5 that blocks.
abbrev pub must_block : Args → Bool
must_block a =
    on_surface (λ s. is_out_of_scope s.scope_class) a.surface
    || on_surface (λ s. is_unknown_owner s.owner_class) a.surface
    || on_surface (λ s. is_checkpoint_only s.rollback_class) a.surface
    || a.evidence.conflicting

abbrev pub is_secret_class : Args → Bool
is_secret_class a =
    on_surface (λ s. is_secret_surface s.surface_class || is_secret_adjacent s.sensitivity_class)
      a.surface

-- A live key is missing: in safe mode, or on a surface that may bear load.
abbrev pub lacks_live_key : Args → Bool
lacks_live_key a =
    is_safe a.mode
      && (includes "loader-key" a.missing_keys || includes "behavioral-key" a.missing_keys)
    || on_surface (λ s. is_possibly_load_bearing s.load_bearing_class) a.surface
      && includes "behavioral-key" a.missing_keys

abbrev pub is_patchable : Args → Bool
is_patchable a =
    on_surface (λ s. is_snapshot_possible s.rollback_class) a.surface
    && is_integrity a.finding_class
    && not (includes "patch-target" a.missing_keys)

abbrev pub is_repairable : Args → Bool
is_repairable a =
    a.consent_granted && on_surface (λ s. is_manifest_backed s.rollback_class) a.surface

-- Whether a stance asks the user before anything else happens.
abbrev pub asks_user : StanceName → Bool
asks_user StanceName.probe = true
asks_user StanceName.review = true
asks_user StanceName.prepare = true
asks_user _ = false

module _ (a : Args) (next : Stance) where
  pub hard_protect_cases :
      ((must_protect a ≡ true) × ((hard_protect a next).stance ≡ StanceName.protect))
      ⊎ ((must_protect a ≡ false) × (hard_protect a next ≡ next))
  unfolding hard_protect
  hard_protect_cases = ground arith

  pub hard_block_cases :
      ((must_block a ≡ true) × ((hard_block a next).stance ≡ StanceName.block))
      ⊎ ((must_block a ≡ false) × (hard_block a next ≡ next))
  unfolding hard_block
  hard_block_cases = ground arith

  pub protect_or_block_cases :
      ((is_secret_class a ≡ true) × ((protect_or_block a next).stance ≡ StanceName.protect))
      ⊎ ((is_secret_class a ≡ false)
          × (includes "rollback-proof" a.missing_keys ≡ true)
          × ((protect_or_block a next).stance ≡ StanceName.block))
      ⊎ ((is_secret_class a ≡ false)
          × (includes "rollback-proof" a.missing_keys ≡ false)
          × (protect_or_block a next ≡ next))
  unfolding protect_or_block
  protect_or_block_cases = ground arith

  pub probe_steps_cases :
      (((probe_steps a next).stance ≡ StanceName.probe)
        × ((probe_steps a next).user_decision_needed ≡ true))
      ⊎ ((lacks_live_key a ≡ false)
          × (on_surface (λ s. is_shell_risk s.execution_class) a.surface ≡ false)
          × (probe_steps a next ≡ next))
  unfolding probe_steps
  probe_steps_cases = ground arith

-- The stances that the end of the ladder gives.
abbrev pub IsClearedStance : Args → Stance → Type 0
IsClearedStance a s =
    ((s.stance ≡ StanceName.review) × (s.user_decision_needed ≡ true))
    ⊎ ((s.stance ≡ StanceName.prepare) × (s.user_decision_needed ≡ true) × (is_patchable a ≡ true))
    ⊎ ((s.stance ≡ StanceName.repair) × (is_repairable a ≡ true))
    ⊎ (s.stance ≡ StanceName.watch)
    ⊎ (s.stance ≡ StanceName.inform)

-- No protecting, blocking or probing rule applies.
pub record IsCleared (a : Args) : Type 0 where
  pub unprotected : must_protect a ≡ false
  pub unblocked : must_block a ≡ false
  pub not_secret : is_secret_class a ≡ false
  pub reversible : includes "rollback-proof" a.missing_keys ≡ false
  pub live : lacks_live_key a ≡ false
  pub unambiguous : on_surface (λ s. is_shell_risk s.execution_class) a.surface ≡ false

-- The end of the ladder, where nothing above it returned.
pub review_to_inform_cases : (a : Args) → IsClearedStance a (review_to_inform a)
unfolding review_to_inform
review_to_inform_cases a = ground arith

-- One case for each way through the ladder.
pub decide_stance_core_cases :
    (a : Args)
    → let s = decide_stance_core a in
      ((must_protect a ≡ true) × (s.stance ≡ StanceName.protect))
      ⊎ ((must_protect a ≡ false) × (must_block a ≡ true) × (s.stance ≡ StanceName.block))
      ⊎ ((must_protect a ≡ false)
          × (must_block a ≡ false)
          × (is_secret_class a ≡ true)
          × (s.stance ≡ StanceName.protect))
      ⊎ ((must_protect a ≡ false)
          × (must_block a ≡ false)
          × (is_secret_class a ≡ false)
          × (includes "rollback-proof" a.missing_keys ≡ true)
          × (s.stance ≡ StanceName.block))
      ⊎ ((must_protect a ≡ false)
          × (must_block a ≡ false)
          × (is_secret_class a ≡ false)
          × (s.stance ≡ StanceName.probe)
          × (s.user_decision_needed ≡ true))
      ⊎ (IsCleared a × IsClearedStance a s)
unfolding decide_stance_core
decide_stance_core_cases a = ground (
  arith,
  hard_protect_cases a (hard_block a (protect_or_block a (probe_steps a (review_to_inform a)))),
  hard_block_cases a (protect_or_block a (probe_steps a (review_to_inform a))),
  protect_or_block_cases a (probe_steps a (review_to_inform a)),
  probe_steps_cases a (review_to_inform a),
  review_to_inform_cases a,
)
