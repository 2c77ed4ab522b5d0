-- ===== src/Stance/Safety.antt =====
-- What a stance of scripts/lib/stance.mjs permits, and when.
use claude_housekeeper.Base.{◌≡◌, ◌≢◌, ◌↔◌, ◌⊎◌, true, false, arith}
use claude_housekeeper.Contracts.{StanceName}
use claude_housekeeper.Stance.{decide_stance}
use claude_housekeeper.Findings.{Args}
use claude_housekeeper.Stance.Ladder.{
  must_protect, must_block, is_secret_class, is_patchable, is_repairable, asks_user, IsCleared,
  decide_stance_core_cases,
}

-- Whatever the arguments, the engine never returns the stance `repair`.
decide_stance-ne-repair : (a : Args) → (decide_stance a).stance ≢ StanceName.repair
unfolding decide_stance
decide_stance-ne-repair a = ground arith

-- The engine says `prepare` only where no protecting, blocking or probing rule applies and the
-- finding is patchable, or repairable with consent.
pub prepare-IsCleared :
    (a : Args)
    → (decide_stance a).stance ≡ StanceName.prepare
    → IsCleared a × ((is_patchable a ≡ true) ⊎ (is_repairable a ≡ true))
unfolding decide_stance
prepare-IsCleared a h = ground (arith, decide_stance_core_cases a)

-- The engine says `protect` exactly when a §5 rule protects the surface, or when the surface is
-- secret-adjacent and no §5 rule blocks.
pub protect_iff :
    (a : Args)
    → ((decide_stance a).stance ≡ StanceName.protect)
      ↔ ((must_protect a ≡ true) ⊎ ((must_block a ≡ false) × (is_secret_class a ≡ true)))
unfolding decide_stance
protect_iff a = ground (arith, decide_stance_core_cases a)

-- A stance that leads to a probe, a review or a patch always asks the user first.
asks_user_lem :
    (a : Args)
    → asks_user (decide_stance a).stance ≡ true
    → (decide_stance a).user_decision_needed ≡ true
unfolding decide_stance
asks_user_lem a h = ground (arith, decide_stance_core_cases a)
