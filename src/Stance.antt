-- ===== src/Stance.antt =====
-- scripts/lib/stance.mjs: the stance engine. `decide_stance_core` is one long function in the source;
-- here its hard overrides (§5) and its decision order (§4) are a definition each, where every branch
-- that does not return goes on to the next definition. A missing `args.surface` is `none`, whose fields
-- equal no class name.
pub mod Ladder
pub mod Safety
use claude_housekeeper.Findings.{
  Args, on_surface, is_do_not_touch, is_secret_content, is_boundary, is_out_of_scope,
  is_unknown_owner, is_checkpoint_only, is_snapshot_possible, is_manifest_backed, is_secret_surface,
  is_secret_adjacent, is_shell_risk, is_possibly_load_bearing, is_safe, is_intent_class,
  is_integrity, includes, plan, behavioral,
}
use claude_housekeeper.Base.{
  Bool, true, false, not, ◌&&◌, ◌||◌, String, Option, none, some, List, find, if◌then◌else◌, str_eq,
}
use claude_housekeeper.Contracts.{Stance, StanceName, PolicyMatch}
use Prim.Native.String.{◌++◌ as join_text}

unfoldable pub do_not_touch_match : List PolicyMatch → Option PolicyMatch
do_not_touch_match ms = find (λ m. is_do_not_touch m.type) ms

-- Steps of the ladder that return a stance hide the rest of it.
unfoldable pub hard_protect : Args → Stance → Stance
unfolding do_not_touch_match
hard_protect a next = elim (do_not_touch_match a.matches) [
  | some m ↦ record {
    stance = StanceName.protect;
    why =
        join_text "do-not-touch policy: " (if str_eq m.reason "" then "user policy" else m.reason);
    missing_key = none;
    next_allowed_step = "report-only";
    not_allowed = "Do not plan, mutate, or probe.";
    user_decision_needed = false;
  }
  | none ↦
      if on_surface (λ s. is_secret_content s.sensitivity_class) a.surface
      then record {
        stance = StanceName.protect;
        why = "secret content; boundary notice only";
        missing_key = none;
        next_allowed_step = "boundary-notice";
        not_allowed = "Do not display content, mutate, or probe.";
        user_decision_needed = false;
      }
      else if on_surface (λ s. is_boundary s.scope_class) a.surface
      then record {
        stance = StanceName.protect;
        why = "sector boundary";
        missing_key = none;
        next_allowed_step = "report-only";
        not_allowed = "Do not act across the boundary without a narrow exception.";
        user_decision_needed = false;
      }
      else next
]

unfoldable pub hard_block : Args → Stance → Stance
hard_block a next =
    if on_surface (λ s. is_out_of_scope s.scope_class) a.surface
    then record {
      stance = StanceName.block;
      why = "path is outside declared scope";
      missing_key = some "scope expansion or owner authorization";
      next_allowed_step = "user-decision-needed";
      not_allowed = "Do not act on out-of-scope paths.";
      user_decision_needed = true;
    }
    else if on_surface (λ s. is_unknown_owner s.owner_class) a.surface
    then record {
      stance = StanceName.block;
      why = "unknown owner";
      missing_key = some "ownership evidence";
      next_allowed_step = "user-decision-needed";
      not_allowed = "Do not act without ownership.";
      user_decision_needed = true;
    }
    else if on_surface (λ s. is_checkpoint_only s.rollback_class) a.surface
    then record {
      stance = StanceName.block;
      why = "rollback would rely on Claude checkpoint only";
      missing_key = some "manifest-backed rollback proof";
      next_allowed_step = "report-only";
      not_allowed = "Do not mutate based on checkpoint-only rollback.";
      user_decision_needed = false;
    }
    else if a.evidence.conflicting
    then record {
      stance = StanceName.block;
      why = "conflicting evidence";
      missing_key = some "evidence reconciliation";
      next_allowed_step = "user-decision-needed";
      not_allowed = "Do not act while evidence disagrees.";
      user_decision_needed = true;
    }
    else next

-- `protect` by classification, then `block` for a missing rollback proof.
unfoldable pub protect_or_block : Args → Stance → Stance
protect_or_block a next =
    if on_surface (λ s. is_secret_surface s.surface_class || is_secret_adjacent s.sensitivity_class)
      a.surface
    then record {
      stance = StanceName.protect;
      why = "secret-adjacent surface";
      missing_key = none;
      next_allowed_step = "report-only";
      not_allowed = "Do not display content or mutate.";
      user_decision_needed = false;
    }
    else if includes "rollback-proof" a.missing_keys
    then record {
      stance = StanceName.block;
      why = "missing rollback proof";
      missing_key = some "rollback-proof";
      next_allowed_step = "report-only";
      not_allowed = "Do not mutate without rollback evidence.";
      user_decision_needed = false;
    }
    else next

abbrev pub is_live_key : String → Bool
is_live_key k = str_eq k "loader-key" || str_eq k "behavioral-key"

unfoldable pub probe_steps : Args → Stance → Stance
probe_steps a next =
    if is_safe a.mode
      && (includes "loader-key" a.missing_keys || includes "behavioral-key" a.missing_keys)
    then record {
      stance = StanceName.probe;
      why = "safe mode cannot prove live behavior";
      missing_key = find is_live_key a.missing_keys;
      next_allowed_step = "Run a live probe after consent.";
      not_allowed = "Do not mutate or claim broken without a live key.";
      user_decision_needed = true;
    }
    else if on_surface (λ s. is_shell_risk s.execution_class) a.surface
    then record {
      stance = StanceName.probe;
      why = "shell parse is ambiguous";
      missing_key = some "loader or hook debug evidence";
      next_allowed_step = "Run a live hook probe after consent.";
      not_allowed = "Do not patch or delete based on this string alone.";
      user_decision_needed = true;
    }
    else if on_surface (λ s. is_possibly_load_bearing s.load_bearing_class) a.surface
        && includes "behavioral-key" a.missing_keys
    then record {
      stance = StanceName.probe;
      why = "possibly load-bearing; behavioral key not yet collected";
      missing_key = some "behavioral-key";
      next_allowed_step = "Run a live probe after consent.";
      not_allowed = "Do not act on this surface alone.";
      user_decision_needed = true;
    }
    else next

unfoldable pub review_to_inform : Args → Stance
review_to_inform a =
    if is_intent_class a.finding_class
    then record {
      stance = StanceName.review;
      why = "user intent may have produced this state";
      missing_key = some "user-intent";
      next_allowed_step = "review-required";
      not_allowed = "Do not mutate without explicit consent.";
      user_decision_needed = true;
    }
    else if on_surface (λ s. is_snapshot_possible s.rollback_class) a.surface
        && is_integrity a.finding_class
        && not (includes "patch-target" a.missing_keys)
    then record {
      stance = StanceName.prepare;
      why = "patch target known and rollback is snapshot-possible";
      missing_key = none;
      next_allowed_step = "patch-preview";
      not_allowed = "Do not mutate before approval.";
      user_decision_needed = true;
    }
    else if a.consent_granted && on_surface (λ s. is_manifest_backed s.rollback_class) a.surface
    then record {
      stance = StanceName.repair;
      why = "consent granted and manifest-backed rollback present";
      missing_key = none;
      next_allowed_step = "apply-with-snapshot";
      not_allowed = "Do not exceed approved patch.";
      user_decision_needed = false;
    }
    else if includes "within-grace-period" a.evidence.freshness
    then record {
      stance = StanceName.watch;
      why = "within documented grace period";
      missing_key = none;
      next_allowed_step = "no-action-now";
      not_allowed = "Do not act yet.";
      user_decision_needed = false;
    }
    else record {
      stance = StanceName.inform;
      why = "informational only";
      missing_key = none;
      next_allowed_step = "no-action-recommended";
      not_allowed = "";
      user_decision_needed = false;
    }

-- `decideStanceCore`
unfoldable pub decide_stance_core : Args → Stance
decide_stance_core a =
    hard_protect a (hard_block a (protect_or_block a (probe_steps a (review_to_inform a))))

-- The §13 degradation: `repair` is re-mapped to `prepare`.
unfoldable pub degrade_repair : StanceName → Stance → Stance
degrade_repair StanceName.repair s = record {
  stance = StanceName.prepare;
  why = s.why;
  missing_key = some "v0.4 rollback infrastructure";
  next_allowed_step = "deferred until v0.4 rollback infrastructure";
  not_allowed = s.not_allowed;
  user_decision_needed = true;
}
degrade_repair _ s = s

-- `decideStance`
unfoldable pub decide_stance : Args → Stance
unfolding degrade_repair
decide_stance a = let s = decide_stance_core a in degrade_repair s.stance s
