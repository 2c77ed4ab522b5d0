-- ===== src/Audit.antt =====
-- scripts/lib/audit.mjs: the assembly of a report. `assembleReport` runs the detectors in a fixed order;
-- their outputs, in that order, are an argument. The false-positive markers are a count by detector and
-- path.
use Prim.Native.String.{◌++◌ as join_text}
use claude_housekeeper.Base.{
  ℕ, zero, suc, Bool, true, false, ◌&&◌, String, Option, none, some, List, [], ◌∷◌, ◌++◌, find,
  if◌then◌else◌, or_else, str_eq,
}
use claude_housekeeper.Contracts.{
  Text, Surface, Evidence, Stance, StanceName, PolicyMatch, do_not_touch,
}
use claude_housekeeper.Posix.{codes, starts_with, text_eq}
use claude_housekeeper.Policy.{ProtectionRule, path_matches_protection, has_path, text_or}
use claude_housekeeper.Findings.{Args, Mode, FindingClass, is_safe, includes}
use claude_housekeeper.Stance.{decide_stance}
use claude_housekeeper.Surface.{classify_surface}
use claude_housekeeper.SecretNames.{contains_any}
use claude_housekeeper.Detectors.{
  DetectorOutput, Probe, probe_catalog, mcp_probe, debug_hooks_probe, safe_mode_limits, lookup,
}

-- `makeFinding`, with the fields that `buildFinding` adds.
pub record Finding : Type 0 where
  pub id : String
  pub finding_class : FindingClass
  pub claim_level : String
  pub stance : StanceName
  pub summary : String
  pub surface : Surface
  pub evidence : Evidence
  pub next_allowed_step : String
  pub blocked_actions : List String
  pub why : String
  pub missing_key : Option String
  pub not_allowed : String
  pub user_decision_needed : Bool
  pub target_path : Text
  pub policy_matches : List PolicyMatch
  pub proposed_probe : Option Probe
  pub hardenable : Bool
  pub cleanable : Bool
  pub history_available : Option Bool
  pub false_positive_seen_before : Option ℕ

-- `applySafeModeLimits`
unfoldable pub apply_safe_mode_limits : Surface → Mode → String → Surface
apply_safe_mode_limits surface mode id =
    if is_safe mode
    then elim (lookup id safe_mode_limits) [
      | none ↦ surface
      | some limit ↦
          if includes limit surface.limits
          then surface
          else record surface { limits = surface.limits ++ (limit ∷ []) }
    ]
    else surface

abbrev pub without_consent : List String
without_consent = "mutate-without-consent" ∷ "claim-fixed" ∷ []

-- The last test of `defaultBlockedActions`.
abbrev pub plugin_blocked_actions : String → List String
plugin_blocked_actions id =
    if starts_with (codes id) (codes "plugin.")
    then "call unused" ∷ "delete" ∷ "quarantine" ∷ []
    else []

-- `defaultBlockedActions`
unfoldable pub default_blocked_actions : String → StanceName → List String
default_blocked_actions id StanceName.block = without_consent
default_blocked_actions id StanceName.protect = []
default_blocked_actions id StanceName.prepare = without_consent
default_blocked_actions id StanceName.probe = without_consent
default_blocked_actions id _ = plugin_blocked_actions id

-- `pickProbeMetadata`, on the fields of a finding that it reads
unfoldable pub pick_probe_metadata : String → String → Option String → String → Option Probe
pick_probe_metadata id next_step missing_key why =
    if str_eq id "settings.hook_command_shell_ambiguous"
    then some debug_hooks_probe
    else if str_eq id "settings.mcp_command_missing"
    then some mcp_probe
    else (let text =
          join_text next_step
            (join_text " " (join_text (or_else missing_key "") (join_text " " why))) in
        find (λ p. contains_any (codes p.reference ∷ []) (codes text)) probe_catalog)

-- `raw.forceStance || stance.stance`, and `repair` turned into `prepare`
abbrev pub degraded : StanceName → StanceName
degraded StanceName.repair = StanceName.prepare
degraded s = s

-- The surface of a detector's output.
unfoldable pub surface_of : Text → Mode → DetectorOutput → Surface
unfolding apply_safe_mode_limits
surface_of home mode raw =
    apply_safe_mode_limits
      (or_else raw.surface
        (classify_surface raw.target_path (record raw.surface_hints { home = some home })))
      mode raw.id

-- `makeEvidenceSet({ ...raw.evidence, missing })`, which keeps its own seven fields and drops the rest.
abbrev pub evidence_of : DetectorOutput → Evidence
evidence_of raw = record raw.evidence { missing = raw.missing_keys; conflicting = false }

-- What `buildFinding` passes to `decideStance`: `findingClass`, and no consent.
unfoldable pub args_of : Text → Mode → List PolicyMatch → DetectorOutput → Args
unfolding surface_of
args_of home mode matches raw = record {
  surface = some (surface_of home mode raw);
  evidence = evidence_of raw;
  missing_keys = raw.missing_keys;
  matches = matches;
  mode = mode;
  finding_class = raw.finding_class;
  consent_granted = false;
}

abbrev pub is_inform : StanceName → Bool
is_inform StanceName.inform = true
is_inform _ = false

abbrev pub seen_before : ℕ → Option ℕ
seen_before zero = none
seen_before (suc n) = some (suc n)

-- The policy matches that `buildFinding` asks for; a path that is empty has none.
abbrev pub matches_of : (Text → List PolicyMatch) → Text → List PolicyMatch
matches_of policy_matches_for p = if text_eq p [] then [] else policy_matches_for p

-- The finding for a stance that was decided.
unfoldable pub make_finding :
    Text → Mode → List PolicyMatch → (String → Text → ℕ) → DetectorOutput → Stance → Finding
make_finding home mode matches markers raw s =
    let stance = degraded (or_else raw.force_stance s.stance) in
    let next_step = text_or raw.next_allowed_step (text_or (some s.next_allowed_step) "none") in
    record {
      id = raw.id;
      finding_class = raw.finding_class;
      claim_level = text_or raw.claim_level (if is_inform stance then "observation" else "finding");
      stance = stance;
      summary = raw.summary;
      surface = surface_of home mode raw;
      evidence = evidence_of raw;
      next_allowed_step = next_step;
      blocked_actions = or_else raw.blocked_actions (default_blocked_actions raw.id stance);
      why = s.why;
      missing_key = s.missing_key;
      not_allowed = s.not_allowed;
      user_decision_needed = s.user_decision_needed;
      target_path = raw.target_path;
      policy_matches = matches;
      proposed_probe = pick_probe_metadata raw.id next_step s.missing_key s.why;
      hardenable = raw.hardenable;
      cleanable = raw.cleanable;
      history_available = raw.history_available;
      false_positive_seen_before = seen_before (markers raw.id raw.target_path);
    }

-- `buildFinding`
unfoldable pub build_finding :
    Text → Mode → (Text → List PolicyMatch) → (String → Text → ℕ) → DetectorOutput → Finding
unfolding make_finding
build_finding home mode policy_matches_for markers raw =
    let matches = matches_of policy_matches_for raw.target_path in
    make_finding home mode matches markers raw (decide_stance (args_of home mode matches raw))

-- `collectPolicyMatches`
unfoldable pub collect_policy_matches : Text → List ProtectionRule → Text → List PolicyMatch
collect_policy_matches home [] target = []
collect_policy_matches home (r ∷ rs) target =
    let rest = collect_policy_matches home rs target in
    let pattern : Text = or_else r.path [] in
    if has_path r.path && path_matches_protection pattern target home
    then record {
      type = do_not_touch;
      pattern = pattern;
      path = target;
      reason = text_or (some r.reason) "do-not-touch rule";
      scope = text_or (some r.scope) "user";
      effect = "stance protect, action none";
    }
      ∷ rest
    else rest
