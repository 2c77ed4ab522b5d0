-- ===== src/Clean.antt =====
-- scripts/lib/clean-plan.mjs: `classifyFinding`, the rules that a clean plan puts every finding to, in
-- two definitions, where a rule that does not apply goes on to the next. The sets that
-- `composeCleanPlan` gathers beforehand are the fields of the context. Messages are left out.
pub mod Acceptance
pub mod View
pub mod Compose
pub mod Selection
pub mod Accounting
pub mod Walks
pub mod Execution
pub mod Removal
pub mod Chunk
pub mod Outcome
pub mod Recovery
pub mod Undo
pub mod Locking
pub mod Batch
pub mod Budgets
pub mod Chunks
pub mod Validation
pub mod Safety
pub mod Streaming
pub mod Rounds
pub mod Progress
use claude_housekeeper.Base.{
  [], Bool, true, false, not, ◌&&◌, ◌||◌, ◌==◌, String, Option, List, ◌∷◌, any, map, if◌then◌else◌,
  is_some, str_eq,
}
use claude_housekeeper.Contracts.{
  Text, Surface, PolicyMatch, ExecutionClass, RollbackClass, OwnerClass,
}
use claude_housekeeper.Posix.{codes, sep, text_eq, starts_with, split_sep, join, basename}
use claude_housekeeper.Policy.{ProtectionRule, covers}
use claude_housekeeper.Snapshot.{blocking_rule}
use claude_housekeeper.Findings.{on_surface}

-- The reasons that have a next step.
pub data CleanReason : Type 0 where
  plan_state_error protected_path sector_boundary execution_class rollback_class owner
        plugin_symlinked_cache plugin_cache_referenced_by_hook plugin_cache_has_mcp_server
        stale_lock_not_yet_eligible drift_detected no_mutation_mapping
        batch_exceeds_aggregate_budget settings_rewrite_not_batchable batch_pair_cap_exceeded
        stream_chunk_budget_exceeded stream_resume_not_supported :
      CleanReason

-- `nextStepFor`
unfoldable pub next_step_for : CleanReason → String
next_step_for plan_state_error =
    "Run `claude-housekeeper rollback <opId>` on the interrupted operation, then re-run `clean`."
next_step_for protected_path =
    "Remove the path from `doNotTouch` in `<home>/housekeeper/config.json` or pick a different target."
next_step_for sector_boundary =
    "Housekeeper will not clean credential or secret paths. Delete manually with `rm` only after verifying contents."
next_step_for execution_class =
    "Surface is not safe to mutate automatically. Review the source manually; no `clean` action is available."
next_step_for rollback_class =
    "Operation is not reversible by Housekeeper. No automated action; review the source manually."
next_step_for owner =
    "Files owned by Claude or plugin internals cannot be cleaned; report a false positive if this surprises you."
next_step_for plugin_symlinked_cache =
    "Resolve the symlink manually and re-run `clean` on the real path."
next_step_for plugin_cache_referenced_by_hook =
    "Remove the hook entry referencing this path in `<home>/settings.json`, then re-run `clean`."
next_step_for plugin_cache_has_mcp_server =
    "Uninstall the plugin via `claude plugin uninstall <name> --scope <scope>`; that releases the MCP server cleanly."
next_step_for stale_lock_not_yet_eligible =
    "Wait for the 30-minute staleness window to elapse, then re-run `clean`."
next_step_for drift_detected =
    "Local command no longer matches its plugin counterpart. Inspect with `diff` and resolve manually."
next_step_for no_mutation_mapping =
    "Not cleanable in v0.2.0. Track the roadmap in CHANGELOG.md; use `rm` only if you accept the risk."
next_step_for batch_exceeds_aggregate_budget =
    "Reduce the number of --target/--path pairs, or split the batch into multiple invocations."
next_step_for settings_rewrite_not_batchable =
    "Run `claude-housekeeper harden` for settings-rewrite findings; v0.3 batch only covers dir-rmtree and file-unlink ops."
next_step_for batch_pair_cap_exceeded = "Reduce pair count or raise --batch=N (max 50 per design)."
next_step_for stream_chunk_budget_exceeded =
    "Use --stream only when --batch=N is greater than 50. For 50 or fewer pairs, omit --stream and use the standard batch path."
next_step_for stream_resume_not_supported =
    "Resuming a halted stream is not supported in v0.4. Roll back the completed chunks with `claude-housekeeper rollback --stream=<streamId>` and restart the full operation."

pub data Verdict : Type 0 where
  accepted : Verdict
  refused : CleanReason → Verdict

-- What the rules read of a finding; a missing surface is `none`.
pub record Finding : Type 0 where
  pub id : String
  pub target_path : Text
  pub surface : Option Surface
  pub policy_matches : List PolicyMatch

pub record Context : Type 0 where
  pub home : Text
  pub interruptions : List Text
  pub symlinked_paths : List Text
  pub mcp_paths : List Text
  pub ref_by_hook_paths : List Text
  pub do_not_touch_rules : List ProtectionRule
  pub fresh_lock_paths : List Text
  pub drifted_local_command_paths : List Text
  pub allowed_execution_classes : ExecutionClass → Bool

-- `DEFAULT_ALLOWED_EXECUTION_CLASSES`
abbrev pub is_inert : ExecutionClass → Bool
is_inert ExecutionClass.inert = true
is_inert _ = false

abbrev pub has_entries {ℓ} : {A : Type ℓ} → List A → Bool
has_entries [] = false
has_entries (x ∷ xs) = true

-- `targetPath.split("\\").join("/")`
abbrev pub with_slashes : Text → Text
with_slashes = map (λ c. if c == b'\\' then sep else c)

abbrev pub is_credential_segment : Text → Bool
is_credential_segment s = text_eq s (codes "credentials") || text_eq s (codes "secrets")

-- `isSectorBoundary`
unfoldable pub is_sector_boundary : Text → Text → Bool
is_sector_boundary target_path home =
    let norm = with_slashes target_path in
    if covers (join home (codes "credentials")) norm
    then true
    else if text_eq (basename norm) (codes ".env") || starts_with (basename norm) (codes ".env.")
    then true
    else any is_credential_segment (split_sep norm)

abbrev pub is_irreversible : RollbackClass → Bool
is_irreversible RollbackClass.not_applicable = true
is_irreversible _ = false

abbrev pub is_cleanable_owner : OwnerClass → Bool
is_cleanable_owner OwnerClass.claude_managed = true
is_cleanable_owner OwnerClass.user_owned = true
is_cleanable_owner _ = false

abbrev pub is_own : OwnerClass → Bool
is_own OwnerClass.housekeeper_owned = true
is_own _ = false

abbrev pub stale_lock : String
stale_lock = "housekeeper.stale_lock"

abbrev pub local_command_identical : String
local_command_identical = "registry.local_command_identical"

-- `CLEANABLE_DETECTORS_V02`
abbrev pub cleanable_detectors : List String
cleanable_detectors =
    "plugin.cache_unreferenced" ∷ stale_lock ∷ local_command_identical ∷ "registry.command_dangling"
    ∷ "registry.skills_entry_dangling" ∷ []

-- Whether the owner rule refuses a surface.
abbrev pub is_foreign : String → OwnerClass → Bool
is_foreign id owner_class =
    not (is_cleanable_owner owner_class) && not (str_eq id stale_lock && is_own owner_class)

-- Rules 7 to 12.
unfoldable pub mapping_rules : Finding → Context → Verdict
mapping_rules f c =
    if any (text_eq f.target_path) c.symlinked_paths
    then refused plugin_symlinked_cache
    else if any (text_eq f.target_path) c.ref_by_hook_paths
    then refused plugin_cache_referenced_by_hook
    else if any (text_eq f.target_path) c.mcp_paths
    then refused plugin_cache_has_mcp_server
    else if str_eq f.id stale_lock && any (text_eq f.target_path) c.fresh_lock_paths
    then refused stale_lock_not_yet_eligible
    else if str_eq f.id local_command_identical
        && any (text_eq f.target_path) c.drifted_local_command_paths
    then refused drift_detected
    else if not (any (str_eq f.id) cleanable_detectors)
    then refused no_mutation_mapping
    else accepted

-- Rules 1 to 6, and then the others: `classifyFinding`.
unfoldable pub classify_finding : Finding → Context → Verdict
unfolding mapping_rules
classify_finding f c =
    if has_entries c.interruptions
    then refused plan_state_error
    else if is_some (blocking_rule c.home f.target_path c.do_not_touch_rules)
    then refused protected_path
    else if has_entries f.policy_matches
    then refused protected_path
    else if not (text_eq f.target_path []) && is_sector_boundary f.target_path c.home
    then refused sector_boundary
    else if on_surface (λ s. not (c.allowed_execution_classes s.execution_class)) f.surface
    then refused execution_class
    else if on_surface (λ s. is_irreversible s.rollback_class) f.surface
    then refused rollback_class
    else if on_surface (λ s. is_foreign f.id s.owner_class) f.surface
    then refused owner
    else mapping_rules f c
