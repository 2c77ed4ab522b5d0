-- ===== src/Detectors.antt =====
-- scripts/lib/audit.mjs: what the report assembly knows of each detector: the scopes, the limits of safe
-- mode, the probes, and the output that a detector returns. The detectors themselves read the home
-- directory and are not modelled.
use claude_housekeeper.Base.{
  Bool, String, Option, none, some, List, [], ◌∷◌, ◌++◌, if◌then◌else◌, str_eq,
}
use claude_housekeeper.Contracts.{Text, Surface, Evidence, StanceName}
use claude_housekeeper.Findings.{FindingClass}
use claude_housekeeper.Surface.{Hints}

-- `DetectorOutput`; a field that a detector may leave out is an option.
pub record DetectorOutput : Type 0 where
  pub id : String
  pub finding_class : FindingClass
  pub surface : Option Surface
  pub surface_hints : Hints
  pub evidence : Evidence
  pub missing_keys : List String
  pub target_path : Text
  pub summary : String
  pub claim_level : Option String
  pub next_allowed_step : Option String
  pub blocked_actions : Option (List String)
  pub force_stance : Option StanceName
  pub hardenable : Bool
  pub cleanable : Bool
  pub history_available : Option Bool

-- `SCOPE_TO_DETECTORS`
abbrev pub settings_detectors : List String
settings_detectors =
    "settings.invalid_json" ∷ "settings.jsonc_detected" ∷ "settings.hook_path_dangling"
    ∷ "settings.hook_command_shell_ambiguous" ∷ "settings.mcp_command_missing"
    ∷ "hooks.config_dangling" ∷ []

abbrev pub plugin_detectors : List String
plugin_detectors =
    "plugin.expected_orphan" ∷ "plugin.cache_unreferenced" ∷ "plugin.duplicate_registration"
    ∷ "plugin.cache_size" ∷ "plugin.unused_past_grace" ∷ "settings.hook_path_dangling"
    ∷ "settings.hook_command_shell_ambiguous" ∷ []

abbrev pub registry_detectors : List String
registry_detectors =
    "registry.local_skill_shadow" ∷ "registry.local_command_identical"
    ∷ "registry.local_command_diverged" ∷ "registry.broken_frontmatter"
    ∷ "registry.command_dangling" ∷ "registry.skills_entry_dangling" ∷ []

abbrev pub housekeeper_detectors : List String
housekeeper_detectors =
    "housekeeper.interrupted_operation" ∷ "housekeeper.config_invalid"
    ∷ "housekeeper.operations_unreadable" ∷ []

-- `ALWAYS_ON_DETECTORS`
abbrev pub always_on_detectors : List String
always_on_detectors =
    "housekeeper.interrupted_operation" ∷ "housekeeper.config_invalid"
    ∷ "housekeeper.operations_unreadable" ∷ "housekeeper.stale_lock"
    ∷ "plugin.cache_referenced_by_hook" ∷ "home.not_found" ∷ "home.scan_budget_hit" ∷ "home.clean"
    ∷ []

-- `KNOWN_DETECTORS`
abbrev pub known_detectors : List String
known_detectors =
    settings_detectors
    ++ (plugin_detectors ++ (registry_detectors ++ (housekeeper_detectors ++ always_on_detectors)))

-- The detectors of one scope; `none` for an unknown scope.
unfoldable pub scope_detectors : String → Option (List String)
scope_detectors scope =
    if str_eq scope "settings"
    then some settings_detectors
    else if str_eq scope "plugins"
    then some plugin_detectors
    else if str_eq scope "registry"
    then some registry_detectors
    else if str_eq scope "housekeeper"
    then some housekeeper_detectors
    else none

-- `selectedDetectors`; `none` is the error of an unknown scope.
unfoldable pub selected_detectors : String → Option (List String)
unfolding scope_detectors
selected_detectors scope =
    if str_eq scope "all"
    then some known_detectors
    else elim (scope_detectors scope) [ none ↦ none | some ids ↦ some (ids ++ always_on_detectors) ]

-- A table from texts to texts.
abbrev pub lookup : String → List (String × String) → Option String
lookup k [] = none
lookup k ((j, v) ∷ rest) = if str_eq k j then some v else lookup k rest

-- `SAFE_MODE_LIMIT_BY_ID`
abbrev pub safe_mode_limits : List (String × String)
safe_mode_limits =
    ("settings.hook_path_dangling", "safe-mode-no-loader-key")
    ∷ ("settings.hook_command_shell_ambiguous", "safe-mode-no-shell-parse")
    ∷ ("settings.mcp_command_missing", "safe-mode-no-mcp-start")
    ∷ ("plugin.expected_orphan", "safe-mode-no-active-session-key")
    ∷ ("plugin.cache_unreferenced", "safe-mode-no-active-session-key")
    ∷ ("plugin.duplicate_registration", "safe-mode-no-loader-key")
    ∷ ("plugin.cache_size", "safe-mode-no-loader-key")
    ∷ ("registry.local_skill_shadow", "safe-mode-no-loader-key")
    ∷ ("registry.local_command_identical", "safe-mode-no-loader-key")
    ∷ ("registry.local_command_diverged", "safe-mode-no-loader-key")
    ∷ ("registry.broken_frontmatter", "safe-mode-no-loader-key")
    ∷ ("home.scan_budget_hit", "safe-mode-scan-budget")
    ∷ ("home.clean", "safe-mode-no-loader-key")
    ∷ ("plugin.cache_referenced_by_hook", "safe-mode-no-loader-key")
    ∷ ("plugin.unused_past_grace", "safe-mode-no-shell-history")
    ∷ []

-- An entry of `PROBE_CATALOG`, with its key.
pub record Probe : Type 0 where
  pub reference : String
  pub probe_class : String
  pub may_execute : String
  pub consent : String

abbrev pub probe : String → String → String → String → Probe
probe r c m k = record { reference = r; probe_class = c; may_execute = m; consent = k }

abbrev pub mcp_probe : Probe
mcp_probe = probe "/mcp" "loader" "may start or contact MCP depending behavior" "high"

abbrev pub debug_hooks_probe : Probe
debug_hooks_probe = probe "claude --debug hooks" "behavioral" "may run hooks" "high"

-- `PROBE_CATALOG`
abbrev pub probe_catalog : List Probe
probe_catalog =
    probe "/hooks" "loader" "Claude session load, hook registry load" "medium"
    ∷ probe "/doctor" "loader" "Claude session load" "medium"
    ∷ mcp_probe
    ∷ probe "/skills" "loader" "Claude session load, skill registry load" "medium"
    ∷ debug_hooks_probe
    ∷ probe "claude --debug mcp" "behavioral" "may start MCP servers" "high"
    ∷ []
