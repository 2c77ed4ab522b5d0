-- ===== src/Surface.antt =====
-- scripts/lib/surface.mjs: the classification of a path. `classifySurface` is one function whose
-- branches return early; here each group of its branches is a definition that goes on to the next. The
-- case-insensitive patterns run on the lower-case text.
pub mod Boundary
use claude_housekeeper.SecretNames.{
  lower, contains_any, secret_filenames, key_words, matches_secret_pattern,
}
use claude_housekeeper.Base.{
  [], ℕ, ◌+◌, ◌-◌, Bool, true, false, ◌&&◌, ◌||◌, leb, Option, none, some, List, ◌∷◌, ◌++◌, map,
  any, length, take, if◌then◌else◌,
}
use claude_housekeeper.Contracts.{
  Text, Surface, SurfaceClass, OwnerClass, LoadBearingClass, SensitivityClass, ExecutionClass,
  RollbackClass, ScopeClass, low, medium, high, default_surface,
}
use claude_housekeeper.Posix.{
  codes, sep, text_eq, starts_with, ends_with, split_sep, normalize, basename,
}

pub record Hints : Type 0 where
  pub home : Option Text
  pub loaded : Bool
  pub is_plugin_cache_version_dir : Bool
  pub is_hook_command : Bool
  pub is_mcp_command : Bool

abbrev pub begins_with_segments : List Text → List Text → Bool
begins_with_segments [] parts = true
begins_with_segments (s ∷ segs) [] = false
begins_with_segments (s ∷ segs) (p ∷ parts) = text_eq p s && begins_with_segments segs parts

abbrev pub segments_occur : List Text → List Text → Bool
segments_occur segs [] = begins_with_segments segs []
segments_occur segs (p ∷ parts) = begins_with_segments segs (p ∷ parts) || segments_occur segs parts

-- `segmentsContain`
unfoldable pub segments_contain : Text → List Text → Bool
segments_contain p segs = segments_occur segs (split_sep p)

-- The number of segments behind the first `plugins/cache`.
abbrev pub segments_after_cache : List Text → Option ℕ
segments_after_cache [] = none
segments_after_cache (p ∷ []) = none
segments_after_cache (p ∷ q ∷ parts) =
    if text_eq p (codes "plugins") && text_eq q (codes "cache")
    then some (length parts)
    else segments_after_cache (q ∷ parts)

abbrev pub at_least_three : Option ℕ → Bool
at_least_three none = false
at_least_three (some n) = leb 3 n

-- `isPluginCacheVersionDirPath`
unfoldable pub is_plugin_cache_version_dir_path : Text → Bool
is_plugin_cache_version_dir_path p = at_least_three (segments_after_cache (split_sep p))

-- `stripTrailingSep`
unfoldable pub strip_trailing_sep : Text → Text
strip_trailing_sep p =
    if leb (length p) 1 then p else if ends_with p (sep ∷ []) then take (length p - 1) p else p

-- `isSecretPath`
unfoldable pub is_secret_path : Text → Text → Bool
unfolding matches_secret_pattern segments_contain
is_secret_path base full_path =
    any (text_eq base) secret_filenames
    || matches_secret_pattern (map lower base)
    || segments_contain full_path (codes "secrets" ∷ [])
    || segments_contain full_path (codes ".ssh" ∷ [])

-- The test that makes the sensitivity `secret-content`.
unfoldable pub is_secret_content_name : Text → Bool
is_secret_content_name base =
    text_eq base (codes ".env")
    || ends_with (map lower base) (codes ".pem")
    || ends_with (map lower base) (codes ".key")
    || contains_any key_words (map lower base)

-- Branches 1 and 1b: an operation manifest, the lockfile, or the snapshot tree.
unfoldable pub is_housekeeper_path : Text → Text → Bool
unfolding segments_contain
is_housekeeper_path base norm =
    segments_contain norm (codes "housekeeper" ∷ codes "operations" ∷ [])
      && ends_with norm (codes ".json")
    || segments_contain norm (codes "housekeeper" ∷ []) && text_eq base (codes "lock")
    || segments_contain norm (codes "housekeeper" ∷ codes "snapshots" ∷ [])

abbrev pub housekeeper_surface : Surface
housekeeper_surface = record {
  surface_class = SurfaceClass.housekeeper_owned;
  owner_class = OwnerClass.housekeeper_owned;
  load_bearing_class = LoadBearingClass.not_load_bearing;
  sensitivity_class = SensitivityClass.private_path;
  execution_class = ExecutionClass.inert;
  rollback_class = RollbackClass.manifest_backed;
  scope_class = ScopeClass.in_scope;
  confidence = high;
  limits = [];
}

-- Branch 2.
abbrev pub secret_surface : Bool → Surface
secret_surface content = record {
  surface_class = SurfaceClass.secret_adjacent;
  owner_class = OwnerClass.user_owned;
  load_bearing_class = LoadBearingClass.unknown;
  sensitivity_class =
      if content then SensitivityClass.secret_content else SensitivityClass.secret_adjacent;
  execution_class = ExecutionClass.inert;
  rollback_class = RollbackClass.unknown;
  scope_class = ScopeClass.protected;
  confidence = medium;
  limits = [];
}

-- Branch 3: the target of a hook or of an MCP server, which runs in its own way when it is loaded.
abbrev pub command_surface : Bool → ExecutionClass → Surface
command_surface loaded runs = record {
  surface_class = SurfaceClass.executable_surface;
  owner_class = OwnerClass.user_owned;
  load_bearing_class =
      if loaded
      then LoadBearingClass.known_load_bearing
      else LoadBearingClass.possibly_load_bearing;
  sensitivity_class = SensitivityClass.private_path;
  execution_class = if loaded then runs else ExecutionClass.inert;
  rollback_class = RollbackClass.unknown;
  scope_class = ScopeClass.in_scope;
  confidence = if loaded then high else medium;
  limits = [];
}

-- Branches 4 and 6: app data that Claude manages.
abbrev pub app_data_surface : Surface
app_data_surface = record {
  surface_class = SurfaceClass.claude_app_data;
  owner_class = OwnerClass.claude_managed;
  load_bearing_class = LoadBearingClass.possibly_load_bearing;
  sensitivity_class = SensitivityClass.private_path;
  execution_class = ExecutionClass.inert;
  rollback_class = RollbackClass.snapshot_possible;
  scope_class = ScopeClass.in_scope;
  confidence = medium;
  limits = [];
}

-- Branches 5 and 6: configuration that the user wrote.
abbrev pub config_surface : Surface
config_surface = record {
  surface_class = SurfaceClass.authored_config;
  owner_class = OwnerClass.user_owned;
  load_bearing_class = LoadBearingClass.known_load_bearing;
  sensitivity_class = SensitivityClass.private_path;
  execution_class = ExecutionClass.inert;
  rollback_class = RollbackClass.snapshot_possible;
  scope_class = ScopeClass.in_scope;
  confidence = high;
  limits = [];
}

-- Branch 7.
abbrev pub external_surface : Surface
external_surface = record {
  surface_class = SurfaceClass.external_reference;
  owner_class = OwnerClass.unknown;
  load_bearing_class = LoadBearingClass.unknown;
  sensitivity_class = SensitivityClass.unknown;
  execution_class = ExecutionClass.inert;
  rollback_class = RollbackClass.unknown;
  scope_class = ScopeClass.out_of_scope;
  confidence = low;
  limits = [];
}

-- Branches 6 to 8 for a home that was given, in its normal form without a trailing separator.
unfoldable pub classify_in_home : Text → Text → Surface
classify_in_home home norm =
    if starts_with norm (home ++ sep ∷ [])
    then (if segments_contain norm (codes "plugins" ∷ [])
        then app_data_surface
        else if segments_contain norm (codes "commands" ∷ [])
            || segments_contain norm (codes "skills" ∷ [])
        then config_surface
        else default_surface)
    else if text_eq norm home
    then default_surface
    else external_surface

abbrev pub is_settings_name : Text → Bool
is_settings_name base =
    text_eq base (codes "settings.json")
    || text_eq base (codes "settings.local.json")
    || text_eq base (codes ".mcp.json")

-- Branches 3 to 8.
unfoldable pub classify_other : Text → Text → Option Text → Hints → Surface
classify_other base norm home hints =
    if hints.is_hook_command
    then command_surface hints.loaded ExecutionClass.runs_hook
    else if hints.is_mcp_command
    then command_surface hints.loaded ExecutionClass.starts_mcp
    else if hints.is_plugin_cache_version_dir || is_plugin_cache_version_dir_path norm
    then app_data_surface
    else if is_settings_name base
    then config_surface
    else elim home [ none ↦ default_surface | some h ↦ classify_in_home h norm ]

unfoldable pub classify_normalized : Text → Text → Option Text → Hints → Surface
classify_normalized base norm home hints =
    if is_housekeeper_path base norm
    then housekeeper_surface
    else if is_secret_path base norm
    then secret_surface (is_secret_content_name base)
    else classify_other base norm home hints

-- `hints.home ? stripTrailingSep(path.normalize(hints.home)) : null`
abbrev pub normal_home : Option Text → Option Text
normal_home none = none
normal_home (some h) = if text_eq h [] then none else some (strip_trailing_sep (normalize h))

-- `stripTrailingSep(path.normalize(targetPath))`
unfoldable pub normal_target : Text → Text
normal_target p = strip_trailing_sep (normalize p)

-- `classifySurface`
unfoldable pub classify_surface : Text → Hints → Surface
classify_surface p hints =
    classify_normalized (basename (normal_target p)) (normal_target p) (normal_home hints.home)
      hints
