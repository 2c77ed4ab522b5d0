-- ===== src/Examples/Surfaces.antt =====
-- Paths that scripts/lib/surface.mjs classifies.
use claude_housekeeper.Base.{◌≡◌, refl, false, some}
use claude_housekeeper.Contracts.{SurfaceClass, SensitivityClass}
use claude_housekeeper.Posix.{codes, normalize, basename}
use claude_housekeeper.Surface.{
  Hints, classify_surface, classify_normalized, classify_other, classify_in_home,
  is_housekeeper_path, is_secret_path, is_secret_content_name, is_plugin_cache_version_dir_path,
  segments_contain, strip_trailing_sep, normal_target,
}
use claude_housekeeper.SecretNames.{matches_secret_pattern}

abbrev hints : Hints
hints = record {
  home = some (codes "/h/.claude/");
  loaded = false;
  is_plugin_cache_version_dir = false;
  is_hook_command = false;
  is_mcp_command = false;
}

classify_surface_tests :
    ((classify_surface (codes "/h/.claude/keys/id_rsa.pub") hints).sensitivity_class
      ≡ SensitivityClass.secret_content)
    × ((classify_surface (codes "/h/.claude/housekeeper/lock") hints).surface_class
        ≡ SurfaceClass.housekeeper_owned)
    × ((classify_surface (codes "/h/.claude/settings.json") hints).surface_class
        ≡ SurfaceClass.authored_config)
    × ((classify_surface (codes "/h/.claude/plugins/cache/m/p/1.0") hints).surface_class
        ≡ SurfaceClass.claude_app_data)
    × ((classify_surface (codes "/h/.claude/skills/a") hints).surface_class
        ≡ SurfaceClass.authored_config)
    × ((classify_surface (codes "/h/.claude/api-key.txt") hints).sensitivity_class
        ≡ SensitivityClass.secret_adjacent)
    × ((classify_surface (codes "/h/notes.md") hints).surface_class
        ≡ SurfaceClass.external_reference)
unfolding classify_surface classify_normalized classify_other classify_in_home is_housekeeper_path
    is_secret_path is_secret_content_name is_plugin_cache_version_dir_path segments_contain
    matches_secret_pattern strip_trailing_sep normal_target normalize basename
classify_surface_tests = (refl, refl, refl, refl, refl, refl, refl)
