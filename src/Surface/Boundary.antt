-- ===== src/Surface/Boundary.antt =====
-- What a path's classification in scripts/lib/surface.mjs lets scripts/lib/stance.mjs decide.
use claude_housekeeper.Base.{[], ◌≡◌, ◌⊎◌, Bool, true, false, some, ◌∷◌, ◌++◌, arith, if◌then◌else◌}
use claude_housekeeper.Contracts.{Text, StanceName}
use claude_housekeeper.Posix.{basename, starts_with, text_eq, sep}
use claude_housekeeper.Stance.{decide_stance}
use claude_housekeeper.Findings.{Args}
use claude_housekeeper.Stance.Ladder.{decide_stance_core_cases}
use claude_housekeeper.Surface.{
  Hints, is_housekeeper_path, is_secret_path, classify_other, classify_in_home, classify_normalized,
  normal_target, normal_home, classify_surface, is_plugin_cache_version_dir_path, is_settings_name,
}

-- The path is not Housekeeper's own, and its name or a directory of it looks secret.
abbrev pub looks_secret : Text → Bool
looks_secret p =
    if is_housekeeper_path (basename (normal_target p)) (normal_target p)
    then false
    else is_secret_path (basename (normal_target p)) (normal_target p)

-- A finding on a path that looks secret gets `protect`, or, only where its evidence conflicts, may get
-- `block`: never a stance that probes, reviews or patches.
secret_path-protect :
    (a : Args) (p : Text) (hints : Hints)
    → a.surface ≡ some (classify_surface p hints)
    → looks_secret p ≡ true
    → ((decide_stance a).stance ≡ StanceName.protect)
      ⊎ (((decide_stance a).stance ≡ StanceName.block) × (a.evidence.conflicting ≡ true))
unfolding decide_stance classify_surface classify_normalized
secret_path-protect a p hints e s = ground (arith, decide_stance_core_cases a)

-- A finding on a path outside the given home, which no hook or MCP hint, cache or settings name
-- claims, and which is neither Housekeeper's own nor secret-looking, gets `protect` or `block`.
external_path-block :
    (a : Args) (p h : Text) (hints : Hints)
    → a.surface ≡ some (classify_surface p hints)
    → normal_home hints.home ≡ some h
    → starts_with (normal_target p) (h ++ sep ∷ []) ≡ false
    → text_eq (normal_target p) h ≡ false
    → (hints.is_hook_command ≡ false)
      × (hints.is_mcp_command ≡ false)
      × (hints.is_plugin_cache_version_dir ≡ false)
    → is_plugin_cache_version_dir_path (normal_target p) ≡ false
    → is_settings_name (basename (normal_target p)) ≡ false
    → is_housekeeper_path (basename (normal_target p)) (normal_target p) ≡ false
    → ((decide_stance a).stance ≡ StanceName.protect)
      ⊎ ((decide_stance a).stance ≡ StanceName.block)
unfolding decide_stance classify_surface classify_normalized classify_other classify_in_home
external_path-block a p h hints e eh out ne flags cache settings own =
    ground (arith, decide_stance_core_cases a)
