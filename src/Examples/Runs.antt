-- ===== src/Examples/Runs.antt =====
-- A plan that scripts/lib/clean-plan.mjs validates, and a stream that it executes.
use claude_housekeeper.Base.{
  [], ◌≡◌, refl, none, some, true, false, ◌⊎◌, inl, In, ◌∷◌, length, or_else,
}
use claude_housekeeper.Policy.{load_config}
use claude_housekeeper.Posix.{codes, basename}
use claude_housekeeper.Audit.{build_finding, surface_of}
use claude_housekeeper.Snapshot.{blocking_rule}
use claude_housekeeper.Clean.{is_inert, classify_finding, is_sector_boundary}
use claude_housekeeper.Clean.View.{has_mcp_server, walk_dir, estimate_bytes}
use claude_housekeeper.Clean.Compose.{CleanOperation, dir_rmtree, CleanPlan, compose_clean_plan}
use claude_housekeeper.Clean.Batch.{stream_chunks}
use claude_housekeeper.Clean.Validation.{validate_clean_plan, compose-validate_clean_plan}
use claude_housekeeper.Clean.Streaming.{
  LoopEnd, Progress, ran, not_prepared, Setting, execute_stream_clean_plan,
}
use claude_housekeeper.Clean.Safety.{IsSafe, compose_clean_plan-IsSafe}
use claude_housekeeper.Clean.Progress.{IsEnded, execute_stream_clean_plan-IsEnded}
use claude_housekeeper.Lock.{idle, written_lock}
use claude_housekeeper.Examples.Snapshots.{host}
use claude_housekeeper.Examples.Plans.{disk, draw, unlocked}
use claude_housekeeper.Examples.Selections.{
  view_IsFinite, home, view, read, unreferenced, request, pairs, at,
}

abbrev plan : CleanPlan
plan =
    or_else (compose_clean_plan view read home (unreferenced ∷ []) request)
      (record { operations = []; refused = []; report_hash = "" })

plan_lem : compose_clean_plan view read home (unreferenced ∷ []) request ≡ some plan
unfolding compose_clean_plan build_finding classify_finding blocking_rule load_config
    is_sector_boundary basename surface_of has_mcp_server walk_dir
plan_lem = refl

compose-validate_clean_plan_example :
    validate_clean_plan view read home (unreferenced ∷ []) plan ≡ none
compose-validate_clean_plan_example =
    compose-validate_clean_plan view read home (unreferenced ∷ []) request plan refl plan_lem

abbrev chosen : CleanOperation
chosen = record {
  detector_id = "plugin.cache_unreferenced";
  target_path = codes "/h/.claude/c";
  mutation_kind = dir_rmtree;
  estimated_bytes = 0;
  expanded_files = codes "/h/.claude/c/a" ∷ codes "/h/.claude/c/d/b" ∷ [];
}

chosen_lem : In chosen plan.operations
unfolding compose_clean_plan build_finding classify_finding blocking_rule load_config
    is_sector_boundary basename surface_of has_mcp_server walk_dir estimate_bytes
chosen_lem = inl refl

compose_clean_plan-IsSafe_example :
    IsSafe view home (load_config read home none).rules (unreferenced ∷ []) chosen.target_path
compose_clean_plan-IsSafe_example =
    compose_clean_plan-IsSafe view read home (unreferenced ∷ []) request plan chosen refl plan_lem
      chosen_lem

abbrev setting : Setting
setting = record {
  host = host;
  read = read;
  home = home;
  at = λ i. at;
  allowed = is_inert;
  draws = λ i. draw;
  consent = λ b. "stream";
}

execute_stream_clean_plan-IsEnded_example :
    let run = execute_stream_clean_plan setting 1 true [] pairs unlocked disk in
    ((true ≡ true)
      × (run.world.file ≡ none)
      × (run.world.pc 1 ≡ idle)
      × (r : LoopEnd × Progress) × (run.outcome ≡ ran r)
      × IsEnded (length (stream_chunks pairs)) r)
    ⊎ ((true ≡ false)
        × (run.outcome ≡ not_prepared)
        × (run.world.file ≡ some (1, written_lock unlocked.now)))
execute_stream_clean_plan-IsEnded_example =
    execute_stream_clean_plan-IsEnded setting 1 true [] pairs unlocked disk (λ i j. view_IsFinite)
      refl refl
