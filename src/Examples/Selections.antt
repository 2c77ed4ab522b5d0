-- ===== src/Examples/Selections.antt =====
-- Plans that scripts/lib/clean-plan.mjs composes for a plugin cache on a small file system.
use mathlib.Core.List.{Perm}
use claude_housekeeper.Clean.Accounting.{keys, finding_key}
use claude_housekeeper.Base.{
  [], ℕ, ◌≡◌, ◌≤◌, refl, false, some, none, ◌∷◌, List, if◌then◌else◌, All, arith, inl, inr,
  Bool-cases, length, or_else, map,
}
use claude_housekeeper.Contracts.{Text, default_surface, OwnerClass, ExecutionClass, RollbackClass}
use claude_housekeeper.Posix.{codes, text_eq, text_eq_sound, basename, join, normalize}
use claude_housekeeper.Policy.{ReadJson, missing, load_config}
use claude_housekeeper.Observe.{Kind}
use claude_housekeeper.Audit.{Finding, surface_of, build_finding}
use claude_housekeeper.Findings.{diagnose}
use claude_housekeeper.Lock.{unreadable}
use claude_housekeeper.Snapshot.{blocking_rule, max_operation_files, max_operation_bytes}
use claude_housekeeper.Clean.{is_inert, classify_finding, is_sector_boundary}
use claude_housekeeper.Clean.View.{View, has_mcp_server, walk_dir, estimate_bytes, push_directories}
use claude_housekeeper.Clean.Compose.{
  CleanPlan, Request, candidates_of, context_of, drifted_paths, compose_clean_plan,
}
use claude_housekeeper.Clean.Selection.{IsSelection}
use claude_housekeeper.Clean.Walks.{IsFinite, compose_clean_plan-IsSelection}
use claude_housekeeper.Clean.Execution.{flatten_operations}
use claude_housekeeper.Clean.Batch.{
  Pair, Moment, BatchRequest, Batch, batch_cap, batch_max_pairs, total_estimate, empty_batch,
  compose_batch_clean_plan, stream_chunks, total_chunks, at_least_one, compose_stream_clean_plan,
}
use claude_housekeeper.Clean.Budgets.{compose_batch_clean_plan_bounds}
use claude_housekeeper.Clean.Chunks.{
  concat, IsChunk, planned_chunks, compose_stream_clean_plan_chunks,
}
use claude_housekeeper.Examples.Reports.{dangling}

abbrev pub home : Text
home = codes "/h/.claude"

abbrev cache : Text
cache = codes "/h/.claude/c"

-- The cache holds a file and a directory with another.
abbrev pub view : View
view = record {
  exists = λ p. text_eq p cache;
  lstat = λ p. none;
  stat_size = λ p. none;
  list = λ p.
      if text_eq p cache
      then some ((codes "a", Kind.file) ∷ (codes "d", Kind.directory) ∷ [])
      else if text_eq p (codes "/h/.claude/c/d")
      then some ((codes "b", Kind.file) ∷ [])
      else none;
  sha256 = λ p. none;
  lock_text = λ p. unreadable;
  mcp_servers = λ p. none;
  installed = [];
  digest = λ fs. "hash";
  now = 100;
  rounds = 2;
}

abbrev size : Text → ℕ
size p = if text_eq p cache then 1 else 0

pub view_IsFinite : IsFinite view
unfolding push_directories join normalize
view_IsFinite = record {
  size = size;
  nested = λ p es e. elim (Bool-cases (text_eq p cache)) [
    | inl q ↦
        let same : p ≡ cache = text_eq_sound p cache q in
        let l : (codes "a", Kind.file) ∷ (codes "d", Kind.directory) ∷ [] ≡ es = ground arith in
        rw (← l, same) (omega arith)
    | inr q ↦ elim (Bool-cases (text_eq p (codes "/h/.claude/c/d"))) [
      | inl r ↦ let l : (codes "b", Kind.file) ∷ [] ≡ es = ground arith in rw (← l) (omega arith)
      | inr r ↦ ground arith
    ]
  ];
  bounded = λ p. ground arith;
}

abbrev pub unreferenced : Finding
unreferenced =
    build_finding home diagnose (λ t. []) (λ i t. 0)
      (record dangling {
        id = "plugin.cache_unreferenced";
        target_path = cache;
        surface = some (record default_surface {
          owner_class = OwnerClass.claude_managed;
          execution_class = ExecutionClass.inert;
          rollback_class = RollbackClass.manifest_backed;
        });
      })

abbrev pub read : Text → ReadJson
read p = missing

abbrev pub request : Request
request = record {
  target = "plugin.cache_unreferenced";
  path = cache;
  allowed_execution_classes = is_inert;
}

compose_clean_plan-IsSelection_example :
    (plan : CleanPlan) × (drifted : List Text) × (compose_clean_plan view read home
        (unreferenced ∷ [])
        request
      ≡ some plan)
    × (drifted_paths view home (candidates_of request (unreferenced ∷ [])) ≡ some drifted)
    × IsSelection view
        (context_of view home
          (load_config read home none).rules
          request
          (unreferenced ∷ [])
          drifted)
        (candidates_of request (unreferenced ∷ []))
        plan
    × Perm
        (keys plan.operations plan.refused)
        (map finding_key (candidates_of request (unreferenced ∷ [])))
compose_clean_plan-IsSelection_example =
    compose_clean_plan-IsSelection view read home (unreferenced ∷ []) request view_IsFinite

abbrev pub pair : Pair
pair = record { target = "plugin.cache_unreferenced"; path = cache }

abbrev pub at : ℕ → Moment
at i = record { view = view; read = read; findings = unreferenced ∷ [] }

abbrev batch_request : BatchRequest
batch_request = record {
  pairs = pair ∷ [];
  cap = some 3;
  allowed_execution_classes = is_inert;
  skip_aggregate_budget = false;
}

abbrev batch : Batch
batch = or_else (compose_batch_clean_plan at home batch_request) (empty_batch [])

batch_lem : compose_batch_clean_plan at home batch_request ≡ some batch
unfolding compose_batch_clean_plan compose_clean_plan build_finding classify_finding blocking_rule
    load_config is_sector_boundary basename surface_of has_mcp_server walk_dir
batch_lem = refl

-- The batch removes both files.
batch_files :
    map (λ op. op.expanded_files) batch.operations
    ≡ (codes "/h/.claude/c/a" ∷ codes "/h/.claude/c/d/b" ∷ []) ∷ []
unfolding compose_batch_clean_plan compose_clean_plan build_finding classify_finding blocking_rule
    load_config is_sector_boundary basename surface_of has_mcp_server walk_dir estimate_bytes
batch_files = refl

compose_batch_clean_plan_bounds_example :
    (length (flatten_operations batch.operations) ≤ max_operation_files)
    × (total_estimate batch.operations ≤ max_operation_bytes)
    × (length batch.operations ≤ batch_cap batch_request.cap)
    × (batch_cap batch_request.cap ≤ batch_max_pairs)
compose_batch_clean_plan_bounds_example =
    compose_batch_clean_plan_bounds at home batch_request batch batch_lem refl

abbrev pub pairs : List Pair
pairs = pair ∷ pair ∷ []

compose_stream_clean_plan_chunks_example :
    (concat (stream_chunks pairs) ≡ pairs)
    × All IsChunk (stream_chunks pairs)
    × (total_chunks pairs ≡ at_least_one (length (stream_chunks pairs)))
    × (compose_stream_clean_plan (λ i. at) home is_inert false pairs
        ≡ planned_chunks (λ i. at) home is_inert (total_chunks pairs) 0 (stream_chunks pairs))
compose_stream_clean_plan_chunks_example =
    compose_stream_clean_plan_chunks (λ i. at) home is_inert pairs
