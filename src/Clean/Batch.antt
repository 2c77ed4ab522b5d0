-- ===== src/Clean/Batch.antt =====
-- scripts/lib/clean-plan.mjs: `composeBatchCleanPlan`, and the chunks of `composeStreamCleanPlan`. Each pair is
-- composed on a report and a view of its own, since the files may change in between.
use claude_housekeeper.Base.{
  ℕ, zero, suc, ◌+◌, ◌-◌, Bool, true, false, not, ◌&&◌, ◌||◌, ltb, min, String, Option, none, some,
  List, [], ◌∷◌, ◌++◌, length, take, drop, if◌then◌else◌, str_eq,
}
use Prim.Native.Nat.{◌/◌}
use claude_housekeeper.Contracts.{Text, ExecutionClass}
use claude_housekeeper.Policy.{ReadJson}
use claude_housekeeper.Audit.{Finding}
use claude_housekeeper.Snapshot.{max_operation_files, max_operation_bytes}
use claude_housekeeper.Clean.{
  CleanReason, batch_exceeds_aggregate_budget, settings_rewrite_not_batchable,
  batch_pair_cap_exceeded, stream_chunk_budget_exceeded, stream_resume_not_supported,
}
use claude_housekeeper.Clean.View.{View}
use claude_housekeeper.Clean.Compose.{
  MutationKind, json_rewrite, settings_rewrite, CleanOperation, Refusal, CleanPlan,
  compose_clean_plan,
}

abbrev pub batch_default_cap : ℕ
batch_default_cap = 10

abbrev pub batch_max_pairs : ℕ
batch_max_pairs = 50

-- `options.batchCap`, which counts only as a positive integer.
unfoldable pub batch_cap : Option ℕ → ℕ
batch_cap none = batch_default_cap
batch_cap (some zero) = batch_default_cap
batch_cap (some (suc n)) = min (suc n) batch_max_pairs

pub record Pair : Type 0 where
  pub target : String
  pub path : Text

-- What the composition of one pair reads.
pub record Moment : Type 0 where
  pub view : View
  pub read : Text → ReadJson
  pub findings : List Finding

pub record BatchRequest : Type 0 where
  pub pairs : List Pair
  pub cap : Option ℕ
  pub allowed_execution_classes : ExecutionClass → Bool
  pub skip_aggregate_budget : Bool

pub record Batch : Type 0 where
  pub operations : List CleanOperation
  pub refused : List Refusal
  pub report_hash : String

abbrev pub is_batchable : MutationKind → Bool
is_batchable json_rewrite = false
is_batchable settings_rewrite = false
is_batchable _ = true

abbrev pub refusal_of : CleanReason → Refusal
refusal_of reason = record { reason = reason; target_path = []; detector_id = "" }

-- The operations of a pair's plan: kept, or turned into refusals.
unfoldable pub kept_operations : List CleanOperation → List CleanOperation
kept_operations [] = []
kept_operations (op ∷ ops) =
    let rest = kept_operations ops in if is_batchable op.mutation_kind then op ∷ rest else rest

unfoldable pub unbatchable : List CleanOperation → List Refusal
unbatchable [] = []
unbatchable (op ∷ ops) =
    let rest = unbatchable ops in
    if is_batchable op.mutation_kind
    then rest
    else record {
      reason = settings_rewrite_not_batchable;
      target_path = op.target_path;
      detector_id = op.detector_id;
    }
      ∷ rest

-- A pair's plan is added to what the pairs before it gave.
unfoldable pub add_plan : CleanPlan → Batch → Batch
unfolding kept_operations unbatchable
add_plan plan b = record {
  operations = b.operations ++ kept_operations plan.operations;
  refused = b.refused ++ (unbatchable plan.operations ++ plan.refused);
  report_hash = if str_eq b.report_hash "" then plan.report_hash else b.report_hash;
}

-- The loop over the pairs, from the number `i` on; `none` is a walk that is not over.
unfoldable pub compose_pairs :
    (ℕ → Moment) → Text → (ExecutionClass → Bool) → ℕ → List Pair → Batch → Option Batch
unfolding add_plan
compose_pairs at home allowed i [] b = some b
compose_pairs at home allowed i (p ∷ ps) b =
    let m = at i in
    elim (compose_clean_plan m.view m.read home m.findings
      (record { target = p.target; path = p.path; allowed_execution_classes = allowed })) [
        | none ↦ none
        | some plan ↦ compose_pairs at home allowed (suc i) ps (add_plan plan b)
      ]

unfoldable pub total_files : List CleanOperation → ℕ
total_files [] = 0
total_files (op ∷ ops) = length op.expanded_files + total_files ops

unfoldable pub total_estimate : List CleanOperation → ℕ
total_estimate [] = 0
total_estimate (op ∷ ops) = op.estimated_bytes + total_estimate ops

-- The aggregate budget.
unfoldable pub within_budget : Bool → Batch → Batch
unfolding total_files total_estimate
within_budget skip b =
    if not skip
      && (ltb max_operation_files (total_files b.operations)
          || ltb max_operation_bytes (total_estimate b.operations))
    then record {
      operations = [];
      refused = b.refused ++ refusal_of batch_exceeds_aggregate_budget ∷ [];
      report_hash = b.report_hash;
    }
    else b

abbrev pub empty_batch : List Refusal → Batch
empty_batch rs = record { operations = []; refused = rs; report_hash = "" }

-- `composeBatchCleanPlan`
unfoldable pub compose_batch_clean_plan : (ℕ → Moment) → Text → BatchRequest → Option Batch
unfolding compose_pairs within_budget batch_cap
compose_batch_clean_plan at home r =
    if ltb (batch_cap r.cap) (length r.pairs)
    then some (empty_batch (refusal_of batch_pair_cap_exceeded ∷ []))
    else (elim (compose_pairs at home r.allowed_execution_classes 0 r.pairs (empty_batch [])) [
      | none ↦ none
      | some b ↦ some (within_budget r.skip_aggregate_budget b)
    ])

-- `STREAM_CHUNK_SIZE`
abbrev pub stream_chunk_size : ℕ
stream_chunk_size = max_operation_files

-- The loop `for (offset = 0; offset < pairs.length; offset += STREAM_CHUNK_SIZE)`, on fuel.
unfoldable pub chunks_from : ℕ → ℕ → List Pair → List (List Pair)
chunks_from zero offset pairs = []
chunks_from (suc n) offset pairs =
    let rest = chunks_from n (offset + stream_chunk_size) pairs in
    if ltb offset (length pairs) then take stream_chunk_size (drop offset pairs) ∷ rest else []

-- The chunks of a stream; the loop makes at most one round for each pair.
unfoldable pub stream_chunks : List Pair → List (List Pair)
unfolding chunks_from
stream_chunks pairs = chunks_from (length pairs) 0 pairs

-- `Math.ceil(pairs.length / STREAM_CHUNK_SIZE) || 1`
abbrev pub at_least_one : ℕ → ℕ
at_least_one zero = 1
at_least_one (suc n) = suc n

unfoldable pub total_chunks : List Pair → ℕ
total_chunks pairs = at_least_one ((length pairs + (stream_chunk_size - 1)) / stream_chunk_size)

-- The request that a stream makes for one chunk.
abbrev pub chunk_request : (ExecutionClass → Bool) → List Pair → BatchRequest
chunk_request allowed chunk = record {
  pairs = chunk;
  cap = some (length chunk);
  allowed_execution_classes = allowed;
  skip_aggregate_budget = true;
}

-- What `composeStreamCleanPlan` yields for a chunk; `none` is a walk that is not over.
pub data StreamItem : Type 0 where
  planned : ℕ → ℕ → Option Batch → StreamItem
  refused_chunk : ℕ → ℕ → CleanReason → StreamItem
  refused_stream : CleanReason → StreamItem

unfoldable pub yield_chunks :
    (ℕ → ℕ → Moment) → Text → (ExecutionClass → Bool) → ℕ → ℕ → List (List Pair) → List StreamItem
yield_chunks at home allowed total i [] = []
yield_chunks at home allowed total i (chunk ∷ chunks) =
    let rest = yield_chunks at home allowed total (suc i) chunks in
    if ltb max_operation_files (length chunk)
    then refused_chunk i total stream_chunk_budget_exceeded ∷ []
    else planned i total (compose_batch_clean_plan (at i) home (chunk_request allowed chunk)) ∷ rest

-- `composeStreamCleanPlan`, for a call that names a stream to resume or none.
unfoldable pub compose_stream_clean_plan :
    (ℕ → ℕ → Moment) → Text → (ExecutionClass → Bool) → Bool → List Pair → List StreamItem
unfolding yield_chunks stream_chunks total_chunks
compose_stream_clean_plan at home allowed resumes pairs =
    if resumes
    then refused_stream stream_resume_not_supported ∷ []
    else yield_chunks at home allowed (total_chunks pairs) 0 (stream_chunks pairs)
