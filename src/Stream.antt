-- ===== src/Stream.antt =====
-- scripts/lib/rollback-plan.mjs: `_composeStreamRollbackPlan`, the plan that rolls back a whole stream.
-- `parseInt` reads the digits that a name begins with; names that begin with a sign or a space, which
-- the stream writer does not make, have no index here.
pub mod Ordering
use claude_housekeeper.Base.{
  [], ℕ, ◌+◌, ◌-◌, ◌*◌, Bool, true, false, not, ◌&&◌, ltb, leb, Option, none, some, List, ◌∷◌, map,
  length, take, drop, if◌then◌else◌,
}
use claude_housekeeper.Contracts.{Text}
use claude_housekeeper.Posix.{codes, starts_with, ends_with}
use claude_housekeeper.Disk.{Host, Status, Disk}
use claude_housekeeper.Rollback.{is_rollbackable, Plan, compose_rollback_plan}

-- What a chunk manifest file holds, where it parses.
pub record ChunkMeta : Type 0 where
  pub id : Text
  pub status : Status
  pub partial_apply : Bool

-- parent.json as it is read
pub data ParentFile : Type 0 where
  missing malformed parsed : ParentFile

-- A stream's directory: parent.json, and the listing with what each file holds; `none` where the
-- directory cannot be read, and for a file that cannot be parsed.
pub record StreamDir : Type 0 where
  pub parent : ParentFile
  pub listing : Option (List (Text × Option ChunkMeta))

pub record Chunk : Type 0 where
  pub chunk_index : ℕ
  pub op_id : Text
  pub partial_apply : Bool

pub data StreamRefusal : Type 0 where
  stream_manifest_not_found stream_manifest_malformed stream_no_rollbackable_chunks : StreamRefusal

pub record SubPlan : Type 0 where
  pub chunk_index : ℕ
  pub plan : Plan

pub data StreamPlan : Type 0 where
  refused : StreamRefusal → StreamPlan
  sub_plans : List SubPlan → StreamPlan

abbrev pub is_digit : ℕ → Bool
is_digit c = leb b'0' c && leb c b'9'

-- The digits from here on, after a number that was read.
abbrev pub digits_from : ℕ → Text → ℕ
digits_from acc [] = acc
digits_from acc (c ∷ s) = if is_digit c then digits_from (acc * 10 + (c - b'0')) s else acc

-- `parseInt(text, 10)`; `none` is NaN.
unfoldable pub parse_int : Text → Option ℕ
parse_int [] = none
parse_int (c ∷ s) = if is_digit c then some (digits_from (c - b'0') s) else none

-- One round of the loop over the directory: the chunk of a file, if it counts.
unfoldable pub chunk_of : Text → Option ChunkMeta → Option Chunk
unfolding parse_int
chunk_of name none = none
chunk_of name (some meta) =
    if starts_with name (codes "chunk_")
      && ends_with name (codes ".json")
      && is_rollbackable meta.status
    then elim (parse_int (take (length name - 11) (drop 6 name))) [
      | none ↦ none
      | some i ↦
          some (record { chunk_index = i; op_id = meta.id; partial_apply = meta.partial_apply })
    ]
    else none

unfoldable pub collect_chunks : List (Text × Option ChunkMeta) → List Chunk
unfolding chunk_of
collect_chunks [] = []
collect_chunks ((name, meta) ∷ files) = elim (chunk_of name meta) [
  | none ↦ collect_chunks files
  | some c ↦ c ∷ collect_chunks files
]

-- Whether the comparison of `chunkManifests.sort` puts `a` strictly before `b`.
abbrev pub chunk_before : Chunk → Chunk → Bool
chunk_before a b =
    if a.partial_apply && not b.partial_apply
    then true
    else if not a.partial_apply && b.partial_apply
    then false
    else ltb b.chunk_index a.chunk_index

unfoldable pub insert_chunk : Chunk → List Chunk → List Chunk
insert_chunk c [] = c ∷ []
insert_chunk c (k ∷ ks) = if chunk_before k c then k ∷ insert_chunk c ks else c ∷ k ∷ ks

unfoldable pub sort_chunks : List Chunk → List Chunk
unfolding insert_chunk
sort_chunks [] = []
sort_chunks (c ∷ cs) = insert_chunk c (sort_chunks cs)

unfoldable pub plan_chunk : Host → Disk → Chunk → SubPlan
plan_chunk h d c = record { chunk_index = c.chunk_index; plan = compose_rollback_plan h d c.op_id }

abbrev pub plan_chunks : Host → Disk → List Chunk → StreamPlan
plan_chunks h d [] = refused stream_no_rollbackable_chunks
plan_chunks h d (c ∷ cs) = sub_plans (map (plan_chunk h d) (sort_chunks (c ∷ cs)))

unfoldable pub plan_listing : Host → Disk → Option (List (Text × Option ChunkMeta)) → StreamPlan
unfolding collect_chunks sort_chunks plan_chunk
plan_listing h d none = refused stream_manifest_not_found
plan_listing h d (some files) = plan_chunks h d (collect_chunks files)

-- `_composeStreamRollbackPlan`
unfoldable pub compose_stream_rollback_plan : Host → Disk → StreamDir → StreamPlan
unfolding plan_listing
compose_stream_rollback_plan h d s = elim s.parent [
  | missing ↦ refused stream_manifest_not_found
  | malformed ↦ refused stream_manifest_malformed
  | parsed ↦ plan_listing h d s.listing
]
