-- ===== src/Examples/Streams.antt =====
-- A stream of three chunks, the last of which was applied in part.
use claude_housekeeper.Base.{
  [], ◌≡◌, ◌≢◌, refl, true, false, some, none, ◌∷◌, List, map, Option, arith,
}
use mathlib.Core.List.{Perm}
use claude_housekeeper.Contracts.{Text}
use claude_housekeeper.Posix.{codes}
use claude_housekeeper.Disk.{Status, verified, applied}
use claude_housekeeper.Stream.{
  ChunkMeta, StreamDir, parsed, Chunk, chunk_of, collect_chunks, sort_chunks, plan_chunk, sub_plans,
  compose_stream_rollback_plan,
}
use claude_housekeeper.Stream.Ordering.{IsReversed, compose_stream_rollback_plan_order}
use claude_housekeeper.Examples.Snapshots.{host, empty_disk}

abbrev meta : Text → Status → ChunkMeta
meta i s = record { id = i; status = s; partial_apply = false }

abbrev files : List (Text × Option ChunkMeta)
files =
    (codes "parent.json", some (meta (codes "p") applied))
    ∷ (codes "chunk_000.json", some (meta (codes "a") verified))
    ∷ (codes "chunk_001.json", some (meta (codes "b") verified))
    ∷ (codes "chunk_002.json", none)
    ∷ (codes "chunk_003.json", some (record (meta (codes "c") applied) { partial_apply = true }))
    ∷ []

abbrev stream : StreamDir
stream = record { parent = parsed; listing = some files }

abbrev chunk : Text → ChunkMeta → Option Chunk
chunk name m = chunk_of name (some m)

sort_chunks_tests :
    map (λ c. c.op_id) (sort_chunks (collect_chunks files)) ≡ codes "c" ∷ codes "b" ∷ codes "a" ∷ []
unfolding sort_chunks collect_chunks
sort_chunks_tests = refl

has_chunks : collect_chunks files ≢ []
unfolding collect_chunks
has_chunks e = ground arith

compose_stream_rollback_plan_order_example :
    (order : List Chunk) × (compose_stream_rollback_plan host empty_disk stream
      ≡ sub_plans (map (plan_chunk host empty_disk) order))
    × IsReversed order
    × Perm order (collect_chunks files)
compose_stream_rollback_plan_order_example =
    compose_stream_rollback_plan_order host empty_disk stream refl refl has_chunks
