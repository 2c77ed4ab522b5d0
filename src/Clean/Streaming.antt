-- ===== src/Clean/Streaming.antt =====
-- scripts/lib/clean-plan.mjs: `executeStreamCleanPlan`. The files of the stream's directory, parent.json as it
-- was last saved and the chunk files in the order of their writing, are kept apart from the disk. What a
-- chunk is composed on, its consent text and what its snapshot draws are arguments.
use claude_housekeeper.Base.{
  [], ℕ, suc, ◌+◌, Bool, true, false, String, Option, none, some, List, ◌∷◌, ◌++◌, length,
  if◌then◌else◌, Result, ok, err,
}
use Prim.Native.Nat.{◌/◌, ◌%◌}
use claude_housekeeper.Contracts.{Text, ExecutionClass}
use claude_housekeeper.Posix.{codes, join, dirname}
use claude_housekeeper.Policy.{ReadJson}
use claude_housekeeper.Disk.{Host, Status, Manifest, Disk}
use claude_housekeeper.Snapshot.{SnapshotError}
use claude_housekeeper.Gc.{gc_snapshots}
use claude_housekeeper.Lock.{World, Pc, holding, acquire, release}
use claude_housekeeper.Stream.{ChunkMeta}
use claude_housekeeper.Clean.Batch.{
  Pair, Moment, Batch, stream_chunks, total_chunks, chunk_request, compose_batch_clean_plan,
}
use claude_housekeeper.Clean.Compose.{CleanOperation}
use claude_housekeeper.Clean.Execution.{Draw, execute_batch_chunk}

pub data ParentStatus : Type 0 where
  in_progress halted verified : ParentStatus

-- `parentManifest`
pub record StreamParent : Type 0 where
  pub total_pairs : ℕ
  pub total : ℕ
  pub completed_chunks : List Text
  pub halted_at_chunk : Option Text
  pub stream_partial : Bool
  pub status : ParentStatus

-- `chunk_${String(chunkIndex).padStart(3, "0")}` below 1000
abbrev pub pad3 : ℕ → Text
pad3 i = (48 + i / 100 % 10) ∷ (48 + i / 10 % 10) ∷ (48 + i % 10) ∷ []

unfoldable pub chunk_slug : ℕ → Text
chunk_slug i = codes "chunk_" ++ pad3 i

-- What the call has written and gathered: the parent as it is saved, the chunk files, `chunkResults`, and
-- the disk. The result of a chunk without a file is `none`.
pub record Progress : Type 0 where
  pub parent : StreamParent
  pub files : List (Text × Option ChunkMeta)
  pub chunks : List (ℕ × Option Manifest)
  pub disk : Disk

-- How the loop is left: at its end or by the next round, by a `break` at a chunk, by an error, or, in the
-- model only, in a walk that is not over.
pub data LoopEnd : Type 0 where
  goes_on : LoopEnd
  breaks : ℕ → LoopEnd
  threw : SnapshotError → LoopEnd
  walk_not_over : LoopEnd

-- The manifest of a chunk as its chunk file holds it; without a file it is the made-up one.
abbrev pub chunk_meta : Option Manifest → ChunkMeta
chunk_meta none = record { id = []; status = Status.verified; partial_apply = false }
chunk_meta (some m) = record { id = m.id; status = m.status; partial_apply = m.partial_apply }

unfoldable pub halt : ℕ → Progress → LoopEnd × Progress
unfolding chunk_slug
halt i s = (
  breaks i,
  record s {
    parent = record s.parent {
      stream_partial = true;
      halted_at_chunk = some (chunk_slug i);
      status = halted;
    };
  },
)

unfoldable pub complete : ℕ → Progress → LoopEnd × Progress
unfolding chunk_slug
complete i s = (
  goes_on,
  record s {
    parent = record s.parent { completed_chunks = s.parent.completed_chunks ++ chunk_slug i ∷ [] };
  },
)

-- After a chunk was executed: its result and its file, then a halt or the next round.
unfoldable pub record_chunk : ℕ → Option Manifest → Progress → LoopEnd × Progress
unfolding halt complete
record_chunk i m s =
    let s' = record s {
      chunks = s.chunks ++ (i, m) ∷ [];
      files = s.files ++ (chunk_slug i ++ codes ".json", some (chunk_meta m)) ∷ [];
    } in
    if (chunk_meta m).partial_apply then halt i s' else complete i s'

-- The calls and arguments of a stream that stay the same over its chunks.
pub record Setting : Type 0 where
  pub host : Host
  pub read : Text → ReadJson
  pub home : Text
  pub at : ℕ → ℕ → Moment
  pub allowed : ExecutionClass → Bool
  pub draws : ℕ → Draw
  pub consent : Batch → String

-- What follows the call of `_executeBatchChunk`.
unfoldable pub conclude_round :
    ℕ → Result SnapshotError (Option Manifest) × Disk → Progress → LoopEnd × Progress
unfolding record_chunk
conclude_round i (err e, d) s = (threw e, record s { disk = d })
conclude_round i (ok m, d) s = record_chunk i m (record s { disk = d })

-- A chunk without an operation halts the stream, any other is executed.
unfoldable pub execute_round :
    Setting → ℕ → String → List CleanOperation → Progress → LoopEnd × Progress
unfolding conclude_round halt
execute_round g i consent [] s = halt i s
execute_round g i consent (op ∷ ops) s =
    conclude_round i
      (execute_batch_chunk g.host g.read (dirname g.home) (g.draws i) consent (op ∷ ops) s.disk) s

unfoldable pub batch_round : Setting → ℕ → Option Batch → Progress → LoopEnd × Progress
unfolding execute_round
batch_round g i none s = (walk_not_over, s)
batch_round g i (some b) s = execute_round g i (g.consent b) b.operations s

-- One round of the loop.
unfoldable pub stream_round : Setting → ℕ → List Pair → Progress → LoopEnd × Progress
unfolding batch_round
stream_round g i chunk s =
    batch_round g i (compose_batch_clean_plan (g.at i) g.home (chunk_request g.allowed chunk)) s

-- What the loop does after a round that does not leave it.
unfoldable pub go_on : LoopEnd × Progress → (Progress → LoopEnd × Progress) → LoopEnd × Progress
go_on (goes_on, s) rest = rest s
go_on (breaks i, s) rest = (breaks i, s)
go_on (threw e, s) rest = (threw e, s)
go_on (walk_not_over, s) rest = (walk_not_over, s)

-- The loop over the chunks, from number `i` on.
unfoldable pub stream_rounds : Setting → ℕ → List (List Pair) → Progress → LoopEnd × Progress
unfolding go_on stream_round
stream_rounds g i [] s = (goes_on, s)
stream_rounds g i (chunk ∷ chunks) s =
    go_on (stream_round g i chunk s) (λ s'. stream_rounds g (suc i) chunks s')

-- After the loop: where no chunk halted the stream, its parent is saved as verified.
unfoldable pub conclude_stream : LoopEnd × Progress → LoopEnd × Progress
conclude_stream (goes_on, s) =
    (goes_on, record s { parent = record s.parent { status = ParentStatus.verified } })
conclude_stream (breaks i, s) = (breaks i, s)
conclude_stream (threw e, s) = (threw e, s)
conclude_stream (walk_not_over, s) = (walk_not_over, s)

-- The parent that is saved before the loop.
abbrev pub new_parent : List Pair → StreamParent
new_parent pairs = record {
  total_pairs = length pairs;
  total = total_chunks pairs;
  completed_chunks = [];
  halted_at_chunk = none;
  stream_partial = false;
  status = in_progress;
}

-- How a call ends: with the lock's error, with an error of the steps between taking the lock and the `try`,
-- or with what the `try` left.
pub data StreamOutcome : Type 0 where
  lock_held not_prepared : StreamOutcome
  ran : LoopEnd × Progress → StreamOutcome

pub record StreamRun : Type 0 where
  pub outcome : StreamOutcome
  pub world : World

-- Before the first chunk, on the disk that `gcSnapshots` left.
abbrev pub start_stream : Setting → List Text → List Pair → Disk → Progress
start_stream g listing pairs d = record {
  parent = new_parent pairs;
  files = [];
  chunks = [];
  disk = (gc_snapshots g.host (join (dirname g.home) (codes ".claude")) listing d).1;
}

-- The body of the `try`.
unfoldable pub run_stream : Setting → List Text → List Pair → Disk → LoopEnd × Progress
unfolding stream_rounds conclude_stream stream_chunks total_chunks
run_stream g listing pairs d =
    conclude_stream (stream_rounds g 0 (stream_chunks pairs) (start_stream g listing pairs d))

-- The `try` releases the lock in its `finally`; an error before it does not.
unfoldable pub under_lock : ℕ → World → Bool → Pc → LoopEnd × Progress → StreamRun
under_lock p w prepared (holding _) run =
    if prepared
    then record { outcome = ran run; world = release p w }
    else record { outcome = not_prepared; world = w }
under_lock p w prepared _ run = record { outcome = lock_held; world = w }

-- `executeStreamCleanPlan`, by a process; `prepared` says whether making the directory of the stream and
-- saving parent.json for the first time succeed.
unfoldable pub execute_stream_clean_plan :
    Setting → ℕ → Bool → List Text → List Pair → World → Disk → StreamRun
unfolding under_lock run_stream
execute_stream_clean_plan g p prepared listing pairs w d =
    let locked = acquire p w in
    under_lock p locked prepared (locked.pc p) (run_stream g listing pairs d)
