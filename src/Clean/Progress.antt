-- ===== src/Clean/Progress.antt =====
-- How `executeStreamCleanPlan` of scripts/lib/clean-plan.mjs ends, and what parent.json says then.
use claude_housekeeper.Base.{
  [], ℕ, suc, ◌+◌, ◌<◌, ◌≡◌, refl, ◌⊎◌, inl, inr, Bool, true, false, none, some, List, ◌∷◌, length,
  arith, Bool-cases,
}
use claude_housekeeper.Contracts.{Text}
use claude_housekeeper.Disk.{Disk}
use claude_housekeeper.Lock.{World, idle}
use claude_housekeeper.Lock.Alone.{is_free, acquire_lem, release-acquire}
use claude_housekeeper.Lock.{written_lock}
use claude_housekeeper.Clean.Batch.{Pair, stream_chunks}
use claude_housekeeper.Clean.Streaming.{
  ran, not_prepared, ParentStatus, Progress, LoopEnd, goes_on, breaks, threw, walk_not_over,
  Setting, stream_round, go_on, stream_rounds, conclude_stream, start_stream, run_stream,
  under_lock, execute_stream_clean_plan,
}
use claude_housekeeper.Clean.Rounds.{
  IsCompleted, IsUnhalted, IsGoing, IsLeft, IsRound, AreFinite, stream_round-IsRound,
}

-- Of `n` chunks, all were executed, or the loop was left at one of them.
abbrev IsLoop : ℕ → LoopEnd × Progress → Type 0
IsLoop n (e, s) = ((e ≡ goes_on) × IsGoing n s) ⊎ ((k : ℕ) × (k < n) × IsLeft k e s)

go_on-IsLoop :
    (i n : ℕ) (r : LoopEnd × Progress) (rest : Progress → LoopEnd × Progress)
    → i < n
    → IsRound i r
    → ((s : Progress) → IsGoing (suc i) s → IsLoop n (rest s))
    → IsLoop n (go_on r rest)
unfolding go_on
go_on-IsLoop i n (goes_on, s) rest b (inl (e, h)) k = k s h
go_on-IsLoop i n (goes_on, s) rest b (inr h) k = absurd h
go_on-IsLoop i n (breaks j, s) rest b (inl (e, h)) k = absurd (ground (arith, e))
go_on-IsLoop i n (breaks j, s) rest b (inr h) k = inr (i, b, h)
go_on-IsLoop i n (threw x, s) rest b (inl (e, h)) k = absurd (ground (arith, e))
go_on-IsLoop i n (threw x, s) rest b (inr h) k = inr (i, b, h)
go_on-IsLoop i n (walk_not_over, s) rest b (inl (e, h)) k = absurd (ground (arith, e))
go_on-IsLoop i n (walk_not_over, s) rest b (inr h) k = inr (i, b, h)

stream_rounds-IsLoop :
    (g : Setting) (n i : ℕ) (chunks : List (List Pair)) (s : Progress)
    → AreFinite g
    → i + length chunks ≡ n
    → IsGoing i s
    → IsLoop n (stream_rounds g i chunks s)
unfolding stream_rounds
stream_rounds-IsLoop g n i [] s finite e h =
    let same : i ≡ n = omega (arith, e) in inl (refl, rw (← same) h)
stream_rounds-IsLoop g n i (chunk ∷ chunks) s finite e h =
    go_on-IsLoop i n (stream_round g i chunk s) (λ s'. stream_rounds g (suc i) chunks s')
      (omega (arith, e)) (stream_round-IsRound g i chunk s finite h)
      (λ s' h'. stream_rounds-IsLoop g n (suc i) chunks s' finite (omega (arith, e)) h')

-- A call has ended: all `n` chunks were executed and parent.json says so, or it was left at one of them.
abbrev pub IsEnded : ℕ → LoopEnd × Progress → Type 0
IsEnded n (e, s) =
    ((e ≡ goes_on) × IsUnhalted ParentStatus.verified s.parent × IsCompleted n s s.chunks)
    ⊎ ((k : ℕ) × (k < n) × IsLeft k e s)

conclude_stream-IsEnded :
    (n : ℕ) (r : LoopEnd × Progress) → IsLoop n r → IsEnded n (conclude_stream r)
unfolding conclude_stream
conclude_stream-IsEnded n (goes_on, s) (inl (e, h)) = inl (
  refl,
  (refl, h.unhalted.1, h.unhalted.2),
  record {
    whole = h.done.whole;
    numbered = h.done.numbered;
    completed = h.done.completed;
    files = h.done.files;
  },
)
conclude_stream-IsEnded n (goes_on, s) (inr (k, b, h)) = absurd h
conclude_stream-IsEnded n (breaks j, s) (inl (e, h)) = absurd (ground (arith, e))
conclude_stream-IsEnded n (breaks j, s) (inr h) = inr h
conclude_stream-IsEnded n (threw x, s) (inl (e, h)) = absurd (ground (arith, e))
conclude_stream-IsEnded n (threw x, s) (inr h) = inr h
conclude_stream-IsEnded n (walk_not_over, s) (inl (e, h)) = absurd (ground (arith, e))
conclude_stream-IsEnded n (walk_not_over, s) (inr h) = inr h

run_stream-IsEnded :
    (g : Setting) (listing : List Text) (pairs : List Pair) (d : Disk)
    → AreFinite g
    → IsEnded (length (stream_chunks pairs)) (run_stream g listing pairs d)
unfolding run_stream
run_stream-IsEnded g listing pairs d finite =
    let n = length (stream_chunks pairs) in
    conclude_stream-IsEnded n
      (stream_rounds g 0 (stream_chunks pairs) (start_stream g listing pairs d))
      (stream_rounds-IsLoop g n 0 (stream_chunks pairs) (start_stream g listing pairs d) finite
        (omega arith)
        (record {
          done = record { whole = tt; numbered = refl; completed = refl; files = refl };
          unhalted = (refl, refl, refl);
        }))

-- A call of `executeStreamCleanPlan` by an idle process where the lock is free and the files are finite.
-- Where the stream's directory and its first parent.json are written, it runs to an end, and the lock is
-- free again: either all chunks were executed, parent.json is `verified` and has them as completed; or the
-- loop was left at one chunk, and exactly the chunks before it are completed: parent.json is `halted` with
-- the number of this chunk, and at most its own result, applied in part, is added; or, after an error, it is
-- still `in_progress`. There is one file for each result, and no completed chunk is partial. Where they are
-- not written, the call throws, and the lockfile of the process stays.
pub execute_stream_clean_plan-IsEnded :
    (g : Setting) (p : ℕ) (prepared : Bool) (listing : List Text) (pairs : List Pair) (w : World)
    (d : Disk)
    → AreFinite g
    → w.pc p ≡ idle
    → is_free w.now w.file ≡ true
    → let run = execute_stream_clean_plan g p prepared listing pairs w d in
      ((prepared ≡ true)
        × (run.world.file ≡ none)
        × (run.world.pc p ≡ idle)
        × (r : LoopEnd × Progress) × (run.outcome ≡ ran r)
        × IsEnded (length (stream_chunks pairs)) r)
      ⊎ ((prepared ≡ false)
          × (run.outcome ≡ not_prepared)
          × (run.world.file ≡ some (p, written_lock w.now)))
unfolding execute_stream_clean_plan under_lock
execute_stream_clean_plan-IsEnded g p prepared listing pairs w d finite i free =
    let a = acquire_lem p w i in
    let (gone, left) = release-acquire p w i free in
    let end = run_stream-IsEnded g listing pairs d finite in
    elim a.outcome [
      | inl (f, mine, held) ↦ elim (Bool-cases prepared) [
        | inl ready ↦ inl (
          ready,
          rw (held, ready) gone,
          rw (held, ready) left,
          run_stream g listing pairs d,
          rw (held, ready) refl,
          end,
        )
        | inr unready ↦ inr (unready, rw (held, unready) refl, rw (held, unready) mine)
      ]
      | inr (busy, same, out) ↦ absurd (ground (arith, busy, free))
    ]
