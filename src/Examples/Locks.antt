-- ===== src/Examples/Locks.antt =====
-- Calls of scripts/lib/lock.mjs by two processes.
use claude_housekeeper.Base.{ℕ, ◌≡◌, ◌≢◌, ◌+◌, refl, some, none, Option, arith}
use claude_housekeeper.Lock.{
  World, idle, holding, refused, LockText, unreadable, lock, absent, not_a_date, time, written_lock,
  acquire, run,
}
use claude_housekeeper.Lock.Race.{racing, both_hold}
use claude_housekeeper.Lock.Exclusive.{Reach, here, later, acquires, passes, mutual_exclusion}

abbrev world_with : Option (ℕ × LockText) → World
world_with f = record { file = f; now = 100; pc = λ p. idle }

-- A stale lock of process 9, and no lock.
abbrev stale : World
stale = world_with (some (9, lock (time 99) (time 1)))

abbrev unlocked : World
unlocked = world_with none

acquire_tests :
    ((acquire 1 stale).file ≡ some (1, written_lock 100))
    × ((acquire 2 (acquire 1 unlocked)).pc 2 ≡ refused)
    × ((acquire 2 (world_with (some (9, lock absent (time 50))))).pc 2 ≡ refused)
    × ((acquire 2 (world_with (some (9, lock not_a_date (time 50))))).pc 2 ≡ holding 100)
    × ((acquire 2 (world_with (some (9, unreadable)))).pc 2 ≡ holding 100)
unfolding acquire
acquire_tests = (refl, refl, refl, refl, refl)

abbrev first : ℕ
first = 1

abbrev second : ℕ
second = 2

first_ne_second : first ≢ second
first_ne_second e = omega arith

both_hold_example :
    ((run (racing 1 2) unlocked).pc 1 ≡ holding 100)
    × ((run (racing 1 2) unlocked).pc 2 ≡ holding 100)
both_hold_example = both_hold first second unlocked first_ne_second refl refl refl

-- Process 1 takes the stale lock, time passes, and process 2 is refused.
abbrev later_world : World
later_world = acquire 2 (record (acquire 1 stale) { now = (acquire 1 stale).now + 5 })

history : Reach stale later_world
unfolding acquire
history = later (later (later here (acquires 1 refl)) (passes 5)) (acquires 2 refl)

mutual_exclusion_example : first ≡ first
unfolding acquire
mutual_exclusion_example =
    mutual_exclusion stale later_world (λ p. refl) history first first 100 100 refl (omega arith)
      refl (omega arith)
