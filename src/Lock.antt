-- ===== src/Lock.antt =====
-- scripts/lib/lock.mjs: the lockfile protocol, one file-system call at a time, so that the calls of
-- several processes can interleave. The lock.history lines, which never fail a call, are left out.
-- Times are in milliseconds; a date text that does not parse is `none`.
pub mod Alone
pub mod Race
pub mod Exclusive
use claude_housekeeper.Base.{
  [], ℕ, ◌+◌, ◌*◌, Bool, false, ◌==◌, ltb, Option, none, some, List, ◌∷◌, if◌then◌else◌,
}

-- `LOCK_STALE_WINDOW_MS`
abbrev pub lock_stale_window_ms : ℕ
lock_stale_window_ms = 30 * 60 * 1000

-- A date field of a parsed lockfile: absent or no string, a string that is no date, or a time.
pub data DateField : Type 0 where
  absent : DateField
  not_a_date : DateField
  time : ℕ → DateField

-- What a reader finds in the lockfile.
pub data LockText : Type 0 where
  unreadable : LockText
  lock : DateField → DateField → LockText

-- The `stalenessAt` that `acquireLock` computes from `existing.stalenessAt` and `existing.startedAt`.
unfoldable pub staleness_of : DateField → DateField → Option ℕ
staleness_of (time t) _ = some t
staleness_of not_a_date _ = none
staleness_of absent (time t) = some (t + lock_stale_window_ms)
staleness_of absent not_a_date = none
staleness_of absent absent = none

-- Whether the lock that was read makes `acquireLock` throw at a time.
unfoldable pub is_held : ℕ → LockText → Bool
unfolding staleness_of
is_held now unreadable = false
is_held now (lock staleness_at started_at) = elim (staleness_of staleness_at started_at) [
  | none ↦ false
  | some t ↦ ltb now t
]

-- Where a process stands; the number is the time at which its call of `acquireLock` began.
pub data Pc : Type 0 where
  idle : Pc
  writing : ℕ → Pc
  inspecting : ℕ → Pc
  unlinking : ℕ → Pc
  retrying : ℕ → Pc
  holding : ℕ → Pc
  refused : Pc

-- The lockfile with the process that created it, the clock, and the processes.
pub record World : Type 0 where
  pub file : Option (ℕ × LockText)
  pub now : ℕ
  pub pc : ℕ → Pc

abbrev pub put_pc : (ℕ → Pc) → ℕ → Pc → ℕ → Pc
put_pc f p v q = if p == q then v else f q

-- The manifest that a process writes, for a call that began at a time.
abbrev pub written_lock : ℕ → LockText
written_lock began = lock (time (began + lock_stale_window_ms)) (time began)

-- `open(lockPath, "wx")`: a new, still empty file, or EEXIST.
unfoldable pub open_excl : ℕ → ℕ → Pc → World → World
open_excl p began busy w = elim w.file [
  | none ↦ record w { file = some (p, unreadable); pc = put_pc w.pc p (writing began) }
  | some _ ↦ record w { pc = put_pc w.pc p busy }
]

-- `fh.writeFile(manifest)`: it writes to the file that the process created, even where that file has
-- been unlinked and the path names another.
unfoldable pub write_manifest : ℕ → ℕ → Option (ℕ × LockText) → Option (ℕ × LockText)
write_manifest p began none = none
write_manifest p began (some (owner, text)) =
    if p == owner then some (owner, written_lock began) else some (owner, text)

-- The decision of `acquireLock` on what it read; a file that has gone reads as `null`.
unfoldable pub inspect : ℕ → ℕ → Option (ℕ × LockText) → Pc
unfolding is_held
inspect now began none = unlinking began
inspect now began (some (owner, text)) = if is_held now text then refused else unlinking began

-- The next file-system call of `acquireLock` by process `p`, by where it stands.
unfoldable pub advance : Pc → ℕ → World → World
unfolding open_excl write_manifest inspect
advance idle p w = open_excl p w.now (inspecting w.now) w
advance (writing began) p w = record w {
  file = write_manifest p began w.file;
  pc = put_pc w.pc p (holding began);
}
advance (inspecting began) p w = record w { pc = put_pc w.pc p (inspect w.now began w.file) }
advance (unlinking began) p w = record w { file = none; pc = put_pc w.pc p (retrying began) }
advance (retrying began) p w = open_excl p began refused w
advance (holding began) p w = w
advance refused p w = w

unfoldable pub move : ℕ → World → World
unfolding advance
move p w = advance (w.pc p) p w

-- `releaseLock` by a holder: it unlinks whatever stands at the path.
unfoldable pub release_from : Pc → ℕ → World → World
release_from (holding _) p w = record w { file = none; pc = put_pc w.pc p idle }
release_from _ p w = w

unfoldable pub release : ℕ → World → World
unfolding release_from
release p w = release_from (w.pc p) p w

-- A call of `acquireLock` that no other process interrupts makes at most five calls.
unfoldable pub acquire : ℕ → World → World
unfolding move
acquire p w = move p (move p (move p (move p (move p w))))

-- A schedule: which process makes its next call.
unfoldable pub run : List ℕ → World → World
unfolding move
run [] w = w
run (p ∷ ps) w = run ps (move p w)
