-- ===== src/Lock/Alone.antt =====
-- Calls of `acquireLock` and `releaseLock` of scripts/lib/lock.mjs that no other process interrupts.
use claude_housekeeper.Base.{ℕ, ◌≡◌, ◌≢◌, ◌⊎◌, Bool, true, false, not, Option, none, some, arith}
use claude_housekeeper.Lock.{
  World, idle, holding, refused, LockText, is_held, written_lock, acquire, release,
}

-- The lockfile is missing, unreadable or stale.
abbrev pub is_free : ℕ → Option (ℕ × LockText) → Bool
is_free now none = true
is_free now (some (owner, text)) = not (is_held now text)

-- What a whole call of `acquireLock` leaves.
pub record Acquired (p : ℕ) (w w' : World) : Type 0 where
  pub outcome :
      ((is_free w.now w.file ≡ true)
        × (w'.file ≡ some (p, written_lock w.now))
        × (w'.pc p ≡ holding w.now))
      ⊎ ((is_free w.now w.file ≡ false) × (w'.file ≡ w.file) × (w'.pc p ≡ refused))
  pub same_time : w'.now ≡ w.now

-- An uninterrupted call of `acquireLock` by an idle process gets the lock exactly when the lockfile is
-- missing, unreadable or stale, and then the file is its own; otherwise it is refused and the file is
-- as it was.
pub acquire_lem : (p : ℕ) (w : World) → w.pc p ≡ idle → Acquired p w (acquire p w)
unfolding acquire
acquire_lem p w e = ground arith

pub acquire-pc_ne : (p q : ℕ) (w : World) → p ≢ q → w.pc p ≡ idle → (acquire p w).pc q ≡ w.pc q
unfolding acquire
acquire-pc_ne p q w n e = ground arith

-- A call of `acquireLock` that gets the lock, then the release: the lockfile is gone, and the process is
-- idle again.
pub release-acquire :
    (p : ℕ) (w : World)
    → w.pc p ≡ idle
    → is_free w.now w.file ≡ true
    → ((release p (acquire p w)).file ≡ none) × ((release p (acquire p w)).pc p ≡ idle)
unfolding release
release-acquire p w e f = ground (arith, acquire_lem p w e)
