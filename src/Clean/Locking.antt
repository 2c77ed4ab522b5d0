-- ===== src/Clean/Locking.antt =====
-- The lock around `executeCleanPlan` and `executeBatchCleanPlan` of scripts/lib/clean-plan.mjs.
use claude_housekeeper.Base.{ℕ, ◌≡◌, ◌⊎◌, inl, inr, refl, true, false, none, List, String, err}
use claude_housekeeper.Contracts.{Text}
use claude_housekeeper.Posix.{codes, join, dirname}
use claude_housekeeper.Policy.{ReadJson}
use claude_housekeeper.Disk.{Host, Disk}
use claude_housekeeper.Gc.{gc_snapshots}
use claude_housekeeper.Lock.{World, idle, acquire}
use claude_housekeeper.Lock.Alone.{is_free, acquire_lem, release-acquire}
use claude_housekeeper.Clean.Compose.{CleanOperation}
use claude_housekeeper.Clean.Execution.{
  Draw, Outcome, Run, lock_held, lift, with_lock, execute_batch_chunk, execute_operations,
  execute_batch_clean_plan, execute_clean_plan,
}

-- A run of a body under the lock: with the lock held by another nothing happens; else the body runs
-- once, and the lock is free again whether the body returned or threw.
abbrev pub IsLocked : ℕ → World → Disk → Outcome → Run → Type 0
IsLocked p w d body run =
    ((is_free w.now w.file ≡ false)
      × (run.result ≡ err lock_held)
      × (run.disk ≡ d)
      × (run.world.file ≡ w.file))
    ⊎ ((is_free w.now w.file ≡ true)
        × (run.result ≡ lift body.0)
        × (run.disk ≡ body.1)
        × (run.world.file ≡ none)
        × (run.world.pc p ≡ idle))

with_lock-IsLocked :
    (p : ℕ) (w : World) (d : Disk) (body : Disk → Outcome)
    → w.pc p ≡ idle
    → IsLocked p w d (body d) (with_lock p (acquire p w) d ((acquire p w).pc p) body)
unfolding with_lock
with_lock-IsLocked p w d body i =
    let a = acquire_lem p w i in
    elim a.outcome [
      | inl (free, mine, held) ↦
          let (gone, left) = release-acquire p w i free in
          inr (free, rw held refl, rw held refl, rw held gone, rw held left)
      | inr (busy, same, out) ↦ inl (busy, rw out refl, rw out refl, rw out same)
    ]

-- The disk after `gcSnapshots`.
abbrev pub collected : Host → Text → List Text → Disk → Disk
collected h home listing d = (gc_snapshots h (join (dirname home) (codes ".claude")) listing d).1

module _ (h : Host) (read : Text → ReadJson) (home : Text) (p : ℕ) (listing : List Text)
    (ops : List CleanOperation) (w : World) (d : Disk) where
  pub execute_batch_clean_plan-IsLocked :
      (draw : Draw) (consent : String)
      → w.pc p ≡ idle
      → IsLocked p w d
          (execute_batch_chunk h read (dirname home) draw consent ops (collected h home listing d))
          (execute_batch_clean_plan h read home p draw consent listing ops w d)
  unfolding execute_batch_clean_plan
  execute_batch_clean_plan-IsLocked draw consent i = with_lock-IsLocked p w d _ i

  -- A call of `executeCleanPlan` by an idle process: where the lock is held by another, it throws and
  -- changes nothing. Else its loop over the operations runs once, on the disk that `gcSnapshots` left, its
  -- result or error is passed on, and the lock is free again in either case.
  pub execute_clean_plan-IsLocked :
      (draws : ℕ → Draw) (consent : CleanOperation → String)
      → w.pc p ≡ idle
      → IsLocked p w d
          (execute_operations h read
            (dirname home)
            draws
            consent
            0
            ops
            none
            (collected h home listing d))
          (execute_clean_plan h read home p draws consent listing ops w d)
  unfolding execute_clean_plan
  execute_clean_plan-IsLocked draws consent i = with_lock-IsLocked p w d _ i
