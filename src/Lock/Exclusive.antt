-- ===== src/Lock/Exclusive.antt =====
-- Mutual exclusion of the lock of scripts/lib/lock.mjs where no call is interrupted and no holder keeps
-- the lock beyond its window.
use claude_housekeeper.Base.{ℕ, ◌+◌, ◌<◌, ◌≡◌, false, some, arith}
use native.Mathlib.Decide.{ℕ_discrete}
use claude_housekeeper.Lock.{
  World, Pc, idle, holding, refused, is_held, written_lock, lock_stale_window_ms, put_pc, acquire,
  release,
}
use claude_housekeeper.Lock.Alone.{is_free, acquire_lem, acquire-pc_ne}

-- Whole calls, one after the other: an idle process calls `acquireLock`, a holder releases before its
-- window ends, a refused process gives up, time passes.
pub data Step (w : World) : World → Type 0 where
  acquires : (p : ℕ) → w.pc p ≡ idle → Step w (acquire p w)
  releases :
      (p began : ℕ)
      → w.pc p ≡ holding began
      → w.now < began + lock_stale_window_ms
      → Step w (release p w)
  gives_up : (p : ℕ) → w.pc p ≡ refused → Step w (record w { pc = put_pc w.pc p idle })
  passes : (n : ℕ) → Step w (record w { now = w.now + n })

pub data Reach (w : World) : World → Type 0 where
  here : Reach w w
  later : {u v : World} → Reach w u → Step u v → Reach w v

-- A process that has held the lock for less than the window owns the lockfile.
abbrev pub IsOwned : World → Type 0
IsOwned w =
    (p began : ℕ)
    → w.pc p ≡ holding began
    → w.now < began + lock_stale_window_ms
    → w.file ≡ some (p, written_lock began)

not-is_free_of_owned :
    (p began now : ℕ)
    → now < began + lock_stale_window_ms
    → is_free now (some (p, written_lock began)) ≡ false
unfolding is_held
not-is_free_of_owned p began now h = ground arith

acquire-IsOwned : (p : ℕ) (w : World) → w.pc p ≡ idle → IsOwned w → IsOwned (acquire p w)
acquire-IsOwned p w e own q began held fresh = elim (ℕ_discrete p q) [
  | yes same ↦ ground (arith, acquire_lem p w e)
  | no other ↦ ground (
    arith,
    acquire_lem p w e,
    acquire-pc_ne p q w other e,
    own q began,
    not-is_free_of_owned q began w.now,
  )
]

release-IsOwned :
    (p b : ℕ) (w : World)
    → w.pc p ≡ holding b
    → w.now < b + lock_stale_window_ms
    → IsOwned w
    → IsOwned (release p w)
unfolding release
release-IsOwned p b w e f own q began held fresh = elim (ℕ_discrete p q) [
  | yes same ↦ ground arith
  | no other ↦ ground (arith, own p b, own q began)
]

idle_not_holding : {s : Pc} {b : ℕ} → s ≡ idle → s ≡ holding b → ⊥
idle_not_holding e h = cc

Step-IsOwned : {w v : World} → Step w v → IsOwned w → IsOwned v
Step-IsOwned (acquires p e) own = acquire-IsOwned p _ e own
Step-IsOwned (releases p b e f) own = release-IsOwned p b _ e f own
Step-IsOwned (gives_up p e) own = λ q began held fresh. ground (arith, own q began)
Step-IsOwned (passes n) own = λ q began held fresh. ground (arith, own q began)

Reach-IsOwned : {w v : World} → Reach w v → IsOwned w → IsOwned v
Reach-IsOwned here own = own
Reach-IsOwned (later r s) own = Step-IsOwned s (Reach-IsOwned r own)

-- Where every call runs uninterrupted and every holder releases within its window, two processes
-- that hold the lock within their windows are the same process.
pub mutual_exclusion :
    (w v : World)
    → ((p : ℕ) → w.pc p ≡ idle)
    → Reach w v
    → (p q b c : ℕ) → v.pc p ≡ holding b
    → v.now < b + lock_stale_window_ms
    → v.pc q ≡ holding c
    → v.now < c + lock_stale_window_ms
    → p ≡ q
mutual_exclusion w v start r p q b c hp fp hq fq =
    let own = Reach-IsOwned r (λ k began held fresh. absurd (idle_not_holding (start k) held)) in
    cc (own p b hp fp, own q c hq fq)
