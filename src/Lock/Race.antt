-- ===== src/Lock/Race.antt =====
-- Two processes that call `acquireLock` of scripts/lib/lock.mjs at once.
use claude_housekeeper.Base.{[], ℕ, ◌≡◌, ◌≢◌, none, List, ◌∷◌, arith}
use claude_housekeeper.Lock.{World, idle, holding, run}

-- The schedule in which `q` runs its whole call between the creation of the lockfile by `p` and the
-- writing of its manifest.
abbrev pub racing : ℕ → ℕ → List ℕ
racing p q = p ∷ q ∷ q ∷ q ∷ q ∷ q ∷ p ∷ []

-- From any world with a free lock, two idle processes can both come to hold the lock.
pub both_hold :
    (p q : ℕ) (w : World)
    → p ≢ q
    → w.file ≡ none
    → w.pc p ≡ idle
    → w.pc q ≡ idle
    → ((run (racing p q) w).pc p ≡ holding w.now) × ((run (racing p q) w).pc q ≡ holding w.now)
unfolding run
both_hold p q w n f hp hq = ground arith
