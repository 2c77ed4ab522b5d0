-- ===== src/Snapshot/Config.antt =====
-- Which config file the protection check of `takeSnapshot` in scripts/lib/snapshot.mjs reads.
use claude_housekeeper.Base.{
  [], ℕ, ◌≤◌, ◌≡◌, refl, Bool, not, All, filter, false, none, List, ◌∷◌, arith, length, ltb, ok,
  Bool-cases, inl, inr,
}
use claude_housekeeper.Contracts.{Text}
use claude_housekeeper.Posix.{codes, join, text_eq}
use claude_housekeeper.Policy.{ReadJson, missing, first_config, load_config}
use claude_housekeeper.Disk.{Host, Disk}
use claude_housekeeper.Snapshot.{
  SnapshotOptions, max_operation_files, max_operation_bytes, total_bytes, blocking_rule,
  blocked_targets, write_snapshot, snapshot_unblocked, snapshot_counted, take_snapshot,
}

-- The two files that `loadConfig` looks for without an explicit path.
abbrev pub main_config : Text → Text
main_config home = join (join home (codes "housekeeper")) (codes "config.json")

abbrev pub short_config : Text → Text
short_config home = join home (codes "housekeeper.json")

first_config-missing :
    (read : Text → ReadJson) (p : Text → Bool) (files : List Text)
    → All (λ f. read f ≡ missing) files
    → (first_config read (filter p files)).rules ≡ []
unfolding first_config
first_config-missing read p [] m = refl
first_config-missing read p (f ∷ fs) (m, ms) = elim (Bool-cases (p f)) [
  | inl e ↦ rw e (rw (m, first_config) (first_config-missing read p fs ms))
  | inr e ↦ rw e (first_config-missing read p fs ms)
]

load_config-missing :
    (read : Text → ReadJson) (home : Text)
    → read (main_config home) ≡ missing
    → read (short_config home) ≡ missing
    → (load_config read home none).rules ≡ []
unfolding load_config
load_config-missing read home p q =
    first_config-missing read (λ f. not (text_eq f [])) (main_config home ∷ short_config home ∷ [])
      (p, (q, tt))

blocked_targets-no_rules : (home : Text) (ts : List Text) → blocked_targets home [] ts ≡ []
unfolding blocked_targets blocking_rule
blocked_targets-no_rules home [] = refl
blocked_targets-no_rules home (t ∷ ts) = blocked_targets-no_rules home ts

-- With targets within the budgets, a call of `takeSnapshot` with a home that has neither
-- housekeeper/config.json nor housekeeper.json goes on to write, whatever the targets are and whatever
-- rules any other file holds, one in the `.claude` directory of that home included.
pub take_snapshot_other_config :
    (h : Host) (read : Text → ReadJson) (home id : Text) (o : SnapshotOptions) (now : ℕ) (d : Disk)
    (bytes : ℕ)
    → length o.targets ≤ max_operation_files
    → total_bytes h d.nodes o.targets ≡ ok bytes
    → bytes ≤ max_operation_bytes
    → read (main_config home) ≡ missing
    → read (short_config home) ≡ missing
    → take_snapshot h read home id o now d ≡ write_snapshot h home id o now d
unfolding take_snapshot snapshot_counted snapshot_unblocked
take_snapshot_other_config h read home id o now d bytes c t b p q =
    let count : ltb max_operation_files (length o.targets) ≡ false = ground arith in
    let size : ltb max_operation_bytes bytes ≡ false = ground arith in
    rw count (
      rw (t, snapshot_counted)
        (rw size (
          rw (load_config-missing read home p q, blocked_targets-no_rules home o.targets)
            (unfold snapshot_unblocked in refl))))
