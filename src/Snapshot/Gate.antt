-- ===== src/Snapshot/Gate.antt =====
-- What `takeSnapshot` of scripts/lib/snapshot.mjs refuses, and that it then writes nothing.
use claude_housekeeper.Base.{
  [], ℕ, ◌≤◌, ◌≡◌, ◌⊎◌, ltb-false→le, refl, false, ◌&&◌, or_else, inl, inr, none, List, ◌∷◌, arith,
  All, length, ltb, Bool-cases, Option-cases, Result, ok, err,
}
use claude_housekeeper.Contracts.{Text}
use claude_housekeeper.Policy.{
  ReadJson, ProtectionRule, load_config, has_path, path_matches_protection,
}
use claude_housekeeper.Disk.{Host, Disk}
use claude_housekeeper.Snapshot.{
  Blocked, SnapshotError, SnapshotOptions, max_operation_files, max_operation_bytes, total_bytes,
  blocking_rule, blocked_targets, write_snapshot, snapshot_unblocked, snapshot_counted,
  take_snapshot,
}

-- No rule with a path covers the target.
abbrev pub IsUnprotected : Text → List ProtectionRule → Text → Type 0
IsUnprotected home rules t =
    All (λ r. (has_path r.path && path_matches_protection (or_else r.path []) t home) ≡ false) rules

-- The set of targets is within both budgets, and no rule protects a target.
pub record IsAllowed (h : Host) (read : Text → ReadJson) (home : Text) (o : SnapshotOptions)
    (d : Disk) : Type 0 where
  pub bytes : ℕ
  pub count_within : length o.targets ≤ max_operation_files
  pub counted : total_bytes h d.nodes o.targets ≡ ok bytes
  pub bytes_within : bytes ≤ max_operation_bytes
  pub unprotected : All (IsUnprotected home (load_config read home none).rules) o.targets

blocking_rule-none :
    (home t : Text) (rules : List ProtectionRule)
    → blocking_rule home t rules ≡ none
    → IsUnprotected home rules t
unfolding blocking_rule
blocking_rule-none home t [] e = tt
blocking_rule-none home t (r ∷ rs) e = elim (Option-cases r.path) [
  | inl bare ↦ (rw bare refl, blocking_rule-none home t rs (rw (bare, blocking_rule) at e))
  | inr (p, given) ↦ ground (arith, blocking_rule-none home t rs)
]

blocked_targets-nil :
    (home : Text) (rules : List ProtectionRule) (ts : List Text)
    → blocked_targets home rules ts ≡ []
    → All (IsUnprotected home rules) ts
unfolding blocked_targets
blocked_targets-nil home rules [] e = tt
blocked_targets-nil home rules (t ∷ ts) e = elim (Option-cases (blocking_rule home t rules)) [
  | inl free ↦ (
    blocking_rule-none home t rules free,
    blocked_targets-nil home rules ts (rw (free, blocked_targets) at e),
  )
  | inr (b, found) ↦ absurd (ground arith)
]

module _ (h : Host) (read : Text → ReadJson) (home id : Text) (o : SnapshotOptions) (now : ℕ)
    (d : Disk) where
  unblocked_gate :
      (bytes : ℕ) (bs : List Blocked)
      → length o.targets ≤ max_operation_files
      → total_bytes h d.nodes o.targets ≡ ok bytes
      → bytes ≤ max_operation_bytes
      → blocked_targets home (load_config read home none).rules o.targets ≡ bs
      → ((e : SnapshotError) × (snapshot_unblocked h home id o now d bs ≡ (err e, d)))
        ⊎ (IsAllowed h read home o d
            × (snapshot_unblocked h home id o now d bs ≡ write_snapshot h home id o now d))
  unfolding snapshot_unblocked
  unblocked_gate bytes (b ∷ bs) c s w e = inl (_, refl)
  unblocked_gate bytes [] c s w e = inr (
    record {
      bytes = bytes;
      count_within = c;
      counted = s;
      bytes_within = w;
      unprotected = blocked_targets-nil home (load_config read home none).rules o.targets e;
    },
    refl,
  )

  counted_gate :
      length o.targets ≤ max_operation_files
      → (r : Result SnapshotError ℕ) → total_bytes h d.nodes o.targets ≡ r
      → ((e : SnapshotError) × (snapshot_counted h read home id o now d r ≡ (err e, d)))
        ⊎ (IsAllowed h read home o d
            × (snapshot_counted h read home id o now d r ≡ write_snapshot h home id o now d))
  unfolding snapshot_counted
  counted_gate c (err e) s = inl (e, refl)
  counted_gate c (ok bytes) s = elim (Bool-cases (ltb max_operation_bytes bytes)) [
    | inl over ↦ rw over (inl (_, refl))
    | inr within ↦ rw within (
        unblocked_gate bytes (blocked_targets home (load_config read home none).rules o.targets) c s
          (ltb-false→le _ _ within) refl)
  ]

-- A call of `takeSnapshot` either throws and leaves the disk as it was, or its targets are within the
-- budgets of 50 files and 10 MiB and free of protection rules, and it goes on to write.
pub take_snapshot_gate :
    (h : Host) (read : Text → ReadJson) (home id : Text) (o : SnapshotOptions) (now : ℕ) (d : Disk)
    → ((e : SnapshotError) × (take_snapshot h read home id o now d ≡ (err e, d)))
      ⊎ (IsAllowed h read home o d
          × (take_snapshot h read home id o now d ≡ write_snapshot h home id o now d))
unfolding take_snapshot
take_snapshot_gate h read home id o now d =
    elim (Bool-cases (ltb max_operation_files (length o.targets))) [
      | inl over ↦ rw over (inl (_, refl))
      | inr count ↦ rw count (
          counted_gate h read home id o now d (ltb-false→le _ _ count)
            (total_bytes h d.nodes o.targets) refl)
    ]
