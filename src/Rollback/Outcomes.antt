-- ===== src/Rollback/Outcomes.antt =====
-- The statuses that a rollback or an abort of scripts/lib/rollback-plan.mjs accepts and leaves, and what
-- it never changes.
use claude_housekeeper.Base.{
  [], ℕ, ◌≡◌, ◌≢◌, ◌⊎◌, refl, sym, ◌∙◌, inl, inr, ap, Bool, true, false, not, ◌&&◌, any, is_some,
  Option-cases, Option, none, some, List, ◌∷◌, arith, All, Bool-cases, Result, ok, err,
}
use mathlib.Core.Path.{subst}
use claude_housekeeper.Operation.{is_failed}
use claude_housekeeper.Contracts.{Text}
use claude_housekeeper.Posix.{text_eq_refl}
use claude_housekeeper.Policy.{covers}
use claude_housekeeper.Disk.{
  Host, Nodes, exists, Status, planned, snapshot_taken, applied, rolled_back, aborted, FileSnapshot,
  Manifest, Stored, manifest, Disk, read_manifest, snapshot_dir,
}
use claude_housekeeper.Rollback.{
  Plan, RollbackError, manifest_not_rollbackable, abort_not_allowed, is_rollbackable, is_abortable,
  empty_plan, compose_stored, compose_rollback_plan, conclude_rollback, execute_rollback_plan,
  drift_from, detect_drift, abort_rollback_operation, restore_all,
}
use claude_housekeeper.Rollback.Compose.{compose_rollback_plan_iff, IsReady}

compose_terminal :
    (h : Host) (d : Disk) (id : Text) (m : Manifest)
    → d.manifests id ≡ some (manifest m)
    → is_rollbackable m.status ≡ false
    → compose_rollback_plan h d id ≡ empty_plan id manifest_not_rollbackable []
unfolding compose_rollback_plan compose_stored
compose_terminal h d id m e s = rw (e, compose_stored) (rw s)

abbrev manifest_of : Result RollbackError Manifest → Option Stored
manifest_of (ok m) = some (manifest m)
manifest_of (err _) = none

abbrev status_of : Result RollbackError Manifest → Status
status_of (ok m) = m.status
status_of (err _) = rolled_back

conclude_rollback-stored :
    (plan : Plan) (now : ℕ) (d : Disk) (m m' : Manifest)
    (r : Result RollbackError (Unit {0}) × Nodes)
    → (conclude_rollback plan now d m r).0 ≡ ok m'
    → ((conclude_rollback plan now d m r).1.manifests plan.op_id ≡ some (manifest m'))
      × (m'.status ≡ rolled_back)
unfolding conclude_rollback
conclude_rollback-stored plan now d m m' (err x, ns) e = cc
conclude_rollback-stored plan now d m m' (ok _, ns) e =
    rw (text_eq_refl plan.op_id) (ap manifest_of e, sym (ap status_of e))

conclude_rollback-error :
    (plan : Plan) (now : ℕ) (d : Disk) (m : Manifest) (r : Result RollbackError (Unit {0}) × Nodes)
    {x : RollbackError}
    → (conclude_rollback plan now d m r).0 ≡ err x
    → (conclude_rollback plan now d m r).1.manifests ≡ d.manifests
unfolding conclude_rollback
conclude_rollback-error plan now d m (err y, ns) e = refl
conclude_rollback-error plan now d m (ok _, ns) e = cc

execute_rollback_plan-stored :
    (h : Host) (plan : Plan) (now : ℕ) (d : Disk) (m' : Manifest)
    → (execute_rollback_plan h plan now d).0 ≡ ok m'
    → ((execute_rollback_plan h plan now d).1.manifests plan.op_id ≡ some (manifest m'))
      × (m'.status ≡ rolled_back)
unfolding execute_rollback_plan
execute_rollback_plan-stored h plan now d m' e = elim (Option-cases (read_manifest d plan.op_id)) [
  | inl lost ↦ absurd (ground arith)
  | inr (m, found) ↦
      rw (found, execute_rollback_plan)
        (conclude_rollback-stored plan now d m m' (restore_all h plan.operations d.nodes)
          (rw (found, execute_rollback_plan) at e))
]

-- A rollback that throws leaves every stored manifest, and so every status, as it was.
pub execute_rollback_plan_error :
    (h : Host) (plan : Plan) (now : ℕ) (d : Disk) {x : RollbackError}
    → (execute_rollback_plan h plan now d).0 ≡ err x
    → (execute_rollback_plan h plan now d).1.manifests ≡ d.manifests
unfolding execute_rollback_plan
execute_rollback_plan_error h plan now d e = elim (Option-cases (read_manifest d plan.op_id)) [
  | inl lost ↦ rw (lost, execute_rollback_plan)
  | inr (m, found) ↦
      rw (found, execute_rollback_plan)
        (conclude_rollback-error plan now d m (restore_all h plan.operations d.nodes)
          (rw (found, execute_rollback_plan) at e))
]

-- After a rollback that returned, composing a plan for the same operation again is refused because
-- of its status: no operation is rolled back twice.
compose-execute_refused :
    (h : Host) (plan : Plan) (now : ℕ) (d : Disk) (m : Manifest)
    → (execute_rollback_plan h plan now d).0 ≡ ok m
    → compose_rollback_plan h (execute_rollback_plan h plan now d).1 plan.op_id
      ≡ empty_plan plan.op_id manifest_not_rollbackable []
compose-execute_refused h plan now d m e =
    let (stored, status) = execute_rollback_plan-stored h plan now d m e in
    compose_terminal h (execute_rollback_plan h plan now d).1 plan.op_id m stored (rw status)

is_abortable_sound : (s : Status) → is_abortable s ≡ true → (s ≡ planned) ⊎ (s ≡ snapshot_taken)
is_abortable_sound s e = ground arith

is_abortable-ne_planned : (s : Status) → is_abortable s ≡ false → s ≢ planned
is_abortable-ne_planned s e = ground arith

is_abortable-ne_taken : (s : Status) → is_abortable s ≡ false → s ≢ snapshot_taken
is_abortable-ne_taken s e = ground arith

-- An abort of a readable manifest whose status is `planned` or `snapshot_taken` returns it as `aborted`,
-- stores that, forgets its snapshot directory and leaves every file outside that directory. With any other
-- status it throws and changes nothing: the snapshot of an applied operation stays.
pub abort_rollback_operation_lem :
    (claude id : Text) (now : ℕ) (d : Disk) (m : Manifest)
    → read_manifest d id ≡ some m
    → let m' = record m { status = aborted; aborted_at = some now } in
      let (r, d') = abort_rollback_operation claude id now d in
      (((m.status ≡ planned) ⊎ (m.status ≡ snapshot_taken))
        × (r ≡ ok m')
        × (d'.manifests id ≡ some (manifest m'))
        × (d'.snapshot_dirs id ≡ false)
        × ((q : Text) → covers (snapshot_dir claude id) q ≡ false → d'.nodes q ≡ d.nodes q))
      ⊎ ((m.status ≢ planned)
          × (m.status ≢ snapshot_taken)
          × (r ≡ err (abort_not_allowed m.status))
          × (d' ≡ d))
unfolding abort_rollback_operation
abort_rollback_operation_lem claude id now d m e = elim (Bool-cases (is_abortable m.status)) [
  | inl yes_status ↦
      rw (e, abort_rollback_operation)
        (rw (yes_status) (
          inl (
            is_abortable_sound m.status yes_status,
            refl,
            rw (text_eq_refl id),
            rw (text_eq_refl id),
            λ q away. rw away,
          )))
  | inr other ↦
      rw (e, abort_rollback_operation)
        (rw other (
          inr (
            is_abortable-ne_planned m.status other,
            is_abortable-ne_taken m.status other,
            refl,
            refl,
          )))
]

-- An entry whose mutation failed, and whose file is still there.
abbrev pub is_stranded : Host → Nodes → FileSnapshot → Bool
is_stranded h ns e =
    is_failed e.is_applied && not (is_some e.sha_after) && exists h ns e.original_path

stranded-not-IsReady :
    (h : Host) (ns : Nodes) (files : List FileSnapshot)
    → any (is_stranded h ns) files ≡ true
    → ¬ All (IsReady h ns applied) files
unfolding detect_drift drift_from
stranded-not-IsReady h ns [] e r = ground arith
stranded-not-IsReady h ns (f ∷ fs) e r = ground (arith, stranded-not-IsReady h ns fs)

-- When an applied operation has an entry whose mutation failed and whose file is still there, every
-- rollback plan for the operation is refused.
pub partial_apply_not_rollable :
    (h : Host) (d : Disk) (id : Text) (m : Manifest)
    → d.manifests id ≡ some (manifest m)
    → m.status ≡ applied
    → any (is_stranded h d.nodes) m.files ≡ true
    → (compose_rollback_plan h d id).refused ≢ []
partial_apply_not_rollable h d id m e s stranded accepted =
    let (k, r) = (compose_rollback_plan_iff h d id).0 accepted in
    let same : k ≡ m = cc (r.stored, e) in
    stranded-not-IsReady h d.nodes m.files stranded (
      subst (λ (x : Manifest). All (IsReady h d.nodes applied) x.files) same
        (subst (λ (x : Status). All (IsReady h d.nodes x) k.files)
          (ap (λ (x : Manifest). x.status) same ∙ s) r.files))
