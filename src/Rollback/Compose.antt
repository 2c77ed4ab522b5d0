-- ===== src/Rollback/Compose.antt =====
-- When `composeRollbackPlan` of scripts/lib/rollback-plan.mjs accepts, and what its plan restores.
use claude_housekeeper.Base.{
  [], ◌≡◌, ◌↔◌, refl, ap, ◌∙◌, false, inl, inr, String, Option-cases, eq_iff, eq_refl, true, Option,
  none, some, List, ◌∷◌, map, arith, All,
}
use claude_housekeeper.Contracts.{Text}
use claude_housekeeper.Disk.{
  Host, Nodes, exists, hash_file, Status, FileSnapshot, Manifest, Stored, malformed, manifest, Disk,
}
use claude_housekeeper.Rollback.{
  Plan, is_rollbackable, has_snapshot, detect_drift, drift_from, expected_hash, first_incomplete,
  first_drifted, make_operation, compose_files, compose_stored, compose_rollback_plan,
}

-- A path that should be gone is gone, and one that should have a hash is there and has it.
abbrev pub IsPost : Host → Nodes → Text → Option String → Type 0
IsPost h ns p none = exists h ns p ≡ false
IsPost h ns p (some sha) = (exists h ns p ≡ true) × (hash_file h ns p ≡ some sha)

-- An entry whose snapshot file is there and whose own file is in its post-apply state.
abbrev pub IsReady : Host → Nodes → Status → FileSnapshot → Type 0
IsReady h ns s e = (has_snapshot h ns e ≡ true) × IsPost h ns e.original_path (expected_hash s e)

drift_from-IsPost :
    (h : Host) (ns : Nodes) (p : Text) (o : Option String)
    → drift_from h ns p o ≡ none
    → IsPost h ns p o
unfolding drift_from
drift_from-IsPost h ns p none d = ground arith
drift_from-IsPost h ns p (some sha) d = elim (Option-cases (hash_file h ns p)) [
  | inl lost ↦ absurd (ground arith)
  | inr (actual, found) ↦ (ground arith, found ∙ ap some ((eq_iff actual sha).0 (ground arith)))
]

drift_from_of_IsPost :
    (h : Host) (ns : Nodes) (p : Text) (o : Option String)
    → IsPost h ns p o
    → drift_from h ns p o ≡ none
unfolding drift_from
drift_from_of_IsPost h ns p none c = rw c refl
drift_from_of_IsPost h ns p (some sha) (there, found) =
    rw there (rw (found, drift_from) (rw (eq_refl sha) refl))

compose_files-eq_of_ready :
    (h : Host) (ns : Nodes) (id : Text) (s : Status) (files : List FileSnapshot)
    → first_incomplete h ns files ≡ none
    → first_drifted h ns s files ≡ none
    → compose_files h ns id s files
      ≡ record { op_id = id; operations = map make_operation files; refused = [] }
unfolding compose_files
compose_files-eq_of_ready h ns id s files p q = rw (p, compose_files) (rw (q, compose_files))

pub checks_of_IsReady :
    (h : Host) (ns : Nodes) (s : Status) (files : List FileSnapshot)
    → All (IsReady h ns s) files
    → (first_incomplete h ns files ≡ none) × (first_drifted h ns s files ≡ none)
unfolding first_incomplete first_drifted detect_drift
checks_of_IsReady h ns s [] r = (refl, refl)
checks_of_IsReady h ns s (e ∷ es) ((p, q), r) =
    let (a, b) = checks_of_IsReady h ns s es r in
    (rw p a, rw (drift_from_of_IsPost h ns e.original_path (expected_hash s e) q, first_drifted) b)

pub IsReady_of_checks :
    (h : Host) (ns : Nodes) (s : Status) (files : List FileSnapshot)
    → first_incomplete h ns files ≡ none
    → first_drifted h ns s files ≡ none
    → All (IsReady h ns s) files
unfolding first_incomplete first_drifted detect_drift
IsReady_of_checks h ns s [] p q = tt
IsReady_of_checks h ns s (e ∷ es) p q = (
  (ground arith, drift_from-IsPost h ns e.original_path (expected_hash s e) (ground arith)),
  IsReady_of_checks h ns s es (ground arith) (ground arith),
)

compose_files-IsReady :
    (h : Host) (ns : Nodes) (id : Text) (s : Status) (files : List FileSnapshot)
    → (compose_files h ns id s files).refused ≡ []
    → All (IsReady h ns s) files
unfolding compose_files
compose_files-IsReady h ns id s files e = ground (arith, IsReady_of_checks h ns s files)

-- What a stored manifest needs for a rollback plan.
pub record IsRollable (h : Host) (d : Disk) (id : Text) (m : Manifest) : Type 0 where
  pub stored : d.manifests id ≡ some (manifest m)
  pub status : is_rollbackable m.status ≡ true
  pub tree : d.snapshot_dirs id ≡ true
  pub files : All (IsReady h d.nodes m.status) m.files

compose_stored-IsRollable :
    (h : Host) (d : Disk) (id : Text) (s : Option Stored)
    → d.manifests id ≡ s
    → (compose_stored h d id s).refused ≡ []
    → (m : Manifest) × IsRollable h d id m
unfolding compose_stored
compose_stored-IsRollable h d id none q e = ground arith
compose_stored-IsRollable h d id (some malformed) q e = ground arith
compose_stored-IsRollable h d id (some (manifest m)) q e = (
  m,
  record {
    stored = q;
    status = ground arith;
    tree = ground arith;
    files = compose_files-IsReady h d.nodes id m.status m.files (ground arith);
  },
)

-- Then the plan restores every entry of the manifest, in order.
pub compose_rollback_plan_lem :
    (h : Host) (d : Disk) (id : Text) (m : Manifest)
    → IsRollable h d id m
    → compose_rollback_plan h d id
      ≡ record { op_id = id; operations = map make_operation m.files; refused = [] }
unfolding compose_rollback_plan
compose_rollback_plan_lem h d id m r =
    let (p, q) = checks_of_IsReady h d.nodes m.status m.files r.files in
    rw (r.stored, compose_stored, r.status, r.tree)
      (compose_files-eq_of_ready h d.nodes id m.status m.files p q)

-- A rollback plan has no refusal exactly when the manifest is stored and readable, its status is
-- rollbackable, its snapshot directory is there, and each of its entries has its snapshot file and a
-- file that is in its post-apply state.
pub compose_rollback_plan_iff :
    (h : Host) (d : Disk) (id : Text)
    → ((compose_rollback_plan h d id).refused ≡ []) ↔ ((m : Manifest) × IsRollable h d id m)
unfolding compose_rollback_plan
compose_rollback_plan_iff h d id = (
  compose_stored-IsRollable h d id (d.manifests id) refl,
  λ w. ap (λ (p : Plan). p.refused) (compose_rollback_plan_lem h d id w.0 w.1),
)
