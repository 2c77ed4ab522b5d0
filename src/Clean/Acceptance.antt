-- ===== src/Clean/Acceptance.antt =====
-- Which findings `classifyFinding` of scripts/lib/clean-plan.mjs lets into a clean plan.
use claude_housekeeper.Base.{
  [], ◌≡◌, ◌↔◌, refl, Bool, true, false, not, ◌&&◌, none, List, ◌∷◌, arith, any, All, str_eq, inl,
  inr, Bool-cases,
}
use claude_housekeeper.Contracts.{Text}
use claude_housekeeper.Posix.{text_eq, text_eq_sound, split_sep}
use claude_housekeeper.Snapshot.{blocking_rule}
use claude_housekeeper.Findings.{on_surface}
use claude_housekeeper.Clean.{
  Finding, Context, accepted, has_entries, is_sector_boundary, is_irreversible, is_cleanable_owner,
  is_own, stale_lock, local_command_identical, cleanable_detectors, mapping_rules, classify_finding,
  with_slashes, is_credential_segment,
}

-- None of the rules applies.
pub record IsCleanable (f : Finding) (c : Context) : Type 0 where
  pub settled : c.interruptions ≡ []
  pub unprotected : blocking_rule c.home f.target_path c.do_not_touch_rules ≡ none
  pub unmatched : f.policy_matches ≡ []
  pub inside : (not (text_eq f.target_path []) && is_sector_boundary f.target_path c.home) ≡ false
  pub passive :
      on_surface (λ s. not (c.allowed_execution_classes s.execution_class)) f.surface ≡ false
  pub reversible : on_surface (λ s. is_irreversible s.rollback_class) f.surface ≡ false
  pub owned :
      on_surface
        (λ s.
          not (is_cleanable_owner s.owner_class)
          && not (str_eq f.id stale_lock && is_own s.owner_class))
        f.surface
      ≡ false
  pub no_symlink : any (text_eq f.target_path) c.symlinked_paths ≡ false
  pub no_hook : any (text_eq f.target_path) c.ref_by_hook_paths ≡ false
  pub no_mcp : any (text_eq f.target_path) c.mcp_paths ≡ false
  pub stale : (str_eq f.id stale_lock && any (text_eq f.target_path) c.fresh_lock_paths) ≡ false
  pub undrifted :
      (str_eq f.id local_command_identical
        && any (text_eq f.target_path) c.drifted_local_command_paths)
      ≡ false
  pub mapped : any (str_eq f.id) cleanable_detectors ≡ true

has_entries_nil {ℓ} : {A : Type ℓ} (xs : List A) → has_entries xs ≡ false → xs ≡ []
has_entries_nil [] e = refl
has_entries_nil (x ∷ xs) e = ground arith

classify_finding-IsCleanable :
    (f : Finding) (c : Context) → classify_finding f c ≡ accepted → IsCleanable f c
unfolding classify_finding mapping_rules
classify_finding-IsCleanable f c e = record {
  settled = has_entries_nil c.interruptions (ground arith);
  unprotected = ground arith;
  unmatched = has_entries_nil f.policy_matches (ground arith);
  inside = ground arith;
  passive = ground arith;
  reversible = ground arith;
  owned = ground arith;
  no_symlink = ground arith;
  no_hook = ground arith;
  no_mcp = ground arith;
  stale = ground arith;
  undrifted = ground arith;
  mapped = ground arith;
}

IsCleanable-classify_finding :
    (f : Finding) (c : Context) → IsCleanable f c → classify_finding f c ≡ accepted
unfolding classify_finding mapping_rules
IsCleanable-classify_finding f c r =
    rw
      (
        r.settled, r.unprotected, r.unmatched, r.inside, r.passive, r.reversible, r.owned,
        r.no_symlink, r.no_hook, r.no_mcp, r.stale, r.undrifted, r.mapped,
      )
      refl

-- The classifier accepts a finding exactly when no operation is interrupted, no rule or policy match
-- protects the path, it is outside the credential sector, the surface is passive, reversible and owned
-- by someone whose files may be cleaned, the path is no symlink and has no hook or MCP server, the lock
-- or local command it is about has not changed, and the detector has a mutation.
pub classify_finding_iff :
    (f : Finding) (c : Context) → (classify_finding f c ≡ accepted) ↔ IsCleanable f c
classify_finding_iff f c = (classify_finding-IsCleanable f c, IsCleanable-classify_finding f c)

pub any-false {ℓ} :
    {A : Type ℓ} (p : A → Bool) (xs : List A) → any p xs ≡ false → All (λ x. p x ≡ false) xs
any-false p [] e = tt
any-false p (x ∷ xs) e = (ground arith, any-false p xs (ground arith))

pub not_sector_boundary :
    (p home : Text)
    → is_sector_boundary p home ≡ false
    → any is_credential_segment (split_sep (with_slashes p)) ≡ false
unfolding is_sector_boundary
not_sector_boundary p home e = ground arith

-- No segment of the target of an accepted finding is `credentials` or `secrets`, with either slash.
accepted_target_outside_credentials :
    (f : Finding) (c : Context)
    → classify_finding f c ≡ accepted
    → All (λ s. is_credential_segment s ≡ false) (split_sep (with_slashes f.target_path))
accepted_target_outside_credentials f c e =
    let r = classify_finding-IsCleanable f c e in
    any-false is_credential_segment (split_sep (with_slashes f.target_path))
      (elim (Bool-cases (text_eq f.target_path [])) [
        | inl bare ↦ rw (text_eq_sound f.target_path [] bare) refl
        | inr some_path ↦ not_sector_boundary f.target_path c.home (ground (arith, r.inside))
      ])
