-- ===== src/Assembly/Safety.antt =====
-- What every report that `assembleReport` of scripts/lib/audit.mjs puts together keeps: the stances that a
-- finding may have, and which paths it may act on.
use claude_housekeeper.Base.{
  ◌≡◌, ap, ◌∙◌, ◌≢◌, refl, ◌⊎◌, inl, inr, Bool, true, false, ◌&&◌, none, some, String, List, [],
  ◌∷◌, ℕ, arith, Bool-cases, Option-cases, any, filter, ◌++◌, is_some, or_else, map, All,
}
use claude_housekeeper.Contracts.{Text, StanceName, PolicyMatch}
use claude_housekeeper.Posix.{text_eq, text_eq_refl}
use claude_housekeeper.Policy.{ProtectionRule, path_matches_protection, has_path}
use claude_housekeeper.Stance.{decide_stance, do_not_touch_match}
use claude_housekeeper.Stance.Ladder.{must_protect, decide_stance_core_cases}
use claude_housekeeper.Findings.{
  Args, Mode, includes, is_out_of_scope, is_unknown_owner, is_checkpoint_only,
}
use claude_housekeeper.Detectors.{DetectorOutput, selected_detectors}
use claude_housekeeper.Audit.{
  Finding, degraded, surface_of, args_of, matches_of, make_finding, build_finding,
  collect_policy_matches,
}
use claude_housekeeper.Assembly.{
  collect_boundaries, Home, Report, make_report, early_report, assemble_report, kept_outputs,
  or_clean,
}

All-map_build {ℓ κ μ} :
    {A : Type ℓ} {B : Type κ} (P : B → Type μ) (f : A → B)
    → ((a : A) → P (f a))
    → (xs : List A) → All P (map f xs)
All-map_build P f h [] = tt
All-map_build P f h (x ∷ xs) = (h x, All-map_build P f h xs)

degraded-ne-repair : (s : StanceName) → degraded s ≢ StanceName.repair
degraded-ne-repair s = ground arith

build_finding-ne-repair :
    (home : Text) (mode : Mode) (m : Text → List PolicyMatch) (markers : String → Text → ℕ)
    (raw : DetectorOutput)
    → (build_finding home mode m markers raw).stance ≢ StanceName.repair
unfolding build_finding make_finding
build_finding-ne-repair home mode m markers raw = degraded-ne-repair (or_else raw.force_stance _)

-- The findings of the outputs that the scope selects.
abbrev pub report_findings : Home → Mode → List String → List Finding
report_findings h mode selected =
    map (build_finding h.path mode (collect_policy_matches h.path h.rules) h.markers)
      (kept_outputs selected h.outputs h.clean)

-- The findings of a report that was assembled, with the home there or not.
assemble_report_cases :
    (h : Home) (scope : String) (mode : Mode) (r : Report)
    → assemble_report h scope mode ≡ some r
    → ((h.is_there ≡ false) × (r ≡ early_report h mode))
      ⊎ ((selected : List String) × (selected_detectors scope ≡ some selected)
          × (h.is_there ≡ true)
          × (r ≡ make_report h.path mode (report_findings h mode selected)))
unfolding assemble_report
assemble_report_cases h scope mode r e = elim (Option-cases (selected_detectors scope)) [
  | inl q ↦ ground arith
  | inr (selected, q) ↦ elim (Bool-cases h.is_there) [
    | inl t ↦ inr (selected, q, t, ground arith)
    | inr t ↦ inl (t, ground arith)
  ]
]

-- No finding of an assembled report has the stance `repair`, also not one that a detector forces.
assemble_report-ne-repair :
    (h : Home) (scope : String) (mode : Mode) (r : Report)
    → assemble_report h scope mode ≡ some r
    → All (λ f. f.stance ≢ StanceName.repair) r.findings
unfolding early_report make_report
assemble_report-ne-repair h scope mode r e = elim (assemble_report_cases h scope mode r e) [
  | inl (t, q) ↦ rw q (build_finding-ne-repair h.path mode _ _ _, tt)
  | inr (selected, q, t, u) ↦ rw u (
      All-map_build (λ f. f.stance ≢ StanceName.repair) _ (build_finding-ne-repair h.path mode _ _)
        (kept_outputs selected h.outputs h.clean))
]

-- Some rule of the configuration has a path that covers the target.
abbrev pub is_guarded : Text → List ProtectionRule → Text → Bool
is_guarded home rules target =
    any (λ r. has_path r.path && path_matches_protection (or_else r.path []) target home) rules

do_not_touch_match-collect_policy_matches :
    (home : Text) (rules : List ProtectionRule) (target : Text)
    → is_some (do_not_touch_match (collect_policy_matches home rules target))
      ≡ is_guarded home rules target
unfolding collect_policy_matches do_not_touch_match
do_not_touch_match-collect_policy_matches home [] target = refl
do_not_touch_match-collect_policy_matches home (r ∷ rs) target =
    ground (arith, do_not_touch_match-collect_policy_matches home rs target)

must_protect-protect :
    (a : Args) → must_protect a ≡ true → (decide_stance a).stance ≡ StanceName.protect
unfolding decide_stance
must_protect-protect a h = ground (arith, decide_stance_core_cases a)

-- A finding that `buildFinding` makes of an output that forces no stance, with a target path that a rule of
-- the loaded configuration covers, has the stance `protect`, whatever else the detector reports.
pub guarded-protect :
    (h : Home) (mode : Mode) (raw : DetectorOutput)
    → raw.force_stance ≡ none
    → text_eq raw.target_path [] ≡ false
    → is_guarded h.path h.rules raw.target_path ≡ true
    → (build_finding h.path mode (collect_policy_matches h.path h.rules) h.markers raw).stance
      ≡ StanceName.protect
unfolding build_finding make_finding args_of
guarded-protect h mode raw f p g =
    let matches = collect_policy_matches h.path h.rules raw.target_path in
    rw (f, p)
      (rw
        (must_protect-protect (args_of h.path mode matches raw) (
          ground
            (arith, g, do_not_touch_match-collect_policy_matches h.path h.rules raw.target_path)))
        refl)

map-append {ℓ κ} :
    {A : Type ℓ} {B : Type κ} (f : A → B) (xs ys : List A) → map f (xs ++ ys) ≡ map f xs ++ map f ys
map-append f [] ys = refl
map-append f (x ∷ xs) ys = ap (λ zs. f x ∷ zs) (map-append f xs ys)

or_clean_middle :
    (xs ys : List DetectorOutput) (y clean : DetectorOutput)
    → or_clean (xs ++ y ∷ ys) clean ≡ xs ++ y ∷ ys
or_clean_middle [] ys y clean = refl
or_clean_middle (x ∷ xs) ys y clean = refl

filter-middle {ℓ} :
    {A : Type ℓ} (p : A → Bool) (xs ys : List A) (y : A)
    → p y ≡ true
    → filter p (xs ++ y ∷ ys) ≡ filter p xs ++ y ∷ filter p ys
filter-middle p [] ys y e = rw e refl
filter-middle p (x ∷ xs) ys y e = ground (arith, filter-middle p xs ys y e)

kept_outputs_middle :
    (selected : List String) (before after : List DetectorOutput) (raw clean : DetectorOutput)
    → includes raw.id selected ≡ true
    → let p = λ (o : DetectorOutput). includes o.id selected in
      kept_outputs selected (before ++ raw ∷ after) clean ≡ filter p before ++ raw ∷ filter p after
unfolding kept_outputs
kept_outputs_middle selected before after raw clean e =
    let p = λ (o : DetectorOutput). includes o.id selected in
    ap (λ os. or_clean os clean) (filter-middle p before after raw e)
    ∙ or_clean_middle (filter p before) (filter p after) raw clean

-- A finding with the stance `protect` is listed among the boundaries.
collect_boundaries_middle :
    (fs gs : List Finding) (f : Finding)
    → f.stance ≡ StanceName.protect
    → any (λ b. text_eq b.path f.target_path) (collect_boundaries (fs ++ f ∷ gs)) ≡ true
unfolding collect_boundaries
collect_boundaries_middle [] gs f e = rw e (ground (arith, text_eq_refl f.target_path))
collect_boundaries_middle (x ∷ fs) gs f e = ground (arith, collect_boundaries_middle fs gs f e)

-- In a report on a home that is there, every output that the scope selects, whose path a rule covers and
-- that forces no stance, is listed as a boundary.
pub guarded_output-boundary :
    (h : Home) (scope : String) (mode : Mode) (r : Report) (raw : DetectorOutput)
    (before after : List DetectorOutput) (selected : List String)
    → assemble_report h scope mode ≡ some r
    → h.is_there ≡ true
    → selected_detectors scope ≡ some selected
    → h.outputs ≡ before ++ raw ∷ after
    → includes raw.id selected ≡ true
    → raw.force_stance ≡ none
    → text_eq raw.target_path [] ≡ false
    → is_guarded h.path h.rules raw.target_path ≡ true
    → any (λ b. text_eq b.path raw.target_path) r.boundaries ≡ true
unfolding make_report collect_boundaries build_finding
guarded_output-boundary h scope mode r raw before after selected e t q o i f p g =
    elim (assemble_report_cases h scope mode r e) [
      | inl (t', u) ↦ ground arith
      | inr (selected', q', t', u) ↦
          let build = build_finding h.path mode (collect_policy_matches h.path h.rules) h.markers in
          let keeps = λ (o : DetectorOutput). includes o.id selected in
          let same : selected' ≡ selected = ground arith in
          let kept : report_findings h mode selected
              ≡ map build (filter keeps before) ++ build raw ∷ map build (filter keeps after) =
            ap (map build) (rw o (kept_outputs_middle selected before after raw h.clean i))
            ∙ map-append build (filter keeps before) (raw ∷ filter keeps after) in
          rw (u, same, kept)
            (collect_boundaries_middle (map build (filter keeps before))
              (map build (filter keeps after)) (build raw) (guarded-protect h mode raw f p g))
    ]

module _ (home : Text) (mode : Mode) (m : Text → List PolicyMatch) (markers : String → Text → ℕ)
    (raw : DetectorOutput) where
  -- A finding without a forced stance is `block` only where its surface is out of scope, has an unknown
  -- owner or only a checkpoint, or where the proof of its rollback is missing: contradictory evidence
  -- that a detector reports does not make it so.
  pub build_finding-block :
      raw.force_stance ≡ none
      → (build_finding home mode m markers raw).stance ≡ StanceName.block
      → let s = surface_of home mode raw in
        (is_out_of_scope s.scope_class ≡ true)
        ⊎ (is_unknown_owner s.owner_class ≡ true)
        ⊎ (is_checkpoint_only s.rollback_class ≡ true)
        ⊎ (includes "rollback-proof" raw.missing_keys ≡ true)
  unfolding build_finding make_finding args_of decide_stance
  build_finding-block f b =
      ground
        (arith, f, decide_stance_core_cases (args_of home mode (matches_of m raw.target_path) raw))
