-- ===== src/Clean/Removal.antt =====
-- The apply loop on the removals of a clean plan: nothing but its files goes, and where no removal failed
-- all of them are gone.
use claude_housekeeper.Base.{
  [], ◌≡◌, ◌∙◌, refl, ◌⊎◌, inl, inr, Bool, true, false, ◌||◌, Option, none, some, List, ◌∷◌, arith,
  All, Bool-cases, Option-cases, map,
}
use mathlib.Core.Path.{ap₂}
use claude_housekeeper.Contracts.{Text}
use claude_housekeeper.Posix.{text_eq, text_eq_refl}
use claude_housekeeper.Policy.{covers}
use claude_housekeeper.Disk.{Host, Nodes, put_node, exists, stat_node, follow, FileSnapshot}
use claude_housekeeper.Operation.{Mutation, apply_entries, apply_entry, record_applied, any_failed}
use claude_housekeeper.Clean.Execution.{Removal, removals, remove_file, remove_last, last_dir}

pub exists-none : (h : Host) (ns : Nodes) (p : Text) → ns p ≡ none → exists h ns p ≡ false
unfolding exists
exists-none h ns p e = rw (e, stat_node, follow) (rw e refl)

-- Whether a removal may touch a path: it is the file, or in the directory.
abbrev pub touches : Text → Removal → Bool
touches q r = text_eq r.path q || elim r.dir [ none ↦ false | some dir ↦ covers dir q ]

-- A path stays as it is, or is removed.
abbrev pub IsKeptOrGone : Nodes → Nodes → Text → Type 0
IsKeptOrGone before after q = (after q ≡ before q) ⊎ (after q ≡ none)

remove_last-cases :
    (dir : Option Text) (ns : Nodes) (q : Text) → IsKeptOrGone ns (remove_last dir ns) q
remove_last-cases none ns q = inl refl
remove_last-cases (some dir) ns q = elim (Bool-cases (covers dir q)) [
  | inl c ↦ inr (rw c refl)
  | inr c ↦ inl (rw c refl)
]

remove_last-gone :
    (dir : Option Text) (ns : Nodes) (q : Text) → ns q ≡ none → remove_last dir ns q ≡ none
remove_last-gone dir ns q e = elim (remove_last-cases dir ns q) [ inl k ↦ k ∙ e | inr k ↦ k ]

remove_file-cases :
    (dir : Option Text) (p : Text) (ns : Nodes) (q : Text)
    → IsKeptOrGone ns (remove_file dir p ns).1 q
unfolding remove_file
remove_file-cases dir p ns q = elim (Option-cases (ns p)) [
  | inl e ↦ inl (rw (e, remove_file) refl)
  | inr (node, e) ↦
      rw (e, remove_file)
        (elim (Bool-cases (text_eq p q)) [
          | inl same ↦ inr (remove_last-gone dir (put_node ns p none) q (rw same refl))
          | inr other ↦ elim (remove_last-cases dir (put_node ns p none) q) [
            | inl k ↦ inl (k ∙ rw other refl)
            | inr k ↦ inr k
          ]
        ])
]

last_dir-touches :
    (r : Removal) (rs : List Removal) (q : Text) (ns : Nodes)
    → touches q r ≡ false
    → remove_last (last_dir r.dir rs) ns q ≡ ns q
last_dir-touches r rs q ns t = ground arith

remove_file-frame :
    (r : Removal) (rs : List Removal) (ns : Nodes) (q : Text)
    → touches q r ≡ false
    → (remove_file (last_dir r.dir rs) r.path ns).1 q ≡ ns q
unfolding remove_file
remove_file-frame r rs ns q t = elim (Option-cases (ns r.path)) [
  | inl e ↦ rw (e, remove_file) refl
  | inr (node, e) ↦
      rw (e, remove_file) (last_dir-touches r rs q (put_node ns r.path none) t ∙ ground arith)
]

-- The entries of a manifest have the paths of the removals, in order.
abbrev pub AreFor : List Removal → List FileSnapshot → Type 0
AreFor [] [] = Unit
AreFor (r ∷ rs) (e ∷ es) = (e.original_path ≡ r.path) × AreFor rs es
AreFor [] (e ∷ es) = ⊥
AreFor (r ∷ rs) [] = ⊥

-- The entry of a file that was removed.
abbrev pub removed : FileSnapshot → FileSnapshot
removed e = record e { sha_after = none; is_applied = some true }

-- What the apply loop leaves, from the files before it.
pub record IsRemoved (rs : List Removal) (before after : Nodes) (es es' : List FileSnapshot)
    : Type 0 where
  pub frame : (q : Text) → All (λ r. touches q r ≡ false) rs → after q ≡ before q
  pub kept : (q : Text) → IsKeptOrGone before after q
  pub gone : any_failed es' ≡ false → (es' ≡ map removed es) × All (λ r. after r.path ≡ none) rs

remove_file-done :
    (dir : Option Text) (p : Text) (ns : Nodes)
    → (remove_file dir p ns).0 ≡ true
    → (remove_file dir p ns).1 p ≡ none
unfolding remove_file
remove_file-done dir p ns e = elim (Option-cases (ns p)) [
  | inl lost ↦ absurd (ground arith)
  | inr (node, there) ↦
      rw (there, remove_file)
        (remove_last-gone dir (put_node ns p none) p (rw (text_eq_refl p) refl))
]

-- One round that did not fail.
apply_entry-gone :
    (h : Host) (dir : Option Text) (ops : List Mutation) (e : FileSnapshot) (ns : Nodes) (p : Text)
    → e.original_path ≡ p
    → any_failed ((apply_entry h (remove_file dir ∷ ops) e ns).0 ∷ []) ≡ false
    → ((apply_entry h (remove_file dir ∷ ops) e ns).0 ≡ removed e)
      × ((remove_file dir e.original_path ns).1 p ≡ none)
unfolding apply_entry
apply_entry-gone h dir ops e ns p same f =
    let (done, after) = remove_file dir e.original_path ns in
    elim (Bool-cases (remove_file dir e.original_path ns).0) [
      | inl d ↦
          let gone = remove_file-done dir e.original_path ns d in
          (
            rw d (
                unfold record_applied in
                rw (exists-none h (remove_file dir e.original_path ns).1 e.original_path gone)
                  refl),
            rw (← same) gone,
          )
      | inr d ↦ absurd (ground arith)
    ]

any_failed-cons :
    (e : FileSnapshot) (es : List FileSnapshot)
    → any_failed (e ∷ es) ≡ false
    → (any_failed (e ∷ []) ≡ false) × (any_failed es ≡ false)
any_failed-cons e es f = ground arith

stays_gone :
    (before after : Nodes) (q : Text)
    → before q ≡ none
    → IsKeptOrGone before after q
    → after q ≡ none
stays_gone before after q e (inl k) = k ∙ e
stays_gone before after q e (inr k) = k

apply_entry-nodes :
    (h : Host) (op : Mutation) (ops : List Mutation) (e : FileSnapshot) (ns : Nodes)
    → (apply_entry h (op ∷ ops) e ns).1 ≡ (op e.original_path ns).1
unfolding apply_entry
apply_entry-nodes h op ops e ns = refl

-- The loop over the removals of a plan, on the entries of their snapshot.
pub apply_entries-IsRemoved :
    (h : Host) (rs : List Removal) (es : List FileSnapshot) (ns : Nodes)
    → AreFor rs es
    → IsRemoved rs ns
        (apply_entries h (removals rs) es ns).1
        es
        (apply_entries h (removals rs) es ns).0
unfolding apply_entries removals
apply_entries-IsRemoved h [] [] ns m = record {
  frame = λ q t. refl;
  kept = λ q. inl refl;
  gone = λ f. (refl, tt);
}
apply_entries-IsRemoved h [] (e ∷ es) ns m = absurd m
apply_entries-IsRemoved h (r ∷ rs) [] ns m = absurd m
apply_entries-IsRemoved h (r ∷ rs) (e ∷ es) ns (same, m) =
    let dir = last_dir r.dir rs in
    let next : Nodes = (remove_file dir e.original_path ns).1 in
    let ih = apply_entries-IsRemoved h rs es next m in
    let final : Nodes = (apply_entries h (removals rs) es next).1 in
    let done : FileSnapshot = (apply_entry h (removals (r ∷ rs)) e ns).0 in
    let later : List FileSnapshot = (apply_entries h (removals rs) es next).0 in
    record {
      frame = λ q t. ih.frame q t.1 ∙ rw same (remove_file-frame r rs ns q t.0);
      kept = λ q. elim (remove_file-cases dir e.original_path ns q) [
        | inl k ↦ elim (ih.kept q) [ inl j ↦ inl (j ∙ k) | inr j ↦ inr j ]
        | inr k ↦ inr (stays_gone next final q k (ih.kept q))
      ];
      gone = λ f.
          let (one, more) = any_failed-cons done later f in
          let (p, g) = apply_entry-gone h dir (removals rs) e ns r.path same one in
          let (q, k) = ih.gone more in
          (ap₂ (λ x xs. x ∷ xs) p q, (stays_gone next final r.path g (ih.kept r.path), k));
    }
