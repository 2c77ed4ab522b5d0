-- ===== src/Gc.antt =====
-- scripts/lib/snapshot.mjs: `gcSnapshots`. The directory listing is the list of the ids of the JSON
-- files in it, and `a.id < b.id` compares character codes.
pub mod Order
pub mod Retention
pub mod Newest
use claude_housekeeper.Base.{
  [], ℕ, ◌+◌, ◌-◌, ◌*◌, Bool, true, false, not, ◌&&◌, ◌||◌, ◌==◌, ltb, leb, Option, none, some,
  List, ◌∷◌, ◌++◌, length, take, drop, filter, if◌then◌else◌,
}
use claude_housekeeper.Contracts.{Text}
use claude_housekeeper.Posix.{text_eq}
use claude_housekeeper.Disk.{
  Host, remove_tree, Status, verified, rolled_back, Manifest, Disk, put_manifest, snapshot_dir,
  read_manifest,
}

abbrev pub keep_count : ℕ
keep_count = 10

abbrev pub is_gc_terminal : Status → Bool
is_gc_terminal verified = true
is_gc_terminal rolled_back = true
is_gc_terminal _ = false

-- `a < b` on texts
abbrev pub text_lt : Text → Text → Bool
text_lt [] [] = false
text_lt [] (b ∷ t) = true
text_lt (a ∷ s) [] = false
text_lt (a ∷ s) (b ∷ t) = ltb a b || a == b && text_lt s t

-- `terminal.sort`, by insertion
unfoldable pub insert_id : Text → List Text → List Text
insert_id i [] = i ∷ []
insert_id i (j ∷ js) = if text_lt j i then j ∷ insert_id i js else i ∷ j ∷ js

unfoldable pub sort_ids : List Text → List Text
unfolding insert_id
sort_ids [] = []
sort_ids (i ∷ is) = insert_id i (sort_ids is)

-- `xs.slice(-n)`
abbrev pub slice_last {ℓ} : {A : Type ℓ} → ℕ → List A → List A
slice_last n xs = drop (length xs - n) xs

-- `xs.slice(0, xs.length - n)`: a negative end counts from the end of the list.
abbrev pub slice_to_length_minus {ℓ} : {A : Type ℓ} → ℕ → List A → List A
slice_to_length_minus n xs =
    if leb n (length xs) then take (length xs - n) xs else take (2 * length xs - n) xs

-- What `manifest.status` puts an id into; an unreadable manifest is skipped.
abbrev pub has_status : (Status → Bool) → Option Manifest → Bool
has_status p none = false
has_status p (some m) = p m.status

unfoldable pub terminal_ids : Disk → List Text → List Text
terminal_ids d ids = filter (λ i. has_status is_gc_terminal (read_manifest d i)) ids

unfoldable pub non_terminal_ids : Disk → List Text → List Text
non_terminal_ids d ids =
    filter (λ i. has_status (λ s. not (is_gc_terminal s)) (read_manifest d i)) ids

-- The removal of one operation: its snapshot directory, then its manifest; an error of either is swallowed.
-- A removal that fails is taken to leave everything in place.
unfoldable pub remove_operation : Host → Text → Text → Disk → Disk
remove_operation host claude id d =
    let cleared = if host.dir_stays id then d else record d {
      nodes = remove_tree d.nodes (snapshot_dir claude id);
      snapshot_dirs = λ i. if text_eq id i then false else d.snapshot_dirs i;
    } in
    if host.manifest_stays id then cleared else put_manifest cleared id none

unfoldable pub remove_operations : Host → Text → List Text → Disk → Disk
unfolding remove_operation
remove_operations host claude [] d = d
remove_operations host claude (i ∷ is) d =
    remove_operations host claude is (remove_operation host claude i d)

pub record GcResult : Type 0 where
  pub removed : List Text
  pub kept : List Text

-- `gcSnapshots`, on the ids that the directory lists
unfoldable pub gc_snapshots : Host → Text → List Text → Disk → GcResult × Disk
gc_snapshots host claude ids d =
    let terminal = sort_ids (terminal_ids d ids) in
    let removed = slice_to_length_minus keep_count terminal in
    (
      record { removed = removed; kept = non_terminal_ids d ids ++ slice_last keep_count terminal },
      remove_operations host claude removed d,
    )
