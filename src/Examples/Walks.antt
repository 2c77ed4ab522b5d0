-- ===== src/Examples/Walks.antt =====
-- Walks of a home with a file, a directory with a file in it, and a link to the home itself.
use claude_housekeeper.Base.{In, [], ◌≡◌, ◌↔◌, refl, false, some, none, ◌∷◌, if◌then◌else◌}
use claude_housekeeper.Contracts.{Text}
use claude_housekeeper.Posix.{codes, text_eq, join, normalize}
use claude_housekeeper.Observe.{
  Kind, Stat, Entry, System, Walk, walk_bounded, number_or, default_max_files, safe_is_directory,
}
use claude_housekeeper.Observe.Bounds.{IsWithin, walk_bounded_total}
use claude_housekeeper.Observe.Links.{IsFound}
use claude_housekeeper.Observe.Complete.{walk_bounded_complete}

abbrev stat : Kind → Stat
stat k = record { kind = k; size = 3; mtime_ms = 7 }

abbrev tree : System
tree = record {
  lstat = λ p.
      if text_eq p (codes "/h")
      then some (stat Kind.directory)
      else if text_eq p (codes "/h/a")
      then some (stat Kind.file)
      else if text_eq p (codes "/h/d")
      then some (stat Kind.directory)
      else if text_eq p (codes "/h/d/b")
      then some (stat Kind.file)
      else if text_eq p (codes "/h/l")
      then some (stat Kind.symlink)
      else none;
  readdir = λ p.
      if text_eq p (codes "/h")
      then some (codes "a" ∷ codes "d" ∷ codes "l" ∷ [])
      else if text_eq p (codes "/h/d")
      then some (codes "b" ∷ [])
      else none;
  elapsed = λ n. 0;
}

abbrev file : Text → Entry
file p = record { path = p; kind = Kind.file; size_bytes = 3; mtime_ms = 7 }

abbrev walk : Walk
walk = record {
  entries =
      file (codes "/h/a")
      ∷ record { path = codes "/h/d"; kind = Kind.directory; size_bytes = 0; mtime_ms = 7 }
      ∷ record { path = codes "/h/l"; kind = Kind.symlink; size_bytes = 3; mtime_ms = 7 }
      ∷ file (codes "/h/d/b")
      ∷ [];
  degraded = [];
  stopped = false;
  stack = [];
}

walk_lem : walk_bounded tree (codes "/h") (some 5) none ≡ some walk
unfolding walk_bounded join normalize
walk_lem = refl

walk_bounded_total_example :
    (w : Walk) × (walk_bounded tree (codes "/h") (some 2) none ≡ some w)
    × IsWithin (number_or (some 2) default_max_files) w
walk_bounded_total_example = walk_bounded_total tree (codes "/h") (some 2) none

walk_bounded_complete_example :
    IsFound tree (codes "/h") (file (codes "/h/d/b")) ↔ In (file (codes "/h/d/b")) walk.entries
unfolding safe_is_directory
walk_bounded_complete_example =
    walk_bounded_complete tree (codes "/h") (some 5) none walk refl walk_lem refl
      (file (codes "/h/d/b"))
