-- ===== src/Observe.antt =====
-- scripts/lib/observe.mjs: the bounded walk of a directory tree. `lstatSync`, `readdirSync` and the clock
-- are arguments; `none` is an error that the code catches.
pub mod Bounds
pub mod Links
pub mod Complete
use claude_housekeeper.Base.{
  ℕ, zero, suc, Bool, true, false, Option, none, some, List, [], ◌∷◌, ◌++◌, if◌then◌else◌, leb,
  length,
}
use claude_housekeeper.Contracts.{Text}
use claude_housekeeper.Posix.{join}

abbrev pub default_max_files : ℕ
default_max_files = 5000

abbrev pub default_max_wall_ms : ℕ
default_max_wall_ms = 5000

pub data Kind : Type 0 where
  file directory symlink other : Kind

-- What `lstatSync` returns.
pub record Stat : Type 0 where
  pub kind : Kind
  pub size : ℕ
  pub mtime_ms : ℕ

pub record Entry : Type 0 where
  pub path : Text
  pub kind : Kind
  pub size_bytes : ℕ
  pub mtime_ms : ℕ

pub data Reason : Type 0 where
  max_files max_wall_ms unreadable_directory : Reason

pub record Degraded : Type 0 where
  pub reason : Reason
  pub path : Text

-- The system that the walk asks; `elapsed n` is the time since the start at the head of the round with
-- `n` rounds left.
pub record System : Type 0 where
  pub lstat : Text → Option Stat
  pub readdir : Text → Option (List Text)
  pub elapsed : ℕ → ℕ

-- The locals of `walkBounded`; the top of the stack comes first.
pub record Walk : Type 0 where
  pub entries : List Entry
  pub degraded : List Degraded
  pub stopped : Bool
  pub stack : List Text

-- `numberOr`, for a value that is no number, or a natural number
unfoldable pub number_or : Option ℕ → ℕ → ℕ
number_or none fallback = fallback
number_or (some zero) fallback = fallback
number_or (some (suc n)) fallback = suc n

-- `safeIsDirectory`
unfoldable pub safe_is_directory : System → Text → Bool
safe_is_directory sys p = elim (sys.lstat p) [
  | none ↦ false
  | some s ↦ elim s.kind [ Kind.directory ↦ true | _ ↦ false ]
]

-- The `entries.push` of each kind: only a link and a file keep their size.
abbrev pub entry : Text → Stat → Entry
entry full s = record {
  path = full;
  kind = s.kind;
  size_bytes = elim s.kind [ Kind.symlink ↦ s.size | Kind.file ↦ s.size | _ ↦ 0 ];
  mtime_ms = s.mtime_ms;
}

-- The stack after an entry.
abbrev pub pushed : Kind → Text → List Text → List Text
pushed Kind.directory full stack = full ∷ stack
pushed _ full stack = stack

-- One name of a directory: a directory is pushed on the stack, and nothing else is.
unfoldable pub visit : Text → Option Stat → Walk → Walk
visit full none w = w
visit full (some s) w = record w {
  entries = w.entries ++ entry full s ∷ [];
  stack = pushed s.kind full w.stack;
}

-- A budget is hit.
abbrev pub stop : Reason → Text → Walk → Walk
stop reason root w = record w {
  degraded = w.degraded ++ record { reason = reason; path = root } ∷ [];
  stopped = true;
}

-- The loop over the names of the directory `current`.
unfoldable pub visit_names : System → ℕ → Text → Text → List Text → Walk → Walk
unfolding visit
visit_names sys most root current [] w = w
visit_names sys most root current (name ∷ names) w =
    let full = join current name in
    let rest = visit_names sys most root current names (visit full (sys.lstat full) w) in
    if leb most (length w.entries) then stop max_files root w else rest

-- The body of the loop over the stack, from `readdirSync` on.
unfoldable pub read_directory : System → ℕ → Text → Text → Walk → Walk
unfolding visit_names
read_directory sys most root current w = elim (sys.readdir current) [
  | none ↦ record w {
    degraded = w.degraded ++ record { reason = unreadable_directory; path = current } ∷ [];
  }
  | some names ↦ visit_names sys most root current names w
]

-- The loop over the stack, on fuel; `none` is a walk that is not over.
unfoldable pub rounds : ℕ → System → ℕ → ℕ → Text → Walk → Option Walk
unfolding read_directory
rounds zero sys most wall root w = none
rounds (suc n) sys most wall root w = elim w.stack [
  | [] ↦ some w
  | current ∷ stack ↦
      let next = read_directory sys most root current (record w { stack = stack }) in
      let rest = rounds n sys most wall root next in
      if leb most (length w.entries)
      then some (stop max_files root w)
      else if leb wall (sys.elapsed n)
      then some (stop max_wall_ms root w)
      else if next.stopped
      then some next
      else rest
]

abbrev pub start : List Text → Walk
start stack = record { entries = []; degraded = []; stopped = false; stack = stack }

-- `walkBounded`, with the fuel that Observe/Bounds shows to be enough.
unfoldable pub walk_bounded : System → Text → Option ℕ → Option ℕ → Option Walk
unfolding rounds number_or safe_is_directory
walk_bounded sys root files_limit wall_limit =
    let most = number_or files_limit default_max_files in
    let wall = number_or wall_limit default_max_wall_ms in
    if safe_is_directory sys root
    then rounds (suc (suc most)) sys most wall root (start (root ∷ []))
    else some (start [])
