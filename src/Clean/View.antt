-- ===== src/Clean/View.antt =====
-- scripts/lib/clean-plan.mjs: what a plan's composition sees of the file system, and the helpers that
-- look at it. The system calls, and the parsing of the files that it reads, are the fields of `View`;
-- `none` is an error that the code catches.
use claude_housekeeper.Base.{
  ℕ, zero, suc, ◌+◌, ◌-◌, Bool, true, false, ◌||◌, ltb, String, Option, none, some, List, [], ◌∷◌,
  ◌++◌, length, take, drop, if◌then◌else◌, str_eq,
}
use claude_housekeeper.Contracts.{Text, StanceName}
use claude_housekeeper.Posix.{codes, join, basename, ends_with, text_eq}
use claude_housekeeper.Observe.{Kind, Stat}
use claude_housekeeper.Lock.{LockText}

-- An entry of `plugins` in installed_plugins.json.
pub record Plugin : Type 0 where
  pub install_path : Option Text
  pub marketplace : Option Text
  pub name : Option Text
  pub version : Option Text

-- `rounds` is the number of directories that the model lets one walk read. `sha256` is the hash of a
-- file that can be read, `mcp_servers` the number of keys of the object `mcpServers` in a JSON file,
-- and `digest` the hash of the printed report.
pub record View : Type 0 where
  pub exists : Text → Bool
  pub lstat : Text → Option Stat
  pub stat_size : Text → Option ℕ
  pub list : Text → Option (List (Text × Kind))
  pub sha256 : Text → Option String
  pub lock_text : Text → LockText
  pub mcp_servers : Text → Option ℕ
  pub installed : List Plugin
  pub digest : List (String × Text × StanceName) → String
  pub now : ℕ
  pub rounds : ℕ

-- What one directory adds to the files: all but directories and special files.
unfoldable pub listed_files : Text → List (Text × Kind) → List Text
listed_files current [] = []
listed_files current ((name, Kind.symlink) ∷ es) = join current name ∷ listed_files current es
listed_files current ((name, Kind.file) ∷ es) = join current name ∷ listed_files current es
listed_files current ((name, Kind.directory) ∷ es) = listed_files current es
listed_files current ((name, Kind.other) ∷ es) = listed_files current es

-- The stack, its top first, after the entries of one directory.
unfoldable pub push_directories : Text → List (Text × Kind) → List Text → List Text
push_directories current [] stack = stack
push_directories current ((name, Kind.directory) ∷ es) stack =
    push_directories current es (join current name ∷ stack)
push_directories current ((name, Kind.symlink) ∷ es) stack = push_directories current es stack
push_directories current ((name, Kind.file) ∷ es) stack = push_directories current es stack
push_directories current ((name, Kind.other) ∷ es) stack = push_directories current es stack

-- The loop of `walkDir`, on fuel; `none` is a walk that is not over.
unfoldable pub walk_rounds : ℕ → View → List Text → List Text → Option (List Text)
unfolding listed_files push_directories
walk_rounds zero v [] out = some out
walk_rounds zero v (p ∷ stack) out = none
walk_rounds (suc n) v [] out = some out
walk_rounds (suc n) v (p ∷ stack) out = elim (v.list p) [
  | none ↦ walk_rounds n v stack out
  | some es ↦ walk_rounds n v (push_directories p es stack) (out ++ listed_files p es)
]

-- `walkDir`
unfoldable pub walk_dir : View → Text → Option (List Text)
unfolding walk_rounds
walk_dir v p = walk_rounds v.rounds v (p ∷ []) []

-- `estimateBytes`
unfoldable pub estimate_bytes : View → List Text → ℕ
estimate_bytes v [] = 0
estimate_bytes v (p ∷ ps) = (elim (v.lstat p) [ none ↦ 0 | some s ↦ s.size ]) + estimate_bytes v ps

abbrev pub has_keys : Option ℕ → Bool
has_keys none = false
has_keys (some n) = ltb 0 n

-- `hasMcpServer`
unfoldable pub has_mcp_server : View → Text → Bool
has_mcp_server v p =
    has_keys (v.mcp_servers (join (join p (codes ".claude-plugin")) (codes "plugin.json")))
    || has_keys (v.mcp_servers (join p (codes ".mcp.json")))

-- `s.replace(/\.md$/, "")`
abbrev pub strip_md : Text → Text
strip_md s = if ends_with s (codes ".md") then take (length s - 3) s else s

-- `basename(path, ".md")`, which keeps a name that is only the suffix
abbrev pub basename_md : Text → Text
basename_md p = let name = basename p in if text_eq name (codes ".md") then name else strip_md name

-- `record.installPath || join(home, "plugins", "cache", …)`
abbrev pub or_text : Option Text → Text → Text
or_text none d = d
or_text (some []) d = d
or_text (some (c ∷ s)) d = c ∷ s

unfoldable pub install_path : Text → Plugin → Text
install_path home r =
    let part = λ (o : Option Text). or_text o (codes "unknown") in
    or_text r.install_path (
      join (join (join (join home (codes "plugins/cache")) (part r.marketplace)) (part r.name))
        (part r.version))

-- `safeHashFile`, which gives no hash on an error
abbrev pub is_hash : String → Option String → Bool
is_hash want none = str_eq "" want
is_hash want (some actual) = str_eq actual want

-- Whether one of the files below `dir` is the command with the hash.
unfoldable pub any_match : View → Text → Text → String → List Text → Bool
any_match v dir command want [] = false
any_match v dir command want (file ∷ files) =
    let rest = any_match v dir command want files in
    if ends_with file (codes ".md")
    then (if text_eq (strip_md (drop (length dir + 1) file)) command
        then is_hash want (v.sha256 file) || rest
        else rest)
    else rest

-- The loop of `anyPluginCommandMatchesHash` over the plugins.
unfoldable pub any_plugin_matches : View → Text → Text → String → List Plugin → Option Bool
unfolding install_path any_match
any_plugin_matches v home command want [] = some false
any_plugin_matches v home command want (r ∷ rs) =
    let dir = join (install_path home r) (codes "commands") in
    let rest = any_plugin_matches v home command want rs in
    if v.exists dir
    then elim (walk_dir v dir) [
      | none ↦ none
      | some files ↦ if any_match v dir command want files then some true else rest
    ]
    else rest

-- `anyPluginCommandMatchesHash`
unfoldable pub any_plugin_command_matches_hash : View → Text → Text → String → Option Bool
unfolding any_plugin_matches
any_plugin_command_matches_hash v home command want =
    if str_eq want "" then some false else any_plugin_matches v home command want v.installed
