-- ===== src/Disk.antt =====
-- The files that Housekeeper reads and writes, as scripts/lib/snapshot.mjs and
-- scripts/lib/rollback-plan.mjs see them: file nodes by path, operation manifests by operation id, and
-- the snapshot directories. What the host decides (sha256, where a link leads, default mode bits, the
-- bytes of meta.json) is a parameter.
use claude_housekeeper.Base.{
  ℕ, zero, suc, Bool, String, Option, none, some, List, if◌then◌else◌, is_some,
}
use claude_housekeeper.Contracts.{Text}
use claude_housekeeper.Posix.{codes, text_eq, join}
use claude_housekeeper.Policy.{covers}

-- `can_store` says, by operation id, whether the write that ends `applyOperation` succeeds; `dir_stays` and
-- `manifest_stays`, whether `gcSnapshots` fails to remove a snapshot directory or a manifest.
pub record Host : Type 0 where
  pub sha256 : Text → String
  pub resolve_link : Text → Text → Text
  pub default_mode : ℕ
  pub encode_meta : Text → ℕ → Text
  pub can_store : Text → Bool
  pub dir_stays : Text → Bool
  pub manifest_stays : Text → Bool

-- A file with its mode bits and bytes, or a symbolic link with its target text.
pub data Node : Type 0 where
  regular : ℕ → Text → Node
  link : Text → Node

abbrev pub Nodes : Type 0
Nodes = Text → Option Node

abbrev pub put_node : Nodes → Text → Option Node → Nodes
put_node ns p v q = if text_eq p q then v else ns q

-- The path behind a chain of links; `none` when the chain is too long (ELOOP).
unfoldable pub follow : ℕ → Host → Nodes → Text → Option Text
follow zero h ns p = none
follow (suc n) h ns p = elim (ns p) [
  | none ↦ some p
  | some node ↦ elim node [ regular _ _ ↦ some p | link t ↦ follow n h ns (h.resolve_link p t) ]
]

-- The node that a path leads to, through at most 40 links.
unfoldable pub stat_node : Host → Nodes → Text → Option Node
unfolding follow
stat_node h ns p = elim (follow 40 h ns p) [ none ↦ none | some q ↦ ns q ]

-- `existsSync`
unfoldable pub exists : Host → Nodes → Text → Bool
unfolding stat_node
exists h ns p = is_some (stat_node h ns p)

-- The bytes that a snapshot keeps of a node: a link's target text, or the file's bytes.
abbrev pub node_bytes : Node → Text
node_bytes (regular _ b) = b
node_bytes (link t) = t

-- `hashFile`; `none` is the error of `lstat` on a missing path.
unfoldable pub hash_file : Host → Nodes → Text → Option String
hash_file h ns p = elim (ns p) [ none ↦ none | some node ↦ some (h.sha256 (node_bytes node)) ]

-- `copyFile(source, target)`: writes through a link, and gives the target the mode and the bytes of
-- the source. `none` is an error, and nothing is written.
unfoldable pub copy_file : Host → Nodes → Text → Text → Option Nodes
unfolding stat_node
copy_file h ns source target = elim (stat_node h ns source) [
  | none ↦ none
  | some s ↦ elim (follow 40 h ns target) [ none ↦ none | some t ↦ some (put_node ns t (some s)) ]
]

-- `atomicWrite`: a temporary file renamed onto the path, which replaces whatever stood there. This is
-- the write that succeeds; where a caller handles its failure, the caller tests the host first.
abbrev pub atomic_write : Host → Nodes → Text → Text → Nodes
atomic_write h ns p bytes = put_node ns p (some (regular h.default_mode bytes))

-- `rm(dir, { recursive: true, force: true })`
abbrev pub remove_tree : Nodes → Text → Nodes
remove_tree ns dir q = if covers dir q then none else ns q

pub data Status : Type 0 where
  planned snapshot_taken applied verified rolled_back aborted unrecognised : Status

-- `makeFileSnapshot`, with the marks that `applyOperation` and the rollback set later.
pub record FileSnapshot : Type 0 where
  pub seq : ℕ
  pub original_path : Text
  pub snapshot_path : Text
  pub sha_before : String
  pub sha_after : Option String
  pub mode : ℕ
  pub size : ℕ
  pub is_symlink : Bool
  pub symlink_target : Option Text
  pub verify_failure : Bool
  pub rollback_skipped : Bool
  pub is_applied : Option Bool
  pub rollback_verified : Bool

-- `makeOperationManifest`
pub record Manifest : Type 0 where
  pub id : Text
  pub home : Text
  pub status : Status
  pub created_at : ℕ
  pub captured_at : ℕ
  pub applied_at : Option ℕ
  pub verified_at : Option ℕ
  pub rolled_back_at : Option ℕ
  pub aborted_at : Option ℕ
  pub housekeeper_version : String
  pub command : String
  pub mode : String
  pub consent_summary : String
  pub files : List FileSnapshot
  pub partial_apply : Bool
  pub blocked_by_protection : List Text

-- What a manifest file holds.
pub data Stored : Type 0 where
  malformed : Stored
  manifest : Manifest → Stored

pub record Disk : Type 0 where
  pub nodes : Nodes
  pub manifests : Text → Option Stored
  pub snapshot_dirs : Text → Bool

abbrev pub put_manifest : Disk → Text → Option Stored → Disk
put_manifest d id v = record d { manifests = λ i. if text_eq id i then v else d.manifests i }

-- `<claude>/housekeeper/snapshots/<id>`, for the Claude directory `claude`
unfoldable pub snapshot_dir : Text → Text → Text
unfolding join
snapshot_dir claude id = join (join claude (codes "housekeeper/snapshots")) id

abbrev pub parsed_manifest : Option Stored → Option Manifest
parsed_manifest none = none
parsed_manifest (some malformed) = none
parsed_manifest (some (manifest m)) = some m

-- `readManifest`, which throws on a missing or malformed file
abbrev pub read_manifest : Disk → Text → Option Manifest
read_manifest d id = parsed_manifest (d.manifests id)
