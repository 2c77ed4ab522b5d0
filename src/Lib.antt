-- ===== src/Lib.antt =====
-- Claude Housekeeper reads a Claude home directory, decides for every finding which stance is allowed,
-- and changes files only inside an operation that can be rolled back. This library models the modules
-- of scripts/lib that decide and that keep files safe:
--
--   Contracts   contracts.mjs: the objects the other modules exchange
--   Findings    stance.mjs: the argument of `decideStance`, and tests on its class names
--   Stance      stance.mjs: `decideStance`, one definition for each part of its ladder
--   Policy      policy.mjs: protection rules, `loadConfig`, `pathMatchesProtection`, `matchPolicy`
--   SecretNames surface.mjs: the file names that look secret
--   Surface     surface.mjs: `classifySurface`
--   Disk        what snapshot.mjs and rollback-plan.mjs see of the file system, and the manifests
--   Snapshot    snapshot.mjs: `takeSnapshot`
--   Operation   snapshot.mjs: `applyOperation` and `verify`
--   Gc          snapshot.mjs: `gcSnapshots`
--   Rollback    rollback-plan.mjs: compose, validate, execute and abort
--   Stream      rollback-plan.mjs: `_composeStreamRollbackPlan`
--   RoundTrip   snapshot.mjs with rollback-plan.mjs: capture, then restore
--   Lock        lock.mjs: `acquireLock` and `releaseLock`, one file-system call at a time
--   Detectors   audit.mjs: what the assembly of a report knows of each detector
--   Audit       audit.mjs: `buildFinding` and the policy matches of a finding
--   Assembly    audit.mjs: `assembleReport` from the detectors' outputs on
--   Jsonc       audit.mjs: `hasJsonComments`
--   Observe     observe.mjs: `walkBounded`
--   Clean       clean-plan.mjs: `classifyFinding`, the rules that admit a finding to a clean plan; its
--               children View (what a plan sees of the files), Compose (`composeCleanPlan`), Batch
--               (`composeBatchCleanPlan`, `composeStreamCleanPlan`), Validation (`validateCleanPlan`),
--               Execution (`executeCleanPlan`, `executeBatchCleanPlan`, `_executeBatchChunk`) and
--               Streaming (`executeStreamCleanPlan`); the other children hold their proofs
--   Learning    learning.mjs: appending, `pruneLearningFiles` and `markFalsePositive`
--   Posix       the functions of Node's path module that these use
--   Base        shared names, Boolean tests, lists and results
--   Examples    concrete inputs and tests
--
-- The report is put together from the outputs of the detectors (Detectors): a finding's path is
-- classified (Surface) and matched against the rules (Policy); the classification and the matches are
-- fields of the argument of the stance engine (Stance), whose answer the finding carries (Audit,
-- Assembly). A clean plan takes the findings of a report that its rules accept (Clean). Executing it takes
-- the lock (Lock), collects old operations (Gc), captures its targets (Snapshot), applies and verifies its
-- mutations (Operation); a rollback reads the manifest that this left (Rollback, Stream). Snapshot,
-- Operation, Gc, Rollback and Clean.Execution share one disk (Disk): nodes by path, manifests by operation
-- id, snapshot directories by operation id. Clean.View and Observe look at directories and links, which
-- that disk does not have: the system calls are their arguments.
--
-- Texts that the program walks are lists of character codes; texts that it only passes on are strings.
-- A thrown error is a value of a result type, next to the disk that the call left. The hash, link
-- resolution, default mode bits and the bytes of meta.json are fields of the parameter `Host`, and so are
-- the failures that the program meets after it has changed files: the last write of `applyOperation`
-- (`can_store`) and the removals of `gcSnapshots`, whose errors are swallowed (`dir_stays`,
-- `manifest_stays`). Clock readings and drawn operation ids are arguments; a mutation is any function on
-- the files. A manifest is stored as its parsed value or as malformed: printing and parsing JSON is not
-- modelled, so a field that another program gave another type has no counterpart. A file lies in a
-- directory by its path alone: `mkdir` has no effect, and a directory is no node. Links are followed
-- through at most 40 steps, the limit of the kernels that the program runs on. Sequence numbers are
-- padded to four digits, which the budget of 50 files keeps exact.
--
-- The walk of Observe is given two rounds more than its limit of entries, which is proved to be
-- enough for any tree. The walks of Clean.View have a number of rounds in their view, which is no
-- part of the program; where it is too small they return `none`. Loops of the program have no such
-- end: the theorem on whole streams assumes that the directories that it walks are finite
-- (`AreFinite`), and proves that they end.
-- The removal of a directory after its last file is assumed to succeed.
--
-- Not modelled: the detectors of audit.mjs, which read and parse the whole home directory;
-- harden-plan.mjs, the JSON rewriting of snapshot.mjs, `readSummary` of learning.mjs, report.mjs,
-- redact.mjs, the command line and the session hook; the lines of lock.history and of the learning
-- log, which never fail a call; fsync and the temporary names of `atomicWrite`, and its failures in
-- all calls but the last of `applyOperation`: the writes of manifests by `takeSnapshot`, `verify`,
-- the rollback and the abort are assumed to succeed. The files in a stream's directory are kept
-- apart from the disk. That its directory and its parent.json can first be written is an argument
-- (`prepared`); the later writes are assumed to succeed. The numbers of its chunks are padded to
-- three digits, which is exact for up to 50000 pairs.
pub mod Base
pub mod Contracts
pub mod Findings
pub mod Stance
pub mod Posix
pub mod Policy
pub mod Disk
pub mod Snapshot
pub mod Operation
pub mod Gc
pub mod Rollback
pub mod Lock
pub mod RoundTrip
pub mod Stream
pub mod SecretNames
pub mod Surface
pub mod Detectors
pub mod Audit
pub mod Assembly
pub mod Observe
pub mod Jsonc
pub mod Clean
pub mod Learning
pub mod Examples
