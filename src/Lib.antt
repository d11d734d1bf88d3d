-- ===== src/Lib.antt =====
-- MiraBridge runs commands on a Windows host for a client that reaches it over SSH. A worker process
-- on the host (plugins/mira-bridge/packages/windows-worker) answers requests, keeps its state in one
-- SQLite file, and starts a runner process for each Job; several workers and runners share the file.
--
-- The parts and the files that model them:
-- - Protocol: plugins/mira-bridge/packages/protocol/src/constants.ts and errors.ts: job statuses,
--   error codes, asBridgeError.
-- - State: plugins/mira-bridge/packages/windows-worker/src/state.ts, whose directory also has the files
--   that follow. `Database` holds the tables as lists of rows without an order; each method of WorkerState is a function of the same name in snake case. A method that
--   may throw is an action whose result is a value or an error, and a transaction puts the tables back
--   when its body throws.
-- - Server: stdio-server.ts. `arrive` is the part of `handle` up to the start of an operation, `finish`
--   the part after it; the interleavings of requests are sequences of these steps.
-- - JobService: jobs.ts. Listing has listJobs and its cursors; Control has getJob, cancelJob,
--   writeJobInput, resizeJobTerminal, readJobTerminal and readJobLogs; Reconcile has reconcileJobs and
--   waitJob.
-- - Storage: storage.ts. Prune has the steps of pruneStorage and Collect the whole call; Capacity has
--   ensureStorageCapacity and assertFreeSpace.
-- - Capture: captureBoundedStream of process-exec.ts.
-- - JobInput: listenForJobInput of job-input.ts. Delivery has the chain of deliveries and the runs of
--   the channel, in which requests, the attachment and the turns of the chain interleave.
-- - Transfers: transfers.ts. Begin has beginPush, Chunks writeChunk and readChunk, Commit commitPush for
--   a file, Install installPath, Recovery recoverOrRemove, finish and the loop of cleanupStale, and
--   Manifest the summaries of directories. Each call
--   of the file system or the database takes an outcome from a list: it succeeds, throws, or the process
--   ends before it.
-- - OutputFiles: output-files.ts, the preview of an output and the pages of readOutputRange.
-- - Base: shared names, lists, tables, sorting, JSON values, actions and loops.
--
-- The server and the job service call the statements of State, and Storage calls them between
-- removals of files. Statements are atomic, as SQLite makes them.
--
-- Numbers are natural numbers. The code's numbers are doubles that it keeps to safe integers, so
-- nothing wraps; where the code subtracts and compares, the model adds on the other side or the
-- subtraction stops at 0 where the code takes a maximum with 0. A time is its count of milliseconds.
-- A text that holds JSON is the value that it parses to. The only fuel is that of `all_pages`,
-- `read_all` and `read_pages`, clients that ask for one page or chunk after another: one more than the
-- number of selected Jobs, one more than the bytes of the file, and the bytes that are left, are enough.
--
-- Parameters stand for what is not in the repository or only reaches the operating system: the file
-- system (`Disk`), the process table, the input pipe, the text of the truncation marker, ISO texts, what
-- is well-formed UTF-8, the lower case of a path and the hash of a file. The path policy, the commit of a
-- directory and the capacity check are parameters of the calls of Transfers that use them.
--
-- Not modelled: the schema migration of old files, the frame readers of the server and of the input
-- channel, startJob and runJob, the start of a pull or of a directory, the commit of a directory,
-- manifests and archives, files and path policy, PowerShell and browser calls, the MCP server, the command
-- line, and the C# programs: some of them only reach the operating system, the others are left for a later extension.
pub mod Base
pub mod Protocol
pub mod State
pub mod Server
pub mod Storage
pub mod Capture
pub mod JobService
pub mod JobInput
pub mod Transfers
pub mod OutputFiles
pub mod Tests
