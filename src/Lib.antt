-- ===== src/Lib.antt =====
-- VaultFleet is a master that keeps backup policies, commands and rollouts in a database, and
-- agents that are connected to it by web sockets and do the work. This library is about the two
-- services of the master that decide what an agent is told to do and what has become of it, the hub
-- through which the master talks to the agents, and the parts of both sides that keep state.
--
-- The parts and their files:
--   Engine         the database sessions the services run on: tables as lists of rows, statements
--                  and transactions, of which any may fail, the clock and the identifiers of new
--                  rows. Engine/Keeps, Engine/Assures and Engine/Rows carry the proofs about
--                  every session.
--   Commands       internal/master/commands/service.go, the commands that are queued for agents
--                  and the task records that stand for them:
--     Model          the rows (internal/master/db/models.go), the constants, isTerminal,
--                    isLongRunning, taskTypeForCommand, DeadlineForType
--     Create         CreateCommand
--     Dispatch       in Dispatch/Prepare prepareMessageForDispatch, in Dispatch/Record
--                    recordDispatchSuccessForCommand, recordDispatchFailure, failCommandAndTask,
--                    in Dispatch/Send dispatch, DispatchPendingForAgent,
--                    DispatchNewPendingForAgent, RecordDispatchSuccess, RecordDispatchFailure
--     Complete       in Complete/PolicyAck CompletePolicyAck, in Complete/TaskResults
--                    CompleteTaskResultWith and CompleteSnapshotListWith, in Complete/Ending
--                    completeCommand and its callers, and CancelCommand
--     Timeout        TimeoutExpired, timeoutCommandAndTask, sendTimeoutCancel
--     Service        the methods as calls, and runs of calls
--   Rollout        internal/master/agentrollout/service.go, the staged upgrades of agents:
--     Model          the rows, the constants, rolloutTerminal, recordAudit
--     Input          normalizeCreateInput, normalizeIDs, normalizeTags
--     Plan           resolveTargets, agentTags, hasAllTags, planItems
--     Create         CreateRollout, firstActiveConflict, HasActiveItem
--     Advance        AdvanceRollout, startItem, failItem, failRollout, markRolloutRunning,
--                    completeRollout, expireTimedOutItems, nextItems
--     Heartbeat      HandleHeartbeat, CancelRollout, AdvanceAll
--     Service        the methods as calls, and runs of calls
--   Hub            internal/master/ws/hub.go: the registry of connected agents, and the requests that
--                  wait for a response; Hub/System is the step relation of the latter, and
--                  Hub/Monitor the scan of internal/master/ws/monitor.go
--   ArtifactNaming internal/artifactnaming/naming.go, the names of backup archives:
--     Sanitize       sanitizeValue, hasControl, firstNonEmpty
--     Template       tokenPattern, validateTemplateSyntax, effectiveTemplates, renderTemplate,
--                    collisionWarnings
--     Context        dockerValues, databaseValues, inferSourceType, inferContextName
--     Render         Render, renderVariables, validateRenderedRemoteDir,
--                    validateRenderedFilename, validateRenderedPath
--   LogBuf         internal/master/logbuf/logbuf.go: New, Write, Bytes of the log's ring buffer
--   PolicyStore    internal/agent/policy/store.go, the agent's policies and pending results as files:
--     Files          writeFile0600, ensureDir, reading and removing
--     Policies       SavePolicy, LoadPolicy, LoadPolicyByID, LoadPolicies, DeletePolicy
--     Pending        SavePendingResults, LoadPendingResults, ClearPendingResults
--   TaskLogs       internal/master/tasklogs/buffer.go, the lines that agents send about their tasks:
--     Model          the entries, the rows of the table, the limits of a new buffer
--     Limits         enforceLimits
--     Persist        persistLine, loadPersistentEntry, markPersistentComplete,
--                    deletePersistentLogs, pruneExpiredPersistentLogs
--     Buffer         Add, MarkComplete, Get, DeleteAgent, isExpired
--   TaskManager    internal/agent/task_manager.go: Start, a task's end, Cancel;
--                  TaskManager/System is their step relation, in which the return of a task's
--                  function and the locked section deferred to it are two steps
-- The remaining files hold proofs. Commands/Evolution and Rollout/Evolution say how the tables may
-- change, and their children that each operation changes them so; Commands/Results, Delivery, Scan,
-- Limit, Restore, Cancel and Expiry and the files below Service, Plan, Input, Create and Advance
-- hold what the operations of the services promise. Hub/Once is about the requests and
-- Hub/Registry about the connections, LogBuf/Refine about the ring buffer against the text that was
-- written, TaskManager/Slots and TaskManager/Cancel about the running tasks. Of the task logs,
-- TaskLogs/Counted and its children are about the limits, TaskLogs/Pages about reading in pages, TaskLogs/Forget
-- about what is removed, and TaskLogs/Restart, Mirror, Reload and Roundtrip about the table against
-- the memory. ArtifactNaming/Safe is about sanitized values, ArtifactNaming/Tokens about the matches
-- of the pattern and ArtifactNaming/Levels about rendered names, PolicyStore/Roundtrip about files. The files named Examples run the parts on small inputs.
-- Prelude has the tests, the list functions, the strings and the integers that all of these share.
--
-- How a service is written: a method is a function from a session to its result and the session
-- after it, `M Tables`. A result is `ok` or `err`. A statement reads and writes the tables at once
-- and advances the session's count of statements; `Engine.fails` says which statements and commits
-- fail. A transaction whose body or commit fails leaves the tables of its start. The services'
-- methods do not run in parallel: SQLite has one writer, and a run is any sequence of calls. A
-- `switch` on an error is `attempt`, and an error that the source drops is dropped. Where a method
-- returns a flag and an error, as CompleteTaskResultWith does after a failed commit, the flag beside
-- an error is left out. A callback of CompleteTaskResultWith or CompleteSnapshotListWith is any
-- operation of the session; in a run of calls it writes no table of the model, as those of
-- internal/master/api/snapshots.go, which write the snapshots.
--
-- What the services use of other code is a field of `Commands.Model.Env` or `Rollout.Model.Env`:
-- JSON together with the encryption of a stored payload, and the hub, whose answers may differ from
-- one call to the next. What the hub has taken is recorded in the tables `sent` and `asked`.
--
-- The hub and the task manager lock a mutex for a short section: each section is one function, and a
-- step relation lets the sections of all goroutines follow each other in any order. Maps are lists
-- with the keys in the entries. The task logs and the policy store run on sessions like the
-- services; a task log's line is written to the table right after it was put in the map, as if no
-- other call came between. Of the policy store a write that fails may leave anything in its file.
-- Parameters are the redaction of a line (TaskLogs.Model.Env), times and paths
-- (ArtifactNaming.Render.Env), JSON and the disk (PolicyStore.Policies.Env, PolicyStore.Pending.Json).
--
-- Texts are lists of bytes. `strings.TrimSpace` and `strings.ToLower` treat the bytes below 128.
-- Times are natural numbers of nanoseconds; 0 is the zero time. Counts in an input are integers.
-- Loops are over lists, so that no fuel is needed.
--
-- Not modelled: nil services and databases, failures of json.Marshal on the services' own types,
-- RunTimeoutScanner's ticker, the columns of agents and audit events that the services do not use,
-- the HTTP API, the connections themselves, notifications, storage checks and backups of the master,
-- and the agent's executors, scheduler and message handler.
mod Prelude
pub mod Engine
pub mod Commands
pub mod Rollout
pub mod Hub
pub mod LogBuf
pub mod PolicyStore
pub mod ArtifactNaming
pub mod TaskLogs
pub mod TaskManager
