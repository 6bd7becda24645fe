-- ===== src/Lib.antt =====
-- The core of pm2, a process manager with workflows written in Go: declared workflows and their
-- reference graph, the engine that registers and runs them, the journals of their runs, the
-- schedules, the managed processes with their launches, exits and commands, and the escaping and
-- rotation of logs.
--
-- How the parts interact. `pm2 workflow start` sends a batch of workflows to the daemon, whose
-- engine validates each, checks that the whole definition set is acyclic, saves it and arms the
-- schedules. A run claims its workflow's single-flight slot, goes through the stages in order, may
-- run other workflows within it, frees the slot and appends a record to the journal.
--
-- Prelude          Text as lists of bytes, maps as association lists, results, tests, signed
--                  integers, and the lemmas about them.
-- Workflow.Stage   workflow/config.go: Stage, Kind, Ref, parseTimeout, validateStage.
-- Workflow.Config  workflow/config.go: Config, Key, ParseKey, Normalize, Validate,
--                  TimeoutDuration, Keys; process/path.go: ResolveScriptPath.
-- Workflow.Batch   workflow/config.go: ValidateAll.
-- Workflow.Graph   workflow/graph.go: resolve, AmbiguousRef, DanglingRefs.
-- Workflow.Search  workflow/graph.go: CheckAcyclic and renderCycle. The closure `visit` becomes a
--                  function of the stack and the colours.
-- Wfengine.Exit    daemon/executor/exit.go: ExitInfo and ExitInfoFromWait.
-- Wfengine.State   workflow/run.go and runhistory/record.go: runs and records;
--                  daemon/wfengine/engine.go: the engine's state, claim, release, recordRun;
--                  daemon/wfengine/execute.go: newActiveRun.
-- Wfengine.Stages  daemon/wfengine/stage.go: execStage, fillExit, commandLine; the stage parts of
--                  execute.go: publishStage, mergeEnv, describeStageFailure.
-- Wfengine.Execute daemon/wfengine/execute.go: runStage, runNested, markRemaining, execute; Run in
--                  engine.go, up to its goroutine (start_run) and with the wait for it (run).
-- Wfengine.Registry daemon/wfengine/engine.go: Register, Delete, Load, persist; armAll of cron.go.
-- Wfengine.Firing  daemon/wfengine/cron.go: cronFire, recordSkip.
-- Wfengine.Listing daemon/wfengine/engine.go: List, LiveRuns; runhistory/query.go: RecentWorkflows.
-- Cron             cron/scheduler.go: Register.
-- Runhistory.Names, Query, Retention
--                  runhistory/query.go and retention.go: file names, scan, scanFile, readTail (which
--                  caps a day file at its last 32 MiB), pruneDir. What a query gives is said of the
--                  lines that readTail returns.
-- Runhistory.Lookup runhistory/query.go: WorkflowRun; runhistory/runid.go: dayOfRunID.
-- Runhistory.Store runhistory/store.go: AppendTask, AppendWorkflow, append, ensureDay, Close.
-- Daemon.State, Registry
--                  process/app_config.go, process_info.go, status.go and
--                  daemon/process_registry.go: managed processes and the operations of their map.
-- Daemon.Launch    daemon/launch.go: launchProcessWith.
-- Daemon.Lifecycle daemon/lifecycle.go: onProcessExit, stopProcess, triggerCron.
-- Daemon.Manager   daemon/process_manager.go and autosave.go: the commands by target, Save.
-- Daemon.Starting  daemon/process_manager.go: StartApp, Resurrect; process/app_config.go:
--                  Normalize; daemon/workflow.go: LookupTask.
-- Daemon.Reach, Loops, Histories, Commands, Naming, Saving
--                  What sequences of these operations keep, and what each command does; perform of
--                  Saving is the choice of the command in daemon/network/handler.go.
-- Daemon.Journal   daemon/history.go: the records of the task journal.
-- Logfile.Escape   logfile/escape.go: logEscape and writeEscapedLine.
-- Logfile.Rotation logfile/rotation.go: Rotate, timestampDate, the stages, commit and the rollback.
-- Logfile.Writer   logfile/writer.go: openWithClock, Write, ensureCurrent, reopen, Close. The files
--                  are a map by path, and a writer's file is that of its path or a detached one.
-- Logfile.Files    logfile/files.go: ListTasks, listEntries, sortFiles, archiveDate, taskStem.
-- Logfile.Follow   logfile/follow.go and entry.go: pollFollowState, completeEntries, newEntry.
-- Process.Format   process/format.go: shortDuration, FormatBytes and the cells of a process.
-- Paths            filepath.Ext and the stem of a name, as the rotation and Normalize use them.
--
-- State and time. The engine is a value that each operation takes and returns. A pointer to a run
-- is the run with a handle, unique to its allocation, and the slot's content is written back
-- wherever the code mutates through the pointer. The clock, run identifiers, cancellation, the
-- children's ends and the formats of Go's library are the fields of a World, indexed by a counter
-- of the engine, so that they can answer differently at every call.
--
-- A file is its content in a map by path; what a call of the operating system answers, and how far
-- a write gets, are arguments (Faults, Turn, AppendFaults, Saving). The conversion to and from JSON is
-- a parameter wherever a file holds it.
--
-- Bounds and fuel. CheckAcyclic runs on one round of fuel for each key, since every nested visit
-- paints a white key. A run nests at most MaxNestingDepth = 8 deep, and so gets eight rounds. Each
-- round of a Write of the log takes a byte, and so gets as many rounds as there are bytes. Numbers
-- are unbounded naturals; lengths and clocks do not come near the bounds of Go's integers.
--
-- Not modelled. Interleavings of several runs of one engine and the locks that guard them: the
-- theorems about the engine are about one caller at a time. A panic in a stage, which the code
-- recovers from. The journals of the engine and of the daemon list the records that they hand to
-- the history: an append that fails is only logged, and what it leaves in a file is the part of
-- Runhistory.Store. A nil history is left out. The wait of a kill for the exits; the errors of a
-- rotation that only read; the channels and the ticker of the follower. The web and RPC servers,
-- the terminal interface, system monitoring and the wizard.
pub mod Prelude
pub mod Paths
pub mod Process
pub mod Cron
pub mod Workflow
pub mod Wfengine
pub mod Runhistory
pub mod Logfile
pub mod Daemon
