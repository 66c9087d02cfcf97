-- ===== src/Lib.antt =====
-- The verification library of the lab control plane: the `lab` command that applies faults to a
-- small server environment, observes it, and resets it.
--
-- The parts and their files. A path is given from the repository's root.
--   Conformance, Conformance/*: internal/conformance. An Observer is a record of functions from the
--     system's state; a Check has its Execute as a function with an Outcome (it returns or panics);
--     Catalog/* has the 25 checks, Runner the runs, Result the classification.
--   State, State/*: internal/state. State has a constructor for each text of a state, File is the
--     schema of state.json, Store is Read, Write, InvalidateClassification and AppendHistory over a
--     Disk, Detect is the detection algorithm.
--   AtomicFile: the pattern of writing a temporary file and renaming it, as stages of which the
--     operating system may refuse any; a file that is renamed before it is written shows as torn.
--   Executor, Executor/*: internal/executor. The methods of the interface are the constructors of
--     Op; Exec is code that calls them; Lock is lock.go over a lock file and a process; Audit is the
--     audit log; Decimal is the printing and reading of a pid; Real is the mutating half of real.go
--     over the system calls that it makes, the record System; Observe is its observing half over what
--     commands and requests answer, the record Probe.
--   Catalog, Catalog/*: internal/catalog. Each fault has its definition, Apply and Recover.
--   Cmd, Cmd/*: cmd and internal/output/model.go. A command takes a World (the machine with the
--     audit log, the disk, the lock, the warnings that are printed on stderr and on stdout) to its
--     CommandResult and the world after it.
--   Output, Output/*: internal/output/render.go. A call of Fprintf is a Line, its format and arguments.
--   App, App/*: app.go, the whole process. Flags are the loops over the arguments; Meaning is the
--     table of the commands; Interrupt is the goroutine that waits for SIGINT and SIGTERM.
--   Service/Config, Service/Server: service/config (loading the configuration), service/chaos and
--     service/server (a request through the middleware and the handlers, and what the endpoint checks
--     of the control plane conclude from the answers).
--   Service/Signals: service/signals, over a directory of four files. Service/Main: service/main.go as
--     a monad that goes on or exits; the running service is a list of events, and those behind the
--     first one that stops it fall into its shutdown, behind the reset of the signal handlers.
--     Service/Telemetry: service/telemetry. Service/Logging: service/logging, where a write may be cut
--     short.
--   Invariants, Invariants/*: internal/invariants/spec_index.go. Models and Contracts are the index,
--     Regenerated and Complete are about the regeneration of the document.
--   Config: the constants of internal/config/config.go. Common: helpers. Examples: a concrete system
--     with tests.
--
-- How they interact: the commands read and write the state file through Store, run the suite of
-- Conformance through the observer of an Env, and mutate the machine through its executor only; an
-- Env bundles what the composition root hands to a command. App.run parses the arguments, puts a
-- logger into the world, runs the command, and renders its result. The system under control is a
-- type S with an arbitrary observer and executor. The audit log is part of the machine, since
-- executor and commands share one logger. The service shares only files with the control plane:
-- its signal files, its log and its telemetry.
--
-- Bounds and fuel. Acquire calls itself where it has removed a lock file; the model counts these
-- calls, and `none` is a recursion that has not ended. Two are enough where the file can be
-- removed. The loop of F-018 has its own bound, 100000, from the source. Times are natural
-- numbers. Times are milliseconds, and nanoseconds in Service/Telemetry. float64 is the parameter
-- FloatOps there.
--
-- Not modelled: the HTTP server and client themselves, nginx between them, the test helpers, and
-- of the loading of the configuration the parsing of YAML. The order in which Go ranges over a map
-- is not fixed; the model takes the order of a list. encoding/json is a parameter: the record Json
-- for the checks, and a document of the state file, of the telemetry or of a result is the record
-- that it encodes; marshalling does not fail there, except for the result of lab reset, which holds
-- functions. The log has it as the parameter Encoder. What the audit logger prints on stderr where
-- its file cannot be written is left out. A command is one step with respect to other processes,
-- except that its reads and writes of the state file may each fail, and except for the interrupt
-- handler, which App/Interrupt lets read before and write after a command. A signal that reaches the
-- service before its handlers are installed, or between the first one and their reset, is not
-- modelled, and the goroutine that allocates memory until it is killed is an entry of the log only.
pub mod Common
pub mod Config
pub mod Conformance
pub mod State
pub mod AtomicFile
pub mod Executor
pub mod Catalog
pub mod Cmd
pub mod Service
pub mod Examples
pub mod Output
pub mod App
pub mod Invariants
