-- ===== src/Lib.antt =====
-- A model of port-manager, a dashboard that lists the TCP listeners of its user, kills them, labels
-- them, and restarts those that it remembers.
--
-- A request reaches a handler through the routes of internal/server (authentication, the CSRF guard,
-- and the rate limit of the login). The handler asks a scanner and an inspector for the processes,
-- internal/process for the kill or the restart, and internal/store for labels and remembered
-- listeners, which are kept in one JSON file that is replaced atomically. internal/model turns the
-- listeners into the rows that are shown.
--
--   Prelude           lists, bytes, dictionaries, instants, UTF-8, base64 and the functions of Go's
--                     standard library that the program uses
--   Config            internal/config/config.go: where Load takes its values from, and validate.
--                     Config.EnvFile is persistGenerated, and Config.Loading the rest of Load
--   Scanner           internal/scanner. Scanner.Lsof is lsof.go, Scanner.Libproc the Go part of
--                     libproc_darwin.go, and Scanner.Auto picks one (scanner.go, libproc_stub.go);
--                     Scanner.Aggregate has what both do with the listeners that they find
--   Inspector         internal/inspector. Inspector.Env is the Go part of envp_darwin.go, and
--                     Inspector.Inspect the method Inspect of inspector.go
--   Disk              writeAtomic of internal/store/store.go; Disk.Atomic on crashes and failures
--   Store             internal/store/store.go. Store.Key is LabelKey and Store.Ulid newULID;
--                     Store.Evict has the three evictions, Store.Persist persistLocked, Store.Ops the
--                     methods behind the mutex, and Store.Hydrate Open and hydrate
--   Auth              internal/auth/auth.go. Auth.Cookie is IssueCookie and VerifyCookie, and
--                     Auth.Limiter the RateLimit methods
--   Process           internal/process/process.go: Kill, escalate, Restart, spawn and reap;
--                     Process.Escalation has a kill and its goroutine over time
--   Model             internal/model/viewmodel.go: BuildViewModels
--   Server            internal/server. Server.Headers has the helpers on text, Server.Access
--                     middleware.go and the login of handlers.go, Server.Snapshot ports_handler.go,
--                     Server.Mutations mutation_handlers.go, and Server.Routes router.go;
--                     Server.Logging is the middleware around all of them: request ids, log lines
--                     and recovery
--   Command           cmd/port-manager/main.go: openStoreForCfg, and run up to the server
--   Tests             the theorems at concrete inputs
--
-- State is passed explicitly. A method that holds a mutex is one step, and a request is served in one
-- step: requests that overlap are not interleaved inside a handler, but for the check and the record
-- of an attempt to log in (Auth.Limiter.Overlap). The clock, random bytes, scans, inspections and the
-- answers of the operating system are arguments, so that a theorem holds for all of them. SHA-256,
-- HMAC, JSON and the rounding of a Duration to seconds are parameters.
--
-- Numbers are natural numbers, and instants are nanoseconds since Go's zero time; the 64 bits of a
-- Unix time are written out where they wrap around. A port or a process id is a Go int that is only
-- compared. Maps are association lists, which an iteration visits in whatever order they have. The
-- loop of persistLocked has as fuel the number of entries that it can evict and one more, as every
-- round that goes on evicts an entry; trimming, and reading an environment, have the length of their
-- text, as every round takes a byte off, and a decimal number has twenty digits, enough for 64 bits.
--
-- Not modelled: the C functions of libproc_darwin.go and envp_darwin.go and the calls of gopsutil,
-- whose answers are arguments; the templates and assets; the flags, the listening and the shutdown of
-- net/http in cmd/port-manager. A scan and an inspection are arguments of the handlers, whichever
-- scanner made the scan; Scanner and Inspector say what they can be. The text of log lines is not
-- modelled, only their fields.
pub mod Prelude
pub mod Config
pub mod Disk
pub mod Store
pub mod Auth
pub mod Inspector
pub mod Process
pub mod Model
pub mod Server
pub mod Command
pub mod Tests
pub mod Scanner
