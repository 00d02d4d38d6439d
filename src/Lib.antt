-- ===== src/Lib.antt =====
-- A model of lambs-server, a Go server that manages web projects on one machine: it authenticates
-- users, decides who may see which project, gives projects ports and shared services, runs tasks by
-- cron expressions, restarts what has failed, makes backups, keeps a registry of machines, and shows
-- tables of the projects' databases.
--
-- Base        shared helpers: Boolean tests, lists and maps over the native numbers, results, and Go
--             strings as lists of code points (Base.Text)
-- Store       rows of the server's PostgreSQL tables; a statement takes a Boolean that says whether it
--             fails, as every caller of db.DB.Exec and QueryRow treats errors on its own
-- Auth        internal/auth: Limiter (RateLimit and clientIP of ratelimit.go), Password
--             (VerifyPassword), Session (RequireAuth, RequireSuperAdmin), Login (HandleLogin),
--             Change (HandleMePassword), Register (HandleRegister) of auth.go, and Forgot
--             (HandleForgotRequest and HandleForgotVerify of forgot.go)
-- Access      CheckProjectView, CheckProjectAccess, AddMember, RemoveMember of
--             internal/handlers/projects.go, usersShareProject of users.go, canTouchNotification of
--             notifications.go
-- Projects    the project rows of internal/handlers/projects.go: Sources (the datasources), Update
--             (UpdateProject), Lifecycle (PatchProjectStatus, DeleteProject, PinProject,
--             ReorderProjects), Creation (CreateProject), and Hosts (allocHost of machines.go)
-- Notifications  internal/handlers/notifications.go
-- Tasks       internal/handlers/tasks.go
-- Users       ResetPassword (Reset), UpdateUser and DeleteUser (Edit) of internal/handlers/users.go
-- Machines    internal/handlers/machines.go with the registry of internal/runtime/nodes.go: heartbeat,
--             registration, status, deletion and ReconcileMachines
-- Backups     internal/handlers/backups.go: the list, doBackup and RunScheduledBackups
-- Settings    maskDSN of internal/handlers/settings.go
-- Gate        internal/gate/gate.go: HandleCheck and the query of HandleOfflinePage
-- Data        Redact (internal/db/redact.go), Sweep (readAllItems of internal/handlers/readall.go),
--             Ssrf (CheckDSNHost and resolvePublicHosts of internal/db/ssrf_guard.go), Tabs
--             (internal/handlers/redact_tabs.go), DataUrl (DataURLBytes, makeThumb and ProjectLogo of
--             internal/handlers/thumb.go) and Base64, which encoding/base64 is for it
-- Runtime     internal/runtime: Cron (cron_parse.go), Ports (portmgr.go), Services (AttachServices,
--             DetachServices, startShared and stopShared of procmgr.go), Processes (Start, Stop,
--             Status, filterEnv and memAvailableFrom of procmgr.go), Health (healthOnce of
--             procmgr.go), Proxy (tcpproxy.go), Scheduler (StartTaskRun, executeTask and
--             cronTickOnce of cron_sched.go)
-- Tests       runs at concrete inputs
--
-- A handler is a function from the tables and the request to the new tables and the reply. What the
-- surroundings decide (statements that fail, random draws, ports that open) is a record of
-- parameters. bcrypt, SHA-256, HMAC, golang-jwt, unicode.ToLower, strings.ToLower, Go's net and
-- image packages, the probes of a machine and PostgreSQL's LIKE are parameters, with what they
-- document as the hypotheses IsBcrypt and IsLike. Handlers run one after the other, except in
-- Runtime.Services.Launch, where the steps of startShared interleave, in Runtime.Scheduler.Running,
-- where the two parts of StartTaskRun and the ends of runs come in any order, in
-- Runtime.Processes.Counted, where Start, the two halves of Stop and the goroutine that waits for a
-- process do, and in Runtime.Proxy, where the goroutines of listeners and connections do. A pass of
-- healthOnce or idleOnce is taken without other goroutines between its calls; that the row of a
-- project reads the same in all its queries of one pass, unless they fail, is part of that. What a
-- project handler starts with `go` is a call in a list, in order, with the calls that it waits for.
--
-- Loops are structural. Those on a number of rounds have enough of them: `mark` of a cron part has
-- one more than its upper bound and its step is positive; `search` has one for each port of the
-- range; `next_after` has the 1830 days and 1440 minutes of the source; `sweep` the 2000 chunks below
-- readAllMax. Times are natural numbers; the calendar of nextAfter is one of a zone with a fixed
-- offset. int64 wraps in `mark`, where a sum is compared before it is checked, and in `page_offset`.
--
-- Not modelled: rendering of pages, mail, files, the children's input and output and the drivers of
-- the data sources, which are I/O; texts of notifications and of the audit log; shares of CPU and
-- memory, which are floats; and, so far, the lists of projects, the cloning of projects, the editing
-- of their databases, the other handlers of users and of settings, the restoring of backups, the
-- figures of compute nodes, nginx and deployment, and pinHostToIP.
pub mod Base
pub mod Store
pub mod Auth
pub mod Access
pub mod Gate
pub mod Users
pub mod Machines
pub mod Backups
pub mod Settings
pub mod Projects
pub mod Tasks
pub mod Notifications
pub mod Data
pub mod Runtime
pub mod Tests
