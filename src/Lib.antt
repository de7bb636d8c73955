-- ===== src/Lib.antt =====
-- The core of hfdesk, a Hugging Face downloader with a web server and a desktop shell, as
-- functions on explicit states with the theorems that make them correct.
--
-- The parts and how they meet: the web server keeps its downloads in a job manager, whose
-- scheduler launches a goroutine per job up to a limit; each job runs the downloader, whose
-- progress events are folded into the job and broadcast through a throttle. The downloader and
-- the analyzer list a repository with the tree walker, which retries with the waits of the
-- downloader's policy; the planner turns the nodes of a listing, the filters and the excludes of
-- a job into the files to fetch. All of them log through a pipeline into a bounded ring that the
-- web interface polls, a rotating file and the feeds of the consumers. The service command
-- writes a systemd unit that runs the server, and reads it back to find its paths.
--
-- The files:
--   Logging/Ring: internal/logging/ring.go, `RingSink` with its uint64 arithmetic. Window and
--     Reads show what it holds, Marks what a poll with a cursor gets.
--   Logging/Files: internal/logging/file.go, `FileSink` with its active file and its backups.
--     Shift and Moving are about a rotation, Newest about what the files hold, Fits and Bounds
--     about their sizes.
--   Logging/Feed: internal/logging/subscription.go, a bounded feed and what its consumer does;
--     Accounts is about what it receives. Logging/Pipeline: `Pipeline` of
--     internal/logging/logging.go, which puts the ring, the file and the feeds together; Kept
--     and Steps are about one step, Reads about the readers and the callbacks of a history.
--   Server/Job: the job types of internal/server/jobs.go and `isTerminalJobStatus`.
--   Server/Jobs: `JobManager` of internal/server/jobs.go. Jobs.antt has the state and
--     `dispatchLocked`; Operations, Creation and Runs have the methods and the critical sections
--     of `runJob` as steps, and Actions puts them in any order. Limit, Changes and Histories are
--     about the limit on active jobs, Order is about the order of the queue.
--   Server/Progress: `applyJobProgress` of the same file. Floor is about resumed jobs, Totals
--     about retried ones.
--   Server/Coalescer: internal/server/coalesce.go with the runtime timers of `time.AfterFunc`.
--     Delivery, Arming and Throttle are about what is sent and when; Timers and Timely carry the
--     invariants.
--   HubTree/Links: the `Link` header parser of internal/hubtree/hubtree.go (Split and Next).
--     HubTree/Covered: `coveredSubtrees`. HubTree/Wait: its retry waits, compared in Policy with
--     those of the downloader. HubTree/Paths: `path.Clean` (Stack) and `cleanChildDir` (Proper).
--     HubTree/Walk: the state of a walk, with Fetch for `fetch`, Pages for `listAllPages` and
--     Descent for `walk`; Payments, Budget, Attempts and Visits are about requests, retries and
--     directories.
--   Downloader/Retry: pkg/hfdownloader/retry.go and the classes of pkg/hfdownloader/errors.go.
--   Downloader/Filters and Downloader/Kinds: the filters and the kinds of files of
--     pkg/hfdownloader/plan.go; Exact is about the exact mode. Downloader/Repo: the checks of
--     paths, digests and names of plan.go and pkg/hfdownloader/utils.go and the URLs of
--     pkg/hfdownloader/client.go; Canonical is about paths.
--   Downloader/Inventory, Downloader/Selection and Downloader/Plan: the three steps of
--     `scanRepo` of plan.go, the inventory of a listing, what the filters and the evaluator
--     select, and the items. Selection/Kept and Plan/Rounds are about one file and one round,
--     Plan/Items, Plan/Cover and Plan/Match about the plan.
--   Service/Systemd: the quoting and the splitting of internal/service/manager_linux.go,
--     compared in Quoting. Service/Units: `renderUnit` with the command line of `RunArgs` of
--     internal/service/service.go. Service/Reading: `parseUnit`; Values, Printable and Settings
--     are about its lines, Registered about a whole unit.
--   DatasetSelection: internal/datasetselection/membership.go. Names has the tests on names,
--     Tokens the search for a split name, Evidences how groups and evidence fit together.
--   Net: what both HTTP clients read of a response. Base: shared helpers, with the functions of
--     strings and path in Text, Fields, Search, Names and Runes.
--
-- State and concurrency: a method of a locked object is one step on its state, and a goroutine
-- is a step per critical section; histories are lists of steps in any order. A map is an
-- association list or the list of its entries.
--
-- Bounds and fuel: strings are lists of bytes (Base.Text); trimming, case folding and white
-- space are those of ASCII text, but a unit is trimmed as UTF-8 (Base.Runes), and a text that is
-- written rune by rune is taken to be UTF-8, so that its bytes are copied. Times and durations
-- are natural numbers of one unit, and signed where the code compares with 0. A fetch recurses
-- on the attempts that are left, a listing and a walk on one more than the request budget, which
-- each of their rounds lowers, so they never run out of it. An index loop over a text recurses
-- on the rest of the text. A log file is the list of the pieces written to it, and each write is
-- given the system calls that fail while it runs.
--
-- Arguments of the model: net/url, the date parser of net/http, the JSON decoder, the server and
-- the caller's callbacks of a walk; the floating-point speed estimates of a job; the check of a
-- job's destination and the repository reservations; what the evaluator of dataset groups
-- decides; the listen argument of a unit, and the account, its group and the home that the
-- system answers; the lines of the log encoder.
--
-- Not modelled: the HTTP handlers, the transfers and the caches, the selected deletion with its
-- evidence, the calls of the service managers and the registrations of Windows and macOS, the
-- console, the redaction and the encoding of log records, the slog handler, the desktop shell,
-- the analyzer of repositories, and the parts that only draw or print.
mod Base
pub mod Logging
pub mod Server
pub mod Net
pub mod Downloader
pub mod HubTree
pub mod DatasetSelection
pub mod Service
