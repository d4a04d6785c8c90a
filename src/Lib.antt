-- ===== src/Lib.antt =====
-- A model of the core of space-elevator (Go), a platform that deploys apps as containers on one
-- host: who may change an app, how an update replaces a running release and what it does when a call
-- fails, and what the dashboard keeps and shows of it.
--
-- Parts, and the files of the repository that they model:
--   Store      internal/store: the SQLite tables as lists of rows (Store/Rows), and the methods of
--              `Store` as functions on them. Store/Operations is app_updates.go from ClaimOperation on
--              (the partial unique index, the guard on active statuses, the restart); Store/Logs and
--              Store/Steps are its log and its checklist; Store/Apps is apps.go; Store/Secrets is
--              secrets.go with replaceSecrets of internal/deployer/update.go; Store/Env is its
--              parsers of environments and formatEnv of internal/web/handlers_apps.go.
--   Deployer   internal/deployer/update.go. Deployer/State holds the variables that the closures of
--              `update` share and the answer of each call, Deployer/Recovery the closures (failUpdate,
--              resumePrevious, rollbackCandidate) and updateFailure, Deployer/Phases the body of
--              `update` in order, Deployer/Update their composition. internal/deployer/deployer.go:
--              Deployer/Deploy is deployGit (Request what it makes of a request, Run the rest), and
--              Deployer/Redeploy is redeploy, which may call it. Deployer/Storage is volumes.go of
--              internal/composer and update_storage.go, whose planStorage is Deployer/Storage/Plan.
--              Deployer/Program is the way that all of these are written: calls in a row, an exit at
--              the first that fails.
--   Builder    internal/builder/archive.go: the loops of extractTarGz and extractZip under their caps,
--              and safeJoin (Builder/Archive/SafeJoin).
--   Web        internal/web: the login limiter (ratelimit.go), the build log (buildlog.go), the
--              progress of a deployment (deploy_progress.go) and the queue that deployments run in
--              (Web/Runner, deployment_runner.go), and what a start does with the routes
--              (Web/Reconcile, reconcile.go).
--   Version    internal/version/semver.go.
--   Composer   internal/composer/parser.go: TopologicalOrder.
--   Base       shared names, lists, maps, texts, and slash paths (path/filepath on Unix).
-- The update claims an app and ends its operation through Store/Operations, reads and writes the rows
-- through Store/Apps, a deploy does both on the tables themselves, and the progress writes through
-- Store/Steps, Store/Logs and Store/Operations.
--
-- How the code is read:
--   - A method of the store is one step, as SQLite runs one writer at a time; failures of the disk are
--     left out, but constraints, missing rows and guards are not. ClaimOperation reads the attempt in a
--     statement of its own, so the interleaved writes of Commands take any attempt. Its two unique
--     constraints are reported alike.
--   - Times are natural numbers, a NULL or a zero time is `none`. A negative limit or sequence in a
--     query is read as 0, which the code treats alike.
--   - `update`: every call that may fail is asked at most once in a run, so each has one answer in
--     `Answers`; a call that fails leaves the rows as they were, but for the writes that the model
--     lists (secrets and storage). The clock is read once. No other writer touches the rows of the
--     app meanwhile, as its operation owns it. The containers are seen through the sequence of calls
--     that are made. Audit records, log lines and the path of the backup are left out.
--   - deployGit and redeploy work on the tables: a write fails if the disk does, an answer, or if the
--     store refuses it. What git, podman, the files and the YAML library answer is a record again.
--   - A member of an archive carries its name, its content as bytes and the answers of the file system;
--     what tr.Next() returns behind the members of a tarball is an argument. The destination is an
--     absolute path, and error texts there are shortened.
--   - The goroutines of the runner are the events of a schedule, in any order; what a job does is left
--     out, so a job is a number. Texts are lists of bytes, and a Go map is a list of pairs.
--   - The storage plan takes what podman shows of the old containers, and twelve digits of a SHA-256,
--     as arguments, and the rows of app_storage are those of one app, without their times; paths are
--     read by their letters only, symbolic links are not followed.
-- The recursions are on lists, but for `visit` of TopologicalOrder: its fuel is the number of services
-- and one more, which Composer/Topological/Fuel shows to be enough.
--
-- Not modelled: the discovery, the copies and the backups of storage, compose parsing and the podman
-- calls, proxy files, sessions, configuration, self update, HTTP handlers and the command line: they
-- are input and output, or libraries that the code calls.
pub mod Base
pub mod Store
pub mod Builder
pub mod Web
pub mod Deployer
pub mod Version
pub mod Composer
