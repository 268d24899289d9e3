-- ===== src/Lib.antt =====
-- Hospitus manages virtual machines, jails and containers behind one interface: a daemon with an HTTP
-- API, a command line, and providers that run the instances. This library models the parts of it that
-- carry its own logic, and proves what makes them correct. It is a shallow embedding: each function of
-- the code is a function here, states are records passed on explicitly, goroutines and timers are
-- events, and a critical section under a mutex is one step. A run is any list of events, so that a
-- theorem on runs covers every interleaving of the critical sections.
--
-- Parts and files:
--
-- Shared: tests on native numbers, lists by index, Go strings as byte lists with `==`, `<` and
--   `sort.Strings`, and Go maps as association lists. An iteration over a map, which Go leaves open,
--   goes in the order of the list. Shared/Decimals prints numbers, and Shared/Splits cuts a string at
--   a separator.
--
-- Job (pkg/job/job.go): the daemon's asynchronous work. A job is an object that the manager's map,
--   its queue and the executing goroutines share, so there is a heap of jobs, and the map, the queue
--   and the executing list hold addresses. Job.antt has the job, its constructor in Submit,
--   UpdateProgress, SetResult and Snapshot; Job/Manager has Submit, GetJob, ListJobs, CancelJob,
--   DeleteJob, Stats, both ends of Shutdown, cleanupOldJobs, the receipt of a task by a worker and
--   both halves of executeJob, each as one critical section. Job/Places, Lifecycle, Queue, Registry,
--   Progress and Stats have the proofs, and Job/Drain those about the workers of a shutdown. The
--   function of a job is an outcome: it returned, failed or panicked.
--
-- Locks (pkg/provider/locks.go): the lock of an instance's name. Locks.antt has the critical sections
--   of Acquire and its release over entries by address; Locks/All has Acquire as one caller sees it,
--   and AcquireAll. The end of a wait, by the lock or by the context, is an input. Locks/Counts,
--   Exclusion, Order and AllOrNothing have the proofs.
--
-- Health (pkg/orchestration/health.go): the health checker, with its stop channels, failure counters
--   and the bounded queue of notifications with the goroutines that drain it, whose critical section
--   and whose delivery outside the lock are events of their own, and in Health/Restart the automatic
--   restarter. The result of a check's command is an input, as are times. The decision on a change and
--   the recording of a restart by its goroutine are two events; the restarter's theorems have the
--   hypothesis that no change comes between them. Health/Threshold, Channels, Delivery,
--   Sequence and Restart/Budget and Spacing have the proofs.
--
-- Validation (pkg/validation/validation.go): the checks on input. Validation/Regex matches regular
--   expressions by derivatives; Validation/Names, Config, Specs and Remote have the checks. Safety,
--   Nested, Bounds and Destination prove what accepted input cannot hold. Messages leave out the
--   values that they quote. `net.ParseCIDR` and `net.ParseIP` are parameters without a hypothesis.
--
-- Migrations (internal/datastore/migrations/migrations.go): Migrate and Rollback. What a script does
--   to a schema is a parameter, as is whether a transaction can be committed; Migrations/Loops reads
--   the loops as choices of migrations, Versions and RoundTrip have the proofs.
--
-- Stack (pkg/orchestration/stack.go): buildDependencyOrder, Kahn's algorithm on the instances of a
--   stack. Stack.antt has its tables and its loops; Stack/Degrees and Rounds follow one round,
--   Sorting the whole sort, Order and Index the tables, and Acyclic has the theorems.
--
-- Stack/Manager (pkg/orchestration/stack.go): the stack manager as the daemon makes it, with a store
--   and a health checker. Stack/Manager has its state and the rollback, Deployment DeployStack,
--   Teardown StopStack, StartStack and DestroyStack. Each operation is one step, and what the
--   providers, the store and the clock answer is an input; the handles that the providers hold are
--   part of the state, since the theorems are about what is left running. Rollback, Rounds and
--   Failure are about a deployment that fails, Loop and Success about one that does not, Frame,
--   Destruction and Retry about the end of a stack. Status has LoadStacks, with the rows that the
--   store gives it, and the reaction to health changes, and Reload what a new daemon reads back; JSON
--   is a parameter.
--
-- Discovery (pkg/orchestration/discovery.go): the registry of services, the resolver and the builder
--   of environment variables. Names and Refinement read the registry as a map from pairs of a stack
--   and a service; Environment has the names of the variables.
--
-- Auth (internal/auth/auth.go): who may use the API. Auth.antt has the provider of configured keys,
--   Auth/Manager that of hashed keys, whose map holds pointers: keys are objects of a heap, since a
--   validation compares the pointers. Auth/Steps has the calls that change it. A validation has two
--   locks, between which Auth/Validation lets any of those calls come. Auth/Identifiers is about the
--   names of configured keys. bcrypt is a parameter.
--
-- Middleware (internal/api/middleware.go): what every request passes. Middleware.antt has the client's
--   address and the permission of a route, Middleware/Auth the authentication and the limiters of
--   failed attempts. Splitting, Address, Routes, Guard and Budget have the proofs. The package net and
--   the limiter of golang.org/x/time/rate are parameters; that the limiter is a token bucket is the
--   hypothesis of one theorem. A request's authentication is one step, as its lock makes it.
--
-- Backup (pkg/backup/backup.go): which backups a retention policy deletes: applyRetention,
--   keepByInterval and DeleteBackup. Retention and Newest have the proofs. Whether what a backup left
--   on the host can be removed is an input.
--
-- Firewall (pkg/firewall/rules.go): the checks of port mappings and NAT rules, the identifier of a
--   mapping, and in Firewall/Ports the parser of port specifications. Addresses are checked by
--   `net.ParseIP`, a parameter.
--
-- Bounds: only the loop of the dependency sort runs on fuel, as much as there are instances; that is
-- enough, since each round places one. Decimals are printed with the number itself as fuel. Numbers
-- that the code never makes negative are natural numbers, and no counter comes near the width of a
-- machine integer: a job queue holds 100 jobs, 1024 notifications wait at most, and the other counters
-- grow by one with an event.
--
-- How they interact: a request is authenticated by the middleware, with one of the two providers of
-- keys; handlers validate the input, take the locks of the names that they work on, and
-- submit jobs; a stack's deployment registers its instances with the health checker, whose
-- notifications the restarter hears.
--
-- Not modelled: the creation and restoration of backups; the providers, which call external programs;
-- the HTTP handlers, the other middleware and the command line; parsers of manifests and of command
-- output; encryption; and storage in SQL but for its migrations.
pub mod Shared
pub mod Auth
pub mod Backup
pub mod Discovery
pub mod Firewall
pub mod Health
pub mod Job
pub mod Locks
pub mod Middleware
pub mod Migrations
pub mod Stack
pub mod Validation
