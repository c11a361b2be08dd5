-- ===== src/Lib.antt =====
-- drover is a PostgreSQL-backed task queue in Go. A client inserts jobs into a store, a pool of workers
-- claims them under leases, and every attempt ends in one write that decides what becomes of the job: a
-- rescuer collects the jobs of workers that died, and an operator can cancel or redrive jobs. This
-- library models the parts that decide what becomes of a job.
--
-- Driver            internal/driver/driver.go and job.go: JobRow, Lease, InsertParams, the errors.
-- MemDriver         internal/memdriver/memdriver.go, one module for each group of calls: Rows (the map
--                   of rows), Insert, Claim (FetchAvailable, FetchExpired, ExtendLeases), Mark,
--                   Operator, Read. History joins the calls into one type with a step function;
--                   Moves is the rule by which a property of the store is proved for every call.
-- Sql               internal/dbsqlc: the table drover_jobs and the statements of queries.sql.go.
-- PgDriver          internal/pgdriver/pgdriver.go over a record of queries, which may fail;
--                   PgDriver.Calls are its calls, and the other children compare them with memdriver.
--                   PgDriver.Leader is the advisory lock among the drivers of a cluster, and
--                   PgDriver.Leadership their step relation.
-- Contract          the calls of the Driver interface that the client's loops rest on, as a record of
--                   operations and laws; Contract.Mem is memdriver as such a record.
-- Outcome, Retry    errors.go and retry.go: what a handler's error asks for, and when to retry.
-- Inflight          inflight.go: the leases that a client is executing under.
-- Heartbeat         heartbeat.go: a beat over the in-flight set and memdriver's ExtendLeases.
-- Dispose           loop.go's runJob and dispose, and requeue of pool.go, over any driver of Contract;
--                   Dispose.Mem is about the same over memdriver.
-- Rescue            rescue.go's sweep, over any driver of Contract.
-- Queues            queues.go: the configured queues and the weighted order of a fetch round.
-- Client            client.go: the settings of newClient; Client.Enqueue is Insert and InsertMany, and
--                   Client.Lifecycle the calls of Start (loop.go) that race.
-- Pool              pool.go: claimRound, abandon and escalate; Pool.Slots is the state machine of the
--                   slot tokens between the fetch loop and the workers; Pool.Runner is the running pool:
--                   its goroutines and its shutdown as a step relation.
-- Cron              internal/cron/cron.go: the next fires of schedules; Cron.Fields parses one field, and
--                   Cron.Spec a whole spec.
-- Periodic          periodic.go's checkedPeriodicJobs, and scheduler.go: the fires that one turn enqueues for
--                   a periodic job; Periodic.Turns is a turn over all jobs, with the answer of
--                   TryBecomeLeader and the wait it asks for.
-- Stats             stats.go: the refresh of the gauges of metrics.go. MemDriver.Stats is the reading.
-- Handlers          middleware.go, worker.go, and dispatch and execute of loop.go: the handler chain;
--                   Handlers.Metrics is metricsMiddleware of metrics.go.
-- Inspector         inspector.go: the operator's calls.
-- Web               cmd/drover/web.go: the status page, its filters, forms and flashes, and parseJobID.
-- Cli               cmd/drover: the global flags, the commands and their exit codes, over an inspector's calls.
-- Prelude           lists, results and signed numbers over the native numbers.
--
-- State is passed explicitly: a call takes the store and returns the next one with its result, since
-- each call of memdriver runs under its mutex. Where a lock is released in the middle of a call
-- (Operator), two statements run one after the other (PgDriver) or a handler runs (Dispose), what others do
-- meanwhile is an argument. Instants and durations are nanoseconds since the zero time, which is 0, and
-- readings of a clock are arguments, as are the random draws. A configured duration or a limit of ListJobs, which may be negative, is signed.
-- encoding/json, time.Date at a location and a user's retry policy are parameters; strings.Cut,
-- strings.Split, strings.Fields, strings.Join and strconv.Atoi are defined where Cron uses them, with the
-- spaces of ASCII, and strings.HasPrefix and flag's parsing where Cli does; time.ParseDuration is a parameter.
-- A map is a list of its entries.
--
-- A statement of Sql takes the transaction's now(), the rows that other transactions hold, the order in
-- which RETURNING lists the rows and the jsonb `||` of the errors column with an object, all of which the
-- database decides. The partial unique index is the check slot_taken, and an identity column counts up.
-- The staging table and the transaction of InsertMany are one query of the driver.
--
-- What pgx and Postgres make of a value that is sent is the parameter Wire of PgDriver: the instant that a
-- timestamptz keeps of one in nanoseconds, the interval that make_interval makes of a duration's seconds, and the
-- text that jsonb shows. The statements of Sql work on the values as they arrive, and the theorems that compare the
-- drivers give memdriver the same values.
--
-- A claim of Pool.Runner may return any rows: what a driver owes it is a hypothesis of the theorems that need it.
--
-- Ids, attempts and instants have no upper bound here: an id is an int64 that counts up from one, and
-- an attempt is an int that max_attempts bounds. The Postgres driver narrows
-- attempts and limits to an int32. The claim limit of a fetch is never negative. The wait of
-- Retry is exact where Go rounds a float product, and keeps to an int64 up to 300 attempts. The
-- sum in the loop of addPart can overflow, and that is modelled as the panic it leads to.
--
-- Fuel is used in three places. Periodic's loop has two turns more than the nanoseconds up to now, enough
-- since each fire is later than the one before it. Cron.Fields.fill has two turns more than the range's
-- last value, enough since a step is at least one. The loop of everySchedule has a turn for each
-- nanosecond of the instant, and ends at the first: the instant truncated to the duration and one duration
-- on is already later. The other bounds are the source's own: ten rounds of a sweep, and the five years
-- of minutes that a schedule is scanned for.
--
-- Not modelled: the code that sends statements and scans their rows, and the notifications; migrations; the tickers
-- of the background goroutines, and cancellation of a handler; logging and the ops server; what the command line
-- prints, the page's template and headers, the benchmark and the examples.
pub mod Prelude
pub mod Driver
pub mod Sql
pub mod PgDriver
pub mod MemDriver
pub mod Outcome
pub mod Retry
pub mod Contract
pub mod Inflight
pub mod Dispose
pub mod Rescue
pub mod Client
pub mod Cron
pub mod Pool
pub mod Inspector
pub mod Queues
pub mod Periodic
pub mod Stats
pub mod Heartbeat
pub mod Handlers
pub mod Web
pub mod Cli
