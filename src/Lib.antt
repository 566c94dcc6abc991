-- ===== src/Lib.antt =====
-- Verification of go-cook, a collection of Go clients for backend services.
--
-- The repository has one package per service. They do not call each other; each wraps a third-party
-- library, which is an interface here: a record of the calls that the package makes, over an abstract
-- state of the world. Functions that change a shared object take the state and return it. An error of
-- Go is a value of `Error`, which keeps what `errors.Is` and `Error()` see.
--
-- Shared: tests, texts, errors and the state monad, Go maps as association lists, which stand for one
--   order of a visit, and their quotient GoMap, which forgets it; `fmt.Sprintf`; `int64` with its
--   wrap-around.
-- Temporal (temporal/): a workflow is a graph of activities that `Execute` walks.
--   Types, Sdk: the data of workflow.go, resumable.go and const.go; the SDK and the application's
--     execution data as an interface. Pointers to execution data are numbers, so that the objects
--     may be shared. `Run` is the workflow object with the objects and the world. A call of the SDK
--     is a function: runs in which an activity does not return, or a wait without a timeout is left
--     without its signal, are not modelled, and what is said of the end of a run is said of the rest.
--   Registry: `NewWorkflowExecution`, `AddTransitionActivityWithOptions`, `getNextActivity`,
--     `statusSearchAttribute` and `withDefaults`.
--   Waits: the status changes, waits, corrections and approvals of resumable.go.
--   Resumable: `runResumableActivity` of resumable.go as `run_resumable_activity`, its loop as
--     `attempts`. The loop counts down the corrections that are left, which is its bound.
--   Pipeline: `runActivity` and `Execute` of workflow.go. The loop of `Execute` runs on fuel, and the
--     result `none` says that it ran out. The rank of the first activity, and one, is enough
--     where the graph has no cycle, and so is the number of registrations, and one, where each is
--     made before those that it lists (Plans); a graph with a cycle need not end. Recovery
--     and Survival below it: runs with an operator who answers the waits; Setup: such runs of a
--     workflow from its registrations on; Limits, Tries and Budget: how often activities are tried.
--   Lifecycle: the phases of a run as an observer of the getStatus query sees them, and that
--     `Execute` goes through them. An observer is any function of the world that notes the calls.
--   Public: public.go; its child Objects says which execution data a run writes. The loop of `QueryWorkflowData` runs on fuel; the seconds to the deadline, and
--     one, are enough.
--   Client: temporal.go; its child Interface has the interface `Temporal` of interface.go and the
--     methods of workflow.go that pass calls on to it.
--   Signals: signals.go and the signal methods of workflow.go; its child Loops has the loops of
--     `runAsync` and `ListenSignal` side by side, with handlers that run in one step, and Waiting
--     those with handlers that wait in turn.
-- Db (db/): Sql is the interface for database/sql. Repository: repository.go, where the fields of a
--   struct that reflection visits are a list of values, and `Scan` is a function of those that its
--   destinations hold. Migration: migration.go. Connect: db.go. Ledger
--   counts the statements and rows that calls of the two leave open.
-- Redis (redis/): Options is `clientOptions`, Client the constructors and rate limiters with the
--   package's variables, Cache the commands of cache.go; sequences of calls are in its children Calls
--   and History.
-- Security (security/, security/v2/): Json is what `encoding/json` does with structs, Claims the claim
--   types of both versions (Wire the methods of security/v2), Tokens both `GenerateTokens`.
-- Elasticsearch (elasticsearch/), Tigris (tigris/), Nsq (nsq/): one module each. The clients of Tigris
--   and S3 have an SDK each. What go-nsq does with the handlers that it is given is not modelled.
-- Cronjob (cronjob/): `NewScheduler` and `Stop`; Callers has concurrent calls of `Run` and `Stop` as
--   threads that share the scheduler and its mutex.
--
-- Not modelled: logging; wall clocks beyond their use as values; the stub temporal/nexus;
--   `NewNonRetryableError`, which hands its arguments to the SDK; the interfaces of db/repository.go
--   that no code of the repository implements or calls.
pub mod Shared
pub mod Temporal
pub mod Db
pub mod Redis
pub mod Security
pub mod Elasticsearch
pub mod Tigris
pub mod Nsq
pub mod Cronjob
