-- ===== src/Lib.antt =====
-- Verification of the backend's stateful core: the session store, the event broker, the run
-- registry between the two, the accounts, the long-term memory with its service and workers, the
-- price worker, and when the catalogue asks its platforms for more.
--
-- The parts and how they interact. The HTTP server opens threads and starts runs through the run
-- registry (app/api/run_registry.py). The registry writes each step of a run into the session
-- store, whose tables it reads back after a restart, and publishes the run's events to the event
-- broker, from which clients read them and to which they reconnect with the number of the last
-- event they have seen.
--
-- Sessions/ is app/database/session_store.py, class SQLAlchemySessionStore, over the tables of
-- app/database/models.py. Sessions.Schema has the tables as lists of rows, Sessions.Action the
-- transactions: an action takes the tables to a result or an error and new tables, and a
-- transaction that raises restores the tables that it started from. Sessions.Rows has the
-- queries and the checked writes, Sessions.Title `_title`, Sessions.Threads
-- recover_after_restart, idempotent_response, active_thread and replace_thread, Sessions.Runs
-- create_run, set_run_status, finish_run and get_run, Sessions.Pages list_threads,
-- Sessions.Detail thread_detail and Sessions.Artifacts the artifact operations, each under its
-- own name. Proofs: Sessions.Sound and its three companions SoundWrites, SoundThreads and
-- SoundRuns (the invariant of the tables), Hoare and Total (rules for actions), Calls (sequences
-- of calls), Replay (idempotency keys), Finish and Revival (finish_run and set_run_status).
--
-- Broker/ is app/api/event_broker.py. Broker.Stream has one RunEventStream with publish,
-- subscribe, unsubscribe and close, Broker.Order the numbers of the events, Broker.Log all
-- events of a stream against its buffer and the queue of a new client, Broker.Ending the event
-- that ends a run and the clients' queues. Broker.Table has the class EventBroker itself, the
-- table of all streams (publish_to, subscribe_to and unsubscribe_from are its publish, subscribe
-- and unsubscribe), Broker.Keys and Broker.Isolation relate it to the single stream.
-- Broker.Monitor is the class Monitor of app/api/monitor.py (emit and emit_for) with
-- publish_internal of the broker, through which agents and tools, nested ones too, report to the
-- stream of their root's thread; Broker.Envelope has its proofs.
--
-- Registry/ is app/api/run_registry.py. Registry.Agent has what the task reads from the agent's
-- event stream (_accumulate_final_state, _product_search_summary and the loop of
-- _execute_observed), Registry.Final _final_result with app/presentation.py, Registry.Task the
-- task of a run itself (_execute and _execute_observed): its awaits are moves on a world of
-- tables, broker and active handles, a script says what the agent gives and after how many moves
-- it is interrupted, and the turns say what other tasks do between two moves. cancel_run looks
-- at the run before it waits for the lock, so the mark of a cancellation is a turn of its own,
-- which falls whatever the run has become. A script interrupts the task once at most before its
-- except block, and perhaps that block itself, which the theorems exclude; an agent that never
-- ends is left out. Since finish_run is shielded, an interruption at it counts as one behind it
-- where the row is closed first. Registry.Control has cancel_run and _cancel_and_wait,
-- Registry.Starts start_run and create_thread, Registry.View run_status and close. A runner that
-- does not stream is a script of one chunk. Proofs: Registry.Streams, Rows, Phases, Ends and
-- Lifecycle (the task), Ready, Handover and Started (start_run and the task together), Seen
-- (run_status), Search and Deltas.
--
-- Accounts/ is app/auth/service.py, class AuthService. Accounts.Schema has its rows and the
-- libraries it calls (argon2, hashlib and Redis) as parameters, Accounts.Tables the queries,
-- Accounts.Service register, authenticate, logout and verify_csrf, Accounts.Login login and
-- change_password with the count of failures in Redis. Proofs: Accounts.Cookies, Revoked, Ended,
-- Password, Limit and Again (register). A call of Redis that raises lets a login pass, as in the
-- source; what is assumed of Redis otherwise is the record KeepsCount of Accounts.Limit, which
-- Accounts.Tests fills for a counter per key.
--
-- Memory/ is app/memory/. Memory.Consolidation and Memory.Window are consolidation_worker.py,
-- over the tables of Sessions.Schema: finish_run of the session store adds to the pending runs
-- of a thread, and the worker takes them off and gives the messages to the memory manager.
-- Memory.History is the daily cleanup of the memory history at the start of its rounds, and the
-- loop of --serve; Memory.Retention has its proofs. Memory.Manager is MemoryManager.process of
-- manager.py, which turns the answers of a model into a batch of actions for the memory service,
-- Memory.Entries, Actions and Service are service.py. A batch is one transaction of a session
-- that does not flush by itself: UnitOfWork keeps what is stored, which queries see, apart from
-- the objects with their pending changes, until a flush. Memory.Outbox and OutboxRound are
-- outbox_worker.py over its own three tables, whose events the service writes; Memory.Together
-- puts the service and this worker on one database, with the deletion of an embedding when its
-- memory is deleted. Proofs: Memory.Claims, Late, Progress and Taken (the first worker),
-- Projection and Retries (the second), Guard, Ours and Owners (whose memories a batch changes),
-- Announced, Batch and Calls (the order of the tables over any calls), Update, Again and Readded
-- (single calls), Fresh, Served, Worked, Published, Kept and Behind (the service and the outbox
-- worker together), Claimed, Caught and CatchUp (a whole round of the outbox worker), Handover,
-- Refusals and Obeyed (the manager and the service together). The two calls of the model, the
-- search, the patterns of `_allowed`, unicodedata, hashlib, the keyword extraction and the
-- encoder are arguments.
--
-- Catalog/ is app/products/catalog/stop_policy.py (Catalog.Stop, with proofs in Catalog.Budget)
-- and coverage.py (Catalog.Coverage). Pricing/ is app/tools/costs.py (Pricing.Cost),
-- app/products/schedule.py (Pricing.Schedule) and app/products/price_worker.py: Pricing.Wishlist
-- has the tables and the claim, Pricing.Worker what becomes of one item, Pricing.Round the log
-- and run_once. What other tasks do to the tables before each transaction, the providers'
-- answers and the locks of others are arguments; removing an item from a wishlist changes its
-- status and leaves its row. Proofs: Grown, Accounted, Due and Complete (a round), Reuse.
--
-- Representation. Identifiers are only compared, so they are natural numbers. Times are counts
-- of microseconds, the precision of the columns; a text is its list of code points. The clock
-- and the fresh identifiers are arguments of the operations. `str.split` takes the test for
-- white space as a parameter. An order on identifiers is the order of their numbers. Every
-- recursion is structural, so no fuel is needed.
--
-- Not modelled: the SQLite store of app/api/storage.py, the routes over the accounts, the ranked
-- search over the memories and the vectors in the database (floating point), the hydration of
-- the catalogue, the grouping of offers, the agent with its tools, and the HTTP layer. Row locks
-- make a method of the store or a batch of the memory service one step, and the stream's lock a
-- method of the broker, so interleavings are sequences of such steps. The outbox worker's
-- reading, encoding and writing of one event is one step as well, although the memory's own row
-- is not locked meanwhile, and a task that is asked twice to cancel is as one that is asked
-- once.
pub mod Accounts
pub mod Broker
pub mod Catalog
pub mod Memory
pub mod Prelude
pub mod Pricing
pub mod Registry
pub mod Sessions
