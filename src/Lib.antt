-- ===== src/Lib.antt =====
-- Xenopus is a runtime for autonomous agents. This library models the parts of it that decide what
-- an agent may do and when: the state machine of an agent, permissions, the risk table and the
-- approval ledger in front of every tool, the admission of agents into a pool, the durable store of
-- tasks with its kill switch, the sessions with their forks, the scheduler that fires entries into
-- that store, the gateway that every call of a tool passes, the life cycle of goals, the circuit
-- breaker of the providers with the registry and the router over it, the life cycle of skills, the
-- memory store with its promotion gate, the plans of tasks, their order and their execution, the
-- executor that retries calls, the assembly of contexts, the verification, aggregation and
-- synthesis of what agents claim, the routing of notifications, and the webhooks that let requests
-- from outside become tasks.
--
-- Prelude passes the shared names on. Its children hold Boolean tests (Tests), lists (Lists),
-- results of methods that raise (Results), Python's dict as an association list in insertion order
-- (Dict), tables of rows by primary key (Tables), zero-padded decimals (Decimal), str.strip
-- (Strip), concatenation and the order of texts (Text), sorted(..., key=...) with its laws (Sort)
-- and the sliding windows of the rate limits (Window).
--
-- Runtime/Fsm models src/xenopus/runtime/fsm.py: AgentState, LEGAL_TRANSITIONS as
-- `legal_transitions`, AgentFSM as a record with its state, and `transition` with a guard that is
-- any callable of the caller's, also one with effects. Fsm/Moves has one call, Fsm/Histories every
-- sequence of calls.
--
-- Runtime/Permission models src/xenopus/runtime/permission.py: an engine is its list of rules,
-- `matches`, `decide`, `check` and `add_rule` are the methods. Runtime/Risk models
-- src/xenopus/runtime/risk.py and the RiskLevel of src/xenopus/tools/contracts.py: `score` and
-- `evaluate`.
--
-- Runtime/Approval models src/xenopus/runtime/approval.py: the ledger is its dict of requests and
-- its counter, each method returns a result and the new ledger. The action hash (SHA-256 over
-- canonical JSON) is made by the caller and is a text here. Approval/Resolve has `resolve`,
-- Approval/Bindings what makes a ledger well formed, Approval/Histories what a call does to a
-- stored request, Approval/Grants where a granted request comes from.
--
-- Runtime/AgentPool models src/xenopus/runtime/agent_pool.py: `acquire` is split at its await into
-- `check`, `take_slot` and `register` (`admit` is the last two), and AgentPool/Slots runs any
-- number of such calls as a step relation over the pool, the calls that wait for the semaphore and
-- those that it has given a slot. The semaphore is asyncio's: of it the relation says only that a
-- slot is taken when one is free, and it allows every order of arrivals, hand-overs and
-- cancellations. AgentPool/Totals is about the bound on a session's runs, AgentPool/Watchdog about
-- heartbeats and stuck runs.
--
-- Runtime/Budgets models src/xenopus/runtime/budget.py, and Runtime/Executor models
-- src/xenopus/runtime/executor.py over it: `run_rounds` is the loop of `_execute_with_retries`,
-- with what it writes as a Log. What the gateway answers and what the rest of the system does
-- during a sleep are parameters. Executor/Attempts is about the rounds, Executor/Requests puts
-- Tools/Gateway behind them.
--
-- Runtime/Plan models src/xenopus/runtime/plan.py: a plan's nodes are a dict, `validate` returns
-- the error that it raises. Plan/Walks has the search of `_find_cycle`, whose recursion takes fuel,
-- a unit for each task, and Plan/Queues the loop of `topological_order`, with a round for each
-- task. `_reachable_from_roots` runs its rounds on fuel one more than the tasks. Plan/Searches is
-- about the fuel of the search, Plan/Closures about that of the reachable set, Plan/Ranks about
-- accepted plans, Plan/Counts and Plan/Dependents about degrees, Plan/Orders and Plan/Creation
-- about the order.
--
-- Runtime/Orchestrator models src/xenopus/runtime/orchestrator.py over Runtime/Plan: `group_each`
-- is the loop of `_dependency_layers`, `run_layers` the loop of `execute` over the layers, and what
-- `_run_one` answers for a task is a parameter. Orchestrator/Layers is about the layers,
-- Orchestrator/Runs about the number of results, Orchestrator/Dependencies about what has completed
-- when a task runs.
--
-- Runtime/Context models src/xenopus/runtime/context.py: `fill` is the loop over the droppable
-- segments, `chosen` the sorted list, `assemble` the method. Context/Assembly is about what is kept
-- and in which order, Context/Boundaries about the markers of untrusted content.
--
-- Memory/Types models src/xenopus/memory/types.py, with confidences as millionths, and Memory/Store
-- models src/xenopus/memory/store.py over it: the table is a dict of rows by their primary key. The
-- pattern test of LIKE is a parameter. Types/Quality is about the score, Store/Trust, Store/Expiry
-- and Store/Promotions about which memories are ACTIVE, Store/Contents about what never changes in
-- a row, Store/Searches about `search`.
--
-- Runtime/Goals models src/xenopus/runtime/goal.py: the manager is its dict of goals, and `uuid4`
-- gives the id as an argument. Goals/Lifecycle is about sequences of calls.
--
-- Runtime/Verifier models src/xenopus/runtime/verifier.py: `verify` over the index of the
-- observations, and `overall`; Verifier/Rechecks is about its verdicts. Runtime/Aggregator models
-- src/xenopus/runtime/aggregator.py: `group_claims` is the grouping by key, `settle` the body of
-- the loop over the keys, `confidence_of` the confidence of the report as an exact fraction.
-- Aggregator/Dominance is about one group, Aggregator/Groups about the grouping, Aggregator/Reports
-- about the report, Aggregator/Totality about errors. Runtime/Synthesizer models
-- src/xenopus/runtime/synthesizer.py over both; Synthesizer/Doubts is about its checks,
-- Synthesizer/Trust about its verdict.
--
-- Runtime/Notifications models src/xenopus/runtime/notifications.py: `route_one` is the body of the
-- loop of `route` for one subscriber; Notifications/Deliveries is about deliveries, digests and the
-- journal.
--
-- Tools/Contracts models src/xenopus/tools/contracts.py, Tools/Registry
-- src/xenopus/tools/registry.py, and Tools/Gateway src/xenopus/tools/gateway.py over
-- Runtime/Permission, Runtime/Risk and Runtime/Approval: `dispatch` is the body of `invoke` behind
-- the registry, `approve` its approval stage, `run` the call of the handler. A handler is any
-- function of its arguments and of a world, which may raise; the type of arguments, the action hash
-- and the handler that deletes into the recycle bin are parameters. Gateway/Guards has what the
-- pipeline lets through, Gateway/Runs that it runs what it admits.
--
-- Provider/Health models src/xenopus/provider/health.py: the tracker with its dict of snapshots,
-- `record_failure`, `record_success` and `is_available`. Health/Breaker is about their sequences,
-- Health/Asking about what `is_available` leaves as it was. Provider/Registry models
-- src/xenopus/provider/registry.py and the ModelCapability of src/xenopus/provider/types.py,
-- Provider/Router models src/xenopus/provider/router.py over both: `select` asks the tracker about
-- each candidate in turn and sorts what is left by `precedes`, the order of `sort_key`.
-- Registry/Backing, Router/Order and Router/Selection are about them.
--
-- Skills/Gate models src/xenopus/skills/types.py (SkillLifecycleGate.check as `check`, with rates
-- as exact fractions), and Skills/Registry models src/xenopus/skills/registry.py over it: the table
-- is a dict of records, the JSON columns are the values that they encode. Gate/Thresholds,
-- Registry/Evidence and Registry/Regain are about them.
--
-- Web/Webhooks models src/xenopus/web/webhooks.py over Persistence/Tasks: `receive` and
-- `adjudicate` with the stages of `_adjudicate` in its order (`authenticate` behind the rate limit,
-- `with_payload` behind the timestamp, `with_nonce` for the nonce), `fresh` for _NonceRegistry and
-- `allow` for _RateBucket. HMAC-SHA256, json.loads and the length of a body are parameters.
-- Webhooks/Accepted is about the checks that an accepted request has passed, Webhooks/Shown about
-- what it has shown, Webhooks/Nonces, Webhooks/Effects and Webhooks/Replay about replays,
-- Webhooks/Rates about the rate limit.
--
-- Persistence/Tasks models src/xenopus/persistence/tasks.py: the table is the list of its rows in
-- the order of their rowids, the SQL statements are functions on it, and the journal is the list of
-- its events. The scheduler and the webhooks write events of their own kinds, which are lists
-- beside this one. Tasks/Table is about rows, Tasks/Transitions about `transition` and `retry`,
-- Tasks/Sweeps and Tasks/Cancels about `cancel_all`.
--
-- Persistence/Sessions models src/xenopus/persistence/sessions.py: the tables of sessions and of
-- turns are lists of rows, and an INSERT refuses a primary key that is there. `lineage` is a loop
-- on fuel, one more than the sessions. Sessions/Lineages is about the descent of sessions,
-- Sessions/Changes has the calls and how each changes the store, Sessions/Histories is about what
-- they keep, Sessions/Forks about the copies of turns.
--
-- Runtime/Killswitch models src/xenopus/runtime/killswitch.py and src/xenopus/runtime/recovery.py
-- over Persistence/Tasks. A kill switch has no journal, that of its store, as everywhere in
-- src/xenopus/cli.py, src/xenopus/web/server.py and src/xenopus/tui/app.py, or another one;
-- Killswitch/Triggers is about `trigger`.
--
-- Persistence/Approvals models src/xenopus/persistence/approvals_store.py, the durable twin of
-- Runtime/Approval: the table is a dict of rows by their primary key, and `open_store` is the
-- constructor on a file that holds such a table. Approvals/Refines compares it with the ledger in
-- memory, Approvals/Reopening is about a store that is opened again.
--
-- Runtime/Scheduler models src/xenopus/runtime/scheduler.py over that store: Scheduler/Entries has
-- the entries with `next_due_time`, and `tick` is a loop over them. Scheduler/Due is about due
-- times, Scheduler/Ticks about how much a tick fires, Scheduler/Clock about DAILY and WEEKLY
-- entries.
--
-- Times and durations are natural numbers of microseconds, and the answer of a clock is an argument
-- of the call that reads it, once for the calls that read it more than once. Ids that uuid4 draws
-- are arguments too. ISO time stamps are the numbers that they denote, so their order as texts in
-- the SQL statements is the order of the numbers. The digits of `Decimal` take fuel n + 1 for a
-- number n, which is enough since each round divides by ten. Every other loop is structural.
--
-- Not modelled: teams of agents, the resident service, learning, checkpoints, the reliability
-- ranking and the event journal; the network adapters of the providers, channels, user interfaces,
-- command line and web server; the tools themselves; the loading of webhook secrets; the searches
-- of the skill registry and of the sessions; the text of error messages; SQLite's own failures. A
-- tick of the scheduler that raises returns the exception only.
pub mod Prelude
pub mod Persistence
pub mod Runtime
pub mod Tools
pub mod Provider
pub mod Skills
pub mod Web
pub mod Memory
