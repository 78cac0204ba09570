-- ===== src/Lib.antt =====
-- Project OS core: the services that keep its incidents, its schedule and its missions, and route
-- them, tells the operator of them and remembers their approvals.
--
-- The program (src/project_os_core) is a set of services over one SQLite database, wired together in
-- src/project_os_core/services.py. Each service reads its rows, decides, writes the rows back, appends an entry to the
-- local journal and links what it wrote to other entities in the table `trace_edges`.
--
-- Which file models which part:
-- - Base: Python's texts, lists, dictionaries and exceptions, and the queries on a table
--   (`fetchone`, `upsert` and the UPDATE statements of src/project_os_core/database.py).
-- - World: what the program reads from outside, and the journal (src/project_os_core/runtime/journal.py).
-- - TraceEdges: `CanonicalDatabase.record_trace_edge` of src/project_os_core/database.py.
-- - Incidents: IncidentService of src/project_os_core/incidents/service.py. Status has the statuses and
--   the table of transitions, Update the change of one row, Operations the methods. Whether the line of
--   the journal and the artifact can be written is the parameter Files.
-- - Scheduler: SchedulerService of src/project_os_core/scheduler/service.py. Defaults has the tasks of
--   a new installation, Operations the methods, Ticks the loop of `tick` with its callback as a
--   parameter, which may change the scheduler's state and a world of its own.
-- - Mission: MissionChainService of src/project_os_core/mission/chain.py. Chains has the table and the
--   methods on one row, Launch the start of a step, Advance `advance_chain`. The API run service that
--   runs a step is the interface ApiRuns, on a state of its own that a chain's methods only pass on.
--   Costs are in millionths of a euro, and a JSON object is its text.
-- - Router: the decision of MissionRouter.route_intent of src/project_os_core/router/service.py, and
--   src/project_os_core/router/policy.py. Gates has the classes and gates, Routes the model routes,
--   Decision the reasons and the decision. Its collaborators are one record: the path policy and the
--   secret resolver as Boolean functions, the status of the local model, and the cost estimate of
--   src/project_os_core/costing.py. The metadata of an intent is a record of the keys it reads.
-- - Runtime: RuntimeStore of src/project_os_core/runtime/store.py, the sessions, the runtime states, the
--   approvals and the evidence of actions.
-- - Deliveries: the deliveries to the operator of src/project_os_core/api_runs/service.py. Policy has the
--   decisions, Publish the new deliveries, Marks `mark_operator_delivery`, Requeue
--   `requeue_operator_delivery`, Letters the dead letters, Listing `list_operator_deliveries`,
--   Counts what becomes of the count of requeues, and Phases what the methods promise. The writer of
--   JSON files, the translator and Python's hash of a text are parameters.
-- - Costing: src/project_os_core/costing.py, on exact numbers in place of floating point. The count of
--   the tokens of a text is a parameter.
-- - Contracts: the run contracts of src/project_os_core/api_runs/service.py. Writes has
--   `_persist_run_contract`, Changes what each method makes of a contract, Methods the methods, and of
--   `execute_run` what it does to its contract. The builders of context packs and prompts, which read the
--   repository, are fields of a Planner.
-- - Guardian: the guards of `execute_run` in the same file, the preflight, the recent approval and
--   `_guardian_pre_spend_check`, on the rows and the times that they read, with exact sums of costs.
-- - Tiering: TierManagerService of src/project_os_core/memory/tiering.py, with `move_to_cold` of
--   src/project_os_core/memory/store.py. SQLite's order of texts is a parameter.
-- - Orchestration: CanonicalMissionGraph of src/project_os_core/orchestration/graph.py; Simulate joins it to
--   the router, as the command `orchestration simulate` of src/project_os_core/cli.py does.
-- - Paths: PathPolicy of src/project_os_core/paths.py, with the case of letters told apart, as on POSIX
--   systems. Resolving a path is a parameter.
-- - Tests: concrete inputs.
--
-- How state corresponds: the state of a service is a record with one list of rows for each table it
-- reads or writes, in insertion order, and the shared Context (clock, identifiers, journal, edges). A
-- method takes the state and returns its result with the new state; what raises returns a `Result`.
-- The n-th call of `utc_now_iso` returns `wall n`, in microseconds since the epoch, and the n-th call
-- of `new_id(prefix)` returns `fresh prefix n`; theorems say what they need of either.
-- ORDER BY is a stable sort, `lower` and `int` act on ASCII, and the numbers in metadata are integers.
-- The statements on the database do not fail, nor does the journal outside Incidents.
--
-- The loops are structural recursion on the rows or the tasks. Only the digits of a number run on fuel,
-- one more than the number; Base.Text shows that any larger fuel gives the same digits.
--
-- Not modelled: what route_intent persists of its decision, its adaptive route and its briefing; the
-- logger's calls; the directories and files other than the artifacts a service lists in its rows; and
-- what needs a network, a browser or a model (the gateway, the calls of models in API runs, the
-- memory's retrieval, deep research and the desktop).
pub mod Base
pub mod World
pub mod TraceEdges
pub mod Incidents
pub mod Scheduler
pub mod Mission
pub mod Router
pub mod Costing
pub mod Runtime
pub mod Deliveries
pub mod Contracts
pub mod Guardian
pub mod Tiering
pub mod Orchestration
pub mod Paths
mod Tests
