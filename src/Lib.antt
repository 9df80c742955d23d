-- ===== src/Lib.antt =====
-- Verification library of MORPHIA: the web client that plans, approves and watches runs, and the routes of
-- the server that it and the worker talk to.
--
-- A run is a row with a state. packages/contracts/src/run_states.ts, apps/web/src/lib/types.ts and
-- apps/api/app/models/runs.py each keep the states and the table of legal transitions: Contracts.antt,
-- Types/States.antt and Server/States.antt, over the one type of RunState.antt; Agreement.antt compares them.
--
-- The server. Server/Store.antt holds the tables as lists and the result of a route, and Server/Runs.antt the
-- routes of apps/api/app/routers/runs.py that write. Server/Runs/Transitions, Moves, Decisions,
-- Consistency, Calls, Justified, Lifecycle, Effects and Gate have their theorems, on one route and on any sequence of calls.
-- Server/Tables adds the tables that the worker's routes read. Server/Scope is the validator of
-- services/scope_validator.py; its patterns, addresses and prohibited targets are parameters. Server/Worker
-- holds the routes of routers/worker.py, over the results of Server/Reply, which keep what was committed before
-- an exception, and Server/Plan, which reads the plan of a run. Before the routes
-- stand the limits of length that the schemas of the bodies set, in Server/Runs/Calls and Server/Worker/Schemas. Server/Worker/Calls puts the calls of users and
-- workers into one list, Evolution says how a route of the worker changes the tables of runs, Starting and Routes
-- show it for each, and Interleaving carries the theorems on runs over to any order of calls; Claims and
-- Steps are about one route each. Executor is the loop of apps/worker/app/main.py that executes a run, with the
-- calls of api_client.py answered by these routes and the provider of models as a parameter; Executor/Recorded and
-- Executor/Termination show how it ends.
--
-- The web client, apps/web/src. Types.antt, with Types/Entities, Analysis and System, holds the records of
-- lib/types.ts. Web/Session, Web/Api and
-- Web/Auth model lib/session.ts, lib/api.ts and lib/auth.ts: a request is what is handed to `fetch`, and
-- its reply is an argument, so a promise is a function of its replies. Web/Layout is components/Layout.tsx.
-- Web/ExecutionGraph, ApprovalGate, AuditStream, AuthorizationBoundary, EvidenceProvenance, ConfirmDialog and
-- StateBadge are the components of those names, and Web/RunDetail, Runs, Workflows, Approvals, Operations,
-- SignIn, ProjectDetail, AuditLog, Findings, Evidence, Projects, Reports, Dashboard, Agents and Settings the
-- pages; Web/ListStates is components/ListStates.tsx and LoadingScreen.tsx with what a page knows of a query,
-- and Web/Routes is App.tsx with pages/NotFound.tsx and components/ErrorBoundary.tsx. A component is its state,
-- one function for each handler, and a view: the list of the texts and controls that it draws
-- (Common/View.antt); View, Page and Screen hold views of larger pages. Web/ProjectDetail has its forms in Forms
-- and RunForm, its rows in Tabs and Rows, and its tabs in Frames. Web/Requests is what the pages of a run post.
-- The modules named Laws have the theorems.
--
-- Agreement/Controls, Gate, Rows, Decisions and NewRun read the requests of the web client as calls of the
-- server's routes: of the run page, its gate, the list of runs, the approvals page and the form for a run.
--
-- Numbers are the native naturals; nothing here wraps around. Two loops are on fuel. The walk of Web/Workflows is
-- given one round more than there are nodes; each round visits a new one. The loop of Executor is given one round
-- more than the plan has steps; each round but the last records one. A step number is taken to fit its Integer column.
--
-- Not modelled: the query library, the router and the browser, which are arguments or keys that are handed to
-- them; layout and colours; time stamps, which are texts, and their printing, which is a parameter; the
-- database, whose tables are lists and whose commits do not fail; and two calls at once: a call is one step.
-- The worker's queue of jobs, its heartbeat and its providers, the check of services/target_safety.py and the
-- other routes of the server are not modelled either.
pub mod Common
pub mod RunState
pub mod Contracts
pub mod Types
pub mod Server
pub mod Executor
pub mod Web
pub mod Agreement
pub mod Tests
