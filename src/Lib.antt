-- ===== src/Lib.antt =====
-- A verification of the services of interview_helper, which plans mock interviews, runs and grades what
-- is submitted, keeps what was learned from it, and tracks job applications. Paths are those of the
-- repository.
--
-- The parts and how they meet:
--
-- * Sessions (apps/api/src/api/sessions.py) is the life of one interview: planned items, turns,
--   submissions, gradings, the completion check, the end and the report. `Interview` is what the
--   database holds of one session. `Service` has create_session, current_item, take_turn (`begin_turn`
--   and `finish_turn`, in front of and behind the exchange with the model), record_submission and
--   end_session; `Grades` has grade_artifact with _record_grade, _record_failure and _record_crash, and
--   where the database can fail them; `Reports` has build_report. An operation that decides by the row it read takes the state it read as an argument,
--   so that requests can cross each other. `Waiting` follows requests that are served one after the
--   other, `Finals` what they leave when the session is complete, `Answers` and `Writes` what a grading
--   leaves, `Scores` what a report counts, and `Races` requests that cross.
-- * Grading (apps/api/src/api/grading/coding.py) turns a run of the tests into a score and evidence, on
--   exact fractions where the source has floats. Its grades are what Sessions stores.
-- * Executor (apps/executor/src/executor) runs a submission: `run_sandboxed` classifies how the
--   container ended (sandbox.py), `parse_result` reads the result line (harness.py), `Drain` is the
--   bounded reading of the output (sandbox.py), and `Probe` the verdict on its growth (complexity.py).
--   Its responses are what Grading reads.
-- * Events (apps/api/src/api/events.py) is the bus that announces what happens in a session, and
--   `Stream` the opening and one round of the stream of apps/api/src/api/routes/events.py.
-- * Idempotency (apps/api/src/api/idempotency.py) is run_once, for any handler and state.
-- * Jobs (apps/api/src/api/jobs.py) is the tracker of applications: `Projection` is project, `Board` and
--   `Moves` the operations on the two tables, `Ingest` the import of a pasted list, from the payload of
--   the model to the rows that are written, and `Funnel` the funnel of stats.
-- * Planner (apps/api/src/api/planner.py) chooses the items of a session: candidates, the substitution of
--   prerequisites and the shortlist in `Planner` itself; the sort, the review, the fill of the minutes and
--   build_plan in `Plan`. What it plans is the list of items that create_session of Sessions takes.
-- * Corpus (packages/corpus/src/corpus/validate.py) is check_concept_graph, with its search for cycles on
--   an explicit stack: `Walk` has the colours and the path, `round` is one round of the loop, and an
--   exception of Python is `none`. `Cycles` has the edges and trails of the graph.
-- * Mastery (apps/api/src/api/mastery.py) folds evidence into the mastery of concepts and the ratings of
--   items: `apply_evidence`, `record_evidence` for a batch under the lock (as in _record_grade of
--   sessions.py), and `recompute`. The evidence is what Grading produces and Sessions stores.
-- * Ledger (apps/api/src/api/llm.py, with cost_of of pricing.py) is the ledger of model calls: `reserve`
--   checks the ceilings and adds a row in one step, `settle` writes what was used; `Calls` has what
--   complete and stream do with the row once the provider answered or failed. Calls overlap, so
--   `Ceilings` follows reservations and settlements in any order, within one day and month.
-- * Agent (apps/api/src/api/agent/loop.py) is run_turn, the exchange with the model that take_turn of
--   Sessions makes: rounds of a model that may ask for tools, the rows that are written and the events
--   that are published. The model may answer anything, and the tools do anything to their context.
-- * Prelude has the library names and the lemmas on lists, options and numbers that they share.
--
-- Bounds and fuel: one loop runs on fuel, that of a walk in Corpus, with two rounds more than there are
-- concepts and listed prerequisites; a node is entered once, and then costs one round for itself and one
-- for each of its prerequisites, so the fuel is not used up. Every other loop is a structural recursion
-- over the list that the source iterates over, or the rounds of a turn. Constants are the source's (256
-- buffered events, keys of up to 255 characters that live 24 hours, the penalties and ceilings of the
-- graders); a bus takes its number of channels as the source does.
--
-- Not modelled: identifiers are numbers, since they are only compared, and so are times; a transaction
-- is one step, and the unique constraints of the tables make a refused insert one too. The observations
-- that an exchange writes as evidence (`_write_observation` of agent/loop.py) are counted in Agent, but
-- do not reach the evidence of Sessions. `lower` of the database and `str.lower` are one function. The graders,
-- the exchange with the model, `str.strip`, `str.lower`, `str.splitlines`, the reading of one line of
-- output as JSON and the floating-point fit of a slope are arguments of the definitions that use them;
-- so are `expected_score` and the ranking that the planner starts from, and for the ledger Python's
-- `round` and the rate of a model. The arithmetic of the mastery projection is an argument too.
-- Practice, the agent's tools, the other graders, the checks of corpus items and the loader are not part of
-- this development, nor are HTTP, Docker, the schema and the web client.
pub mod Prelude
pub mod Agent
pub mod Corpus
pub mod Events
pub mod Executor
pub mod Grading
pub mod Idempotency
pub mod Jobs
pub mod Ledger
pub mod Mastery
pub mod Planner
pub mod Sessions
