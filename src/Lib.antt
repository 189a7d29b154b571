-- ===== src/Lib.antt =====
-- A verification library for the runtime of Human-COS, the Python package `human_cos` under
-- runtime/src/human_cos.
--
-- The runtime takes a Case through a frozen transition graph. A worker's run gets an immutable
-- context of evidence that time and access rules let through, calls models and tools that are
-- qualified or permitted, and leaves snapshots that only grow. A trial drives one Case in a sandbox,
-- under resource limits, and ends with one controlling stop.
--
-- The parts, and the files that model them:
--   * Runtime/States, Graph, Guards and Transition: runtime/src/human_cos/runtime/state_machine.py.
--     `can_transition` and `transition` are functions from a position; `Reach` (Transition/Reach) is
--     the relation of the positions that accepted changes lead to. Graph/Edges is the diagram that
--     the graphs are compared with; Transition/Decision, Change, Gates and Progress hold the proofs.
--   * Runtime/Run: runtime/src/human_cos/runtime/run.py, the validation of a snapshot against the one
--     before it (Run/Lifecycle), chains of snapshots (Run/Chain) and replays (Run/Replay).
--   * Runtime/ToolPolicy: runtime/src/human_cos/runtime/tool_policy.py.
--   * Runtime/Scheduler: runtime/src/human_cos/runtime/scheduler.py. Checks has what `run` asks before it
--     stores anything, Manifests the three snapshots that it appends, Run the run itself, an action
--     (Runtime/Journal) on the list of what was stored and which model was called. It composes the
--     registry, the gate, the context, the tool policy and the fallback of the other parts.
--   * Core/Contracts, Visibility and Context: models.py, visibility.py and context.py of
--     runtime/src/human_cos/core. `build_context` uses the visibility rules on every candidate.
--   * Models/Profile, Qualification and Fallback: types.py, errors.py, profile.py, registry.py,
--     independence.py, qualification.py and fallback.py of runtime/src/human_cos/models.
--   * World/Revision, State and Causal: runtime/src/human_cos/world/state.py and causal.py. The three
--     freezing functions of these files differ in the contract that they give to the one of Revision;
--     World/Lineage is about the histories that it leads to.
--   * Integration/Disagreement, CrossExam and Gates: disagreement.py and cross_exam.py of
--     runtime/src/human_cos/integration, and the gates of cross_exam.py and of world/causal.py, which
--     ask `can_transition` of Runtime/Transition first.
--   * Trial/Contracts, Limits, Steps, Stop, Result and Environment:
--     runtime/src/human_cos/trial/contracts.py, the stop conditions, hard caps, runtime steps, frozen
--     stops and results, and the admission of the environment. Trial/Meter, Ledger, Terminal and
--     Closing: runtime/src/human_cos/trial/stop_engine.py. The ledger follows the graphs of
--     Runtime/Graph, and its terminal freeze (Closing) writes a stop and a result and closes it.
--   * Prelude: what the parts share of Python, namely equality, dictionaries, lists, texts and
--     exceptions (`Outcome`). Tests: concrete inputs.
--
-- How the source is read. An object that its methods change is a record that its operations take
-- and give back; an exception is a `raised` outcome, by its class and its text, or for the reasons
-- of the qualification gate by the values that the text prints. A dictionary is an association
-- list, a set of authorized edges a list. The `is` and `==` of enumerations compare places of
-- members, those of frozen dataclasses all fields. An aware timestamp is its instant, so its offset
-- is not told apart; a naive one is kept apart where the code tests for it. The clock of a trial
-- shows nanoseconds or a value that is not finite, and a number of seconds is compared as
-- nanoseconds. Integers that the contracts hold to be non-negative are natural numbers; the deltas
-- of the meter, which the code tests, are integers. Every loop is a recursion on the list that it
-- goes through, so no fuel is needed but for the decimal text of a number, whose fuel is one more
-- than the number. The contracts are pydantic classes. Where the code builds one from arguments
-- that nothing checked, the manifest of a run and the stop and the result of a trial, the least
-- lengths, the patterns of hashes and the least revision are checked as in the contract, and what
-- is wrong is raised; elsewhere a record stands for one that was built. A snapshot, a stop or a
-- result that the code parses back from the JSON document of its payload is the payload itself with
-- its hash.
--
-- Parameters, for what is not part of this code: the evidence source, the hashes of documents and
-- the schema check of a context (`ContextServices`), a model adapter's call (`ModelAdapter`), the
-- scheduler's repository, clock, JSON text and output hash (`SchedulerServices`), and the hashes of
-- a runtime step, of a stop, of a result, of an environment admission and of the records of World
-- and Integration. They are functions, so that equal calls give equal results.
--
-- Not modelled: a case's phase profile and publication policy, the float scores of an evidence and
-- of a controller qualification; the usage that comes with a model's response; the parsing of
-- documents by JSON schema, but for the context manifest; the audit documents; the attempt, input
-- and case admission of a trial and the bindings between its contracts; domain routing, critical
-- nodes, scenarios, evaluation, controllers, challengers, experts, validation and safety; and, as
-- input and output, storage, model adapters, file handling and command lines.
pub mod Prelude
pub mod Runtime
pub mod Core
pub mod Models
pub mod World
pub mod Integration
pub mod Trial
pub mod Tests
