-- ===== src/Lib.antt =====
-- A model of botto, the server that reviews merge requests and runs workflows for them, with the
-- theorems that make its parts correct.
--
-- The parts and where they are modelled. Paths are those of the repository.
--
-- * The workflow orchestrator (src/services/workflow/orchestrator.rs, src/types/workflow.rs) runs the
--   steps of a workflow in the order of their dependencies. Workflow/Types.antt has the data, with
--   the source's names. Workflow/Dag.antt is `validate_dag` (Kahn's algorithm: `build`, `drain`,
--   `release`, `conclude`). Workflow/Step.antt is one step with its retries (`execute_step`,
--   `execute_step_standalone`, `resolve_inputs`, `compute_backoff`). Workflow/Walk.antt is `walk_dag`
--   with `propagate_dependency_failures`: a wave of one step runs in place, a larger one in spawned
--   tasks whose states are merged. Workflow/Run.antt is a whole run: `execute_with_id`, `resume`,
--   `cancel`, `finalize_run`. The modules below each are named for what they prove. The run is a
--   record that is passed on; database writes, events, Mentor entries and waits are a log of effects.
-- * The session manager (src/services/workflow/session.rs, escalation.rs, and the part of crud.rs that
--   stores sessions) lets a planner, a generator and an evaluator carry out a workflow, and asks a
--   human where they fail. Workflow/Session/Types.antt has the data, Workflow/Session/Stored.antt the
--   row of a session, Workflow/Session/World.antt what a method works on: the session, its row, what
--   was sent, and the number of calls that were made. The methods of the source are actions on it, by
--   the same names: Workflow/Session/Escalation.antt (`escalate`, `handle_response`),
--   Workflow/Session/Planning.antt (`run_planning`, `run_replanning`), Workflow/Session/Execution.antt
--   (`find_next_step`, `run_next_step`, of which `handle_outcome` and the actions above it are parts),
--   Workflow/Session/Drive.antt (`run_evaluation`, `drive`, with `round` for one pass through the
--   `match` of its loop) and Workflow/Session/Recovery.antt (`create_session`, `resume_sessions`).
--   Workflow/Session/Relation.antt is the life of a session as a step relation, and
--   Workflow/Session/After.antt the rules by which actions are compared with it;
--   Workflow/Session/Passes.antt are the worlds that the loop of `drive` comes to, pass by pass, and
--   Workflow/Session/Ends.antt has the rules for claims on the error of an action.
-- * The review queue (src/services/queue/manager.rs) reviews one merge request after the other.
--   Queue.antt has the operations that clients call (`enqueue`, `cancel`) and the pick of the run
--   loop, Queue/Steps.antt the run loop (`run`), cut at the places where it waits or takes a lock, and
--   the relation of steps in which requests, run loop, shutdown and interactive reviews interleave.
--   The queue and the interactive reviews share the map of reviews in flight, of which the model has
--   the keys; others may change it at any moment.
-- * The presence of viewers (src/types/state.rs): Presence.antt has the connections, the index of
--   viewers and the broadcasts. The queue uses a broadcast to tell viewers of a finished review.
-- * Clusters of related merge requests (src/services/cluster/detector.rs, src/types/cluster.rs):
--   Cluster.antt has `merge_candidates`, which merges candidates that share a merge request, and
--   `hunks_overlap`; Cluster/Removal.antt has `remove_mr_from_clusters`.
-- * Hashes (src/util/hash.rs) and the files of an incremental review (`changed_files` of
--   src/services/review/cache.rs): Hash.antt.
-- * The validation of the plans that a language model writes (src/services/workflow/planner.rs,
--   `validate_plan`, `has_cycle`): Workflow/Planner.antt; the modules below it are about the plans it
--   lets through, and about the fuel of the search for cycles.
-- * Retries with exponential backoff (src/util/retry.rs): Retry.antt.
--
-- Prelude.antt and the files below it have what the components share: Boolean tests on the native
-- numbers, lists and predicates on them, keys, maps as association lists, and texts.
--
-- Parameters. `Workflow.Types.Host` are the types and functions of serde_json, uuid, chrono and f64;
-- `Workflow.Session.World.Services` is what the planner, the generator, the evaluators, the connector
-- builder, the clock and the database answer at each moment, and the texts of JSON and of errors;
-- `Workflow.Step.Outside` is what agents, the Mentor store and the clock answer in each wave, and
-- which spawned tasks panic; `Workflow.Dag.HashOrder` is the order in which a hash map is iterated,
-- any rearrangement of it; `Queue.Scores` and `Cluster.Floats` are f64 with its comparisons;
-- `Cluster.Removal.Writes` is which writes of clusters fail, and when they are made;
-- `Hash.Utf8` are the bytes of a text.
--
-- Bounds and fuel. `drive_loop` has the iterations of `drive` that are left, 100 at first.
-- `has_cycle` has fuel for one node more than there are: every search enters a node that no other is
-- in. `drain` has fuel for one round more than there are steps: each round takes a step
-- from the queue, and no step enters it twice. `walk_dag` has fuel that bounds its waves and, in
-- each, the passes of the propagation: a wave whose tasks do not panic and a pass that changes
-- something settle a pending step, so that one more than there are steps is enough for it. Base 36 has
-- 13 digits, since 36 ^ 13 exceeds 2 ^ 64. Machine integers saturate at 2 ^ 64 - 1 where the source
-- does, and wrap where it would. Numbers of other fields are unbounded.
--
-- Not modelled: SQL beyond the rows of sessions and clusters (of which `resume` has the outcome as an argument),
-- HTTP, the agents, the prompts of the planner and its kin, the JSON payload of traces and events,
-- the JSON of status reports, and the parts of the server that are named in no file here.
pub mod Cluster
pub mod Hash
pub mod Prelude
pub mod Presence
pub mod Queue
pub mod Retry
pub mod Workflow
