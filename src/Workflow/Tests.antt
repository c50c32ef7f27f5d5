-- ===== src/Workflow/Tests.antt =====
-- A small workflow, and the theorems at it.
use Prim.Native.Nat.{min}
use botto.Prelude.{
  String, ℕ, ◌≡◌, ◌≤◌, ◌<◌, refl, List, [], ◌∷◌, some, none, true, false, string_key,
  String_discrete, contains, count, ite, arith, Result, ok, err, All, retain, if◌then◌else◌, ◌==◌,
  ◌*◌, ◌^◌,
}
use botto.Prelude.Int.{ℤ}
use botto.Prelude.Maps.{lookup, insert}
use botto.Workflow.Types.{
  Host, WorkflowStep, WorkflowDefinition, WorkflowRun, WorkflowMode, AgentType, AgentStatus,
  AgentResult, BackoffStrategy, RetryPolicy, Trigger, TriggerSource, RunStatus, StepState,
  is_terminal_run, is_terminal,
}
use botto.Workflow.Dag.{
  HashOrder, DagError, validate_dag, find_missing, unknown_dependency, sort_dag, build, add_node,
  add_dependency, add_dependencies, drain, release, with_degree, conclude, ids, missing_dependency,
  cycle,
}
use botto.Workflow.Dag.Order.{IsSchedule, IsRanked}
use botto.Workflow.Dag.Validate.{
  Names, validate_dag-returns, validate_dag-IsSchedule, validate_dag-accepts, validate_dag-missing,
  validate_dag-repeated_id,
}
use botto.Workflow.Step.{Outside, Exec, execute_step, execute_step_standalone, compute_backoff}
use botto.Workflow.Step.Retries.{Settles, execute_step_standalone-Settles, execute_step-standalone}
use botto.Workflow.Step.Backoff.{compute_backoff-exponential}
use botto.Workflow.Walk.{walk_dag, is_pending, is_ready, failed_dep}
use botto.Workflow.Walk.Waves.{Stable}
use botto.Workflow.Walk.Stuck.{walk_dag-stuck}
use botto.Workflow.Walk.Kept.{walk_dag-Kept}
use botto.Workflow.Walk.Distinct.{count-Apart}
use botto.Workflow.Walk.Soundness.{Sound}
use botto.Workflow.Walk.Whole.{walk_dag-Sound}
use botto.Workflow.Walk.Ends.{Ended, walk_dag-Ended}
use botto.Workflow.Run.{
  execute_with_id, cancel, add_missing, reset_interrupted, values, resume, not_saved,
}
use botto.Workflow.Run.Resumed.{resume-Outcome}
use botto.Workflow.Run.Outcome.{Outcome, execute_with_id-Outcome}
use botto.Workflow.Run.Cancel.{cancelled_state, resumed_state, cancel-stops, resume-states}

abbrev toy : Host
toy = record {
  Value = String;
  Uuid = ℕ;
  DateTime = ℕ;
  Float = ℕ;
  null = "null";
  array = λ vs. "[]";
  text = λ s. s;
  error_object = λ s. s;
  entry_object = λ content category confidence. content;
  get = λ v field. some v;
  as_str = λ v. some v;
  zero = 0;
  from_u64 = λ n. n;
  get-error_object = λ s. refl;
  as_str-text = λ s. refl;
}

abbrev in_order : HashOrder
in_order = record { order = λ xs. xs; count-order = λ a xs. refl }

abbrev step_after : String → List String → WorkflowStep toy
step_after id deps = record {
  id = id;
  action = "do";
  agent_type = AgentType.script;
  inputs = [];
  success_criteria = "done";
  depends_on = deps;
  retry_policy = record {
    max_retries = 1;
    backoff = BackoffStrategy.fixed 2;
    consult_mentor_on_failure = false;
  };
  timeout_secs = 30;
}

abbrev pipeline : List (WorkflowStep toy)
pipeline =
    step_after "report" ("build" ∷ "lint" ∷ [])
    ∷ step_after "build" ("fetch" ∷ [])
    ∷ step_after "lint" ("fetch" ∷ [])
    ∷ step_after "fetch" []
    ∷ []

accepted : validate_dag in_order pipeline ≡ some (ok ("fetch" ∷ "build" ∷ "lint" ∷ "report" ∷ []))
unfolding validate_dag find_missing unknown_dependency sort_dag build add_node add_dependency
    add_dependencies drain release with_degree conclude lookup insert String_discrete
accepted = refl

abbrev looping : List (WorkflowStep toy)
looping = step_after "a" ("b" ∷ []) ∷ step_after "b" ("c" ∷ []) ∷ step_after "c" ("b" ∷ []) ∷ []

refused : validate_dag in_order looping ≡ some (err (cycle ("a" ∷ "b" ∷ "c" ∷ [])))
unfolding validate_dag find_missing unknown_dependency sort_dag build add_node add_dependency
    add_dependencies drain release with_degree conclude lookup insert String_discrete
refused = refl

abbrev dangling : List (WorkflowStep toy)
dangling = step_after "a" [] ∷ step_after "b" ("a" ∷ "nowhere" ∷ []) ∷ []

refused_missing : validate_dag in_order dangling ≡ some (err (missing_dependency "b" "nowhere"))
unfolding validate_dag find_missing unknown_dependency lookup insert String_discrete
refused_missing = refl

abbrev twins : List (WorkflowStep toy)
twins = step_after "a" [] ∷ step_after "a" [] ∷ []

distinct : (x : String) → count x (ids pipeline) ≤ 1
distinct x = (validate_dag-IsSchedule in_order pipeline accepted).distinct x

abbrev rank : String → ℕ
rank x = ite (String_discrete x "fetch") 0 (ite (String_discrete x "report") 2 1)

ranked : IsRanked pipeline rank
unfolding String_discrete
ranked = (
  ((refl, omega arith), ((refl, omega arith), tt)),
  (((refl, omega arith), tt), (((refl, omega arith), tt), (tt, tt))),
)

validate_dag-returns_example :
    (verdict : Result DagError (List String)) × (validate_dag in_order looping ≡ some verdict)
validate_dag-returns_example = validate_dag-returns in_order looping

validate_dag-IsSchedule_example : IsSchedule pipeline ("fetch" ∷ "build" ∷ "lint" ∷ "report" ∷ [])
validate_dag-IsSchedule_example = validate_dag-IsSchedule in_order pipeline accepted

validate_dag-accepts_example :
    (order : List String) × (validate_dag in_order pipeline ≡ some (ok order))
validate_dag-accepts_example = validate_dag-accepts in_order pipeline rank distinct ranked

validate_dag-missing_example :
    Names dangling "b" "nowhere" × (contains (ids dangling) "nowhere" ≡ false)
validate_dag-missing_example = validate_dag-missing in_order dangling "b" "nowhere" refused_missing

twice : 1 < count "a" (ids twins)
unfolding String_discrete
twice = omega arith

validate_dag-repeated_id_example :
    (names : List String) × (validate_dag in_order twins ≡ some (err (cycle names)))
validate_dag-repeated_id_example = validate_dag-repeated_id in_order twins "a" (tt, (tt, tt)) twice

-- The agent fails the first attempt at each step and then succeeds.
abbrev answer : AgentStatus → AgentResult toy
answer status = record { status = status; output = "out"; duration_secs = 3; learnings = [] }

abbrev outside : Outside toy
outside = record {
  available = λ wave step. true;
  execute = λ wave attempt timeout step inputs.
      if attempt == 0 then some (answer AgentStatus.failure) else some (answer AgentStatus.success);
  query = λ wave question limit. none;
  panics = λ wave step. false;
  now = λ wave. wave;
  new_id = λ wave step. 7;
}

abbrev definition : WorkflowDefinition toy
definition = record {
  id = 1;
  name = "pipeline";
  description = "";
  project_id = ℤ.pos 5;
  steps = pipeline;
  triggers = Trigger.manual ∷ [];
  created_by = "ann";
  created_at = 0;
  updated_at = 0;
  enabled = true;
  mode = WorkflowMode.simple;
}

execute_with_id-Outcome_example :
    (ex : Exec toy) × (execute_with_id in_order outside 60 9 0 1 42 definition
        (TriggerSource.manual "ann")
      ≡ some ex)
    × Outcome pipeline ex
execute_with_id-Outcome_example =
    execute_with_id-Outcome in_order outside 60 9 0 1 (λ wave s. refl) 42 definition
      (TriggerSource.manual "ann") ("fetch" ∷ "build" ∷ "lint" ∷ "report" ∷ []) accepted
      (omega arith)

-- `build` failed before, and `lint` did not run yet.
abbrev interrupted : WorkflowRun toy
interrupted = record {
  id = 42;
  workflow_id = 1;
  trigger = TriggerSource.manual "ann";
  status = RunStatus.running;
  step_states =
      ("fetch", StepState.completed "out" 3)
      ∷ ("build", StepState.failed "no compiler" 1 3)
      ∷ ("lint", StepState.pending)
      ∷ ("report", StepState.pending)
      ∷ [];
  started_at = 0;
  completed_at = none;
  final_verification = none;
  mentor_queries = [];
}

abbrev begun : Exec toy
begun = record { run = interrupted; log = [] }

begun-Sound : Sound pipeline interrupted.step_states
unfolding lookup String_discrete
begun-Sound = (tt, ((refl, tt), (tt, (tt, tt))))

walked :
    (ex : Exec toy) × (walk_dag outside 60 pipeline 9 0 begun ≡ some ex) × Ended pipeline begun ex
unfolding lookup String_discrete
walked =
    walk_dag-Ended outside 60 pipeline (count-Apart pipeline distinct) (λ wave s. refl) 9 0 begun
      begun-Sound refl (omega arith)

walk_dag-Sound_example : Sound pipeline walked.0.run.step_states
walk_dag-Sound_example =
    walk_dag-Sound outside 60 pipeline (count-Apart pipeline distinct) 9 0 begun walked.0
      begun-Sound walked.1

cancel-stops_example :
    All (λ state. is_terminal state ≡ true) (values (cancel 5 begun).run.step_states)
    × ((x : String)
        → lookup x (cancel 5 begun).run.step_states
          ≡ cancelled_state (lookup x interrupted.step_states))
    × (walk_dag outside 60 pipeline 4 0 (cancel 5 begun) ≡ some (cancel 5 begun))
cancel-stops_example = cancel-stops outside 60 3 0 pipeline 5 begun

resume-states_example :
    lookup "lint" (add_missing pipeline (reset_interrupted interrupted.step_states))
    ≡ resumed_state (contains (ids pipeline) "lint") (lookup "lint" interrupted.step_states)
resume-states_example = resume-states pipeline interrupted.step_states "lint"

execute_step_standalone-Settles_example :
    Settles outside 0 30
      (step_after "fetch" [])
      []
      0
      2
      (execute_step_standalone outside 60 0 (step_after "fetch" []) [] 1 []).0
execute_step_standalone-Settles_example =
    execute_step_standalone-Settles outside 60 0 (step_after "fetch" []) [] 1 [] refl

execute_step-standalone_example :
    lookup "fetch" (execute_step outside 60 0 (step_after "fetch" []) [] begun).run.step_states
    ≡ ite
        (String_discrete "fetch" "fetch")
        (some (execute_step_standalone outside 60 0 (step_after "fetch" []) [] 1 []).0)
        (lookup "fetch" interrupted.step_states)
execute_step-standalone_example =
    execute_step-standalone outside 60 0 (step_after "fetch" []) [] begun 1 [] "fetch"

abbrev policy : RetryPolicy
policy = record {
  max_retries = 5;
  backoff = BackoffStrategy.exponential 3 60;
  consult_mentor_on_failure = true;
}

compute_backoff-exponential_example : compute_backoff policy 4 ≡ min (3 * 2 ^ 3) 60
compute_backoff-exponential_example = compute_backoff-exponential policy 3 60 3 refl (omega arith)

abbrev broken : Outside toy
broken = record outside { panics = λ wave step. true }

abbrev siblings : List (WorkflowStep toy)
siblings = step_after "a" [] ∷ step_after "b" [] ∷ []

abbrev fresh_siblings : Exec toy
fresh_siblings = record begun {
  run = record interrupted {
    step_states = ("a", StepState.pending) ∷ ("b", StepState.pending) ∷ [];
  };
}

siblings_ready :
    retain (is_ready fresh_siblings.run.step_states) siblings
    ≡ step_after "a" [] ∷ step_after "b" [] ∷ []
unfolding lookup String_discrete
siblings_ready = refl

siblings-Stable : Stable fresh_siblings.run.step_states siblings
unfolding failed_dep
siblings-Stable = (λ waits. refl, (λ waits. refl, tt))

walk_dag-stuck_example : walk_dag broken 60 siblings 8 0 fresh_siblings ≡ none
walk_dag-stuck_example =
    walk_dag-stuck broken 60 (λ wave s. refl) siblings (step_after "a" []) (step_after "b" []) [] 8
      0 fresh_siblings refl siblings-Stable siblings_ready

resumed-Sound : Sound pipeline (add_missing pipeline (reset_interrupted interrupted.step_states))
unfolding add_missing reset_interrupted lookup String_discrete
resumed-Sound = (tt, ((refl, tt), (tt, (tt, tt))))

unfinished : is_terminal_run interrupted.status ≡ false
unfolding is_terminal_run
unfinished = refl

resume-Outcome_example :
    (ex : Exec toy) × (resume in_order outside 60 9 0 1 definition (some interrupted) true
      ≡ some (if true then ok ex else err not_saved))
    × Outcome pipeline ex
resume-Outcome_example =
    resume-Outcome in_order outside 60 9 0 1 (λ wave s. refl) definition interrupted true
      ("fetch" ∷ "build" ∷ "lint" ∷ "report" ∷ []) accepted unfinished resumed-Sound (omega arith)

build_settled : is_pending (lookup "build" interrupted.step_states) ≡ false
unfolding lookup String_discrete
build_settled = refl

walk_dag-Kept_example :
    lookup "build" walked.0.run.step_states ≡ lookup "build" interrupted.step_states
walk_dag-Kept_example =
    walk_dag-Kept "build" outside 60 pipeline 9 0 begun walked.0 walked.1 build_settled
