-- ===== src/Workflow/Session/Tests.antt =====
-- A small session, and the theorems at it.
use botto.Prelude.{
  String, ℕ, ◌==◌, Bool, true, false, List, [], ◌∷◌, none, some, ok, ◌≡◌, refl, arith, not, ◌&&◌,
  ◌||◌, map, All, all, contains, string_key, if◌then◌else◌, ◌++◌, String_discrete,
}
use botto.Prelude.Int.{ℤ, pos}
use botto.Prelude.Maps.{lookup, insert}
use botto.Workflow.Types.{Host, AgentType}
use botto.Workflow.Session.Types.{
  SessionState, SessionStatus, SessionPlan, PlanStep, PendingPlanModification, GeneratorOutcome,
  PlanResult, ConnectorResult, EscalationMessage, EvaluatorVerdict, created, planning, executing,
  waiting_for_human, completed,
}
use botto.Workflow.Session.Stored.{
  Json, inserted_row, checkpoint_row, parse_session_row, status_name,
}
use botto.Workflow.Session.Reload.{without_transient, parse_session_row-checkpoint_row}
use botto.Workflow.Session.World.{
  Services, SessionManagerConfig, World, then_do, branch, ok_or, on_option, on_result, lift_context,
  touch, checkpoint_session, append_trace, insert_effect,
}
use botto.Workflow.Session.Escalation.{handle_response, escalated, is_paused, stamp}
use botto.Workflow.Session.Planning.{
  transition_to_planning, has_output, step_ids, modified_plan, remove_all, stale_keys,
}
use botto.Workflow.Session.Execution.{
  find_step, find_next_step, all_steps_complete, is_runnable, run_next_step, run_generator,
  begin_step, is_current, handle_outcome, handle_success, judge_output, record_output,
  end_execution,
}
use botto.Workflow.Session.Drive.{
  drive, drive_loop, round, or_fail, or_fail_outcome, run_evaluation, complete_session,
  max_iterations, max_duration,
}
use botto.Workflow.Session.After.{After, Owned, Stored}
use botto.Workflow.Session.Ends.{Ends}
use botto.Workflow.Session.Passes.{Passes, first, next}
use botto.Workflow.Session.Loop.{Driven, drive-refines-Reaches}
use botto.Workflow.Session.Invariant.{well_formed, is_standing, drive-well_formed}
use botto.Workflow.Session.Limits.{within_limits, drive-within_limits}
use botto.Workflow.Session.Failing.{WriteFailed, drive_fails, drive_late}
use botto.Workflow.Session.Answers.{Answered, handle_response-Answered}
use botto.Workflow.Session.Next.{NotReady, find_next_step-first, find_next_step-all_steps_complete}
use botto.Workflow.Session.Pruned.{lookup-modified_plan}
use mathlib.Core.Option
use text.Mathlib.Text.{◌==◌ as str_eq}

abbrev desk : Host
desk = record {
  Value = String;
  Uuid = String;
  DateTime = ℕ;
  Float = ℕ;
  null = "null";
  array = λ vs. "[]";
  text = λ s. s;
  error_object = λ s. s;
  entry_object = λ content category confidence. content;
  get = λ v field. some v;
  as_str = λ v. some v;
  zero = 0;
  from_u64 = λ n. n;
  get-error_object = λ s. refl;
  as_str-text = λ s. refl;
}

abbrev step_of : String → List String → PlanStep
step_of id deps = record {
  id = id;
  description = id;
  agent_type = AgentType.ai;
  success_criteria = "done";
  depends_on = deps;
  capabilities_needed = [];
  tool = none;
}

abbrev two_steps : SessionPlan
two_steps = record {
  goal = "tidy up";
  steps = step_of "a" [] ∷ step_of "b" ("a" ∷ []) ∷ [];
  capabilities_needed = [];
}

abbrev verdict_of : Bool → EvaluatorVerdict desk
verdict_of passed = record {
  passed = passed;
  score = 1;
  threshold = 1;
  feedback = "fine";
  suggestion = none;
}

abbrev paper : Json desk
paper = record {
  show_id = λ u. u;
  read_id = λ u. some u;
  write_data = λ v. v;
  read_data = λ v. some v;
  write_plan = λ p. p.goal;
  read_plan = λ text. some two_steps;
  write_outputs = λ outputs. "{}";
  read_outputs = λ text. some [];
  write_verdict = λ v. v.feedback;
  read_verdict = λ text. none;
  write_escalation = λ m. m.reason;
  read_escalation = λ text. none;
  read_id-show_id = λ u. refl;
}

-- Services that always succeed; `nanoseconds` is the time since the start, at any moment.
abbrev services_at : ℕ → Services desk
services_at nanoseconds = record {
  Error = String;
  ConnectorSpec = String;
  error = λ s. s;
  context = λ text e. text;
  show_error = λ e. e;
  show_chain = λ e. e;
  json = paper;
  empty_object = "{}";
  with_answers = λ v answers. v;
  connector_info = λ spec. spec;
  new_id = λ t. "session";
  epoch_secs = λ t. pos t;
  elapsed = λ t. nanoseconds;
  write = λ t. none;
  get_workflow = λ t id. ok none;
  load_session_messages = λ t id limit. ok [];
  create_plan = λ t model trigger description. ok (PlanResult.plan two_steps);
  replan = λ t model plan completed failed context. ok two_steps;
  execute_step = λ t step outputs model feedback context. ok (GeneratorOutcome.success "out" []);
  evaluate_step = λ t model step output threshold. ok (verdict_of true);
  evaluate_session = λ t model goal summaries threshold. ok (verdict_of true);
  find_or_build = λ t model capability description. ok (ConnectorResult.found "spec");
}

abbrev services : Services desk
services = services_at 0

abbrev config : SessionManagerConfig desk
config = record {
  max_step_retries = 3;
  max_session_retries = 10;
  eval_threshold = 1;
  ai_model = "m";
}

abbrev session_in : SessionStatus → SessionState desk
session_in status = record {
  id = "s";
  workflow_id = "w";
  status = status;
  trigger_type = "event";
  trigger_data = none;
  plan = some two_steps;
  step_outputs = [];
  current_step_id = none;
  retry_count = 0;
  max_retries = 3;
  step_retry_count = 2;
  evaluator_feedback = none;
  escalation = none;
  pending_modification = none;
  started_at = pos 0;
  completed_at = none;
  updated_at = pos 0;
}

abbrev world_in : SessionStatus → World desk
world_in status = record {
  session = session_in status;
  row = some (inserted_row paper (session_in status));
  sent = [];
  tick = 0;
}

-- Both steps run, the whole is evaluated, and the session is completed and stored as such.
drive_test :
    let w = (drive services config "tidy" (world_in executing)).1 in
    (w.session.status ≡ completed) × (w.row ≡ some (inserted_row paper w.session))
unfolding drive drive_loop then_do branch round or_fail or_fail_outcome run_next_step ok_or
    on_option find_next_step find_step is_runnable lookup String_discrete run_generator begin_step
    is_current touch checkpoint_session append_trace insert_effect lift_context handle_outcome
    handle_success on_result judge_output record_output insert end_execution all_steps_complete
    run_evaluation complete_session stamp inserted_row checkpoint_row status_name max_iterations
    max_duration
drive_test = (refl, refl)

drive-refines-Reaches_example :
    After
      (Driven services config (session_in executing))
      (Owned services)
      (drive services config "tidy" (world_in executing))
drive-refines-Reaches_example =
    drive-refines-Reaches services config "tidy" (world_in executing) refl

drive_fails_example :
    Ends
      (λ _ _. Unit {0})
      (WriteFailed services config)
      (drive services config "tidy" (world_in executing))
drive_fails_example = drive_fails services config "tidy" (world_in executing)

-- The session of a first pass is planned in a second one.
abbrev second_pass : World desk
second_pass = record {
  session = record (session_in planning) { updated_at = pos 1 };
  row = some (inserted_row paper (record (session_in planning) { updated_at = pos 1 }));
  sent = [];
  tick = 3;
}

-- The hour is over at any moment but the first.
abbrev slow_services : Services desk
slow_services = record services { elapsed = λ t. if t == 0 then 0 else 4000000000000 }

second_pass-Passes : Passes slow_services config "tidy" 100 (world_in created) 99 second_pass
unfolding round transition_to_planning touch checkpoint_session then_do inserted_row checkpoint_row
    status_name max_duration
second_pass-Passes = next first (omega arith) refl

drive-well_formed_example :
    Stored slow_services second_pass
    × (well_formed second_pass.session ≡ true)
    × After
        (λ _ w'. Stored slow_services w' × (well_formed w'.session ≡ true))
        (Owned slow_services)
        (drive slow_services config "tidy" (world_in created))
unfolding well_formed is_standing max_iterations
drive-well_formed_example =
    drive-well_formed slow_services config "tidy" (world_in created) 99 second_pass refl refl
      second_pass-Passes

drive-within_limits_example :
    (within_limits config second_pass.session ≡ true)
    × After
        (λ _ w'. within_limits config w'.session ≡ true)
        (Owned slow_services)
        (drive slow_services config "tidy" (world_in created))
unfolding within_limits max_iterations
drive-within_limits_example =
    drive-within_limits slow_services config "tidy" (world_in created) 99 second_pass refl refl
      second_pass-Passes

-- An hour and more has passed at the second pass.
drive_late_example :
    Ends
      (λ _ w'.
        (m : EscalationMessage desk) × (now : ℤ) × (w'.session
          ≡ escalated m now second_pass.session))
      (WriteFailed slow_services config)
      (drive slow_services config "tidy" (world_in created))
unfolding max_duration max_iterations
drive_late_example =
    drive_late slow_services config "tidy" (world_in created) 98 second_pass second_pass-Passes
      (omega arith)

abbrev a_out : List (String × String)
a_out = ("a", "out") ∷ []

abbrev both_out : List (String × String)
both_out = ("a", "out") ∷ ("b", "out") ∷ []

find_next_step-first_example :
    (before : List PlanStep) × (after : List PlanStep) × (two_steps.steps
      ≡ before ++ step_of "b" ("a" ∷ []) ∷ after)
    × All (NotReady a_out) before
    × (has_output a_out "b" ≡ false)
    × (all (has_output a_out) ("a" ∷ []) ≡ true)
unfolding find_next_step find_step is_runnable lookup String_discrete
find_next_step-first_example = find_next_step-first a_out two_steps (step_of "b" ("a" ∷ [])) refl

abbrev order_of : String → ℕ
order_of id = if str_eq id "a" then 0 else 1

find_next_step-all_steps_complete_example : all_steps_complete two_steps both_out ≡ true
unfolding find_next_step find_step is_runnable lookup String_discrete step_ids
find_next_step-all_steps_complete_example =
    find_next_step-all_steps_complete both_out order_of two_steps
      (tt, (((refl, omega arith), tt), tt)) refl

-- A step is removed and added anew under its id, and keeps the output that it had.
abbrev anew : PendingPlanModification
anew = record { add_steps = step_of "a" [] ∷ []; remove_step_ids = "a" ∷ []; reason = "" }

lookup-modified_plan_example :
    lookup "a" (remove_all (stale_keys (modified_plan two_steps anew) a_out) a_out) ≡ (
      if (contains (step_ids two_steps) "a" && not (contains (anew.remove_step_ids) "a"))
        || contains (map (λ s. s.id) anew.add_steps) "a"
      then lookup "a" a_out
      else none)
lookup-modified_plan_example = lookup-modified_plan two_steps anew a_out "a"

-- So it is not run again.
find_next_step-anew :
    find_next_step (modified_plan two_steps anew) a_out ≡ some (step_of "b" ("a" ∷ []))
unfolding modified_plan find_next_step find_step is_runnable lookup String_discrete
find_next_step-anew = refl

handle_response-Answered_example :
    After
      (Answered services (some "replan") (session_in waiting_for_human))
      (Owned services)
      (handle_response services "try again" (some "replan") (world_in waiting_for_human))
unfolding is_paused
handle_response-Answered_example =
    handle_response-Answered services "try again" (some "replan") (world_in waiting_for_human) refl
      refl

parse_session_row-checkpoint_row_example :
    parse_session_row paper
      (checkpoint_row paper (session_in executing) (inserted_row paper (session_in created)))
    ≡ ok (without_transient (session_in executing))
unfolding inserted_row
parse_session_row-checkpoint_row_example =
    parse_session_row-checkpoint_row paper (session_in executing)
      (inserted_row paper (session_in created)) (refl, refl, refl, refl, refl, refl)
      (record {
        outputs = refl;
        trigger = unfold Option.bind in refl;
        plan = unfold Option.bind in refl;
        escalation = unfold Option.bind in refl;
        feedback = unfold Option.bind in refl;
      })
      (omega arith) (omega arith)
