-- ===== src/Workflow/Step.antt =====
-- The execution of one step with its retries (`Orchestrator::execute_step`,
-- `execute_step_standalone`, `resolve_inputs` and the two functions of the backoff in
-- src/services/workflow/orchestrator.rs). The agents, the Mentor store, the clock and fresh
-- identifiers are the parameter `Outside`; what the code does to them is a list of `Effect`s.
pub mod Retries
pub mod Backoff
use mathlib.Core.Option
use mathlib.Core.Option.{get_or}
use Prim.Native.Nat.{min}
use botto.Prelude.{
  String, ℕ, zero, suc, ◌+◌, ◌-◌, ◌*◌, ◌^◌, ◌≡◌, Bool, true, false, List, [], ◌∷◌, ◌++◌, map,
  length, Option, none, some, string_key, if◌then◌else◌, ◌==◌, ltb, ◌<>◌, decimal,
}
use botto.Prelude.Maps.{lookup, insert}
use botto.Workflow.Types.{
  Host, BackoffStrategy, fixed, exponential, RetryPolicy, AgentType, agent_type_name, AgentStatus,
  success, failure, partial, MentorEntry, MentorInteraction, MentorQueryResult, StepInput, static,
  step_output, mentor_query, WorkflowStep, StepState, pending, running, completed, failed, skipped,
  AgentResult, WorkflowRun,
}

-- What the code does to the world besides changing the run.
pub data Effect (H : Host) : Type 0 where
  checkpointed : (run : WorkflowRun H) → Effect H
  checkpointed_terminal : (run : WorkflowRun H) → Effect H
  run_started : (id : H.Uuid) → Effect H
  run_completed : (id : H.Uuid) → Effect H
  step_started : (step_id : String) → Effect H
  step_completed : (step_id : String) (duration_secs : H.Float) → Effect H
  step_failed : (step_id error : String) (retries : ℕ) → Effect H
  remembered : (workflow_id : H.Uuid) (step_id : String) (entry : MentorEntry) → Effect H
  slept : (secs : ℕ) → Effect H

-- The run and the effects so far, the last one first.
pub record Exec (H : Host) : Type 0 where
  pub run : WorkflowRun H
  pub log : List (Effect H)

-- What a wave of the walk meets: whether an agent can be created for a step, which is tried once in
-- each wave that runs it, what the agent answers to an attempt (`none`: it timed out), what the Mentor
-- answers (`none`: an error), whether a spawned task panics.
pub record Outside (H : Host) : Type 0 where
  pub available : (wave : ℕ) → WorkflowStep H → Bool
  pub execute :
      (wave attempt timeout : ℕ) → WorkflowStep H → List (String × H.Value) → Option (AgentResult H)
  pub query : (wave : ℕ) (question : String) (limit : ℕ) → Option (List (MentorQueryResult H))
  pub panics : (wave : ℕ) → WorkflowStep H → Bool
  pub now : (wave : ℕ) → H.DateTime
  pub new_id : (wave : ℕ) → WorkflowStep H → H.Uuid

abbrev pub u64_max : ℕ
u64_max = 2 ^ 64 - 1

abbrev pub saturating_mul : ℕ → ℕ → ℕ
saturating_mul a b = min (a * b) u64_max

abbrev pub saturating_pow : ℕ → ℕ → ℕ
saturating_pow a n = min (a ^ n) u64_max

-- In seconds; `attempt` is at least 1 where it is called.
unfoldable pub compute_backoff : RetryPolicy → ℕ → ℕ
compute_backoff policy attempt = elim policy.backoff [
  | fixed delay_secs ↦ delay_secs
  | exponential base_secs max_secs ↦
      let delay = saturating_mul base_secs (saturating_pow 2 (attempt - 1)) in min delay max_secs
]

-- The copy of it for spawned tasks.
unfoldable pub compute_backoff_static : RetryPolicy → ℕ → ℕ
compute_backoff_static policy attempt = elim policy.backoff [
  | fixed delay_secs ↦ delay_secs
  | exponential base_secs max_secs ↦
      let delay = saturating_mul base_secs (saturating_pow 2 (attempt - 1)) in min delay max_secs
]

module _ {H : Host} where
  open H use {Value, Float, get, as_str, error_object, from_u64}

  abbrev error_text : String → Option (AgentResult H) → String
  error_text default last =
      get_or (Option.bind (Option.bind last (λ r. get r.output "error")) as_str) default

  abbrev last_duration : Option (AgentResult H) → Float
  last_duration none = H.zero
  last_duration (some r) = r.duration_secs

  -- The result that stands for a timeout.
  abbrev pub timed_out : ℕ → AgentResult H
  timed_out timeout = record {
    status = failure;
    output = error_object "step timed out";
    duration_secs = from_u64 timeout;
    learnings = [];
  }

  abbrev pub effective_timeout : ℕ → WorkflowStep H → ℕ
  effective_timeout default_timeout step =
      if ltb 0 step.timeout_secs then step.timeout_secs else default_timeout

  no_agent : WorkflowStep H → StepState H
  no_agent step =
      failed ("no agent available for type '" <> agent_type_name step.agent_type <> "'") 0 H.zero

  exhausted : ℕ → Option (AgentResult H) → StepState H
  exhausted retries last =
      failed (error_text "step failed after all retries" last) retries (last_duration last)

  recovery_question : WorkflowStep H → ℕ → Option (AgentResult H) → String
  recovery_question step attempt last =
      "Step '"
      <> step.id
      <> "' (type: "
      <> agent_type_name step.agent_type
      <> ") failed with error: "
      <> error_text "unknown error" last
      <> ". This is retry attempt "
      <> decimal attempt
      <> " of "
      <> decimal step.retry_policy.max_retries
      <> ". What recovery strategies should be tried?"

  abbrev pub remember :
      H.Uuid → WorkflowStep H → List MentorEntry → List (Effect H) → List (Effect H)
  remember workflow_id step [] log = log
  remember workflow_id step (entry ∷ learnings) log =
      remember workflow_id step learnings (remembered workflow_id step.id entry ∷ log)

  abbrev pub set_state : String → StepState H → Exec H → Exec H
  set_state id state ex = record ex {
    run = record (ex.run) { step_states = insert id state ex.run.step_states };
  }

  -- `self.mentor.query(..)` before a retry; an answer with results is noted in the run.
  consult : Outside H → ℕ → WorkflowStep H → ℕ → Option (AgentResult H) → Exec H → Exec H
  consult env wave step attempt last ex =
      let question = recovery_question step attempt last in
      elim (env.query wave question 3) [
        | none ↦ ex
        | some [] ↦ ex
        | some (r ∷ results) ↦ record ex {
          run = record (ex.run) {
            mentor_queries =
                ex.run.mentor_queries
                ++ record {
                  step_id = step.id;
                  question = question;
                  results_count = length (r ∷ results);
                  queried_at = env.now wave;
                }
                  ∷ [];
          };
        }
      ]

  before_retry : Outside H → ℕ → WorkflowStep H → ℕ → Option (AgentResult H) → Exec H → Exec H
  unfolding consult
  before_retry env wave step attempt last ex =
      let ex' =
        if step.retry_policy.consult_mentor_on_failure
        then consult env wave step attempt last ex
        else ex in
      record ex' { log = slept (compute_backoff step.retry_policy attempt) ∷ ex'.log }

  complete : WorkflowStep H → AgentResult H → Exec H → Exec H
  complete step r ex = set_state step.id (completed r.output r.duration_secs) ex

  learn : WorkflowStep H → AgentResult H → Exec H → Exec H
  learn step r ex = record ex { log = remember ex.run.workflow_id step r.learnings ex.log }

  -- The loop `for attempt in 0..=max_retries`, with the rounds that are left.
  attempts :
      Outside H
      → (wave timeout : ℕ) → WorkflowStep H
      → List (String × Value)
      → (left attempt : ℕ) → Option (AgentResult H)
      → (retries : ℕ) → Exec H
      → Exec H
  unfolding before_retry complete learn exhausted
  attempts env wave timeout step inputs zero attempt last retries ex =
      set_state step.id (exhausted retries last) ex
  attempts env wave timeout step inputs (suc left) attempt last retries ex =
      let ex' = if attempt == 0 then ex else before_retry env wave step attempt last ex in
      let retries' = if attempt == 0 then retries else attempt in
      elim (env.execute wave attempt timeout step inputs) [
        | none ↦
            attempts env wave timeout step inputs left (attempt + 1) (some (timed_out timeout))
              retries' ex'
        | some r ↦ elim (r.status) [
          | failure ↦
              attempts env wave timeout step inputs left (attempt + 1) (some r) retries'
                (learn step r ex')
          | _ ↦ complete step r (learn step r ex')
        ]
      ]

  -- Runs a step in place.
  unfoldable pub execute_step :
      Outside H
      → (default_timeout wave : ℕ) → WorkflowStep H
      → List (String × Value)
      → Exec H
      → Exec H
  unfolding attempts no_agent recovery_question
  execute_step env default_timeout wave step inputs ex =
      let ex' = set_state step.id (running (env.new_id wave step) (env.now wave)) ex in
      if env.available wave step
      then attempts env wave (effective_timeout default_timeout step) step inputs
          (suc step.retry_policy.max_retries) 0 none 0 ex'
      else set_state step.id (no_agent step) ex'

  -- The same loop in a spawned task: it has no run to write to, and returns the state.
  attempts_standalone :
      Outside H
      → (wave timeout : ℕ) → WorkflowStep H
      → List (String × Value)
      → H.Uuid
      → (left attempt : ℕ) → Option (AgentResult H)
      → (retries : ℕ) → List (Effect H)
      → StepState H × List (Effect H)
  unfolding exhausted
  attempts_standalone env wave timeout step inputs workflow_id zero attempt last retries log =
      (exhausted retries last, log)
  attempts_standalone env wave timeout step inputs workflow_id (suc left) attempt last retries log =
      let log' =
        if attempt == 0
        then log
        else slept (compute_backoff_static step.retry_policy attempt) ∷ log in
      let retries' = if attempt == 0 then retries else attempt in
      elim (env.execute wave attempt timeout step inputs) [
        | none ↦
            attempts_standalone env wave timeout step inputs workflow_id left (attempt + 1)
              (some (timed_out timeout)) retries' log'
        | some r ↦
            let log'' = remember workflow_id step r.learnings log' in
            elim (r.status) [
              | failure ↦
                  attempts_standalone env wave timeout step inputs workflow_id left (attempt + 1)
                    (some r) retries' log''
              | _ ↦ (completed r.output r.duration_secs, log'')
            ]
      ]

  unfoldable pub execute_step_standalone :
      Outside H
      → (default_timeout wave : ℕ) → WorkflowStep H
      → List (String × Value)
      → H.Uuid
      → List (Effect H)
      → StepState H × List (Effect H)
  unfolding attempts_standalone no_agent
  execute_step_standalone env default_timeout wave step inputs workflow_id log =
      if env.available wave step
      then attempts_standalone env wave (effective_timeout default_timeout step) step inputs
          workflow_id (suc step.retry_policy.max_retries) 0 none 0 log
      else (no_agent step, log)

  -- The value of one input.
  resolve_input : Outside H → ℕ → List (String × StepState H) → StepInput H → Value
  resolve_input env wave states (static value) = value
  resolve_input env wave states (step_output step_id field) = elim (lookup step_id states) [
    | some (completed output duration) ↦ get_or (get output field) H.null
    | _ ↦ H.null
  ]
  resolve_input env wave states (mentor_query question) = elim (env.query wave question 5) [
    | none ↦ H.array []
    | some results ↦ H.array (map (λ r. H.entry_object r.content r.category r.confidence) results)
  ]

  unfoldable pub resolve_inputs :
      Outside H → ℕ → WorkflowStep H → List (String × StepState H) → List (String × Value)
  unfolding resolve_input
  resolve_inputs env wave step states =
      map (λ (key, input). (key, resolve_input env wave states input)) step.inputs
