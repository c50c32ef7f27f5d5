-- ===== src/Workflow/Step/Retries.antt =====
-- What the retry loop of a step does: how often it asks the agent, and with what result; and its
-- copy for spawned tasks.
use native.Mathlib.Decide.{ℕ_discrete}
use botto.Prelude.{
  string_key, String_discrete, ite, ◌∙◌, String, ℕ, zero, suc, ◌+◌, ◌-◌, ◌<◌, ◌≤◌, ◌≡◌, ◌≢◌, refl,
  List, ◌∷◌, Option, none, some, Option-cases, inl, inr, ◌⊎◌, arith, Bool-cases, true,
  if◌then◌else◌, ◌==◌, sym, ap, subst,
}
use botto.Prelude.Maps.{lookup, insert, lookup-insert}
use botto.Workflow.Types.{
  Host, WorkflowStep, StepState, running, completed, failed, AgentResult, AgentStatus, success,
  failure, partial,
}
use botto.Workflow.Step.{
  Outside, Exec, Effect, attempts, attempts_standalone, execute_step, execute_step_standalone,
  set_state, slept, error_text, last_duration, effective_timeout, timed_out, before_retry, consult,
  learn, complete, exhausted, remember, compute_backoff_static, no_agent,
}

AgentStatus-cases : (s : AgentStatus) → (s ≡ failure) ⊎ (s ≢ failure)
AgentStatus-cases failure = inl refl
AgentStatus-cases success = inr (λ e. cc)
AgentStatus-cases partial = inr (λ e. cc)

usable_or_failure : (s : AgentStatus) → (s ≡ failure) ⊎ ((s ≡ success) ⊎ (s ≡ partial))
usable_or_failure failure = inl refl
usable_or_failure success = inr (inl refl)
usable_or_failure partial = inr (inr refl)

insert_twice :
    {V : Type 0} (k j : String) (v w : V) (m : List (String × V))
    → lookup j (insert k v (insert k w m)) ≡ ite (String_discrete k j) (some v) (lookup j m)
insert_twice k j v w m = ground (arith, lookup-insert k j v (insert k w m), lookup-insert k j w m)

module _ {H : Host} (env : Outside H) (wave timeout : ℕ) (step : WorkflowStep H)
    (inputs : List (String × H.Value)) where
  -- The agent fails attempt k, or does not answer in time.
  abbrev pub Fails : ℕ → Type 0
  Fails k =
      (env.execute wave k timeout step inputs ≡ none)
      ⊎ ((r : AgentResult H) × (env.execute wave k timeout step inputs ≡ some r)
          × (r.status ≡ failure))

  -- Of the attempts from `first` on, below `end`: the first that does not fail decides, and if all
  -- fail the step does, with the number of the last attempt as its count of retries.
  pub data Settles (first end : ℕ) (state : StepState H) : Type 0 where
    succeeded :
        (k : ℕ) (r : AgentResult H)
        → first ≤ k
        → k < end
        → ((j : ℕ) → first ≤ j → j < k → Fails j)
        → env.execute wave k timeout step inputs ≡ some r
        → r.status ≢ failure
        → state ≡ completed r.output r.duration_secs
        → Settles first end state
    gave_up :
        (error : String) (duration : H.Float)
        → ((j : ℕ) → first ≤ j → j < end → Fails j)
        → state ≡ failed error (end - 1) duration
        → Settles first end state

  from_first : (first j : ℕ) → Fails first → first ≤ j → (first + 1 ≤ j → Fails j) → Fails j
  from_first first j f low later = elim (ℕ_discrete j first) [
    | yes same ↦ subst Fails (sym same) f
    | no other ↦ later (omega arith)
  ]

  Settles-later :
      (first end : ℕ) {state : StepState H}
      → Fails first
      → Settles (first + 1) end state
      → Settles first end state
  Settles-later first end f (succeeded k r low high fails found good e) =
      succeeded k r (omega arith) high
        (λ j low' h. from_first first j f low' (λ low''. fails j low'' h)) found good e
  Settles-later first end f (gave_up error duration fails e) =
      gave_up error duration (λ j low h. from_first first j f low (λ low'. fails j low' h)) e

  attempts_standalone-Settles :
      (workflow_id : H.Uuid) (left attempt : ℕ) (last : Option (AgentResult H)) (retries : ℕ)
      (log : List (Effect H))
      → retries ≡ attempt - 1
      → Settles attempt
          (attempt + left)
          (attempts_standalone env wave timeout step inputs workflow_id left attempt last retries
            log).0
  unfolding attempts_standalone exhausted
  attempts_standalone-Settles workflow_id zero attempt last retries log h =
      let text = error_text "step failed after all retries" last in
      gave_up text (last_duration last) (λ j low high. absurd (omega arith))
        (ap (λ n. failed text n (last_duration last)) (omega arith))
  attempts_standalone-Settles workflow_id (suc left) attempt last retries log h =
      let log' =
        if attempt == 0
        then log
        else slept (compute_backoff_static step.retry_policy attempt) ∷ log in
      let retries' : ℕ = if attempt == 0 then retries else attempt in
      let next : attempt + 1 + left ≡ attempt + suc left = omega arith in
      elim (Option-cases (env.execute wave attempt timeout step inputs)) [
        | inl late ↦
            rw (late, attempts_standalone)
              (Settles-later attempt (attempt + suc left) (inl late) (
                rw (← next) (
                  attempts_standalone-Settles workflow_id left (attempt + 1)
                    (some (timed_out timeout)) retries' log' (ground arith))))
        | inr (r, found) ↦ elim (AgentStatus-cases r.status) [
          | inl bad ↦
              rw (found, attempts_standalone)
                (rw (bad, attempts_standalone)
                  (Settles-later attempt (attempt + suc left) (inr (r, found, bad)) (
                    rw (← next) (
                      attempts_standalone-Settles workflow_id left (attempt + 1) (some r) retries'
                        (remember workflow_id step r.learnings log') (ground arith)))))
          | inr good ↦
              succeeded attempt r (omega arith) (omega arith) (λ j low high. absurd (omega arith))
                found good (ground arith)
        ]
      ]

  abbrev waited : (attempt : ℕ) → Option (AgentResult H) → Exec H → Exec H
  waited attempt last ex = if attempt == 0 then ex else before_retry env wave step attempt last ex

  abbrev logged : (attempt : ℕ) → List (Effect H) → List (Effect H)
  logged attempt log =
      if attempt == 0 then log else slept (compute_backoff_static step.retry_policy attempt) ∷ log

  -- Waiting for a retry leaves the states of the steps alone.
  waited-states :
      (attempt : ℕ) (last : Option (AgentResult H)) (ex : Exec H)
      → (waited attempt last ex).run.step_states ≡ ex.run.step_states
  unfolding before_retry consult
  waited-states attempt last ex = ground arith

  -- The loop in place and the one in a spawned task leave the same state for the step.
  attempts-states :
      (left attempt : ℕ) (last : Option (AgentResult H)) (retries : ℕ) (ex : Exec H)
      (workflow_id : H.Uuid) (log : List (Effect H))
      → (attempts env wave timeout step inputs left attempt last retries ex).run.step_states
        ≡ insert step.id
            (attempts_standalone env wave timeout step inputs workflow_id left attempt last retries
              log).0
            ex.run.step_states
  unfolding attempts attempts_standalone complete learn
  attempts-states zero attempt last retries ex workflow_id log = refl
  attempts-states (suc left) attempt last retries ex workflow_id log =
      let ex' = waited attempt last ex in
      let log' = logged attempt log in
      let retries' : ℕ = if attempt == 0 then retries else attempt in
      let keep =
        λ (state : StepState H). ap (insert step.id state) (waited-states attempt last ex) in
      elim (Option-cases (env.execute wave attempt timeout step inputs)) [
        | inl late ↦
            rw (late, attempts, attempts_standalone)
              (attempts-states left (attempt + 1) (some (timed_out timeout)) retries' ex'
                  workflow_id log'
                ∙ keep _)
        | inr (r, found) ↦
            let log'' = remember workflow_id step r.learnings log' in
            rw (found, attempts, attempts_standalone)
              (elim (usable_or_failure r.status) [
                | inl bad ↦
                    rw (bad, attempts, attempts_standalone)
                      (attempts-states left (attempt + 1) (some r) retries' (learn step r ex')
                          workflow_id log''
                        ∙ keep _)
                | inr (inl good) ↦ rw (good, attempts, attempts_standalone) (keep _)
                | inr (inr good) ↦ rw (good, attempts, attempts_standalone) (keep _)
              ])
      ]

module _ {H : Host} (env : Outside H) (wave timeout : ℕ) (step : WorkflowStep H)
    (inputs : List (String × H.Value)) where
  before-status :
      (attempt : ℕ) (last : Option (AgentResult H)) (ex : Exec H)
      → (waited env wave timeout step inputs attempt last ex).run.status ≡ ex.run.status
  unfolding before_retry consult
  before-status attempt last ex = ground arith

  attempts-status :
      (left attempt : ℕ) (last : Option (AgentResult H)) (retries : ℕ) (ex : Exec H)
      → (attempts env wave timeout step inputs left attempt last retries ex).run.status
        ≡ ex.run.status
  unfolding attempts complete learn
  attempts-status zero attempt last retries ex = refl
  attempts-status (suc left) attempt last retries ex =
      let ex' = waited env wave timeout step inputs attempt last ex in
      let keep = before-status attempt last ex in
      let retries' : ℕ = if attempt == 0 then retries else attempt in
      elim (Option-cases (env.execute wave attempt timeout step inputs)) [
        | inl late ↦
            rw (late, attempts)
              (attempts-status left (attempt + 1) (some (timed_out timeout)) retries' ex' ∙ keep)
        | inr (r, found) ↦
            rw (found, attempts)
              (elim (usable_or_failure r.status) [
                | inl bad ↦
                    rw (bad, attempts)
                      (attempts-status left (attempt + 1) (some r) retries' (learn step r ex')
                        ∙ keep)
                | inr (inl good) ↦ rw (good, attempts) keep
                | inr (inr good) ↦ rw (good, attempts) keep
              ])
      ]

module _ {H : Host} (env : Outside H) (default_timeout wave : ℕ) (step : WorkflowStep H)
    (inputs : List (String × H.Value)) where
  abbrev timeout : ℕ
  timeout = effective_timeout default_timeout step

  -- If an agent can be created, it is asked at most max_retries + 1 times, in order: the first
  -- attempt that it does not fail in time completes the step with the answer's output and duration,
  -- and if it fails all, the step fails with max_retries as its number of retries.
  pub execute_step_standalone-Settles :
      (workflow_id : H.Uuid) (log : List (Effect H))
      → env.available wave step ≡ true
      → Settles env wave timeout step inputs 0
          (suc step.retry_policy.max_retries)
          (execute_step_standalone env default_timeout wave step inputs workflow_id log).0
  unfolding execute_step_standalone
  execute_step_standalone-Settles workflow_id log h =
      let result =
        attempts_standalone env wave timeout step inputs workflow_id
          (suc step.retry_policy.max_retries) 0 none 0 log in
      rw (h, execute_step_standalone)
        (subst (λ end. Settles env wave timeout step inputs 0 end result.0) (omega arith)
          (attempts_standalone-Settles env wave timeout step inputs workflow_id
            (suc step.retry_policy.max_retries) 0 none 0 log refl))

  -- Run in place or in a spawned task, a step ends in the same state, and no other step's state
  -- changes.
  pub execute_step-standalone :
      (ex : Exec H) (workflow_id : H.Uuid) (log : List (Effect H)) (id : String)
      → lookup id (execute_step env default_timeout wave step inputs ex).run.step_states
        ≡ ite
            (String_discrete step.id id)
            (some (execute_step_standalone env default_timeout wave step inputs workflow_id log).0)
            (lookup id ex.run.step_states)
  unfolding execute_step execute_step_standalone
  execute_step-standalone ex workflow_id log id = elim (Bool-cases (env.available wave step)) [
    | inl there ↦
        let ex' = set_state step.id (running (env.new_id wave step) (env.now wave)) ex in
        let state =
          (attempts_standalone env wave timeout step inputs workflow_id
            (suc step.retry_policy.max_retries) 0 none 0 log).0 in
        rw there (
          ap (lookup id) (
            attempts-states env wave timeout step inputs (suc step.retry_policy.max_retries) 0 none
              0 ex' workflow_id log)
          ∙ insert_twice step.id id state _ ex.run.step_states)
    | inr absent ↦ rw absent (insert_twice step.id id (no_agent step) _ ex.run.step_states)
  ]

  -- The status of the run is no matter of a step.
  pub execute_step-status :
      (ex : Exec H)
      → (execute_step env default_timeout wave step inputs ex).run.status ≡ ex.run.status
  unfolding execute_step
  execute_step-status ex = elim (Bool-cases (env.available wave step)) [
    | inl there ↦ rw there (
        attempts-status env wave timeout step inputs (suc step.retry_policy.max_retries) 0 none 0
          (set_state step.id (running (env.new_id wave step) (env.now wave)) ex))
    | inr absent ↦ rw absent refl
  ]
