-- ===== src/Workflow/Walk/Soundness.antt =====
-- Soundness: what the states of the steps say of each other in the orchestrator's runs.
use botto.Prelude.{
  String, ◌≡◌, sym, List, [], ◌∷◌, contains, string_key, String_discrete, arith, All, All-map, true,
  Option, some, none, subst,
}
use botto.Prelude.Maps.{lookup, insert, lookup-insert}
use botto.Workflow.Types.{
  Host, WorkflowStep, StepState, pending, running, completed, failed, skipped,
}
use botto.Workflow.Walk.{States, is_pending, is_completed, is_blocked}
use botto.Workflow.Walk.Distinct.{IsOnly}

module _ {H : Host} where
  abbrev pub AllCompleted : States H → List String → Type 0
  AllCompleted states deps = All (λ dep. is_completed (lookup dep states) ≡ true) deps

  abbrev pub SomeBlocked : States H → List String → Type 0
  SomeBlocked states deps =
      (dep : String) × (contains deps dep ≡ true) × (is_blocked (lookup dep states) ≡ true)

  -- Between two waves no step is running.
  abbrev pub StateSound : States H → List String → Option (StepState H) → Type 0
  StateSound states deps none = ⊥
  StateSound states deps (some pending) = Unit
  StateSound states deps (some (running agent_id started_at)) = ⊥
  StateSound states deps (some (completed output duration)) = AllCompleted states deps
  StateSound states deps (some (failed error retries duration)) = AllCompleted states deps
  StateSound states deps (some (skipped reason)) = SomeBlocked states deps

  abbrev pub Sound : List (WorkflowStep H) → States H → Type 0
  Sound steps states = All (λ s. StateSound states s.depends_on (lookup s.id states)) steps

  abbrev pub DidRun : StepState H → Type 0
  DidRun (completed output duration) = Unit
  DidRun (failed error retries duration) = Unit
  DidRun _ = ⊥

  -- What is settled stays so in later states.
  abbrev pub Keeps : States H → States H → Type 0
  Keeps states states' =
      (dep : String)
      → (is_completed (lookup dep states) ≡ true → is_completed (lookup dep states') ≡ true)
        × (is_blocked (lookup dep states) ≡ true → is_blocked (lookup dep states') ≡ true)

  pub AllCompleted-Keeps :
      (states states' : States H) (deps : List String)
      → Keeps states states'
      → AllCompleted states deps
      → AllCompleted states' deps
  AllCompleted-Keeps states states' deps keep = All-map _ _ (λ dep h. (keep dep).0 h) deps

  StateSound-Keeps :
      (states states' : States H) (deps : List String) (o : Option (StepState H))
      → Keeps states states'
      → StateSound states deps o
      → StateSound states' deps o
  StateSound-Keeps states states' deps none keep h = h
  StateSound-Keeps states states' deps (some pending) keep h = tt
  StateSound-Keeps states states' deps (some (running agent_id started_at)) keep h = h
  StateSound-Keeps states states' deps (some (completed output duration)) keep h =
      AllCompleted-Keeps states states' deps keep h
  StateSound-Keeps states states' deps (some (failed error retries duration)) keep h =
      AllCompleted-Keeps states states' deps keep h
  StateSound-Keeps states states' deps (some (skipped reason)) keep (dep, listed, blocked) =
      (dep, listed, (keep dep).1 blocked)

  pub run-StateSound :
      (states : States H) (deps : List String) (state : StepState H)
      → DidRun state
      → AllCompleted states deps
      → StateSound states deps (some state)
  run-StateSound states deps (completed output duration) r h = h
  run-StateSound states deps (failed error retries duration) r h = h
  run-StateSound states deps (skipped reason) r h = elim r [ ]
  run-StateSound states deps pending r h = tt
  run-StateSound states deps (running agent_id started_at) r h = r

  pub insert-Keeps :
      (id : String) (state : StepState H) (states : States H)
      → is_pending (lookup id states) ≡ true
      → Keeps states (insert id state states)
  insert-Keeps id state states h dep = (
    λ c. ground (arith, lookup-insert id dep state states),
    λ c. ground (arith, lookup-insert id dep state states),
  )

  -- A pending step gets a state that fits its dependencies.
  pub insert-Sound :
      (steps : List (WorkflowStep H)) (step : WorkflowStep H) (state : StepState H)
      (states : States H)
      → IsOnly steps step
      → is_pending (lookup step.id states) ≡ true
      → StateSound states step.depends_on (some state)
      → Sound steps states
      → Sound steps (insert step.id state states)
  insert-Sound [] step state states only h fits sound = tt
  insert-Sound (s ∷ steps) step state states only h fits sound =
      (here, insert-Sound steps step state states only.1 h fits sound.1)
    where
      later : States H
      later = insert step.id state states

      keep : Keeps states (insert step.id state states)
      keep = insert-Keeps step.id state states h

      here :
          StateSound
            (insert step.id state states)
            s.depends_on
            (lookup s.id (insert step.id state states))
      here = elim (String_discrete step.id s.id) [
        | yes same ↦
            let whole : s ≡ step = only.0 (sym same) in
            let found : some state ≡ lookup s.id later =
              ground (arith, lookup-insert step.id s.id state states) in
            subst (StateSound later s.depends_on) found (
              StateSound-Keeps states later s.depends_on (some state) keep
                (subst (λ t. StateSound states t.depends_on (some state)) (sym whole) fits))
        | no other ↦
            let found : lookup s.id states ≡ lookup s.id later =
              ground (arith, lookup-insert step.id s.id state states) in
            subst (StateSound later s.depends_on) found
              (StateSound-Keeps states later s.depends_on (lookup s.id states) keep sound.0)
      ]

  pub Sound-congr :
      (steps : List (WorkflowStep H)) (states states' : States H)
      → ((id : String) → lookup id states ≡ lookup id states')
      → Sound steps states
      → Sound steps states'
  Sound-congr steps states states' same =
      All-map _ _
        (λ s h. subst (StateSound states' s.depends_on) (same s.id) (
          StateSound-Keeps states states' s.depends_on (lookup s.id states)
            (λ dep. (λ c. rw (← same dep) c, λ c. rw (← same dep) c)) h))
        steps
