-- ===== src/Workflow/Walk/Distinct.antt =====
-- Steps whose ids differ.
use botto.Prelude.{
  String, ◌≤◌, ◌≡◌, ◌≢◌, refl, sym, List, [], ◌∷◌, count, string_key, arith, All, All-map,
  All-retain, retain, Bool, true, false, if◌then◌else◌,
}
use botto.Workflow.Types.{Host, WorkflowStep}
use botto.Workflow.Dag.{ids}

module _ {H : Host} where
  -- No other step has the id of `s`.
  abbrev pub Apart : List (WorkflowStep H) → Type 0
  Apart [] = Unit
  Apart (s ∷ steps) = All (λ t. t.id ≢ s.id) steps × Apart steps

  -- The step is the only one with its id.
  abbrev pub IsOnly : List (WorkflowStep H) → WorkflowStep H → Type 0
  IsOnly steps s = All (λ t. t.id ≡ s.id → t ≡ s) steps

  absent :
      (x : String) (steps : List (WorkflowStep H))
      → count x (ids steps) ≡ 0
      → All (λ t. t.id ≢ x) steps
  absent x [] h = tt
  absent x (s ∷ steps) h = (λ e. ground arith, absent x steps (ground arith))

  pub count-Apart :
      (steps : List (WorkflowStep H)) → ((x : String) → count x (ids steps) ≤ 1) → Apart steps
  count-Apart [] h = tt
  count-Apart (s ∷ steps) h =
      (absent s.id steps (ground (arith, h s.id)), count-Apart steps (λ x. ground (arith, h x)))

  pub Apart-retain :
      (p : WorkflowStep H → Bool) (steps : List (WorkflowStep H))
      → Apart steps
      → Apart (retain p steps)
  Apart-retain p [] h = tt
  Apart-retain p (s ∷ steps) h =
      elim (p s) as (λ b. Apart (if b then s ∷ retain p steps else retain p steps)) [
        | true ↦ (All-retain _ p steps h.0, Apart-retain p steps h.1)
        | false ↦ Apart-retain p steps h.1
      ]

  pub each_IsOnly : (steps : List (WorkflowStep H)) → Apart steps → All (IsOnly steps) steps
  each_IsOnly [] h = tt
  each_IsOnly (s ∷ steps) h = (
    (λ e. refl, All-map _ _ (λ t ne e. absurd (ne e)) steps h.0),
    All-map2 s steps steps h.0 (each_IsOnly steps h.1),
  )
    where
      All-map2 :
          (s : WorkflowStep H) (all rest : List (WorkflowStep H))
          → All (λ t. t.id ≢ s.id) rest
          → All (IsOnly all) rest
          → All (IsOnly (s ∷ all)) rest
      All-map2 s all [] ne only = tt
      All-map2 s all (t ∷ rest) ne only =
          ((λ e. absurd (ne.0 (sym e)), only.0), All-map2 s all rest ne.1 only.1)
