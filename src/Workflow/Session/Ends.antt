-- ===== src/Workflow/Session/Ends.antt =====
-- How a claim on the error of an action of src/services/workflow/session.rs is proved of its steps: a
-- postcondition for its result, and one for its error and what it leaves.
use botto.Prelude.{
  String, ℕ, Bool, true, false, some, Result, ok, err, List, Option, none, ◌≡◌, refl, Option-cases,
  inl, inr,
}
use botto.Prelude.Int.{ℤ}
use botto.Workflow.Types.{Host}
use botto.Workflow.Session.Types.{TraceEventType}
use botto.Workflow.Session.World.{
  Services, World, Act, then_do, insert_effect, on_option, branch, touch, append_trace, Effect,
}

-- The result satisfies `Q`, or the error and the world that it leaves satisfy `R`.
pub data Ends {H : Host} {E A : Type 0} (Q : A → World H → Type 0) (R : E → World H → Type 0)
    : Result E A × World H → Type 0 where
  returns : {a : A} {w : World H} → Q a w → Ends Q R (ok a, w)
  raises : {e : E} {w : World H} → R e w → Ends Q R (err e, w)

pub Ends-bind :
    {H : Host} {E A B : Type 0} {Q : B → World H → Type 0} {R : E → World H → Type 0}
    {f : A → Act H E B} {r : Result E A × World H}
    → Ends (λ a w. Ends Q R (f a w)) R r
    → Ends Q R (then_do r f)
unfolding then_do
Ends-bind (returns q) = q
Ends-bind (raises r) = raises r

pub Ends-mono :
    {H : Host} {E A : Type 0} {Q Q' : A → World H → Type 0} {R : E → World H → Type 0}
    {r : Result E A × World H}
    → ((a : A) (w : World H) → Q a w → Q' a w)
    → Ends Q R r
    → Ends Q' R r
Ends-mono f (returns q) = returns (f _ _ q)
Ends-mono f (raises r) = raises r

module _ {H : Host} {E A : Type 0} {Q : A → World H → Type 0} {R : E → World H → Type 0} where
  pub branch-Ends :
      (f g : Act H E A) (w : World H) (b : Bool)
      → (b ≡ true → Ends Q R (f w))
      → (b ≡ false → Ends Q R (g w))
      → Ends Q R (branch b f g w)
  branch-Ends f g w true left right = unfold branch in left refl
  branch-Ends f g w false left right = unfold branch in right refl

  pub on_option-Ends :
      {B : Type 0} (f : Act H E A) (g : B → Act H E A) (w : World H) (o : Option B)
      → (o ≡ none → Ends Q R (f w))
      → ((b : B) → o ≡ some b → Ends Q R (g b w))
      → Ends Q R (on_option o f g w)
  on_option-Ends f g w none left right = unfold on_option in left refl
  on_option-Ends f g w (some b) left right = unfold on_option in right b refl

module _ {H : Host} (S : Services H) where
  pub touch-Ends :
      {Q : Unit {0} → World H → Type 0} {R : S.Error → World H → Type 0} (w : World H)
      → ((now : ℤ) (tick : ℕ)
          → Q tt (record w { session = record (w.session) { updated_at = now }; tick = tick }))
      → Ends Q R (touch S w)
  unfolding touch
  touch-Ends w q = Ends-bind (returns (returns (q _ _)))

  pub append_trace-Ends :
      {Q : Unit {0} → World H → Type 0} {R : S.Error → World H → Type 0} (t : TraceEventType)
      (step_id error : Option String) (w : World H)
      → ((sent : List Effect) (tick : ℕ) → Q tt (record w { sent = sent; tick = tick }))
      → Ends Q R (append_trace S t step_id error w)
  unfolding append_trace insert_effect then_do
  append_trace-Ends t step_id error w q = elim (Option-cases (S.write w.tick)) [
    | inl written ↦ rw (written, append_trace, insert_effect, then_do) (returns (q _ _))
    | inr broken ↦ rw (broken.1, append_trace, insert_effect, then_do) (returns (q _ _))
  ]
