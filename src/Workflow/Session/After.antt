-- ===== src/Workflow/Session/After.antt =====
-- How a claim on what an action leaves is proved of its steps: a postcondition for its result, and
-- one for its failure.
use botto.Prelude.{
  String, ℕ, suc, Bool, true, false, List, [], ◌∷◌, Option, none, some, Result, ok, err, ◌≡◌, refl,
  Option-cases, inl, inr,
}
use botto.Prelude.Int.{ℤ}
use botto.Workflow.Types.{Host}
use botto.Workflow.Session.Types.{SessionState, EscalationMessage, MessageDirection, TraceEventType}
use botto.Workflow.Session.Stored.{Row, IsRowOf, inserted_row, checkpoint_row-inserted_row}
use botto.Workflow.Session.World.{
  Services, World, Act, Effect, then_do, lift, lift_context, ok_or, branch, on_option, on_result,
  published, session_escalation, checkpoint_session, insert_effect, append_trace,
  add_session_message, touch,
}
use botto.Workflow.Session.Escalation.{escalate, escalated}

-- The result satisfies `Q`, or the failure leaves a world that satisfies `R`.
pub data After {H : Host} {E A : Type 0} (Q : A → World H → Type 0) (R : World H → Type 0)
    : Result E A × World H → Type 0 where
  returns : {a : A} {w : World H} → Q a w → After Q R (ok a, w)
  raises : {e : E} {w : World H} → R w → After Q R (err e, w)

pub After-bind :
    {H : Host} {E A B : Type 0} {Q : B → World H → Type 0} {R : World H → Type 0}
    {f : A → Act H E B} {r : Result E A × World H}
    → After (λ a w. After Q R (f a w)) R r
    → After Q R (then_do r f)
unfolding then_do
After-bind (returns q) = q
After-bind (raises r) = raises r

module _ {H : Host} (S : Services H) where
  -- The row is the session's, and says what the session was at some time.
  abbrev pub Owned : World H → Type 0
  Owned w = (r : Row) × (w.row ≡ some r) × IsRowOf S.json r w.session

  -- The row says what the session is.
  abbrev pub Stored : World H → Type 0
  Stored w = w.row ≡ some (inserted_row S.json w.session)

  abbrev pub settled : SessionState H → List Effect → ℕ → World H
  settled s sent tick = record {
    session = s;
    row = some (inserted_row S.json s);
    sent = sent;
    tick = tick;
  }

  -- What is stored is the session, of which `P` holds.
  abbrev pub Holds : {A : Type 0} → (SessionState H → Type 0) → A → World H → Type 0
  Holds P a w = Stored w × P w.session

  pub Stored-Owned : (w : World H) → Stored w → Owned w
  Stored-Owned w e = (
    inserted_row S.json w.session,
    e,
    unfold inserted_row in (refl, refl, refl, refl, refl, refl),
  )

  pub settled-Owned : (s : SessionState H) → Owned (settled s [] 0)
  settled-Owned s = Stored-Owned (settled s [] 0) refl

  pub checkpoint_session-After :
      {Q : Unit {0} → World H → Type 0} (w : World H)
      → Owned w
      → ((t : ℕ) → Q tt (settled w.session w.sent t))
      → After Q Owned (checkpoint_session S w)
  unfolding checkpoint_session
  checkpoint_session-After {Q = Q} w owned q = elim (Option-cases (S.write w.tick)) [
    | inl written ↦
        rw
          (
            written,
            checkpoint_session,
            owned.1,
            checkpoint_row-inserted_row S.json owned.0 w.session owned.2,
          )
          (returns (q (suc w.tick)))
    | inr failed ↦ rw (failed.1, checkpoint_session) (raises owned)
  ]

  pub touch-After :
      {Q : Unit {0} → World H → Type 0} {R : World H → Type 0} (w : World H)
      → ((now : ℤ) (tick : ℕ)
          → Q tt (record w { session = record (w.session) { updated_at = now }; tick = tick }))
      → After Q R (touch S w)
  unfolding touch
  touch-After w q = After-bind (returns (returns (q _ _)))

  pub append_trace-After :
      {Q : Unit {0} → World H → Type 0} {R : World H → Type 0} (t : TraceEventType)
      (step_id error : Option String) (w : World H)
      → ((sent : List Effect) (tick : ℕ) → Q tt (record w { sent = sent; tick = tick }))
      → After Q R (append_trace S t step_id error w)
  unfolding append_trace insert_effect then_do
  append_trace-After t step_id error w q = elim (Option-cases (S.write w.tick)) [
    | inl written ↦ rw (written, append_trace, insert_effect, then_do) (returns (q _ _))
    | inr failed ↦ rw (failed.1, append_trace, insert_effect, then_do) (returns (q _ _))
  ]

  pub insert_effect-After :
      {Q : Option S.Error → World H → Type 0} {R : World H → Type 0} (e : Effect) (w : World H)
      → ((failure : Option S.Error) (sent : List Effect) (tick : ℕ)
          → Q failure (record w { sent = sent; tick = tick }))
      → After Q R (insert_effect S e w)
  unfolding insert_effect
  insert_effect-After e w q = elim (Option-cases (S.write w.tick)) [
    | inl written ↦ rw (written, insert_effect) (returns (q _ _ _))
    | inr failed ↦ rw (failed.1, insert_effect) (returns (q _ _ _))
  ]

  pub add_session_message-After :
      {Q : Unit {0} → World H → Type 0} (d : MessageDirection) (content : String) (w : World H)
      → Owned w
      → ((sent : List Effect) (tick : ℕ) → Q tt (record w { sent = sent; tick = tick }))
      → After Q Owned (add_session_message S d content w)
  unfolding add_session_message insert_effect then_do on_option
  add_session_message-After d content w owned q = elim (Option-cases (S.write w.tick)) [
    | inl written ↦
        rw (written, add_session_message, insert_effect, then_do, on_option) (returns (q _ _))
    | inr failed ↦
        rw (failed.1, add_session_message, insert_effect, then_do, on_option) (raises owned)
  ]

  pub escalate-After :
      {Q : Unit {0} → World H → Type 0} (message : EscalationMessage H) (w : World H)
      → Owned w
      → ((now : ℤ) (sent : List Effect) (tick : ℕ)
          → Q tt (
              settled (escalated message now w.session) (published session_escalation ∷ sent) tick))
      → After Q Owned (escalate S message w)
  unfolding escalate
  escalate-After message w owned q = After-bind (
      returns (
        After-bind (
          touch-After _ λ now t. After-bind (
            checkpoint_session-After _ owned λ t'. After-bind (
              append_trace-After _ _ _ _ λ sent t''. After-bind (
                add_session_message-After _ _ _ (settled-Owned _)
                  λ sent' u. returns (q now sent' u)))))))

pub After-mono :
    {H : Host} {E A : Type 0} {Q Q' : A → World H → Type 0} {R : World H → Type 0}
    {r : Result E A × World H}
    → ((a : A) (w : World H) → Q a w → Q' a w)
    → After Q R r
    → After Q' R r
After-mono f (returns q) = returns (f _ _ q)
After-mono f (raises r) = raises r

-- A branch of an action on a test, an option or a result.
module _ {H : Host} {E A : Type 0} {Q : A → World H → Type 0} {R : World H → Type 0} where
  pub branch-After :
      (f g : Act H E A) (w : World H) (b : Bool)
      → (b ≡ true → After Q R (f w))
      → (b ≡ false → After Q R (g w))
      → After Q R (branch b f g w)
  branch-After f g w true left right = unfold branch in left refl
  branch-After f g w false left right = unfold branch in right refl

  pub on_option-After :
      {B : Type 0} (f : Act H E A) (g : B → Act H E A) (w : World H) (o : Option B)
      → (o ≡ none → After Q R (f w))
      → ((b : B) → o ≡ some b → After Q R (g b w))
      → After Q R (on_option o f g w)
  on_option-After f g w none left right = unfold on_option in left refl
  on_option-After f g w (some b) left right = unfold on_option in right b refl

  pub on_result-After :
      {F B : Type 0} (f : F → Act H E A) (g : B → Act H E A) (w : World H) (r : Result F B)
      → ((e : F) → After Q R (f e w))
      → ((b : B) → After Q R (g b w))
      → After Q R (on_result r f g w)
  on_result-After f g w (err e) left right = unfold on_result in left e
  on_result-After f g w (ok b) left right = unfold on_result in right b

  pub lift-After : (w : World H) (r : Result E A) → R w → ((a : A) → Q a w) → After Q R (lift r w)
  lift-After w (err e) left right = unfold lift in raises left
  lift-After w (ok a) left right = unfold lift in returns (right a)

  pub ok_or-After :
      (w : World H) (e : E) (o : Option A)
      → R w
      → ((a : A) → o ≡ some a → Q a w)
      → After Q R (ok_or o e w)
  ok_or-After w e none left right = unfold ok_or in raises left
  ok_or-After w e (some a) left right = unfold ok_or in returns (right a refl)

pub lift_context-After :
    {H : Host} (S : Services H) {A : Type 0} {Q : A → World H → Type 0} {R : World H → Type 0}
    (text : String) (w : World H) (r : Result S.Error A)
    → R w
    → ((a : A) → Q a w)
    → After Q R (lift_context S text r w)
lift_context-After S text w (err e) left right = unfold lift_context in raises left
lift_context-After S text w (ok a) left right = unfold lift_context in returns (right a)
