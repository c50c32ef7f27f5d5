-- ===== src/Workflow/Session/Passes.antt =====
-- The passes through the loop of src/services/workflow/session.rs, `drive`: the worlds that it comes
-- to, each with the number of iterations that are left.
use botto.Prelude.{String, ℕ, suc, ◌≤◌, true, false, ltb, ok, ◌≡◌, refl, ◌∙◌, subst, arith}
use botto.Workflow.Types.{Host}
use botto.Workflow.Session.Types.{SessionState}
use botto.Workflow.Session.World.{Services, SessionManagerConfig, World, then_do, branch}
use botto.Workflow.Session.Drive.{round, drive_loop, max_duration}
use botto.Workflow.Session.After.{After, returns, Owned, Stored, Stored-Owned}
use botto.Workflow.Session.Relation.{SessionStep, Reaches, here, onwards}
use botto.Workflow.Session.Loop.{Rounded, round-After}

After-ok :
    {H : Host} {E A : Type 0} {Q : A → World H → Type 0} {R : World H → Type 0} {a : A}
    {w : World H}
    → After {E = E} Q R (ok a, w)
    → Q a w
After-ok (returns q) = q

module _ {H : Host} (S : Services H) (config : SessionManagerConfig H) (name : String) where
  -- From `n` iterations left at `w`, the loop comes to the iterations left and the world: at first,
  -- and after each round in time that goes on.
  pub data Passes (n : ℕ) (w : World H) : ℕ → World H → Type 0 where
    first : Passes n w n w
    next :
        {k : ℕ} {v v' : World H}
        → Passes n w (suc k) v
        → S.elapsed v.tick ≤ max_duration
        → round S config name v.session.status (record v { tick = suc v.tick }) ≡ (ok true, v')
        → Passes n w k v'

  drive_loop-round :
      (k : ℕ) (v v' : World H)
      → S.elapsed v.tick ≤ max_duration
      → round S config name v.session.status (record v { tick = suc v.tick }) ≡ (ok true, v')
      → drive_loop S config name (suc k) v ≡ drive_loop S config name k v'
  unfolding drive_loop then_do branch
  drive_loop-round k v v' in_time round_ =
      let early : ltb max_duration (S.elapsed v.tick) ≡ false = ground (arith, in_time) in
      rw (early, branch, round_, then_do) refl

  pub drive_loop-Passes :
      {n : ℕ} {w : World H} {k : ℕ} {v : World H}
      → Passes n w k v
      → drive_loop S config name n w ≡ drive_loop S config name k v
  drive_loop-Passes first = refl
  drive_loop-Passes (next path in_time round_) =
      drive_loop-Passes path ∙ drive_loop-round _ _ _ in_time round_

  onwards_last :
      {s s' s'' : SessionState H}
      → Reaches config s s'
      → SessionStep config s' s''
      → Reaches config s s''
  onwards_last here step = onwards step here
  onwards_last (onwards before path) step = onwards before (onwards_last path step)

  -- What the loop comes to is stored, and reached by the step relation.
  pub Passes-Reaches :
      {n : ℕ} {w : World H} {k : ℕ} {v : World H}
      → Passes n w k v
      → Stored S w
      → Stored S v × Reaches config w.session v.session
  Passes-Reaches first stored = (stored, here)
  Passes-Reaches (next {v = v} {v' = v'} path in_time round_) stored =
      let (kept, reached) = Passes-Reaches path stored in
      let (kept', step) = After-ok (
        subst (After (Rounded S config (record v { tick = suc v.tick })) (Owned S)) round_ (
          round-After S config name (record v { tick = suc v.tick }) v.session.status
            (Stored-Owned S v kept) refl)) in
      (kept', onwards_last reached step)
