-- ===== src/Worker/Steps.antt =====
-- src/orchestrator/worker.py: lemmas on steps one after another, any of which may raise.
use autonomous_ai_job_oreche.Prelude.{◌≡◌, refl, ap}
use autonomous_ai_job_oreche.Services.{Env}
use autonomous_ai_job_oreche.World.{World, Result, ok, err, Error, ok-inj}
use autonomous_ai_job_oreche.Worker.{◌then_run◌}

module _ ⦃env : Env⦄ where
  pub then_run-err {ℓ κ} :
      {A : Type ℓ} {B : Type κ} (r : Result A × World) (f : A → World → Result B × World)
      (e : Error)
      → r.0 ≡ err e
      → (r then_run f) ≡ (err e, r.1)
  then_run-err (ok a, w1) f e h = cc
  then_run-err (err x, w1) f e h = cc

  pub then_run-ok {ℓ κ} :
      {A : Type ℓ} {B : Type κ} (r : Result A × World) (f : A → World → Result B × World) (a : A)
      → r.0 ≡ ok a
      → (r then_run f) ≡ f a r.1
  then_run-ok (ok x, w1) f a h = ap (λ y. f y w1) (ok-inj h)
  then_run-ok (err x, w1) f a h = cc

  pub keeps_state {ℓ κ} :
      {A : Type ℓ} {B : Type κ} (r : Result A × World) (b : B)
      → (r then_run (λ _ w1. (ok b, w1))).1 ≡ r.1
  keeps_state (ok a, w1) b = refl
  keeps_state (err e, w1) b = refl

  pub result_kept {ℓ κ} :
      {A : Type ℓ} {B : Type κ} (b : Result B) (r : Result A × World)
      → (r then_run (λ _ w1. (b, w1))).1 ≡ r.1
  result_kept b (ok a, w1) = refl
  result_kept b (err e, w1) = refl
