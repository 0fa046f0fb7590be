-- ===== src/Manager/Failure/Backoff.antt =====
-- src/orchestrator/job_manager.py: proofs on the delay between retries.
use native.Mathlib.Nat.{pow-suc}
use autonomous_ai_job_oreche.Prelude.{ℕ, suc, ◌*◌, ◌^◌, ◌≤◌, min, ◌≡◌, arith}
use autonomous_ai_job_oreche.Services.{Env}
use autonomous_ai_job_oreche.Manager.{retry_backoff}

double : (b n : ℕ) → b * 2 ^ suc n ≡ 2 * (b * 2 ^ n)
double b n = rw (pow-suc) (omega arith)

module _ ⦃env : Env⦄ where
  open env use {settings}

  -- Each delay is twice the one before, up to the maximum: the delays never shrink and never pass it.
  pub retry_backoff_growth :
      (n : ℕ)
      → (retry_backoff (suc n) ≡ min (2 * retry_backoff n) settings.retry_backoff_max)
        × (retry_backoff n ≤ retry_backoff (suc n))
        × (retry_backoff n ≤ settings.retry_backoff_max)
  unfolding retry_backoff
  retry_backoff_growth n =
      let doubled : settings.retry_backoff_base * 2 ^ suc n
          ≡ 2 * (settings.retry_backoff_base * 2 ^ n) =
        double settings.retry_backoff_base n in
      (omega arith, omega arith, omega arith)
