-- ===== src/RateLimit.antt =====
-- src/tenancy/rate_limit.py: the requests of a tenant are counted in a window of time.
pub mod Decision
pub mod Kept
use autonomous_ai_job_oreche.Prelude.{ℕ, ◌/◌, String, Bool, not, ltb, ◌==◌, if◌then◌else◌}
use autonomous_ai_job_oreche.Services.{Env, Reply, incr, expire, number, response_error, failure}
use autonomous_ai_job_oreche.Db.{get_tenant}
use autonomous_ai_job_oreche.Output.Texts.{append_text, decimal}
use autonomous_ai_job_oreche.Policy.{rate_limit_for}
use autonomous_ai_job_oreche.World.{
  World, call, Result, ok, err, rate_limit_exceeded, type_error, zero_division,
}

module _ ⦃env : Env⦄ where
  open env use {settings}

  -- `int(time.time()) // RATE_LIMIT_WINDOW_SECONDS`, from a time in microseconds
  abbrev window_of : ℕ → ℕ
  window_of now = now / 1_000_000 / settings.rate_limit_window_seconds

  unfoldable pub bucket_key : String → ℕ → String
  bucket_key tenant_id now =
      append_text "ratelimit:" (append_text tenant_id (append_text ":" (decimal (window_of now))))

  abbrev over_limit : ℕ → ℕ → World → Result (Unit {0}) × World
  over_limit limit n w = if ltb limit n then (err (rate_limit_exceeded limit), w) else (ok tt, w)

  -- A RedisError is logged, and the request passes.
  abbrev after_expire : ℕ → ℕ → Reply × World → Result (Unit {0}) × World
  after_expire limit n (failure e, w) = (ok tt, w)
  after_expire limit n (response_error e, w) = (ok tt, w)
  after_expire limit n (_, w) = over_limit limit n w

  abbrev after_incr : ℕ → String → Reply × World → Result (Unit {0}) × World
  after_incr limit key (number n, w) =
      if n == 1
      then after_expire limit n (call (expire key settings.rate_limit_window_seconds) w)
      else over_limit limit n w
  after_incr limit key (failure e, w) = (ok tt, w)
  after_incr limit key (response_error e, w) = (ok tt, w)
  after_incr limit key (_, w) = (err type_error, w)

  unfoldable pub count_request : ℕ → String → World → Result (Unit {0}) × World
  count_request limit tenant_id w =
      if settings.rate_limit_window_seconds == 0
      then (err zero_division, w)
      else after_incr limit (bucket_key tenant_id w.now)
          (call (incr (bucket_key tenant_id w.now)) w)

  unfoldable pub check : String → World → Result (Unit {0}) × World
  check tenant_id w =
      let limit = rate_limit_for (get_tenant tenant_id w.db) in
      if not settings.rate_limit_enabled
      then (ok tt, w)
      else if limit == 0
      then (ok tt, w)
      else count_request limit tenant_id w
