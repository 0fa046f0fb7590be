-- ===== src/RateLimit/Kept.antt =====
-- src/tenancy/rate_limit.py: lemmas on the tables that counting a request leaves alone.
use autonomous_ai_job_oreche.Prelude.{ℕ, String, not, ltb, ◌==◌, if◌then◌else◌}
use autonomous_ai_job_oreche.Services.{
  Env, Command, Reply, incr, expire, number, response_error, failure, nil, string, entries, groups,
}
use autonomous_ai_job_oreche.Db.{get_tenant}
use autonomous_ai_job_oreche.Policy.{rate_limit_for}
use autonomous_ai_job_oreche.World.{World, call, ok, err, rate_limit_exceeded, zero_division}
use autonomous_ai_job_oreche.RateLimit.{
  bucket_key, over_limit, after_expire, after_incr, count_request, check,
}
use autonomous_ai_job_oreche.World.Same.{SameTables, SameTables-refl, if-SameTables}

module _ ⦃env : Env⦄ where
  open env use {settings}

  call-same : (c : Command) (w v : World) → SameTables w v → SameTables w (call c v).1
  unfolding call
  call-same c w v h = record {
    tenants = h.tenants;
    jobs = h.jobs;
    runs = h.runs;
    dependencies = h.dependencies;
    audits = h.audits;
    service_accounts = h.service_accounts;
    files = h.files;
  }

  over_limit-same :
      (limit n : ℕ) (w v : World) → SameTables w v → SameTables w (over_limit limit n v).1
  over_limit-same limit n w v h =
      if-SameTables w (ltb limit n) (err (rate_limit_exceeded limit), v) (ok tt, v) h h

  after_expire-same :
      (limit n : ℕ) (r : Reply) (w v : World)
      → SameTables w v
      → SameTables w (after_expire limit n (r, v)).1
  after_expire-same limit n (failure e) w v h = h
  after_expire-same limit n (response_error e) w v h = h
  after_expire-same limit n nil w v h = over_limit-same limit n w v h
  after_expire-same limit n (string s) w v h = over_limit-same limit n w v h
  after_expire-same limit n (number m) w v h = over_limit-same limit n w v h
  after_expire-same limit n (entries es) w v h = over_limit-same limit n w v h
  after_expire-same limit n (groups gs) w v h = over_limit-same limit n w v h

  after_incr-same :
      (limit : ℕ) (key : String) (r : Reply) (w v : World)
      → SameTables w v
      → SameTables w (after_incr limit key (r, v)).1
  unfolding call
  after_incr-same limit key (number n) w v h =
      let expire_key = expire key settings.rate_limit_window_seconds in
      if-SameTables w (n == 1) (after_expire limit n (call expire_key v)) (over_limit limit n v)
        (after_expire-same limit n (env.reply expire_key v.redis) w (call expire_key v).1
          (call-same expire_key w v h))
        (over_limit-same limit n w v h)
  after_incr-same limit key (failure e) w v h = h
  after_incr-same limit key (response_error e) w v h = h
  after_incr-same limit key nil w v h = h
  after_incr-same limit key (string s) w v h = h
  after_incr-same limit key (entries es) w v h = h
  after_incr-same limit key (groups gs) w v h = h

  pub check-same : (tenant_id : String) (w : World) → SameTables w (check tenant_id w).1
  unfolding check count_request call
  check-same tenant_id w =
      let limit = rate_limit_for (get_tenant tenant_id w.db) in
      let command = incr (bucket_key tenant_id w.now) in
      let counted = after_incr limit (bucket_key tenant_id w.now) (call command w) in
      if-SameTables w (not settings.rate_limit_enabled) (ok tt, w)
        (if limit == 0 then (ok tt, w) else count_request limit tenant_id w) (SameTables-refl w)
        (if-SameTables w (limit == 0) (ok tt, w) (count_request limit tenant_id w)
          (SameTables-refl w)
          (if-SameTables w (settings.rate_limit_window_seconds == 0) (err zero_division, w) counted
            (SameTables-refl w)
            (after_incr-same limit (bucket_key tenant_id w.now) (env.reply command w.redis) w
              (call command w).1 (call-same command w w (SameTables-refl w)))))
