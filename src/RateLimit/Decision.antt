-- ===== src/RateLimit/Decision.antt =====
-- src/tenancy/rate_limit.py: proofs on which requests pass.
use autonomous_ai_job_oreche.Prelude.{
  ℕ, ◌≤◌, ◌<◌, String, true, false, not, ltb, ◌==◌, ◌≡◌, refl, ap, ◌∙◌, arith, ◌↔◌, if◌then◌else◌,
  Bool-cases, inl, inr,
}
use autonomous_ai_job_oreche.Services.{
  Env, Reply, incr, expire, number, response_error, failure, nil, string, entries, groups,
}
use autonomous_ai_job_oreche.Db.{get_tenant}
use autonomous_ai_job_oreche.Policy.{rate_limit_for}
use autonomous_ai_job_oreche.World.{World, call, Result, ok}
use autonomous_ai_job_oreche.RateLimit.{
  bucket_key, over_limit, after_expire, after_incr, count_request, check,
}

module _ ⦃env : Env⦄ where
  open env use {settings}

  -- A request passes as often as the count is within the limit, and no table changes.
  abbrev pub Passes : ℕ → ℕ → World → Result (Unit {0}) × World → Type 0
  Passes limit n w r = ((r.0 ≡ ok tt) ↔ (n ≤ limit)) × (r.1.db ≡ w.db)

  over_limit-Passes : (limit n : ℕ) (w : World) → Passes limit n w (over_limit limit n w)
  over_limit-Passes limit n w = elim (Bool-cases (ltb limit n)) [
    | inl over ↦ rw over ((λ e. cc, λ h. absurd (clash limit n over h)), refl)
    | inr within ↦ rw within ((λ e. le_of limit n within, λ h. refl), refl)
  ]
    where
      clash : (limit n : ℕ) → ltb limit n ≡ true → n ≤ limit → ⊥
      clash limit n over h = ground arith

      le_of : (limit n : ℕ) → ltb limit n ≡ false → n ≤ limit
      le_of limit n h = ground arith

  from_state :
      (limit n : ℕ) (w w1 : World) → w1.db ≡ w.db → Passes limit n w (over_limit limit n w1)
  from_state limit n w w1 same =
      let (passes, kept) = over_limit-Passes limit n w1 in (passes, kept ∙ same)

  after_expire-Passes :
      (limit n : ℕ) (r : Reply) (w w1 : World)
      → n ≤ limit
      → w1.db ≡ w.db
      → Passes limit n w (after_expire limit n (r, w1))
  after_expire-Passes limit n (failure e) w w1 h same = ((λ e. h, λ h. refl), same)
  after_expire-Passes limit n (response_error e) w w1 h same = ((λ e. h, λ h. refl), same)
  after_expire-Passes limit n nil w w1 h same = from_state limit n w w1 same
  after_expire-Passes limit n (string s) w w1 h same = from_state limit n w w1 same
  after_expire-Passes limit n (number m) w w1 h same = from_state limit n w w1 same
  after_expire-Passes limit n (entries es) w w1 h same = from_state limit n w w1 same
  after_expire-Passes limit n (groups gs) w w1 h same = from_state limit n w w1 same

  after_incr-Passes :
      (limit n : ℕ) (key : String) (w w1 : World)
      → 1 ≤ limit
      → w1.db ≡ w.db
      → Passes limit n w (after_incr limit key (number n, w1))
  unfolding call
  after_incr-Passes limit n key w w1 h same = elim (Bool-cases (n == 1)) [
    | inl first ↦ rw first (
        after_expire-Passes limit n
          (env.reply (expire key settings.rate_limit_window_seconds) w1.redis) w
          (call (expire key settings.rate_limit_window_seconds) w1).1
          (omega (arith, is_one n first, h)) same)
    | inr later ↦ rw later (from_state limit n w w1 same)
  ]
    where
      is_one : (n : ℕ) → (n == 1) ≡ true → n ≡ 1
      is_one n e = ground arith

  -- With the limit enabled, a limit of at least one and a window of at least a second: if the server
  -- counts the request as the n-th of the tenant in the window, it passes exactly if n is within the
  -- tenant's limit; if the server fails, it passes. No table changes.
  pub check-Passes :
      (tenant_id : String) (w : World) (limit : ℕ)
      → settings.rate_limit_enabled ≡ true
      → 0 < settings.rate_limit_window_seconds
      → rate_limit_for (get_tenant tenant_id w.db) ≡ limit
      → 0 < limit
      → ((n : ℕ)
          → env.reply (incr (bucket_key tenant_id w.now)) w.redis ≡ number n
          → Passes limit n w (check tenant_id w))
        × ((e : String)
            → env.reply (incr (bucket_key tenant_id w.now)) w.redis ≡ failure e
            → ((check tenant_id w).0 ≡ ok tt) × ((check tenant_id w).1.db ≡ w.db))
  unfolding check
  check-Passes tenant_id w limit enabled window same positive = (
    λ n counted. rw (counted_request ∙ counting counted) (
        after_incr-Passes limit n (bucket_key tenant_id w.now) w
          (call (incr (bucket_key tenant_id w.now)) w).1 positive db-call),
    λ e failed. rw (counted_request ∙ counting failed) (refl, db-call),
  )
    where
      not_zero : (n : ℕ) → 0 < n → (n == 0) ≡ false
      not_zero n h = ground arith

      counted_request : check tenant_id w ≡ count_request limit tenant_id w
      counted_request =
          ap
            (λ b.
              if not b
              then (ok tt, w)
              else if rate_limit_for (get_tenant tenant_id w.db) == 0
              then (ok tt, w)
              else count_request (rate_limit_for (get_tenant tenant_id w.db)) tenant_id w)
            enabled
          ∙ (ap (λ n. if n == 0 then (ok tt, w) else count_request n tenant_id w) same
              ∙ ap (λ b. if b then (ok tt, w) else count_request limit tenant_id w)
                  (not_zero limit positive))

      db-call : (call (incr (bucket_key tenant_id w.now)) w).1.db ≡ w.db
      db-call = unfold call in refl

      counting :
          {r : Reply}
          → env.reply (incr (bucket_key tenant_id w.now)) w.redis ≡ r
          → count_request limit tenant_id w
            ≡ after_incr limit
                (bucket_key tenant_id w.now)
                (r, (call (incr (bucket_key tenant_id w.now)) w).1)
      counting e =
          unfold count_request call in
          rw (not_zero settings.rate_limit_window_seconds window) (
            ap
              (λ r.
                after_incr limit (bucket_key tenant_id w.now)
                  (r, (call (incr (bucket_key tenant_id w.now)) w).1))
              e)
