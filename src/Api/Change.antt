-- ===== src/Api/Change.antt =====
-- src/api/routes.py: lemmas on requests that change a job and are answered with an error.
use autonomous_ai_job_oreche.Prelude.{
  ◌≤◌, String, Bool, true, false, not, Option, none, some, ◌≡◌, refl, ap, is_some, Bool-cases, ◌⊎◌,
  inl, inr, arith, if◌then◌else◌, Option-cases,
}
use autonomous_ai_job_oreche.Services.{Env}
use autonomous_ai_job_oreche.Job.{Job, pending}
use autonomous_ai_job_oreche.Principal.{Principal}
use autonomous_ai_job_oreche.Db.{JobRow, Db, get_tenant, get_job_row}
use autonomous_ai_job_oreche.World.{World, Result, ok, err, Error, redis_error, validation_error}
use autonomous_ai_job_oreche.Manager.{
  find_job_row, valid_row, to_model, job_of_row, are_dependencies_met, dependencies_refused,
  enqueue_job, audit_manual,
}
use autonomous_ai_job_oreche.Manager.Visible.{find_job_row-stored}
use autonomous_ai_job_oreche.Manager.Models.{to_model-valid, to_model-invalid}
use autonomous_ai_job_oreche.Manager.Lifecycle.{
  some_job, cancelled_row, is_terminal, can_retry, change_status, with_status, enqueued, retry_now,
  update_job_status, cancel_job, retry_job,
}
use autonomous_ai_job_oreche.Api.{change_status_code, raised}
use autonomous_ai_job_oreche.Api.Jobs
use autonomous_ai_job_oreche.Api.Jobs.{
  if_valid, created, changed, post_jobs, post_jobs_dag, post_cancel, post_retry,
}
use autonomous_ai_job_oreche.Api.Creation.{CleanError, enqueue_job-redis_error}

module _ ⦃env : Env⦄ where
  -- What a change of a job raises, or that it finds no job.
  abbrev CleanChange : World → Result (Option Job) × World → Type 0
  CleanChange w (ok none, v) = v ≡ w
  CleanChange w (ok (some job), v) = Unit {0}
  CleanChange w (err e, v) = (500 ≤ change_status_code e) ⊎ ((v ≡ w) ⊎ (e ≡ validation_error))

  changed-CleanError :
      (w : World) (r : Result (Option Job) × World) → CleanChange w r → CleanError w (changed r)
  changed-CleanError w (ok none, v) h = inr (inl h)
  changed-CleanError w (ok (some job), v) h = omega arith
  changed-CleanError w (err e, v) (inl server) = inl server
  changed-CleanError w (err e, v) (inr (inl same)) = inr (inl same)
  changed-CleanError w (err e, v) (inr (inr refused)) = inr (inr (ap raised refused))

  if-CleanChange :
      (w : World) (b : Bool) (x y : Result (Option Job) × World)
      → CleanChange w x
      → CleanChange w y
      → CleanChange w (if b then x else y)
  if-CleanChange w true x y h k = h
  if-CleanChange w false x y h k = k

  read_back-CleanChange :
      (w v : World) (db : Db) (row : JobRow) → CleanChange w (some_job (to_model db row), v)
  read_back-CleanChange w v db row = elim (Bool-cases (valid_row db row)) [
    | inl valid ↦ rw (to_model-valid db row valid) tt
    | inr refused ↦ rw (to_model-invalid db row refused) (inr (inr refl))
  ]

  cancel_job-CleanChange :
      (id tid actor : String) (w : World) → CleanChange w (cancel_job id tid actor w)
  unfolding cancel_job
  cancel_job-CleanChange id tid actor w = elim (Option-cases (find_job_row w.db id (some tid))) [
    | inl e ↦ rw (e, cancel_job) refl
    | inr (old, e) ↦
        rw (e, cancel_job)
          (if-CleanChange w (is_terminal old.status) _ _ (inr (inl refl)) (
            if-CleanChange w (not (is_some (get_tenant tid w.db))) _ _ (inr (inl refl))
              (read_back-CleanChange w _ _ (cancelled_row w.now old))))
  ]

  redis_status : (e : Error) (s : String) → e ≡ redis_error s → 500 ≤ change_status_code e
  redis_status e s h = rw h (omega arith)

  enqueued-CleanChange :
      (w : World) (job : Job) (r : Result String × World)
      → ((e : Error) → r.0 ≡ err e → (s : String) × (e ≡ redis_error s))
      → CleanChange w (enqueued (some job) r)
  enqueued-CleanChange w job (ok m, v) h = tt
  enqueued-CleanChange w job (err e, v) h = let (s, same) = h e refl in inl (redis_status e s same)

  -- A job that is there is still there after a change of its status.
  still_there :
      (id : String) (w : World) (old : JobRow)
      → get_job_row id w.db ≡ some old
      → (job : Job) × ((update_job_status id pending none w).0 ≡ some job)
  unfolding update_job_status
  still_there id w old h = (
    job_of_row (change_status w pending none old) (with_status w.now pending none old),
    rw (h, update_job_status) refl,
  )

  retry_now-CleanChange :
      (id tid actor : String) (w : World) (old : JobRow)
      → get_job_row id w.db ≡ some old
      → CleanChange w (retry_now id tid actor w)
  unfolding retry_now
  retry_now-CleanChange id tid actor w old h =
      let (job, e) = still_there id w old h in
      let w1 = (update_job_status id pending none w).1 in
      let audited = audit_manual id "job.manual_retry" actor tid w1 in
      rw e (
        if-CleanChange w (is_some (get_tenant tid w1.db)) _ _
          (enqueued-CleanChange w job (enqueue_job id audited) (enqueue_job-redis_error id audited))
          (inl (omega arith)))

  retry_job-CleanChange :
      (id tid actor : String) (w : World) → CleanChange w (retry_job id tid actor w)
  unfolding retry_job
  retry_job-CleanChange id tid actor w = elim (Option-cases (find_job_row w.db id (some tid))) [
    | inl e ↦ rw (e, retry_job) refl
    | inr (old, e) ↦
        rw (e, retry_job)
          (if-CleanChange w (not (valid_row w.db old)) _ _ (inr (inl refl)) (
            if-CleanChange w (not (can_retry old.status)) _ _ (inr (inl refl)) (
              if-CleanChange w (dependencies_refused w.db (job_of_row w.db old) (some tid)) _ _
                (inr (inl refl))
                (if-CleanChange w (not (are_dependencies_met w.db (job_of_row w.db old) (some tid)))
                  _ _ (inr (inl refl))
                  (retry_now-CleanChange id tid actor w old
                    (find_job_row-stored w.db id (some tid) old e))))))
  ]

  pub cancel-CleanError :
      (job_id : String) (p : Principal) (w : World) → CleanError w (Jobs.cancel_job job_id p w)
  unfolding Jobs.cancel_job
  cancel-CleanError job_id p w =
      changed-CleanError w _ (cancel_job-CleanChange job_id p.tenant_id _ w)

  pub retry-CleanError :
      (job_id : String) (p : Principal) (w : World) → CleanError w (Jobs.retry_job job_id p w)
  unfolding Jobs.retry_job
  retry-CleanError job_id p w =
      changed-CleanError w _ (retry_job-CleanChange job_id p.tenant_id _ w)
