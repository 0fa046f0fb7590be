-- ===== src/Tests/Jobs.antt =====
-- Tests on src/orchestrator/job_manager.py.
use autonomous_ai_job_oreche.Prelude.{
  ◌*◌, min, eq_iff, ◌≤◌, String, true, none, some, List, [], ◌∷◌, ◌≡◌, ◌≢◌, refl, arith, count,
  str_eq, leb, ◌&&◌, contains, stripped, split_commas, strip,
}
use autonomous_ai_job_oreche.Settings.{executor_allowlist}
use autonomous_ai_job_oreche.Stream
use autonomous_ai_job_oreche.Job.{
  get_field, DagJobCreate, Job, failed, running, new_job, text, field, no_fields,
}
use autonomous_ai_job_oreche.Output.Texts.{append_text}
use autonomous_ai_job_oreche.Db.{
  get_tenant, get_job_row, get_run_row, job_rows, add_audit_row, add_dependency, add_job,
  add_tenant, dependency_rows, RunRow, run_rows, save_job,
}
use autonomous_ai_job_oreche.World.{World, ok, call}
use autonomous_ai_job_oreche.Policy.{
  active_jobs, max_jobs_for, validate_executor_type, json_in, executor_allowlist_for,
  enforce_job_quota,
}
use autonomous_ai_job_oreche.Manager.{
  find_job_row, get_job, job_of_row, retry_backoff, ensure_default_tenant, executor_type,
  are_dependencies_met, dependencies_refused, audit, dependencies_for_job, enqueue_job,
  load_resource_req,
}
use autonomous_ai_job_oreche.Manager.Create
use autonomous_ai_job_oreche.Manager.Create.{create_job}
use autonomous_ai_job_oreche.Manager.Create.Idempotent.{KeyHeld, create_job-idempotent}
use autonomous_ai_job_oreche.Manager.Create.Quota.{create_job-quota}
use autonomous_ai_job_oreche.Manager.Lifecycle.{cancel_job, retry_job, update_job_status}
use autonomous_ai_job_oreche.Manager.Lifecycle.Effects.{RowChanged}
use autonomous_ai_job_oreche.Manager.Lifecycle.Status.{update_job_status-StatusChanged}
use autonomous_ai_job_oreche.Manager.Lifecycle.Cancel.{CancelResult, cancel_job-CancelResult}
use autonomous_ai_job_oreche.Manager.Lifecycle.Retry.{RetryResult, retry_job-RetryResult}
use autonomous_ai_job_oreche.Manager.Runs.{start_run, get_runs, get_run, get_run_logs}
use autonomous_ai_job_oreche.Manager.Runs.Attempts.{start_run-fresh}
use autonomous_ai_job_oreche.Manager.Isolation.{foreign_job}
use autonomous_ai_job_oreche.Manager.Failure.{handle_execution_failure, failure_reason}
use autonomous_ai_job_oreche.Manager.Failure.Decision.{
  FailureResult, handle_execution_failure-FailureResult,
}
use autonomous_ai_job_oreche.Manager.Failure.Budget.{fail_times, retries-then-dead_letter}
use autonomous_ai_job_oreche.Manager.Failure.Backoff.{retry_backoff_growth}
use autonomous_ai_job_oreche.Stream.Effects.{dlq_command}
use autonomous_ai_job_oreche.Tests.{
  test_env, acme, waiting, broken, start, request, created, node, failure_result,
}

acme_there : get_tenant "acme" start.db ≡ some acme
unfolding get_tenant
acme_there = refl

request-created : (create_job request "acme" start).0 ≡ ok created
unfolding create_job Create.stage_job ensure_default_tenant get_tenant Create.find_idempotent
    new_job job_rows Create.check_and_insert validate_executor_type json_in executor_type contains
    executor_allowlist_for executor_allowlist stripped split_commas enforce_job_quota max_jobs_for
    add_audit_row add_dependency add_job add_tenant dependency_rows get_job_row get_field
    Create.add_dependencies Create.after_commit Create.insert_audit Create.insert_job Create.job_row
    are_dependencies_met dependencies_refused audit dependencies_for_job enqueue_job find_job_row
    get_job load_resource_req job_of_row active_jobs strip Stream.enqueue call
request-created = refl

-- An hour after the first request another job of the tenant was cancelled.
abbrev later : World
later = record (cancel_job "j1" "acme" "api" (create_job request "acme" start).1).1 {
  now = 3_600_001_000;
}

acme_later : get_tenant "acme" later.db ≡ some acme
unfolding create_job Create.stage_job ensure_default_tenant get_tenant Create.find_idempotent
    new_job job_rows Create.check_and_insert validate_executor_type json_in executor_type contains
    executor_allowlist_for executor_allowlist stripped split_commas enforce_job_quota max_jobs_for
    add_audit_row add_dependency add_job add_tenant dependency_rows get_job_row get_field
    Create.add_dependencies Create.after_commit Create.insert_audit Create.insert_job Create.job_row
    are_dependencies_met dependencies_refused audit dependencies_for_job enqueue_job find_job_row
    get_job load_resource_req job_of_row active_jobs strip Stream.enqueue call cancel_job save_job
acme_later = refl

key_later : KeyHeld "acme" request.idempotency_key created.id later.db
unfolding create_job Create.stage_job ensure_default_tenant get_tenant Create.find_idempotent
    new_job job_rows Create.check_and_insert validate_executor_type json_in executor_type contains
    executor_allowlist_for executor_allowlist stripped split_commas enforce_job_quota max_jobs_for
    add_audit_row add_dependency add_job add_tenant dependency_rows get_job_row get_field
    Create.add_dependencies Create.after_commit Create.insert_audit Create.insert_job Create.job_row
    are_dependencies_met dependencies_refused audit dependencies_for_job enqueue_job find_job_row
    get_job load_resource_req job_of_row active_jobs strip Stream.enqueue call cancel_job save_job
key_later = (_, refl, refl)

create_job-idempotent_example :
    KeyHeld "acme" request.idempotency_key created.id (create_job request "acme" start).1.db
    × (j2 : Job) × (create_job request "acme" later ≡ (ok j2, later))
    × (j2.id ≡ "a")
create_job-idempotent_example =
    create_job-idempotent request request "acme" start later acme acme created refl acme_there refl
      refl request-created acme_later key_later

waiting_there : get_job_row "j1" start.db ≡ some waiting
unfolding get_job_row
waiting_there = refl

broken_there : get_job_row "j2" start.db ≡ some broken
unfolding get_job_row
broken_there = refl

quota_room : active_jobs "acme" start.db ≤ max_jobs_for (some acme)
unfolding active_jobs job_rows max_jobs_for
quota_room = omega arith

create_job-quota_example :
    active_jobs "acme" (create_job request "acme" start).1.db ≤ max_jobs_for (some acme)
create_job-quota_example = create_job-quota request "acme" start acme refl acme_there quota_room

acme_other : (a : String) → a ≡ "other" → str_eq a "other" ≡ true
acme_other a e = (eq_iff a "other").1 e

not_other : ◌≢◌ {A = String} "acme" "other"
not_other e = ground (arith, acme_other "acme" e)

foreign_job_example :
    (get_job start.db "j1" (some "other") ≡ none)
    × (cancel_job "j1" "other" "api" start ≡ (ok none, start))
    × (retry_job "j1" "other" "api" start ≡ (ok none, start))
    × (get_runs start.db "j1" "other" ≡ ([], 0))
    × (get_run start.db "j1" "r" "other" ≡ none)
    × (get_run_logs "j1" "r" "other" true start ≡ ok none)
foreign_job_example =
    foreign_job "j1" "other" "api" "r" true start waiting refl waiting_there not_other

handle_execution_failure-FailureResult_example :
    FailureResult start "j1" failure_result
      (some "m")
      waiting
      (handle_execution_failure "j1" "r" failure_result (some "m") start)
handle_execution_failure-FailureResult_example =
    handle_execution_failure-FailureResult "j1" "r" failure_result (some "m") start waiting
      waiting_there

retries-then-dead_letter_example :
    (get_job_row "j2" (fail_times 2 "j2" (λ n. "r") failure_result (some "m") start).db
      ≡ some (record broken { status = failed; retry_count = 3 }))
    × ((fail_times 2 "j2" (λ n. "r") failure_result (some "m") start).sent
        ≡ dlq_command "j2" (failure_reason failure_result) (some "m") ∷ [])
retries-then-dead_letter_example =
    retries-then-dead_letter 1 "j2" (λ n. "r") failure_result (some "m") start broken broken_there
      refl

retry_backoff_growth_example :
    (retry_backoff 3 ≡ min (2 * retry_backoff 2) 300_000_000)
    × (retry_backoff 2 ≤ retry_backoff 3)
    × (retry_backoff 2 ≤ 300_000_000)
retry_backoff_growth_example = retry_backoff_growth 2

no_run_a : get_run_row "a" start.db ≡ none
unfolding get_run_row
no_run_a = refl

start_run-fresh_example :
    (run : RunRow) × ((start_run "j1" "worker-1" start).0 ≡ ok (some run))
    × (run.status ≡ running)
    × (run.job_id ≡ "j1")
    × (run.id ≡ "a")
    × (get_run_row run.id (start_run "j1" "worker-1" start).1.db ≡ some run)
    × (count (λ (r : RunRow). str_eq r.job_id "j1" && leb run.attempt r.attempt) (run_rows start.db)
        ≡ 0)
    × ((k : String) → get_job_row k (start_run "j1" "worker-1" start).1.db ≡ get_job_row k start.db)
start_run-fresh_example = start_run-fresh "j1" "worker-1" start waiting waiting_there no_run_a

cancel_job-CancelResult_example :
    CancelResult start "j1" "acme" "api"
      (find_job_row start.db "j1" (some "acme"))
      (cancel_job "j1" "acme" "api" start)
cancel_job-CancelResult_example = cancel_job-CancelResult "j1" "acme" "api" start

retry_job-RetryResult_example :
    RetryResult start "j2" "acme" "api"
      (find_job_row start.db "j2" (some "acme"))
      (retry_job "j2" "acme" "api" start)
retry_job-RetryResult_example = retry_job-RetryResult "j2" "acme" "api" start

update_job_status-StatusChanged_example :
    RowChanged start
      (update_job_status "j1" running (some "w") start).1
      waiting
      (record waiting { status = running; worker_id = some "w"; started_at = some 1000 })
      (record {
        id = "a";
        tenant_id = "acme";
        actor = "system";
        action = "job.status_changed";
        target = append_text "job:" "j1";
        payload =
            field "from"
              (text "PENDING")
              (field "to" (text "RUNNING") (field "worker_id" (text "w") no_fields));
        ts = 1000;
      })
    × ((update_job_status "j1" running (some "w") start).0
        ≡ some (
            job_of_row
              (update_job_status "j1" running (some "w") start).1.db
              (record waiting { status = running; worker_id = some "w"; started_at = some 1000 })))
update_job_status-StatusChanged_example =
    update_job_status-StatusChanged "j1" running (some "w") start waiting waiting_there

abbrev nodes : List DagJobCreate
nodes = node "x" [] ∷ node "y" ("x" ∷ []) ∷ []
