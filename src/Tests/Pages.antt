-- ===== src/Tests/Pages.antt =====
-- Tests on the lists of src/orchestrator/job_manager.py and the logs of src/core/output.py.
use autonomous_ai_job_oreche.Prelude.{
  ◌-◌, ◌≤◌, min, String, true, none, some, ℕ, List, [], map, ◌≡◌, refl, arith, length, All, truthy,
}
use autonomous_ai_job_oreche.Job.{Job, failed}
use autonomous_ai_job_oreche.Stream
use autonomous_ai_job_oreche.Stream.{DlqEntry}
use autonomous_ai_job_oreche.World.{ok}
use autonomous_ai_job_oreche.Output.{RunLogs, persist_run_output, load_full_run_logs}
use autonomous_ai_job_oreche.Output.Texts.{slashes}
use autonomous_ai_job_oreche.Output.Spill.{nonempty}
use autonomous_ai_job_oreche.Output.RoundTrip.{persist_run_output-loaded}
use autonomous_ai_job_oreche.Manager.Queries.{
  page_of, insert_listed, sort_listed, list_jobs, list_dlq,
}
use autonomous_ai_job_oreche.Manager.{
  valid_row, to_model, to_models, job_of_row, dependencies_for_job, load_resource_req,
}
use autonomous_ai_job_oreche.Db.{job_rows, dependency_rows}
use autonomous_ai_job_oreche.Job.Validate.{
  valid_job_base, valid_dependency_count, valid_payload_size,
}
use autonomous_ai_job_oreche.Manager.Queries.Pages.{
  Asked, DlqVisible, list_jobs-page, list_dlq-page,
}
use autonomous_ai_job_oreche.Manager.Queries.Order.{Ascending, list_jobs-Ascending}
use autonomous_ai_job_oreche.Tests.{test_env, tables, start}

list_jobs-page_example :
    ((items : List Job) (total : ℕ)
      → list_jobs (some failed) 5 0 (some "acme") tables ≡ ok (items, total)
      → (length items ≡ min 5 (total - 0)) × All (Asked (some failed) (some "acme")) items)
    × (All (λ r. valid_row tables r ≡ true) (job_rows tables)
        → (page : List Job × ℕ) × (list_jobs (some failed) 5 0 (some "acme") tables ≡ ok page))
list_jobs-page_example = list_jobs-page (some failed) 5 0 (some "acme") tables

abbrev page : List Job × ℕ
page = (map (job_of_row tables) (page_of none 5 0 (some "acme") tables), 2)

page_returned : list_jobs none 5 0 (some "acme") tables ≡ ok page
unfolding list_jobs to_models to_model valid_row job_rows valid_job_base valid_dependency_count
    valid_payload_size job_of_row dependencies_for_job dependency_rows load_resource_req sort_listed
    insert_listed
page_returned = refl

dead_letters : (list_dlq 10 (some "acme") start).0 ≡ ok []
unfolding list_dlq Stream.list_dlq
dead_letters = refl

list_dlq-page_example :
    (length {A = DlqEntry} [] ≤ 10)
    × ((t : String) → some "acme" ≡ some t → truthy t ≡ true → All (DlqVisible start.db t) [])
list_dlq-page_example = list_dlq-page 10 (some "acme") start [] (omega arith) dead_letters

plain_id : slashes "r1" ≡ "r1"
unfolding slashes
plain_id = refl

persist_run_output-loaded_example :
    (logs : RunLogs) × (load_full_run_logs
        (persist_run_output "r1" (some "out") none (some "bad") start).0.log_ref
        (persist_run_output "r1" (some "out") none (some "bad") start).0.stdout
        (persist_run_output "r1" (some "out") none (some "bad") start).0.stderr
        (persist_run_output "r1" (some "out") none (some "bad") start).0.error
        (persist_run_output "r1" (some "out") none (some "bad") start).1
      ≡ ok logs)
    × (logs.stdout ≡ nonempty "out")
    × (logs.stderr ≡ nonempty "")
    × (logs.error ≡ nonempty "bad")
persist_run_output-loaded_example =
    persist_run_output-loaded "r1" (some "out") none (some "bad") start (omega arith) plain_id refl
      refl refl

list_jobs-Ascending_example : Ascending (λ (j : Job). j.created_at) page.0
list_jobs-Ascending_example = list_jobs-Ascending none 5 0 (some "acme") tables page page_returned
