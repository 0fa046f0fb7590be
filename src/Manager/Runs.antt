-- ===== src/Manager/Runs.antt =====
-- src/orchestrator/job_manager.py: the start and the end of a run, and its logs.
pub mod Effects
pub mod Attempts
use autonomous_ai_job_oreche.Prelude.{
  ℕ, ℤ, pos, negsuc, ◌*◌, ◌+◌, max, String, Bool, true, false, not, Option, none, some, List, [],
  ◌∷◌, map, filter, length, leb, is_some, str_eq, if◌then◌else◌,
}
use autonomous_ai_job_oreche.Services.{Env}
use autonomous_ai_job_oreche.Job.{
  Run, JobStatus, running, Json, null, text, number, object, Fields, field, no_fields, LogRef,
  encoded, malformed,
}
use autonomous_ai_job_oreche.Db.{
  JobRow, RunRow, Db, get_job_row, get_run_row, run_rows, add_run, save_run,
}
use autonomous_ai_job_oreche.Executor.{ExecutionResult}
use autonomous_ai_job_oreche.Output.{
  PersistedRunOutput, RunLogs, persist_run_output, load_full_run_logs,
}
use autonomous_ai_job_oreche.World.{World, Result, ok, err, integrity_error, ◌>>=◌}
use autonomous_ai_job_oreche.Manager.{
  status_text, text_or_null, run_target, audit, run_to_model, find_job_row,
}

abbrev json_nat : ℕ → Json
json_nat n = number (pos (n * 1_000_000))

abbrev json_int : ℤ → Json
json_int (pos n) = json_nat n
json_int (negsuc n) = number (negsuc (n * 1_000_000 + 999_999))

-- The JSON text of a `log_ref` is kept as the dictionary that it encodes.
abbrev text_fields : List (String × String) → Fields
text_fields [] = no_fields
text_fields ((k, v) ∷ rest) = field k (text v) (text_fields rest)

-- `latest_attempt or 0`: the largest attempt among the rows, 0 if there is none.
unfoldable pub latest_attempt : String → List RunRow → ℕ
latest_attempt job_id [] = 0
latest_attempt job_id (r ∷ rs) =
    if str_eq r.job_id job_id
    then max r.attempt (latest_attempt job_id rs)
    else latest_attempt job_id rs

abbrev pub new_run : String → String → String → ℕ → ℕ → RunRow
new_run id job_id worker_id attempt now = record {
  id = id;
  job_id = job_id;
  attempt = attempt;
  worker_id = some worker_id;
  status = running;
  started_at = some now;
  finished_at = none;
  exit_code = none;
  error = none;
  stdout = none;
  stderr = none;
  log_ref = none;
  metrics = none;
}

-- `ORDER BY attempt`
insert_by_attempt : RunRow → List RunRow → List RunRow
insert_by_attempt r [] = r ∷ []
insert_by_attempt r (x ∷ xs) =
    if leb r.attempt x.attempt then r ∷ x ∷ xs else x ∷ insert_by_attempt r xs

unfoldable pub sort_by_attempt : List RunRow → List RunRow
unfolding insert_by_attempt
sort_by_attempt [] = []
sort_by_attempt (r ∷ rs) = insert_by_attempt r (sort_by_attempt rs)

unfoldable pub with_result : ℕ → JobStatus → ExecutionResult → PersistedRunOutput → RunRow → RunRow
with_result now status result persisted run = record run {
  status = status;
  finished_at = some now;
  exit_code = some result.exit_code;
  error = persisted.error;
  stdout = persisted.stdout;
  stderr = persisted.stderr;
  log_ref = persisted.log_ref;
  metrics = some result.duration_seconds;
}

-- `bool(row.log_ref)`
abbrev pub has_log_ref : Option LogRef → Bool
has_log_ref none = false
has_log_ref (some (encoded refs)) = true
has_log_ref (some (malformed s)) = not (str_eq s "")

module _ ⦃env : Env⦄ where
  open env use {settings, uuid}

  abbrev pub started : World → RunRow → JobRow → Option Db → Result (Option RunRow) × World
  started w run job none = (err integrity_error, w)
  started w run job (some db) = (
    ok (some run),
    record w {
      db =
          audit (uuid (w.drawn + 1)) job.tenant_id w.now "run.started" (run_target run.id)
            (field "job_id" (text run.job_id) (
              field "attempt" (json_nat run.attempt)
                (field "worker_id" (text_or_null run.worker_id) no_fields)))
            "system" db;
      drawn = w.drawn + 2;
    },
  )

  unfoldable pub start_run : String → String → World → Result (Option RunRow) × World
  start_run job_id worker_id w = elim (get_job_row job_id w.db) [
    | none ↦ (ok none, w)
    | some job ↦
        let run =
          new_run (uuid w.drawn) job_id worker_id (latest_attempt job_id (run_rows w.db) + 1)
            w.now in
        started w run job (add_run run w.db)
  ]

  abbrev tenant_of : Option JobRow → String
  tenant_of none = settings.default_tenant_id
  tenant_of (some job) = job.tenant_id

  abbrev log_ref_json : Option LogRef → Json
  log_ref_json none = null
  log_ref_json (some (malformed s)) = text s
  log_ref_json (some (encoded refs)) = object (text_fields refs)

  abbrev finish_payload : ℤ → RunRow → Fields
  finish_payload exit_code run = field "job_id" (text run.job_id) (
      field "attempt" (json_nat run.attempt) (
        field "status" (text (status_text run.status)) (
          field "exit_code" (json_int exit_code)
            (field "log_ref" (log_ref_json run.log_ref) no_fields))))

  unfoldable pub finish_run : String → JobStatus → ExecutionResult → World → World
  finish_run run_id status result w = elim (get_run_row run_id w.db) [
    | none ↦ w
    | some old ↦
        let (persisted, w1) =
          persist_run_output run_id (some result.stdout) (some result.stderr) result.error_message
            w in
        let run = with_result w.now status result persisted old in
        record w1 {
          db =
              audit (uuid w.drawn) (tenant_of (get_job_row old.job_id w.db)) w.now "run.finished"
                (run_target run_id) (finish_payload result.exit_code run) "system"
                (save_run run w.db);
          drawn = w.drawn + 1;
        }
  ]

  unfoldable pub get_runs : Db → String → String → List Run × ℕ
  get_runs db job_id tenant_id =
      let rows = sort_by_attempt (filter (λ (r : RunRow). str_eq r.job_id job_id) (run_rows db)) in
      if is_some (find_job_row db job_id (some tenant_id))
      then (map run_to_model rows, length rows)
      else ([], 0)

  -- The row of a run, if the job is the tenant's and the run is the job's.
  unfoldable pub find_run_row : Db → String → String → String → Option RunRow
  find_run_row db job_id run_id tenant_id = elim (find_job_row db job_id (some tenant_id)) [
    | none ↦ none
    | some job ↦ elim (get_run_row run_id db) [
      | none ↦ none
      | some run ↦ if str_eq run.job_id job_id then some run else none
    ]
  ]

  abbrev run_model_of : Option RunRow → Option Run
  run_model_of none = none
  run_model_of (some run) = some (run_to_model run)

  unfoldable pub get_run : Db → String → String → String → Option Run
  get_run db job_id run_id tenant_id = run_model_of (find_run_row db job_id run_id tenant_id)

  unfoldable pub inline_logs : RunRow → RunLogs
  inline_logs run = record {
    stdout = run.stdout;
    stderr = run.stderr;
    error = run.error;
    stdout_ref = none;
    stderr_ref = none;
    error_ref = none;
    spilled = has_log_ref run.log_ref;
  }

  -- The logs with the ids of the run and the job in front.
  unfoldable pub get_run_logs :
      String → String → String → Bool → World → Result (Option (String × String × RunLogs))
  get_run_logs job_id run_id tenant_id full w = elim (find_run_row w.db job_id run_id tenant_id) [
    | none ↦ ok none
    | some run ↦
        if full
        then (do
          merged ← load_full_run_logs run.log_ref run.stdout run.stderr run.error w
          ok (some (run.id, run.job_id, merged)))
        else ok (some (run.id, run.job_id, inline_logs run))
  ]
