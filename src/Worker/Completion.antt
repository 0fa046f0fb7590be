-- ===== src/Worker/Completion.antt =====
-- src/orchestrator/worker.py: proofs on a message whose job runs and succeeds.
use autonomous_ai_job_oreche.Prelude.{
  ◌+◌, String, true, false, Option, none, some, List, ◌∷◌, ◌≡◌, refl, sym, ap, ◌∙◌,
}
use mathlib.Core.Path.{subst}
use autonomous_ai_job_oreche.Services.{Env}
use autonomous_ai_job_oreche.Job.{Job, running, completed}
use autonomous_ai_job_oreche.Db.{JobRow, RunRow, Db, get_job_row, get_run_row, get_tenant}
use autonomous_ai_job_oreche.Executor.{ExecutionResult}
use autonomous_ai_job_oreche.Stream
use autonomous_ai_job_oreche.Stream.{StreamMessage}
use autonomous_ai_job_oreche.Stream.Effects.{after_command, ack_command, ack-after_command}
use autonomous_ai_job_oreche.Lease
use autonomous_ai_job_oreche.Lease.Effects.{acquire_command, db-release}
use autonomous_ai_job_oreche.World.{World, Result, ok}
use autonomous_ai_job_oreche.Manager.{job_of_row}
use autonomous_ai_job_oreche.Manager.Visible.{get_job-any}
use autonomous_ai_job_oreche.Manager.Lifecycle.{update_job_status, with_status}
use autonomous_ai_job_oreche.Manager.Lifecycle.Effects.{
  RowChanged, RowChanged-self, status_entry, update_job_status-RowChanged, drawn-update_job_status,
}
use autonomous_ai_job_oreche.Manager.Runs.{start_run, finish_run}
use autonomous_ai_job_oreche.Manager.Runs.Attempts.{start_run-fresh}
use autonomous_ai_job_oreche.Manager.Runs.Effects.{
  get_run_row-finish_run, get_job_row-finish_run, sent-finish_run,
}
use autonomous_ai_job_oreche.Manager.Queries.{get_executor_allowlist_for_job}
use autonomous_ai_job_oreche.Worker.{
  JobRunner, is_finished, process_message, process_leased, run_started, conclude, succeed,
}
use autonomous_ai_job_oreche.Policy.{executor_allowlist_for}
use autonomous_ai_job_oreche.Worker.Allowed.{allowed-start_run, tenant_id-with_status}
use autonomous_ai_job_oreche.Worker.Messages.{process_message-leased}
use autonomous_ai_job_oreche.Worker.Steps.{then_run-ok}

module _ ⦃env : Env⦄ where
  -- The runner succeeds with the job and the executors allowed to it, in any state, and leaves the
  -- rows of the jobs and of the runs as they were.
  unfoldable pub Succeeds : JobRunner → Job → List String → Type 0
  Succeeds run_job job allowed =
      (w : World)
      → (result : ExecutionResult) × ((run_job job allowed w).0 ≡ ok result)
        × (result.success ≡ true)
        × ((k : String) → get_job_row k (run_job job allowed w).1.db ≡ get_job_row k w.db)
        × ((k : String) → get_run_row k (run_job job allowed w).1.db ≡ get_run_row k w.db)

  -- The job under the id is COMPLETED, and has a completed run with the id `run_id`.
  pub CompletedWith : String → String → Db → Type 0
  CompletedWith id run_id db =
      ((row : JobRow) × (get_job_row id db ≡ some row) × (row.status ≡ completed))
      × ((run : RunRow) × (get_run_row run_id db ≡ some run) × (run.status ≡ completed))

  -- `succeed` on a job and a run that exist: both are COMPLETED, and the last of the commands is the
  -- acknowledgement, the only one sent.
  pub succeed-CompletedWith :
      (m : StreamMessage) (run stored : RunRow) (result : ExecutionResult) (w : World)
      (old : JobRow)
      → get_job_row m.job_id w.db ≡ some old
      → get_run_row run.id w.db ≡ some stored
      → CompletedWith m.job_id run.id (succeed m run result w).1.db
        × ((succeed m run result w).1.sent ≡ ack_command m.message_id ∷ w.sent)
  unfolding succeed CompletedWith with_status
  succeed-CompletedWith m run stored result w old job_there run_there = (
    (
      (
        with_status w1.now completed none old,
        ap (λ (x : World). get_job_row m.job_id x.db) acked
            ∙ RowChanged-self m.job_id w1 w2 old _ _ changed still,
        refl,
      ),
      (
        finished.0,
        ap (λ (x : World). get_run_row run.id x.db) acked ∙ (changed.runs_kept run.id ∙ finished.1),
        finished.2,
      ),
    ),
    ap (λ (x : World). x.sent) acked
        ∙ ap (λ s. ack_command m.message_id ∷ s)
            (changed.nothing_sent ∙ sent-finish_run run.id completed result w),
  )
    where
      w1 : World
      w1 = finish_run run.id completed result w

      w2 : World
      w2 = (update_job_status m.job_id completed none w1).1

      still : get_job_row m.job_id w1.db ≡ some old
      still = get_job_row-finish_run m.job_id run.id completed result w ∙ job_there

      changed :
          RowChanged w1 w2 old
            (with_status w1.now completed none old)
            (status_entry w1 completed none old)
      changed = (update_job_status-RowChanged m.job_id completed none w1 old still).0

      finished :
          (r : RunRow) × (get_run_row run.id w1.db ≡ some r)
          × (r.status ≡ completed)
          × (r.finished_at ≡ some w.now)
      finished = get_run_row-finish_run run.id completed result w stored run_there

      acked : (Stream.ack m.message_id w2).1 ≡ after_command (ack_command m.message_id) w2
      acked = ack-after_command m.message_id w2

  conclude-succeed :
      (run_job : JobRunner) (m : StreamMessage) (run : RunRow) (result : ExecutionResult)
      (w : World)
      → result.success ≡ true
      → conclude run_job m run result w ≡ succeed m run result w
  unfolding conclude
  conclude-succeed run_job m run result w success = rw (success, conclude)

  -- The state in which the job of a message is started, and the executors that it may use.
  abbrev start_of : StreamMessage → String → World → Result (Option RunRow) × World
  start_of m worker_id w =
      start_run m.job_id worker_id (update_job_status m.job_id running (some worker_id) w).1

  abbrev run_of : JobRunner → StreamMessage → String → Job → World → Result ExecutionResult × World
  run_of run_job m worker_id job w =
      run_job job (get_executor_allowlist_for_job m.job_id (start_of m worker_id w).1.db)
        (start_of m worker_id w).1

  -- The body of a message whose run starts and succeeds.
  process_leased-succeed :
      (run_job : JobRunner) (m : StreamMessage) (worker_id : String) (job : Job) (w : World)
      (run : RunRow) (result : ExecutionResult)
      → (start_of m worker_id w).0 ≡ ok (some run)
      → (run_of run_job m worker_id job w).0 ≡ ok result
      → result.success ≡ true
      → process_leased run_job m worker_id job w
        ≡ succeed m run result (run_of run_job m worker_id job w).1
  unfolding process_leased
  process_leased-succeed run_job m worker_id job w run result started returned success =
      then_run-ok (start_of m worker_id w) (run_started run_job m job) (some run) started
      ∙ (then_run-ok (run_of run_job m worker_id job w) (conclude run_job m run) result returned
          ∙ conclude-succeed run_job m run result (run_of run_job m worker_id job w).1 success)

  -- `process_message` with the lease, for a job that is not finished and a runner that succeeds with
  -- this job and the executors of its tenant and leaves the rows alone, if the id drawn for the run is
  -- unused: the job ends COMPLETED, with a COMPLETED run under the id that was drawn.
  pub process_message-CompletedWith :
      (run_job : JobRunner) (m : StreamMessage) (worker_id : String) (w : World) (old : JobRow)
      → Succeeds run_job
          (job_of_row w.db old)
          (executor_allowlist_for (get_tenant old.tenant_id w.db))
      → get_job_row m.job_id w.db ≡ some old
      → is_finished old.status ≡ false
      → (Lease.acquire m.job_id worker_id w).0 ≡ ok true
      → get_run_row (env.uuid (w.drawn + 1)) w.db ≡ none
      → CompletedWith m.job_id (env.uuid (w.drawn + 1)) (process_message run_job m worker_id w).1.db
  unfolding job_of_row Succeeds
  process_message-CompletedWith run_job m worker_id w old succeeds there unfinished leased unused =
      let w2 = (update_job_status m.job_id running (some worker_id) w1).1 in
      let row = with_status w1.now running (some worker_id) old in
      let changed =
        (update_job_status-RowChanged m.job_id running (some worker_id) w1 old there).0 in
      let row_there = RowChanged-self m.job_id w1 w2 old row _ changed there in
      let count_after = drawn-update_job_status m.job_id running (some worker_id) w1 old there in
      let (run, started, _, _, same_id, stored, _, jobs_after) =
        start_run-fresh m.job_id worker_id w2 row row_there (
          ap (λ n. get_run_row (env.uuid n) w2.db) count_after
          ∙ (changed.runs_kept (env.uuid (w.drawn + 1)) ∙ unused)) in
      let w3 = (start_run m.job_id worker_id w2).1 in
      let allowed = get_executor_allowlist_for_job m.job_id w3.db in
      let same_allowed =
        allowed-start_run m.job_id worker_id w1 old row there row_there
          (tenant_id-with_status w1.now running (some worker_id) old)
          (jobs_after m.job_id ∙ row_there) in
      let (result, returned, success, keeps_jobs, keeps_runs) =
        subst (λ a. Succeeds run_job job a) (sym same_allowed) succeeds w3 in
      let w4 = (run_job job allowed w3).1 in
      let id_drawn : run.id ≡ env.uuid (w.drawn + 1) = same_id ∙ ap (λ n. env.uuid n) count_after in
      let body =
        process_leased-succeed run_job m worker_id job w1 run result started returned success in
      let done =
        (succeed-CompletedWith m run run result w4 row
          (keeps_jobs m.job_id ∙ (jobs_after m.job_id ∙ row_there))
          (keeps_runs run.id ∙ stored)).0 in
      rw
        (
          at_release,
          db-release m.job_id worker_id (process_leased run_job m worker_id job w1).1,
          body,
          sym id_drawn,
        )
        done
    where
      job : Job
      job = job_of_row w.db old

      w1 : World
      w1 = after_command (acquire_command m.job_id worker_id) w

      at_release :
          (process_message run_job m worker_id w).1
          ≡ (Lease.release m.job_id worker_id (process_leased run_job m worker_id job w1).1).1
      at_release =
          process_message-leased run_job m worker_id w job (get_job-any w.db m.job_id old there)
            unfinished leased
