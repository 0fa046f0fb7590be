-- ===== src/Worker.antt =====
-- src/orchestrator/worker.py: a worker takes a message of the stream, leases its job, runs it and
-- records how it ended. What the isolated run does, with all that other processes and the heartbeat
-- thread do to the shared state in the meantime, is the argument `run_job`.
pub mod Steps
pub mod Messages
pub mod Completion
pub mod Heartbeat
pub mod Allowed
use autonomous_ai_job_oreche.Prelude.{
  ℕ, ◌+◌, ◌%◌, String, Bool, true, false, ◌||◌, Option, none, some, List, [], ◌∷◌, ◌==◌,
  if◌then◌else◌,
}
use autonomous_ai_job_oreche.Services.{Env}
use autonomous_ai_job_oreche.Job.{Job, JobStatus, running, completed, failed, cancelled, status_eq}
use autonomous_ai_job_oreche.Db.{RunRow}
use autonomous_ai_job_oreche.Executor.{ExecutionResult}
use autonomous_ai_job_oreche.Stream
use autonomous_ai_job_oreche.Stream.{StreamMessage}
use autonomous_ai_job_oreche.Lease
use autonomous_ai_job_oreche.World.{World, Result, ok, err}
use autonomous_ai_job_oreche.Manager.{get_job, enqueue_job}
use autonomous_ai_job_oreche.Manager.Lifecycle.{update_job_status}
use autonomous_ai_job_oreche.Manager.Runs.{start_run, finish_run}
use autonomous_ai_job_oreche.Manager.Failure.{Action, retry, give_up, dlq, handle_execution_failure}
use autonomous_ai_job_oreche.Manager.Queries.{get_executor_allowlist_for_job}

abbrev pub is_finished : JobStatus → Bool
is_finished s = status_eq s cancelled || status_eq s completed || status_eq s failed

module _ ⦃env : Env⦄ where
  abbrev pub JobRunner : Type 0
  JobRunner = Job → List String → World → Result ExecutionResult × World

  -- One step after another, until one raises.
  infixl 5 ◌then_run◌
  abbrev pub ◌then_run◌ {ℓ κ} :
      {A : Type ℓ} {B : Type κ}
      → Result A × World
      → (A → World → Result B × World)
      → Result B × World
  (ok a, w) then_run f = f a w
  (err e, w) then_run f = (err e, w)

  -- `time.sleep`
  abbrev pub sleep : ℕ → World → World
  sleep d w = record w { now = w.now + d }

  -- The job succeeded: its run and its status are completed, and the message is acknowledged.
  unfoldable pub succeed :
      StreamMessage → RunRow → ExecutionResult → World → Result (Unit {0}) × World
  succeed m run result w =
      Stream.ack m.message_id
        (update_job_status m.job_id completed none (finish_run run.id completed result w)).1

  abbrev after_failure : StreamMessage → Action × ℕ → World → Result (Unit {0}) × World
  after_failure m (retry, delay) w =
      Stream.ack m.message_id w
      then_run (λ _ w1. enqueue_job m.job_id (sleep delay w1))
      then_run (λ _ w2. (ok tt, w2))
  after_failure m (give_up, delay) w = Stream.ack m.message_id w
  after_failure m (dlq, delay) w = Stream.ack m.message_id w

  -- The job failed: it is acknowledged, and after a retry decision enqueued again.
  unfoldable pub fail : StreamMessage → RunRow → ExecutionResult → World → Result (Unit {0}) × World
  fail m run result w =
      handle_execution_failure m.job_id run.id result (some m.message_id) w then_run after_failure m

  module _ (run_job : JobRunner) where
    unfoldable pub conclude :
        StreamMessage → RunRow → ExecutionResult → World → Result (Unit {0}) × World
    conclude m run result w = if result.success then succeed m run result w else fail m run result w

    abbrev run_started : StreamMessage → Job → Option RunRow → World → Result (Unit {0}) × World
    run_started m job none w = Stream.ack m.message_id w
    run_started m job (some run) w =
        run_job job (get_executor_allowlist_for_job m.job_id w.db) w then_run conclude m run

    -- What is done under the lease.
    unfoldable pub process_leased : StreamMessage → String → Job → World → Result (Unit {0}) × World
    process_leased m worker_id job w =
        start_run m.job_id worker_id (update_job_status m.job_id running (some worker_id) w).1
        then_run run_started m job

    -- `finally`: the lease is released, whether the body returned or raised.
    abbrev pub released :
        StreamMessage → String → Result (Unit {0}) × World → Result (Unit {0}) × World
    released m worker_id (r, w) = Lease.release m.job_id worker_id w then_run (λ _ w1. (r, w1))

    abbrev leased : StreamMessage → String → Job → Bool → World → Result (Unit {0}) × World
    leased m worker_id job false w = Lease.get_holder m.job_id w then_run (λ _ w1. (ok tt, w1))
    leased m worker_id job true w = released m worker_id (process_leased m worker_id job w)

    -- `_process_message`; that a message is reclaimed changes only what is logged.
    unfoldable pub process_message : StreamMessage → String → World → Result (Unit {0}) × World
    process_message m worker_id w = elim (get_job w.db m.job_id none) [
      | none ↦ Stream.ack m.message_id w
      | some job ↦
          if is_finished job.status
          then Stream.ack m.message_id w
          else Lease.acquire m.job_id worker_id w then_run leased m worker_id job
    ]

    unfoldable pub process_all : List StreamMessage → String → World → Result (Unit {0}) × World
    process_all [] worker_id w = (ok tt, w)
    process_all (m ∷ ms) worker_id w =
        process_message m worker_id w then_run (λ _ w1. process_all ms worker_id w1)

    abbrev process_read : String → Option StreamMessage → World → Result (Unit {0}) × World
    process_read worker_id none w = (ok tt, w)
    process_read worker_id (some m) w = process_message m worker_id w

    unfoldable pub reclaim : String → World → Result (Unit {0}) × World
    reclaim worker_id w =
        Stream.claim_stale_messages worker_id 10 w then_run (λ ms w1. process_all ms worker_id w1)

    abbrev reclaim_now : ℕ → Bool
    reclaim_now loop_count = loop_count % env.settings.reclaim_every_n_loops == 0

    -- One round of the loop; an exception is logged, and the loop goes on two seconds later.
    abbrev caught : Result (Unit {0}) × World → World
    caught (ok _, w) = w
    caught (err e, w) = sleep 2_000_000 w

    unfoldable pub worker_round : String → ℕ → World → World
    worker_round worker_id loop_count w =
        if env.settings.reclaim_every_n_loops == 0
        then sleep 2_000_000 w
        else caught (
            (if reclaim_now loop_count then reclaim worker_id w else (ok tt, w))
            then_run (λ _ w1. Stream.read worker_id 1 w1)
            then_run process_read worker_id)
