-- ===== src/Worker/Messages.antt =====
-- src/orchestrator/worker.py: proofs on a message whose job is not run.
use autonomous_ai_job_oreche.Prelude.{String, true, false, none, some, ◌≡◌, ap, ◌∙◌, ◌⊎◌, inl, inr}
use autonomous_ai_job_oreche.Services.{Env, get}
use autonomous_ai_job_oreche.Job.{Job, completed, failed, cancelled}
use autonomous_ai_job_oreche.Stream.{StreamMessage}
use autonomous_ai_job_oreche.Stream.Effects.{after_command, ack_command, ack-after_command}
use autonomous_ai_job_oreche.Lease
use autonomous_ai_job_oreche.Lease.{lease_key, holds}
use autonomous_ai_job_oreche.Lease.Effects.{
  acquire_command, acquire-after_command, get_holder-after_command,
}
use autonomous_ai_job_oreche.World.{World, Result, ok, err, Error}
use autonomous_ai_job_oreche.Manager.{get_job}
use autonomous_ai_job_oreche.Worker.Steps.{then_run-ok, then_run-err, keeps_state, result_kept}
use autonomous_ai_job_oreche.Worker.{
  JobRunner, is_finished, process_message, process_leased, leased, released, ◌then_run◌,
}

module _ ⦃env : Env⦄ (run_job : JobRunner) (m : StreamMessage) (worker_id : String)
    (w : World) where
  -- The job of the message is not in the table, or is cancelled, completed or failed.
  unfoldable pub NothingToDo : Type 0
  NothingToDo =
      (get_job w.db m.job_id none ≡ none)
      ⊎ ((job : Job) × (get_job w.db m.job_id none ≡ some job)
          × ((job.status ≡ cancelled) ⊎ ((job.status ≡ completed) ⊎ (job.status ≡ failed))))

  -- A message with nothing to do is acknowledged: that one command is all that changes the state.
  pub process_message-nothing_to_do :
      NothingToDo
      → (process_message run_job m worker_id w).1 ≡ after_command (ack_command m.message_id) w
  unfolding process_message NothingToDo
  process_message-nothing_to_do (inl absent) =
      rw (absent, process_message) (ack-after_command m.message_id w)
  process_message-nothing_to_do (inr (job, there, status)) =
      rw (there, process_message, finished status) (ack-after_command m.message_id w)
    where
      finished :
          (job.status ≡ cancelled) ⊎ ((job.status ≡ completed) ⊎ (job.status ≡ failed))
          → is_finished job.status ≡ true
      finished (inl e) = ap is_finished e
      finished (inr (inl e)) = ap is_finished e
      finished (inr (inr e)) = ap is_finished e

  pub process_message-unfinished :
      (job : Job)
      → get_job w.db m.job_id none ≡ some job
      → is_finished job.status ≡ false
      → process_message run_job m worker_id w
        ≡ (Lease.acquire m.job_id worker_id w then_run leased run_job m worker_id job)
  unfolding process_message
  process_message-unfinished job there unfinished = rw (there, process_message, unfinished)

  -- A message of an unfinished job whose lease another worker has stays unacknowledged and changes no
  -- table: the worker only tries the lease and reads who holds it. If trying the lease raises, that
  -- is all that is sent, and the error is passed on.
  pub process_message-no_lease :
      (job : Job)
      → get_job w.db m.job_id none ≡ some job
      → is_finished job.status ≡ false
      → ((Lease.acquire m.job_id worker_id w).0 ≡ ok false
          → (process_message run_job m worker_id w).1
            ≡ after_command
                (get (lease_key m.job_id))
                (after_command (acquire_command m.job_id worker_id) w))
        × ((e : Error)
            → (Lease.acquire m.job_id worker_id w).0 ≡ err e
            → process_message run_job m worker_id w
              ≡ (err e, after_command (acquire_command m.job_id worker_id) w))
  process_message-no_lease job there unfinished = (
    λ busy.
        ap (λ r. r.1)
          (process_message-unfinished job there unfinished
            ∙ then_run-ok (Lease.acquire m.job_id worker_id w) (leased run_job m worker_id job)
                false busy)
        ∙ (keeps_state (Lease.get_holder m.job_id (Lease.acquire m.job_id worker_id w).1) tt
            ∙ (get_holder-after_command m.job_id (Lease.acquire m.job_id worker_id w).1
                ∙ ap (after_command (get (lease_key m.job_id)))
                    (acquire-after_command m.job_id worker_id w))),
    λ e raised.
        process_message-unfinished job there unfinished
        ∙ (then_run-err (Lease.acquire m.job_id worker_id w) (leased run_job m worker_id job) e
              raised
            ∙ ap (λ x. (err e, x)) (acquire-after_command m.job_id worker_id w)),
  )

  -- With the lease, the state afterwards is the one that the release leaves after the body.
  pub process_message-leased :
      (job : Job)
      → get_job w.db m.job_id none ≡ some job
      → is_finished job.status ≡ false
      → (Lease.acquire m.job_id worker_id w).0 ≡ ok true
      → (process_message run_job m worker_id w).1
        ≡ (Lease.release m.job_id worker_id
            (process_leased run_job m worker_id job
              (after_command (acquire_command m.job_id worker_id) w)).1).1
  process_message-leased job there unfinished got =
      ap (λ r. r.1)
        (process_message-unfinished job there unfinished
          ∙ then_run-ok (Lease.acquire m.job_id worker_id w) (leased run_job m worker_id job) true
              got)
      ∙ (ap (λ x. (released run_job m worker_id (process_leased run_job m worker_id job x)).1)
            (acquire-after_command m.job_id worker_id w)
          ∙ released_state (
              process_leased run_job m worker_id job
                (after_command (acquire_command m.job_id worker_id) w)))
    where
      released_state :
          (r : Result (Unit {0}) × World)
          → (released run_job m worker_id r).1 ≡ (Lease.release m.job_id worker_id r.1).1
      released_state (r, w1) = result_kept r (Lease.release m.job_id worker_id w1)
