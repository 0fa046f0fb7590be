-- ===== src/Tests/Workers.antt =====
-- Tests on the worker, its leases, the scheduler and the autoscaler of src/orchestrator.
use autonomous_ai_job_oreche.Prelude.{
  strip, stripped, split_commas, contains, ℕ, ◌+◌, length, eq_iff, ◌≤◌, String, Bool, true, false,
  Option, none, some, List, [], ◌∷◌, ◌≡◌, refl, arith, get_elem?, take, All, ◌⊎◌, inr,
}
use autonomous_ai_job_oreche.Services.{get}
use autonomous_ai_job_oreche.Job.{Job, get_field}
use autonomous_ai_job_oreche.Db.{
  get_tenant, get_job_row, get_run_row, JobRow, job_rows, dependency_rows,
}
use autonomous_ai_job_oreche.Stream.{StreamMessage, claim_stale_messages}
use autonomous_ai_job_oreche.Stream.Effects.{after_command, ack_command}
use autonomous_ai_job_oreche.Stream.Claims.{ReadAll, claim_command, claim_stale_messages-ReadAll}
use autonomous_ai_job_oreche.Lease
use autonomous_ai_job_oreche.Lease.{lease_key, renew}
use autonomous_ai_job_oreche.Lease.Effects.{acquire_command}
use autonomous_ai_job_oreche.World.{ok, err, Error, validation_error, call}
use autonomous_ai_job_oreche.Job.Validate.{
  valid_job_base, valid_dependency_count, valid_payload_size,
}
use autonomous_ai_job_oreche.Manager.{
  valid_row, get_job, job_of_row, find_job_row, dependencies_for_job, load_resource_req,
  executor_type,
}
use autonomous_ai_job_oreche.Worker.{JobRunner, is_finished, process_message}
use autonomous_ai_job_oreche.Worker.Heartbeat.{heartbeat, isolated_runner, isolated_runner-Succeeds}
use autonomous_ai_job_oreche.Policy.{executor_allowlist_for, json_in}
use autonomous_ai_job_oreche.Settings.{executor_allowlist}
use autonomous_ai_job_oreche.Executor.Runner
use autonomous_ai_job_oreche.Executor.Runner.{
  executor_error_if_disallowed, result_of, read_result, envelope,
}
use autonomous_ai_job_oreche.Executor.Child.{child_main, reported}
use autonomous_ai_job_oreche.Executor.Dispatch.{execute_job, execute_as, execute_sleep}
use autonomous_ai_job_oreche.Tests.Runs.{no_number, isolated, slept}
use autonomous_ai_job_oreche.Worker.Messages.{
  NothingToDo, process_message-nothing_to_do, process_message-no_lease,
}
use autonomous_ai_job_oreche.Worker.Completion.{
  Succeeds, CompletedWith, process_message-CompletedWith,
}
use autonomous_ai_job_oreche.Scheduler.{select_by_edf, runnable_jobs, scheduler_round}
use autonomous_ai_job_oreche.Scheduler.Edf.{AtLeast, MoreUrgent, select_by_edf-first}
use autonomous_ai_job_oreche.Scheduler
use autonomous_ai_job_oreche.Scheduler.Drained.{NothingReady}
use autonomous_ai_job_oreche.Scheduler.Valid.{ValidRows}
use autonomous_ai_job_oreche.Scheduler.Progress.{UniqueIds, pendings, run-drains}
use autonomous_ai_job_oreche.Scheduler.Ready.{RowsById, ReadyRow}
use autonomous_ai_job_oreche.Scheduler.Rounds.{Dispatched, scheduler_round-Dispatched}
use autonomous_ai_job_oreche.Autoscaler.{compute_desired_workers}
use autonomous_ai_job_oreche.Autoscaler.Desired.{Carries, compute_desired_workers-least}
use autonomous_ai_job_oreche.Tests.{test_env, stale, waiting, start, with_lease, success, created}

abbrev message : String → StreamMessage
message id = record { message_id = "1-0"; job_id = id }

abbrev works : JobRunner
works job allowed w = (ok success, w)

done_already : NothingToDo works (message "j2") "w" start
unfolding NothingToDo get_job get_job_row find_job_row job_of_row dependencies_for_job
    load_resource_req
done_already = inr (_, refl, inr (inr refl))

process_message-nothing_to_do_example :
    (process_message works (message "j2") "w" start).1 ≡ after_command (ack_command "1-0") start
process_message-nothing_to_do_example =
    process_message-nothing_to_do works (message "j2") "w" start done_already

j1_there : get_job_row "j1" start.db ≡ some waiting
unfolding get_job_row
j1_there = refl

j1_job :
    (granted : Bool)
    → get_job (with_lease granted).db "j1" none ≡ some (job_of_row start.db waiting)
unfolding get_job get_job_row find_job_row
j1_job granted = refl

j1_unfinished : is_finished (job_of_row start.db waiting).status ≡ false
unfolding job_of_row
j1_unfinished = refl

process_message-no_lease_example :
    ((Lease.acquire "j1" "w" (with_lease false)).0 ≡ ok false
      → (process_message works (message "j1") "w" (with_lease false)).1
        ≡ after_command
            (get (lease_key "j1"))
            (after_command (acquire_command "j1" "w") (with_lease false)))
    × ((e : Error)
        → (Lease.acquire "j1" "w" (with_lease false)).0 ≡ err e
        → process_message works (message "j1") "w" (with_lease false)
          ≡ (err e, after_command (acquire_command "j1" "w") (with_lease false)))
process_message-no_lease_example =
    process_message-no_lease works (message "j1") "w" (with_lease false)
      (job_of_row start.db waiting) (j1_job false) j1_unfinished

-- The job sleeps in a child process, which the heartbeat accompanies for two beats.
abbrev in_child : JobRunner
in_child = isolated_runner no_number isolated 2 "w"

child_returns :
    Runner.run no_number isolated
      (job_of_row start.db waiting)
      (some (executor_allowlist_for (get_tenant "acme" start.db)))
    ≡ ok slept
unfolding Runner.run executor_error_if_disallowed json_in executor_type get_field executor_allowlist
    stripped split_commas strip contains result_of read_result envelope child_main reported
    execute_job execute_as execute_sleep job_of_row executor_allowlist_for get_tenant
    dependencies_for_job load_resource_req
child_returns = refl

in_child-Succeeds :
    Succeeds in_child
      (job_of_row start.db waiting)
      (executor_allowlist_for (get_tenant "acme" start.db))
in_child-Succeeds =
    isolated_runner-Succeeds no_number isolated 2 "w" (job_of_row start.db waiting)
      (executor_allowlist_for (get_tenant "acme" start.db)) slept child_returns refl

lease_granted : (Lease.acquire "j1" "w" start).0 ≡ ok true
unfolding Lease.acquire call
lease_granted = refl

no_run : get_run_row "aa" start.db ≡ none
unfolding get_run_row
no_run = refl

process_message-CompletedWith_example :
    CompletedWith "j1" "aa" (process_message in_child (message "j1") "w" start).1.db
process_message-CompletedWith_example =
    process_message-CompletedWith in_child (message "j1") "w" start waiting in_child-Succeeds
      j1_there refl lease_granted no_run

compute_desired_workers-least_example :
    (n : ℕ) × (compute_desired_workers 12 1 5 5 ≡ some n)
    × (1 ≤ n)
    × (n ≤ 5)
    × (Carries 5 12 n ⊎ (n ≡ 5))
    × ((m : ℕ) → 1 ≤ m → Carries 5 12 m → n ≤ m)
compute_desired_workers-least_example =
    compute_desired_workers-least 12 1 5 5 (omega arith) (omega arith)

rows_by_id : RowsById start.db
unfolding RowsById get_job_row job_rows
rows_by_id = (refl, (refl, tt))

abbrev no_agent : List Job → ℕ → Option ℕ
no_agent jobs valid = none

scheduler_round-Dispatched_example :
    (((runnable_jobs start ≡ ok []) ⊎ (runnable_jobs start ≡ err validation_error))
      × (scheduler_round no_agent start ≡ start))
    ⊎ ((old : JobRow) × ReadyRow start.db old
        × Dispatched start (scheduler_round no_agent start) old)
scheduler_round-Dispatched_example = scheduler_round-Dispatched no_agent start rows_by_id

unique_ids : UniqueIds start.db
unfolding UniqueIds job_rows
unique_ids k = ground (arith, eq_iff "j1" k, eq_iff "j2" k, eq_iff "j1" "j2")

valid_rows : ValidRows start.db
unfolding ValidRows valid_row job_rows valid_job_base valid_dependency_count valid_payload_size
    job_of_row dependencies_for_job dependency_rows load_resource_req
valid_rows = (refl, (refl, tt))

few_rows : length (job_rows start.db) ≤ 10_000
unfolding job_rows
few_rows = omega arith

abbrev one_pause : List ℕ
one_pause = 2_000_000 ∷ []

one_pending : pendings start ≤ length one_pause
unfolding job_rows
one_pending = omega arith

run-drains_example :
    NothingReady (Scheduler.run no_agent one_pause start).db
    × (length (Scheduler.run no_agent one_pause start).sent
          + pendings (Scheduler.run no_agent one_pause start)
        ≡ length start.sent + pendings start)
run-drains_example = run-drains no_agent one_pause start unique_ids valid_rows few_rows one_pending

abbrev urgent : Job
urgent = record created { id = "b" }

select_by_edf-first_example :
    (i : ℕ) × (chosen : Job) × (select_by_edf (created ∷ urgent ∷ []) ≡ some i)
    × (get_elem? (created ∷ urgent ∷ []) i ≡ some chosen)
    × All
        (λ (j : Job). AtLeast chosen.deadline chosen.priority j.deadline j.priority)
        (created ∷ urgent ∷ [])
    × All
        (λ (j : Job). MoreUrgent chosen.deadline chosen.priority j.deadline j.priority)
        (take i (created ∷ urgent ∷ []))
select_by_edf-first_example = select_by_edf-first created (urgent ∷ [])

claim_stale_messages-ReadAll_example :
    ReadAll stale (after_command (claim_command "w" 10) start) (claim_stale_messages "w" 10 start)
claim_stale_messages-ReadAll_example = claim_stale_messages-ReadAll "w" 10 stale start refl

-- Three beats of the worker that holds the lease, and of one that does not.
heartbeat_test : length (heartbeat 3 "j1" "worker-1" start).sent ≡ 6
unfolding heartbeat renew call
heartbeat_test = refl

lost_test : length (heartbeat 3 "j1" "worker-2" start).sent ≡ 1
unfolding heartbeat renew call
lost_test = refl
