-- ===== src/Executor/Isolation.antt =====
-- src/orchestrator/runners: proofs on jobs that run in a child process.
use autonomous_ai_job_oreche.Prelude.{
  ℕ, zero, suc, ℤ, pos, negsuc, is_zero, String, Bool, true, false, Option, none, some, List, ◌≡◌,
  refl, sym, ap, ◌∙◌, ◌⊎◌, inl, inr,
}
use autonomous_ai_job_oreche.Services.{Env}
use autonomous_ai_job_oreche.Job.{Json, number, Job}
use autonomous_ai_job_oreche.Executor.{ExecutionResult}
use autonomous_ai_job_oreche.Executor.Runner.{
  Ended, timed_out, exited, Envelope, envelope, timeout_seconds, result_of, read_result,
  unless_disallowed, allowlist_or, executor_error_if_disallowed, disabled_unless, run,
}
use autonomous_ai_job_oreche.Executor.Dispatch.{
  Machine, Executed, done, raises, memory_error, exception, base_exception, execute_job,
  unless_refused,
}
use autonomous_ai_job_oreche.Executor.Child.{Limit, apply_limits, reported, child_main}
use autonomous_ai_job_oreche.World.{◌>>=◌, Result, ok, err, ok-inj}
use autonomous_ai_job_oreche.Manager.{executor_type}
use autonomous_ai_job_oreche.Settings.{executor_allowlist}
use autonomous_ai_job_oreche.Policy.{json_in}
use autonomous_ai_job_oreche.Executor.Dispatch.Results.{Coherent, CoherentEnd, execute_job-Coherent}

abbrev CoherentIf : Option ExecutionResult → Type 0
CoherentIf none = Unit {0}
CoherentIf (some r) = Coherent r

reported-Coherent : (x : Executed) → CoherentEnd x → CoherentIf (reported x)
unfolding reported
reported-Coherent (done s) c = c
reported-Coherent (raises (memory_error e)) c = refl
reported-Coherent (raises (exception e)) c = refl
reported-Coherent (raises (base_exception e)) c = tt

-- A child that dies without a result never counts as a success.
read_result-Coherent :
    (code : ℤ) (stderr : String) (duration : ℕ) (written : Option ExecutionResult)
    → CoherentIf written
    → Coherent (read_result code stderr duration written)
unfolding read_result
read_result-Coherent code stderr duration (some r) c = c
read_result-Coherent (pos zero) stderr duration none c = refl
read_result-Coherent (pos (suc n)) stderr duration none c = refl
read_result-Coherent (negsuc n) stderr duration none c = refl

result_of-written :
    (timeout : ℕ) (code : ℤ) (stderr : String) (duration : ℕ) (written : Option ExecutionResult)
    (r : ExecutionResult)
    → written ≡ some r
    → result_of timeout (exited code stderr duration written) ≡ r
unfolding result_of read_result
result_of-written timeout code stderr duration (some x) r h = cc
result_of-written timeout code stderr duration none r h = cc

module _ ⦃env : Env⦄ (show : Json → String) (show_seconds : ℤ → String)
    (host : List Limit → Machine) (spawn : Envelope → Ended) where
  open env use {settings}

  abbrev shown : ℤ → String
  shown n = show (number n)

  -- The child of an envelope is killed at the timeout, or it exits, and its file holds nothing or
  -- what its `main` wrote.
  unfoldable pub RunsMain : Envelope → Type 0
  RunsMain e =
      ((duration : ℕ) × (spawn e ≡ timed_out duration))
      ⊎ ((code : ℤ) × (stderr : String) × (duration : ℕ) × (written : Option ExecutionResult)
          × (spawn e ≡ exited code stderr duration written)
          × ((written ≡ none) ⊎ (written ≡ child_main show show_seconds host e)))

  result_of-Coherent :
      (timeout : ℕ) (e : Envelope) → RunsMain e → Coherent (result_of timeout (spawn e))
  unfolding RunsMain result_of child_main
  result_of-Coherent timeout e (inl (duration, killed)) = rw killed refl
  result_of-Coherent timeout e (inr (code, stderr, duration, written, ended, by_main)) =
      rw ended (read_result-Coherent code stderr duration written (by_written by_main))
    where
      by_written :
          (written ≡ none) ⊎ (written ≡ child_main show show_seconds host e) → CoherentIf written
      by_written (inl nothing) = rw nothing tt
      by_written (inr main) = rw main (
          reported-Coherent (execute_job show show_seconds (host (apply_limits e)) e.job e.allowed)
            (execute_job-Coherent show show_seconds (host (apply_limits e)) e.job e.allowed))

  main-executes :
      (job : Job) (allowed : Option (List String))
      → child_main show show_seconds host (envelope shown job allowed)
        ≡ reported (
            execute_job show show_seconds
              (host (apply_limits (envelope shown job allowed)))
              job
              allowed)
  unfolding child_main envelope
  main-executes job allowed = refl

  -- If the type of the job can be looked up in the list of executors, and the child process exits
  -- and its file holds what its `main` wrote, which is a result, then running the job in the child
  -- returns exactly what the handlers of the child make of calling execute_job under its limits.
  pub run-execute_job :
      (job : Job) (allowed : Option (List String)) (x : Option ExecutionResult) (code : ℤ)
      (stderr : String) (duration : ℕ) (r : ExecutionResult)
      → executor_error_if_disallowed shown job allowed ≡ ok x
      → spawn (envelope shown job allowed)
        ≡ exited code stderr duration
            (child_main show show_seconds host (envelope shown job allowed))
      → reported (
          execute_job show show_seconds
            (host (apply_limits (envelope shown job allowed)))
            job
            allowed)
        ≡ some r
      → run shown spawn job allowed ≡ ok r
  unfolding run execute_job reported
  run-execute_job job allowed x code stderr duration r checked ended result =
      by_check (executor_error_if_disallowed shown job allowed) checked result
    where
      by_check :
          (c : Result (Option ExecutionResult))
          → c ≡ ok x
          → reported (
              unless_refused show show_seconds
                (host (apply_limits (envelope shown job allowed)))
                job
                c)
            ≡ some r
          → (c >>= unless_disallowed shown spawn job allowed) ≡ ok r
      by_check (err e) found same = absurd (cc)
      by_check (ok (some refusal)) found same = cc
      by_check (ok none) found same = ap ok (
          ap (result_of (timeout_seconds shown job)) ended
          ∙ result_of-written (timeout_seconds shown job) code stderr duration
              (child_main show show_seconds host (envelope shown job allowed)) r
              (main-executes job allowed ∙ result))

  -- If the child runs its `main` when it is given the job, then whatever `run` returns, be it a
  -- refusal, the end of the child at the timeout, its death without a result or its result, is a
  -- success exactly if its exit code is zero.
  pub run-exit_code :
      (job : Job) (allowed : Option (List String)) (r : ExecutionResult)
      → RunsMain (envelope shown job allowed)
      → run shown spawn job allowed ≡ ok r
      → r.success ≡ is_zero r.exit_code
  unfolding run executor_error_if_disallowed
  run-exit_code job allowed r child h =
      by_permission
        (json_in (executor_type job.payload) (allowlist_or allowed (executor_allowlist settings))) h
    where
      by_permission :
          (c : Result Bool)
          → ((c >>= λ permitted. ok (disabled_unless shown (executor_type job.payload) permitted))
              >>= unless_disallowed shown spawn job allowed)
            ≡ ok r
          → Coherent r
      by_permission (err e) h = absurd (cc)
      by_permission (ok false) h = rw (sym (ok-inj h)) refl
      by_permission (ok true) h =
          rw (sym (ok-inj h))
            (result_of-Coherent (timeout_seconds shown job) (envelope shown job allowed) child)
