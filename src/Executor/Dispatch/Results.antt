-- ===== src/Executor/Dispatch/Results.antt =====
-- src/orchestrator/executors: proofs on the results that the executors give.
use autonomous_ai_job_oreche.Prelude.{
  ℤ, is_zero, String, Bool, true, false, not, ◌||◌, Option, none, some, List, ◌≡◌, refl, inl, inr,
  Bool-cases, str_eq, if◌then◌else◌,
}
use autonomous_ai_job_oreche.Services.{Env}
use autonomous_ai_job_oreche.Job.{
  Json, number, null, bool, text, array, object, Job, truthy_json, get_field,
}
use autonomous_ai_job_oreche.Executor.{ExecutionResult}
use autonomous_ai_job_oreche.Executor.Runner.{
  refused_run, allowlist_or, executor_error_if_disallowed, disabled_unless,
}
use autonomous_ai_job_oreche.Executor.Dispatch.{
  Machine, Executed, done, raises, memory_error, exception, base_exception, Outcome, finished,
  raised, ShellEnd, completed, timeout_expired, execute_shell, execute_python, execute_sleep,
  execute_as, execute_job, unless_refused, shell_result, call_result, sleep_result, shell_timeout,
  get_or_null, or_no_args, sleep_duration,
}
use autonomous_ai_job_oreche.World.{◌>>=◌, Result, ok, err}
use autonomous_ai_job_oreche.Manager.{executor_type}
use autonomous_ai_job_oreche.Policy.{json_in}
use autonomous_ai_job_oreche.Settings.{executor_allowlist}

-- A result is a success exactly if its exit code is zero.
abbrev pub Coherent : ExecutionResult → Type 0
Coherent r = r.success ≡ is_zero r.exit_code

abbrev pub CoherentEnd : Executed → Type 0
CoherentEnd (done r) = Coherent r
CoherentEnd (raises e) = Unit

module _ (show : Json → String) (show_seconds : ℤ → String) (machine : Machine) where
  execute_shell-Coherent : (job : Job) → CoherentEnd (execute_shell show show_seconds machine job)
  unfolding execute_shell
  execute_shell-Coherent job =
      by_test (not (truthy_json (get_or_null "command" job.payload)))
        (machine.shell (get_or_null "command" job.payload) (shell_timeout job))
    where
      by_test :
          (missing : Bool) (o : Outcome ShellEnd)
          → CoherentEnd (
              if missing
              then done (refused_run "missing payload.command")
              else shell_result show show_seconds machine (shell_timeout job) o)
      by_test true o = refl
      by_test false (finished (completed code out e) d) = refl
      by_test false (finished (timeout_expired m) d) = refl
      by_test false (raised e d) = tt

  execute_python-Coherent : (job : Job) → CoherentEnd (execute_python show show_seconds machine job)
  unfolding execute_python
  execute_python-Coherent job =
      let m = get_or_null "module" job.payload in
      let f = get_or_null "function" job.payload in
      by_test m f (not (truthy_json m) || not (truthy_json f))
        (machine.call m f (or_no_args (get_field "args" job.payload)))
    where
      by_test :
          (m f : Json) (missing : Bool) (o : Outcome (Option String))
          → CoherentEnd (
              if missing
              then done (refused_run "missing payload.module or payload.function")
              else call_result show show_seconds machine m f o)
      by_test m f true o = refl
      by_test m f false (finished none d) = refl
      by_test m f false (finished (some s) d) = refl
      by_test m f false (raised (base_exception e) d) = tt
      by_test m f false (raised (exception e) d) = refl
      by_test m f false (raised (memory_error e) d) = refl

  execute_sleep-Coherent : (job : Job) → CoherentEnd (execute_sleep show show_seconds machine job)
  unfolding execute_sleep
  execute_sleep-Coherent job =
      let d = sleep_duration job.estimated_duration in by_end d (machine.sleep d)
    where
      by_end :
          (d : ℤ) (o : Outcome (Unit {0}))
          → CoherentEnd (sleep_result show show_seconds machine d o)
      by_end d (finished u t) = refl
      by_end d (raised e t) = tt

  execute_as-Coherent :
      (j : Json) (job : Job) → CoherentEnd (execute_as show show_seconds machine j job)
  unfolding execute_as
  execute_as-Coherent null job = refl
  execute_as-Coherent (bool b) job = refl
  execute_as-Coherent (number n) job = refl
  execute_as-Coherent (array xs) job = refl
  execute_as-Coherent (object fs) job = refl
  execute_as-Coherent (text t) job = elim (Bool-cases (str_eq t "shell")) [
    | inl shell ↦ rw shell (execute_shell-Coherent job)
    | inr other ↦ elim (Bool-cases (str_eq t "python")) [
      | inl python ↦ rw (other, python) (execute_python-Coherent job)
      | inr others ↦ elim (Bool-cases (str_eq t "sleep")) [
        | inl sleep ↦ rw (other, others, sleep) (execute_sleep-Coherent job)
        | inr unknown ↦ rw (other, others, unknown) refl
      ]
    ]
  ]

  module _ ⦃env : Env⦄ where
    open env use {settings}

    pub execute_job-Coherent :
        (job : Job) (allowed : Option (List String))
        → CoherentEnd (execute_job show show_seconds machine job allowed)
    unfolding execute_job executor_error_if_disallowed
    execute_job-Coherent job allowed =
        by_check
          (json_in (executor_type job.payload) (allowlist_or allowed (executor_allowlist settings)))
      where
        by_check :
            (c : Result Bool)
            → CoherentEnd (
                unless_refused show show_seconds machine job (
                  c >>= λ permitted.
                  ok
                    (disabled_unless (λ n. show (number n)) (executor_type job.payload) permitted)))
        by_check (err e) = tt
        by_check (ok true) = execute_as-Coherent (executor_type job.payload) job
        by_check (ok false) = refl
