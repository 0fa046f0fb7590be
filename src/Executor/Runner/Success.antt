-- ===== src/Executor/Runner/Success.antt =====
-- src/orchestrator/runners/subprocess_runner.py: proofs on a successful run.
use autonomous_ai_job_oreche.Prelude.{
  ℕ, ℤ, String, Bool, true, false, Option, none, some, List, ◌≡◌, refl, ap, ◌∙◌, contains,
}
use autonomous_ai_job_oreche.Services.{Env}
use autonomous_ai_job_oreche.Settings.{executor_allowlist}
use autonomous_ai_job_oreche.Job.{Json, null, bool, number, text, array, object, Job}
use autonomous_ai_job_oreche.Executor.{ExecutionResult}
use autonomous_ai_job_oreche.Policy.{json_in}
use autonomous_ai_job_oreche.World.{ok, >>=-eq-ok, ok-inj}
use autonomous_ai_job_oreche.Manager.{executor_type}
use autonomous_ai_job_oreche.Executor.Runner.{
  Ended, timed_out, exited, Envelope, allowlist_or, disabled_unless, executor_error_if_disallowed,
  timeout_seconds, envelope, result_of, read_result, unless_disallowed, run,
}

-- A text of the list is what is in a set of texts.
json_in-true :
    (j : Json) (allowed : List String)
    → json_in j allowed ≡ ok true
    → (t : String) × (j ≡ text t) × (contains t allowed ≡ true)
unfolding json_in
json_in-true (text s) allowed h = (s, refl, ok-inj h)
json_in-true null allowed h = cc
json_in-true (bool b) allowed h = cc
json_in-true (number n) allowed h = cc
json_in-true (array xs) allowed h = cc
json_in-true (object fs) allowed h = cc

result_of-success :
    (timeout : ℕ) (e : Ended) (r : ExecutionResult)
    → result_of timeout e ≡ r
    → r.success ≡ true
    → (code : ℤ) × (stderr : String) × (duration : ℕ) × (e ≡ exited code stderr duration (some r))
unfolding result_of read_result
result_of-success timeout (timed_out d) r h s =
    absurd (clash (ap (λ (x : ExecutionResult). x.success) h ∙ s))
  where
    clash : false ≡ true → ⊥
    clash e = cc
result_of-success timeout (exited c e d none) r h s =
    absurd (clash (ap (λ (x : ExecutionResult). x.success) h ∙ s))
  where
    clash : false ≡ true → ⊥
    clash e = cc
result_of-success timeout (exited c e d (some x)) r h s =
    (c, e, d, ap (λ y. exited c e d (some y)) h)

module _ ⦃env : Env⦄ (show_number : ℤ → String) (spawn : Envelope → Ended) where
  open env use {settings}

  -- The type of the job is a text of the list of executors that counts for it, and the child exited
  -- with the result `r` written.
  pub RanToEnd : Job → Option (List String) → ExecutionResult → Type 0
  RanToEnd job allowed r =
      ((t : String) × (executor_type job.payload ≡ text t)
        × (contains t (allowlist_or allowed (executor_allowlist settings)) ≡ true))
      × ((code : ℤ) × (stderr : String) × (duration : ℕ) × (spawn (envelope show_number job allowed)
            ≡ exited code stderr duration (some r)))

  by_permission :
      (job : Job) (allowed : Option (List String)) (r : ExecutionResult) (permitted : Bool)
      → json_in (executor_type job.payload) (allowlist_or allowed (executor_allowlist settings))
        ≡ ok permitted
      → unless_disallowed show_number spawn job allowed
          (disabled_unless show_number (executor_type job.payload) permitted)
        ≡ ok r
      → r.success ≡ true
      → RanToEnd job allowed r
  unfolding RanToEnd
  by_permission job allowed r true there h s = (
    json_in-true (executor_type job.payload) (allowlist_or allowed (executor_allowlist settings))
        there,
    result_of-success (timeout_seconds show_number job) (spawn (envelope show_number job allowed)) r
        (ok-inj h) s,
  )
  by_permission job allowed r false there h s =
      absurd (clash (ap (λ (x : ExecutionResult). x.success) (ok-inj h) ∙ s))
    where
      clash : false ≡ true → ⊥
      clash e = cc

  -- If `run` returns a successful result, then the job's executor is in the list that was given for
  -- its tenant, or in that of the settings if that one is missing or empty, and the child process
  -- exited by itself and wrote this very result: neither a timeout nor a crash is ever a success.
  pub run-RanToEnd :
      (job : Job) (allowed : Option (List String)) (r : ExecutionResult)
      → run show_number spawn job allowed ≡ ok r
      → r.success ≡ true
      → RanToEnd job allowed r
  unfolding run executor_error_if_disallowed
  run-RanToEnd job allowed r h s =
      let (refusal, checked, rest) =
        >>=-eq-ok (executor_error_if_disallowed show_number job allowed)
          (unless_disallowed show_number spawn job allowed) r h in
      let (permitted, there, same) =
        >>=-eq-ok
          (json_in (executor_type job.payload) (allowlist_or allowed (executor_allowlist settings)))
          (λ permitted. ok (disabled_unless show_number (executor_type job.payload) permitted))
          refusal checked in
      by_permission job allowed r permitted there
        (ap (unless_disallowed show_number spawn job allowed) (ok-inj same) ∙ rest) s
