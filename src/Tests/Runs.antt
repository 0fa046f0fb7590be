-- ===== src/Tests/Runs.antt =====
-- Tests on src/orchestrator/runners and src/orchestrator/executors.
use autonomous_ai_job_oreche.Prelude.{
  ℤ, pos, is_zero, String, inr, none, some, ◌≡◌, refl, strip, stripped, split_commas, contains,
}
use autonomous_ai_job_oreche.Settings.{executor_allowlist}
use autonomous_ai_job_oreche.Job.{Json, number, text, field, no_fields, get_field}
use autonomous_ai_job_oreche.Policy.{json_in}
use autonomous_ai_job_oreche.World.{ok}
use autonomous_ai_job_oreche.Manager.{executor_type}
use autonomous_ai_job_oreche.Executor.Runner.{
  Ended, exited, Envelope, executor_error_if_disallowed, result_of, read_result, run, envelope,
}
use autonomous_ai_job_oreche.Executor.{ExecutionResult}
use autonomous_ai_job_oreche.Executor.Dispatch.{
  Machine, finished, raised, completed, memory_error, exception, succeeded, failed_with, done,
  execute_job, execute_as, execute_sleep, execute_python,
}
use autonomous_ai_job_oreche.Executor.Child.{reported, child_main}
use autonomous_ai_job_oreche.Executor.Isolation.{RunsMain, run-execute_job, run-exit_code}
use autonomous_ai_job_oreche.Executor.Runner.Success.{RanToEnd, run-RanToEnd}
use autonomous_ai_job_oreche.Tests.{test_env, created, success, base}

abbrev pub no_number : ℤ → String
no_number n = "0"

abbrev child : Envelope → Ended
child e = exited (pos 0) "" 5 (some success)

ran : run no_number child created none ≡ ok success
unfolding run executor_error_if_disallowed json_in executor_type get_field executor_allowlist
    stripped split_commas strip contains result_of read_result
ran = refl

run-RanToEnd_example : RanToEnd no_number child created none success
run-RanToEnd_example = run-RanToEnd no_number child created none success ran refl

abbrev pub no_text : Json → String
no_text j = "0"

-- Commands end with 3, modules run out of memory.
abbrev pub machine : Machine
machine = record {
  shell = λ command timeout. finished (completed (pos 3) "out" "") 7;
  call = λ m f args. raised (memory_error (record { message = "m"; trace = "t" })) 7;
  sleep = λ d. finished tt 9;
  unhashable = λ j. exception (record { message = "m"; trace = "t" });
}

abbrev pub slept : ExecutionResult
slept = succeeded "Slept for 0 seconds" 9

abbrev pub isolated : Envelope → Ended
isolated e = exited (pos 0) "" 5 (child_main no_text no_number (λ limits. machine) e)

created_allowed : executor_error_if_disallowed (λ n. no_text (number n)) created none ≡ ok none
unfolding executor_error_if_disallowed json_in executor_type get_field executor_allowlist stripped
    split_commas strip contains
created_allowed = refl

created_sleeps : reported (execute_job no_text no_number machine created none) ≡ some slept
unfolding reported execute_job executor_error_if_disallowed json_in executor_type get_field
    executor_allowlist stripped split_commas strip contains execute_as execute_sleep
created_sleeps = refl

run-execute_job_example : run (λ n. no_text (number n)) isolated created none ≡ ok slept
run-execute_job_example =
    run-execute_job no_text no_number (λ limits. machine) isolated created none none (pos 0) "" 5
      slept created_allowed refl created_sleeps

isolated-RunsMain :
    RunsMain no_text no_number
      (λ limits. machine)
      isolated
      (envelope (λ n. no_text (number n)) created none)
unfolding RunsMain
isolated-RunsMain = inr (
  pos 0,
  "",
  5,
  child_main no_text no_number (λ limits. machine)
      (envelope (λ n. no_text (number n)) created none),
  refl,
  inr refl,
)

run-exit_code_example : slept.success ≡ is_zero slept.exit_code
run-exit_code_example =
    run-exit_code no_text no_number (λ limits. machine) isolated created none slept
      isolated-RunsMain run-execute_job_example

-- The executor for modules reports a lack of memory as any other failure.
out_of_memory :
    execute_python no_text no_number machine (record created {
      base = record base {
        payload = field "module" (text "m") (field "function" (text "f") no_fields);
      };
    })
    ≡ done (failed_with "t" 7 "Error executing 0.0: m")
unfolding execute_python get_field
out_of_memory = refl
