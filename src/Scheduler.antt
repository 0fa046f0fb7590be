-- ===== src/Scheduler.antt =====
-- src/orchestrator/scheduler.py: the scheduler picks a job whose parents are completed, by deadline or
-- by the agent, marks it RUNNING and enqueues it.
pub mod Edf
pub mod Ready
pub mod Rounds
pub mod Valid
pub mod Drained
pub mod Progress
use autonomous_ai_job_oreche.Prelude.{
  ℕ, suc, ◌+◌, min, Bool, true, false, ◌&&◌, ◌||◌, Option, none, some, List, [], ◌∷◌, any, filter,
  length, get_elem?, ltb, leb, ◌==◌, str_eq, if◌then◌else◌,
}
use autonomous_ai_job_oreche.Services.{Env}
use autonomous_ai_job_oreche.Job.{Job, pending, running, status_eq}
use autonomous_ai_job_oreche.World.{World, Result, ok, err, validation_error, ◌>>=◌}
use autonomous_ai_job_oreche.Agent.{max_jobs_input}
use autonomous_ai_job_oreche.Manager.{are_dependencies_met, dependencies_refused, enqueue_job}
use autonomous_ai_job_oreche.Manager.Lifecycle.{update_job_status}
use autonomous_ai_job_oreche.Manager.Queries.{list_jobs}

-- `deadline < other`, where no deadline counts as infinity.
abbrev pub earlier : Option ℕ → Option ℕ → Bool
earlier none d = false
earlier (some a) none = true
earlier (some a) (some b) = ltb a b

abbrev pub same_deadline : Option ℕ → Option ℕ → Bool
same_deadline none none = true
same_deadline (some a) (some b) = a == b
same_deadline _ _ = false

-- `(deadline, -priority) < (deadline', -priority')`
abbrev pub runs_before : Job → Job → Bool
runs_before a b =
    earlier a.deadline b.deadline
    || (same_deadline a.deadline b.deadline && ltb b.priority a.priority)

-- `min(range(n), key=...)`: the first index with the least key, among the job `best` at `index` and
-- those from `next` on.
unfoldable pub min_index : Job → ℕ → ℕ → List Job → ℕ
min_index best index next [] = index
min_index best index next (j ∷ js) =
    let take_it = min_index j next (suc next) js in
    let keep = min_index best index (suc next) js in if runs_before j best then take_it else keep

-- `min` of an empty range raises: `none`.
unfoldable pub select_by_edf : List Job → Option ℕ
unfolding min_index
select_by_edf [] = none
select_by_edf (j ∷ js) = some (min_index j 0 1 js)

module _ ⦃env : Env⦄ where
  abbrev pub runnable_of : World → List Job → List Job
  runnable_of w jobs =
      filter (λ (j : Job). are_dependencies_met w.db j none)
        (filter (λ (j : Job). status_eq j.status pending) jobs)

  -- A parent that `Job` refuses raises.
  abbrev pub runnable_or_raise : World → List Job → Result (List Job)
  runnable_or_raise w jobs =
      if any (λ (j : Job). dependencies_refused w.db j none)
        (filter (λ (j : Job). status_eq j.status pending) jobs)
      then err validation_error
      else ok (runnable_of w jobs)

  -- The runnable ones among the first 10,000 jobs, whatever their status, unless the list raises.
  unfoldable pub runnable_jobs : World → Result (List Job)
  runnable_jobs w = list_jobs none 10_000 0 none w.db >>= (λ page. runnable_or_raise w page.0)

  -- The agent's choice for the encoded jobs and the number of valid actions; `none` if it raises.
  module _ (agent : List Job → ℕ → Option ℕ) where
    abbrev pub agent_choice : List Job → Option ℕ → Option ℕ
    agent_choice jobs none = select_by_edf jobs
    agent_choice jobs (some i) = if leb (length jobs) i then select_by_edf jobs else some i

    unfoldable pub choose : List Job → Option ℕ
    unfolding select_by_edf
    choose jobs =
        if str_eq env.settings.scheduler_mode "ai"
        then agent_choice jobs (agent jobs (min (length jobs) max_jobs_input))
        else select_by_edf jobs

    abbrev job_at : List Job → Option ℕ → Option Job
    job_at jobs none = none
    job_at jobs (some i) = get_elem? jobs i

    -- An exception of the list is logged, and nothing is selected.
    abbrev pub selected_of : Result (List Job) → Option Job
    selected_of (err e) = none
    selected_of (ok jobs) = job_at jobs (choose jobs)

    unfoldable pub selected_job : World → Option Job
    unfolding choose runnable_jobs
    selected_job w = selected_of (runnable_jobs w)

    -- An exception of the enqueueing is logged, and the loop goes on.
    unfoldable pub dispatch : Job → World → World
    dispatch job w = (enqueue_job job.id (update_job_status job.id running (some "queued") w).1).1

    -- One round of the scheduler's loop, without the pause at its end.
    unfoldable pub scheduler_round : World → World
    scheduler_round w = elim (selected_job w) [ none ↦ w | some job ↦ dispatch job w ]

    -- `asyncio.sleep`, in which other processes do nothing.
    abbrev pub pause : ℕ → World → World
    pause d w = record w { now = w.now + d }

    -- `Scheduler.run`, with one round before each pause.
    unfoldable pub run : List ℕ → World → World
    unfolding scheduler_round
    run [] w = w
    run (d ∷ ds) w = run ds (pause d (scheduler_round w))
