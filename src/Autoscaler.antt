-- ===== src/Autoscaler.antt =====
-- src/orchestrator/autoscaler.py: the number of workers for a backlog, and the loop that scales them.
pub mod Desired
pub mod Hysteresis
pub mod Docker
use autonomous_ai_job_oreche.Prelude.{
  ℕ, ◌+◌, ◌-◌, ◌/◌, min, max, String, Bool, false, Option, none, some, List, [], ◌∷◌, count, ltb,
  leb, ◌==◌, str_eq, if◌then◌else◌,
}
use autonomous_ai_job_oreche.Services.{Env, Reply, xinfo_groups, groups, failure}
use autonomous_ai_job_oreche.Job.{pending, status_eq}
use autonomous_ai_job_oreche.Db.{JobRow, job_rows}
use autonomous_ai_job_oreche.World.{World, call, Result, ok, err, redis_error}

-- `math.ceil(backlog / per_worker)`
abbrev pub ceil_div : ℕ → ℕ → ℕ
ceil_div a b = (a + (b - 1)) / b

-- A division by zero raises: `none`.
unfoldable pub compute_desired_workers : ℕ → ℕ → ℕ → ℕ → Option ℕ
compute_desired_workers backlog min_workers max_workers per_worker =
    if backlog == 0
    then some min_workers
    else if per_worker == 0
    then none
    else some (max min_workers (min max_workers (ceil_div backlog per_worker)))

-- The lag of the group of workers; a later group of the name counts.
lag_of : String → ℕ → List (String × ℕ) → ℕ
lag_of group lag [] = lag
lag_of group lag ((name, n) ∷ rest) = lag_of group (if str_eq name group then n else lag) rest

-- The decision loop over any scaler: the time since when the need is below what runs. `scale_to`
-- says whether it raised, after what it had done by then.
pub record Scaler (S : Type 0) : Type 0 where
  pub workers : S → ℕ
  pub scale_to : ℕ → S → S × Bool

pub record Loop (S : Type 0) : Type 0 where
  pub scaler : S
  pub below_since : Option ℕ

module _ ⦃env : Env⦄ where
  open env use {settings}

  abbrev stream_lag : Reply × World → Result ℕ × World
  stream_lag (groups gs, w) = (ok (lag_of settings.job_stream_group 0 gs), w)
  stream_lag (failure e, w) = (err (redis_error e), w)
  stream_lag (_, w) = (ok 0, w)

  abbrev plus_pending : ℕ → Result ℕ × World → Result ℕ × World
  plus_pending pending_db (ok lag, w) = (ok (pending_db + lag), w)
  plus_pending pending_db (err e, w) = (err e, w)

  -- PENDING jobs and entries of the stream that no worker has; a missing stream has no lag.
  unfoldable pub get_backlog : World → Result ℕ × World
  unfolding lag_of call
  get_backlog w =
      plus_pending (count (λ (r : JobRow). status_eq r.status pending) (job_rows w.db))
        (stream_lag (call (xinfo_groups settings.job_stream_key) w))

  module _ {S : Type 0} (ops : Scaler S) where
    -- What raises ends the step, and the time is not reset.
    abbrev after_scaling : S × Bool → Loop S → Loop S
    after_scaling (s, raised) l = record {
      scaler = s;
      below_since = if raised then l.below_since else none;
    }

    abbrev scaled : ℕ → Loop S → Loop S
    scaled desired l = after_scaling (ops.scale_to desired l.scaler) l

    abbrev cooled_down : Option ℕ → ℕ → Bool
    cooled_down none now = false
    cooled_down (some since) now = leb settings.autoscale_scale_down_cooldown (now - since)

    abbrev waiting_since : Option ℕ → ℕ → Option ℕ
    waiting_since none now = some now
    waiting_since (some since) now = some since

    unfoldable pub decide : ℕ → ℕ → Loop S → Loop S
    decide desired now l =
        let current = ops.workers l.scaler in
        if ltb current desired
        then scaled desired l
        else if ltb desired current
        then (if cooled_down l.below_since now
            then scaled desired l
            else record l { below_since = waiting_since l.below_since now })
        else record l { below_since = none }

    abbrev decided : Option ℕ → ℕ → Loop S → Option (Loop S)
    decided none now l = none
    decided (some desired) now l = some (decide desired now l)

    -- One tick at a backlog and a time; `none` if the division raises.
    unfoldable pub step : ℕ → ℕ → Loop S → Option (Loop S)
    unfolding compute_desired_workers decide
    step backlog now l =
        decided
          (compute_desired_workers backlog settings.autoscale_min_workers
            settings.autoscale_max_workers settings.autoscale_backlog_per_worker)
          now l

    abbrev kept_or : Option (Loop S) → Loop S → Loop S
    kept_or none l = l
    kept_or (some l1) l = l1

    -- The loop of `main` over the backlogs and times of its ticks; it goes on after an exception.
    unfoldable pub run : List (ℕ × ℕ) → Loop S → Loop S
    unfolding step
    run [] l = l
    run ((backlog, now) ∷ ticks) l = run ticks (kept_or (step backlog now l) l)
