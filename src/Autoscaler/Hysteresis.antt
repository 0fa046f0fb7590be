-- ===== src/Autoscaler/Hysteresis.antt =====
-- src/orchestrator/autoscaler.py: proofs on the loop and its cooldown.
use autonomous_ai_job_oreche.Prelude.{
  ℕ, ◌+◌, ◌≤◌, ◌<◌, Bool, true, false, Option, none, some, List, [], ◌∷◌, ◌≡◌, refl, Bool-cases,
  ltb→lt, inl, inr, arith, All, ltb,
}
use autonomous_ai_job_oreche.Services.{Env}
use autonomous_ai_job_oreche.Autoscaler.{
  Scaler, Loop, after_scaling, cooled_down, waiting_since, decided, kept_or,
  compute_desired_workers, decide, step, run,
}

module _ ⦃env : Env⦄ {S : Type 0} (ops : Scaler S) where
  open env use {settings}

  -- Scaling up never stops a worker.
  unfoldable pub Lawful : Type 0
  Lawful = (n : ℕ) (s : S) → ops.workers s < n → ops.workers s ≤ ops.workers (ops.scale_to n s).0

  -- A tick at a time from `start` on, within the cooldown.
  unfoldable pub Within : ℕ → ℕ × ℕ → Type 0
  Within start t = (start ≤ t.1) × (t.1 < start + settings.autoscale_scale_down_cooldown)

  -- The need was not below the workers before `start`.
  abbrev BelowFrom : ℕ → Option ℕ → Type 0
  BelowFrom start none = Unit {0}
  BelowFrom start (some since) = start ≤ since

  decide-grows :
      (start desired now : ℕ) (l : Loop S)
      → Lawful
      → start ≤ now
      → now < start + settings.autoscale_scale_down_cooldown
      → BelowFrom start l.below_since
      → (ops.workers l.scaler ≤ ops.workers (decide ops desired now l).scaler)
        × BelowFrom start (decide ops desired now l).below_since
  unfolding decide Lawful
  decide-grows start desired now l law from within below =
      elim (Bool-cases (ltb (ops.workers l.scaler) desired)) [
        | inl up ↦ rw up (
            by_scaling (ops.scale_to desired l.scaler)
              (law desired l.scaler (ltb→lt (ops.workers l.scaler) desired up)))
        | inr not_up ↦ elim (Bool-cases (ltb desired (ops.workers l.scaler))) [
          | inl down ↦
              rw (not_up, down, still_hot l.below_since below)
                (omega arith, waits l.below_since below)
          | inr same ↦ rw (not_up, same) (omega arith, tt)
        ]
      ]
    where
      by_scaling :
          (r : S × Bool)
          → ops.workers l.scaler ≤ ops.workers r.0
          → (ops.workers l.scaler ≤ ops.workers (after_scaling ops r l).scaler)
            × BelowFrom start (after_scaling ops r l).below_since
      by_scaling (s, true) more = (more, below)
      by_scaling (s, false) more = (more, tt)

      still_hot : (b : Option ℕ) → BelowFrom start b → cooled_down ops b now ≡ false
      still_hot none h = refl
      still_hot (some since) h = ground arith

      waits : (b : Option ℕ) → BelowFrom start b → BelowFrom start (waiting_since ops b now)
      waits none h = from
      waits (some since) h = h

  step-grows :
      (start backlog now : ℕ) (l : Loop S)
      → Lawful
      → start ≤ now
      → now < start + settings.autoscale_scale_down_cooldown
      → BelowFrom start l.below_since
      → (ops.workers l.scaler ≤ ops.workers (kept_or ops (step ops backlog now l) l).scaler)
        × BelowFrom start (kept_or ops (step ops backlog now l) l).below_since
  unfolding step
  step-grows start backlog now l law from within below = by_desired (
      compute_desired_workers backlog settings.autoscale_min_workers settings.autoscale_max_workers
        settings.autoscale_backlog_per_worker)
    where
      by_desired :
          (d : Option ℕ)
          → (ops.workers l.scaler ≤ ops.workers (kept_or ops (decided ops d now l) l).scaler)
            × BelowFrom start (kept_or ops (decided ops d now l) l).below_since
      by_desired none = (omega arith, below)
      by_desired (some d) = decide-grows start d now l law from within below

  run-grows :
      (start : ℕ) (ticks : List (ℕ × ℕ)) (l : Loop S)
      → Lawful
      → BelowFrom start l.below_since
      → All (Within start) ticks
      → ops.workers l.scaler ≤ ops.workers (run ops ticks l).scaler
  unfolding run Within
  run-grows start [] l law below within = omega arith
  run-grows start ((backlog, now) ∷ ticks) l law below ((from, before), rest) =
      let (more, below1) = step-grows start backlog now l law from before below in
      omega (
        arith,
        more,
        run-grows start ticks (kept_or ops (step ops backlog now l) l) law below1 rest,
      )

  -- While less than the cooldown passes since the loop started, or since the need was last not
  -- below the workers, the loop never reduces the number of workers, whatever backlogs it sees and
  -- whether scaling raises, if scaling up never stops a worker.
  pub run-no_early_scale_down :
      (start : ℕ) (ticks : List (ℕ × ℕ)) (l : Loop S)
      → Lawful
      → l.below_since ≡ none
      → All (Within start) ticks
      → ops.workers l.scaler ≤ ops.workers (run ops ticks l).scaler
  run-no_early_scale_down start ticks l law fresh within =
      run-grows start ticks l law (rw fresh tt) within
