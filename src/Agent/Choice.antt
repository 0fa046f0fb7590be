-- ===== src/Agent/Choice.antt =====
-- src/rl_engine/agent.py and src/orchestrator/scheduler.py: proofs on what the agent picks.
use autonomous_ai_job_oreche.Prelude.{
  ℕ, ℤ, zero, suc, ◌+◌, ◌≤◌, ◌<◌, min, Bool, true, false, Option, some, List, [], ◌∷◌, ◌≡◌, refl,
  length, leb, eq_iff, arith, Bool-cases, inl, inr,
}
use autonomous_ai_job_oreche.Services.{Env}
use autonomous_ai_job_oreche.Job.{Job}
use autonomous_ai_job_oreche.Scheduler.{choose}
use autonomous_ai_job_oreche.Agent.{
  max_jobs_input, encode_state, masked, greatest, greater, select_action,
}

module _ {F : Type 0} (less : F → F → Bool) where
  -- Masked values are never taken.
  greatest-masked :
      (best : Option F) (index next : ℕ) (q_values : List F)
      → greatest less best index next (masked less zero q_values) ≡ index
  unfolding greatest
  greatest-masked best index next [] = refl
  greatest-masked best index next (q ∷ qs) = greatest-masked best index (suc next) qs

  greatest-below :
      (best : Option F) (index next n : ℕ) (q_values : List F)
      → index < next
      → greatest less best index next (masked less n q_values) < next + n
  unfolding greatest
  greatest-below best index next n [] h = omega arith
  greatest-below best index next zero (q ∷ qs) h =
      omega (arith, greatest-masked best index next (q ∷ qs))
  greatest-below best index next (suc n) (q ∷ qs) h =
      elim (Bool-cases (greater less (some q) best)) [
        | inl higher ↦
            rw higher (omega (arith, greatest-below (some q) next (suc next) n qs (omega arith)))
        | inr lower ↦
            rw lower (omega (arith, greatest-below best index (suc next) n qs (omega arith)))
      ]

  select_action-valid :
      (randint : ℕ → ℕ) (action_dim : ℕ) (explores : Bool) (q_values : List F) (valid : ℕ)
      → ((n : ℕ) → randint n ≤ n)
      → 1 ≤ valid
      → 1 ≤ length q_values
      → (i : ℕ) × (select_action less randint action_dim explores q_values valid ≡ some i)
        × (i < valid)
  unfolding select_action
  select_action-valid randint action_dim explores q_values zero draws some_valid values =
      absurd (omega arith)
  select_action-valid randint action_dim true q_values (suc n) draws some_valid values =
      (randint n, refl, omega (arith, draws n))
  select_action-valid randint action_dim false [] (suc n) draws some_valid values =
      absurd (omega arith)
  select_action-valid randint action_dim false (q ∷ qs) (suc n) draws some_valid values = (
    greatest less (some q) 0 1 (masked less n qs),
    refl,
    omega (arith, greatest-below (some q) 0 1 n qs (omega arith)),
  )

module _ {F : Type 0} (less : F → F → Bool) (quotient : ℤ → ℕ → F) (randint : ℕ → ℕ)
    (action_dim : ℕ) (explores : Bool) (network : List F → List F) (now : ℕ) where
  -- The scheduler's agent: what it selects for the encoded jobs.
  abbrev pub network_agent : List Job → ℕ → Option ℕ
  network_agent jobs valid =
      select_action less randint action_dim explores (network (encode_state quotient now jobs))
        valid

module _ ⦃env : Env⦄ where
  open env use {settings}

  -- A choice in range is kept.
  choose-in_range :
      (agent : List Job → ℕ → Option ℕ) (jobs : List Job) (i : ℕ)
      → settings.scheduler_mode ≡ "ai"
      → agent jobs (min (length jobs) max_jobs_input) ≡ some i
      → i < length jobs
      → choose agent jobs ≡ some i
  unfolding choose
  choose-in_range agent jobs i ai picked inside =
      rw ((eq_iff settings.scheduler_mode "ai").1 ai, picked, in_range) refl
    where
      in_range : leb (length jobs) i ≡ false
      in_range = ground arith

  module _ {F : Type 0} (less : F → F → Bool) (quotient : ℤ → ℕ → F) (randint : ℕ → ℕ)
      (action_dim : ℕ) (explores : Bool) (network : List F → List F) (now : ℕ) where
    abbrev chooser : List Job → ℕ → Option ℕ
    chooser = network_agent less quotient randint action_dim explores network now

    -- In the mode "ai", if the network gives values and draws are in their range, the scheduler picks
    -- from at least one job exactly what the agent selects for the encoded jobs, which is one of the
    -- first fifteen: it never falls back to the deadlines.
    pub choose-select_action :
        (job : Job) (others : List Job)
        → settings.scheduler_mode ≡ "ai"
        → ((n : ℕ) → randint n ≤ n)
        → 1 ≤ length (network (encode_state quotient now (job ∷ others)))
        → (i : ℕ) × (chooser (job ∷ others) (min (length (job ∷ others)) max_jobs_input) ≡ some i)
          × (choose chooser (job ∷ others) ≡ some i)
          × (i < min (length (job ∷ others)) max_jobs_input)
    choose-select_action job others ai draws values =
        let (i, picked, below) =
          select_action-valid less randint action_dim explores
            (network (encode_state quotient now (job ∷ others)))
            (min (length (job ∷ others)) max_jobs_input) draws (omega arith) values in
        (
          i,
          picked,
          choose-in_range chooser (job ∷ others) i ai picked (omega (arith, below)),
          below,
        )
