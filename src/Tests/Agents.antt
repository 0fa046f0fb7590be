-- ===== src/Tests/Agents.antt =====
-- Tests on src/rl_engine: floats are signed numbers.
use autonomous_ai_job_oreche.Prelude.{
  ℕ, ◌≤◌, ◌<◌, ◌*◌, ◌-◌, min, ℤ, pos, negsuc, Bool, true, false, some, List, [], ◌∷◌, ◌≡◌, refl,
  ltb, length, take, drop, arith,
}
use autonomous_ai_job_oreche.Services.{Env}
use autonomous_ai_job_oreche.Services.Listed.{listed_env}
use autonomous_ai_job_oreche.Settings.{default_settings}
use autonomous_ai_job_oreche.Job.{failed}
use autonomous_ai_job_oreche.Agent.{
  max_jobs_input, zeros, get_job_features, encode_state, calculate_reward,
}
use autonomous_ai_job_oreche.Agent.Encoding.{encode_state-layout}
use autonomous_ai_job_oreche.Agent.Choice.{network_agent, choose-select_action}
use autonomous_ai_job_oreche.Scheduler.{choose}
use autonomous_ai_job_oreche.Tests.{uuid_of, answer, created}

abbrev ai_env : Env
ai_env =
    listed_env (record default_settings { scheduler_mode = "ai" }) (λ a b. true) (λ payload. 2)
      uuid_of Bool answer (λ c granted. granted)

abbrev less : ℤ → ℤ → Bool
less (pos a) (pos b) = ltb a b
less (pos a) (negsuc b) = false
less (negsuc a) (pos b) = true
less (negsuc a) (negsuc b) = ltb b a

abbrev quotient : ℤ → ℕ → ℤ
quotient n d = n

abbrev no_draw : ℕ → ℕ
no_draw n = 0

-- A network whose values are its input.
abbrev network : List ℤ → List ℤ
network xs = xs

values : 1 ≤ length (network (encode_state quotient 100 (created ∷ created ∷ [])))
unfolding encode_state
values = omega arith

encode_state-layout_example :
    (length (encode_state quotient 100 (created ∷ created ∷ [])) ≡ 45)
    × (take 3 (drop (1 * 3) (encode_state quotient 100 (created ∷ created ∷ [])))
        ≡ get_job_features quotient 100 created)
    × (drop
          (min 15 (length (created ∷ created ∷ [])) * 3)
          (encode_state quotient 100 (created ∷ created ∷ []))
        ≡ zeros quotient ((15 - length (created ∷ created ∷ [])) * 3))
encode_state-layout_example =
    encode_state-layout quotient 100 (created ∷ created ∷ []) 1 created refl (omega arith)

choose-select_action_example :
    (i : ℕ) × (network_agent less quotient no_draw 15 false network 100
        (created ∷ created ∷ [])
        (min (length (created ∷ created ∷ [])) max_jobs_input)
      ≡ some i)
    × (choose ⦃env = ai_env⦄
          (network_agent less quotient no_draw 15 false network 100)
          (created ∷ created ∷ [])
        ≡ some i)
    × (i < min (length (created ∷ created ∷ [])) max_jobs_input)
choose-select_action_example =
    choose-select_action ⦃env = ai_env⦄ less quotient no_draw 15 false network 100 created
      (created ∷ []) refl (λ n. omega arith) values

reward_test : calculate_reward (record created { status = failed }) ≡ negsuc 19
unfolding calculate_reward
reward_test = refl
