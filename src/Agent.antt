-- ===== src/Agent.antt =====
-- src/rl_engine/environment.py and RLAgent.select_action of src/rl_engine/agent.py: what the agent
-- sees of the jobs, what it picks, and what a run is worth. A float is of the type `F`; `quotient` is
-- the float nearest to a quotient, and `less` compares two floats, neither of which is infinite or
-- NaN. Durations are in microseconds.
pub mod Encoding
pub mod Choice
use autonomous_ai_job_oreche.Prelude.{
  ℕ, zero, suc, ◌+◌, ◌-◌, ◌*◌, ℤ, pos, negsuc, Bool, true, false, Option, none, some, List, [], ◌∷◌,
  ◌++◌, length, take, leb, if◌then◌else◌,
}
use autonomous_ai_job_oreche.Job.{Job, failed, status_eq}

abbrev pub max_jobs_input : ℕ
max_jobs_input = 15

abbrev pub features_per_job : ℕ
features_per_job = 3

-- `a - b`
abbrev difference : ℕ → ℕ → ℤ
difference a b = if leb b a then pos (a - b) else negsuc (b - a - 1)

-- `(deadline - now).total_seconds() - duration`
abbrev slack_of : ℕ → ℕ → ℤ → ℤ
slack_of deadline now (pos d) = difference deadline (now + d)
slack_of deadline now (negsuc d) = difference (deadline + suc d) now

-- Rewards are multiples of a half: the number of halves.
abbrev bonus : Option ℕ → Option ℕ → ℕ → ℤ
bonus (some deadline) (some completed) base =
    if leb completed deadline then pos (base + 20) else difference base 20
bonus _ _ base = pos base

unfoldable pub calculate_reward : Job → ℤ
calculate_reward job =
    if status_eq job.status failed
    then negsuc 19
    else bonus job.deadline job.completed_at (2 + job.priority)

module _ {F : Type 0} (quotient : ℤ → ℕ → F) where
  abbrev slack_feature : Option ℕ → ℕ → ℤ → F
  slack_feature none now d = quotient (pos 5) 1
  slack_feature (some deadline) now d = quotient (slack_of deadline now d) 50_000_000

  unfoldable pub get_job_features : ℕ → Job → List F
  get_job_features now job =
      quotient (pos job.priority) 10
      ∷ quotient job.estimated_duration 100_000_000
      ∷ slack_feature job.deadline now job.estimated_duration
      ∷ []

  abbrev pub zeros : ℕ → List F
  zeros zero = []
  zeros (suc n) = quotient (pos 0) 1 ∷ zeros n

  unfoldable pub features_of : ℕ → List Job → List F
  unfolding get_job_features
  features_of now [] = []
  features_of now (job ∷ jobs) = get_job_features now job ++ features_of now jobs

  -- The features of the first jobs, filled up with zeros.
  unfoldable pub encode_state : ℕ → List Job → List F
  unfolding features_of
  encode_state now jobs =
      let candidates = take max_jobs_input jobs in
      features_of now candidates ++ zeros ((max_jobs_input - length candidates) * features_per_job)

module _ {F : Type 0} (less : F → F → Bool) where
  -- `q_values + mask`: minus infinity, which is `none`, from the n-th value on.
  abbrev pub masked : ℕ → List F → List (Option F)
  masked n [] = []
  masked zero (q ∷ qs) = none ∷ masked zero qs
  masked (suc n) (q ∷ qs) = some q ∷ masked n qs

  abbrev pub greater : Option F → Option F → Bool
  greater none best = false
  greater (some q) none = true
  greater (some q) (some best) = less best q

  -- The index of the first greatest value, among `best` at `index` and those from `next` on.
  unfoldable pub greatest : Option F → ℕ → ℕ → List (Option F) → ℕ
  greatest best index next [] = index
  greatest best index next (q ∷ qs) =
      let take_it = greatest q next (suc next) qs in
      let keep = greatest best index (suc next) qs in if greater q best then take_it else keep

  -- `argmax` of no values raises: `none`.
  unfoldable pub argmax : List (Option F) → Option ℕ
  unfolding greatest
  argmax [] = none
  argmax (q ∷ qs) = some (greatest q 0 1 qs)

  -- `select_action` with a number of valid actions: `randint` draws from 0 to its argument,
  -- `explores` says whether `random.random() < epsilon`, and `q_values` is what the network says.
  unfoldable pub select_action : (ℕ → ℕ) → ℕ → Bool → List F → ℕ → Option ℕ
  unfolding argmax
  select_action randint action_dim true q_values zero = some (randint (action_dim - 1))
  select_action randint action_dim true q_values (suc n) = some (randint n)
  select_action randint action_dim false q_values valid = argmax (masked valid q_values)
