-- ===== src/Agent/Encoding.antt =====
-- src/rl_engine/environment.py: proofs on what the agent sees.
use autonomous_ai_job_oreche.Prelude.{
  ℕ, zero, suc, ◌-◌, ◌*◌, ◌<◌, min, ℤ, some, List, [], ◌∷◌, ◌++◌, ◌≡◌, refl, ap, ◌∙◌, length, take,
  drop, get_elem?, arith, length-append, length-take,
}
use autonomous_ai_job_oreche.Job.{Job}
use autonomous_ai_job_oreche.Agent.{
  max_jobs_input, zeros, features_of, get_job_features, encode_state,
}

module _ {F : Type 0} (quotient : ℤ → ℕ → F) where
  length-zeros : (n : ℕ) → length (zeros quotient n) ≡ n
  length-zeros zero = refl
  length-zeros (suc n) = omega (arith, length-zeros n)

  length-features_of :
      (now : ℕ) (jobs : List Job) → length (features_of quotient now jobs) ≡ length jobs * 3
  unfolding features_of get_job_features
  length-features_of now [] = omega arith
  length-features_of now (job ∷ jobs) = omega (arith, length-features_of now jobs)

  -- A job's features stand at three times its index, whatever follows.
  features-at :
      (now : ℕ) (jobs : List Job) (rest : List F) (i : ℕ) (job : Job)
      → get_elem? jobs i ≡ some job
      → take 3 (drop (i * 3) (features_of quotient now jobs ++ rest))
        ≡ get_job_features quotient now job
  unfolding features_of get_job_features
  features-at now [] rest i job h = absurd (cc)
  features-at now (j ∷ jobs) rest zero job h = ap (get_job_features quotient now) (first h)
    where
      first : get_elem? (j ∷ jobs) 0 ≡ some job → j ≡ job
      first h = cc
  features-at now (j ∷ jobs) rest (suc i) job h =
      ap (λ k. take 3 (drop k (features_of quotient now (j ∷ jobs) ++ rest))) (next i)
      ∙ features-at now jobs rest i job h
    where
      next : (i : ℕ) → suc i * 3 ≡ suc (suc (suc (i * 3)))
      next i = omega arith

  get_elem?-take :
      (n : ℕ) (jobs : List Job) (i : ℕ) → i < n → get_elem? (take n jobs) i ≡ get_elem? jobs i
  get_elem?-take zero jobs i h = absurd (omega arith)
  get_elem?-take (suc n) [] i h = refl
  get_elem?-take (suc n) (j ∷ jobs) zero h = refl
  get_elem?-take (suc n) (j ∷ jobs) (suc i) h = get_elem?-take n jobs i (omega arith)

  drop-append : (xs ys : List F) (n : ℕ) → n ≡ length xs → drop n (xs ++ ys) ≡ ys
  drop-append [] ys n h = ap (λ k. drop k ys) h
  drop-append (x ∷ xs) ys zero h = absurd (omega arith)
  drop-append (x ∷ xs) ys (suc n) h = drop-append xs ys n (omega arith)

  length-encode_state : (now : ℕ) (jobs : List Job) → length (encode_state quotient now jobs) ≡ 45
  unfolding encode_state
  length-encode_state now jobs = omega (
    arith,
    length-append {0} (features_of quotient now (take 15 jobs))
        (zeros quotient ((15 - length (take 15 jobs)) * 3)),
    length-features_of now (take 15 jobs),
    length-zeros ((15 - length (take 15 jobs)) * 3),
    length-take {0} 15 jobs,
  )

  -- The state is of the length that the network takes, whatever the number of jobs; the features of
  -- each of the first fifteen jobs stand at three times its index, and zeros behind the last of them.
  pub encode_state-layout :
      (now : ℕ) (jobs : List Job) (i : ℕ) (job : Job)
      → get_elem? jobs i ≡ some job
      → i < max_jobs_input
      → (length (encode_state quotient now jobs) ≡ 45)
        × (take 3 (drop (i * 3) (encode_state quotient now jobs))
            ≡ get_job_features quotient now job)
        × (drop (min 15 (length jobs) * 3) (encode_state quotient now jobs)
            ≡ zeros quotient ((15 - length jobs) * 3))
  unfolding encode_state
  encode_state-layout now jobs i job there inside = (
    length-encode_state now jobs,
    features-at now (take 15 jobs) (zeros quotient ((15 - length (take 15 jobs)) * 3)) i job
        (get_elem?-take 15 jobs i inside ∙ there),
    drop-append (features_of quotient now (take 15 jobs))
          (zeros quotient ((15 - length (take 15 jobs)) * 3)) (min 15 (length jobs) * 3)
          (omega (arith, length-features_of now (take 15 jobs), length-take {0} 15 jobs))
        ∙ ap (zeros quotient) (omega (arith, length-take {0} 15 jobs)),
  )
