-- ===== src/Autoscaler/Docker/Containers.antt =====
-- src/orchestrator/autoscaler.py: how often containers stand in the lists that scaling filters, sorts
-- and cuts.
use autonomous_ai_job_oreche.Prelude.{
  ℕ, zero, suc, ◌+◌, ◌≤◌, String, Bool, true, not, ◌&&◌, List, [], ◌∷◌, ◌≡◌, refl, filter, length,
  take, count, bit, ◌==◌, str_eq, arith, inl, inr, Bool-cases,
}
use autonomous_ai_job_oreche.Autoscaler.Docker.{
  Container, head_of, sort_latest, insert_latest, one_if,
}

module _ {ℓ} {A : Type ℓ} where
  pub count-filter :
      (p q : A → Bool) (xs : List A) → count p (filter q xs) ≡ count (λ x. q x && p x) xs
  count-filter p q [] = refl
  count-filter p q (x ∷ xs) = ground (arith, count-filter p q xs)

  pub count-split :
      (p q : A → Bool) (xs : List A)
      → count (λ x. p x && q x) xs + count (λ x. p x && not (q x)) xs ≡ count p xs
  count-split p q [] = omega arith
  count-split p q (x ∷ xs) = ground (arith, count-split p q xs)

  pub count-take : (p : A → Bool) (n : ℕ) (xs : List A) → count p (take n xs) ≤ count p xs
  count-take p zero xs = omega arith
  count-take p (suc n) [] = omega arith
  count-take p (suc n) (x ∷ xs) = omega (arith, count-take p n xs)

  pub count-and_comm :
      (p q : A → Bool) (xs : List A) → count (λ x. q x && p x) xs ≡ count (λ x. p x && q x) xs
  count-and_comm p q [] = refl
  count-and_comm p q (x ∷ xs) = ground (arith, count-and_comm p q xs)

  pub count-true : (xs : List A) → length xs ≡ count (λ x. true) xs
  count-true [] = refl
  count-true (x ∷ xs) = omega (arith, count-true xs)

-- The id of a container is the one given.
abbrev pub has_id : String → Container → Bool
has_id k c = str_eq c.id k

-- Sorting changes the order only.
count-insert_latest :
    (p : Container → Bool) (c : Container) (xs : List Container)
    → count p (insert_latest c xs) ≡ bit (p c) + count p xs
unfolding insert_latest
count-insert_latest p c [] = refl
count-insert_latest p c (x ∷ xs) = ground (arith, count-insert_latest p c xs)

pub count-sort_latest :
    (p : Container → Bool) (xs : List Container) → count p (sort_latest xs) ≡ count p xs
unfolding sort_latest
count-sort_latest p [] = refl
count-sort_latest p (x ∷ xs) =
    omega (arith, count-insert_latest p x (sort_latest xs), count-sort_latest p xs)

-- A filtered list has a head if the test accepts an element.
pub one_if-head :
    (p : Container → Bool) (xs : List Container)
    → 1 ≤ count p xs
    → one_if (head_of (filter p xs)) ≡ 1
one_if-head p [] h = omega arith
one_if-head p (x ∷ xs) h = elim (Bool-cases (p x)) [
  | inl holds ↦ rw holds refl
  | inr fails ↦ rw fails (one_if-head p xs (ground arith))
]

-- What counts as the template's one worker grows with the containers that the test accepts.
pub one_if-head_mono :
    (p : Container → Bool) (xs ys : List Container)
    → count p xs ≤ count p ys
    → one_if (head_of (filter p xs)) ≤ one_if (head_of (filter p ys))
one_if-head_mono p xs ys h = elim (Bool-cases (count p xs == 0)) [
  | inl none_passes ↦ omega (arith, no_head xs (ground arith))
  | inr some_pass ↦ omega (arith, one_if-head p xs (ground arith), one_if-head p ys (ground arith))
]
  where
    no_head : (zs : List Container) → count p zs ≡ 0 → one_if (head_of (filter p zs)) ≡ 0
    no_head [] e = refl
    no_head (z ∷ zs) e = elim (Bool-cases (p z)) [
      | inl holds ↦ absurd (ground arith)
      | inr fails ↦ rw fails (no_head zs (ground arith))
    ]
