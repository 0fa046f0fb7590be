-- ===== src/Autoscaler/Desired.antt =====
-- src/orchestrator/autoscaler.py: proofs on the number of workers for a backlog.
use native.Mathlib.Omega.{arith, div_any}
use native.Mathlib.Nat.{mod-lt, div-lt_iff_lt-mul, mul-le-mul_left}
use autonomous_ai_job_oreche.Prelude.{
  ℕ, suc, ◌+◌, ◌-◌, ◌*◌, ◌≤◌, ◌<◌, some, ◌≡◌, refl, ◌⊎◌, inl, inr, Bool-cases, ltb→lt,
  le_of_not-ltb, ltb, ◌==◌, true, false, min, max,
}
use autonomous_ai_job_oreche.Autoscaler.{compute_desired_workers, ceil_div}

-- The least multiple: `k` workers carry `a`, and one fewer do not.
ceil_div-carries : (a b : ℕ) → 0 < b → a ≤ b * ceil_div a b
ceil_div-carries a b h = omega (arith, div_any (a + (b - 1)) b, mod-lt (a + (b - 1)) h)

ceil_div-least : (a b k : ℕ) → 0 < b → a ≤ b * k → ceil_div a b ≤ k
ceil_div-least a b k h e =
    omega
      (arith, (div-lt_iff_lt-mul {k = b} {x = a + (b - 1)} {y = suc k} h).1 (omega (arith, e, h)))

is_zero : (n : ℕ) → (n == 0) ≡ true → n ≡ 0
is_zero n h = ground arith

not_zero : (n : ℕ) → 0 < n → (n == 0) ≡ false
not_zero n h = ground arith

abbrev clamp : ℕ → ℕ → ℕ → ℕ
clamp lo hi n = max lo (min hi n)

below_clamp : (lo hi n : ℕ) → n ≤ hi → n ≤ clamp lo hi n
below_clamp lo hi n h = omega arith

-- The backlog is carried by `n` workers.
pub Carries : ℕ → ℕ → ℕ → Type 0
Carries per_worker backlog n = backlog ≤ per_worker * n

-- With at least one job for each worker and limits in order, `compute_desired_workers` returns a
-- number of workers within the limits that carries the backlog unless it is the upper limit, and no
-- smaller number within the limits carries it.
pub compute_desired_workers-least :
    (backlog min_workers max_workers per_worker : ℕ)
    → 0 < per_worker
    → min_workers ≤ max_workers
    → (n : ℕ) × (compute_desired_workers backlog min_workers max_workers per_worker ≡ some n)
      × (min_workers ≤ n)
      × (n ≤ max_workers)
      × (Carries per_worker backlog n ⊎ (n ≡ max_workers))
      × ((m : ℕ) → min_workers ≤ m → Carries per_worker backlog m → n ≤ m)
unfolding compute_desired_workers Carries
compute_desired_workers-least backlog lo hi per h le = elim (Bool-cases (backlog == 0)) [
  | inl none_waiting ↦ (
    lo,
    rw none_waiting refl,
    omega arith,
    le,
    inl (omega (arith, is_zero backlog none_waiting)),
    λ m from _. from,
  )
  | inr some_wait ↦ (
    clamp lo hi (ceil_div backlog per),
    rw (some_wait, not_zero per h) refl,
    omega arith,
    omega (arith, le),
    capped,
    λ m from carries. omega (arith, ceil_div-least backlog per m h carries, from),
  )
]
  where
    capped :
        Carries per backlog (clamp lo hi (ceil_div backlog per))
        ⊎ (clamp lo hi (ceil_div backlog per) ≡ hi)
    capped = elim (Bool-cases (ltb hi (ceil_div backlog per))) [
      | inl big ↦ inr (omega (arith, ltb→lt hi (ceil_div backlog per) big, le))
      | inr fits ↦ inl (
          omega (
            arith,
            ceil_div-carries backlog per h,
            mul-le-mul_left per (
                below_clamp lo hi (ceil_div backlog per)
                  (le_of_not-ltb hi (ceil_div backlog per) fits)),
          ))
    ]
