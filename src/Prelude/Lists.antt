-- ===== src/Prelude/Lists.antt =====
-- Lists measured by native numbers and searched by Boolean tests.
use Prim.Native.Nat.{ℕ, zero, suc, ◌+◌, ◌-◌, ◌≤◌, min}
use mathlib.Core.Path.{◌≡◌, refl, sym, ap}
use mathlib.Core.Bool.{Bool, true, false, not, ◌&&◌, ◌||◌}
use mathlib.Core.List.{List, [], ◌∷◌, ◌++◌, map}
use mathlib.Core.Option.{Option, none, some}
use native.Mathlib.Omega.{arith}
use mathlib.Core.Logic.{inl, inr}
use autonomous_ai_job_oreche.Prelude.Tests.{if◌then◌else◌, bit, leb, Bool-cases}

module _ {ℓ} {A : Type ℓ} where
  abbrev pub length : List A → ℕ
  length [] = 0
  length (x ∷ xs) = suc (length xs)

  abbrev pub take : ℕ → List A → List A
  take zero xs = []
  take (suc n) [] = []
  take (suc n) (x ∷ xs) = x ∷ take n xs

  abbrev pub drop : ℕ → List A → List A
  drop zero xs = xs
  drop (suc n) [] = []
  drop (suc n) (x ∷ xs) = drop n xs

  abbrev pub get_elem? : List A → ℕ → Option A
  get_elem? [] i = none
  get_elem? (x ∷ xs) zero = some x
  get_elem? (x ∷ xs) (suc i) = get_elem? xs i

  -- The number of elements that a test accepts.
  abbrev pub count : (A → Bool) → List A → ℕ
  count p [] = 0
  count p (x ∷ xs) = bit (p x) + count p xs

  -- The first element that a test accepts.
  abbrev pub find : (A → Bool) → List A → Option A
  find p [] = none
  find p (x ∷ xs) = if p x then some x else find p xs

  abbrev pub filter : (A → Bool) → List A → List A
  filter p [] = []
  filter p (x ∷ xs) = if p x then x ∷ filter p xs else filter p xs

  abbrev pub all : (A → Bool) → List A → Bool
  all p [] = true
  all p (x ∷ xs) = p x && all p xs

  abbrev pub any : (A → Bool) → List A → Bool
  any p [] = false
  any p (x ∷ xs) = p x || any p xs

module _ {ℓ} {A : Type ℓ} where
  abbrev pub All {κ} : (A → Type κ) → List A → Type κ
  All P [] = Unit
  All P (x ∷ xs) = P x × All P xs

  pub length-append : (xs ys : List A) → length (xs ++ ys) ≡ length xs + length ys
  length-append [] ys = omega arith
  length-append (x ∷ xs) ys = omega (arith, length-append xs ys)

  pub length-take : (n : ℕ) (xs : List A) → length (take n xs) ≡ min n (length xs)
  length-take zero xs = omega arith
  length-take (suc n) [] = omega arith
  length-take (suc n) (x ∷ xs) = omega (arith, length-take n xs)

  pub length-drop : (n : ℕ) (xs : List A) → length (drop n xs) ≡ length xs - n
  length-drop zero xs = omega arith
  length-drop (suc n) [] = omega arith
  length-drop (suc n) (x ∷ xs) = omega (arith, length-drop n xs)

  pub length-map {κ} : {B : Type κ} (f : A → B) (xs : List A) → length (map f xs) ≡ length xs
  length-map f [] = refl
  length-map f (x ∷ xs) = ap suc (length-map f xs)

  pub count-append : (p : A → Bool) (xs ys : List A) → count p (xs ++ ys) ≡ count p xs + count p ys
  count-append p [] ys = omega arith
  count-append p (x ∷ xs) ys = omega (arith, count-append p xs ys)

  -- A test with no hit finds nothing, and what is found passes the test.
  pub find_of_count-zero : (p : A → Bool) (xs : List A) → count p xs ≡ 0 → find p xs ≡ none
  find_of_count-zero p [] h = refl
  find_of_count-zero p (x ∷ xs) h = ground (arith, find_of_count-zero p xs)

  pub count-zero_of_find : (p : A → Bool) (xs : List A) → find p xs ≡ none → count p xs ≡ 0
  count-zero_of_find p [] h = refl
  count-zero_of_find p (x ∷ xs) h = ground (arith, count-zero_of_find p xs)

  pub find_passes : (p : A → Bool) (xs : List A) (a : A) → find p xs ≡ some a → p a ≡ true
  find_passes p [] a h = ground arith
  find_passes p (x ∷ xs) a h = ground (arith, find_passes p xs a)

  pub find-counted : (p : A → Bool) (xs : List A) (a : A) → find p xs ≡ some a → 1 ≤ count p xs
  find-counted p [] a h = ground arith
  find-counted p (x ∷ xs) a h = ground (arith, find-counted p xs a)

  -- What is found under one test is counted under any test that it passes.
  pub count_of_found :
      (p q : A → Bool) (xs : List A) (a : A) → find p xs ≡ some a → q a ≡ true → 1 ≤ count q xs
  count_of_found p q [] a h e = ground arith
  count_of_found p q (x ∷ xs) a h e = ground (arith, count_of_found p q xs a)

  -- A stricter test has fewer hits.
  pub count_mono :
      (p q : A → Bool) (xs : List A) → ((a : A) → p a ≡ true → q a ≡ true) → count p xs ≤ count q xs
  count_mono p q [] h = omega arith
  count_mono p q (x ∷ xs) h = ground (arith, count_mono p q xs h, h x)

  -- If only one element was added and none passed the test before, what is found has every property
  -- of the one that was added.
  pub found_agrees :
      (p f : A → Bool) (r found : A) (old new : List A)
      → count p old ≡ 0
      → ((q : A → Bool) → count q new ≡ bit (q r) + count q old)
      → f r ≡ true
      → find p new ≡ some found
      → f found ≡ true
  found_agrees p f r found old new none_before added own h = elim (Bool-cases (f found)) [
    | inl agrees ↦ agrees
    | inr other ↦ absurd (
        omega (
          arith,
          count_of_found p (λ x. p x && not (f x)) new found h
              (rw (find_passes p new found h, other)),
          added (λ x. p x && not (f x)),
          count_mono (λ x. p x && not (f x)) p old (λ a e. and_left (p a) (not (f a)) e),
          none_before,
          no_bit (p r) (f r) own,
        ))
  ]
    where
      and_left : (a b : Bool) → (a && b) ≡ true → a ≡ true
      and_left a b e = ground arith

      no_bit : (a b : Bool) → b ≡ true → bit (a && not b) ≡ 0
      no_bit a b e = ground arith

  pub count-le-length : (p : A → Bool) (xs : List A) → count p xs ≤ length xs
  count-le-length p [] = omega arith
  count-le-length p (x ∷ xs) = ground (arith, count-le-length p xs)

  pub length-filter : (p : A → Bool) (xs : List A) → length (filter p xs) ≡ count p xs
  length-filter p [] = refl
  length-filter p (x ∷ xs) = ground (arith, length-filter p xs)

module _ {ℓ κ} {A : Type ℓ} (P : A → Type κ) where
  pub All-filter : (p : A → Bool) (xs : List A) → All P xs → All P (filter p xs)
  All-filter p [] h = tt
  All-filter p (x ∷ xs) (h, hs) = elim (Bool-cases (p x)) [
    | inl holds ↦ rw holds (h, All-filter p xs hs)
    | inr fails ↦ rw fails (All-filter p xs hs)
  ]

  pub All-take : (n : ℕ) (xs : List A) → All P xs → All P (take n xs)
  All-take zero xs h = tt
  All-take (suc n) [] h = tt
  All-take (suc n) (x ∷ xs) (h, hs) = (h, All-take n xs hs)

  pub All-drop : (n : ℕ) (xs : List A) → All P xs → All P (drop n xs)
  All-drop zero xs h = h
  All-drop (suc n) [] h = tt
  All-drop (suc n) (x ∷ xs) (h, hs) = All-drop n xs hs

  -- What holds of all elements holds of the one at a position.
  pub All-get_elem? : (xs : List A) (i : ℕ) (a : A) → All P xs → get_elem? xs i ≡ some a → P a
  All-get_elem? [] i a hs e = absurd (none_some e)
    where
      none_some : none ≡ some a → ⊥
      none_some e = cc
  All-get_elem? (x ∷ xs) zero a (h, hs) e = rw (sym (some_eq e)) h
    where
      some_eq : some x ≡ some a → x ≡ a
      some_eq e = cc
  All-get_elem? (x ∷ xs) (suc i) a (h, hs) e = All-get_elem? xs i a hs e

module _ {ℓ} {A : Type ℓ} where
  -- All elements that are kept pass the test.
  pub All-filter_test : (p : A → Bool) (xs : List A) → All (λ a. p a ≡ true) (filter p xs)
  All-filter_test p [] = tt
  All-filter_test p (x ∷ xs) = elim (Bool-cases (p x)) [
    | inl holds ↦ rw holds (holds, All-filter_test p xs)
    | inr fails ↦ rw fails (All-filter_test p xs)
  ]

  pub All-map {κ μ} :
      {B : Type κ} (P : B → Type μ) (f : A → B) (xs : List A)
      → All (λ a. P (f a)) xs
      → All P (map f xs)
  All-map P f [] h = tt
  All-map P f (x ∷ xs) (h, hs) = (h, All-map P f xs hs)

  pub All-both {κ μ} :
      (P : A → Type κ) (Q : A → Type μ) (xs : List A)
      → All P xs
      → All Q xs
      → All (λ a. P a × Q a) xs
  All-both P Q [] h k = tt
  All-both P Q (x ∷ xs) (h, hs) (k, ks) = ((h, k), All-both P Q xs hs ks)

  pub All-mono {κ μ} :
      (P : A → Type κ) (Q : A → Type μ) (xs : List A) → ((a : A) → P a → Q a) → All P xs → All Q xs
  All-mono P Q [] f h = tt
  All-mono P Q (x ∷ xs) f (h, hs) = (f x h, All-mono P Q xs f hs)

  pub get_elem?-below :
      (xs : List A) (i : ℕ) → leb (length xs) i ≡ false → (a : A) × (get_elem? xs i ≡ some a)
  get_elem?-below [] i h = absurd (impossible i h)
    where
      impossible : (i : ℕ) → leb 0 i ≡ false → ⊥
      impossible i h = ground arith
  get_elem?-below (x ∷ xs) zero h = (x, refl)
  get_elem?-below (x ∷ xs) (suc i) h = get_elem?-below xs i (smaller i h)
    where
      smaller : (i : ℕ) → leb (suc (length xs)) (suc i) ≡ false → leb (length xs) i ≡ false
      smaller i h = ground arith
