-- ===== src/Common/Count.antt =====
-- How many elements of a list pass a test. Two lists that agree on every test hold the same
-- elements, each as often.
use Prim.Native.Nat.{ℕ, zero, suc, ◌+◌, ◌<◌, ◌≤◌}
use mathlib.Core.Path.{◌≡◌, refl}
use mathlib.Core.List.{List, [], ◌∷◌, ◌++◌}
use mathlib.Core.Bool.{Bool, true, false}
use native.Mathlib.Omega.{arith}
use gtu_cse344_systems_progr.Common.Lists.{length, get_or, set, take}

abbrev pub bit : Bool → ℕ
bit true = 1
bit false = 0

module _ {ℓ} {A : Type ℓ} where
  abbrev pub count : (A → Bool) → List A → ℕ
  count p [] = 0
  count p (x ∷ xs) = bit (p x) + count p xs

  abbrev pub SameItems : List A → List A → Type ℓ
  SameItems xs ys = (p : A → Bool) → count p xs ≡ count p ys

  pub count-append : (p : A → Bool) (xs ys : List A) → count p (xs ++ ys) ≡ count p xs + count p ys
  count-append p [] ys = omega arith
  count-append p (x ∷ xs) ys = omega (arith, count-append p xs ys)

  -- The test that every element passes counts the elements.
  pub count-length : (xs : List A) → count (λ _. true) xs ≡ length xs
  count-length [] = refl
  count-length (x ∷ xs) = omega (arith, count-length xs)

  -- A write inside the prefix trades the old element for the new one.
  pub count-take-set :
      (p : A → Bool) (n : ℕ) (xs : List A) (i : ℕ) (v d : A)
      → i < n
      → i < length xs
      → count p (take n (set xs i v)) + bit (p (get_or xs i d)) ≡ count p (take n xs) + bit (p v)
  count-take-set p zero xs i v d h k = absurd (omega arith)
  count-take-set p (suc n) [] i v d h k = absurd (omega arith)
  count-take-set p (suc n) (x ∷ xs) zero v d h k = omega arith
  count-take-set p (suc n) (x ∷ xs) (suc i) v d h k =
      omega (arith, count-take-set p n xs i v d (omega arith) (omega arith))

  -- A write past the prefix leaves it alone.
  pub take-set_of_le :
      (n : ℕ) (xs : List A) (i : ℕ) (v : A) → n ≤ i → take n (set xs i v) ≡ take n xs
  take-set_of_le zero xs i v h = refl
  take-set_of_le (suc n) [] i v h = refl
  take-set_of_le (suc n) (x ∷ xs) zero v h = absurd (omega arith)
  take-set_of_le (suc n) (x ∷ xs) (suc i) v h = λ j. x ∷ take-set_of_le n xs i v (omega arith) j

  -- The prefix grows by its next element.
  pub count-take-suc :
      (p : A → Bool) (n : ℕ) (xs : List A) (d : A)
      → n < length xs
      → count p (take (suc n) xs) ≡ count p (take n xs) + bit (p (get_or xs n d))
  count-take-suc p zero [] d h = absurd (omega arith)
  count-take-suc p zero (x ∷ xs) d h = omega arith
  count-take-suc p (suc n) [] d h = absurd (omega arith)
  count-take-suc p (suc n) (x ∷ xs) d h = omega (arith, count-take-suc p n xs d (omega arith))

  -- A prefix where the test fails at every index counts nothing.
  pub count-take-zero :
      (p : A → Bool) (n : ℕ) (xs : List A) (d : A)
      → n ≤ length xs
      → ((i : ℕ) → i < n → p (get_or xs i d) ≡ false)
      → count p (take n xs) ≡ 0
  count-take-zero p zero xs d h fails = refl
  count-take-zero p (suc n) [] d h fails = refl
  count-take-zero p (suc n) (x ∷ xs) d h fails =
      let first : p x ≡ false = fails 0 (omega arith) in
      let rest = count-take-zero p n xs d (omega arith) (λ i k. fails (suc i) (omega arith)) in
      ground arith
