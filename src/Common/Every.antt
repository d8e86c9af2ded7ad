-- ===== src/Common/Every.antt =====
-- What holds of every element of a list, under the writes of C arrays; and an array whose entry is
-- overwritten by its last.
use Prim.Native.Nat.{ℕ, zero, suc, ◌+◌, ◌-◌, ◌<◌}
use mathlib.Core.Path.{◌≡◌, refl, ap, sym, subst, ◌∙◌}
use mathlib.Core.Logic.{inl, inr, ◌≢◌, ◌⊎◌}
use mathlib.Core.List.{List, [], ◌∷◌}
use mathlib.Core.Option.{some}
use native.Mathlib.Omega.{arith}
use gtu_cse344_systems_progr.Common.Tests.{◌==◌, Bool-cases, eq_of_some}
use gtu_cse344_systems_progr.Common.Count.{take-set_of_le}
use gtu_cse344_systems_progr.Common.Lists.{
  All, length, get_elem?, get_or, set, take, weigh, length-set, get_elem?-length,
  get_elem?-eq-get_or, get_or-set, get_elem?-set, get_elem?-set_other, weigh-set, weigh-take_last,
}

module _ {ℓ κ} {A : Type ℓ} (P : A → Type κ) where
  pub All-get : (xs : List A) (i : ℕ) (x : A) → All P xs → get_elem? xs i ≡ some x → P x
  All-get [] i x h e = cc
  All-get (y ∷ xs) zero x h e = subst P (eq_of_some y x e) h.0
  All-get (y ∷ xs) (suc i) x h e = All-get xs i x h.1 e

  pub All-set : (xs : List A) (i : ℕ) (x : A) → All P xs → P x → All P (set xs i x)
  All-set [] i x h p = h
  All-set (y ∷ xs) zero x h p = (p, h.1)
  All-set (y ∷ xs) (suc i) x h p = (h.0, All-set xs i x h.1 p)

  pub All-take : (n : ℕ) (xs : List A) → All P xs → All P (take n xs)
  All-take zero xs h = tt
  All-take (suc n) [] h = tt
  All-take (suc n) (x ∷ xs) h = (h.0, All-take n xs h.1)

  pub All-get_or : (xs : List A) (i : ℕ) (d : A) → All P xs → i < length xs → P (get_or xs i d)
  All-get_or [] i d h k = absurd (omega arith)
  All-get_or (x ∷ xs) zero d h k = h.0
  All-get_or (x ∷ xs) (suc i) d h k = All-get_or xs i d h.1 (omega arith)

module _ {ℓ} {A : Type ℓ} where
  -- The entry at `i` is overwritten by the last one, and the array is one shorter.
  abbrev pub swap_remove : List A → ℕ → A → List A
  swap_remove xs i d = take (length xs - 1) (set xs i (get_or xs (length xs - 1) d))

  -- Whatever is measured, it takes just what the entry at `i` counted.
  pub weigh-swap_remove :
      (f : A → ℕ) (xs : List A) (i : ℕ) (x d : A)
      → get_elem? xs i ≡ some x
      → weigh f (swap_remove xs i d) + f x ≡ weigh f xs
  weigh-swap_remove f xs i x d e =
      let inside = get_elem?-length xs i x e in
      let last = get_or xs (length xs - 1) d in
      let moved = set xs i last in
      let h = get_elem?-eq-get_or xs (length xs - 1) d (omega arith) in
      let long : length moved ≡ suc (length xs - 1) = omega (arith, length-set xs i last) in
      let at_end : get_elem? moved (length xs - 1) ≡ some last =
        elim (Bool-cases (i == (length xs - 1))) [
          | inl same ↦
              let eq : i ≡ length xs - 1 = ground arith in
              ap (get_elem? moved) (sym eq) ∙ get_elem?-set xs i x last e
          | inr apart ↦ get_elem?-set_other xs i (length xs - 1) last (ground arith) ∙ h
        ] in
      omega
        (arith, weigh-take_last f (length xs - 1) moved last long at_end, weigh-set f xs i x last e)

  pub set-set : (xs : List A) (i : ℕ) (x y : A) → set (set xs i x) i y ≡ set xs i y
  set-set [] i x y = refl
  set-set (z ∷ xs) zero x y = refl
  set-set (z ∷ xs) (suc i) x y = λ j. z ∷ set-set xs i x y j

  -- The entry that is overwritten may be anything.
  pub All-swap_remove {κ} :
      (P : A → Type κ) (xs : List A) (i : ℕ) (x : A)
      → i < length xs
      → All P xs
      → All P (swap_remove (set xs i x) i x)
  All-swap_remove P xs i x inside h =
      let last = get_or (set xs i x) (length xs - 1) x in
      let long = length-set xs i x in
      elim (Bool-cases (i == (length xs - 1))) [
        | inl same ↦
            let cut = take-set_of_le (length xs - 1) (set xs i x) i last (ground arith) in
            let cut_too = take-set_of_le (length xs - 1) xs i x (ground arith) in
            rw (long, cut, cut_too) (All-take P (length xs - 1) xs h)
        | inr apart ↦
            let other = get_or-set xs i (length xs - 1) x x inside in
            rw (long, other, apart, set-set)
              (All-take P (length xs - 1) _
                (All-set P xs i _ h (All-get_or P xs (length xs - 1) x h (omega arith))))
      ]

-- An element as `set` left it.
pub set-cases {ℓ} :
    {A : Type ℓ} (xs : List A) (j k : ℕ) (x y z : A)
    → get_elem? xs j ≡ some x
    → get_elem? (set xs j y) k ≡ some z
    → ((j ≡ k) × (y ≡ z)) ⊎ ((j ≢ k) × (get_elem? xs k ≡ some z))
set-cases xs j k x y z e h = elim (Bool-cases (j == k)) [
  | inl here ↦
      let same : j ≡ k = ground arith in
      let found = get_elem?-set xs j x y e in
      inl (same, eq_of_some y z (sym found ∙ ap (get_elem? (set xs j y)) same ∙ h))
  | inr there ↦
      let apart : j ≢ k = ground arith in inr (apart, sym (get_elem?-set_other xs j k y apart) ∙ h)
]
