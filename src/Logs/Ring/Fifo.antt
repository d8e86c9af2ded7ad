-- ===== src/Logs/Ring/Fifo.antt =====
-- The ring is a bounded FIFO queue.
use native.Mathlib.Nat.{mod-add-mod, mod-eq_of_lt, mod-eq-sub-mod, mod-lt}
use native.Mathlib.Decide.{dec_lt}
use gtu_cse344_systems_progr.Common.{
  ℕ, zero, suc, ◌+◌, ◌-◌, ◌%◌, ◌≤◌, ◌<◌, ◌≡◌, ◌≢◌, ◌∙◌, refl, ap, ap₂, sym, List, [], ◌∷◌, ◌++◌,
  false, ◌==◌, length, get_or, set, length-set, length-append, get_or-set, get_elem?-eq-get_or,
  arith, inl, inr, lt→ltb, ◌⊎◌,
}
use gtu_cse344_systems_progr.Logs.Ring.{Ring, full, pushed, empty, popped, push, pop}

module _ {ℓ} {A : Type ℓ} where
  -- The list of `f 0 .. f (n - 1)`.
  abbrev pub tabulate : ℕ → (ℕ → A) → List A
  tabulate zero f = []
  tabulate (suc n) f = tabulate n f ++ f n ∷ []

  tabulate-eq : (n : ℕ) (f g : ℕ → A) → ((k : ℕ) → k < n → f k ≡ g k) → tabulate n f ≡ tabulate n g
  tabulate-eq zero f g h = refl
  tabulate-eq (suc n) f g h =
      ap₂ (λ xs y. xs ++ y ∷ []) (tabulate-eq n f g (λ k p. h k (omega arith))) (h n (omega arith))

  tabulate-front : (n : ℕ) (f : ℕ → A) → tabulate (suc n) f ≡ f 0 ∷ tabulate n (λ k. f (suc k))
  tabulate-front zero f = refl
  tabulate-front (suc n) f = ap (λ xs. xs ++ f (suc n) ∷ []) (tabulate-front n f)

  pub length-tabulate : (n : ℕ) (f : ℕ → A) → length (tabulate n f) ≡ n
  length-tabulate zero f = refl
  length-tabulate (suc n) f =
      omega (arith, length-append (tabulate n f) (f n ∷ []), length-tabulate n f)

mod_cases :
    (cap a : ℕ) → a < cap + cap → ((a % cap ≡ a) × (a < cap)) ⊎ ((a % cap ≡ a - cap) × (cap ≤ a))
mod_cases cap a h = elim (dec_lt a cap) [
  | yes p ↦ inl (mod-eq_of_lt p, p)
  | no p ↦ inr (
    mod-eq-sub-mod {n = a} {m = cap} (omega arith)
        ∙ mod-eq_of_lt {n = a - cap} {m = cap} (omega arith),
    omega arith,
  )
]

-- Fewer than `cap` steps round the ring lead to different cells.
around_ne : (cap h k n : ℕ) → h < cap → k < n → n < cap → (h + k) % cap ≢ (h + n) % cap
around_ne cap h k n p q r e =
    omega (arith, mod_cases cap (h + k) (omega arith), mod_cases cap (h + n) (omega arith))

step_around : (cap h k : ℕ) → (h + suc k) % cap ≡ ((h + 1) % cap + k) % cap
step_around cap h k = ap (λ t. t % cap) (omega arith) ∙ sym (mod-add-mod (h + 1) cap k)

module _ {ℓ} {A : Type ℓ} (d : A) where
  pub record IsRing (r : Ring A) : Type ℓ where
    pub sized : length r.cells ≡ r.capacity
    pub head_in : r.head < r.capacity
    pub tail_at : r.tail ≡ (r.head + r.count) % r.capacity
    pub count_le : r.count ≤ r.capacity

  -- The items from the oldest on; `d` stands where there is no cell.
  abbrev pub items : Ring A → List A
  items r = tabulate r.count (λ k. get_or r.cells ((r.head + k) % r.capacity) d)

  pub length-items : (r : Ring A) → length (items r) ≡ r.count
  length-items r = length-tabulate r.count _

  pub record Pushed (r : Ring A) (x : A) (s : Ring A) : Type ℓ where
    pub valid : IsRing s
    pub queue : items s ≡ items r ++ x ∷ []
    pub capacity : s.capacity ≡ r.capacity
    pub count : s.count ≡ r.count + 1

  pub record Popped (r : Ring A) (x : A) (s : Ring A) : Type ℓ where
    pub valid : IsRing s
    pub queue : items r ≡ x ∷ items s
    pub capacity : s.capacity ≡ r.capacity
    pub count : r.count ≡ s.count + 1

  pub push-Pushed :
      (r : Ring A) (x : A)
      → IsRing r
      → r.count < r.capacity
      → (s : Ring A) × (push r x ≡ pushed s) × Pushed r x s
  unfolding push
  push-Pushed r x v room =
      let inside : r.tail < length r.cells = omega (
        arith,
        v.sized,
        v.tail_at,
        mod_cases r.capacity (r.head + r.count) (omega (arith, v.head_in)),
      ) in
      let after = set r.cells r.tail x in
      let not_full : (r.count == r.capacity) ≡ false = ground arith in
      let next : r.count + 1 ≡ suc r.count = omega arith in
      let kept =
        tabulate-eq r.count (λ k. get_or after ((r.head + k) % r.capacity) d)
          (λ k. get_or r.cells ((r.head + k) % r.capacity) d)
          (λ k p. ground (
            arith,
            get_or-set r.cells r.tail ((r.head + k) % r.capacity) x d,
            around_ne r.capacity r.head k r.count v.head_in p room,
          )) in
      let written : get_or after ((r.head + r.count) % r.capacity) d ≡ x =
        ground (arith, get_or-set r.cells r.tail ((r.head + r.count) % r.capacity) x d) in
      (
        _,
        rw (not_full, lt→ltb _ _ inside) refl,
        record {
          valid = record {
            sized = length-set r.cells r.tail x ∙ v.sized;
            head_in = v.head_in;
            tail_at =
                ap (λ t. (t + 1) % r.capacity) v.tail_at
                ∙ mod-add-mod (r.head + r.count) r.capacity 1
                ∙ ap (λ t. t % r.capacity) (omega arith);
            count_le = omega arith;
          };
          queue =
              ap (λ n. tabulate n (λ k. get_or after ((r.head + k) % r.capacity) d)) next
              ∙ ap₂ (λ xs y. xs ++ y ∷ []) kept written;
          capacity = refl;
          count = refl;
        },
      )

  pub pop-Popped :
      (r : Ring A)
      → IsRing r
      → 0 < r.count
      → (x : A) × (s : Ring A) × (pop r ≡ popped x s) × Popped r x s
  unfolding pop
  pop-Popped r v some_in =
      let inside : r.head < length r.cells = omega (arith, v.sized, v.head_in) in
      let not_empty : (r.count == 0) ≡ false = ground arith in
      let next : r.count ≡ suc (r.count - 1) = omega arith in
      let first : (r.head + 0) % r.capacity ≡ r.head =
        ap (λ t. t % r.capacity) (omega arith) ∙ mod-eq_of_lt v.head_in in
      let rest = record r { head = (r.head + 1) % r.capacity; count = r.count - 1 } in
      let read = λ (k : ℕ). get_or r.cells ((r.head + k) % r.capacity) d in
      (
        get_or r.cells r.head d,
        rest,
        rw (not_empty, get_elem?-eq-get_or r.cells r.head d inside) refl,
        record {
          valid = record {
            sized = v.sized;
            head_in = mod-lt (r.head + 1) (omega (arith, v.head_in));
            tail_at =
                v.tail_at
                ∙ ap (λ n. (r.head + n) % r.capacity) next
                ∙ step_around r.capacity r.head (r.count - 1);
            count_le = omega (arith, v.count_le);
          };
          queue =
              ap (λ n. tabulate n read) next
              ∙ tabulate-front (r.count - 1) read
              ∙ ap₂ (λ x xs. x ∷ xs) (ap (λ i. get_or r.cells i d) first)
                  (tabulate-eq (r.count - 1) (λ k. read (suc k)) _
                    (λ k p. ap (λ i. get_or r.cells i d) (step_around r.capacity r.head k)));
          capacity = refl;
          count = omega arith;
        },
      )

  pub push-full : (r : Ring A) (x : A) → r.count ≡ r.capacity → push r x ≡ full
  unfolding push
  push-full r x e = ground arith

  pub pop-empty : (r : Ring A) → r.count ≡ 0 → pop r ≡ empty
  unfolding pop
  pop-empty r e = ground arith

  pub items-empty : (r : Ring A) → r.count ≡ 0 → items r ≡ []
  items-empty r e = ap (λ n. tabulate n (λ k. get_or r.cells ((r.head + k) % r.capacity) d)) e
