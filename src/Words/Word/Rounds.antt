-- ===== src/Words/Word/Rounds.antt =====
-- sort_step, one round of its loop: what it does with a letter.
use gtu_cse344_systems_progr.Common.{
  ℕ, zero, suc, ◌+◌, ◌≤◌, ◌≡◌, ◌≢◌, refl, ap, sym, ◌∙◌, List, [], ◌∷◌, Bool, true, false, some,
  ◌==◌, ◌&&◌, ◌||◌, not, length, get_elem?, set, map, bit, weigh, weigh-set, length-set,
  get_elem?-set, get_elem?-set_other, All, All-set, Bool-cases, Option-cases, inl, inr, arith, ◌⊎◌,
  eq_of_some,
}
use gtu_cse344_systems_progr.Words.Word.{Slot, Task, find_correct_slot, settle, sort_slot}
use gtu_cse344_systems_progr.Words.Word.Letters.{lies, belongs, full, IsSlot, IsWord}
use gtu_cse344_systems_progr.Words.Word.Places.{
  Wants, find_correct_slot-Wants, find_correct_slot-ne-none,
}

-- The slot has its letter.
abbrev pub has_own : Slot → Bool
has_own s = s.occupied && s.area == s.original

-- What the sorting gains: a slot counts when it has its letter, and again when it is fixed.
abbrev pub gain : Slot → ℕ
gain s = bit (has_own s) + bit s.fixed

abbrev pub score : List Slot → ℕ
score slots = weigh gain slots

-- The slot has its letter, and the next round at it will fix it.
abbrev pub IsReady : Slot → Type 0
IsReady s = (has_own s ≡ true) × (s.fixed ≡ false)

-- The same letters in the same word, and no less gained.
pub record Rearranged (slots later : List Slot) : Type 0 where
  pub fixed : All IsSlot later
  pub letters : (c : ℕ) → weigh (lies c) later ≡ weigh (lies c) slots
  pub wanted : (c : ℕ) → weigh (belongs c) later ≡ weigh (belongs c) slots
  pub occupied : full later ≡ full slots
  pub sizes : length later ≡ length slots
  pub word : map (λ s. s.original) later ≡ map (λ s. s.original) slots
  pub gains : score slots ≤ score later

pub map-set {ℓ} :
    {B : Type ℓ} (f : Slot → B) (xs : List Slot) (i : ℕ) (x y : Slot)
    → get_elem? xs i ≡ some x
    → f y ≡ f x
    → map f (set xs i y) ≡ map f xs
map-set f [] i x y e h = cc
map-set f (z ∷ xs) zero x y e h =
    let same : z ≡ x = eq_of_some z x e in λ j. (h ∙ ap f (sym same)) j ∷ map f xs
map-set f (z ∷ xs) (suc i) x y e h = λ j. f z ∷ map-set f xs i x y e h j

module _ (slots : List Slot) (i j : ℕ) (s t s' t' : Slot) (at_i : get_elem? slots i ≡ some s)
    (at_j : get_elem? slots j ≡ some t) (apart : j ≢ i) where
  abbrev pub both : List Slot
  both = set (set slots j t') i s'

  still : get_elem? (set slots j t') i ≡ some s
  still = get_elem?-set_other slots j i t' apart ∙ at_i

  -- Two slots are written.
  pub weigh-both : (f : Slot → ℕ) → weigh f both + (f s + f t) ≡ weigh f slots + (f s' + f t')
  weigh-both f =
      omega (arith, weigh-set f slots j t t' at_j, weigh-set f (set slots j t') i s s' still)

  pub get-both_i : get_elem? both i ≡ some s'
  get-both_i = get_elem?-set (set slots j t') i s s' still

  pub get-both_j : get_elem? both j ≡ some t'
  get-both_j =
      get_elem?-set_other (set slots j t') i j s' (λ e. apart (sym e))
      ∙ get_elem?-set slots j t t' at_j

  pub get-both_other : (k : ℕ) → k ≢ i → k ≢ j → get_elem? both k ≡ get_elem? slots k
  get-both_other k ni nj =
      get_elem?-set_other (set slots j t') i k s' (λ e. ni (sym e))
      ∙ get_elem?-set_other slots j k t' (λ e. nj (sym e))

  pub both-IsSlot : All IsSlot slots → IsSlot s' → IsSlot t' → All IsSlot both
  both-IsSlot a p q = All-set IsSlot (set slots j t') i s' (All-set IsSlot slots j t' a q) p

  pub length-both : length both ≡ length slots
  length-both = length-set (set slots j t') i s' ∙ length-set slots j t'

  pub map-both :
      s'.original ≡ s.original
      → t'.original ≡ t.original
      → map (λ z. z.original) both ≡ map (λ z. z.original) slots
  map-both p q =
      map-set (λ z. z.original) (set slots j t') i s s' still p
      ∙ map-set (λ z. z.original) slots j t t' at_j q

-- The slot after its letter was moved, and the slots that it was moved into.
abbrev pub emptied : Slot → Slot
emptied s = record s { area = 0; occupied = false }

abbrev pub filled : Slot → Slot → Slot
filled t s = record t { area = s.area; occupied = true }

abbrev pub swapped : Slot → Slot → Slot
swapped t s = record t { area = s.area }

-- What a round at `i` makes of the slots, when the letter of slot `s` there is not fixed.
pub data Round (slots : List Slot) (i : ℕ) (s : Slot) : List Slot → Type 0 where
  fixes : s.original ≡ s.area → Round slots i s (set slots i (record s { fixed = true }))
  moves :
      (j : ℕ) (t : Slot)
      → get_elem? slots j ≡ some t
      → j ≢ i
      → t.original ≡ s.area
      → t.fixed ≡ false
      → t.occupied ≡ false
      → s.original ≢ s.area
      → Round slots i s (set (set slots j (filled t s)) i (emptied s))
  swaps :
      (j : ℕ) (t : Slot)
      → get_elem? slots j ≡ some t
      → j ≢ i
      → t.original ≡ s.area
      → t.fixed ≡ false
      → t.occupied ≡ true
      → s.original ≢ s.area
      → Round slots i s (set (set slots j (swapped t s)) i (swapped s t))

settle-Round :
    (slots : List Slot) (i j : ℕ) (s : Slot)
    → get_elem? slots i ≡ some s
    → Wants slots s.area j
    → (j ≡ i) ⊎ ((j ≢ i) × (s.original ≢ s.area))
    → Round slots i s (settle slots i s j).0
unfolding settle
settle-Round slots i j s at (t, at_j, wants, unfixed) (inl same) =
    let here : (j == i) ≡ true = ground arith in
    let one : s ≡ t = eq_of_some s t (sym at ∙ ap (get_elem? slots) (sym same) ∙ at_j) in
    let own : s.original ≡ s.area = ap (λ z. z.original) one ∙ wants in
    rw (settle, here) (fixes own)
settle-Round slots i j s at (t, at_j, wants, unfixed) (inr (apart, away)) =
    let there : (j == i) ≡ false = ground arith in
    elim (Bool-cases t.occupied) [
      | inl occ ↦
          let not_empty : not t.occupied ≡ false = ground arith in
          let may_move : not t.fixed ≡ true = ground arith in
          rw (settle, there, at_j, not_empty, may_move)
            (swaps j t at_j apart wants unfixed occ away)
      | inr free ↦
          let is_empty : not t.occupied ≡ true = ground arith in
          rw (settle, there, at_j, is_empty) (moves j t at_j apart wants unfixed free away)
    ]

-- A round at a letter that is not fixed is one of the three.
pub sort_slot-Round :
    (slots : List Slot) (tasks : List Task) (i : ℕ) (s : Slot)
    → IsWord slots tasks
    → get_elem? slots i ≡ some s
    → s.occupied ≡ true
    → s.fixed ≡ false
    → Round slots i s (sort_slot slots i).0
unfolding sort_slot
sort_slot-Round slots tasks i s v at occ unfixed =
    elim (Option-cases (find_correct_slot slots i s)) [
      | inl n ↦ absurd (find_correct_slot-ne-none slots tasks i s v at occ unfixed n)
      | inr (j, h) ↦
          let (wants, where_to) = find_correct_slot-Wants slots i j s at unfixed h in
          let sorted : (not s.occupied || s.fixed) ≡ false = ground arith in
          rw (sort_slot, at, sorted, h) (settle-Round slots i j s at wants where_to)
    ]

-- Any other round changes nothing.
pub sort_slot-skip :
    (slots : List Slot) (i : ℕ) (s : Slot)
    → get_elem? slots i ≡ some s
    → (not s.occupied || s.fixed) ≡ true
    → sort_slot slots i ≡ (slots, false)
unfolding sort_slot
sort_slot-skip slots i s at skip = rw (sort_slot, at, skip) refl
