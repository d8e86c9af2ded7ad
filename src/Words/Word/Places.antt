-- ===== src/Words/Word/Places.antt =====
-- find_correct_slot: where a letter is moved to, and that there is always such a place.
use gtu_cse344_systems_progr.Common.{
  ℕ, zero, suc, ◌+◌, ◌≤◌, ◌≡◌, ◌≢◌, refl, ap, sym, ◌∙◌, List, [], ◌∷◌, Bool, true, false, Option,
  none, some, ◌==◌, ◌&&◌, not, if◌then◌else◌, get_elem?, bit, weigh, weigh-part, All, Bool-cases,
  inl, inr, arith, ◌⊎◌, eq_of_some,
}
use gtu_cse344_systems_progr.Words.Word.{
  Slot, Task, first_of, or_else, slot_loop, find_correct_slot,
}
use gtu_cse344_systems_progr.Words.Word.Letters.{lies, belongs, carries, arrived, IsSlot, IsWord}

-- The slot at `j` wants the letter `c`, and is not fixed.
abbrev pub Wants : List Slot → ℕ → ℕ → Type 0
Wants slots c j = (t : Slot) × (get_elem? slots j ≡ some t) × (t.original ≡ c) × (t.fixed ≡ false)

-- A place that the loop remembers: it lies before `k` and passed the test.
abbrev Good : List Slot → ℕ → ℕ → Option ℕ → Type 0
Good slots c i none = Unit
Good slots c i (some j) = Wants slots c j × (j ≢ i)

Good-first_of :
    (slots : List Slot) (c i j : ℕ) (m : Option ℕ)
    → Good slots c i m
    → Wants slots c j
    → j ≢ i
    → Good slots c i (first_of m j)
Good-first_of slots c i j none g w n = (w, n)
Good-first_of slots c i j (some k) g w n = g

-- The loop over the slots from `j` on, which are `rest`.
slot_loop-Good :
    (slots : List Slot) (c i j : ℕ) (rest : List Slot) (empty swappable : Option ℕ)
    → ((k : ℕ) → get_elem? rest k ≡ get_elem? slots (j + k))
    → Good slots c i empty
    → Good slots c i swappable
    → Good slots c i (slot_loop j rest c i empty swappable)
unfolding slot_loop
slot_loop-Good slots c i j [] none swappable same e s = s
slot_loop-Good slots c i j [] (some k) swappable same e s = e
slot_loop-Good slots c i j (t ∷ rest) empty swappable same e s =
    let fits = t.original == c && (not t.fixed && not (j == i)) in
    let at : get_elem? slots j ≡ some t = ap (get_elem? slots) (omega arith) ∙ sym (same 0) in
    slot_loop-Good slots c i (j + 1) rest _ _
      (λ k. same (suc k) ∙ ap (get_elem? slots) (omega arith))
      (kept (fits && not t.occupied) empty (λ h. wanted at (ground arith)) (λ h. ground arith) e)
      (kept (fits && t.occupied) swappable (λ h. wanted at (ground arith)) (λ h. ground arith) s)
  where
    wanted :
        get_elem? slots j ≡ some t
        → (t.original == c && (not t.fixed && not (j == i))) ≡ true
        → Wants slots c j
    wanted at f = (t, at, ground arith, ground arith)

    kept :
        (b : Bool) (m : Option ℕ)
        → (b ≡ true → Wants slots c j)
        → (b ≡ true → j ≢ i)
        → Good slots c i m
        → Good slots c i (if b then first_of m j else m)
    kept true m w n g = Good-first_of slots c i j m g (w refl) (n refl)
    kept false m w n g = g

-- A slot to which a letter is moved wants it; the letter stays only where it belongs.
pub find_correct_slot-Wants :
    (slots : List Slot) (i j : ℕ) (s : Slot)
    → get_elem? slots i ≡ some s
    → s.fixed ≡ false
    → find_correct_slot slots i s ≡ some j
    → Wants slots s.area j × ((j ≡ i) ⊎ ((j ≢ i) × (s.original ≢ s.area)))
unfolding find_correct_slot
find_correct_slot-Wants slots i j s at unfixed e = elim (Bool-cases (s.original == s.area)) [
  | inl home ↦
      let stays : i ≡ j = ground arith in
      let own : s.original ≡ s.area = ground arith in
      (rw (← stays) (s, at, own, unfixed), inl (sym stays))
  | inr away ↦
      let other : s.original ≢ s.area = ground arith in
      let searched : slot_loop 0 slots s.area i none none ≡ some j = ground arith in
      let good : Good slots s.area i (slot_loop 0 slots s.area i none none) =
        slot_loop-Good slots s.area i 0 slots none none (λ k. ap (get_elem? slots) (omega arith)) tt
          tt in
      let g : Good slots s.area i (some j) = rw searched at good in (g.0, inr (g.1, other))
]

-- The slots that want `c`.
abbrev pub wanting : ℕ → Slot → ℕ
wanting c s = if s.fixed then 0 else bit (s.original == c)

or_else-none : (a b : Option ℕ) → or_else a b ≡ none → (a ≡ none) × (b ≡ none)
or_else-none none b e = (refl, e)
or_else-none (some k) b e = cc

first_of-some : (m : Option ℕ) (j : ℕ) → first_of m j ≡ none → ⊥
first_of-some none j e = cc
first_of-some (some k) j e = cc

-- When nothing is found, no other slot wants the letter.
slot_loop-none :
    (c i j : ℕ) (rest : List Slot) (empty swappable : Option ℕ)
    → slot_loop j rest c i empty swappable ≡ none
    → (empty ≡ none)
      × (swappable ≡ none)
      × ((k : ℕ) (t : Slot) → get_elem? rest k ≡ some t → j + k ≢ i → wanting c t ≡ 0)
unfolding slot_loop
slot_loop-none c i j [] empty swappable e =
    let (a, b) = or_else-none empty swappable e in (a, b, λ k t h n. cc)
slot_loop-none c i j (s ∷ rest) empty swappable e =
    let fits = s.original == c && (not s.fixed && not (j == i)) in
    let (a, b, others) =
      slot_loop-none c i (j + 1) rest (if fits && not s.occupied then first_of empty j else empty)
        (if fits && s.occupied then first_of swappable j else swappable) e in
    elim (Bool-cases fits) [
      | inl good ↦ elim (Bool-cases s.occupied) [
        | inl occ ↦ absurd (first_of-some swappable j (ground arith))
        | inr free ↦ absurd (first_of-some empty j (ground arith))
      ]
      | inr bad ↦ (ground arith, ground arith, λ k t h n. elim_zero bad others k t h n)
    ]
  where
    elim_zero :
        (s.original == c && (not s.fixed && not (j == i))) ≡ false
        → ((k : ℕ) (t : Slot) → get_elem? rest k ≡ some t → (j + 1) + k ≢ i → wanting c t ≡ 0)
        → (k : ℕ) (t : Slot) → get_elem? (s ∷ rest) k ≡ some t
        → j + k ≢ i
        → wanting c t ≡ 0
    elim_zero bad others zero t h n =
        let same : s ≡ t = eq_of_some s t h in
        let away : j ≢ i = λ q. n (omega (arith, q)) in
        let zero_here : wanting c s ≡ 0 = ground arith in sym (ap (wanting c) same) ∙ zero_here
    elim_zero bad others (suc k) t h n = others k t h (λ q. n (omega (arith, q)))

weigh-zero :
    (f : Slot → ℕ) (slots : List Slot)
    → ((k : ℕ) (t : Slot) → get_elem? slots k ≡ some t → f t ≡ 0)
    → weigh f slots ≡ 0
weigh-zero f [] h = refl
weigh-zero f (s ∷ slots) h = omega (arith, h 0 s refl, weigh-zero f slots (λ k t e. h (suc k) t e))

-- A letter lies in a slot that is not fixed.
abbrev loose : ℕ → Slot → ℕ
loose c s = if s.fixed then 0 else lies c s

-- Of the slots that are not fixed, as many want a letter as hold one that belongs elsewhere or more.
loose-le-wanting :
    (c : ℕ) (slots : List Slot)
    → All IsSlot slots
    → weigh (loose c) slots + weigh (belongs c) slots
      ≡ weigh (wanting c) slots + weigh (lies c) slots
loose-le-wanting c [] a = refl
loose-le-wanting c (s ∷ slots) a = elim (Bool-cases s.fixed) [
  | inl fix ↦ ground (arith, a.0 fix, loose-le-wanting c slots a.1)
  | inr unfixed ↦ ground (arith, loose-le-wanting c slots a.1)
]

arrived-le : (c : ℕ) (tasks : List Task) → weigh (arrived c) tasks ≤ weigh (carries c) tasks
arrived-le c [] = omega arith
arrived-le c (x ∷ tasks) = ground (arith, arrived-le c tasks)

-- A letter that lies in a slot and is not fixed always has a place to go.
pub find_correct_slot-ne-none :
    (slots : List Slot) (tasks : List Task) (i : ℕ) (s : Slot)
    → IsWord slots tasks
    → get_elem? slots i ≡ some s
    → s.occupied ≡ true
    → s.fixed ≡ false
    → find_correct_slot slots i s ≢ none
unfolding find_correct_slot
find_correct_slot-ne-none slots tasks i s v at occ unfixed e =
    elim (Bool-cases (s.original == s.area)) [
      | inl home ↦ ground arith
      | inr away ↦
          let searched : slot_loop 0 slots s.area i none none ≡ none = ground arith in
          let (a, b, others) = slot_loop-none s.area i 0 slots none none searched in
          let here : wanting s.area s ≡ 0 = ground arith in
          let lying : loose s.area s ≡ 1 = ground arith in
          let nobody = weigh-zero (wanting s.area) slots (everywhere here others) in
          omega (
            arith,
            nobody,
            lying,
            weigh-part (loose s.area) slots i s at,
            loose-le-wanting s.area slots v.fixed,
            arrived-le s.area tasks,
            v.delivered s.area,
            v.whole s.area,
          )
    ]
  where
    everywhere :
        wanting s.area s ≡ 0
        → ((k : ℕ) (t : Slot) → get_elem? slots k ≡ some t → 0 + k ≢ i → wanting s.area t ≡ 0)
        → (k : ℕ) (t : Slot) → get_elem? slots k ≡ some t
        → wanting s.area t ≡ 0
    everywhere here others k t h = elim (Bool-cases (k == i)) [
      | inl same ↦
          let eq : k ≡ i = ground arith in
          let one : s ≡ t = eq_of_some s t (sym at ∙ ap (get_elem? slots) (sym eq) ∙ h) in
          sym (ap (wanting s.area) one) ∙ here
      | inr apart ↦ others k t h (ground arith)
    ]
