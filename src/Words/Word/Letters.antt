-- ===== src/Words/Word/Letters.antt =====
-- The letters of a word: those in its sorting area are the ones that were delivered.
use gtu_cse344_systems_progr.Common.{
  ℕ, zero, suc, ◌+◌, ◌≤◌, ◌<◌, ◌≡◌, refl, ap, ◌∙◌, List, [], ◌∷◌, true, false, none, some, ◌==◌,
  ◌&&◌, not, if◌then◌else◌, length, get_elem?, set, map, bit, weigh, weigh-set, length-set, All,
  All-get, All-set, Bool-cases, Option-cases, inl, inr, arith, leb,
}
use gtu_cse344_systems_progr.Libc.{Text}
use gtu_cse344_systems_progr.Words.Word.{
  Slot, Task, Word, new_slot, new_tasks, letters_of, init_word, free_slot, place_char,
}

-- The letter `c` lies in the slot, and it belongs there.
abbrev pub lies : ℕ → Slot → ℕ
lies c s = if s.occupied then bit (s.area == c) else 0

abbrev pub belongs : ℕ → Slot → ℕ
belongs c s = bit (s.original == c)

-- The task's letter is `c`, and it was delivered.
abbrev pub carries : ℕ → Task → ℕ
carries c x = bit (x.character == c)

abbrev pub arrived : ℕ → Task → ℕ
arrived c x = if x.delivered then bit (x.character == c) else 0

-- A slot that is fixed has its letter.
abbrev pub IsSlot : Slot → Type 0
IsSlot s = s.fixed ≡ true → (s.occupied ≡ true) × (s.area ≡ s.original)

-- How many slots are occupied, and how many letters were delivered.
abbrev pub full : List Slot → ℕ
full slots = weigh (λ s. bit s.occupied) slots

abbrev pub brought : List Task → ℕ
brought tasks = weigh (λ x. bit x.delivered) tasks

-- Of each letter as many lie in the slots as were delivered, and as many belong there as are to be
-- carried.
pub record IsWord (slots : List Slot) (tasks : List Task) : Type 0 where
  pub fixed : All IsSlot slots
  pub delivered : (c : ℕ) → weigh (lies c) slots ≡ weigh (arrived c) tasks
  pub as_many : full slots ≡ brought tasks
  pub whole : (c : ℕ) → weigh (belongs c) slots ≡ weigh (carries c) tasks
  pub sizes : length slots ≡ length tasks

new-IsWord :
    (floor j : ℕ) (letters : List ℕ) → IsWord (map new_slot letters) (new_tasks floor j letters)
unfolding new_tasks
new-IsWord floor j [] = record {
  fixed = tt;
  delivered = λ c. refl;
  as_many = refl;
  whole = λ c. refl;
  sizes = refl;
}
new-IsWord floor j (x ∷ letters) =
    let rest = new-IsWord floor (j + 1) letters in
    record {
      fixed = (λ e. cc, rest.fixed);
      delivered = λ c. omega (arith, rest.delivered c);
      as_many = omega (arith, rest.as_many);
      whole = λ c. omega (arith, rest.whole c);
      sizes = omega (arith, rest.sizes);
    }

pub init_word-IsWord :
    (id : ℕ) (word : Text) (floor : ℕ) (w : Word)
    → init_word id word floor ≡ some w
    → IsWord w.slots w.tasks
unfolding init_word
init_word-IsWord id word floor w e = elim (Bool-cases (leb (length word) 64)) [
  | inl fits ↦
      let slots : map new_slot (letters_of word) ≡ w.slots = ground arith in
      let tasks : new_tasks floor 0 (letters_of word) ≡ w.tasks = ground arith in
      rw (← slots, ← tasks) (new-IsWord floor 0 (letters_of word))
  | inr long ↦ ground arith
]

pub free_slot-found :
    (k : ℕ) (slots : List Slot) (i : ℕ)
    → free_slot k slots ≡ some i
    → (j : ℕ) × (s : Slot) × (i ≡ k + j) × (get_elem? slots j ≡ some s) × (s.occupied ≡ false)
unfolding free_slot
free_slot-found k [] i e = cc
free_slot-found k (s ∷ slots) i e = elim (Bool-cases (not s.occupied && not s.fixed)) [
  | inl free ↦ (0, s, ground arith, refl, ground arith)
  | inr taken ↦
      let (j, t, at, got, empty) = free_slot-found (k + 1) slots i (ground arith) in
      (suc j, t, omega (arith, at), got, empty)
]

-- With no free slot, every slot is occupied.
free_slot-none :
    (k : ℕ) (slots : List Slot)
    → free_slot k slots ≡ none
    → All IsSlot slots
    → full slots ≡ length slots
unfolding free_slot
free_slot-none k [] e a = refl
free_slot-none k (s ∷ slots) e a = elim (Bool-cases s.occupied) [
  | inl occ ↦ rw occ (omega (arith, free_slot-none (k + 1) slots (ground arith) a.1))
  | inr empty ↦ elim (Bool-cases s.fixed) [
    | inl fix ↦ ground (arith, a.0 fix)
    | inr unfixed ↦ ground arith
  ]
]

brought-lt :
    (tasks : List Task) (t : ℕ) (x : Task)
    → get_elem? tasks t ≡ some x
    → x.delivered ≡ false
    → brought tasks < length tasks
brought-lt [] t x e h = cc
brought-lt (y ∷ tasks) zero x e h =
    let same : y ≡ x = cc in
    let open_task : y.delivered ≡ false = ap (λ z. z.delivered) same ∙ h in
    rw open_task (omega (arith, brought-le tasks))
  where
    brought-le : (ys : List Task) → brought ys ≤ length ys
    brought-le [] = omega arith
    brought-le (z ∷ ys) = ground (arith, brought-le ys)
brought-lt (y ∷ tasks) (suc t) x e h = ground (arith, brought-lt tasks t x e h)

placed-IsWord :
    (slots : List Slot) (tasks : List Task) (t i : ℕ) (x : Task) (s : Slot)
    → IsWord slots tasks
    → get_elem? tasks t ≡ some x
    → x.delivered ≡ false
    → get_elem? slots i ≡ some s
    → s.occupied ≡ false
    → IsWord
        (set slots i (record s { area = x.character; occupied = true }))
        (set tasks t (record x { delivered = true }))
placed-IsWord slots tasks t i x s v task new at empty =
    let s' : Slot = record s { area = x.character; occupied = true } in
    let x' : Task = record x { delivered = true } in
    let old = All-get IsSlot slots i s v.fixed at in
    let unfixed : s.fixed ≡ false = ground (arith, old) in
    record {
      fixed = All-set IsSlot slots i s' v.fixed (λ f. cc unfixed);
      delivered = λ c. ground (
        arith,
        weigh-set (lies c) slots i s s' at,
        weigh-set (arrived c) tasks t x x' task,
        v.delivered c,
      );
      as_many = ground (
        arith,
        weigh-set (λ z. bit z.occupied) slots i s s' at,
        weigh-set (λ z. bit z.delivered) tasks t x x' task,
        v.as_many,
      );
      whole = λ c. omega (
        arith,
        weigh-set (belongs c) slots i s s' at,
        weigh-set (carries c) tasks t x x' task,
        v.whole c,
      );
      sizes = omega (arith, length-set slots i s', length-set tasks t x', v.sizes);
    }

-- A letter that was not delivered yet always finds a free slot.
pub place_char-IsWord :
    (w : Word) (t : ℕ) (x : Task)
    → IsWord w.slots w.tasks
    → get_elem? w.tasks t ≡ some x
    → x.delivered ≡ false
    → (w' : Word) × (place_char w t ≡ some w') × IsWord w'.slots w'.tasks
unfolding place_char
place_char-IsWord w t x v task new = elim (Option-cases (free_slot 0 w.slots)) [
  | inl n ↦ absurd (
      omega (
        arith,
        free_slot-none 0 w.slots n v.fixed,
        brought-lt w.tasks t x task new,
        v.as_many,
        v.sizes,
      ))
  | inr (i, h) ↦
      let (j, s, at, got, empty) = free_slot-found 0 w.slots i h in
      let here : get_elem? w.slots i ≡ some s = ap (get_elem? w.slots) (omega (arith, at)) ∙ got in
      (
        record w {
          slots = set w.slots i (record s { area = x.character; occupied = true });
          tasks = set w.tasks t (record x { delivered = true });
        },
        rw (place_char, task, h, here) refl,
        placed-IsWord w.slots w.tasks t i x s v task new here empty,
      )
]
