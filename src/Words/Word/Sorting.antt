-- ===== src/Words/Word/Sorting.antt =====
-- The sorting of a word ends.
use gtu_cse344_systems_progr.Common.{
  ℕ, zero, suc, ◌+◌, ◌*◌, ◌≤◌, ◌<◌, ◌≡◌, refl, ap, ◌∙◌, List, [], ◌∷◌, Bool, true, false, some,
  ◌==◌, ◌&&◌, ◌||◌, not, length, get_elem?, map, all, All, Bool-cases, inl, inr, arith,
}
use native.Mathlib.Numerals.{add-one}
use gtu_cse344_systems_progr.Words.Word.{Slot, Task, Word, sort_loop, sort_step, sort_steps}
use gtu_cse344_systems_progr.Words.Word.Letters.{full, brought, IsSlot, IsWord}
use gtu_cse344_systems_progr.Words.Word.Rounds.{score}
use gtu_cse344_systems_progr.Words.Word.Passes.{sort_loop-Rearranged, Rearranged-IsWord, pass-gains}

abbrev pub letters : List Slot → List ℕ
letters slots = map (λ s. s.original) slots

abbrev pub sorted_letters : List Slot → List ℕ
sorted_letters slots = map (λ s. s.area) slots

abbrev pub all_fixed : List Slot → Bool
all_fixed slots = all (λ s. s.fixed) slots

abbrev pub all_delivered : List Task → Bool
all_delivered tasks = all (λ x. x.delivered) tasks

-- A word whose slots are all fixed reads as it should.
pub fixed-letters :
    (slots : List Slot)
    → All IsSlot slots
    → all_fixed slots ≡ true
    → sorted_letters slots ≡ letters slots
fixed-letters [] a h = refl
fixed-letters (s ∷ slots) a h =
    let own = a.0 (ground arith) in
    let rest = fixed-letters slots a.1 (ground arith) in λ i. own.1 i ∷ rest i

score-le : (slots : List Slot) → score slots ≤ 2 * length slots
score-le [] = omega arith
score-le (s ∷ slots) = ground (arith, score-le slots)

score-all_fixed : (slots : List Slot) → 2 * length slots ≤ score slots → all_fixed slots ≡ true
score-all_fixed [] h = refl
score-all_fixed (s ∷ slots) h = ground (arith, score-le slots, score-all_fixed slots)

brought-all : (tasks : List Task) → all_delivered tasks ≡ true → brought tasks ≡ length tasks
brought-all [] h = refl
brought-all (x ∷ tasks) h = ground (arith, brought-all tasks)

full-le : (slots : List Slot) → full slots ≤ length slots
full-le [] = omega arith
full-le (s ∷ slots) = ground (arith, full-le slots)

-- In a full word that is not all gained some letter is not fixed.
unfixed-slot :
    (slots : List Slot)
    → All IsSlot slots
    → full slots ≡ length slots
    → score slots < 2 * length slots
    → (k : ℕ) × (u : Slot) × (get_elem? slots k ≡ some u) × (u.occupied ≡ true) × (u.fixed ≡ false)
unfixed-slot [] a f h = absurd (omega arith)
unfixed-slot (s ∷ slots) a f h =
    let occ : s.occupied ≡ true = ground (arith, full-le slots) in
    elim (Bool-cases s.fixed) [
      | inl fix ↦
          let (k, u, at, o, w) = unfixed-slot slots a.1 (ground arith) (ground (arith, a.0 fix)) in
          (suc k, u, at, o, w)
      | inr unfixed ↦ (0, s, refl, occ, unfixed)
    ]

-- A word on its sorting floor with all letters delivered and not completed.
pub record IsWaiting (w : Word) (floor : ℕ) : Type 0 where
  pub word : IsWord w.slots w.tasks
  pub here : w.sorting_floor ≡ floor
  pub admitted : w.admitted ≡ true
  pub waits : w.completed ≡ false
  pub delivered : all_delivered w.tasks ≡ true

-- The word after a pass.
abbrev passed : Word → Bool → Word
passed w done = record w { slots = (sort_loop (length w.slots) w.slots 0).0; completed = done }

sort_step-passed :
    (w : Word) (floor : ℕ)
    → IsWaiting w floor
    → (sort_step w floor).word ≡ passed w (all_fixed (sort_loop (length w.slots) w.slots 0).0)
unfolding sort_step
sort_step-passed w floor v =
    let runs : (not (w.sorting_floor == floor) || (not w.admitted || w.completed)) ≡ false =
      ground (arith, v.here, v.admitted, v.waits) in
    let done : (w.completed
          || (all_delivered w.tasks
              && (all_fixed (sort_loop (length w.slots) w.slots 0).0 && not w.completed)))
        ≡ all_fixed (sort_loop (length w.slots) w.slots 0).0 =
      ground (arith, v.delivered, v.waits) in
    rw (sort_step, runs) (ap (passed w) done)

sort_steps-completed :
    (n : ℕ) (w : Word) (floor : ℕ) → w.completed ≡ true → sort_steps n w floor ≡ w
unfolding sort_steps sort_step
sort_steps-completed zero w floor h = refl
sort_steps-completed (suc n) w floor h =
    let stops : (not (w.sorting_floor == floor) || (not w.admitted || w.completed)) ≡ true =
      ground arith in
    rw stops (sort_steps-completed n w floor h)

-- What is left of a pass that completed the word.
completed-letters :
    (n : ℕ) (w : Word) (floor : ℕ)
    → IsWaiting w floor
    → all_fixed (sort_loop (length w.slots) w.slots 0).0 ≡ true
    → ((sort_steps n (passed w true) floor).completed ≡ true)
      × (sorted_letters (sort_steps n (passed w true) floor).slots ≡ letters w.slots)
completed-letters n w floor v h =
    let r = sort_loop-Rearranged (length w.slots) w.slots w.tasks 0 v.word in
    rw (sort_steps-completed n (passed w true) floor refl)
      (refl, fixed-letters _ r.fixed h ∙ r.word)

-- A pass that leaves a slot unfixed has gained something, and the word still waits.
pass-IsWaiting :
    (w : Word) (floor : ℕ)
    → IsWaiting w floor
    → all_fixed (sort_loop (length w.slots) w.slots 0).0 ≡ false
    → IsWaiting (passed w false) floor
      × (score w.slots < score (passed w false).slots)
      × (score (passed w false).slots < 2 * length w.slots)
pass-IsWaiting w floor v h =
    let pass = (sort_loop (length w.slots) w.slots 0).0 in
    let r = sort_loop-Rearranged (length w.slots) w.slots w.tasks 0 v.word in
    let below : score pass < 2 * length w.slots = ground (arith, r.sizes, not_all pass h) in
    let crowded : full w.slots ≡ length w.slots =
      omega (arith, v.word.as_many, brought-all w.tasks v.delivered, v.word.sizes) in
    let (k, u, at, occ, unfixed) =
      unfixed-slot w.slots v.word.fixed crowded (omega (arith, r.gains, below)) in
    (
      record {
        word = Rearranged-IsWord w.slots pass w.tasks v.word r;
        here = v.here;
        admitted = v.admitted;
        waits = refl;
        delivered = v.delivered;
      },
      pass-gains w.slots w.tasks k u v.word at occ unfixed,
      below,
    )
  where
    not_all : (p : List Slot) → all_fixed p ≡ false → score p < 2 * length p
    not_all p h = ground (arith, score-all_fixed p)

sort_steps-suc :
    (m : ℕ) (w w' : Word) (floor : ℕ)
    → (sort_step w floor).word ≡ w'
    → sort_steps (suc m) w floor ≡ sort_steps m w' floor
unfolding sort_steps
sort_steps-suc m w w' floor e = ap (λ z. sort_steps m z floor) e

sorting_loop :
    (m : ℕ) (w : Word) (floor : ℕ)
    → IsWaiting w floor
    → 2 * length w.slots ≤ score w.slots + m
    → ((sort_steps (suc m) w floor).completed ≡ true)
      × (sorted_letters (sort_steps (suc m) w floor).slots ≡ letters w.slots)
sorting_loop zero w floor v enough =
    elim (Bool-cases (all_fixed (sort_loop (length w.slots) w.slots 0).0)) [
      | inl full_set ↦
          rw (sort_steps-suc 0 w _ floor (sort_step-passed w floor v ∙ ap (passed w) full_set))
            (completed-letters 0 w floor v full_set)
      | inr short ↦
          let (v', more, below) = pass-IsWaiting w floor v short in
          absurd (omega (arith, more, below))
    ]
sorting_loop (suc m) w floor v enough =
    elim (Bool-cases (all_fixed (sort_loop (length w.slots) w.slots 0).0)) [
      | inl full_set ↦
          rw
            (sort_steps-suc (suc m) w _ floor (sort_step-passed w floor v ∙ ap (passed w) full_set))
            (completed-letters (suc m) w floor v full_set)
      | inr short ↦
          let (v', more, below) = pass-IsWaiting w floor v short in
          let r = sort_loop-Rearranged (length w.slots) w.slots w.tasks 0 v.word in
          let (done, reads) =
            sorting_loop m (passed w false) floor v' (omega (arith, more, r.sizes, enough)) in
          rw (sort_steps-suc (suc m) w _ floor (sort_step-passed w floor v ∙ ap (passed w) short))
            (done, reads ∙ r.word)
    ]

-- Once all letters of a word are delivered, at most 2 n + 1 passes of a sorting process on its floor
-- complete it, for a word of n letters; and then its sorting area reads as the word.
pub sorting_ends :
    (w : Word) (floor : ℕ)
    → IsWaiting w floor
    → ((sort_steps (2 * length w.slots + 1) w floor).completed ≡ true)
      × (sorted_letters (sort_steps (2 * length w.slots + 1) w floor).slots ≡ letters w.slots)
sorting_ends w floor v =
    rw (add-one (2 * length w.slots)) (sorting_loop (2 * length w.slots) w floor v (omega arith))
