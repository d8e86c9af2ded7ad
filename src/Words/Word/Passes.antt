-- ===== src/Words/Word/Passes.antt =====
-- sort_step, its loop over the slots: what a pass keeps, and that it gains something.
use gtu_cse344_systems_progr.Common.{
  ℕ, zero, suc, ◌+◌, ◌≤◌, ◌<◌, ◌≡◌, ◌≢◌, refl, ap, sym, ◌∙◌, List, [], ◌∷◌, true, false, none, some,
  ◌==◌, ◌&&◌, ◌||◌, not, length, get_elem?, All, Bool-cases, Option-cases, inl, inr, arith, ◌⊎◌,
  eq_of_some, get_elem?-length,
}
use mathlib.Core.Path.{subst}
use gtu_cse344_systems_progr.Words.Word.{Slot, Task, sort_slot, sort_loop}
use gtu_cse344_systems_progr.Words.Word.Letters.{IsSlot, IsWord}
use gtu_cse344_systems_progr.Words.Word.Rounds.{
  has_own, score, IsReady, Rearranged, Round, sort_slot-Round, sort_slot-skip,
}
use gtu_cse344_systems_progr.Words.Word.Gains.{
  Round-Rearranged, Round-ready, Round-stays-IsReady, Round-gains,
}

-- A round at `i`: it changes nothing, or it works on a letter that is not fixed.
data Turn (slots : List Slot) (i : ℕ) (later : List Slot) : Type 0 where
  idle :
      later ≡ slots
      → ((s : Slot) → get_elem? slots i ≡ some s → (not s.occupied || s.fixed) ≡ true)
      → Turn slots i later
  works :
      (s : Slot)
      → get_elem? slots i ≡ some s
      → s.occupied ≡ true
      → s.fixed ≡ false
      → Round slots i s later
      → Turn slots i later

sort_slot-none :
    (slots : List Slot) (i : ℕ) → get_elem? slots i ≡ none → (sort_slot slots i).0 ≡ slots
unfolding sort_slot
sort_slot-none slots i n = rw (sort_slot, n) refl

sort_slot-Turn :
    (slots : List Slot) (tasks : List Task) (i : ℕ)
    → IsWord slots tasks
    → Turn slots i (sort_slot slots i).0
sort_slot-Turn slots tasks i v = elim (Option-cases (get_elem? slots i)) [
  | inl n ↦ idle (sort_slot-none slots i n) (λ s at. cc n)
  | inr (s, at) ↦ elim (Bool-cases (not s.occupied || s.fixed)) [
    | inl skip ↦
        idle (ap (λ p. p.0) (sort_slot-skip slots i s at skip)) (λ t h. same s t (sym at ∙ h) skip)
    | inr work ↦
        works s at (ground arith) (ground arith)
          (sort_slot-Round slots tasks i s v at (ground arith) (ground arith))
  ]
]
  where
    same :
        (s t : Slot)
        → some s ≡ some t
        → (not s.occupied || s.fixed) ≡ true
        → (not t.occupied || t.fixed) ≡ true
    same s t e h = ap (λ z. not z.occupied || z.fixed) (sym (eq_of_some s t e)) ∙ h

Rearranged-refl : (slots : List Slot) → All IsSlot slots → Rearranged slots slots
Rearranged-refl slots a = record {
  fixed = a;
  letters = λ c. refl;
  wanted = λ c. refl;
  occupied = refl;
  sizes = refl;
  word = refl;
  gains = omega arith;
}

Rearranged-trans : (a b c : List Slot) → Rearranged a b → Rearranged b c → Rearranged a c
Rearranged-trans a b c r s = record {
  fixed = s.fixed;
  letters = λ x. s.letters x ∙ r.letters x;
  wanted = λ x. s.wanted x ∙ r.wanted x;
  occupied = s.occupied ∙ r.occupied;
  sizes = s.sizes ∙ r.sizes;
  word = s.word ∙ r.word;
  gains = omega (arith, r.gains, s.gains);
}

pub Rearranged-IsWord :
    (slots later : List Slot) (tasks : List Task)
    → IsWord slots tasks
    → Rearranged slots later
    → IsWord later tasks
Rearranged-IsWord slots later tasks v r = record {
  fixed = r.fixed;
  delivered = λ c. r.letters c ∙ v.delivered c;
  as_many = r.occupied ∙ v.as_many;
  whole = λ c. r.wanted c ∙ v.whole c;
  sizes = r.sizes ∙ v.sizes;
}

Turn-Rearranged :
    (slots later : List Slot) (i : ℕ)
    → All IsSlot slots
    → Turn slots i later
    → Rearranged slots later
Turn-Rearranged slots later i a (idle same skip) = rw same (Rearranged-refl slots a)
Turn-Rearranged slots later i a (works s at occ unfixed r) =
    Round-Rearranged slots i s later a at occ unfixed r

pub sort_loop-Rearranged :
    (n : ℕ) (slots : List Slot) (tasks : List Task) (i : ℕ)
    → IsWord slots tasks
    → Rearranged slots (sort_loop n slots i).0
unfolding sort_loop
sort_loop-Rearranged zero slots tasks i v = Rearranged-refl slots v.fixed
sort_loop-Rearranged (suc n) slots tasks i v =
    let next = (sort_slot slots i).0 in
    let r = Turn-Rearranged slots next i v.fixed (sort_slot-Turn slots tasks i v) in
    Rearranged-trans slots next _ r
      (sort_loop-Rearranged n next tasks (i + 1) (Rearranged-IsWord slots next tasks v r))

-- What the rounds behind `i` gain, given by `rest`, from the slots that the round at `i` leaves.
ready-Turn :
    (slots next : List Slot) (tasks : List Task) (i k : ℕ) (u : Slot) (rest : List Slot → List Slot)
    → IsWord slots tasks
    → get_elem? slots k ≡ some u
    → IsReady u
    → score next ≤ score (rest next)
    → ((u' : Slot)
        → get_elem? next k ≡ some u'
        → IsReady u'
        → k ≢ i
        → score next < score (rest next))
    → Turn slots i next
    → score slots < score (rest next)
ready-Turn slots next tasks i k u rest v at r mono onward (idle same skip) =
    elim (Bool-cases (k == i)) [
      | inl here ↦
          let eq : k ≡ i = ground arith in
          absurd (ground (arith, skip u (ap (get_elem? slots) (sym eq) ∙ at)))
      | inr there ↦
          omega
            (arith, ap score same, onward u (ap (λ z. get_elem? z k) same ∙ at) r (ground arith))
    ]
ready-Turn slots next tasks i k u rest v at r mono onward (works s at_i occ unfixed round) =
    elim (Bool-cases (k == i)) [
      | inl here ↦
          let eq : k ≡ i = ground arith in
          let found : get_elem? slots i ≡ some u = ap (get_elem? slots) (sym eq) ∙ at in
          let one : u ≡ s = eq_of_some u s (sym found ∙ at_i) in
          omega (arith, Round-ready slots i s next at_i (subst IsReady one r) round, mono)
      | inr there ↦
          let (u', found, r') =
            Round-stays-IsReady slots i k s u next at_i at (ground arith) r round in
          omega (
            arith,
            (Round-Rearranged slots i s next v.fixed at_i occ unfixed round).gains,
            onward u' found r' (ground arith),
          )
    ]

-- A pass that comes to a slot that is ready gains something.
sort_loop-ready :
    (n : ℕ) (slots : List Slot) (tasks : List Task) (i k : ℕ) (u : Slot)
    → IsWord slots tasks
    → get_elem? slots k ≡ some u
    → IsReady u
    → i ≤ k
    → k < i + n
    → score slots < score (sort_loop n slots i).0
unfolding sort_loop
sort_loop-ready zero slots tasks i k u v at r from to = absurd (omega arith)
sort_loop-ready (suc n) slots tasks i k u v at r from to =
    let next = (sort_slot slots i).0 in
    let t = sort_slot-Turn slots tasks i v in
    let w = Rearranged-IsWord slots next tasks v (Turn-Rearranged slots next i v.fixed t) in
    ready-Turn slots next tasks i k u (λ z. (sort_loop n z (i + 1)).0) v at r
      (sort_loop-Rearranged n next tasks (i + 1) w).gains
      (λ u' found r' apart.
        sort_loop-ready n next tasks (i + 1) k u' w found r' (omega (arith, ne_lt from apart))
          (omega arith))
      t
  where
    ne_lt : i ≤ k → k ≢ i → i < k
    ne_lt from apart = ground arith

abbrev NoneReady : List Slot → Type 0
NoneReady slots = (k : ℕ) (t : Slot) → get_elem? slots k ≡ some t → IsReady t → ⊥

gains-Turn :
    (slots next : List Slot) (i k : ℕ) (u : Slot) (rest : List Slot → List Slot)
    → get_elem? slots k ≡ some u
    → u.occupied ≡ true
    → u.fixed ≡ false
    → NoneReady slots
    → score next ≤ score (rest next)
    → (next ≡ slots → k ≢ i → score next < score (rest next))
    → Turn slots i next
    → score slots < score (rest next)
gains-Turn slots next i k u rest at occ unfixed nobody mono onward (idle same skip) =
    elim (Bool-cases (k == i)) [
      | inl here ↦
          let eq : k ≡ i = ground arith in
          absurd (ground (arith, skip u (ap (get_elem? slots) (sym eq) ∙ at)))
      | inr there ↦ omega (arith, ap score same, onward same (ground arith))
    ]
gains-Turn slots next i k u rest at occ unfixed nobody mono onward
      (works s at_i occ_i open_i round) =
    omega (arith, Round-gains slots i s next at_i occ_i open_i nobody round, mono)

-- So does one that comes to a letter that is not fixed, when no slot is ready.
sort_loop-gains :
    (n : ℕ) (slots : List Slot) (tasks : List Task) (i k : ℕ) (u : Slot)
    → IsWord slots tasks
    → get_elem? slots k ≡ some u
    → u.occupied ≡ true
    → u.fixed ≡ false
    → NoneReady slots
    → i ≤ k
    → k < i + n
    → score slots < score (sort_loop n slots i).0
unfolding sort_loop
sort_loop-gains zero slots tasks i k u v at occ unfixed nobody from to = absurd (omega arith)
sort_loop-gains (suc n) slots tasks i k u v at occ unfixed nobody from to =
    let next = (sort_slot slots i).0 in
    let t = sort_slot-Turn slots tasks i v in
    let w = Rearranged-IsWord slots next tasks v (Turn-Rearranged slots next i v.fixed t) in
    gains-Turn slots next i k u (λ z. (sort_loop n z (i + 1)).0) at occ unfixed nobody
      (sort_loop-Rearranged n next tasks (i + 1) w).gains
      (λ same apart.
        sort_loop-gains n next tasks (i + 1) k u w (ap (λ z. get_elem? z k) same ∙ at) occ unfixed
          (λ j t h. nobody j t (ap (λ z. get_elem? z j) (sym same) ∙ h))
          (omega (arith, ne_lt from apart)) (omega arith))
      t
  where
    ne_lt : i ≤ k → k ≢ i → i < k
    ne_lt from apart = ground arith

-- Some slot is ready, or none is.
IsReady-cases :
    (slots : List Slot)
    → ((k : ℕ) × (t : Slot) × (get_elem? slots k ≡ some t) × IsReady t) ⊎ NoneReady slots
IsReady-cases [] = inr (λ k t h r. cc h)
IsReady-cases (s ∷ slots) = elim (Bool-cases (has_own s && not s.fixed)) [
  | inl here ↦ inl (0, s, refl, (ground arith, ground arith))
  | inr away ↦ elim (IsReady-cases slots) [
    | inl (k, t, at, r) ↦ inl (suc k, t, at, r)
    | inr nobody ↦ inr (nowhere away nobody)
  ]
]
  where
    nowhere :
        (has_own s && not s.fixed) ≡ false
        → NoneReady slots
        → (k : ℕ) (t : Slot) → get_elem? (s ∷ slots) k ≡ some t
        → IsReady t
        → ⊥
    nowhere away nobody zero t h r =
        let one : t ≡ s = eq_of_some t s (sym h) in
        let (own, unfixed) = subst IsReady one r in ground arith
    nowhere away nobody (suc k) t h r = nobody k t h r

-- A whole pass gains something while a letter in a slot is not fixed.
pub pass-gains :
    (slots : List Slot) (tasks : List Task) (k : ℕ) (u : Slot)
    → IsWord slots tasks
    → get_elem? slots k ≡ some u
    → u.occupied ≡ true
    → u.fixed ≡ false
    → score slots < score (sort_loop (length slots) slots 0).0
pass-gains slots tasks k u v at occ unfixed = elim (IsReady-cases slots) [
  | inl (j, t, at_j, r) ↦
      sort_loop-ready (length slots) slots tasks 0 j t v at_j r (omega arith)
        (omega (arith, get_elem?-length slots j t at_j))
  | inr nobody ↦
      sort_loop-gains (length slots) slots tasks 0 k u v at occ unfixed nobody (omega arith)
        (omega (arith, get_elem?-length slots k u at))
]
