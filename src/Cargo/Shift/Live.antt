-- ===== src/Cargo/Shift/Live.antt =====
-- Until `main` has ended, some thread of the shift can take a step, if those at a queue that is not
-- empty or not open are not asleep.
use mathlib.Core.Path.{subst}
use gtu_cse344_systems_progr.Common.{
  ℕ, zero, suc, ◌<◌, ◌≡◌, ◌≢◌, ◌∙◌, ◌⊎◌, inl, inr, refl, ap, sym, List, [], ◌∷◌, Bool, true, false,
  some, arith, length, get_elem?, All, count-length, leb, Bool-cases, ◌==◌,
}
use gtu_cse344_systems_progr.Cargo.Order.{Order}
use gtu_cse344_systems_progr.Cargo.Queue.Service.{IsValid, contents}
use gtu_cse344_systems_progr.Cargo.Queue.Drain.{pq_pop_correct, pq_drain_correct}
use gtu_cse344_systems_progr.Cargo.Stats.{CourierStats}
use gtu_cse344_systems_progr.Cargo.Shift.{
  Pc, ready, delivering, logged, counted, timed, over, Courier, Phase, waiting, cancelling, closing,
  joining, ended, Shift, pop, leave, complete, count_order, add_time, add_own, MainStep, all_done,
  drain, cancel, all_cancelled, close, join, Step, courier, main, Reach, IsOver,
}
use gtu_cse344_systems_progr.Cargo.Shift.Sums.{by_pc, in_flight, to_count}
use gtu_cse344_systems_progr.Cargo.Shift.Places.{Inv, pending, closed}
use gtu_cse344_systems_progr.Cargo.Shift.Invariant.{Reach-Inv}
use gtu_cse344_systems_progr.Cargo.Shift.Closing.{Closes, Reach-Closes, to_over}
use gtu_cse344_systems_progr.Cargo.Shift.Account.{Opened}
use gtu_cse344_systems_progr.Cargo.Shift.Progress.{contents-length}

-- A courier of the shift, by its index.
abbrev Standing : Shift → Pc → Type 0
Standing s p =
    (i : ℕ) × (own : CourierStats) × (get_elem? s.couriers i
      ≡ some (record { pc = p; stats = own }))

-- A courier can go on unless it has left, or waits at an empty queue that is open.
courier_goes_on :
    {n : ℕ} (s : Shift) (p : Pc)
    → IsValid s.pq
    → Standing s p
    → p ≢ over
    → (p ≡ ready → (0 < s.pq.size) ⊎ (s.pq.shutdown ≡ true))
    → (t : Shift) × Step n s t
courier_goes_on s ready v (i, own, h) ne some_work = elim (Bool-cases (s.pq.size == 0)) [
  | inl none_left ↦
      let z : s.pq.size ≡ 0 = ground arith in
      let shut : s.pq.shutdown ≡ true = ground (arith, some_work refl) in
      (_, courier i own h (leave ((pq_pop_correct s.pq v).1 z shut)))
  | inr some_left ↦
      let (o, q, e, r) = (pq_pop_correct s.pq v).0 (ground arith) in
      (_, courier i own h (pop o q e))
]
courier_goes_on s (delivering o) v (i, own, h) ne some_work = (_, courier i own h (complete o))
courier_goes_on s (logged o) v (i, own, h) ne some_work = (_, courier i own h (count_order o))
courier_goes_on s (counted o) v (i, own, h) ne some_work = (_, courier i own h (add_time o))
courier_goes_on s (timed o) v (i, own, h) ne some_work = (_, courier i own h (add_own o))
courier_goes_on s over v (i, own, h) ne some_work = absurd (ne refl)

abbrev is_staying : Pc → Bool
is_staying over = false
is_staying _ = true

abbrev is_busy : Pc → Bool
is_busy ready = false
is_busy over = false
is_busy _ = true

-- A courier among `cs` that passes a test.
Found : (Pc → Bool) → List Courier → Type 0
Found test cs = (i : ℕ) × (c : Courier) × (get_elem? cs i ≡ some c) × (test c.pc ≡ true)

find_courier :
    (test : Pc → Bool) (cs : List Courier) → All (λ c. test c.pc ≡ false) cs ⊎ Found test cs
unfolding Found
find_courier test [] = inl tt
find_courier test (c ∷ cs) = elim (Bool-cases (test c.pc)) [
  | inl here ↦ inr (0, c, refl, here)
  | inr not_here ↦ elim (find_courier test cs) [
    | inl none_there ↦ inl (not_here, none_there)
    | inr (i, d, h, there) ↦ inr (suc i, d, h, there)
  ]
]

All-IsOver : (cs : List Courier) → All (λ c. is_staying c.pc ≡ false) cs → All IsOver cs
All-IsOver [] a = tt
All-IsOver (c ∷ cs) a = (ground (arith, a.0), All-IsOver cs a.1)

-- Couriers that are not busy owe nothing.
idle-zero :
    (w : Pc → ℕ) (cs : List Courier)
    → ((p : Pc) → is_busy p ≡ false → w p ≡ 0)
    → All (λ c. is_busy c.pc ≡ false) cs
    → by_pc w cs ≡ 0
idle-zero w [] z a = refl
idle-zero w (c ∷ cs) z a = omega (arith, z c.pc a.0, idle-zero w cs z a.1)

flight-idle : (q : Order → Bool) (p : Pc) → is_busy p ≡ false → in_flight q p ≡ 0
flight-idle q p h = ground arith

to_count-idle : (p : Pc) → is_busy p ≡ false → to_count p ≡ 0
to_count-idle p h = ground arith

over_seen :
    (cs : List Courier) (i : ℕ) (c : Courier)
    → get_elem? cs i ≡ some c
    → c.pc ≡ over
    → 0 < by_pc to_over cs
over_seen [] i c h e = cc
over_seen (d ∷ cs) zero c h e = let same : d ≡ c = cc in ground arith
over_seen (d ∷ cs) (suc i) c h e = omega (arith, over_seen cs i c h e)

first_of : (cs : List Courier) → 0 < length cs → (d : Courier) × (get_elem? cs 0 ≡ some d)
first_of [] h = absurd (omega arith)
first_of (d ∷ cs) h = (d, refl)

module _ {k : ℕ} (orders : List Order) (s : Shift) (v : Inv orders s) (c : Closes k s) where
  -- While `main` polls for the end of the shift and no signal has come, some order is left to
  -- pop, or in the hands of a courier.
  queue_left :
      s.phase ≡ waiting
      → s.requested ≡ false
      → s.gs.completed_orders < length orders
      → All (λ d. is_busy d.pc ≡ false) s.couriers
      → 0 < s.pq.size
  queue_left e r few idle = omega (
    arith,
    v.placed (λ _. true),
    idle-zero (in_flight (λ _. true)) s.couriers (flight-idle (λ _. true)) idle,
    idle-zero to_count s.couriers to_count-idle idle,
    v.completed,
    c.unsignalled r,
    count-length orders,
    count-length s.delivered,
    count-length s.cancelled,
    count-length (pending s.phase),
    count-length (contents s.pq),
    contents-length s.pq v.valid,
  )

  none_over_yet :
      s.phase ≡ waiting → (i : ℕ) (d : Courier) → get_elem? s.couriers i ≡ some d → d.pc ≢ over
  none_over_yet e i d h left = cc (c.shut (over_seen s.couriers i d h left), v.closes, ap closed e)

  at_phase :
      {f : Phase} {t : Shift}
      → s.phase ≡ f
      → MainStep (length orders) s f t
      → Step (length orders) s t
  at_phase {t} p m = main (subst (λ f. MainStep (length orders) s f t) (sym p) m)

  busy_goes_on : Found is_busy s.couriers → (t : Shift) × Step (length orders) s t
  unfolding Found
  busy_goes_on (i, d, h, busy) =
      courier_goes_on s d.pc v.valid (i, d.stats, h) (λ e. ground arith)
        (λ e. absurd (ground arith))

  waiting_goes_on : 0 < k → s.phase ≡ waiting → (t : Shift) × Step (length orders) s t
  waiting_goes_on few e = elim (Bool-cases s.requested) [
    | inl asked ↦
        let d = pq_drain_correct s.pq v.valid in
        (_, at_phase e (drain d.out d.left asked d.returned))
    | inr not_asked ↦ elim (Bool-cases (leb (length orders) s.gs.completed_orders)) [
      | inl enough ↦ (_, at_phase e (all_done (ground arith) not_asked))
      | inr more ↦ elim (find_courier is_busy s.couriers) [
        | inr found ↦ busy_goes_on found
        | inl idle ↦
            let (d, h) = first_of s.couriers (omega (arith, c.crew)) in
            courier_goes_on s d.pc v.valid (0, d.stats, h) (none_over_yet e 0 d h)
              (λ _. inl (queue_left e not_asked (ground arith) idle))
      ]
    ]
  ]

  joining_goes_on : s.phase ≡ joining → (t : Shift) × Step (length orders) s t
  unfolding Found
  joining_goes_on e = elim (find_courier is_staying s.couriers) [
    | inl none_staying ↦ (_, at_phase e (join (All-IsOver s.couriers none_staying)))
    | inr (i, d, h, stays) ↦
        courier_goes_on s d.pc v.valid (i, d.stats, h) (λ left. ground arith)
          (λ _. inr (v.closes ∙ ap closed e))
  ]

  goes_on : 0 < k → (f : Phase) → s.phase ≡ f → f ≢ ended → (t : Shift) × Step (length orders) s t
  goes_on few waiting e ne = waiting_goes_on few e
  goes_on few (cancelling []) e ne = (_, at_phase e all_cancelled)
  goes_on few (cancelling (o ∷ os)) e ne = (_, at_phase e (cancel o os))
  goes_on few closing e ne = (_, at_phase e close)
  goes_on few joining e ne = joining_goes_on e
  goes_on few ended e ne = absurd (ne refl)

-- With at least one courier, in every state that the shift reaches some step is possible until `main`
-- has ended.
pub Reach-Step :
    {k : ℕ} (orders : List Order) {s t : Shift}
    → 0 < k
    → Opened k orders s
    → Reach (length orders) s t
    → t.phase ≢ ended
    → (u : Shift) × Step (length orders) t u
Reach-Step orders {t} few o r ne =
    goes_on orders t (Reach-Inv orders r o.inv) (Reach-Closes orders r o.inv o.closes) few t.phase
      refl ne
