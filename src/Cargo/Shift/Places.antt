-- ===== src/Cargo/Shift/Places.antt =====
-- What every step of a courier keeps: each order is in one place, and the counters agree with the
-- log up to what the couriers have yet to add.
use mathlib.Core.Path.{subst, subst₂}
use gtu_cse344_systems_progr.Common.{
  ℕ, ◌+◌, ◌≡◌, ◌∙◌, refl, ap, sym, List, [], Bool, true, false, some, arith, length, get_elem?, set,
  count, ◌==◌, Bool-cases, inl, inr,
}
use gtu_cse344_systems_progr.Cargo.Order.{Order}
use gtu_cse344_systems_progr.Cargo.Queue.{PriorityQueue, pq_pop_blocking, popped}
use gtu_cse344_systems_progr.Cargo.Queue.Service.{IsValid, contents, Removes}
use gtu_cse344_systems_progr.Cargo.Queue.Drain.{pq_pop_correct}
use gtu_cse344_systems_progr.Cargo.Stats.{CourierStats}
use gtu_cse344_systems_progr.Cargo.Shift.{
  Pc, ready, delivering, logged, counted, timed, over, Courier, Phase, cancelling, joining, ended,
  Shift, CourierStep, pop, leave, complete, count_order, add_time, add_own, duration_ms,
}
use gtu_cse344_systems_progr.Cargo.Shift.Sums.{
  Moved, moved, in_flight, to_count, to_time, to_own, to_own_time, by_pc, own_completed, own_time,
  time_of,
}

-- The drained orders that `main` has yet to cancel.
abbrev pub pending : Phase → List Order
pending (cancelling os) = os
pending _ = []

-- What the queue, the flag and the phases say of one another.
abbrev pub closed : Phase → Bool
closed joining = true
closed ended = true
closed _ = false

module _ (orders : List Order) where
  pub record Inv (s : Shift) : Type 0 where
    pub valid : IsValid s.pq
    pub placed :
        (p : Order → Bool)
        → count p orders
          ≡ count p (contents s.pq)
            + by_pc (in_flight p) s.couriers
            + count p (pending s.phase)
            + count p s.delivered
            + count p s.cancelled
    pub completed : s.gs.completed_orders + by_pc to_count s.couriers ≡ length s.delivered
    pub timed : s.gs.total_delivery_time + by_pc to_time s.couriers ≡ time_of s.delivered
    pub own : own_completed s.couriers + by_pc to_own s.couriers ≡ length s.delivered
    pub own_timed : own_time s.couriers + by_pc to_own_time s.couriers ≡ time_of s.delivered
    pub cancelled : s.gs.cancelled_orders ≡ length s.cancelled
    pub closes : s.pq.shutdown ≡ closed s.phase

-- A pop that takes an order.
pub pop-Removes :
    (pq q : PriorityQueue) (o : Order)
    → IsValid pq
    → pq_pop_blocking pq ≡ popped o q
    → Removes o pq q
pop-Removes pq q o v e = elim (Bool-cases (pq.size == 0)) [
  | inl none_left ↦ absurd (elim (Bool-cases pq.shutdown) [
    | inl shut ↦ cc ((pq_pop_correct pq v).1 (ground arith) shut)
    | inr open_queue ↦ cc ((pq_pop_correct pq v).2 (ground arith) open_queue)
  ])
  | inr some_left ↦
      let (o', q', e', r) = (pq_pop_correct pq v).0 (ground arith) in
      let (same_o, same_q) = eq_of_popped o' o q' q (sym e' ∙ e) in
      subst₂ (λ a b. Removes a pq b) same_o same_q r
]
  where
    eq_of_popped : (a b : Order) (x y : PriorityQueue) → popped a x ≡ popped b y → (a ≡ b) × (x ≡ y)
    eq_of_popped a b x y h = (cc, cc)

-- What a courier's step moves from one place to another it neither loses nor doubles.
record Balanced (s t : Shift) (p : Pc) (before : CourierStats) (c : Courier) : Type 0 where
  placed :
      (q : Order → Bool)
      → count q (contents t.pq) + in_flight q c.pc + count q t.delivered
        ≡ count q (contents s.pq) + in_flight q p + count q s.delivered
  completed :
      t.gs.completed_orders + to_count c.pc + length s.delivered
      ≡ s.gs.completed_orders + to_count p + length t.delivered
  timed :
      t.gs.total_delivery_time + to_time c.pc + time_of s.delivered
      ≡ s.gs.total_delivery_time + to_time p + time_of t.delivered
  own :
      c.stats.completed + to_own c.pc + length s.delivered
      ≡ before.completed + to_own p + length t.delivered
  own_timed :
      c.stats.total_time_ms + to_own_time c.pc + time_of s.delivered
      ≡ before.total_time_ms + to_own_time p + time_of t.delivered
  phase : t.phase ≡ s.phase
  cancelled : t.cancelled ≡ s.cancelled
  cancelled_orders : t.gs.cancelled_orders ≡ s.gs.cancelled_orders
  shutdown : t.pq.shutdown ≡ s.pq.shutdown

module _ (orders : List Order) where
  Balanced-Inv :
      {s t : Shift} (i : ℕ) (p : Pc) (own : CourierStats) (c : Courier)
      → get_elem? s.couriers i ≡ some (record { pc = p; stats = own })
      → t.couriers ≡ set s.couriers i c
      → Balanced s t p own c
      → IsValid t.pq
      → Inv orders s
      → Inv orders t
  Balanced-Inv {s} {t} i p own c h e b valid v =
      let m = subst (Moved s.couriers p own c) (sym e) (moved s.couriers i p own c h) in
      let pend = ap pending b.phase in
      record {
        valid = valid;
        placed = λ q. omega (
          arith,
          v.placed q,
          m.flight q,
          b.placed q,
          ap (count q) pend,
          ap (count q) b.cancelled,
        );
        completed = omega (arith, v.completed, m.counts, b.completed);
        timed = omega (arith, v.timed, m.times, b.timed);
        own = omega (arith, v.own, m.owns, m.completes, b.own);
        own_timed = omega (arith, v.own_timed, m.own_times, m.sums, b.own_timed);
        cancelled = b.cancelled_orders ∙ v.cancelled ∙ sym (ap length b.cancelled);
        closes = b.shutdown ∙ v.closes ∙ sym (ap closed b.phase);
      }

  pub CourierStep-Inv :
      {s t : Shift} (i : ℕ) (own : CourierStats) {p : Pc}
      → get_elem? s.couriers i ≡ some (record { pc = p; stats = own })
      → CourierStep s i own p t
      → Inv orders s
      → Inv orders t
  CourierStep-Inv {s} i own h (pop o q e) v =
      let r = pop-Removes s.pq q o v.valid e in
      Balanced-Inv i ready own (record { pc = delivering o; stats = own }) h refl
        (record {
          placed = λ p. omega (arith, r.same p);
          completed = refl;
          timed = refl;
          own = refl;
          own_timed = refl;
          phase = refl;
          cancelled = refl;
          cancelled_orders = refl;
          shutdown = r.shutdown;
        })
        r.valid v
  CourierStep-Inv i own h (leave e) v =
      Balanced-Inv i ready own (record { pc = over; stats = own }) h refl (ground arith) v.valid v
  CourierStep-Inv i own h (complete o) v =
      Balanced-Inv i (delivering o) own (record { pc = logged o; stats = own }) h refl
        (ground arith) v.valid v
  CourierStep-Inv i own h (count_order o) v =
      Balanced-Inv i (logged o) own (record { pc = counted o; stats = own }) h refl (ground arith)
        v.valid v
  CourierStep-Inv i own h (add_time o) v =
      Balanced-Inv i (counted o) own (record { pc = timed o; stats = own }) h refl (ground arith)
        v.valid v
  CourierStep-Inv i own h (add_own o) v =
      Balanced-Inv i (timed o) own
        (record {
          pc = ready;
          stats = record own {
            completed = own.completed + 1;
            total_time_ms = own.total_time_ms + duration_ms o;
          };
        })
        h refl (ground arith) v.valid v
