-- ===== src/Cargo/Shift/Account.antt =====
-- What holds when the shift begins, and what its summary says when it ends.
use gtu_cse344_systems_progr.Common.{
  ℕ, zero, suc, ◌+◌, ◌≤◌, ◌<◌, ◌≡◌, ◌∙◌, refl, ap, List, [], ◌∷◌, Bool, true, false, some, arith,
  length, count, count-length, ◌>>=◌, replicate, length-replicate,
}
use gtu_cse344_systems_progr.Cargo.Order.{Order}
use gtu_cse344_systems_progr.Cargo.Queue.{PriorityQueue, pq_create, no_order}
use gtu_cse344_systems_progr.Cargo.Queue.Service.{IsValid, contents, pq_push_correct}
use gtu_cse344_systems_progr.Cargo.Stats.{global_stats_init}
use gtu_cse344_systems_progr.Cargo.Shift.{
  Shift, waiting, ended, Reach, enqueue_all_orders, spawn_couriers, open_shift, pq_cap,
}
use gtu_cse344_systems_progr.Cargo.Shift.Sums.{
  in_flight, to_count, to_time, to_own, to_own_time, by_pc-spawn, own-spawn, own_completed,
  own_time, time_of,
}
use gtu_cse344_systems_progr.Cargo.Shift.Places.{Inv, pending}
use gtu_cse344_systems_progr.Cargo.Shift.Invariant.{Reach-Inv, emptied-count}
use gtu_cse344_systems_progr.Cargo.Shift.Closing.{Closes, Reach-Closes, by_pc-zero, to_over}

-- The queue after `enqueue_all_orders`.
record Filled (pq : PriorityQueue) (orders : List Order) (q : PriorityQueue) : Type 0 where
  valid : IsValid q
  same : (p : Order → Bool) → count p (contents q) ≡ count p orders + count p (contents pq)
  shutdown : q.shutdown ≡ pq.shutdown

enqueue-Filled :
    (orders : List Order) (pq : PriorityQueue)
    → IsValid pq
    → pq.size + length orders ≤ pq.capacity
    → (q : PriorityQueue) × (enqueue_all_orders pq orders ≡ some q) × Filled pq orders q
unfolding enqueue_all_orders
enqueue-Filled [] pq v h =
    (pq, refl, record { valid = v; same = λ p. omega arith; shutdown = refl })
enqueue-Filled (o ∷ orders) pq v h =
    let (q, e, a) = (pq_push_correct pq o v).1 (omega arith) in
    let (r, f, b) = enqueue-Filled orders q a.valid (omega (arith, a.size, a.capacity)) in
    (
      r,
      rw (e, enqueue_all_orders) f,
      record {
        valid = b.valid;
        same = λ p. omega (arith, b.same p, a.same p);
        shutdown = b.shutdown ∙ a.shutdown;
      },
    )

create-IsValid :
    (n : ℕ)
    → 0 < n
    → (q : PriorityQueue) × (pq_create true n ≡ some q)
      × IsValid q
      × (q.size ≡ 0)
      × (q.capacity ≡ n)
      × (q.shutdown ≡ false)
unfolding pq_create
create-IsValid n h = (
  record { heap = replicate n no_order; size = 0; capacity = n; shutdown = false },
  ground arith,
  record {
    heap = λ c p q. absurd (omega arith);
    bounded = omega arith;
    cells = length-replicate n no_order;
  },
  refl,
  refl,
  refl,
)

-- How a shift begins: all orders are queued, the couriers are ready and nothing has been counted.
pub record Opened (k : ℕ) (orders : List Order) (s : Shift) : Type 0 where
  pub inv : Inv orders s
  pub closes : Closes k s
  pub phase : s.phase ≡ waiting
  pub requested : s.requested ≡ false

length-spawn : (i k : ℕ) → length (spawn_couriers i k) ≡ k
unfolding spawn_couriers
length-spawn i zero = refl
length-spawn i (suc k) = ap suc (length-spawn (i + 1) k)

-- The shift opens with every order in a valid queue, the couriers ready, and all counters at 0.
pub open_shift-Opened :
    (k : ℕ) (orders : List Order) → (s : Shift) × (open_shift k orders ≡ some s) × Opened k orders s
unfolding open_shift
open_shift-Opened k orders =
    let (e, made, v, size, cap, shut) = create-IsValid (pq_cap orders) (ground arith) in
    let (q, filled, f) = enqueue-Filled orders e v (ground arith) in
    let (own, own_time) = own-spawn 0 k in
    let fresh_over = by_pc-spawn to_over 0 k refl in
    let shift : Shift = record {
      pq = q;
      gs = global_stats_init;
      couriers = spawn_couriers 0 k;
      requested = false;
      phase = waiting;
      delivered = [];
      cancelled = [];
    } in
    (
      shift,
      rw (made, ◌>>=◌, filled) refl,
      record {
        inv = record {
          valid = f.valid;
          placed = λ p.
              omega (arith, f.same p, emptied-count e p size, by_pc-spawn (in_flight p) 0 k refl);
          completed = omega (arith, by_pc-spawn to_count 0 k refl);
          timed = omega (arith, by_pc-spawn to_time 0 k refl);
          own = omega (arith, own, by_pc-spawn to_own 0 k refl);
          own_timed = omega (arith, own_time, by_pc-spawn to_own_time 0 k refl);
          cancelled = refl;
          closes = f.shutdown ∙ shut;
        };
        closes = record {
          crew = length-spawn 0 k;
          empty = λ p. absurd (omega (arith, fresh_over));
          shut = λ p. absurd (omega (arith, fresh_over));
          All-IsOver = λ p. absurd (cc);
          unsignalled = λ p. refl;
        };
        phase = refl;
        requested = refl;
      },
    )

-- What the summary of a finished shift says of its orders.
pub record Account (orders : List Order) (s : Shift) : Type 0 where
  pub served : (p : Order → Bool) → count p orders ≡ count p s.delivered + count p s.cancelled
  pub completed : s.gs.completed_orders ≡ length s.delivered
  pub cancelled : s.gs.cancelled_orders ≡ length s.cancelled
  pub all : s.gs.completed_orders + s.gs.cancelled_orders ≡ length orders
  pub time : s.gs.total_delivery_time ≡ time_of s.delivered
  pub own : own_completed s.couriers ≡ s.gs.completed_orders
  pub own_timed : own_time s.couriers ≡ s.gs.total_delivery_time
  pub unsignalled : s.requested ≡ false → s.gs.completed_orders ≡ length orders

-- When `main` has joined all couriers, of which there is at least one: every order was delivered
-- or cancelled, once; the summary's counters are the numbers and the summed durations of those;
-- the couriers' own statistics add up to them; and without SIGINT every order was delivered.
pub shift-Account :
    {n k : ℕ} (orders : List Order) {s t : Shift}
    → 0 < k
    → Opened k orders s
    → Reach n s t
    → t.phase ≡ ended
    → Account orders t
shift-Account orders {t} few o r e =
    let v = Reach-Inv orders r o.inv in
    let c = Reach-Closes orders r o.inv o.closes in
    let left = c.All-IsOver e in
    let none_counts = by_pc-zero to_count t.couriers refl left in
    let none_times = by_pc-zero to_time t.couriers refl left in
    let none_own = by_pc-zero to_own t.couriers refl left in
    let none_own_time = by_pc-zero to_own_time t.couriers refl left in
    let empty = c.empty (omega (arith, c.crew)) in
    let served : (p : Order → Bool) → count p orders ≡ count p t.delivered + count p t.cancelled =
      λ p. omega (
        arith,
        v.placed p,
        emptied-count t.pq p empty,
        by_pc-zero (in_flight p) t.couriers refl left,
        ap (λ x. count p (pending x)) e,
      ) in
    let all : t.gs.completed_orders + t.gs.cancelled_orders ≡ length orders = omega (
      arith,
      served (λ _. true),
      count-length orders,
      count-length t.delivered,
      count-length t.cancelled,
      v.completed,
      v.cancelled,
      none_counts,
    ) in
    record {
      served = served;
      completed = omega (arith, v.completed);
      cancelled = v.cancelled;
      all = all;
      time = omega (arith, v.timed);
      own = omega (arith, v.own, v.completed);
      own_timed = omega (arith, v.own_timed, v.timed);
      unsignalled = λ q. omega (arith, c.unsignalled q, v.cancelled, all);
    }
