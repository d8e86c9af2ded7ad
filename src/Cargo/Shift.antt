-- ===== src/Cargo/Shift.antt =====
-- HW5/main.c and HW5/src/courier.c: the shift. The couriers and `main` share the queue and the
-- counters; every step below is one critical section or one atomic access of one thread, and the
-- steps come in any order. A thread that waits on the condition variable, sleeps or polls takes no
-- step. SIGINT may arrive at any time.
pub mod Sums
pub mod Places
pub mod Invariant
pub mod Closing
pub mod Account
pub mod Progress
pub mod Live
pub mod Condition
pub mod Wake
use gtu_cse344_systems_progr.Common.{
  ℕ, zero, suc, ◌+◌, ◌*◌, ◌≤◌, ◌<◌, ◌≡◌, List, [], ◌∷◌, ◌++◌, Bool, true, false, Option, none, some,
  ltb, ◌==◌, if◌then◌else◌, length, get_elem?, set, All, ◌⊎◌, ◌>>=◌, map,
}
use gtu_cse344_systems_progr.Cargo.Order.{Order}
use gtu_cse344_systems_progr.Cargo.Queue.{
  PriorityQueue, pq_create, pq_push, pushed, refused, fault, PushResult, pq_pop_blocking, popped,
  shut_down, pq_drain, pq_shutdown,
}
use gtu_cse344_systems_progr.Cargo.Stats.{
  GlobalStats, CourierStats, global_stats_init, courier_stats_init,
}

abbrev pub sim_unit_ms : ℕ
sim_unit_ms = 500

abbrev pub duration_ms : Order → ℕ
duration_ms o = o.duration * sim_unit_ms

-- Where a courier stands in the loop of `courier_thread_main`.
pub data Pc : Type 0 where
  ready : Pc  -- before `pq_pop_blocking`, or waiting in it
  delivering : Order → Pc  -- asleep in `sleep_ms_uninterruptible`
  logged : Order → Pc  -- before the update of `completed_orders`
  counted : Order → Pc  -- before the update of `total_delivery_time`
  timed : Order → Pc  -- before the updates of its own statistics
  over : Pc  -- after the loop

pub record Courier : Type 0 where
  pub pc : Pc
  pub stats : CourierStats

-- Where `main` stands.
pub data Phase : Type 0 where
  waiting : Phase  -- in `wait_for_shift_end`
  cancelling : List Order → Phase  -- in the loop of `handle_shutdown_cancellations`
  closing : Phase  -- before `pq_shutdown`
  joining : Phase  -- in the loop of `pthread_join`
  ended : Phase

-- `delivered` and `cancelled` are the orders of the DELIVERY_COMPLETE and ORDER_CANCELLED lines of
-- the log.
pub record Shift : Type 0 where
  pub pq : PriorityQueue
  pub gs : GlobalStats
  pub couriers : List Courier
  pub requested : Bool
  pub phase : Phase
  pub delivered : List Order
  pub cancelled : List Order

-- One step of one courier that stands at `p`; what it leaves of the shift is the last argument.
pub data CourierStep (s : Shift) (i : ℕ) (stats : CourierStats) : Pc → Shift → Type 0 where
  pop :
      (o : Order) (q : PriorityQueue)
      → pq_pop_blocking s.pq ≡ popped o q
      → CourierStep s i stats ready (record s {
        pq = q;
        couriers = set s.couriers i (record { pc = delivering o; stats = stats });
      })
  leave :
      pq_pop_blocking s.pq ≡ shut_down
      → CourierStep s i stats ready
          (record s { couriers = set s.couriers i (record { pc = over; stats = stats }) })
  complete :
      (o : Order)
      → CourierStep s i stats (delivering o) (record s {
        couriers = set s.couriers i (record { pc = logged o; stats = stats });
        delivered = o ∷ s.delivered;
      })
  count_order :
      (o : Order)
      → CourierStep s i stats (logged o) (record s {
        couriers = set s.couriers i (record { pc = counted o; stats = stats });
        gs = record (s.gs) { completed_orders = s.gs.completed_orders + 1 };
      })
  add_time :
      (o : Order)
      → CourierStep s i stats (counted o) (record s {
        couriers = set s.couriers i (record { pc = timed o; stats = stats });
        gs = record (s.gs) { total_delivery_time = s.gs.total_delivery_time + duration_ms o };
      })
  add_own :
      (o : Order)
      → CourierStep s i stats (timed o) (record s {
        couriers = set s.couriers i (record {
          pc = ready;
          stats = record stats {
            completed = stats.completed + 1;
            total_time_ms = stats.total_time_ms + duration_ms o;
          };
        });
      })

abbrev pub IsOver : Courier → Type 0
IsOver c = c.pc ≡ over

-- One step of `main`, for a shift of `n` orders.
pub data MainStep (n : ℕ) (s : Shift) : Phase → Shift → Type 0 where
  all_done :
      n ≤ s.gs.completed_orders
      → s.requested ≡ false
      → MainStep n s waiting (record s { phase = closing })
  drain :
      (out : List Order) (q : PriorityQueue)
      → s.requested ≡ true
      → pq_drain s.pq ≡ some (out, q)
      → MainStep n s waiting (record s { pq = q; phase = cancelling out })
  -- `calloc` fails
  no_memory : s.requested ≡ true → MainStep n s waiting (record s { phase = closing })
  cancel :
      (o : Order) (rest : List Order)
      → MainStep n s (cancelling (o ∷ rest)) (record s {
        phase = cancelling rest;
        gs = record (s.gs) { cancelled_orders = s.gs.cancelled_orders + 1 };
        cancelled = o ∷ s.cancelled;
      })
  all_cancelled : MainStep n s (cancelling []) (record s { phase = closing })
  close : MainStep n s closing (record s { pq = pq_shutdown s.pq; phase = joining })
  join : All IsOver s.couriers → MainStep n s joining (record s { phase = ended })

pub data Step (n : ℕ) (s t : Shift) : Type 0 where
  courier :
      (i : ℕ) {p : Pc} (own : CourierStats)
      → get_elem? s.couriers i ≡ some (record { pc = p; stats = own })
      → CourierStep s i own p t
      → Step n s t
  main : MainStep n s s.phase t → Step n s t

-- `sigint_handler`
abbrev pub sigint : Shift → Shift
sigint s = record s { requested = true }

pub data Reach (n : ℕ) (s : Shift) : Shift → Type 0 where
  start : Reach n s s
  step : {t u : Shift} → Reach n s t → Step n t u → Reach n s u
  signal : {t : Shift} → Reach n s t → Reach n s (sigint t)

-- `enqueue_all_orders`; a refused push is reported and the loop goes on. `none` is a fault.
unfoldable pub enqueue_all_orders : PriorityQueue → List Order → Option PriorityQueue
unfolding pq_push
enqueue_all_orders pq [] = some pq
enqueue_all_orders pq (o ∷ orders) = elim (pq_push pq o) [
  | pushed q ↦ enqueue_all_orders q orders
  | refused q ↦ enqueue_all_orders q orders
  | fault ↦ none
]

-- The couriers `i + 1 ..`, as `spawn_couriers` sets them up.
unfoldable pub spawn_couriers : ℕ → ℕ → List Courier
spawn_couriers i zero = []
spawn_couriers i (suc k) =
    record { pc = ready; stats = courier_stats_init (i + 1) } ∷ spawn_couriers (i + 1) k

-- `pq_cap` of `main`
abbrev pub pq_cap : List Order → ℕ
pq_cap orders = if ltb 0 (length orders) then length orders else 1

-- The state in which the shift begins, for at least one courier and when every resource could be
-- had.
unfoldable pub open_shift : ℕ → List Order → Option Shift
unfolding enqueue_all_orders spawn_couriers pq_create
open_shift num_couriers orders = do
  empty ← pq_create true (pq_cap orders)
  pq ← enqueue_all_orders empty orders
  some (record {
    pq = pq;
    gs = global_stats_init;
    couriers = spawn_couriers 0 num_couriers;
    requested = false;
    phase = waiting;
    delivered = [];
    cancelled = [];
  })
