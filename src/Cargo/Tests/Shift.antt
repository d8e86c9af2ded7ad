-- ===== src/Cargo/Tests/Shift.antt =====
-- A whole shift of one courier and one order.
use gtu_cse344_systems_progr.Common.{
  ◌+◌, ◌≤◌, ◌≡◌, refl, sym, [], ◌∷◌, true, false, some, arith, eq_of_some, ◌∙◌,
}
use mathlib.Core.Path.{subst}
use gtu_cse344_systems_progr.Libc.{codes}
use gtu_cse344_systems_progr.Cargo.Order.{Order, express}
use gtu_cse344_systems_progr.Cargo.Queue.{pq_pop_blocking, pq_shutdown}
use gtu_cse344_systems_progr.Cargo.Stats.{global_stats_init, courier_stats_init}
use gtu_cse344_systems_progr.Cargo.Shift.{
  Shift, waiting, ended, Pc, ready, Reach, start, step, courier, main, pop, complete, count_order,
  add_time, add_own, all_done, close, leave, join, open_shift,
}
use gtu_cse344_systems_progr.Cargo.Shift.Account.{Opened, open_shift-Opened, Account, shift-Account}
use gtu_cse344_systems_progr.Cargo.Shift.Progress.{steps, work, steps-le-work}
use gtu_cse344_systems_progr.Cargo.Shift.Condition.{
  Sleepers, cond_wait, Moves, by_courier, Run, begins, moves, falls_asleep,
}
use gtu_cse344_systems_progr.Cargo.Shift.Wake.{shift_goes_on}

abbrev parcel : Order
parcel = record { id = 5; name = codes "Ada"; priority = express; duration = 2 }

abbrev opened : Shift
opened = record {
  pq = record { heap = parcel ∷ []; size = 1; capacity = 1; shutdown = false };
  gs = global_stats_init;
  couriers = record { pc = ready; stats = courier_stats_init 1 } ∷ [];
  requested = false;
  phase = waiting;
  delivered = [];
  cancelled = [];
}

open_shift-opened : open_shift 1 (parcel ∷ []) ≡ some opened
unfolding open_shift
open_shift-opened = refl

opened-Opened : Opened 1 (parcel ∷ []) opened
opened-Opened =
    let (s, e, o) = open_shift-Opened 1 (parcel ∷ []) in
    subst (Opened 1 (parcel ∷ [])) (eq_of_some s opened (sym e ∙ open_shift-opened)) o

-- The state in which `main` has ended, and the run to it.
abbrev closed_shift : Shift
closed_shift = record {
  pq = record { heap = parcel ∷ []; size = 0; capacity = 1; shutdown = true };
  gs = record { completed_orders = 1; cancelled_orders = 0; total_delivery_time = 1000 };
  couriers =
      record {
        pc = Pc.over;
        stats = record { courier_id = 1; completed = 1; total_time_ms = 1000 };
      }
      ∷ [];
  requested = false;
  phase = ended;
  delivered = parcel ∷ [];
  cancelled = [];
}

whole_shift : Reach 1 opened closed_shift
unfolding pq_pop_blocking pq_shutdown
whole_shift =
    step
      (step
        (step
          (step
            (step
              (step
                (step
                  (step (step start (courier 0 _ refl (pop parcel _ refl)))
                    (courier 0 _ refl (complete parcel)))
                  (courier 0 _ refl (count_order parcel)))
                (courier 0 _ refl (add_time parcel)))
              (courier 0 _ refl (add_own parcel)))
            (main (all_done (omega arith) refl)))
          (main close))
        (courier 0 _ refl (leave refl)))
      (main (join (refl, tt)))

shift-Account_example : Account (parcel ∷ []) closed_shift
shift-Account_example = shift-Account (parcel ∷ []) (omega arith) opened-Opened whole_shift refl

steps-le-work_example : steps whole_shift + work closed_shift ≤ work opened
steps-le-work_example = steps-le-work (parcel ∷ []) whole_shift opened-Opened.inv

abbrev counted_shift : Shift
counted_shift = record opened {
  pq = record { heap = parcel ∷ []; size = 0; capacity = 1; shutdown = false };
  gs = record global_stats_init { completed_orders = 1; total_delivery_time = 1000 };
  couriers =
      record {
        pc = ready;
        stats = record (courier_stats_init 1) { completed = 1; total_time_ms = 1000 };
      }
      ∷ [];
  delivered = parcel ∷ [];
}

-- The courier has delivered the order and sleeps at the empty queue.
sleeping-Run : Run 1 opened counted_shift (cond_wait (λ j. false) 0)
unfolding pq_pop_blocking
sleeping-Run =
    falls_asleep 0 _
      (moves
        (moves
          (moves
            (moves (moves begins (by_courier 0 _ _ _ refl refl (pop parcel _ refl)))
              (by_courier 0 _ _ _ refl refl (complete parcel)))
            (by_courier 0 _ _ _ refl refl (count_order parcel)))
          (by_courier 0 _ _ _ refl refl (add_time parcel)))
        (by_courier 0 _ _ _ refl refl (add_own parcel)))
      refl refl

shift_goes_on_example :
    (u : Shift) × (next : Sleepers) × Moves 1 counted_shift (cond_wait (λ j. false) 0) u next
shift_goes_on_example = shift_goes_on (parcel ∷ []) (omega arith) opened-Opened sleeping-Run cc
