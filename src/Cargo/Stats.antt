-- ===== src/Cargo/Stats.antt =====
-- HW5/inc/stats.h and HW5/src/stats.c: the counters of a shift, and the summary file.
-- Counters are numbers: they only grow from 0. The file is the list of the values that
-- `stats_write_file` prints, a line to an item.
use gtu_cse344_systems_progr.Common.{
  ℕ, ◌/◌, List, ◌∷◌, Bool, true, false, Option, none, some, ltb, if◌then◌else◌, map,
}

pub record GlobalStats : Type 0 where
  pub completed_orders : ℕ
  pub cancelled_orders : ℕ
  pub total_delivery_time : ℕ

pub record CourierStats : Type 0 where
  pub courier_id : ℕ
  pub completed : ℕ
  pub total_time_ms : ℕ

abbrev pub global_stats_init : GlobalStats
global_stats_init = record { completed_orders = 0; cancelled_orders = 0; total_delivery_time = 0 }

abbrev pub courier_stats_init : ℕ → CourierStats
courier_stats_init courier_id = record { courier_id = courier_id; completed = 0; total_time_ms = 0 }

pub data Line : Type 0 where
  shift_summary courier_stats blank : Line
  total_orders completed cancelled total_time avg_per_order : ℕ → Line
  courier : ℕ → ℕ → ℕ → Line

abbrev pub avg_ms : ℕ → ℕ → ℕ
avg_ms total_ms done = if ltb 0 done then total_ms / done else 0

-- `none` is the return value -1, when `fopen` fails.
unfoldable pub stats_write_file : Bool → ℕ → GlobalStats → List CourierStats → Option (List Line)
stats_write_file false n gs couriers = none
stats_write_file true n gs couriers =
    let body : List Line = map (λ c. courier c.courier_id c.completed c.total_time_ms) couriers in
    some (
      shift_summary
      ∷ total_orders n
      ∷ completed gs.completed_orders
      ∷ cancelled gs.cancelled_orders
      ∷ total_time gs.total_delivery_time
      ∷ avg_per_order (avg_ms gs.total_delivery_time gs.completed_orders)
      ∷ blank
      ∷ courier_stats
      ∷ body)
