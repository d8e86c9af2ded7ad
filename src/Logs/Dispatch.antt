-- ===== src/Logs/Dispatch.antt =====
-- HW4/src/processes/dispatcher.c: what the dispatcher makes of the entries that it pops from region
-- A. An arrival is one entry with what the dispatcher sees while it handles it: the value of
-- `eof_count_per_level` for the entry's level, and whether its wait for room in region B or D ends
-- with a time-out, which drops the entry.
pub mod Markers
pub mod Finish
pub mod Routes
use gtu_cse344_systems_progr.Common.{
  ℕ, zero, suc, ◌+◌, List, [], ◌∷◌, ◌++◌, Bool, true, false, Option, none, some, leb, ◌==◌, ◌&&◌,
  ◌||◌, not, if◌then◌else◌, get_or, set, replicate,
}
use gtu_cse344_systems_progr.Libc.{Text, strcmp_eq}
use gtu_cse344_systems_progr.Logs.Entry.{Level, error, warn, info, debug, invalid, LogEntry}
use gtu_cse344_systems_progr.Logs.Regions.{zero_entry}

unfoldable pub is_priority_source : List Text → Text → Bool
unfolding strcmp_eq
is_priority_source [] source = false
is_priority_source (p ∷ sources) source = strcmp_eq p source || is_priority_source sources source

pub record Arrival : Type 0 where
  pub entry : LogEntry
  pub eof_count : ℕ
  pub b_times_out : Bool
  pub d_times_out : Bool

-- `to_b` is what was pushed into the regions B, each entry with its level, and `to_d` into region
-- D, both in the order of the pushes.
pub record Dispatch : Type 0 where
  pub eof_forwarded : List Bool
  pub finished_levels : ℕ
  pub to_b : List (ℕ × LogEntry)
  pub to_d : List LogEntry

abbrev pub dispatch_start : Dispatch
dispatch_start = record {
  eof_forwarded = replicate 4 false;
  finished_levels = 0;
  to_b = [];
  to_d = [];
}

-- `none` for a level outside 0 .. 3.
abbrev pub level_index : Level → Option ℕ
level_index error = some 0
level_index warn = some 1
level_index info = some 2
level_index debug = some 3
level_index invalid = none

abbrev pub eof_entry : LogEntry
eof_entry = record zero_entry { is_eof = true }

abbrev pub send_eof_to_region_b : ℕ → Dispatch → Dispatch
send_eof_to_region_b lv s = record s { to_b = s.to_b ++ (lv, eof_entry) ∷ [] }

abbrev pub push_to_region_d : Arrival → Dispatch → Dispatch
push_to_region_d a s = if a.d_times_out then s else record s { to_d = s.to_d ++ a.entry ∷ [] }

abbrev pub push_to_region_b : ℕ → Arrival → Dispatch → Dispatch
push_to_region_b lv a s =
    if a.b_times_out then s else record s { to_b = s.to_b ++ (lv, a.entry) ∷ [] }

-- An end marker for level `lv`.
unfoldable pub forward_eof : ℕ → ℕ → Arrival → Dispatch → Dispatch
forward_eof total_readers lv a s =
    if not (get_or s.eof_forwarded lv false) && leb total_readers a.eof_count
    then record (send_eof_to_region_b lv s) {
      eof_forwarded = set s.eof_forwarded lv true;
      finished_levels = s.finished_levels + 1;
    }
    else s

-- A log entry of level `lv`.
unfoldable pub route : List Text → ℕ → Arrival → Dispatch → Dispatch
unfolding is_priority_source
route sources lv a s =
    push_to_region_b lv a
      (if is_priority_source sources a.entry.source then push_to_region_d a s else s)

-- The body of the loop of `run_dispatcher`.
unfoldable pub handle_arrival : List Text → ℕ → Arrival → Dispatch → Dispatch
unfolding forward_eof route
handle_arrival sources total_readers a s = elim (level_index a.entry.level) [
  | none ↦ s
  | some lv ↦ if a.entry.is_eof then forward_eof total_readers lv a s else route sources lv a s
]

-- The loop, for the entries that arrive; at the end of the list it waits for more.
unfoldable pub dispatch_loop : List Text → ℕ → List Arrival → Dispatch → Dispatch
unfolding handle_arrival
dispatch_loop sources total_readers [] s = s
dispatch_loop sources total_readers (a ∷ arrivals) s =
    let rest =
      dispatch_loop sources total_readers arrivals (handle_arrival sources total_readers a s) in
    if s.finished_levels == 4 then s else rest

-- The end markers that the code behind `dispatcher_done` sends.
abbrev pub force_eof : ℕ → Dispatch → Dispatch
force_eof lv s = if get_or s.eof_forwarded lv false then s else send_eof_to_region_b lv s

unfoldable pub run_dispatcher : List Text → ℕ → List Arrival → Dispatch
unfolding dispatch_loop
run_dispatcher sources total_readers arrivals = force_eof 3 (
    force_eof 2
      (force_eof 1 (force_eof 0 (dispatch_loop sources total_readers arrivals dispatch_start))))
