-- ===== src/Logs/Tests/Dispatcher.antt =====
-- The dispatcher at concrete arrivals.
use gtu_cse344_systems_progr.Common.{ℕ, ◌≡◌, ◌<◌, refl, List, [], ◌∷◌, false, take}
use gtu_cse344_systems_progr.Libc.{Text, codes, strcmp_eq}
use gtu_cse344_systems_progr.Logs.Entry.{Level, error, warn, info, debug, LogEntry}
use gtu_cse344_systems_progr.Logs.Dispatch.{
  Arrival, dispatch_start, eof_entry, dispatch_loop, run_dispatcher,
}
use gtu_cse344_systems_progr.Logs.Dispatch.Markers.{eofs, run_dispatcher-eofs}
use gtu_cse344_systems_progr.Logs.Dispatch.Finish.{before_finish, ends_level}

abbrev disk_entry : LogEntry
disk_entry = record {
  timestamp = codes "2024-05-01 10:00:00";
  level = error;
  source = codes "disk";
  message = codes "disk fail";
  is_eof = false;
}

abbrev arrives : LogEntry → ℕ → Arrival
arrives e n = record { entry = e; eof_count = n; b_times_out = false; d_times_out = false }

abbrev marker : Level → ℕ → Arrival
marker l n = arrives (record eof_entry { level = l }) n

-- Two readers; the first marker of a level is read when both are counted already.
abbrev some_arrivals : List Arrival
some_arrivals =
    arrives disk_entry 0
    ∷ marker error 2
    ∷ marker warn 1
    ∷ marker info 2
    ∷ arrives disk_entry 2
    ∷ marker debug 2
    ∷ marker warn 2
    ∷ arrives (record disk_entry { level = warn }) 2
    ∷ []

abbrev sources : List Text
sources = codes "net" ∷ codes "disk" ∷ []

-- The second entry comes behind the end marker of its level, and the last one stays in region A.
late_entry :
    (dispatch_loop sources 2 some_arrivals dispatch_start).to_b
    ≡ (0, disk_entry)
      ∷ (0, eof_entry)
      ∷ (2, eof_entry)
      ∷ (0, disk_entry)
      ∷ (3, eof_entry)
      ∷ (1, eof_entry)
      ∷ []
unfolding dispatch_loop strcmp_eq
late_entry = refl

all_finished : (dispatch_loop sources 2 some_arrivals dispatch_start).finished_levels ≡ 4
unfolding dispatch_loop strcmp_eq
all_finished = refl

run_dispatcher-eofs_example :
    ((lv : ℕ) → lv < 4 → eofs lv (dispatch_loop sources 2 some_arrivals dispatch_start) ≡ 1)
    × (run_dispatcher sources 2 some_arrivals
        ≡ dispatch_loop sources 2 some_arrivals dispatch_start)
run_dispatcher-eofs_example = run_dispatcher-eofs sources 2 some_arrivals all_finished

-- All but the last arrival are handled.
leaves_last : before_finish 2 [] some_arrivals ≡ take 7 some_arrivals
unfolding ends_level
leaves_last = refl
