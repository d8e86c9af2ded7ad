-- ===== src/Logs/Tests/Options.antt =====
-- The options, the ranges of the readers and the ranking of the levels at concrete inputs.
use gtu_cse344_systems_progr.Common.{
  ℕ, ◌≡◌, refl, List, [], ◌∷◌, ◌++◌, Bool, true, false, Option, some, arith,
}
use gtu_cse344_systems_progr.Libc.{Text, codes}
use gtu_cse344_systems_progr.Logs.Entry.{error, warn, LogEntry}
use gtu_cse344_systems_progr.Logs.Aggregate.{calc_high_priority_score, sort_results}
use gtu_cse344_systems_progr.Logs.Aggregate.Rank.{IsRanking, sort_results-IsRanking}
use gtu_cse344_systems_progr.Logs.Readers.{InRange, ranges_lem}
use gtu_cse344_systems_progr.Logs.Args.{
  ArgOption, opt_c, opt_f, opt_k, opt_t, opt_w, opt_a, opt_b, opt_d, opt_o, opt_upper_o, Parsed,
  start_parsing,
}
use gtu_cse344_systems_progr.Logs.Args.Bounds.{IsParsed, start_parsing-IsParsed}

sorted : sort_results (5 ∷ 9 ∷ 0 ∷ 7 ∷ []) ≡ 1 ∷ 3 ∷ 0 ∷ 2 ∷ []
unfolding sort_results
sorted = refl

sort_results-IsRanking_example : IsRanking (5 ∷ 9 ∷ 0 ∷ 7 ∷ []) (sort_results (5 ∷ 9 ∷ 0 ∷ 7 ∷ []))
sort_results-IsRanking_example = sort_results-IsRanking 5 9 0 7

abbrev disk_entry : LogEntry
disk_entry = record {
  timestamp = codes "2024-05-01 10:00:00";
  level = error;
  source = codes "disk";
  message = codes "disk fail";
  is_eof = false;
}

abbrev some_entries : List LogEntry
some_entries =
    disk_entry ∷ record disk_entry { is_eof = true } ∷ record disk_entry { level = warn } ∷ []

abbrev some_keywords : List Text
some_keywords = codes "fail" ∷ codes "disk" ∷ []

scored : calc_high_priority_score some_keywords some_entries ≡ 14
unfolding calc_high_priority_score
scored = refl

abbrev some_options : List ArgOption
some_options =
    opt_c (codes "conf")
    ∷ opt_f (codes "filter")
    ∷ opt_k (codes "fail,disk")
    ∷ opt_t (codes "2")
    ∷ opt_w (codes "3")
    ∷ opt_a (codes "8")
    ∷ opt_b (codes "4")
    ∷ opt_d (codes "2")
    ∷ opt_o (codes "out.txt")
    ∷ opt_upper_o (codes "out.bin")
    ∷ []

abbrev readable : Text → Bool
readable path = true

abbrev some_files : Text → Option (List ℕ)
some_files path = some (codes "a.log" ++ 10 ∷ 10 ∷ codes "b.log")

abbrev some_parsed : Parsed
some_parsed = record {
  checked = record {
    config_file = codes "conf";
    filter_file = codes "filter";
    output_txt = codes "out.txt";
    output_bin = codes "out.bin";
    keywords_raw = codes "fail,disk";
    reader_threads = 2;
    worker_threads = 3;
    cap_a = 8;
    cap_b = 4;
    cap_d = 2;
    timeout = 10;
  };
  keywords = codes "fail" ∷ codes "disk" ∷ [];
  log_files = codes "a.log" ∷ codes "b.log" ∷ [];
  priority_sources = codes "a.log" ∷ codes "b.log" ∷ [];
}

parsed : start_parsing readable some_files some_options ≡ some some_parsed
unfolding start_parsing
parsed = refl

start_parsing-IsParsed_example : IsParsed some_parsed
start_parsing-IsParsed_example =
    start_parsing-IsParsed readable some_files some_options some_parsed parsed

ranges_lem_example : (i : ℕ) × InRange 10 3 i 7 × ((j : ℕ) → InRange 10 3 j 7 → j ≡ i)
ranges_lem_example = ranges_lem 10 3 7 (omega arith) (omega arith)
