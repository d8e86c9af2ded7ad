-- ===== src/Logs/Tests.antt =====
-- The theorems at concrete inputs.
mod Options
mod Buffers
mod Dispatcher
use gtu_cse344_systems_progr.Common.{ℕ, ◌≡◌, refl, List, [], ◌∷◌, false, some, filter, arith, map}
use gtu_cse344_systems_progr.Libc.{Text, codes, strcmp_eq}
use gtu_cse344_systems_progr.Logs.Ring.{cleared}
use gtu_cse344_systems_progr.Logs.Ring.Refine.{
  Op, put, get, Answer, run_ring, run_queue, cleared-run_queue,
}
use gtu_cse344_systems_progr.Logs.Entry.{error, LogEntry, parse_log_line}
use gtu_cse344_systems_progr.Logs.Entry.Fields.{IsEntry, parse_log_line-IsEntry}
use gtu_cse344_systems_progr.Logs.Entry.RoundTrip.{log_line, parse_log_line-log_line}
use gtu_cse344_systems_progr.Logs.Score.{score_entries, fresh_tls, cleared_result, merge_workers}
use gtu_cse344_systems_progr.Logs.Score.Merge.{
  Merged, concat, worker, entries_score, merge_workers-Merged,
}
use gtu_cse344_systems_progr.Logs.Score.Sources.{hits_of, is_from, score_entries-hits_of}

abbrev some_ops : List (Op ℕ)
some_ops = put 1 ∷ put 2 ∷ put 3 ∷ get ∷ put 4 ∷ get ∷ get ∷ get ∷ []

abbrev some_answers : List (Answer ℕ)
some_answers =
    Answer.stored
    ∷ Answer.stored
    ∷ Answer.refused
    ∷ Answer.got 1
    ∷ Answer.stored
    ∷ Answer.got 2
    ∷ Answer.got 4
    ∷ Answer.nothing
    ∷ []

queue_answers : run_queue 2 [] some_ops ≡ some_answers
queue_answers = refl

cleared-run_queue_example : run_ring (cleared 0 2) some_ops ≡ run_queue 2 [] some_ops
cleared-run_queue_example = cleared-run_queue 0 2 some_ops (omega arith)

abbrev disk_entry : LogEntry
disk_entry = record {
  timestamp = codes "2024-05-01 10:00:00";
  level = error;
  source = codes "disk";
  message = codes "disk fail";
  is_eof = false;
}

abbrev net_entry : LogEntry
net_entry = record disk_entry { source = codes "net"; message = codes "fail fail" }

abbrev disk_line : Text
disk_line = codes "[2024-05-01 10:00:00] [ERROR] [disk] disk fail"

disk_line_parsed : parse_log_line disk_line ≡ some disk_entry
unfolding parse_log_line
disk_line_parsed = refl

parse_log_line-IsEntry_example : IsEntry disk_entry
parse_log_line-IsEntry_example = parse_log_line-IsEntry disk_line disk_entry disk_line_parsed

parse_log_line-log_line_example : parse_log_line (log_line disk_entry) ≡ some disk_entry
parse_log_line-log_line_example =
    parse_log_line-log_line disk_entry
      (parse_log_line-IsEntry disk_line disk_entry disk_line_parsed)

abbrev some_keywords : List Text
some_keywords = codes "fail" ∷ codes "disk" ∷ []

abbrev some_parts : List (ℕ × List LogEntry)
some_parts = (1, disk_entry ∷ []) ∷ (0, net_entry ∷ disk_entry ∷ []) ∷ []

some_score : entries_score some_keywords error (concat some_parts) ≡ 24
unfolding entries_score
some_score = refl

merge_workers-Merged_example :
    Merged some_keywords error
      (concat some_parts)
      (cleared_result 2)
      (merge_workers (cleared_result 2) (map (worker some_keywords error) some_parts))
merge_workers-Merged_example =
    merge_workers-Merged some_keywords error some_parts (cleared_result 2) refl

score_entries-hits_of_example :
    hits_of
      (codes "disk")
      (score_entries some_keywords error (fresh_tls 2 0) (net_entry ∷ disk_entry ∷ [])).sources
    ≡ entries_score some_keywords error
        (filter (is_from (codes "disk")) (net_entry ∷ disk_entry ∷ []))
unfolding score_entries strcmp_eq
score_entries-hits_of_example =
    score_entries-hits_of (codes "disk") some_keywords error 0 (net_entry ∷ disk_entry ∷ [])
      (omega arith, (omega arith, tt)) (omega arith)
