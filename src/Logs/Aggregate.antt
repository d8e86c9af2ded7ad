-- ===== src/Logs/Aggregate.antt =====
-- HW4/src/processes/aggregator.c: the high-priority score and the order of the levels in the
-- output files. Scores are natural numbers as in Logs.Score.
pub mod Rank
use gtu_cse344_systems_progr.Common.{
  ℕ, zero, suc, ◌+◌, ◌*◌, List, [], ◌∷◌, Bool, true, false, ltb, if◌then◌else◌, get_or, set,
}
use gtu_cse344_systems_progr.Libc.{Text, strncmp_eq}
use gtu_cse344_systems_progr.Logs.Entry.{Level, error, warn, info, debug, invalid, LogEntry}
use gtu_cse344_systems_progr.Logs.Score.{LevelResult}

abbrev pub hp_weight : Level → ℕ
hp_weight error = 4
hp_weight warn = 3
hp_weight info = 2
hp_weight debug = 1
hp_weight invalid = 0

-- The inner loop over the text, which does not look whether `word` is empty.
unfoldable pub hp_count : Text → Text → ℕ
unfolding strncmp_eq
hp_count [] word = 0
hp_count (c ∷ text) word =
    let rest = hp_count text word in if strncmp_eq (c ∷ text) word then suc rest else rest

unfoldable pub hp_entry : List Text → ℕ → Text → ℕ
unfolding hp_count
hp_entry [] weight message = 0
hp_entry (w ∷ keywords) weight message =
    hp_count message w * weight + hp_entry keywords weight message

-- `calc_high_priority_score`, for the entries that it pops from region D.
unfoldable pub calc_high_priority_score : List Text → List LogEntry → ℕ
unfolding hp_entry
calc_high_priority_score keywords [] = 0
calc_high_priority_score keywords (e ∷ entries) =
    let rest = calc_high_priority_score keywords entries in
    if e.is_eof then rest else hp_entry keywords (hp_weight e.level) e.message + rest

abbrev pub score_at : List ℕ → List ℕ → ℕ → ℕ
score_at scores order i = get_or scores (get_or order i 0) 0

-- The body of the two loops of `sort_results`.
unfoldable pub exchange : List ℕ → List ℕ → ℕ → ℕ → List ℕ
exchange scores order i j =
    if ltb (score_at scores order i) (score_at scores order j)
    then set (set order i (get_or order j 0)) j (get_or order i 0)
    else order

abbrev pub round_0 : List ℕ → List ℕ → List ℕ
round_0 scores order = exchange scores (exchange scores (exchange scores order 0 1) 0 2) 0 3

abbrev pub round_1 : List ℕ → List ℕ → List ℕ
round_1 scores order = exchange scores (exchange scores order 1 2) 1 3

-- `sort_results`, for the `total_weighted_score` of the four levels.
unfoldable pub sort_results : List ℕ → List ℕ
unfolding exchange
sort_results scores = exchange scores (round_1 scores (round_0 scores (0 ∷ 1 ∷ 2 ∷ 3 ∷ []))) 2 3
