-- ===== src/Logs/Aggregate/Rank.antt =====
-- The order of the levels, and the high-priority score.
use gtu_cse344_systems_progr.Common.{
  ℕ, ◌+◌, ◌*◌, ◌≤◌, ◌<◌, ◌≡◌, ◌≢◌, refl, ap, ◌∙◌, List, [], ◌∷◌, Bool, not, filter, All, arith,
  count, ◌==◌, weigh,
}
use gtu_cse344_systems_progr.Libc.{Text}
use gtu_cse344_systems_progr.Logs.Entry.{Level, error, warn, info, debug, invalid, LogEntry}
use gtu_cse344_systems_progr.Logs.Score.{count_keyword, count_loop, get_level_weight}
use gtu_cse344_systems_progr.Logs.Score.Merge.{entry_score}
use gtu_cse344_systems_progr.Logs.Aggregate.{
  hp_weight, hp_count, hp_entry, calc_high_priority_score, score_at, sort_results,
}

-- Every level once, with scores that do not rise.
pub record IsRanking (scores order : List ℕ) : Type 0 where
  pub every : (lv : ℕ) → lv < 4 → count (λ k. k == lv) order ≡ 1
  pub falls_0 : score_at scores order 1 ≤ score_at scores order 0
  pub falls_1 : score_at scores order 2 ≤ score_at scores order 1
  pub falls_2 : score_at scores order 3 ≤ score_at scores order 2

-- The order that the files list the levels in has every level once, and their total scores do not
-- rise.
pub sort_results-IsRanking :
    (error_score warn_score info_score debug_score : ℕ)
    → IsRanking
        (error_score ∷ warn_score ∷ info_score ∷ debug_score ∷ [])
        (sort_results (error_score ∷ warn_score ∷ info_score ∷ debug_score ∷ []))
unfolding sort_results
sort_results-IsRanking a b c d = record {
  every = λ lv h. ground arith;
  falls_0 = ground arith;
  falls_1 = ground arith;
  falls_2 = ground arith;
}

hp_weight-get_level_weight : (l : Level) → hp_weight l ≡ get_level_weight l
unfolding get_level_weight
hp_weight-get_level_weight error = refl
hp_weight-get_level_weight warn = refl
hp_weight-get_level_weight info = refl
hp_weight-get_level_weight debug = refl
hp_weight-get_level_weight invalid = refl

hp_count-count_loop : (text word : Text) → hp_count text word ≡ count_loop text word
unfolding hp_count count_loop
hp_count-count_loop [] word = refl
hp_count-count_loop (c ∷ text) word = ground (arith, hp_count-count_loop text word)

hp_count-count_keyword :
    (text word : Text) → word ≢ [] → hp_count text word ≡ count_keyword text word
unfolding count_keyword
hp_count-count_keyword text [] h = absurd (h refl)
hp_count-count_keyword text (c ∷ word) h = hp_count-count_loop text (c ∷ word)

abbrev pub IsWord : Text → Type 0
IsWord word = word ≢ []

hp_entry-entry_score :
    (keywords : List Text) (weight : ℕ) (message : Text)
    → All IsWord keywords
    → hp_entry keywords weight message ≡ entry_score keywords weight message
unfolding hp_entry entry_score
hp_entry-entry_score [] weight message h = refl
hp_entry-entry_score (w ∷ keywords) weight message h =
    ap (λ n. n * weight + hp_entry keywords weight message) (hp_count-count_keyword message w h.0)
    ∙ ap (λ n. count_keyword message w * weight + n)
        (hp_entry-entry_score keywords weight message h.1)

abbrev pub is_log : LogEntry → Bool
is_log e = not e.is_eof

-- When no keyword is empty, the high-priority score is the sum of the scores that the analyzers
-- give the entries in region D, end markers left out.
pub calc_high_priority_score-entry_score :
    (keywords : List Text) (entries : List LogEntry)
    → All IsWord keywords
    → calc_high_priority_score keywords entries
      ≡ weigh
          (λ e. entry_score keywords (get_level_weight e.level) e.message)
          (filter is_log entries)
unfolding calc_high_priority_score
calc_high_priority_score-entry_score keywords [] h = refl
calc_high_priority_score-entry_score keywords (e ∷ entries) h =
    let rest = calc_high_priority_score-entry_score keywords entries h in
    let one =
      hp_entry-entry_score keywords (hp_weight e.level) e.message h
      ∙ ap (λ w. entry_score keywords w e.message) (hp_weight-get_level_weight e.level) in
    ground (arith, rest, one)
