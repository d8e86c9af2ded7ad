-- ===== src/Logs/Score/Merge.antt =====
-- The merged result of a level depends on its entries only, not on which worker took which.
use gtu_cse344_systems_progr.Common.{
  ℕ, zero, suc, ◌+◌, ◌*◌, ◌≡◌, refl, ap, ◌∙◌, List, [], ◌∷◌, ◌++◌, ltb, length, map, replicate,
  arith, length-append, length-replicate, if-both,
}
use gtu_cse344_systems_progr.Libc.{Text}
use gtu_cse344_systems_progr.Logs.Entry.{Level, LogEntry}
use gtu_cse344_systems_progr.Logs.Score.{
  count_keyword, TlsData, score_loop, score_entry, score_entries, fresh_tls, get_level_weight,
  LevelResult, add_scores, tls_destructor, merge_workers, add_source_hit,
}

abbrev pub sum : List ℕ → ℕ
sum [] = 0
sum (x ∷ xs) = x + sum xs

-- The score of one entry, and of all entries.
unfoldable pub entry_score : List Text → ℕ → Text → ℕ
unfolding count_keyword
entry_score [] weight message = 0
entry_score (w ∷ keywords) weight message =
    count_keyword message w * weight + entry_score keywords weight message

unfoldable pub entries_score : List Text → Level → List LogEntry → ℕ
unfolding entry_score get_level_weight
entries_score keywords level [] = 0
entries_score keywords level (e ∷ entries) =
    entry_score keywords (get_level_weight level) e.message + entries_score keywords level entries

-- The entries of all parts, each of which a worker with that slot takes.
abbrev pub concat : List (ℕ × List LogEntry) → List LogEntry
concat [] = []
concat ((i, es) ∷ parts) = es ++ concat parts

pub record Scored (keywords : List Text) (weight : ℕ) (message : Text) (scores : List ℕ)
    (r : List ℕ × ℕ × ℕ) : Type 0 where
  pub long : length r.0 ≡ length scores
  pub scores_sum : sum r.0 ≡ sum scores + r.1
  pub total : r.1 ≡ entry_score keywords weight message
  pub weighted : r.2 * weight ≡ r.1

pub score_loop-Scored :
    (weight : ℕ) (message : Text) (keywords : List Text) (scores : List ℕ)
    → length scores ≡ length keywords
    → Scored keywords weight message scores (score_loop weight message keywords scores)
unfolding score_loop entry_score
score_loop-Scored weight message [] scores e = record {
  long = refl;
  scores_sum = omega arith;
  total = refl;
  weighted = omega arith;
}
score_loop-Scored weight message (w ∷ keywords) [] e = absurd (omega arith)
score_loop-Scored weight message (w ∷ keywords) (s ∷ scores) e =
    let r = score_loop-Scored weight message keywords scores (omega arith) in
    record {
      long = ap suc r.long;
      scores_sum = omega (arith, r.scores_sum);
      total = omega (arith, r.total);
      weighted = grind (arith, r.weighted);
    }

pub record Collected (keywords : List Text) (score n : ℕ) (tls after : TlsData) : Type 0 where
  pub long : length after.keyword_scores ≡ length tls.keyword_scores
  pub scores_sum : sum after.keyword_scores ≡ sum tls.keyword_scores + score
  pub total : after.total_score ≡ tls.total_score + score
  pub entries : after.entry_count ≡ tls.entry_count + n
  pub slot : after.thread_slot ≡ tls.thread_slot

pub score_entry-Collected :
    (keywords : List Text) (level : Level) (tls : TlsData) (e : LogEntry)
    → length tls.keyword_scores ≡ length keywords
    → Collected keywords
        (entry_score keywords (get_level_weight level) e.message)
        1
        tls
        (score_entry keywords level tls e)
unfolding score_entry add_source_hit
score_entry-Collected keywords level tls e h =
    let weight = get_level_weight level in
    let r = score_loop-Scored weight e.message keywords tls.keyword_scores h in
    if-both (Collected keywords (entry_score keywords weight e.message) 1 tls)
      (ltb 0 (score_loop weight e.message keywords tls.keyword_scores).2)
      (record {
        long = r.long;
        scores_sum = r.scores_sum ∙ ap (λ n. sum tls.keyword_scores + n) r.total;
        total = ap (λ n. tls.total_score + n) r.total;
        entries = refl;
        slot = refl;
      })
      (record {
        long = r.long;
        scores_sum = r.scores_sum ∙ ap (λ n. sum tls.keyword_scores + n) r.total;
        total = ap (λ n. tls.total_score + n) r.total;
        entries = refl;
        slot = refl;
      })

score_entries-Collected :
    (keywords : List Text) (level : Level) (tls : TlsData) (es : List LogEntry)
    → length tls.keyword_scores ≡ length keywords
    → Collected keywords
        (entries_score keywords level es)
        (length es)
        tls
        (score_entries keywords level tls es)
unfolding score_entries entries_score
score_entries-Collected keywords level tls [] h = record {
  long = refl;
  scores_sum = omega arith;
  total = omega arith;
  entries = omega arith;
  slot = refl;
}
score_entries-Collected keywords level tls (e ∷ es) h =
    let a = score_entry-Collected keywords level tls e h in
    let b =
      score_entries-Collected keywords level (score_entry keywords level tls e) es (a.long ∙ h) in
    record {
      long = b.long ∙ a.long;
      scores_sum = omega (arith, b.scores_sum, a.scores_sum);
      total = omega (arith, b.total, a.total);
      entries = omega (arith, b.entries, a.entries);
      slot = b.slot ∙ a.slot;
    }

sum-replicate : (n : ℕ) → sum (replicate n 0) ≡ 0
sum-replicate zero = refl
sum-replicate (suc n) = omega (arith, sum-replicate n)

sum-add_scores :
    (xs ys : List ℕ)
    → length ys ≡ length xs
    → (sum (add_scores xs ys) ≡ sum xs + sum ys) × (length (add_scores xs ys) ≡ length xs)
unfolding add_scores
sum-add_scores [] [] e = (refl, refl)
sum-add_scores [] (y ∷ ys) e = absurd (omega arith)
sum-add_scores (x ∷ xs) [] e = (omega arith, refl)
sum-add_scores (x ∷ xs) (y ∷ ys) e =
    let (s, l) = sum-add_scores xs ys (omega arith) in (omega arith, ap suc l)

abbrev pub worker : List Text → Level → ℕ × List LogEntry → TlsData
worker keywords level (i, es) = score_entries keywords level (fresh_tls (length keywords) i) es

-- `r` has the entries `es` more than `q`.
pub record Merged (keywords : List Text) (level : Level) (es : List LogEntry) (q r : LevelResult)
    : Type 0 where
  pub entries : r.total_entries ≡ q.total_entries + length es
  pub score : r.total_weighted_score ≡ q.total_weighted_score + entries_score keywords level es
  pub by_keyword :
      sum r.per_keyword_score ≡ sum q.per_keyword_score + entries_score keywords level es
  pub long : length r.per_keyword_score ≡ length q.per_keyword_score

entries_score-append :
    (keywords : List Text) (level : Level) (xs ys : List LogEntry)
    → entries_score keywords level (xs ++ ys)
      ≡ entries_score keywords level xs + entries_score keywords level ys
unfolding entries_score
entries_score-append keywords level [] ys = omega arith
entries_score-append keywords level (x ∷ xs) ys =
    omega (arith, entries_score-append keywords level xs ys)

-- However the entries of a level are spread over the workers, and in whatever order the workers
-- merge, the level's result counts every entry once; its score is the sum of the scores of the
-- entries, and so is the sum of the scores of the keywords.
pub merge_workers-Merged :
    (keywords : List Text) (level : Level) (parts : List (ℕ × List LogEntry)) (q : LevelResult)
    → length q.per_keyword_score ≡ length keywords
    → Merged keywords level (concat parts) q (merge_workers q (map (worker keywords level) parts))
unfolding merge_workers tls_destructor entries_score
merge_workers-Merged keywords level [] q h = record {
  entries = omega arith;
  score = omega arith;
  by_keyword = omega arith;
  long = refl;
}
merge_workers-Merged keywords level ((i, es) ∷ parts) q h =
    let tls = score_entries keywords level (fresh_tls (length keywords) i) es in
    let a =
      score_entries-Collected keywords level (fresh_tls (length keywords) i) es
        (length-replicate (length keywords) 0) in
    let scores_long = a.long ∙ length-replicate (length keywords) 0 in
    let (s, l) = sum-add_scores q.per_keyword_score tls.keyword_scores (omega arith) in
    let b = merge_workers-Merged keywords level parts (tls_destructor q tls) (l ∙ h) in
    let both = entries_score-append keywords level es (concat parts) in
    record {
      entries = omega (arith, b.entries, a.entries, length-append es (concat parts));
      score = omega (arith, b.score, a.total);
      by_keyword = omega (arith, b.by_keyword, a.scores_sum, sum-replicate (length keywords));
      long = b.long ∙ l;
    }
