-- ===== src/Logs/Score.antt =====
-- HW4/src/processes/analyzer.c: the scores of one level, which its workers collect each for itself and
-- then merge into region C. Scores are doubles in the source; they are sums of products of two
-- `int`s, so they are natural numbers here.
pub mod Merge
pub mod Sources
use gtu_cse344_systems_progr.Common.{
  ℕ, zero, suc, ◌+◌, ◌-◌, ◌*◌, ◌≡◌, List, [], ◌∷◌, ◌++◌, Bool, true, false, Option, none, some, ltb,
  leb, ◌==◌, if◌then◌else◌, length, take, replicate, set, get_elem?, get_or,
}
use gtu_cse344_systems_progr.Libc.{Text, strncmp_eq, strcmp_eq, strncpy}
use gtu_cse344_systems_progr.Logs.Entry.{
  Level, error, warn, info, debug, invalid, LogEntry, max_source_len,
}

abbrev pub max_tracked_sources : ℕ
max_tracked_sources = 256

abbrev pub max_workers : ℕ
max_workers = 64

unfoldable pub get_level_weight : Level → ℕ
get_level_weight error = 4
get_level_weight warn = 3
get_level_weight info = 2
get_level_weight debug = 1
get_level_weight invalid = 0

-- The loop over the text: the positions at which `word` begins.
unfoldable pub count_loop : Text → Text → ℕ
unfolding strncmp_eq
count_loop [] word = 0
count_loop (c ∷ text) word =
    let rest = count_loop text word in if strncmp_eq (c ∷ text) word then suc rest else rest

unfoldable pub count_keyword : Text → Text → ℕ
unfolding count_loop
count_keyword text [] = 0
count_keyword text (c ∷ word) = count_loop text (c ∷ word)

pub record SourceEntry : Type 0 where
  pub source : Text
  pub hits : ℕ

-- `sources` holds the first `source_count` cells of the array of 256.
pub record TlsData : Type 0 where
  pub keyword_scores : List ℕ
  pub entry_count : ℕ
  pub total_score : ℕ
  pub sources : List SourceEntry
  pub thread_slot : ℕ

-- The search of `add_source_hit`, with `n` sources before these.
unfoldable pub hit_loop : ℕ → List SourceEntry → Text → ℕ → List SourceEntry
hit_loop n [] source hits =
    if leb max_tracked_sources n
    then []
    else record { source = strncpy source (max_source_len - 1); hits = hits } ∷ []
hit_loop n (s ∷ sources) source hits =
    let rest = hit_loop (n + 1) sources source hits in
    if strcmp_eq s.source source then record s { hits = s.hits + hits } ∷ sources else s ∷ rest

unfoldable pub add_source_hit : TlsData → Text → ℕ → TlsData
unfolding hit_loop
add_source_hit tls source hits = record tls { sources = hit_loop 0 tls.sources source hits }

-- The loop over the keywords: the new scores, what is added to the total, and the hits.
unfoldable pub score_loop : ℕ → Text → List Text → List ℕ → List ℕ × ℕ × ℕ
unfolding count_keyword
score_loop weight message [] scores = (scores, 0, 0)
score_loop weight message (w ∷ keywords) [] = ([], 0, 0)
score_loop weight message (w ∷ keywords) (s ∷ scores) =
    let hits = count_keyword message w in
    let (rest, total, total_hits) = score_loop weight message keywords scores in
    ((s + hits * weight) ∷ rest, hits * weight + total, hits + total_hits)

-- The body of the worker's loop for an entry that is no end marker.
unfoldable pub score_entry : List Text → Level → TlsData → LogEntry → TlsData
unfolding score_loop get_level_weight add_source_hit
score_entry keywords level tls entry =
    let weight = get_level_weight level in
    let (scores, total, total_hits) = score_loop weight entry.message keywords tls.keyword_scores in
    let counted = record tls {
      keyword_scores = scores;
      total_score = tls.total_score + total;
      entry_count = tls.entry_count + 1;
    } in
    if ltb 0 total_hits then add_source_hit counted entry.source (total_hits * weight) else counted

-- The `calloc`ed data of worker `worker_id`, for `keyword_count` keywords.
abbrev pub fresh_tls : ℕ → ℕ → TlsData
fresh_tls keyword_count worker_id = record {
  keyword_scores = replicate keyword_count 0;
  entry_count = 0;
  total_score = 0;
  sources = [];
  thread_slot = worker_id;
}

-- What a worker makes of the entries that it pops before its end marker.
unfoldable pub score_entries : List Text → Level → TlsData → List LogEntry → TlsData
unfolding score_entry
score_entries keywords level tls [] = tls
score_entries keywords level tls (e ∷ entries) =
    score_entries keywords level (score_entry keywords level tls e) entries

-- `t_level_result`; `top_source` and `top_source_hits` are one list of three.
pub record LevelResult : Type 0 where
  pub total_entries : ℕ
  pub total_weighted_score : ℕ
  pub per_keyword_score : List ℕ
  pub per_thread_score : List ℕ
  pub top : List SourceEntry

unfoldable pub add_scores : List ℕ → List ℕ → List ℕ
add_scores [] ys = []
add_scores (x ∷ xs) [] = x ∷ xs
add_scores (x ∷ xs) (y ∷ ys) = (x + y) ∷ add_scores xs ys

-- The first of the three sources with that name, to which the hits are added; `none` if there is none.
unfoldable pub add_known : List SourceEntry → SourceEntry → Option (List SourceEntry)
add_known [] s = none
add_known (t ∷ top) s =
    let rest = add_known top s in
    if strcmp_eq t.source s.source
    then some (record t { hits = t.hits + s.hits } ∷ top)
    else elim rest [ none ↦ none | some r ↦ some (t ∷ r) ]

abbrev pub hits_at : List SourceEntry → ℕ → ℕ
hits_at top i = elim (get_elem? top i) [ none ↦ 0 | some t ↦ t.hits ]

-- `for (int j = 1; j < 3; j++) if (hits[j] < hits[min_idx]) min_idx = j;`
unfoldable pub min_idx : List SourceEntry → ℕ
min_idx top =
    let m = if ltb (hits_at top 1) (hits_at top 0) then 1 else 0 in
    if ltb (hits_at top 2) (hits_at top m) then 2 else m

unfoldable pub merge_source : List SourceEntry → SourceEntry → List SourceEntry
unfolding add_known min_idx
merge_source top s = elim (add_known top s) [
  | some r ↦ r
  | none ↦
      if ltb (hits_at top (min_idx top)) s.hits
      then set top (min_idx top)
          (record { source = strncpy s.source (max_source_len - 1); hits = s.hits })
      else top
]

unfoldable pub merge_sources : List SourceEntry → List SourceEntry → List SourceEntry
unfolding merge_source
merge_sources top [] = top
merge_sources top (s ∷ sources) = merge_sources (merge_source top s) sources

-- The critical section of `tls_destructor`, for the level's own result.
unfoldable pub tls_destructor : LevelResult → TlsData → LevelResult
unfolding add_scores merge_sources
tls_destructor r tls = record {
  total_entries = r.total_entries + tls.entry_count;
  total_weighted_score = r.total_weighted_score + tls.total_score;
  per_keyword_score = add_scores r.per_keyword_score tls.keyword_scores;
  per_thread_score =
      if ltb tls.thread_slot max_workers
      then set r.per_thread_score tls.thread_slot tls.total_score
      else r.per_thread_score;
  top = merge_sources r.top tls.sources;
}

-- The result that `run_analyzer` has cleared, for `keyword_count` keywords.
abbrev pub cleared_result : ℕ → LevelResult
cleared_result keyword_count = record {
  total_entries = 0;
  total_weighted_score = 0;
  per_keyword_score = replicate keyword_count 0;
  per_thread_score = replicate max_workers 0;
  top = replicate 3 (record { source = []; hits = 0 });
}

-- The destructors of the workers, in the order in which they take the mutex.
unfoldable pub merge_workers : LevelResult → List TlsData → LevelResult
unfolding tls_destructor
merge_workers r [] = r
merge_workers r (tls ∷ workers) = merge_workers (tls_destructor r tls) workers
