-- ===== src/Logs/Score/Sources.antt =====
-- The hits that a worker keeps by source.
use gtu_cse344_systems_progr.Common.{
  ℕ, ◌+◌, ◌*◌, ◌≤◌, ◌<◌, ◌≡◌, ap, sym, ◌∙◌, List, [], ◌∷◌, Bool, false, ltb, leb, length, filter,
  All, take_all, arith, if◌then◌else◌, Bool-cases, inl, inr, length-replicate,
}
use gtu_cse344_systems_progr.Libc.{Text, strcmp_eq, eq_of_strcmp_eq}
use gtu_cse344_systems_progr.Logs.Entry.{Level, LogEntry}
use gtu_cse344_systems_progr.Logs.Score.{
  max_tracked_sources, SourceEntry, TlsData, hit_loop, add_source_hit, score_loop, score_entry,
  score_entries, fresh_tls, get_level_weight,
}
use gtu_cse344_systems_progr.Logs.Score.Merge.{
  entry_score, entries_score, score_loop-Scored, score_entry-Collected,
}

-- The hits under the name `t`.
abbrev pub hits_of : Text → List SourceEntry → ℕ
hits_of t [] = 0
hits_of t (s ∷ sources) = (if strcmp_eq s.source t then s.hits else 0) + hits_of t sources

abbrev pub is_from : Text → LogEntry → Bool
is_from t e = strcmp_eq e.source t

abbrev pub Fits : LogEntry → Type 0
Fits e = length e.source ≤ 63

hits_of-hit_loop :
    (t : Text) (n : ℕ) (sources : List SourceEntry) (source : Text) (hits : ℕ)
    → length source ≤ 63
    → n + length sources < max_tracked_sources
    → hits_of t (hit_loop n sources source hits)
      ≡ hits_of t sources + (if strcmp_eq source t then hits else 0)
unfolding hit_loop
hits_of-hit_loop t n [] source hits short room =
    let kept = take_all 63 source short in
    let free : leb 256 n ≡ false = ground arith in rw (free, kept) (omega arith)
hits_of-hit_loop t n (s ∷ sources) source hits short room =
    let later = hits_of-hit_loop t (n + 1) sources source hits short (omega arith) in
    elim (Bool-cases (strcmp_eq s.source source)) [
      | inl here ↦ let same = eq_of_strcmp_eq s.source source here in ground arith
      | inr there ↦ ground (arith, later)
    ]

length-hit_loop :
    (n : ℕ) (sources : List SourceEntry) (source : Text) (hits : ℕ)
    → length sources ≤ length (hit_loop n sources source hits)
unfolding hit_loop
length-hit_loop n [] source hits = omega arith
length-hit_loop n (s ∷ sources) source hits =
    ground (arith, length-hit_loop (n + 1) sources source hits)

-- One entry, `score` being its score.
record Hit (t : Text) (e : LogEntry) (score : ℕ) (tls after : TlsData) : Type 0 where
  grows : length tls.sources ≤ length after.sources
  counted :
      length tls.sources < max_tracked_sources
      → hits_of t after.sources ≡ hits_of t tls.sources + (if is_from t e then score else 0)

score_entry-Hit :
    (t : Text) (keywords : List Text) (level : Level) (tls : TlsData) (e : LogEntry)
    → length tls.keyword_scores ≡ length keywords
    → Fits e
    → Hit t e
        (entry_score keywords (get_level_weight level) e.message)
        tls
        (score_entry keywords level tls e)
unfolding score_entry add_source_hit
score_entry-Hit t keywords level tls e h short =
    let weight = get_level_weight level in
    let r = score_loop-Scored weight e.message keywords tls.keyword_scores h in
    let total_hits = (score_loop weight e.message keywords tls.keyword_scores).2 in
    let worth : total_hits * weight ≡ entry_score keywords weight e.message =
      r.weighted ∙ r.total in
    elim (Bool-cases (ltb 0 total_hits)) [
      | inl hit ↦ rw hit (record {
        grows = length-hit_loop 0 tls.sources e.source (total_hits * weight);
        counted = λ room.
            hits_of-hit_loop t 0 tls.sources e.source (total_hits * weight) short (omega arith)
            ∙ ap (λ k. hits_of t tls.sources + (if is_from t e then k else 0)) worth;
      })
      | inr missed ↦
          let nothing : total_hits ≡ 0 = ground arith in
          let worthless : entry_score keywords weight e.message ≡ 0 =
            sym worth ∙ ap (λ n. n * weight) nothing ∙ omega arith in
          rw missed (record { grows = omega arith; counted = λ room. ground (arith, worthless) })
    ]

record Hits (t : Text) (keywords : List Text) (level : Level) (es : List LogEntry)
    (tls after : TlsData) : Type 0 where
  grows : length tls.sources ≤ length after.sources
  counted :
      length after.sources < max_tracked_sources
      → hits_of t after.sources
        ≡ hits_of t tls.sources + entries_score keywords level (filter (is_from t) es)

score_entries-Hits :
    (t : Text) (keywords : List Text) (level : Level) (tls : TlsData) (es : List LogEntry)
    → length tls.keyword_scores ≡ length keywords
    → All Fits es
    → Hits t keywords level es tls (score_entries keywords level tls es)
unfolding score_entries entries_score
score_entries-Hits t keywords level tls [] h fit = record {
  grows = omega arith;
  counted = λ room. omega arith;
}
score_entries-Hits t keywords level tls (e ∷ es) h fit =
    let next = score_entry keywords level tls e in
    let a = score_entry-Hit t keywords level tls e h fit.0 in
    let long = (score_entry-Collected keywords level tls e h).long ∙ h in
    let b = score_entries-Hits t keywords level next es long fit.1 in
    let one = entry_score keywords (get_level_weight level) e.message in
    record {
      grows = omega (arith, a.grows, b.grows);
      counted = λ room.
          let first = a.counted (omega (arith, a.grows, b.grows)) in
          let rest = b.counted room in ground (arith, first, rest);
    }

-- While a worker meets fewer than 256 sources, and their names fit, the hits that it keeps under a
-- name are the scores of the entries from that source.
pub score_entries-hits_of :
    (t : Text) (keywords : List Text) (level : Level) (slot : ℕ) (es : List LogEntry)
    → All Fits es
    → length (score_entries keywords level (fresh_tls (length keywords) slot) es).sources
      < max_tracked_sources
    → hits_of t (score_entries keywords level (fresh_tls (length keywords) slot) es).sources
      ≡ entries_score keywords level (filter (is_from t) es)
score_entries-hits_of t keywords level slot es fit room =
    (score_entries-Hits t keywords level (fresh_tls (length keywords) slot) es
        (length-replicate (length keywords) 0) fit).counted
      room
    ∙ omega arith
