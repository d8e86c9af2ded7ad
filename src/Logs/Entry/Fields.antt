-- ===== src/Logs/Entry/Fields.antt =====
-- The fields of an entry that comes from a line.
use mathlib.Core.Path.{subst}
use gtu_cse344_systems_progr.Common.{
  ℕ, ◌≤◌, ◌≡◌, ◌≢◌, refl, [], ◌∷◌, Bool, true, false, some, leb, ◌==◌, ◌||◌, not, guard, length,
  all, take, >>=-eq-some, eq_of_some, arith, length-take, ap, Bool-cases, inl, inr, guard-true,
  take_all, Option-cases, ◌∙◌, sym,
}
use gtu_cse344_systems_progr.Libc.{Text, strncpy}
use gtu_cse344_systems_progr.Logs.Entry.{
  Level, invalid, LogEntry, parse_level_str, skip_spaces, until_close, bracketed, handle_timestamp,
  handle_level, handle_source, handle_message, parse_log_line, max_source_len, tmp_buf_size,
}

abbrev pub not_close : ℕ → Bool
not_close c = not (c == b']')

abbrev pub has_space : Text → Bool
has_space [] = false
has_space (c ∷ s) = c == b' '

pub record IsEntry (e : LogEntry) : Type 0 where
  pub time_length : length e.timestamp ≡ 19
  pub time_chars : all not_close e.timestamp ≡ true
  pub level_valid : e.level ≢ invalid
  pub source_long : 1 ≤ length e.source
  pub source_short : length e.source ≤ 63
  pub source_chars : all not_close e.source ≡ true
  pub message_long : 1 ≤ length e.message
  pub message_short : length e.message ≤ 511
  pub message_start : has_space e.message ≡ false
  pub no_eof : e.is_eof ≡ false

until_close-not_close : (s t r : Text) → until_close s ≡ some (t, r) → all not_close t ≡ true
unfolding until_close
until_close-not_close [] t r e = cc
until_close-not_close (c ∷ s) t r e = elim (Option-cases (until_close s)) [
  | inl none_there ↦ ground arith
  | inr ((u, w), h) ↦ ground (arith, until_close-not_close s u w h)
]

bracketed-not_close : (s t r : Text) → bracketed s ≡ some (t, r) → all not_close t ≡ true
unfolding bracketed
bracketed-not_close [] t r e = cc
bracketed-not_close (c ∷ s) t r e = elim (Bool-cases (c == b'[')) [
  | inl y ↦ until_close-not_close s t r (ground arith)
  | inr n ↦ ground arith
]

skip_spaces-has_space : (s : Text) → has_space (skip_spaces s) ≡ false
unfolding skip_spaces
skip_spaces-has_space [] = refl
skip_spaces-has_space (c ∷ s) = ground (arith, skip_spaces-has_space s)

level_ne : (s : Text) (l : Level) → parse_level_str s ≡ some l → l ≢ invalid
unfolding parse_level_str
level_ne s l e = ground arith

handle_timestamp_lem :
    (p t r : Text) → handle_timestamp p ≡ some (t, r) → (length t ≡ 19) × (all not_close t ≡ true)
unfolding handle_timestamp
handle_timestamp_lem p t r e =
    let ((u, w), h, e1) = >>=-eq-some (bracketed p) _ e in
    let (g, eg, e2) = >>=-eq-some (guard (length u == 19)) _ e1 in
    let long : length u ≡ 19 = ground (arith, guard-true _ g eg) in
    let same : t ≡ take 19 u = cc in
    let kept = same ∙ take_all 19 u (omega arith) in
    (ap length kept ∙ long, ap (all not_close) kept ∙ bracketed-not_close p u w h)

handle_level_lem : (p : Text) (l : Level) (r : Text) → handle_level p ≡ some (l, r) → l ≢ invalid
unfolding handle_level
handle_level_lem p l r e =
    let ((u, w), h, e1) = >>=-eq-some (bracketed p) _ e in
    let (g, eg, e2) =
      >>=-eq-some (guard (not (length u == 0 || leb tmp_buf_size (length u)))) _ e1 in
    let (l', el, e3) = >>=-eq-some (parse_level_str (strncpy u (length u))) _ e2 in
    let same : l ≡ l' = cc in level_ne (strncpy u (length u)) l (el ∙ ap some (sym same))

handle_source_lem :
    (p t r : Text)
    → handle_source p ≡ some (t, r)
    → (1 ≤ length t) × (length t ≤ 63) × (all not_close t ≡ true) × (has_space r ≡ false)
unfolding handle_source
handle_source_lem p t r e =
    let ((u, w), h, e1) = >>=-eq-some (bracketed p) _ e in
    let (g, eg, e2) =
      >>=-eq-some (guard (not (length u == 0 || leb max_source_len (length u)))) _ e1 in
    let long : (1 ≤ length u) × (length u ≤ 63) = ground (arith, guard-true _ g eg) in
    let same : t ≡ take (length u) u = cc in
    let rest : r ≡ skip_spaces w = cc in
    let kept = same ∙ take_all (length u) u (omega arith) in
    (
      omega (arith, ap length kept),
      omega (arith, ap length kept),
      ap (all not_close) kept ∙ bracketed-not_close p u w h,
      ap has_space rest ∙ skip_spaces-has_space w,
    )

handle_message_lem :
    (p m : Text)
    → has_space p ≡ false
    → handle_message p ≡ some m
    → (1 ≤ length m) × (length m ≤ 511) × (has_space m ≡ false)
unfolding handle_message
handle_message_lem [] m h e = cc
handle_message_lem (c ∷ s) m h e =
    let same : m ≡ take 511 (c ∷ s) = cc in
    (
      omega (arith, ap length same, length-take 511 (c ∷ s)),
      omega (arith, ap length same, length-take 511 (c ∷ s)),
      ap has_space same ∙ h,
    )

-- Every entry that a line gives fits the fields of the record: 19 characters of time, one of the
-- four levels, a source of 1 to 63 and a message of 1 to 511 characters, and no end marker; time
-- and source have no `]`, and the message does not begin with a space.
pub parse_log_line-IsEntry : (line : Text) (e : LogEntry) → parse_log_line line ≡ some e → IsEntry e
unfolding parse_log_line
parse_log_line-IsEntry line e h =
    let ((t, p1), et, h1) = >>=-eq-some (handle_timestamp line) _ h in
    let ((l, p2), el, h2) = >>=-eq-some (handle_level p1) _ h1 in
    let ((s, p3), es, h3) = >>=-eq-some (handle_source p2) _ h2 in
    let (m, em, h4) = >>=-eq-some (handle_message p3) _ h3 in
    let (time_length, time_chars) = handle_timestamp_lem line t p1 et in
    let (long, short, chars, start) = handle_source_lem p2 s p3 es in
    let (message_long, message_short, message_start) = handle_message_lem p3 m start em in
    subst IsEntry (eq_of_some _ e h4) (record {
      time_length = time_length;
      time_chars = time_chars;
      level_valid = handle_level_lem p1 l p2 el;
      source_long = long;
      source_short = short;
      source_chars = chars;
      message_long = message_long;
      message_short = message_short;
      message_start = message_start;
      no_eof = refl;
    })
