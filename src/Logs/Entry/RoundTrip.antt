-- ===== src/Logs/Entry/RoundTrip.antt =====
-- A line in the form `[time] [LEVEL] [source] message` is read back.
use gtu_cse344_systems_progr.Common.{
  ◌≤◌, ◌≡◌, ◌≢◌, refl, ap, sym, [], ◌∷◌, ◌++◌, true, false, some, leb, ◌==◌, ◌||◌, length, all,
  take, take_all, arith,
}
use gtu_cse344_systems_progr.Libc.{Text, codes, strcmp_eq}
use gtu_cse344_systems_progr.Logs.Entry.{
  Level, error, warn, info, debug, invalid, LogEntry, parse_level_str, skip_spaces, until_close,
  bracketed, handle_timestamp, handle_level, handle_source, handle_message, parse_log_line,
}
use gtu_cse344_systems_progr.Logs.Entry.Fields.{IsEntry, not_close, has_space}

abbrev pub level_name : Level → Text
level_name error = codes "ERROR"
level_name warn = codes "WARN"
level_name info = codes "INFO"
level_name debug = codes "DEBUG"
level_name invalid = []

-- A line for an entry.
pub log_line : LogEntry → Text
log_line e =
    b'['
    ∷ (e.timestamp
        ++ b']'
          ∷ b' '
          ∷ b'['
          ∷ (level_name e.level ++ b']' ∷ b' ' ∷ b'[' ∷ (e.source ++ b']' ∷ b' ' ∷ e.message)))

until_close-append :
    (t r : Text) → all not_close t ≡ true → until_close (t ++ b']' ∷ r) ≡ some (t, r)
unfolding until_close
until_close-append [] r h = refl
until_close-append (c ∷ t) r h = ground (arith, until_close-append t r)

skip_spaces-bracket : (s : Text) → skip_spaces (b' ' ∷ b'[' ∷ s) ≡ b'[' ∷ s
unfolding skip_spaces
skip_spaces-bracket s = refl

skip_spaces-message : (m : Text) → has_space m ≡ false → skip_spaces (b' ' ∷ m) ≡ m
unfolding skip_spaces
skip_spaces-message [] h = refl
skip_spaces-message (c ∷ m) h = ground arith

handle_message-short : (m : Text) → 1 ≤ length m → length m ≤ 511 → handle_message m ≡ some m
unfolding handle_message
handle_message-short [] a b = absurd (omega arith)
handle_message-short (c ∷ m) a b = ap some (take_all 511 (c ∷ m) b)

level-close : (l : Level) → all not_close (level_name l) ≡ true
level-close error = refl
level-close warn = refl
level-close info = refl
level-close debug = refl
level-close invalid = refl

parse_level_str-level_name :
    (l : Level)
    → l ≢ invalid
    → (parse_level_str (take (length (level_name l)) (level_name l)) ≡ some l)
      × ((length (level_name l) == 0 || leb 128 (length (level_name l))) ≡ false)
unfolding parse_level_str strcmp_eq
parse_level_str-level_name error h = (refl, refl)
parse_level_str-level_name warn h = (refl, refl)
parse_level_str-level_name info h = (refl, refl)
parse_level_str-level_name debug h = (refl, refl)
parse_level_str-level_name invalid h = absurd (h refl)

-- A line that gives the fields of an entry, the first three in brackets and one space behind each,
-- is read back as that entry.
pub parse_log_line-log_line : (e : LogEntry) → IsEntry e → parse_log_line (log_line e) ≡ some e
unfolding parse_log_line handle_timestamp handle_level handle_source bracketed log_line
parse_log_line-log_line e v =
    let (level, short) = parse_level_str-level_name e.level v.level_valid in
    let timed : (length e.timestamp == 19) ≡ true = ground (arith, v.time_length) in
    let source : (length e.source == 0 || leb 64 (length e.source)) ≡ false =
      ground (arith, v.source_long, v.source_short) in
    rw
      (
        until_close-append e.timestamp _ v.time_chars,
        timed,
        skip_spaces-bracket _,
        take_all 19 e.timestamp (omega (arith, v.time_length)),
        until_close-append (level_name e.level) _ (level-close e.level),
        short,
        level,
        until_close-append e.source _ v.source_chars,
        source,
        take_all (length e.source) e.source (omega arith),
        skip_spaces-message e.message v.message_start,
        handle_message-short e.message v.message_long v.message_short,
      )
      (ap (λ b. some (record e { is_eof = b })) (sym v.no_eof))
