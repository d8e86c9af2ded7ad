-- ===== src/Logs/Entry.antt =====
-- HW4/inc/log_entry.h and HW4/src/parser/log_entry.c: a line of a log file and its parser. Texts are
-- without their NUL; a handler takes what `*p` points at and returns its field and the new `*p`, or
-- `none` for the return value 0.
pub mod Fields
pub mod RoundTrip
use gtu_cse344_systems_progr.Common.{
  ℕ, zero, suc, ◌-◌, List, [], ◌∷◌, Bool, true, false, Option, none, some, ltb, leb, ◌==◌, ◌||◌,
  not, if◌then◌else◌, ◌>>=◌, ◌>>◌, guard, length, take,
}
use gtu_cse344_systems_progr.Libc.{Text, codes, strcmp_eq, strncpy}

abbrev pub max_source_len : ℕ
max_source_len = 64

abbrev pub max_message_len : ℕ
max_message_len = 512

abbrev pub tmp_buf_size : ℕ
tmp_buf_size = 128

-- `LV_ERROR` .. `LV_DEBUG` and `LV_INVALID`
pub data Level : Type 0 where
  error warn info debug invalid : Level

pub record LogEntry : Type 0 where
  pub timestamp : Text
  pub level : Level
  pub source : Text
  pub message : Text
  pub is_eof : Bool

unfoldable pub parse_level_str : Text → Option Level
parse_level_str str =
    if strcmp_eq str (codes "ERROR")
    then some error
    else if strcmp_eq str (codes "WARN")
    then some warn
    else if strcmp_eq str (codes "INFO")
    then some info
    else if strcmp_eq str (codes "DEBUG")
    then some debug
    else none

unfoldable pub skip_spaces : Text → Text
skip_spaces [] = []
skip_spaces (c ∷ s) = if c == b' ' then skip_spaces s else c ∷ s

-- `while (**p && **p != ']')`: the text before the first `]` and the one behind it.
unfoldable pub until_close : Text → Option (Text × Text)
until_close [] = none
until_close (c ∷ s) =
    let rest = until_close s in
    if c == b']' then some ([], s) else (rest >>= λ (t, r). some (c ∷ t, r))

-- The start of the first three handlers: the text between `[` and `]`.
unfoldable pub bracketed : Text → Option (Text × Text)
bracketed [] = none
bracketed (c ∷ s) = if c == b'[' then until_close s else none

unfoldable pub handle_timestamp : Text → Option (Text × Text)
unfolding bracketed until_close skip_spaces
handle_timestamp p = do
  (start, rest) ← bracketed p
  guard (length start == 19)
  some (strncpy start 19, skip_spaces rest)

unfoldable pub handle_level : Text → Option (Level × Text)
unfolding bracketed until_close skip_spaces parse_level_str strcmp_eq
handle_level p = do
  (start, rest) ← bracketed p
  guard (not (length start == 0 || leb tmp_buf_size (length start)))
  level ← parse_level_str (strncpy start (length start))
  some (level, skip_spaces rest)

unfoldable pub handle_source : Text → Option (Text × Text)
unfolding bracketed until_close skip_spaces
handle_source p = do
  (start, rest) ← bracketed p
  guard (not (length start == 0 || leb max_source_len (length start)))
  some (strncpy start (length start), skip_spaces rest)

unfoldable pub handle_message : Text → Option Text
handle_message [] = none
handle_message (c ∷ s) = some (strncpy (c ∷ s) (max_message_len - 1))

unfoldable pub parse_log_line : Text → Option LogEntry
unfolding handle_timestamp handle_level handle_source handle_message
parse_log_line line = do
  (timestamp, p1) ← handle_timestamp line
  (level, p2) ← handle_level p1
  (source, p3) ← handle_source p2
  message ← handle_message p3
  some (record {
    timestamp = timestamp;
    level = level;
    source = source;
    message = message;
    is_eof = false;
  })
