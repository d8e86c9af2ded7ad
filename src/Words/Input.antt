-- ===== src/Words/Input.antt =====
-- HW3/src/check/file_control.c, the lines of the input file; HW3/src/check/validate_words.c; and
-- HW3/src/check/output.c, the output file.
pub mod Order
pub mod Lines
pub mod Valid
mod Tests
use gtu_cse344_systems_progr.Common.{
  ℕ, ◌++◌, List, [], ◌∷◌, Bool, true, false, Option, none, some, ltb, leb, ◌==◌, ◌&&◌, ◌||◌, not,
  if◌then◌else◌, ℤ, pos, negsuc, map, all, ◌>>=◌,
}
use gtu_cse344_systems_progr.Libc.{Text, codes, is_digit, atoi, strtok, decimal, c_string}
use gtu_cse344_systems_progr.Words.Word.{Word}

-- `t_line_input`
pub record LineInput : Type 0 where
  pub word_id : ℤ
  pub word : Text
  pub sorting_floor : ℤ

-- The last byte is cut, if it is `c`.
unfoldable pub chop : ℕ → Text → Text
chop c [] = []
chop c (x ∷ []) = if x == c then [] else x ∷ []
chop c (x ∷ y ∷ s) = x ∷ chop c (y ∷ s)

-- `trim_newline`
abbrev pub trim_newline : Text → Text
trim_newline line = chop 13 (chop 10 line)

abbrev pub is_lower : ℕ → Bool
is_lower c = leb b'a' c && leb c b'z'

unfoldable pub skip_while : (ℕ → Bool) → Text → Text
skip_while p [] = []
skip_while p (c ∷ s) = let rest = skip_while p s in if p c then rest else c ∷ s

-- One byte or more of a class, and what follows; `none` where `is_valid_line` returns 0.
unfoldable pub field : (ℕ → Bool) → Text → Option Text
unfolding skip_while
field p [] = none
field p (c ∷ s) = if p c then some (skip_while p s) else none

abbrev pub space : Text → Option Text
space [] = none
space (c ∷ s) = if c == 32 then some s else none

abbrev pub is_end : Text → Bool
is_end [] = true
is_end (c ∷ s) = false

unfoldable pub is_valid_line : Text → Bool
unfolding field
is_valid_line line =
    elim (do
      a ← field is_digit line
      b ← space a
      c ← field is_lower b
      d ← space c
      field is_digit d) [ none ↦ false | some rest ↦ is_end rest ]

abbrev pub delimiters : Text
delimiters = 32 ∷ 10 ∷ []

-- `parse_line`; `none` is a NULL that `atoi` or `strdup` would read.
unfoldable pub parse_line : Text → Option LineInput
parse_line line = do
  (id, a) ← strtok delimiters line
  (word, b) ← strtok delimiters a
  (floor, _) ← strtok delimiters b
  some (record { word_id = atoi id; word = word; sorting_floor = atoi floor })

-- What `read_input` does: it exits with an error, or it returns the words.
pub data Reading : Type 0 where
  exits : Reading
  null_read : Reading
  reads : List LineInput → Reading

-- The loop of `read_input` over the lines that `get_next_line` returns.
unfoldable pub read_input : List Text → Reading
unfolding is_valid_line parse_line
read_input [] = reads []
read_input (raw ∷ lines) =
    let line = trim_newline raw in
    let rest = read_input lines in
    if is_end line || not (is_valid_line line) then exits else elim (parse_line line) [
      | none ↦ null_read
      | some w ↦ elim rest [
        | exits ↦ exits
        | null_read ↦ null_read
        | reads words ↦ reads (w ∷ words)
      ]
    ]

abbrev pub is_floor : ℕ → ℤ → Bool
is_floor num_floors (pos n) = ltb n num_floors
is_floor num_floors (negsuc n) = false

-- `validate_words`; `false` is `exit`.
unfoldable pub validate_words : ℕ → List LineInput → Bool
validate_words num_floors words = all (λ w. is_floor num_floors w.sorting_floor) words

-- Whether `cmp_words` is at most 0; floors and ids are not negative.
unfoldable pub word_le : Word → Word → Bool
word_le a b =
    if a.sorting_floor == b.sorting_floor
    then leb a.word_id b.word_id
    else ltb a.sorting_floor b.sorting_floor

unfoldable pub insert_word : Word → List Word → List Word
unfolding word_le
insert_word w [] = w ∷ []
insert_word w (v ∷ words) =
    let rest = insert_word w words in if word_le w v then w ∷ v ∷ words else v ∷ rest

-- `qsort` with `cmp_words`.
unfoldable pub sort_words : List Word → List Word
unfolding insert_word
sort_words [] = []
sort_words (w ∷ words) = insert_word w (sort_words words)

-- `original`, as `fprintf` prints it.
abbrev pub original_text : Word → Text
original_text w = c_string (map (λ s. s.original) w.slots)

-- A line of the output file.
abbrev pub output_line : Word → Text
output_line w =
    decimal w.word_id ++ 32 ∷ (original_text w ++ 32 ∷ (decimal w.sorting_floor ++ 10 ∷ []))

-- The lines of `write_output_file`.
unfoldable pub write_output_file : List Word → List Text
unfolding sort_words
write_output_file words = map output_line (sort_words words)
