-- ===== src/Words/Input/Tests.antt =====
-- An input file of two words, and the output file of three.
use gtu_cse344_systems_progr.Common.{ℕ, ◌≡◌, refl, List, [], ◌∷◌, false, none, pos, arith, map}
use mathlib.Core.List.{Perm}
use gtu_cse344_systems_progr.Libc.{Text, codes, decimal, atoi, strtok, c_string}
use gtu_cse344_systems_progr.Words.Word.{Word, new_slot}
use gtu_cse344_systems_progr.Words.Input.{
  LineInput, is_valid_line, read_input, chop, exits, reads, validate_words, sort_words,
  write_output_file,
}
use gtu_cse344_systems_progr.Words.Input.Order.{InOrder}
use gtu_cse344_systems_progr.Words.Input.Lines.{line_input, write_output_file_lem}
use gtu_cse344_systems_progr.Words.Input.Valid.{Outcome, read_input-Outcome}

abbrev some_lines : List Text
some_lines = codes "12 hello 3\n" ∷ codes "7 os 0\r\n" ∷ []

abbrev some_inputs : List LineInput
some_inputs =
    record { word_id = pos 12; word = codes "hello"; sorting_floor = pos 3 }
    ∷ record { word_id = pos 7; word = codes "os"; sorting_floor = pos 0 }
    ∷ []

reads_two : read_input some_lines ≡ reads some_inputs
unfolding read_input chop atoi strtok
reads_two = refl

read_input-Outcome_example : Outcome some_lines (read_input some_lines)
read_input-Outcome_example = read_input-Outcome some_lines

exits_two_spaces : read_input (codes "12 hello 3\n" ∷ codes "7  os 0\n" ∷ []) ≡ exits
unfolding read_input chop strtok
exits_two_spaces = refl

refuses_upper : is_valid_line (codes "1 Os 2") ≡ false
unfolding is_valid_line
refuses_upper = refl

floor_too_high : validate_words 3 some_inputs ≡ false
unfolding validate_words
floor_too_high = refl

abbrev some_word : ℕ → Text → ℕ → Word
some_word id text floor = record {
  word_id = id;
  sorting_floor = floor;
  arrival_floor = none;
  slots = map new_slot text;
  tasks = [];
  claimed = false;
  admitted = false;
  completed = false;
}

abbrev some_words : List Word
some_words =
    some_word 5 (codes "ab") 2 ∷ some_word 12 (codes "c") 0 ∷ some_word 3 (codes "d") 2 ∷ []

writes_in_order :
    write_output_file some_words ≡ codes "12 c 0\n" ∷ codes "3 d 2\n" ∷ codes "5 ab 2\n" ∷ []
unfolding write_output_file decimal c_string
writes_in_order = refl

write_output_file_lem_example :
    Perm (sort_words some_words) some_words
    × InOrder (sort_words some_words)
    × (read_input (write_output_file some_words) ≡ reads (map line_input (sort_words some_words)))
unfolding c_string
write_output_file_lem_example = write_output_file_lem some_words (
  record { id = omega arith; floor = omega arith; letters = refl; named = λ e. cc },
  (
    record { id = omega arith; floor = omega arith; letters = refl; named = λ e. cc },
    (record { id = omega arith; floor = omega arith; letters = refl; named = λ e. cc }, tt),
  ),
)
