-- ===== src/Words/Input/Lines.antt =====
-- The lines of the input file and of the output file: a line of the output file is read back.
use gtu_cse344_systems_progr.Common.{
  ℕ, ◌≤◌, ◌≡◌, ◌≢◌, refl, ap, ◌∙◌, List, [], ◌∷◌, ◌++◌, append_assoc, Bool, true, false, some, ◌==◌,
  not, all, all-append, pos, int_max, map, All, arith,
}
use gtu_cse344_systems_progr.Libc.{
  Text, is_digit, strtok-word, strtok-last, is_word, is_any, decimal, all_digits-decimal,
  decimal-ne-nil, atoi-decimal,
}
use gtu_cse344_systems_progr.Words.Word.{Word}
use gtu_cse344_systems_progr.Words.Input.{
  LineInput, chop, trim_newline, is_lower, skip_while, field, is_end, is_valid_line, delimiters,
  parse_line, reads, read_input, original_text, output_line, sort_words, write_output_file,
}
use gtu_cse344_systems_progr.Words.Input.Order.{
  InOrder, sort_words-perm, sort_words-InOrder, sort_words-All,
}
use mathlib.Core.List.{Perm}

-- A word that the input file can name: its numbers are not above INT_MAX, and its text is lowercase
-- and not empty.
pub record IsNamed (w : Word) : Type 0 where
  pub id : w.word_id ≤ int_max
  pub floor : w.sorting_floor ≤ int_max
  pub letters : all is_lower (original_text w) ≡ true
  pub named : original_text w ≢ []

-- The line of the input file for the word.
abbrev pub line_input : Word → LineInput
line_input w = record {
  word_id = pos w.word_id;
  word = original_text w;
  sorting_floor = pos w.sorting_floor;
}

-- An output line without its newline.
abbrev body : Word → Text
body w = decimal w.word_id ++ 32 ∷ (original_text w ++ 32 ∷ decimal w.sorting_floor)

chop-newline : (c : ℕ) (s : Text) → chop c (s ++ c ∷ []) ≡ s
unfolding chop
chop-newline c [] = ground arith
chop-newline c (x ∷ []) = ground arith
chop-newline c (x ∷ y ∷ s) = ap (◌∷◌ x) (chop-newline c (y ∷ s))

chop-other : (c : ℕ) (s : Text) → all (λ x. not (x == c)) s ≡ true → chop c s ≡ s
unfolding chop
chop-other c [] h = refl
chop-other c (x ∷ []) h = ground arith
chop-other c (x ∷ y ∷ s) h = ground (arith, chop-other c (y ∷ s))

skip_while-all :
    (p : ℕ → Bool) (s : Text) (c : ℕ) (t : Text)
    → all p s ≡ true
    → p c ≡ false
    → skip_while p (s ++ c ∷ t) ≡ c ∷ t
unfolding skip_while
skip_while-all p [] c t h e = rw e refl
skip_while-all p (x ∷ s) c t h e = ground (arith, skip_while-all p s c t)

skip_while-end : (p : ℕ → Bool) (s : Text) → all p s ≡ true → skip_while p s ≡ []
unfolding skip_while
skip_while-end p [] h = refl
skip_while-end p (x ∷ s) h = ground (arith, skip_while-end p s)

field-all :
    (p : ℕ → Bool) (s : Text) (c : ℕ) (t : Text)
    → s ≢ []
    → all p s ≡ true
    → p c ≡ false
    → field p (s ++ c ∷ t) ≡ some (c ∷ t)
unfolding field
field-all p [] c t n h e = absurd (n refl)
field-all p (x ∷ s) c t n h e = ground (arith, skip_while-all p s c t)

field-end : (p : ℕ → Bool) (s : Text) → s ≢ [] → all p s ≡ true → field p s ≡ some []
unfolding field
field-end p [] n h = absurd (n refl)
field-end p (x ∷ s) n h = ground (arith, skip_while-end p s)

digits : (n : ℕ) → all is_digit (decimal n) ≡ true
digits n = all_digits-decimal is_digit n (λ d h. ground arith)

pub lower-all :
    (p : ℕ → Bool) (s : Text)
    → ((c : ℕ) → is_lower c ≡ true → p c ≡ true)
    → all is_lower s ≡ true
    → all p s ≡ true
lower-all p [] h a = refl
lower-all p (c ∷ s) h a =
    let first = h c (ground arith) in let ih = lower-all p s h (ground arith) in ground arith

pub is_valid_line-fields :
    (id word floor : Text)
    → (id ≢ []) × (all is_digit id ≡ true)
    → (word ≢ []) × (all is_lower word ≡ true)
    → (floor ≢ []) × (all is_digit floor ≡ true)
    → is_valid_line (id ++ 32 ∷ (word ++ 32 ∷ floor)) ≡ true
unfolding is_valid_line
is_valid_line-fields id word floor (ni, di) (nw, lw) (nf, df) =
    rw
      (
        is_valid_line,
        field-all is_digit id 32 (word ++ 32 ∷ floor) ni di refl,
        field-all is_lower word 32 floor nw lw refl,
        field-end is_digit floor nf df,
      )
      refl

is_valid_line-body : (w : Word) → IsNamed w → is_valid_line (body w) ≡ true
is_valid_line-body w v =
    is_valid_line-fields (decimal w.word_id) (original_text w) (decimal w.sorting_floor)
      (decimal-ne-nil w.word_id, digits w.word_id) (v.named, v.letters)
      (decimal-ne-nil w.sorting_floor, digits w.sorting_floor)

decimal-word : (n : ℕ) → is_word delimiters (decimal n) ≡ true
decimal-word n = all_digits-decimal (λ c. not (is_any delimiters c)) n (λ d h. ground arith)

parse_line-body : (w : Word) → IsNamed w → parse_line (body w) ≡ some (line_input w)
unfolding parse_line
parse_line-body w v =
    let word =
      lower-all (λ c. not (is_any delimiters c)) (original_text w) (λ c h. ground arith)
        v.letters in
    rw
      (
        strtok-word delimiters (decimal w.word_id) 32 _ (decimal-ne-nil w.word_id)
            (decimal-word w.word_id) refl,
        strtok-word delimiters (original_text w) 32 _ v.named word refl,
        strtok-last delimiters (decimal w.sorting_floor) (decimal-ne-nil w.sorting_floor)
            (decimal-word w.sorting_floor),
        atoi-decimal w.word_id v.id,
        atoi-decimal w.sorting_floor v.floor,
      )
      refl

no_return : (w : Word) → IsNamed w → all (λ x. not (x == 13)) (body w) ≡ true
no_return w v =
    let p : ℕ → Bool = λ x. not (x == 13) in
    let id = all_digits-decimal p w.word_id (λ d h. ground arith) in
    let floor = all_digits-decimal p w.sorting_floor (λ d h. ground arith) in
    let text = lower-all p (original_text w) (λ c h. ground arith) v.letters in
    let ends = all-append p (original_text w) (32 ∷ decimal w.sorting_floor) in
    let whole =
      all-append p (decimal w.word_id) (32 ∷ (original_text w ++ 32 ∷ decimal w.sorting_floor)) in
    rw (whole, id, ends, text, floor) refl

trim-output_line : (w : Word) → IsNamed w → trim_newline (output_line w) ≡ body w
trim-output_line w v =
    let floor = decimal w.sorting_floor in
    let line : body w ++ 10 ∷ [] ≡ output_line w =
      append_assoc (decimal w.word_id) (32 ∷ (original_text w ++ 32 ∷ floor)) (10 ∷ [])
      ∙ ap (λ t. decimal w.word_id ++ 32 ∷ t)
          (append_assoc (original_text w) (32 ∷ floor) (10 ∷ [])) in
    rw (← line, chop-newline 10 (body w)) (chop-other 13 (body w) (no_return w v))

body-not_end : (w : Word) → is_end (body w) ≡ false
body-not_end w = go (decimal w.word_id) (decimal-ne-nil w.word_id)
  where
    go :
        (s : Text)
        → s ≢ []
        → is_end (s ++ 32 ∷ (original_text w ++ 32 ∷ decimal w.sorting_floor)) ≡ false
    go [] n = refl
    go (c ∷ s) n = refl

read_input-output_lines :
    (words : List Word)
    → All IsNamed words
    → read_input (map output_line words) ≡ reads (map line_input words)
unfolding read_input
read_input-output_lines [] v = refl
read_input-output_lines (w ∷ words) v =
    rw
      (
        trim-output_line w v.0,
        body-not_end w,
        is_valid_line-body w v.0,
        parse_line-body w v.0,
        read_input-output_lines words v.1,
      )
      refl

-- For words whose numbers are at most INT_MAX and whose texts are lowercase and not empty, the output
-- file lists just these words, ordered by floor and then by id, and read as an input file it gives
-- them back in that order.
pub write_output_file_lem :
    (words : List Word)
    → All IsNamed words
    → Perm (sort_words words) words
      × InOrder (sort_words words)
      × (read_input (write_output_file words) ≡ reads (map line_input (sort_words words)))
unfolding write_output_file
write_output_file_lem words v = (
  sort_words-perm words,
  sort_words-InOrder words,
  read_input-output_lines (sort_words words) (sort_words-All IsNamed words v),
)
