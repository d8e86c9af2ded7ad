-- ===== src/Logs/Args/RoundTrip.antt =====
-- Keyword lists and list files are read back.
use gtu_cse344_systems_progr.Common.{
  ℕ, zero, suc, ◌+◌, ◌≤◌, ◌<◌, ◌≡◌, ◌≢◌, refl, ap, List, [], ◌∷◌, ◌++◌, Bool, true, false, none,
  some, leb, ◌==◌, ◌||◌, not, length, length-append, all, All, arith,
}
use gtu_cse344_systems_progr.Libc.{
  Text, codes, strtok-word, strtok-last, is_word, fgets, take_line, c_string, cut_line_end,
}
use gtu_cse344_systems_progr.Logs.Args.{
  max_keywords, max_files, keyword_loop, parse_keywords, name_loop, parse_config_file,
}

-- A keyword that may stand in the list.
abbrev pub IsKeyword : Text → Type 0
IsKeyword w = (w ≢ []) × (is_word (codes ",") w ≡ true)

-- The keywords with commas between them.
abbrev pub comma_list : Text → List Text → Text
comma_list w [] = w
comma_list w (v ∷ ks) = w ++ b',' ∷ comma_list v ks

keyword_loop-comma_list :
    (fuel i : ℕ) (w : Text) (ks : List Text)
    → IsKeyword w
    → All IsKeyword ks
    → suc (length ks) < fuel
    → i + suc (length ks) ≤ max_keywords
    → keyword_loop fuel i (comma_list w ks) ≡ some (w ∷ ks)
unfolding keyword_loop
keyword_loop-comma_list zero i w ks v vs f h = absurd (omega arith)
keyword_loop-comma_list (suc zero) i w ks v vs f h = absurd (omega arith)
keyword_loop-comma_list (suc (suc fuel)) i [] ks v vs f h = absurd (v.0 refl)
keyword_loop-comma_list (suc (suc fuel)) i (c ∷ w) [] v vs f h =
    let room : leb 8 i ≡ false = ground arith in
    rw (keyword_loop, strtok-last (codes ",") (c ∷ w) v.0 v.1, room) refl
keyword_loop-comma_list (suc (suc fuel)) i (c ∷ w) (u ∷ ks) v vs f h =
    let room : leb 8 i ≡ false = ground arith in
    rw
      (
        keyword_loop,
        strtok-word (codes ",") (c ∷ w) b',' (comma_list u ks) v.0 v.1 refl,
        room,
        keyword_loop-comma_list (suc fuel) (i + 1) u ks vs.0 vs.1 (omega arith) (omega arith),
      )
      refl

length-comma_list :
    (w : Text) (ks : List Text)
    → IsKeyword w
    → All IsKeyword ks
    → length ks < length (comma_list w ks)
length-comma_list [] ks v vs = absurd (v.0 refl)
length-comma_list (c ∷ w) [] v vs = omega arith
length-comma_list (c ∷ w) (u ∷ ks) v vs =
    omega (arith, length-append w (b',' ∷ comma_list u ks), length-comma_list u ks vs.0 vs.1)

-- One to eight keywords that are not empty and have no comma are read back from the list in which
-- commas stand between them.
pub parse_keywords-comma_list :
    (w : Text) (ks : List Text)
    → IsKeyword w
    → All IsKeyword ks
    → length ks < max_keywords
    → parse_keywords (comma_list w ks) ≡ some (w ∷ ks)
unfolding parse_keywords
parse_keywords-comma_list w ks v vs few =
    rw
      (
        parse_keywords,
        keyword_loop-comma_list (length (comma_list w ks) + 1) 0 w ks v vs
            (omega (arith, length-comma_list w ks v vs)) (omega arith),
      )
      refl

abbrev pub is_plain : ℕ → Bool
is_plain c = not (c == 0 || (c == 10 || c == 13))

-- A name that `fgets` and the loop do not cut.
abbrev pub IsLine : Text → Type 0
IsLine w = (w ≢ []) × ((length w ≤ 1022) × (all is_plain w ≡ true))

-- The file with a line for each name.
abbrev pub list_file : List Text → List ℕ
list_file [] = []
list_file (w ∷ names) = w ++ 10 ∷ list_file names

take_line-line :
    (n : ℕ) (w : Text) (rest : List ℕ)
    → length w < n
    → all is_plain w ≡ true
    → take_line n (w ++ 10 ∷ rest) ≡ (w ++ 10 ∷ [], rest)
unfolding take_line
take_line-line zero w rest h p = absurd (omega arith)
take_line-line (suc n) [] rest h p = refl
take_line-line (suc n) (c ∷ w) rest h p = ground (arith, take_line-line n w rest (omega arith))

cut-line : (w : Text) → all is_plain w ≡ true → cut_line_end (c_string (w ++ 10 ∷ [])) ≡ w
unfolding cut_line_end c_string
cut-line [] p = refl
cut-line (c ∷ w) p = ground (arith, cut-line w)

fgets-line :
    (c : ℕ) (w : Text) (rest : List ℕ)
    → IsLine (c ∷ w)
    → fgets 1024 ((c ∷ w) ++ 10 ∷ rest) ≡ some ((c ∷ w) ++ 10 ∷ [], rest)
unfolding fgets
fgets-line c w rest v = ap some (take_line-line 1023 (c ∷ w) rest (omega (arith, v.1.0)) v.1.1)

fgets-end : fgets 1024 [] ≡ none
unfolding fgets
fgets-end = refl

name_loop-list_file :
    (fuel max i : ℕ) (names : List Text)
    → All IsLine names
    → length names < fuel
    → i + length names ≤ max
    → name_loop fuel max i (list_file names) ≡ some names
unfolding name_loop
name_loop-list_file zero max i names v f h = absurd (omega arith)
name_loop-list_file (suc fuel) max i [] v f h = rw (name_loop, fgets-end) refl
name_loop-list_file (suc fuel) max i ([] ∷ names) v f h = absurd (v.0.0 refl)
name_loop-list_file (suc fuel) max i ((c ∷ w) ∷ names) v f h =
    let room : leb max i ≡ false = ground arith in
    rw
      (
        name_loop,
        fgets-line c w (list_file names) v.0,
        cut-line (c ∷ w) v.0.1.1,
        room,
        name_loop-list_file fuel max (i + 1) names v.1 (omega arith) (omega arith),
      )
      refl

length-list_file : (names : List Text) → length names ≤ length (list_file names)
length-list_file [] = omega arith
length-list_file (w ∷ names) =
    omega (arith, length-append w (10 ∷ list_file names), length-list_file names)

-- One to 128 file names of 1 to 1022 bytes, without NUL, newline and carriage return, are read back
-- from the configuration file with a line for each.
pub parse_config_file-list_file :
    (w : Text) (names : List Text)
    → All IsLine (w ∷ names)
    → length names < max_files
    → parse_config_file (some (list_file (w ∷ names))) ≡ some (w ∷ names)
unfolding parse_config_file
parse_config_file-list_file w names v few =
    rw
      (
        parse_config_file,
        name_loop-list_file (length (list_file (w ∷ names)) + 1) max_files 0 (w ∷ names) v
            (omega (arith, length-list_file (w ∷ names))) (omega arith),
      )
      refl
