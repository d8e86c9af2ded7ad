-- ===== src/Search/Pattern.antt =====
-- HW1/src/regex.c and HW2/src/regex.c: a file name against a pattern in which `c+` stands for one `c` or more.
pub mod Match
use gtu_cse344_systems_progr.Common.{
  ℕ, ◌+◌, List, [], ◌∷◌, Bool, true, false, ltb, leb, ◌==◌, ◌&&◌, ◌||◌, if◌then◌else◌,
}
use gtu_cse344_systems_progr.Libc.{Text}

abbrev pub tolower : ℕ → ℕ
tolower c = if leb b'A' c && leb c b'Z' then c + 32 else c

-- `tolower (x) == c`, where `char c = tolower (p)` for the letter `p` of the pattern. A `char` is
-- signed, so a byte from 128 on is negative there and equals nothing.
abbrev pub same_letter : ℕ → ℕ → Bool
same_letter x p = ltb (tolower p) 128 && tolower x == tolower p

-- The `while` loop for `c+`; `rest` is the call for the rest of the pattern.
unfoldable pub plus_loop : ℕ → (Text → Bool) → Text → Bool
plus_loop c rest [] = false
plus_loop c rest (x ∷ name) = if same_letter x c then rest name || plus_loop c rest name else false

-- A letter of the pattern without `+`.
unfoldable pub one_letter : ℕ → (Text → Bool) → Text → Bool
one_letter c rest [] = false
one_letter c rest (x ∷ name) = if same_letter x c then rest name else false

-- The two functions `regex_match` of HW1 and `match` of HW2 differ in what they ask of the name at
-- the end of the pattern.
unfoldable pub match_letters : (Text → Bool) → Text → Text → Bool
unfolding plus_loop one_letter
match_letters at_end [] name = at_end name
match_letters at_end (c ∷ []) name = one_letter c at_end name
match_letters at_end (c ∷ d ∷ pattern) name =
    let more = plus_loop c (match_letters at_end pattern) name in
    let once = one_letter c (match_letters at_end (d ∷ pattern)) name in
    if d == b'+' then more else once

abbrev pub is_empty : Text → Bool
is_empty [] = true
is_empty (x ∷ name) = false

-- `regex_match` of HW1
unfoldable pub regex_match : Text → Text → Bool
unfolding match_letters
regex_match pattern name = match_letters is_empty pattern name

-- `match` of HW2
unfoldable pub match_here : Text → Text → Bool
unfolding match_letters
match_here pattern name = match_letters (λ _. true) pattern name

-- `regex` of HW2
unfoldable pub regex : Text → Text → Bool
unfolding match_here
regex pattern [] = match_here pattern []
regex pattern (x ∷ name) = match_here pattern (x ∷ name) || regex pattern name
