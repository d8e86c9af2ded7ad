-- ===== src/Libc/Strings.antt =====
-- Character classes of the "C" locale, and <string.h>.
use Prim.Native.Char.{code}
use Prim.Native.String.{String}
use gtu_cse344_systems_progr.Common.{
  ℕ, ◌≡◌, refl, List, [], ◌∷◌, Bool, true, false, arith, leb, ◌==◌, ◌&&◌, ◌||◌, if◌then◌else◌, take,
}

abbrev pub Text : Type 0
Text = List ℕ

-- The bytes of an ASCII literal.
abbrev pub codes : String → Text
codes String.[] = []
codes (String.◌∷◌ c s) = code c ∷ codes s

abbrev pub is_digit : ℕ → Bool
is_digit c = leb b'0' c && leb c b'9'

abbrev pub isspace : ℕ → Bool
isspace c = c == 32 || (leb 9 c && leb c 13)

abbrev pub isalnum : ℕ → Bool
isalnum c = is_digit c || ((leb b'a' c && leb c b'z') || (leb b'A' c && leb c b'Z'))

-- The text in a buffer: what stands before the first NUL.
unfoldable pub c_string : List ℕ → Text
c_string [] = []
c_string (c ∷ s) = elim (c == 0) [ true ↦ [] | false ↦ c ∷ c_string s ]

-- `strcmp (s, t) == 0`
unfoldable pub strcmp_eq : Text → Text → Bool
strcmp_eq [] [] = true
strcmp_eq [] (y ∷ t) = false
strcmp_eq (x ∷ s) [] = false
strcmp_eq (x ∷ s) (y ∷ t) = x == y && strcmp_eq s t

-- `strncmp (text, word, strlen (word)) == 0`
unfoldable pub strncmp_eq : Text → Text → Bool
strncmp_eq text [] = true
strncmp_eq [] (y ∷ word) = false
strncmp_eq (x ∷ text) (y ∷ word) = x == y && strncmp_eq text word

-- The text that `strncpy (d, s, n)` followed by `d[n] = '\0'` leaves in `d`.
abbrev pub strncpy : Text → ℕ → Text
strncpy s n = take n s

-- `s[strcspn (s, "\r\n")] = '\0'`
unfoldable pub cut_line_end : Text → Text
cut_line_end [] = []
cut_line_end (c ∷ s) = if c == 10 || c == 13 then [] else c ∷ cut_line_end s

pub strcmp_eq_refl : (s : Text) → strcmp_eq s s ≡ true
unfolding strcmp_eq
strcmp_eq_refl [] = refl
strcmp_eq_refl (x ∷ s) = ground (arith, strcmp_eq_refl s)

-- `strcmp` tells apart any two different texts.
pub eq_of_strcmp_eq : (s t : Text) → strcmp_eq s t ≡ true → s ≡ t
unfolding strcmp_eq
eq_of_strcmp_eq [] [] h = refl
eq_of_strcmp_eq [] (y ∷ t) h = cc
eq_of_strcmp_eq (x ∷ s) [] h = cc
eq_of_strcmp_eq (x ∷ s) (y ∷ t) h = ground (arith, eq_of_strcmp_eq s t)
