-- ===== src/Libc/Numbers.antt =====
-- `strtol` in base 10 and `atoi`.
use gtu_cse344_systems_progr.Common.{
  ℕ, ◌+◌, ◌-◌, ◌*◌, [], ◌∷◌, Bool, true, false, Option, none, some, leb, ◌==◌, if◌then◌else◌, ℤ,
  pos, negsuc, long_max, int_max, ◌%◌, ◌^◌,
}
use gtu_cse344_systems_progr.Libc.Strings.{Text, is_digit, isspace}

-- The value of the leading digits, added behind `acc`, and what follows them.
unfoldable pub read_digits : ℕ → Text → ℕ × Text
read_digits acc [] = (acc, [])
read_digits acc (c ∷ s) =
    let rest = read_digits (acc * 10 + (c - b'0')) s in if is_digit c then rest else (acc, c ∷ s)

unfoldable pub skip_space : Text → Text
skip_space [] = []
skip_space (c ∷ s) = let rest = skip_space s in if isspace c then rest else c ∷ s

abbrev pub starts_with_digit : Text → Bool
starts_with_digit [] = false
starts_with_digit (c ∷ s) = is_digit c

-- What `strtol` returned, `*endptr`, and whether it set `errno` to ERANGE.
pub record Strtol : Type 0 where
  pub value : ℤ
  pub endptr : Text
  pub erange : Bool

abbrev pub long_of : Bool → ℕ → Text → Strtol
long_of false n rest =
    if leb n long_max
    then record { value = pos n; endptr = rest; erange = false }
    else record { value = pos long_max; endptr = rest; erange = true }
long_of true n rest =
    if n == 0
    then record { value = pos 0; endptr = rest; erange = false }
    else if leb (n - 1) long_max
    then record { value = negsuc (n - 1); endptr = rest; erange = false }
    else record { value = negsuc long_max; endptr = rest; erange = true }

abbrev pub sign_of : Text → Bool × Text
sign_of [] = (false, [])
sign_of (c ∷ s) = if c == b'-' then (true, s) else if c == b'+' then (false, s) else (false, c ∷ s)

-- `none`: there is no number, and `*endptr` is the text itself.
unfoldable pub strtol : Text → Option Strtol
unfolding read_digits skip_space
strtol s =
    let (negative, t) = sign_of (skip_space s) in
    let (n, rest) = read_digits 0 t in
    if starts_with_digit t then some (long_of negative n rest) else none

-- The `int` with the bits of `m`, which is less than 2 ^ 32.
abbrev pub signed : ℕ → ℤ
signed m = if leb m int_max then pos m else negsuc (2 ^ 32 - 1 - m)

-- A `long` as an `int` of 32 bits.
abbrev pub wrap_int : ℤ → ℤ
wrap_int (pos n) = signed (n % 2 ^ 32)
wrap_int (negsuc n) = signed (2 ^ 32 - 1 - n % 2 ^ 32)

-- `atoi`, which is `strtol` and a conversion to `int`.
unfoldable pub atoi : Text → ℤ
unfolding strtol
atoi s = elim (strtol s) [ none ↦ pos 0 | some v ↦ wrap_int v.value ]
