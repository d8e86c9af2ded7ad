-- ===== src/Libc/Decimal.antt =====
-- `printf ("%d")` of a non-negative number, and that `strtol` reads it back.
use gtu_cse344_systems_progr.Common.{
  ℕ, zero, suc, ◌+◌, ◌-◌, ◌*◌, ◌/◌, ◌%◌, ◌≤◌, ◌<◌, ◌≡◌, ◌∙◌, refl, ap, [], ◌∷◌, ◌++◌, append_assoc,
  Bool, true, false, some, inl, inr, arith, leb, ltb, ◌==◌, if◌then◌else◌, Bool-cases, pos,
  long_max, append-nil, all, all-append, ◌≢◌, length, length-append, int_max, ◌^◌,
}
use gtu_cse344_systems_progr.Libc.Strings.{Text, is_digit, isspace}
use gtu_cse344_systems_progr.Libc.Numbers.{read_digits, starts_with_digit, long_of, strtol, atoi}

decimal_loop : ℕ → ℕ → Text
decimal_loop zero n = []
decimal_loop (suc fuel) n =
    let more = decimal_loop fuel (n / 10) ++ (b'0' + n % 10) ∷ [] in
    if ltb n 10 then (b'0' + n) ∷ [] else more

-- The digits of a number, without leading zeros.
unfoldable pub decimal : ℕ → Text
unfolding decimal_loop
decimal n = decimal_loop (n + 1) n

is_digit-digit : (d : ℕ) → d < 10 → is_digit (b'0' + d) ≡ true
is_digit-digit d h = ground arith

read_digits-digit :
    (acc d : ℕ) (t : Text)
    → d < 10
    → read_digits acc ((b'0' + d) ∷ t) ≡ read_digits (acc * 10 + d) t
unfolding read_digits
read_digits-digit acc d t h =
    let value : acc * 10 + (b'0' + d - b'0') ≡ acc * 10 + d = omega arith in
    rw (is_digit-digit d h) (ap (λ k. read_digits k t) value)

read_digits-decimal_loop :
    (fuel n : ℕ) (t : Text) → n < fuel → read_digits 0 (decimal_loop fuel n ++ t) ≡ read_digits n t
unfolding decimal_loop
read_digits-decimal_loop zero n t h = absurd (omega arith)
read_digits-decimal_loop (suc fuel) n t h = elim (Bool-cases (ltb n 10)) [
  | inl small ↦
      rw small (read_digits-digit 0 n t (ground arith) ∙ ap (λ k. read_digits k t) (omega arith))
  | inr large ↦
      rw (large, append_assoc (decimal_loop fuel (n / 10)) ((b'0' + n % 10) ∷ []) t)
        (read_digits-decimal_loop fuel (n / 10) ((b'0' + n % 10) ∷ t) (ground arith)
          ∙ read_digits-digit (n / 10) (n % 10) t (omega arith)
          ∙ ap (λ k. read_digits k t) (omega arith))
]

starts-decimal_loop :
    (fuel n : ℕ) (t : Text) → n < fuel → starts_with_digit (decimal_loop fuel n ++ t) ≡ true
unfolding decimal_loop
starts-decimal_loop zero n t h = absurd (omega arith)
starts-decimal_loop (suc fuel) n t h = elim (Bool-cases (ltb n 10)) [
  | inl small ↦ rw small (is_digit-digit n (ground arith))
  | inr large ↦
      rw (large, append_assoc (decimal_loop fuel (n / 10)) ((b'0' + n % 10) ∷ []) t)
        (starts-decimal_loop fuel (n / 10) ((b'0' + n % 10) ∷ t) (ground arith))
]

strtol-digits :
    (s : Text)
    → starts_with_digit s ≡ true
    → strtol s ≡ some (long_of false (read_digits 0 s).0 (read_digits 0 s).1)
unfolding strtol
strtol-digits [] h = cc
strtol-digits (c ∷ s) h =
    let not_space : isspace c ≡ false = ground arith in
    let not_minus : (c == b'-') ≡ false = ground arith in
    let not_plus : (c == b'+') ≡ false = ground arith in rw (not_space, not_minus, not_plus, h) refl

-- `strtol` reads a printed number back, and stops behind it.
pub strtol-decimal :
    (n : ℕ)
    → n ≤ long_max
    → strtol (decimal n) ≡ some (record { value = pos n; endptr = []; erange = false })
unfolding decimal read_digits
strtol-decimal n h =
    let read = read_digits-decimal_loop (n + 1) n [] (omega arith) in
    let start = starts-decimal_loop (n + 1) n [] (omega arith) in
    let all_read = strtol-digits (decimal_loop (n + 1) n) (rw append-nil at start) in
    let rest : read_digits n [] ≡ (n, []) = refl in
    let result : read_digits 0 (decimal_loop (n + 1) n) ≡ (n, []) =
      (rw append-nil at read) ∙ rest in
    let fits : leb n long_max ≡ true = ground arith in rw all_read (rw result (rw fits refl))

all_digits-decimal_loop :
    (p : ℕ → Bool)
    → ((d : ℕ) → d < 10 → p (b'0' + d) ≡ true)
    → (fuel n : ℕ) → all p (decimal_loop fuel n) ≡ true
unfolding decimal_loop
all_digits-decimal_loop p h zero n = refl
all_digits-decimal_loop p h (suc fuel) n = elim (Bool-cases (ltb n 10)) [
  | inl small ↦ rw (small, h n (ground arith)) refl
  | inr large ↦
      rw (large, all-append p (decimal_loop fuel (n / 10)) ((b'0' + n % 10) ∷ []))
        (rw (all_digits-decimal_loop p h fuel (n / 10), h (n % 10) (omega arith)) refl)
]

-- A printed number is made of digits.
pub all_digits-decimal :
    (p : ℕ → Bool) (n : ℕ) → ((d : ℕ) → d < 10 → p (b'0' + d) ≡ true) → all p (decimal n) ≡ true
unfolding decimal
all_digits-decimal p n h = all_digits-decimal_loop p h (n + 1) n

pub decimal-ne-nil : (n : ℕ) → decimal n ≢ []
unfolding decimal
decimal-ne-nil n e =
    let start = starts-decimal_loop (n + 1) n [] (omega arith) in
    cc (append-nil (decimal_loop (n + 1) n))

-- 10 ^ (k + 1)
abbrev ten_to : ℕ → ℕ
ten_to zero = 10
ten_to (suc k) = 10 * ten_to k

length-decimal_loop : (k fuel n : ℕ) → n < ten_to k → length (decimal_loop fuel n) ≤ suc k
unfolding decimal_loop
length-decimal_loop k zero n h = omega arith
length-decimal_loop zero (suc fuel) n h = ground arith
length-decimal_loop (suc k) (suc fuel) n h =
    let rest = length-decimal_loop k fuel (n / 10) (omega arith) in
    ground (arith, rest, length-append (decimal_loop fuel (n / 10)) ((b'0' + n % 10) ∷ []))

-- An `int` has at most ten digits.
pub length-decimal : (n : ℕ) → n ≤ int_max → length (decimal n) ≤ 10
unfolding decimal
length-decimal n h = length-decimal_loop 9 (n + 1) n (omega arith)

-- `atoi` reads a printed `int` back.
pub atoi-decimal : (n : ℕ) → n ≤ int_max → atoi (decimal n) ≡ pos n
unfolding atoi
atoi-decimal n h =
    let small : n % 2 ^ 32 ≡ n = omega arith in
    let fits : leb n int_max ≡ true = ground arith in
    rw (atoi, strtol-decimal n (omega arith)) (rw small (rw fits refl))
