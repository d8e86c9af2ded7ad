-- ===== src/Cargo/Parser/RoundTrip.antt =====
-- A line in the documented form `id name priority duration` is read back.
use gtu_cse344_systems_progr.Common.{
  ℕ, zero, suc, ◌≤◌, ◌≡◌, ◌≢◌, refl, ap, [], ◌∷◌, ◌++◌, true, some, leb, not, length, all, arith,
  pos, int_max,
}
use gtu_cse344_systems_progr.Libc.{
  Text, strtok-word, strtok-last, is_word, is_any, decimal, all_digits-decimal, decimal-ne-nil,
  strtol-decimal,
}
use gtu_cse344_systems_progr.Cargo.Order.{
  Order, Priority, express, standard, economy, priority_from_string, priority_to_string,
}
use gtu_cse344_systems_progr.Cargo.Parser.{
  max_name_len, name_char, is_valid_name, parse_int, delim, parse_one_line, positive,
}
use gtu_cse344_systems_progr.Cargo.Parser.Fields.{IsAccepted, is_valid_name_lem}

-- A line for an order.
pub order_line : Order → Text
order_line o =
    decimal o.id ++ 32 ∷ (o.name ++ 32 ∷ (priority_to_string o.priority ++ 32 ∷ decimal o.duration))

priority_from-to : (p : Priority) → priority_from_string (priority_to_string p) ≡ some p
unfolding priority_from_string priority_to_string
priority_from-to express = refl
priority_from-to standard = refl
priority_from-to economy = refl

priority-word :
    (p : Priority) → (priority_to_string p ≢ []) × (is_word delim (priority_to_string p) ≡ true)
unfolding priority_to_string
priority-word express = (cc, refl)
priority-word standard = (cc, refl)
priority-word economy = (cc, refl)

parse_int-decimal : (n : ℕ) → n ≤ int_max → parse_int (decimal n) ≡ some (pos n)
unfolding parse_int
parse_int-decimal n h =
    let read = strtol-decimal n (omega arith) in
    let fits : leb n int_max ≡ true = ground arith in ground (arith, decimal-ne-nil n)

decimal-word : (n : ℕ) → is_word delim (decimal n) ≡ true
decimal-word n = all_digits-decimal (λ c. not (is_any delim c)) n (λ d h. ground arith)

name-word : (s : Text) → all name_char s ≡ true → is_word delim s ≡ true
name-word [] h = refl
name-word (c ∷ s) h = ground (arith, name-word s)

is_valid_name-accepted : (o : Order) → IsAccepted o → is_valid_name o.name ≡ true
unfolding is_valid_name
is_valid_name-accepted o v = go o.name v.name_long v.name_short v.name_chars
  where
    go :
        (s : Text)
        → 1 ≤ length s
        → length s ≤ max_name_len
        → all name_char s ≡ true
        → is_valid_name s ≡ true
    go [] a b c = absurd (omega arith)
    go (x ∷ s) a b c = ground arith

positive-pos : (n : ℕ) → 1 ≤ n → positive (pos n) ≡ some n
positive-pos zero h = absurd (omega arith)
positive-pos (suc n) h = refl

-- A line that gives an accepted order's id, name, priority and duration, with one space between
-- them, is read back as that order.
pub parse_one_line-order_line : (o : Order) → IsAccepted o → parse_one_line (order_line o) ≡ some o
unfolding parse_one_line order_line
parse_one_line-order_line o v =
    let valid = is_valid_name-accepted o v in
    let (word, spelled) = priority-word o.priority in
    let named : o.name ≢ [] = λ e. absurd (omega (arith, ap length e, v.name_long)) in
    let name = is_valid_name_lem o.name valid in
    rw
      (
        strtok-word delim (decimal o.id) 32 _ (decimal-ne-nil o.id) (decimal-word o.id) refl,
        strtok-word delim o.name 32 _ named (name-word o.name v.name_chars) refl,
        strtok-word delim (priority_to_string o.priority) 32 _ word spelled refl,
        strtok-last delim (decimal o.duration) (decimal-ne-nil o.duration)
            (decimal-word o.duration),
        parse_int-decimal o.id v.id_int,
        valid,
        priority_from-to o.priority,
        parse_int-decimal o.duration v.duration_int,
        positive-pos o.duration v.duration_positive,
        name.3,
      )
      refl
