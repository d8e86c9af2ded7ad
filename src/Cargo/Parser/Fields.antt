-- ===== src/Cargo/Parser/Fields.antt =====
-- What a line that is accepted must hold.
use gtu_cse344_systems_progr.Common.{
  ℕ, zero, suc, ◌≤◌, ◌≡◌, [], ◌∷◌, true, some, guard, length, all, ℤ, pos, negsuc, int_max, in_int,
  >>=-eq-some, eq_of_some, arith, take_all, guard-true,
}
use mathlib.Core.Path.{subst}
use gtu_cse344_systems_progr.Libc.{Text, strtok, strncpy}
use gtu_cse344_systems_progr.Cargo.Order.{Order, priority_from_string}
use gtu_cse344_systems_progr.Cargo.Parser.{
  max_name_len, name_char, is_valid_name, parse_int, non_negative, positive, delim, convert,
  parse_one_line, no_extra,
}

-- What the program relies on in an order from the input file.
pub record IsAccepted (o : Order) : Type 0 where
  pub id_int : o.id ≤ int_max
  pub name_long : 1 ≤ length o.name
  pub name_short : length o.name ≤ max_name_len
  pub name_chars : all name_char o.name ≡ true
  pub duration_int : o.duration ≤ int_max
  pub duration_positive : 1 ≤ o.duration

parse_int-in_int : (s : Text) (v : ℤ) → parse_int s ≡ some v → in_int v ≡ true
unfolding parse_int
parse_int-in_int s v e = ground arith

-- A valid name fits the buffer, so the copy is the name.
pub is_valid_name_lem :
    (s : Text)
    → is_valid_name s ≡ true
    → (1 ≤ length s)
      × (length s ≤ max_name_len)
      × (all name_char s ≡ true)
      × (strncpy s max_name_len ≡ s)
unfolding is_valid_name
is_valid_name_lem [] h = cc
is_valid_name_lem (c ∷ s) h =
    let short : length (c ∷ s) ≤ max_name_len = ground arith in
    (omega arith, short, ground arith, take_all max_name_len (c ∷ s) short)

non_negative_bound : (v : ℤ) (n : ℕ) → in_int v ≡ true → non_negative v ≡ some n → n ≤ int_max
non_negative_bound v n h e = ground arith

positive_bound : (v : ℤ) (n : ℕ) → in_int v ≡ true → positive v ≡ some n → (n ≤ int_max) × (1 ≤ n)
positive_bound (pos zero) n h e = cc
positive_bound (pos (suc k)) n h e = ground arith
positive_bound (negsuc k) n h e = cc

convert-IsAccepted : (a b c d : Text) (o : Order) → convert a b c d ≡ some o → IsAccepted o
unfolding convert
convert-IsAccepted a b c d o e =
    let (v, ev, e1) = >>=-eq-some (parse_int a) _ e in
    let (id, eid, e2) = >>=-eq-some (non_negative v) _ e1 in
    let (u, eu, e3) = >>=-eq-some (guard (is_valid_name b)) _ e2 in
    let (prio, ep, e4) = >>=-eq-some (priority_from_string c) _ e3 in
    let (w, ew, e5) = >>=-eq-some (parse_int d) _ e4 in
    let (dur, ed, e6) = >>=-eq-some (positive w) _ e5 in
    let (long, short, chars, copied) = is_valid_name_lem b (guard-true _ u eu) in
    let id_int = non_negative_bound v id (parse_int-in_int a v ev) eid in
    let (dur_int, dur_pos) = positive_bound w dur (parse_int-in_int d w ew) ed in
    let same = eq_of_some _ o e6 in
    subst IsAccepted same (record {
      id_int = id_int;
      name_long = rw copied long;
      name_short = rw copied short;
      name_chars = rw copied chars;
      duration_int = dur_int;
      duration_positive = dur_pos;
    })

-- Every order that a line gives has an id in 0 .. INT_MAX, a duration in 1 .. INT_MAX, and a name
-- of 1 to 32 letters, digits and underscores, which the copy has not cut.
pub parse_one_line-IsAccepted :
    (line : Text) (o : Order) → parse_one_line line ≡ some o → IsAccepted o
unfolding parse_one_line
parse_one_line-IsAccepted line o e =
    let ((a, s1), e0, e1) = >>=-eq-some (strtok delim line) _ e in
    let ((b, s2), f1, e2) = >>=-eq-some (strtok delim s1) _ e1 in
    let ((c, s3), f2, e3) = >>=-eq-some (strtok delim s2) _ e2 in
    let ((d, s4), f3, e4) = >>=-eq-some (strtok delim s3) _ e3 in
    let (u, f4, e5) = >>=-eq-some (no_extra (strtok delim s4)) _ e4 in
    convert-IsAccepted a b c d o e5
