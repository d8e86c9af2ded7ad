-- ===== src/Cargo/Options.antt =====
-- HW5/src/parse_cli_args.c. `getopt` with the options ":n:i:s:" is given by the list of what it
-- returns, and by whether an argument that is no option is left.
use gtu_cse344_systems_progr.Common.{
  ℕ, ◌≤◌, ◌≡◌, ◌∙◌, refl, sym, List, [], ◌∷◌, Bool, false, Option, none, some, arith, ltb,
  if◌then◌else◌, ◌>>=◌, ◌>>◌, guard, not, ℤ, pos, negsuc, int_max, Option-cases, inl, inr, ◌||◌,
}
use gtu_cse344_systems_progr.Libc.{Text, strtol}
use gtu_cse344_systems_progr.Cargo.Parser.{is_nil}

pub data Opt : Type 0 where
  couriers : Text → Opt
  input : Text → Opt
  stats : Text → Opt
  no_argument unknown : Opt

-- v < 1 || v > INT_MAX
abbrev pub positive_int : ℤ → Option ℕ
positive_int (pos n) = if ltb n 1 then none else if ltb int_max n then none else some n
positive_int (negsuc n) = none

-- `none` is the return value -1.
unfoldable pub parse_positive_int : Text → Option ℕ
parse_positive_int s = do
  guard (not (is_nil s))
  v ← strtol s
  guard (is_nil v.endptr)
  positive_int v.value

-- The three output parameters; 0 and NULL stand for an option that was not given.
pub record Options : Type 0 where
  pub num_couriers : ℕ
  pub input_path : Option Text
  pub stats_path : Option Text

pub set_option : Opt → Options → Option Options
set_option (couriers s) o = elim (parse_positive_int s) [
  | none ↦ none
  | some n ↦ some (record o { num_couriers = n })
]
set_option (input s) o = some (record o { input_path = some s })
set_option (stats s) o = some (record o { stats_path = some s })
set_option no_argument o = none
set_option unknown o = none

-- The `getopt` loop; `none` is the return value -1.
pub read_options : List Opt → Options → Option Options
read_options [] o = some o
read_options (x ∷ xs) o = elim (set_option x o) [ none ↦ none | some o' ↦ read_options xs o' ]

-- The couriers and the two paths, if all three options are there and nothing else is.
abbrev pub check_options : Options → Bool → Option (ℕ × Text × Text)
check_options o extra = elim o.input_path [
  | none ↦ none
  | some i ↦ elim o.stats_path [
    | none ↦ none
    | some s ↦ if ltb o.num_couriers 1 || extra then none else some (o.num_couriers, i, s)
  ]
]

unfoldable pub parse_cli_args : List Opt → Bool → Option (ℕ × Text × Text)
unfolding read_options set_option parse_positive_int
parse_cli_args opts extra =
    elim (read_options opts (record { num_couriers = 0; input_path = none; stats_path = none })) [
      | none ↦ none
      | some o ↦ check_options o extra
    ]

-- The argument of the last option of a kind, behind the default `d`.
abbrev pub last_couriers : List Opt → Option Text → Option Text
last_couriers [] d = d
last_couriers (couriers s ∷ xs) d = last_couriers xs (some s)
last_couriers (x ∷ xs) d = last_couriers xs d

abbrev pub last_input : List Opt → Option Text → Option Text
last_input [] d = d
last_input (input s ∷ xs) d = last_input xs (some s)
last_input (x ∷ xs) d = last_input xs d

abbrev pub last_stats : List Opt → Option Text → Option Text
last_stats [] d = d
last_stats (stats s ∷ xs) d = last_stats xs (some s)
last_stats (x ∷ xs) d = last_stats xs d

-- The number of couriers that an optional argument stands for: 0 without one.
abbrev pub number_of : Option Text → Option ℕ
number_of none = some 0
number_of (some s) = parse_positive_int s

read_options-last :
    (xs : List Opt) (o r : Options) (d : Option Text)
    → number_of d ≡ some o.num_couriers
    → read_options xs o ≡ some r
    → (number_of (last_couriers xs d) ≡ some r.num_couriers)
      × (r.input_path ≡ last_input xs o.input_path)
      × (r.stats_path ≡ last_stats xs o.stats_path)
unfolding read_options set_option
read_options-last [] o r d h e = ground arith
read_options-last (couriers s ∷ xs) o r d h e = elim (Option-cases (parse_positive_int s)) [
  | inl bad ↦ absurd (cc (rw (bad, set_option, read_options) at e))
  | inr (n, good) ↦
      read_options-last xs (record o { num_couriers = n }) r (some s) good
        (rw (good, set_option, read_options) at e)
]
read_options-last (input s ∷ xs) o r d h e =
    read_options-last xs (record o { input_path = some s }) r d h e
read_options-last (stats s ∷ xs) o r d h e =
    read_options-last xs (record o { stats_path = some s }) r d h e
read_options-last (no_argument ∷ xs) o r d h e = cc
read_options-last (unknown ∷ xs) o r d h e = cc

parse_positive_int_bounds :
    (s : Text) (n : ℕ) → parse_positive_int s ≡ some n → (1 ≤ n) × (n ≤ int_max)
unfolding parse_positive_int
parse_positive_int_bounds s n e = ground arith

check_options-some :
    (o : Options) (extra : Bool) (n : ℕ) (i s : Text)
    → check_options o extra ≡ some (n, i, s)
    → (o.num_couriers ≡ n)
      × (o.input_path ≡ some i)
      × (o.stats_path ≡ some s)
      × (1 ≤ n)
      × (extra ≡ false)
check_options-some o extra n i s e = ground arith

number_of_bound : (d : Option Text) (n : ℕ) → number_of d ≡ some n → 1 ≤ n → n ≤ int_max
number_of_bound none n e h = absurd (ground arith)
number_of_bound (some s) n e h = (parse_positive_int_bounds s n e).1

abbrev no_options : Options
no_options = record { num_couriers = 0; input_path = none; stats_path = none }

-- The options are accepted only with a number of couriers in 1 .. INT_MAX and both paths, and with
-- nothing behind them; of an option that is given twice the last argument counts.
pub parse_cli_args-last :
    (opts : List Opt) (extra : Bool) (n : ℕ) (i s : Text)
    → parse_cli_args opts extra ≡ some (n, i, s)
    → (number_of (last_couriers opts none) ≡ some n)
      × (last_input opts none ≡ some i)
      × (last_stats opts none ≡ some s)
      × (1 ≤ n)
      × (n ≤ int_max)
      × (extra ≡ false)
unfolding parse_cli_args
parse_cli_args-last opts extra n i s e = elim (Option-cases (read_options opts no_options)) [
  | inl bad ↦ absurd (cc (rw (bad, parse_cli_args) at e))
  | inr (o, good) ↦
      let (couriers_ok, input_ok, stats_ok) = read_options-last opts no_options o none refl good in
      let (num, i_ok, s_ok, some_couriers, no_extra) =
        check_options-some o extra n i s (rw (good, parse_cli_args) at e) in
      let number = rw num at couriers_ok in
      (
        number,
        sym input_ok ∙ i_ok,
        sym stats_ok ∙ s_ok,
        some_couriers,
        number_of_bound (last_couriers opts none) n number some_couriers,
        no_extra,
      )
]
