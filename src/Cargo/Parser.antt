-- ===== src/Cargo/Parser.antt =====
-- HW5/src/parser.c: the input file of orders.
-- The file is its list of bytes. `grants n` says whether `malloc` or `realloc` gives room for `n`
-- orders.
pub mod Lines
pub mod Fields
pub mod RoundTrip
use gtu_cse344_systems_progr.Common.{
  ℕ, zero, suc, ◌+◌, ◌*◌, List, [], ◌∷◌, ◌++◌, Bool, true, false, Option, none, some, leb, ltb,
  ◌==◌, ◌&&◌, ◌||◌, not, if◌then◌else◌, ◌>>=◌, ◌>>◌, guard, length, all, ℤ, pos, negsuc, int_max,
  in_int,
}
use gtu_cse344_systems_progr.Libc.{
  Text, codes, isspace, isalnum, c_string, strncpy, strtol, Strtol, fgets, strtok,
}
use gtu_cse344_systems_progr.Cargo.Order.{Order, Priority, priority_from_string}

abbrev pub max_name_len : ℕ
max_name_len = 32

abbrev pub line_buf_size : ℕ
line_buf_size = 1024

abbrev pub initial_capacity : ℕ
initial_capacity = 16

abbrev pub name_char : ℕ → Bool
name_char c = isalnum c || c == b'_'

unfoldable pub is_valid_name : Text → Bool
is_valid_name [] = false
is_valid_name (c ∷ s) = if ltb max_name_len (length (c ∷ s)) then false else all name_char (c ∷ s)

abbrev pub is_nil : Text → Bool
is_nil [] = true
is_nil (c ∷ s) = false

-- `none` is the return value -1.
unfoldable pub parse_int : Text → Option ℤ
parse_int s = do
  guard (not (is_nil s))
  v ← strtol s
  guard (is_nil v.endptr)
  guard (not v.erange)
  guard (in_int v.value)
  some v.value

-- `id < 0` and `duration <= 0` are errors.
abbrev pub non_negative : ℤ → Option ℕ
non_negative (pos n) = some n
non_negative (negsuc n) = none

abbrev pub positive : ℤ → Option ℕ
positive (pos zero) = none
positive (pos (suc n)) = some (suc n)
positive (negsuc n) = none

abbrev pub is_eol : ℕ → Bool
is_eol c = c == 10 || c == 13

-- Cuts the newlines and carriage returns at the end.
unfoldable pub rstrip_newline : Text → Text
rstrip_newline [] = []
rstrip_newline (c ∷ s) =
    let rest = rstrip_newline s in if is_nil rest && is_eol c then [] else c ∷ rest

unfoldable pub is_blank : Text → Bool
is_blank s = all isspace s

unfoldable pub has_duplicate_id : List Order → ℕ → Bool
has_duplicate_id [] id = false
has_duplicate_id (o ∷ orders) id = o.id == id || has_duplicate_id orders id

abbrev pub delim : Text
delim = codes " \t"

-- The conversion of the four tokens.
unfoldable pub convert : Text → Text → Text → Text → Option Order
unfolding parse_int is_valid_name priority_from_string
convert tok_id tok_name tok_priority tok_duration = do
  v ← parse_int tok_id
  id ← non_negative v
  guard (is_valid_name tok_name)
  prio ← priority_from_string tok_priority
  w ← parse_int tok_duration
  duration ← positive w
  some (record {
    id = id;
    name = strncpy tok_name max_name_len;
    priority = prio;
    duration = duration;
  })

-- A fifth token is an error.
abbrev pub no_extra : Option (Text × Text) → Option (Unit {0})
no_extra none = some tt
no_extra (some t) = none

-- `none` is the return value -1.
unfoldable pub parse_one_line : Text → Option Order
unfolding convert strtok
parse_one_line line = do
  (tok_id, s1) ← strtok delim line
  (tok_name, s2) ← strtok delim s1
  (tok_priority, s3) ← strtok delim s2
  (tok_duration, s4) ← strtok delim s3
  no_extra (strtok delim s4)
  convert tok_id tok_name tok_priority tok_duration

-- One round of the loop up to the duplicate check: the order that the line adds.
pub line_order : List ℕ → Option Order
line_order raw =
    let line = rstrip_newline (c_string raw) in if is_blank line then none else parse_one_line line

abbrev pub new_order : List Order → Option Order → Option Order
new_order orders none = none
new_order orders (some o) = if has_duplicate_id orders o.id then none else some o

-- The end of a round, with room for the order or with the attempt to double the array; `next` is
-- the rest of the loop.
pub add_order :
    (ℕ → Bool)
    → (List Order → ℕ → Option (List Order))
    → List Order
    → ℕ
    → Option Order
    → Option (List Order)
add_order grants next orders capacity none = next orders capacity
add_order grants next orders capacity (some o) = elim (length orders == capacity) [
  | false ↦ next (orders ++ o ∷ []) capacity
  | true ↦ elim (grants (capacity * 2)) [
    | true ↦ next (orders ++ o ∷ []) (capacity * 2)
    | false ↦ some orders
  ]
]

pub parse_loop : ℕ → (ℕ → Bool) → List ℕ → List Order → ℕ → Option (List Order)
parse_loop zero grants file orders capacity = none
parse_loop (suc fuel) grants file orders capacity = elim (fgets line_buf_size file) [
  | none ↦ some orders
  | some (raw, rest) ↦
      add_order grants (parse_loop fuel grants rest) orders capacity
        (new_order orders (line_order raw))
]

-- `file` is `none` if `fopen` fails. `none` is the return value -1, or
-- the end of the model's fuel.
unfoldable pub parse_orders_file : (ℕ → Bool) → Option (List ℕ) → Option (List Order)
unfolding parse_loop add_order line_order rstrip_newline is_blank has_duplicate_id parse_one_line
    c_string fgets
parse_orders_file grants none = none
parse_orders_file grants (some bytes) =
    if grants initial_capacity
    then parse_loop (length bytes + 1) grants bytes [] initial_capacity
    else none
