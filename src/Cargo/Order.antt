-- ===== src/Cargo/Order.antt =====
-- HW5/inc/order.h, HW5/src/order.c and `order_less` of HW5/src/priority_queue.c.
-- An order's `id` and `duration` are C ints that the parser has checked to be non-negative, so
-- they are numbers here. Texts are lists of bytes without the terminating NUL.
use gtu_cse344_systems_progr.Common.{
  ℕ, ◌≡◌, Bool, true, false, Option, none, some, arith, ltb, ◌==◌, not, if◌then◌else◌,
}
use gtu_cse344_systems_progr.Libc.{Text, strcmp_eq, codes}

pub data Priority : Type 0 where
  express standard economy : Priority

-- The values of the C enumeration.
abbrev pub priority_value : Priority → ℕ
priority_value express = 1
priority_value standard = 2
priority_value economy = 3

pub record Order : Type 0 where
  pub id : ℕ
  pub name : Text
  pub priority : Priority
  pub duration : ℕ

-- `none` is the return value -1.
unfoldable pub priority_from_string : Text → Option Priority
unfolding strcmp_eq
priority_from_string s =
    if strcmp_eq s (codes "EXPRESS")
    then some express
    else if strcmp_eq s (codes "STANDARD")
    then some standard
    else if strcmp_eq s (codes "ECONOMY")
    then some economy
    else none

unfoldable pub priority_to_string : Priority → Text
priority_to_string express = codes "EXPRESS"
priority_to_string standard = codes "STANDARD"
priority_to_string economy = codes "ECONOMY"

-- Is `a` served before `b`: the more urgent priority, then the smaller id.
unfoldable pub order_less : Order → Order → Bool
order_less a b =
    if not (priority_value a.priority == priority_value b.priority)
    then ltb (priority_value a.priority) (priority_value b.priority)
    else ltb a.id b.id

-- `a` need not be served after `b`.
abbrev pub Before : Order → Order → Type 0
Before a b = order_less b a ≡ false

-- The order of service is a strict weak order: `Before` is reflexive, total and transitive.
pub Before-refl : (a : Order) → Before a a
unfolding order_less
Before-refl a = ground arith

pub Before-trans : (a b c : Order) → Before a b → Before b c → Before a c
unfolding order_less
Before-trans a b c h k = ground arith

pub Before-of_less : (a b : Order) → order_less a b ≡ true → Before a b
unfolding order_less
Before-of_less a b h = ground arith
