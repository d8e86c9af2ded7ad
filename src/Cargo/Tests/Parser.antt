-- ===== src/Cargo/Tests/Parser.antt =====
-- The parser of `HW5/src/parser.c` and the options of `HW5/src/parse_cli_args.c`.
use gtu_cse344_systems_progr.Common.{
  ℕ, ◌+◌, ◌≡◌, refl, List, [], ◌∷◌, Bool, true, some, none, arith, filter_map, length,
}
use gtu_cse344_systems_progr.Libc.{codes, strtol}
use gtu_cse344_systems_progr.Cargo.Order.{Order, express, economy}
use gtu_cse344_systems_progr.Cargo.Parser.{parse_one_line, parse_orders_file, line_order}
use gtu_cse344_systems_progr.Cargo.Parser.Fields.{IsAccepted}
use gtu_cse344_systems_progr.Cargo.Parser.RoundTrip.{order_line, parse_one_line-order_line}
use gtu_cse344_systems_progr.Cargo.Parser.Lines.{
  IsOrderList, parse_orders_file-IsOrderList, first_with_id, file_lines,
  parse_orders_file-first_with_id,
}
use gtu_cse344_systems_progr.Cargo.Options.{Opt, couriers, input, stats}

abbrev ada : Order
ada = record { id = 7; name = codes "Ada_1"; priority = express; duration = 12 }

abbrev bob : Order
bob = record { id = 3; name = codes "Bob"; priority = economy; duration = 1 }

ada-line : parse_one_line (codes "7 Ada_1  EXPRESS 12") ≡ some ada
unfolding parse_one_line strtol
ada-line = refl

-- A fifth field, a negative id, an unknown priority and a zero duration are refused.
bad_lines :
    (parse_one_line (codes "7 Ada_1 EXPRESS 12 x") ≡ none)
    × (parse_one_line (codes "-7 Ada_1 EXPRESS 12") ≡ none)
    × (parse_one_line (codes "7 Ada_1 URGENT 12") ≡ none)
    × (parse_one_line (codes "7 Ada_1 EXPRESS 0") ≡ none)
unfolding parse_one_line strtol
bad_lines = (refl, refl, refl, refl)

abbrev always : ℕ → Bool
always n = true

-- Three lines, one of which repeats an id.
abbrev sample_file : List ℕ
sample_file = codes "7 Ada_1 EXPRESS 12\n7 Eve STANDARD 2\n3 Bob ECONOMY 1\n"

sample_file_orders : parse_orders_file always (some sample_file) ≡ some (ada ∷ bob ∷ [])
unfolding parse_orders_file strtol
sample_file_orders = refl

ada-IsAccepted : IsAccepted ada
ada-IsAccepted = ground arith

parse_one_line-order_line_example : parse_one_line (order_line ada) ≡ some ada
parse_one_line-order_line_example = parse_one_line-order_line ada ada-IsAccepted

parse_orders_file-IsOrderList_example :
    (os : List Order) × (parse_orders_file always (some sample_file) ≡ some os) × IsOrderList os
parse_orders_file-IsOrderList_example = parse_orders_file-IsOrderList always sample_file refl

parse_orders_file-first_with_id_example :
    parse_orders_file always (some sample_file)
    ≡ some (first_with_id (filter_map line_order (file_lines (length sample_file + 1) sample_file)))
parse_orders_file-first_with_id_example =
    parse_orders_file-first_with_id always (λ n. refl) sample_file

-- The second `-n` counts.
abbrev sample_options : List Opt
sample_options =
    couriers (codes "2") ∷ input (codes "in") ∷ stats (codes "out") ∷ couriers (codes "3") ∷ []
