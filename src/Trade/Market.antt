-- ===== src/Trade/Market.antt =====
-- Final/ServerTrd.c: the stocks, the portfolio of a client, and the texts that list them.
pub mod Listing
pub mod Portfolio
pub mod Limits
use gtu_cse344_systems_progr.Common.{
  ℕ, zero, suc, ◌+◌, ◌-◌, List, [], ◌∷◌, ◌++◌, Bool, true, false, Option, none, some, ltb, leb,
  ◌==◌, ◌&&◌, ◌||◌, not, if◌then◌else◌, ◌>>=◌, length, get_or, set, take, all, map, ℤ, pos, negsuc,
  int_max,
}
use gtu_cse344_systems_progr.Libc.{
  Text, codes, c_string, is_digit, strcmp_eq, strncpy, fgets, scan_word, scan_int, decimal,
}

abbrev pub max_stocks : ℕ
max_stocks = 128

abbrev pub symbol_len : ℕ
symbol_len = 9

-- The arithmetic of `float`, which the hardware does. A `float` is its bit pattern.
pub record Floats : Type 0 where
  -- `p + qty * 0.01f` and `p - qty * 0.01f`
  pub plus_cents : ℕ → ℕ → ℕ
  pub minus_cents : ℕ → ℕ → ℕ
  -- `a < b`
  pub less : ℕ → ℕ → Bool
  -- `p <= 0.0f`
  pub at_most_zero : ℕ → Bool
  -- `0.01f`
  pub cent : ℕ
  -- `%f` of `sscanf` and `%.2f` of `snprintf`
  pub scan : Text → Option ℕ
  pub print : ℕ → Text

-- `stock_t` and `holding_t`
pub record Stock : Type 0 where
  pub symbol : Text
  pub price : ℕ

pub record Holding : Type 0 where
  pub symbol : Text
  pub qty : ℕ

abbrev pub is_symbol_char : ℕ → Bool
is_symbol_char c = (leb b'A' c && leb c b'Z') || is_digit c

-- The stock that a line of the file gives; `none` is one of the `continue`s.
unfoldable pub stock_of_line : Floats → Text → Option Stock
unfolding scan_word
stock_of_line fl line = elim (scan_word 8 line) [
  | none ↦ none
  | some (sym, rest) ↦ elim (fl.scan rest) [
    | none ↦ none
    | some price ↦
        if fl.at_most_zero price
        then none
        else if all is_symbol_char sym
        then some (record { symbol = strncpy sym (symbol_len - 1); price = price })
        else none
  ]
]

-- The loop of `load_stocks` over the rest of the file.
unfoldable pub load_loop : Floats → ℕ → List ℕ → List Stock → Option (List Stock)
unfolding fgets c_string stock_of_line
load_loop fl zero file stocks = none
load_loop fl (suc fuel) file stocks = elim (fgets 256 file) [
  | none ↦ some stocks
  | some (line, rest) ↦ elim (stock_of_line fl (c_string line)) [
    | none ↦ load_loop fl fuel rest stocks
    | some x ↦
        let next = load_loop fl fuel rest (stocks ++ x ∷ []) in
        if leb max_stocks (length stocks) then some stocks else next
  ]
]

-- `load_stocks`, over the bytes of the file.
unfoldable pub load_stocks : Floats → List ℕ → Option (List Stock)
unfolding load_loop
load_stocks fl file = load_loop fl (length file + 1) file []

-- The pointer to the first stock of that symbol, as its index and what it points to.
unfoldable pub find_stock : List Stock → Text → Option (ℕ × Stock)
unfolding strcmp_eq
find_stock [] symbol = none
find_stock (x ∷ stocks) symbol = elim (strcmp_eq x.symbol symbol) [
  | true ↦ some (0, x)
  | false ↦ elim (find_stock stocks symbol) [ none ↦ none | some (i, y) ↦ some (suc i, y) ]
]

-- The loop over the portfolio in BUY and in SELL.
unfoldable pub find_holding : List Holding → Text → Option (ℕ × Holding)
unfolding strcmp_eq
find_holding [] symbol = none
find_holding (h ∷ portfolio) symbol = elim (strcmp_eq h.symbol symbol) [
  | true ↦ some (0, h)
  | false ↦ elim (find_holding portfolio symbol) [ none ↦ none | some (i, k) ↦ some (suc i, k) ]
]

-- `none` is a quantity above INT_MAX.
unfoldable pub add_shares : List Holding → Text → ℕ → Option (List Holding)
unfolding find_holding
add_shares portfolio sym qty = elim (find_holding portfolio sym) [
  | some (i, h) ↦
      if leb (h.qty + qty) int_max
      then some (set portfolio i (record h { qty = h.qty + qty }))
      else none
  | none ↦ some (
      if ltb (length portfolio) max_stocks
      then portfolio ++ record { symbol = strncpy sym (symbol_len - 1); qty = qty } ∷ []
      else portfolio)
]

-- `c->portfolio[port_idx].qty -= qty`; an entry of 0 is overwritten by the last one.
unfoldable pub remove_shares : List Holding → ℕ → Holding → ℕ → List Holding
remove_shares portfolio i h qty =
    let less = record h { qty = h.qty - qty } in
    let left = set portfolio i less in
    if h.qty - qty == 0
    then take (length portfolio - 1) (set left i (get_or left (length portfolio - 1) less))
    else left

abbrev pub positive : ℤ → Option ℕ
positive (pos n) = if n == 0 then none else some n
positive (negsuc n) = none

-- `sscanf (args, "%8s %d", sym, &qty) == 2 && qty > 0`
unfoldable pub read_order : Text → Option (Text × ℕ)
unfolding scan_word scan_int
read_order args = do
  (sym, rest) ← scan_word 8 args
  v ← scan_int rest
  qty ← positive v
  some (sym, qty)

-- The loop that writes pieces into `char buf[size]` with a separator between them. `buf` is the text
-- that `off` counts; `none` is a write behind the array, as by `snprintf` when `size - off` is below 0.
unfoldable pub list_loop : ℕ → ℕ → Text → Bool → List Text → Option Text
list_loop size sep buf first [] =
    if ltb (length buf + 1) size then some (buf ++ b'\n' ∷ []) else none
list_loop size sep buf first (p ∷ pieces) =
    let start = if first then buf else buf ++ sep ∷ [] in
    let rest = list_loop size sep (start ++ p) false pieces in
    if leb (length start) size then rest else none

abbrev pub price_text : Floats → Stock → Text
price_text fl x = x.symbol ++ b':' ∷ fl.print x.price

abbrev pub holding_text : Holding → Text
holding_text h = h.symbol ++ b':' ∷ decimal h.qty

-- What `send_price_broadcast` sends; the socket is open while clients are served.
unfoldable pub send_price_broadcast : Floats → List Stock → Option Text
unfolding list_loop
send_price_broadcast fl stocks =
    list_loop 4096 32 (codes "PRICE_UPDATE ") true (map (price_text fl) stocks)

unfoldable pub cmd_report : Floats → List Stock → Option Text
unfolding list_loop
cmd_report fl stocks = list_loop 4096 b',' (codes "OK REPORT ") true (map (price_text fl) stocks)

unfoldable pub cmd_portfolio : List Holding → Option Text
unfolding list_loop
cmd_portfolio portfolio =
    if length portfolio == 0
    then some (codes "OK PORTFOLIO EMPTY\n")
    else list_loop 2048 b',' (codes "OK PORTFOLIO ") true (map holding_text portfolio)
