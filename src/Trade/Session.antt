-- ===== src/Trade/Session.antt =====
-- Final/ServerTrd.c: the sessions. `process_line` answers a line, `client_read` cuts the bytes of a
-- client into lines, and the loop of `main` accepts and reads. The log is left out.
pub mod Slots
pub mod Room
pub mod Orders
pub mod Traded
pub mod Served
pub mod Ledger
pub mod Refusals
pub mod Replies
pub mod Found
pub mod Answers
pub mod Listings
use gtu_cse344_systems_progr.Common.{
  ℕ, zero, suc, ◌+◌, ◌-◌, List, [], ◌∷◌, ◌++◌, Bool, true, false, Option, none, some, ltb, leb,
  ◌==◌, ◌&&◌, ◌||◌, not, if◌then◌else◌, length, get_elem?, set, take, drop, replicate, ◌≡◌,
}
use gtu_cse344_systems_progr.Libc.{
  Text, codes, c_string, strcmp_eq, strncmp_eq, strncpy, split_line, cut_cr, scan_word, decimal,
}
use gtu_cse344_systems_progr.Trade.Market.{
  Floats, Stock, Holding, find_stock, find_holding, add_shares, remove_shares, read_order,
  list_loop, send_price_broadcast, cmd_report, cmd_portfolio,
}

abbrev pub max_line : ℕ
max_line = 512

abbrev pub max_clients : ℕ
max_clients = 10

-- `fd` is `none` for -1; `line_buf` is the part of the buffer in use, and `portfolio` the first
-- `port_count` entries.
pub record Client : Type 0 where
  pub fd : Option ℕ
  pub username : Text
  pub type : Text
  pub line_buf : List ℕ
  pub joined : Bool
  pub portfolio : List Holding

pub record Server : Type 0 where
  pub stocks : List Stock
  pub clients : List Client
  pub client_count : ℕ

-- What is sent: a line to the client, or the prices to everyone.
pub data Message : Type 0 where
  answer broadcast : Text → Message

-- `stays` is a return of 0 and `leaves` one of -1. `overflow` is a quantity above INT_MAX; `fault` is
-- a write behind an array, or a client that is not there.
pub data Handled : Type 0 where
  stays leaves : Server → List Message → Handled
  overflow fault : Handled

abbrev pub put_client : Server → ℕ → Client → Server
put_client s idx c = record s { clients = set s.clients idx c }

abbrev pub say : Server → Text → Handled
say s t = stays s (answer t ∷ [])

-- A text that a loop wrote into an array.
abbrev pub say_listing : Server → Option Text → Handled
say_listing s none = fault
say_listing s (some t) = say s t

-- `snprintf (resp, sizeof resp, ...)`
abbrev pub resp : Text → Text
resp t = take (max_line + 64 - 1) t

abbrev pub is_member : Client → Bool
is_member c = elim c.fd [ none ↦ false | some fd ↦ c.joined ]

unfoldable pub username_taken : List Client → Text → Bool
unfolding strcmp_eq
username_taken [] name = false
username_taken (c ∷ clients) name =
    (is_member c && strcmp_eq c.username name) || username_taken clients name

-- JOIN of a client that has not joined.
unfoldable pub join : Server → ℕ → Client → Text → Handled
unfolding scan_word strcmp_eq username_taken
join s idx c args = elim (scan_word 15 args) [
  | none ↦ say s (codes "ERR UNKNOWN JOIN\n")
  | some (type_str, rest) ↦ elim (scan_word 31 rest) [
    | none ↦ say s (codes "ERR UNKNOWN JOIN\n")
    | some (uname, r) ↦
        if not (strcmp_eq type_str (codes "TRADER")) && not (strcmp_eq type_str (codes "ANALYST"))
        then say s (codes "ERR UNKNOWN JOIN\n")
        else if username_taken s.clients uname
        then say s (codes "ERR JOIN name_taken\n")
        else say
            (put_client s idx
              (record c { username = strncpy uname 31; type = strncpy type_str 15; joined = true }))
            (resp (codes "OK JOIN " ++ strncpy uname 31 ++ b'\n' ∷ []))
  ]
]

unfoldable pub members : List Client → List Text
members [] = []
members (c ∷ clients) =
    let rest = members clients in if is_member c then c.username ∷ rest else rest

unfoldable pub cmd_list : List Client → Option Text
unfolding list_loop members
cmd_list clients = list_loop 2048 b',' (codes "OK LIST ") true (members clients)

unfoldable pub cmd_price : Floats → Server → Text → Handled
unfolding scan_word find_stock
cmd_price fl s args = elim (scan_word 8 args) [
  | none ↦ say s (codes "ERR UNKNOWN_SYMBOL\n")
  | some (sym, rest) ↦ elim (find_stock s.stocks sym) [
    | none ↦ say s (codes "ERR UNKNOWN_SYMBOL\n")
    | some (i, x) ↦
        say s (resp (codes "OK PRICE " ++ x.symbol ++ 32 ∷ (fl.print x.price ++ b'\n' ∷ [])))
  ]
]

abbrev pub unknown : Server → Text → Handled
unknown s line = say s (resp (codes "ERR UNKNOWN " ++ line ++ b'\n' ∷ []))

-- The lines of an analyst.
unfoldable pub analyst : Floats → Server → Text → Handled
unfolding strncmp_eq strcmp_eq cmd_price cmd_report cmd_list
analyst fl s line =
    if strncmp_eq line (codes "PRICE ")
    then cmd_price fl s (drop 6 line)
    else if strcmp_eq line (codes "REPORT")
    then say_listing s (cmd_report fl s.stocks)
    else if strcmp_eq line (codes "LIST")
    then say_listing s (cmd_list s.clients)
    else if strncmp_eq line (codes "BUY ") || strncmp_eq line (codes "SELL ")
    then say s (codes "ERR UNAUTHORIZED\n")
    else unknown s line

abbrev pub trade_text : Floats → Text → Text → ℕ → ℕ → Text
trade_text fl word sym qty price =
    resp (word ++ sym ++ 32 ∷ (decimal qty ++ 32 ∷ (fl.print price ++ b'\n' ∷ [])))

-- The reply of a trade and the broadcast behind it.
abbrev pub traded : Floats → Server → Text → Handled
traded fl s t = elim (send_price_broadcast fl s.stocks) [
  | none ↦ fault
  | some prices ↦ stays s (answer t ∷ broadcast prices ∷ [])
]

-- BUY of `qty` of `sym`.
unfoldable pub buy : Floats → Server → ℕ → Client → Text → ℕ → Handled
unfolding find_stock add_shares send_price_broadcast
buy fl s idx c sym qty = elim (find_stock s.stocks sym) [
  | none ↦ say s (codes "ERR UNKNOWN_SYMBOL\n")
  | some (i, x) ↦
      let new_price = fl.plus_cents x.price qty in
      elim (add_shares c.portfolio sym qty) [
        | none ↦ overflow
        | some portfolio ↦
            traded fl
              (record s {
                stocks = set s.stocks i (record x { price = new_price });
                clients = set s.clients idx (record c { portfolio = portfolio });
              })
              (trade_text fl (codes "OK BUY ") sym qty new_price)
      ]
]

-- The price after a sale.
abbrev pub sold_price : Floats → ℕ → ℕ → ℕ
sold_price fl old_price qty =
    let new_price = fl.minus_cents old_price qty in
    if fl.less new_price fl.cent then fl.cent else new_price

-- SELL of `qty` of `sym`.
unfoldable pub sell : Floats → Server → ℕ → Client → Text → ℕ → Handled
unfolding find_stock find_holding remove_shares send_price_broadcast
sell fl s idx c sym qty = elim (find_stock s.stocks sym) [
  | none ↦ say s (codes "ERR UNKNOWN_SYMBOL\n")
  | some (i, x) ↦ elim (find_holding c.portfolio sym) [
    | none ↦ say s (codes "ERR INSUFFICIENT_SHARES\n")
    | some (j, h) ↦
        let new_price = sold_price fl x.price qty in
        if ltb h.qty qty
        then say s (codes "ERR INSUFFICIENT_SHARES\n")
        else traded fl
            (record s {
              stocks = set s.stocks i (record x { price = new_price });
              clients =
                  set s.clients idx (record c { portfolio = remove_shares c.portfolio j h qty });
            })
            (trade_text fl (codes "OK SELL ") sym qty new_price)
  ]
]

-- The order of a line, or the reply when there is none.
abbrev pub with_order : Server → Option (Text × ℕ) → (Text → ℕ → Handled) → Handled
with_order s none go = say s (codes "ERR UNKNOWN_SYMBOL\n")
with_order s (some (sym, qty)) go = go sym qty

-- The lines of a trader.
unfoldable pub trader : Floats → Server → ℕ → Client → Text → Handled
unfolding strncmp_eq strcmp_eq read_order buy sell cmd_portfolio
trader fl s idx c line =
    if strncmp_eq line (codes "BUY ")
    then with_order s (read_order (drop 4 line)) (buy fl s idx c)
    else if strncmp_eq line (codes "SELL ")
    then with_order s (read_order (drop 5 line)) (sell fl s idx c)
    else if strcmp_eq line (codes "PORTFOLIO")
    then say_listing s (cmd_portfolio c.portfolio)
    else if strncmp_eq line (codes "PRICE ")
        || (strcmp_eq line (codes "REPORT") || strcmp_eq line (codes "LIST"))
    then say s (codes "ERR UNAUTHORIZED\n")
    else unknown s line

-- A line of client `c`, which stands at `idx`.
unfoldable pub process_line : Floats → Server → ℕ → Client → Text → Handled
unfolding strncmp_eq strcmp_eq join analyst trader
process_line fl s idx c line =
    if strncmp_eq line (codes "JOIN ")
    then (if c.joined then say s (codes "ERR ALREADY_JOINED\n") else join s idx c (drop 5 line))
    else if not c.joined
    then say s (codes "ERR NOT_JOINED\n")
    else if strcmp_eq line (codes "QUIT")
    then leaves s (answer (codes "OK QUIT\n") ∷ [])
    else if strcmp_eq c.type (codes "ANALYST")
    then analyst fl s line
    else if strcmp_eq c.type (codes "TRADER")
    then trader fl s idx c line
    else say s (codes "ERR UNKNOWN\n")
