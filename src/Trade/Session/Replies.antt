-- ===== src/Trade/Session/Replies.antt =====
-- How a line of a client is answered.
use gtu_cse344_systems_progr.Common.{
  ℕ, take, ◌+◌, ◌<◌, ◌≡◌, List, [], ◌∷◌, ◌++◌, true, false, Option, none, some, ◌||◌, set, drop,
  map, int_max,
}
use gtu_cse344_systems_progr.Libc.{Text, codes, strcmp_eq, strncmp_eq, scan_word, decimal}
use gtu_cse344_systems_progr.Trade.Market.{Floats, Stock, Holding, price_text, holding_text}
use gtu_cse344_systems_progr.Trade.Market.Listing.{joined, fitting}
use gtu_cse344_systems_progr.Trade.Market.Portfolio.{held}
use gtu_cse344_systems_progr.Trade.Session.{
  Client, Server, answer, broadcast, Handled, stays, leaves, overflow, fault, put_client, resp,
  members, username_taken,
}
use gtu_cse344_systems_progr.Trade.Session.Refusals.{IsTrader, IsAnalyst, IsListed, Orders, Refusal}

-- The lines that ask for a list, and the whole list if it fits its array.
pub data Asks (fl : Floats) (s : Server) (c : Client) (line : Text) : Option Text → Type 0 where
  report :
      IsAnalyst c
      → strcmp_eq line (codes "REPORT") ≡ true
      → Asks fl s c line
          (fitting 4096 (codes "OK REPORT " ++ joined b',' true (map (price_text fl) s.stocks)))
  list :
      IsAnalyst c
      → strcmp_eq line (codes "LIST") ≡ true
      → Asks fl s c line (fitting 2048 (codes "OK LIST " ++ joined b',' true (members s.clients)))
  empty :
      IsTrader c
      → strcmp_eq line (codes "PORTFOLIO") ≡ true
      → c.portfolio ≡ []
      → Asks fl s c line (some (codes "OK PORTFOLIO EMPTY\n"))
  portfolio :
      IsTrader c
      → strcmp_eq line (codes "PORTFOLIO") ≡ true
      → Asks fl s c line
          (fitting 2048 (codes "OK PORTFOLIO " ++ joined b',' true (map holding_text c.portfolio)))

-- The list of the prices once stock `x` at `i` costs `price`.
abbrev pub new_prices : Floats → Server → ℕ → Stock → ℕ → Option Text
new_prices fl s i x price = fitting 4096 (
    codes "PRICE_UPDATE "
    ++ joined 32 true (map (price_text fl) (set s.stocks i (record x { price = price }))))

-- How a line of client `c` at `idx` may be answered.
pub data Answered (fl : Floats) (s : Server) (idx : ℕ) (c : Client) (line : Text)
    : Handled → Type 0 where
  refused : (a : Text) → Refusal s c line a → Answered fl s idx c line (stays s (answer a ∷ []))
  priced :
      (sym rest : Text) (i : ℕ) (x : Stock)
      → IsAnalyst c
      → strncmp_eq line (codes "PRICE ") ≡ true
      → scan_word 8 (drop 6 line) ≡ some (sym, rest)
      → IsListed s.stocks sym i x
      → Answered fl s idx c line (
          stays s (
            answer (resp (codes "OK PRICE " ++ x.symbol ++ 32 ∷ (fl.print x.price ++ b'\n' ∷ [])))
            ∷ []))
  listed :
      (m : Option Text) (a : Text)
      → Asks fl s c line m
      → m ≡ some a
      → Answered fl s idx c line (stays s (answer a ∷ []))
  joins :
      (type name rest r : Text)
      → c.joined ≡ false
      → strncmp_eq line (codes "JOIN ") ≡ true
      → scan_word 15 (drop 5 line) ≡ some (type, rest)
      → scan_word 31 rest ≡ some (name, r)
      → (strcmp_eq type (codes "TRADER") || strcmp_eq type (codes "ANALYST")) ≡ true
      → username_taken s.clients name ≡ false
      → Answered fl s idx c line (
          stays
            (put_client s idx
              (record c { username = take 31 name; type = take 15 type; joined = true }))
            (answer (resp (codes "OK JOIN " ++ take 31 name ++ b'\n' ∷ [])) ∷ []))
  trades :
      (word sym : Text) (q i price : ℕ) (x : Stock) (p : List Holding) (prices : Text)
      → IsTrader c
      → Orders line word sym q
      → IsListed s.stocks sym i x
      → new_prices fl s i x price ≡ some prices
      → Answered fl s idx c line (
          stays
            (record s {
              stocks = set s.stocks i (record x { price = price });
              clients = set s.clients idx (record c { portfolio = p });
            })
            (answer (resp (word ++ sym ++ 32 ∷ (decimal q ++ 32 ∷ (fl.print price ++ b'\n' ∷ []))))
              ∷ broadcast prices
              ∷ []))
  quits :
      c.joined ≡ true
      → strcmp_eq line (codes "QUIT") ≡ true
      → Answered fl s idx c line (leaves s (answer (codes "OK QUIT\n") ∷ []))
  overflows :
      (sym : Text) (q : ℕ)
      → IsTrader c
      → Orders line (codes "OK BUY ") sym q
      → int_max < held sym c.portfolio + q
      → Answered fl s idx c line overflow
  list_too_long : (m : Option Text) → Asks fl s c line m → m ≡ none → Answered fl s idx c line fault
  prices_too_long :
      (word sym : Text) (q i price : ℕ) (x : Stock)
      → IsTrader c
      → Orders line word sym q
      → IsListed s.stocks sym i x
      → new_prices fl s i x price ≡ none
      → Answered fl s idx c line fault
