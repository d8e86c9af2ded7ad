-- ===== src/Trade/Session/Refusals.antt =====
-- The lines that are refused, each with the reason and the error.
use gtu_cse344_systems_progr.Common.{
  Bool, ℕ, ◌<◌, ◌≡◌, ◌≢◌, sym, List, [], ◌∷◌, ◌++◌, true, false, none, some, ◌||◌, get_elem?, drop,
}
use gtu_cse344_systems_progr.Libc.{Text, codes, strcmp_eq, strncmp_eq, scan_word}
use gtu_cse344_systems_progr.Trade.Market.{Stock, Holding, find_holding, read_order}
use gtu_cse344_systems_progr.Trade.Session.{Client, Server, resp, username_taken}

abbrev pub IsTrader : Client → Type 0
IsTrader c = (c.joined ≡ true) × (strcmp_eq c.type (codes "TRADER") ≡ true)

abbrev pub IsAnalyst : Client → Type 0
IsAnalyst c = (c.joined ≡ true) × (strcmp_eq c.type (codes "ANALYST") ≡ true)

abbrev pub IsListed : List Stock → Text → ℕ → Stock → Type 0
IsListed stocks sym i x = (get_elem? stocks i ≡ some x) × (x.symbol ≡ sym)

-- The lines of a trader that order `q` of `sym`.
pub data Orders (line : Text) : Text → Text → ℕ → Type 0 where
  buys :
      (sym : Text) (q : ℕ)
      → strncmp_eq line (codes "BUY ") ≡ true
      → read_order (drop 4 line) ≡ some (sym, q)
      → Orders line (codes "OK BUY ") sym q
  sells :
      (sym : Text) (q : ℕ)
      → strncmp_eq line (codes "SELL ") ≡ true
      → read_order (drop 5 line) ≡ some (sym, q)
      → Orders line (codes "OK SELL ") sym q

-- The symbol that PRICE of an analyst or an order of a trader names.
pub data Names (c : Client) (line : Text) : Text → Type 0 where
  by_price :
      (sym rest : Text)
      → IsAnalyst c
      → strncmp_eq line (codes "PRICE ") ≡ true
      → scan_word 8 (drop 6 line) ≡ some (sym, rest)
      → Names c line sym
  by_order : (word sym : Text) (q : ℕ) → IsTrader c → Orders line word sym q → Names c line sym

-- The lines without a symbol, or with an order that is not one.
pub data NamesNone (c : Client) (line : Text) : Type 0 where
  no_price :
      IsAnalyst c
      → strncmp_eq line (codes "PRICE ") ≡ true
      → scan_word 8 (drop 6 line) ≡ none
      → NamesNone c line
  no_purchase :
      IsTrader c
      → strncmp_eq line (codes "BUY ") ≡ true
      → read_order (drop 4 line) ≡ none
      → NamesNone c line
  no_sale :
      IsTrader c
      → strncmp_eq line (codes "SELL ") ≡ true
      → read_order (drop 5 line) ≡ none
      → NamesNone c line

-- The lines that are JOIN without a known role and a name.
pub data IsBadJoin (line : Text) : Type 0 where
  role_missing : scan_word 15 (drop 5 line) ≡ none → IsBadJoin line
  name_missing :
      (type rest : Text)
      → scan_word 15 (drop 5 line) ≡ some (type, rest)
      → scan_word 31 rest ≡ none
      → IsBadJoin line
  role_unknown :
      (type rest : Text)
      → scan_word 15 (drop 5 line) ≡ some (type, rest)
      → strcmp_eq type (codes "TRADER") ≡ false
      → strcmp_eq type (codes "ANALYST") ≡ false
      → IsBadJoin line

-- The lines for an analyst and those for a trader.
abbrev pub is_for_analysts : Text → Bool
is_for_analysts line =
    strncmp_eq line (codes "PRICE ")
    || (strcmp_eq line (codes "REPORT") || strcmp_eq line (codes "LIST"))

abbrev pub is_order : Text → Bool
is_order line = strncmp_eq line (codes "BUY ") || strncmp_eq line (codes "SELL ")

-- The shares of the first entry of a symbol.
abbrev pub first_held : List Holding → Text → ℕ
first_held p sym = elim (find_holding p sym) [ none ↦ 0 | some (i, h) ↦ h.qty ]

-- The errors, with the reasons for them.
pub data Refusal (s : Server) (c : Client) (line : Text) : Text → Type 0 where
  already_joined :
      c.joined ≡ true
      → strncmp_eq line (codes "JOIN ") ≡ true
      → Refusal s c line (codes "ERR ALREADY_JOINED\n")
  not_joined :
      c.joined ≡ false
      → strncmp_eq line (codes "JOIN ") ≡ false
      → Refusal s c line (codes "ERR NOT_JOINED\n")
  not_a_join :
      c.joined ≡ false
      → strncmp_eq line (codes "JOIN ") ≡ true
      → IsBadJoin line
      → Refusal s c line (codes "ERR UNKNOWN JOIN\n")
  name_taken :
      (type name rest r : Text)
      → c.joined ≡ false
      → scan_word 15 (drop 5 line) ≡ some (type, rest)
      → scan_word 31 rest ≡ some (name, r)
      → username_taken s.clients name ≡ true
      → Refusal s c line (codes "ERR JOIN name_taken\n")
  no_symbol : NamesNone c line → Refusal s c line (codes "ERR UNKNOWN_SYMBOL\n")
  not_listed :
      (sym : Text)
      → Names c line sym
      → ((i : ℕ) (x : Stock) → get_elem? s.stocks i ≡ some x → x.symbol ≢ sym)
      → Refusal s c line (codes "ERR UNKNOWN_SYMBOL\n")
  too_few :
      (sym : Text) (q : ℕ)
      → IsTrader c
      → Orders line (codes "OK SELL ") sym q
      → first_held c.portfolio sym < q
      → Refusal s c line (codes "ERR INSUFFICIENT_SHARES\n")
  not_for_analysts :
      IsAnalyst c → is_order line ≡ true → Refusal s c line (codes "ERR UNAUTHORIZED\n")
  not_for_traders :
      IsTrader c → is_for_analysts line ≡ true → Refusal s c line (codes "ERR UNAUTHORIZED\n")
  not_known :
      c.joined ≡ true
      → is_order line ≡ false
      → is_for_analysts line ≡ false
      → Refusal s c line (resp (codes "ERR UNKNOWN " ++ line ++ b'\n' ∷ []))
  no_role :
      c.joined ≡ true
      → strcmp_eq c.type (codes "TRADER") ≡ false
      → strcmp_eq c.type (codes "ANALYST") ≡ false
      → Refusal s c line (codes "ERR UNKNOWN\n")
