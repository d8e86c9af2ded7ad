-- ===== src/Trade/Session/Room.antt =====
-- The listings fit their arrays while there are at most 77 stocks. The longest `float` that `%.2f`
-- prints, -FLT_MAX, has 43 characters.
use gtu_cse344_systems_progr.Common.{
  ℕ, ◌+◌, ◌*◌, ◌≤◌, ◌<◌, ◌≡◌, ap, sym, ◌∙◌, List, [], ◌∷◌, ◌++◌, Bool, true, false, none, ltb, ◌==◌,
  map, length, length-append, All, weigh, Bool-cases, inl, inr, arith,
}
use gtu_cse344_systems_progr.Libc.{Text, codes, decimal, length-decimal, strcmp_eq, eq_of_strcmp_eq}
use gtu_cse344_systems_progr.Trade.Market.{
  Floats, Stock, Holding, list_loop, price_text, holding_text, send_price_broadcast, cmd_report,
  cmd_portfolio,
}
use gtu_cse344_systems_progr.Trade.Market.Listing.{joined, fitting, list_loop_lem}
use gtu_cse344_systems_progr.Trade.Market.Limits.{
  IsHolding, IsPortfolio, All-listed, lists, length-le,
}
use gtu_cse344_systems_progr.Trade.Session.{Client, members, is_member, cmd_list}
use gtu_cse344_systems_progr.Trade.Session.Slots.{symbols, IsClient}

abbrev pub PrintsShort : Floats → Type 0
PrintsShort fl = (p : ℕ) → length (fl.print p) ≤ 43

abbrev span : List Text → ℕ
span pieces = weigh (λ p. length p + 1) pieces

length-joined :
    (sep : ℕ) (first : Bool) (pieces : List Text) → length (joined sep first pieces) ≤ span pieces
length-joined sep first [] = omega arith
length-joined sep true (p ∷ pieces) =
    omega (arith, length-append p (joined sep false pieces), length-joined sep false pieces)
length-joined sep false (p ∷ pieces) =
    omega (arith, length-append (sep ∷ p) (joined sep false pieces), length-joined sep false pieces)

-- A listing that does not fit is long.
overflows :
    (size sep : ℕ) (head : Text) (pieces : List Text)
    → list_loop size sep head true pieces ≡ none
    → size ≤ length head + span pieces + 1
overflows size sep head pieces e =
    let t = head ++ joined sep true pieces in
    let shut : fitting size t ≡ none = sym (list_loop_lem size sep head true pieces) ∙ e in
    elim (Bool-cases (ltb (length t + 1) size)) [
      | inl fits ↦ absurd (none_fits t fits shut)
      | inr long ↦
          ground (arith, length-append head (joined sep true pieces), length-joined sep true pieces)
    ]
  where
    none_fits : (t : Text) → ltb (length t + 1) size ≡ true → fitting size t ≡ none → ⊥
    none_fits t fits shut = ground arith

module _ (fl : Floats) (narrow : PrintsShort fl) where
  span-prices :
      (stocks : List Stock)
      → All (λ t. length t ≤ 8) (symbols stocks)
      → span (map (price_text fl) stocks) ≤ 53 * length (symbols stocks)
  span-prices [] a = omega arith
  span-prices (x ∷ stocks) a = omega (
    arith,
    length-append x.symbol (b':' ∷ fl.print x.price),
    narrow x.price,
    a.0,
    span-prices stocks a.1,
  )

  pub broadcast-room :
      (stocks : List Stock)
      → All (λ t. length t ≤ 8) (symbols stocks)
      → send_price_broadcast fl stocks ≡ none
      → 77 < length (symbols stocks)
  unfolding send_price_broadcast
  broadcast-room stocks a e = omega (
    arith,
    overflows 4096 32 (codes "PRICE_UPDATE ") (map (price_text fl) stocks) e,
    span-prices stocks a,
  )

  pub report-room :
      (stocks : List Stock)
      → All (λ t. length t ≤ 8) (symbols stocks)
      → cmd_report fl stocks ≡ none
      → 77 < length (symbols stocks)
  unfolding cmd_report
  report-room stocks a e = omega (
    arith,
    overflows 4096 b',' (codes "OK REPORT ") (map (price_text fl) stocks) e,
    span-prices stocks a,
  )

short_symbol :
    (listed : List Text) (t : Text)
    → All (λ t. length t ≤ 8) listed
    → lists listed t ≡ true
    → length t ≤ 8
short_symbol [] t a e = cc
short_symbol (x ∷ listed) t a e = elim (Bool-cases (strcmp_eq t x)) [
  | inl same ↦ omega (arith, ap length (eq_of_strcmp_eq t x same), a.0)
  | inr apart ↦ short_symbol listed t a.1 (ground arith)
]

span-holdings :
    (listed : List Text) (p : List Holding)
    → All (λ t. length t ≤ 8) listed
    → All (IsHolding listed) p
    → span (map holding_text p) ≤ 20 * length p
span-holdings listed [] a h = omega arith
span-holdings listed (x ∷ p) a h = omega (
  arith,
  length-append x.symbol (b':' ∷ decimal x.qty),
  length-decimal x.qty h.0.2,
  short_symbol listed x.symbol a h.0.0,
  span-holdings listed p a h.1,
)

pub portfolio-room :
    (listed : List Text) (p : List Holding)
    → All (λ t. length t ≤ 8) listed
    → IsPortfolio listed p
    → cmd_portfolio p ≡ none
    → 77 < length listed
unfolding cmd_portfolio
portfolio-room listed p a v e = elim (Bool-cases (length p == 0)) [
  | inl empty ↦ ground arith
  | inr some_held ↦ omega (
    arith,
    overflows 2048 b',' (codes "OK PORTFOLIO ") (map holding_text p) (ground arith),
    span-holdings listed p a v.holdings,
    length-le listed p (All-listed listed p v.holdings) v.single,
  )
]

span-members :
    (listed : List Text) (clients : List Client)
    → All (IsClient listed) clients
    → span (members clients) ≤ 32 * length clients
unfolding members
span-members listed [] a = omega arith
span-members listed (c ∷ clients) a = elim (Bool-cases (is_member c)) [
  | inl m ↦ rw m (omega (arith, a.0.name, span-members listed clients a.1))
  | inr m ↦ rw m (omega (arith, span-members listed clients a.1))
]

-- LIST always fits.
pub list-room :
    (listed : List Text) (clients : List Client)
    → All (IsClient listed) clients
    → length clients ≤ 10
    → cmd_list clients ≡ none
    → ⊥
unfolding cmd_list
list-room listed clients a few e = omega (
  arith,
  overflows 2048 b',' (codes "OK LIST ") (members clients) e,
  span-members listed clients a,
)
