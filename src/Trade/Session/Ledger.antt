-- ===== src/Trade/Session/Ledger.antt =====
-- What BUY and SELL do to the shares and the prices.
use gtu_cse344_systems_progr.Common.{
  ℕ, ◌+◌, ◌≤◌, ◌<◌, ◌≡◌, refl, ap, sym, List, [], ◌∷◌, none, some, ltb, length, get_elem?, set,
  if-split, Bool-cases, Option-cases, inl, inr, arith, int_max,
}
use gtu_cse344_systems_progr.Libc.{Text, codes, strcmp_eq}
use gtu_cse344_systems_progr.Trade.Market.{
  Floats, Stock, Holding, find_stock, find_holding, add_shares, send_price_broadcast,
}
use gtu_cse344_systems_progr.Trade.Market.Portfolio.{
  under, held, entries, find_holding-found, find_holding-none, held-add_shares, held-remove_shares,
}
use gtu_cse344_systems_progr.Trade.Market.Limits.{room-new}
use gtu_cse344_systems_progr.Trade.Session.{
  Client, Server, answer, broadcast, Handled, stays, overflow, fault, say, trade_text, traded, buy,
  sold_price, sell,
}
use gtu_cse344_systems_progr.Trade.Session.Slots.{symbols, IsServer, old-IsClient, find_stock-found}

-- The entry that is found has all the shares of its symbol.
held-found :
    (p : List Holding) (t : Text) (i : ℕ) (h : Holding)
    → find_holding p t ≡ some (i, h)
    → entries t p ≤ 1
    → held t p ≡ h.qty
unfolding find_holding
held-found [] t i h e one = cc
held-found (x ∷ p) t i h e one = elim (Bool-cases (strcmp_eq x.symbol t)) [
  | inl here ↦
      let same : x ≡ h = ground arith in
      let none_else : entries t p ≡ 0 = ground arith in
      rw here (omega (arith, held-empty p none_else, ap (λ z. z.qty) same))
  | inr there ↦ elim (Option-cases (find_holding p t)) [
    | inl n ↦ ground arith
    | inr ((k, y), found) ↦
        let same : y ≡ h = ground arith in
        rw there (omega (arith, held-found p t k y found (ground arith), ap (λ z. z.qty) same))
  ]
]
  where
    held-empty : (q : List Holding) → entries t q ≡ 0 → held t q ≡ 0
    held-empty [] e = refl
    held-empty (z ∷ q) e = ground (arith, held-empty q)

-- A purchase is refused for nothing but its size.
add_shares-none :
    (p : List Holding) (t : Text) (q : ℕ)
    → add_shares p t q ≡ none
    → entries t p ≤ 1
    → int_max < held t p + q
unfolding add_shares
add_shares-none p t q e one = elim (Option-cases (find_holding p t)) [
  | inl n ↦ ground arith
  | inr ((i, h), found) ↦ ground (arith, held-found p t i h found one)
]

-- The server after a trade.
abbrev pub after_trade : Server → ℕ → Client → ℕ → Stock → ℕ → List Holding → Server
after_trade s idx c i x price p = record s {
  stocks = set s.stocks i (record x { price = price });
  clients = set s.clients idx (record c { portfolio = p });
}

-- How a trade of stock `x` at `i` ends: it is answered and the prices are sent, or their list is too
-- long. `moves` is what it does to the shares.
pub data Trades (fl : Floats) (s : Server) (idx : ℕ) (c : Client) (price : ℕ) (word sym : Text)
    (q : ℕ) (moves : List Holding → Type 0) (i : ℕ) (x : Stock) : Handled → Type 0 where
  done :
      (p : List Holding) (prices : Text)
      → moves p
      → send_price_broadcast fl (set s.stocks i (record x { price = price })) ≡ some prices
      → Trades fl s idx c price word sym q moves i x (
          stays
            (after_trade s idx c i x price p)
            (answer (trade_text fl word sym q price) ∷ broadcast prices ∷ []))
  too_long :
      send_price_broadcast fl (set s.stocks i (record x { price = price })) ≡ none
      → Trades fl s idx c price word sym q moves i x fault

pub data Bought (fl : Floats) (s : Server) (idx : ℕ) (c : Client) (sym : Text) (q : ℕ)
    : Handled → Type 0 where
  not_listed :
      find_stock s.stocks sym ≡ none
      → Bought fl s idx c sym q (say s (codes "ERR UNKNOWN_SYMBOL\n"))
  too_many : int_max < held sym c.portfolio + q → Bought fl s idx c sym q overflow
  bought :
      (i : ℕ) (x : Stock) (h : Handled)
      → find_stock s.stocks sym ≡ some (i, x)
      → Trades fl s idx c
          (fl.plus_cents x.price q)
          (codes "OK BUY ")
          sym
          q
          (λ p. (t : Text) → held t p ≡ held t c.portfolio + under sym t q)
          i
          x
          h
      → Bought fl s idx c sym q h

pub data Sold (fl : Floats) (s : Server) (idx : ℕ) (c : Client) (sym : Text) (q : ℕ)
    : Handled → Type 0 where
  not_listed :
      find_stock s.stocks sym ≡ none → Sold fl s idx c sym q (say s (codes "ERR UNKNOWN_SYMBOL\n"))
  too_few :
      held sym c.portfolio < q → Sold fl s idx c sym q (say s (codes "ERR INSUFFICIENT_SHARES\n"))
  sold :
      (i : ℕ) (x : Stock) (h : Handled)
      → find_stock s.stocks sym ≡ some (i, x)
      → q ≤ held sym c.portfolio
      → Trades fl s idx c
          (sold_price fl x.price q)
          (codes "OK SELL ")
          sym
          q
          (λ p. (t : Text) → held t p + under sym t q ≡ held t c.portfolio)
          i
          x
          h
      → Sold fl s idx c sym q h

module _ (fl : Floats) (s : Server) (idx : ℕ) (c : Client)
    (client : get_elem? s.clients idx ≡ some c) (v : IsServer s) (sym : Text) (q : ℕ) where
  traded-Trades :
      (price : ℕ) (word : Text) (moves : List Holding → Type 0) (i : ℕ) (x : Stock)
      (p : List Holding)
      → moves p
      → Trades fl s idx c price word sym q moves i x
          (traded fl (after_trade s idx c i x price p) (trade_text fl word sym q price))
  traded-Trades price word moves i x p m =
      elim (Option-cases (send_price_broadcast fl (set s.stocks i (record x { price = price })))) [
        | inl n ↦ rw (traded, n) (too_long n)
        | inr (prices, h) ↦ rw (traded, h) (done p prices m h)
      ]

  buy-Bought : length sym ≤ 8 → Bought fl s idx c sym q (buy fl s idx c sym q)
  unfolding buy
  buy-Bought short = elim (Option-cases (find_stock s.stocks sym)) [
    | inl n ↦ rw (buy, n) (Bought.not_listed n)
    | inr ((i, x), h) ↦
        let (at, listed) = find_stock-found s.stocks sym i x h in
        let old = (old-IsClient s idx c client v).portfolio in
        elim (Option-cases (add_shares c.portfolio sym q)) [
          | inl n ↦ rw (buy, h, n) (too_many (add_shares-none c.portfolio sym q n (old.single sym)))
          | inr (p, k) ↦
              rw (buy, h, k)
                (bought i x _ h (
                  traded-Trades (fl.plus_cents x.price q) (codes "OK BUY ") _ i x p (λ t.
                    held-add_shares c.portfolio p sym q t k short
                      (room-new (symbols s.stocks) c.portfolio sym old v.few listed))))
        ]
  ]

  sell-Sold : 0 < q → Sold fl s idx c sym q (sell fl s idx c sym q)
  unfolding sell
  sell-Sold pos_q = elim (Option-cases (find_stock s.stocks sym)) [
    | inl n ↦ rw (sell, n) (Sold.not_listed n)
    | inr ((i, x), h) ↦ elim (Option-cases (find_holding c.portfolio sym)) [
      | inl n ↦ rw (sell, h, n) (too_few (omega (arith, (find_holding-none c.portfolio sym n).1)))
      | inr ((j, y), k) ↦
          let (at, named) = find_holding-found c.portfolio sym j y k in
          let old = (old-IsClient s idx c client v).portfolio in
          let all_held = held-found c.portfolio sym j y k (old.single sym) in
          rw (sell, h, k)
            (if-split (Sold fl s idx c sym q) (ltb y.qty q)
              (λ short. too_few (ground (arith, all_held)))
              (λ enough.
                let less : q ≤ y.qty = ground arith in
                sold i x _ h (omega (arith, all_held, less)) (
                  traded-Trades (sold_price fl x.price q) (codes "OK SELL ") _ i x _ (λ t. omega (
                    arith,
                    held-remove_shares c.portfolio j y q t at less,
                    ap (λ n. under n t q) named,
                  )))))
    ]
  ]

-- For a symbol of at most 8 bytes and a positive quantity: BUY adds just that many shares of the
-- symbol to the client's portfolio, unless it is not listed or the sum is above INT_MAX; SELL takes
-- just that many from it, unless it is not listed or fewer are held. Each trade sets the price of the
-- stock, is answered, and is followed by the list of the prices, unless that is too long for its
-- array; nothing else changes, and an order that is refused changes nothing.
pub trades_lem :
    (fl : Floats) (s : Server) (idx : ℕ) (c : Client) (sym : Text) (q : ℕ)
    → get_elem? s.clients idx ≡ some c
    → IsServer s
    → length sym ≤ 8
    → 0 < q
    → Bought fl s idx c sym q (buy fl s idx c sym q) × Sold fl s idx c sym q (sell fl s idx c sym q)
trades_lem fl s idx c sym q client v short pos_q =
    (buy-Bought fl s idx c client v sym q short, sell-Sold fl s idx c client v sym q pos_q)
