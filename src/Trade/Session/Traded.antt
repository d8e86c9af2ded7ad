-- ===== src/Trade/Session/Traded.antt =====
-- What the trades keep of the trading server.
use gtu_cse344_systems_progr.Common.{
  ℕ, ◌≤◌, ◌<◌, ◌≡◌, refl, ap, sym, List, [], ◌∷◌, ◌++◌, Option, none, some, ltb, ◌||◌, length,
  get_elem?, set, drop, get_elem?-set, if-both, if-split, ◌+◌, true, if◌then◌else◌, Option-cases,
  inl, inr, arith, int_max,
}
use gtu_cse344_systems_progr.Libc.{Text, codes, strcmp_eq, strncmp_eq, strcmp_eq_refl}
use gtu_cse344_systems_progr.Trade.Market.{
  Floats, Stock, Holding, find_stock, find_holding, add_shares, read_order, send_price_broadcast,
}
use gtu_cse344_systems_progr.Trade.Market.Portfolio.{
  find_holding-found, held, under, held-add_shares, held-remove_shares,
}
use gtu_cse344_systems_progr.Trade.Session.Found.{add_shares-over}
use gtu_cse344_systems_progr.Trade.Market.Limits.{
  IsPortfolio, room-new, add_shares-IsPortfolio, remove_shares-IsPortfolio,
}
use gtu_cse344_systems_progr.Trade.Session.{
  Client, Server, Message, answer, Handled, stays, leaves, overflow, fault, say, say_listing, resp,
  traded, buy, sell, with_order, trader,
}
use gtu_cse344_systems_progr.Trade.Session.Slots.{
  symbols, IsServer, old-IsClient, put_client-IsServer, same-IsOwnName, find_stock-found,
  symbols-set,
}
use gtu_cse344_systems_progr.Trade.Session.Room.{PrintsShort, broadcast-room, portfolio-room}
use gtu_cse344_systems_progr.Trade.Session.Orders.{read_order-IsOrder}

-- The invariant holds after the line, the symbols are `listed` as before, and the client is there with
-- `buf` in its buffer and at most `bound` of each symbol; an overflow needs a bound above INT_MAX. A fault needs more than 77 stocks.
pub data Served (listed : List Text) (idx : ℕ) (buf : List ℕ) (bound : Text → ℕ)
    : Handled → Type 0 where
  is_stays :
      (t : Server) (ms : List Message) (d : Client)
      → IsServer t
      → symbols t.stocks ≡ listed
      → get_elem? t.clients idx ≡ some d
      → d.line_buf ≡ buf
      → ((u : Text) → held u d.portfolio ≤ bound u)
      → Served listed idx buf bound (stays t ms)
  is_leaves :
      (t : Server) (ms : List Message) (d : Client)
      → IsServer t
      → symbols t.stocks ≡ listed
      → get_elem? t.clients idx ≡ some d
      → Served listed idx buf bound (leaves t ms)
  is_overflow : (u : Text) → int_max < bound u → Served listed idx buf bound overflow
  is_fault : 77 < length listed → Served listed idx buf bound fault

-- What a line buys of symbol `u`.
abbrev pub bought_by : Text → Text → ℕ
bought_by u line =
    if strncmp_eq line (codes "BUY ")
    then elim (read_order (drop 4 line)) [ none ↦ 0 | some (sym, q) ↦ under sym u q ]
    else 0

bought_by-buy :
    (u line sym : Text) (q : ℕ)
    → strncmp_eq line (codes "BUY ") ≡ true
    → read_order (drop 4 line) ≡ some (sym, q)
    → bought_by u line ≡ under sym u q
bought_by-buy u line sym q w e = rw (w, e) refl

module _ (fl : Floats) (narrow : PrintsShort fl) (s : Server) (idx : ℕ) (c : Client)
    (client : get_elem? s.clients idx ≡ some c) (v : IsServer s) (bound : Text → ℕ)
    (less : (u : Text) → held u c.portfolio ≤ bound u) where
  abbrev pub Here : Handled → Type 0
  Here = Served (symbols s.stocks) idx c.line_buf bound

  pub say-Served : (t : Text) → Here (say s t)
  say-Served t = is_stays s (answer t ∷ []) c v refl client refl less

  pub listing-Served :
      (m : Option Text) → (m ≡ none → 77 < length (symbols s.stocks)) → Here (say_listing s m)
  listing-Served none room = is_fault (room refl)
  listing-Served (some t) room = say-Served t

  -- A new price and a new portfolio.
  traded-Served :
      (i price : ℕ) (x : Stock) (p : List Holding) (t : Text)
      → get_elem? s.stocks i ≡ some x
      → IsPortfolio (symbols s.stocks) p
      → ((u : Text) → held u p ≤ bound u)
      → Here (
          traded fl
            (record s {
              stocks = set s.stocks i (record x { price = price });
              clients = set s.clients idx (record c { portfolio = p });
            })
            t)
  traded-Served i price x p t at w few =
      let d : Client = record c { portfolio = p } in
      let old = old-IsClient s idx c client v in
      let same = symbols-set s.stocks i x price at in
      let stocks = set s.stocks i (record x { price = price }) in
      let after =
        put_client-IsServer s idx c client v stocks d s.client_count same
          (record { portfolio = w; name = old.name; buffer = old.buffer })
          (same-IsOwnName s idx c client v d refl refl) refl in
      elim (Option-cases (send_price_broadcast fl stocks)) [
        | inl n ↦
            rw (traded, n)
              (is_fault
                (omega (arith, broadcast-room fl narrow stocks after.short n, ap length same)))
        | inr (prices, h) ↦
            rw (traded, h)
              (is_stays _ _ d after (sym same) (get_elem?-set s.clients idx c d client) refl few)
      ]

  buy-Served :
      (sym : Text) (q : ℕ)
      → length sym ≤ 8
      → 0 < q
      → q ≤ int_max
      → ((u : Text) → held u c.portfolio + under sym u q ≤ bound u)
      → Here (buy fl s idx c sym q)
  unfolding buy
  buy-Served sym q short pos_q small room = elim (Option-cases (find_stock s.stocks sym)) [
    | inl n ↦ rw (buy, n) (say-Served _)
    | inr ((i, x), h) ↦
        let (at, listed) = find_stock-found s.stocks sym i x h in
        let old = (old-IsClient s idx c client v).portfolio in
        elim (Option-cases (add_shares c.portfolio sym q)) [
          | inl n ↦
              rw (buy, h, n)
                (is_overflow sym (
                  ground
                    (arith, add_shares-over c.portfolio sym q n, room sym, strcmp_eq_refl sym)))
          | inr (p, k) ↦
              rw (buy, h, k)
                (traded-Served i _ x p _ at
                  (add_shares-IsPortfolio (symbols s.stocks) c.portfolio p sym q old v.few listed
                    short pos_q small k)
                  (λ u. omega (
                    arith,
                    room u,
                    held-add_shares c.portfolio p sym q u k short
                        (room-new (symbols s.stocks) c.portfolio sym old v.few listed),
                  )))
        ]
  ]

  sell-Served : (sym : Text) (q : ℕ) → Here (sell fl s idx c sym q)
  unfolding sell
  sell-Served sym q = elim (Option-cases (find_stock s.stocks sym)) [
    | inl n ↦ rw (sell, n) (say-Served _)
    | inr ((i, x), h) ↦ elim (Option-cases (find_holding c.portfolio sym)) [
      | inl n ↦ rw (sell, h, n) (say-Served _)
      | inr ((j, y), k) ↦
          let (at, listed) = find_stock-found s.stocks sym i x h in
          let (held_at, named) = find_holding-found c.portfolio sym j y k in
          let old = (old-IsClient s idx c client v).portfolio in
          rw (sell, h, k)
            (if-split Here (ltb y.qty q) (λ short. say-Served _)
              (λ enough.
                let fewer : q ≤ y.qty = ground arith in
                traded-Served i _ x _ _ at
                  (remove_shares-IsPortfolio (symbols s.stocks) c.portfolio j y q old held_at fewer)
                  (λ u.
                    omega (arith, less u, held-remove_shares c.portfolio j y q u held_at fewer))))
    ]
  ]

  order-Served :
      (args : Text) (go : Text → ℕ → Handled)
      → ((sym : Text) (q : ℕ)
          → read_order args ≡ some (sym, q)
          → length sym ≤ 8
          → 0 < q
          → q ≤ int_max
          → Here (go sym q))
      → Here (with_order s (read_order args) go)
  order-Served args go k = elim (Option-cases (read_order args)) [
    | inl n ↦ rw n (say-Served _)
    | inr ((sym, q), h) ↦ let o = read_order-IsOrder args sym q h in rw h (k sym q h o.0 o.1 o.2)
  ]

  pub trader-Served :
      (line : Text)
      → ((u : Text) → held u c.portfolio + bought_by u line ≤ bound u)
      → Here (trader fl s idx c line)
  unfolding trader
  trader-Served line room =
      let old = (old-IsClient s idx c client v).portfolio in
      if-split Here (strncmp_eq line (codes "BUY "))
        (λ w. order-Served (drop 4 line) _ (λ sym q e a b d.
          buy-Served sym q a b d (λ u. omega (arith, room u, bought_by-buy u line sym q w e))))
        (λ other.
          if-both Here (strncmp_eq line (codes "SELL "))
            (order-Served (drop 5 line) _ (λ sym q e a b d. sell-Served sym q))
            (if-both Here (strcmp_eq line (codes "PORTFOLIO"))
              (listing-Served _ (portfolio-room (symbols s.stocks) c.portfolio v.short old))
              (if-both Here
                (strncmp_eq line (codes "PRICE ")
                  || (strcmp_eq line (codes "REPORT") || strcmp_eq line (codes "LIST")))
                (say-Served (codes "ERR UNAUTHORIZED\n"))
                (say-Served (resp (codes "ERR UNKNOWN " ++ line ++ b'\n' ∷ []))))))
