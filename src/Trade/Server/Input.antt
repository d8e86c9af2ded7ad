-- ===== src/Trade/Server/Input.antt =====
-- What a read keeps of the trading server, however many lines it brings.
use gtu_cse344_systems_progr.Common.{
  ℕ, zero, suc, ◌+◌, ◌-◌, ◌≤◌, ◌<◌, ◌≡◌, refl, ap, ◌∙◌, List, [], ◌++◌, true, some, leb, ◌==◌, bit,
  length, length-append, get_elem?, get_elem?-set, weigh-part, if-both, Option-cases, inl, inr,
  arith, none, int_max,
}
use gtu_cse344_systems_progr.Libc.{Text, codes, c_string, split_line, cut_cr, split_line-length}
use gtu_cse344_systems_progr.Trade.Market.{Floats}
use gtu_cse344_systems_progr.Trade.Market.Portfolio.{held}
use gtu_cse344_systems_progr.Trade.Session.{
  Client, Server, Message, Handled, stays, leaves, overflow, fault, put_client,
}
use gtu_cse344_systems_progr.Trade.Session.Slots.{
  symbols, is_open, IsServer, old-IsClient, put_client-IsServer, same-IsOwnName,
}
use gtu_cse344_systems_progr.Trade.Session.Room.{PrintsShort}
use gtu_cse344_systems_progr.Trade.Session.Traded.{
  Served, bought_by, is_stays, is_leaves, is_overflow, is_fault, say-Served,
}
use gtu_cse344_systems_progr.Trade.Session.Served.{process_line-Served}
use gtu_cse344_systems_progr.Trade.Server.{
  closed, disconnect_client, more, after_line, line_loop, Received, hangup, bytes, client_read,
  fits,
}

-- The invariant holds afterwards, with the symbols `listed` as before. A fault needs more than 77
-- stocks, and an overflow a symbol of which the bound is above INT_MAX.
pub data Kept (listed : List Text) (bound : Text → ℕ) : Handled → Type 0 where
  kept_stays :
      (t : Server) (ms : List Message)
      → IsServer t
      → symbols t.stocks ≡ listed
      → Kept listed bound (stays t ms)
  kept_leaves :
      (t : Server) (ms : List Message)
      → IsServer t
      → symbols t.stocks ≡ listed
      → Kept listed bound (leaves t ms)
  kept_overflow : (u : Text) → int_max < bound u → Kept listed bound overflow
  kept_fault : 77 < length listed → Kept listed bound fault

more-Kept :
    (listed : List Text) (bound : Text → ℕ) (ms : List Message) (h : Handled)
    → Kept listed bound h
    → Kept listed bound (more ms h)
more-Kept listed bound ms _ (kept_stays t ns v e) = kept_stays t _ v e
more-Kept listed bound ms _ (kept_leaves t ns v e) = kept_leaves t _ v e
more-Kept listed bound ms _ (kept_overflow u w) = kept_overflow u w
more-Kept listed bound ms _ (kept_fault w) = kept_fault w

-- What the first lines in a buffer, `fuel` at most, buy of symbol `u`.
unfoldable pub ordered : ℕ → Text → List ℕ → ℕ
unfolding split_line
ordered zero u buf = 0
ordered (suc fuel) u buf = elim (split_line buf) [
  | none ↦ 0
  | some (line, rest) ↦ bought_by u (c_string (cut_cr line)) + ordered fuel u rest
]

-- The bytes that were received.
abbrev pub received : Received → List ℕ
received hangup = []
received (bytes bs) = bs

-- What a client holds of symbol `u`, and what the lines in its buffer buy of it.
abbrev pub wanted : Client → List ℕ → Text → ℕ
wanted c buf u = held u c.portfolio + ordered (length buf + 1) u buf

module _ (s : Server) (idx : ℕ) (c : Client) (client : get_elem? s.clients idx ≡ some c)
    (v : IsServer s) where
  -- Another buffer.
  pub buffer-IsServer :
      (buf : List ℕ) → length buf ≤ 511 → IsServer (put_client s idx (record c { line_buf = buf }))
  buffer-IsServer buf short =
      let d : Client = record c { line_buf = buf } in
      let old = old-IsClient s idx c client v in
      put_client-IsServer s idx c client v s.stocks d s.client_count refl
        (record { portfolio = old.portfolio; name = old.name; buffer = short })
        (same-IsOwnName s idx c client v d refl refl) refl

  pub disconnect_client-IsServer :
      IsServer (disconnect_client s idx c)
      × (symbols (disconnect_client s idx c).stocks ≡ symbols s.stocks)
  unfolding disconnect_client
  disconnect_client-IsServer = elim (Option-cases c.fd) [
    | inl n ↦ rw (disconnect_client, n) (v, refl)
    | inr (fd, h) ↦
        let old = old-IsClient s idx c client v in
        let opened : bit (is_open c) ≡ 1 = ground arith in
        let counts = weigh-part (λ z. bit (is_open z)) s.clients idx c client in
        rw (disconnect_client, h)
          (
            put_client-IsServer s idx c client v s.stocks (closed c) (s.client_count - 1) refl
                (record { portfolio = old.portfolio; name = omega arith; buffer = omega arith })
                (λ m. cc) (omega (arith, opened, counts, v.counted)),
            refl,
          )
  ]

after_line-Kept :
    (listed : List Text) (bound total : Text → ℕ) (idx : ℕ) (buf rest : List ℕ)
    (next : Server → Handled) (h : Handled)
    → Served listed idx buf bound h
    → ((u : Text) → bound u ≤ total u)
    → length rest ≤ 511
    → ((t : Server) (d : Client)
        → IsServer t
        → symbols t.stocks ≡ listed
        → get_elem? t.clients idx ≡ some d
        → d.line_buf ≡ rest
        → ((u : Text) → held u d.portfolio ≤ bound u)
        → Kept listed total (next t))
    → Kept listed total (after_line idx rest next h)
after_line-Kept listed bound total idx buf rest next _ (is_stays t ms d v same at e few) in_all
      short k =
    let d' : Client = record d { line_buf = rest } in
    let t' = put_client t idx d' in
    rw (after_line, at)
      (more-Kept listed total ms (next t') (
        k t' d' (buffer-IsServer t idx d at v rest short) same (get_elem?-set t.clients idx d d' at)
          refl few))
after_line-Kept listed bound total idx buf rest next _ (is_leaves t ms d v same at) in_all short k =
    let (w, kept) = disconnect_client-IsServer t idx d at v in
    rw (after_line, at) (kept_leaves _ ms w (kept ∙ same))
after_line-Kept listed bound total idx buf rest next _ (is_overflow u w) in_all short k =
    kept_overflow u (omega (arith, w, in_all u))
after_line-Kept listed bound total idx buf rest next _ (is_fault w) in_all short k = kept_fault w

ordered-line :
    (fuel : ℕ) (u : Text) (buf line rest : List ℕ)
    → split_line buf ≡ some (line, rest)
    → ordered (suc fuel) u buf ≡ bought_by u (c_string (cut_cr line)) + ordered fuel u rest
unfolding ordered
ordered-line fuel u buf line rest h = ground (arith, h)

module _ (fl : Floats) (narrow : PrintsShort fl) where
  line_loop-Kept :
      (listed : List Text) (total : Text → ℕ) (fuel : ℕ) (s : Server) (idx : ℕ) (c : Client)
      → get_elem? s.clients idx ≡ some c
      → IsServer s
      → symbols s.stocks ≡ listed
      → length c.line_buf < fuel
      → ((u : Text) → held u c.portfolio + ordered fuel u c.line_buf ≤ total u)
      → Kept listed total (line_loop fl fuel s idx)
  unfolding line_loop
  line_loop-Kept listed total zero s idx c client v same enough few = absurd (omega arith)
  line_loop-Kept listed total (suc fuel) s idx c client v same enough few =
      elim (Option-cases (split_line c.line_buf)) [
        | inl no_line ↦ rw (line_loop, client, no_line) (kept_stays s [] v same)
        | inr ((line, rest), h) ↦
            let shorter = (split_line-length c.line_buf line rest h).1 in
            let text = c_string (cut_cr line) in
            let bound : Text → ℕ = λ (u : Text). held u c.portfolio + bought_by u text in
            let less : (u : Text) → held u c.portfolio ≤ bound u = λ u. omega arith in
            let one =
              if-both (Served (symbols s.stocks) idx c.line_buf bound) (leb 511 (length line))
                (say-Served fl narrow s idx c client v bound less (codes "ERR TOOLONG\n"))
                (process_line-Served fl narrow s idx c client v bound less text
                  (λ u. omega arith)) in
            let old = old-IsClient s idx c client v in
            rw (line_loop, client, h)
              (after_line-Kept listed bound total idx c.line_buf rest (λ t. line_loop fl fuel t idx)
                _ (rw (← same) one)
                (λ u. omega (arith, few u, ordered-line fuel u c.line_buf line rest h))
                (omega (arith, shorter, old.buffer))
                (λ t d w e at is_rest fewer.
                  line_loop-Kept listed total fuel t idx d at w e
                    (omega (arith, shorter, ap length is_rest))
                    (λ u. omega (
                      arith,
                      few u,
                      fewer u,
                      ordered-line fuel u c.line_buf line rest h,
                      ap (ordered fuel u) is_rest,
                    ))))
      ]

  -- Whatever a read brings that fits the buffer, the invariant holds after it and the listed symbols
  -- are the same; with at most 77 stocks there is no write behind an array, and the loop over the lines
  -- ends. The exception is an overflow of the client's shares: it needs a symbol of which the client's
  -- shares and what all lines in its buffer buy are together more than INT_MAX.
  pub client_read-Kept :
      (s : Server) (idx : ℕ) (c : Client) (r : Received)
      → get_elem? s.clients idx ≡ some c
      → IsServer s
      → fits (511 - length c.line_buf) r ≡ true
      → Kept (symbols s.stocks) (wanted c (c.line_buf ++ received r)) (client_read fl s idx r)
  unfolding client_read
  client_read-Kept s idx c r client v fit =
      rw (client_read, client)
        (if-both (Kept (symbols s.stocks) (wanted c (c.line_buf ++ received r)))
          (511 - length c.line_buf == 0)
          (kept_stays _ _ (buffer-IsServer s idx c client v [] (omega arith)) refl) (after r fit))
    where
      after :
          (r : Received)
          → fits (511 - length c.line_buf) r ≡ true
          → Kept (symbols s.stocks) (wanted c (c.line_buf ++ received r)) (elim r [
            | hangup ↦ leaves (disconnect_client s idx c) []
            | bytes bs ↦
                line_loop fl
                  (length (c.line_buf ++ bs) + 1)
                  (put_client s idx (record c { line_buf = c.line_buf ++ bs }))
                  idx
          ])
      after hangup e =
          let (w, same) = disconnect_client-IsServer s idx c client v in kept_leaves _ [] w same
      after (bytes bs) e =
          let room : length bs ≤ 511 - length c.line_buf = ground arith in
          let old = old-IsClient s idx c client v in
          let long = length-append c.line_buf bs in
          let d : Client = record c { line_buf = c.line_buf ++ bs } in
          line_loop-Kept (symbols s.stocks) (wanted c (c.line_buf ++ bs))
            (length (c.line_buf ++ bs) + 1) (put_client s idx d) idx d
            (get_elem?-set s.clients idx c d client)
            (buffer-IsServer s idx c client v (c.line_buf ++ bs)
              (omega (arith, long, room, old.buffer)))
            refl (omega arith) (λ u. omega arith)
