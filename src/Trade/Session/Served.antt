-- ===== src/Trade/Session/Served.antt =====
-- What a line keeps of the trading server.
use gtu_cse344_systems_progr.Common.{
  ℕ, ◌+◌, ◌≤◌, ◌≡◌, refl, ap, sym, ◌∙◌, [], ◌∷◌, ◌++◌, true, false, some, ◌&&◌, ◌||◌, not, length,
  get_elem?, take_all, drop, get_elem?-set, if-both, if-split, Option-cases, inl, inr, arith,
}
use gtu_cse344_systems_progr.Libc.{
  Text, codes, strcmp_eq, strncmp_eq, strncpy, scan_word, scan_word-le,
}
use gtu_cse344_systems_progr.Trade.Market.{Floats, find_stock}
use gtu_cse344_systems_progr.Trade.Market.Portfolio.{held}
use gtu_cse344_systems_progr.Trade.Session.{
  Client, Server, answer, Handled, put_client, say, resp, username_taken, join, cmd_price, analyst,
  process_line,
}
use gtu_cse344_systems_progr.Trade.Session.Slots.{
  symbols, IsServer, old-IsClient, put_client-IsServer, username_taken-false,
}
use gtu_cse344_systems_progr.Trade.Session.Room.{PrintsShort, report-room, list-room}
use gtu_cse344_systems_progr.Trade.Session.Traded.{
  Served, bought_by, is_stays, is_leaves, say-Served, listing-Served, trader-Served,
}

module _ (fl : Floats) (narrow : PrintsShort fl) (s : Server) (idx : ℕ) (c : Client)
    (client : get_elem? s.clients idx ≡ some c) (v : IsServer s) (bound : Text → ℕ)
    (less : (u : Text) → held u c.portfolio ≤ bound u) where
  abbrev Line : Handled → Type 0
  Line = Served (symbols s.stocks) idx c.line_buf bound

  joined-Served :
      (uname type_str : Text)
      → username_taken s.clients uname ≡ false
      → length uname ≤ 31
      → (t : Text)
      → Line (
          say
            (put_client s idx
              (record c { username = strncpy uname 31; type = strncpy type_str 15; joined = true }))
            t)
  joined-Served uname type_str free short t =
      let d : Client = record c {
        username = strncpy uname 31;
        type = strncpy type_str 15;
        joined = true;
      } in
      let old = old-IsClient s idx c client v in
      let kept : strncpy uname 31 ≡ uname = take_all 31 uname short in
      is_stays (put_client s idx d) (answer t ∷ []) d
        (put_client-IsServer s idx c client v s.stocks d s.client_count refl
          (record {
            portfolio = old.portfolio;
            name = omega (arith, ap length kept);
            buffer = old.buffer;
          })
          (λ m k b at_b n same.
            absurd (username_taken-false s.clients uname k b free at_b n (same ∙ kept)))
          refl)
        refl (get_elem?-set s.clients idx c d client) refl less

  join-Served : (args : Text) → Line (join s idx c args)
  unfolding join
  join-Served args = elim (Option-cases (scan_word 15 args)) [
    | inl n ↦ rw (join, n) (say-Served fl narrow s idx c client v bound less _)
    | inr ((type_str, rest), h) ↦ elim (Option-cases (scan_word 31 rest)) [
      | inl n ↦ rw (join, h, n) (say-Served fl narrow s idx c client v bound less _)
      | inr ((uname, r), k) ↦
          rw (join, h, k)
            (if-both Line
              (not (strcmp_eq type_str (codes "TRADER"))
                && not (strcmp_eq type_str (codes "ANALYST")))
              (say-Served fl narrow s idx c client v bound less _)
              (if-split Line (username_taken s.clients uname)
                (λ taken. say-Served fl narrow s idx c client v bound less _)
                (λ free. joined-Served uname type_str free (scan_word-le 31 rest uname r k) _)))
    ]
  ]

  price-Served : (args : Text) → Line (cmd_price fl s args)
  unfolding cmd_price
  price-Served args = elim (Option-cases (scan_word 8 args)) [
    | inl n ↦ rw (cmd_price, n) (say-Served fl narrow s idx c client v bound less _)
    | inr ((sym, rest), h) ↦ elim (Option-cases (find_stock s.stocks sym)) [
      | inl n ↦ rw (cmd_price, h, n) (say-Served fl narrow s idx c client v bound less _)
      | inr ((i, x), k) ↦ rw (cmd_price, h, k) (say-Served fl narrow s idx c client v bound less _)
    ]
  ]

  analyst-Served : (line : Text) → Line (analyst fl s line)
  unfolding analyst
  analyst-Served line =
      if-both Line (strncmp_eq line (codes "PRICE ")) (price-Served (drop 6 line)) (
        if-both Line (strcmp_eq line (codes "REPORT"))
          (listing-Served fl narrow s idx c client v bound less _
            (report-room fl narrow s.stocks v.short))
          (if-both Line (strcmp_eq line (codes "LIST"))
            (listing-Served fl narrow s idx c client v bound less _ (λ e.
              absurd (list-room (symbols s.stocks) s.clients v.clients (omega (arith, v.slots)) e)))
            (if-both Line (strncmp_eq line (codes "BUY ") || strncmp_eq line (codes "SELL "))
              (say-Served fl narrow s idx c client v bound less (codes "ERR UNAUTHORIZED\n"))
              (say-Served fl narrow s idx c client v bound less
                (resp (codes "ERR UNKNOWN " ++ line ++ b'\n' ∷ []))))))

  -- Every line keeps the invariant, and none writes behind an array while there are at most 77 stocks.
  pub process_line-Served :
      (line : Text)
      → ((u : Text) → held u c.portfolio + bought_by u line ≤ bound u)
      → Line (process_line fl s idx c line)
  unfolding process_line
  process_line-Served line room =
      if-both Line (strncmp_eq line (codes "JOIN "))
        (if-both Line c.joined (say-Served fl narrow s idx c client v bound less _)
          (join-Served (drop 5 line)))
        (if-both Line (not c.joined)
          (say-Served fl narrow s idx c client v bound less (codes "ERR NOT_JOINED\n"))
          (if-both Line (strcmp_eq line (codes "QUIT"))
            (is_leaves s (answer (codes "OK QUIT\n") ∷ []) c v refl client)
            (if-both Line (strcmp_eq c.type (codes "ANALYST")) (analyst-Served line) (
              if-both Line (strcmp_eq c.type (codes "TRADER"))
                (trader-Served fl narrow s idx c client v bound less line room)
                (say-Served fl narrow s idx c client v bound less _)))))
