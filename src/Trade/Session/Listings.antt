-- ===== src/Trade/Session/Listings.antt =====
-- The four answers that list something, and the broadcast.
use gtu_cse344_systems_progr.Common.{
  ◌≡◌, refl, List, [], ◌∷◌, ◌++◌, true, false, some, length, map, ◌==◌, arith,
}
use gtu_cse344_systems_progr.Libc.{codes}
use gtu_cse344_systems_progr.Trade.Market.{
  Floats, Stock, Holding, price_text, holding_text, send_price_broadcast, cmd_report, cmd_portfolio,
}
use gtu_cse344_systems_progr.Trade.Market.Listing.{joined, fitting, list_loop_lem}
use gtu_cse344_systems_progr.Trade.Session.{Client, members, cmd_list}

-- A listing is whole or a write behind its array: REPORT, LIST, PORTFOLIO and the price broadcast list
-- every entry behind their heads, with separators between them and a newline at the end, if that and
-- the NUL fit the array of 4096 or 2048 bytes. The answer for an empty portfolio is EMPTY.
pub listings_lem :
    (fl : Floats) (stocks : List Stock) (clients : List Client) (h : Holding)
    (portfolio : List Holding)
    → (cmd_report fl stocks
        ≡ fitting 4096 (codes "OK REPORT " ++ joined b',' true (map (price_text fl) stocks)))
      × (send_price_broadcast fl stocks
          ≡ fitting 4096 (codes "PRICE_UPDATE " ++ joined 32 true (map (price_text fl) stocks)))
      × (cmd_list clients ≡ fitting 2048 (codes "OK LIST " ++ joined b',' true (members clients)))
      × (cmd_portfolio (h ∷ portfolio)
          ≡ fitting 2048
              (codes "OK PORTFOLIO " ++ joined b',' true (map holding_text (h ∷ portfolio))))
      × (cmd_portfolio [] ≡ some (codes "OK PORTFOLIO EMPTY\n"))
unfolding cmd_report send_price_broadcast cmd_portfolio cmd_list
listings_lem fl stocks clients h portfolio = (
  list_loop_lem 4096 b',' (codes "OK REPORT ") true (map (price_text fl) stocks),
  list_loop_lem 4096 32 (codes "PRICE_UPDATE ") true (map (price_text fl) stocks),
  list_loop_lem 2048 b',' (codes "OK LIST ") true (members clients),
  some_held,
  refl,
)
  where
    some_held :
        cmd_portfolio (h ∷ portfolio)
        ≡ fitting 2048
            (codes "OK PORTFOLIO " ++ joined b',' true (map holding_text (h ∷ portfolio)))
    some_held =
        let more : (length (h ∷ portfolio) == 0) ≡ false = ground arith in
        rw (cmd_portfolio, more)
          (list_loop_lem 2048 b',' (codes "OK PORTFOLIO ") true (map holding_text (h ∷ portfolio)))
