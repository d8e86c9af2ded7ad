-- ===== src/Trade/Tests.antt =====
-- The theorems on the trading server at concrete inputs. The `float`s are numbers of cents here.
use gtu_cse344_systems_progr.Common.{
  ℕ, ◌+◌, ◌-◌, ◌*◌, ◌≤◌, ◌≡◌, refl, List, [], ◌∷◌, ◌++◌, true, Option, none, some, ltb, ◌==◌, map,
  take, length, length-take, All, replicate, pos, negsuc, arith,
}
use mathlib.Core.Path.{subst}
use gtu_cse344_systems_progr.Libc.{Text, codes, decimal, scan_int}
use gtu_cse344_systems_progr.Trade.Market.{
  Floats, Stock, load_stocks, price_text, holding_text, cmd_report, cmd_portfolio,
  send_price_broadcast,
}
use gtu_cse344_systems_progr.Trade.Market.Listing.{joined, fitting}
use gtu_cse344_systems_progr.Trade.Session.Listings.{listings_lem}
use gtu_cse344_systems_progr.Trade.Session.{
  Client, Server, Message, answer, broadcast, stays, buy, sell, process_line, members, cmd_list,
}
use gtu_cse344_systems_progr.Trade.Session.Slots.{symbols, IsServer}
use gtu_cse344_systems_progr.Trade.Session.Room.{PrintsShort}
use gtu_cse344_systems_progr.Trade.Session.Ledger.{Bought, Sold, trades_lem}
use gtu_cse344_systems_progr.Trade.Server.{
  free_client, connect, Received, bytes, client_read, open_server, Step, Reach, start, step,
  connects, reads,
}
use gtu_cse344_systems_progr.Trade.Server.Input.{Kept, received, wanted, client_read-Kept}
use gtu_cse344_systems_progr.Trade.Server.Run.{IsServing, Reach-IsServing}
use gtu_cse344_systems_progr.Trade.Server.Open.{IsStock, load_stocks-IsServing}

abbrev scan_cents : Text → Option ℕ
scan_cents s = elim (scan_int s) [
  | none ↦ none
  | some (pos n) ↦ some (n * 100)
  | some (negsuc n) ↦ some 0
]

abbrev cents : Floats
cents = record {
  plus_cents = λ p q. p + q;
  minus_cents = λ p q. p - q;
  less = ltb;
  at_most_zero = λ p. p == 0;
  cent = 1;
  scan = scan_cents;
  print = λ p. take 43 (decimal p);
}

cents-PrintsShort : PrintsShort cents
cents-PrintsShort p = omega (arith, length-take 43 (decimal p))

abbrev some_file : List ℕ
some_file = codes "AAPL 150\nmsft 90\nGOOG\nTHYAO -3\nTHYAO 12\n"

abbrev some_stocks : List Stock
some_stocks =
    record { symbol = codes "AAPL"; price = 15000 }
    ∷ record { symbol = codes "THYAO"; price = 1200 }
    ∷ []

loads : load_stocks cents some_file ≡ some some_stocks
unfolding load_stocks scan_int
loads = refl

load_stocks-IsServing_example :
    (stocks : List Stock) × (load_stocks cents some_file ≡ some stocks)
    × All (IsStock cents) stocks
    × (length stocks ≤ 128)
    × IsServing (symbols stocks) (open_server stocks)
load_stocks-IsServing_example = load_stocks-IsServing cents some_file

abbrev opened : Server
opened = open_server some_stocks

abbrev guest : Client
guest = record free_client { fd = some 5 }

abbrev connected : Server
connected = record opened { clients = guest ∷ replicate 9 free_client; client_count = 1 }

connected_lem : connect opened 5 ≡ connected
unfolding connect
connected_lem = refl

abbrev some_bytes : Received
some_bytes =
    bytes (codes "JOIN TRADER bob\r\nBUY AAPL 10\nSELL AAPL 4\nPRICE AAPL\nSELL THYAO 1\nQU")

abbrev bob : Client
bob = record guest {
  username = codes "bob";
  type = codes "TRADER";
  joined = true;
  line_buf = codes "QU";
  portfolio = record { symbol = codes "AAPL"; qty = 6 } ∷ [];
}

abbrev later_stocks : List Stock
later_stocks =
    record { symbol = codes "AAPL"; price = 15006 }
    ∷ record { symbol = codes "THYAO"; price = 1200 }
    ∷ []

abbrev later : Server
later = record { stocks = later_stocks; clients = bob ∷ replicate 9 free_client; client_count = 1 }

abbrev some_messages : List Message
some_messages =
    answer (codes "OK JOIN bob\n")
    ∷ answer (codes "OK BUY AAPL 10 15010\n")
    ∷ broadcast (codes "PRICE_UPDATE AAPL:15010 THYAO:1200\n")
    ∷ answer (codes "OK SELL AAPL 4 15006\n")
    ∷ broadcast (codes "PRICE_UPDATE AAPL:15006 THYAO:1200\n")
    ∷ answer (codes "ERR UNAUTHORIZED\n")
    ∷ answer (codes "ERR INSUFFICIENT_SHARES\n")
    ∷ []

reads_lem : client_read cents connected 0 some_bytes ≡ stays later some_messages
unfolding client_read process_line decimal
reads_lem = refl

opened-IsServing : IsServing (symbols some_stocks) opened
opened-IsServing =
    let (stocks, e, a, few, w) = load_stocks-IsServing cents some_file in
    let same : stocks ≡ some_stocks = cc loads in
    subst (λ xs. IsServing (symbols xs) (open_server xs)) same w

connected_run : Reach cents opened connected
connected_run = step start (subst (Step cents opened) connected_lem (connects 5))

some_run : Reach cents opened later
some_run =
    step connected_run (reads 0 5 guest some_bytes later some_messages refl refl refl reads_lem)

connected-IsServer : IsServer connected
connected-IsServer =
    (Reach-IsServing cents (symbols some_stocks) cents-PrintsShort opened-IsServing connected_run).0

later-IsServer : IsServer later
later-IsServer =
    (Reach-IsServing cents (symbols some_stocks) cents-PrintsShort opened-IsServing some_run).0

Reach-IsServing_example : IsServing (symbols some_stocks) later
Reach-IsServing_example =
    Reach-IsServing cents (symbols some_stocks) cents-PrintsShort opened-IsServing some_run

client_read-Kept_example :
    Kept
      (symbols some_stocks)
      (wanted guest (guest.line_buf ++ received some_bytes))
      (client_read cents connected 0 some_bytes)
client_read-Kept_example =
    client_read-Kept cents cents-PrintsShort connected 0 guest some_bytes refl connected-IsServer
      refl

trades_lem_example :
    Bought cents later 0 bob (codes "THYAO") 3 (buy cents later 0 bob (codes "THYAO") 3)
    × Sold cents later 0 bob (codes "THYAO") 3 (sell cents later 0 bob (codes "THYAO") 3)
trades_lem_example =
    trades_lem cents later 0 bob (codes "THYAO") 3 refl later-IsServer (omega arith) (omega arith)

listings_lem_example :
    (cmd_report cents later_stocks
      ≡ fitting 4096 (codes "OK REPORT " ++ joined b',' true (map (price_text cents) later_stocks)))
    × (send_price_broadcast cents later_stocks
        ≡ fitting 4096
            (codes "PRICE_UPDATE " ++ joined 32 true (map (price_text cents) later_stocks)))
    × (cmd_list later.clients
        ≡ fitting 2048 (codes "OK LIST " ++ joined b',' true (members later.clients)))
    × (cmd_portfolio bob.portfolio
        ≡ fitting 2048 (codes "OK PORTFOLIO " ++ joined b',' true (map holding_text bob.portfolio)))
    × (cmd_portfolio [] ≡ some (codes "OK PORTFOLIO EMPTY\n"))
listings_lem_example =
    listings_lem cents later_stocks later.clients (record { symbol = codes "AAPL"; qty = 6 }) []
