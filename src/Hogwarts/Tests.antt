-- ===== src/Hogwarts/Tests.antt =====
-- The theorems at concrete inputs.
use gtu_cse344_systems_progr.Common.{
  ◌≡◌, refl, List, [], ◌∷◌, ◌++◌, true, some, map, filter, take, arith,
}
use gtu_cse344_systems_progr.Libc.{Text, codes, strcmp_eq, strtol, decimal}
use gtu_cse344_systems_progr.Hogwarts.Stock.{Item, load_ingredients}
use gtu_cse344_systems_progr.Hogwarts.Command.{Client, Server, free_client, cmd_scroll, cmd_roster}
use gtu_cse344_systems_progr.Hogwarts.Command.Listing.{
  joined, with_quantity, has_enrolled, listing_replies,
}
use gtu_cse344_systems_progr.Hogwarts.Session.{
  stays, Read, bytes, handle_client_input, open_server, accept_new_connection, accepts, reads,
  Reach, start, step,
}
use gtu_cse344_systems_progr.Hogwarts.Session.Slots.{IsServer}
use gtu_cse344_systems_progr.Hogwarts.Session.Input.{
  Kept, received, wanted, handle_client_input-Kept,
}
use gtu_cse344_systems_progr.Hogwarts.Session.Run.{Reach-IsServer}
use gtu_cse344_systems_progr.Hogwarts.Session.Open.{opened-IsServer, load_ingredients-IsServer}
use gtu_cse344_systems_progr.Hogwarts.Stock.Lines.{LoadedFrom}

abbrev some_lines : List Text
some_lines =
    codes "HERB 5\n"
    ∷ codes "ROOT\n"
    ∷ codes "HERB 9\n"
    ∷ codes "LEAF 0\n"
    ∷ codes " ROOT\t2 roots\n"
    ∷ codes "bad 1\n"
    ∷ []

abbrev some_ingredients : List Item
some_ingredients =
    record { name = codes "HERB"; qty = 5 } ∷ record { name = codes "ROOT"; qty = 2 } ∷ []

loaded : load_ingredients [] some_lines ≡ some_ingredients
unfolding load_ingredients strcmp_eq strtol
loaded = refl

abbrev opened : Server
opened = open_server (load_ingredients [] some_lines) 2

load_ingredients-IsServer_example :
    IsServer opened × LoadedFrom [] some_lines (load_ingredients [] some_lines)
load_ingredients-IsServer_example = load_ingredients-IsServer some_lines 2

abbrev new_client : Client
new_client = record free_client { fd = some 7; last_active = 100 }

abbrev connected : Server
connected = record opened { clients = new_client ∷ free_client ∷ [] }

connects : accept_new_connection opened 7 100 ≡ some connected
unfolding accept_new_connection
connects = refl

abbrev some_read : Read
some_read = bytes (codes "ENROLL WIZARD ada\r\nBREW HERB 4\nCONSUME HERB 9\nCONSUME HERB 3\nBREW R")

abbrev ada : Client
ada = record {
  fd = some 7;
  username = codes "ada";
  type = codes "WIZARD";
  enrolled = true;
  line_buf = codes "BREW R";
  last_active = 101;
  spellbook = record { name = codes "HERB"; qty = 1 } ∷ [];
}

abbrev brewed : Server
brewed = record {
  ingredients =
      record { name = codes "HERB"; qty = 6 } ∷ record { name = codes "ROOT"; qty = 2 } ∷ [];
  clients = ada ∷ free_client ∷ [];
}

abbrev some_replies : List Text
some_replies =
    codes "OK ENROLL ada"
    ∷ codes "OK BREW HERB 4 9"
    ∷ codes "ERR INSUFFICIENT_INGREDIENTS"
    ∷ codes "OK CONSUME HERB 3 6"
    ∷ []

input_handled : handle_client_input connected 0 101 some_read ≡ stays brewed some_replies
unfolding handle_client_input load_ingredients strcmp_eq strtol decimal
input_handled = refl

abbrev two_steps : Reach opened brewed
two_steps =
    step (step start (accepts 7 100 connected connects))
      (reads 0 101 new_client some_read brewed some_replies refl refl input_handled)

Reach-IsServer_example : IsServer brewed
Reach-IsServer_example = Reach-IsServer (opened-IsServer some_lines 2) two_steps

abbrev one_step : Reach opened connected
one_step = step start (accepts 7 100 connected connects)

handle_client_input-Kept_example :
    Kept
      (wanted connected (new_client.line_buf ++ received some_read))
      (handle_client_input connected 0 101 some_read)
handle_client_input-Kept_example =
    handle_client_input-Kept connected 0 101 new_client some_read refl
      (Reach-IsServer (opened-IsServer some_lines 2) one_step) (ground arith)

listing_replies_example :
    (cmd_scroll some_ingredients
      ≡ take 511 (codes "OK SCROLL " ++ joined true (map with_quantity some_ingredients)))
    × (cmd_roster (ada ∷ free_client ∷ [])
        ≡ take 511 (
            codes "OK ROSTER "
            ++ joined true
                (map (λ (c : Client). c.username) (filter has_enrolled (ada ∷ free_client ∷ [])))))
listing_replies_example = listing_replies some_ingredients (ada ∷ free_client ∷ [])
