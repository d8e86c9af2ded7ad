-- ===== src/Hogwarts/Session/Open.antt =====
-- The server as `main` opens it.
use gtu_cse344_systems_progr.Common.{ℕ, List, []}
use gtu_cse344_systems_progr.Libc.{Text}
use gtu_cse344_systems_progr.Hogwarts.Stock.{load_ingredients}
use gtu_cse344_systems_progr.Hogwarts.Stock.Load.{nil-IsStock}
use gtu_cse344_systems_progr.Hogwarts.Stock.Lines.{LoadedFrom, load_ingredients-Loaded}
use gtu_cse344_systems_progr.Hogwarts.Session.{open_server}
use gtu_cse344_systems_progr.Hogwarts.Session.Slots.{IsServer}
use gtu_cse344_systems_progr.Hogwarts.Session.Run.{open_server-IsServer}

-- The server opens in its invariant, whatever stands in the file.
pub opened-IsServer :
    (lines : List Text) (max_clients : ℕ)
    → IsServer (open_server (load_ingredients [] lines) max_clients)
opened-IsServer lines max_clients =
    let w = (load_ingredients-Loaded [] lines nil-IsStock).stock in
    open_server-IsServer (load_ingredients [] lines) max_clients
      (λ i x e. (w.each i x e).name.short)

-- For every list of lines, the server opens in its invariant, with at most 256 ingredients. Each has a
-- name of 1 to 16 characters of A–Z, 0–9 and _ and a quantity in 1 .. INT_MAX, and no two have the same
-- name. If they are fewer than 256, every name that some line offers with a positive number is
-- among them.
pub load_ingredients-IsServer :
    (lines : List Text) (max_clients : ℕ)
    → IsServer (open_server (load_ingredients [] lines) max_clients)
      × LoadedFrom [] lines (load_ingredients [] lines)
load_ingredients-IsServer lines max_clients =
    (opened-IsServer lines max_clients, load_ingredients-Loaded [] lines nil-IsStock)
