-- ===== src/Trade/Server.antt =====
-- Final/ServerTrd.c: connections, the buffers of the clients, and the steps of `main`.
pub mod Input
pub mod Run
pub mod Open
use gtu_cse344_systems_progr.Common.{
  ℕ, zero, suc, ◌+◌, ◌-◌, ◌≤◌, ◌<◌, List, [], ◌∷◌, ◌++◌, Bool, true, false, Option, none, some, ltb,
  leb, ◌==◌, ◌&&◌, if◌then◌else◌, length, get_elem?, set, replicate, ◌≡◌, ℤ, pos, negsuc,
}
use gtu_cse344_systems_progr.Libc.{Text, codes, c_string, split_line, cut_cr, strcmp_eq, atoi}
use gtu_cse344_systems_progr.Trade.Market.{Floats, Stock, load_stocks}
use gtu_cse344_systems_progr.Trade.Session.{
  Client, Server, Message, answer, Handled, stays, leaves, overflow, fault, put_client, say,
  max_line, max_clients, process_line,
}

-- The slot after `memset`, and a slot that is free.
abbrev pub free_client : Client
free_client = record {
  fd = none;
  username = [];
  type = [];
  line_buf = [];
  joined = false;
  portfolio = [];
}

-- The first free slot from index `i` on; `none` is NULL.
unfoldable pub free_slot : ℕ → List Client → Option ℕ
free_slot i [] = none
free_slot i (c ∷ clients) = elim c.fd [ none ↦ some i | some fd ↦ free_slot (i + 1) clients ]

-- A connection of `main`: `alloc_client`, and the descriptor `cli_fd`. With no slot it is closed.
unfoldable pub connect : Server → ℕ → Server
unfolding free_slot
connect s cli_fd = elim (free_slot 0 s.clients) [
  | none ↦ s
  | some i ↦ record s {
    clients = set s.clients i (record free_client { fd = some cli_fd });
    client_count = s.client_count + 1;
  }
]

abbrev pub closed : Client → Client
closed c = record c { fd = none; joined = false; username = []; line_buf = [] }

-- `disconnect_client`, for the client `c` at `idx`.
unfoldable pub disconnect_client : Server → ℕ → Client → Server
disconnect_client s idx c = elim c.fd [
  | none ↦ s
  | some fd ↦ record s { clients = set s.clients idx (closed c); client_count = s.client_count - 1 }
]

-- The messages so far stand before those of the rest.
abbrev pub more : List Message → Handled → Handled
more ms (stays s ns) = stays s (ms ++ ns)
more ms (leaves s ns) = leaves s (ms ++ ns)
more ms overflow = overflow
more ms fault = fault

-- What the loop makes of a line: the reply to one that is too long, or `process_line`.
abbrev pub answer_line : Floats → Server → ℕ → Client → List ℕ → Handled
answer_line fl s idx c line =
    if leb (max_line - 1) (length line)
    then say s (codes "ERR TOOLONG\n")
    else process_line fl s idx c (c_string (cut_cr line))

-- What follows a line: the disconnection, or the next round on the bytes behind it.
abbrev pub after_line : ℕ → List ℕ → (Server → Handled) → Handled → Handled
after_line idx rest next (stays t ms) = elim (get_elem? t.clients idx) [
  | none ↦ fault
  | some d ↦ more ms (next (put_client t idx (record d { line_buf = rest })))
]
after_line idx rest next (leaves t ms) = elim (get_elem? t.clients idx) [
  | none ↦ fault
  | some d ↦ leaves (disconnect_client t idx d) ms
]
after_line idx rest next overflow = overflow
after_line idx rest next fault = fault

-- The loop of `client_read`. `fault` also stands for rounds that run out.
unfoldable pub line_loop : Floats → ℕ → Server → ℕ → Handled
unfolding split_line cut_cr c_string process_line disconnect_client
line_loop fl zero s idx = fault
line_loop fl (suc fuel) s idx = elim (get_elem? s.clients idx) [
  | none ↦ fault
  | some c ↦ elim (split_line c.line_buf) [
    | none ↦ stays s []
    | some (line, rest) ↦
        after_line idx rest (λ t. line_loop fl fuel t idx) (answer_line fl s idx c line)
  ]
]

-- What `recv` gives: an error or the end, or at most as many bytes as there is space for.
pub data Received : Type 0 where
  hangup : Received
  bytes : List ℕ → Received

-- `client_read`; `leaves` is a client that was disconnected.
unfoldable pub client_read : Floats → Server → ℕ → Received → Handled
unfolding line_loop disconnect_client
client_read fl s idx r = elim (get_elem? s.clients idx) [
  | none ↦ fault
  | some c ↦
      if max_line - 1 - length c.line_buf == 0
      then stays (put_client s idx (record c { line_buf = [] }))
          (answer (codes "ERR TOOLONG\n") ∷ [])
      else elim r [
        | hangup ↦ leaves (disconnect_client s idx c) []
        | bytes bs ↦
            line_loop fl (length (c.line_buf ++ bs) + 1)
              (put_client s idx (record c { line_buf = c.line_buf ++ bs })) idx
      ]
]

-- The state in which `main` enters its loop.
abbrev pub open_server : List Stock → Server
open_server stocks = record {
  stocks = stocks;
  clients = replicate max_clients free_client;
  client_count = 0;
}

-- What `recv` may give when there is space for `space` bytes.
abbrev pub fits : ℕ → Received → Bool
fits space hangup = true
fits space (bytes bs) = leb (length bs) space

-- One event of the loop of `main`: a connection, or a client whose descriptor is ready. The periodic
-- broadcast changes nothing.
pub data Step (fl : Floats) (s : Server) : Server → Type 0 where
  connects : (cli_fd : ℕ) → Step fl s (connect s cli_fd)
  reads :
      (idx fd : ℕ) (c : Client) (r : Received) (t : Server) (ms : List Message)
      → get_elem? s.clients idx ≡ some c
      → c.fd ≡ some fd
      → fits (max_line - 1 - length c.line_buf) r ≡ true
      → client_read fl s idx r ≡ stays t ms
      → Step fl s t
  drops :
      (idx fd : ℕ) (c : Client) (r : Received) (t : Server) (ms : List Message)
      → get_elem? s.clients idx ≡ some c
      → c.fd ≡ some fd
      → fits (max_line - 1 - length c.line_buf) r ≡ true
      → client_read fl s idx r ≡ leaves t ms
      → Step fl s t

pub data Reach (fl : Floats) (s : Server) : Server → Type 0 where
  start : Reach fl s s
  step : {t u : Server} → Reach fl s t → Step fl t u → Reach fl s u

-- The end of `main`: what is sent to each client that is connected, and the slots that are left.
unfoldable pub shut_down : List Client → List (ℕ × Text) × List Client
shut_down [] = ([], [])
shut_down (c ∷ clients) =
    let (sent, left) = shut_down clients in
    elim c.fd [
      | none ↦ (sent, c ∷ left)
      | some fd ↦ ((fd, codes "SERVER SHUTDOWN\n") ∷ sent, record c { fd = none } ∷ left)
    ]

-- The arguments of `main`.
pub record Config : Type 0 where
  pub tcp_port : ℤ
  pub udp_port : ℤ
  pub stocks_path : Option Text
  pub log_path : Option Text

unfoldable pub read_args : Config → List Text → Option Config
unfolding strcmp_eq atoi
read_args cfg [] = some cfg
read_args cfg (a ∷ []) = none
read_args cfg (a ∷ v ∷ argv) = elim (strcmp_eq a (codes "-p")) [
  | true ↦ read_args (record cfg { tcp_port = atoi v }) argv
  | false ↦ elim (strcmp_eq a (codes "-u")) [
    | true ↦ read_args (record cfg { udp_port = atoi v }) argv
    | false ↦ elim (strcmp_eq a (codes "-s")) [
      | true ↦ read_args (record cfg { stocks_path = some v }) argv
      | false ↦ elim (strcmp_eq a (codes "-l")) [
        | true ↦ read_args (record cfg { log_path = some v }) argv
        | false ↦ none
      ]
    ]
  ]
]

abbrev pub is_port : ℤ → Bool
is_port (pos n) = leb 1024 n
is_port (negsuc n) = false

abbrev pub is_given : Option Text → Bool
is_given none = false
is_given (some t) = true

-- The arguments behind the program's name; `none` is the usage message.
unfoldable pub main_args : List Text → Option Config
unfolding read_args
main_args argv =
    elim (read_args
      (record { tcp_port = negsuc 0; udp_port = negsuc 0; stocks_path = none; log_path = none })
      argv) [
        | none ↦ none
        | some cfg ↦
            if (is_port cfg.tcp_port && is_port cfg.udp_port)
              && (is_given cfg.stocks_path && is_given cfg.log_path)
            then some cfg
            else none
      ]
