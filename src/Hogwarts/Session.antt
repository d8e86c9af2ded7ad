-- ===== src/Hogwarts/Session.antt =====
-- HW6/hogwarts.c: the sessions. `handle_command` dispatches a line, `handle_client_input` cuts the
-- bytes of a client into lines, and the server's loop accepts, reads and times out.
pub mod Slots
pub mod Served
pub mod Input
pub mod Run
pub mod Open
use gtu_cse344_systems_progr.Common.{
  ℕ, zero, suc, ◌+◌, ◌-◌, List, [], ◌∷◌, ◌++◌, Bool, true, false, Option, none, some, ltb, leb,
  ◌==◌, ◌&&◌, ◌||◌, not, if◌then◌else◌, length, get_elem?, set, take, replicate, ◌≡◌,
}
use gtu_cse344_systems_progr.Libc.{
  Text, codes, c_string, strcmp_eq, strncpy, strtok, split_line, cut_cr,
}
use gtu_cse344_systems_progr.Hogwarts.Stock.{Item}
use gtu_cse344_systems_progr.Hogwarts.Command.{
  Client, Server, Done, done, below_zero, free_client, delim, snprintf, max_line_len,
  max_username_len, max_type_len, cmd_brew, cmd_consume, cmd_spellbook, cmd_inspect, cmd_scroll,
  cmd_roster, username_taken,
}

-- What a line leaves: the server and the replies to the client, or the client's session closed
-- (the slot is reset) with the replies before. `overflow` is a quantity
-- above INT_MAX; `fault` is a stock below 0, or a client that is not there.
pub data Handled : Type 0 where
  stays : Server → List Text → Handled
  closes : Server → List Text → Handled
  overflow fault : Handled

abbrev pub put_client : Server → ℕ → Client → Server
put_client s idx c = record s { clients = set s.clients idx c }

abbrev pub reply : Server → Text → Handled
reply s t = stays s (t ∷ [])

abbrev pub finish : Server → ℕ → Done → Handled
finish s idx (done ingredients c t) =
    stays (record { ingredients = ingredients; clients = set s.clients idx c }) (t ∷ [])
finish s idx Done.overflow = Handled.overflow
finish s idx below_zero = fault

-- The answer to ENROLL of a client that is not enrolled.
unfoldable pub enroll : Server → ℕ → Client → Text → Handled
unfolding strtok strcmp_eq username_taken
enroll s idx c args = elim (strtok delim args) [
  | none ↦ reply s (codes "ERR ENROLL bad_format")
  | some (role, rest) ↦ elim (strtok delim rest) [
    | none ↦ reply s (codes "ERR ENROLL bad_format")
    | some (uname, r) ↦
        if not (strcmp_eq role (codes "WIZARD")) && not (strcmp_eq role (codes "PROFESSOR"))
        then reply s (codes "ERR ENROLL bad_role")
        else if length uname == 0 || leb max_username_len (length uname)
        then reply s (codes "ERR ENROLL bad_format")
        else if username_taken 0 s.clients uname idx
        then reply s (codes "ERR ENROLL name_taken")
        else reply
            (put_client s idx (record c {
              type = strncpy role (max_type_len - 1);
              username = strncpy uname (max_username_len - 1);
              enrolled = true;
            }))
            (snprintf 128 (codes "OK ENROLL " ++ strncpy uname (max_username_len - 1)))
  ]
]

abbrev pub unauthorized : Server → Handled
unauthorized s = reply s (codes "ERR UNAUTHORIZED")

-- The commands of an enrolled client.
unfoldable pub serve : Server → ℕ → Client → Text → Text → Handled
unfolding strcmp_eq cmd_brew cmd_consume cmd_spellbook cmd_inspect cmd_scroll cmd_roster
serve s idx c cmd args =
    let is_wizard = strcmp_eq c.type (codes "WIZARD") in
    let is_prof = strcmp_eq c.type (codes "PROFESSOR") in
    if strcmp_eq cmd (codes "BREW")
    then (if is_wizard then finish s idx (cmd_brew s.ingredients c args) else unauthorized s)
    else if strcmp_eq cmd (codes "CONSUME")
    then (if is_wizard then finish s idx (cmd_consume s.ingredients c args) else unauthorized s)
    else if strcmp_eq cmd (codes "SPELLBOOK")
    then (if is_wizard then reply s (cmd_spellbook c) else unauthorized s)
    else if strcmp_eq cmd (codes "INSPECT")
    then (if is_prof then reply s (cmd_inspect s.ingredients args) else unauthorized s)
    else if strcmp_eq cmd (codes "SCROLL")
    then (if is_prof then reply s (cmd_scroll s.ingredients) else unauthorized s)
    else if strcmp_eq cmd (codes "ROSTER")
    then (if is_prof then reply s (cmd_roster s.clients) else unauthorized s)
    else reply s (snprintf 128 (codes "ERR UNKNOWN " ++ cmd))

-- `reset_client_slot`
abbrev pub reset_client_slot : Server → ℕ → Server
reset_client_slot s idx = put_client s idx free_client

unfoldable pub handle_command : Server → ℕ → Client → Text → Handled
unfolding strtok strcmp_eq enroll serve
handle_command s idx c line = elim (strtok delim line) [
  | none ↦ stays s []
  | some (cmd, args) ↦
      if strcmp_eq cmd (codes "APPARATE")
      then closes (reset_client_slot s idx) (codes "OK APPARATE" ∷ [])
      else if strcmp_eq cmd (codes "ENROLL")
      then (if c.enrolled
          then reply s (codes "ERR ENROLL already_enrolled")
          else enroll s idx c args)
      else if c.enrolled
      then serve s idx c cmd args
      else reply s (codes "ERR NOT_ENROLLED")
]

abbrev pub more : List Text → Handled → Handled
more ts (stays s us) = stays s (ts ++ us)
more ts (closes s us) = closes s (ts ++ us)
more ts Handled.overflow = Handled.overflow
more ts fault = fault

-- The loop of `handle_client_input` over the lines in the buffer of client `idx`.
unfoldable pub line_loop : ℕ → Server → ℕ → Handled
unfolding split_line cut_cr c_string handle_command
line_loop zero s idx = fault
line_loop (suc fuel) s idx = elim (get_elem? s.clients idx) [
  | none ↦ fault
  | some c ↦ elim (split_line c.line_buf) [
    | none ↦
        if length c.line_buf == max_line_len
        then closes (reset_client_slot s idx) (codes "ERR TOOLONG" ∷ [])
        else stays s []
    | some (line, rest) ↦
        let kept = record c { line_buf = rest } in
        elim (handle_command (put_client s idx kept) idx kept (c_string (cut_cr line))) [
          | stays t ts ↦ more ts (line_loop fuel t idx)
          | closes t ts ↦ closes t ts
          | Handled.overflow ↦ Handled.overflow
          | fault ↦ fault
        ]
  ]
]

-- `read` gives an error other than EINTR, EINTR, the end, or at most as many bytes as there is
-- space for.
pub data Read : Type 0 where
  failed interrupted hangup : Read
  bytes : List ℕ → Read

unfoldable pub handle_client_input : Server → ℕ → ℕ → Read → Handled
unfolding line_loop
handle_client_input s idx now r = elim (get_elem? s.clients idx) [
  | none ↦ fault
  | some c ↦
      if max_line_len - length c.line_buf == 0
      then closes (reset_client_slot s idx) (codes "ERR TOOLONG" ∷ [])
      else elim r [
        | failed ↦ closes (reset_client_slot s idx) []
        | interrupted ↦ stays s []
        | hangup ↦ closes (reset_client_slot s idx) []
        | bytes bs ↦
            line_loop (length (c.line_buf ++ bs) + 1)
              (put_client s idx (record c { line_buf = c.line_buf ++ bs; last_active = now })) idx
      ]
]

-- The first free slot from index `i` on.
unfoldable pub find_free_slot : ℕ → List Client → Option ℕ
find_free_slot i [] = none
find_free_slot i (c ∷ clients) = elim c.fd [
  | none ↦ some i
  | some fd ↦ find_free_slot (i + 1) clients
]

-- `accept_new_connection`, when `accept` gives `fd`; `none` is the reply ERR HOGWARTS_FULL.
unfoldable pub accept_new_connection : Server → ℕ → ℕ → Option Server
unfolding find_free_slot
accept_new_connection s fd now = elim (find_free_slot 0 s.clients) [
  | none ↦ none
  | some slot ↦ some (put_client s slot (record free_client { fd = some fd; last_active = now }))
]

-- A slot after its round in `check_idle_timeouts`.
abbrev pub idle_slot : ℕ → ℕ → Client → Client
idle_slot timeout now c = elim c.fd [
  | none ↦ c
  | some fd ↦ if leb timeout (now - c.last_active) then free_client else c
]

-- The slots that `check_idle_timeouts` leaves.
unfoldable pub check_idle_timeouts : ℕ → ℕ → List Client → List Client
check_idle_timeouts timeout now [] = []
check_idle_timeouts timeout now (c ∷ clients) =
    idle_slot timeout now c ∷ check_idle_timeouts timeout now clients

-- The slots that `main` has reset, with the loaded ingredients.
abbrev pub open_server : List Item → ℕ → Server
open_server ingredients max_clients = record {
  ingredients = ingredients;
  clients = replicate max_clients free_client;
}

-- What `read` may give when there is space for `space` bytes.
abbrev pub fits : ℕ → Read → Bool
fits space (bytes bs) = leb (length bs) space
fits space r = true

-- One turn of the server's loop: one connection, one client with input, or the idle clients.
pub data Step (s : Server) : Server → Type 0 where
  accepts : (fd now : ℕ) (t : Server) → accept_new_connection s fd now ≡ some t → Step s t
  reads :
      (idx now : ℕ) (c : Client) (r : Read) (t : Server) (ts : List Text)
      → get_elem? s.clients idx ≡ some c
      → fits (max_line_len - length c.line_buf) r ≡ true
      → handle_client_input s idx now r ≡ stays t ts
      → Step s t
  drops :
      (idx now : ℕ) (c : Client) (r : Read) (t : Server) (ts : List Text)
      → get_elem? s.clients idx ≡ some c
      → fits (max_line_len - length c.line_buf) r ≡ true
      → handle_client_input s idx now r ≡ closes t ts
      → Step s t
  times_out :
      (timeout now : ℕ) → Step s (record s { clients = check_idle_timeouts timeout now s.clients })

pub data Reach (s : Server) : Server → Type 0 where
  start : Reach s s
  step : {t u : Server} → Reach s t → Step t u → Reach s u
