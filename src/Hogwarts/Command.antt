-- ===== src/Hogwarts/Command.antt =====
-- HW6/hogwarts.c: the commands. A reply is the line that `send_line` gets; the log file is left out.
pub mod Stocked
pub mod Listing
use gtu_cse344_systems_progr.Common.{
  ℕ, zero, suc, ◌+◌, ◌-◌, List, [], ◌∷◌, ◌++◌, Bool, true, false, Option, none, some, ltb, leb,
  ◌==◌, ◌&&◌, ◌||◌, not, if◌then◌else◌, length, get_elem?, set, take, map, int_max,
}
use gtu_cse344_systems_progr.Libc.{Text, codes, strcmp_eq, strncpy, strtok, decimal}
use gtu_cse344_systems_progr.Hogwarts.Stock.{
  Item, find_item, find_ingredient, spell_find, add_qty, spell_add, spell_sub, parse_positive_int,
  qty_at, spell_qty,
}

abbrev pub max_line_len : ℕ
max_line_len = 512

abbrev pub max_username_len : ℕ
max_username_len = 32

abbrev pub max_type_len : ℕ
max_type_len = 16

-- `fd` is `none` for a free slot; `line_buf` is the part of the buffer in use, and `spellbook` the
-- first `spell_count` entries.
pub record Client : Type 0 where
  pub fd : Option ℕ
  pub username : Text
  pub type : Text
  pub enrolled : Bool
  pub line_buf : List ℕ
  pub last_active : ℕ
  pub spellbook : List Item

pub record Server : Type 0 where
  pub ingredients : List Item
  pub clients : List Client

abbrev pub free_client : Client
free_client = record {
  fd = none;
  username = [];
  type = [];
  enrolled = false;
  line_buf = [];
  last_active = 0;
  spellbook = [];
}

abbrev pub delim : Text
delim = codes " \t"

-- `snprintf` into an array of `size` bytes.
abbrev pub snprintf : ℕ → Text → Text
snprintf size s = take (size - 1) s

-- What a command leaves of the stock and of its client, with its reply. `overflow` is a quantity
-- above INT_MAX, `below_zero` a stock of less than 0.
pub data Done : Type 0 where
  done : List Item → Client → Text → Done
  overflow below_zero : Done

-- The ingredient's name and the quantity of BREW and CONSUME.
unfoldable pub read_amount : Text → Option (Text × ℕ)
unfolding strtok parse_positive_int
read_amount args = elim (strtok delim args) [
  | none ↦ none
  | some (ing, rest) ↦ elim (strtok delim rest) [
    | none ↦ none
    | some (qs, r) ↦ elim (parse_positive_int qs) [ none ↦ none | some qty ↦ some (ing, qty) ]
  ]
]

abbrev pub amount_reply : Text → Text → ℕ → ℕ → Text
amount_reply word ing qty new_qty =
    snprintf 128 (word ++ ing ++ 32 ∷ (decimal qty ++ 32 ∷ decimal new_qty))

-- The rest of BREW, for `qty` of ingredient `idx`.
unfoldable pub brew : List Item → Client → Text → ℕ → ℕ → Done
unfolding add_qty spell_add
brew ingredients c ing qty idx = elim (add_qty ingredients idx qty) [
  | none ↦ overflow
  | some more ↦ elim (spell_add c.spellbook ing qty) [
    | none ↦ overflow
    | some book ↦
        done more (record c { spellbook = book })
          (amount_reply (codes "OK BREW ") ing qty (qty_at more idx))
  ]
]

unfoldable pub cmd_brew : List Item → Client → Text → Done
unfolding read_amount find_item brew
cmd_brew ingredients c args = elim (read_amount args) [
  | none ↦ done ingredients c (codes "ERR BREW bad_format")
  | some (ing, qty) ↦ elim (find_ingredient ingredients ing) [
    | none ↦ done ingredients c (codes "ERR UNKNOWN_INGREDIENT")
    | some idx ↦ brew ingredients c ing qty idx
  ]
]

-- The rest of CONSUME, for `qty` of ingredient `idx`.
unfoldable pub consume : List Item → Client → Text → ℕ → ℕ → Done
unfolding find_item spell_sub
consume ingredients c ing qty idx =
    if ltb (spell_qty c.spellbook ing) qty
    then done ingredients c (codes "ERR INSUFFICIENT_INGREDIENTS")
    else elim (get_elem? ingredients idx) [
      | none ↦ below_zero
      | some x ↦
          if ltb x.qty qty
          then below_zero
          else done (set ingredients idx (record x { qty = x.qty - qty }))
              (record c { spellbook = spell_sub c.spellbook ing qty })
              (amount_reply (codes "OK CONSUME ") ing qty (x.qty - qty))
    ]

unfoldable pub cmd_consume : List Item → Client → Text → Done
unfolding read_amount find_item consume
cmd_consume ingredients c args = elim (read_amount args) [
  | none ↦ done ingredients c (codes "ERR CONSUME bad_format")
  | some (ing, qty) ↦ elim (find_ingredient ingredients ing) [
    | none ↦ done ingredients c (codes "ERR UNKNOWN_INGREDIENT")
    | some idx ↦ consume ingredients c ing qty idx
  ]
]

-- The loop that lists pieces with commas between them, in an array of 512 bytes; the piece that
-- does not fit is cut and ends the loop.
unfoldable pub list_loop : Text → Bool → List Text → Text
list_loop buf first [] = buf
list_loop buf first (p ∷ pieces) =
    let piece : Text = if first then p else b',' ∷ p in
    let rest = list_loop (buf ++ piece) false pieces in
    if leb (max_line_len - length buf) (length piece)
    then buf ++ take (max_line_len - length buf - 1) piece
    else rest

abbrev pub item_text : Item → Text
item_text x = x.name ++ b':' ∷ decimal x.qty

unfoldable pub cmd_spellbook : Client → Text
unfolding list_loop
cmd_spellbook c =
    if length c.spellbook == 0
    then codes "OK SPELLBOOK EMPTY"
    else list_loop (codes "OK SPELLBOOK ") true (map item_text c.spellbook)

unfoldable pub cmd_inspect : List Item → Text → Text
unfolding strtok find_item
cmd_inspect ingredients args = elim (strtok delim args) [
  | none ↦ codes "ERR INSPECT bad_format"
  | some (ing, rest) ↦ elim (find_ingredient ingredients ing) [
    | none ↦ codes "ERR UNKNOWN_INGREDIENT"
    | some idx ↦ snprintf 128 (codes "OK INSPECT " ++ ing ++ 32 ∷ decimal (qty_at ingredients idx))
  ]
]

unfoldable pub cmd_scroll : List Item → Text
unfolding list_loop
cmd_scroll ingredients = list_loop (codes "OK SCROLL ") true (map item_text ingredients)

abbrev pub is_member : Client → Bool
is_member c = elim c.fd [ none ↦ false | some fd ↦ c.enrolled ]

unfoldable pub members : List Client → List Text
members [] = []
members (c ∷ clients) =
    let rest = members clients in if is_member c then c.username ∷ rest else rest

unfoldable pub cmd_roster : List Client → Text
unfolding list_loop members
cmd_roster clients = list_loop (codes "OK ROSTER ") true (members clients)

-- `i` is the index of the first of these clients.
unfoldable pub username_taken : ℕ → List Client → Text → ℕ → Bool
username_taken i [] uname except_idx = false
username_taken i (c ∷ clients) uname except_idx =
    (not (i == except_idx) && is_member c && strcmp_eq c.username uname)
    || username_taken (i + 1) clients uname except_idx
