-- ===== src/Hogwarts/Stock.antt =====
-- HW6/hogwarts.c: the stock of ingredients and the spellbook of a client, lists of names with
-- quantities. Quantities are `int`s that the server keeps at 0 or more.
pub mod Held
pub mod Sub
pub mod Load
pub mod Lines
use gtu_cse344_systems_progr.Common.{
  ℕ, zero, suc, ◌+◌, ◌-◌, List, [], ◌∷◌, ◌++◌, Bool, true, false, Option, none, some, ltb, leb,
  ◌==◌, ◌&&◌, ◌||◌, not, if◌then◌else◌, ◌>>=◌, ◌>>◌, guard, length, get_elem?, set, take, all, ℤ,
  pos, negsuc, int_max,
}
use gtu_cse344_systems_progr.Libc.{Text, strcmp_eq, strncpy, strtol, scan_word, scan_int}

abbrev pub max_ingredients : ℕ
max_ingredients = 256

abbrev pub max_spellbook_entries : ℕ
max_spellbook_entries = 64

abbrev pub max_ingredient_len : ℕ
max_ingredient_len = 17

-- `ingredient_t` and `spell_entry_t`
pub record Item : Type 0 where
  pub name : Text
  pub qty : ℕ

-- The loop of `find_ingredient` and of `spell_find`: the index of the first item of that name, and
-- `none` for -1.
unfoldable pub find_item : List Item → Text → Option ℕ
find_item [] name = none
find_item (x ∷ items) name = elim (strcmp_eq x.name name) [
  | true ↦ some 0
  | false ↦ elim (find_item items name) [ none ↦ none | some i ↦ some (suc i) ]
]

abbrev pub find_ingredient : List Item → Text → Option ℕ
find_ingredient ingredients name = find_item ingredients name

abbrev pub spell_find : List Item → Text → Option ℕ
spell_find spellbook name = find_item spellbook name

abbrev pub qty_at : List Item → ℕ → ℕ
qty_at items i = elim (get_elem? items i) [ none ↦ 0 | some x ↦ x.qty ]

-- The quantity of the first item of that name, or 0.
abbrev pub spell_qty : List Item → Text → ℕ
spell_qty spellbook ing = elim (spell_find spellbook ing) [ none ↦ 0 | some i ↦ qty_at spellbook i ]

-- `qty` more of item `i`; `none` is an overflow of the `int`.
unfoldable pub add_qty : List Item → ℕ → ℕ → Option (List Item)
add_qty items i qty = elim (get_elem? items i) [
  | none ↦ none
  | some x ↦
      if ltb int_max (x.qty + qty)
      then none
      else some (set items i (record x { qty = x.qty + qty }))
]

-- `none` is an overflow; a full book stays as it is.
unfoldable pub spell_add : List Item → Text → ℕ → Option (List Item)
unfolding find_item add_qty
spell_add spellbook name qty = elim (spell_find spellbook name) [
  | some idx ↦ add_qty spellbook idx qty
  | none ↦
      if leb max_spellbook_entries (length spellbook)
      then some spellbook
      else some
          (spellbook ++ record { name = strncpy name (max_ingredient_len - 1); qty = qty } ∷ [])
]

-- The last entry takes the place of entry `i`, and the book is one shorter.
unfoldable pub remove_entry : List Item → ℕ → List Item
remove_entry book i = elim (get_elem? book (length book - 1)) [
  | none ↦ book
  | some last ↦ take (length book - 1) (set book i last)
]

-- A difference below 0 is set to 0, as `-` does.
unfoldable pub spell_sub : List Item → Text → ℕ → List Item
unfolding find_item remove_entry
spell_sub spellbook name qty = elim (spell_find spellbook name) [
  | none ↦ spellbook
  | some idx ↦ elim (get_elem? spellbook idx) [
    | none ↦ spellbook
    | some x ↦
        let left = set spellbook idx (record x { qty = x.qty - qty }) in
        if x.qty - qty == 0 then remove_entry left idx else left
  ]
]

unfoldable pub ingredient_char : ℕ → Bool
ingredient_char c = (leb b'A' c && leb c b'Z') || (leb b'0' c && leb c b'9') || c == b'_'

-- The name's check in `load_ingredients`.
unfoldable pub is_valid_ingredient_name : Text → Bool
unfolding ingredient_char
is_valid_ingredient_name s =
    if length s == 0 || ltb 16 (length s) then false else all ingredient_char s

-- The name and the number that `sscanf` reads from a line as "%63s %d"; `none` if it does not read both.
unfoldable pub read_ingredient : Text → Option (Text × ℤ)
unfolding scan_word scan_int
read_ingredient line = do (name, rest) ← scan_word 63 line; qty ← scan_int rest; some (name, qty)

-- The quantity, if it is positive.
abbrev pub above_zero : ℤ → Option ℕ
above_zero (pos n) = if n == 0 then none else some n
above_zero (negsuc n) = none

abbrev add_new : List Item → Text → ℕ → List Item
add_new ingredients name qty = elim (find_item ingredients name) [
  | some i ↦ ingredients
  | none ↦ ingredients ++ record { name = strncpy name (max_ingredient_len - 1); qty = qty } ∷ []
]

-- One round of the loop of `load_ingredients`, with a line that `fgets` returns.
unfoldable pub load_line : List Item → Text → List Item
unfolding read_ingredient is_valid_ingredient_name find_item
load_line ingredients line = elim (read_ingredient line) [
  | none ↦ ingredients
  | some (name, qty) ↦
      if not (is_valid_ingredient_name name)
      then ingredients
      else elim (above_zero qty) [ none ↦ ingredients | some n ↦ add_new ingredients name n ]
]

-- `load_ingredients`, for the lines that `fgets` returns, each at most 255 bytes long.
unfoldable pub load_ingredients : List Item → List Text → List Item
unfolding load_line
load_ingredients ingredients [] = ingredients
load_ingredients ingredients (l ∷ lines) =
    let rest = load_ingredients (load_line ingredients l) lines in
    if leb max_ingredients (length ingredients) then ingredients else rest

abbrev pub in_range : ℤ → Option ℕ
in_range (pos n) = if n == 0 || ltb 1000000 n then none else some n
in_range (negsuc n) = none

-- `none` is the return value 0.
unfoldable pub parse_positive_int : Text → Option ℕ
parse_positive_int [] = none
parse_positive_int (c ∷ s) = do v ← strtol (c ∷ s); guard (length v.endptr == 0); in_range v.value
