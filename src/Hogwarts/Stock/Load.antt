-- ===== src/Hogwarts/Stock/Load.antt =====
-- The stock that the ingredients file gives.
use gtu_cse344_systems_progr.Common.{
  ℕ, zero, suc, ◌≤◌, ◌<◌, ◌≡◌, ◌≢◌, refl, ap, sym, ◌∙◌, List, [], ◌∷◌, ◌++◌, true, none, some, leb,
  ◌&&◌, length, length-append, get_elem?, all, Option-cases, Bool-cases, inl, inr, arith,
  eq_of_some, ◌⊎◌, int_max, pos,
}
use mathlib.Core.Path.{subst}
use gtu_cse344_systems_progr.Libc.{Text, strcmp_eq, strcmp_eq_refl, scan_word, scan_int}
use gtu_cse344_systems_progr.Hogwarts.Stock.{
  Item, find_item, ingredient_char, is_valid_ingredient_name,
}

-- A byte of A–Z or 0–9, or the underscore.
abbrev pub NameByte : ℕ → Type 0
NameByte c = ((b'A' ≤ c) × (c ≤ b'Z')) ⊎ (((b'0' ≤ c) × (c ≤ b'9')) ⊎ (c ≡ b'_'))

pub record IsName (name : Text) : Type 0 where
  pub long : 1 ≤ length name
  pub short : length name ≤ 16
  pub bytes : (i c : ℕ) → get_elem? name i ≡ some c → NameByte c

pub record IsIngredient (x : Item) : Type 0 where
  pub name : IsName x.name
  pub positive : 0 < x.qty
  pub fits : x.qty ≤ int_max

-- At most 256 ingredients with names and quantities in the bounds, no two of one name.
pub record IsStock (items : List Item) : Type 0 where
  pub count : length items ≤ 256
  pub each : (i : ℕ) (x : Item) → get_elem? items i ≡ some x → IsIngredient x
  pub differ :
      (i j : ℕ) (x y : Item)
      → get_elem? items i ≡ some x
      → get_elem? items j ≡ some y
      → x.name ≡ y.name
      → i ≡ j

abbrev pub InStock : List Item → Text → Type 0
InStock items name = (i : ℕ) × (x : Item) × (get_elem? items i ≡ some x) × (x.name ≡ name)

-- The line has a name that is allowed, and then a positive number.
pub record Offers (line name : Text) : Type 0 where
  pub rest : Text
  pub qty : ℕ
  pub word : scan_word 63 line ≡ some (name, rest)
  pub number : scan_int rest ≡ some (pos qty)
  pub positive : 0 < qty
  pub allowed : IsName name

NameByte-of : (c : ℕ) → ingredient_char c ≡ true → NameByte c
unfolding ingredient_char
NameByte-of c h = elim (Bool-cases (leb b'A' c && leb c b'Z')) [
  | inl letter ↦ inl (ground arith, ground arith)
  | inr other ↦ elim (Bool-cases (leb b'0' c && leb c b'9')) [
    | inl digit ↦ inr (inl (ground arith, ground arith))
    | inr none_left ↦ inr (inr (ground arith))
  ]
]

ingredient_char-of : (c : ℕ) → NameByte c → ingredient_char c ≡ true
unfolding ingredient_char
ingredient_char-of c (inl (a, b)) = ground arith
ingredient_char-of c (inr (inl (a, b))) = ground arith
ingredient_char-of c (inr (inr e)) = ground arith

bytes-of :
    (s : Text) → all ingredient_char s ≡ true → (i c : ℕ) → get_elem? s i ≡ some c → NameByte c
bytes-of [] h i c e = cc
bytes-of (d ∷ s) h zero c e = NameByte-of c (ground (arith, ap ingredient_char (eq_of_some d c e)))
bytes-of (d ∷ s) h (suc i) c e = bytes-of s (ground arith) i c e

all-of :
    (s : Text) → ((i c : ℕ) → get_elem? s i ≡ some c → NameByte c) → all ingredient_char s ≡ true
all-of [] k = refl
all-of (d ∷ s) k =
    ground (arith, ingredient_char-of d (k 0 d refl), all-of s (λ i c e. k (suc i) c e))

pub IsName-of : (name : Text) → is_valid_ingredient_name name ≡ true → IsName name
unfolding is_valid_ingredient_name
IsName-of name h = record {
  long = ground arith;
  short = ground arith;
  bytes = bytes-of name (ground arith);
}

pub valid-of : (name : Text) → IsName name → is_valid_ingredient_name name ≡ true
unfolding is_valid_ingredient_name
valid-of name v = ground (arith, v.long, v.short, all-of name v.bytes)

-- An entry of the longer list is an old one or the new one.
append-cases :
    (items : List Item) (y : Item) (i : ℕ) (x : Item)
    → get_elem? (items ++ y ∷ []) i ≡ some x
    → (get_elem? items i ≡ some x) ⊎ ((i ≡ length items) × (y ≡ x))
append-cases [] y zero x e = inr (refl, eq_of_some y x e)
append-cases [] y (suc i) x e = cc
append-cases (z ∷ items) y zero x e = inl e
append-cases (z ∷ items) y (suc i) x e = elim (append-cases items y i x e) [
  | inl old ↦ inl old
  | inr (at, new) ↦ inr (omega (arith, at), new)
]

pub append-old :
    (items : List Item) (y : Item) (i : ℕ) (x : Item)
    → get_elem? items i ≡ some x
    → get_elem? (items ++ y ∷ []) i ≡ some x
append-old [] y i x e = cc
append-old (z ∷ items) y zero x e = e
append-old (z ∷ items) y (suc i) x e = append-old items y i x e

pub append-new :
    (items : List Item) (y : Item) → get_elem? (items ++ y ∷ []) (length items) ≡ some y
append-new [] y = refl
append-new (z ∷ items) y = append-new items y

find-none :
    (items : List Item) (name : Text) (i : ℕ) (x : Item)
    → find_item items name ≡ none
    → get_elem? items i ≡ some x
    → x.name ≢ name
unfolding find_item
find-none [] name i x e at same = cc
find-none (z ∷ items) name zero x e at same =
    let here : z ≡ x = eq_of_some z x at in
    let found : strcmp_eq z.name name ≡ true =
      ap (strcmp_eq z.name) (sym same ∙ ap (λ (w : Item). w.name) (sym here))
      ∙ strcmp_eq_refl z.name in
    ground arith
find-none (z ∷ items) name (suc i) x e at same = elim (Option-cases (find_item items name)) [
  | inl nowhere ↦ find-none items name i x nowhere at same
  | inr (k, h) ↦ elim (Bool-cases (strcmp_eq z.name name)) [
    | inl first ↦ ground arith
    | inr later ↦ ground arith
  ]
]

pub append-IsStock :
    (items : List Item) (y : Item)
    → IsStock items
    → length items < 256
    → IsIngredient y
    → find_item items y.name ≡ none
    → IsStock (items ++ y ∷ [])
append-IsStock items y v room good new = record {
  count = omega (arith, length-append items (y ∷ []));
  each = λ i x e. elim (append-cases items y i x e) [
    | inl old ↦ v.each i x old
    | inr (at, same) ↦ subst IsIngredient same good
  ];
  differ = λ i j x z e f same. elim (append-cases items y i x e) [
    | inl old ↦ elim (append-cases items y j z f) [
      | inl older ↦ v.differ i j x z old older same
      | inr (at, last) ↦
          absurd (find-none items y.name i x new old (same ∙ ap (λ (w : Item). w.name) (sym last)))
    ]
    | inr (at, last) ↦ elim (append-cases items y j z f) [
      | inl older ↦
          absurd
            (find-none items y.name j z new older (sym same ∙ ap (λ (w : Item). w.name) (sym last)))
      | inr (at', last') ↦ at ∙ sym at'
    ]
  ];
}

pub nil-IsStock : IsStock []
nil-IsStock = record { count = omega arith; each = λ i x e. cc; differ = λ i j x y e f same. cc }
