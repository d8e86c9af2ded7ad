-- ===== src/Hogwarts/Stock/Held.antt =====
-- What the operations on lists of items do to the quantities.
use gtu_cse344_systems_progr.Common.{
  ℕ, zero, suc, ◌+◌, ◌≤◌, ◌<◌, ◌≡◌, ap, sym, ◌∙◌, List, [], ◌∷◌, ◌++◌, false, none, some, ltb, leb,
  if◌then◌else◌, length, get_elem?, set, take, take_all, weigh, weigh-set, weigh-append, Bool-cases,
  Option-cases, inl, inr, arith, int_max,
}
use gtu_cse344_systems_progr.Libc.{Text, strcmp_eq, eq_of_strcmp_eq}
use gtu_cse344_systems_progr.Hogwarts.Stock.{
  Item, find_item, spell_qty, add_qty, spell_add, max_spellbook_entries,
}

-- `n` under the name `t`, 0 under the others.
abbrev pub under : Text → Text → ℕ → ℕ
under name t n = if strcmp_eq name t then n else 0

abbrev pub value : Text → Item → ℕ
value t x = under x.name t x.qty

-- All that a list holds under the name `t`.
abbrev pub held : Text → List Item → ℕ
held t items = weigh (value t) items

pub find-found :
    (items : List Item) (name : Text) (i : ℕ)
    → find_item items name ≡ some i
    → (x : Item) × (get_elem? items i ≡ some x) × (x.name ≡ name)
unfolding find_item
find-found [] name i e = cc
find-found (x ∷ items) name i e = elim (Bool-cases (strcmp_eq x.name name)) [
  | inl here ↦
      let at : 0 ≡ i = cc in
      (x, ap (get_elem? (x ∷ items)) (sym at), eq_of_strcmp_eq x.name name here)
  | inr there ↦ elim (Option-cases (find_item items name)) [
    | inl nowhere ↦ cc
    | inr (k, h) ↦
        let at : suc k ≡ i = cc in
        let (y, found, same) = find-found items name k h in
        (y, ap (get_elem? (x ∷ items)) (sym at) ∙ found, same)
  ]
]

spell_qty-cons :
    (x : Item) (items : List Item) (t : Text)
    → spell_qty (x ∷ items) t ≡ (if strcmp_eq x.name t then x.qty else spell_qty items t)
unfolding find_item
spell_qty-cons x items t = elim (Bool-cases (strcmp_eq x.name t)) [
  | inl here ↦ ground arith
  | inr there ↦ elim (Option-cases (find_item items t)) [
    | inl n ↦ ground arith
    | inr (k, h) ↦ ground arith
  ]
]

find-head :
    (y : Item) (items : List Item) (name : Text)
    → find_item (y ∷ items) name ≡ some 0
    → y.name ≡ name
unfolding find_item
find-head y items name e = elim (Bool-cases (strcmp_eq y.name name)) [
  | inl here ↦ eq_of_strcmp_eq y.name name here
  | inr there ↦ elim (Option-cases (find_item items name)) [
    | inl n ↦ cc
    | inr (k, h) ↦ ground arith
  ]
]

find-tail :
    (y : Item) (items : List Item) (name : Text) (k : ℕ)
    → find_item (y ∷ items) name ≡ some (suc k)
    → (strcmp_eq y.name name ≡ false) × (find_item items name ≡ some k)
unfolding find_item
find-tail y items name k e = elim (Bool-cases (strcmp_eq y.name name)) [
  | inl here ↦ ground arith
  | inr there ↦ elim (Option-cases (find_item items name)) [
    | inl n ↦ cc
    | inr (j, h) ↦ (there, ground arith)
  ]
]

-- A new quantity for the first item of a name.
pub spell_qty-set :
    (items : List Item) (name : Text) (i q : ℕ) (x : Item) (t : Text)
    → find_item items name ≡ some i
    → get_elem? items i ≡ some x
    → spell_qty (set items i (record x { qty = q })) t
      ≡ (if strcmp_eq name t then q else spell_qty items t)
unfolding find_item
spell_qty-set [] name i q x t e h = cc
spell_qty-set (y ∷ items) name zero q x t e h =
    let first : y ≡ x = cc in
    let named = find-head y items name e in
    let before = spell_qty-cons y items t in
    spell_qty-cons (record x { qty = q }) items t
    ∙ ap (λ b. if b then q else spell_qty items t)
        (ap (λ z. strcmp_eq z.name t) (sym first) ∙ ap (λ n. strcmp_eq n t) named)
    ∙ ground (arith, ap (λ n. strcmp_eq n t) named, before)
spell_qty-set (y ∷ items) name (suc k) q x t e h =
    let (other, later) = find-tail y items name k e in
    let rest = spell_qty-set items name k q x t later h in
    let before = spell_qty-cons y items t in
    spell_qty-cons y (set items k (record x { qty = q })) t ∙ elim (Bool-cases (strcmp_eq name t)) [
      | inl here ↦
          let apart : strcmp_eq y.name t ≡ false =
            ap (strcmp_eq y.name) (sym (eq_of_strcmp_eq name t here)) ∙ other in
          ground (arith, rest)
      | inr there ↦ ground (arith, rest, before)
    ]

-- The first item of a name is part of what is held under it.
pub spell_qty-held : (items : List Item) (t : Text) → spell_qty items t ≤ held t items
unfolding find_item
spell_qty-held [] t = omega arith
spell_qty-held (x ∷ items) t = ground (arith, spell_qty-cons x items t, spell_qty-held items t)

pub add_qty-some :
    (items : List Item) (i q : ℕ) (after : List Item)
    → add_qty items i q ≡ some after
    → (x : Item) × (get_elem? items i ≡ some x)
      × (after ≡ set items i (record x { qty = x.qty + q }))
      × (x.qty + q ≤ int_max)
unfolding add_qty
add_qty-some items i q after e = elim (Option-cases (get_elem? items i)) [
  | inl n ↦ ground arith
  | inr (x, h) ↦ elim (Bool-cases (ltb int_max (x.qty + q))) [
    | inl big ↦ ground arith
    | inr fits ↦ (x, h, ground arith, ground arith)
  ]
]

under-same :
    (t : Text) (x : Item) (name : Text) (q : ℕ) → x.name ≡ name → under x.name t q ≡ under name t q
under-same t x name q e = ap (λ n. under n t q) e

-- An addition to a book counts under its name only, or is lost when the book is full.
pub held-spell_add :
    (book : List Item) (name : Text) (q : ℕ) (after : List Item) (t : Text)
    → length name ≤ 16
    → spell_add book name q ≡ some after
    → held t after ≤ held t book + under name t q
unfolding spell_add
held-spell_add book name q after t short e = elim (Option-cases (find_item book name)) [
  | inr (i, h) ↦
      let (x, at, made, fits) = add_qty-some book i q after (ground arith) in
      let (y, at', named) = find-found book name i h in
      let same : y ≡ x = cc in
      let change = weigh-set (value t) book i x (record x { qty = x.qty + q }) at in
      ground (
        arith,
        change,
        ap (λ z. strcmp_eq z.name t) same,
        ap (λ n. strcmp_eq n t) named,
        ap (held t) made,
      )
  | inl n ↦ elim (Bool-cases (leb max_spellbook_entries (length book))) [
    | inl is_full ↦ let same : book ≡ after = ground arith in omega (arith, ap (held t) same)
    | inr room ↦
        let added : Item = record { name = take 16 name; qty = q } in
        let made : book ++ added ∷ [] ≡ after = ground arith in
        ground (
          arith,
          ap (held t) made,
          weigh-append (value t) book (added ∷ []),
          ap (λ n. under n t q) (take_all 16 name short),
        )
  ]
]

-- An addition to a book fails on an overflow only.
pub spell_add-none :
    (book : List Item) (name : Text) (q : ℕ)
    → spell_add book name q ≡ none
    → int_max < held name book + q
unfolding spell_add add_qty
spell_add-none book name q e = elim (Option-cases (find_item book name)) [
  | inr (i, h) ↦
      let (x, at, named) = find-found book name i h in ground (arith, spell_qty-held book name)
  | inl n ↦ ground arith
]
