-- ===== src/Hogwarts/Stock/Lines.antt =====
-- Loading the ingredients file: what its lines leave in the stock.
use gtu_cse344_systems_progr.Common.{
  ℕ, zero, suc, ◌≤◌, ◌<◌, ◌≡◌, refl, ap, sym, ◌∙◌, List, [], ◌∷◌, true, false, some, leb, length,
  take, take_all, get_elem?, Option-cases, Bool-cases, inl, inr, arith, eq_of_some, int_max, ℤ, pos,
  negsuc, >>=-eq-some,
}
use mathlib.Core.Path.{subst}
use gtu_cse344_systems_progr.Libc.{Text, scan_word, scan_int, scan_int-le}
use gtu_cse344_systems_progr.Hogwarts.Stock.{
  Item, find_item, is_valid_ingredient_name, read_ingredient, above_zero, add_new, load_line,
  load_ingredients, max_ingredients,
}
use gtu_cse344_systems_progr.Hogwarts.Stock.Held.{find-found}
use gtu_cse344_systems_progr.Hogwarts.Stock.Load.{
  IsName, IsName-of, valid-of, IsStock, InStock, Offers, append-old, append-new, append-IsStock,
}

above_zero-pos : (n : ℕ) → 0 < n → above_zero (pos n) ≡ some n
above_zero-pos n h = ground arith

-- What a line offers is what the program reads.
offered :
    (line name : Text)
    → Offers line name
    → (n : ℕ) × (read_ingredient line ≡ some (name, pos n))
      × (above_zero (pos n) ≡ some n)
      × (is_valid_ingredient_name name ≡ true)
unfolding read_ingredient
offered line name o = (
  o.qty,
  rw (read_ingredient, o.word, o.number) refl,
  above_zero-pos o.qty o.positive,
  valid-of name o.allowed,
)

-- The quantity of a line is in the bounds.
above_zero-bounds :
    (line name : Text) (v : ℤ) (n : ℕ)
    → read_ingredient line ≡ some (name, v)
    → above_zero v ≡ some n
    → (0 < n) × (n ≤ int_max)
unfolding read_ingredient
above_zero-bounds line name v n e p =
    let ((w, rest), h, e1) = >>=-eq-some (scan_word 63 line) _ e in
    let (u, k, e2) = >>=-eq-some (scan_int rest) _ e1 in
    let same : u ≡ v = cc in bounds rest u k (ap above_zero same ∙ p)
  where
    bounds :
        (rest : Text) (u : ℤ)
        → scan_int rest ≡ some u
        → above_zero u ≡ some n
        → (0 < n) × (n ≤ int_max)
    bounds rest (pos zero) k q = cc
    bounds rest (pos (suc m)) k q =
        let same : suc m ≡ n =
          eq_of_some (suc m) n (sym (above_zero-pos (suc m) (omega arith)) ∙ q) in
        omega (arith, same, scan_int-le rest (suc m) k)
    bounds rest (negsuc m) k q = cc

-- What the lines leave: a stock in which the names that were there and the wanted ones stand.
pub record Loaded (items : List Item) (Wanted : Text → Type 0) (after : List Item) : Type 0 where
  pub stock : IsStock after
  kept : (name : Text) → InStock items name → InStock after name
  wanted : (name : Text) → Wanted name → InStock after name

module _ (items : List Item) (v : IsStock items) (room : length items < 256) where
  add_new-Loaded :
      (name : Text) (n : ℕ)
      → is_valid_ingredient_name name ≡ true
      → (0 < n) × (n ≤ int_max)
      → Loaded items (λ t. t ≡ name) (add_new items name n)
  add_new-Loaded name n valid (some_left, fits) = elim (Option-cases (find_item items name)) [
    | inr (i, h) ↦
        let (x, at, same) = find-found items name i h in
        rw (add_new, h)
          (record { stock = v; kept = λ t k. k; wanted = λ t e. (i, x, at, same ∙ sym e) })
    | inl new ↦
        let named = IsName-of name valid in
        let whole : take 16 name ≡ name = take_all 16 name named.short in
        let y : Item = record { name = take 16 name; qty = n } in
        rw (add_new, new)
          (record {
            stock =
                append-IsStock items y v room
                  (record {
                    name = subst IsName (sym whole) named;
                    positive = some_left;
                    fits = fits;
                  })
                  (ap (find_item items) whole ∙ new);
            kept = λ t (i, x, at, same). (i, x, append-old items y i x at, same);
            wanted = λ t e. (length items, y, append-new items y, whole ∙ sym e);
          })
  ]

  -- A line that is passed over.
  passed : (l : Text) → ((name : Text) → Offers l name → ⊥) → Loaded items (Offers l) items
  passed l none_left = record { stock = v; kept = λ t k. k; wanted = λ t o. absurd (none_left t o) }

  load_line-Loaded : (l : Text) → Loaded items (Offers l) (load_line items l)
  unfolding load_line
  load_line-Loaded l = elim (Option-cases (read_ingredient l)) [
    | inl n ↦ rw (load_line, n) (passed l (λ t o. let (m, e, p, b) = offered l t o in cc))
    | inr ((name, z), h) ↦ elim (Bool-cases (is_valid_ingredient_name name)) [
      | inr bad ↦
          rw (load_line, h, bad)
            (passed l (λ t o.
              let (m, e, p, b) = offered l t o in
              let same : name ≡ t = cc in cc (ap is_valid_ingredient_name same)))
      | inl valid ↦ elim (Option-cases (above_zero z)) [
        | inl n ↦
            rw (load_line, h, valid, n)
              (passed l (λ t o.
                let (m, e, p, b) = offered l t o in
                let same : z ≡ pos m = cc in cc (ap above_zero same)))
        | inr (n, q) ↦
            let w = add_new-Loaded name n valid (above_zero-bounds l name z n h q) in
            rw (load_line, h, valid, q)
              (record {
                stock = w.stock;
                kept = w.kept;
                wanted = λ t o.
                    let (m, e, p, b) = offered l t o in let same : t ≡ name = cc in w.wanted t same;
              })
      ]
    ]
  ]

-- The names that some line offers, as long as there is room.
abbrev pub OfferedBy : List Text → List Item → Text → Type 0
OfferedBy lines after name =
    (length after < 256)
    × ((k : ℕ) × (line : Text) × (get_elem? lines k ≡ some line) × Offers line name)

abbrev pub LoadedFrom : List Item → List Text → List Item → Type 0
LoadedFrom items lines after = Loaded items (OfferedBy lines after) after

has_room : (n : ℕ) → leb max_ingredients n ≡ false → n < 256
has_room n h = ground arith

no_room : (n : ℕ) → leb max_ingredients n ≡ true → n < 256 → ⊥
no_room n h short = ground arith

goes_on :
    (items : List Item) (l : Text) (lines : List Text)
    → leb max_ingredients (length items) ≡ false
    → load_ingredients (load_line items l) lines ≡ load_ingredients items (l ∷ lines)
unfolding load_ingredients
goes_on items l lines room = ground arith

pub load_ingredients-Loaded :
    (items : List Item) (lines : List Text)
    → IsStock items
    → LoadedFrom items lines (load_ingredients items lines)
unfolding load_ingredients
load_ingredients-Loaded items [] v = record {
  stock = v;
  kept = λ t k. k;
  wanted = λ t (short, some_line). let (k, line, at, o) = some_line in cc;
}
load_ingredients-Loaded items (l ∷ lines) v =
    elim (Bool-cases (leb max_ingredients (length items))) [
      | inl is_full ↦
          let same : items ≡ load_ingredients items (l ∷ lines) = ground arith in
          subst (LoadedFrom items (l ∷ lines)) same (record {
            stock = v;
            kept = λ t k. k;
            wanted = λ t (short, k). absurd (no_room (length items) is_full short);
          })
      | inr room ↦
          let first = load_line-Loaded items v (has_room (length items) room) l in
          let next = load_line items l in
          let rest = load_ingredients-Loaded next lines first.stock in
          let same = goes_on items l lines room in
          subst (LoadedFrom items (l ∷ lines)) same (record {
            stock = rest.stock;
            kept = λ t k. rest.kept t (first.kept t k);
            wanted = λ t (short, some_line).
                let (k, line, at, o) = some_line in from first rest t short k line at o;
          })
    ]
  where
    from :
        {next : List Item}
        → Loaded items (Offers l) next
        → LoadedFrom next lines (load_ingredients next lines)
        → (t : Text) → length (load_ingredients next lines) < 256
        → (k : ℕ) (line : Text) → get_elem? (l ∷ lines) k ≡ some line
        → Offers line t
        → InStock (load_ingredients next lines) t
    from first rest t short zero line at o =
        let same : line ≡ l = cc in rest.kept t (first.wanted t (subst (λ z. Offers z t) same o))
    from first rest t short (suc k) line at o = rest.wanted t (short, (k, line, at, o))
