-- ===== src/Hogwarts/Command/Stocked.antt =====
-- The stock covers what the spellbooks hold, so a stock below 0 does not occur.
use gtu_cse344_systems_progr.Common.{
  ℕ, none, int_max, ◌+◌, ◌-◌, ◌≤◌, ◌<◌, ◌≡◌, refl, ap, sym, ◌∙◌, List, [], ◌∷◌, false, some, ltb,
  ◌==◌, if◌then◌else◌, length, get_elem?, set, weigh, weigh-set, weigh-part, get_elem?-set,
  get_elem?-set_other, Bool-cases, Option-cases, inl, inr, arith, pos, negsuc, ℤ, guard,
  >>=-eq-some,
}
use gtu_cse344_systems_progr.Libc.{Text, strcmp_eq, strcmp_eq_refl, eq_of_strcmp_eq, strtok, strtol}
use gtu_cse344_systems_progr.Hogwarts.Stock.{
  Item, find_item, spell_qty, add_qty, spell_add, spell_sub, parse_positive_int, in_range,
}
use gtu_cse344_systems_progr.Hogwarts.Stock.Held.{
  under, held, find-found, spell_qty-set, spell_qty-held, add_qty-some, held-spell_add,
  spell_add-none,
}
use gtu_cse344_systems_progr.Hogwarts.Stock.Sub.{held-spell_sub}
use gtu_cse344_systems_progr.Hogwarts.Command.{
  Client, Done, done, overflow, delim, read_amount, brew, cmd_brew, consume, cmd_consume,
}

-- What the spellbooks of all clients hold under a name.
abbrev pub held_by : Text → List Client → ℕ
held_by t clients = weigh (λ c. held t c.spellbook) clients

pub record IsStocked (ingredients : List Item) (clients : List Client) : Type 0 where
  pub names : (i : ℕ) (x : Item) → get_elem? ingredients i ≡ some x → length x.name ≤ 16
  pub covered : (t : Text) → held_by t clients ≤ spell_qty ingredients t

-- A command changes its client's spellbook only.
pub record SameClient (c d : Client) : Type 0 where
  pub fd : d.fd ≡ c.fd
  pub username : d.username ≡ c.username
  pub enrolled : d.enrolled ≡ c.enrolled
  pub line_buf : d.line_buf ≡ c.line_buf

-- The stock covers the spellbooks afterwards, and no ingredient has more than its `bound`; an overflow
-- needs a bound above INT_MAX.
pub data Fine (clients : List Client) (j : ℕ) (c : Client) (bound : Text → ℕ) : Done → Type 0 where
  is_done :
      (ingredients : List Item) (d : Client) (t : Text)
      → IsStocked ingredients (set clients j d)
      → SameClient c d
      → ((u : Text) → spell_qty ingredients u ≤ bound u)
      → Fine clients j c bound (done ingredients d t)
  is_overflow : (u : Text) → int_max < bound u → Fine clients j c bound overflow

-- Another quantity keeps the names.
names-set :
    (ingredients : List Item) (i q : ℕ) (x : Item)
    → get_elem? ingredients i ≡ some x
    → ((k : ℕ) (y : Item) → get_elem? ingredients k ≡ some y → length y.name ≤ 16)
    → (k : ℕ) (y : Item) → get_elem? (set ingredients i (record x { qty = q })) k ≡ some y
    → length y.name ≤ 16
names-set ingredients i q x at short k y e = elim (Bool-cases (i == k)) [
  | inl here ↦
      let same : i ≡ k = ground arith in
      let found = get_elem?-set ingredients i x (record x { qty = q }) at in
      let new : record x { qty = q } ≡ y = cc in
      omega (arith, short i x at, ap (λ z. length z.name) new)
  | inr there ↦
      short k y
        (sym (get_elem?-set_other ingredients i k (record x { qty = q }) (ground arith)) ∙ e)
]

replaced :
    (items : List Item) (name t : Text) (n q : ℕ)
    → spell_qty items name ≡ n
    → (if strcmp_eq name t then n + q else spell_qty items t) ≡ spell_qty items t + under name t q
replaced items name t n q e = elim (Bool-cases (strcmp_eq name t)) [
  | inl here ↦ ground (arith, ap (spell_qty items) (eq_of_strcmp_eq name t here))
  | inr there ↦ ground arith
]

replaced_less :
    (items : List Item) (name t : Text) (n q : ℕ)
    → spell_qty items name ≡ n
    → q ≤ n
    → (if strcmp_eq name t then n - q else spell_qty items t) + under name t q ≡ spell_qty items t
replaced_less items name t n q e h = elim (Bool-cases (strcmp_eq name t)) [
  | inl here ↦ ground (arith, ap (spell_qty items) (eq_of_strcmp_eq name t here))
  | inr there ↦ ground arith
]

parse_positive_int-positive : (s : Text) (n : ℕ) → parse_positive_int s ≡ some n → 0 < n
unfolding parse_positive_int
parse_positive_int-positive [] n e = cc
parse_positive_int-positive (a ∷ s) n e =
    let (v, h, e1) = >>=-eq-some (strtol (a ∷ s)) _ e in
    let (u, g, e2) = >>=-eq-some (guard (length v.endptr == 0)) _ e1 in positive v.value n e2
  where
    positive : (k : ℤ) (n : ℕ) → in_range k ≡ some n → 0 < n
    positive (pos m) n e = ground arith
    positive (negsuc m) n e = cc

read_amount-positive : (args ing : Text) (qty : ℕ) → read_amount args ≡ some (ing, qty) → 0 < qty
unfolding read_amount
read_amount-positive args ing qty e = elim (Option-cases (strtok delim args)) [
  | inl n ↦ ground arith
  | inr ((a, rest), h) ↦ elim (Option-cases (strtok delim rest)) [
    | inl n ↦ ground arith
    | inr ((b, r), k) ↦ elim (Option-cases (parse_positive_int b)) [
      | inl n ↦ ground arith
      | inr (m, p) ↦ ground (arith, parse_positive_int-positive b m p)
    ]
  ]
]

under_self : (t : Text) (q : ℕ) → under t t q ≡ q
under_self t q = rw (strcmp_eq_refl t) refl

-- An addition to the stock fails on an overflow only.
add_qty-none :
    (items : List Item) (ing : Text) (idx q : ℕ)
    → find_item items ing ≡ some idx
    → add_qty items idx q ≡ none
    → int_max < spell_qty items ing + q
unfolding add_qty
add_qty-none items ing idx q found e =
    let (x, at, named) = find-found items ing idx found in ground arith

-- What an order of these arguments brews of ingredient `u`.
abbrev pub amount_of : Text → Text → ℕ
amount_of u args = elim (read_amount args) [ none ↦ 0 | some (ing, qty) ↦ under ing u qty ]

amount_of-some :
    (u args ing : Text) (qty : ℕ)
    → read_amount args ≡ some (ing, qty)
    → amount_of u args ≡ under ing u qty
amount_of-some u args ing qty e = rw (amount_of, e) refl

module _ (ingredients : List Item) (clients : List Client) (j : ℕ) (c : Client)
    (client : get_elem? clients j ≡ some c) (v : IsStocked ingredients clients) (bound : Text → ℕ)
    (less : (u : Text) → spell_qty ingredients u ≤ bound u) where
  -- A reply that changes nothing.
  unchanged : (t : Text) → Fine clients j c bound (done ingredients c t)
  unchanged t =
      is_done ingredients c t
        (record {
          names = v.names;
          covered = λ u.
              omega (arith, weigh-set (λ d. held u d.spellbook) clients j c c client, v.covered u);
        })
        (record { fd = refl; username = refl; enrolled = refl; line_buf = refl }) less

  brew-Fine :
      (ing : Text) (qty idx : ℕ)
      → find_item ingredients ing ≡ some idx
      → ((u : Text) → spell_qty ingredients u + under ing u qty ≤ bound u)
      → Fine clients j c bound (brew ingredients c ing qty idx)
  unfolding brew find_item
  brew-Fine ing qty idx found room = elim (Option-cases (add_qty ingredients idx qty)) [
    | inl too_many ↦
        rw (brew, too_many)
          (is_overflow ing (
            omega (
              arith,
              add_qty-none ingredients ing idx qty found too_many,
              room ing,
              under_self ing qty,
            )))
    | inr (more, added) ↦
        let (x, at, made, fits) = add_qty-some ingredients idx qty more added in
        let (y, at', named) = find-found ingredients ing idx found in
        let same : y ≡ x = cc in
        let short : length ing ≤ 16 =
          omega (arith, v.names idx x at, ap (λ z. length z.name) same, ap length named) in
        let stock : spell_qty ingredients ing ≡ x.qty = ground arith in
        let mine = weigh-part (λ d. held ing d.spellbook) clients j c client in
        elim (Option-cases (spell_add c.spellbook ing qty)) [
          | inl failed ↦
              absurd (omega (arith, spell_add-none c.spellbook ing qty failed, mine, v.covered ing))
          | inr (book, put) ↦
              let d : Client = record c { spellbook = book } in
              rw (brew, added, put)
                (is_done more d _
                  (record {
                    names = λ k z e.
                        names-set ingredients idx (x.qty + qty) x at v.names k z
                          (sym (ap (λ m. get_elem? m k) made) ∙ e);
                    covered = λ t.
                        let book_t = held-spell_add c.spellbook ing qty book t short put in
                        let all_t = weigh-set (λ d. held t d.spellbook) clients j c d client in
                        let stock_t =
                          ap (λ m. spell_qty m t) made
                          ∙ spell_qty-set ingredients ing idx (x.qty + qty) x t found at in
                        omega (
                          arith,
                          book_t,
                          all_t,
                          stock_t,
                          replaced ingredients ing t x.qty qty stock,
                          v.covered t,
                        );
                  })
                  (record { fd = refl; username = refl; enrolled = refl; line_buf = refl })
                  (λ u. omega (
                    arith,
                    room u,
                    ap (λ m. spell_qty m u) made,
                    spell_qty-set ingredients ing idx (x.qty + qty) x u found at,
                    replaced ingredients ing u x.qty qty stock,
                  )))
        ]
  ]

  consume-Fine :
      (ing : Text) (qty idx : ℕ)
      → 0 < qty
      → find_item ingredients ing ≡ some idx
      → Fine clients j c bound (consume ingredients c ing qty idx)
  unfolding consume find_item
  consume-Fine ing qty idx some_wanted found =
      elim (Bool-cases (ltb (spell_qty c.spellbook ing) qty)) [
        | inl short ↦ rw (consume, short) (unchanged _)
        | inr enough ↦
            let (x, at, named) = find-found ingredients ing idx found in
            let stock : spell_qty ingredients ing ≡ x.qty = ground arith in
            let mine = weigh-part (λ d. held ing d.spellbook) clients j c client in
            let has : qty ≤ spell_qty c.spellbook ing = ground arith in
            let covers : qty ≤ x.qty =
              omega (arith, mine, v.covered ing, spell_qty-held c.spellbook ing) in
            let no_less : ltb x.qty qty ≡ false = ground arith in
            let book = spell_sub c.spellbook ing qty in
            let d : Client = record c { spellbook = book } in
            rw (consume, enough, at, no_less)
              (is_done _ d _
                (record {
                  names = names-set ingredients idx (x.qty - qty) x at v.names;
                  covered = λ t. omega (
                    arith,
                    held-spell_sub c.spellbook ing qty t some_wanted has,
                    weigh-set (λ d. held t d.spellbook) clients j c d client,
                    spell_qty-set ingredients ing idx (x.qty - qty) x t found at,
                    replaced_less ingredients ing t x.qty qty stock covers,
                    v.covered t,
                  );
                })
                (record { fd = refl; username = refl; enrolled = refl; line_buf = refl })
                (λ u. omega (
                  arith,
                  less u,
                  spell_qty-set ingredients ing idx (x.qty - qty) x u found at,
                  replaced_less ingredients ing u x.qty qty stock covers,
                )))
      ]

  pub cmd_brew-Fine :
      (args : Text)
      → ((u : Text) → spell_qty ingredients u + amount_of u args ≤ bound u)
      → Fine clients j c bound (cmd_brew ingredients c args)
  unfolding cmd_brew
  cmd_brew-Fine args room = elim (Option-cases (read_amount args)) [
    | inl bad ↦ rw (cmd_brew, bad) (unchanged _)
    | inr ((ing, qty), read) ↦ elim (Option-cases (find_item ingredients ing)) [
      | inl unknown ↦ rw (cmd_brew, read, unknown) (unchanged _)
      | inr (idx, found) ↦
          rw (cmd_brew, read, found)
            (brew-Fine ing qty idx found
              (λ u. omega (arith, room u, amount_of-some u args ing qty read)))
    ]
  ]

  -- CONSUME never takes more than the stock has.
  pub cmd_consume-Fine : (args : Text) → Fine clients j c bound (cmd_consume ingredients c args)
  unfolding cmd_consume
  cmd_consume-Fine args = elim (Option-cases (read_amount args)) [
    | inl bad ↦ rw (cmd_consume, bad) (unchanged _)
    | inr ((ing, qty), read) ↦ elim (Option-cases (find_item ingredients ing)) [
      | inl unknown ↦ rw (cmd_consume, read, unknown) (unchanged _)
      | inr (idx, found) ↦
          rw (cmd_consume, read, found)
            (consume-Fine ing qty idx (read_amount-positive args ing qty read) found)
    ]
  ]
