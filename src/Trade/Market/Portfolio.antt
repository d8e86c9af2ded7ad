-- ===== src/Trade/Market/Portfolio.antt =====
-- What the trades do to a portfolio.
use gtu_cse344_systems_progr.Common.{
  ℕ, suc, ◌+◌, ◌-◌, ◌≤◌, ◌<◌, ◌≡◌, refl, ap, sym, ◌∙◌, List, [], ◌∷◌, ◌++◌, none, some, leb, lt→ltb,
  take, take_all, ◌==◌, if◌then◌else◌, length, get_elem?, set, weigh, weigh-set, weigh-append,
  weigh-swap_remove, get_elem?-set, length-set, bit, Bool-cases, Option-cases, inl, inr, arith,
  int_max,
}
use gtu_cse344_systems_progr.Libc.{Text, strcmp_eq, eq_of_strcmp_eq}
use gtu_cse344_systems_progr.Trade.Market.{Holding, find_holding, add_shares, remove_shares}

-- `n` under the symbol `t`, 0 under the others.
abbrev pub under : Text → Text → ℕ → ℕ
under symbol t n = if strcmp_eq symbol t then n else 0

abbrev pub value : Text → Holding → ℕ
value t h = under h.symbol t h.qty

-- All the shares of `t` in a portfolio.
abbrev pub held : Text → List Holding → ℕ
held t portfolio = weigh (value t) portfolio

-- How many entries of a portfolio have the symbol `t`.
abbrev pub entries : Text → List Holding → ℕ
entries t portfolio = weigh (λ h. bit (strcmp_eq h.symbol t)) portfolio

pub find_holding-found :
    (portfolio : List Holding) (sym : Text) (i : ℕ) (h : Holding)
    → find_holding portfolio sym ≡ some (i, h)
    → (get_elem? portfolio i ≡ some h) × (h.symbol ≡ sym)
unfolding find_holding
find_holding-found [] sym i h e = cc
find_holding-found (x ∷ portfolio) sym i h e = elim (Bool-cases (strcmp_eq x.symbol sym)) [
  | inl here ↦
      let named = eq_of_strcmp_eq x.symbol sym here in
      let at : i ≡ 0 = ground arith in
      let same : x ≡ h = ground arith in (rw at (ap some same), sym_named x h same named)
  | inr there ↦ elim (Option-cases (find_holding portfolio sym)) [
    | inl n ↦ ground arith
    | inr ((k, y), found) ↦
        let at : i ≡ suc k = ground arith in
        let same : y ≡ h = ground arith in
        let (got, named) = find_holding-found portfolio sym k y found in
        (rw at (got ∙ ap some same), sym_named y h same named)
  ]
]
  where
    sym_named : (a b : Holding) → a ≡ b → a.symbol ≡ sym → b.symbol ≡ sym
    sym_named a b same named = cc

pub find_holding-none :
    (portfolio : List Holding) (sym : Text)
    → find_holding portfolio sym ≡ none
    → (entries sym portfolio ≡ 0) × (held sym portfolio ≡ 0)
unfolding find_holding
find_holding-none [] sym e = (refl, refl)
find_holding-none (x ∷ portfolio) sym e = elim (Bool-cases (strcmp_eq x.symbol sym)) [
  | inl here ↦ ground arith
  | inr there ↦ elim (Option-cases (find_holding portfolio sym)) [
    | inl n ↦ ground (arith, find_holding-none portfolio sym n)
    | inr ((k, y), found) ↦ ground arith
  ]
]

-- Another quantity in an entry of the symbol.
pub remove_shares-weigh :
    (f : Holding → ℕ) (portfolio : List Holding) (i : ℕ) (h : Holding) (q : ℕ)
    → get_elem? portfolio i ≡ some h
    → weigh f (remove_shares portfolio i h q) + f h
      ≡ weigh f portfolio + (if h.qty - q == 0 then 0 else f (record h { qty = h.qty - q }))
unfolding remove_shares
remove_shares-weigh f portfolio i h q e =
    let less : Holding = record h { qty = h.qty - q } in
    let left = set portfolio i less in
    let change = weigh-set f portfolio i h less e in
    let at = get_elem?-set portfolio i h less e in
    let removed = weigh-swap_remove f left i less less at in
    let long = length-set portfolio i less in
    elim (Bool-cases (h.qty - q == 0)) [
      | inl gone ↦ rw (gone, sym long) (omega (arith, change, removed))
      | inr stays ↦ rw stays change
    ]

-- A sale takes the shares, wherever the last entry moves to.
pub held-remove_shares :
    (portfolio : List Holding) (i : ℕ) (h : Holding) (q : ℕ) (t : Text)
    → get_elem? portfolio i ≡ some h
    → q ≤ h.qty
    → held t (remove_shares portfolio i h q) + under h.symbol t q ≡ held t portfolio
held-remove_shares portfolio i h q t e enough =
    ground (arith, remove_shares-weigh (value t) portfolio i h q e)

pub entries-remove_shares :
    (portfolio : List Holding) (i : ℕ) (h : Holding) (q : ℕ) (t : Text)
    → get_elem? portfolio i ≡ some h
    → entries t (remove_shares portfolio i h q) ≤ entries t portfolio
entries-remove_shares portfolio i h q t e =
    ground (arith, remove_shares-weigh (λ z. bit (strcmp_eq z.symbol t)) portfolio i h q e)

-- While there is room for a new entry, a purchase adds its shares.
pub held-add_shares :
    (portfolio p : List Holding) (sym : Text) (q : ℕ) (t : Text)
    → add_shares portfolio sym q ≡ some p
    → length sym ≤ 8
    → (find_holding portfolio sym ≡ none → length portfolio < 128)
    → held t p ≡ held t portfolio + under sym t q
unfolding add_shares
held-add_shares portfolio p sym q t e short room =
    elim (Option-cases (find_holding portfolio sym)) [
      | inl n ↦
          let fits = lt→ltb (length portfolio) 128 (room n) in
          let new : Holding = record { symbol = take 8 sym; qty = q } in
          let made : portfolio ++ new ∷ [] ≡ p = cc in
          let kept : take 8 sym ≡ sym = take_all 8 sym short in
          let named : under (take 8 sym) t q ≡ under sym t q = ap (λ n. under n t q) kept in
          rw (← made) (omega (arith, weigh-append (value t) portfolio (new ∷ []), named))
      | inr ((i, h), found) ↦
          let (at, named) = find_holding-found portfolio sym i h found in
          let more : Holding = record h { qty = h.qty + q } in
          let change = weigh-set (value t) portfolio i h more at in
          let same : under h.symbol t q ≡ under sym t q = ap (λ n. under n t q) named in
          elim (Bool-cases (leb (h.qty + q) int_max)) [
            | inl small ↦
                let made : set portfolio i more ≡ p = ground arith in
                rw (← made) (ground (arith, change, same))
            | inr large ↦ ground arith
          ]
    ]
