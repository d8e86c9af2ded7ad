-- ===== src/Trade/Market/Limits.antt =====
-- The portfolios that the server keeps: entries of different listed symbols with quantities in
-- 1 .. INT_MAX. There are no more of them than stocks.
use gtu_cse344_systems_progr.Common.{
  ℕ, ◌+◌, ◌-◌, ◌≤◌, ◌<◌, ◌≡◌, refl, ap, sym, List, [], ◌∷◌, ◌++◌, Bool, true, false, none, some,
  leb, lt→ltb, ◌==◌, ◌||◌, not, length, get_elem?, set, take, take_all, weigh-set, weigh-append,
  filter, All, All-get, All-set, All-swap_remove, get_elem?-length, length-set, All-append, bit,
  Bool-cases, Option-cases, inl, inr, arith, int_max,
}
use gtu_cse344_systems_progr.Libc.{Text, strcmp_eq, eq_of_strcmp_eq}
use gtu_cse344_systems_progr.Trade.Market.{Holding, find_holding, add_shares, remove_shares}
use gtu_cse344_systems_progr.Trade.Market.Portfolio.{
  entries, find_holding-found, find_holding-none, entries-remove_shares,
}

-- One of the symbols is `t`.
abbrev pub lists : List Text → Text → Bool
lists [] t = false
lists (x ∷ symbols) t = strcmp_eq t x || lists symbols t

abbrev pub IsHolding : List Text → Holding → Type 0
IsHolding symbols h = (lists symbols h.symbol ≡ true) × (0 < h.qty) × (h.qty ≤ int_max)

pub record IsPortfolio (symbols : List Text) (portfolio : List Holding) : Type 0 where
  pub holdings : All (IsHolding symbols) portfolio
  pub single : (t : Text) → entries t portfolio ≤ 1

-- The entries of another symbol than `t`.
others : Text → List Holding → List Holding
others t portfolio = filter (λ h. not (strcmp_eq h.symbol t)) portfolio

length-others : (t : Text) (p : List Holding) → length (others t p) + entries t p ≡ length p
unfolding others
length-others t [] = refl
length-others t (h ∷ p) = ground (arith, length-others t p)

entries-others : (t u : Text) (p : List Holding) → entries u (others t p) ≤ entries u p
unfolding others
entries-others t u [] = omega arith
entries-others t u (h ∷ p) = ground (arith, entries-others t u p)

-- What is not of the first symbol is of the others.
listed-others :
    (x : Text) (symbols : List Text) (p : List Holding)
    → All (λ h. lists (x ∷ symbols) h.symbol ≡ true) p
    → All (λ h. lists symbols h.symbol ≡ true) (others x p)
unfolding others
listed-others x symbols [] a = tt
listed-others x symbols (h ∷ p) a = elim (Bool-cases (strcmp_eq h.symbol x)) [
  | inl same ↦ rw same (listed-others x symbols p a.1)
  | inr apart ↦ rw apart (ground arith, listed-others x symbols p a.1)
]

-- Entries of different symbols are no more than the symbols.
pub length-le :
    (symbols : List Text) (p : List Holding)
    → All (λ h. lists symbols h.symbol ≡ true) p
    → ((t : Text) → entries t p ≤ 1)
    → length p ≤ length symbols
length-le [] [] a one = omega arith
length-le [] (h ∷ p) a one = absurd (cc a.0)
length-le (x ∷ symbols) p a one = omega (
  arith,
  length-others x p,
  one x,
  length-le symbols (others x p) (listed-others x symbols p a)
      (λ t. omega (arith, entries-others x t p, one t)),
)

pub All-listed :
    (symbols : List Text) (p : List Holding)
    → All (IsHolding symbols) p
    → All (λ h. lists symbols h.symbol ≡ true) p
All-listed symbols [] a = tt
All-listed symbols (h ∷ p) a = (a.0.0, All-listed symbols p a.1)

-- There is room for a symbol that is listed and not held yet.
pub room-new :
    (symbols : List Text) (p : List Holding) (sym : Text)
    → IsPortfolio symbols p
    → length symbols ≤ 128
    → lists symbols sym ≡ true
    → find_holding p sym ≡ none
    → length p < 128
room-new symbols p sym v few l n =
    let new : Holding = record { symbol = sym; qty = 1 } in
    let absent = (find_holding-none p sym n).0 in
    omega (
      arith,
      length-le symbols (new ∷ p) (l, All-listed symbols p v.holdings) (λ t. at_most_one t absent),
    )
  where
    at_most_one : (t : Text) → entries sym p ≡ 0 → bit (strcmp_eq sym t) + entries t p ≤ 1
    at_most_one t absent = elim (Bool-cases (strcmp_eq sym t)) [
      | inl same ↦
          let eq = ap (λ u. entries u p) (eq_of_strcmp_eq sym t same) in
          rw same (omega (arith, eq, absent))
      | inr apart ↦ rw apart (omega (arith, v.single t))
    ]

-- A purchase of a listed symbol keeps the portfolio so.
pub add_shares-IsPortfolio :
    (symbols : List Text) (p p' : List Holding) (sym : Text) (q : ℕ)
    → IsPortfolio symbols p
    → length symbols ≤ 128
    → lists symbols sym ≡ true
    → length sym ≤ 8
    → 0 < q
    → q ≤ int_max
    → add_shares p sym q ≡ some p'
    → IsPortfolio symbols p'
unfolding add_shares
add_shares-IsPortfolio symbols p p' sym q v few l short pos_q small e =
    elim (Option-cases (find_holding p sym)) [
      | inl n ↦
          let absent = (find_holding-none p sym n).0 in
          let fits = lt→ltb (length p) 128 (room-new symbols p sym v few l n) in
          let new : Holding = record { symbol = sym; qty = q } in
          let kept = take_all 8 sym short in
          let same : record new { symbol = take 8 sym } ≡ new =
            ap (λ n. record new { symbol = n }) kept in
          let made : p ++ new ∷ [] ≡ p' = cc in
          rw (← made) (record {
            holdings =
                All-append (IsHolding symbols) p (new ∷ []) v.holdings ((l, pos_q, small), tt);
            single = λ t. omega (
              arith,
              weigh-append (λ h. bit (strcmp_eq h.symbol t)) p (new ∷ []),
              one_more t absent,
            );
          })
      | inr ((i, h), found) ↦
          let (at, named) = find_holding-found p sym i h found in
          let more : Holding = record h { qty = h.qty + q } in
          let old = All-get (IsHolding symbols) p i h v.holdings at in
          elim (Bool-cases (leb (h.qty + q) int_max)) [
            | inl fit ↦
                let made : set p i more ≡ p' = ground arith in
                rw (← made) (record {
                  holdings =
                      All-set (IsHolding symbols) p i more v.holdings
                        (old.0, omega arith, ground arith);
                  single = λ t. omega (
                    arith,
                    weigh-set (λ z. bit (strcmp_eq z.symbol t)) p i h more at,
                    v.single t,
                  );
                })
            | inr large ↦ ground arith
          ]
    ]
  where
    one_more : (t : Text) → entries sym p ≡ 0 → bit (strcmp_eq sym t) + entries t p ≤ 1
    one_more t absent = elim (Bool-cases (strcmp_eq sym t)) [
      | inl same ↦
          let eq = ap (λ u. entries u p) (eq_of_strcmp_eq sym t same) in
          rw same (omega (arith, eq, absent))
      | inr apart ↦ rw apart (omega (arith, v.single t))
    ]

-- So does a sale.
pub remove_shares-IsPortfolio :
    (symbols : List Text) (p : List Holding) (i : ℕ) (h : Holding) (q : ℕ)
    → IsPortfolio symbols p
    → get_elem? p i ≡ some h
    → q ≤ h.qty
    → IsPortfolio symbols (remove_shares p i h q)
unfolding remove_shares
remove_shares-IsPortfolio symbols p i h q v at enough = record {
  holdings = kept;
  single = λ t. omega (arith, entries-remove_shares p i h q t at, v.single t);
}
  where
    less : Holding
    less = record h { qty = h.qty - q }

    old : IsHolding symbols h
    old = All-get (IsHolding symbols) p i h v.holdings at

    kept : All (IsHolding symbols) (remove_shares p i h q)
    kept = elim (Bool-cases (h.qty - q == 0)) [
      | inl gone ↦
          rw (gone, sym (length-set p i less))
            (All-swap_remove (IsHolding symbols) p i less (get_elem?-length p i h at) v.holdings)
      | inr stays ↦ rw stays (
          All-set (IsHolding symbols) p i less v.holdings
            (old.0, ground arith, omega (arith, old.2)))
    ]
