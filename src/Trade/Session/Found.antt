-- ===== src/Trade/Session/Found.antt =====
-- The stock of a symbol, and a purchase that is refused for its size.
use gtu_cse344_systems_progr.Common.{
  ℕ, zero, suc, ◌+◌, ◌≤◌, ◌<◌, ◌≡◌, ◌≢◌, ap, sym, ◌∙◌, List, [], ◌∷◌, true, none, some, get_elem?,
  weigh-part, Bool-cases, Option-cases, inl, inr, arith, int_max, eq_of_some,
}
use gtu_cse344_systems_progr.Libc.{Text, strcmp_eq, eq_of_strcmp_eq, strcmp_eq_refl}
use gtu_cse344_systems_progr.Trade.Market.{Stock, Holding, find_stock, find_holding, add_shares}
use gtu_cse344_systems_progr.Trade.Market.Portfolio.{held, value, find_holding-found}
use gtu_cse344_systems_progr.Trade.Session.Refusals.{IsListed}

pub find_stock-IsListed :
    (stocks : List Stock) (t : Text) (i : ℕ) (x : Stock)
    → find_stock stocks t ≡ some (i, x)
    → IsListed stocks t i x
unfolding find_stock
find_stock-IsListed [] t i x e = cc
find_stock-IsListed (y ∷ stocks) t i x e = elim (Bool-cases (strcmp_eq y.symbol t)) [
  | inl here ↦
      let at : i ≡ 0 = ground arith in
      let same : y ≡ x = ground arith in
      (
        rw at (ap some same),
        ap (λ (z : Stock). z.symbol) (sym same) ∙ eq_of_strcmp_eq y.symbol t here,
      )
  | inr there ↦ elim (Option-cases (find_stock stocks t)) [
    | inl n ↦ ground arith
    | inr ((k, z), found) ↦
        let at : i ≡ suc k = ground arith in
        let same : z ≡ x = ground arith in
        let (got, named) = find_stock-IsListed stocks t k z found in
        (rw at (got ∙ ap some same), ap (λ (w : Stock). w.symbol) (sym same) ∙ named)
  ]
]

pub find_stock-none :
    (stocks : List Stock) (t : Text) (i : ℕ) (x : Stock)
    → find_stock stocks t ≡ none
    → get_elem? stocks i ≡ some x
    → x.symbol ≢ t
unfolding find_stock
find_stock-none [] t i x e at same = cc
find_stock-none (y ∷ stocks) t zero x e at same =
    let here : y ≡ x = eq_of_some y x at in
    let found : strcmp_eq y.symbol t ≡ true =
      ap (strcmp_eq y.symbol) (sym same ∙ ap (λ (w : Stock). w.symbol) (sym here))
      ∙ strcmp_eq_refl y.symbol in
    ground arith
find_stock-none (y ∷ stocks) t (suc i) x e at same = elim (Option-cases (find_stock stocks t)) [
  | inl nowhere ↦ find_stock-none stocks t i x nowhere at same
  | inr ((k, z), h) ↦ elim (Bool-cases (strcmp_eq y.symbol t)) [
    | inl first ↦ ground arith
    | inr later ↦ ground arith
  ]
]

-- An addition that is refused takes what is held above INT_MAX.
pub add_shares-over :
    (p : List Holding) (t : Text) (q : ℕ) → add_shares p t q ≡ none → int_max < held t p + q
unfolding add_shares
add_shares-over p t q e = elim (Option-cases (find_holding p t)) [
  | inl n ↦ ground arith
  | inr ((i, h), found) ↦
      let (at, named) = find_holding-found p t i h found in
      let mine : h.qty ≤ value t h = rw (named, strcmp_eq_refl t) (omega arith) in
      ground (arith, mine, weigh-part (value t) p i h at)
]
