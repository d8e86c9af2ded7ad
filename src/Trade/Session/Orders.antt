-- ===== src/Trade/Session/Orders.antt =====
-- The orders that BUY and SELL read.
use gtu_cse344_systems_progr.Common.{
  ℕ, ◌≤◌, ◌<◌, ◌≡◌, ap, sym, ◌∙◌, some, length, Option-cases, inl, inr, arith, int_max, ℤ, pos,
  negsuc,
}
use gtu_cse344_systems_progr.Libc.{Text, scan_word, scan_int, scan_word-le, strtol, wrap_int}
use gtu_cse344_systems_progr.Trade.Market.{positive, read_order}

wrap_int-positive : (v : ℤ) (q : ℕ) → positive (wrap_int v) ≡ some q → (0 < q) × (q ≤ int_max)
wrap_int-positive (pos n) q e = ground arith
wrap_int-positive (negsuc n) q e = ground arith

scan_int-positive :
    (s : Text) (z : ℤ) (q : ℕ) → scan_int s ≡ some z → positive z ≡ some q → (0 < q) × (q ≤ int_max)
unfolding scan_int
scan_int-positive s z q e p = elim (Option-cases (strtol s)) [
  | inl n ↦ ground arith
  | inr (v, h) ↦
      let wrapped : wrap_int v.value ≡ z = ground arith in
      wrap_int-positive v.value q (ap positive wrapped ∙ p)
]

-- What an order gives: a symbol of at most 8 bytes and a quantity in 1 .. INT_MAX.
pub read_order-IsOrder :
    (args sym : Text) (q : ℕ)
    → read_order args ≡ some (sym, q)
    → (length sym ≤ 8) × (0 < q) × (q ≤ int_max)
unfolding read_order
read_order-IsOrder args sym q e = elim (Option-cases (scan_word 8 args)) [
  | inl n ↦ ground arith
  | inr ((w, rest), h) ↦ elim (Option-cases (scan_int rest)) [
    | inl n ↦ ground arith
    | inr (z, k) ↦ elim (Option-cases (positive z)) [
      | inl n ↦ ground arith
      | inr (m, l) ↦
          let word : w ≡ sym = ground arith in
          let number : m ≡ q = ground arith in
          let (some_shares, fits) = scan_int-positive rest z m k l in
          (
            omega (arith, scan_word-le 8 args w rest h, ap length word),
            omega (arith, number, some_shares),
            omega (arith, number, fits),
          )
    ]
  ]
]
