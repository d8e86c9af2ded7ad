-- ===== src/Trade/Server/Open.antt =====
-- The server as `main` opens it on the stocks of a file.
use gtu_cse344_systems_progr.Common.{
  ℕ, zero, suc, ◌+◌, ◌≤◌, ◌<◌, ◌≡◌, ◌≢◌, refl, ap, sym, List, [], ◌∷◌, ◌++◌, true, false, some, leb,
  leb-false, all, length, length-append, take, take_all, get_elem?, replicate, All, All-append,
  Bool-cases, Option-cases, inl, inr, arith, eq_of_some,
}
use gtu_cse344_systems_progr.Libc.{
  Text, scan_word, scan_word-le, scan_word-ne-nil, fgets, fgets-lt, c_string,
}
use gtu_cse344_systems_progr.Trade.Market.{
  Floats, Stock, is_symbol_char, stock_of_line, load_loop, load_stocks,
}
use gtu_cse344_systems_progr.Trade.Session.{Client}
use gtu_cse344_systems_progr.Trade.Session.Slots.{symbols, IsClient}
use gtu_cse344_systems_progr.Trade.Server.{free_client, open_server}
use gtu_cse344_systems_progr.Trade.Server.Run.{IsServing}

-- A stock that passed every check: 1 to 8 capital letters and digits, and a price above 0.
pub record IsStock (fl : Floats) (x : Stock) : Type 0 where
  pub named : x.symbol ≢ []
  pub short : length x.symbol ≤ 8
  pub capital : all is_symbol_char x.symbol ≡ true
  pub priced : fl.at_most_zero x.price ≡ false

stock_of_line-IsStock :
    (fl : Floats) (line : Text) (x : Stock) → stock_of_line fl line ≡ some x → IsStock fl x
unfolding stock_of_line
stock_of_line-IsStock fl line x e = elim (Option-cases (scan_word 8 line)) [
  | inl n ↦ ground arith
  | inr ((sym, rest), h) ↦ elim (Option-cases (fl.scan rest)) [
    | inl n ↦ ground arith
    | inr (price, k) ↦
        let short = scan_word-le 8 line sym rest h in
        let kept = take_all 8 sym short in
        elim (Bool-cases (fl.at_most_zero price)) [
          | inl low ↦ ground arith
          | inr high ↦ elim (Bool-cases (all is_symbol_char sym)) [
            | inl capital ↦
                let made : record { symbol = take 8 sym; price = price } ≡ x = ground arith in
                let good : IsStock fl (record { symbol = take 8 sym; price = price }) = record {
                  named = λ n. scan_word-ne-nil 7 line sym rest h (sym' kept n);
                  short = omega (arith, ap length kept);
                  capital = rw kept capital;
                  priced = high;
                } in
                rw (← made) good
            | inr other ↦ ground arith
          ]
        ]
  ]
]
  where
    sym' : {a b : Text} → a ≡ b → a ≡ [] → b ≡ []
    sym' e n = cc

load_loop-IsStock :
    (fl : Floats) (fuel : ℕ) (file : List ℕ) (stocks : List Stock)
    → length file < fuel
    → All (IsStock fl) stocks
    → length stocks ≤ 128
    → (all_stocks : List Stock) × (load_loop fl fuel file stocks ≡ some all_stocks)
      × All (IsStock fl) all_stocks
      × (length all_stocks ≤ 128)
unfolding load_loop
load_loop-IsStock fl zero file stocks enough a few = absurd (omega arith)
load_loop-IsStock fl (suc fuel) file stocks enough a few = elim (Option-cases (fgets 256 file)) [
  | inl n ↦ (stocks, rw (load_loop, n) refl, a, few)
  | inr ((line, rest), h) ↦
      let shorter : length rest < fuel =
        omega (arith, fgets-lt 256 file line rest (omega arith) h) in
      elim (Option-cases (stock_of_line fl (c_string line))) [
        | inl n ↦
            let (xs, e, b, l) = load_loop-IsStock fl fuel rest stocks shorter a few in
            (xs, rw (load_loop, h, n) e, b, l)
        | inr (x, k) ↦ elim (Bool-cases (leb 128 (length stocks))) [
          | inl full ↦ (stocks, rw (load_loop, h, k, full) refl, a, few)
          | inr room ↦
              let good = stock_of_line-IsStock fl (c_string line) x k in
              let (xs, e, b, l) =
                load_loop-IsStock fl fuel rest (stocks ++ x ∷ []) shorter
                  (All-append (IsStock fl) stocks (x ∷ []) a (good, tt))
                  (omega
                    (arith, length-append stocks (x ∷ []), leb-false 128 (length stocks) room)) in
              (xs, rw (load_loop, h, k, room) e, b, l)
        ]
      ]
]

length-symbols : (stocks : List Stock) → length (symbols stocks) ≡ length stocks
length-symbols [] = refl
length-symbols (x ∷ stocks) = ap suc (length-symbols stocks)

short-symbols :
    (fl : Floats) (stocks : List Stock)
    → All (IsStock fl) stocks
    → All (λ t. length t ≤ 8) (symbols stocks)
short-symbols fl [] a = tt
short-symbols fl (x ∷ stocks) a = (a.0.short, short-symbols fl stocks a.1)

replicate-IsClient : (listed : List Text) (n : ℕ) → All (IsClient listed) (replicate n free_client)
replicate-IsClient listed zero = tt
replicate-IsClient listed (suc n) = (
  record {
    portfolio = record { holdings = tt; single = λ t. omega arith };
    name = omega arith;
    buffer = omega arith;
  },
  replicate-IsClient listed n,
)

replicate-free :
    (n i : ℕ) (c : Client) → get_elem? (replicate n free_client) i ≡ some c → free_client ≡ c
replicate-free zero i c e = cc
replicate-free (suc n) zero c e = eq_of_some _ c e
replicate-free (suc n) (suc i) c e = replicate-free n i c e

-- Loading ends on every file, with at most 128 stocks that passed the checks: their symbols have 1 to
-- 8 capital letters and digits, and their prices are above 0. On them the server opens in the
-- invariant.
pub load_stocks-IsServing :
    (fl : Floats) (file : List ℕ)
    → (stocks : List Stock) × (load_stocks fl file ≡ some stocks)
      × All (IsStock fl) stocks
      × (length stocks ≤ 128)
      × IsServing (symbols stocks) (open_server stocks)
unfolding load_stocks
load_stocks-IsServing fl file =
    let (stocks, e, a, few) =
      load_loop-IsStock fl (length file + 1) file [] (omega arith) tt (omega arith) in
    (
      stocks,
      e,
      a,
      few,
      (
        record {
          few = omega (arith, few, length-symbols stocks);
          short = short-symbols fl stocks a;
          slots = refl;
          clients = replicate-IsClient (symbols stocks) 10;
          unique = λ i j c d at_i at_j m n same.
              let free = replicate-free 10 i c at_i in absurd (cc free);
          counted = refl;
        },
        refl,
      ),
    )
