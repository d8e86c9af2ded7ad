-- ===== src/Cargo/Shift/Sums.antt =====
-- Sums over the couriers, and over the orders of a list.
use gtu_cse344_systems_progr.Common.{
  ℕ, zero, suc, ◌+◌, ◌≡◌, refl, List, [], ◌∷◌, Bool, some, arith, get_elem?, set, bit,
}
use gtu_cse344_systems_progr.Cargo.Order.{Order}
use gtu_cse344_systems_progr.Cargo.Stats.{CourierStats}
use gtu_cse344_systems_progr.Cargo.Shift.{
  Pc, ready, delivering, logged, counted, timed, Courier, duration_ms, spawn_couriers,
}

module _ {ℓ} {A : Type ℓ} (w : A → ℕ) where
  abbrev pub total : List A → ℕ
  total [] = 0
  total (x ∷ xs) = w x + total xs

  -- A write at one index changes the sum by what is written there.
  pub total-set :
      (xs : List A) (i : ℕ) (x y : A)
      → get_elem? xs i ≡ some x
      → total (set xs i y) + w x ≡ total xs + w y
  total-set [] i x y h = cc
  total-set (z ∷ xs) zero x y h = let e : z ≡ x = cc in ground arith
  total-set (z ∷ xs) (suc i) x y h = omega (arith, total-set xs i x y h)

-- The order that a courier has taken and not yet logged as delivered, if it passes the test.
abbrev pub in_flight : (Order → Bool) → Pc → ℕ
in_flight p (delivering o) = bit (p o)
in_flight p _ = 0

-- Delivered, and not yet in `completed_orders`.
abbrev pub to_count : Pc → ℕ
to_count (logged o) = 1
to_count _ = 0

-- Delivered, and not yet in `total_delivery_time`: the milliseconds.
abbrev pub to_time : Pc → ℕ
to_time (logged o) = duration_ms o
to_time (counted o) = duration_ms o
to_time _ = 0

-- Delivered, and not yet in the courier's own statistics.
abbrev pub to_own : Pc → ℕ
to_own (logged o) = 1
to_own (counted o) = 1
to_own (timed o) = 1
to_own _ = 0

abbrev pub to_own_time : Pc → ℕ
to_own_time (logged o) = duration_ms o
to_own_time (counted o) = duration_ms o
to_own_time (timed o) = duration_ms o
to_own_time _ = 0

abbrev pub by_pc : (Pc → ℕ) → List Courier → ℕ
by_pc w = total (λ c. w c.pc)

abbrev pub own_completed : List Courier → ℕ
own_completed = total (λ c. c.stats.completed)

abbrev pub own_time : List Courier → ℕ
own_time = total (λ c. c.stats.total_time_ms)

abbrev pub time_of : List Order → ℕ
time_of = total duration_ms

-- A courier that has just been set up owes nothing.
pub by_pc-spawn : (w : Pc → ℕ) (i k : ℕ) → w ready ≡ 0 → by_pc w (spawn_couriers i k) ≡ 0
unfolding spawn_couriers
by_pc-spawn w i zero h = refl
by_pc-spawn w i (suc k) h = omega (arith, by_pc-spawn w (i + 1) k h)

pub own-spawn :
    (i k : ℕ) → (own_completed (spawn_couriers i k) ≡ 0) × (own_time (spawn_couriers i k) ≡ 0)
unfolding spawn_couriers
own-spawn i zero = (refl, refl)
own-spawn i (suc k) = omega (arith, own-spawn (i + 1) k)

-- What the sums become when one courier goes from `p`, with its own statistics, to `c`.
pub record Moved (cs : List Courier) (p : Pc) (own : CourierStats) (c : Courier)
    (cs' : List Courier) : Type 0 where
  pub flight :
      (q : Order → Bool)
      → by_pc (in_flight q) cs' + in_flight q p ≡ by_pc (in_flight q) cs + in_flight q c.pc
  pub counts : by_pc to_count cs' + to_count p ≡ by_pc to_count cs + to_count c.pc
  pub times : by_pc to_time cs' + to_time p ≡ by_pc to_time cs + to_time c.pc
  pub owns : by_pc to_own cs' + to_own p ≡ by_pc to_own cs + to_own c.pc
  pub own_times : by_pc to_own_time cs' + to_own_time p ≡ by_pc to_own_time cs + to_own_time c.pc
  pub completes : own_completed cs' + own.completed ≡ own_completed cs + c.stats.completed
  pub sums : own_time cs' + own.total_time_ms ≡ own_time cs + c.stats.total_time_ms

pub moved :
    (cs : List Courier) (i : ℕ) (p : Pc) (own : CourierStats) (c : Courier)
    → get_elem? cs i ≡ some (record { pc = p; stats = own })
    → Moved cs p own c (set cs i c)
moved cs i p own c h = record {
  flight = λ q. total-set (λ d. in_flight q d.pc) cs i _ c h;
  counts = total-set (λ d. to_count d.pc) cs i _ c h;
  times = total-set (λ d. to_time d.pc) cs i _ c h;
  owns = total-set (λ d. to_own d.pc) cs i _ c h;
  own_times = total-set (λ d. to_own_time d.pc) cs i _ c h;
  completes = total-set (λ d. d.stats.completed) cs i _ c h;
  sums = total-set (λ d. d.stats.total_time_ms) cs i _ c h;
}
