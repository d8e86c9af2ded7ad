-- ===== src/Cargo/Queue/Up.antt =====
-- `sift_up` restores the heap order when only the edge above one cell is out of order.
use gtu_cse344_systems_progr.Common.{
  ℕ, zero, suc, ◌+◌, ◌≤◌, ◌<◌, ◌≡◌, ◌≢◌, refl, List, true, inl, inr, arith, Bool-cases, length,
  lt→ltb,
}
use gtu_cse344_systems_progr.Cargo.Order.{Order, order_less, Before, Before-trans, Before-of_less}
use gtu_cse344_systems_progr.Cargo.Queue.{parent, sift_up_loop, sift_up}
use gtu_cse344_systems_progr.Cargo.Queue.Heap.{
  at, IsBridged, Sifted, less_at_lem, swap_at_lem, swapped, length-swapped, at-swapped,
  Sifted-swapped,
}

-- Only the edge above `i` may be out of order.
pub record IsRising (n : ℕ) (h : List Order) (i : ℕ) : Type 0 where
  pub inside : i < n
  pub within : n ≤ length h
  pub edges : (c : ℕ) → 0 < c → c < n → c ≢ i → Before (at h (parent c)) (at h c)
  pub bridged : IsBridged n h i

module _ (n : ℕ) (h : List Order) (i : ℕ) (v : IsRising n h i) (pos : 0 < i) (hi : i < length h)
    (hj : parent i < length h) (less : order_less (at h i) (at h (parent i)) ≡ true) where
  abbrev risen : List Order
  risen = swapped h i (parent i) hi hj

  risen-edges : (c : ℕ) → 0 < c → c < n → c ≢ parent i → Before (at risen (parent c)) (at risen c)
  risen-edges c p q ne = ground (
    arith,
    at-swapped h i (parent i) hi hj c,
    at-swapped h i (parent i) hi hj (parent c),
    Before-of_less (at h i) (at h (parent i)) less,
    v.bridged c,
    v.edges c,
    Before-trans (at h i) (at h (parent i)) (at h c),
  )

  risen-IsBridged : IsBridged n risen (parent i)
  risen-IsBridged c p q e r = ground (
    arith,
    at-swapped h i (parent i) hi hj c,
    at-swapped h i (parent i) hi hj (parent (parent i)),
    v.edges c,
    v.edges (parent i),
    v.inside,
    Before-trans (at h (parent (parent i))) (at h (parent i)) (at h c),
  )

  risen-IsRising : IsRising n risen (parent i)
  risen-IsRising =
      let size = length-swapped h i (parent i) hi hj in
      record {
        inside = omega (arith, v.inside);
        within = omega (arith, v.within);
        edges = risen-edges;
        bridged = risen-IsBridged;
      }

sift_up_loop-Sifted :
    (fuel n : ℕ) (h : List Order) (i : ℕ)
    → i < fuel
    → IsRising n h i
    → Sifted n h (sift_up_loop fuel h i)
unfolding sift_up_loop
sift_up_loop-Sifted zero n h i f v = absurd (omega arith)
sift_up_loop-Sifted (suc fuel) n h zero f v = record {
  result = h;
  returned = refl;
  heap = λ c p q. v.edges c p q (omega arith);
  same = λ p. refl;
  size = refl;
}
sift_up_loop-Sifted (suc fuel) n h (suc k) f v =
    let i = suc k in
    let hi : i < length h = omega (arith, v.inside, v.within) in
    let hj : parent i < length h = omega arith in
    rw (lt→ltb 0 i (omega arith), less_at_lem h i (parent i) hi hj)
      (elim (Bool-cases (order_less (at h i) (at h (parent i)))) [
        | inl less ↦
            rw (less, swap_at_lem h i (parent i) hi hj)
              (Sifted-swapped n h i (parent i) hi hj v.inside (omega (arith, v.inside)) _ (
                sift_up_loop-Sifted fuel n (swapped h i (parent i) hi hj) (parent i) (omega arith)
                  (risen-IsRising n h i v (omega arith) hi hj less)))
        | inr settled ↦ rw settled (record {
          result = h;
          returned = refl;
          heap = λ c p q. ground (arith, v.edges c);
          same = λ p. refl;
          size = refl;
        })
      ])

-- `sift_up` turns an array with one cell too low in the tree into a heap of the same orders.
pub sift_up-Sifted : (n : ℕ) (h : List Order) (i : ℕ) → IsRising n h i → Sifted n h (sift_up h i)
unfolding sift_up
sift_up-Sifted n h i v = sift_up_loop-Sifted (i + 1) n h i (omega arith) v
