-- ===== src/Cargo/Queue/Heap.antt =====
-- The heap order on the first cells of the array, and what one comparison and one swap do.
use gtu_cse344_systems_progr.Common.{
  ℕ, zero, suc, ◌<◌, ◌≡◌, List, Option, some, arith, ◌∙◌, ◌==◌, if◌then◌else◌, length, get_or, set,
  take, get_elem?-eq-get_or, get_or-set, length-set, SameItems, count-take-set,
}
use gtu_cse344_systems_progr.Cargo.Order.{Order, order_less, Before, Before-refl, Before-trans}
use gtu_cse344_systems_progr.Cargo.Queue.{no_order, parent, less_at, swap_at}

-- `heap[i]`, inside the array.
abbrev pub at : List Order → ℕ → Order
at heap i = get_or heap i no_order

-- No cell of the first `n` is served before its parent.
abbrev pub IsHeap : ℕ → List Order → Type 0
IsHeap n h = (c : ℕ) → 0 < c → c < n → Before (at h (parent c)) (at h c)

-- No child of `i` is served before the parent of `i`.
abbrev pub IsBridged : ℕ → List Order → ℕ → Type 0
IsBridged n h i = (c : ℕ) → 0 < c → c < n → parent c ≡ i → 0 < i → Before (at h (parent i)) (at h c)

-- What a sift returns: a heap over the same cells, holding the same orders.
pub record Sifted (n : ℕ) (h : List Order) (r : Option (List Order)) : Type 0 where
  pub result : List Order
  pub returned : r ≡ some result
  pub heap : IsHeap n result
  pub same : SameItems (take n result) (take n h)
  pub size : length result ≡ length h

root_first_below :
    (k n : ℕ) (h : List Order) (i : ℕ) → IsHeap n h → i < k → i < n → Before (at h 0) (at h i)
root_first_below zero n h i v f p = absurd (omega arith)
root_first_below (suc k) n h zero v f p = Before-refl (at h 0)
root_first_below (suc k) n h (suc i) v f p =
    Before-trans (at h 0) (at h (parent (suc i))) (at h (suc i))
      (root_first_below k n h (parent (suc i)) v (omega arith) (omega arith))
      (v (suc i) (omega arith) p)

-- No order of a heap is served before its root.
pub root_first : (n : ℕ) (h : List Order) (i : ℕ) → IsHeap n h → i < n → Before (at h 0) (at h i)
root_first n h i v p = root_first_below (suc i) n h i v (omega arith) p

module _ (h : List Order) (i j : ℕ) (hi : i < length h) (hj : j < length h) where
  pub less_at_lem : less_at h i j ≡ some (order_less (at h i) (at h j))
  unfolding less_at
  less_at_lem = rw (get_elem?-eq-get_or h i no_order hi, get_elem?-eq-get_or h j no_order hj)

  abbrev pub swapped : List Order
  swapped = set (set h i (at h j)) j (at h i)

  pub swap_at_lem : swap_at h i j ≡ some swapped
  unfolding swap_at
  swap_at_lem = rw (get_elem?-eq-get_or h i no_order hi, get_elem?-eq-get_or h j no_order hj)

  pub length-swapped : length swapped ≡ length h
  length-swapped = simp length-set

  pub at-swapped :
      (c : ℕ) → at swapped c ≡ (if j == c then at h i else if i == c then at h j else at h c)
  at-swapped c = rw (
    get_or-set (set h i (at h j)) j c (at h i) no_order (rw length-set hj),
    get_or-set h i c (at h j) no_order hi,
  )

  pub swapped-same : (n : ℕ) → i < n → j < n → SameItems (take n swapped) (take n h)
  swapped-same n ni nj p =
      let first = count-take-set p n h i (at h j) no_order ni hi in
      let size = length-set h i (at h j) in
      let second = count-take-set p n (set h i (at h j)) j (at h i) no_order nj (omega arith) in
      ground (arith, get_or-set h i j (at h j) no_order hi)

-- A round that swaps leaves the rest to the next round.
pub Sifted-swapped :
    (n : ℕ) (h : List Order) (i j : ℕ) (hi : i < length h) (hj : j < length h)
    → i < n
    → j < n
    → (r : Option (List Order)) → Sifted n (swapped h i j hi hj) r
    → Sifted n h r
Sifted-swapped n h i j hi hj ni nj r s = record {
  result = s.result;
  returned = s.returned;
  heap = s.heap;
  same = λ p. s.same p ∙ swapped-same h i j hi hj n ni nj p;
  size = s.size ∙ length-swapped h i j hi hj;
}
