-- ===== src/Cargo/Queue/Down.antt =====
-- `sift_down` restores the heap order when only the edges below one cell are out of order.
use gtu_cse344_systems_progr.Common.{
  ℕ, zero, suc, ◌+◌, ◌-◌, ◌*◌, ◌≤◌, ◌<◌, ◌≡◌, ◌≢◌, ◌⊎◌, refl, List, true, some, inl, inr, arith,
  ltb, ◌==◌, Bool-cases, length,
}
use gtu_cse344_systems_progr.Cargo.Order.{
  Order, order_less, Before, Before-refl, Before-trans, Before-of_less,
}
use gtu_cse344_systems_progr.Cargo.Queue.{parent, better_child, sift_down_loop, sift_down}
use gtu_cse344_systems_progr.Cargo.Queue.Heap.{
  at, IsHeap, IsBridged, Sifted, less_at_lem, swap_at_lem, swapped, length-swapped, at-swapped,
  Sifted-swapped,
}

-- Only the edges below `i` may be out of order.
pub record IsSinking (n : ℕ) (h : List Order) (i : ℕ) : Type 0 where
  pub inside : i < n
  pub within : n ≤ length h
  pub edges : (c : ℕ) → 0 < c → c < n → parent c ≢ i → Before (at h (parent c)) (at h c)
  pub bridged : IsBridged n h i

-- What a candidate for the swap becomes by one comparison with the cell `c`.
record Better (n : ℕ) (h : List Order) (c best m : ℕ) : Type 0 where
  inside : m < n
  chosen : (m ≡ best) ⊎ (m ≡ c)
  keeps : Before (at h m) (at h best)
  beats : c < n → Before (at h m) (at h c)
  strict : m ≢ best → order_less (at h m) (at h best) ≡ true

better_child-Better :
    (n : ℕ) (h : List Order) (c best : ℕ)
    → best < n
    → n ≤ length h
    → (m : ℕ) × (better_child h n c best ≡ some m) × Better n h c best m
unfolding better_child
better_child-Better n h c best p q = elim (Bool-cases (ltb c n)) [
  | inl there ↦
      let hc : c < length h = ground arith in
      elim (Bool-cases (order_less (at h c) (at h best))) [
        | inl less ↦ (
          c,
          rw (there, less_at_lem h c best hc (omega arith), less),
          record {
            inside = ground arith;
            chosen = inr refl;
            keeps = Before-of_less (at h c) (at h best) less;
            beats = λ _. Before-refl (at h c);
            strict = λ _. less;
          },
        )
        | inr not_less ↦ (
          best,
          rw (there, less_at_lem h c best hc (omega arith), not_less),
          record {
            inside = p;
            chosen = inl refl;
            keeps = Before-refl (at h best);
            beats = λ _. not_less;
            strict = λ ne. absurd (ne refl);
          },
        )
      ]
  | inr past ↦ (
    best,
    rw past,
    record {
      inside = p;
      chosen = inl refl;
      keeps = Before-refl (at h best);
      beats = λ k. absurd (ground arith);
      strict = λ ne. absurd (ne refl);
    },
  )
]

-- The cell that goes up: `i` itself, or a child of `i`, and none of the three comes before it.
record IsBest (n : ℕ) (h : List Order) (i m : ℕ) : Type 0 where
  inside : m < n
  child : (m ≡ i) ⊎ (parent m ≡ i)
  positive : m ≢ i → 0 < m
  first : (c : ℕ) → 0 < c → c < n → parent c ≡ i → Before (at h m) (at h c)
  strict : m ≢ i → Before (at h m) (at h i)

IsBest-of :
    (n : ℕ) (h : List Order) (i l m : ℕ)
    → Better n h (2 * i + 1) i l
    → Better n h (2 * i + 2) l m
    → IsBest n h i m
IsBest-of n h i l m a b = record {
  inside = b.inside;
  child = ground arith;
  positive = ground arith;
  first =
      λ c p q e. ground (arith, a.beats, b.beats, Before-trans (at h m) (at h l) (at h c), b.keeps);
  strict = λ _. Before-trans (at h m) (at h l) (at h i) b.keeps a.keeps;
}

module _ (n : ℕ) (h : List Order) (i m : ℕ) (v : IsSinking n h i) (s : IsBest n h i m) (ne : m ≢ i)
    (hi : i < length h) (hm : m < length h) where
  abbrev sunk : List Order
  sunk = swapped h i m hi hm

  sunk-edges : (c : ℕ) → 0 < c → c < n → parent c ≢ m → Before (at sunk (parent c)) (at sunk c)
  sunk-edges c p q other = ground (
    arith,
    at-swapped h i m hi hm c,
    at-swapped h i m hi hm (parent c),
    v.edges c,
    v.bridged m,
    s.first c,
    s.inside,
    s.child,
    s.positive ne,
    s.strict ne,
  )

  sunk-IsBridged : IsBridged n sunk m
  sunk-IsBridged c p q e r =
      ground
        (arith, at-swapped h i m hi hm c, at-swapped h i m hi hm (parent m), v.edges c, s.child)

  sunk-IsSinking : IsSinking n sunk m
  sunk-IsSinking =
      let size = length-swapped h i m hi hm in
      record {
        inside = s.inside;
        within = omega (arith, v.within);
        edges = sunk-edges;
        bridged = sunk-IsBridged;
      }

settled : (n : ℕ) (h : List Order) (i m : ℕ) → IsSinking n h i → IsBest n h i m → m ≡ i → IsHeap n h
settled n h i m v s e = λ c p q. ground (arith, v.edges c, s.first c)

sift_down_loop-Sifted :
    (fuel n : ℕ) (h : List Order) (i : ℕ)
    → n - i < fuel
    → IsSinking n h i
    → Sifted n h (sift_down_loop fuel h n i)
unfolding sift_down_loop
sift_down_loop-Sifted zero n h i f v = absurd (omega arith)
sift_down_loop-Sifted (suc fuel) n h i f v =
    let (l, el, a) = better_child-Better n h (2 * i + 1) i v.inside v.within in
    let (m, em, b) = better_child-Better n h (2 * i + 2) l a.inside v.within in
    let s : IsBest n h i m = IsBest-of n h i l m a b in
    rw (el, em)
      (elim (Bool-cases (m == i)) [
        | inl same ↦ rw same (record {
          result = h;
          returned = refl;
          heap = settled n h i m v s (ground arith);
          same = λ p. refl;
          size = refl;
        })
        | inr differs ↦
            let ne : m ≢ i = ground arith in
            let hi : i < length h = omega (arith, v.inside, v.within) in
            let hm : m < length h = omega (arith, s.inside, v.within) in
            rw (differs, swap_at_lem h i m hi hm)
              (Sifted-swapped n h i m hi hm v.inside s.inside _ (
                sift_down_loop-Sifted fuel n (swapped h i m hi hm) m
                  (omega (arith, s.child, s.positive ne, s.inside))
                  (sunk-IsSinking n h i m v s ne hi hm)))
      ])

-- `sift_down` turns an array with one cell too high in the tree into a heap of the same orders.
pub sift_down-Sifted :
    (n : ℕ) (h : List Order) (i : ℕ) → IsSinking n h i → Sifted n h (sift_down h n i)
unfolding sift_down
sift_down-Sifted n h i v = sift_down_loop-Sifted (n + 1) n h i (omega arith) v
