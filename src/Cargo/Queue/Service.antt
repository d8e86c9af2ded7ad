-- ===== src/Cargo/Queue/Service.antt =====
-- The operations of the queue against the multiset of its orders: what a push adds, which order a
-- pop takes, and in which order a drain returns them.
use gtu_cse344_systems_progr.Common.{
  ℕ, suc, ◌+◌, ◌-◌, ◌≤◌, ◌<◌, ◌≡◌, ◌∙◌, refl, ap, List, [], ◌∷◌, Bool, true, false, some, inl, inr,
  arith, ltb, leb, ◌==◌, ◌>>=◌, Bool-cases, length, get_or, set, take, count, bit,
  get_elem?-eq-get_or, get_or-set, length-set, count-take-set, count-take-suc, count-take-zero,
  take-set_of_le, lt→ltb,
}
use gtu_cse344_systems_progr.Cargo.Order.{Order, order_less}
use gtu_cse344_systems_progr.Cargo.Queue.{
  PriorityQueue, no_order, parent, pushed, refused, pq_push, extract,
}
use gtu_cse344_systems_progr.Cargo.Queue.Heap.{at, IsHeap, root_first}
use gtu_cse344_systems_progr.Cargo.Queue.Up.{IsRising, sift_up-Sifted}
use gtu_cse344_systems_progr.Cargo.Queue.Down.{IsSinking, sift_down-Sifted}

pub record IsValid (pq : PriorityQueue) : Type 0 where
  pub heap : IsHeap pq.size pq.heap
  pub bounded : pq.size ≤ pq.capacity
  pub cells : length pq.heap ≡ pq.capacity

-- The orders that wait in the queue.
abbrev pub contents : PriorityQueue → List Order
contents pq = take pq.size pq.heap

-- No order of the list is served before `o`.
abbrev pub NoneBefore : Order → List Order → Type 0
NoneBefore o os = count (λ x. order_less x o) os ≡ 0

-- Each order of the list is followed by none that is served before it.
abbrev pub IsSorted : List Order → Type 0
IsSorted [] = Unit
IsSorted (o ∷ os) = NoneBefore o os × IsSorted os

-- `q` is `pq` with the order `o` more.
pub record Adds (o : Order) (pq q : PriorityQueue) : Type 0 where
  pub valid : IsValid q
  pub same : (p : Order → Bool) → count p (contents q) ≡ bit (p o) + count p (contents pq)
  pub size : q.size ≡ pq.size + 1
  pub capacity : q.capacity ≡ pq.capacity
  pub shutdown : q.shutdown ≡ pq.shutdown

appended-IsRising :
    (pq : PriorityQueue) (o : Order)
    → IsValid pq
    → pq.size < pq.capacity
    → IsRising (pq.size + 1) (set pq.heap pq.size o) pq.size
appended-IsRising pq o v room =
    let cells = length-set pq.heap pq.size o in
    let inside : pq.size < length pq.heap = omega (arith, v.cells) in
    record {
      inside = omega arith;
      within = omega arith;
      edges = λ c p q r. ground (
        arith,
        v.heap c,
        get_or-set pq.heap pq.size c o no_order inside,
        get_or-set pq.heap pq.size (parent c) o no_order inside,
      );
      bridged = λ c p q e r. absurd (omega arith);
    }

appended-count :
    (p : Order → Bool) (h : List Order) (n : ℕ) (o : Order)
    → n < length h
    → count p (take (n + 1) (set h n o)) ≡ bit (p o) + count p (take n h)
appended-count p h n o inside =
    let size = length-set h n o in
    let grown = count-take-suc p n (set h n o) no_order (omega arith) in
    let kept = ap (count p) (take-set_of_le n h n o (omega arith)) in
    let written : get_or (set h n o) n no_order ≡ o = ground (arith, get_or-set h n n o no_order) in
    let next : n + 1 ≡ suc n = omega arith in rw next (rw written at grown ∙ omega (arith, kept))

push-Adds :
    (pq : PriorityQueue) (o : Order)
    → IsValid pq
    → pq.size < pq.capacity
    → (q : PriorityQueue) × (pq_push pq o ≡ pushed q) × Adds o pq q
unfolding pq_push
push-Adds pq o v room =
    let s =
      sift_up-Sifted (pq.size + 1) (set pq.heap pq.size o) pq.size
        (appended-IsRising pq o v room) in
    let inside : pq.size < length pq.heap = omega (arith, v.cells) in
    let cells = length-set pq.heap pq.size o in
    let open_slot : leb pq.capacity pq.size ≡ false = ground arith in
    (
      record pq { heap = s.result; size = pq.size + 1 },
      rw (open_slot, lt→ltb _ _ inside, ◌>>=◌, s.returned) refl,
      record {
        valid = record {
          heap = s.heap;
          bounded = omega arith;
          cells = omega (arith, s.size, v.cells);
        };
        same = λ p. s.same p ∙ appended-count p pq.heap pq.size o inside;
        size = refl;
        capacity = refl;
        shutdown = refl;
      },
    )

-- Without room the queue refuses the order and does not change; with room it takes exactly it.
pub pq_push_correct :
    (pq : PriorityQueue) (o : Order)
    → IsValid pq
    → (pq.capacity ≤ pq.size → pq_push pq o ≡ refused pq)
      × (pq.size < pq.capacity → (q : PriorityQueue) × (pq_push pq o ≡ pushed q) × Adds o pq q)
unfolding pq_push
pq_push_correct pq o v = (λ full. ground arith, push-Adds pq o v)

-- `q` is `pq` without the order `o`, before which none of `pq` is served.
pub record Removes (o : Order) (pq q : PriorityQueue) : Type 0 where
  pub valid : IsValid q
  pub same : (p : Order → Bool) → count p (contents pq) ≡ bit (p o) + count p (contents q)
  pub first : NoneBefore o (contents pq)
  pub size : pq.size ≡ q.size + 1
  pub capacity : q.capacity ≡ pq.capacity
  pub shutdown : q.shutdown ≡ pq.shutdown

module _ (h : List Order) (n : ℕ) (pos : 0 < n) (inside : n < length h) where
  -- The array after `heap[0] = heap[size]`.
  abbrev refilled : List Order
  refilled = set h 0 (at h n)

  refilled-IsSinking : IsHeap (suc n) h → IsSinking n refilled 0
  refilled-IsSinking v =
      let cells = length-set h 0 (at h n) in
      record {
        inside = pos;
        within = omega arith;
        edges = λ c p q r. ground (
          arith,
          v c,
          get_or-set h 0 c (at h n) no_order,
          get_or-set h 0 (parent c) (at h n) no_order,
        );
        bridged = λ c p q e r. absurd (omega arith);
      }

  refilled-count :
      (p : Order → Bool) → count p (take (suc n) h) ≡ bit (p (at h 0)) + count p (take n refilled)
  refilled-count p = omega (
    arith,
    count-take-suc p n h no_order inside,
    count-take-set p n h 0 (at h n) no_order pos (omega arith),
  )

root-NoneBefore :
    (n : ℕ) (h : List Order) → n ≤ length h → IsHeap n h → NoneBefore (at h 0) (take n h)
root-NoneBefore n h within v =
    count-take-zero (λ x. order_less x (at h 0)) n h no_order within (λ i p. root_first n h i v p)

extract-last :
    (pq : PriorityQueue)
    → IsValid pq
    → pq.size ≡ 1
    → (q : PriorityQueue) × (extract pq ≡ some (at pq.heap 0, q)) × Removes (at pq.heap 0) pq q
unfolding extract
extract-last pq v e =
    let inside : 0 < length pq.heap = omega (arith, v.cells, v.bounded) in
    let none_left : ltb 0 (pq.size - 1) ≡ false = ground arith in
    (
      record pq { size = pq.size - 1 },
      rw (get_elem?-eq-get_or pq.heap 0 no_order inside, none_left) refl,
      record {
        valid = record {
          heap = λ c p q. absurd (omega arith);
          bounded = omega (arith, v.bounded);
          cells = v.cells;
        };
        same = λ p.
            let grown = count-take-suc p 0 pq.heap no_order inside in
            let left : pq.size - 1 ≡ 0 = omega arith in rw (left, e) (grown ∙ omega arith);
        first = root-NoneBefore pq.size pq.heap (omega (arith, v.cells, v.bounded)) v.heap;
        size = omega arith;
        capacity = refl;
        shutdown = refl;
      },
    )

extract-more :
    (pq : PriorityQueue) (n : ℕ)
    → IsValid pq
    → pq.size ≡ suc n
    → 0 < n
    → (q : PriorityQueue) × (extract pq ≡ some (at pq.heap 0, q)) × Removes (at pq.heap 0) pq q
unfolding extract
extract-more pq n v e pos =
    let h = pq.heap in
    let inside : n < length h = omega (arith, v.cells, v.bounded) in
    let start : 0 < length h = omega arith in
    let less : pq.size - 1 ≡ n = omega arith in
    let s =
      sift_down-Sifted n (refilled h n pos inside) 0
        (refilled-IsSinking h n pos inside (rw e at v.heap)) in
    let more : ltb 0 n ≡ true = ground arith in
    (
      record pq { heap = s.result; size = n },
      rw
          (
            get_elem?-eq-get_or h 0 no_order start,
            less,
            more,
            get_elem?-eq-get_or h n no_order inside,
            lt→ltb _ _ start,
            s.returned,
          )
          refl,
      record {
        valid = record {
          heap = s.heap;
          bounded = omega (arith, v.bounded);
          cells = omega (arith, s.size, v.cells, length-set h 0 (at h n));
        };
        same = λ p. rw (e, s.same p) (refilled-count h n pos inside p);
        first = root-NoneBefore pq.size h (omega (arith, v.cells, v.bounded)) v.heap;
        size = omega arith;
        capacity = refl;
        shutdown = refl;
      },
    )

-- The shared body of pop and drain takes the root, and no waiting order is served before it.
pub extract-Removes :
    (pq : PriorityQueue)
    → IsValid pq
    → 0 < pq.size
    → (o : Order) × (q : PriorityQueue) × (extract pq ≡ some (o, q)) × Removes o pq q
extract-Removes pq v h = elim (Bool-cases (pq.size == 1)) [
  | inl one ↦ let (q, e, r) = extract-last pq v (ground arith) in (at pq.heap 0, q, e, r)
  | inr more ↦
      let (q, e, r) = extract-more pq (pq.size - 1) v (omega arith) (ground arith) in
      (at pq.heap 0, q, e, r)
]
