-- ===== src/Cargo/Queue/Drain.antt =====
-- `pq_pop_blocking` and `pq_drain`.
use gtu_cse344_systems_progr.Common.{
  ℕ, zero, suc, ◌+◌, ◌<◌, ◌≡◌, ◌∙◌, refl, List, [], ◌∷◌, true, false, Option, some, inl, inr, arith,
  ◌==◌, ◌>>=◌, Bool-cases, SameItems,
}
use gtu_cse344_systems_progr.Cargo.Order.{Order, order_less}
use gtu_cse344_systems_progr.Cargo.Queue.{
  PriorityQueue, popped, waits, shut_down, pq_pop_blocking, drain_loop, pq_drain,
}
use gtu_cse344_systems_progr.Cargo.Queue.Service.{
  IsValid, contents, IsSorted, Removes, extract-Removes,
}

-- A pop takes an order before which none of the waiting orders is served, whether or not the queue
-- is shut down; on an empty queue it reports the shutdown, or else waits.
pub pq_pop_correct :
    (pq : PriorityQueue)
    → IsValid pq
    → (0 < pq.size
        → (o : Order) × (q : PriorityQueue) × (pq_pop_blocking pq ≡ popped o q) × Removes o pq q)
      × (pq.size ≡ 0 → pq.shutdown ≡ true → pq_pop_blocking pq ≡ shut_down)
      × (pq.size ≡ 0 → pq.shutdown ≡ false → pq_pop_blocking pq ≡ waits)
unfolding pq_pop_blocking
pq_pop_correct pq v = (
  λ h.
      let (o, q, e, r) = extract-Removes pq v h in
      let busy : (pq.size == 0) ≡ false = ground arith in (o, q, rw (busy, e) refl, r),
  λ z s. ground arith,
  λ z s. ground arith,
)

-- What a drain returns: every waiting order, in the order of service, and an empty queue.
pub record Drained (pq : PriorityQueue) (r : Option (List Order × PriorityQueue)) : Type 0 where
  pub out : List Order
  pub left : PriorityQueue
  pub returned : r ≡ some (out, left)
  pub sorted : IsSorted out
  pub same : SameItems out (contents pq)
  pub valid : IsValid left
  pub emptied : left.size ≡ 0
  pub shutdown : left.shutdown ≡ pq.shutdown

drain_loop-Drained :
    (fuel : ℕ) (pq : PriorityQueue) → pq.size < fuel → IsValid pq → Drained pq (drain_loop fuel pq)
unfolding drain_loop
drain_loop-Drained zero pq f v = absurd (omega arith)
drain_loop-Drained (suc fuel) pq f v = elim (Bool-cases (pq.size == 0)) [
  | inl none_left ↦
      let z : pq.size ≡ 0 = ground arith in
      rw none_left (record {
        out = [];
        left = pq;
        returned = refl;
        sorted = tt;
        same = λ p. rw z refl;
        valid = v;
        emptied = z;
        shutdown = refl;
      })
  | inr more ↦
      let (o, q, e, r) = extract-Removes pq v (ground arith) in
      let d = drain_loop-Drained fuel q (omega (arith, r.size)) r.valid in
      rw (more, e, ◌>>=◌, d.returned)
        (record {
          out = o ∷ d.out;
          left = d.left;
          returned = refl;
          sorted = (
            omega (arith, d.same (λ x. order_less x o), r.same (λ x. order_less x o), r.first),
            d.sorted,
          );
          same = λ p. omega (arith, d.same p, r.same p);
          valid = d.valid;
          emptied = d.emptied;
          shutdown = d.shutdown ∙ r.shutdown;
        })
]

-- A drain returns every waiting order exactly once, in the order of service, and empties the
-- queue.
pub pq_drain_correct : (pq : PriorityQueue) → IsValid pq → Drained pq (pq_drain pq)
unfolding pq_drain
pq_drain_correct pq v = drain_loop-Drained (pq.size + 1) pq (omega arith) v
