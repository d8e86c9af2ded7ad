-- ===== src/Cargo/Shift/Invariant.antt =====
-- What `main`'s steps and the signal keep, and so every state that the shift reaches.
use mathlib.Core.Path.{subst₂}
use gtu_cse344_systems_progr.Common.{
  ℕ, ◌+◌, ◌≡◌, ◌∙◌, refl, ap, sym, List, [], ◌∷◌, Bool, true, Option, some, arith, length, count,
  SameItems,
}
use gtu_cse344_systems_progr.Cargo.Order.{Order}
use gtu_cse344_systems_progr.Cargo.Queue.{PriorityQueue, pq_drain, pq_shutdown}
use gtu_cse344_systems_progr.Cargo.Queue.Service.{IsValid, IsSorted, contents}
use gtu_cse344_systems_progr.Cargo.Queue.Drain.{pq_drain_correct}
use gtu_cse344_systems_progr.Cargo.Shift.{
  Phase, waiting, cancelling, closing, joining, Shift, MainStep, all_done, drain, no_memory, cancel,
  all_cancelled, close, join, Step, courier, main, Reach, start, step, signal, sigint,
}
use gtu_cse344_systems_progr.Cargo.Shift.Places.{Inv, pending, closed, CourierStep-Inv}
use gtu_cse344_systems_progr.Cargo.Shift.Sums.{in_flight, by_pc}

-- A drain of a valid queue, by what it returned.
pub record DrainedTo (pq : PriorityQueue) (out : List Order) (q : PriorityQueue) : Type 0 where
  pub valid : IsValid q
  pub sorted : IsSorted out
  pub same : SameItems out (contents pq)
  pub emptied : q.size ≡ 0
  pub shutdown : q.shutdown ≡ pq.shutdown

pub drain-DrainedTo :
    (pq : PriorityQueue) (out : List Order) (q : PriorityQueue)
    → IsValid pq
    → pq_drain pq ≡ some (out, q)
    → DrainedTo pq out q
drain-DrainedTo pq out q v e =
    let d = pq_drain_correct pq v in
    let (same_out, same_q) = eq_of_pair (d.out) out d.left q (sym d.returned ∙ e) in
    subst₂ (λ a b. DrainedTo pq a b) same_out same_q
      (record {
        valid = d.valid;
        sorted = d.sorted;
        same = d.same;
        emptied = d.emptied;
        shutdown = d.shutdown;
      })
  where
    eq_of_pair :
        (a b : List Order) (x y : PriorityQueue)
        → ◌≡◌ {A = Option (List Order × PriorityQueue)} (some (a, x)) (some (b, y))
        → (a ≡ b) × (x ≡ y)
    eq_of_pair a b x y h = (cc, cc)

-- `pq_shutdown` sets the flag and keeps the orders.
pub shutdown-IsValid : (pq : PriorityQueue) → IsValid pq → IsValid (pq_shutdown pq)
unfolding pq_shutdown
shutdown-IsValid pq v = record { heap = v.heap; bounded = v.bounded; cells = v.cells }

shutdown-kept :
    (pq : PriorityQueue)
    → (contents (pq_shutdown pq) ≡ contents pq) × ((pq_shutdown pq).shutdown ≡ true)
unfolding pq_shutdown
shutdown-kept pq = (refl, refl)

pub emptied-count :
    (pq : PriorityQueue) (p : Order → Bool) → pq.size ≡ 0 → count p (contents pq) ≡ 0
emptied-count pq p e = rw e refl

module _ (orders : List Order) where
  -- A step of `main` that leaves the couriers and the deliveries alone.
  main-Inv :
      {s t : Shift} (f : Phase)
      → s.phase ≡ f
      → Inv orders s
      → t.couriers ≡ s.couriers
      → t.delivered ≡ s.delivered
      → t.gs.completed_orders ≡ s.gs.completed_orders
      → t.gs.total_delivery_time ≡ s.gs.total_delivery_time
      → IsValid t.pq
      → ((p : Order → Bool)
          → count p (contents t.pq) + count p (pending t.phase) + count p t.cancelled
            ≡ count p (contents s.pq) + count p (pending f) + count p s.cancelled)
      → t.gs.cancelled_orders + length s.cancelled ≡ s.gs.cancelled_orders + length t.cancelled
      → t.pq.shutdown ≡ closed t.phase
      → Inv orders t
  main-Inv f e v same_couriers same_delivered same_count same_time valid kept cancels closes =
      record {
        valid = valid;
        placed = λ p. omega (
          arith,
          v.placed p,
          kept p,
          ap (λ x. count p (pending x)) e,
          ap (by_pc (in_flight p)) same_couriers,
          ap (count p) same_delivered,
        );
        completed = ground (arith, v.completed);
        timed = ground (arith, v.timed);
        own = ground (arith, v.own);
        own_timed = ground (arith, v.own_timed);
        cancelled = omega (arith, v.cancelled);
        closes = closes;
      }

  MainStep-Inv :
      {n : ℕ} {s t : Shift} {f : Phase}
      → s.phase ≡ f
      → MainStep n s f t
      → Inv orders s
      → Inv orders t
  MainStep-Inv e (all_done h r) v =
      main-Inv waiting e v refl refl refl refl v.valid (λ p. refl) refl (v.closes ∙ ap closed e)
  MainStep-Inv {s} e (drain out q r d) v =
      let d = drain-DrainedTo s.pq out q v.valid d in
      main-Inv waiting e v refl refl refl refl d.valid
        (λ p. omega (arith, d.same p, emptied-count q p d.emptied)) refl
        (d.shutdown ∙ v.closes ∙ ap closed e)
  MainStep-Inv e (no_memory r) v =
      main-Inv waiting e v refl refl refl refl v.valid (λ p. refl) refl (v.closes ∙ ap closed e)
  MainStep-Inv e (cancel o rest) v =
      main-Inv (cancelling (o ∷ rest)) e v refl refl refl refl v.valid (λ p. omega arith)
        (omega arith) (v.closes ∙ ap closed e)
  MainStep-Inv e all_cancelled v =
      main-Inv (cancelling []) e v refl refl refl refl v.valid (λ p. refl) refl
        (v.closes ∙ ap closed e)
  MainStep-Inv {s} e close v =
      let (kept, shut) = shutdown-kept s.pq in
      main-Inv closing e v refl refl refl refl (shutdown-IsValid s.pq v.valid)
        (λ p. omega (arith, ap (count p) kept)) refl shut
  MainStep-Inv e (join o) v =
      main-Inv joining e v refl refl refl refl v.valid (λ p. refl) refl (v.closes ∙ ap closed e)

  pub Step-Inv : {n : ℕ} {s t : Shift} → Step n s t → Inv orders s → Inv orders t
  Step-Inv (courier i own h st) v = CourierStep-Inv orders i own h st v
  Step-Inv (main st) v = MainStep-Inv refl st v

  pub sigint-Inv : (s : Shift) → Inv orders s → Inv orders (sigint s)
  sigint-Inv s v = record {
    valid = v.valid;
    placed = v.placed;
    completed = v.completed;
    timed = v.timed;
    own = v.own;
    own_timed = v.own_timed;
    cancelled = v.cancelled;
    closes = v.closes;
  }

  -- Every state that the shift reaches keeps the account, whatever the order of the steps and
  -- whenever the signal arrives.
  pub Reach-Inv : {n : ℕ} {s t : Shift} → Reach n s t → Inv orders s → Inv orders t
  Reach-Inv start v = v
  Reach-Inv (step r st) v = Step-Inv st (Reach-Inv r v)
  Reach-Inv (signal {t} r) v = sigint-Inv t (Reach-Inv r v)
