-- ===== src/Cargo/Tests/Queue.antt =====
-- The queue of `HW5/src/priority_queue.c` on a few orders.
use gtu_cse344_systems_progr.Common.{
  ℕ, zero, suc, ◌≤◌, ◌<◌, ◌≡◌, refl, [], ◌∷◌, true, false, some, arith,
}
use gtu_cse344_systems_progr.Libc.{codes}
use gtu_cse344_systems_progr.Cargo.Order.{Order, order_less, Priority, express, standard}
use gtu_cse344_systems_progr.Cargo.Queue.{
  PriorityQueue, no_order, pq_push, pushed, refused, pq_pop_blocking, popped, waits, shut_down,
  pq_drain,
}
use gtu_cse344_systems_progr.Cargo.Queue.Heap.{IsHeap}
use gtu_cse344_systems_progr.Cargo.Queue.Service.{IsValid, Adds, Removes, pq_push_correct}
use gtu_cse344_systems_progr.Cargo.Queue.Drain.{pq_pop_correct, Drained, pq_drain_correct}

abbrev order : ℕ → Priority → Order
order id p = record { id = id; name = codes "A"; priority = p; duration = 1 }

abbrev sample : PriorityQueue
sample = record {
  heap = order 4 express ∷ order 2 standard ∷ order 9 express ∷ no_order ∷ [];
  size = 3;
  capacity = 4;
  shutdown = false;
}

sample-IsHeap : IsHeap 3 sample.heap
unfolding order_less
sample-IsHeap zero p q = absurd (omega arith)
sample-IsHeap (suc zero) p q = refl
sample-IsHeap (suc (suc zero)) p q = refl
sample-IsHeap (suc (suc (suc c))) p q = absurd (omega arith)

sample-IsValid : IsValid sample
sample-IsValid = record { heap = sample-IsHeap; bounded = omega arith; cells = refl }

-- The new order has the same priority as the root and a smaller id: it becomes the root.
push-sample :
    pq_push sample (order 1 express)
    ≡ pushed (record sample {
      heap = order 1 express ∷ order 4 express ∷ order 9 express ∷ order 2 standard ∷ [];
      size = 4;
    })
unfolding pq_push
push-sample = refl

drain-sample :
    pq_drain sample
    ≡ some (
      order 4 express ∷ order 9 express ∷ order 2 standard ∷ [],
      record sample {
        heap = order 2 standard ∷ order 2 standard ∷ order 9 express ∷ no_order ∷ [];
        size = 0;
      },
    )
unfolding pq_drain
drain-sample = refl

-- A queue that is shut down reports it only when it is empty.
pop-empty : pq_pop_blocking (record sample { size = 0; shutdown = true }) ≡ shut_down
unfolding pq_pop_blocking
pop-empty = refl

pq_push_correct_example :
    (4 ≤ 3 → pq_push sample (order 1 express) ≡ refused sample)
    × (3 < 4
        → (q : PriorityQueue) × (pq_push sample (order 1 express) ≡ pushed q)
          × Adds (order 1 express) sample q)
pq_push_correct_example = pq_push_correct sample (order 1 express) sample-IsValid

pq_pop_correct_example :
    (0 < 3
      → (o : Order) × (q : PriorityQueue) × (pq_pop_blocking sample ≡ popped o q)
        × Removes o sample q)
    × (◌≡◌ {A = ℕ} 3 0 → false ≡ true → pq_pop_blocking sample ≡ shut_down)
    × (◌≡◌ {A = ℕ} 3 0 → false ≡ false → pq_pop_blocking sample ≡ waits)
pq_pop_correct_example = pq_pop_correct sample sample-IsValid

pq_drain_correct_example : Drained sample (pq_drain sample)
pq_drain_correct_example = pq_drain_correct sample sample-IsValid
