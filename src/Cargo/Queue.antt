-- ===== src/Cargo/Queue.antt =====
-- HW5/src/priority_queue.c: a binary heap of orders in a C array of fixed capacity. The mutex and
-- the condition variable are left to `Cargo.Shift`; these are the bodies of the critical sections.
-- `none` is an access outside the array (or the end of the model's fuel).
pub mod Heap
pub mod Up
pub mod Down
pub mod Service
pub mod Drain
use gtu_cse344_systems_progr.Common.{
  ℕ, zero, suc, ◌+◌, ◌-◌, ◌*◌, ◌/◌, List, [], ◌∷◌, Bool, true, false, Option, none, some, ltb, leb,
  ◌==◌, if◌then◌else◌, ◌>>=◌, length, get_elem?, set, replicate,
}
use gtu_cse344_systems_progr.Cargo.Order.{Order, Priority, order_less}

-- `heap` is the whole array; its first `size` cells are in use.
pub record PriorityQueue : Type 0 where
  pub heap : List Order
  pub size : ℕ
  pub capacity : ℕ
  pub shutdown : Bool

pub less_at : List Order → ℕ → ℕ → Option Bool
less_at heap i j = do a ← get_elem? heap i; b ← get_elem? heap j; some (order_less a b)

pub swap_at : List Order → ℕ → ℕ → Option (List Order)
swap_at heap i j = do
  tmp ← get_elem? heap i
  other ← get_elem? heap j
  some (set (set heap i other) j tmp)

abbrev pub parent : ℕ → ℕ
parent i = (i - 1) / 2

pub sift_up_loop : ℕ → List Order → ℕ → Option (List Order)
sift_up_loop zero heap i = none
sift_up_loop (suc fuel) heap i =
    let rise = swap_at heap i (parent i) >>= λ h. sift_up_loop fuel h (parent i) in
    let round = less_at heap i (parent i) >>= λ less. if less then rise else some heap in
    if ltb 0 i then round else some heap

unfoldable pub sift_up : List Order → ℕ → Option (List Order)
unfolding sift_up_loop less_at swap_at order_less
sift_up heap i = sift_up_loop (i + 1) heap i

-- `if (c < size && order_less(&heap[c], &heap[best])) best = c;`
pub better_child : List Order → ℕ → ℕ → ℕ → Option ℕ
better_child heap size c best =
    let test = less_at heap c best >>= λ less. some (if less then c else best) in
    if ltb c size then test else some best

pub sift_down_loop : ℕ → List Order → ℕ → ℕ → Option (List Order)
sift_down_loop zero heap size i = none
sift_down_loop (suc fuel) heap size i = do
  l ← better_child heap size (2 * i + 1) i
  best ← better_child heap size (2 * i + 2) l
  let sink = swap_at heap i best >>= λ h. sift_down_loop fuel h size best
  if best == i then some heap else sink

unfoldable pub sift_down : List Order → ℕ → ℕ → Option (List Order)
unfolding sift_down_loop better_child less_at swap_at order_less
sift_down heap size i = sift_down_loop (size + 1) heap size i

-- The contents of memory that `malloc` returned: nothing reads it.
abbrev pub no_order : Order
no_order = record { id = 0; name = []; priority = Priority.express; duration = 0 }

-- `allocated`: both calls of `malloc` and the two `pthread` initialisers succeeded.
unfoldable pub pq_create : Bool → ℕ → Option PriorityQueue
pq_create allocated capacity =
    if capacity == 0
    then none
    else if allocated
    then some (record {
      heap = replicate capacity no_order;
      size = 0;
      capacity = capacity;
      shutdown = false;
    })
    else none

pub data PushResult : Type 0 where
  pushed : PriorityQueue → PushResult
  refused : PriorityQueue → PushResult
  fault : PushResult

-- A store `heap[i] = v`, which faults outside the array.
abbrev pub store : List Order → ℕ → Order → Option (List Order)
store heap i v = if ltb i (length heap) then some (set heap i v) else none

-- The condition variable, which `pq_push` signals, stands in Shift.Condition.
unfoldable pub pq_push : PriorityQueue → Order → PushResult
unfolding sift_up
pq_push pq order =
    if leb pq.capacity pq.size
    then refused pq
    else elim (store pq.heap pq.size order >>= λ h. sift_up h pq.size) [
      | none ↦ fault
      | some h ↦ pushed (record pq { heap = h; size = pq.size + 1 })
    ]

-- The body shared by `pq_pop_blocking` and `pq_drain`, for a queue that is not empty.
pub extract : PriorityQueue → Option (Order × PriorityQueue)
extract pq = do
  out ← get_elem? pq.heap 0
  let size = pq.size - 1
  let refill : Option (List Order) = do
    last ← get_elem? pq.heap size
    h ← store pq.heap 0 last
    sift_down h size 0
  h ← if ltb 0 size then refill else some pq.heap
  some (out, record pq { heap = h; size = size })

pub data PopResult : Type 0 where
  waits : PopResult
  shut_down : PopResult
  popped : Order → PriorityQueue → PopResult
  fault : PopResult

-- One look at the queue by `pq_pop_blocking`, holding the mutex: `waits` is a call of
-- `pthread_cond_wait`, after which the loop looks again.
unfoldable pub pq_pop_blocking : PriorityQueue → PopResult
unfolding extract sift_down
pq_pop_blocking pq =
    if pq.size == 0
    then (if pq.shutdown then shut_down else waits)
    else elim (extract pq) [ none ↦ fault | some (o, q) ↦ popped o q ]

-- The flag that `pq_shutdown` sets; Shift.Condition has its broadcast.
unfoldable pub pq_shutdown : PriorityQueue → PriorityQueue
pq_shutdown pq = record pq { shutdown = true }

unfoldable pub pq_size : PriorityQueue → ℕ
pq_size pq = pq.size

pub drain_loop : ℕ → PriorityQueue → Option (List Order × PriorityQueue)
drain_loop zero pq = none
drain_loop (suc fuel) pq =
    let next = extract pq >>= λ (o, q). drain_loop fuel q >>= λ (out, r). some (o ∷ out, r) in
    if pq.size == 0 then some ([], pq) else next

-- `out[0 .. *out_count)` and the queue that is left.
unfoldable pub pq_drain : PriorityQueue → Option (List Order × PriorityQueue)
unfolding drain_loop extract sift_down
pq_drain pq = drain_loop (pq.size + 1) pq
