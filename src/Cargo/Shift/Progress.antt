-- ===== src/Cargo/Shift/Progress.antt =====
-- Every step of the shift leaves less work, so that a run has a bounded number of steps.
use gtu_cse344_systems_progr.Common.{
  ℕ, ◌+◌, ◌*◌, ◌≤◌, ◌<◌, ◌≡◌, refl, ap, List, true, some, arith, length, get_elem?, set,
  count-length, length-take,
}
use gtu_cse344_systems_progr.Cargo.Order.{Order}
use gtu_cse344_systems_progr.Cargo.Queue.{PriorityQueue, pq_shutdown}
use gtu_cse344_systems_progr.Cargo.Queue.Service.{IsValid, contents}
use gtu_cse344_systems_progr.Cargo.Stats.{CourierStats}
use gtu_cse344_systems_progr.Cargo.Shift.{
  Pc, ready, delivering, logged, counted, timed, over, Courier, Phase, waiting, cancelling, closing,
  joining, ended, Shift, CourierStep, pop, leave, complete, count_order, add_time, add_own,
  MainStep, all_done, drain, no_memory, cancel, all_cancelled, close, join, courier, main, Reach,
  start, step, signal,
}
use gtu_cse344_systems_progr.Cargo.Shift.Sums.{total-set, by_pc}
use gtu_cse344_systems_progr.Cargo.Shift.Places.{Inv, pop-Removes}
use gtu_cse344_systems_progr.Cargo.Shift.Invariant.{drain-DrainedTo, Reach-Inv}

abbrev courier_work : Pc → ℕ
courier_work over = 0
courier_work ready = 1
courier_work (timed o) = 2
courier_work (counted o) = 3
courier_work (logged o) = 4
courier_work (delivering o) = 5

abbrev main_work : Phase → ℕ
main_work waiting = 4
main_work (cancelling os) = 3 + length os
main_work closing = 2
main_work joining = 1
main_work ended = 0

-- The steps that may be left.
pub work : Shift → ℕ
work s = 10 * s.pq.size + by_pc courier_work s.couriers + main_work s.phase

pub contents-length : (pq : PriorityQueue) → IsValid pq → length (contents pq) ≡ pq.size
contents-length pq v = omega (arith, length-take pq.size pq.heap, v.cells, v.bounded)

close-size : (pq : PriorityQueue) → (pq_shutdown pq).size ≡ pq.size
unfolding pq_shutdown
close-size pq = refl

-- A courier that goes on at an open queue leaves less work.
courier_falls :
    (s : Shift) (i : ℕ) (own : CourierStats) (p : Pc) (c : Courier)
    → get_elem? s.couriers i ≡ some (record { pc = p; stats = own })
    → by_pc courier_work (set s.couriers i c) + courier_work p
      ≡ by_pc courier_work s.couriers + courier_work c.pc
courier_falls s i own p c h = total-set (λ d. courier_work d.pc) s.couriers i _ c h

CourierStep-work :
    {s t : Shift} (i : ℕ) (own : CourierStats) {p : Pc}
    → get_elem? s.couriers i ≡ some (record { pc = p; stats = own })
    → CourierStep s i own p t
    → IsValid s.pq
    → work t < work s
unfolding work
CourierStep-work {s} i own h (pop o q e) v =
    let fewer = (pop-Removes s.pq q o v e).size in
    omega (arith, courier_falls s i own ready (record { pc = delivering o; stats = own }) h)
CourierStep-work {s} i own h (leave e) v =
    omega (arith, courier_falls s i own ready (record { pc = over; stats = own }) h)
CourierStep-work {s} i own h (complete o) v =
    omega (arith, courier_falls s i own (delivering o) (record { pc = logged o; stats = own }) h)
CourierStep-work {s} i own h (count_order o) v =
    omega (arith, courier_falls s i own (logged o) (record { pc = counted o; stats = own }) h)
CourierStep-work {s} i own h (add_time o) v =
    omega (arith, courier_falls s i own (counted o) (record { pc = timed o; stats = own }) h)
CourierStep-work {s} i own h (add_own o) v =
    omega (arith, courier_falls s i own (timed o) (record { pc = ready; stats = _ }) h)

MainStep-work :
    {n : ℕ} {s t : Shift} {f : Phase}
    → s.phase ≡ f
    → MainStep n s f t
    → IsValid s.pq
    → work t < work s
unfolding work
MainStep-work e (all_done h r) v = omega (arith, ap main_work e)
MainStep-work {s} e (drain out q r d) v =
    let to = drain-DrainedTo s.pq out q v d in
    let same = to.same (λ _. true) in
    omega (
      arith,
      ap main_work e,
      to.emptied,
      same,
      count-length out,
      count-length (contents s.pq),
      contents-length s.pq v,
    )
MainStep-work e (no_memory r) v = omega (arith, ap main_work e)
MainStep-work e (cancel o rest) v = omega (arith, ap main_work e)
MainStep-work e all_cancelled v = omega (arith, ap main_work e)
MainStep-work {s} e close v = omega (arith, ap main_work e, close-size s.pq)
MainStep-work e (join o) v = omega (arith, ap main_work e)

-- The steps of a run, without the signals.
abbrev pub steps : {n : ℕ} {s t : Shift} → Reach n s t → ℕ
steps start = 0
steps (step r st) = steps r + 1
steps (signal r) = steps r

-- No run of the shift takes more steps than the work that it begins with.
pub steps-le-work :
    {n : ℕ} (orders : List Order) {s t : Shift} (r : Reach n s t)
    → Inv orders s
    → steps r + work t ≤ work s
unfolding work
steps-le-work orders start v = omega arith
steps-le-work orders (step r (courier i own h st)) v =
    omega
      (arith, steps-le-work orders r v, CourierStep-work i own h st (Reach-Inv orders r v).valid)
steps-le-work orders (step r (main st)) v =
    omega (arith, steps-le-work orders r v, MainStep-work refl st (Reach-Inv orders r v).valid)
steps-le-work orders (signal r) v = steps-le-work orders r v
