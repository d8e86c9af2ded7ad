-- ===== src/Cargo/Shift/Closing.antt =====
-- How a shift closes: a courier leaves only an empty queue that is shut down, `main` ends only
-- after every courier, and nothing is cancelled without the signal.
use gtu_cse344_systems_progr.Common.{
  ℕ, zero, suc, ◌+◌, ◌≤◌, ◌<◌, ◌≡◌, ◌∙◌, refl, ap, sym, List, [], ◌∷◌, true, false, some, arith,
  length, get_elem?, set, All, length-set, Bool-cases, inl, inr, ◌==◌,
}
use gtu_cse344_systems_progr.Cargo.Order.{Order}
use gtu_cse344_systems_progr.Cargo.Queue.{PriorityQueue, pq_pop_blocking, shut_down, pq_shutdown}
use gtu_cse344_systems_progr.Cargo.Queue.Service.{IsValid}
use gtu_cse344_systems_progr.Cargo.Queue.Drain.{pq_pop_correct}
use gtu_cse344_systems_progr.Cargo.Stats.{CourierStats}
use gtu_cse344_systems_progr.Cargo.Shift.{
  Pc, ready, delivering, logged, counted, timed, over, Courier, Phase, ended, Shift, CourierStep,
  pop, leave, complete, count_order, add_time, add_own, MainStep, all_done, drain, no_memory,
  cancel, all_cancelled, close, join, courier, main, Reach, start, step, signal, IsOver,
}
use gtu_cse344_systems_progr.Cargo.Shift.Sums.{total-set, by_pc}
use gtu_cse344_systems_progr.Cargo.Shift.Places.{Inv, pending, pop-Removes}
use gtu_cse344_systems_progr.Cargo.Shift.Invariant.{drain-DrainedTo, Reach-Inv}

abbrev pub to_over : Pc → ℕ
to_over over = 1
to_over _ = 0

by_pc-over-le : (cs : List Courier) → by_pc to_over cs ≤ length cs
by_pc-over-le [] = omega arith
by_pc-over-le (c ∷ cs) = ground (arith, by_pc-over-le cs)

-- A courier that has not left is missing in the count.
by_pc-over-lt :
    (cs : List Courier) (i : ℕ) (c : Courier)
    → get_elem? cs i ≡ some c
    → to_over c.pc ≡ 0
    → by_pc to_over cs < length cs
by_pc-over-lt [] i c h e = cc
by_pc-over-lt (d ∷ cs) zero c h e = let same : d ≡ c = cc in ground (arith, by_pc-over-le cs)
by_pc-over-lt (d ∷ cs) (suc i) c h e = ground (arith, by_pc-over-lt cs i c h e)

by_pc-All_over : (cs : List Courier) → All IsOver cs → by_pc to_over cs ≡ length cs
by_pc-All_over [] a = refl
by_pc-All_over (c ∷ cs) a = ground (arith, by_pc-All_over cs a.1, a.0)

-- When every courier has left, none owes anything.
pub by_pc-zero :
    (w : Pc → ℕ) (cs : List Courier) → w over ≡ 0 → by_pc to_over cs ≡ length cs → by_pc w cs ≡ 0
by_pc-zero w [] z h = refl
by_pc-zero w (c ∷ cs) z h =
    let bound = by_pc-over-le cs in
    let left : c.pc ≡ over = ground arith in
    omega (arith, ap w left, z, by_pc-zero w cs z (ground arith))

pub record Closes (k : ℕ) (s : Shift) : Type 0 where
  pub crew : length s.couriers ≡ k
  pub empty : 0 < by_pc to_over s.couriers → s.pq.size ≡ 0
  pub shut : 0 < by_pc to_over s.couriers → s.pq.shutdown ≡ true
  pub All-IsOver : s.phase ≡ ended → by_pc to_over s.couriers ≡ length s.couriers
  pub unsignalled : s.requested ≡ false → length s.cancelled + length (pending s.phase) ≡ 0

-- A pop that reports the shutdown has seen the flag and no order.
shut_down-inv :
    (pq : PriorityQueue)
    → IsValid pq
    → pq_pop_blocking pq ≡ shut_down
    → (pq.size ≡ 0) × (pq.shutdown ≡ true)
shut_down-inv pq v e = elim (Bool-cases (pq.size == 0)) [
  | inr some_left ↦ let (o, q, e', r) = (pq_pop_correct pq v).0 (ground arith) in absurd (cc)
  | inl none_left ↦
      let z : pq.size ≡ 0 = ground arith in
      elim (Bool-cases pq.shutdown) [
        | inl shut ↦ (z, shut)
        | inr open_queue ↦ absurd (cc ((pq_pop_correct pq v).2 z open_queue))
      ]
]

-- A step of a courier that stays.
stays :
    {k : ℕ} {s t : Shift} (i : ℕ) (own : CourierStats) (p : Pc) (c : Courier)
    → get_elem? s.couriers i ≡ some (record { pc = p; stats = own })
    → to_over p ≡ 0
    → to_over c.pc ≡ 0
    → t.couriers ≡ set s.couriers i c
    → t.phase ≡ s.phase
    → t.cancelled ≡ s.cancelled
    → t.requested ≡ s.requested
    → (0 < by_pc to_over s.couriers → t.pq.size ≡ 0)
    → t.pq.shutdown ≡ s.pq.shutdown
    → Closes k s
    → Closes k t
stays {k} {s} {t} i own p c h z z' e f g r size shut v =
    let m = total-set (λ d. to_over d.pc) s.couriers i _ c h in
    let few = by_pc-over-lt s.couriers i _ h z in
    let cs = ap (by_pc to_over) e in
    record {
      crew = ap length e ∙ length-set s.couriers i c ∙ v.crew;
      empty = λ q. size (omega arith);
      shut = λ q. shut ∙ v.shut (omega arith);
      All-IsOver = λ q. absurd (omega (arith, v.All-IsOver (sym f ∙ q)));
      unsignalled = λ q.
          omega (arith, v.unsignalled (sym r ∙ q), ap (λ x. length (pending x)) f, ap length g);
    }

CourierStep-Closes :
    {k : ℕ} {s t : Shift} (i : ℕ) (own : CourierStats) {p : Pc}
    → get_elem? s.couriers i ≡ some (record { pc = p; stats = own })
    → CourierStep s i own p t
    → IsValid s.pq
    → Closes k s
    → Closes k t
CourierStep-Closes {s} i own h (pop o q e) valid v =
    let r = pop-Removes s.pq q o valid e in
    stays i own ready (record { pc = delivering o; stats = own }) h refl refl refl refl refl refl
      (λ some_over. omega (arith, r.size, v.empty some_over)) r.shutdown v
CourierStep-Closes {s} i own h (leave e) valid v =
    let (empty, shut) = shut_down-inv s.pq valid e in
    let few = by_pc-over-lt s.couriers i _ h refl in
    record {
      crew = length-set s.couriers i _ ∙ v.crew;
      empty = λ _. empty;
      shut = λ _. shut;
      All-IsOver = λ q. absurd (omega (arith, v.All-IsOver q));
      unsignalled = v.unsignalled;
    }
CourierStep-Closes i own h (complete o) valid v =
    stays i own (delivering o) (record { pc = logged o; stats = own }) h refl refl refl refl refl
      refl v.empty refl v
CourierStep-Closes i own h (count_order o) valid v =
    stays i own (logged o) (record { pc = counted o; stats = own }) h refl refl refl refl refl refl
      v.empty refl v
CourierStep-Closes i own h (add_time o) valid v =
    stays i own (counted o) (record { pc = timed o; stats = own }) h refl refl refl refl refl refl
      v.empty refl v
CourierStep-Closes i own h (add_own o) valid v =
    stays i own (timed o) (record { pc = ready; stats = _ }) h refl refl refl refl refl refl v.empty
      refl v

close-size :
    (pq : PriorityQueue) → ((pq_shutdown pq).size ≡ pq.size) × ((pq_shutdown pq).shutdown ≡ true)
unfolding pq_shutdown
close-size pq = (refl, refl)

MainStep-Closes :
    {n k : ℕ} {s t : Shift} {f : Phase}
    → s.phase ≡ f
    → MainStep n s f t
    → IsValid s.pq
    → Closes k s
    → Closes k t
MainStep-Closes e (all_done h r) valid v = record {
  crew = v.crew;
  empty = v.empty;
  shut = v.shut;
  All-IsOver = λ q. absurd (cc);
  unsignalled = λ q. omega (arith, v.unsignalled q);
}
MainStep-Closes {s} e (drain out q r d) valid v =
    let to = drain-DrainedTo s.pq out q valid d in
    record {
      crew = v.crew;
      empty = λ _. to.emptied;
      shut = λ some_over. to.shutdown ∙ v.shut some_over;
      All-IsOver = λ q. absurd (cc);
      unsignalled = λ q. absurd (cc);
    }
MainStep-Closes e (no_memory r) valid v = record {
  crew = v.crew;
  empty = v.empty;
  shut = v.shut;
  All-IsOver = λ q. absurd (cc);
  unsignalled = λ q. omega (arith, v.unsignalled q);
}
MainStep-Closes e (cancel o rest) valid v = record {
  crew = v.crew;
  empty = v.empty;
  shut = v.shut;
  All-IsOver = λ q. absurd (cc);
  unsignalled = λ q. absurd (omega (arith, v.unsignalled q, ap (λ x. length (pending x)) e));
}
MainStep-Closes e all_cancelled valid v = record {
  crew = v.crew;
  empty = v.empty;
  shut = v.shut;
  All-IsOver = λ q. absurd (cc);
  unsignalled = λ q. omega (arith, v.unsignalled q);
}
MainStep-Closes {s} e close valid v = record {
  crew = v.crew;
  empty = λ some_over. (close-size s.pq).0 ∙ v.empty some_over;
  shut = λ _. (close-size s.pq).1;
  All-IsOver = λ q. absurd (cc);
  unsignalled = λ q. omega (arith, v.unsignalled q);
}
MainStep-Closes {s} e (join o) valid v = record {
  crew = v.crew;
  empty = v.empty;
  shut = v.shut;
  All-IsOver = λ _. by_pc-All_over s.couriers o;
  unsignalled = λ q. omega (arith, v.unsignalled q);
}

-- Every state that the shift reaches closes in this way.
pub Reach-Closes :
    {n k : ℕ} (orders : List Order) {s t : Shift}
    → Reach n s t
    → Inv orders s
    → Closes k s
    → Closes k t
Reach-Closes orders start i v = v
Reach-Closes orders (step r (courier j own h st)) i v =
    CourierStep-Closes j own h st (Reach-Inv orders r i).valid (Reach-Closes orders r i v)
Reach-Closes orders (step r (main st)) i v =
    MainStep-Closes refl st (Reach-Inv orders r i).valid (Reach-Closes orders r i v)
Reach-Closes orders (signal r) i v =
    let w = Reach-Closes orders r i v in
    record {
      crew = w.crew;
      empty = w.empty;
      shut = w.shut;
      All-IsOver = w.All-IsOver;
      unsignalled = λ q. absurd (cc);
    }
