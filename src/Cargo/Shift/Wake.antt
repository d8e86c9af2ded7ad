-- ===== src/Cargo/Shift/Wake.antt =====
-- No courier sleeps for good: who is asleep has nothing to do, so the shift goes on without it.
use gtu_cse344_systems_progr.Common.{
  ℕ, ◌<◌, ◌≡◌, ◌≢◌, eq_of_some, ◌∙◌, refl, ap, sym, List, true, false, some, ◌==◌, arith, length,
  get_elem?, set, get_elem?-set_other, Bool-cases, inl, inr,
}
use gtu_cse344_systems_progr.Cargo.Order.{Order}
use gtu_cse344_systems_progr.Cargo.Queue.{pq_pop_blocking, waits}
use gtu_cse344_systems_progr.Cargo.Queue.Drain.{pq_pop_correct}
use gtu_cse344_systems_progr.Cargo.Stats.{CourierStats}
use gtu_cse344_systems_progr.Cargo.Shift.{
  Pc, ready, Courier, Phase, ended, Shift, CourierStep, pop, leave, complete, count_order, add_time,
  add_own, MainStep, all_done, drain, no_memory, cancel, all_cancelled, close, join, Step, courier,
  main, Reach, start, step, signal,
}
use gtu_cse344_systems_progr.Cargo.Shift.Places.{Inv, closed}
use gtu_cse344_systems_progr.Cargo.Shift.Invariant.{Reach-Inv, drain-DrainedTo}
use gtu_cse344_systems_progr.Cargo.Shift.Account.{Opened}
use gtu_cse344_systems_progr.Cargo.Shift.Live.{Reach-Step}
use gtu_cse344_systems_progr.Cargo.Shift.Condition.{
  Sleepers, after_main, Moves, by_courier, by_main, Run, begins, moves, falls_asleep, wakes,
  signalled,
}

Run-Reach : {n : ℕ} {s t : Shift} {asleep : Sleepers} → Run n s t asleep → Reach n s t
Run-Reach begins = start
Run-Reach (moves r (by_courier i p own t h awake st)) = step (Run-Reach r) (courier i own h st)
Run-Reach (moves r (by_main t st)) = step (Run-Reach r) (main st)
Run-Reach (falls_asleep i own r h e) = Run-Reach r
Run-Reach (wakes i r) = Run-Reach r
Run-Reach (signalled r) = signal (Run-Reach r)

-- Every sleeper is before its pop, which would not return.
AreIdle : Shift → Sleepers → Type 0
AreIdle s asleep =
    (i : ℕ)
    → asleep i ≡ true
    → (pq_pop_blocking s.pq ≡ waits)
      × ((own : CourierStats) × (get_elem? s.couriers i
            ≡ some (record { pc = ready; stats = own })))

-- Another courier goes on, at the same queue.
others-AreIdle :
    (s : Shift) (asleep : Sleepers) (i : ℕ) (c : Courier)
    → AreIdle s asleep
    → asleep i ≡ false
    → (j : ℕ) → asleep j ≡ true
    → (pq_pop_blocking s.pq ≡ waits)
      × ((own : CourierStats) × (get_elem? (set s.couriers i c) j
            ≡ some (record { pc = ready; stats = own })))
unfolding AreIdle
others-AreIdle s asleep i c a awake j h =
    let (e, before) = a j h in
    let (own, at) = before in
    let apart : i ≢ j = λ same. cc (ap asleep same) in
    (e, (own, get_elem?-set_other s.couriers i j c apart ∙ at))

courier-AreIdle :
    {s t : Shift} {p : Pc} (asleep : Sleepers) (i : ℕ) (own : CourierStats)
    → CourierStep s i own p t
    → AreIdle s asleep
    → asleep i ≡ false
    → AreIdle t asleep
unfolding AreIdle
courier-AreIdle asleep i own (pop o q e) a awake j h = let (w, rest) = a j h in absurd cc
courier-AreIdle {s} asleep i own (leave e) a awake j h = let (w, rest) = a j h in absurd cc
courier-AreIdle {s} asleep i own (complete o) a awake j h = others-AreIdle s asleep i _ a awake j h
courier-AreIdle {s} asleep i own (count_order o) a awake j h =
    others-AreIdle s asleep i _ a awake j h
courier-AreIdle {s} asleep i own (add_time o) a awake j h = others-AreIdle s asleep i _ a awake j h
courier-AreIdle {s} asleep i own (add_own o) a awake j h = others-AreIdle s asleep i _ a awake j h

-- A drain leaves the queue empty, and open as it was.
main-AreIdle :
    {n : ℕ} {orders : List Order} {s t : Shift} {f : Phase} (asleep : Sleepers)
    → Inv orders s
    → s.phase ≡ f
    → MainStep n s f t
    → AreIdle s asleep
    → AreIdle t (after_main f asleep)
unfolding AreIdle after_main
main-AreIdle asleep v at (all_done few r) a j h = a j h
main-AreIdle {s} asleep v at (drain out q r e) a j h =
    let d = drain-DrainedTo s.pq out q v.valid e in
    ((pq_pop_correct q d.valid).2 d.emptied (d.shutdown ∙ v.closes ∙ ap closed at), (a j h).1)
main-AreIdle asleep v at (no_memory r) a j h = a j h
main-AreIdle asleep v at (cancel o rest) a j h = a j h
main-AreIdle asleep v at all_cancelled a j h = a j h
main-AreIdle asleep v at close a j h = absurd cc
main-AreIdle asleep v at (join o) a j h = a j h

Run-AreIdle :
    {n : ℕ} (orders : List Order) {s t : Shift} {asleep : Sleepers}
    → Run n s t asleep
    → Inv orders s
    → AreIdle t asleep
unfolding AreIdle
Run-AreIdle orders begins v j h = absurd cc
Run-AreIdle orders (moves r (by_courier i p own t h awake st)) v j slept =
    courier-AreIdle _ i own st (Run-AreIdle orders r v) awake j slept
Run-AreIdle orders (moves r (by_main t st)) v j slept =
    main-AreIdle _ (Reach-Inv orders (Run-Reach r) v) refl st (Run-AreIdle orders r v) j slept
Run-AreIdle orders (falls_asleep {asleep = asleep} i own r h e) v j slept =
    elim (Bool-cases (i == j)) [
      | inl here ↦ let same : j ≡ i = ground arith in (e, (own, ap (get_elem? _) same ∙ h))
      | inr there ↦ Run-AreIdle orders r v j (ground arith)
    ]
Run-AreIdle orders (wakes {asleep = asleep} i r) v j slept = Run-AreIdle orders r v j (ground arith)
Run-AreIdle orders (signalled r) v j slept = Run-AreIdle orders r v j slept

-- A courier that can take a step is awake.
goer-awake :
    (s t : Shift) (asleep : Sleepers) (i : ℕ) (p : Pc) (own : CourierStats)
    → AreIdle s asleep
    → get_elem? s.couriers i ≡ some (record { pc = p; stats = own })
    → CourierStep s i own p t
    → asleep i ≡ false
unfolding AreIdle
goer-awake s t asleep i p own a h st = elim (Bool-cases (asleep i)) [
  | inr awake ↦ awake
  | inl sleeps ↦
      let (e, before) = a i sleeps in
      let (mine, at) = before in
      let same : p ≡ ready = ap (λ (c : Courier). c.pc) (eq_of_some _ _ (sym h ∙ at)) in
      absurd (not_idle st same e)
]
  where
    not_idle :
        {p : Pc} {t : Shift}
        → CourierStep s i own p t
        → p ≡ ready
        → pq_pop_blocking s.pq ≡ waits
        → ⊥
    not_idle (pop o q w) same e = cc
    not_idle (leave w) same e = cc
    not_idle (complete o) same e = ground arith
    not_idle (count_order o) same e = ground arith
    not_idle (add_time o) same e = ground arith
    not_idle (add_own o) same e = ground arith

as_move :
    {n : ℕ} {t u : Shift} (asleep : Sleepers)
    → AreIdle t asleep
    → Step n t u
    → (u : Shift) × (next : Sleepers) × Moves n t asleep u next
as_move {t = t} {u} asleep a (courier i {p} own h st) =
    (u, asleep, by_courier i p own u h (goer-awake t u asleep i p own a h st) st)
as_move {u = u} asleep a (main st) = (u, _, by_main u st)

-- No deadlock: with at least one courier, in every state that the shift reaches until `main` has ended,
-- whoever sleeps in `pthread_cond_wait`, `main` or a courier that is awake can take a step, without any
-- further wake-up.
pub shift_goes_on :
    {k : ℕ} (orders : List Order) {s t : Shift} {asleep : Sleepers}
    → 0 < k
    → Opened k orders s
    → Run (length orders) s t asleep
    → t.phase ≢ ended
    → (u : Shift) × (next : Sleepers) × Moves (length orders) t asleep u next
shift_goes_on orders {asleep = asleep} few o r ne =
    let (u, st) = Reach-Step orders few o (Run-Reach r) ne in
    as_move asleep (Run-AreIdle orders r o.inv) st
