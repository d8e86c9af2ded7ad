-- ===== src/Cargo/Shift/Condition.antt =====
-- HW5/src/priority_queue.c: the condition variable `not_empty` of the queue in a shift. A courier that
-- finds the queue empty and open sleeps in `pthread_cond_wait` and takes no step until it is woken.
-- `pq_push` signals when no courier runs yet, so `pthread_cond_broadcast` in `pq_shutdown` and the
-- spurious wake-ups that POSIX allows are all that wakes it.
use gtu_cse344_systems_progr.Common.{
  ℕ, ◌≡◌, Bool, true, false, some, ◌==◌, if◌then◌else◌, get_elem?,
}
use gtu_cse344_systems_progr.Cargo.Queue.{pq_pop_blocking, waits}
use gtu_cse344_systems_progr.Cargo.Stats.{CourierStats}
use gtu_cse344_systems_progr.Cargo.Shift.{
  Pc, ready, Phase, waiting, cancelling, closing, joining, ended, Shift, CourierStep, MainStep,
  sigint,
}

-- Which couriers sleep in `pthread_cond_wait`, by their index.
abbrev pub Sleepers : Type 0
Sleepers = ℕ → Bool

-- The couriers with courier `i` asleep, and with it awake.
abbrev pub cond_wait : Sleepers → ℕ → Sleepers
cond_wait asleep i j = if i == j then true else asleep j

abbrev pub wake_up : Sleepers → ℕ → Sleepers
wake_up asleep i j = if i == j then false else asleep j

-- `pthread_cond_broadcast`
abbrev pub cond_broadcast : Sleepers → Sleepers
cond_broadcast asleep j = false

-- Who sleeps after a step of `main` from a phase: `pq_shutdown`, its step from `closing`, broadcasts.
unfoldable pub after_main : Phase → Sleepers → Sleepers
after_main closing asleep = cond_broadcast asleep
after_main waiting asleep = asleep
after_main (cancelling os) asleep = asleep
after_main joining asleep = asleep
after_main ended asleep = asleep

-- A step of the shift: of a courier that is awake, or of `main`.
pub data Moves (n : ℕ) (s : Shift) (asleep : Sleepers) : Shift → Sleepers → Type 0 where
  by_courier :
      (i : ℕ) (p : Pc) (own : CourierStats) (t : Shift)
      → get_elem? s.couriers i ≡ some (record { pc = p; stats = own })
      → asleep i ≡ false
      → CourierStep s i own p t
      → Moves n s asleep t asleep
  by_main : (t : Shift) → MainStep n s s.phase t → Moves n s asleep t (after_main s.phase asleep)

-- The states that a shift reaches, with who sleeps. A courier falls asleep at a queue that is empty
-- and open.
pub data Run (n : ℕ) (s : Shift) : Shift → Sleepers → Type 0 where
  begins : Run n s s (λ j. false)
  moves :
      {t u : Shift} {asleep next : Sleepers}
      → Run n s t asleep
      → Moves n t asleep u next
      → Run n s u next
  falls_asleep :
      {t : Shift} {asleep : Sleepers} (i : ℕ) (own : CourierStats)
      → Run n s t asleep
      → get_elem? t.couriers i ≡ some (record { pc = ready; stats = own })
      → pq_pop_blocking t.pq ≡ waits
      → Run n s t (cond_wait asleep i)
  wakes : {t : Shift} {asleep : Sleepers} (i : ℕ) → Run n s t asleep → Run n s t (wake_up asleep i)
  signalled : {t : Shift} {asleep : Sleepers} → Run n s t asleep → Run n s (sigint t) asleep
