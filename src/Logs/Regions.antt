-- ===== src/Logs/Regions.antt =====
-- HW4/inc/shm.h, HW4/src/shm/shm.c, HW4/src/shm/shm_queue.c and HW4/src/utils/internal_buffer.c: the
-- regions that the processes share, and the buffer between the reader threads and the parser
-- thread of one reader. Mutexes and condition variables are not in the records: every function
-- is what one thread does while it holds the mutex.
pub mod Buffer
use gtu_cse344_systems_progr.Common.{
  ℕ, ◌-◌, List, [], Bool, true, false, ◌==◌, if◌then◌else◌, replicate,
}
use gtu_cse344_systems_progr.Logs.Entry.{error, LogEntry}
use gtu_cse344_systems_progr.Logs.Ring.{
  Ring, Push, full, pushed, Pop, empty, popped, push, pop, cleared,
}

-- An entry after `memset (&entry, 0, ..)`.
abbrev pub zero_entry : LogEntry
zero_entry = record { timestamp = []; level = error; source = []; message = []; is_eof = false }

pub record RegionA : Type 0 where
  pub ring : Ring LogEntry
  pub eof_count_per_level : List ℕ
  pub total_readers : ℕ

pub record RegionB : Type 0 where
  pub ring : Ring LogEntry
  pub eof_posted : Bool

pub record RegionD : Type 0 where
  pub ring : Ring LogEntry
  pub dispatcher_done : Bool

-- When `mmap` and the initialisers succeed.
abbrev pub init_region_a : ℕ → ℕ → RegionA
init_region_a capacity total_readers = record {
  ring = cleared zero_entry capacity;
  eof_count_per_level = replicate 4 0;
  total_readers = total_readers;
}

abbrev pub init_region_b : ℕ → List RegionB
init_region_b capacity =
    replicate 4 (record { ring = cleared zero_entry capacity; eof_posted = false })

abbrev pub init_region_d : ℕ → RegionD
init_region_d capacity = record { ring = cleared zero_entry capacity; dispatcher_done = false }

-- What a call on a region does: `refused` is the return value 0, `fault` an access outside the
-- array.
pub data Put {ℓ} (A : Type ℓ) : Type ℓ where
  refused fault : Put A
  put : A → Put A

pub data Take {ℓ} (A : Type ℓ) : Type ℓ where
  nothing fault : Take A
  took : LogEntry → A → Take A

abbrev pub put_in {ℓ} : {A : Type ℓ} → (Ring LogEntry → A) → Push LogEntry → Put A
put_in f full = Put.refused
put_in f (pushed r) = Put.put (f r)
put_in f Push.fault = Put.fault

abbrev pub take_from {ℓ} : {A : Type ℓ} → (Ring LogEntry → A) → Pop LogEntry → Take A
take_from f empty = Take.nothing
take_from f (popped e r) = Take.took e (f r)
take_from f Pop.fault = Take.fault

unfoldable pub region_a_push : RegionA → LogEntry → Put RegionA
unfolding push
region_a_push a entry = put_in (λ r. record a { ring = r }) (push a.ring entry)

unfoldable pub region_a_pop : RegionA → Take RegionA
unfolding pop
region_a_pop a = take_from (λ r. record a { ring = r }) (pop a.ring)

unfoldable pub region_b_push : RegionB → LogEntry → Put RegionB
unfolding push
region_b_push b entry = put_in (λ r. record b { ring = r }) (push b.ring entry)

unfoldable pub region_b_pop : RegionB → Take RegionB
unfolding pop
region_b_pop b = take_from (λ r. record b { ring = r }) (pop b.ring)

unfoldable pub region_d_push : RegionD → LogEntry → Put RegionD
unfolding push
region_d_push d entry = put_in (λ r. record d { ring = r }) (push d.ring entry)

unfoldable pub region_d_pop : RegionD → Take RegionD
unfolding pop
region_d_pop d = take_from (λ r. record d { ring = r }) (pop d.ring)

pub record InternalBuffer : Type 0 where
  pub ring : Ring LogEntry
  pub done : Bool
  pub active_readers : ℕ

abbrev pub ibuf_init : ℕ → InternalBuffer
ibuf_init capacity = record { ring = cleared zero_entry capacity; done = false; active_readers = 0 }

-- One look at the buffer; `refused` is a call of `pthread_cond_wait`, after which the loop looks
-- again.
unfoldable pub ibuf_push : InternalBuffer → LogEntry → Put InternalBuffer
unfolding push
ibuf_push b entry = put_in (λ r. record b { ring = r }) (push b.ring entry)

pub data IbufPop : Type 0 where
  waits finished fault : IbufPop
  took : LogEntry → InternalBuffer → IbufPop

abbrev pub ibuf_take : InternalBuffer → Pop LogEntry → IbufPop
ibuf_take b empty = if b.done then IbufPop.finished else IbufPop.waits
ibuf_take b (popped e r) = IbufPop.took e (record b { ring = r })
ibuf_take b Pop.fault = IbufPop.fault

-- One look at the buffer: `waits` is a call of `pthread_cond_wait`, `finished` the return value 0.
unfoldable pub ibuf_pop : InternalBuffer → IbufPop
unfolding pop
ibuf_pop b = ibuf_take b (pop b.ring)

-- `active_readers` is at least 1: every reader thread calls this once.
unfoldable pub ibuf_reader_done : InternalBuffer → InternalBuffer
ibuf_reader_done b =
    if b.active_readers - 1 == 0
    then record b { active_readers = b.active_readers - 1; done = true }
    else record b { active_readers = b.active_readers - 1 }
