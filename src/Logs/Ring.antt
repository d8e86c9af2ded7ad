-- ===== src/Logs/Ring.antt =====
-- The ring buffer that HW4/src/utils/buffer.c and HW4/src/shm/shm_queue.c write out five times:
-- an array of `capacity` cells, the index of the oldest item, of the next free cell, and a count.
pub mod Fifo
pub mod Refine
use gtu_cse344_systems_progr.Common.{
  ℕ, zero, suc, ◌+◌, ◌-◌, ◌%◌, List, [], ◌∷◌, Bool, true, false, Option, none, some, ltb, ◌==◌,
  if◌then◌else◌, length, get_elem?, set, replicate,
}

module _ {ℓ} (A : Type ℓ) where
  pub record Ring : Type ℓ where
    pub cells : List A
    pub capacity : ℕ
    pub head : ℕ
    pub tail : ℕ
    pub count : ℕ

  -- `full` is the return value 0, with nothing changed; `fault` a write outside the array.
  pub data Push : Type ℓ where
    full : Push
    pushed : Ring → Push
    fault : Push

  -- `empty` is the return value 0; `fault` a read outside the array.
  pub data Pop : Type ℓ where
    empty : Pop
    popped : A → Ring → Pop
    fault : Pop

module _ {ℓ} {A : Type ℓ} where
  unfoldable pub push : Ring A → A → Push A
  push r x =
      if r.count == r.capacity
      then Push.full
      else if ltb r.tail (length r.cells)
      then Push.pushed (record r {
        cells = set r.cells r.tail x;
        tail = (r.tail + 1) % r.capacity;
        count = r.count + 1;
      })
      else Push.fault

  unfoldable pub pop : Ring A → Pop A
  pop r = if r.count == 0 then Pop.empty else elim (get_elem? r.cells r.head) [
    | none ↦ Pop.fault
    | some x ↦ Pop.popped x (record r { head = (r.head + 1) % r.capacity; count = r.count - 1 })
  ]

  -- A ring in memory that `memset` has cleared, with `zero` for the cleared item.
  abbrev pub cleared : A → ℕ → Ring A
  cleared zero_item capacity = record {
    cells = replicate capacity zero_item;
    capacity = capacity;
    head = 0;
    tail = 0;
    count = 0;
  }
