-- ===== src/Logs/Regions/Buffer.antt =====
-- The internal buffer of a reader, seen as a queue.
use gtu_cse344_systems_progr.Common.{
  ℕ, ◌<◌, ◌≡◌, refl, ap, sym, ◌∙◌, List, [], ◌∷◌, ◌++◌, true, false, length, if◌then◌else◌, arith,
  length-replicate,
}
use native.Mathlib.Nat.{mod-eq_of_lt}
use gtu_cse344_systems_progr.Logs.Entry.{LogEntry}
use gtu_cse344_systems_progr.Logs.Ring.Fifo.{
  IsRing, items, length-items, push-Pushed, pop-Popped, push-full, pop-empty,
}
use gtu_cse344_systems_progr.Logs.Regions.{
  zero_entry, InternalBuffer, Put, put, took, finished, waits, ibuf_init, ibuf_push, ibuf_pop,
  ibuf_take, put_in,
}

-- The entries in the buffer, the oldest first.
abbrev pub queue : InternalBuffer → List LogEntry
queue b = items zero_entry b.ring

pub record IsBuffer (b : InternalBuffer) : Type 0 where
  pub ring : IsRing zero_entry b.ring

-- With room `ibuf_push` puts the entry behind the others, and without it waits; `ibuf_pop` takes the
-- oldest entry while there is one, whether or not the readers are done, and on an empty buffer ends
-- when they are done and waits when they are not.
pub ibuf_lem :
    (b : InternalBuffer) (entry : LogEntry)
    → IsBuffer b
    → (length (queue b) < b.ring.capacity
        → (c : InternalBuffer) × (ibuf_push b entry ≡ put c)
          × IsBuffer c
          × (queue c ≡ queue b ++ entry ∷ [])
          × (c.done ≡ b.done))
      × (length (queue b) ≡ b.ring.capacity → ibuf_push b entry ≡ Put.refused)
      × (0 < length (queue b)
          → (e : LogEntry) × (c : InternalBuffer) × (ibuf_pop b ≡ took e c)
            × IsBuffer c
            × (queue b ≡ e ∷ queue c)
            × (c.done ≡ b.done))
      × (length (queue b) ≡ 0 → b.done ≡ true → ibuf_pop b ≡ finished)
      × (length (queue b) ≡ 0 → b.done ≡ false → ibuf_pop b ≡ waits)
unfolding ibuf_push ibuf_pop
ibuf_lem b entry v =
    let long = length-items zero_entry b.ring in
    (
      λ room.
          let (r, moves, p) = push-Pushed zero_entry b.ring entry v.ring (omega (arith, long)) in
          (
            record b { ring = r },
            ap (put_in (λ r. record b { ring = r })) moves,
            record { ring = p.valid },
            p.queue,
            refl,
          ),
      λ is_full.
          ap (put_in (λ r. record b { ring = r }))
            (push-full zero_entry b.ring entry (omega (arith, long))),
      λ some_in.
          let (e, r, moves, p) = pop-Popped zero_entry b.ring v.ring (omega (arith, long)) in
          (
            e,
            record b { ring = r },
            ap (ibuf_take b) moves,
            record { ring = p.valid },
            p.queue,
            refl,
          ),
      λ none_in done.
          ap (ibuf_take b) (pop-empty zero_entry b.ring (omega (arith, long)))
          ∙ ap (λ d. if d then finished else waits) done,
      λ none_in open_.
          ap (ibuf_take b) (pop-empty zero_entry b.ring (omega (arith, long)))
          ∙ ap (λ d. if d then finished else waits) open_,
    )

-- The buffer that `ibuf_init` makes is empty and in order.
pub ibuf_init-IsBuffer : (capacity : ℕ) → 0 < capacity → IsBuffer (ibuf_init capacity)
ibuf_init-IsBuffer capacity h = record {
  ring = record {
    sized = length-replicate capacity zero_entry;
    head_in = h;
    tail_at = sym (mod-eq_of_lt h);
    count_le = omega arith;
  };
}
