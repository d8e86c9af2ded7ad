-- ===== src/Logs/Tests/Buffers.antt =====
-- The internal buffer at a concrete state.
use gtu_cse344_systems_progr.Common.{◌≡◌, ◌<◌, ◌∷◌, [], ◌++◌, true, false, length, arith}
use gtu_cse344_systems_progr.Logs.Entry.{LogEntry}
use gtu_cse344_systems_progr.Logs.Regions.{
  zero_entry, InternalBuffer, Put, put, took, finished, waits, ibuf_init, ibuf_push, ibuf_pop,
}
use gtu_cse344_systems_progr.Logs.Regions.Buffer.{queue, IsBuffer, ibuf_lem, ibuf_init-IsBuffer}

abbrev fresh : InternalBuffer
fresh = ibuf_init 4

ibuf_lem_example :
    (length (queue fresh) < 4
      → (c : InternalBuffer) × (ibuf_push fresh zero_entry ≡ put c)
        × IsBuffer c
        × (queue c ≡ queue fresh ++ zero_entry ∷ [])
        × (c.done ≡ false))
    × (length (queue fresh) ≡ 4 → ibuf_push fresh zero_entry ≡ Put.refused)
    × (0 < length (queue fresh)
        → (e : LogEntry) × (c : InternalBuffer) × (ibuf_pop fresh ≡ took e c)
          × IsBuffer c
          × (queue fresh ≡ e ∷ queue c)
          × (c.done ≡ false))
    × (length (queue fresh) ≡ 0 → false ≡ true → ibuf_pop fresh ≡ finished)
    × (length (queue fresh) ≡ 0 → false ≡ false → ibuf_pop fresh ≡ waits)
ibuf_lem_example = ibuf_lem fresh zero_entry (ibuf_init-IsBuffer 4 (omega arith))
