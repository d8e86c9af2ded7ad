-- ===== src/Hogwarts/Session/Input.antt =====
-- What a read keeps of the server, however many lines it brings.
use gtu_cse344_systems_progr.Common.{
  ℕ, none, int_max, zero, suc, ◌+◌, ◌-◌, ◌≤◌, ◌<◌, ◌≡◌, refl, ap, List, [], ◌++◌, true, some, ◌==◌,
  length, length-append, get_elem?, get_elem?-set, if-both, Option-cases, inl, inr, arith,
}
use gtu_cse344_systems_progr.Libc.{Text, c_string, split_line, cut_cr, split_line-length}
use gtu_cse344_systems_progr.Hogwarts.Stock.{spell_qty}
use gtu_cse344_systems_progr.Hogwarts.Command.{Client, Server, max_line_len}
use gtu_cse344_systems_progr.Hogwarts.Session.{
  Handled, stays, closes, fault, put_client, reset_client_slot, more, line_loop, Read, failed,
  interrupted, hangup, bytes, handle_client_input, fits,
}
use gtu_cse344_systems_progr.Hogwarts.Session.Slots.{
  IsServer, put_client-IsServer, put_client-IsStocked, same-IsOwnName, free_client-IsServer,
}
use gtu_cse344_systems_progr.Hogwarts.Session.Served.{
  Served, brewed_by, is_stays, is_closes, is_overflowing, handle_command-Served,
}

-- The invariant holds afterwards; an overflow needs an ingredient of which the bound is above INT_MAX,
-- and there is no `fault` among the cases.
pub data Kept (bound : Text → ℕ) : Handled → Type 0 where
  kept_stays : (s : Server) (ts : List Text) → IsServer s → Kept bound (stays s ts)
  kept_closes : (s : Server) (ts : List Text) → IsServer s → Kept bound (closes s ts)
  kept_overflow : (u : Text) → int_max < bound u → Kept bound Handled.overflow

more-Kept :
    (bound : Text → ℕ) (ts : List Text) (h : Handled) → Kept bound h → Kept bound (more ts h)
more-Kept bound ts _ (kept_stays s us v) = kept_stays s _ v
more-Kept bound ts _ (kept_closes s us v) = kept_closes s _ v
more-Kept bound ts _ (kept_overflow u w) = kept_overflow u w

-- What the first lines in a buffer, `fuel` at most, brew of ingredient `u`.
unfoldable pub ordered : ℕ → Text → List ℕ → ℕ
unfolding split_line
ordered zero u buf = 0
ordered (suc fuel) u buf = elim (split_line buf) [
  | none ↦ 0
  | some (line, rest) ↦ brewed_by u (c_string (cut_cr line)) + ordered fuel u rest
]

ordered-line :
    (fuel : ℕ) (u : Text) (buf line rest : List ℕ)
    → split_line buf ≡ some (line, rest)
    → ordered (suc fuel) u buf ≡ brewed_by u (c_string (cut_cr line)) + ordered fuel u rest
unfolding ordered
ordered-line fuel u buf line rest h = ground (arith, h)

-- The bytes that were read.
abbrev pub received : Read → List ℕ
received failed = []
received interrupted = []
received hangup = []
received (bytes bs) = bs

-- The stock of ingredient `u`, and what the lines in a buffer brew of it.
abbrev pub wanted : Server → List ℕ → Text → ℕ
wanted s buf u = spell_qty s.ingredients u + ordered (length buf + 1) u buf

-- Another buffer, and another time.
buffer-IsServer :
    (s : Server) (idx : ℕ) (c : Client) (buf : List ℕ) (now : ℕ)
    → get_elem? s.clients idx ≡ some c
    → IsServer s
    → length buf ≤ max_line_len
    → IsServer (put_client s idx (record c { line_buf = buf; last_active = now }))
buffer-IsServer s idx c buf now client v short =
    let d : Client = record c { line_buf = buf; last_active = now } in
    put_client-IsServer s idx c client s.ingredients d v
      (put_client-IsStocked s idx c client d v (λ t. omega arith))
      (same-IsOwnName s idx c client d v refl refl) short

-- The loop goes on with what one line leaves.
abbrev pub go_on : (Server → Handled) → Handled → Handled
go_on next (stays t ts) = more ts (next t)
go_on next (closes t ts) = closes t ts
go_on next Handled.overflow = Handled.overflow
go_on next fault = fault

go_on-Kept :
    (bound total : Text → ℕ) (next : Server → Handled) (idx : ℕ) (buf : List ℕ) (h : Handled)
    → Served idx buf bound h
    → ((u : Text) → bound u ≤ total u)
    → ((t : Server) (c : Client)
        → IsServer t
        → get_elem? t.clients idx ≡ some c
        → c.line_buf ≡ buf
        → ((u : Text) → spell_qty t.ingredients u ≤ bound u)
        → Kept total (next t))
    → Kept total (go_on next h)
go_on-Kept bound total next idx buf _ (is_stays t ts c v client e few) in_all k =
    more-Kept total ts (next t) (k t c v client e few)
go_on-Kept bound total next idx buf _ (is_closes t ts v) in_all k = kept_closes t ts v
go_on-Kept bound total next idx buf _ (is_overflowing u w) in_all k =
    kept_overflow u (omega (arith, w, in_all u))

line_loop-Kept :
    (total : Text → ℕ) (fuel : ℕ) (s : Server) (idx : ℕ) (c : Client)
    → get_elem? s.clients idx ≡ some c
    → IsServer s
    → length c.line_buf < fuel
    → ((u : Text) → spell_qty s.ingredients u + ordered fuel u c.line_buf ≤ total u)
    → Kept total (line_loop fuel s idx)
unfolding line_loop
line_loop-Kept total zero s idx c client v enough few = absurd (omega arith)
line_loop-Kept total (suc fuel) s idx c client v enough few =
    elim (Option-cases (split_line c.line_buf)) [
      | inl no_line ↦
          rw (line_loop, client, no_line)
            (if-both (Kept total) (length c.line_buf == max_line_len)
              (kept_closes (reset_client_slot s idx) _ (free_client-IsServer s idx c client v))
              (kept_stays s [] v))
      | inr ((line, rest), h) ↦
          let shorter = (split_line-length c.line_buf line rest h).1 in
          let d : Client = record c { line_buf = rest } in
          let after = put_client s idx d in
          let text = c_string (cut_cr line) in
          let bound : Text → ℕ = λ (u : Text). spell_qty s.ingredients u + brewed_by u text in
          let w =
            buffer-IsServer s idx c rest c.last_active client v
              (omega (arith, shorter, v.buffers idx c client)) in
          let here = get_elem?-set s.clients idx c d client in
          let one =
            handle_command-Served after idx d here w bound (λ u. omega arith) text
              (λ u. omega arith) in
          rw (line_loop, client, h)
            (go_on-Kept bound total (λ t. line_loop fuel t idx) idx rest _ one
              (λ u. omega (arith, few u, ordered-line fuel u c.line_buf line rest h))
              (λ t e u at same fewer.
                line_loop-Kept total fuel t idx e at u (omega (arith, shorter, ap length same))
                  (λ z. omega (
                    arith,
                    few z,
                    fewer z,
                    ordered-line fuel z c.line_buf line rest h,
                    ap (ordered fuel z) same,
                  ))))
    ]

-- Whatever a read brings that fits the buffer, the server's invariant holds after it: the stock
-- covers the spellbooks, the names of the enrolled clients differ, and no buffer is longer than 512
-- bytes; and the loop over the lines ends without taking a stock below 0. The exception is an overflow of
-- the stock: it needs an ingredient of which the stock and what all lines in the client's buffer brew
-- are together more than INT_MAX.
pub handle_client_input-Kept :
    (s : Server) (idx now : ℕ) (c : Client) (r : Read)
    → get_elem? s.clients idx ≡ some c
    → IsServer s
    → fits (max_line_len - length c.line_buf) r ≡ true
    → Kept (wanted s (c.line_buf ++ received r)) (handle_client_input s idx now r)
unfolding handle_client_input
handle_client_input-Kept s idx now c r client v fit =
    rw (handle_client_input, client)
      (if-both (Kept (wanted s (c.line_buf ++ received r))) (max_line_len - length c.line_buf == 0)
        (kept_closes (reset_client_slot s idx) _ (free_client-IsServer s idx c client v))
        (after r fit))
  where
    after :
        (r : Read)
        → fits (max_line_len - length c.line_buf) r ≡ true
        → Kept (wanted s (c.line_buf ++ received r)) (elim r [
          | failed ↦ closes (reset_client_slot s idx) []
          | interrupted ↦ stays s []
          | hangup ↦ closes (reset_client_slot s idx) []
          | bytes bs ↦
              line_loop
                (length (c.line_buf ++ bs) + 1)
                (put_client s idx (record c { line_buf = c.line_buf ++ bs; last_active = now }))
                idx
        ])
    after failed e =
        kept_closes (reset_client_slot s idx) [] (free_client-IsServer s idx c client v)
    after interrupted e = kept_stays s [] v
    after hangup e =
        kept_closes (reset_client_slot s idx) [] (free_client-IsServer s idx c client v)
    after (bytes bs) e =
        let room : length bs ≤ max_line_len - length c.line_buf = ground arith in
        let long = length-append c.line_buf bs in
        let d : Client = record c { line_buf = c.line_buf ++ bs; last_active = now } in
        line_loop-Kept (wanted s (c.line_buf ++ bs)) (length (c.line_buf ++ bs) + 1)
          (put_client s idx d) idx d (get_elem?-set s.clients idx c d client)
          (buffer-IsServer s idx c (c.line_buf ++ bs) now client v
            (omega (arith, long, room, v.buffers idx c client)))
          (omega arith) (λ u. omega arith)
