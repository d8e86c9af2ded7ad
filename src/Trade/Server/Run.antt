-- ===== src/Trade/Server/Run.antt =====
-- The states that the trading server reaches.
use gtu_cse344_systems_progr.Common.{
  ℕ, suc, ◌+◌, ◌≡◌, refl, ap, ◌∙◌, List, [], ◌∷◌, none, some, bit, get_elem?, Option-cases, inl,
  inr, arith, ◌++◌,
}
use mathlib.Core.Path.{subst}
use gtu_cse344_systems_progr.Libc.{Text}
use gtu_cse344_systems_progr.Trade.Market.{Floats}
use gtu_cse344_systems_progr.Trade.Session.{Client, Server, Message, Handled, stays, leaves}
use gtu_cse344_systems_progr.Trade.Session.Slots.{symbols, is_open, IsServer, put_client-IsServer}
use gtu_cse344_systems_progr.Trade.Session.Room.{PrintsShort}
use gtu_cse344_systems_progr.Trade.Server.{
  free_client, free_slot, connect, client_read, connects, reads, drops, Reach, start, step,
}
use gtu_cse344_systems_progr.Trade.Server.Input.{
  Kept, kept_stays, kept_leaves, received, wanted, client_read-Kept,
}

-- The invariant, with the symbols of the stocks.
abbrev pub IsServing : List Text → Server → Type 0
IsServing listed s = IsServer s × (symbols s.stocks ≡ listed)

stays-IsServing :
    (listed : List Text) (bound : Text → ℕ) (h : Handled) (t : Server) (ms : List Message)
    → Kept listed bound h
    → h ≡ stays t ms
    → IsServing listed t
stays-IsServing listed bound _ t ms (kept_stays s ns v e) h =
    let same : s ≡ t = cc in subst (IsServing listed) same (v, e)
stays-IsServing listed bound _ t ms (kept_leaves s ns v e) h = cc
stays-IsServing listed bound _ t ms (Kept.kept_overflow u w) h = cc
stays-IsServing listed bound _ t ms (Kept.kept_fault w) h = cc

leaves-IsServing :
    (listed : List Text) (bound : Text → ℕ) (h : Handled) (t : Server) (ms : List Message)
    → Kept listed bound h
    → h ≡ leaves t ms
    → IsServing listed t
leaves-IsServing listed bound _ t ms (kept_leaves s ns v e) h =
    let same : s ≡ t = cc in subst (IsServing listed) same (v, e)
leaves-IsServing listed bound _ t ms (kept_stays s ns v e) h = cc
leaves-IsServing listed bound _ t ms (Kept.kept_overflow u w) h = cc
leaves-IsServing listed bound _ t ms (Kept.kept_fault w) h = cc

free_slot-found :
    (i : ℕ) (clients : List Client) (slot : ℕ)
    → free_slot i clients ≡ some slot
    → (k : ℕ) × (c : Client) × (slot ≡ i + k) × (get_elem? clients k ≡ some c) × (c.fd ≡ none)
unfolding free_slot
free_slot-found i [] slot e = cc
free_slot-found i (c ∷ clients) slot e = elim (Option-cases c.fd) [
  | inl free ↦ (0, c, ground arith, refl, free)
  | inr (fd, h) ↦
      let (k, d, at, found, free) = free_slot-found (i + 1) clients slot (ground arith) in
      (suc k, d, omega (arith, at), found, free)
]

connect-IsServing :
    (listed : List Text) (s : Server) (cli_fd : ℕ)
    → IsServing listed s
    → IsServing listed (connect s cli_fd)
unfolding connect
connect-IsServing listed s cli_fd (v, same) = elim (Option-cases (free_slot 0 s.clients)) [
  | inl n ↦ rw (connect, n) (v, same)
  | inr (slot, h) ↦
      let (k, c, at, found, free) = free_slot-found 0 s.clients slot h in
      let here : get_elem? s.clients slot ≡ some c =
        ap (get_elem? s.clients) (omega (arith, at)) ∙ found in
      let d : Client = record free_client { fd = some cli_fd } in
      let empty : bit (is_open c) ≡ 0 = ground arith in
      rw (connect, h)
        (
          put_client-IsServer s slot c here v s.stocks d (s.client_count + 1) refl
              (record {
                portfolio = record { holdings = tt; single = λ t. omega arith };
                name = omega arith;
                buffer = omega arith;
              })
              (λ m. cc) (omega (arith, empty)),
          same,
        )
]

-- While no `float` prints in more than 43 characters, every state that the server reaches keeps the
-- invariant: the entries of a portfolio are of different listed symbols, with quantities in
-- 1 .. INT_MAX; no two joined clients have the same name, and no name is longer than 31 bytes; no line
-- buffer is longer than 511 bytes; the number of clients is that of the open slots, and the symbols
-- listed stay the same.
pub Reach-IsServing :
    (fl : Floats) (listed : List Text) {s t : Server}
    → PrintsShort fl
    → IsServing listed s
    → Reach fl s t
    → IsServing listed t
Reach-IsServing fl listed narrow v start = v
Reach-IsServing fl listed narrow v (step {t} r (connects cli_fd)) =
    connect-IsServing listed t cli_fd (Reach-IsServing fl listed narrow v r)
Reach-IsServing fl listed narrow v (step {t} r (reads idx fd c got u ms client open_fd fit e)) =
    let (w, same) = Reach-IsServing fl listed narrow v r in
    let kept = client_read-Kept fl narrow t idx c got client w fit in
    stays-IsServing listed (wanted c (c.line_buf ++ received got)) _ u ms
      (subst (λ l. Kept l (wanted c (c.line_buf ++ received got)) (client_read fl t idx got)) same
        kept)
      e
Reach-IsServing fl listed narrow v (step {t} r (drops idx fd c got u ms client open_fd fit e)) =
    let (w, same) = Reach-IsServing fl listed narrow v r in
    let kept = client_read-Kept fl narrow t idx c got client w fit in
    leaves-IsServing listed (wanted c (c.line_buf ++ received got)) _ u ms
      (subst (λ l. Kept l (wanted c (c.line_buf ++ received got)) (client_read fl t idx got)) same
        kept)
      e
