-- ===== src/Hogwarts/Session/Run.antt =====
-- The states that the server reaches.
use gtu_cse344_systems_progr.Common.{
  ℕ, zero, suc, ◌+◌, ◌-◌, ◌≤◌, ◌≡◌, refl, ap, sym, ◌∙◌, List, [], ◌∷◌, true, false, none, some, leb,
  length, get_elem?, replicate, Bool-cases, Option-cases, inl, inr, arith, eq_of_some, ◌⊎◌,
}
use mathlib.Core.Path.{subst}
use gtu_cse344_systems_progr.Libc.{Text}
use gtu_cse344_systems_progr.Hogwarts.Stock.{Item}
use gtu_cse344_systems_progr.Hogwarts.Stock.Held.{held}
use gtu_cse344_systems_progr.Hogwarts.Command.{Client, Server, free_client, is_member}
use gtu_cse344_systems_progr.Hogwarts.Command.Stocked.{held_by}
use gtu_cse344_systems_progr.Hogwarts.Session.{
  Handled, stays, closes, put_client, find_free_slot, accept_new_connection, idle_slot,
  check_idle_timeouts, open_server, accepts, reads, drops, times_out, Reach, start, step,
}
use gtu_cse344_systems_progr.Hogwarts.Session.Slots.{
  IsServer, put_client-IsServer, put_client-IsStocked,
}
use gtu_cse344_systems_progr.Hogwarts.Session.Input.{
  Kept, kept_stays, kept_closes, handle_client_input-Kept,
}

stays-IsServer :
    (bound : Text → ℕ) (h : Handled) (t : Server) (ts : List Text)
    → Kept bound h
    → h ≡ stays t ts
    → IsServer t
stays-IsServer bound _ t ts (kept_stays s us v) e = let same : s ≡ t = cc in subst IsServer same v
stays-IsServer bound _ t ts (kept_closes s us v) e = cc
stays-IsServer bound _ t ts (Kept.kept_overflow u w) e = cc

closes-IsServer :
    (bound : Text → ℕ) (h : Handled) (t : Server) (ts : List Text)
    → Kept bound h
    → h ≡ closes t ts
    → IsServer t
closes-IsServer bound _ t ts (kept_stays s us v) e = cc
closes-IsServer bound _ t ts (kept_closes s us v) e = let same : s ≡ t = cc in subst IsServer same v
closes-IsServer bound _ t ts (Kept.kept_overflow u w) e = cc

find_free_slot-found :
    (i : ℕ) (clients : List Client) (slot : ℕ)
    → find_free_slot i clients ≡ some slot
    → (k : ℕ) × (c : Client) × (slot ≡ i + k) × (get_elem? clients k ≡ some c) × (c.fd ≡ none)
unfolding find_free_slot
find_free_slot-found i [] slot e = cc
find_free_slot-found i (c ∷ clients) slot e = elim (Option-cases c.fd) [
  | inl free ↦ (0, c, ground arith, refl, free)
  | inr (fd, h) ↦
      let (k, d, at, found, free) = find_free_slot-found (i + 1) clients slot (ground arith) in
      (suc k, d, omega (arith, at), found, free)
]

accepts-IsServer :
    (s : Server) (fd now : ℕ) (t : Server)
    → accept_new_connection s fd now ≡ some t
    → IsServer s
    → IsServer t
unfolding accept_new_connection
accepts-IsServer s fd now t e v = elim (Option-cases (find_free_slot 0 s.clients)) [
  | inl n ↦ ground arith
  | inr (slot, h) ↦
      let (k, c, at, found, free) = find_free_slot-found 0 s.clients slot h in
      let here : get_elem? s.clients slot ≡ some c =
        ap (get_elem? s.clients) (omega (arith, at)) ∙ found in
      let d : Client = record free_client { fd = some fd; last_active = now } in
      let made : put_client s slot d ≡ t = ground arith in
      subst IsServer made (
        put_client-IsServer s slot c here s.ingredients d v
          (put_client-IsStocked s slot c here d v (λ u. omega arith)) (λ m. cc) (omega arith))
]

idle_slot-cases :
    (timeout now : ℕ) (c : Client)
    → (idle_slot timeout now c ≡ free_client) ⊎ (idle_slot timeout now c ≡ c)
idle_slot-cases timeout now c = elim (Option-cases c.fd) [
  | inl free ↦ inr (ground arith)
  | inr (fd, h) ↦ elim (Bool-cases (leb timeout (now - c.last_active))) [
    | inl late ↦ inl (ground arith)
    | inr early ↦ inr (ground arith)
  ]
]

-- A client that is left is a client as before, or a free slot.
left-cases :
    (timeout now : ℕ) (clients : List Client) (i : ℕ) (d : Client)
    → get_elem? (check_idle_timeouts timeout now clients) i ≡ some d
    → (d ≡ free_client) ⊎ (get_elem? clients i ≡ some d)
unfolding check_idle_timeouts
left-cases timeout now [] i d e = cc
left-cases timeout now (c ∷ clients) zero d e =
    let same : idle_slot timeout now c ≡ d = eq_of_some _ d e in
    elim (idle_slot-cases timeout now c) [
      | inl free ↦ inl (sym same ∙ free)
      | inr kept ↦ inr (ap some (sym kept ∙ same))
    ]
left-cases timeout now (c ∷ clients) (suc i) d e = left-cases timeout now clients i d e

held_by-left :
    (timeout now : ℕ) (clients : List Client) (t : Text)
    → held_by t (check_idle_timeouts timeout now clients) ≤ held_by t clients
unfolding check_idle_timeouts
held_by-left timeout now [] t = omega arith
held_by-left timeout now (c ∷ clients) t = elim (idle_slot-cases timeout now c) [
  | inl free ↦ omega (arith, held_by-left timeout now clients t, ap (λ z. held t z.spellbook) free)
  | inr kept ↦ omega (arith, held_by-left timeout now clients t, ap (λ z. held t z.spellbook) kept)
]

left-member :
    (timeout now : ℕ) (clients : List Client) (i : ℕ) (d : Client)
    → get_elem? (check_idle_timeouts timeout now clients) i ≡ some d
    → is_member d ≡ true
    → get_elem? clients i ≡ some d
left-member timeout now clients i d e m = elim (left-cases timeout now clients i d e) [
  | inl free ↦ let none_left : is_member d ≡ false = ap is_member free in absurd cc
  | inr kept ↦ kept
]

times_out-IsServer :
    (s : Server) (timeout now : ℕ)
    → IsServer s
    → IsServer (record s { clients = check_idle_timeouts timeout now s.clients })
times_out-IsServer s timeout now v = record {
  stocked = record {
    names = v.stocked.names;
    covered = λ t. omega (arith, held_by-left timeout now s.clients t, v.stocked.covered t);
  };
  unique = λ i j c d at_i at_j m n same.
      v.unique i j c d (left-member timeout now s.clients i c at_i m)
        (left-member timeout now s.clients j d at_j n) m n same;
  buffers = λ i c at_i. elim (left-cases timeout now s.clients i c at_i) [
    | inl free ↦ omega (arith, ap (λ z. length z.line_buf) free)
    | inr kept ↦ v.buffers i c kept
  ];
}

-- Every state that the server reaches keeps the invariant: for every ingredient the stock covers
-- what the spellbooks of all clients hold, no two enrolled clients have the same name, and no line
-- buffer is longer than 512 bytes.
pub Reach-IsServer : {s t : Server} → IsServer s → Reach s t → IsServer t
Reach-IsServer v start = v
Reach-IsServer v (step {t} r (accepts fd now u e)) =
    accepts-IsServer t fd now u e (Reach-IsServer v r)
Reach-IsServer v (step {t} r (reads idx now c got u ts client fit e)) =
    stays-IsServer _ _ u ts
      (handle_client_input-Kept t idx now c got client (Reach-IsServer v r) fit) e
Reach-IsServer v (step {t} r (drops idx now c got u ts client fit e)) =
    closes-IsServer _ _ u ts
      (handle_client_input-Kept t idx now c got client (Reach-IsServer v r) fit) e
Reach-IsServer v (step {t} r (times_out timeout now)) =
    times_out-IsServer t timeout now (Reach-IsServer v r)

replicate-free :
    (n i : ℕ) (c : Client) → get_elem? (replicate n free_client) i ≡ some c → free_client ≡ c
replicate-free zero i c e = cc
replicate-free (suc n) zero c e = eq_of_some _ c e
replicate-free (suc n) (suc i) c e = replicate-free n i c e

held_by-free : (n : ℕ) (t : Text) → held_by t (replicate n free_client) ≡ 0
held_by-free zero t = refl
held_by-free (suc n) t = omega (arith, held_by-free n t)

-- The server opens in the invariant, with any ingredients whose names have at most 16 characters.
pub open_server-IsServer :
    (ingredients : List Item) (max_clients : ℕ)
    → ((i : ℕ) (x : Item) → get_elem? ingredients i ≡ some x → length x.name ≤ 16)
    → IsServer (open_server ingredients max_clients)
open_server-IsServer ingredients max_clients short = record {
  stocked = record { names = short; covered = λ t. omega (arith, held_by-free max_clients t) };
  unique = λ i j c d at_i at_j m n same.
      let free = ap is_member (replicate-free max_clients i c at_i) in absurd cc;
  buffers =
      λ i c at_i. omega (arith, ap (λ z. length z.line_buf) (replicate-free max_clients i c at_i));
}
