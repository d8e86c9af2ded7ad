-- ===== src/Hogwarts/Session/Slots.antt =====
-- The server's invariant, and what a change of one client must keep of it.
use gtu_cse344_systems_progr.Common.{
  ℕ, zero, suc, ◌+◌, ◌≤◌, ◌≡◌, ap, sym, ◌∙◌, List, [], ◌∷◌, true, false, some, ◌==◌, length,
  get_elem?, set, weigh-set, set-cases, Bool-cases, inl, inr, arith,
}
use gtu_cse344_systems_progr.Libc.{Text, strcmp_eq, strcmp_eq_refl}
use gtu_cse344_systems_progr.Hogwarts.Stock.{Item}
use gtu_cse344_systems_progr.Hogwarts.Stock.Held.{held}
use gtu_cse344_systems_progr.Hogwarts.Command.{
  Client, Server, free_client, is_member, username_taken, max_line_len,
}
use gtu_cse344_systems_progr.Hogwarts.Command.Stocked.{IsStocked}
use gtu_cse344_systems_progr.Hogwarts.Session.{put_client}

pub record IsServer (s : Server) : Type 0 where
  pub stocked : IsStocked s.ingredients s.clients
  -- No two enrolled clients have the same name.
  pub unique :
      (i j : ℕ) (c d : Client)
      → get_elem? s.clients i ≡ some c
      → get_elem? s.clients j ≡ some d
      → is_member c ≡ true
      → is_member d ≡ true
      → c.username ≡ d.username
      → i ≡ j
  pub buffers :
      (i : ℕ) (c : Client) → get_elem? s.clients i ≡ some c → length c.line_buf ≤ max_line_len

-- The name of an enrolled client `d` at slot `j` is no other enrolled client's.
abbrev pub IsOwnName : Server → ℕ → Client → Type 0
IsOwnName s j d =
    is_member d ≡ true
    → (k : ℕ) (c : Client) → get_elem? s.clients k ≡ some c
    → is_member c ≡ true
    → c.username ≡ d.username
    → k ≡ j

module _ (s : Server) (j : ℕ) (c : Client) (client : get_elem? s.clients j ≡ some c) where
  pub put_client-IsServer :
      (ingredients : List Item) (d : Client)
      → IsServer s
      → IsStocked ingredients (set s.clients j d)
      → IsOwnName s j d
      → length d.line_buf ≤ max_line_len
      → IsServer (record { ingredients = ingredients; clients = set s.clients j d })
  put_client-IsServer ingredients d v stocked own short = record {
    stocked = stocked;
    unique = λ i k a b at_i at_k m n same. elim (set-cases s.clients j i c d a client at_i) [
      | inl (ei, da) ↦ elim (set-cases s.clients j k c d b client at_k) [
        | inl (ek, db) ↦ sym ei ∙ ek
        | inr (nk, at_b) ↦
            let mine : is_member d ≡ true = ap is_member da ∙ m in
            sym ei ∙ sym (own mine k b at_b n (sym same ∙ ap (λ z. z.username) (sym da)))
      ]
      | inr (ni, at_a) ↦ elim (set-cases s.clients j k c d b client at_k) [
        | inl (ek, db) ↦
            let mine : is_member d ≡ true = ap is_member db ∙ n in
            own mine i a at_a m (same ∙ ap (λ z. z.username) (sym db)) ∙ ek
        | inr (nk, at_b) ↦ v.unique i k a b at_a at_b m n same
      ]
    ];
    buffers = λ i a at_i. elim (set-cases s.clients j i c d a client at_i) [
      | inl (ei, da) ↦ omega (arith, ap (λ z. length z.line_buf) da)
      | inr (ni, at_a) ↦ v.buffers i a at_a
    ];
  }

  -- A client whose book holds no more than before.
  pub put_client-IsStocked :
      (d : Client)
      → IsServer s
      → ((t : Text) → held t d.spellbook ≤ held t c.spellbook)
      → IsStocked s.ingredients (set s.clients j d)
  put_client-IsStocked d v less = record {
    names = v.stocked.names;
    covered = λ t. omega (
      arith,
      weigh-set (λ z. held t z.spellbook) s.clients j c d client,
      less t,
      v.stocked.covered t,
    );
  }

  pub same-IsOwnName :
      (d : Client)
      → IsServer s
      → is_member d ≡ is_member c
      → d.username ≡ c.username
      → IsOwnName s j d
  same-IsOwnName d v member name m k b at_b n same =
      v.unique k j b c at_b client n (sym member ∙ m) (same ∙ name)

  -- `reset_client_slot`
  pub free_client-IsServer : IsServer s → IsServer (put_client s j free_client)
  free_client-IsServer v =
      put_client-IsServer s.ingredients free_client v
        (put_client-IsStocked free_client v (λ t. omega arith)) (λ m. cc) (omega arith)

-- A name that is not taken is no other enrolled client's.
pub username_taken-false :
    (i : ℕ) (clients : List Client) (uname : Text) (j k : ℕ) (c : Client)
    → username_taken i clients uname j ≡ false
    → get_elem? clients k ≡ some c
    → is_member c ≡ true
    → c.username ≡ uname
    → i + k ≡ j
unfolding username_taken
username_taken-false i [] uname j k c e h m same = cc
username_taken-false i (d ∷ clients) uname j zero c e h m same =
    let first : d ≡ c = cc in
    let member : is_member d ≡ true = ap is_member first ∙ m in
    let name : d.username ≡ uname = ap (λ z. z.username) first ∙ same in
    let equal : strcmp_eq d.username uname ≡ true =
      ap (strcmp_eq d.username) (sym name) ∙ strcmp_eq_refl d.username in
    elim (Bool-cases (i == j)) [
      | inl here ↦ ground arith
      | inr apart ↦ absurd (ground (arith, member, equal, apart, e))
    ]
username_taken-false i (d ∷ clients) uname j (suc k) c e h m same =
    omega (arith, username_taken-false (i + 1) clients uname j k c (ground arith) h m same)
