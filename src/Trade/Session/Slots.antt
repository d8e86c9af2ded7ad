-- ===== src/Trade/Session/Slots.antt =====
-- The invariant of the trading server, and what a change of one client must keep of it.
use gtu_cse344_systems_progr.Common.{
  ℕ, zero, suc, ◌+◌, ◌≤◌, ◌≡◌, ◌≢◌, ap, sym, ◌∙◌, List, [], ◌∷◌, Bool, true, false, none, some, map,
  length, get_elem?, set, All, All-get, All-set, bit, weigh, weigh-set, length-set, set-cases,
  Bool-cases, Option-cases, inl, inr, arith,
}
use gtu_cse344_systems_progr.Libc.{Text, strcmp_eq, eq_of_strcmp_eq, strcmp_eq_refl}
use gtu_cse344_systems_progr.Trade.Market.{Stock, find_stock}
use gtu_cse344_systems_progr.Trade.Market.Limits.{IsPortfolio, lists}
use gtu_cse344_systems_progr.Trade.Session.{Client, Server, is_member, username_taken}

abbrev pub symbols : List Stock → List Text
symbols stocks = map (λ x. x.symbol) stocks

abbrev pub is_open : Client → Bool
is_open c = elim c.fd [ none ↦ false | some fd ↦ true ]

abbrev pub open_slots : List Client → ℕ
open_slots clients = weigh (λ c. bit (is_open c)) clients

pub record IsClient (listed : List Text) (c : Client) : Type 0 where
  pub portfolio : IsPortfolio listed c.portfolio
  pub name : length c.username ≤ 31
  pub buffer : length c.line_buf ≤ 511

pub record IsServer (s : Server) : Type 0 where
  pub few : length (symbols s.stocks) ≤ 128
  pub short : All (λ t. length t ≤ 8) (symbols s.stocks)
  pub slots : length s.clients ≡ 10
  pub clients : All (IsClient (symbols s.stocks)) s.clients
  -- No two joined clients have the same name.
  pub unique :
      (i j : ℕ) (c d : Client)
      → get_elem? s.clients i ≡ some c
      → get_elem? s.clients j ≡ some d
      → is_member c ≡ true
      → is_member d ≡ true
      → c.username ≡ d.username
      → i ≡ j
  pub counted : s.client_count ≡ open_slots s.clients

-- The name of a joined client `d` at slot `j` is no other joined client's.
abbrev pub IsOwnName : Server → ℕ → Client → Type 0
IsOwnName s j d =
    is_member d ≡ true
    → (k : ℕ) (c : Client) → get_elem? s.clients k ≡ some c
    → is_member c ≡ true
    → c.username ≡ d.username
    → k ≡ j

module _ (s : Server) (j : ℕ) (c : Client) (client : get_elem? s.clients j ≡ some c)
    (v : IsServer s) where
  pub old-IsClient : IsClient (symbols s.stocks) c
  old-IsClient = All-get (IsClient (symbols s.stocks)) s.clients j c v.clients client

  pub put_client-IsServer :
      (stocks : List Stock) (d : Client) (n : ℕ)
      → symbols s.stocks ≡ symbols stocks
      → IsClient (symbols s.stocks) d
      → IsOwnName s j d
      → n + bit (is_open c) ≡ s.client_count + bit (is_open d)
      → IsServer (record { stocks = stocks; clients = set s.clients j d; client_count = n })
  put_client-IsServer stocks d n same w own e = record {
    few = rw (← same) v.few;
    short = rw (← same) v.short;
    slots = length-set s.clients j d ∙ v.slots;
    clients = rw (← same) (All-set (IsClient (symbols s.stocks)) s.clients j d v.clients w);
    unique = λ i k a b at_i at_k m n same. elim (set-cases s.clients j i c d a client at_i) [
      | inl (ei, da) ↦ elim (set-cases s.clients j k c d b client at_k) [
        | inl (ek, db) ↦ sym ei ∙ ek
        | inr (nk, at_b) ↦
            let mine : is_member d ≡ true = ap is_member da ∙ m in
            sym ei ∙ sym (own mine k b at_b n (sym same ∙ ap (λ z. z.username) (sym da)))
      ]
      | inr (ni, at_a) ↦ elim (set-cases s.clients j k c d b client at_k) [
        | inl (ek, db) ↦
            let mine : is_member d ≡ true = ap is_member db ∙ n in
            own mine i a at_a m (same ∙ ap (λ z. z.username) (sym db)) ∙ ek
        | inr (nk, at_b) ↦ v.unique i k a b at_a at_b m n same
      ]
    ];
    counted = omega (arith, e, v.counted, weigh-set (λ z. bit (is_open z)) s.clients j c d client);
  }

  pub same-IsOwnName :
      (d : Client) → is_member d ≡ is_member c → d.username ≡ c.username → IsOwnName s j d
  same-IsOwnName d member name m k b at_b n same =
      v.unique k j b c at_b client n (sym member ∙ m) (same ∙ name)

-- A name that is not taken is no joined client's.
pub username_taken-false :
    (clients : List Client) (name : Text) (k : ℕ) (c : Client)
    → username_taken clients name ≡ false
    → get_elem? clients k ≡ some c
    → is_member c ≡ true
    → c.username ≢ name
unfolding username_taken
username_taken-false [] name k c e h m same = cc
username_taken-false (d ∷ clients) name zero c e h m same =
    let first : d ≡ c = cc in
    let member : is_member d ≡ true = ap is_member first ∙ m in
    let named : d.username ≡ name = ap (λ z. z.username) first ∙ same in
    let equal : strcmp_eq d.username name ≡ true =
      ap (strcmp_eq d.username) (sym named) ∙ strcmp_eq_refl d.username in
    absurd (ground (arith, member, equal, e))
username_taken-false (d ∷ clients) name (suc k) c e h m same =
    username_taken-false clients name k c (ground arith) h m same

-- The stock that is found has the symbol, which is listed.
pub find_stock-found :
    (stocks : List Stock) (sym : Text) (i : ℕ) (x : Stock)
    → find_stock stocks sym ≡ some (i, x)
    → (get_elem? stocks i ≡ some x) × (lists (symbols stocks) sym ≡ true)
unfolding find_stock
find_stock-found [] sym i x e = cc
find_stock-found (y ∷ stocks) sym i x e = elim (Bool-cases (strcmp_eq y.symbol sym)) [
  | inl here ↦
      let named = eq_of_strcmp_eq y.symbol sym here in
      let at : i ≡ 0 = ground arith in
      let same : y ≡ x = ground arith in
      let self : strcmp_eq sym y.symbol ≡ true = rw named (strcmp_eq_refl sym) in
      (rw at (ap some same), ground arith)
  | inr there ↦ elim (Option-cases (find_stock stocks sym)) [
    | inl n ↦ ground arith
    | inr ((k, z), found) ↦
        let at : i ≡ suc k = ground arith in
        let same : z ≡ x = ground arith in
        let (got, listed) = find_stock-found stocks sym k z found in
        (rw at (got ∙ ap some same), ground arith)
  ]
]

-- Another price changes no symbol.
pub symbols-set :
    (stocks : List Stock) (i : ℕ) (x : Stock) (price : ℕ)
    → get_elem? stocks i ≡ some x
    → symbols stocks ≡ symbols (set stocks i (record x { price = price }))
symbols-set [] i x price e = cc
symbols-set (y ∷ stocks) zero x price e =
    let same : y ≡ x = cc in λ j. (same j).symbol ∷ symbols stocks
symbols-set (y ∷ stocks) (suc i) x price e = λ j. y.symbol ∷ symbols-set stocks i x price e j
