-- ===== src/Hogwarts/Session/Served.antt =====
-- What a line keeps of the server.
use gtu_cse344_systems_progr.Common.{
  ℕ, none, int_max, ◌≤◌, ◌<◌, ◌+◌, if-split, if◌then◌else◌, ◌≡◌, refl, ap, ◌∙◌, List, [], ◌∷◌, true,
  false, some, leb, ◌==◌, ◌&&◌, ◌||◌, not, length, get_elem?, set, take_all, get_elem?-set, if-both,
  Bool-cases, Option-cases, inl, inr, arith,
}
use gtu_cse344_systems_progr.Libc.{Text, codes, strtok, strcmp_eq, strncpy}
use gtu_cse344_systems_progr.Hogwarts.Stock.{spell_qty}
use gtu_cse344_systems_progr.Hogwarts.Command.{
  Client, Server, Done, delim, username_taken, cmd_brew, cmd_consume,
}
use gtu_cse344_systems_progr.Hogwarts.Command.Stocked.{
  Fine, amount_of, is_done, is_overflow, cmd_brew-Fine, cmd_consume-Fine,
}
use gtu_cse344_systems_progr.Hogwarts.Session.{
  Handled, stays, closes, put_client, reply, finish, enroll, serve, reset_client_slot,
  handle_command,
}
use gtu_cse344_systems_progr.Hogwarts.Session.Slots.{
  IsServer, put_client-IsServer, put_client-IsStocked, same-IsOwnName, free_client-IsServer,
  username_taken-false,
}

-- The invariant holds after the line, and the client that stays has `buf` in its buffer; no ingredient has more than its
-- `bound`, and an overflow needs a bound above INT_MAX. There is no
-- `fault` among the cases.
pub data Served (idx : ℕ) (buf : List ℕ) (bound : Text → ℕ) : Handled → Type 0 where
  is_stays :
      (s : Server) (ts : List Text) (c : Client)
      → IsServer s
      → get_elem? s.clients idx ≡ some c
      → c.line_buf ≡ buf
      → ((u : Text) → spell_qty s.ingredients u ≤ bound u)
      → Served idx buf bound (stays s ts)
  is_closes : (s : Server) (ts : List Text) → IsServer s → Served idx buf bound (closes s ts)
  is_overflowing : (u : Text) → int_max < bound u → Served idx buf bound Handled.overflow

-- What a line brews of ingredient `u`.
abbrev pub brewed_by : Text → Text → ℕ
brewed_by u line = elim (strtok delim line) [
  | none ↦ 0
  | some (cmd, args) ↦ if strcmp_eq cmd (codes "BREW") then amount_of u args else 0
]

brewed_by-some :
    (u line cmd args : Text)
    → strtok delim line ≡ some (cmd, args)
    → strcmp_eq cmd (codes "BREW") ≡ true
    → brewed_by u line ≡ amount_of u args
brewed_by-some u line cmd args h w = rw (brewed_by, h, w) refl

module _ (s : Server) (idx : ℕ) (c : Client) (client : get_elem? s.clients idx ≡ some c)
    (v : IsServer s) (bound : Text → ℕ)
    (less : (u : Text) → spell_qty s.ingredients u ≤ bound u) where
  finish-Served :
      (r : Done) → Fine s.clients idx c bound r → Served idx c.line_buf bound (finish s idx r)
  finish-Served _ (is_done ingredients d t stocked same few) =
      is_stays (record { ingredients = ingredients; clients = set s.clients idx d }) (t ∷ []) d
        (put_client-IsServer s idx c client ingredients d v stocked
          (same-IsOwnName s idx c client d v (ground (arith, same.fd, same.enrolled)) same.username)
          (omega (arith, v.buffers idx c client, ap length same.line_buf)))
        (get_elem?-set s.clients idx c d client) same.line_buf few
  finish-Served _ (is_overflow u w) = is_overflowing u w

  reply-Served : (t : Text) → Served idx c.line_buf bound (reply s t)
  reply-Served t = is_stays s (t ∷ []) c v client refl less

  serve-Served :
      (cmd args : Text)
      → (strcmp_eq cmd (codes "BREW") ≡ true
          → (u : Text) → spell_qty s.ingredients u + amount_of u args ≤ bound u)
      → Served idx c.line_buf bound (serve s idx c cmd args)
  unfolding serve
  serve-Served cmd args room =
      let P = Served idx c.line_buf bound in
      let is_wizard = strcmp_eq c.type (codes "WIZARD") in
      let is_prof = strcmp_eq c.type (codes "PROFESSOR") in
      let refused = reply-Served (codes "ERR UNAUTHORIZED") in
      let brewed = λ (w : strcmp_eq cmd (codes "BREW") ≡ true).
        finish-Served (cmd_brew s.ingredients c args)
          (cmd_brew-Fine s.ingredients s.clients idx c client v.stocked bound less args (room w)) in
      let consumed =
        finish-Served (cmd_consume s.ingredients c args)
          (cmd_consume-Fine s.ingredients s.clients idx c client v.stocked bound less args) in
      if-split P (strcmp_eq cmd (codes "BREW")) (λ w. if-both P is_wizard (brewed w) refused)
        (λ other.
          if-both P (strcmp_eq cmd (codes "CONSUME")) (if-both P is_wizard consumed refused) (
            if-both P (strcmp_eq cmd (codes "SPELLBOOK"))
              (if-both P is_wizard (reply-Served _) refused)
              (if-both P (strcmp_eq cmd (codes "INSPECT"))
                (if-both P is_prof (reply-Served _) refused)
                (if-both P (strcmp_eq cmd (codes "SCROLL"))
                  (if-both P is_prof (reply-Served _) refused)
                  (if-both P (strcmp_eq cmd (codes "ROSTER"))
                    (if-both P is_prof (reply-Served _) refused) (reply-Served _))))))

  -- A name that is short enough and not taken.
  enrolled-Served :
      (role uname : Text)
      → (length uname == 0 || leb 32 (length uname)) ≡ false
      → username_taken 0 s.clients uname idx ≡ false
      → (ts : List Text)
      → Served idx c.line_buf bound (
          stays
            (put_client s idx
              (record c { type = strncpy role 15; username = strncpy uname 31; enrolled = true }))
            ts)
  enrolled-Served role uname short free ts =
      let d : Client = record c {
        type = strncpy role 15;
        username = strncpy uname 31;
        enrolled = true;
      } in
      let kept : strncpy uname 31 ≡ uname = take_all 31 uname (ground arith) in
      is_stays (put_client s idx d) ts d
        (put_client-IsServer s idx c client s.ingredients d v
          (put_client-IsStocked s idx c client d v (λ t. omega arith))
          (λ m k b at_b n same.
            omega (arith, username_taken-false 0 s.clients uname idx k b free at_b n (same ∙ kept)))
          (v.buffers idx c client))
        (get_elem?-set s.clients idx c d client) refl less

  enroll-Served : (args : Text) → Served idx c.line_buf bound (enroll s idx c args)
  unfolding enroll
  enroll-Served args = elim (Option-cases (strtok delim args)) [
    | inl n ↦ rw (enroll, n) (reply-Served _)
    | inr ((role, rest), h) ↦ elim (Option-cases (strtok delim rest)) [
      | inl n ↦ rw (enroll, h, n) (reply-Served _)
      | inr ((uname, r), k) ↦
          let bad_role =
            not (strcmp_eq role (codes "WIZARD")) && not (strcmp_eq role (codes "PROFESSOR")) in
          let bad_name = length uname == 0 || leb 32 (length uname) in
          rw (enroll, h, k)
            (if-both (Served idx c.line_buf bound) bad_role (reply-Served _)
              (elim (Bool-cases bad_name) [
                | inl long ↦ rw long (reply-Served _)
                | inr short ↦ elim (Bool-cases (username_taken 0 s.clients uname idx)) [
                  | inl taken ↦ rw (short, taken) (reply-Served _)
                  | inr free ↦ rw (short, free) (enrolled-Served role uname short free _)
                ]
              ]))
    ]
  ]

  -- Every line keeps the invariant, and no line takes the stock below 0.
  pub handle_command-Served :
      (line : Text)
      → ((u : Text) → spell_qty s.ingredients u + brewed_by u line ≤ bound u)
      → Served idx c.line_buf bound (handle_command s idx c line)
  unfolding handle_command
  handle_command-Served line room = elim (Option-cases (strtok delim line)) [
    | inl n ↦ rw (handle_command, n) (is_stays s [] c v client refl less)
    | inr ((cmd, args), h) ↦
        let P = Served idx c.line_buf bound in
        rw (handle_command, h)
          (if-both P (strcmp_eq cmd (codes "APPARATE"))
            (is_closes (reset_client_slot s idx) _ (free_client-IsServer s idx c client v))
            (if-both P (strcmp_eq cmd (codes "ENROLL"))
              (if-both P c.enrolled (reply-Served _) (enroll-Served args))
              (if-both P c.enrolled
                (serve-Served cmd args
                  (λ w u. omega (arith, room u, brewed_by-some u line cmd args h w)))
                (reply-Served _))))
  ]
