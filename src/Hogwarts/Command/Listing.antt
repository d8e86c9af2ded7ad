-- ===== src/Hogwarts/Command/Listing.antt =====
-- The replies that list something.
use gtu_cse344_systems_progr.Common.{
  ℕ, zero, suc, ◌-◌, ◌≤◌, ◌<◌, ◌≡◌, refl, ap, sym, ◌∙◌, List, [], ◌∷◌, ◌++◌, Bool, true, false, leb,
  if◌then◌else◌, length, length-append, take, take_all, Bool-cases, inl, inr, arith, append_assoc,
  append-nil, map, filter, none, some,
}
use gtu_cse344_systems_progr.Libc.{Text, codes, decimal}
use gtu_cse344_systems_progr.Hogwarts.Command.{
  max_line_len, list_loop, Client, cmd_scroll, cmd_roster, members, item_text,
}
use gtu_cse344_systems_progr.Hogwarts.Stock.{Item}

-- The pieces with a comma before each but the first.
abbrev pub joined : Bool → List Text → Text
joined first [] = []
joined first (p ∷ pieces) = (if first then p else b',' ∷ p) ++ joined false pieces

take-append_long :
    (n : ℕ) (xs ys : Text) → length xs ≤ n → take n (xs ++ ys) ≡ xs ++ take (n - length xs) ys
take-append_long n [] ys h = ap (λ k. take k ys) (omega arith)
take-append_long zero (x ∷ xs) ys h = absurd (omega arith)
take-append_long (suc n) (x ∷ xs) ys h =
    ap (λ zs. x ∷ zs)
      (take-append_long n xs ys (omega arith) ∙ ap (λ k. xs ++ take k ys) (omega arith))

take-append_short : (n : ℕ) (xs ys : Text) → n ≤ length xs → take n (xs ++ ys) ≡ take n xs
take-append_short zero xs ys h = refl
take-append_short (suc n) [] ys h = absurd (omega arith)
take-append_short (suc n) (x ∷ xs) ys h =
    ap (λ zs. x ∷ zs) (take-append_short n xs ys (omega arith))

-- A listing is the whole list joined by commas, cut to 511 bytes.
list_loop-joined :
    (buf : Text) (first : Bool) (pieces : List Text)
    → length buf < max_line_len
    → list_loop buf first pieces ≡ take 511 (buf ++ joined first pieces)
unfolding list_loop
list_loop-joined buf first [] h =
    sym (take_all 511 buf (omega arith)) ∙ ap (take 511) (sym (append-nil buf))
list_loop-joined buf first (p ∷ pieces) h =
    let piece = if first then p else b',' ∷ p in
    elim (Bool-cases (leb (512 - length buf) (length piece))) [
      | inl long ↦
          let reach : 511 - length buf ≤ length piece = ground arith in
          rw (list_loop, long)
            (ap (λ k. buf ++ take k piece) (omega arith)
              ∙ ap (λ zs. buf ++ zs)
                  (sym (take-append_short (511 - length buf) piece (joined false pieces) reach))
              ∙ sym (take-append_long 511 buf (piece ++ joined false pieces) (omega arith)))
      | inr fits ↦
          let room : length (buf ++ piece) < 512 = ground (arith, length-append buf piece) in
          rw (list_loop, fits)
            (list_loop-joined (buf ++ piece) false pieces room
              ∙ ap (take 511) (append_assoc buf piece (joined false pieces)))
    ]

-- A name with its quantity behind a colon.
abbrev pub with_quantity : Item → Text
with_quantity x = x.name ++ b':' ∷ decimal x.qty

-- The slot is in use and its client has enrolled.
abbrev pub has_enrolled : Client → Bool
has_enrolled c = elim c.fd [ none ↦ false | some fd ↦ c.enrolled ]

item_texts : (items : List Item) → map item_text items ≡ map with_quantity items
item_texts [] = refl
item_texts (x ∷ items) = ap (λ ts. with_quantity x ∷ ts) (item_texts items)

members-filter :
    (clients : List Client) → members clients ≡ map (λ c. c.username) (filter has_enrolled clients)
unfolding members
members-filter [] = refl
members-filter (c ∷ clients) = elim (Bool-cases (has_enrolled c)) [
  | inl enrolled ↦ ground (arith, members-filter clients)
  | inr not_enrolled ↦ ground (arith, members-filter clients)
]

-- The reply to SCROLL has the name of each ingredient with its quantity behind a colon, that to ROSTER
-- the names of the clients that have enrolled, in order and joined by commas behind the reply's head,
-- cut to 511 bytes.
pub listing_replies :
    (ingredients : List Item) (clients : List Client)
    → (cmd_scroll ingredients
        ≡ take 511 (codes "OK SCROLL " ++ joined true (map with_quantity ingredients)))
      × (cmd_roster clients
          ≡ take 511 (
              codes "OK ROSTER "
              ++ joined true (map (λ c. c.username) (filter has_enrolled clients))))
unfolding cmd_scroll cmd_roster
listing_replies ingredients clients = (
  list_loop-joined (codes "OK SCROLL ") true (map item_text ingredients) (omega arith)
      ∙ ap (λ ts. take 511 (codes "OK SCROLL " ++ joined true ts)) (item_texts ingredients),
  list_loop-joined (codes "OK ROSTER ") true (members clients) (omega arith)
      ∙ ap (λ ts. take 511 (codes "OK ROSTER " ++ joined true ts)) (members-filter clients),
)
