-- ===== src/Trade/Market/Listing.antt =====
-- The texts that list something, and the arrays that they are written into.
use gtu_cse344_systems_progr.Common.{
  ℕ, ◌+◌, ◌≡◌, refl, ap, sym, ◌∙◌, List, [], ◌∷◌, ◌++◌, Bool, true, false, Option, none, some, ltb,
  leb, if◌then◌else◌, length, length-append, Bool-cases, inl, inr, arith, append_assoc, append-nil,
}
use gtu_cse344_systems_progr.Libc.{Text}
use gtu_cse344_systems_progr.Trade.Market.{list_loop}

-- The pieces with a separator before each but the first.
abbrev pub joined : ℕ → Bool → List Text → Text
joined sep first [] = []
joined sep first (p ∷ pieces) = (if first then p else sep ∷ p) ++ joined sep false pieces

-- The text if it fits an array of `size` bytes with a newline and the NUL.
abbrev pub fitting : ℕ → Text → Option Text
fitting size t = if ltb (length t + 1) size then some (t ++ b'\n' ∷ []) else none

start-joined :
    (sep : ℕ) (buf p : Text) (first : Bool) (pieces : List Text)
    → ((if first then buf else buf ++ sep ∷ []) ++ p) ++ joined sep false pieces
      ≡ buf ++ joined sep first (p ∷ pieces)
start-joined sep buf p true pieces = append_assoc buf p (joined sep false pieces)
start-joined sep buf p false pieces =
    append_assoc (buf ++ sep ∷ []) p (joined sep false pieces)
    ∙ append_assoc buf (sep ∷ []) (p ++ joined sep false pieces)

-- The loop writes the whole list, or behind its array.
pub list_loop_lem :
    (size sep : ℕ) (buf : Text) (first : Bool) (pieces : List Text)
    → list_loop size sep buf first pieces ≡ fitting size (buf ++ joined sep first pieces)
unfolding list_loop
list_loop_lem size sep buf first [] = ap (fitting size) (sym (append-nil buf))
list_loop_lem size sep buf first (p ∷ pieces) =
    let start = if first then buf else buf ++ sep ∷ [] in
    let whole = start-joined sep buf p first pieces in
    let rest = list_loop_lem size sep (start ++ p) false pieces ∙ ap (fitting size) whole in
    elim (Bool-cases (leb (length start) size)) [
      | inl room ↦ rw room rest
      | inr full ↦
          let long = length-append start p in
          let longer = length-append (start ++ p) (joined sep false pieces) in
          let over : ltb (length (buf ++ joined sep first (p ∷ pieces)) + 1) size ≡ false =
            ground (arith, long, longer, ap length whole) in
          rw (full, over) refl
    ]
