-- ===== src/Words/Elevator/Moves.antt =====
-- One move of the elevator: how far a floor with a request is then, and the requests that are left.
use gtu_cse344_systems_progr.Common.{
  ℕ, zero, suc, ◌+◌, ◌-◌, ◌*◌, ◌<◌, ◌≤◌, ◌≡◌, ◌≢◌, refl, ap, List, [], ◌∷◌, Bool, true, false, ltb,
  leb, ◌==◌, ◌&&◌, not, if◌then◌else◌, length, get_or, take, drop, length-set, get_or-set,
  Bool-cases, ◌⊎◌, inl, inr, arith,
}
use gtu_cse344_systems_progr.Words.Elevator.{
  Elevator, any_request, has_request_in_direction, heading, next_floor, clear, turn,
}

pub any_request-drop :
    (requests : List ℕ) (n d : ℕ)
    → n ≤ d
    → 0 < get_or requests d 0
    → any_request (drop n requests) ≡ true
unfolding any_request
any_request-drop [] n d h p = ground arith
any_request-drop (r ∷ requests) zero zero h p = ground arith
any_request-drop (r ∷ requests) zero (suc d) h p =
    let ih = any_request-drop requests zero d (omega arith) p in ground arith
any_request-drop (r ∷ requests) (suc n) zero h p = ground arith
any_request-drop (r ∷ requests) (suc n) (suc d) h p = any_request-drop requests n d (omega arith) p

any_request-take :
    (requests : List ℕ) (n d : ℕ)
    → d < n
    → 0 < get_or requests d 0
    → any_request (take n requests) ≡ true
unfolding any_request
any_request-take requests zero d h p = ground arith
any_request-take [] (suc n) d h p = ground arith
any_request-take (r ∷ requests) (suc n) zero h p = ground arith
any_request-take (r ∷ requests) (suc n) (suc d) h p =
    let ih = any_request-take requests n d (omega arith) p in ground arith

-- Floor `d` lies ahead.
abbrev ahead : ℕ → Bool → ℕ → Bool
ahead floor up d = if up then ltb floor d else ltb d floor

-- A request ahead is a request in that direction.
ahead-request :
    (requests : List ℕ) (floor d : ℕ) (up : Bool)
    → ahead floor up d ≡ true
    → 0 < get_or requests d 0
    → has_request_in_direction requests floor up ≡ true
unfolding has_request_in_direction
ahead-request requests floor d true h p = any_request-drop requests (floor + 1) d (ground arith) p
ahead-request requests floor d false h p = any_request-take requests floor d (ground arith) p

-- The rounds that are left, but for the first, until `d` is reached.
abbrev pub rounds_left : ℕ → ℕ → Bool → ℕ → ℕ
rounds_left nf floor up d =
    if up
    then (if ltb floor d then d - floor else (nf - floor) + nf)
    else if ltb d floor
    then floor - d
    else (floor + 1) + nf

-- A round that starts in that direction comes nearer or arrives.
pub next_floor-nearer :
    (nf floor d : ℕ) (up : Bool)
    → floor < nf
    → d < nf
    → let (f, u) = next_floor nf floor up in
      (f < nf) × ((f ≡ d) ⊎ ((f ≢ d) × ((rounds_left nf f u d < rounds_left nf floor up d))))
unfolding next_floor
next_floor-nearer nf floor d true hf hd = elim (Bool-cases (leb nf (floor + 1))) [
  | inl end ↦ elim (Bool-cases (d == nf - 1)) [ inl at ↦ ground arith | inr off ↦ ground arith ]
  | inr room ↦ elim (Bool-cases (d == floor + 1)) [ inl at ↦ ground arith | inr off ↦ ground arith ]
]
next_floor-nearer nf zero d false hf hd = elim (Bool-cases (d == 0)) [
  | inl at ↦ ground arith
  | inr off ↦ ground arith
]
next_floor-nearer nf (suc floor) d false hf hd = elim (Bool-cases (d == floor)) [
  | inl at ↦ ground arith
  | inr off ↦ ground arith
]

-- A turn without a request in the direction comes no further from the floor of a request.
pub turn-nearer :
    (nf floor d : ℕ) (up turned : Bool) (requests : List ℕ)
    → floor < nf
    → d < nf
    → floor ≢ d
    → 0 < get_or requests d 0
    → (has_request_in_direction requests floor up ≡ true → turned ≡ up)
    → rounds_left nf floor turned d ≤ rounds_left nf floor up d
turn-nearer nf floor d up turned requests hf hd n p keeps = elim (Bool-cases (ahead floor up d)) [
  | inl a ↦
      let same = keeps (ahead-request requests floor d up a p) in
      omega (arith, ap (λ u. rounds_left nf floor u d) same)
  | inr behind ↦ elim (Bool-cases up) [
    | inl rises ↦ elim (Bool-cases turned) [ inl t ↦ ground arith | inr t ↦ ground arith ]
    | inr sinks ↦ elim (Bool-cases turned) [ inl t ↦ ground arith | inr t ↦ ground arith ]
  ]
]

pub heading-keeps :
    (e : Elevator) → has_request_in_direction e.requests e.floor e.up ≡ true → heading e ≡ e.up
unfolding heading
heading-keeps e h =
    let stays : (e.load == 0 && not (has_request_in_direction e.requests e.floor e.up)) ≡ false =
      ground arith in
    rw stays refl

pub turn-keeps :
    (requests : List ℕ) (load floor : ℕ) (up : Bool)
    → has_request_in_direction requests floor up ≡ true
    → turn requests load floor up ≡ up
unfolding turn
turn-keeps requests load floor up h =
    let stays : (not (has_request_in_direction requests floor up) && load == 0) ≡ false =
      ground arith in
    rw stays refl

pub length-clear : (requests : List ℕ) (floor : ℕ) → length (clear requests floor) ≡ length requests
unfolding clear
length-clear requests floor = let kept = length-set requests floor 0 in ground arith

pub get_or-clear :
    (requests : List ℕ) (floor d : ℕ)
    → floor < length requests
    → get_or (clear requests floor) d 0 ≡ (if floor == d then 0 else get_or requests d 0)
unfolding clear
get_or-clear requests floor d h = elim (Bool-cases (ltb 0 (get_or requests floor 0))) [
  | inl some_r ↦ let sets = get_or-set requests floor d 0 0 h in ground arith
  | inr no_r ↦ elim (Bool-cases (floor == d)) [
    | inl same ↦
        let at : floor ≡ d = ground arith in
        let same_r = ap (λ k. get_or requests k 0) at in ground arith
    | inr other ↦ ground arith
  ]
]

pub any_left :
    (nf floor d : ℕ) (up : Bool) → floor < nf → d < nf → rounds_left nf floor up d ≤ 2 * nf
any_left nf floor d true hf hd = ground arith
any_left nf floor d false hf hd = ground arith
