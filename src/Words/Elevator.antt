-- ===== src/Words/Elevator.antt =====
-- HW3/src/processes/elevator.c, the two elevators, and the calls of HW3/src/processes/letter_carrier.c
-- that board them, ask for a floor and leave.
pub mod Moves
pub mod Sweep
pub mod Riders
mod Tests
use gtu_cse344_systems_progr.Common.{
  ℕ, zero, suc, ◌+◌, ◌-◌, ◌≡◌, List, [], ◌∷◌, Bool, true, false, Option, none, some, ltb, leb, ◌==◌,
  ◌&&◌, ◌||◌, not, if◌then◌else◌, ◌<◌, length, get_or, set, take, drop, replicate,
}

-- `t_elevator`, with the requests of the floors; `up` says that the direction is ELEV_UP.
pub record Elevator : Type 0 where
  pub floor : ℕ
  pub up : Bool
  pub load : ℕ
  pub requests : List ℕ

-- `any_request`
unfoldable pub any_request : List ℕ → Bool
any_request [] = false
any_request (r ∷ requests) = ltb 0 r || any_request requests

-- `has_request_in_direction`
unfoldable pub has_request_in_direction : List ℕ → ℕ → Bool → Bool
unfolding any_request
has_request_in_direction requests cur up =
    if up then any_request (drop (cur + 1) requests) else any_request (take cur requests)

-- The first floor with a request, from floor `i` on.
unfoldable pub first_request : ℕ → List ℕ → Option ℕ
first_request i [] = none
first_request i (r ∷ requests) =
    let rest = first_request (i + 1) requests in if ltb 0 r then some i else rest

-- The direction that a round of `run_elevator` starts with.
unfoldable pub heading : Elevator → Bool
unfolding has_request_in_direction first_request
heading e =
    if e.load == 0 && not (has_request_in_direction e.requests e.floor e.up)
    then elim (first_request 0 e.requests) [ none ↦ e.up | some i ↦ ltb e.floor i ]
    else e.up

-- The next floor of `nf` floors, and the direction, which turns at the ends.
unfoldable pub next_floor : ℕ → ℕ → Bool → ℕ × Bool
next_floor nf floor true = if leb nf (floor + 1) then (nf - 1, false) else (floor + 1, true)
next_floor nf zero false = (0, true)
next_floor nf (suc floor) false = (floor, false)

unfoldable pub clear : List ℕ → ℕ → List ℕ
clear requests floor = if ltb 0 (get_or requests floor 0) then set requests floor 0 else requests

-- The direction that a round ends with.
unfoldable pub turn : List ℕ → ℕ → ℕ → Bool → Bool
unfolding has_request_in_direction
turn requests load floor up =
    if not (has_request_in_direction requests floor up) && load == 0 then not up else up

-- The round after the elevator moved: the requests of the floor are cleared.
unfoldable pub arrive : Elevator → ℕ → Bool → Elevator
unfolding clear turn
arrive e floor up =
    let requests = clear e.requests floor in
    record e { floor = floor; up = turn requests e.load floor up; requests = requests }

-- What a round of `run_elevator` does under the mutex.
unfoldable pub elevator_round : Elevator → Elevator
unfolding heading next_floor arrive
elevator_round e =
    let (floor, up) = next_floor (length e.requests) e.floor (heading e) in arrive e floor up

-- `init_elevators`
abbrev pub new_elevator : ℕ → Elevator
new_elevator nf = record { floor = 0; up = true; load = 0; requests = replicate nf 0 }

-- What letter carriers did before a round: the load, and the floors that they asked for.
pub record Visit : Type 0 where
  pub load : ℕ
  pub asked : List ℕ

abbrev pub ask : List ℕ → ℕ → List ℕ
ask requests dest = set requests dest (get_or requests dest 0 + 1)

unfoldable pub ask_all : List ℕ → List ℕ → List ℕ
ask_all requests [] = requests
ask_all requests (dest ∷ asked) = ask_all (ask requests dest) asked

-- What a letter carrier that asked for `dest` waits for.
abbrev pub arrived : Elevator → ℕ → Bool
arrived e dest = get_or e.requests dest 0 == 0 && e.floor == dest

-- Whether the elevator arrives in one of the next `n` rounds; `visits k` came before round `k`.
unfoldable pub arrives_within : ℕ → (ℕ → Visit) → Elevator → ℕ → Bool
unfolding elevator_round ask_all
arrives_within zero visits e dest = false
arrives_within (suc n) visits e dest =
    let v = visits 0 in
    let here = elevator_round (record e { load = v.load; requests = ask_all e.requests v.asked }) in
    let later = arrives_within n (λ k. visits (k + 1)) here dest in arrived here dest || later

-- Where `run_elevator` is: at `sem_wait`, before its round, before `any_request`.
pub data Stage : Type 0 where
  waiting : Stage
  woken : Stage
  moved : Stage

-- An elevator with `request_sem`, and the letter carriers that asked and did not post yet.
pub record Lift : Type 0 where
  pub elevator : Elevator
  pub request_sem : ℕ
  pub posting : ℕ
  pub stage : Stage

abbrev pub new_lift : ℕ → Lift
new_lift nf = record { elevator = new_elevator nf; request_sem = 0; posting = 0; stage = waiting }

abbrev pub with_load : Elevator → ℕ → Elevator
with_load e load = record e { load = load }

abbrev pub with_request : Elevator → ℕ → Elevator
with_request e dest = record e { requests = ask e.requests dest }

-- A step of the elevator or of a letter carrier.
pub data LiftStep (capacity : ℕ) (l : Lift) : Lift → Type 0 where
  boards :
      l.elevator.load < capacity
      → LiftStep capacity l (record l { elevator = with_load l.elevator (l.elevator.load + 1) })
  asks :
      (dest : ℕ)
      → dest < length l.elevator.requests
      → LiftStep capacity l
          (record l { elevator = with_request l.elevator dest; posting = l.posting + 1 })
  posts :
      (n : ℕ)
      → l.posting ≡ suc n
      → LiftStep capacity l (record l { request_sem = l.request_sem + 1; posting = n })
  wakes :
      (n : ℕ)
      → l.stage ≡ waiting
      → l.request_sem ≡ suc n
      → LiftStep capacity l (record l { request_sem = n; stage = woken })
  moves :
      l.stage ≡ woken
      → LiftStep capacity l (record l { elevator = elevator_round l.elevator; stage = moved })
  goes_on :
      l.stage ≡ moved
      → any_request l.elevator.requests ≡ true
      → LiftStep capacity l (record l { request_sem = l.request_sem + 1; stage = waiting })
  rests :
      l.stage ≡ moved
      → any_request l.elevator.requests ≡ false
      → LiftStep capacity l (record l { stage = waiting })
  leaves :
      (n : ℕ)
      → l.elevator.load ≡ suc n
      → LiftStep capacity l (record l { elevator = with_load l.elevator n })

pub data LiftReach (capacity nf : ℕ) : Lift → Type 0 where
  start : LiftReach capacity nf (new_lift nf)
  step : {l l' : Lift} → LiftReach capacity nf l → LiftStep capacity l l' → LiftReach capacity nf l'
