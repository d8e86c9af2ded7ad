-- ===== src/Words/Elevator/Riders.antt =====
-- An elevator with the letter carriers that use it: its load, its place, and that it does not sleep
-- while a floor has a request.
use gtu_cse344_systems_progr.Common.{
  ℕ, zero, suc, ◌+◌, ◌<◌, ◌≤◌, ◌≡◌, refl, ◌∙◌, length, get_or, length-set, length-replicate,
  replicate, arith,
}
use gtu_cse344_systems_progr.Words.Elevator.{
  Elevator, heading, next_floor, arrive, elevator_round, waiting, Lift, LiftStep, boards, asks,
  posts, wakes, moves, goes_on, rests, leaves, LiftReach, start, step,
}
use gtu_cse344_systems_progr.Words.Elevator.Moves.{
  any_request-drop, length-clear, next_floor-nearer,
}

-- An elevator with `nf` floors; a letter carrier rides only where there is room, and when a floor has a
-- request the elevator runs, or `request_sem` is up, or a carrier is about to raise it.
pub record IsLift (capacity nf : ℕ) (l : Lift) : Type 0 where
  pub floors : length l.elevator.requests ≡ nf
  pub inside : l.elevator.floor < nf
  pub bounded : l.elevator.load ≤ capacity
  pub awake :
      (d : ℕ)
      → 0 < get_or l.elevator.requests d 0
      → l.stage ≡ waiting
      → 0 < l.request_sem + l.posting

get_or-replicate : (n d : ℕ) → ◌≡◌ {A = ℕ} (get_or (replicate n 0) d 0) 0
get_or-replicate zero d = refl
get_or-replicate (suc n) zero = refl
get_or-replicate (suc n) (suc d) = get_or-replicate n d

elevator_round-place :
    (e : Elevator)
    → e.floor < length e.requests
    → ((elevator_round e).floor < length e.requests)
      × (length (elevator_round e).requests ≡ length e.requests)
      × ((elevator_round e).load ≡ e.load)
unfolding elevator_round arrive
elevator_round-place e h =
    let nf = length e.requests in
    (
      (next_floor-nearer nf e.floor e.floor (heading e) h h).0,
      length-clear e.requests (next_floor nf e.floor (heading e)).0,
      refl,
    )

LiftStep-IsLift :
    (capacity nf : ℕ) (l l' : Lift)
    → IsLift capacity nf l
    → LiftStep capacity l l'
    → IsLift capacity nf l'
LiftStep-IsLift capacity nf l _ v (boards room) = record {
  floors = v.floors;
  inside = v.inside;
  bounded = omega arith;
  awake = v.awake;
}
LiftStep-IsLift capacity nf l _ v (asks dest inside) = record {
  floors = length-set l.elevator.requests dest (get_or l.elevator.requests dest 0 + 1) ∙ v.floors;
  inside = v.inside;
  bounded = v.bounded;
  awake = λ _ _ _. omega arith;
}
LiftStep-IsLift capacity nf l _ v (posts n e) = record {
  floors = v.floors;
  inside = v.inside;
  bounded = v.bounded;
  awake = λ d asked waits. let held = v.awake d asked waits in omega arith;
}
LiftStep-IsLift capacity nf l _ v (wakes n waits e) = record {
  floors = v.floors;
  inside = v.inside;
  bounded = v.bounded;
  awake = λ _ _ runs. cc;
}
LiftStep-IsLift capacity nf l _ v (moves runs) =
    let (inside, floors, load) =
      elevator_round-place l.elevator (omega (arith, v.inside, v.floors)) in
    record {
      floors = floors ∙ v.floors;
      inside = omega (arith, v.floors);
      bounded = omega (arith, v.bounded);
      awake = λ _ _ waits. cc;
    }
LiftStep-IsLift capacity nf l _ v (goes_on runs asked) = record {
  floors = v.floors;
  inside = v.inside;
  bounded = v.bounded;
  awake = λ _ _ _. omega arith;
}
LiftStep-IsLift capacity nf l _ v (rests runs none_asked) = record {
  floors = v.floors;
  inside = v.inside;
  bounded = v.bounded;
  awake =
      λ d asked _. let found = any_request-drop l.elevator.requests 0 d (omega arith) asked in cc;
}
LiftStep-IsLift capacity nf l _ v (leaves n e) = record {
  floors = v.floors;
  inside = v.inside;
  bounded = omega (arith, v.bounded);
  awake = v.awake;
}

-- Whatever the elevator and the letter carriers do, an elevator of at least one floor stays on its
-- floors, carries no more than its capacity, and does not sleep while a floor has a request: then it
-- runs, or request_sem is up, or the carrier that asked is about to raise it.
pub LiftReach-IsLift :
    (capacity nf : ℕ) (l : Lift) → 0 < nf → LiftReach capacity nf l → IsLift capacity nf l
LiftReach-IsLift capacity nf _ h start = record {
  floors = length-replicate nf 0;
  inside = h;
  bounded = omega arith;
  awake = λ d asked _. let idle = get_or-replicate nf d in absurd (omega arith);
}
LiftReach-IsLift capacity nf l h (step {l = k} r s) =
    LiftStep-IsLift capacity nf k l (LiftReach-IsLift capacity nf k h r) s
