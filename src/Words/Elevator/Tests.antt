-- ===== src/Words/Elevator/Tests.antt =====
-- Rounds of an elevator of four floors.
use gtu_cse344_systems_progr.Common.{ℕ, ◌≡◌, refl, [], ◌∷◌, true, false, arith}
use gtu_cse344_systems_progr.Words.Elevator.{
  Elevator, elevator_round, has_request_in_direction, Visit, arrives_within, Lift, moved, LiftReach,
  start, step, boards, asks, posts, wakes, moves,
}
use gtu_cse344_systems_progr.Words.Elevator.Sweep.{elevator_arrives}
use gtu_cse344_systems_progr.Words.Elevator.Riders.{IsLift, LiftReach-IsLift}

-- On floor 1, on its way up, with requests of the floors 0 and 3.
abbrev some_elevator : Elevator
some_elevator = record { floor = 1; up = true; load = 2; requests = 1 ∷ 0 ∷ 0 ∷ 2 ∷ [] }

abbrev top_elevator : Elevator
top_elevator = record { floor = 3; up = true; load = 2; requests = 1 ∷ 0 ∷ 0 ∷ 0 ∷ [] }

rises : elevator_round (record some_elevator { floor = 2 }) ≡ top_elevator
unfolding elevator_round
rises = refl

-- At the top it turns and stays for a round.
turns_at_top : elevator_round top_elevator ≡ record top_elevator { up = false }
unfolding elevator_round
turns_at_top = refl

-- An empty elevator turns as soon as nothing is ahead.
turns_empty :
    elevator_round
      (record some_elevator { up = false; load = 0; floor = 2; requests = 0 ∷ 0 ∷ 0 ∷ 1 ∷ [] })
    ≡ record some_elevator { load = 0; floor = 3; up = false; requests = 0 ∷ 0 ∷ 0 ∷ 0 ∷ [] }
unfolding elevator_round
turns_empty = refl

looks_down : has_request_in_direction some_elevator.requests 1 false ≡ true
unfolding has_request_in_direction
looks_down = refl

-- The load stays, and before every round somebody asks for floor 2.
abbrev busy : ℕ → Visit
busy k = record { load = 2; asked = 2 ∷ [] }

not_in_five : arrives_within 5 busy some_elevator 0 ≡ false
unfolding arrives_within
not_in_five = refl

elevator_arrives_example : arrives_within 9 busy some_elevator 0 ≡ true
elevator_arrives_example =
    elevator_arrives busy some_elevator 0 (omega arith) (omega arith) (omega arith)

-- A carrier boards, asks for floor 1 and posts; the elevator wakes, moves and waits again.
abbrev served_lift : Lift
served_lift = record {
  elevator = record { floor = 1; up = true; load = 1; requests = 0 ∷ 0 ∷ [] };
  request_sem = 0;
  posting = 0;
  stage = moved;
}

some_trip-LiftReach : LiftReach 1 2 served_lift
unfolding elevator_round
some_trip-LiftReach =
    step
      (step (step (step (step start (boards (omega arith))) (asks 1 (omega arith))) (posts 0 refl))
        (wakes 0 refl refl))
      (moves refl)

LiftReach-IsLift_example : IsLift 1 2 served_lift
LiftReach-IsLift_example = LiftReach-IsLift 1 2 served_lift (omega arith) some_trip-LiftReach
