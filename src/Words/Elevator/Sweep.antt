-- ===== src/Words/Elevator/Sweep.antt =====
-- A floor with a request is reached within a sweep down and up, whatever the carriers do meanwhile.
use gtu_cse344_systems_progr.Common.{
  ℕ, zero, suc, ◌+◌, ◌*◌, ◌<◌, ◌≤◌, ◌≡◌, ◌≢◌, refl, ap, ◌∙◌, List, [], ◌∷◌, Bool, true, false, ◌==◌,
  length, get_or, length-set, Bool-cases, ◌⊎◌, inl, inr, arith,
}
use gtu_cse344_systems_progr.Words.Elevator.{
  Elevator, heading, next_floor, arrive, elevator_round, Visit, clear, turn, ask, ask_all, arrived,
  arrives_within,
}
use gtu_cse344_systems_progr.Words.Elevator.Moves.{
  rounds_left, next_floor-nearer, turn-nearer, heading-keeps, turn-keeps, length-clear,
  get_or-clear, any_left,
}

-- The elevator of `nf` floors is within `n` rounds of `d`, where there is a request.
record Nears (nf n d : ℕ) (e : Elevator) : Type 0 where
  floors : length e.requests ≡ nf
  inside : e.floor < nf
  asked : 0 < get_or e.requests d 0
  apart : e.floor ≢ d
  rounds : rounds_left nf e.floor e.up d ≤ n

-- After the elevator moved to `floor`: it arrived at `d`, or it is as near as it was.
arrive-Nears :
    (nf n d floor : ℕ) (up : Bool) (e : Elevator)
    → length e.requests ≡ nf
    → floor < nf
    → d < nf
    → 0 < get_or e.requests d 0
    → (floor ≢ d → rounds_left nf floor up d ≤ n)
    → (arrived (arrive e floor up) d ≡ true) ⊎ Nears nf n d (arrive e floor up)
unfolding arrive
arrive-Nears nf n d floor up e l hf hd p near =
    let kept = length-clear e.requests floor in
    let at = get_or-clear e.requests floor d (omega arith) in
    elim (Bool-cases (floor == d)) [
      | inl same ↦ inl (ground arith)
      | inr other ↦
          let apart : floor ≢ d = ground arith in
          let asked : 0 < get_or (clear e.requests floor) d 0 = ground arith in
          let nearer = near apart in
          let turned =
            turn-nearer nf floor d up (turn (clear e.requests floor) e.load floor up)
              (clear e.requests floor) hf hd apart asked
              (turn-keeps (clear e.requests floor) e.load floor up) in
          inr (record {
            floors = kept ∙ l;
            inside = hf;
            asked = asked;
            apart = apart;
            rounds = omega arith;
          })
    ]

elevator_round-arrive :
    (nf : ℕ) (e : Elevator)
    → length e.requests ≡ nf
    → let (floor, up) = next_floor nf e.floor (heading e) in elevator_round e ≡ arrive e floor up
unfolding elevator_round
elevator_round-arrive nf e l =
    ap (λ k. let (floor, up) = next_floor k e.floor (heading e) in arrive e floor up) l

-- One round: it arrives at `d`, or one round less is left.
elevator_round-Nears :
    (nf n d : ℕ) (e : Elevator)
    → d < nf
    → Nears nf (suc n) d e
    → (arrived (elevator_round e) d ≡ true) ⊎ Nears nf n d (elevator_round e)
elevator_round-Nears nf n d e hd v =
    let up = heading e in
    let turned =
      turn-nearer nf e.floor d e.up up e.requests v.inside hd v.apart v.asked (heading-keeps e) in
    let (inside, near) = next_floor-nearer nf e.floor d up v.inside hd in
    let f = (next_floor nf e.floor up).0 in
    let u = (next_floor nf e.floor up).1 in
    rw (elevator_round-arrive nf e v.floors) (elim near [
      | inl at ↦ arrive-Nears nf n d f u e v.floors inside hd v.asked (λ off. absurd (off at))
      | inr (off, less) ↦ arrive-Nears nf n d f u e v.floors inside hd v.asked (λ _. omega arith)
    ])

-- The first round, from wherever the elevator is.
first_round-Nears :
    (nf d : ℕ) (e : Elevator)
    → length e.requests ≡ nf
    → e.floor < nf
    → d < nf
    → 0 < get_or e.requests d 0
    → (arrived (elevator_round e) d ≡ true) ⊎ Nears nf (2 * nf) d (elevator_round e)
first_round-Nears nf d e l hf hd p =
    let up = heading e in
    let (inside, near) = next_floor-nearer nf e.floor d up hf hd in
    let f = (next_floor nf e.floor up).0 in
    let u = (next_floor nf e.floor up).1 in
    rw (elevator_round-arrive nf e l)
      (arrive-Nears nf (2 * nf) d f u e l inside hd p (λ _. any_left nf f d u inside hd))

-- More requests change nothing.
length-ask_all : (requests asked : List ℕ) → length (ask_all requests asked) ≡ length requests
unfolding ask_all
length-ask_all requests [] = refl
length-ask_all requests (dest ∷ asked) =
    length-ask_all (ask requests dest) asked ∙ length-set requests dest (get_or requests dest 0 + 1)

ask-asked :
    (requests : List ℕ) (dest d : ℕ) → 0 < get_or requests d 0 → 0 < get_or (ask requests dest) d 0
ask-asked [] dest d p = p
ask-asked (r ∷ requests) zero zero p = omega arith
ask-asked (r ∷ requests) zero (suc d) p = p
ask-asked (r ∷ requests) (suc dest) zero p = p
ask-asked (r ∷ requests) (suc dest) (suc d) p = ask-asked requests dest d p

ask_all-asked :
    (requests asked : List ℕ) (d : ℕ)
    → 0 < get_or requests d 0
    → 0 < get_or (ask_all requests asked) d 0
unfolding ask_all
ask_all-asked requests [] d p = p
ask_all-asked requests (dest ∷ asked) d p =
    ask_all-asked (ask requests dest) asked d (ask-asked requests dest d p)

-- The elevator with what the carriers did before a round.
abbrev visited : Elevator → Visit → Elevator
visited e v = record e { load = v.load; requests = ask_all e.requests v.asked }

visited-Nears :
    (nf n d : ℕ) (e : Elevator) (v : Visit) → Nears nf n d e → Nears nf n d (visited e v)
visited-Nears nf n d e v near = record {
  floors = length-ask_all e.requests v.asked ∙ near.floors;
  inside = near.inside;
  asked = ask_all-asked e.requests v.asked d near.asked;
  apart = near.apart;
  rounds = near.rounds;
}

rounds_left-positive : (nf floor d : ℕ) (up : Bool) → floor < nf → 0 < rounds_left nf floor up d
rounds_left-positive nf floor d true h = ground arith
rounds_left-positive nf floor d false h = ground arith

Nears-arrives :
    (nf n d : ℕ) (visits : ℕ → Visit) (e : Elevator)
    → d < nf
    → Nears nf n d e
    → arrives_within n visits e d ≡ true
unfolding arrives_within
Nears-arrives nf zero d visits e hd near =
    let some_left = rounds_left-positive nf e.floor d e.up near.inside in
    absurd (omega (arith, near.rounds))
Nears-arrives nf (suc n) d visits e hd near =
    elim (elevator_round-Nears nf n d (visited e (visits 0)) hd
      (visited-Nears nf (suc n) d e (visits 0) near)) [
        | inl here ↦ ground arith
        | inr nearer ↦
            let later =
              Nears-arrives nf n d (λ k. visits (k + 1)) (elevator_round (visited e (visits 0))) hd
                nearer in
            ground arith
      ]

-- Whatever loads the letter carriers leave and whatever floors they ask for before each round, an
-- elevator of nf floors arrives at a floor with a request within 2 nf + 1 rounds.
pub elevator_arrives :
    (visits : ℕ → Visit) (e : Elevator) (dest : ℕ)
    → e.floor < length e.requests
    → dest < length e.requests
    → 0 < get_or e.requests dest 0
    → arrives_within (2 * length e.requests + 1) visits e dest ≡ true
unfolding arrives_within
elevator_arrives visits e dest hf hd p =
    let nf = length e.requests in
    let v = visits 0 in
    let kept = length-ask_all e.requests v.asked in
    let rounds : suc (2 * nf) ≡ 2 * nf + 1 = omega arith in
    rw (← rounds)
      (elim (first_round-Nears nf dest (visited e v) kept hf hd
        (ask_all-asked e.requests v.asked dest p)) [
          | inl here ↦ ground arith
          | inr near ↦
              let later =
                Nears-arrives nf (2 * nf) dest (λ k. visits (k + 1)) (elevator_round (visited e v))
                  hd near in
              ground arith
        ])
