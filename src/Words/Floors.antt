-- ===== src/Words/Floors.antt =====
-- HW3/src/processes/word_carrier.c: the words that wait to be admitted, and the numbers of words on
-- the floors, which HW3/src/processes/sorting_proc.c lowers.
pub mod Account
use gtu_cse344_systems_progr.Common.{
  ℕ, zero, suc, ◌+◌, ◌-◌, ◌%◌, ◌≡◌, List, [], ◌∷◌, Bool, true, false, Option, none, some, ltb, ◌==◌,
  ◌&&◌, ◌||◌, not, if◌then◌else◌, length, get_elem?, get_or, set, replicate,
}

-- The flags of a word that `rr_pick` reads.
pub record Waiting : Type 0 where
  pub claimed : Bool
  pub admitted : Bool

-- The loop of `rr_pick`: `n` words are left to look at, from `start + i` on, round the array.
unfoldable pub pick_loop : ℕ → List Waiting → ℕ → ℕ → Option ℕ
pick_loop zero words start i = none
pick_loop (suc n) words start i =
    let idx = (start + i) % length words in
    let rest = pick_loop n words start (i + 1) in
    elim (get_elem? words idx) [
      | none ↦ rest
      | some w ↦ if not w.claimed && not w.admitted then some idx else rest
    ]

-- `rr_pick`: the new `rr_index`, and the word; `none` is -1.
unfoldable pub rr_pick : List Waiting → ℕ → ℕ × Option ℕ
unfolding pick_loop
rr_pick words rr_index = ((rr_index + 1) % length words, pick_loop (length words) words rr_index 0)

-- `try_admit`, on the counts of the floors; a floor that is not there is never given.
unfoldable pub try_admit : List ℕ → ℕ → ℕ → ℕ → List ℕ × Bool
try_admit counts max_words sorting_floor arrival_floor =
    if arrival_floor == sorting_floor
    then (if ltb (get_or counts arrival_floor 0) max_words
        then (set counts arrival_floor (get_or counts arrival_floor 0 + 2), true)
        else (counts, false))
    else if ltb (get_or counts arrival_floor 0) max_words
        && ltb (get_or counts sorting_floor 0) max_words
    then (let more = set counts arrival_floor (get_or counts arrival_floor 0 + 1) in
        (set more sorting_floor (get_or more sorting_floor 0 + 1), true))
    else (counts, false)

-- The counts, with the words that were admitted and those that were completed.
pub record Building : Type 0 where
  pub counts : List ℕ
  pub admitted : ℕ
  pub completed : ℕ

-- `init_floors`
abbrev pub new_building : ℕ → Building
new_building num_floors = record { counts = replicate num_floors 0; admitted = 0; completed = 0 }

-- A word is admitted, or one that was admitted is completed on its sorting floor. No other code writes
-- the counts.
pub data Traffic (max_words : ℕ) (b : Building) : Building → Type 0 where
  admits :
      (arrival_floor sorting_floor : ℕ) (counts : List ℕ)
      → ltb arrival_floor (length b.counts) ≡ true
      → ltb sorting_floor (length b.counts) ≡ true
      → try_admit b.counts max_words sorting_floor arrival_floor ≡ (counts, true)
      → Traffic max_words b (record b { counts = counts; admitted = b.admitted + 1 })
  completes :
      (floor n : ℕ)
      → ltb b.completed b.admitted ≡ true
      → get_elem? b.counts floor ≡ some (suc n)
      → Traffic max_words b
          (record b { counts = set b.counts floor n; completed = b.completed + 1 })

pub data Days (max_words : ℕ) (b : Building) : Building → Type 0 where
  start : Days max_words b b
  day : {u v : Building} → Days max_words b u → Traffic max_words u v → Days max_words b v
