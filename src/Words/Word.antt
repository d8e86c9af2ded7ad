-- ===== src/Words/Word.antt =====
-- HW3/inc/structs.h, a word in shared memory, with what the letter carriers and the sorting processes
-- do to it under its mutex: HW3/src/processes/letter_carrier.c and HW3/src/processes/sorting_proc.c.
pub mod Letters
pub mod Places
pub mod Rounds
pub mod Gains
pub mod Passes
pub mod Sorting
pub mod Run
use gtu_cse344_systems_progr.Common.{
  ℕ, zero, suc, ◌+◌, ◌-◌, List, [], ◌∷◌, ◌++◌, Bool, true, false, Option, none, some, ltb, leb,
  ◌==◌, ◌&&◌, ◌||◌, not, if◌then◌else◌, length, get_elem?, set, take, replicate, map, all, ◌≡◌,
}
use gtu_cse344_systems_progr.Libc.{Text}

abbrev pub max_word_len : ℕ
max_word_len = 64

-- Index i of the arrays `original`, `sorting_area`, `occupied` and `fixed`.
pub record Slot : Type 0 where
  pub original : ℕ
  pub area : ℕ
  pub occupied : Bool
  pub fixed : Bool

-- `t_char_task`; a floor is `none` for -1.
pub record Task : Type 0 where
  pub character : ℕ
  pub original_index : ℕ
  pub src_floor : Option ℕ
  pub dest_floor : ℕ
  pub claimed : Bool
  pub delivered : Bool

-- `t_word`: the arrays up to `word_len`.
pub record Word : Type 0 where
  pub word_id : ℕ
  pub sorting_floor : ℕ
  pub arrival_floor : Option ℕ
  pub slots : List Slot
  pub tasks : List Task
  pub claimed : Bool
  pub admitted : Bool
  pub completed : Bool

abbrev pub new_slot : ℕ → Slot
new_slot c = record { original = c; area = 0; occupied = false; fixed = false }

-- The tasks of the letters from index `j` on.
unfoldable pub new_tasks : ℕ → ℕ → List ℕ → List Task
new_tasks floor j [] = []
new_tasks floor j (c ∷ letters) =
    record {
      character = c;
      original_index = j;
      src_floor = none;
      dest_floor = floor;
      claimed = false;
      delivered = false;
    }
    ∷ new_tasks floor (j + 1) letters

-- `original`, up to `word_len`: a copy of at most 63 bytes, and the NUL.
abbrev pub letters_of : Text → List ℕ
letters_of word = take (max_word_len - 1) word ++ replicate (length word - (max_word_len - 1)) 0

-- `init_word_info` for one word; the shared memory is zero before. `none` is a write behind the
-- arrays of 64.
unfoldable pub init_word : ℕ → Text → ℕ → Option Word
unfolding new_tasks
init_word id word floor =
    if leb (length word) max_word_len
    then some (record {
      word_id = id;
      sorting_floor = floor;
      arrival_floor = none;
      slots = map new_slot (letters_of word);
      tasks = new_tasks floor 0 (letters_of word);
      claimed = false;
      admitted = false;
      completed = false;
    })
    else none

abbrev pub same_floor : Option ℕ → ℕ → Bool
same_floor none floor = false
same_floor (some a) floor = a == floor

-- The first task of a word that `find_task` can claim on that floor, from index `t` on.
unfoldable pub free_task : ℕ → ℕ → List Task → Option ℕ
free_task floor t [] = none
free_task floor t (x ∷ tasks) =
    let rest = free_task floor (t + 1) tasks in
    if x.claimed || x.delivered then rest else if same_floor x.src_floor floor then some t else rest

-- `find_task` on one word, for a letter carrier on that floor: the task and the word with it claimed.
unfoldable pub find_task : Word → ℕ → Option (ℕ × Word)
unfolding free_task
find_task w floor =
    if not w.admitted || (w.completed || not (same_floor w.arrival_floor floor))
    then none
    else elim (free_task floor 0 w.tasks) [
      | none ↦ none
      | some t ↦ elim (get_elem? w.tasks t) [
        | none ↦ none
        | some x ↦ some (t, record w { tasks = set w.tasks t (record x { claimed = true }) })
      ]
    ]

-- The first free slot of `place_char`, from index `i` on.
unfoldable pub free_slot : ℕ → List Slot → Option ℕ
free_slot i [] = none
free_slot i (s ∷ slots) =
    let rest = free_slot (i + 1) slots in if not s.occupied && not s.fixed then some i else rest

-- `place_char` for task `t`; `none` is the error that there is no free slot.
unfoldable pub place_char : Word → ℕ → Option Word
unfolding free_slot
place_char w t = elim (get_elem? w.tasks t) [
  | none ↦ none
  | some x ↦ elim (free_slot 0 w.slots) [
    | none ↦ none
    | some i ↦ elim (get_elem? w.slots i) [
      | none ↦ none
      | some s ↦ some (record w {
        slots = set w.slots i (record s { area = x.character; occupied = true });
        tasks = set w.tasks t (record x { delivered = true });
      })
    ]
  ]
]

abbrev pub first_of : Option ℕ → ℕ → Option ℕ
first_of none j = some j
first_of (some k) j = some k

abbrev pub or_else : Option ℕ → Option ℕ → Option ℕ
or_else none b = b
or_else (some k) b = some k

-- The loop of `find_correct_slot` from index `j` on, for the letter `c` at `i`; `empty` and `swappable`
-- are `best_empty` and `best_swappable`, `none` for -1.
unfoldable pub slot_loop : ℕ → List Slot → ℕ → ℕ → Option ℕ → Option ℕ → Option ℕ
slot_loop j [] c i empty swappable = or_else empty swappable
slot_loop j (s ∷ slots) c i empty swappable =
    let fits = s.original == c && (not s.fixed && not (j == i)) in
    slot_loop (j + 1) slots c i (if fits && not s.occupied then first_of empty j else empty)
      (if fits && s.occupied then first_of swappable j else swappable)

-- `find_correct_slot` for the slot `s` at `i`.
unfoldable pub find_correct_slot : List Slot → ℕ → Slot → Option ℕ
unfolding slot_loop
find_correct_slot slots i s =
    if s.original == s.area && not s.fixed then some i else slot_loop 0 slots s.area i none none

-- What the loop of `sort_step` does with the slot `s` at `i`, when its letter belongs into slot `j`.
unfoldable pub settle : List Slot → ℕ → Slot → ℕ → List Slot × Bool
settle slots i s j =
    if j == i then (set slots i (record s { fixed = true }), true) else elim (get_elem? slots j) [
      | none ↦ (slots, false)
      | some t ↦
          if not t.occupied
          then (
            set (set slots j (record t { area = s.area; occupied = true })) i
                (record s { area = 0; occupied = false }),
            true,
          )
          else if not t.fixed
          then (set (set slots j (record t { area = s.area })) i (record s { area = t.area }), true)
          else (slots, false)
    ]

-- One round of the loop, with whether it changed something.
unfoldable pub sort_slot : List Slot → ℕ → List Slot × Bool
unfolding find_correct_slot settle
sort_slot slots i = elim (get_elem? slots i) [
  | none ↦ (slots, false)
  | some s ↦
      if not s.occupied || s.fixed then (slots, false) else elim (find_correct_slot slots i s) [
        | none ↦ (slots, false)
        | some j ↦ settle slots i s j
      ]
]

-- The rounds from `i` on, `n` of them.
unfoldable pub sort_loop : ℕ → List Slot → ℕ → List Slot × Bool
unfolding sort_slot
sort_loop zero slots i = (slots, false)
sort_loop (suc n) slots i =
    let (next, changed) = sort_slot slots i in
    let (last, later) = sort_loop n next (i + 1) in (last, changed || later)

-- What `sort_step` returns: the word, `changed`, and whether the word was completed by this step, so
-- that the floor's count falls and `done_count` rises by one.
pub record Sorted : Type 0 where
  pub word : Word
  pub changed : Bool
  pub done : Bool

-- `sort_step` on a word whose mutex is free.
unfoldable pub sort_step : Word → ℕ → Sorted
unfolding sort_loop
sort_step w floor =
    if not (w.sorting_floor == floor) || (not w.admitted || w.completed)
    then record { word = w; changed = false; done = false }
    else let (slots, changed) = sort_loop (length w.slots) w.slots 0 in
      let all_delivered = all (λ x. x.delivered) w.tasks in
      let all_fixed = all (λ s. s.fixed) slots in
      let done = all_delivered && (all_fixed && not w.completed) in
      record {
        word = record w { slots = slots; completed = w.completed || done };
        changed = changed;
        done = done;
      }

-- The calls of `sort_step` on a word that nobody else touches, `n` of them, as the loop of
-- `run_sorting_proc` makes them.
unfoldable pub sort_steps : ℕ → Word → ℕ → Word
unfolding sort_step
sort_steps zero w floor = w
sort_steps (suc n) w floor = sort_steps n (sort_step w floor).word floor

abbrev pub from_floor : ℕ → Task → Task
from_floor floor x = record x { src_floor = some floor }

-- What happens to a word: a word carrier claims it and admits it or gives it up, a letter carrier
-- claims one of its letters and places it later, a sorting process makes a pass.
pub data WordStep : Word → Word → Type 0 where
  claims :
      (w : Word) → w.claimed ≡ false → w.admitted ≡ false → WordStep w (record w { claimed = true })
  rejects :
      (w : Word) → w.claimed ≡ true → w.admitted ≡ false → WordStep w (record w { claimed = false })
  admits :
      (w : Word) (floor : ℕ)
      → w.claimed ≡ true
      → w.admitted ≡ false
      → WordStep w (record w {
        arrival_floor = some floor;
        admitted = true;
        tasks = map (from_floor floor) w.tasks;
      })
  takes : (w w' : Word) (floor t : ℕ) → find_task w floor ≡ some (t, w') → WordStep w w'
  places :
      (w w' : Word) (t : ℕ) (x : Task)
      → get_elem? w.tasks t ≡ some x
      → x.claimed ≡ true
      → x.delivered ≡ false
      → place_char w t ≡ some w'
      → WordStep w w'
  sorts : (w : Word) (floor : ℕ) → WordStep w (sort_step w floor).word

pub data WordReach (w : Word) : Word → Type 0 where
  here : WordReach w w
  next : {u v : Word} → WordReach w u → WordStep u v → WordReach w v
