-- ===== src/Words/Tests.antt =====
-- The theorems on words and floors at concrete inputs.
use gtu_cse344_systems_progr.Common.{
  ℕ, ◌+◌, ◌*◌, ◌≤◌, ◌≡◌, ◌≢◌, refl, [], ◌∷◌, true, false, Option, none, some, length, get_elem?,
  All, arith,
}
use gtu_cse344_systems_progr.Libc.{codes}
use gtu_cse344_systems_progr.Words.Word.{
  Slot, Task, Word, init_word, find_task, place_char, sort_step, sort_steps, WordReach, here, next,
  claims, admits, takes, places, sorts,
}
use gtu_cse344_systems_progr.Words.Word.Sorting.{letters, sorted_letters, IsWaiting, sorting_ends}
use gtu_cse344_systems_progr.Words.Word.Run.{IsSorting, WordReach-IsSorting}
use gtu_cse344_systems_progr.Words.Floors.{
  Building, new_building, try_admit, Days, start, day, admits, completes,
}
use gtu_cse344_systems_progr.Words.Floors.Account.{total, Days-account}

abbrev task : ℕ → ℕ → Option ℕ → Task
task c i src = record {
  character = c;
  original_index = i;
  src_floor = src;
  dest_floor = 2;
  claimed = false;
  delivered = false;
}

abbrev slot : ℕ → Slot
slot c = record { original = c; area = 0; occupied = false; fixed = false }

abbrev some_word : Word
some_word = record {
  word_id = 7;
  sorting_floor = 2;
  arrival_floor = none;
  slots = slot b'a' ∷ slot b'b' ∷ slot b'a' ∷ [];
  tasks = task b'a' 0 none ∷ task b'b' 1 none ∷ task b'a' 2 none ∷ [];
  claimed = false;
  admitted = false;
  completed = false;
}

begins : init_word 7 (codes "aba") 2 ≡ some some_word
unfolding init_word
begins = refl

abbrev admitted_word : Word
admitted_word = record some_word {
  arrival_floor = some 0;
  tasks = task b'a' 0 (some 0) ∷ task b'b' 1 (some 0) ∷ task b'a' 2 (some 0) ∷ [];
  claimed = true;
  admitted = true;
}

abbrev taken : Task → Task
taken x = record x { claimed = true }

abbrev brought : Task → Task
brought x = record x { claimed = true; delivered = true }

abbrev taken_word : Word
taken_word = record admitted_word {
  tasks = taken (task b'a' 0 (some 0)) ∷ task b'b' 1 (some 0) ∷ task b'a' 2 (some 0) ∷ [];
}

takes_first : find_task admitted_word 0 ≡ some (0, taken_word)
unfolding find_task
takes_first = refl

abbrev placed_word : Word
placed_word = record admitted_word {
  slots =
      record { original = b'a'; area = b'a'; occupied = true; fixed = false }
      ∷ slot b'b'
      ∷ slot b'a'
      ∷ [];
  tasks = brought (task b'a' 0 (some 0)) ∷ task b'b' 1 (some 0) ∷ task b'a' 2 (some 0) ∷ [];
}

places_first : place_char taken_word 0 ≡ some placed_word
unfolding place_char
places_first = refl

some_run : WordReach some_word (sort_step placed_word 2).word
some_run =
    next
      (next
        (next (next (next here (claims some_word refl refl)) (admits _ 0 refl refl))
          (takes admitted_word taken_word 0 0 takes_first))
        (places taken_word placed_word 0 (taken (task b'a' 0 (some 0))) refl refl refl
          places_first))
      (sorts placed_word 2)

WordReach-IsSorting_example :
    IsSorting (codes "aba") (sort_step placed_word 2).word
    × ((sort_step placed_word 2).word.completed ≡ true
        → sorted_letters (sort_step placed_word 2).word.slots ≡ codes "aba")
    × ((t : ℕ) (x : Task)
        → get_elem? (sort_step placed_word 2).word.tasks t ≡ some x
        → x.delivered ≡ false
        → place_char (sort_step placed_word 2).word t ≢ none)
WordReach-IsSorting_example =
    WordReach-IsSorting 7 (codes "aba") 2 some_word (sort_step placed_word 2).word (omega arith)
      begins some_run

abbrev lying : ℕ → ℕ → Slot
lying c a = record { original = c; area = a; occupied = true; fixed = false }

abbrev full_word : Word
full_word = record admitted_word {
  slots = lying b'a' b'b' ∷ lying b'b' b'a' ∷ lying b'a' b'a' ∷ [];
  tasks =
      brought (task b'a' 0 (some 0))
      ∷ brought (task b'b' 1 (some 0))
      ∷ brought (task b'a' 2 (some 0))
      ∷ [];
}

two_passes : (sort_steps 2 full_word 2).completed ≡ true
unfolding sort_steps
two_passes = refl

full_word-IsWaiting : IsWaiting full_word 2
full_word-IsWaiting = record {
  word = record {
    fixed = (λ e. cc, (λ e. cc, (λ e. cc, tt)));
    delivered = λ c. omega arith;
    as_many = refl;
    whole = λ c. omega arith;
    sizes = refl;
  };
  here = refl;
  admitted = refl;
  waits = refl;
  delivered = refl;
}

sorting_ends_example :
    ((sort_steps (2 * length full_word.slots + 1) full_word 2).completed ≡ true)
    × (sorted_letters (sort_steps (2 * length full_word.slots + 1) full_word 2).slots
        ≡ letters full_word.slots)
sorting_ends_example = sorting_ends full_word 2 full_word-IsWaiting

abbrev one_word : Building
one_word = record { counts = 1 ∷ 0 ∷ 1 ∷ []; admitted = 1; completed = 0 }

abbrev left_over : Building
left_over = record { counts = 1 ∷ 0 ∷ 0 ∷ []; admitted = 1; completed = 1 }

admits_one : try_admit (0 ∷ 0 ∷ 0 ∷ []) 1 2 0 ≡ (one_word.counts, true)
unfolding try_admit
admits_one = refl

-- One word on floor 0 for floor 2 leaves its count on floor 0 behind.
some-Days : Days 1 (new_building 3) left_over
some-Days =
    day (day start (admits 0 2 one_word.counts refl refl admits_one)) (completes 2 0 refl refl)

Days-account_example :
    All (λ n. n ≤ 1 + 1) left_over.counts
    × (total left_over.counts + left_over.completed ≡ 2 * left_over.admitted)
    × (left_over.admitted ≤ 3 * (1 + 1))
Days-account_example = Days-account 3 1 left_over some-Days
