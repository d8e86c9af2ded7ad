-- ===== src/Words/Word/Run.antt =====
-- What happens to a word from the start, in whatever order the processes come to it.
use gtu_cse344_systems_progr.Common.{
  ℕ, zero, suc, ◌≡◌, ◌≢◌, refl, ap, sym, ◌∙◌, List, [], ◌∷◌, true, false, none, some, ◌==◌, ◌||◌,
  not, length, get_elem?, set, map, bit, weigh, weigh-set, length-set, Bool-cases, Option-cases,
  inl, inr, arith, leb, ◌++◌, ◌-◌, ◌<◌, take, take_all, replicate, append-nil,
}
use mathlib.Core.Path.{subst}
use gtu_cse344_systems_progr.Libc.{Text}
use gtu_cse344_systems_progr.Words.Word.{
  Slot, Task, Word, new_slot, letters_of, init_word, free_task, find_task, place_char, free_slot,
  max_word_len, from_floor, same_floor, sort_step, WordStep, claims, rejects, admits, takes, places,
  sorts, WordReach, here, next,
}
use gtu_cse344_systems_progr.Words.Word.Letters.{
  IsWord, arrived, carries, init_word-IsWord, place_char-IsWord,
}
use gtu_cse344_systems_progr.Words.Word.Rounds.{map-set}
use gtu_cse344_systems_progr.Words.Word.Passes.{sort_loop-Rearranged, Rearranged-IsWord}
use gtu_cse344_systems_progr.Words.Word.Sorting.{
  letters, sorted_letters, all_fixed, all_delivered, fixed-letters,
}

-- The word with the letters `word`: as many of each letter lie in its sorting area as were delivered,
-- a slot that is fixed has its letter, and a completed word has all its letters, each in its place.
pub record IsSorting (word : List ℕ) (w : Word) : Type 0 where
  pub kept : IsWord w.slots w.tasks
  pub same : letters w.slots ≡ word
  pub completed :
      w.completed ≡ true
      → (w.admitted ≡ true) × (all_delivered w.tasks ≡ true) × (all_fixed w.slots ≡ true)

-- A task that changes neither its letter nor whether it was delivered.
retask-IsWord :
    (slots : List Slot) (tasks : List Task) (t : ℕ) (x : Task)
    → IsWord slots tasks
    → get_elem? tasks t ≡ some x
    → IsWord slots (set tasks t (record x { claimed = true }))
retask-IsWord slots tasks t x v at =
    let x' : Task = record x { claimed = true } in
    record {
      fixed = v.fixed;
      delivered = λ c. omega (arith, weigh-set (arrived c) tasks t x x' at, v.delivered c);
      as_many = omega (arith, weigh-set (λ z. bit z.delivered) tasks t x x' at, v.as_many);
      whole = λ c. omega (arith, weigh-set (carries c) tasks t x x' at, v.whole c);
      sizes = omega (arith, length-set tasks t x', v.sizes);
    }

weigh-from_floor :
    (f : Task → ℕ) (floor : ℕ) (tasks : List Task)
    → ((x : Task) → f (from_floor floor x) ≡ f x)
    → weigh f (map (from_floor floor) tasks) ≡ weigh f tasks
weigh-from_floor f floor [] h = refl
weigh-from_floor f floor (x ∷ tasks) h = omega (arith, h x, weigh-from_floor f floor tasks h)

length-from_floor :
    (floor : ℕ) (tasks : List Task) → length (map (from_floor floor) tasks) ≡ length tasks
length-from_floor floor [] = refl
length-from_floor floor (x ∷ tasks) = ap suc (length-from_floor floor tasks)

undelivered :
    (tasks : List Task) (t : ℕ) (x : Task)
    → get_elem? tasks t ≡ some x
    → x.delivered ≡ false
    → all_delivered tasks ≡ true
    → ⊥
undelivered [] t x e h a = cc
undelivered (z ∷ tasks) zero x e h a =
    let same : z ≡ x = cc in
    let old : z.delivered ≡ false = ap (λ k. k.delivered) same ∙ h in ground arith
undelivered (z ∷ tasks) (suc t) x e h a = undelivered tasks t x e h (ground arith)

admit-IsWord :
    (slots : List Slot) (tasks : List Task) (floor : ℕ)
    → IsWord slots tasks
    → IsWord slots (map (from_floor floor) tasks)
admit-IsWord slots tasks floor v = record {
  fixed = v.fixed;
  delivered = λ c. v.delivered c ∙ sym (weigh-from_floor (arrived c) floor tasks (λ x. refl));
  as_many = v.as_many ∙ sym (weigh-from_floor (λ z. bit z.delivered) floor tasks (λ x. refl));
  whole = λ c. v.whole c ∙ sym (weigh-from_floor (carries c) floor tasks (λ x. refl));
  sizes = v.sizes ∙ sym (length-from_floor floor tasks);
}

find_task-IsSorting :
    (word : List ℕ) (w w' : Word) (floor t : ℕ)
    → IsSorting word w
    → find_task w floor ≡ some (t, w')
    → IsSorting word w'
unfolding find_task
find_task-IsSorting word w w' floor t v e =
    elim (Bool-cases (not w.admitted || (w.completed || not (same_floor w.arrival_floor floor)))) [
      | inl no_task ↦ ground arith
      | inr may ↦ elim (Option-cases (free_task floor 0 w.tasks)) [
        | inl n ↦ ground arith
        | inr (k, h) ↦ elim (Option-cases (get_elem? w.tasks k)) [
          | inl n ↦ ground arith
          | inr (x, at) ↦
              let made : record w { tasks = set w.tasks k (record x { claimed = true }) } ≡ w' =
                ground arith in
              subst (IsSorting word) made (record {
                kept = retask-IsWord w.slots w.tasks k x v.kept at;
                same = v.same;
                completed = λ c. absurd (ground arith);
              })
        ]
      ]
    ]

place_char-IsSorting :
    (word : List ℕ) (w w' : Word) (t : ℕ) (x : Task)
    → IsSorting word w
    → get_elem? w.tasks t ≡ some x
    → x.delivered ≡ false
    → place_char w t ≡ some w'
    → IsSorting word w'
unfolding place_char
place_char-IsSorting word w w' t x v at new e =
    let (u, placed, kept) = place_char-IsWord w t x v.kept at new in
    let one : u ≡ w' = cc in
    elim (Option-cases (free_slot 0 w.slots)) [
      | inl n ↦ ground arith
      | inr (i, h) ↦ elim (Option-cases (get_elem? w.slots i)) [
        | inl n ↦ ground arith
        | inr (s, got) ↦
            let s' : Slot = record s { area = x.character; occupied = true } in
            let made : record w {
              slots = set w.slots i s';
              tasks = set w.tasks t (record x { delivered = true });
            }
                ≡ w' =
              ground arith in
            subst (IsSorting word) made (record {
              kept = subst (λ z. IsWord z.slots z.tasks) (one ∙ sym made) kept;
              same = map-set (λ z. z.original) w.slots i s s' got refl ∙ v.same;
              completed = λ c. absurd (undelivered w.tasks t x at new (v.completed c).1);
            })
      ]
    ]

sort_step-IsSorting :
    (word : List ℕ) (w : Word) (floor : ℕ)
    → IsSorting word w
    → IsSorting word (sort_step w floor).word
unfolding sort_step
sort_step-IsSorting word w floor v =
    elim (Bool-cases (not (w.sorting_floor == floor) || (not w.admitted || w.completed))) [
      | inl skips ↦ rw skips v
      | inr runs ↦
          let r = sort_loop-Rearranged (length w.slots) w.slots w.tasks 0 v.kept in
          rw runs (record {
            kept = Rearranged-IsWord w.slots _ w.tasks v.kept r;
            same = r.word ∙ v.same;
            completed = λ c. (ground arith, ground arith, ground arith);
          })
    ]

letters-new : (l : List ℕ) → letters (map new_slot l) ≡ l
letters-new [] = refl
letters-new (c ∷ l) = λ i. c ∷ letters-new l i

init_word-IsSorting :
    (id : ℕ) (text : Text) (floor : ℕ) (w : Word)
    → init_word id text floor ≡ some w
    → IsSorting (letters_of text) w
unfolding init_word
init_word-IsSorting id text floor w e = elim (Bool-cases (leb (length text) 64)) [
  | inl fits ↦
      let slots : map new_slot (letters_of text) ≡ w.slots = ground arith in
      let waits : w.completed ≡ false = ground arith in
      record {
        kept = init_word-IsWord id text floor w e;
        same = ap letters (sym slots) ∙ letters-new (letters_of text);
        completed = λ c. absurd (ground arith);
      }
  | inr long ↦ ground arith
]

-- The same of what `original` holds, for words of up to 64 letters: the last of 64 is the NUL.
WordReach-letters_of :
    (id : ℕ) (text : Text) (floor : ℕ) (w v : Word)
    → init_word id text floor ≡ some w
    → WordReach w v
    → IsSorting (letters_of text) v
      × (v.completed ≡ true → sorted_letters v.slots ≡ letters_of text)
      × ((t : ℕ) (x : Task)
          → get_elem? v.tasks t ≡ some x
          → x.delivered ≡ false
          → place_char v t ≢ none)
WordReach-letters_of id text floor w v e r =
    let k = reached v r in
    (
      k,
      λ c. fixed-letters v.slots k.kept.fixed (k.completed c).2 ∙ k.same,
      λ t x at new n. let (u, placed, kept) = place_char-IsWord v t x k.kept at new in cc placed,
    )
  where
    begins : IsSorting (letters_of text) w
    begins = init_word-IsSorting id text floor w e

    stepped :
        (a b : Word) → IsSorting (letters_of text) a → WordStep a b → IsSorting (letters_of text) b
    stepped a _ k (claims _ h g) = record { kept = k.kept; same = k.same; completed = k.completed }
    stepped a _ k (rejects _ h g) = record { kept = k.kept; same = k.same; completed = k.completed }
    stepped a _ k (admits _ f h g) = record {
      kept = admit-IsWord a.slots a.tasks f k.kept;
      same = k.same;
      completed = λ c. absurd (ground (arith, k.completed c));
    }
    stepped a b k (takes _ _ f t h) = find_task-IsSorting (letters_of text) a b f t k h
    stepped a b k (places _ _ t x at cl new h) =
        place_char-IsSorting (letters_of text) a b t x k at new h
    stepped a _ k (sorts _ f) = sort_step-IsSorting (letters_of text) a f k

    reached : (b : Word) → WordReach w b → IsSorting (letters_of text) b
    reached _ here = begins
    reached b (next {u} q st) = stepped u b (reached u q) st

letters_of-text : (text : Text) → length text < max_word_len → letters_of text ≡ text
letters_of-text text h =
    let none_left : length text - (max_word_len - 1) ≡ 0 = omega arith in
    ap (λ k. take (max_word_len - 1) text ++ replicate k 0) none_left
    ∙ append-nil (take (max_word_len - 1) text)
    ∙ take_all (max_word_len - 1) text (omega arith)

-- However the processes come to a word of fewer than 64 letters, in every state: of each letter as
-- many lie in its sorting area as were delivered, a slot that is fixed has its letter, and when the
-- word is completed all its letters were delivered and its sorting area reads as the word. A letter
-- that was not delivered yet always finds a free slot.
pub WordReach-IsSorting :
    (id : ℕ) (text : Text) (floor : ℕ) (w v : Word)
    → length text < max_word_len
    → init_word id text floor ≡ some w
    → WordReach w v
    → IsSorting text v
      × (v.completed ≡ true → sorted_letters v.slots ≡ text)
      × ((t : ℕ) (x : Task)
          → get_elem? v.tasks t ≡ some x
          → x.delivered ≡ false
          → place_char v t ≢ none)
WordReach-IsSorting id text floor w v short e r =
    let (k, done, room) = WordReach-letters_of id text floor w v e r in
    let same = letters_of-text text short in
    (
      record { kept = k.kept; same = k.same ∙ same; completed = k.completed },
      λ c. done c ∙ same,
      room,
    )
