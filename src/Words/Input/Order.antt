-- ===== src/Words/Input/Order.antt =====
-- `qsort` with `cmp_words`: the words of the output file in order.
use gtu_cse344_systems_progr.Common.{
  ◌≡◌, ◌<◌, ◌≤◌, ◌⊎◌, refl, List, [], ◌∷◌, Bool, true, false, ◌&&◌, ◌==◌, All, Bool-cases, inl, inr,
  arith,
}
use mathlib.Core.List.{Perm}
use mathlib.Core.List.Perm
use gtu_cse344_systems_progr.Words.Word.{Word}
use gtu_cse344_systems_progr.Words.Input.{word_le, insert_word, sort_words}

-- The floor of the first word is lower, or the floors are the same and its id is not higher.
abbrev pub GoesBefore : Word → Word → Type 0
GoesBefore w v =
    (w.sorting_floor < v.sorting_floor)
    ⊎ ((w.sorting_floor ≡ v.sorting_floor) × (w.word_id ≤ v.word_id))

-- Each word goes before the next.
abbrev pub InOrder : List Word → Type 0
InOrder [] = Unit
InOrder (w ∷ []) = Unit
InOrder (w ∷ v ∷ words) = GoesBefore w v × InOrder (v ∷ words)

abbrev ascending : List Word → Bool
ascending [] = true
ascending (w ∷ []) = true
ascending (w ∷ v ∷ words) = word_le w v && ascending (v ∷ words)

word_le_total : (v w : Word) → word_le w v ≡ false → word_le v w ≡ true
unfolding word_le
word_le_total v w h = ground arith

insert_word-ascending :
    (v w : Word) (words : List Word)
    → word_le v w ≡ true
    → ascending (v ∷ words) ≡ true
    → ascending (v ∷ insert_word w words) ≡ true
unfolding insert_word
insert_word-ascending v w [] h a = ground arith
insert_word-ascending v w (u ∷ words) h a = elim (Bool-cases (word_le w u)) [
  | inl before ↦ rw before (ground arith)
  | inr after ↦
      let ih = insert_word-ascending u w words (word_le_total u w after) (ground arith) in
      rw after (ground arith)
]

insert_word-sorted :
    (w : Word) (words : List Word) → ascending words ≡ true → ascending (insert_word w words) ≡ true
unfolding insert_word
insert_word-sorted w [] a = refl
insert_word-sorted w (v ∷ words) a = elim (Bool-cases (word_le w v)) [
  | inl before ↦ rw before (ground arith)
  | inr after ↦ rw after (insert_word-ascending v w words (word_le_total v w after) a)
]

word_le-GoesBefore : (w v : Word) → word_le w v ≡ true → GoesBefore w v
unfolding word_le
word_le-GoesBefore w v h = elim (Bool-cases (w.sorting_floor == v.sorting_floor)) [
  | inl same ↦ inr (ground arith, ground arith)
  | inr apart ↦ inl (ground arith)
]

ascending-InOrder : (words : List Word) → ascending words ≡ true → InOrder words
ascending-InOrder [] a = tt
ascending-InOrder (w ∷ []) a = tt
ascending-InOrder (w ∷ v ∷ words) a =
    (word_le-GoesBefore w v (ground arith), ascending-InOrder (v ∷ words) (ground arith))

sort_words-ascending : (words : List Word) → ascending (sort_words words) ≡ true
unfolding sort_words
sort_words-ascending [] = refl
sort_words-ascending (w ∷ words) =
    insert_word-sorted w (sort_words words) (sort_words-ascending words)

pub sort_words-InOrder : (words : List Word) → InOrder (sort_words words)
sort_words-InOrder words = ascending-InOrder (sort_words words) (sort_words-ascending words)

insert_word-perm : (w : Word) (words : List Word) → Perm (insert_word w words) (w ∷ words)
unfolding insert_word
insert_word-perm w [] = Perm.rfl
insert_word-perm w (v ∷ words) = elim (Bool-cases (word_le w v)) [
  | inl before ↦ rw before Perm.rfl
  | inr after ↦ rw after (Perm.trans (Perm.cons v (insert_word-perm w words)) (Perm.swap w v words))
]

pub sort_words-perm : (words : List Word) → Perm (sort_words words) words
unfolding sort_words
sort_words-perm [] = Perm.rfl
sort_words-perm (w ∷ words) =
    Perm.trans (insert_word-perm w (sort_words words)) (Perm.cons w (sort_words-perm words))

insert_word-All :
    (P : Word → Type 0) (w : Word) (words : List Word)
    → P w
    → All P words
    → All P (insert_word w words)
unfolding insert_word
insert_word-All P w [] p a = (p, tt)
insert_word-All P w (v ∷ words) p a = elim (Bool-cases (word_le w v)) [
  | inl before ↦ rw before (p, a)
  | inr after ↦ rw after (a.0, insert_word-All P w words p a.1)
]

pub sort_words-All :
    (P : Word → Type 0) (words : List Word) → All P words → All P (sort_words words)
unfolding sort_words
sort_words-All P [] a = tt
sort_words-All P (w ∷ words) a =
    insert_word-All P w (sort_words words) a.0 (sort_words-All P words a.1)
