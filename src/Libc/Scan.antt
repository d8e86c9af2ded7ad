-- ===== src/Libc/Scan.antt =====
-- The conversions of `sscanf` that the programs use.
use gtu_cse344_systems_progr.Common.{
  ℕ, zero, suc, ◌≤◌, ◌≡◌, ◌≢◌, [], ◌∷◌, Option, none, some, if◌then◌else◌, length, ℤ, arith, refl,
  false, Bool-cases, inl, inr, Option-cases, pos, negsuc, int_max,
}
use gtu_cse344_systems_progr.Libc.Strings.{Text, isspace}
use gtu_cse344_systems_progr.Libc.Numbers.{skip_space, strtol, wrap_int}

-- At most `n` bytes that are not white space, and what follows them.
unfoldable pub take_word : ℕ → Text → Text × Text
take_word zero s = ([], s)
take_word (suc n) [] = ([], [])
take_word (suc n) (c ∷ s) =
    let longer : Text × Text = let (w, r) = take_word n s in (c ∷ w, r) in
    if isspace c then ([], c ∷ s) else longer

abbrev word_at : ℕ → Text → Option (Text × Text)
word_at n [] = none
word_at n (c ∷ s) = some (take_word n (c ∷ s))

-- `%ns`: `none` is the end of the text.
unfoldable pub scan_word : ℕ → Text → Option (Text × Text)
unfolding skip_space take_word
scan_word n s = word_at n (skip_space s)

-- `%d`: `none` if no number stands there. A number outside `int` is stored as its low 32 bits.
unfoldable pub scan_int : Text → Option ℤ
unfolding strtol
scan_int s = elim (strtol s) [ none ↦ none | some v ↦ some (wrap_int v.value) ]

pub take_word-le : (n : ℕ) (s : Text) → length (take_word n s).0 ≤ n
unfolding take_word
take_word-le zero s = omega arith
take_word-le (suc n) [] = omega arith
take_word-le (suc n) (c ∷ s) = ground (arith, take_word-le n s)

pub scan_word-le : (n : ℕ) (s w r : Text) → scan_word n s ≡ some (w, r) → length w ≤ n
unfolding scan_word
scan_word-le n s w r e = at (skip_space s) e
  where
    at : (t : Text) → word_at n t ≡ some (w, r) → length w ≤ n
    at [] h = cc
    at (c ∷ t) h = ground (arith, take_word-le n (c ∷ t))

skip_space-head : (s t : Text) (c : ℕ) → skip_space s ≡ c ∷ t → isspace c ≡ false
unfolding skip_space
skip_space-head [] t c e = cc
skip_space-head (d ∷ s) t c e = elim (Bool-cases (isspace d)) [
  | inl space ↦ skip_space-head s t c (ground arith)
  | inr other ↦ let same : d ≡ c = ground arith in rw (← same) other
]

-- A word that is read is not empty.
pub scan_word-ne-nil : (n : ℕ) (s w r : Text) → scan_word (suc n) s ≡ some (w, r) → w ≢ []
unfolding scan_word take_word
scan_word-ne-nil n s w r e empty = front (skip_space s) (skip_space-head s) e
  where
    front :
        (t : Text)
        → ((u : Text) (c : ℕ) → t ≡ c ∷ u → isspace c ≡ false)
        → word_at (suc n) t ≡ some (w, r)
        → ⊥
    front [] k h = cc
    front (c ∷ t) k h = let other = k t c refl in ground arith

wrap_int-le : (v : ℤ) (q : ℕ) → wrap_int v ≡ pos q → q ≤ int_max
wrap_int-le (pos n) q e = ground arith
wrap_int-le (negsuc n) q e = ground arith

-- What `%d` stores is at most INT_MAX.
pub scan_int-le : (s : Text) (q : ℕ) → scan_int s ≡ some (pos q) → q ≤ int_max
unfolding scan_int
scan_int-le s q e = elim (Option-cases (strtol s)) [
  | inl n ↦ ground arith
  | inr (v, h) ↦ wrap_int-le v.value q (ground arith)
]
