-- ===== src/Libc/Files.antt =====
-- Reading a file line by line.
use gtu_cse344_systems_progr.Common.{
  ℕ, zero, suc, ◌-◌, ◌≤◌, ◌<◌, ◌≡◌, refl, List, [], ◌∷◌, Option, none, some, arith, ◌==◌,
  if◌then◌else◌, length, ◌++◌,
}

-- At most `n` bytes, up to and with the first newline; and the rest of the file.
unfoldable pub take_line : ℕ → List ℕ → List ℕ × List ℕ
take_line zero s = ([], s)
take_line (suc n) [] = ([], [])
take_line (suc n) (c ∷ s) =
    let longer : List ℕ × List ℕ = let (l, r) = take_line n s in (c ∷ l, r) in
    if c == 10 then (c ∷ [], s) else longer

-- `fgets (line, size, fp)`; `none` is NULL, at the end of the file.
unfoldable pub fgets : ℕ → List ℕ → Option (List ℕ × List ℕ)
unfolding take_line
fgets size [] = none
fgets size (c ∷ s) = some (take_line (size - 1) (c ∷ s))

-- A line and the rest make up the file.
pub take_line-append : (n : ℕ) (s : List ℕ) → (take_line n s).0 ++ (take_line n s).1 ≡ s
unfolding take_line
take_line-append zero s = refl
take_line-append (suc n) [] = refl
take_line-append (suc n) (c ∷ s) = ground (arith, take_line-append n s)

pub take_line-le : (n : ℕ) (s : List ℕ) → length (take_line n s).1 ≤ length s
unfolding take_line
take_line-le zero s = omega arith
take_line-le (suc n) [] = omega arith
take_line-le (suc n) (c ∷ s) = ground (arith, take_line-le n s)

take_line-lt : (k c : ℕ) (s : List ℕ) → length (take_line (suc k) (c ∷ s)).1 < length (c ∷ s)
unfolding take_line
take_line-lt k c s = ground (arith, take_line-le k s)

-- Each line that is read leaves less of the file.
pub fgets-lt :
    (size : ℕ) (s l r : List ℕ) → 1 < size → fgets size s ≡ some (l, r) → length r < length s
unfolding fgets
fgets-lt size [] l r h e = cc
fgets-lt size (c ∷ s) l r h e =
    let one_more : size - 1 ≡ suc (size - 2) = omega arith in
    ground (arith, take_line-lt (size - 2) c s)
