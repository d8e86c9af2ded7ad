-- ===== src/Libc/Lines.antt =====
-- Cutting the bytes of a socket into lines.
use gtu_cse344_systems_progr.Common.{
  ℕ, ◌<◌, ◌≡◌, List, [], ◌∷◌, Option, none, some, ◌==◌, if◌then◌else◌, length, Option-cases, inl,
  inr, arith,
}

-- The bytes before the first newline, which `memchr` or a loop finds, and those behind it.
unfoldable pub split_line : List ℕ → Option (List ℕ × List ℕ)
split_line [] = none
split_line (b ∷ buf) =
    let rest = split_line buf in
    if b == 10
    then some ([], buf)
    else elim rest [ none ↦ none | some (line, r) ↦ some (b ∷ line, r) ]

-- A carriage return at the end of the line is cut.
unfoldable pub cut_cr : List ℕ → List ℕ
cut_cr [] = []
cut_cr (b ∷ []) = if b == 13 then [] else b ∷ []
cut_cr (b ∷ c ∷ line) = b ∷ cut_cr (c ∷ line)

pub split_line-length :
    (buf line rest : List ℕ)
    → split_line buf ≡ some (line, rest)
    → (length line < length buf) × (length rest < length buf)
unfolding split_line
split_line-length [] line rest e = cc
split_line-length (b ∷ buf) line rest e = elim (Option-cases (split_line buf)) [
  | inl n ↦ ground arith
  | inr ((l, r), h) ↦ ground (arith, split_line-length buf l r h)
]
