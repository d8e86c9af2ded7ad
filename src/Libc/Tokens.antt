-- ===== src/Libc/Tokens.antt =====
-- `strtok_r` and `strtok`.
use gtu_cse344_systems_progr.Common.{
  ℕ, [], ◌∷◌, ◌++◌, Bool, true, false, Option, none, some, ◌==◌, ◌||◌, if◌then◌else◌, all, not, ◌≡◌,
  ◌≢◌, refl, ap, arith,
}
use gtu_cse344_systems_progr.Libc.Strings.{Text}

abbrev pub is_any : Text → ℕ → Bool
is_any [] c = false
is_any (d ∷ ds) c = c == d || is_any ds c

unfoldable pub skip_any : Text → Text → Text
skip_any delim [] = []
skip_any delim (c ∷ s) = let rest = skip_any delim s in if is_any delim c then rest else c ∷ s

-- The token at the front, and the text behind the delimiter that ends it.
unfoldable pub take_token : Text → Text → Text × Text
take_token delim [] = ([], [])
take_token delim (c ∷ s) =
    let longer : Text × Text = let (l, r) = take_token delim s in (c ∷ l, r) in
    if is_any delim c then ([], s) else longer

abbrev pub token_at : Text → Text → Option (Text × Text)
token_at delim [] = none
token_at delim (c ∷ s) = some (take_token delim (c ∷ s))

-- The next token and the saved position; `none` is NULL.
unfoldable pub strtok : Text → Text → Option (Text × Text)
unfolding skip_any take_token
strtok delim s = token_at delim (skip_any delim s)

-- No byte of the text is a delimiter.
abbrev pub is_word : Text → Text → Bool
is_word delim s = all (λ c. not (is_any delim c)) s

take_token-word :
    (delim w : Text) (d : ℕ) (rest : Text)
    → is_word delim w ≡ true
    → is_any delim d ≡ true
    → take_token delim (w ++ d ∷ rest) ≡ (w, rest)
unfolding take_token
take_token-word delim [] d rest h k = ground arith
take_token-word delim (c ∷ w) d rest h k = ground (arith, take_token-word delim w d rest)

take_token-last : (delim w : Text) → is_word delim w ≡ true → take_token delim w ≡ (w, [])
unfolding take_token
take_token-last delim [] h = refl
take_token-last delim (c ∷ w) h = ground (arith, take_token-last delim w)

skip_any-word :
    (delim : Text) (c : ℕ) (s : Text) → is_any delim c ≡ false → skip_any delim (c ∷ s) ≡ c ∷ s
unfolding skip_any
skip_any-word delim c s h = rw h

-- A word that a delimiter ends is the next token.
pub strtok-word :
    (delim w : Text) (d : ℕ) (rest : Text)
    → w ≢ []
    → is_word delim w ≡ true
    → is_any delim d ≡ true
    → strtok delim (w ++ d ∷ rest) ≡ some (w, rest)
unfolding strtok
strtok-word delim [] d rest ne h k = absurd (ne refl)
strtok-word delim (c ∷ w) d rest ne h k =
    let first : is_any delim c ≡ false = ground arith in
    rw (skip_any-word delim c (w ++ d ∷ rest) first)
      (ap some (take_token-word delim (c ∷ w) d rest h k))

-- A word that the text ends is the last token.
pub strtok-last : (delim w : Text) → w ≢ [] → is_word delim w ≡ true → strtok delim w ≡ some (w, [])
unfolding strtok
strtok-last delim [] ne h = absurd (ne refl)
strtok-last delim (c ∷ w) ne h =
    let first : is_any delim c ≡ false = ground arith in
    rw (skip_any-word delim c w first) (ap some (take_token-last delim (c ∷ w) h))
