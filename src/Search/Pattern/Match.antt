-- ===== src/Search/Pattern/Match.antt =====
-- A pattern as a list of letters, each to be matched once or at least once, and what it matches.
use gtu_cse344_systems_progr.Common.{
  ℕ, ◌≡◌, ◌↔◌, ◌<◌, refl, ap, ◌∙◌, List, [], ◌∷◌, ◌++◌, Bool, true, ◌==◌, if◌then◌else◌, Bool-cases,
  inl, inr, arith,
}
use gtu_cse344_systems_progr.Libc.{Text}
use gtu_cse344_systems_progr.Search.Pattern.{
  tolower, same_letter, plus_loop, one_letter, match_letters, is_empty, regex_match, match_here,
  regex,
}

pub data Item : Type 0 where
  once : ℕ → Item
  at_least_once : ℕ → Item

unfoldable pub items : Text → List Item
items [] = []
items (c ∷ []) = once c ∷ []
items (c ∷ d ∷ pattern) =
    let more = at_least_once c ∷ items pattern in
    let single = once c ∷ items (d ∷ pattern) in if d == b'+' then more else single

-- A byte of the name stands for a letter of the pattern, upper or lower case.
abbrev pub IsLetter : ℕ → ℕ → Type 0
IsLetter x c = (tolower x ≡ tolower c) × (tolower c < 128)

-- The letters make up the text before `rest`.
pub data Matches : List Item → Text → Text → Type 0 where
  ends : {rest : Text} → Matches [] rest rest
  one :
      {c x : ℕ} {is : List Item} {name rest : Text}
      → IsLetter x c
      → Matches is name rest
      → Matches (once c ∷ is) (x ∷ name) rest
  last :
      {c x : ℕ} {is : List Item} {name rest : Text}
      → IsLetter x c
      → Matches is name rest
      → Matches (at_least_once c ∷ is) (x ∷ name) rest
  more :
      {c x : ℕ} {is : List Item} {name rest : Text}
      → IsLetter x c
      → Matches (at_least_once c ∷ is) name rest
      → Matches (at_least_once c ∷ is) (x ∷ name) rest

-- The test behind the letters is `rest`, and accepts only if it finds a match that `at_end` accepts.
abbrev Finds : (Text → Bool) → List Item → (Text → Bool) → Type 0
Finds at_end is test = (t : Text) → test t ≡ true → (r : Text) × Matches is t r × (at_end r ≡ true)

-- It accepts every such match.
abbrev Accepts : (Text → Bool) → List Item → (Text → Bool) → Type 0
Accepts at_end is test = (t r : Text) → Matches is t r → at_end r ≡ true → test t ≡ true

letter : (x c : ℕ) → same_letter x c ≡ true → IsLetter x c
letter x c h = (ground arith, ground arith)

letter_same : (x c : ℕ) → IsLetter x c → same_letter x c ≡ true
letter_same x c (e, h) = ground arith

module _ (at_end : Text → Bool) (c : ℕ) (test : Text → Bool) (is : List Item) where
  plus_loop-Finds : Finds at_end is test → Finds at_end (at_least_once c ∷ is) (plus_loop c test)
  unfolding plus_loop
  plus_loop-Finds h [] e = absurd cc
  plus_loop-Finds h (x ∷ name) e = elim (Bool-cases (same_letter x c)) [
    | inl same ↦ elim (Bool-cases (test name)) [
      | inl found ↦ let (r, m, a) = h name found in (r, last (letter x c same) m, a)
      | inr later ↦
          let (r, m, a) = plus_loop-Finds h name (ground arith) in (r, more (letter x c same) m, a)
    ]
    | inr other ↦ absurd (ground arith)
  ]

  one_letter-Finds : Finds at_end is test → Finds at_end (once c ∷ is) (one_letter c test)
  unfolding one_letter
  one_letter-Finds h [] e = absurd cc
  one_letter-Finds h (x ∷ name) e = elim (Bool-cases (same_letter x c)) [
    | inl same ↦ let (r, m, a) = h name (ground arith) in (r, one (letter x c same) m, a)
    | inr other ↦ absurd (ground arith)
  ]

  plus_loop-Accepts :
      Accepts at_end is test → Accepts at_end (at_least_once c ∷ is) (plus_loop c test)
  unfolding plus_loop
  plus_loop-Accepts h [] r m a = elim m [ ]
  plus_loop-Accepts h (x ∷ name) r (last e m) a =
      let same = letter_same x c e in let found = h name r m a in ground arith
  plus_loop-Accepts h (x ∷ name) r (more e m) a =
      let same = letter_same x c e in let later = plus_loop-Accepts h name r m a in ground arith

  one_letter-Accepts : Accepts at_end is test → Accepts at_end (once c ∷ is) (one_letter c test)
  unfolding one_letter
  one_letter-Accepts h [] r m a = elim m [ ]
  one_letter-Accepts h (x ∷ name) r (one e m) a =
      let same = letter_same x c e in let found = h name r m a in ground arith

at_end-Finds : (at_end : Text → Bool) → Finds at_end [] at_end
at_end-Finds at_end t e = (t, ends, e)

at_end-Accepts : (at_end : Text → Bool) → Accepts at_end [] at_end
at_end-Accepts at_end t _ ends a = a

match_letters-Finds :
    (at_end : Text → Bool) (pattern : Text)
    → Finds at_end (items pattern) (match_letters at_end pattern)
unfolding match_letters items
match_letters-Finds at_end [] = at_end-Finds at_end
match_letters-Finds at_end (c ∷ []) = one_letter-Finds at_end c at_end [] (at_end-Finds at_end)
match_letters-Finds at_end (c ∷ d ∷ pattern) = elim (Bool-cases (d == b'+')) [
  | inl plus ↦ rw plus (
      plus_loop-Finds at_end c (match_letters at_end pattern) (items pattern)
        (match_letters-Finds at_end pattern))
  | inr single ↦ rw single (
      one_letter-Finds at_end c (match_letters at_end (d ∷ pattern)) (items (d ∷ pattern))
        (match_letters-Finds at_end (d ∷ pattern)))
]

match_letters-Accepts :
    (at_end : Text → Bool) (pattern : Text)
    → Accepts at_end (items pattern) (match_letters at_end pattern)
unfolding match_letters items
match_letters-Accepts at_end [] = at_end-Accepts at_end
match_letters-Accepts at_end (c ∷ []) =
    one_letter-Accepts at_end c at_end [] (at_end-Accepts at_end)
match_letters-Accepts at_end (c ∷ d ∷ pattern) = elim (Bool-cases (d == b'+')) [
  | inl plus ↦ rw plus (
      plus_loop-Accepts at_end c (match_letters at_end pattern) (items pattern)
        (match_letters-Accepts at_end pattern))
  | inr single ↦ rw single (
      one_letter-Accepts at_end c (match_letters at_end (d ∷ pattern)) (items (d ∷ pattern))
        (match_letters-Accepts at_end (d ∷ pattern)))
]

Matches-whole :
    (is : List Item) (name r : Text) → is_empty r ≡ true → Matches is name r → Matches is name []
Matches-whole is name [] h m = m
Matches-whole is name (x ∷ r) h m = absurd cc

-- The pattern matches a part of the name.
pub record Contains (pattern name : Text) : Type 0 where
  pub before : Text
  pub part : Text
  pub rest : Text
  pub whole : name ≡ before ++ part
  pub matches : Matches (items pattern) part rest

regex-Contains : (pattern name : Text) → regex pattern name ≡ true → Contains pattern name
unfolding regex match_here
regex-Contains pattern [] e =
    let (r, m, a) = match_letters-Finds (λ _. true) pattern [] e in
    record { before = []; part = []; rest = r; whole = refl; matches = m }
regex-Contains pattern (x ∷ name) e = elim (Bool-cases (match_here pattern (x ∷ name))) [
  | inl here ↦
      let (r, m, a) = match_letters-Finds (λ _. true) pattern (x ∷ name) here in
      record { before = []; part = x ∷ name; rest = r; whole = refl; matches = m }
  | inr later ↦
      let v = regex-Contains pattern name (ground arith) in
      record {
        before = x ∷ v.before;
        part = v.part;
        rest = v.rest;
        whole = ap (◌∷◌ x) v.whole;
        matches = v.matches;
      }
]

match_here-regex :
    (pattern name : Text) → match_here pattern name ≡ true → regex pattern name ≡ true
unfolding regex
match_here-regex pattern [] h = h
match_here-regex pattern (x ∷ name) h = ground arith

regex-behind :
    (pattern before part : Text) → regex pattern part ≡ true → regex pattern (before ++ part) ≡ true
unfolding regex
regex-behind pattern [] part h = h
regex-behind pattern (x ∷ before) part h =
    let later = regex-behind pattern before part h in ground arith

Contains-regex : (pattern name : Text) → Contains pattern name → regex pattern name ≡ true
unfolding match_here
Contains-regex pattern name v =
    let here = match_letters-Accepts (λ _. true) pattern v.part v.rest v.matches refl in
    ap (regex pattern) v.whole
    ∙ regex-behind pattern v.before v.part (match_here-regex pattern v.part here)

-- HW1 accepts just the names that the pattern matches as a whole, and HW2 just the names with a part
-- that it matches, where a letter before `+` stands once or more often, every other letter once,
-- upper and lower case are the same, and a letter that is not ASCII stands for nothing.
pub regex_match_lem :
    (pattern name : Text)
    → ((regex_match pattern name ≡ true) ↔ Matches (items pattern) name [])
      × ((regex pattern name ≡ true) ↔ Contains pattern name)
unfolding regex_match
regex_match_lem pattern name = (
  (
    (λ e.
        let (r, m, a) = match_letters-Finds is_empty pattern name e in
        Matches-whole (items pattern) name r a m),
    (λ m. match_letters-Accepts is_empty pattern name [] m refl),
  ),
  (regex-Contains pattern name, Contains-regex pattern name),
)
