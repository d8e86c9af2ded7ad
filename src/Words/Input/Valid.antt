-- ===== src/Words/Input/Valid.antt =====
-- A line that `is_valid_line` accepts has the three fields that `parse_line` reads.
use gtu_cse344_systems_progr.Common.{
  ℕ, ◌≡◌, ◌≢◌, refl, ap, ◌∙◌, List, [], ◌∷◌, ◌++◌, Bool, true, false, some, ◌==◌, not, ◌||◌, all,
  Bool-cases, Option-cases, inl, inr, arith, append-nil,
}
use gtu_cse344_systems_progr.Libc.{Text, is_digit, strtok-word, strtok-last, is_word, is_any, atoi}
use gtu_cse344_systems_progr.Words.Input.{
  LineInput, trim_newline, is_lower, skip_while, field, space, is_end, is_valid_line, delimiters,
  parse_line, Reading, exits, null_read, reads, read_input,
}
use gtu_cse344_systems_progr.Words.Input.Lines.{lower-all, is_valid_line-fields}

-- The line is `id word floor`, with one space between them.
pub record HasFields (line : Text) (w : LineInput) : Type 0 where
  pub id : Text
  pub floor : Text
  pub whole : line ≡ id ++ 32 ∷ (w.word ++ 32 ∷ floor)
  pub id_digits : (id ≢ []) × (all is_digit id ≡ true)
  pub word_lower : (w.word ≢ []) × (all is_lower w.word ≡ true)
  pub floor_digits : (floor ≢ []) × (all is_digit floor ≡ true)
  pub word_id : w.word_id ≡ atoi id
  pub sorting_floor : w.sorting_floor ≡ atoi floor

skip_while-split :
    (p : ℕ → Bool) (s : Text) → (a : Text) × (s ≡ a ++ skip_while p s) × (all p a ≡ true)
unfolding skip_while
skip_while-split p [] = ([], refl, refl)
skip_while-split p (c ∷ s) =
    let (a, e, h) = skip_while-split p s in
    elim (Bool-cases (p c)) [
      | inl holds ↦ (c ∷ a, rw holds (ap (◌∷◌ c) e), ground arith)
      | inr fails ↦ ([], rw fails refl, refl)
    ]

field-split :
    (p : ℕ → Bool) (s r : Text)
    → field p s ≡ some r
    → (a : Text) × (s ≡ a ++ r) × (a ≢ []) × (all p a ≡ true)
unfolding field
field-split p [] r e = absurd cc
field-split p (c ∷ s) r e = elim (Bool-cases (p c)) [
  | inl holds ↦
      let (a, split, h) = skip_while-split p s in
      let rest : skip_while p s ≡ r = ground arith in
      (c ∷ a, ap (◌∷◌ c) (split ∙ ap (λ t. a ++ t) rest), (λ n. cc), ground arith)
  | inr fails ↦ absurd (ground arith)
]

space-split : (s r : Text) → space s ≡ some r → s ≡ 32 ∷ r
space-split [] r e = absurd cc
space-split (c ∷ s) r e = elim (Bool-cases (c == 32)) [
  | inl holds ↦ let same : c ≡ 32 = ground arith in let rest : s ≡ r = ground arith in cc
  | inr fails ↦ absurd (ground arith)
]

digits-word : (s : Text) → all is_digit s ≡ true → is_word delimiters s ≡ true
digits-word [] h = refl
digits-word (c ∷ s) h = let ih = digits-word s (ground arith) in ground arith

parse_line-fields :
    (id word floor : Text)
    → (id ≢ []) × (all is_digit id ≡ true)
    → (word ≢ []) × (all is_lower word ≡ true)
    → (floor ≢ []) × (all is_digit floor ≡ true)
    → parse_line (id ++ 32 ∷ (word ++ 32 ∷ floor))
      ≡ some (record { word_id = atoi id; word = word; sorting_floor = atoi floor })
unfolding parse_line
parse_line-fields id word floor (ni, di) (nw, lw) (nf, df) =
    let spelled = lower-all (λ c. not (is_any delimiters c)) word (λ c h. ground arith) lw in
    rw
      (
        strtok-word delimiters id 32 (word ++ 32 ∷ floor) ni (digits-word id di) refl,
        strtok-word delimiters word 32 floor nw spelled refl,
        strtok-last delimiters floor nf (digits-word floor df),
      )
      refl

line_fields :
    (line id word floor : Text)
    → line ≡ id ++ 32 ∷ (word ++ 32 ∷ floor)
    → (id ≢ []) × (all is_digit id ≡ true)
    → (word ≢ []) × (all is_lower word ≡ true)
    → (floor ≢ []) × (all is_digit floor ≡ true)
    → (w : LineInput) × (parse_line line ≡ some w) × HasFields line w
line_fields line id word floor e di lw df = (
  record { word_id = atoi id; word = word; sorting_floor = atoi floor },
  ap parse_line e ∙ parse_line-fields id word floor di lw df,
  record {
    id = id;
    floor = floor;
    whole = e;
    id_digits = di;
    word_lower = lw;
    floor_digits = df;
    word_id = refl;
    sorting_floor = refl;
  },
)

is_end-nil : (s : Text) → is_end s ≡ true → s ≡ []
is_end-nil [] h = refl
is_end-nil (c ∷ s) h = absurd cc

-- The fields of a line that the test accepts.
pub parse_line-valid :
    (line : Text)
    → is_valid_line line ≡ true
    → (w : LineInput) × (parse_line line ≡ some w) × HasFields line w
unfolding is_valid_line
parse_line-valid line h = elim (Option-cases (field is_digit line)) [
  | inl n ↦ absurd (ground arith)
  | inr (a, ea) ↦ elim (Option-cases (space a)) [
    | inl n ↦ absurd (ground arith)
    | inr (b, eb) ↦ elim (Option-cases (field is_lower b)) [
      | inl n ↦ absurd (ground arith)
      | inr (c, ec) ↦ elim (Option-cases (space c)) [
        | inl n ↦ absurd (ground arith)
        | inr (d, ed) ↦ elim (Option-cases (field is_digit d)) [
          | inl n ↦ absurd (ground arith)
          | inr (r, er) ↦
              let (id, whole, named, digits) = field-split is_digit line a ea in
              let (word, behind, spelled, lower) = field-split is_lower b c ec in
              let (floor, last, floored, numbers) = field-split is_digit d r er in
              let ended = is_end-nil r (ground arith) in
              let first = space-split a b eb in
              let second = space-split c d ed in
              line_fields line id word floor (cc (append-nil floor)) (named, digits)
                (spelled, lower) (floored, numbers)
        ]
      ]
    ]
  ]
]

HasFields-valid : (line : Text) (w : LineInput) → HasFields line w → is_valid_line line ≡ true
HasFields-valid line w v =
    ap is_valid_line v.whole
    ∙ is_valid_line-fields v.id w.word v.floor v.id_digits v.word_lower v.floor_digits

HasFields-not_end : (line : Text) (w : LineInput) → HasFields line w → is_end line ≡ false
unfolding is_valid_line field
HasFields-not_end [] w v = let valid = HasFields-valid [] w v in absurd cc
HasFields-not_end (c ∷ line) w v = refl

-- Line by line, the words are the fields of the lines.
abbrev pub AllFields : List Text → List LineInput → Type 0
AllFields [] [] = Unit
AllFields [] (w ∷ words) = ⊥
AllFields (raw ∷ lines) [] = ⊥
AllFields (raw ∷ lines) (w ∷ words) = HasFields (trim_newline raw) w × AllFields lines words

-- What `read_input` may do on those lines.
abbrev pub Outcome : List Text → Reading → Type 0
Outcome lines exits = (words : List LineInput) → AllFields lines words → ⊥
Outcome lines null_read = ⊥
Outcome lines (reads words) = AllFields lines words

-- A line that is taken goes before the rest.
taken-Outcome :
    (raw : Text) (lines : List Text) (w : LineInput) (rest : Reading)
    → HasFields (trim_newline raw) w
    → Outcome lines rest
    → Outcome
        (raw ∷ lines)
        (elim rest [ exits ↦ exits | null_read ↦ null_read | reads words ↦ reads (w ∷ words) ])
taken-Outcome raw lines w exits v o = λ words f.
    elim words as (λ x. AllFields (raw ∷ lines) x → ⊥) [ [] ↦ λ g. g | w' ∷ rest ↦ λ g. o rest g.1 ]
      f
taken-Outcome raw lines w null_read v o = o
taken-Outcome raw lines w (reads words) v o = (v, o)

refused-Outcome :
    (raw : Text) (lines : List Text) (words : List LineInput)
    → (is_end (trim_newline raw) || not (is_valid_line (trim_newline raw))) ≡ true
    → AllFields (raw ∷ lines) words
    → ⊥
refused-Outcome raw lines [] h f = f
refused-Outcome raw lines (w ∷ words) h f =
    let valid = HasFields-valid (trim_newline raw) w f.0 in
    let some_text = HasFields-not_end (trim_newline raw) w f.0 in ground arith

-- `read_input` never reads a NULL token. It exits only if some line is not, but for its end,
-- `id word floor` with digits, lowercase letters and digits between single spaces; otherwise it
-- returns the fields of every line, in the order of the file.
pub read_input-Outcome : (lines : List Text) → Outcome lines (read_input lines)
unfolding read_input
read_input-Outcome [] = tt
read_input-Outcome (raw ∷ lines) =
    let line = trim_newline raw in
    elim (Bool-cases (is_end line || not (is_valid_line line))) [
      | inl refused ↦ rw refused (λ words f. refused-Outcome raw lines words refused f)
      | inr taken ↦
          let (w, e, v) = parse_line-valid line (ground arith) in
          rw (taken, e) (taken-Outcome raw lines w (read_input lines) v (read_input-Outcome lines))
    ]
