-- ===== src/Logs/Args/Bounds.antt =====
-- What the rest of the program may rely on after `start_parsing`.
use gtu_cse344_systems_progr.Common.{
  ℕ, zero, suc, ◌+◌, ◌≤◌, ◌≡◌, ◌≢◌, refl, ap, List, [], ◌∷◌, Bool, Option, none, some, leb, guard,
  length, All, ℤ, pos, negsuc, >>=-eq-some, eq_of_some, guard-true, Bool-cases, Option-cases, inl,
  inr, arith, ◌⊎◌,
}
use mathlib.Core.Path.{subst}
use gtu_cse344_systems_progr.Libc.{Text, codes, strtok, fgets, c_string, cut_line_end}
use gtu_cse344_systems_progr.Logs.Args.{
  max_keywords, max_files, max_sources, ArgOption, Args, init_args, parse_args, at_least, Checked,
  validate_args, keyword_loop, parse_keywords, name_loop, parse_config_file, priority_parser,
  Parsed, start_parsing,
}

abbrev pub IsName : Text → Type 0
IsName s = s ≢ []

-- At most `max` names, none of them empty.
pub record AreNames (max : ℕ) (names : List Text) : Type 0 where
  pub few : length names ≤ max
  pub all_names : All IsName names

Text-cases : (s : Text) → (s ≡ []) ⊎ ((c : ℕ) × (r : Text) × (s ≡ c ∷ r))
Text-cases [] = inl refl
Text-cases (c ∷ r) = inr (c, r, refl)

at_least-le : (n : ℕ) (v : ℤ) (m : ℕ) → at_least n v ≡ some m → n ≤ m
at_least-le n (pos k) m e = ground arith
at_least-le n (negsuc k) m e = cc

keyword_loop-AreNames :
    (fuel i : ℕ) (copy : Text) (ks : List Text)
    → i ≤ max_keywords
    → keyword_loop fuel i copy ≡ some ks
    → (i + length ks ≤ max_keywords) × All IsName ks
unfolding keyword_loop
keyword_loop-AreNames zero i copy ks h e = cc
keyword_loop-AreNames (suc fuel) i copy ks h e = elim (Option-cases (strtok (codes ",") copy)) [
  | inl n ↦
      let same : [] ≡ ks = ground arith in
      (omega (arith, ap length same), subst (All IsName) same tt)
  | inr (([], rest), t) ↦ ground arith
  | inr ((c ∷ w, rest), t) ↦ elim (Bool-cases (leb max_keywords i)) [
    | inl many ↦ ground arith
    | inr few ↦ elim (Option-cases (keyword_loop fuel (i + 1) rest)) [
      | inl n ↦ ground arith
      | inr (more, r) ↦
          let same : (c ∷ w) ∷ more ≡ ks = ground arith in
          let (fit, named) = keyword_loop-AreNames fuel (i + 1) rest more (ground arith) r in
          (omega (arith, ap length same), subst (All IsName) same (cc, named))
    ]
  ]
]

name_loop-AreNames :
    (fuel max i : ℕ) (file : List ℕ) (ls : List Text)
    → i ≤ max
    → name_loop fuel max i file ≡ some ls
    → (i + length ls ≤ max) × All IsName ls
unfolding name_loop
name_loop-AreNames zero max i file ls h e = cc
name_loop-AreNames (suc fuel) max i file ls h e = elim (Option-cases (fgets 1024 file)) [
  | inl n ↦
      let same : [] ≡ ls = ground arith in
      (omega (arith, ap length same), subst (All IsName) same tt)
  | inr ((raw, rest), t) ↦ elim (Text-cases (cut_line_end (c_string raw))) [
    | inl blank ↦ name_loop-AreNames fuel max i rest ls h (ground arith)
    | inr (c, s, line) ↦ elim (Bool-cases (leb max i)) [
      | inl many ↦ ground arith
      | inr few ↦ elim (Option-cases (name_loop fuel max (i + 1) rest)) [
        | inl n ↦ ground arith
        | inr (more, r) ↦
            let same : (c ∷ s) ∷ more ≡ ls = ground arith in
            let (fit, named) = name_loop-AreNames fuel max (i + 1) rest more (ground arith) r in
            (omega (arith, ap length same), subst (All IsName) same (cc, named))
      ]
    ]
  ]
]

parse_keywords-AreNames :
    (raw : Text) (ks : List Text)
    → parse_keywords raw ≡ some ks
    → (1 ≤ length ks) × AreNames max_keywords ks
unfolding parse_keywords
parse_keywords-AreNames raw ks e = elim (Option-cases (keyword_loop (length raw + 1) 0 raw)) [
  | inl n ↦ ground arith
  | inr ([], r) ↦ ground arith
  | inr (k ∷ more, r) ↦
      let same : k ∷ more ≡ ks = ground arith in
      let (fit, named) = keyword_loop-AreNames (length raw + 1) 0 raw (k ∷ more) (omega arith) r in
      (
        omega (arith, ap length same),
        subst (AreNames max_keywords) same (record { few = omega arith; all_names = named }),
      )
]

parse_config_file-AreNames :
    (file : Option (List ℕ)) (ls : List Text)
    → parse_config_file file ≡ some ls
    → (1 ≤ length ls) × AreNames max_files ls
unfolding parse_config_file
parse_config_file-AreNames none ls e = cc
parse_config_file-AreNames (some file) ls e =
    elim (Option-cases (name_loop (length file + 1) max_files 0 file)) [
      | inl n ↦ ground arith
      | inr ([], r) ↦ ground arith
      | inr (k ∷ more, r) ↦
          let same : k ∷ more ≡ ls = ground arith in
          let (fit, named) =
            name_loop-AreNames (length file + 1) max_files 0 file (k ∷ more) (omega arith) r in
          (
            omega (arith, ap length same),
            subst (AreNames max_files) same (record { few = omega arith; all_names = named }),
          )
    ]

priority_parser-AreNames :
    (file : Option (List ℕ)) (ls : List Text)
    → priority_parser file ≡ some ls
    → AreNames max_sources ls
unfolding priority_parser
priority_parser-AreNames none ls e = cc
priority_parser-AreNames (some file) ls e =
    let (fit, named) = name_loop-AreNames (length file + 1) max_sources 0 file ls (omega arith) e in
    record { few = omega arith; all_names = named }

pub record IsChecked (c : Checked) : Type 0 where
  pub readers : 1 ≤ c.reader_threads
  pub workers : 1 ≤ c.worker_threads
  pub workers_fit : c.worker_threads ≤ 64
  pub room_a : 4 ≤ c.cap_a
  pub room_b : 4 ≤ c.cap_b
  pub room_d : 2 ≤ c.cap_d
  pub waits : 1 ≤ c.timeout

pub record IsParsed (p : Parsed) : Type 0 where
  pub checked : IsChecked p.checked
  pub some_keyword : 1 ≤ length p.keywords
  pub keywords : AreNames max_keywords p.keywords
  pub some_file : 1 ≤ length p.log_files
  pub files : AreNames max_files p.log_files
  pub sources : AreNames max_sources p.priority_sources

validate_args-IsChecked :
    (readable : Text → Bool) (arg : Args) (c : Checked)
    → validate_args readable arg ≡ some c
    → IsChecked c
unfolding validate_args
validate_args-IsChecked readable arg c e =
    let (config, h1, e1) = >>=-eq-some arg.config_file _ e in
    let (filter, h2, e2) = >>=-eq-some arg.filter_file _ e1 in
    let (raw, h3, e3) = >>=-eq-some arg.keywords_raw _ e2 in
    let (txt, h4, e4) = >>=-eq-some arg.output_txt _ e3 in
    let (bin, h5, e5) = >>=-eq-some arg.output_bin _ e4 in
    let (readers, h6, e6) = >>=-eq-some (at_least 1 arg.reader_threads) _ e5 in
    let (workers, h7, e7) = >>=-eq-some (at_least 1 arg.worker_threads) _ e6 in
    let (u, h8, e8) = >>=-eq-some (guard (leb workers 64)) _ e7 in
    let (a, h9, e9) = >>=-eq-some (at_least 4 arg.cap_a) _ e8 in
    let (b, h10, e10) = >>=-eq-some (at_least 4 arg.cap_b) _ e9 in
    let (d, h11, e11) = >>=-eq-some (at_least 2 arg.cap_d) _ e10 in
    let (time, h12, e12) = >>=-eq-some (at_least 1 arg.timeout) _ e11 in
    let (v, h13, e13) = >>=-eq-some (guard (readable config)) _ e12 in
    let (w, h14, e14) = >>=-eq-some (guard (readable filter)) _ e13 in
    subst IsChecked (eq_of_some _ c e14) (record {
      readers = at_least-le 1 arg.reader_threads readers h6;
      workers = at_least-le 1 arg.worker_threads workers h7;
      workers_fit = ground (arith, guard-true (leb workers 64) u h8);
      room_a = at_least-le 4 arg.cap_a a h9;
      room_b = at_least-le 4 arg.cap_b b h10;
      room_d = at_least-le 2 arg.cap_d d h11;
      waits = at_least-le 1 arg.timeout time h12;
    })

-- After a successful `start_parsing` there are 1 to 64 worker threads, at least one reader thread,
-- rings of at least 4, 4 and 2 entries, a time-out of at least a second, 1 to 8 keywords, 1 to 128
-- log files and at most 128 priority sources, and no keyword, file or source is empty.
pub start_parsing-IsParsed :
    (readable : Text → Bool) (files : Text → Option (List ℕ)) (opts : List ArgOption) (p : Parsed)
    → start_parsing readable files opts ≡ some p
    → IsParsed p
unfolding start_parsing
start_parsing-IsParsed readable files opts p e =
    let (arg, h1, e1) = >>=-eq-some (parse_args opts init_args) _ e in
    let (c, h2, e2) = >>=-eq-some (validate_args readable arg) _ e1 in
    let (ks, h3, e3) = >>=-eq-some (parse_keywords c.keywords_raw) _ e2 in
    let (ls, h4, e4) = >>=-eq-some (parse_config_file (files c.config_file)) _ e3 in
    let (ps, h5, e5) = >>=-eq-some (priority_parser (files c.filter_file)) _ e4 in
    let (some_keyword, keywords) = parse_keywords-AreNames c.keywords_raw ks h3 in
    let (some_file, log_files) = parse_config_file-AreNames (files c.config_file) ls h4 in
    subst IsParsed (eq_of_some _ p e5) (record {
      checked = validate_args-IsChecked readable arg c h2;
      some_keyword = some_keyword;
      keywords = keywords;
      some_file = some_file;
      files = log_files;
      sources = priority_parser-AreNames (files c.filter_file) ps h5;
    })
