-- ===== src/Logs/Args.antt =====
-- HW4/inc/parser.h, HW4/src/parser/parser.c and HW4/src/parser/parser_files.c: the options. `getopt`
-- is given by the list of what it returns; `readable` is `access (path, R_OK) == 0`, and `files`
-- what `fopen` opens. Allocations succeed.
pub mod Bounds
pub mod RoundTrip
use gtu_cse344_systems_progr.Common.{
  ℕ, zero, suc, ◌+◌, List, [], ◌∷◌, ◌++◌, Bool, true, false, Option, none, some, ltb, leb, ◌==◌,
  ◌&&◌, ◌||◌, not, if◌then◌else◌, ◌>>=◌, ◌>>◌, guard, length, ℤ, pos, negsuc,
}
use gtu_cse344_systems_progr.Libc.{Text, codes, atoi, fgets, c_string, cut_line_end, strtok}

abbrev pub max_keywords : ℕ
max_keywords = 8

abbrev pub max_files : ℕ
max_files = 128

abbrev pub max_sources : ℕ
max_sources = 128

pub data ArgOption : Type 0 where
  opt_c opt_f opt_k opt_t opt_w opt_a opt_b opt_d opt_upper_t opt_o opt_upper_o : Text → ArgOption
  unknown : ArgOption

-- The fields that `parse_args` sets.
pub record Args : Type 0 where
  pub config_file : Option Text
  pub filter_file : Option Text
  pub output_txt : Option Text
  pub output_bin : Option Text
  pub keywords_raw : Option Text
  pub reader_threads : ℤ
  pub worker_threads : ℤ
  pub cap_a : ℤ
  pub cap_b : ℤ
  pub cap_d : ℤ
  pub timeout : ℤ

abbrev pub init_args : Args
init_args = record {
  config_file = none;
  filter_file = none;
  output_txt = none;
  output_bin = none;
  keywords_raw = none;
  reader_threads = pos 0;
  worker_threads = pos 0;
  cap_a = pos 0;
  cap_b = pos 0;
  cap_d = pos 0;
  timeout = pos 10;
}

-- The loop of `parse_args`; `none` is the return value 0.
unfoldable pub parse_args : List ArgOption → Args → Option Args
unfolding atoi
parse_args [] arg = some arg
parse_args (opt_c s ∷ opts) arg = parse_args opts (record arg { config_file = some s })
parse_args (opt_f s ∷ opts) arg = parse_args opts (record arg { filter_file = some s })
parse_args (opt_k s ∷ opts) arg = parse_args opts (record arg { keywords_raw = some s })
parse_args (opt_t s ∷ opts) arg = parse_args opts (record arg { reader_threads = atoi s })
parse_args (opt_w s ∷ opts) arg = parse_args opts (record arg { worker_threads = atoi s })
parse_args (opt_a s ∷ opts) arg = parse_args opts (record arg { cap_a = atoi s })
parse_args (opt_b s ∷ opts) arg = parse_args opts (record arg { cap_b = atoi s })
parse_args (opt_d s ∷ opts) arg = parse_args opts (record arg { cap_d = atoi s })
parse_args (opt_upper_t s ∷ opts) arg = parse_args opts (record arg { timeout = atoi s })
parse_args (opt_o s ∷ opts) arg = parse_args opts (record arg { output_txt = some s })
parse_args (opt_upper_o s ∷ opts) arg = parse_args opts (record arg { output_bin = some s })
parse_args (unknown ∷ opts) arg = none

-- The number, unless it is below `n`.
abbrev pub at_least : ℕ → ℤ → Option ℕ
at_least n (pos m) = if ltb m n then none else some m
at_least n (negsuc m) = none

-- The options that `validate_args` has checked.
pub record Checked : Type 0 where
  pub config_file : Text
  pub filter_file : Text
  pub output_txt : Text
  pub output_bin : Text
  pub keywords_raw : Text
  pub reader_threads : ℕ
  pub worker_threads : ℕ
  pub cap_a : ℕ
  pub cap_b : ℕ
  pub cap_d : ℕ
  pub timeout : ℕ

unfoldable pub validate_args : (Text → Bool) → Args → Option Checked
validate_args readable arg = do
  config_file ← arg.config_file
  filter_file ← arg.filter_file
  keywords_raw ← arg.keywords_raw
  output_txt ← arg.output_txt
  output_bin ← arg.output_bin
  reader_threads ← at_least 1 arg.reader_threads
  worker_threads ← at_least 1 arg.worker_threads
  guard (leb worker_threads 64)
  cap_a ← at_least 4 arg.cap_a
  cap_b ← at_least 4 arg.cap_b
  cap_d ← at_least 2 arg.cap_d
  timeout ← at_least 1 arg.timeout
  guard (readable config_file)
  guard (readable filter_file)
  some (record {
    config_file = config_file;
    filter_file = filter_file;
    output_txt = output_txt;
    output_bin = output_bin;
    keywords_raw = keywords_raw;
    reader_threads = reader_threads;
    worker_threads = worker_threads;
    cap_a = cap_a;
    cap_b = cap_b;
    cap_d = cap_d;
    timeout = timeout;
  })

-- The loop of `parse_keywords` with `i` keywords so far; `none` is the return value 0.
unfoldable pub keyword_loop : ℕ → ℕ → Text → Option (List Text)
unfolding strtok
keyword_loop zero i copy = none
keyword_loop (suc fuel) i copy = elim (strtok (codes ",") copy) [
  | none ↦ some []
  | some (token, rest) ↦ elim (leb max_keywords i) [
    | true ↦ none
    | false ↦ elim token [
      | [] ↦ none
      | c ∷ w ↦ elim (keyword_loop fuel (i + 1) rest) [
        | none ↦ none
        | some ks ↦ some ((c ∷ w) ∷ ks)
      ]
    ]
  ]
]

unfoldable pub parse_keywords : Text → Option (List Text)
unfolding keyword_loop
parse_keywords raw = elim (keyword_loop (length raw + 1) 0 raw) [
  | none ↦ none
  | some [] ↦ none
  | some (k ∷ ks) ↦ some (k ∷ ks)
]

-- The loop of `parse_config_file` and of `priority_parser` with `i` lines so far, of at most `max`.
pub name_loop : ℕ → ℕ → ℕ → List ℕ → Option (List Text)
name_loop zero max i file = none
name_loop (suc fuel) max i file = elim (fgets 1024 file) [
  | none ↦ some []
  | some (raw, rest) ↦ elim (cut_line_end (c_string raw)) [
    | [] ↦ name_loop fuel max i rest
    | c ∷ s ↦ elim (leb max i) [
      | true ↦ none
      | false ↦ elim (name_loop fuel max (i + 1) rest) [
        | none ↦ none
        | some ls ↦ some ((c ∷ s) ∷ ls)
      ]
    ]
  ]
]

abbrev pub non_empty : Option (List Text) → Option (List Text)
non_empty none = none
non_empty (some []) = none
non_empty (some (l ∷ ls)) = some (l ∷ ls)

unfoldable pub parse_config_file : Option (List ℕ) → Option (List Text)
unfolding name_loop fgets c_string cut_line_end
parse_config_file none = none
parse_config_file (some file) = non_empty (name_loop (length file + 1) max_files 0 file)

unfoldable pub priority_parser : Option (List ℕ) → Option (List Text)
unfolding name_loop fgets c_string cut_line_end
priority_parser none = none
priority_parser (some file) = name_loop (length file + 1) max_sources 0 file

-- What `start_parsing` gives to the rest of the program.
pub record Parsed : Type 0 where
  pub checked : Checked
  pub keywords : List Text
  pub log_files : List Text
  pub priority_sources : List Text

unfoldable pub start_parsing :
    (Text → Bool) → (Text → Option (List ℕ)) → List ArgOption → Option Parsed
unfolding parse_args validate_args parse_keywords parse_config_file priority_parser
start_parsing readable files opts = do
  arg ← parse_args opts init_args
  checked ← validate_args readable arg
  keywords ← parse_keywords checked.keywords_raw
  log_files ← parse_config_file (files checked.config_file)
  priority_sources ← priority_parser (files checked.filter_file)
  some (record {
    checked = checked;
    keywords = keywords;
    log_files = log_files;
    priority_sources = priority_sources;
  })
