-- ===== src/Search/Walk.antt =====
-- HW1/src/compare.c, the criteria; HW1/src/search_directory.c and HW1/src/print_tree.c, the walk
-- through the directories, which prints the ancestors of a match when it finds the first below them.
pub mod Shows
pub mod Kept
pub mod Stopped
use gtu_cse344_systems_progr.Common.{
  ℕ, ◌+◌, ◌/◌, ◌%◌, List, [], ◌∷◌, ◌++◌, Bool, true, false, Option, none, some, ◌==◌, ◌&&◌, ◌||◌,
  not, if◌then◌else◌, leb, length,
}
use gtu_cse344_systems_progr.Libc.{Text, codes, strcmp_eq}
use gtu_cse344_systems_progr.Search.Pattern.{regex_match}

-- The type of a file in `st_mode`.
pub data Kind : Type 0 where
  directory : Kind
  regular : Kind
  link : Kind
  block : Kind
  character : Kind
  fifo : Kind
  socket : Kind

-- What the search reads of `struct stat`; `bits` are the permission bits of `st_mode`.
pub record Stat : Type 0 where
  pub kind : Kind
  pub bits : ℕ
  pub size : ℕ
  pub nlink : ℕ

-- `t_file`, without `target_dir`; `none` is -1 or NULL.
pub record Criteria : Type 0 where
  pub link_count : Option ℕ
  pub file_size : Option ℕ
  pub filename : Option Text
  pub file_type : Option Text
  pub permissions : Option Text

abbrev pub bit_char : ℕ → ℕ → ℕ → ℕ
bit_char bits place c = if (bits / place) % 2 == 1 then c else b'-'

-- `mode_to_permission_string`
unfoldable pub mode_to_permission_string : ℕ → Text
mode_to_permission_string bits =
    bit_char bits 256 b'r'
    ∷ bit_char bits 128 b'w'
    ∷ bit_char bits 64 b'x'
    ∷ bit_char bits 32 b'r'
    ∷ bit_char bits 16 b'w'
    ∷ bit_char bits 8 b'x'
    ∷ bit_char bits 4 b'r'
    ∷ bit_char bits 2 b'w'
    ∷ bit_char bits 1 b'x'
    ∷ []

-- The letter of `-t` for a type.
abbrev pub kind_char : Kind → ℕ
kind_char directory = b'd'
kind_char regular = b'f'
kind_char link = b'l'
kind_char block = b'b'
kind_char character = b'c'
kind_char fifo = b'p'
kind_char socket = b's'

abbrev pub is_kind_char : ℕ → Bool
is_kind_char c =
    c == b'd'
    || (c == b'f' || (c == b'l' || (c == b'b' || (c == b'c' || (c == b'p' || c == b's')))))

-- `is_correct_type`: a letter that is none of the seven refuses nothing.
unfoldable pub is_correct_type : ℕ → Kind → Bool
is_correct_type type kind = if is_kind_char type then type == kind_char kind else true

-- The first byte of a text.
abbrev pub first_char : Text → ℕ
first_char [] = 0
first_char (c ∷ s) = c

-- A criterion that is not given is met.
abbrev pub meets {ℓ} : {A : Type ℓ} → (A → Bool) → Option A → Bool
meets test none = true
meets test (some a) = test a

-- `compare`
unfoldable pub compare : Criteria → Text → Stat → Bool
unfolding mode_to_permission_string is_correct_type
compare criteria name st =
    meets (λ p. regex_match p name) criteria.filename
    && (meets (λ n. st.size == n) criteria.file_size
        && (meets (λ n. st.nlink == n) criteria.link_count
            && (meets (λ t. is_correct_type (first_char t) st.kind) criteria.file_type
                && meets (λ p. strcmp_eq p (mode_to_permission_string st.bits))
                    criteria.permissions)))

-- What `readdir` gives: for an entry its name, what `lstat` says (`none`: it fails), and for a
-- directory whether `opendir` opens it and what it holds.
pub data Listing : Type 0 where
  nil : Listing
  entry : Text → Option Stat → Bool → Listing → Listing → Listing

-- What `print_tree` prints: a name, its depth, and whether it is a directory.
pub record Line : Type 0 where
  pub name : Text
  pub depth : ℕ
  pub is_dir : Bool

-- `t_path_info`; the list that holds it has its parents behind it.
pub record PathInfo : Type 0 where
  pub name : Text
  pub depth : ℕ
  pub printed : Bool

-- The messages on stderr.
pub data Message : Type 0 where
  not_opened : Message
  lstat_failed : Message

-- `checks` counts how often `g_stop_requested` was read; `overflown` says that a path was longer than
-- `full_path` holds, and nothing is known then.
pub record Walk : Type 0 where
  pub infos : List PathInfo
  pub found_count : ℕ
  pub lines : List Line
  pub messages : List Message
  pub checks : ℕ
  pub overflown : Bool

abbrev pub full_path_size : ℕ
full_path_size = 1024

-- `print_path`: the lines, and the infos as printed.
unfoldable pub print_path : List PathInfo → List Line × List PathInfo
print_path [] = ([], [])
print_path (p ∷ parents) =
    let (above, marked) = print_path parents in
    if p.printed then ([], p ∷ parents) else (
      above ++ record { name = p.name; depth = p.depth; is_dir = true } ∷ [],
      record p { printed = true } ∷ marked,
    )

abbrev pub is_directory : Kind → Bool
is_directory kind = kind_char kind == b'd'

unfoldable pub is_dots : Text → Bool
is_dots name = strcmp_eq name (codes ".") || strcmp_eq name (codes "..")

abbrev pub tick : Walk → Walk
tick w = record w { checks = w.checks + 1 }

abbrev pub tell : Message → Walk → Walk
tell m w = record w { messages = w.messages ++ m ∷ [] }

-- `full_path` for an entry below a path of that length.
abbrev pub join_path : ℕ → Text → Walk → Walk
join_path path name w = record w {
  overflown = w.overflown || leb full_path_size (path + 1 + length name);
}

-- A match is counted and printed, below its ancestors.
unfoldable pub print_match : Line → Walk → Walk
unfolding print_path
print_match l w =
    let (above, marked) = print_path w.infos in
    record w {
      infos = marked;
      found_count = w.found_count + 1;
      lines = w.lines ++ (above ++ l ∷ []);
    }

abbrev pub push_info : PathInfo → Walk → Walk
push_info info w = record w { infos = info ∷ w.infos }

abbrev pub tail_of : List PathInfo → List PathInfo
tail_of [] = []
tail_of (p ∷ infos) = infos

abbrev pub pop_info : Walk → Walk
pop_info w = record w { infos = tail_of w.infos }

-- A call of `search_directory_internal`; `loop` is its loop over the entries.
unfoldable pub open_directory : (ℕ → Bool) → Bool → (Walk → Walk) → Walk → Walk
open_directory stop opens loop w =
    if stop w.checks
    then tick w
    else if opens
    then loop (tick w)
    else if stop (w.checks + 1)
    then tick (tick w)
    else tell not_opened (tick (tick w))

-- What the loop does with an entry that is a directory, after it was compared.
unfoldable pub descend : (ℕ → Bool) → Bool → (Walk → Walk) → (Walk → Walk) → PathInfo → Walk → Walk
unfolding open_directory
descend stop opens loop next info w =
    let back = pop_info (open_directory stop opens loop (push_info info w)) in
    if stop back.checks then tick back else next (tick back)

-- An entry after it was compared.
unfoldable pub after_compare :
    (ℕ → Bool) → ℕ → Text → Bool → Bool → Bool → (Walk → Walk) → (Walk → Walk) → Walk → Walk
unfolding print_match descend
after_compare stop depth name matched is_dir opens loop next w =
    let l : Line = record { name = name; depth = depth + 1; is_dir = is_dir } in
    let seen = if matched then print_match l w else w in
    let info : PathInfo = record { name = name; depth = depth + 1; printed = matched } in
    if is_dir then descend stop opens loop next info seen else next seen

-- The loop of `search_directory_internal`; `stop k` is what the read number `k` of `g_stop_requested`
-- gives, and `path` the length of `curr_path`.
unfoldable pub search_loop : (ℕ → Bool) → Criteria → ℕ → ℕ → Listing → Walk → Walk
unfolding compare is_dots after_compare
search_loop stop criteria path depth nil w = tick w
search_loop stop criteria path depth (entry name st opens below rest) w =
    let next = search_loop stop criteria path depth rest in
    let loop = search_loop stop criteria (path + 1 + length name) (depth + 1) below in
    let joined = join_path path name (tick w) in
    if stop w.checks then tick w else if is_dots name then next (tick w) else elim st [
      | none ↦
          if stop (w.checks + 1) then next (tick joined) else next (tell lstat_failed (tick joined))
      | some s ↦
          if stop (w.checks + 1)
          then tick joined
          else after_compare stop depth name (compare criteria name s) (is_directory s.kind) opens
              loop next (tick joined)
    ]

abbrev pub new_walk : Walk
new_walk = record {
  infos = [];
  found_count = 0;
  lines = [];
  messages = [];
  checks = 0;
  overflown = false;
}

-- `search_directory` on a target of that length.
unfoldable pub search_directory : (ℕ → Bool) → Criteria → ℕ → Bool → Listing → Walk
unfolding open_directory search_loop
search_directory stop criteria path opens listing =
    open_directory stop opens (search_loop stop criteria path 0 listing) new_walk
