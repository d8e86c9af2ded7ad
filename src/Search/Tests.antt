-- ===== src/Search/Tests.antt =====
-- Patterns, and the search of a small tree.
use gtu_cse344_systems_progr.Common.{
  ℕ, ◌≡◌, ◌↔◌, refl, List, [], ◌∷◌, Bool, true, false, none, some, leb, arith,
}
use gtu_cse344_systems_progr.Libc.{codes, strcmp_eq}
use gtu_cse344_systems_progr.Search.Pattern.{regex_match, regex}
use gtu_cse344_systems_progr.Search.Pattern.Match.{items, Matches, Contains, regex_match_lem}
use gtu_cse344_systems_progr.Search.Walk.{
  Stat, directory, regular, Criteria, mode_to_permission_string, is_correct_type, Listing, nil,
  entry, Line, search_directory, lstat_failed,
}
use gtu_cse344_systems_progr.Search.Walk.Kept.{kept, matches, search_directory-kept}
use gtu_cse344_systems_progr.Search.Walk.Stopped.{never, Stays, IsPrefix, search_directory-prefix}

matches_plus : regex_match (codes "lo+g") (codes "LOOOG") ≡ true
unfolding regex_match
matches_plus = refl

matches_whole_only : regex_match (codes "lo+g") (codes "log.txt") ≡ false
unfolding regex_match
matches_whole_only = refl

finds_part : regex (codes "lo+g") (codes "my_log.txt") ≡ true
unfolding regex
finds_part = refl

-- The bytes of a letter in UTF-8 do not match themselves.
no_utf_8 : regex_match (195 ∷ 167 ∷ []) (195 ∷ 167 ∷ []) ≡ false
unfolding regex_match
no_utf_8 = refl

regex_match_lem_example :
    ((regex_match (codes "lo+g") (codes "LOOOG") ≡ true)
      ↔ Matches (items (codes "lo+g")) (codes "LOOOG") [])
    × ((regex (codes "lo+g") (codes "LOOOG") ≡ true) ↔ Contains (codes "lo+g") (codes "LOOOG"))
regex_match_lem_example = regex_match_lem (codes "lo+g") (codes "LOOOG")

permissions_text : mode_to_permission_string 420 ≡ codes "rw-r--r--"
unfolding mode_to_permission_string
permissions_text = refl

type_x : is_correct_type b'x' directory ≡ true
unfolding is_correct_type
type_x = refl

abbrev a_file : Stat
a_file = record { kind = regular; bits = 420; size = 7; nlink = 1 }

abbrev a_directory : Stat
a_directory = record { kind = directory; bits = 493; size = 4096; nlink = 2 }

-- `src/` with `log.c` and an unreadable entry, and `doc/` with nothing that matches.
abbrev some_tree : Listing
some_tree = entry (codes ".") (some a_directory) true nil (
    entry (codes "doc") (some a_directory) true (entry (codes "notes") (some a_file) false nil nil)
      (entry (codes "src") (some a_directory) true
        (entry (codes "gone") none false nil (entry (codes "log.c") (some a_file) false nil nil))
        nil))

abbrev some_criteria : Criteria
some_criteria = record {
  link_count = none;
  file_size = some 7;
  filename = some (codes "lo+g.c");
  file_type = none;
  permissions = none;
}

abbrev some_lines : List Line
some_lines =
    record { name = codes "src"; depth = 1; is_dir = true }
    ∷ record { name = codes "log.c"; depth = 2; is_dir = false }
    ∷ []

prints_src : (search_directory never some_criteria 4 true some_tree).lines ≡ some_lines
unfolding search_directory strcmp_eq regex_match
prints_src = refl

tells_gone : (search_directory never some_criteria 4 true some_tree).messages ≡ lstat_failed ∷ []
unfolding search_directory strcmp_eq regex_match
tells_gone = refl

search_directory-kept_example :
    let w = search_directory never some_criteria 4 true some_tree in
    (w.lines ≡ kept some_criteria 0 some_tree) × (w.found_count ≡ matches some_criteria some_tree)
unfolding search_directory strcmp_eq regex_match
search_directory-kept_example =
    search_directory-kept never some_criteria 4 some_tree (λ k. refl) refl

abbrev any_criteria : Criteria
any_criteria = record {
  link_count = none;
  file_size = none;
  filename = none;
  file_type = none;
  permissions = none;
}

-- Ctrl-C comes before the check number 4.
abbrev late : ℕ → Bool
late k = leb 4 k

late-Stays : Stays late
late-Stays k h = ground arith

stops_in_doc :
    (search_directory late any_criteria 4 true some_tree).lines
    ≡ record { name = codes "doc"; depth = 1; is_dir = true } ∷ []
unfolding search_directory strcmp_eq
stops_in_doc = refl

search_directory-prefix_example :
    IsPrefix
      (search_directory late any_criteria 4 true some_tree).lines
      (kept any_criteria 0 some_tree)
unfolding search_directory strcmp_eq
search_directory-prefix_example =
    search_directory-prefix late any_criteria 4 some_tree late-Stays refl
