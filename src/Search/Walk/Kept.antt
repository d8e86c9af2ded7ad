-- ===== src/Search/Walk/Kept.antt =====
-- What an undisturbed search prints: the part of the tree that leads to the matches.
use gtu_cse344_systems_progr.Common.{
  ℕ, ◌+◌, ◌≡◌, refl, ◌∙◌, List, [], ◌∷◌, ◌++◌, Bool, true, false, none, some, ◌&&◌, if◌then◌else◌,
  Bool-cases, inl, inr, arith, length,
}
use gtu_cse344_systems_progr.Libc.{Text}
use gtu_cse344_systems_progr.Search.Walk.{
  Criteria, compare, Listing, nil, entry, Line, PathInfo, Walk, print_path, is_directory, is_dots,
  tick, tell, join_path, print_match, open_directory, descend, after_compare, search_loop, new_walk,
  search_directory, lstat_failed,
}
use gtu_cse344_systems_progr.Search.Walk.Shows.{
  own_lines, bit_of, shown, Shows, print_path_twice, Shows-trans, quiet, moved, print_match-Shows,
  descend-Shows,
}

-- The matches of the tree with the directories that lead to them, in the order of the walk.
unfoldable pub kept : Criteria → ℕ → Listing → List Line
kept criteria depth nil = []
kept criteria depth (entry name st opens below rest) =
    let after = kept criteria depth rest in
    let under = kept criteria (depth + 1) below in
    if is_dots name then after else elim st [
      | none ↦ after
      | some s ↦
          let is_dir = is_directory s.kind in
          own_lines (compare criteria name s)
            (record { name = name; depth = depth + 1; is_dir = is_dir })
            (if is_dir && opens then under else [])
          ++ after
    ]

-- The number of matches.
unfoldable pub matches : Criteria → Listing → ℕ
matches criteria nil = 0
matches criteria (entry name st opens below rest) =
    let after = matches criteria rest in
    let under = matches criteria below in
    if is_dots name then after else elim st [
      | none ↦ after
      | some s ↦
          bit_of (compare criteria name s)
          + ((if is_directory s.kind && opens then under else 0) + after)
    ]

recount : (out : List Line) (a b : ℕ) (w v : Walk) → a ≡ b → Shows out a w v → Shows out b w v
recount out a b w v e s = record {
  lines = s.lines;
  infos = s.infos;
  found = omega (arith, s.found, e);
}

module _ (stop : ℕ → Bool) (runs : (k : ℕ) → stop k ≡ false) (depth : ℕ) (name : Text)
    (loop next : Walk → Walk) (under after : List Line) (n m : ℕ)
    (loops : (v : Walk) → Shows under n v (loop v))
    (goes : (v : Walk) → Shows after m v (next v)) where
  -- The lines of the entry and of what comes after it.
  after_compare-Shows :
      (matched is_dir opens : Bool) (w : Walk)
      → Shows
          (own_lines matched
              (record { name = name; depth = depth + 1; is_dir = is_dir })
              (if is_dir && opens then under else [])
            ++ after)
          (bit_of matched + ((if is_dir && opens then n else 0) + m))
          w
          (after_compare stop depth name matched is_dir opens loop next w)
  unfolding after_compare print_match
  after_compare-Shows true true opens w =
      let l : Line = record { name = name; depth = depth + 1; is_dir = true } in
      let seen = print_match l w in
      let out = if opens then under else [] in
      let k = if opens then n else 0 in
      let info : PathInfo = record { name = name; depth = depth + 1; printed = true } in
      Shows-trans (l ∷ []) (out ++ after) 1 (k + m) w seen (descend stop opens loop next info seen)
        (print_match-Shows l w)
        (descend-Shows stop runs (depth + 1) name loop next under after n m loops goes true opens
          seen (λ _. print_path_twice w.infos))
  after_compare-Shows true false opens w =
      let l : Line = record { name = name; depth = depth + 1; is_dir = false } in
      let seen = print_match l w in
      recount (l ∷ after) (1 + m) (1 + (0 + m)) w (next seen) (omega arith)
        (Shows-trans (l ∷ []) after 1 m w seen (next seen) (print_match-Shows l w) (goes seen))
  after_compare-Shows false true opens w =
      let l : Line = record { name = name; depth = depth + 1; is_dir = true } in
      let out = if opens then under else [] in
      let k = if opens then n else 0 in
      let info : PathInfo = record { name = name; depth = depth + 1; printed = false } in
      recount (own_lines false l out ++ after) (k + m) (0 + (k + m)) w
        (descend stop opens loop next info w) (omega arith)
        (descend-Shows stop runs (depth + 1) name loop next under after n m loops goes false opens w
          (λ e. absurd cc))
  after_compare-Shows false false opens w =
      recount after m (0 + (0 + m)) w (next w) (omega arith) (goes w)

pub search_loop-Shows :
    (stop : ℕ → Bool) (criteria : Criteria) (path depth : ℕ) (listing : Listing) (w : Walk)
    → ((k : ℕ) → stop k ≡ false)
    → Shows
        (kept criteria depth listing)
        (matches criteria listing)
        w
        (search_loop stop criteria path depth listing w)
unfolding search_loop kept matches
search_loop-Shows stop criteria path depth nil w runs = quiet w (tick w) refl refl refl
search_loop-Shows stop criteria path depth (entry name none opens below rest) w runs =
    let ih = λ (v : Walk). search_loop-Shows stop criteria path depth rest v runs in
    let out = kept criteria depth rest in
    let n = matches criteria rest in
    elim (Bool-cases (is_dots name)) [
      | inl dots ↦ rw (runs w.checks, dots) (moved w (tick w) _ out n refl refl refl (ih (tick w)))
      | inr real ↦
          let v = tell lstat_failed (tick (join_path path name (tick w))) in
          rw (runs w.checks, real, runs (w.checks + 1)) (moved w v _ out n refl refl refl (ih v))
    ]
search_loop-Shows stop criteria path depth (entry name (some s) opens below rest) w runs =
    let ih = λ (v : Walk). search_loop-Shows stop criteria path depth rest v runs in
    let inner = λ (v : Walk).
      search_loop-Shows stop criteria (path + 1 + length name) (depth + 1) below v runs in
    elim (Bool-cases (is_dots name)) [
      | inl dots ↦ rw (runs w.checks, dots) (moved w (tick w) _ _ _ refl refl refl (ih (tick w)))
      | inr real ↦
          let v = tick (join_path path name (tick w)) in
          rw (runs w.checks, real, runs (w.checks + 1))
            (moved w v _ _ _ refl refl refl (
              after_compare-Shows stop runs depth name
                (search_loop stop criteria (path + 1 + length name) (depth + 1) below)
                (search_loop stop criteria path depth rest) (kept criteria (depth + 1) below)
                (kept criteria depth rest) (matches criteria below) (matches criteria rest) inner ih
                (compare criteria name s) (is_directory s.kind) opens v))
    ]

shown-top : (out : List Line) → (shown [] out).0 ≡ out
unfolding print_path
shown-top [] = refl
shown-top (l ∷ out) = refl

-- A search that Ctrl-C does not stop, and whose paths fit full_path, prints just the matches of the tree and the directories that
-- lead to them, each once, a directory before what is in it, in the order of the directories; and it
-- counts the matches. Below a directory that cannot be opened, and for an entry that lstat fails on,
-- there are none.
pub search_directory-kept :
    (stop : ℕ → Bool) (criteria : Criteria) (path : ℕ) (listing : Listing)
    → ((k : ℕ) → stop k ≡ false)
    → (search_directory stop criteria path true listing).overflown ≡ false
    → let w = search_directory stop criteria path true listing in
      (w.lines ≡ kept criteria 0 listing) × (w.found_count ≡ matches criteria listing)
unfolding search_directory open_directory
search_directory-kept stop criteria path listing runs fits =
    let s = search_loop-Shows stop criteria path 0 listing (tick new_walk) runs in
    rw (runs 0) (s.lines ∙ shown-top (kept criteria 0 listing), omega (arith, s.found))
