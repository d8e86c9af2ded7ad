-- ===== src/Search/Walk/Stopped.antt =====
-- A search that Ctrl-C stops, against the same search undisturbed.
use gtu_cse344_systems_progr.Common.{
  ℕ, ◌+◌, ◌≡◌, ◌⊎◌, inl, inr, refl, ap, sym, ◌∙◌, List, [], ◌++◌, append-nil, append_assoc, Bool,
  true, false, none, some, if◌then◌else◌, Bool-cases, length,
}
use gtu_cse344_systems_progr.Libc.{Text}
use gtu_cse344_systems_progr.Search.Walk.{
  Criteria, compare, Listing, nil, entry, Line, PathInfo, Walk, is_directory, is_dots, tick, tell,
  join_path, push_info, pop_info, open_directory, descend, after_compare, search_loop, new_walk,
  search_directory, lstat_failed,
}
use gtu_cse344_systems_progr.Search.Walk.Shows.{shown, Shows}
use gtu_cse344_systems_progr.Search.Walk.Kept.{
  kept, matches, search_loop-Shows, search_directory-kept,
}

abbrev pub never : ℕ → Bool
never k = false

abbrev pub IsPrefix : List Line → List Line → Type 0
IsPrefix a b = (t : List Line) × (b ≡ a ++ t)

-- Once requested, the stop stays requested.
abbrev pub Stays : (ℕ → Bool) → Type 0
Stays stop = (k : ℕ) → stop k ≡ true → stop (k + 1) ≡ true

-- Where the undisturbed walk comes to `u`, the other came there too, or it was stopped on the way.
abbrev Follows : (ℕ → Bool) → Walk → Walk → Type 0
Follows stop w u = (w ≡ u) ⊎ ((stop w.checks ≡ true) × IsPrefix w.lines u.lines)

IsPrefix-trans : (a b c : List Line) → IsPrefix a b → IsPrefix b c → IsPrefix a c
IsPrefix-trans a b c (s, e) (t, f) = (s ++ t, f ∙ ap (λ x. x ++ t) e ∙ append_assoc a s t)

-- Lines are only added.
abbrev Adds : (Walk → Walk) → Type 0
Adds f = (v : Walk) → IsPrefix v.lines (f v).lines

Shows-prefix : (out : List Line) (n : ℕ) (w v : Walk) → Shows out n w v → IsPrefix w.lines v.lines
Shows-prefix out n w v s = ((shown w.infos out).0, s.lines)

module _ (stop : ℕ → Bool) (stays : Stays stop) where
  -- A stop before the next part.
  stop-Follows :
      (w : Walk) (part : Walk → Walk)
      → stop w.checks ≡ true
      → Adds part
      → (v : Walk) → v.lines ≡ w.lines
      → Follows stop (tick w) (part v)
  stop-Follows w part h adds v e =
      let (t, f) = adds v in inr (stays w.checks h, (t, f ∙ ap (λ x. x ++ t) e))

  -- The next part after a check.
  check-Follows :
      (w : Walk) (slow fast : Walk → Walk)
      → Adds fast
      → ((v : Walk) → Follows stop (slow v) (fast v))
      → (v : Walk) → v.lines ≡ w.lines
      → Follows stop (if stop w.checks then tick w else slow v) (fast v)
  check-Follows w slow fast adds follows v e = elim (Bool-cases (stop w.checks)) [
    | inl stopped ↦ rw stopped (stop-Follows w fast stopped adds v e)
    | inr runs ↦ rw runs (follows v)
  ]

  module _ (slow_loop fast_loop slow_next fast_next : Walk → Walk) (loop_adds : Adds fast_loop)
      (next_adds : Adds fast_next) (loops : (v : Walk) → Follows stop (slow_loop v) (fast_loop v))
      (goes : (v : Walk) → Follows stop (slow_next v) (fast_next v)) where
    open_directory-Follows :
        (opens : Bool) (w : Walk)
        → Follows stop
            (open_directory stop opens slow_loop w)
            (open_directory never opens fast_loop w)
    unfolding open_directory
    open_directory-Follows true w =
        check-Follows w slow_loop fast_loop loop_adds loops (tick w) refl
    open_directory-Follows false w = elim (Bool-cases (stop w.checks)) [
      | inl stopped ↦ rw stopped (inr (stays w.checks stopped, ([], sym (append-nil w.lines))))
      | inr runs ↦ elim (Bool-cases (stop (w.checks + 1))) [
        | inl stopped ↦
            rw (runs, stopped) (inr (stays (w.checks + 1) stopped, ([], sym (append-nil w.lines))))
        | inr still ↦ rw (runs, still) (inl refl)
      ]
    ]

    descend-Follows :
        (opens : Bool) (info : PathInfo) (w : Walk)
        → Follows stop
            (descend stop opens slow_loop slow_next info w)
            (descend never opens fast_loop fast_next info w)
    unfolding descend
    descend-Follows opens info w =
        let slow = open_directory stop opens slow_loop (push_info info w) in
        let fast = open_directory never opens fast_loop (push_info info w) in
        elim (open_directory-Follows opens (push_info info w)) [
          | inl same ↦
              let moves : descend stop opens slow_loop slow_next info w ≡ (
                  if stop (pop_info fast).checks
                  then tick (pop_info fast)
                  else slow_next (tick (pop_info fast))) =
                ap
                  (λ (x : Walk).
                    if stop (pop_info x).checks
                    then tick (pop_info x)
                    else slow_next (tick (pop_info x)))
                  same in
              rw moves (
                check-Follows (pop_info fast) slow_next fast_next next_adds goes
                  (tick (pop_info fast)) refl)
          | inr (stopped, before) ↦ rw stopped (
              inr (
                stays slow.checks stopped,
                IsPrefix-trans slow.lines fast.lines (fast_next (tick (pop_info fast))).lines before
                    (next_adds (tick (pop_info fast))),
              ))
        ]

    after_compare-Follows :
        (depth : ℕ) (name : Text) (matched is_dir opens : Bool) (w : Walk)
        → Follows stop
            (after_compare stop depth name matched is_dir opens slow_loop slow_next w)
            (after_compare never depth name matched is_dir opens fast_loop fast_next w)
    unfolding after_compare
    after_compare-Follows depth name matched true opens w = descend-Follows opens _ _
    after_compare-Follows depth name matched false opens w = goes _

  search_loop-stopped :
      (criteria : Criteria) (path depth : ℕ) (listing : Listing) (w : Walk)
      → stop w.checks ≡ true
      → search_loop stop criteria path depth listing w ≡ tick w
  unfolding search_loop
  search_loop-stopped criteria path depth nil w h = refl
  search_loop-stopped criteria path depth (entry name none opens below rest) w h = rw h refl
  search_loop-stopped criteria path depth (entry name (some s) opens below rest) w h = rw h refl

  search_loop-Adds :
      (criteria : Criteria) (path depth : ℕ) (listing : Listing)
      → Adds (search_loop never criteria path depth listing)
  search_loop-Adds criteria path depth listing v =
      Shows-prefix (kept criteria depth listing) (matches criteria listing) v
        (search_loop never criteria path depth listing v)
        (search_loop-Shows never criteria path depth listing v (λ k. refl))

  Follows-prefix : (w u : Walk) → Follows stop w u → IsPrefix w.lines u.lines
  Follows-prefix w u (inl e) = ([], ap (λ (x : Walk). x.lines) (sym e) ∙ sym (append-nil w.lines))
  Follows-prefix w u (inr (stopped, before)) = before

  Follows-eq : (w v u : Walk) → w ≡ v → Follows stop v u → Follows stop w u
  Follows-eq w v u e f = rw e f

  search_loop-Follows :
      (criteria : Criteria) (path depth : ℕ) (listing : Listing) (w : Walk)
      → Follows stop
          (search_loop stop criteria path depth listing w)
          (search_loop never criteria path depth listing w)
  unfolding search_loop
  search_loop-Follows criteria path depth nil w = inl refl
  search_loop-Follows criteria path depth (entry name none opens below rest) w =
      let goes = λ (v : Walk). search_loop-Follows criteria path depth rest v in
      let adds = search_loop-Adds criteria path depth rest in
      let slow = search_loop stop criteria path depth rest in
      let fast = search_loop never criteria path depth rest in
      let joined = tick (join_path path name (tick w)) in
      elim (Bool-cases (is_dots name)) [
        | inl dots ↦ rw dots (check-Follows w slow fast adds goes (tick w) refl)
        | inr real ↦ elim (Bool-cases (stop w.checks)) [
          | inl stopped ↦
              rw (stopped, real) (stop-Follows w fast stopped adds (tell lstat_failed joined) refl)
          | inr runs ↦ elim (Bool-cases (stop (w.checks + 1))) [
            | inl stopped ↦
                let later = stays (w.checks + 1) stopped in
                rw (runs, real, stopped, search_loop-stopped criteria path depth rest joined later)
                  (stop-Follows joined fast later adds (tell lstat_failed joined) refl)
            | inr still ↦ rw (runs, real, still) (goes (tell lstat_failed joined))
          ]
        ]
      ]
  search_loop-Follows criteria path depth (entry name (some s) opens below rest) w =
      let goes = λ (v : Walk). search_loop-Follows criteria path depth rest v in
      let adds = search_loop-Adds criteria path depth rest in
      let deep = path + 1 + length name in
      let loops = λ (v : Walk). search_loop-Follows criteria deep (depth + 1) below v in
      let slow = search_loop stop criteria path depth rest in
      let fast = search_loop never criteria path depth rest in
      let joined = tick (join_path path name (tick w)) in
      let here = entry name (some s) opens below rest in
      let whole = search_loop-Adds criteria path depth here w in
      elim (Bool-cases (is_dots name)) [
        | inl dots ↦ rw dots (check-Follows w slow fast adds goes (tick w) refl)
        | inr real ↦ elim (Bool-cases (stop w.checks)) [
          | inl stopped ↦ rw stopped (inr (stays w.checks stopped, whole))
          | inr runs ↦ elim (Bool-cases (stop (w.checks + 1))) [
            | inl stopped ↦
                Follows-eq (search_loop stop criteria path depth here w) joined
                  (search_loop never criteria path depth here w) (rw (runs, real, stopped) refl)
                  (inr (stays (w.checks + 1) stopped, whole))
            | inr still ↦
                rw (runs, real, still)
                  (after_compare-Follows (search_loop stop criteria deep (depth + 1) below)
                    (search_loop never criteria deep (depth + 1) below) slow fast
                    (search_loop-Adds criteria deep (depth + 1) below) adds loops goes depth name
                    (compare criteria name s) (is_directory s.kind) opens joined)
          ]
        ]
      ]

-- Wherever Ctrl-C stops a search whose paths fit full_path, what it printed is the beginning of what
-- the undisturbed search prints.
pub search_directory-prefix :
    (stop : ℕ → Bool) (criteria : Criteria) (path : ℕ) (listing : Listing)
    → Stays stop
    → (search_directory never criteria path true listing).overflown ≡ false
    → IsPrefix (search_directory stop criteria path true listing).lines (kept criteria 0 listing)
unfolding search_directory
search_directory-prefix stop criteria path listing stays fits =
    let slow = search_loop stop criteria path 0 listing in
    let fast = search_loop never criteria path 0 listing in
    let adds = search_loop-Adds stop stays criteria path 0 listing in
    let loops = λ (v : Walk). search_loop-Follows stop stays criteria path 0 listing v in
    let (t, e) =
      Follows-prefix stop stays (open_directory stop true slow new_walk)
        (open_directory never true fast new_walk)
        (open_directory-Follows stop stays slow fast slow fast adds adds loops loops true
          new_walk) in
    let undisturbed = search_directory-kept never criteria path listing (λ k. refl) fits in
    (t, sym undisturbed.0 ∙ e)
