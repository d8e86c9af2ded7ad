-- ===== src/Search/Walk/Shows.antt =====
-- Lines that a walk shows, each below its ancestors, which are printed before the first.
use gtu_cse344_systems_progr.Common.{
  ℕ, ◌+◌, ◌≡◌, refl, ap, sym, ◌∙◌, List, [], ◌∷◌, ◌++◌, append-nil, append_assoc, Bool, true, false,
  if◌then◌else◌, Bool-cases, inl, inr, arith,
}
use gtu_cse344_systems_progr.Libc.{Text}
use gtu_cse344_systems_progr.Search.Walk.{
  Line, PathInfo, Walk, print_path, tick, print_match, push_info, pop_info, open_directory, descend,
  tail_of,
}

-- The lines of an entry: its own if it matches or if something below it does, and those below.
abbrev pub own_lines : Bool → Line → List Line → List Line
own_lines true l below = l ∷ below
own_lines false l [] = []
own_lines false l (x ∷ below) = l ∷ x ∷ below

abbrev pub bit_of : Bool → ℕ
bit_of b = if b then 1 else 0

-- The lines that these lines add below those infos, and the infos then: the first brings the
-- ancestors that were not printed.
abbrev pub shown : List PathInfo → List Line → List Line × List PathInfo
shown infos [] = ([], infos)
shown infos (l ∷ out) = ((print_path infos).0 ++ l ∷ out, (print_path infos).1)

-- From `w` to `w'` these lines were shown, with `n` matches.
pub record Shows (out : List Line) (n : ℕ) (w w' : Walk) : Type 0 where
  pub lines : w'.lines ≡ w.lines ++ (shown w.infos out).0
  pub infos : w'.infos ≡ (shown w.infos out).1
  pub found : w'.found_count ≡ w.found_count + n

pub print_path_twice :
    (infos : List PathInfo) → print_path (print_path infos).1 ≡ ([], (print_path infos).1)
unfolding print_path
print_path_twice [] = refl
print_path_twice (p ∷ parents) = elim (Bool-cases p.printed) [
  | inl printed ↦
      let stays : print_path (p ∷ parents) ≡ ([], p ∷ parents) = ground arith in
      ap (λ x. print_path x.1) stays ∙ stays ∙ ap (λ x. ([], x.1)) (sym stays)
  | inr new ↦
      let above = (print_path parents).0 in
      let marks : print_path (p ∷ parents) ≡ (
        above ++ record { name = p.name; depth = p.depth; is_dir = true } ∷ [],
        record p { printed = true } ∷ (print_path parents).1,
      ) =
        ground arith in
      ap (λ x. print_path x.1) marks ∙ ap (λ x. ([], x.1)) (sym marks)
]

shown-append :
    (infos : List PathInfo) (a b : List Line)
    → shown infos (a ++ b)
      ≡ ((shown infos a).0 ++ (shown (shown infos a).1 b).0, (shown (shown infos a).1 b).1)
shown-append infos [] b = refl
shown-append infos (l ∷ a) [] = rw (append-nil a, append-nil ((print_path infos).0 ++ l ∷ a)) refl
shown-append infos (l ∷ a) (m ∷ b) =
    rw (print_path_twice infos, append_assoc (print_path infos).0 (l ∷ a) (m ∷ b)) refl

pub Shows-trans :
    (a b : List Line) (m n : ℕ) (u v w : Walk)
    → Shows a m u v
    → Shows b n v w
    → Shows (a ++ b) (m + n) u w
Shows-trans a b m n u v w p q =
    let both = shown-append u.infos a b in
    let (la, ia) = shown u.infos a in
    record {
      lines =
          q.lines
          ∙ ap (λ x. v.lines ++ (shown x b).0) p.infos
          ∙ ap (λ x. x ++ (shown ia b).0) p.lines
          ∙ append_assoc u.lines la (shown ia b).0
          ∙ ap (λ x. u.lines ++ x.0) (sym both);
      infos = q.infos ∙ ap (λ x. (shown x b).1) p.infos ∙ ap (λ x. x.1) (sym both);
      found = omega (arith, p.found, q.found);
    }

-- Nothing is shown, and the rest may change.
pub quiet :
    (w w' : Walk)
    → w'.lines ≡ w.lines
    → w'.infos ≡ w.infos
    → w'.found_count ≡ w.found_count
    → Shows [] 0 w w'
quiet w w' l i f = record {
  lines = l ∙ sym (append-nil w.lines);
  infos = i;
  found = omega (arith, f);
}

pub print_match-Shows : (l : Line) (w : Walk) → Shows (l ∷ []) 1 w (print_match l w)
unfolding print_match
print_match-Shows l w = record { lines = refl; infos = refl; found = refl }

-- The same lines from a state that differs elsewhere.
pub moved :
    (w u v : Walk) (out : List Line) (n : ℕ)
    → u.lines ≡ w.lines
    → u.infos ≡ w.infos
    → u.found_count ≡ w.found_count
    → Shows out n u v
    → Shows out n w v
moved w u v out n l i f s =
    let t = Shows-trans [] out 0 n w u v (quiet w u l i f) s in
    record { lines = t.lines; infos = t.infos; found = omega (arith, t.found) }

-- A call of the search for a directory shows what its loop shows.
pub open_directory-Shows :
    (stop : ℕ → Bool) (opens : Bool) (loop : Walk → Walk) (out : List Line) (n : ℕ) (w : Walk)
    → ((k : ℕ) → stop k ≡ false)
    → ((v : Walk) → Shows out n v (loop v))
    → Shows
        (if opens then out else [])
        (if opens then n else 0)
        w
        (open_directory stop opens loop w)
unfolding open_directory
open_directory-Shows stop opens loop out n w runs shows = elim (Bool-cases opens) [
  | inl yes_opens ↦
      rw (runs w.checks, yes_opens)
        (moved w (tick w) (loop (tick w)) out n refl refl refl (shows (tick w)))
  | inr no_opens ↦ rw (runs w.checks, no_opens, runs (w.checks + 1)) (quiet w _ refl refl refl)
]

-- Below a directory: its line comes first if it was not printed and something is shown.
below-Shows :
    (printed : Bool) (name : Text) (depth : ℕ) (out : List Line) (n : ℕ) (w v : Walk)
    → (printed ≡ true → print_path w.infos ≡ ([], w.infos))
    → Shows out n (push_info (record { name = name; depth = depth; printed = printed }) w) v
    → Shows
        (if printed
          then out
          else own_lines false (record { name = name; depth = depth; is_dir = true }) out)
        n
        w
        (pop_info v)
unfolding print_path
below-Shows true name depth [] n w v h s = record {
  lines = s.lines;
  infos = ap tail_of s.infos;
  found = s.found;
}
below-Shows true name depth (x ∷ out) n w v h s = record {
  lines = s.lines ∙ ap (λ p. w.lines ++ (p.0 ++ x ∷ out)) (sym (h refl));
  infos = ap tail_of s.infos ∙ ap (λ p. p.1) (sym (h refl));
  found = s.found;
}
below-Shows false name depth [] n w v h s = record {
  lines = s.lines;
  infos = ap tail_of s.infos;
  found = s.found;
}
below-Shows false name depth (x ∷ out) n w v h s = record {
  lines =
      s.lines
      ∙ ap (λ t. w.lines ++ t)
          (append_assoc (print_path w.infos).0
            (record { name = name; depth = depth; is_dir = true } ∷ []) (x ∷ out));
  infos = ap tail_of s.infos;
  found = s.found;
}

module _ (stop : ℕ → Bool) (runs : (k : ℕ) → stop k ≡ false) (depth : ℕ) (name : Text)
    (loop next : Walk → Walk) (under after : List Line) (n m : ℕ)
    (loops : (v : Walk) → Shows under n v (loop v))
    (goes : (v : Walk) → Shows after m v (next v)) where
  pub descend-Shows :
      (matched opens : Bool) (w : Walk)
      → (matched ≡ true → print_path w.infos ≡ ([], w.infos))
      → let out = if opens then under else [] in
        Shows
          ((if matched
              then out
              else own_lines false (record { name = name; depth = depth; is_dir = true }) out)
            ++ after)
          ((if opens then n else 0) + m)
          w
          (descend stop opens loop next
            (record { name = name; depth = depth; printed = matched })
            w)
  unfolding descend
  descend-Shows matched opens w h =
      let info : PathInfo = record { name = name; depth = depth; printed = matched } in
      let opened = open_directory stop opens loop (push_info info w) in
      let out = if opens then under else [] in
      let k = if opens then n else 0 in
      let inner =
        below-Shows matched name depth out k w opened h
          (open_directory-Shows stop opens loop under n (push_info info w) runs loops) in
      rw (runs (pop_info opened).checks) (
        Shows-trans
          (if matched
            then out
            else own_lines false (record { name = name; depth = depth; is_dir = true }) out)
          after k m w (pop_info opened) (next (tick (pop_info opened))) inner
          (moved (pop_info opened) (tick (pop_info opened)) (next (tick (pop_info opened))) after m
            refl refl refl (goes (tick (pop_info opened)))))
