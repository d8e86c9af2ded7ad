-- ===== src/Logs/Dispatch/Finish.antt =====
-- When the loop of the dispatcher ends: the levels whose end has arrived.
use gtu_cse344_systems_progr.Common.{
  ℕ, ◌≡◌, refl, ap, sym, ◌∙◌, List, [], ◌∷◌, ◌++◌, Bool, true, false, none, some, leb, ◌==◌, ◌&&◌,
  ◌||◌, if◌then◌else◌, get_or, set, count, length, ◌<◌, zero, suc, Bool-cases, Option-cases, inl,
  inr, arith, if-both, if-split,
}
use gtu_cse344_systems_progr.Libc.{Text}
use gtu_cse344_systems_progr.Logs.Dispatch.Markers.{count-set-true}
use gtu_cse344_systems_progr.Logs.Dispatch.{
  is_priority_source, Arrival, Dispatch, level_index, forward_eof, route, handle_arrival,
}

-- The arrival is an end marker of level `lv`, when the markers of all readers were counted.
unfoldable pub ends_level : ℕ → ℕ → Arrival → Bool
ends_level total_readers lv a =
    a.entry.is_eof
    && (leb total_readers a.eof_count
        && elim (level_index a.entry.level) [ none ↦ false | some k ↦ k == lv ])

abbrev pub is_ended : ℕ → ℕ → List Arrival → Bool
is_ended total_readers lv [] = false
is_ended total_readers lv (a ∷ seen) =
    ends_level total_readers lv a || is_ended total_readers lv seen

abbrev pub all_ended : ℕ → List Arrival → Bool
all_ended total_readers seen =
    is_ended total_readers 0 seen
    && (is_ended total_readers 1 seen
        && (is_ended total_readers 2 seen && is_ended total_readers 3 seen))

-- The arrivals up to the one with which all four levels have ended; `before` are those that came
-- before, the last first.
abbrev pub before_finish : ℕ → List Arrival → List Arrival → List Arrival
before_finish total_readers before [] = []
before_finish total_readers before (a ∷ arrivals) =
    let rest = before_finish total_readers (a ∷ before) arrivals in
    if all_ended total_readers before then [] else a ∷ rest

-- The levels that have ended, as the dispatcher's flags.
abbrev pub ended_flags : ℕ → List Arrival → List Bool
ended_flags total_readers seen =
    is_ended total_readers 0 seen
    ∷ is_ended total_readers 1 seen
    ∷ is_ended total_readers 2 seen
    ∷ is_ended total_readers 3 seen
    ∷ []

-- The dispatcher has these flags, and their number.
pub record Flags (flags : List Bool) (s : Dispatch) : Type 0 where
  pub forwarded : s.eof_forwarded ≡ flags
  pub finished : s.finished_levels ≡ count (λ b. b) flags

set_again : (bs : List Bool) (lv : ℕ) → get_or bs lv false ≡ true → set bs lv true ≡ bs
set_again [] lv h = refl
set_again (b ∷ bs) zero h = ap (λ x. x ∷ bs) (sym h)
set_again (b ∷ bs) (suc lv) h = ap (◌∷◌ b) (set_again bs lv h)

route-Flags :
    (sources : List Text) (lv : ℕ) (a : Arrival) (s : Dispatch) (flags : List Bool)
    → Flags flags s
    → Flags flags (route sources lv a s)
unfolding route
route-Flags sources lv a s flags v =
    let d : Dispatch =
      if is_priority_source sources a.entry.source
      then (if a.d_times_out then s else record s { to_d = s.to_d ++ a.entry ∷ [] })
      else s in
    if-both (Flags flags) a.b_times_out (routed d (ground arith) (ground arith))
      (record { forwarded = ground arith; finished = ground arith })
  where
    routed :
        (d : Dispatch)
        → d.eof_forwarded ≡ s.eof_forwarded
        → d.finished_levels ≡ s.finished_levels
        → Flags flags d
    routed d e f = record { forwarded = e ∙ v.forwarded; finished = f ∙ v.finished }

forward_eof-Flags :
    (total lv : ℕ) (a : Arrival) (s : Dispatch) (flags : List Bool)
    → lv < length flags
    → Flags flags s
    → Flags (if leb total a.eof_count then set flags lv true else flags) (forward_eof total lv a s)
unfolding forward_eof
forward_eof-Flags total lv a s flags h v =
    let at : get_or s.eof_forwarded lv false ≡ get_or flags lv false =
      ap (λ bs. get_or bs lv false) v.forwarded in
    elim (Bool-cases (leb total a.eof_count)) [
      | inl enough ↦ elim (Bool-cases (get_or flags lv false)) [
        | inl again ↦
            rw (forward_eof, enough, at, again, set_again flags lv again)
              (record { forwarded = v.forwarded; finished = v.finished })
        | inr first ↦
            rw (forward_eof, enough, at, first)
              (record {
                forwarded = ap (λ bs. set bs lv true) v.forwarded;
                finished = omega (arith, v.finished, count-set-true flags lv h first);
              })
      ]
      | inr few ↦ elim (Bool-cases (get_or s.eof_forwarded lv false)) [
        | inl done ↦
            rw (forward_eof, few, done) (record { forwarded = v.forwarded; finished = v.finished })
        | inr open_ ↦
            rw (forward_eof, few, open_) (record { forwarded = v.forwarded; finished = v.finished })
      ]
    ]

ends_level-none :
    (total k : ℕ) (a : Arrival) → level_index a.entry.level ≡ none → ends_level total k a ≡ false
unfolding ends_level
ends_level-none total k a n = ground arith

ends_level-log : (total k : ℕ) (a : Arrival) → a.entry.is_eof ≡ false → ends_level total k a ≡ false
unfolding ends_level
ends_level-log total k a log = ground arith

ends_level-eof :
    (total k lv : ℕ) (a : Arrival)
    → level_index a.entry.level ≡ some lv
    → a.entry.is_eof ≡ true
    → ends_level total k a ≡ (leb total a.eof_count && lv == k)
unfolding ends_level
ends_level-eof total k lv a h eof = ground arith

raised :
    (e : Bool) (lv : ℕ) (x0 x1 x2 x3 : Bool)
    → lv < 4
    → (if e then set (x0 ∷ x1 ∷ x2 ∷ x3 ∷ []) lv true else x0 ∷ x1 ∷ x2 ∷ x3 ∷ [])
      ≡ ((e && lv == 0) || x0)
        ∷ ((e && lv == 1) || x1)
        ∷ ((e && lv == 2) || x2)
        ∷ ((e && lv == 3) || x3)
        ∷ []
raised false lv x0 x1 x2 x3 h = refl
raised true zero x0 x1 x2 x3 h = refl
raised true (suc zero) x0 x1 x2 x3 h = refl
raised true (suc (suc zero)) x0 x1 x2 x3 h = refl
raised true (suc (suc (suc zero))) x0 x1 x2 x3 h = refl
raised true (suc (suc (suc (suc lv)))) x0 x1 x2 x3 h = absurd (omega arith)

recast : (fs gs : List Bool) (s : Dispatch) → fs ≡ gs → Flags fs s → Flags gs s
recast fs gs s e v = rw (← e) v

pub handle_arrival-Flags :
    (sources : List Text) (total : ℕ) (a : Arrival) (before : List Arrival) (s : Dispatch)
    → Flags (ended_flags total before) s
    → Flags (ended_flags total (a ∷ before)) (handle_arrival sources total a s)
unfolding handle_arrival
handle_arrival-Flags sources total a before s v =
    let fs = ended_flags total before in
    let gs = ended_flags total (a ∷ before) in
    elim (Option-cases (level_index a.entry.level)) [
      | inl n ↦
          let same : fs ≡ gs =
            rw
              (
                ends_level-none total 0 a n,
                ends_level-none total 1 a n,
                ends_level-none total 2 a n,
                ends_level-none total 3 a n,
              )
              refl in
          rw (handle_arrival, n) (recast fs gs s same v)
      | inr (lv, h) ↦
          rw (handle_arrival, h)
            (if-split (Flags gs) a.entry.is_eof
              (λ eof.
                let small : lv < 4 = ground arith in
                let e = leb total a.eof_count in
                let more : (if e then set fs lv true else fs) ≡ gs =
                  rw
                    (
                      ends_level-eof total 0 lv a h eof,
                      ends_level-eof total 1 lv a h eof,
                      ends_level-eof total 2 lv a h eof,
                      ends_level-eof total 3 lv a h eof,
                    )
                    (raised e lv (is_ended total 0 before) (is_ended total 1 before)
                      (is_ended total 2 before) (is_ended total 3 before) small) in
                recast (if e then set fs lv true else fs) gs (forward_eof total lv a s) more
                  (forward_eof-Flags total lv a s fs small v))
              (λ log.
                let same : fs ≡ gs =
                  rw
                    (
                      ends_level-log total 0 a log,
                      ends_level-log total 1 a log,
                      ends_level-log total 2 a log,
                      ends_level-log total 3 a log,
                    )
                    refl in
                recast fs gs (route sources lv a s) same (route-Flags sources lv a s fs v)))
    ]

-- All four levels have ended just if the dispatcher counts four.
pub Flags-all_ended :
    (total : ℕ) (seen : List Arrival) (s : Dispatch)
    → Flags (ended_flags total seen) s
    → (s.finished_levels == 4) ≡ all_ended total seen
Flags-all_ended total seen s v =
    four (is_ended total 0 seen) (is_ended total 1 seen) (is_ended total 2 seen)
      (is_ended total 3 seen) s.finished_levels v.finished
  where
    four :
        (a b c d : Bool) (n : ℕ)
        → n ≡ count (λ x. x) (a ∷ b ∷ c ∷ d ∷ [])
        → (n == 4) ≡ (a && (b && (c && d)))
    four a b c d n e = ground arith
