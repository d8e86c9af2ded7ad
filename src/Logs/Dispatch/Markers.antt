-- ===== src/Logs/Dispatch/Markers.antt =====
-- The end markers that the regions B get.
use gtu_cse344_systems_progr.Common.{
  ℕ, zero, suc, ◌+◌, ◌≤◌, ◌<◌, ◌≡◌, refl, ap, ◌∙◌, List, [], ◌∷◌, Bool, true, false, some, leb,
  ◌==◌, ◌&&◌, get_or, set, length, length-set, get_or-set, bit, count, count-append, Bool-cases,
  Option-cases, inl, inr, arith, if-both, if-split,
}
use gtu_cse344_systems_progr.Libc.{Text}
use gtu_cse344_systems_progr.Logs.Entry.{Level, LogEntry}
use gtu_cse344_systems_progr.Logs.Dispatch.{
  is_priority_source, Arrival, Dispatch, dispatch_start, level_index, eof_entry, push_to_region_b,
  forward_eof, route, handle_arrival, dispatch_loop, run_dispatcher,
}

abbrev pub is_eof_of : ℕ → ℕ × LogEntry → Bool
is_eof_of lv (k, e) = k == lv && e.is_eof

-- The end markers that region B of a level has got.
abbrev pub eofs : ℕ → Dispatch → ℕ
eofs lv s = count (is_eof_of lv) s.to_b

pub record IsDispatch (s : Dispatch) : Type 0 where
  pub long : length s.eof_forwarded ≡ 4
  pub markers : (lv : ℕ) → lv < 4 → eofs lv s ≡ bit (get_or s.eof_forwarded lv false)
  pub finished : s.finished_levels ≡ count (λ b. b) s.eof_forwarded

level_index-lt : (l : Level) (lv : ℕ) → level_index l ≡ some lv → lv < 4
level_index-lt l lv e = ground arith

pub count-set-true :
    (bs : List Bool) (lv : ℕ)
    → lv < length bs
    → get_or bs lv false ≡ false
    → count (λ b. b) (set bs lv true) ≡ count (λ b. b) bs + 1
count-set-true [] lv h e = absurd (omega arith)
count-set-true (b ∷ bs) zero h e = ground arith
count-set-true (b ∷ bs) (suc lv) h e = ground (arith, count-set-true bs lv)

forward_eof-IsDispatch :
    (total lv : ℕ) (a : Arrival) (s : Dispatch)
    → lv < 4
    → IsDispatch s
    → IsDispatch (forward_eof total lv a s)
unfolding forward_eof
forward_eof-IsDispatch total lv a s h v = elim (Bool-cases (get_or s.eof_forwarded lv false)) [
  | inl done ↦ rw (forward_eof, done) v
  | inr open_ ↦
      rw (forward_eof, open_)
        (if-both IsDispatch (leb total a.eof_count)
          (record {
            long = length-set s.eof_forwarded lv true ∙ v.long;
            markers = λ k k4. ground (
              arith,
              count-append (is_eof_of k) s.to_b ((lv, eof_entry) ∷ []),
              v.markers k k4,
              get_or-set s.eof_forwarded lv k true false,
              v.long,
            );
            finished = omega (
              arith,
              v.finished,
              count-set-true s.eof_forwarded lv (omega (arith, v.long)) open_,
            );
          })
          v)
]

route-IsDispatch :
    (sources : List Text) (lv : ℕ) (a : Arrival) (s : Dispatch)
    → a.entry.is_eof ≡ false
    → IsDispatch s
    → IsDispatch (route sources lv a s)
unfolding route
route-IsDispatch sources lv a s log v =
    let pushed : (t : Dispatch) → IsDispatch t → IsDispatch (push_to_region_b lv a t) = λ t w.
      if-both IsDispatch a.b_times_out w (record {
        long = w.long;
        markers = λ k k4.
            ground (arith, count-append (is_eof_of k) t.to_b ((lv, a.entry) ∷ []), w.markers k k4);
        finished = w.finished;
      }) in
    pushed _ (
      if-both IsDispatch (is_priority_source sources a.entry.source)
        (if-both IsDispatch a.d_times_out v
          (record { long = v.long; markers = v.markers; finished = v.finished }))
        v)

handle_arrival-IsDispatch :
    (sources : List Text) (total : ℕ) (a : Arrival) (s : Dispatch)
    → IsDispatch s
    → IsDispatch (handle_arrival sources total a s)
unfolding handle_arrival
handle_arrival-IsDispatch sources total a s v = elim (Option-cases (level_index a.entry.level)) [
  | inl n ↦ rw (handle_arrival, n) v
  | inr (lv, h) ↦
      rw (handle_arrival, h)
        (if-split IsDispatch a.entry.is_eof
          (λ eof. forward_eof-IsDispatch total lv a s (level_index-lt a.entry.level lv h) v)
          (λ log. route-IsDispatch sources lv a s log v))
]

dispatch_loop-IsDispatch :
    (sources : List Text) (total : ℕ) (arrivals : List Arrival) (s : Dispatch)
    → IsDispatch s
    → IsDispatch (dispatch_loop sources total arrivals s)
unfolding dispatch_loop
dispatch_loop-IsDispatch sources total [] s v = v
dispatch_loop-IsDispatch sources total (a ∷ arrivals) s v =
    if-both IsDispatch (s.finished_levels == 4) v (
      dispatch_loop-IsDispatch sources total arrivals (handle_arrival sources total a s)
        (handle_arrival-IsDispatch sources total a s v))

start-IsDispatch : IsDispatch dispatch_start
start-IsDispatch = record { long = refl; markers = λ lv h. ground arith; finished = refl }

count-le : (bs : List Bool) → count (λ b. b) bs ≤ length bs
count-le [] = omega arith
count-le (b ∷ bs) = ground (arith, count-le bs)

all_set :
    (bs : List Bool) (lv : ℕ)
    → count (λ b. b) bs ≡ length bs
    → lv < length bs
    → get_or bs lv false ≡ true
all_set [] lv e h = absurd (omega arith)
all_set (b ∷ bs) zero e h = ground (arith, count-le bs)
all_set (b ∷ bs) (suc lv) e h = all_set bs lv (ground (arith, count-le bs)) (omega arith)

-- When the loop of the dispatcher ends, every region B has got exactly one end marker, and the code
-- behind the loop sends no other.
pub run_dispatcher-eofs :
    (sources : List Text) (total_readers : ℕ) (arrivals : List Arrival)
    → (dispatch_loop sources total_readers arrivals dispatch_start).finished_levels ≡ 4
    → ((lv : ℕ)
        → lv < 4
        → eofs lv (dispatch_loop sources total_readers arrivals dispatch_start) ≡ 1)
      × (run_dispatcher sources total_readers arrivals
          ≡ dispatch_loop sources total_readers arrivals dispatch_start)
unfolding run_dispatcher
run_dispatcher-eofs sources total_readers arrivals e =
    let s = dispatch_loop sources total_readers arrivals dispatch_start in
    let v =
      dispatch_loop-IsDispatch sources total_readers arrivals dispatch_start start-IsDispatch in
    let forwarded : (lv : ℕ) → lv < 4 → get_or s.eof_forwarded lv false ≡ true = λ lv h.
      all_set s.eof_forwarded lv (omega (arith, v.finished, v.long)) (omega (arith, v.long)) in
    (
      λ lv h. v.markers lv h ∙ ap bit (forwarded lv h),
      rw
          (
            run_dispatcher,
            forwarded 0 (omega arith),
            forwarded 1 (omega arith),
            forwarded 2 (omega arith),
            forwarded 3 (omega arith),
          )
          refl,
    )
