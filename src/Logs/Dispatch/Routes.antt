-- ===== src/Logs/Dispatch/Routes.antt =====
-- Where the log entries go.
use gtu_cse344_systems_progr.Common.{
  ℕ, ◌≡◌, List, [], ◌∷◌, ◌++◌, Bool, Option, none, some, ◌||◌, not, if◌then◌else◌, filter,
  filter_map, arith,
}
use gtu_cse344_systems_progr.Libc.{Text}
use gtu_cse344_systems_progr.Logs.Entry.{LogEntry}
use gtu_cse344_systems_progr.Logs.Dispatch.{is_priority_source, Arrival, Dispatch, level_index}

-- Where an arrival goes in region B, unless its wait times out.
abbrev pub to_region_b : Arrival → Option (ℕ × LogEntry)
to_region_b a =
    if a.entry.is_eof || a.b_times_out
    then none
    else elim (level_index a.entry.level) [ none ↦ none | some lv ↦ some (lv, a.entry) ]

-- The entries of priority sources, unless the wait times out.
abbrev pub to_region_d : List Text → Arrival → Option LogEntry
to_region_d sources a =
    if a.entry.is_eof || (a.d_times_out || not (is_priority_source sources a.entry.source))
    then none
    else elim (level_index a.entry.level) [ none ↦ none | some lv ↦ some a.entry ]

abbrev pub is_data : ℕ × LogEntry → Bool
is_data (lv, e) = not e.is_eof

-- `t` is `s` after the arrivals `seen`.
pub record Routed (sources : List Text) (seen : List Arrival) (s t : Dispatch) : Type 0 where
  pub data_b : filter is_data t.to_b ≡ filter is_data s.to_b ++ filter_map to_region_b seen
  pub data_d : t.to_d ≡ s.to_d ++ filter_map (to_region_d sources) seen

filter_map-some {ℓ κ} :
    {A : Type ℓ} {B : Type κ} (f : A → Option B) (a : A) (b : B)
    → f a ≡ some b
    → filter_map f (a ∷ []) ≡ b ∷ []
filter_map-some f a b e = ground arith
