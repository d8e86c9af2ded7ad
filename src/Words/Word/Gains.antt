-- ===== src/Words/Word/Gains.antt =====
-- What a round of the loop of sort_step keeps, and what it gains.
use gtu_cse344_systems_progr.Common.{
  ℕ, ◌<◌, ◌≡◌, ◌≢◌, refl, ap, sym, ◌∙◌, List, true, false, some, ◌==◌, get_elem?, set, bit,
  weigh-set, length-set, get_elem?-set_other, All, All-set, Bool-cases, inl, inr, arith, eq_of_some,
}
use gtu_cse344_systems_progr.Words.Word.{Slot}
use gtu_cse344_systems_progr.Words.Word.Letters.{lies, belongs, IsSlot}
use gtu_cse344_systems_progr.Words.Word.Rounds.{
  get-both_j, both-IsSlot, length-both, map-both, weigh-both, get-both_other, gain, score, IsReady,
  Rearranged, map-set, emptied, filled, swapped, Round, fixes, moves, swaps,
}

pub Round-Rearranged :
    (slots : List Slot) (i : ℕ) (s : Slot) (later : List Slot)
    → All IsSlot slots
    → get_elem? slots i ≡ some s
    → s.occupied ≡ true
    → s.fixed ≡ false
    → Round slots i s later
    → Rearranged slots later
Round-Rearranged slots i s _ a at occ unfixed (fixes own) =
    let s' : Slot = record s { fixed = true } in
    record {
      fixed = All-set IsSlot slots i s' a (λ f. (occ, sym own));
      letters = λ c. omega (arith, weigh-set (lies c) slots i s s' at);
      wanted = λ c. omega (arith, weigh-set (belongs c) slots i s s' at);
      occupied = omega (arith, weigh-set (λ z. bit z.occupied) slots i s s' at);
      sizes = length-set slots i s';
      word = map-set (λ z. z.original) slots i s s' at refl;
      gains = ground (arith, weigh-set gain slots i s s' at);
    }
Round-Rearranged slots i s _ a at occ unfixed (moves j t at_j apart wants open_t free away) =
    let s' = emptied s in
    let t' = filled t s in
    let w = weigh-both slots i j s t s' t' at at_j apart in
    record {
      fixed = both-IsSlot slots i j s t s' t' at at_j apart a (λ f. cc unfixed) (λ f. cc open_t);
      letters = λ c. ground (arith, w (lies c));
      wanted = λ c. omega (arith, w (belongs c));
      occupied = ground (arith, w (λ z. bit z.occupied));
      sizes = length-both slots i j s t s' t' at at_j apart;
      word = map-both slots i j s t s' t' at at_j apart refl refl;
      gains = ground (arith, w gain);
    }
Round-Rearranged slots i s _ a at occ unfixed (swaps j t at_j apart wants open_t full_t away) =
    let s' = swapped s t in
    let t' = swapped t s in
    let w = weigh-both slots i j s t s' t' at at_j apart in
    record {
      fixed = both-IsSlot slots i j s t s' t' at at_j apart a (λ f. cc unfixed) (λ f. cc open_t);
      letters = λ c. ground (arith, w (lies c));
      wanted = λ c. omega (arith, w (belongs c));
      occupied = ground (arith, w (λ z. bit z.occupied));
      sizes = length-both slots i j s t s' t' at at_j apart;
      word = map-both slots i j s t s' t' at at_j apart refl refl;
      gains = ground (arith, w gain);
    }

-- The round at a slot that is ready fixes it.
pub Round-ready :
    (slots : List Slot) (i : ℕ) (s : Slot) (later : List Slot)
    → get_elem? slots i ≡ some s
    → IsReady s
    → Round slots i s later
    → score slots < score later
Round-ready slots i s _ at (own, unfixed) (fixes e) =
    ground (arith, weigh-set gain slots i s (record s { fixed = true }) at)
Round-ready slots i s _ at (own, unfixed) (moves j t at_j apart wants open_t free away) =
    absurd (ground arith)
Round-ready slots i s _ at (own, unfixed) (swaps j t at_j apart wants open_t full_t away) =
    absurd (ground arith)

-- A round elsewhere leaves a slot ready.
pub Round-stays-IsReady :
    (slots : List Slot) (i k : ℕ) (s u : Slot) (later : List Slot)
    → get_elem? slots i ≡ some s
    → get_elem? slots k ≡ some u
    → k ≢ i
    → IsReady u
    → Round slots i s later
    → (u' : Slot) × (get_elem? later k ≡ some u') × IsReady u'
Round-stays-IsReady slots i k s u _ at at_k n r (fixes e) =
    (u, get_elem?-set_other slots i k (record s { fixed = true }) (λ q. n (sym q)) ∙ at_k, r)
Round-stays-IsReady slots i k s u _ at at_k n r (moves j t at_j apart wants open_t free away) =
    elim (Bool-cases (k == j)) [
      | inl same ↦
          let one : t ≡ u =
            eq_of_some t u (sym at_j ∙ ap (get_elem? slots) (ground arith) ∙ at_k) in
          let occ : t.occupied ≡ true = ap (λ z. z.occupied) one ∙ occupied u r in absurd (cc free)
      | inr other ↦ (
        u,
        get-both_other slots i j s t (emptied s) (filled t s) at at_j apart k n (ground arith)
            ∙ at_k,
        r,
      )
    ]
  where
    occupied : (z : Slot) → IsReady z → z.occupied ≡ true
    occupied z r = ground arith
Round-stays-IsReady slots i k s u _ at at_k n r (swaps j t at_j apart wants open_t full_t away) =
    elim (Bool-cases (k == j)) [
      | inl same ↦
          let eq : j ≡ k = ground arith in
          let found = get-both_j slots i j s t (swapped s t) (swapped t s) at at_j apart in
          (
            swapped t s,
            ap (get_elem? (set (set slots j (swapped t s)) i (swapped s t))) (sym eq) ∙ found,
            (ground arith, open_t),
          )
      | inr other ↦ (
        u,
        get-both_other slots i j s t (swapped s t) (swapped t s) at at_j apart k n (ground arith)
            ∙ at_k,
        r,
      )
    ]

-- With no slot ready, a round at a letter that is not fixed puts one into its place.
pub Round-gains :
    (slots : List Slot) (i : ℕ) (s : Slot) (later : List Slot)
    → get_elem? slots i ≡ some s
    → s.occupied ≡ true
    → s.fixed ≡ false
    → ((k : ℕ) (t : Slot) → get_elem? slots k ≡ some t → IsReady t → ⊥)
    → Round slots i s later
    → score slots < score later
Round-gains slots i s _ at occ unfixed nobody (fixes e) =
    absurd (nobody i s at (ground arith, unfixed))
Round-gains slots i s _ at occ unfixed nobody (moves j t at_j apart wants open_t free away) =
    ground (arith, weigh-both slots i j s t (emptied s) (filled t s) at at_j apart gain)
Round-gains slots i s _ at occ unfixed nobody (swaps j t at_j apart wants open_t full_t away) =
    elim (Bool-cases (t.area == t.original)) [
      | inl own ↦ absurd (nobody j t at_j (ground arith, open_t))
      | inr other ↦
          ground (arith, weigh-both slots i j s t (swapped s t) (swapped t s) at at_j apart gain)
    ]
