-- ===== src/Words/Floors/Account.antt =====
-- The account of the floors: a word that is admitted counts on its arrival floor and on its sorting
-- floor, and when it is completed only the sorting floor's count falls.
use gtu_cse344_systems_progr.Common.{
  ℕ, zero, suc, ◌+◌, ◌*◌, ◌≤◌, ◌<◌, ◌≡◌, refl, ap, ◌∙◌, List, [], ◌∷◌, true, ltb, ◌==◌, ◌&&◌,
  length, get_or, set, replicate, weigh, weigh-set, length-set, get_elem?-eq-get_or,
  length-replicate, All, All-get, All-set, Bool-cases, inl, inr, arith, get_or-set,
}
use gtu_cse344_systems_progr.Words.Floors.{
  try_admit, Building, new_building, Traffic, admits, completes, Days, start, day,
}

abbrev pub total : List ℕ → ℕ
total counts = weigh (λ n. n) counts

-- No count is above `max_words` by more than one; each word counts twice, and once when it is
-- completed.
pub record IsBuilding (num_floors max_words : ℕ) (b : Building) : Type 0 where
  pub floors : length b.counts ≡ num_floors
  pub bounded : All (λ n. n ≤ max_words + 1) b.counts
  pub account : total b.counts + b.completed ≡ 2 * b.admitted
  pub order : b.completed ≤ b.admitted

try_admit-total :
    (counts later : List ℕ) (max_words sf af : ℕ)
    → af < length counts
    → sf < length counts
    → All (λ n. n ≤ max_words + 1) counts
    → try_admit counts max_words sf af ≡ (later, true)
    → (length later ≡ length counts)
      × All (λ n. n ≤ max_words + 1) later
      × (total later ≡ total counts + 2)
unfolding try_admit
try_admit-total counts later max_words sf af ha hs a e = elim (Bool-cases (af == sf)) [
  | inl same ↦ elim (Bool-cases (ltb (get_or counts af 0) max_words)) [
    | inl room ↦
        let n = get_or counts af 0 in
        let at = get_elem?-eq-get_or counts af 0 ha in
        let made : set counts af (n + 2) ≡ later = ground arith in
        rw (← made) (
          length-set counts af (n + 2),
          All-set (λ n. n ≤ max_words + 1) counts af (n + 2) a (ground arith),
          omega (arith, weigh-set (λ n. n) counts af n (n + 2) at),
        )
    | inr full ↦ ground arith
  ]
  | inr apart ↦
      let n = get_or counts af 0 in
      elim (Bool-cases (ltb n max_words && ltb (get_or counts sf 0) max_words)) [
        | inl room ↦
            let more = set counts af (n + 1) in
            let m = get_or more sf 0 in
            let at = get_elem?-eq-get_or counts af 0 ha in
            let long = length-set counts af (n + 1) in
            let at' = get_elem?-eq-get_or more sf 0 (omega (arith, long)) in
            let other = get_or-set counts af sf (n + 1) 0 ha in
            let made : set more sf (m + 1) ≡ later = ground arith in
            rw (← made) (
              length-set more sf (m + 1) ∙ long,
              All-set (λ n. n ≤ max_words + 1) more sf (m + 1)
                  (All-set (λ n. n ≤ max_words + 1) counts af (n + 1) a (ground arith))
                  (ground (arith, other)),
              omega (
                arith,
                weigh-set (λ n. n) counts af n (n + 1) at,
                weigh-set (λ n. n) more sf m (m + 1) at',
              ),
            )
        | inr full ↦ ground arith
      ]
]

Traffic-IsBuilding :
    (num_floors max_words : ℕ) (b c : Building)
    → IsBuilding num_floors max_words b
    → Traffic max_words b c
    → IsBuilding num_floors max_words c
Traffic-IsBuilding num_floors max_words b _ v (admits af sf counts ha hs e) =
    let (long, low, sum) =
      try_admit-total b.counts counts max_words sf af (ground arith) (ground arith) v.bounded e in
    record {
      floors = long ∙ v.floors;
      bounded = low;
      account = omega (arith, sum, v.account);
      order = omega (arith, v.order);
    }
Traffic-IsBuilding num_floors max_words b _ v (completes floor n open_word at) =
    let old = All-get (λ n. n ≤ max_words + 1) b.counts floor (suc n) v.bounded at in
    record {
      floors = length-set b.counts floor n ∙ v.floors;
      bounded = All-set (λ n. n ≤ max_words + 1) b.counts floor n v.bounded (omega (arith, old));
      account = omega (arith, weigh-set (λ n. n) b.counts floor (suc n) n at, v.account);
      order = ground arith;
    }

total-le : (k : ℕ) (counts : List ℕ) → All (λ n. n ≤ k) counts → total counts ≤ length counts * k
total-le k [] a = omega arith
total-le k (n ∷ counts) a = grind (arith, total-le k counts a.1)

new-total : (n : ℕ) → total (replicate n 0) ≡ 0
new-total zero = refl
new-total (suc n) = omega (arith, new-total n)

new-bounded : (k n : ℕ) → All (λ n. n ≤ k) (replicate n 0)
new-bounded k zero = tt
new-bounded k (suc n) = (omega arith, new-bounded k n)

new_building-IsBuilding :
    (num_floors max_words : ℕ) → IsBuilding num_floors max_words (new_building num_floors)
new_building-IsBuilding num_floors max_words = record {
  floors = length-replicate num_floors 0;
  bounded = new-bounded (max_words + 1) num_floors;
  account = omega (arith, new-total num_floors);
  order = omega arith;
}

Days-IsBuilding :
    (num_floors max_words : ℕ) {b c : Building}
    → IsBuilding num_floors max_words b
    → Days max_words b c
    → IsBuilding num_floors max_words c
Days-IsBuilding num_floors max_words v start = v
Days-IsBuilding num_floors max_words v (day {u} r t) =
    Traffic-IsBuilding num_floors max_words u _ (Days-IsBuilding num_floors max_words v r) t

-- In every state that the word carriers and the sorting processes reach from empty floors: no floor
-- counts more than max_words_per_floor + 1 words; the counts add up to twice the admitted words less
-- the completed ones; and so no more words are ever admitted than floors times max_words_per_floor + 1,
-- however many are completed.
pub Days-account :
    (num_floors max_words : ℕ) (b : Building)
    → Days max_words (new_building num_floors) b
    → All (λ n. n ≤ max_words + 1) b.counts
      × (total b.counts + b.completed ≡ 2 * b.admitted)
      × (b.admitted ≤ num_floors * (max_words + 1))
Days-account num_floors max_words b r =
    let v = Days-IsBuilding num_floors max_words (new_building-IsBuilding num_floors max_words) r in
    (
      v.bounded,
      v.account,
      omega (
        arith,
        v.account,
        v.order,
        total-le (max_words + 1) b.counts v.bounded,
        ap (λ (t : ℕ). t * (max_words + 1)) v.floors,
      ),
    )
