-- ===== src/Logs/Ring/Refine.antt =====
-- A ring that starts empty answers every sequence of operations as a list of bounded length does.
use gtu_cse344_systems_progr.Common.{
  ℕ, ◌<◌, ◌≡◌, ◌∙◌, refl, ap, ap₂, sym, List, [], ◌∷◌, ◌++◌, true, false, ◌==◌, length,
  length-replicate, arith, Bool-cases, inl, inr,
}
use native.Mathlib.Nat.{mod-eq_of_lt}
use gtu_cse344_systems_progr.Logs.Ring.{
  Ring, full, pushed, empty, popped, fault, push, pop, cleared,
}
use gtu_cse344_systems_progr.Logs.Ring.Fifo.{
  IsRing, items, length-items, push-Pushed, pop-Popped, push-full, pop-empty, items-empty,
}

module _ {ℓ} (A : Type ℓ) where
  pub data Op : Type ℓ where
    put : A → Op
    get : Op

  pub data Answer : Type ℓ where
    stored refused nothing crashed : Answer
    got : A → Answer

module _ {ℓ} {A : Type ℓ} where
  abbrev pub run_ring : Ring A → List (Op A) → List (Answer A)
  run_ring r [] = []
  run_ring r (put x ∷ ops) = elim (push r x) [
    | full ↦ Answer.refused ∷ run_ring r ops
    | pushed s ↦ Answer.stored ∷ run_ring s ops
    | fault ↦ Answer.crashed ∷ []
  ]
  run_ring r (get ∷ ops) = elim (pop r) [
    | empty ↦ Answer.nothing ∷ run_ring r ops
    | popped x s ↦ Answer.got x ∷ run_ring s ops
    | fault ↦ Answer.crashed ∷ []
  ]

  -- The same on a list of at most `capacity` items, the oldest first.
  abbrev pub run_queue : ℕ → List A → List (Op A) → List (Answer A)
  run_queue capacity xs [] = []
  run_queue capacity xs (put x ∷ ops) = elim (length xs == capacity) [
    | true ↦ Answer.refused ∷ run_queue capacity xs ops
    | false ↦ Answer.stored ∷ run_queue capacity (xs ++ x ∷ []) ops
  ]
  run_queue capacity [] (get ∷ ops) = Answer.nothing ∷ run_queue capacity [] ops
  run_queue capacity (x ∷ xs) (get ∷ ops) = Answer.got x ∷ run_queue capacity xs ops

module _ {ℓ} {A : Type ℓ} (d : A) where
  run_ring-run_queue :
      (r : Ring A) (ops : List (Op A))
      → IsRing d r
      → run_ring r ops ≡ run_queue r.capacity (items d r) ops
  run_ring-run_queue r [] v = refl
  run_ring-run_queue r (put x ∷ ops) v = elim (Bool-cases (r.count == r.capacity)) [
    | inl is_full ↦
        let stays : push r x ≡ full = push-full d r x (ground arith) in
        let same : (length (items d r) == r.capacity) ≡ true = ground (arith, length-items d r) in
        rw (run_ring, run_queue, stays, same)
          (ap (λ xs. Answer.refused ∷ xs) (run_ring-run_queue r ops v))
    | inr not_full ↦
        let (s, moves, p) = push-Pushed d r x v (ground (arith, v.count_le)) in
        let same : (length (items d r) == r.capacity) ≡ false = ground (arith, length-items d r) in
        rw (run_ring, run_queue, moves, same)
          (ap (λ xs. Answer.stored ∷ xs)
            (run_ring-run_queue s ops p.valid
              ∙ ap₂ (λ n xs. run_queue n xs ops) p.capacity p.queue))
  ]
  run_ring-run_queue r (get ∷ ops) v = elim (Bool-cases (r.count == 0)) [
    | inl is_empty ↦
        let stays : pop r ≡ empty = pop-empty d r (ground arith) in
        let same : items d r ≡ [] = items-empty d r (ground arith) in
        rw (run_ring, run_queue, stays, same)
          (ap (λ xs. Answer.nothing ∷ xs)
            (run_ring-run_queue r ops v ∙ ap (λ xs. run_queue r.capacity xs ops) same))
    | inr not_empty ↦
        let (x, s, moves, p) = pop-Popped d r v (ground arith) in
        rw (run_ring, run_queue, moves, p.queue)
          (ap (λ xs. Answer.got x ∷ xs)
            (run_ring-run_queue s ops p.valid ∙ ap (λ n. run_queue n (items d s) ops) p.capacity))
  ]

  -- A ring of at least one cell that starts empty answers every sequence of pushes and pops as the
  -- bounded list does: items come out in the order in which they went in, none is lost or
  -- overwritten, and no access is outside the array.
  pub cleared-run_queue :
      (capacity : ℕ) (ops : List (Op A))
      → 0 < capacity
      → run_ring (cleared d capacity) ops ≡ run_queue capacity [] ops
  cleared-run_queue capacity ops h = run_ring-run_queue (cleared d capacity) ops (record {
    sized = length-replicate capacity d;
    head_in = h;
    tail_at = sym (mod-eq_of_lt h);
    count_le = omega arith;
  })
