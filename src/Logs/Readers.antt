-- ===== src/Logs/Readers.antt =====
-- HW4/src/processes/reader.c: the byte ranges that `run_reader` gives the reader threads of a file,
-- and the position where a thread starts to read.
use native.Mathlib.Nat.{div-add-mod, mod-lt, mul-le-mul_right}
use native.Mathlib.Decide.{dec_lt}
use gtu_cse344_systems_progr.Common.{
  ℕ, ◌+◌, ◌-◌, ◌*◌, ◌/◌, ◌≤◌, ◌<◌, ◌≡◌, ap, ltb, ◌==◌, ◌||◌, if◌then◌else◌, arith, Bool-cases, inl,
  inr, if-both,
}

-- `(file_size + T - 1) / T`
abbrev pub chunk : ℕ → ℕ → ℕ
chunk file_size threads = (file_size + threads - 1) / threads

abbrev pub start_byte : ℕ → ℕ → ℕ → ℕ
start_byte file_size threads i = i * chunk file_size threads

unfoldable pub end_byte : ℕ → ℕ → ℕ → ℕ
end_byte file_size threads i =
    let stop = (i + 1) * chunk file_size threads in
    if ltb file_size stop || i == (threads - 1) then file_size else stop

-- Thread `i` reads the lines that begin at position `p`.
abbrev pub InRange : ℕ → ℕ → ℕ → ℕ → Type 0
InRange file_size threads i p =
    (i < threads) × ((start_byte file_size threads i ≤ p) × (p < end_byte file_size threads i))

chunks-le : (file_size threads : ℕ) → 0 < threads → file_size ≤ threads * chunk file_size threads
chunks-le file_size threads h =
    let n = file_size + threads - 1 in
    let whole = div-add-mod n threads in let part = mod-lt n h in omega (arith, whole, part)

-- A position belongs to the chunk that its quotient names, and to no other.
quotient_only : (c p i j : ℕ) → i * c ≤ p → p < (i + 1) * c → j * c ≤ p → p < (j + 1) * c → i ≤ j
quotient_only c p i j a b d e = elim (dec_lt j i) [
  | yes less ↦
      let far : (j + 1) * c ≤ i * c = mul-le-mul_right c (omega arith) in absurd (omega arith)
  | no more ↦ omega arith
]

end_byte-le :
    (file_size threads i p : ℕ)
    → 0 < threads
    → InRange file_size threads i p
    → (p < (i + 1) * chunk file_size threads) × (p < file_size)
unfolding end_byte
end_byte-le file_size threads i p h r =
    let all_read = chunks-le file_size threads h in
    elim (Bool-cases (i == (threads - 1))) [
      | inl last ↦
          let top : i + 1 ≡ threads = ground (arith, r.0) in
          let cover : file_size ≤ (i + 1) * chunk file_size threads =
            omega (arith, all_read, ap (λ n. n * chunk file_size threads) top) in
          ground arith
      | inr inner ↦ ground arith
    ]

module _ (file_size threads p : ℕ) (some_thread : 0 < threads) (inside : p < file_size) where
  abbrev owner : ℕ
  owner = p / chunk file_size threads

  owner-InRange : InRange file_size threads owner p
  unfolding end_byte
  owner-InRange =
      let c = chunk file_size threads in
      let all_read = chunks-le file_size threads some_thread in
      let positive : 0 < c = elim (dec_lt 0 c) [
        | yes some_byte ↦ some_byte
        | no empty ↦
            let zero_chunk : c ≡ 0 = omega arith in
            absurd (omega (arith, ap (λ n. threads * n) zero_chunk))
      ] in
      let whole = div-add-mod p c in
      let part = mod-lt p positive in
      let from : owner * c ≤ p = grind (arith, whole) in
      let to : p < (owner + 1) * c = grind (arith, whole, part) in
      let few : owner < threads = elim (dec_lt owner threads) [
        | yes less ↦ less
        | no more ↦
            let far : threads * c ≤ owner * c = mul-le-mul_right c (omega arith) in
            absurd (omega arith)
      ] in
      (
        few,
        (
          from,
          if-both (λ e. p < e) (ltb file_size ((owner + 1) * c) || owner == (threads - 1)) inside
              to,
        ),
      )

  -- The ranges of the reader threads share out the file: with at least one thread, every position
  -- of the file is in the range of exactly one of them.
  pub ranges_lem :
      (i : ℕ) × InRange file_size threads i p × ((j : ℕ) → InRange file_size threads j p → j ≡ i)
  ranges_lem = (
    owner,
    owner-InRange,
    λ j r.
        let (near, inner) = end_byte-le file_size threads j p some_thread r in
        let (own_near, own_inner) =
          end_byte-le file_size threads owner p some_thread owner-InRange in
        let c = chunk file_size threads in
        let up = quotient_only c p j owner r.1.0 near owner-InRange.1.0 own_near in
        let down = quotient_only c p owner j owner-InRange.1.0 own_near r.1.0 near in omega arith,
  )
