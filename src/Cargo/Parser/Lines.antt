-- ===== src/Cargo/Parser/Lines.antt =====
-- The loop over the lines of the input file.
use gtu_cse344_systems_progr.Common.{
  ℕ, zero, suc, ◌+◌, ◌*◌, ◌<◌, ◌≡◌, ◌∙◌, refl, ap, sym, fun_ext, List, [], ◌∷◌, ◌++◌, append_assoc,
  append-nil, Bool, true, false, Option, none, some, ◌==◌, ◌&&◌, ◌||◌, not, if◌then◌else◌, length,
  arith, filter, filter-filter, filter-true, filter_map, All, All-append, Option-cases, Bool-cases,
  inl, inr,
}
use gtu_cse344_systems_progr.Libc.{fgets, fgets-lt, c_string}
use gtu_cse344_systems_progr.Cargo.Order.{Order}
use gtu_cse344_systems_progr.Cargo.Parser.{
  add_order, line_buf_size, initial_capacity, has_duplicate_id, line_order, new_order, parse_loop,
  parse_orders_file, rstrip_newline,
}
use gtu_cse344_systems_progr.Cargo.Parser.Fields.{IsAccepted, parse_one_line-IsAccepted}

-- No two orders have the same id.
abbrev pub IsDistinct : List Order → Type 0
IsDistinct [] = Unit
IsDistinct (o ∷ os) = (has_duplicate_id os o.id ≡ false) × IsDistinct os

has_duplicate_id-concat :
    (os : List Order) (o : Order) (id : ℕ)
    → has_duplicate_id (os ++ o ∷ []) id ≡ (has_duplicate_id os id || o.id == id)
unfolding has_duplicate_id
has_duplicate_id-concat [] o id = ground arith
has_duplicate_id-concat (p ∷ os) o id = ground (arith, has_duplicate_id-concat os o id)

IsDistinct-concat :
    (os : List Order) (o : Order)
    → has_duplicate_id os o.id ≡ false
    → IsDistinct os
    → IsDistinct (os ++ o ∷ [])
unfolding has_duplicate_id
IsDistinct-concat [] o h d = (refl, tt)
IsDistinct-concat (p ∷ os) o h d = (
  ground (arith, has_duplicate_id-concat os o p.id, d.0),
  IsDistinct-concat os o (ground arith) d.1,
)

-- What the loop keeps true of the orders read so far.
pub record IsOrderList (os : List Order) : Type 0 where
  pub accepted : All IsAccepted os
  pub distinct : IsDistinct os

line_order-IsAccepted : (raw : List ℕ) (o : Order) → line_order raw ≡ some o → IsAccepted o
unfolding line_order
line_order-IsAccepted raw o e =
    parse_one_line-IsAccepted (rstrip_newline (c_string raw)) o (ground arith)

-- The list that a run of the loop returns.
abbrev Returned : Option (List Order) → Type 0
Returned r = (os : List Order) × (r ≡ some os) × IsOrderList os

add_order-Returned :
    (grants : ℕ → Bool) (next : List Order → ℕ → Option (List Order)) (os : List Order)
    (capacity : ℕ) (m : Option Order)
    → ((xs : List Order) (c : ℕ) → IsOrderList xs → Returned (next xs c))
    → IsOrderList os
    → ((p : Order) → m ≡ some p → IsAccepted p)
    → Returned (add_order grants next os capacity (new_order os m))
unfolding add_order
add_order-Returned grants next os capacity none rest v h = rest os capacity v
add_order-Returned grants next os capacity (some o) rest v h =
    elim (Bool-cases (has_duplicate_id os o.id)) [
      | inl old ↦ rw old (rest os capacity v)
      | inr fresh ↦
          rw (fresh, add_order)
            (elim (Bool-cases (length os == capacity)) [
              | inl full ↦ rw full (elim (Bool-cases (grants (capacity * 2))) [
                | inl more ↦ rw more (rest (os ++ o ∷ []) (capacity * 2) (grown fresh))
                | inr refused ↦ rw refused (os, refl, v)
              ])
              | inr room ↦ rw room (rest (os ++ o ∷ []) capacity (grown fresh))
            ])
    ]
  where
    grown : has_duplicate_id os o.id ≡ false → IsOrderList (os ++ o ∷ [])
    grown fresh = record {
      accepted = All-append IsAccepted os (o ∷ []) v.accepted (h o refl, tt);
      distinct = IsDistinct-concat os o fresh v.distinct;
    }

parse_loop-Returned :
    (fuel : ℕ) (grants : ℕ → Bool) (file : List ℕ) (os : List Order) (capacity : ℕ)
    → length file < fuel
    → IsOrderList os
    → Returned (parse_loop fuel grants file os capacity)
unfolding parse_loop
parse_loop-Returned zero grants file os capacity f v = absurd (omega arith)
parse_loop-Returned (suc fuel) grants file os capacity f v =
    elim (Option-cases (fgets line_buf_size file)) [
      | inl end ↦ (os, rw (end, parse_loop) refl, v)
      | inr ((raw, rest), e) ↦
          let shorter = fgets-lt line_buf_size file raw rest (omega arith) e in
          rw (e, parse_loop)
            (add_order-Returned grants (parse_loop fuel grants rest) os capacity (line_order raw)
              (λ xs c w. parse_loop-Returned fuel grants rest xs c (omega arith) w) v
              (line_order-IsAccepted raw))
    ]

-- With a file and a first array the call returns, whatever the later allocations do, and the
-- orders that it returns have distinct ids and have passed every check.
pub parse_orders_file-IsOrderList :
    (grants : ℕ → Bool) (bytes : List ℕ)
    → grants initial_capacity ≡ true
    → (os : List Order) × (parse_orders_file grants (some bytes) ≡ some os) × IsOrderList os
unfolding parse_orders_file
parse_orders_file-IsOrderList grants bytes g = rw g (
    parse_loop-Returned (length bytes + 1) grants bytes [] initial_capacity (omega arith)
      (record { accepted = tt; distinct = tt }))

-- The lines of a file, as `fgets` cuts them.
pub file_lines : ℕ → List ℕ → List (List ℕ)
file_lines zero file = []
file_lines (suc fuel) file = elim (fgets line_buf_size file) [
  | none ↦ []
  | some (raw, rest) ↦ raw ∷ file_lines fuel rest
]

-- The first order with each id.
abbrev pub first_with_id : List Order → List Order
first_with_id [] = []
first_with_id (o ∷ os) = o ∷ filter (λ x. not (x.id == o.id)) (first_with_id os)

abbrev not_in : List Order → Order → Bool
not_in os x = not (has_duplicate_id os x.id)

-- An order whose id is among the old ones also removes nothing that they leave.
not_in-old :
    (os : List Order) (o : Order)
    → has_duplicate_id os o.id ≡ true
    → (xs : List Order)
    → filter (not_in os) (filter (λ x. not (x.id == o.id)) xs) ≡ filter (not_in os) xs
not_in-old os o old xs =
    filter-filter (not_in os) (λ x. not (x.id == o.id)) xs
    ∙ ap (λ (p : Order → Bool). filter p xs) (fun_ext same)
  where
    same : (x : Order) → (not (x.id == o.id) && not_in os x) ≡ not_in os x
    same x = elim (Bool-cases (x.id == o.id)) [
      | inl e ↦ let i : x.id ≡ o.id = ground arith in ground arith
      | inr ne ↦ ground arith
    ]

not_in-fresh :
    (os : List Order) (o : Order) (xs : List Order)
    → filter (not_in os) (filter (λ x. not (x.id == o.id)) xs) ≡ filter (not_in (os ++ o ∷ [])) xs
not_in-fresh os o xs =
    filter-filter (not_in os) (λ x. not (x.id == o.id)) xs
    ∙ ap (λ (p : Order → Bool). filter p xs) (fun_ext same)
  where
    same : (x : Order) → (not (x.id == o.id) && not_in os x) ≡ not_in (os ++ o ∷ []) x
    same x = ground (arith, has_duplicate_id-concat os o x.id)

abbrev adds : List Order → List Order → List Order
adds os found = os ++ filter (not_in os) (first_with_id found)

adds-cons :
    (os : List Order) (o : Order) (found : List Order)
    → adds os (o ∷ found)
      ≡ (if has_duplicate_id os o.id then adds os found else adds (os ++ o ∷ []) found)
adds-cons os o found = elim (Bool-cases (has_duplicate_id os o.id)) [
  | inl old ↦ rw old (ap (◌++◌ os) (not_in-old os o old (first_with_id found)))
  | inr fresh ↦ rw fresh (
      ap (λ xs. os ++ o ∷ xs) (not_in-fresh os o (first_with_id found))
      ∙ sym (append_assoc os (o ∷ []) (filter (not_in (os ++ o ∷ [])) (first_with_id found))))
]

module _ (grants : ℕ → Bool) (always : (n : ℕ) → grants n ≡ true) where
  add_order-adds :
      (next : List Order → ℕ → Option (List Order)) (found os : List Order) (capacity : ℕ)
      (m : Option Order)
      → ((xs : List Order) (c : ℕ) → next xs c ≡ some (adds xs found))
      → add_order grants next os capacity (new_order os m)
        ≡ some (adds os (elim m [ none ↦ found | some o ↦ o ∷ found ]))
  unfolding add_order
  add_order-adds next found os capacity none rest = rest os capacity
  add_order-adds next found os capacity (some o) rest = ground (
    arith,
    adds-cons os o found,
    always (capacity * 2),
    rest os capacity,
    rest (os ++ o ∷ []) capacity,
    rest (os ++ o ∷ []) (capacity * 2),
  )

  parse_loop-adds :
      (fuel : ℕ) (file : List ℕ) (os : List Order) (capacity : ℕ)
      → length file < fuel
      → parse_loop fuel grants file os capacity
        ≡ some (adds os (filter_map line_order (file_lines fuel file)))
  unfolding parse_loop file_lines
  parse_loop-adds zero file os capacity f = absurd (omega arith)
  parse_loop-adds (suc fuel) file os capacity f = elim (Option-cases (fgets line_buf_size file)) [
    | inl end ↦ rw (end, parse_loop, file_lines) (ap some (sym (append-nil os)))
    | inr ((raw, rest), e) ↦
        let shorter = fgets-lt line_buf_size file raw rest (omega arith) e in
        rw (e, parse_loop, file_lines)
          (add_order-adds (parse_loop fuel grants rest)
            (filter_map line_order (file_lines fuel rest)) os capacity (line_order raw)
            (λ xs c. parse_loop-adds fuel rest xs c (omega arith)))
  ]

  -- While memory lasts, the result is the first order with each id among the orders that the lines
  -- of the file give, in the order of the file.
  pub parse_orders_file-first_with_id :
      (bytes : List ℕ)
      → parse_orders_file grants (some bytes)
        ≡ some (first_with_id (filter_map line_order (file_lines (length bytes + 1) bytes)))
  unfolding parse_orders_file has_duplicate_id
  parse_orders_file-first_with_id bytes = rw (always initial_capacity) (
      parse_loop-adds (length bytes + 1) bytes [] initial_capacity (omega arith)
      ∙ ap some (filter-true _))
