-- ===== src/Hogwarts/Stock/Sub.antt =====
-- Taking from a spellbook.
use gtu_cse344_systems_progr.Common.{
  ℕ, suc, ◌+◌, ◌-◌, ◌≤◌, ◌<◌, ◌≡◌, ap, sym, ◌∙◌, List, some, ◌==◌, length, get_elem?, set,
  weigh-set, weigh-take_last, get_elem?-set, get_elem?-set_other, get_elem?-length, length-set,
  Bool-cases, Option-cases, inl, inr, arith, get_elem?-eq-get_or,
}
use gtu_cse344_systems_progr.Libc.{Text}
use gtu_cse344_systems_progr.Hogwarts.Stock.{Item, find_item, spell_qty, remove_entry, spell_sub}
use gtu_cse344_systems_progr.Hogwarts.Stock.Held.{under, value, held, find-found}

-- Removing an entry takes its quantity, wherever the last entry moves to.
held-remove_entry :
    (book : List Item) (i : ℕ) (x : Item) (t : Text)
    → get_elem? book i ≡ some x
    → held t (remove_entry book i) + value t x ≡ held t book
unfolding remove_entry
held-remove_entry book i x t e =
    let inside = get_elem?-length book i x e in
    elim (Option-cases (get_elem? book (length book - 1))) [
      | inl n ↦ absurd (cc (get_elem?-eq-get_or book (length book - 1) x (omega arith)))
      | inr (last, h) ↦
          let moved = set book i last in
          let long : length moved ≡ suc (length book - 1) = omega (arith, length-set book i last) in
          let at_end : get_elem? moved (length book - 1) ≡ some last =
            elim (Bool-cases (i == (length book - 1))) [
              | inl same ↦
                  let eq : i ≡ length book - 1 = ground arith in
                  ap (get_elem? moved) (sym eq) ∙ get_elem?-set book i x last e
              | inr apart ↦ get_elem?-set_other book i (length book - 1) last (ground arith) ∙ h
            ] in
          rw (remove_entry, h)
            (omega (
              arith,
              weigh-take_last (value t) (length book - 1) moved last long at_end,
              weigh-set (value t) book i x last e,
            ))
    ]

-- What is taken from the first entry of a name is taken from what the book holds under it.
pub held-spell_sub :
    (book : List Item) (name : Text) (q : ℕ) (t : Text)
    → 0 < q
    → q ≤ spell_qty book name
    → held t (spell_sub book name q) + under name t q ≡ held t book
unfolding spell_sub
held-spell_sub book name q t h enough = elim (Option-cases (find_item book name)) [
  | inl n ↦ absurd (ground arith)
  | inr (i, found) ↦
      let (x, at, named) = find-found book name i found in
      let has : spell_qty book name ≡ x.qty = ground arith in
      let rest : Item = record x { qty = x.qty - q } in
      let left = set book i rest in
      let change = weigh-set (value t) book i x rest at in
      let same : value t x ≡ under name t x.qty = ap (λ n. under n t x.qty) named in
      let kept : value t rest ≡ under name t (x.qty - q) = ap (λ n. under n t (x.qty - q)) named in
      elim (Bool-cases (x.qty - q == 0)) [
        | inl gone ↦
            let removed = held-remove_entry left i rest t (get_elem?-set book i x rest at) in
            rw (spell_sub, found, at, gone) (ground (arith, change, same, kept, removed, has))
        | inr stays ↦ rw (spell_sub, found, at, stays) (ground (arith, change, same, kept, has))
      ]
]
