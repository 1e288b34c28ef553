-- ===== src/Activity/Shown.antt =====
-- What hiding spent allowances leaves.
use lasse_cash_migration_to.Prelude.{
  All-map, text_eq_refl, ◌∷◌, [], ◌≡◌, refl, ◌⊎◌, inl, inr, Bool, true, not, ◌&&◌, List, arith,
  Bool-cases, filter, any, All, Text, text_eq,
}
use lasse_cash_migration_to.Activity.{
  AccountOp, is_confirmed, is_allowance, consumed_ids, is_consumed, hide_spent_allowances,
}

-- Some operation of a list has this id.
abbrev has_id : List AccountOp → Text → Bool
has_id ops id = any (λ p. text_eq id p.id) ops

abbrev kept : List AccountOp → AccountOp → Bool
kept all_ops o = not (is_allowance o && is_confirmed o && is_consumed all_ops o.id)

filter-has_id :
    (all_ops : List AccountOp) (o : AccountOp) (ops : List AccountOp) (id : Text)
    → has_id (filter (kept all_ops) ops) id ≡ true
    → has_id (filter (kept all_ops) (o ∷ ops)) id ≡ true
filter-has_id all_ops o ops id h = elim (Bool-cases (kept all_ops o)) [
  | inl stays ↦ rw stays (ground arith)
  | inr hidden ↦ rw hidden h
]

-- A consumed transaction has an operation that is kept, whatever else is hidden.
consumed-has_id :
    (all_ops ops : List AccountOp) (id : Text)
    → is_consumed ops id ≡ true
    → has_id (filter (kept all_ops) ops) id ≡ true
unfolding consumed_ids
consumed-has_id all_ops [] id h = cc
consumed-has_id all_ops (o ∷ ops) id h =
    elim (Bool-cases (not (is_allowance o) && is_confirmed o)) [
      | inl spends ↦
          let stays : kept all_ops o ≡ true = ground arith in
          let later = consumed-has_id all_ops ops id in
          rw stays (elim (Bool-cases (text_eq id o.id)) [
            | inl same ↦ rw same refl
            | inr differs ↦ rw differs (later (rw (spends, differs) at h))
          ])
      | inr other ↦ filter-has_id all_ops o ops id (consumed-has_id all_ops ops id (rw other at h))
    ]

-- An operation is kept, or its transaction is consumed.
kept_or_consumed :
    (all_ops ops : List AccountOp)
    → All
        (λ o. (has_id (filter (kept all_ops) ops) o.id ≡ true) ⊎ (is_consumed all_ops o.id ≡ true))
        ops
kept_or_consumed all_ops [] = tt
kept_or_consumed all_ops (o ∷ ops) = (
  elim (Bool-cases (kept all_ops o)) [
    | inl stays ↦ inl (rw (stays, text_eq_refl o.id) refl)
    | inr hidden ↦ inr (ground arith)
  ],
  All-map ops
      (λ p s. elim s [
        | inl found ↦ inl (filter-has_id all_ops o ops p.id found)
        | inr consumed ↦ inr consumed
      ])
      (kept_or_consumed all_ops ops),
)

-- Hiding spent allowances leaves an operation of every transaction.
hide_spent_allowances-has_id :
    (ops : List AccountOp) → All (λ o. has_id (hide_spent_allowances ops) o.id ≡ true) ops
unfolding hide_spent_allowances
hide_spent_allowances-has_id ops =
    All-map ops
      (λ o s. elim s [ inl found ↦ found | inr consumed ↦ consumed-has_id ops ops o.id consumed ])
      (kept_or_consumed ops ops)
