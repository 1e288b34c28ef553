-- ===== src/Activity/Grouped.antt =====
-- The grouping of pool claims, against a reading of the list without a map.
use lasse_cash_migration_to.Prelude.{
  text_eq→eq, text_eq_apart, append-nil, append_assoc, filter-append, lt→ltb, ◌∷◌, ◌++◌, [], suc,
  ◌≡◌, refl, sym, ap, ◌∙◌, inl, inr, Bool, true, false, not, ◌&&◌, Option, none, some, List, map,
  arith, ltb, if◌then◌else◌, Bool-cases, length, filter, Text, text_eq, Option-cases,
}
use lasse_cash_migration_to.Activity.{
  Grouping, row_of, row_from, group_op, group_all, group_pool_claims, AccountOp, is_claim, Group,
  find_group, push_claim, merged_row,
}

-- The confirmed claims of a transaction, in their order.
abbrev pub claims_in : List AccountOp → Text → List AccountOp
claims_in ops id = filter (λ o. is_claim o && text_eq o.id id) ops

-- An operation that is no claim, or the first claim of its transaction behind `seen`.
abbrev pub is_first : List AccountOp → AccountOp → Bool
is_first seen o = not (is_claim o && ltb 0 (length (claims_in seen o.id)))

-- The operations of a list behind `seen` that get a row.
abbrev pub firsts : List AccountOp → List AccountOp → List AccountOp
firsts seen [] = []
firsts seen (o ∷ ops) = (if is_first seen o then o ∷ [] else []) ++ firsts (seen ++ o ∷ []) ops

-- The row of an operation: of two claims or more, all of them; else the operation itself.
abbrev pub row_for : List AccountOp → AccountOp → AccountOp
row_for ops o =
    if is_claim o && not (ltb (length (claims_in ops o.id)) 2)
    then merged_row o (claims_in ops o.id)
    else o

abbrev some_claims : List AccountOp → Option (List AccountOp)
some_claims [] = none
some_claims (o ∷ ops) = some (o ∷ ops)

abbrev pushed : AccountOp → Option (List AccountOp) → Option (List AccountOp)
pushed o none = none
pushed o (some g) = some (g ++ o ∷ [])

abbrev or_new : List AccountOp → Option (List AccountOp) → Option (List AccountOp)
or_new c none = some c
or_new c (some g) = some g

find-push :
    (gs : List Group) (o : AccountOp) (id : Text)
    → find_group (push_claim gs o) id
      ≡ (if text_eq o.id id then pushed o (find_group gs id) else find_group gs id)
unfolding find_group push_claim
find-push [] o id = ground arith
find-push (g ∷ gs) o id = elim (Bool-cases (text_eq g.key o.id)) [
  | inl same ↦
      let e : g.key ≡ o.id = text_eq→eq g.key o.id same in
      rw same (elim (Bool-cases (text_eq o.id id)) [
        | inl hit ↦ rw (e, hit) refl
        | inr miss ↦ rw (e, miss) refl
      ])
  | inr differs ↦ elim (Bool-cases (text_eq g.key id)) [
    | inr miss ↦ rw (differs, miss) (find-push gs o id)
    | inl hit ↦ rw (differs, hit, text_eq_apart g.key o.id id differs hit) refl
  ]
]

find-new :
    (gs : List Group) (k : Text) (c : List AccountOp) (id : Text)
    → find_group (gs ++ record { key = k; claims = c } ∷ []) id
      ≡ (if text_eq k id then or_new c (find_group gs id) else find_group gs id)
unfolding find_group
find-new [] k c id = refl
find-new (g ∷ gs) k c id = elim (Bool-cases (text_eq g.key id)) [
  | inl hit ↦ rw hit (ground arith)
  | inr miss ↦ rw miss (find-new gs k c id)
]

claims_in-snoc :
    (seen : List AccountOp) (o : AccountOp) (id : Text)
    → claims_in (seen ++ o ∷ []) id
      ≡ claims_in seen id ++ (if is_claim o && text_eq o.id id then o ∷ [] else [])
claims_in-snoc seen o id = filter-append (λ p. is_claim p && text_eq p.id id) seen (o ∷ [])

-- The map holds the claims of each transaction seen so far.
abbrev IsGrouped : List AccountOp → List Group → Type 0
IsGrouped seen gs = (id : Text) → find_group gs id ≡ some_claims (claims_in seen id)

pushed-some_claims :
    (o : AccountOp) (cs : List AccountOp) {g : List AccountOp}
    → some_claims cs ≡ some g
    → pushed o (some_claims cs) ≡ some_claims (cs ++ o ∷ [])
pushed-some_claims o [] h = cc
pushed-some_claims o (c ∷ cs) h = refl

new-some_claims :
    (o : AccountOp) (cs : List AccountOp)
    → some_claims cs ≡ none
    → or_new (o ∷ []) (some_claims cs) ≡ some_claims (cs ++ o ∷ [])
new-some_claims o [] h = refl
new-some_claims o (c ∷ cs) h = cc

-- A claim that joins a group.
push-IsGrouped :
    (seen : List AccountOp) (gs : List Group) (o : AccountOp) {g : List AccountOp}
    → is_claim o ≡ true
    → find_group gs o.id ≡ some g
    → IsGrouped seen gs
    → IsGrouped (seen ++ o ∷ []) (push_claim gs o)
push-IsGrouped seen gs o claim found h id =
    find-push gs o id ∙ elim (Bool-cases (text_eq o.id id)) [
      | inl same ↦
          let e : o.id ≡ id = text_eq→eq o.id id same in
          let there : some_claims (claims_in seen id) ≡ some _ = sym (h id) ∙ (rw e at found) in
          rw (claims_in-snoc seen o id, same, claim, h id)
            (pushed-some_claims o (claims_in seen id) there)
      | inr differs ↦
          rw (claims_in-snoc seen o id, differs, claim, h id, append-nil (claims_in seen id)) refl
    ]

-- A claim that starts one.
new-IsGrouped :
    (seen : List AccountOp) (gs : List Group) (o : AccountOp)
    → is_claim o ≡ true
    → find_group gs o.id ≡ none
    → IsGrouped seen gs
    → IsGrouped (seen ++ o ∷ []) (gs ++ record { key = o.id; claims = o ∷ [] } ∷ [])
new-IsGrouped seen gs o claim missing h id =
    find-new gs o.id (o ∷ []) id ∙ elim (Bool-cases (text_eq o.id id)) [
      | inl same ↦
          let e : o.id ≡ id = text_eq→eq o.id id same in
          let absent : some_claims (claims_in seen id) ≡ none = sym (h id) ∙ (rw e at missing) in
          rw (claims_in-snoc seen o id, same, claim, h id)
            (new-some_claims o (claims_in seen id) absent)
      | inr differs ↦
          rw (claims_in-snoc seen o id, differs, claim, h id, append-nil (claims_in seen id)) refl
    ]

group_op-groups :
    (seen : List AccountOp) (s : Grouping) (o : AccountOp)
    → IsGrouped seen s.groups
    → IsGrouped (seen ++ o ∷ []) (group_op s o).groups
unfolding group_op
group_op-groups seen s o h = elim (Bool-cases (is_claim o)) [
  | inr other ↦
      rw other (λ id. rw (claims_in-snoc seen o id, other, append-nil (claims_in seen id)) (h id))
  | inl claim ↦ elim (Option-cases (find_group s.groups o.id)) [
    | inl missing ↦ rw (claim, missing) (new-IsGrouped seen s.groups o claim missing h)
    | inr (g, found) ↦ rw (claim, found) (push-IsGrouped seen s.groups o claim found h)
  ]
]

first_none : (cs : List AccountOp) → some_claims cs ≡ none → ltb 0 (length cs) ≡ false
first_none [] h = refl
first_none (c ∷ cs) h = cc

first_some :
    (cs : List AccountOp) {g : List AccountOp} → some_claims cs ≡ some g → ltb 0 (length cs) ≡ true
first_some [] h = cc
first_some (c ∷ cs) h = lt→ltb 0 (suc (length cs)) (omega arith)

group_op-out :
    (seen : List AccountOp) (s : Grouping) (o : AccountOp)
    → IsGrouped seen s.groups
    → (group_op s o).out ≡ s.out ++ (if is_first seen o then o ∷ [] else [])
unfolding group_op
group_op-out seen s o h = elim (Bool-cases (is_claim o)) [
  | inr other ↦ rw other refl
  | inl claim ↦ elim (Option-cases (find_group s.groups o.id)) [
    | inl missing ↦
        rw (claim, missing, first_none (claims_in seen o.id) (sym (h o.id) ∙ missing)) refl
    | inr (g, found) ↦
        rw (claim, found, first_some (claims_in seen o.id) (sym (h o.id) ∙ found))
          (sym (append-nil s.out))
  ]
]

group_all_lem :
    (seen : List AccountOp) (s : Grouping) (ops : List AccountOp)
    → IsGrouped seen s.groups
    → ((group_all s ops).out ≡ s.out ++ firsts seen ops)
      × IsGrouped (seen ++ ops) (group_all s ops).groups
unfolding group_all
group_all_lem seen s [] h = (sym (append-nil s.out), rw (append-nil seen) h)
group_all_lem seen s (o ∷ ops) h =
    let (out, groups) =
      group_all_lem (seen ++ o ∷ []) (group_op s o) ops (group_op-groups seen s o h) in
    let row = if is_first seen o then o ∷ [] else [] in
    (
      out
          ∙ ap (λ l. l ++ firsts (seen ++ o ∷ []) ops) (group_op-out seen s o h)
          ∙ append_assoc s.out row (firsts (seen ++ o ∷ []) ops),
      rw (append_assoc seen (o ∷ []) ops) at groups,
    )

row_of_lem :
    (ops : List AccountOp) (gs : List Group)
    → IsGrouped ops gs
    → (o : AccountOp) → row_of gs o ≡ row_for ops o
unfolding row_of row_from
row_of_lem ops gs h o = elim (Bool-cases (is_claim o)) [
  | inr other ↦ rw other refl
  | inl claim ↦ rw (claim, h o.id) (row (claims_in ops o.id))
]
  where
    row :
        (cs : List AccountOp)
        → row_from o (some_claims cs) ≡ (if not (ltb (length cs) 2) then merged_row o cs else o)
    row [] = refl
    row (c ∷ cs) = ground arith

map-ext : {A B : Type 0} (f g : A → B) (xs : List A) → ((x : A) → f x ≡ g x) → map f xs ≡ map g xs
map-ext f g [] h = refl
map-ext f g (x ∷ xs) h = rw (h x, map-ext f g xs h)

-- The rows are those of the operations other than further claims of a transaction, in their order;
-- the row of a transaction with two claims or more is made of all of them.
pub group_pool_claims_lem :
    (ops : List AccountOp) → group_pool_claims ops ≡ map (row_for ops) (firsts [] ops)
unfolding group_pool_claims
group_pool_claims_lem ops =
    let start : Grouping = record { out = []; groups = [] } in
    let (out, groups) = group_all_lem [] start ops empty in
    rw out (
      map-ext (row_of (group_all start ops).groups) (row_for ops) (firsts [] ops)
        (row_of_lem ops (group_all start ops).groups groups))
  where
    empty : IsGrouped [] []
    empty id = unfold find_group in refl
