-- ===== src/Nodes/Failover.antt =====
-- Which node answers a call.
use lasse_cash_migration_to.Prelude.{
  ◌∷◌, ◌++◌, [], ℕ, ◌+◌, ◌%◌, ◌≡◌, refl, sym, ap, subst, ◌⊎◌, inl, inr, Bool, true, false, Option,
  none, some, List, arith, All, Text, Option-cases,
}
use lasse_cash_migration_to.Nodes.{
  custom_url, public_order, settle, magi_fetch, try_nodes, Outcome, reply, no_reply, Target, Ended,
  answered, unreachable, skip_reason, is_last,
}

-- Is the answer of a node passed over?
abbrev pub passed_over : Bool → Outcome → Bool
passed_over last (no_reply why) = true
passed_over last (reply status text) = elim (skip_reason last status text) [
  | none ↦ false
  | some why ↦ true
]

-- The node that is preferred after a call.
abbrev pub next_preferred : ℕ → Ended → ℕ
next_preferred preferred (answered t r) = t.index
next_preferred preferred (unreachable tried) = (preferred + 1) % 3

Outcome-cases :
    (o : Outcome)
    → ((why : Text) × (o ≡ no_reply why)) ⊎ ((status : ℕ) × (text : Text) × (o ≡ reply status text))
Outcome-cases (no_reply why) = inl (why, refl)
Outcome-cases (reply status text) = inr (status, text, refl)

module _ (ask : Text → Outcome) where
  -- How the loop may end: with the reply of the first node that is not passed over, or with none.
  abbrev pub EndsWell : List Target → Ended → Type 0
  EndsWell order (answered t r) =
      (before : List Target) × (after : List Target) × (order ≡ before ++ t ∷ after)
      × All (λ u. passed_over false (ask u.url) ≡ true) before
      × (ask t.url ≡ reply r.status r.text)
      × (passed_over (is_last after) (ask t.url) ≡ false)
  EndsWell order (unreachable tried) = All (λ u. passed_over false (ask u.url) ≡ true) order

  cons-EndsWell :
      (t : Target) (order : List Target) (end : Ended)
      → passed_over false (ask t.url) ≡ true
      → EndsWell order end
      → EndsWell (t ∷ order) end
  cons-EndsWell t order (answered u r) p (before, after, e, skipped, read, kept) =
      (t ∷ before, after, ap (λ l. t ∷ l) e, (p, skipped), read, kept)
  cons-EndsWell t order (unreachable tried) p h = (p, h)

  -- The last node is not passed over for what it replies.
  skip_reason_last : (status : ℕ) (text : Text) → skip_reason true status text ≡ none
  unfolding skip_reason
  skip_reason_last status text = ground arith

  skipped_early :
      (order : List Target) (status : ℕ) (text : Text) {why : Text}
      → skip_reason (is_last order) status text ≡ some why
      → passed_over false (reply status text) ≡ true
  skipped_early [] status text h = let c = skip_reason_last status text in absurd (ground arith)
  skipped_early (t ∷ order) status text h = rw (passed_over, h) refl

  try_nodes-EndsWell :
      (order : List Target) (tried : List (Text × Text))
      → EndsWell order (try_nodes ask tried order)
  unfolding try_nodes
  try_nodes-EndsWell [] tried = tt
  try_nodes-EndsWell (t ∷ order) tried = elim (Outcome-cases (ask t.url)) [
    | inl (why, h) ↦
        let e : try_nodes ask tried (t ∷ order) ≡ try_nodes ask (tried ++ (t.url, why) ∷ []) order =
          rw (try_nodes, h) refl in
        let p : passed_over false (ask t.url) ≡ true = rw h refl in
        subst (EndsWell (t ∷ order)) (sym e)
          (cons-EndsWell t order _ p (try_nodes-EndsWell order (tried ++ (t.url, why) ∷ [])))
    | inr (status, text, h) ↦ elim (Option-cases (skip_reason (is_last order) status text)) [
      | inr (why, skip) ↦
          let e : try_nodes ask tried (t ∷ order)
              ≡ try_nodes ask (tried ++ (t.url, why) ∷ []) order =
            rw (try_nodes, h) (rw skip refl) in
          let p : passed_over false (ask t.url) ≡ true =
            rw h (skipped_early order status text skip) in
          subst (EndsWell (t ∷ order)) (sym e)
            (cons-EndsWell t order _ p (try_nodes-EndsWell order (tried ++ (t.url, why) ∷ [])))
      | inl stay ↦
          let e : try_nodes ask tried (t ∷ order)
              ≡ answered t (record { status = status; text = text }) =
            rw (try_nodes, h) (rw stay refl) in
          let kept : passed_over (is_last order) (ask t.url) ≡ false =
            rw h (rw (passed_over, stay) refl) in
          subst (EndsWell (t ∷ order)) (sym e) ([], order, refl, tt, h, kept)
    ]
  ]

  settle_lem :
      (preferred : ℕ) (end : Ended) → settle preferred end ≡ (end, next_preferred preferred end)
  unfolding settle
  settle_lem preferred (answered t r) = refl
  settle_lem preferred (unreachable tried) = refl

  -- A call that is given no private node ends with the reply of the first public node, from the
  -- preferred one on, that is not passed over, and prefers that node from then on; or, where all are
  -- passed over, without a reply, and prefers the next node.
  pub magi_fetch-EndsWell :
      (url : Option Text) (preferred : ℕ)
      → custom_url url ≡ none
      → EndsWell (public_order preferred) (magi_fetch ask url preferred).0
        × ((magi_fetch ask url preferred).1
            ≡ next_preferred preferred (magi_fetch ask url preferred).0)
  unfolding magi_fetch
  magi_fetch-EndsWell url preferred h =
      let end = try_nodes ask [] (public_order preferred) in
      let e : magi_fetch ask url preferred ≡ (end, next_preferred preferred end) =
        rw (magi_fetch, h) (settle_lem preferred end) in
      subst
        (λ (f : Ended × ℕ).
          EndsWell (public_order preferred) f.0 × (f.1 ≡ next_preferred preferred f.0))
        (sym e) (try_nodes-EndsWell (public_order preferred) [], refl)
