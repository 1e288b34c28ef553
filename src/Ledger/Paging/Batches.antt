-- ===== src/Ledger/Paging/Batches.antt =====
-- Four pages at a time against one page after another, in api/src/magi-backend.ts.
use lasse_cash_migration_to.Prelude.{
  le→ltb, append_assoc, ◌∷◌, ◌++◌, [], ℕ, zero, suc, ◌+◌, ◌*◌, ◌≤◌, ◌≡◌, refl, sym, ap, ◌∙◌, inl,
  inr, Bool, true, false, List, arith, ltb, if◌then◌else◌, Bool-cases, length, filter,
}
use lasse_cash_migration_to.Ledger.Paging.{
  page_size, batch, walk_pages, offsets, page_then, take_pages, batch_pages, batch_then,
  walk_batches, all_pages, all_batches,
}

module _ {A : Type 0} (page : ℕ → List A) (limit : ℕ) where
  walk_past : (fuel offset : ℕ) → limit ≤ offset → walk_pages page limit fuel offset ≡ []
  unfolding walk_pages
  walk_past zero offset h = refl
  walk_past (suc fuel) offset h = rw (le→ltb offset limit h) refl

  -- Where the fuel covers what is left, one round more changes nothing.
  walk_more :
      (fuel offset : ℕ)
      → limit ≤ offset + fuel
      → walk_pages page limit (suc fuel) offset ≡ walk_pages page limit fuel offset
  unfolding walk_pages
  walk_more zero offset h = rw (le→ltb offset limit (omega arith)) refl
  walk_more (suc fuel) offset h = rw (walk_more fuel (offset + page_size) (omega arith)) refl

  -- So many rounds more, and the offset so many pages on.
  abbrev more : ℕ → ℕ → ℕ
  more zero fuel = fuel
  more (suc n) fuel = suc (more n fuel)

  abbrev after : ℕ → ℕ → ℕ
  after zero offset = offset
  after (suc n) offset = after n (offset + page_size)

  fuel-le-more : (n fuel : ℕ) → fuel ≤ more n fuel
  fuel-le-more zero fuel = omega arith
  fuel-le-more (suc n) fuel = omega (arith, fuel-le-more n fuel)

  walk_any :
      (n fuel offset : ℕ)
      → limit ≤ offset + fuel
      → walk_pages page limit (more n fuel) offset ≡ walk_pages page limit fuel offset
  walk_any zero fuel offset h = refl
  walk_any (suc n) fuel offset h =
      walk_more (more n fuel) offset (omega (arith, fuel-le-more n fuel)) ∙ walk_any n fuel offset h

  abbrev below : ℕ → ℕ → List ℕ
  below n offset = filter (λ o. ltb o limit) (offsets page limit n offset)

  below_past : (n offset : ℕ) → limit ≤ offset → below n offset ≡ []
  below_past zero offset h = refl
  below_past (suc n) offset h =
      rw (le→ltb offset limit h) (below_past n (offset + page_size) (omega arith))

  page_then_walk :
      (short : Bool) (rows : List A) (later : List A × Bool) (rest : List A)
      → batch_then page limit (page_then page limit short rows later) rest
        ≡ (if short then rows else rows ++ batch_then page limit later rest)
  page_then_walk true rows later rest = refl
  page_then_walk false rows (found, true) rest = refl
  page_then_walk false rows (found, false) rest = append_assoc rows found rest

  le-after : (n offset : ℕ) → offset ≤ after n offset
  le-after zero offset = omega arith
  le-after (suc n) offset = omega (arith, le-after n (offset + page_size))

  below_step :
      (n offset : ℕ)
      → ltb offset limit ≡ true
      → below (suc n) offset ≡ offset ∷ below n (offset + page_size)
  below_step n offset h = ground arith

  walk_step :
      (fuel offset : ℕ)
      → ltb offset limit ≡ true
      → walk_pages page limit (suc fuel) offset ≡ (
          if ltb (length (page offset)) page_size
          then page offset
          else page offset ++ walk_pages page limit fuel (offset + page_size))
  unfolding walk_pages
  walk_step fuel offset h = ground arith

  batch-walk :
      (n fuel offset : ℕ)
      → batch_then page limit
          (take_pages page limit (below n offset))
          (walk_pages page limit fuel (after n offset))
        ≡ walk_pages page limit (more n fuel) offset
  unfolding take_pages
  batch-walk zero fuel offset = refl
  batch-walk (suc n) fuel offset = elim (Bool-cases (ltb offset limit)) [
    | inl inside ↦
        let rest = walk_pages page limit fuel (after n (offset + page_size)) in
        let short = ltb (length (page offset)) page_size in
        ap (λ os. batch_then page limit (take_pages page limit os) rest)
          (below_step n offset inside)
        ∙ page_then_walk short (page offset) (take_pages page limit (below n (offset + page_size)))
            rest
        ∙ ap (λ l. if short then page offset else page offset ++ l)
            (batch-walk n fuel (offset + page_size))
        ∙ sym (walk_step (more n fuel) offset inside)
    | inr outside ↦
        let past : limit ≤ offset = ground arith in
        ap
          (λ os.
            batch_then page limit (take_pages page limit os)
              (walk_pages page limit fuel (after (suc n) offset)))
          (below_past (suc n) offset past)
        ∙ walk_past fuel (after (suc n) offset) (omega (arith, le-after (suc n) offset))
        ∙ sym (walk_past (more (suc n) fuel) offset past)
  ]

  batch_pages-walk :
      (fuel offset : ℕ)
      → batch_then page limit
          (batch_pages page limit offset)
          (walk_pages page limit fuel (offset + batch * page_size))
        ≡ walk_pages page limit (more batch fuel) offset
  unfolding batch_pages
  batch_pages-walk fuel offset =
      let same : offset + batch * page_size ≡ after batch offset = omega arith in
      ap
        (λ o.
          batch_then page limit (take_pages page limit (below batch offset))
            (walk_pages page limit fuel o))
        same
      ∙ batch-walk batch fuel offset

  batches-walk :
      (fuel offset : ℕ)
      → limit ≤ offset + fuel
      → walk_batches page limit fuel offset ≡ walk_pages page limit fuel offset
  unfolding walk_batches
  batches-walk zero offset h = sym (walk_past zero offset (omega arith))
  batches-walk (suc fuel) offset h = elim (Bool-cases (ltb offset limit)) [
    | inr outside ↦ rw outside (sym (walk_past (suc fuel) offset (ground arith)))
    | inl inside ↦
        let rest = batches-walk fuel (offset + batch * page_size) (omega arith) in
        rw (inside, rest) (batch_pages-walk fuel offset ∙ walk_any 3 (suc fuel) offset h)
  ]

  -- Reading four pages at a time, and leaving the others of a batch behind a page that is not full,
  -- gives the rows that one page after another gives, up to any limit.
  pub all_batches-all_pages : all_batches page limit ≡ all_pages page limit
  unfolding all_batches all_pages
  all_batches-all_pages = batches-walk limit 0 (omega arith)
