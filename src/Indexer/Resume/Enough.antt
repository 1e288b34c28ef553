-- ===== src/Indexer/Resume/Enough.antt =====
-- A call with enough pages reaches the end of the history, whatever is stored.
use lasse_cash_migration_to.Prelude.{
  ◌==◌, ◌+◌, ◌-◌, ◌*◌, ◌<◌, ◌≤◌, not, sym, subst, ◌⊎◌, zero, suc, drop, length, true, false, ap,
  refl, inl, inr, leb, arith, ltb, Bool-cases, take, ◌≡◌, ℕ, List, ◌∙◌,
}
use lasse_cash_migration_to.Indexer.Store.{IndexedTx, IndexStore}
use lasse_cash_migration_to.Indexer.Sync.{
  Walk, fresh_of, read_page, walk_head, walk_back, backfill, walk, finish, sync_index, index_page,
  rows_at, resume_at, start_walk, number_or_zero, offset_key, done_key, is_one,
}
use lasse_cash_migration_to.Indexer.Resume.Pages.{length-page}

module _ (store : IndexStore) (history : List IndexedTx) (fetch_page : ℕ → ℕ → List IndexedTx)
    (fixed : (k o : ℕ) → fetch_page k o ≡ take index_page (drop o history)) where
  open store use {State, get_meta, set_meta}

  abbrev W : Type 0
  W = Walk store fetch_page

  -- Behind a full page there are at least as many rows as the page ends at.
  full_page :
      (w : W)
      → ltb (length (rows_at store fetch_page w)) index_page ≡ false
      → w.offset + index_page ≤ length history
  full_page w full =
      let e : length (rows_at store fetch_page w)
          ≡ length (take index_page (drop w.offset history)) =
        ap length (fixed w.pages w.offset) in
      let bound = length-page index_page w.offset history (omega arith) in
      elim (Bool-cases (leb (w.offset + index_page) (length history))) [
        | inl le ↦ ground arith
        | inr gt ↦ let short = bound (ground arith) in absurd (ground arith)
      ]

  -- Enough pages behind the offset reach the end.
  walk_back_end :
      (m : ℕ) (w : W)
      → length history < w.offset + suc m * index_page
      → (walk_back store fetch_page (suc m) w).reached_end ≡ true
  unfolding walk_back read_page
  walk_back_end zero w h =
      elim (Bool-cases (ltb (length (rows_at store fetch_page w)) index_page)) [
        | inl short ↦ rw short refl
        | inr full ↦ absurd (omega (arith, full_page w full))
      ]
  walk_back_end (suc m) w h =
      elim (Bool-cases (ltb (length (rows_at store fetch_page w)) index_page)) [
        | inl short ↦ rw short refl
        | inr full ↦
            let later =
              walk_back_end m
                (record (read_page store fetch_page false w) { offset = w.offset + index_page })
                (omega arith) in
            rw full later
      ]

  -- A walk of the head that has not reached the end: each page but the last has moved the offset.
  record IsPaced (w : W) : Type 0 where
    paced : w.pages * index_page ≤ w.offset + index_page
    inside : w.offset ≤ length history

  walk_head-IsPaced :
      (n : ℕ) (w : W)
      → w.pages * index_page ≡ w.offset
      → w.offset ≤ length history
      → ((walk_head store fetch_page n w).reached_end ≡ true)
        ⊎ IsPaced (walk_head store fetch_page n w)
  unfolding walk_head read_page
  walk_head-IsPaced zero w h le = inr (record { paced = omega arith; inside = le })
  walk_head-IsPaced (suc n) w h le =
      elim (Bool-cases (ltb (length (rows_at store fetch_page w)) index_page)) [
        | inl short ↦ inl (rw short refl)
        | inr full ↦
            elim (Bool-cases (
              ltb (length (fresh_of store fetch_page w.state (rows_at store fetch_page w)))
                (length (rows_at store fetch_page w)))) [
                  | inl met ↦
                      let w' = read_page store fetch_page (w.offset == 0) w in
                      let e : walk_head store fetch_page (suc n) w ≡ w' = rw (full, met) in
                      subst (λ (v : W). (v.reached_end ≡ true) ⊎ IsPaced v) (sym e)
                        (inr (record { paced = omega arith; inside = le }))
                  | inr all_fresh ↦
                      let w'' : W = record (read_page store fetch_page (w.offset == 0) w) {
                        offset = w.offset + index_page;
                      } in
                      let e : walk_head store fetch_page (suc n) w
                          ≡ walk_head store fetch_page n w'' =
                        rw (full, all_fresh) in
                      subst (λ (v : W). (v.reached_end ≡ true) ⊎ IsPaced v) (sym e)
                        (walk_head-IsPaced n w'' (omega arith) (full_page w full))
                ]
      ]

  resume_at_ge : (stored offset : ℕ) → offset ≤ resume_at store fetch_page stored offset
  resume_at_ge stored offset = ground arith

  -- The backfill has at least one page left, and these reach the end.
  backfill_end :
      (n : ℕ) (w : W)
      → length history + index_page < n * index_page
      → IsPaced w
      → (backfill store fetch_page n w).reached_end ≡ true
  unfolding backfill
  backfill_end n w h p =
      let start =
        resume_at store fetch_page (number_or_zero (get_meta w.state offset_key)) w.offset in
      let ge : w.offset ≤ start =
        resume_at_ge (number_or_zero (get_meta w.state offset_key)) w.offset in
      let left : n - w.pages ≡ suc (n - w.pages - 1) = omega (arith, p.paced, p.inside) in
      let w0 : W = record w { offset = start } in
      rw left (walk_back_end (n - w.pages - 1) w0 (omega (arith, p.paced, p.inside)))

  walk_end :
      (n : ℕ) (s : State)
      → length history + index_page < n * index_page
      → (walk store fetch_page n false s).reached_end ≡ true
  unfolding walk
  walk_end n s h =
      let w = walk_head store fetch_page n (start_walk store fetch_page s) in
      elim (Bool-cases (not w.reached_end)) [
        | inr reached ↦
            let e : walk store fetch_page n false s ≡ w = rw reached in
            let r : w.reached_end ≡ true = ground arith in ap (λ (v : W). v.reached_end) e ∙ r
        | inl open_end ↦
            let e : walk store fetch_page n false s ≡ backfill store fetch_page n w = rw open_end in
            elim (walk_head-IsPaced n (start_walk store fetch_page s) refl (omega arith)) [
              | inl reached ↦ let c : not w.reached_end ≡ false = rw reached refl in cc
              | inr p ↦ ap (λ (v : W). v.reached_end) e ∙ backfill_end n w h p
            ]
      ]

  -- On a history that stays as it is, a call with more pages than the history fills, and one to
  -- spare, reports `complete`.
  pub sync_index-enough :
      (max_pages : ℕ) (s : State)
      → length history + index_page < max_pages * index_page
      → (sync_index store fetch_page max_pages s).1.complete ≡ true
  unfolding sync_index finish
  sync_index-enough n s h = elim (Bool-cases (is_one (get_meta s done_key))) [
    | inl done ↦ rw done (ground arith)
    | inr open_end ↦ rw (open_end, walk_end n s h) refl
  ]
