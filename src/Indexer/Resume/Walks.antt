-- ===== src/Indexer/Resume/Walks.antt =====
-- What the two walks have stored by the time they end.
use lasse_cash_migration_to.Prelude.{
  All-map, ℕ, zero, suc, ◌+◌, ◌<◌, ◌≡◌, refl, sym, ◌∙◌, subst, Bool, true, false, List, map, take,
  drop, length, All, Bool-cases, inl, inr, ltb, ltb→lt, Text, ◌==◌,
}
use lasse_cash_migration_to.Indexer.Store.{IndexedTx, IndexStore}
use lasse_cash_migration_to.Indexer.Sync.{
  Walk, fresh_of, read_page, walk_head, walk_back, index_page, rows_at,
}
use lasse_cash_migration_to.Indexer.Resume.Pages.{All-page, All-short_page, All-filter}

module _ (store : IndexStore) (history : List IndexedTx) (fetch_page : ℕ → ℕ → List IndexedTx)
    (fixed : (k o : ℕ) → fetch_page k o ≡ take index_page (drop o history)) where
  open store use {State, has, known, upsert, get_meta, set_meta}

  -- Every transaction of a list is stored.
  abbrev pub Stored : State → List IndexedTx → Type 0
  Stored s txs = All (λ t. has s t.id ≡ true) txs

  -- A later state has what an earlier one has, and the same meta entries.
  pub record Extends (s s' : State) : Type 0 where
    pub keeps : (i : Text) → has s i ≡ true → has s' i ≡ true
    pub same_meta : (k : Text) → get_meta s' k ≡ get_meta s k

  pub Extends-refl : (s : State) → Extends s s
  Extends-refl s = record { keeps = λ i h. h; same_meta = λ k. refl }

  pub Extends-trans : {s t u : State} → Extends s t → Extends t u → Extends s u
  Extends-trans a b = record {
    keeps = λ i h. b.keeps i (a.keeps i h);
    same_meta = λ k. b.same_meta k ∙ a.same_meta k;
  }

  pub Stored-Extends :
      (s s' : State) (txs : List IndexedTx) → Extends s s' → Stored s txs → Stored s' txs
  Stored-Extends s s' txs e h = All-map txs (λ t stored. e.keeps t.id stored) h

  upsert-Extends : (s : State) (txs : List IndexedTx) → Extends s (upsert s txs)
  upsert-Extends s txs = record {
    keeps = λ i h. store.upsert-keeps s txs i h;
    same_meta = λ k. store.upsert-meta s txs k;
  }

  -- After a page is read all its rows are stored: the fresh ones now, the known ones before.
  upsert_fresh-Stored :
      (s : State) (rows : List IndexedTx)
      → Stored (upsert s (fresh_of store fetch_page s rows)) rows
  unfolding fresh_of
  upsert_fresh-Stored s rows =
      All-filter (λ t. has (upsert s (fresh_of store fetch_page s rows)) t.id ≡ true)
        (λ r. known s (map (λ t. t.id) rows) r.id) rows
        (λ t k. store.upsert-keeps s _ t.id (store.known-has s (map (λ u. u.id) rows) t.id k))
        (store.upsert-has s (fresh_of store fetch_page s rows))

  abbrev pub W : Type 0
  W = Walk store fetch_page

  -- The state and the offset of a walk: all rows before the offset are stored, and all of the
  -- history once the end is reached.
  pub record Covers (w : W) : Type 0 where
    pub before : Stored w.state (take w.offset history)
    pub whole : w.reached_end ≡ true → Stored w.state history

  read_page-Stored :
      (rewrite : Bool) (w : W)
      → Stored (read_page store fetch_page rewrite w).state (fetch_page w.pages w.offset)
  unfolding read_page
  read_page-Stored true w = store.upsert-has w.state (fetch_page w.pages w.offset)
  read_page-Stored false w = upsert_fresh-Stored w.state (fetch_page w.pages w.offset)

  read_page-Extends :
      (rewrite : Bool) (w : W) → Extends w.state (read_page store fetch_page rewrite w).state
  unfolding read_page
  read_page-Extends true w = upsert-Extends w.state _
  read_page-Extends false w = upsert-Extends w.state _

  -- The rows of a page, at its place in the history.
  page-Stored :
      (rewrite : Bool) (w : W)
      → Stored
          (read_page store fetch_page rewrite w).state
          (take index_page (drop w.offset history))
  page-Stored rewrite w =
      subst (Stored (read_page store fetch_page rewrite w).state) (fixed w.pages w.offset)
        (read_page-Stored rewrite w)

  before-kept :
      (rewrite : Bool) (w : W)
      → Covers w
      → Stored (read_page store fetch_page rewrite w).state (take w.offset history)
  before-kept rewrite w c =
      Stored-Extends w.state _ (take w.offset history) (read_page-Extends rewrite w) c.before

  -- On a short page the end of the history is reached.
  read_page_end :
      (rewrite : Bool) (w : W)
      → Covers w
      → ltb (length (rows_at store fetch_page w)) index_page ≡ true
      → Covers (record (read_page store fetch_page rewrite w) { reached_end = true })
  unfolding read_page
  read_page_end rewrite w c short =
      let short' : length (take index_page (drop w.offset history)) < index_page =
        subst (λ (rows : List IndexedTx). length rows < index_page) (fixed w.pages w.offset)
          (ltb→lt (length (fetch_page w.pages w.offset)) index_page short) in
      record {
        before = before-kept rewrite w c;
        whole = λ _.
            All-short_page (λ t. has (read_page store fetch_page rewrite w).state t.id ≡ true)
              w.offset index_page history (before-kept rewrite w c) (page-Stored rewrite w) short';
      }

  -- A full page moves the offset on.
  read_page_next :
      (rewrite : Bool) (w : W)
      → Covers w
      → Covers (record (read_page store fetch_page rewrite w) { offset = w.offset + index_page })
  unfolding read_page
  read_page_next rewrite w c = record {
    before =
        All-page (λ t. has (read_page store fetch_page rewrite w).state t.id ≡ true) w.offset
          index_page history (before-kept rewrite w c) (page-Stored rewrite w);
    whole = λ e. Stored-Extends w.state _ history (read_page-Extends rewrite w) (c.whole e);
  }

  -- A page that ends the walk early changes no more than the state.
  read_page_stop :
      (rewrite : Bool) (w : W) → Covers w → Covers (read_page store fetch_page rewrite w)
  unfolding read_page
  read_page_stop rewrite w c = record {
    before = before-kept rewrite w c;
    whole = λ e. Stored-Extends w.state _ history (read_page-Extends rewrite w) (c.whole e);
  }

  -- The walk of the head keeps what is covered.
  pub walk_head-Covers :
      (n : ℕ) (w : W)
      → Covers w
      → Covers (walk_head store fetch_page n w)
        × Extends w.state (walk_head store fetch_page n w).state
  unfolding walk_head
  walk_head-Covers zero w c = (c, Extends-refl w.state)
  walk_head-Covers (suc n) w c =
      let first = w.offset == 0 in
      let w' = read_page store fetch_page first w in
      let w'' : W = record w' { offset = w.offset + index_page } in
      let (later, more) = walk_head-Covers n w'' (read_page_next first w c) in
      let step = read_page-Extends first w in
      elim (Bool-cases (ltb (length (rows_at store fetch_page w)) index_page)) [
        | inl short ↦
            let e : walk_head store fetch_page (suc n) w ≡ record w' { reached_end = true } =
              rw short in
            subst (λ (v : W). Covers v × Extends w.state v.state) (sym e)
              (read_page_end first w c short, step)
        | inr full ↦
            elim (Bool-cases (
              ltb (length (fresh_of store fetch_page w.state (rows_at store fetch_page w)))
                (length (rows_at store fetch_page w)))) [
                  | inl met ↦
                      let e : walk_head store fetch_page (suc n) w ≡ w' = rw (full, met) in
                      subst (λ (v : W). Covers v × Extends w.state v.state) (sym e)
                        (read_page_stop first w c, step)
                  | inr all_fresh ↦
                      let e : walk_head store fetch_page (suc n) w
                          ≡ walk_head store fetch_page n w'' =
                        rw (full, all_fresh) in
                      subst (λ (v : W). Covers v × Extends w.state v.state) (sym e)
                        (later, Extends-trans step more)
                ]
      ]

  -- So does the backfill.
  pub walk_back-Covers :
      (n : ℕ) (w : W)
      → Covers w
      → Covers (walk_back store fetch_page n w)
        × Extends w.state (walk_back store fetch_page n w).state
  unfolding walk_back
  walk_back-Covers zero w c = (c, Extends-refl w.state)
  walk_back-Covers (suc n) w c =
      let w' = read_page store fetch_page false w in
      let w'' : W = record w' { offset = w.offset + index_page } in
      let (later, more) = walk_back-Covers n w'' (read_page_next false w c) in
      let step = read_page-Extends false w in
      elim (Bool-cases (ltb (length (rows_at store fetch_page w)) index_page)) [
        | inl short ↦
            let e : walk_back store fetch_page (suc n) w ≡ record w' { reached_end = true } =
              rw short in
            subst (λ (v : W). Covers v × Extends w.state v.state) (sym e)
              (read_page_end false w c short, step)
        | inr full ↦
            let e : walk_back store fetch_page (suc n) w ≡ walk_back store fetch_page n w'' =
              rw full in
            subst (λ (v : W). Covers v × Extends w.state v.state) (sym e)
              (later, Extends-trans step more)
      ]
