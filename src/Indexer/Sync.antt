-- ===== src/Indexer/Sync.antt =====
-- `syncIndex`. A page is a function of the number of pages read so far and the offset, so that the
-- history may change from one read to the next. Every page is taken to be answered: a rejected read
-- ends the call with what is stored by then.
use lasse_cash_migration_to.Prelude.{
  ℕ, zero, suc, ◌+◌, ◌-◌, Bool, true, false, not, ◌&&◌, ◌||◌, Option, none, some, List, map, filter,
  length, Text, codes, text_eq, ltb, ◌==◌, if◌then◌else◌,
}
use lasse_cash_migration_to.Prelude.Decimal.{digits_value, print}
use lasse_cash_migration_to.Indexer.Store.{IndexedTx, IndexStore}

abbrev pub index_page : ℕ
index_page = 100

pub record SyncResult : Type 0 where
  pub pages : ℕ
  pub seen : ℕ
  pub added : ℕ
  pub complete : Bool

-- `Number(meta ?? 0)` of an offset that `String` wrote.
abbrev pub number_or_zero : Option Text → ℕ
number_or_zero none = 0
number_or_zero (some s) = digits_value s

-- `meta === "1"`
abbrev pub is_one : Option Text → Bool
is_one none = false
is_one (some s) = text_eq s (codes "1")

abbrev pub done_key : Text
done_key = codes "backfill_done"

abbrev pub offset_key : Text
offset_key = codes "backfill_offset"

module _ (store : IndexStore) (fetch_page : ℕ → ℕ → List IndexedTx) where
  open store use {State, known, upsert, get_meta, set_meta}

  -- The variables of the two loops: `offset` is `offset` in the first and `resume` in the second.
  pub record Walk : Type 0 where
    pub state : State
    pub pages : ℕ
    pub seen : ℕ
    pub added : ℕ
    pub offset : ℕ
    pub reached_end : Bool

  -- The rows of a page that are not stored yet.
  unfoldable pub fresh_of : State → List IndexedTx → List IndexedTx
  fresh_of s rows = filter (λ r. not (known s (map (λ t. t.id) rows) r.id)) rows

  -- What both loops do with a page before they look at its length.
  unfoldable pub read_page : Bool → Walk → Walk
  read_page rewrite w =
      let rows = fetch_page w.pages w.offset in
      let fresh = fresh_of w.state rows in
      record w {
        state = upsert w.state (if rewrite then rows else fresh);
        pages = w.pages + 1;
        seen = w.seen + length rows;
        added = w.added + length fresh;
      }

  abbrev pub rows_at : Walk → List IndexedTx
  rows_at w = fetch_page w.pages w.offset

  -- 1. The head, with the number of pages that may still be read.
  unfoldable pub walk_head : ℕ → Walk → Walk
  walk_head zero w = w
  walk_head (suc n) w =
      let w' = read_page (w.offset == 0) w in
      let next = walk_head n (record w' { offset = w.offset + index_page }) in
      if ltb (length (rows_at w)) index_page
      then record w' { reached_end = true }
      else if ltb (length (fresh_of w.state (rows_at w))) (length (rows_at w))
      then w'
      else next

  -- 2. The backfill.
  unfoldable pub walk_back : ℕ → Walk → Walk
  walk_back zero w = w
  walk_back (suc n) w =
      let w' = read_page false w in
      let next = walk_back n (record w' { offset = w.offset + index_page }) in
      if ltb (length (rows_at w)) index_page then record w' { reached_end = true } else next

  -- `if (resume < offset) resume = offset`
  abbrev pub resume_at : ℕ → ℕ → ℕ
  resume_at stored offset = if ltb stored offset then offset else stored

  -- The backfill from where the last call stopped, and the offset that it leaves for the next one.
  unfoldable pub backfill : ℕ → Walk → Walk
  backfill max_pages w =
      let start = resume_at (number_or_zero (get_meta w.state offset_key)) w.offset in
      let w' = walk_back (max_pages - w.pages) (record w { offset = start }) in
      record w' { state = set_meta w'.state offset_key (print w'.offset) }

  abbrev pub start_walk : State → Walk
  start_walk s = record {
    state = s;
    pages = 0;
    seen = 0;
    added = 0;
    offset = 0;
    reached_end = false;
  }

  -- Both walks, in the order of the code.
  unfoldable pub walk : ℕ → Bool → State → Walk
  walk max_pages backfilled s =
      let head = walk_head max_pages (start_walk s) in
      if not backfilled && not head.reached_end then backfill max_pages head else head

  -- The end of the call: the flag, and the result.
  unfoldable pub finish : Bool → Walk → State × SyncResult
  finish backfilled w = (
    if w.reached_end && not backfilled then set_meta w.state done_key (codes "1") else w.state,
    record {
      pages = w.pages;
      seen = w.seen;
      added = w.added;
      complete = w.reached_end || backfilled;
    },
  )

  unfoldable pub sync_index : ℕ → State → State × SyncResult
  sync_index max_pages s =
      let backfilled = is_one (get_meta s done_key) in
      finish backfilled (walk max_pages backfilled s)
