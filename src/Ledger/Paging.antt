-- ===== src/Ledger/Paging.antt =====
-- api/src/magi-backend.ts: how the transactions of a contract are paged, one page after another
-- (`poolOps`) or four at a time (`#callLedgerWalk`).
pub mod Batches
use lasse_cash_migration_to.Prelude.{
  ◌∷◌, ◌++◌, [], ℕ, zero, suc, ◌+◌, ◌-◌, ◌*◌, ◌/◌, ◌%◌, ◌^◌, ◌≤◌, ◌<◌, ◌≡◌, refl, sym, ap, ◌∙◌,
  subst, ◌↔◌, ◌⊎◌, inl, inr, Bool, true, false, not, ◌&&◌, ◌||◌, Option, none, some, List, map,
  reverse, arith, ltb, leb, ◌==◌, if◌then◌else◌, Bool-cases, Result, ok, err, ◌>>=◌, length, take,
  drop, filter, find?, all, any, last?, All, ℤ, pos, negsuc, neg_ℕ, nat_abs, ltb_ℤ, eqb_ℤ, is_neg,
  ◌+ℤ◌, ◌-ℤ◌, ◌*ℤ◌, ◌≤ℤ◌, quot, Text, codes, text_eq, is_digit, trim, split, starts_with, pad_start,
  replicate, is_space, Option-cases, int_laws,
}

abbrev pub page_size : ℕ
page_size = 100

abbrev pub batch : ℕ
batch = 4

module _ {A : Type 0} (page : ℕ → List A) (limit : ℕ) where
  -- One page after another, up to the limit or a page that is not full; the fuel bounds their count.
  unfoldable pub walk_pages : ℕ → ℕ → List A
  walk_pages zero offset = []
  walk_pages (suc fuel) offset =
      let rest = walk_pages fuel (offset + page_size) in
      if ltb offset limit
      then if ltb (length (page offset)) page_size then page offset else page offset ++ rest
      else []

  -- `Array.from` of so many offsets.
  abbrev pub offsets : ℕ → ℕ → List ℕ
  offsets zero offset = []
  offsets (suc n) offset = offset ∷ offsets n (offset + page_size)

  -- A page in front of those behind it, unless it is not full.
  abbrev pub page_then : Bool → List A → List A × Bool → List A × Bool
  page_then true rows later = (rows, true)
  page_then false rows later = (rows ++ later.0, later.1)

  -- The pages of a batch up to the first that is not full, and whether there is one.
  unfoldable pub take_pages : List ℕ → List A × Bool
  take_pages [] = ([], false)
  take_pages (o ∷ os) =
      let later = take_pages os in page_then (ltb (length (page o)) page_size) (page o) later

  unfoldable pub batch_pages : ℕ → List A × Bool
  batch_pages offset = take_pages (filter (λ o. ltb o limit) (offsets batch offset))

  abbrev pub batch_then : List A × Bool → List A → List A
  batch_then (found, true) rest = found
  batch_then (found, false) rest = found ++ rest

  unfoldable pub walk_batches : ℕ → ℕ → List A
  walk_batches zero offset = []
  walk_batches (suc fuel) offset =
      let rest = walk_batches fuel (offset + batch * page_size) in
      if ltb offset limit then batch_then (batch_pages offset) rest else []

  -- Each page moves the offset by a hundred: as many rounds as the limit are enough.
  unfoldable pub all_pages : List A
  all_pages = walk_pages limit 0

  unfoldable pub all_batches : List A
  all_batches = walk_batches limit 0
