-- ===== src/Indexer/Tests.antt =====
-- A history of two transactions, read into the store in memory.
use lasse_cash_migration_to.Indexer.Memory.{get_entry}
use lasse_cash_migration_to.Prelude.{
  ◌∷◌, [], ℕ, ◌≡◌, refl, inl, true, List, arith, take, drop, Text, codes,
}
use lasse_cash_migration_to.Indexer.Store.{IndexedTx}
use lasse_cash_migration_to.Indexer.Memory.{Memory, memory_index_store}
use lasse_cash_migration_to.Indexer.Sync.{sync_index, index_page}
use lasse_cash_migration_to.Indexer.Resume.Calls.{
  IsResumable, Holds, sync_index-IsResumable, sync_index-complete,
}
use lasse_cash_migration_to.Indexer.Resume.Enough.{sync_index-enough}

abbrev tx : Text → IndexedTx
tx id = record {
  id = id;
  anchr_height = 7;
  anchr_ts = codes "2026-10-20T00:00:00";
  status = codes "CONFIRMED";
  required_auths = [];
  required_posting_auths = [];
  ops = [];
}

abbrev two_txs : List IndexedTx
two_txs = tx (codes "b") ∷ tx (codes "a") ∷ []

abbrev page : ℕ → ℕ → List IndexedTx
page k o = take index_page (drop o two_txs)

page_fixed : (k o : ℕ) → page k o ≡ take index_page (drop o two_txs)
page_fixed k o = refl

abbrev empty : Memory
empty = record { txs = []; meta = [] }

empty-IsResumable : IsResumable memory_index_store two_txs page page_fixed empty
unfolding get_entry
empty-IsResumable = record { so_far = tt; all_done = inl refl }

sync_complete : (sync_index memory_index_store page 3 empty).1.complete ≡ true
sync_complete = sync_index-enough memory_index_store two_txs page page_fixed 3 empty (omega arith)

sync_index-IsResumable_example :
    IsResumable memory_index_store two_txs page page_fixed
      (sync_index memory_index_store page 3 empty).0
sync_index-IsResumable_example =
    sync_index-IsResumable memory_index_store two_txs page page_fixed 3 empty empty-IsResumable

sync_index-complete_example :
    Holds memory_index_store two_txs page page_fixed
      (sync_index memory_index_store page 3 empty).0
      two_txs
sync_index-complete_example =
    sync_index-complete memory_index_store two_txs page page_fixed 3 empty empty-IsResumable
      sync_complete

sync_index-enough_example : (sync_index memory_index_store page 2 empty).1.complete ≡ true
sync_index-enough_example =
    sync_index-enough memory_index_store two_txs page page_fixed 2 empty (omega arith)
