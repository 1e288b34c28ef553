-- ===== src/Positions/Tests.antt =====
-- A position that was opened and claimed from twice, and the trades of a pool.
use lasse_cash_migration_to.Prelude.{◌∷◌, [], ℕ, ◌≡◌, true, Option, List, ok, pos, Text, codes}
use lasse_cash_migration_to.Amount.{from_units}
use lasse_cash_migration_to.Positions.{
  AccountCall, PoolTrade, TrancheStory, reserves_at, tranche_story, tranche_claims,
}
use lasse_cash_migration_to.Positions.Reserves.{IsLatest, reserves_of, reserves_at-IsLatest}
use lasse_cash_migration_to.Positions.Tranche.{total_claimed, tranche_story-total}

abbrev call : ℕ → Text → Text → Text → AccountCall
call height action payload ret = record {
  tx_id = codes "t";
  height = height;
  time = codes "2026-10-20T00:00:00";
  action = action;
  payload = payload;
  ok = true;
  ret = ret;
}

abbrev calls : List AccountCall
calls =
    call 9 (codes "claim_pool") (codes "1") (codes "claimed 30")
    ∷ call 5 (codes "add_liquidity") (codes "100|4") (codes "added 100 LASSECASH and 4 HBD")
    ∷ call 7 (codes "claim_pool") (codes "1") (codes "claimed 12 liquid")
    ∷ []

tranche_story-total_example :
    (story : TrancheStory) × (tranche_story 1 calls ≡ ok story)
    × (story.claims ≡ tranche_claims 1 calls)
    × (story.claimed_total ≡ from_units (pos (total_claimed 1 calls)))
tranche_story-total_example = tranche_story-total 1 calls

abbrev trade : ℕ → Text → PoolTrade
trade height reserve = record {
  height = height;
  lc_reserve = reserve;
  hbd_reserve = codes "1.00000000";
}

abbrev trades : List PoolTrade
trades = trade 9 (codes "3") ∷ trade 4 (codes "1") ∷ trade 6 (codes "2") ∷ []

reserves_at-IsLatest_example :
    (best : Option PoolTrade) × IsLatest 7 trades best × (reserves_at trades 7 ≡ reserves_of best)
reserves_at-IsLatest_example = reserves_at-IsLatest trades 7
