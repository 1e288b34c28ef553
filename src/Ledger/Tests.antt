-- ===== src/Ledger/Tests.antt =====
-- A swap beside an allowance, and a vote that failed.
use lasse_cash_migration_to.Prelude.Decimal.{value_from}
use lasse_cash_migration_to.Ledger.Outputs.{alter}
use lasse_cash_migration_to.Ledger.Outputs.{put_ops}
use lasse_cash_migration_to.Ledger.Outputs.{split_suffix}
use lasse_cash_migration_to.Ledger.Outputs.{slot_of}
use mathlib.Core.Option
use lasse_cash_migration_to.Prelude.{
  ◌∷◌, [], ℕ, ◌≡◌, refl, Bool, true, false, none, some, List, map, ◌==◌, if◌then◌else◌, All, Text,
  codes, is_space,
}
use lasse_cash_migration_to.Ledger.Transactions.{ChainOp, ChainTx}
use lasse_cash_migration_to.Ledger.Outputs.{Output, results_by_op, result_for}
use lasse_cash_migration_to.Ledger.Calls.{pool_ops, pool_ledger, paid_author}
use lasse_cash_migration_to.Ledger.Calls.Joined.{call_of, pool_ledger-pool_ops}
use lasse_cash_migration_to.Ledger.Discovery.{Wanted, discovered_calls}
use lasse_cash_migration_to.Ledger.Discovery.Registered.{IsFine, discovered_calls-IsFine}
use lasse_cash_migration_to.Ledger.Tally.{activity}
use lasse_cash_migration_to.Ledger.Tally.Counts.{total, calls_in, IsCounted, activity-Holds}

abbrev call : Text → Text → ChainOp
call action payload = record {
  type = codes "call";
  action = some action;
  payload = some payload;
  contract_id = none;
  from = none;
  to = none;
  amount = none;
  asset = none;
}

abbrev swap : ChainTx
swap = record {
  id = codes "t1";
  anchr_ts = codes "2026-10-03T10:00:00";
  anchr_height = 900;
  status = codes "CONFIRMED";
  required_auths = codes "hive:alice" ∷ [];
  required_posting_auths = [];
  ops =
      call (codes "increaseAllowance") [] ∷ call (codes "swap_lassecash_hbd") (codes "500|1") ∷ [];
}

abbrev vote : ChainTx
vote = record {
  id = codes "t2";
  anchr_ts = codes "2026-10-03T10:00:03";
  anchr_height = 901;
  status = codes "FAILED";
  required_auths = [];
  required_posting_auths = codes "hive:bob" ∷ [];
  ops = call (codes "vote") (codes "hive:carol|essay|100") ∷ [];
}

abbrev posted : ChainTx
posted = record {
  id = codes "t3";
  anchr_ts = codes "2026-10-03T10:00:06";
  anchr_height = 902;
  status = codes "CONFIRMED";
  required_auths = [];
  required_posting_auths = codes "hive:carol" ∷ [];
  ops = call (codes "post") (codes "essay|1|0") ∷ call (codes "post") (codes "essay|1|0") ∷ [];
}

abbrev txs : List ChainTx
txs = posted ∷ vote ∷ swap ∷ []

abbrev first_page : ℕ → List ChainTx
first_page offset = if offset == 0 then txs else []

abbrev settled : Output
settled = record {
  block_height = 910;
  inputs = codes "t1-1" ∷ [];
  results = record { ok = true; ret = some (codes "swapped for 120 HBD") } ∷ [];
}

abbrev outputs : ℕ → List Output
outputs offset = settled ∷ []

pool_ledger-pool_ops_example :
    map call_of (pool_ledger first_page outputs 200) ≡ pool_ops first_page 200
pool_ledger-pool_ops_example = pool_ledger-pool_ops first_page outputs 200

-- The result of operation 1 is found under the second operation, and nothing under the first.
joined_by_operation :
    (Option.map
        (λ r. r.ret)
        (result_for (results_by_op (λ id. none) (settled ∷ [])) (codes "t1") 1 1)
      ≡ some (codes "swapped for 120 HBD"))
    × (result_for (results_by_op (λ id. none) (settled ∷ [])) (codes "t1") 0 0 ≡ none)
unfolding results_by_op result_for slot_of split_suffix put_ops alter value_from
joined_by_operation = (refl, refl)

abbrev accept_all : Text → Bool
accept_all payload = true

discovered_calls-IsFine_example :
    IsFine Wanted.posts accept_all 10 txs (discovered_calls Wanted.posts accept_all 10 txs)
discovered_calls-IsFine_example = discovered_calls-IsFine Wanted.posts accept_all 10 txs

abbrev never : Text → Text → Bool
never a b = false

activity-Holds_example :
    (total (activity never txs) ≡ calls_in txs) × All IsCounted (activity never txs)
activity-Holds_example = activity-Holds never txs

paid : paid_author (codes "paid author 2500, curators 2500") ≡ some (codes "2500")
unfolding paid_author is_space
paid = refl
