-- ===== src/Signer/Tests.antt =====
-- Calls of an account with 9,000 credits, on a node whose dry runs pass.
use lasse_cash_migration_to.Signer.Reason.{without_tags}
use lasse_cash_migration_to.Signer.Reason.{collapse}
use lasse_cash_migration_to.Signer.Batch.{send_chunks}
use lasse_cash_migration_to.Signer.Bundle.{intents_of}
use lasse_cash_migration_to.Prelude.Decimal.{print, value_from}
use lasse_cash_migration_to.Prelude.{
  min, ◌∷◌, ◌++◌, [], ℕ, ◌+◌, ◌≤◌, ◌≡◌, refl, true, none, some, List, map, ok, length, take, Text,
  codes, trim, split, is_space,
}
use lasse_cash_migration_to.NativePool.{milli_to_hbd, units_to_milli}
use lasse_cash_migration_to.Signer.Calls.{Call, TxResult, passes, ceil_div}
use lasse_cash_migration_to.Signer.Tables.{max_claim_all_batch, hive_custom_json_per_block}
use lasse_cash_migration_to.Signer.Sizing.{
  Wallet, draw_milli, size_rc, floor_of, limit_for, limit_beside_draw, limit_within,
}
use lasse_cash_migration_to.Signer.Bounds.{size_rc-draw, size_rc-bounds}
use lasse_cash_migration_to.Signer.Bundle.{
  Rider, SubmitOptions, Plan, submission, hbd_limit, calls_of,
}
use lasse_cash_migration_to.Signer.Bundle.Carried.{submission-FitsBlock}
use lasse_cash_migration_to.Signer.Bundle.Allowance.{hbd_limit-milli_to_hbd}
use lasse_cash_migration_to.Signer.Batch.{size_all, claim_sent}
use lasse_cash_migration_to.Signer.Batch.Claimed.{claim_sent-Claims, Claims}
use lasse_cash_migration_to.Signer.Reason.{hive_reason}

abbrev alice : Wallet
alice = record {
  locale = print;
  stringify = (λ spender amount. spender ++ amount);
  available_rc = some 9_000;
  max_rc = some 12_000;
  token_contract = some (codes "vsc1token");
  simulate = (λ probe. some (passes 80_000_000));
  confirm_unreadable_rc = none;
  account = codes "hive:alice";
  contract_id = codes "vsc1core";
  rc_limit = 1_500;
}

abbrev add_liquidity : Text
add_liquidity = codes "add_liquidity"

-- 2 LASSECASH beside 0.5 HBD at most.
abbrev deposit : Text
deposit = codes "200000000|50000000"

deposit_draw : draw_milli add_liquidity deposit ≡ some 500
unfolding draw_milli split trim is_space value_from
deposit_draw = refl

deposit_limit : size_rc alice add_liquidity deposit [] 4_000 ≡ ok 4_000
unfolding size_rc limit_for limit_beside_draw draw_milli split trim is_space value_from
deposit_limit = refl

size_rc-draw_example : 4_000 + 500 + 1_000 ≤ 9_000
size_rc-draw_example =
    size_rc-draw alice add_liquidity deposit [] 4_000 80_000_000 500 4_000 9_000 refl refl
      deposit_draw deposit_limit

size_rc-bounds_example :
    (4_000 ≤ 30_000)
    × (min 30_000 (floor_of add_liquidity 4_000 (ceil_div 80_000_000 100_000)) ≤ 4_000)
size_rc-bounds_example =
    size_rc-bounds alice add_liquidity deposit [] 4_000 80_000_000 4_000 refl deposit_limit

abbrev payout : Rider
payout = record { entrypoint = codes "payout"; args = codes "hive:bob|hello" }

abbrev slice : Rider
slice = record { entrypoint = codes "advance"; args = [] }

abbrev opts : SubmitOptions
opts = record {
  rc_limit = none;
  side_calls = payout ∷ payout ∷ payout ∷ [];
  pre_calls = slice ∷ slice ∷ slice ∷ slice ∷ [];
}

abbrev mint_args : Text
mint_args = codes "100000000|365"

abbrev mint_plan : Plan
mint_plan = elim (submission alice (codes "mint") mint_args opts) [
  | none ↦ Plan.slices []
  | some plan ↦ plan
]

-- A mint with its allowance, three slices and no settlement: five calls.
mint_submitted : submission alice (codes "mint") mint_args opts ≡ some mint_plan
unfolding submission intents_of
mint_submitted = refl

submission-FitsBlock_example : length (calls_of mint_plan) ≤ hive_custom_json_per_block
submission-FitsBlock_example =
    submission-FitsBlock alice (codes "mint") mint_args opts mint_plan mint_submitted

hbd_limit-milli_to_hbd_example :
    hbd_limit (print 123_456_789) ≡ some (milli_to_hbd (units_to_milli 123_456_789))
hbd_limit-milli_to_hbd_example = hbd_limit-milli_to_hbd 123_456_789

abbrev accepts : ℕ → List Call → TxResult
accepts sent chunk = record { accepted = true; msg = codes "submitted"; tx_id = none }

abbrev tranches : List ℕ
tranches = 1 ∷ 2 ∷ 3 ∷ 4 ∷ 5 ∷ 6 ∷ 7 ∷ []

claim_sent-Claims_example :
    Claims accepts 0
      (size_all alice (codes "claim_pool") (take max_claim_all_batch tranches)).calls
      (claim_sent accepts alice (codes "claim_pool") tranches)
    × (length (size_all alice (codes "claim_pool") (take max_claim_all_batch tranches)).calls
        ≤ max_claim_all_batch)
claim_sent-Claims_example = claim_sent-Claims accepts alice (codes "claim_pool") tranches

-- Two transactions, of five calls and of two.
seven_sent : map length (claim_sent accepts alice (codes "claim_pool") tranches).chunks ≡ 5 ∷ 2 ∷ []
unfolding claim_sent send_chunks size_all size_rc limit_for limit_within
seven_sent = refl

voted_twice :
    hive_reason (some (codes "<b>Error:</b>  You may  only vote on it once"))
    ≡ codes "Hive is rate-limiting your votes — wait a few seconds and cast again."
unfolding hive_reason trim collapse without_tags is_space
voted_twice = refl
