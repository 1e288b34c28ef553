-- ===== src/Activity/Tests.antt =====
-- A swap of two calls, and a claim of two tranches.
use lasse_cash_migration_to.Activity.Grouped.{row_for, firsts, group_pool_claims_lem}
use lasse_cash_migration_to.Activity.{group_pool_claims}
use lasse_cash_migration_to.Prelude.{◌∷◌, [], ◌≡◌, Option, none, some, List, map, Text, codes}
use lasse_cash_migration_to.Activity.{AccountOp, confirmed}

abbrev op : Text → Text → Text → Option Text → AccountOp
op id action payload ret = record {
  id = id;
  time = codes "2026-10-20T00:00:00";
  action = action;
  payload = payload;
  status = confirmed;
  ret = ret;
  contract = none;
}

abbrev ops : List AccountOp
ops =
    op (codes "a") (codes "increaseAllowance") (codes "5") none
    ∷ op (codes "a") (codes "swap_lassecash_hbd") (codes "5|1") none
    ∷ op (codes "b") (codes "claim_pool") (codes "1") (some (codes "claimed 30"))
    ∷ op (codes "b") (codes "claim_pool") (codes "2") (some (codes "claimed 12"))
    ∷ []

group_pool_claims_lem_example : group_pool_claims ops ≡ map (row_for ops) (firsts [] ops)
group_pool_claims_lem_example = group_pool_claims_lem ops
