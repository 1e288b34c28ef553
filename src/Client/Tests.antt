-- ===== src/Client/Tests.antt =====
-- Two deposits and a withdrawal, on an engine that mints what is given and pays one unit.
use lasse_cash_migration_to.Client.Pool.{remove_liquidity}
use lasse_cash_migration_to.Prelude.Decimal.{value_from}
use lasse_cash_migration_to.Prelude.Decimal.{print}
use lasse_cash_migration_to.Amount.{from_units}
use lasse_cash_migration_to.Amount.{to_units}
use lasse_cash_migration_to.Prelude.BigInts.{big_int}
use lasse_cash_migration_to.Client.Pool.{add_liquidity}
use lasse_cash_migration_to.Prelude.{
  ◌∷◌, [], ◌≡◌, refl, none, some, List, ok, err, ◌+ℤ◌, Text, codes, text_eq, trim, split, pad_start,
  is_space,
}
use lasse_cash_migration_to.Ledger.Calls.{PoolOp}
use lasse_cash_migration_to.Client.Pool.{Engine, ChainInfo, Replay, replay_ops, empty_pool}
use lasse_cash_migration_to.Client.Pool.Shares.{IsBalanced, replay_ops-IsBalanced}
use lasse_cash_migration_to.Client.Calls.{transfer_args, clean_memo}

abbrev one : Text
one = codes "0.00000001"

abbrev engine : Engine
engine = record {
  estimate_liquidity = (λ d lc hbd shares.
      some
        (record { is_first_deposit = text_eq shares (codes "0"); hbd_needed = one; shares = one }));
  estimate_withdraw = (λ held shares lc hbd. some (record { lc = one; hbd = one }));
  estimate_swap = (λ reserve other given. none);
  share_rate_hbd = (λ genesis height lc hbd. none);
  lc_to_hbd = (λ given lc hbd. none);
}

abbrev info : ChainInfo
info = record { genesis_height = 1; amm_lc = one; amm_hbd = one }

abbrev op_of : Text → Text → PoolOp
op_of action payload = record {
  time = codes "2026-09-01T10:00:00";
  height = 500;
  action = action;
  payload = payload;
  signer = codes "hive:alice";
}

abbrev history : List PoolOp
history =
    op_of (codes "add_liquidity") (codes "5|3")
    ∷ op_of (codes "add_liquidity") (codes "2|9")
    ∷ op_of (codes "remove_liquidity") (codes "1")
    ∷ []

abbrev replayed : Replay
replayed = elim (replay_ops engine info history empty_pool) [ ok st ↦ st | err e ↦ empty_pool ]

replay_ends : replay_ops engine info history empty_pool ≡ ok replayed
unfolding add_liquidity big_int split is_space to_units from_units print value_from pad_start ◌+ℤ◌
    remove_liquidity
replay_ends = refl

replay_ops-IsBalanced_example : IsBalanced replayed
replay_ops-IsBalanced_example = replay_ops-IsBalanced engine info history replayed replay_ends

cleaned :
    transfer_args (codes " @bob ") (codes "100") (codes "rent|\nMay")
    ≡ codes "hive:bob|100|rent May"
unfolding transfer_args clean_memo trim is_space
cleaned = refl
