-- ===== src/Ledger/Account/Tests.antt =====
-- An account that claims two positions in one transaction, receives HBD, and is sent LASSECASH twice in
-- one transaction.
use lasse_cash_migration_to.Prelude.{
  ◌∷◌, [], ◌≡◌, refl, Bool, true, false, ◌&&◌, ◌||◌, none, some, List, map, arith, ltb, ◌==◌, All,
  Text, codes,
}
use lasse_cash_migration_to.Activity.{AccountOp}
use lasse_cash_migration_to.Ledger.Transactions.{ChainOp, ChainTx}
use lasse_cash_migration_to.Ledger.Account.{Fetched, account_ops, qualified}
use lasse_cash_migration_to.Ledger.Account.Plain.{IsPlain}
use lasse_cash_migration_to.Ledger.Account.Listed.{IsListing, account_ops-IsListing}

-- A time behind another one, as texts.
abbrev text_later : Text → Text → Bool
text_later [] t = false
text_later (x ∷ s) [] = true
text_later (x ∷ s) (y ∷ t) = ltb y x || (x == y && text_later s t)

text_later_asym : (s t : Text) → text_later s t ≡ true → text_later t s ≡ false
text_later_asym [] t h = absurd (cc)
text_later_asym (x ∷ s) [] h = refl
text_later_asym (x ∷ s) (y ∷ t) h = ground (arith, text_later_asym s t)

abbrev call : Text → Text → ChainOp
call action payload = record {
  type = codes "call";
  action = some action;
  payload = some payload;
  contract_id = none;
  from = none;
  to = none;
  amount = none;
  asset = none;
}

abbrev move : ChainOp
move = record {
  type = codes "transfer";
  action = none;
  payload = none;
  contract_id = none;
  from = some (codes "hive:bob");
  to = some (codes "hive:alice");
  amount = some (codes "500");
  asset = some (codes "hbd");
}

abbrev tx_of : Text → Text → Text → List ChainOp → ChainTx
tx_of id time signer ops = record {
  id = id;
  anchr_ts = time;
  anchr_height = 900;
  status = codes "CONFIRMED";
  required_auths = signer ∷ [];
  required_posting_auths = [];
  ops = ops;
}

abbrev txs : List ChainTx
txs =
    tx_of (codes "t1") (codes "10:00") (codes "hive:alice")
      (call (codes "claim_pool") (codes "1") ∷ call (codes "claim_pool") (codes "2") ∷ [])
    ∷ tx_of (codes "t2") (codes "10:06") (codes "hive:bob") (move ∷ [])
    ∷ []

abbrev recent : List ChainTx
recent =
    tx_of (codes "t3") (codes "10:03") (codes "hive:carol") (
      call (codes "transfer") (codes "hive:alice|5")
      ∷ call (codes "transfer") (codes "hive:alice|7")
      ∷ [])
    ∷ []

abbrev nothing_fetched : ChainTx → Fetched
nothing_fetched tx = record { own = []; router = [] }

abbrev alice_ops : List AccountOp
alice_ops = account_ops text_later nothing_fetched (codes "alice") txs (some recent) 30

-- Both claims are listed, newest first; of the two transfers of one transaction only the first.
rows_of_alice :
    map (λ o. o.payload) alice_ops
    ≡ codes "hive:bob|hive:alice|500|hbd"
      ∷ codes "hive:alice|5|hive:carol"
      ∷ codes "1"
      ∷ codes "2"
      ∷ []
unfolding account_ops qualified
rows_of_alice = refl

txs-IsPlain : All IsPlain txs
txs-IsPlain = ((refl, (refl, (refl, tt))), ((refl, (refl, tt)), tt))

recent-IsPlain : All IsPlain recent
recent-IsPlain = ((refl, (refl, (refl, tt))), tt)

account_ops-IsListing_example :
    IsListing text_later (qualified (codes "alice")) txs recent 30 alice_ops
account_ops-IsListing_example =
    account_ops-IsListing text_later text_later_asym nothing_fetched (codes "alice") txs
      (some recent) 30 txs-IsPlain recent-IsPlain
