-- ===== src/Client/Pool.antt =====
-- api/src/client.ts: `poolTrades`, the replay of the pool's calls with the engine's own arithmetic. The
-- engine is a parameter; a call of it that throws answers `none`. A height of 0 stands for one that is
-- not known.
pub mod Tranches
pub mod Shares
use lasse_cash_migration_to.Prelude.{
  get_elem?, is_empty, ◌∷◌, ◌++◌, [], ℕ, zero, suc, ◌+◌, ◌-◌, ◌*◌, ◌/◌, ◌%◌, ◌^◌, ◌≤◌, ◌<◌, ◌≡◌,
  refl, sym, ap, ◌∙◌, subst, ◌↔◌, ◌⊎◌, inl, inr, Bool, true, false, not, ◌&&◌, ◌||◌, Option, none,
  some, List, map, reverse, arith, ltb, leb, ◌==◌, if◌then◌else◌, Bool-cases, Result, ok, err,
  ◌>>=◌, length, take, drop, filter, find?, all, any, last?, All, ℤ, pos, negsuc, neg_ℕ, nat_abs,
  ltb_ℤ, eqb_ℤ, is_neg, ◌+ℤ◌, ◌-ℤ◌, ◌*ℤ◌, ◌≤ℤ◌, quot, Text, codes, text_eq, is_digit, trim, split,
  starts_with, pad_start, replicate, is_space, Option-cases, int_laws,
}
use lasse_cash_migration_to.Prelude.Decimal.{print}
use lasse_cash_migration_to.Prelude.BigInts.{big_int, print_ℤ}
use lasse_cash_migration_to.Amount.{Amount, to_units, from_units}
use lasse_cash_migration_to.Market.Entry.{canonical_action}
use lasse_cash_migration_to.Ledger.Calls.{PoolOp}

pub record Liquidity : Type 0 where
  pub is_first_deposit : Bool
  pub hbd_needed : Amount
  pub shares : Amount

pub record Withdrawal : Type 0 where
  pub lc : Amount
  pub hbd : Amount

pub record Swap : Type 0 where
  pub ok : Bool
  pub amount_out : Amount

-- The engine's estimates, on texts of base units.
pub record Engine : Type 0 where
  pub estimate_liquidity : Text → Text → Text → Text → Option Liquidity
  pub estimate_withdraw : Text → Text → Text → Text → Option Withdrawal
  pub estimate_swap : Text → Text → Text → Option Swap
  pub share_rate_hbd : ℕ → ℕ → Text → Text → Option Amount
  pub lc_to_hbd : Text → Text → Text → Option (Option Amount)

pub record ChainInfo : Type 0 where
  pub genesis_height : ℕ
  pub amm_lc : Amount
  pub amm_hbd : Amount

pub data Side : Type 0 where
  first_deposit deposit withdraw sell buy : Side

pub record PoolTrade : Type 0 where
  pub time : Text
  pub height : ℕ
  pub side : Side
  pub amount_in : Amount
  pub amount_out : Amount
  pub lc_reserve : Amount
  pub hbd_reserve : Amount
  pub price : Amount
  pub share_hbd : Option Amount
  pub trader : Text

-- The variables of the loop.
pub record Replay : Type 0 where
  pub lc : ℤ
  pub hbd : ℤ
  pub total_shares : ℤ
  pub tranche_shares : List (Text × ℤ)
  pub next_id : List (Text × ℕ)
  pub trades : List PoolTrade

abbrev pub empty_pool : Replay
empty_pool = record {
  lc = pos 0;
  hbd = pos 0;
  total_shares = pos 0;
  tranche_shares = [];
  next_id = [];
  trades = [];
}

-- Something on the way threw.
pub data Thrown : Type 0 where
  thrown : Thrown

abbrev pub or_throw {ℓ} : {A : Type ℓ} → Option A → Result Thrown A
or_throw none = err thrown
or_throw (some a) = ok a

abbrev pub units : Amount → Result Thrown ℤ
units a = elim (to_units a) [ ok n ↦ ok n | err e ↦ err thrown ]

-- `BigInt(f[i] || "0")`
abbrev pub text_at : List Text → ℕ → Text
text_at f i = elim (get_elem? f i) [ none ↦ [] | some s ↦ s ]

abbrev pub argument : List Text → ℕ → Result Thrown ℤ
argument f i = let s = text_at f i in or_throw (big_int (if is_empty s then codes "0" else s))

-- A `Map` with texts for keys: `get`, `set` and `delete`.
abbrev pub get {ℓ} : {A : Type ℓ} → A → Text → List (Text × A) → A
get default key [] = default
get default key ((k, a) ∷ m) = if text_eq key k then a else get default key m

abbrev pub set {ℓ} : {A : Type ℓ} → Text → A → List (Text × A) → List (Text × A)
set key a [] = (key, a) ∷ []
set key a ((k, b) ∷ m) =
    let rest = set key a m in if text_eq key k then (k, a) ∷ m else (k, b) ∷ rest

abbrev pub delete {ℓ} : {A : Type ℓ} → Text → List (Text × A) → List (Text × A)
delete key [] = []
delete key ((k, a) ∷ m) = let rest = delete key m in if text_eq key k then m else (k, a) ∷ rest

abbrev pub tranche_key : Text → Text → Text
tranche_key signer id = signer ++ b'_' ∷ id

abbrev pub zero_amount : Amount
zero_amount = codes "0.00000000"

abbrev pub is_positive_ℤ : ℤ → Bool
is_positive_ℤ n = ltb_ℤ (pos 0) n

module _ (engine : Engine) (info : ChainInfo) where
  abbrev pub or_zero : Option (Option Amount) → Amount
  or_zero none = zero_amount
  or_zero (some none) = zero_amount
  or_zero (some (some price)) = price

  -- `priceNow`: one LASSECASH is 100,000,000 base units.
  abbrev pub price_now : ℤ → ℤ → Amount
  price_now lc hbd =
      if is_positive_ℤ lc && is_positive_ℤ hbd
      then or_zero (engine.lc_to_hbd (codes "100000000") (print_ℤ lc) (print_ℤ hbd))
      else zero_amount

  -- `shareCostNow`
  abbrev pub share_cost_now : ℤ → ℤ → ℕ → Option Amount
  share_cost_now lc hbd height =
      if is_positive_ℤ lc && is_positive_ℤ hbd && not (height == 0)
      then engine.share_rate_hbd info.genesis_height height (print_ℤ lc) (print_ℤ hbd)
      else none

  abbrev pub trade_of : PoolOp → Side → Amount → Amount → ℤ → ℤ → PoolTrade
  trade_of op side amount_in amount_out lc hbd = record {
    time = op.time;
    height = op.height;
    side = side;
    amount_in = amount_in;
    amount_out = amount_out;
    lc_reserve = from_units lc;
    hbd_reserve = from_units hbd;
    price = price_now lc hbd;
    share_hbd = share_cost_now lc hbd op.height;
    trader = op.signer;
  }

  -- A deposit opens the signer's next tranche.
  abbrev pub deposited : PoolOp → Bool → ℤ → ℤ → ℤ → Replay → Replay
  deposited op is_first d_lc d_hbd minted st =
      let lc = st.lc +ℤ d_lc in
      let hbd = st.hbd +ℤ d_hbd in
      let id = suc (get 0 op.signer st.next_id) in
      record {
        lc = lc;
        hbd = hbd;
        total_shares = st.total_shares +ℤ minted;
        tranche_shares = set (tranche_key op.signer (print id)) minted st.tranche_shares;
        next_id = set op.signer id st.next_id;
        trades =
            st.trades
            ++ trade_of op (if is_first then first_deposit else deposit) (from_units d_lc)
                (from_units d_hbd) lc hbd
              ∷ [];
      }

  abbrev pub hbd_taken : List Text → Liquidity → Result Thrown ℤ
  hbd_taken f q =
      if q.is_first_deposit
      then argument f 1 >>= (λ n. units (from_units n))
      else units q.hbd_needed

  abbrev pub shares_minted : ℤ → Liquidity → Result Thrown ℤ
  shares_minted d_lc q = if q.is_first_deposit then ok d_lc else units q.shares

  -- The steps of a deposit: what it mints, what the engine's quote takes, and what is given.
  abbrev pub add_quoted : PoolOp → List Text → ℤ → Replay → Liquidity → ℤ → Result Thrown Replay
  add_quoted op f d_lc st q d_hbd =
      shares_minted d_lc q >>= (λ minted. ok (deposited op q.is_first_deposit d_lc d_hbd minted st))

  abbrev pub add_quote : PoolOp → List Text → ℤ → Replay → Liquidity → Result Thrown Replay
  add_quote op f d_lc st q = hbd_taken f q >>= add_quoted op f d_lc st q

  abbrev pub add_amount : PoolOp → List Text → Replay → ℤ → Result Thrown Replay
  add_amount op f st d_lc =
      or_throw (
        engine.estimate_liquidity (print_ℤ d_lc) (print_ℤ st.lc) (print_ℤ st.hbd)
          (print_ℤ st.total_shares))
      >>= add_quote op f d_lc st

  abbrev pub add_given : PoolOp → List Text → Replay → ℤ → Result Thrown Replay
  add_given op f st given = units (from_units given) >>= add_amount op f st

  unfoldable pub add_liquidity : PoolOp → List Text → Replay → Result Thrown Replay
  add_liquidity op f st = argument f 0 >>= add_given op f st

  -- A withdrawal closes the tranche.
  abbrev pub withdrawn : PoolOp → Text → ℤ → ℤ → ℤ → Replay → Replay
  withdrawn op key held out_lc out_hbd st =
      let lc = st.lc -ℤ out_lc in
      let hbd = st.hbd -ℤ out_hbd in
      record {
        lc = lc;
        hbd = hbd;
        total_shares = st.total_shares -ℤ held;
        tranche_shares = delete key st.tranche_shares;
        next_id = st.next_id;
        trades =
            st.trades ++ trade_of op withdraw (from_units out_lc) (from_units out_hbd) lc hbd ∷ [];
      }

  abbrev pub pay_lc : PoolOp → Text → ℤ → Replay → Withdrawal → ℤ → Result Thrown Replay
  pay_lc op key held st w out_lc =
      units w.hbd >>= (λ out_hbd. ok (withdrawn op key held out_lc out_hbd st))

  abbrev pub pay_out : PoolOp → Text → ℤ → Replay → Withdrawal → Result Thrown Replay
  pay_out op key held st w = units w.lc >>= pay_lc op key held st w

  abbrev pub close_tranche : PoolOp → Text → ℤ → Replay → Result Thrown Replay
  close_tranche op key held st =
      or_throw (
        engine.estimate_withdraw (print_ℤ held) (print_ℤ st.total_shares) (print_ℤ st.lc)
          (print_ℤ st.hbd))
      >>= pay_out op key held st

  unfoldable pub remove_liquidity : PoolOp → List Text → Replay → Result Thrown Replay
  remove_liquidity op f st =
      let key = tranche_key op.signer (trim (text_at f 0)) in
      let held = get (pos 0) key st.tranche_shares in
      if is_positive_ℤ held then close_tranche op key held st else ok st

  abbrev pub swapped : PoolOp → Bool → ℤ → ℤ → Amount → Replay → Replay
  swapped op selling amount_in out amount_out st =
      let lc = if selling then st.lc +ℤ amount_in else st.lc -ℤ out in
      let hbd = if selling then st.hbd -ℤ out else st.hbd +ℤ amount_in in
      record {
        lc = lc;
        hbd = hbd;
        total_shares = st.total_shares;
        tranche_shares = st.tranche_shares;
        next_id = st.next_id;
        trades =
            st.trades
            ++ trade_of op (if selling then sell else buy) (from_units amount_in) amount_out lc hbd
              ∷ [];
      }

  abbrev pub take_swap : PoolOp → Bool → ℤ → Replay → Swap → Result Thrown Replay
  take_swap op selling amount_in st q =
      if q.ok
      then units q.amount_out >>= (λ out. ok (swapped op selling amount_in out q.amount_out st))
      else ok st

  abbrev pub swap_amount : PoolOp → Bool → Replay → ℤ → Result Thrown Replay
  swap_amount op selling st amount_in =
      if is_positive_ℤ amount_in && is_positive_ℤ st.lc && is_positive_ℤ st.hbd
      then or_throw (
          engine.estimate_swap (print_ℤ (if selling then st.lc else st.hbd))
            (print_ℤ (if selling then st.hbd else st.lc)) (print_ℤ amount_in))
        >>= take_swap op selling amount_in st
      else ok st

  unfoldable pub swap : PoolOp → List Text → Replay → Result Thrown Replay
  swap op f st =
      argument f 0
      >>= swap_amount op (text_eq (canonical_action op.action) (codes "swap_lassecash_hbd")) st

  -- One round of the loop.
  abbrev pub replay_op : PoolOp → Replay → Result Thrown Replay
  replay_op op st =
      let f = split b'|' op.payload in
      if text_eq op.action (codes "add_liquidity")
      then add_liquidity op f st
      else if text_eq op.action (codes "remove_liquidity")
      then remove_liquidity op f st
      else swap op f st

  abbrev pub replay_ops : List PoolOp → Replay → Result Thrown Replay
  replay_ops [] st = ok st
  replay_ops (op ∷ ops) st = replay_op op st >>= replay_ops ops

  abbrev pub reconciles : Replay → Result Thrown Bool
  reconciles st =
      if length st.trades == 0
      then ok false
      else units info.amm_lc >>= (λ amm_lc.
        if eqb_ℤ st.lc amm_lc
        then units info.amm_hbd >>= (λ amm_hbd. ok (eqb_ℤ st.hbd amm_hbd))
        else ok false)

  -- The end of `poolTrades`: the trades, and whether the reserves are the chain's.
  unfoldable pub pool_trades : List PoolOp → Result Thrown (List PoolTrade × Bool)
  pool_trades ops = do
    st ← replay_ops ops empty_pool
    reconciled ← reconciles st
    ok (st.trades, reconciled)
