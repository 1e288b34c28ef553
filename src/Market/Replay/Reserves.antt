-- ===== src/Market/Replay/Reserves.antt =====
-- The reserves that a replay arrives at.
use lasse_cash_migration_to.Prelude.{
  ◌&&◌, eqb_ℤ_refl, eqb_ℤ→eq, split, zero_+ℤ, +ℤ_assoc, length-append, ap, ◌∙◌, +ℤ_zero, sym, ◌↔◌,
  ℕ, suc, ◌+◌, ◌≡◌, refl, Bool, true, Option, none, some, List, [], ◌∷◌, ◌++◌, arith, ℤ, pos, neg_ℕ,
  ◌+ℤ◌, ◌-ℤ◌, ◌≤ℤ◌, length, Text,
}
use lasse_cash_migration_to.Prelude.Decimal.{digits_value}
use lasse_cash_migration_to.Market.Entry.{
  TradeType, buy, sell, add, remove, PoolLedgerEntry, Delta, Label, swap_lassecash_hbd,
  swap_hbd_lassecash, add_liquidity, remove_liquidity, other, canonical_action, first_or_empty,
  read_answer, label_of, parse_ledger_entry, reserve_price,
}
use lasse_cash_migration_to.Market.Replay.{
  eqb_ℤ, apply_delta, MarketTrade, MarketReplay, trade_of, replay_from, build_market_trades,
  reconciles,
}

-- The sign with which a trade of a type moves a reserve: the change of the LASSECASH side, ...
abbrev pub lc_change : TradeType → ℤ → ℤ
lc_change buy n = pos 0 -ℤ n
lc_change sell n = n
lc_change add n = n
lc_change remove n = pos 0 -ℤ n

-- ... and of the HBD side.
abbrev pub hbd_change : TradeType → ℤ → ℤ
hbd_change buy n = n
hbd_change sell n = pos 0 -ℤ n
hbd_change add n = n
hbd_change remove n = pos 0 -ℤ n

-- The deltas of an entry that was read are the signed amounts, which are zero or more.
abbrev pub IsSigned : Delta → Type 0
IsSigned p =
    (p.d_lc ≡ lc_change p.type p.lc)
    × (p.d_hbd ≡ hbd_change p.type p.hbd)
    × (pos 0 ≤ℤ p.lc)
    × (pos 0 ≤ℤ p.hbd)

neg_ℕ-sub : (n : ℕ) → neg_ℕ n ≡ pos 0 -ℤ pos n
unfolding ◌-ℤ◌
neg_ℕ-sub n = ground arith

read_answer-IsSigned :
    (l : Label) (arg : ℕ) (ret : Text) {p : Delta} → read_answer l arg ret ≡ some p → IsSigned p
unfolding read_answer ◌-ℤ◌
read_answer-IsSigned swap_lassecash_hbd arg ret h = ground arith
read_answer-IsSigned swap_hbd_lassecash arg ret h = ground arith
read_answer-IsSigned add_liquidity arg ret h = ground arith
read_answer-IsSigned remove_liquidity arg ret h = ground arith
read_answer-IsSigned other arg ret h = cc

abbrev label_in : PoolLedgerEntry → Label
label_in e = label_of (canonical_action e.action)

abbrev arg_in : PoolLedgerEntry → ℕ
arg_in e = digits_value (first_or_empty (split b'|' e.payload))

parse_ledger_entry_read :
    (e : PoolLedgerEntry) {p : Delta}
    → parse_ledger_entry e ≡ some p
    → (e.ok ≡ true) × (read_answer (label_in e) (arg_in e) e.ret ≡ some p)
unfolding parse_ledger_entry
parse_ledger_entry_read e h = ground arith

-- What is read from an entry comes from a call that succeeded, and moves each reserve by an amount
-- of zero or more, with the sign of its type.
pub parse_ledger_entry-IsSigned :
    (e : PoolLedgerEntry) {p : Delta} → parse_ledger_entry e ≡ some p → (e.ok ≡ true) × IsSigned p
parse_ledger_entry-IsSigned e h =
    let (done, read) = parse_ledger_entry_read e h in
    (done, read_answer-IsSigned (label_in e) (arg_in e) e.ret read)

-- Each trade stands at the reserves that the trade before it left, moved by its own amounts, and
-- quotes the price of the reserves after it; the last reserves are `lc'` and `hbd'`.
abbrev pub Chained : ℤ → ℤ → List MarketTrade → ℤ → ℤ → Type 0
Chained lc hbd [] lc' hbd' = (lc ≡ lc') × (hbd ≡ hbd')
Chained lc hbd (t ∷ ts) lc' hbd' =
    (t.lc_reserve ≡ lc +ℤ lc_change t.type t.lc)
    × (t.hbd_reserve ≡ hbd +ℤ hbd_change t.type t.hbd)
    × (t.price ≡ reserve_price t.lc_reserve t.hbd_reserve)
    × Chained t.lc_reserve t.hbd_reserve ts lc' hbd'

Chained-snoc :
    (ts : List MarketTrade) (t : MarketTrade) (lc hbd lc' hbd' : ℤ)
    → Chained lc hbd ts lc' hbd'
    → t.lc_reserve ≡ lc' +ℤ lc_change t.type t.lc
    → t.hbd_reserve ≡ hbd' +ℤ hbd_change t.type t.hbd
    → t.price ≡ reserve_price t.lc_reserve t.hbd_reserve
    → Chained lc hbd (ts ++ t ∷ []) t.lc_reserve t.hbd_reserve
Chained-snoc [] t lc hbd lc' hbd' h a b c = (rw (h.0) a, rw (h.1) b, c, (refl, refl))
Chained-snoc (u ∷ ts) t lc hbd lc' hbd' h a b c =
    (h.0, h.1, h.2, Chained-snoc ts t u.lc_reserve u.hbd_reserve lc' hbd' h.3 a b c)

-- The state of the loop after `n` entries.
pub record IsReplay (n : ℕ) (r : MarketReplay) : Type 0 where
  pub chained : Chained (pos 0) (pos 0) r.trades r.lc_reserve r.hbd_reserve
  pub counted : length r.trades + r.skipped ≡ n

module _ (date_parse : Text → ℤ) where
  apply_delta-IsReplay :
      (e : PoolLedgerEntry) (p : Option Delta) (n : ℕ) (r : MarketReplay)
      → ((q : Delta) → p ≡ some q → IsSigned q)
      → IsReplay n r
      → IsReplay (suc n) (apply_delta date_parse e p r)
  unfolding apply_delta trade_of
  apply_delta-IsReplay e none n r _ h = record {
    chained = h.chained;
    counted = omega (arith, h.counted);
  }
  apply_delta-IsReplay e (some p) n r signed h =
      let s = signed p refl in
      record {
        chained =
            Chained-snoc r.trades _ (pos 0) (pos 0) r.lc_reserve r.hbd_reserve h.chained
              (ap (λ d. r.lc_reserve +ℤ d) s.0) (ap (λ d. r.hbd_reserve +ℤ d) s.1) refl;
        counted = omega (
          arith,
          length-append r.trades
              (trade_of date_parse e p (r.lc_reserve +ℤ p.d_lc) (r.hbd_reserve +ℤ p.d_hbd) ∷ []),
          h.counted,
        );
      }

  replay_from-IsReplay :
      (ledger : List PoolLedgerEntry) (n m : ℕ) (r : MarketReplay)
      → n + length ledger ≡ m
      → IsReplay n r
      → IsReplay m (replay_from date_parse r ledger)
  unfolding replay_from
  replay_from-IsReplay [] n m r e h = record {
    chained = h.chained;
    counted = omega (arith, h.counted);
  }
  replay_from-IsReplay (x ∷ ledger) n m r e h =
      replay_from-IsReplay ledger (suc n) m _ (omega arith) (
        apply_delta-IsReplay x (parse_ledger_entry x) n r
          (λ q read. (parse_ledger_entry-IsSigned x read).1) h)

  -- Every ledger entry is a trade or is skipped; the trades chain from empty reserves to the
  -- reserves that the replay reports, each moved by its own amounts and priced after its move.
  pub build_market_trades-IsReplay :
      (ledger : List PoolLedgerEntry)
      → IsReplay (length ledger) (build_market_trades date_parse ledger)
  unfolding build_market_trades
  build_market_trades-IsReplay ledger =
      replay_from-IsReplay ledger 0 (length ledger) _ (omega arith)
        (record { chained = (refl, refl); counted = refl })

-- The net change that a list of trades reports on each side.
abbrev pub net_lc : List MarketTrade → ℤ
net_lc [] = pos 0
net_lc (t ∷ ts) = lc_change t.type t.lc +ℤ net_lc ts

abbrev pub net_hbd : List MarketTrade → ℤ
net_hbd [] = pos 0
net_hbd (t ∷ ts) = hbd_change t.type t.hbd +ℤ net_hbd ts

Chained-net :
    (ts : List MarketTrade) (lc hbd lc' hbd' : ℤ)
    → Chained lc hbd ts lc' hbd'
    → (lc' ≡ lc +ℤ net_lc ts) × (hbd' ≡ hbd +ℤ net_hbd ts)
Chained-net [] lc hbd lc' hbd' h = (rw (← h.0) (sym (+ℤ_zero lc)), rw (← h.1) (sym (+ℤ_zero hbd)))
Chained-net (t ∷ ts) lc hbd lc' hbd' h =
    let (a, b) = Chained-net ts t.lc_reserve t.hbd_reserve lc' hbd' h.3 in
    (
      rw (a, h.0) (+ℤ_assoc lc (lc_change t.type t.lc) (net_lc ts)),
      rw (b, h.1) (+ℤ_assoc hbd (hbd_change t.type t.hbd) (net_hbd ts)),
    )

both_true : (a b : Bool) → (a && b) ≡ true → (a ≡ true) × (b ≡ true)
both_true a b h = ground arith

reconciles_iff :
    (r : MarketReplay) (lc hbd : ℤ)
    → (reconciles r lc hbd ≡ true) ↔ ((r.lc_reserve ≡ lc) × (r.hbd_reserve ≡ hbd))
unfolding reconciles
reconciles_iff r lc hbd = (
  λ h.
      let (a, b) = both_true (eqb_ℤ r.lc_reserve lc) (eqb_ℤ r.hbd_reserve hbd) h in
      (eqb_ℤ→eq r.lc_reserve lc a, eqb_ℤ→eq r.hbd_reserve hbd b),
  λ h. rw (h.0, h.1) (rw (eqb_ℤ_refl lc, eqb_ℤ_refl hbd)),
)

-- A replay reconciles with the live reserves exactly when the amounts of its trades, signed by
-- type, sum to them on both sides.
pub reconciles-net :
    (date_parse : Text → ℤ) (ledger : List PoolLedgerEntry) (live_lc live_hbd : ℤ)
    → let r = build_market_trades date_parse ledger in
      (reconciles r live_lc live_hbd ≡ true)
      ↔ ((net_lc r.trades ≡ live_lc) × (net_hbd r.trades ≡ live_hbd))
reconciles-net date_parse ledger live_lc live_hbd =
    let r = build_market_trades date_parse ledger in
    let (a, b) =
      Chained-net r.trades (pos 0) (pos 0) r.lc_reserve r.hbd_reserve
        (build_market_trades-IsReplay date_parse ledger).chained in
    let a' = a ∙ zero_+ℤ (net_lc r.trades) in
    let b' = b ∙ zero_+ℤ (net_hbd r.trades) in
    let e = reconciles_iff r live_lc live_hbd in
    (λ h. (sym a' ∙ (e.0 h).0, sym b' ∙ (e.0 h).1), λ h. e.1 (a' ∙ h.0, b' ∙ h.1))
