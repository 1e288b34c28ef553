-- ===== src/Market/Ticker/Volume.antt =====
-- The volumes, the count and the reference price, against a selection of the trades.
use lasse_cash_migration_to.Prelude.{
  if◌then◌else◌, inr, ap, +ℤ_zero, inl, Bool-cases, sym, ◌+◌, ◌≡◌, refl, not, ◌&&◌, List, [], ◌∷◌,
  arith, ℤ, pos, ltb_ℤ, ◌+ℤ◌, ◌-ℤ◌, filter, length, last?, Bool, true, false, ◌∙◌, +ℤ_assoc,
  zero_+ℤ,
}
use lasse_cash_migration_to.Market.Replay.{MarketTrade}
use lasse_cash_migration_to.Market.Ticker.{
  MarketTicker, is_swap, widen, count_swap, tick, tick_all, or_last_price, market_ticker, day_ms,
  empty_ticker, price_or_zero,
}

-- A swap inside the window that begins at `since`.
abbrev pub swap_since : ℤ → MarketTrade → Bool
swap_since since t = not (ltb_ℤ t.timestamp_ms since) && is_swap t.type

abbrev pub before : ℤ → MarketTrade → Bool
before since t = ltb_ℤ t.timestamp_ms since

abbrev pub total_lc : List MarketTrade → ℤ
total_lc [] = pos 0
total_lc (t ∷ ts) = t.lc +ℤ total_lc ts

abbrev pub total_hbd : List MarketTrade → ℤ
total_hbd [] = pos 0
total_hbd (t ∷ ts) = t.hbd +ℤ total_hbd ts

-- The trades that a state has counted, behind those that it is to count.
abbrev Counts : ℤ → List MarketTrade → MarketTicker → MarketTicker → Type 0
Counts since ts s s' =
    (s'.base_volume_24h ≡ s.base_volume_24h +ℤ total_lc (filter (swap_since since) ts))
    × (s'.quote_volume_24h ≡ s.quote_volume_24h +ℤ total_hbd (filter (swap_since since) ts))
    × (s'.trades_24h ≡ s.trades_24h + length (filter (swap_since since) ts))
    × (s'.last_price ≡ s.last_price)

-- A trade that is no swap of the window leaves the volumes and the count alone.
tick-other :
    (since : ℤ) (t : MarketTrade) (s : MarketTicker)
    → swap_since since t ≡ false
    → let s' = tick since t s in
      (s'.base_volume_24h ≡ s.base_volume_24h)
      × (s'.quote_volume_24h ≡ s.quote_volume_24h)
      × (s'.trades_24h ≡ s.trades_24h)
      × (s'.last_price ≡ s.last_price)
unfolding tick count_swap widen
tick-other since t s h = elim (Bool-cases (ltb_ℤ t.timestamp_ms since)) [
  | inl old ↦ rw old (refl, refl, refl, refl)
  | inr new ↦
      let no_swap : is_swap t.type ≡ false = rw new at h in
      elim (Bool-cases (ltb_ℤ (pos 0) t.price)) [
        | inl priced ↦ rw (new, no_swap, priced) (refl, refl, refl, refl)
        | inr unpriced ↦ rw (new, no_swap, unpriced) (refl, refl, refl, refl)
      ]
]

-- A swap of the window adds its amounts, and one to the count.
tick-swap :
    (since : ℤ) (t : MarketTrade) (s : MarketTicker)
    → swap_since since t ≡ true
    → let s' = tick since t s in
      (s'.base_volume_24h ≡ s.base_volume_24h +ℤ t.lc)
      × (s'.quote_volume_24h ≡ s.quote_volume_24h +ℤ t.hbd)
      × (s'.trades_24h ≡ s.trades_24h + 1)
      × (s'.last_price ≡ s.last_price)
unfolding tick count_swap widen
tick-swap since t s h = elim (Bool-cases (ltb_ℤ t.timestamp_ms since)) [
  | inl old ↦ let e : false ≡ true = rw old at h in cc
  | inr new ↦
      let swap : is_swap t.type ≡ true = rw new at h in
      elim (Bool-cases (ltb_ℤ (pos 0) t.price)) [
        | inl priced ↦ rw (new, swap, priced) (refl, refl, refl, refl)
        | inr unpriced ↦ rw (new, swap, unpriced) (refl, refl, refl, refl)
      ]
]

tick_all-Counts :
    (since : ℤ) (ts : List MarketTrade) (s : MarketTicker) → Counts since ts s (tick_all since ts s)
unfolding tick_all
tick_all-Counts since [] s = (sym (+ℤ_zero _), sym (+ℤ_zero _), omega arith, refl)
tick_all-Counts since (t ∷ ts) s =
    let (a, b, c, d) = tick_all-Counts since ts (tick since t s) in
    elim (Bool-cases (swap_since since t)) [
      | inl swap ↦
          let (a', b', c', d') = tick-swap since t s swap in
          rw swap (
            a ∙ rw a' (+ℤ_assoc s.base_volume_24h t.lc _),
            b ∙ rw b' (+ℤ_assoc s.quote_volume_24h t.hbd _),
            omega arith,
            d ∙ d',
          )
      | inr other ↦
          let (a', b', c', d') = tick-other since t s other in
          rw other (
            a ∙ ap (λ v. v +ℤ total_lc (filter (swap_since since) ts)) a',
            b ∙ ap (λ v. v +ℤ total_hbd (filter (swap_since since) ts)) b',
            omega arith,
            d ∙ d',
          )
    ]

-- The 24-hour volumes are the sums over exactly the swaps of the window, the count is their number,
-- and the last price is that of the last trade of all, or zero.
pub market_ticker-volume :
    (trades : List MarketTrade) (now_ms : ℤ)
    → let k = market_ticker trades now_ms in
      let swaps = filter (swap_since (now_ms -ℤ day_ms)) trades in
      (k.base_volume_24h ≡ total_lc swaps)
      × (k.quote_volume_24h ≡ total_hbd swaps)
      × (k.trades_24h ≡ length swaps)
      × (k.last_price ≡ price_or_zero (last? trades))
unfolding market_ticker or_last_price
market_ticker-volume trades now_ms =
    let (a, b, c, d) =
      tick_all-Counts (now_ms -ℤ day_ms) trades (empty_ticker (price_or_zero (last? trades))) in
    (a ∙ zero_+ℤ _, b ∙ zero_+ℤ _, omega arith, d)

-- The price of the last of some trades, or the price before them.
abbrev pub last_price_or : ℤ → List MarketTrade → ℤ
last_price_or p [] = p
last_price_or p (t ∷ ts) = last_price_or t.price ts

tick-reference :
    (since : ℤ) (t : MarketTrade) (s : MarketTicker)
    → (tick since t s).price_24h_ago ≡ (if before since t then t.price else s.price_24h_ago)
unfolding tick count_swap widen
tick-reference since t s = elim (Bool-cases (ltb_ℤ t.timestamp_ms since)) [
  | inl old ↦ rw old
  | inr new ↦ elim (Bool-cases (is_swap t.type)) [
    | inl swap ↦ elim (Bool-cases (ltb_ℤ (pos 0) t.price)) [
      | inl priced ↦ rw (new, swap, priced)
      | inr unpriced ↦ rw (new, swap, unpriced)
    ]
    | inr other ↦ elim (Bool-cases (ltb_ℤ (pos 0) t.price)) [
      | inl priced ↦ rw (new, other, priced)
      | inr unpriced ↦ rw (new, other, unpriced)
    ]
  ]
]

tick_all-reference :
    (since : ℤ) (ts : List MarketTrade) (s : MarketTicker)
    → (tick_all since ts s).price_24h_ago ≡ last_price_or s.price_24h_ago (filter (before since) ts)
unfolding tick_all
tick_all-reference since [] s = refl
tick_all-reference since (t ∷ ts) s =
    let rest = filter (before since) ts in
    let e : (tick_all since ts (tick since t s)).price_24h_ago
        ≡ last_price_or (if before since t then t.price else s.price_24h_ago) rest =
      tick_all-reference since ts (tick since t s)
      ∙ ap (λ p. last_price_or p rest) (tick-reference since t s) in
    elim (Bool-cases (before since t)) [
      | inl old ↦ rw old (rw old at e)
      | inr new ↦ rw new (rw new at e)
    ]

-- The reference price is that of the last trade before the window, and zero where there is none.
market_ticker-reference :
    (trades : List MarketTrade) (now_ms : ℤ)
    → (market_ticker trades now_ms).price_24h_ago
      ≡ last_price_or (pos 0) (filter (before (now_ms -ℤ day_ms)) trades)
unfolding market_ticker or_last_price
market_ticker-reference trades now_ms =
    tick_all-reference (now_ms -ℤ day_ms) trades (empty_ticker (price_or_zero (last? trades)))
