-- ===== src/Market/Ticker/Range.antt =====
-- The high and the low of the window.
use lasse_cash_migration_to.Prelude.{
  ◌&&◌, filter, sym, subst, ◌∙◌, ◌⊎◌, ◌≡◌, refl, true, false, List, [], ◌∷◌, arith, ℤ, pos, ltb_ℤ,
  ◌-ℤ◌, ◌≤ℤ◌, All, Bool-cases, inl, inr,
}
use lasse_cash_migration_to.Market.Replay.{MarketTrade}
use lasse_cash_migration_to.Market.Ticker.{
  not, Bool, last?, MarketTicker, is_swap, widen, count_swap, tick, tick_all, or_last_price,
  market_ticker, day_ms, empty_ticker, price_or_zero,
}

-- The high and the low are both zero, or both are prices above zero in their order.
abbrev IsRange : MarketTicker → Type 0
IsRange s =
    ((s.high_24h ≡ pos 0) × (s.low_24h ≡ pos 0))
    ⊎ ((pos 1 ≤ℤ s.low_24h) × (s.low_24h ≤ℤ s.high_24h))

-- A later state spans an earlier one.
abbrev Spans : MarketTicker → MarketTicker → Type 0
Spans s s' =
    (s.high_24h ≤ℤ s'.high_24h)
    × (pos 1 ≤ℤ s.low_24h → (pos 1 ≤ℤ s'.low_24h) × (s'.low_24h ≤ℤ s.low_24h))

-- A trade of the window with a price above zero.
abbrev pub counted : ℤ → MarketTrade → Bool
counted since t = not (ltb_ℤ t.timestamp_ms since) && ltb_ℤ (pos 0) t.price

abbrev pub Between : MarketTicker → MarketTrade → Type 0
Between s t = (s.low_24h ≤ℤ t.price) × (t.price ≤ℤ s.high_24h)

-- A price that counts lies between the low and the high.
abbrev Within : ℤ → MarketTicker → MarketTrade → Type 0
Within since s t =
    ltb_ℤ t.timestamp_ms since ≡ false
    → pos 1 ≤ℤ t.price
    → (s.low_24h ≤ℤ t.price) × (t.price ≤ℤ s.high_24h)

widen_within :
    (p : ℤ) (s : MarketTicker)
    → pos 1 ≤ℤ p
    → IsRange s
    → (pos 1 ≤ℤ (widen p s).low_24h) × ((widen p s).low_24h ≤ℤ p) × (p ≤ℤ (widen p s).high_24h)
unfolding widen
widen_within p s hp h = ground arith

widen-IsRange : (p : ℤ) (s : MarketTicker) → pos 1 ≤ℤ p → IsRange s → IsRange (widen p s)
widen-IsRange p s hp h = let (above, low, high) = widen_within p s hp h in inr (above, omega arith)

widen-Spans : (p : ℤ) (s : MarketTicker) → pos 1 ≤ℤ p → IsRange s → Spans s (widen p s)
unfolding widen
widen-Spans p s hp h = (ground arith, λ hl. ground arith)

-- Counting a swap leaves the range alone.
count_swap_range :
    (t : MarketTrade) (s : MarketTicker)
    → ((count_swap t s).high_24h ≡ s.high_24h) × ((count_swap t s).low_24h ≡ s.low_24h)
unfolding count_swap
count_swap_range t s = elim (Bool-cases (is_swap t.type)) [
  | inl swap ↦ rw swap (refl, refl)
  | inr other ↦ rw other (refl, refl)
]

priced→le : (p : ℤ) → ltb_ℤ (pos 0) p ≡ true → pos 1 ≤ℤ p
priced→le p h = ground arith

unpriced→le : (p : ℤ) → ltb_ℤ (pos 0) p ≡ false → pos 1 ≤ℤ p → ⊥
unpriced→le p h k = ground arith

-- What one round does to the range.
abbrev Round : ℤ → MarketTrade → MarketTicker → MarketTicker → Type 0
Round since t s s' = IsRange s' × Spans s s' × Within since s' t × (s'.last_price ≡ s.last_price)

-- Counting a swap after a round is no matter for the range.
count_swap-Round :
    (since : ℤ) (t : MarketTrade) (s s' : MarketTicker)
    → Round since t s s'
    → Round since t s (count_swap t s')
unfolding count_swap
count_swap-Round since t s s' h = elim (Bool-cases (is_swap t.type)) [
  | inl swap ↦ rw swap h
  | inr other ↦ rw other h
]

widen-Round :
    (since : ℤ) (t : MarketTrade) (s : MarketTicker)
    → pos 1 ≤ℤ t.price
    → IsRange s
    → Round since t s (widen t.price s)
unfolding widen
widen-Round since t s hp h =
    let (above, low, high) = widen_within t.price s hp h in
    (widen-IsRange t.price s hp h, widen-Spans t.price s hp h, λ _ _. (low, high), refl)

-- One round keeps the shape of the range, spans the range before it, and takes the trade in.
tick-Round :
    (since : ℤ) (t : MarketTrade) (s : MarketTicker) → IsRange s → Round since t s (tick since t s)
unfolding tick
tick-Round since t s h = elim (Bool-cases (ltb_ℤ t.timestamp_ms since)) [
  | inl old ↦
      let e : tick since t s ≡ record s { price_24h_ago = t.price } = rw old in
      subst (Round since t s) (sym e) (
        h,
        (omega arith, λ k. (k, omega arith)),
        (λ new. let c : true ≡ false = sym old ∙ new in cc),
        refl,
      )
  | inr new ↦ elim (Bool-cases (ltb_ℤ (pos 0) t.price)) [
    | inl priced ↦
        let e : tick since t s ≡ count_swap t (widen t.price s) = rw (new, priced) in
        subst (Round since t s) (sym e) (
          count_swap-Round since t s (widen t.price s)
            (widen-Round since t s (priced→le t.price priced) h))
    | inr unpriced ↦
        let e : tick since t s ≡ count_swap t s = rw (new, unpriced) in
        subst (Round since t s) (sym e) (
          count_swap-Round since t s s (
            h,
            (omega arith, λ k. (k, omega arith)),
            (λ _ k. absurd (unpriced→le t.price unpriced k)),
            refl,
          ))
  ]
]

-- Below a price above zero the high is no zero, so the low is above zero too.
low_positive :
    (s : MarketTicker) (p : ℤ) → IsRange s → pos 1 ≤ℤ p → p ≤ℤ s.high_24h → pos 1 ≤ℤ s.low_24h
low_positive s p (inl (high, low)) hp le =
    absurd (let le' : p ≤ℤ pos 0 = rw high at le in omega arith)
low_positive s p (inr (above, le')) hp le = above

-- The range at the end of the loop takes in every trade of the window, and spans the one before it.
tick_all-IsRange :
    (since : ℤ) (ts : List MarketTrade) (s : MarketTicker)
    → IsRange s
    → IsRange (tick_all since ts s)
      × Spans s (tick_all since ts s)
      × All (Within since (tick_all since ts s)) ts
      × ((tick_all since ts s).last_price ≡ s.last_price)
unfolding tick_all
tick_all-IsRange since [] s h = (h, (omega arith, λ k. (k, omega arith)), tt, refl)
tick_all-IsRange since (t ∷ ts) s h =
    let (shape, spans, taken, last) = tick-Round since t s h in
    let (shape', spans', rest, last') = tick_all-IsRange since ts (tick since t s) shape in
    (
      shape',
      (
        omega arith,
        λ k.
            let (above, low) = spans.1 k in
            let (above', low') = spans'.1 above in (above', omega arith),
      ),
      (
        λ new hp.
            let (low, high) = taken new hp in
            let above = low_positive (tick since t s) t.price shape hp high in
            let (_, low') = spans'.1 above in (omega arith, omega arith),
        rest,
      ),
      last' ∙ last,
    )

-- Filling an empty range in with the last price.
or_last_price-range :
    (s : MarketTicker)
    → IsRange s
    → let k = or_last_price s in
      ((k.high_24h ≡ s.high_24h)
        × (k.low_24h ≡ s.low_24h)
        × (pos 1 ≤ℤ s.low_24h)
        × (s.low_24h ≤ℤ s.high_24h))
      ⊎ ((s.high_24h ≡ pos 0) × (k.high_24h ≡ s.last_price) × (k.low_24h ≡ s.last_price))
unfolding or_last_price
or_last_price-range s (inl (high, low)) = inr (high, ground arith, ground arith)
or_last_price-range s (inr (above, le)) = inl (ground arith, ground arith, above, le)

or_last_price-Within :
    (since : ℤ) (s : MarketTicker) (t : MarketTrade)
    → IsRange s
    → Within since s t
    → Within since (or_last_price s) t
or_last_price-Within since s t shape h new hp = elim (or_last_price-range s shape) [
  | inl (high, low, _, _) ↦ rw (high, low) (h new hp)
  | inr (zero_high, _, _) ↦
      let le : t.price ≤ℤ pos 0 = rw zero_high at ((h new hp).1) in absurd (omega arith)
]

All-Within :
    (since : ℤ) (s : MarketTicker) (ts : List MarketTrade)
    → IsRange s
    → All (Within since s) ts
    → All (Within since (or_last_price s)) ts
All-Within since s [] shape h = tt
All-Within since s (t ∷ ts) shape h =
    (or_last_price-Within since s t shape h.0, All-Within since s ts shape h.1)

or_last_price-last : (s : MarketTicker) → (or_last_price s).last_price ≡ s.last_price
unfolding or_last_price
or_last_price-last s = refl

All-counted :
    (since : ℤ) (s : MarketTicker) (ts : List MarketTrade)
    → All (Within since s) ts
    → All (Between s) (filter (counted since) ts)
All-counted since s [] h = tt
All-counted since s (t ∷ ts) h = elim (Bool-cases (counted since t)) [
  | inl kept ↦
      let new : ltb_ℤ t.timestamp_ms since ≡ false = ground arith in
      let priced : ltb_ℤ (pos 0) t.price ≡ true = ground arith in
      rw kept (h.0 new (priced→le t.price priced), All-counted since s ts h.1)
  | inr cut ↦ rw cut (All-counted since s ts h.1)
]

-- Every price above zero that stands in the window lies between the low and the high; and these
-- are above zero and in order, or both are the last price.
pub market_ticker-range :
    (trades : List MarketTrade) (now_ms : ℤ)
    → let k = market_ticker trades now_ms in
      All (Between k) (filter (counted (now_ms -ℤ day_ms)) trades)
      × (((pos 1 ≤ℤ k.low_24h) × (k.low_24h ≤ℤ k.high_24h))
          ⊎ ((k.high_24h ≡ k.last_price) × (k.low_24h ≡ k.last_price)))
unfolding market_ticker
market_ticker-range trades now_ms =
    let since = now_ms -ℤ day_ms in
    let s = tick_all since trades (empty_ticker (price_or_zero (last? trades))) in
    let (shape, _, within, _) =
      tick_all-IsRange since trades (empty_ticker (price_or_zero (last? trades)))
        (inl (refl, refl)) in
    (
      All-counted since (or_last_price s) trades (All-Within since s trades shape within),
      elim (or_last_price-range s shape) [
        | inl (high, low, above, le) ↦ inl (rw (high, low) (above, le))
        | inr (_, high, low) ↦
            inr (high ∙ sym (or_last_price-last s), low ∙ sym (or_last_price-last s))
      ],
    )
