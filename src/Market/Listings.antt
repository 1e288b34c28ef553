-- ===== src/Market/Listings.antt =====
-- The trades as the two specifications list them, against the rows that they are made of.
use mathlib.Core.List.{reverse-cons}
use lasse_cash_migration_to.Prelude.{
  All-take, All-append, ◌∷◌, [], ℕ, suc, ◌+◌, ◌≡◌, refl, ap, ◌⊎◌, inl, inr, Bool, true, false,
  Option, none, some, List, map, reverse, arith, ltb, Bool-cases, length, filter, All,
}
use lasse_cash_migration_to.Market.Entry.{TradeType, buy, sell, add, remove}
use lasse_cash_migration_to.Market.Replay.{MarketTrade}
use lasse_cash_migration_to.Market.Ticker.{is_swap}
use lasse_cash_migration_to.Market.Rows.{
  limited, type_test, start_test, end_test, buys, sells, RowOptions, is_side, trade_rows,
}
use lasse_cash_migration_to.Market.Shapes.{shape, gecko_historical_trades}

length-map : {A B : Type 0} (f : A → B) (xs : List A) → length (map f xs) ≡ length xs
length-map f [] = refl
length-map f (x ∷ xs) = ap suc (length-map f xs)

one_side :
    (ty : TradeType)
    → is_swap ty ≡ true
    → ((is_side buys ty ≡ true) × (is_side sells ty ≡ false))
      ⊎ ((is_side buys ty ≡ false) × (is_side sells ty ≡ true))
one_side buy h = inl (refl, refl)
one_side sell h = inr (refl, refl)
one_side add h = cc
one_side remove h = cc

length-sides :
    (rows : List MarketTrade)
    → All (λ t. is_swap t.type ≡ true) rows
    → length (filter (λ t. is_side buys t.type) rows)
        + length (filter (λ t. is_side sells t.type) rows)
      ≡ length rows
length-sides [] h = refl
length-sides (t ∷ rows) h = elim (one_side t.type h.0) [
  | inl (bought, not_sold) ↦ rw (bought, not_sold) (omega (arith, length-sides rows h.1))
  | inr (not_bought, sold) ↦ rw (not_bought, sold) (omega (arith, length-sides rows h.1))
]

module _ {A : Type 0} (P : A → Type 0) where
  All-filter : (p : A → Bool) (xs : List A) → All P xs → All P (filter p xs)
  All-filter p [] h = tt
  All-filter p (x ∷ xs) h = elim (Bool-cases (p x)) [
    | inl kept ↦ rw kept (h.0, All-filter p xs h.1)
    | inr cut ↦ rw cut (All-filter p xs h.1)
  ]

  All-reverse : (xs : List A) → All P xs → All P (reverse xs)
  All-reverse [] h = tt
  All-reverse (x ∷ xs) h =
      rw (reverse-cons x xs) (All-append P (reverse xs) (x ∷ []) (All-reverse xs h.1) (h.0, tt))

  All-limited : (limit : Option ℕ) (xs : List A) → All P xs → All P (limited limit xs)
  unfolding limited
  All-limited none xs h = h
  All-limited (some limit) xs h = elim (Bool-cases (ltb 0 limit)) [
    | inl some_left ↦ rw some_left (All-take P limit xs h)
    | inr unlimited ↦ rw unlimited h
  ]

All-filtered : {A : Type 0} (p : A → Bool) (xs : List A) → All (λ x. p x ≡ true) (filter p xs)
All-filtered p [] = tt
All-filtered p (x ∷ xs) = elim (Bool-cases (p x)) [
  | inl kept ↦ rw kept (kept, All-filtered p xs)
  | inr cut ↦ rw cut (All-filtered p xs)
]

trade_rows-swaps :
    (trades : List MarketTrade) (opts : RowOptions)
    → All (λ t. is_swap t.type ≡ true) (trade_rows trades opts)
unfolding trade_rows
trade_rows-swaps trades opts =
    let swaps = filter (λ t. is_swap t.type) trades in
    let of_type = filter (type_test opts.type) swaps in
    let started = filter (start_test opts.start_ms) of_type in
    let P = λ (t : MarketTrade). is_swap t.type ≡ true in
    All-limited P opts.limit (reverse (filter (end_test opts.end_ms) started)) (
      All-reverse P (filter (end_test opts.end_ms) started) (
        All-filter P (end_test opts.end_ms) started (
          All-filter P (start_test opts.start_ms) of_type (
            All-filter P (type_test opts.type) swaps (All-filtered (λ t. is_swap t.type) trades)))))

-- The listing by sides has as many trades as the rows that it is made of.
gecko_historical_trades-length :
    (trades : List MarketTrade) (opts : RowOptions)
    → length (gecko_historical_trades trades opts).buy
        + length (gecko_historical_trades trades opts).sell
      ≡ length (trade_rows trades opts)
unfolding gecko_historical_trades
gecko_historical_trades-length trades opts =
    let rows = trade_rows trades opts in
    rw
      (
        length-map shape (filter (λ r. is_side buys r.type) rows),
        length-map shape (filter (λ r. is_side sells r.type) rows),
      )
      (length-sides rows (trade_rows-swaps trades opts))
