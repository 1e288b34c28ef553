-- ===== src/Market/Rows/Selection.antt =====
-- Which trades are rows, and in which order.
use mathlib.Core.Path.{fun_ext}
use lasse_cash_migration_to.Prelude.{
  take-append-drop, lt→ltb, ◌⊎◌, ◌∙◌, ap, all, ℕ, suc, zero, ◌≤◌, ◌≡◌, refl, ◌&&◌, Bool, true, none,
  some, List, [], ◌∷◌, ◌++◌, reverse, arith, filter, take, length, Option, drop, Bool-cases, inl,
  inr, ◌↔◌, ℤ, ◌≤ℤ◌,
}
use lasse_cash_migration_to.Market.Entry.{TradeType, buy, sell, add, remove}
use lasse_cash_migration_to.Market.Replay.{MarketTrade}
use lasse_cash_migration_to.Market.Ticker.{is_swap}
use lasse_cash_migration_to.Market.Rows.{
  Side, buys, sells, RowOptions, is_side, type_test, start_test, end_test, limited, trade_rows,
}

-- A swap, of the side that is asked for.
abbrev pub IsSide : Option Side → TradeType → Type 0
IsSide none type = (type ≡ buy) ⊎ (type ≡ sell)
IsSide (some buys) type = type ≡ buy
IsSide (some sells) type = type ≡ sell

-- Not before the first time, and not after the last one.
abbrev pub IsSince : Option ℤ → ℤ → Type 0
IsSince none time = Unit
IsSince (some first) time = first ≤ℤ time

abbrev pub IsUntil : Option ℤ → ℤ → Type 0
IsUntil none time = Unit
IsUntil (some last) time = time ≤ℤ last

-- A trade that the options ask for.
abbrev pub IsAsked : RowOptions → MarketTrade → Type 0
IsAsked opts t =
    IsSide opts.type t.type
    × IsSince opts.start_ms t.timestamp_ms
    × IsUntil opts.end_ms t.timestamp_ms

-- The four tests of the code, in one.
abbrev selected : RowOptions → MarketTrade → Bool
selected opts t =
    is_swap t.type && type_test opts.type t && start_test opts.start_ms t && end_test opts.end_ms t

filter-filter {ℓ} :
    {A : Type ℓ} (p q : A → Bool) (xs : List A)
    → filter q (filter p xs) ≡ filter (λ x. p x && q x) xs
filter-filter p q [] = refl
filter-filter p q (x ∷ xs) = elim (Bool-cases (p x)) [
  | inl held ↦ elim (Bool-cases (q x)) [
    | inl kept ↦ rw (held, kept) (ap (λ l. x ∷ l) (filter-filter p q xs))
    | inr cut ↦ rw (held, cut) (filter-filter p q xs)
  ]
  | inr cut ↦ rw cut (filter-filter p q xs)
]

-- The four filters of the code, in one.
filters_selected :
    (trades : List MarketTrade) (opts : RowOptions)
    → filter (end_test opts.end_ms) (
        filter
          (start_test opts.start_ms)
          (filter (type_test opts.type) (filter (λ t. is_swap t.type) trades)))
      ≡ filter (selected opts) trades
filters_selected trades opts =
    rw (filter-filter (λ t. is_swap t.type) (type_test opts.type) trades) (
      rw
        (filter-filter (λ t. is_swap t.type && type_test opts.type t) (start_test opts.start_ms)
          trades)
        (filter-filter
            (λ t. (is_swap t.type && type_test opts.type t) && start_test opts.start_ms t)
            (end_test opts.end_ms) trades
          ∙ ap (λ p. filter p trades)
              (fun_ext (λ t.
                regroup (is_swap t.type) (type_test opts.type t) (start_test opts.start_ms t)
                  (end_test opts.end_ms t)))))
  where
    regroup : (a b c d : Bool) → (((a && b) && c) && d) ≡ (a && b && c && d)
    regroup a b c d = ground arith

all-filter {ℓ} : {A : Type ℓ} (p : A → Bool) (xs : List A) → all p (filter p xs) ≡ true
all-filter p [] = refl
all-filter p (x ∷ xs) = elim (Bool-cases (p x)) [
  | inl held ↦ rw held (rw held (all-filter p xs))
  | inr cut ↦ rw cut (all-filter p xs)
]

module _ {A : Type 0} where
  length-take_le : (n : ℕ) (xs : List A) → length (take n xs) ≤ n
  length-take_le zero xs = omega arith
  length-take_le (suc n) [] = omega arith
  length-take_le (suc n) (x ∷ xs) = omega (arith, length-take_le n xs)

  take_full : (n : ℕ) (xs : List A) → (length (take n xs) ≡ n) ⊎ (drop n xs ≡ [])
  take_full zero xs = inl refl
  take_full (suc n) [] = inr refl
  take_full (suc n) (x ∷ xs) = elim (take_full n xs) [
    | inl full ↦ inl (ap suc full)
    | inr short ↦ inr short
  ]

  -- The rows under a limit: as many of the first as it allows, and all where there is none.
  abbrev pub IsLimited : Option ℕ → List A → List A → Type 0
  IsLimited none xs rows = rows ≡ xs
  IsLimited (some zero) xs rows = rows ≡ xs
  IsLimited (some (suc l)) xs rows =
      (rest : List A) × (rows ++ rest ≡ xs)
      × (length rows ≤ suc l)
      × ((length rows ≡ suc l) ⊎ (rest ≡ []))

  limited_lem : (limit : Option ℕ) (xs : List A) → IsLimited limit xs (limited limit xs)
  unfolding limited
  limited_lem none xs = refl
  limited_lem (some zero) xs = refl
  limited_lem (some (suc l)) xs = rw (lt→ltb 0 (suc l) (omega arith)) (
    drop (suc l) xs,
    take-append-drop (suc l) xs,
    length-take_le (suc l) xs,
    take_full (suc l) xs,
  )

swap_iff : (k : TradeType) → ((is_swap k && true) ≡ true) ↔ ((k ≡ buy) ⊎ (k ≡ sell))
swap_iff buy = (λ h. inl refl, λ h. refl)
swap_iff sell = (λ h. inr refl, λ h. refl)
swap_iff add = (λ h. cc, λ h. elim h [ inl e ↦ cc | inr e ↦ cc ])
swap_iff remove = (λ h. cc, λ h. elim h [ inl e ↦ cc | inr e ↦ cc ])

buy_iff : (k : TradeType) → ((is_swap k && is_side buys k) ≡ true) ↔ (k ≡ buy)
buy_iff buy = (λ h. refl, λ h. refl)
buy_iff sell = (λ h. cc, λ h. cc)
buy_iff add = (λ h. cc, λ h. cc)
buy_iff remove = (λ h. cc, λ h. cc)

sell_iff : (k : TradeType) → ((is_swap k && is_side sells k) ≡ true) ↔ (k ≡ sell)
sell_iff sell = (λ h. refl, λ h. refl)
sell_iff buy = (λ h. cc, λ h. cc)
sell_iff add = (λ h. cc, λ h. cc)
sell_iff remove = (λ h. cc, λ h. cc)

type_test-IsSide :
    (side : Option Side) (t : MarketTrade)
    → ((is_swap t.type && type_test side t) ≡ true) ↔ IsSide side t.type
type_test-IsSide none t = swap_iff t.type
type_test-IsSide (some buys) t = buy_iff t.type
type_test-IsSide (some sells) t = sell_iff t.type

start_test-IsSince :
    (first : Option ℤ) (t : MarketTrade)
    → (start_test first t ≡ true) ↔ IsSince first t.timestamp_ms
start_test-IsSince none t = (λ h. tt, λ h. refl)
start_test-IsSince (some first) t = ground arith

end_test-IsUntil :
    (last : Option ℤ) (t : MarketTrade) → (end_test last t ≡ true) ↔ IsUntil last t.timestamp_ms
end_test-IsUntil none t = (λ h. tt, λ h. refl)
end_test-IsUntil (some last) t = ground arith

selected-IsAsked : (opts : RowOptions) (t : MarketTrade) → (selected opts t ≡ true) ↔ IsAsked opts t
selected-IsAsked opts t =
    let side = type_test-IsSide opts.type t in
    let since = start_test-IsSince opts.start_ms t in
    let until = end_test-IsUntil opts.end_ms t in
    (
      λ h. (side.0 (ground arith), since.0 (ground arith), until.0 (ground arith)),
      λ h. let a = side.1 h.0 in let b = since.1 h.1 in let c = until.1 h.2 in ground arith,
    )

-- The rows are the trades asked for, the swaps of the side, between the two times and at them, newest
-- first; a limit above zero keeps the newest of them.
pub trade_rows-IsAsked :
    (trades : List MarketTrade) (opts : RowOptions)
    → (asked : MarketTrade → Bool) × ((t : MarketTrade) → (asked t ≡ true) ↔ IsAsked opts t)
      × IsLimited opts.limit (reverse (filter asked trades)) (trade_rows trades opts)
unfolding trade_rows
trade_rows-IsAsked trades opts = (
  selected opts,
  selected-IsAsked opts,
  rw (filters_selected trades opts)
      (limited_lem opts.limit (reverse (filter (selected opts) trades))),
)
