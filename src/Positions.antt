-- ===== src/Positions.antt =====
-- api/src/position-history.ts: the life of a pool position, from the contract's own answers. The story
-- of a mint (`mintStory`), whose percentages are floating-point numbers, is left out.
pub mod Reserves
pub mod Tranche
mod Tests
use lasse_cash_migration_to.Prelude.{
  get_elem?, ◌∷◌, ◌++◌, [], ℕ, zero, suc, ◌+◌, ◌-◌, ◌*◌, ◌/◌, ◌%◌, ◌^◌, ◌≤◌, ◌<◌, ◌≡◌, refl, sym,
  ap, ◌∙◌, subst, ◌↔◌, ◌⊎◌, inl, inr, Bool, true, false, not, ◌&&◌, ◌||◌, Option, none, some, List,
  map, reverse, arith, ltb, leb, ◌==◌, if◌then◌else◌, Bool-cases, Result, ok, err, ◌>>=◌, length,
  take, drop, filter, find?, all, any, last?, All, ℤ, pos, negsuc, neg_ℕ, nat_abs, ltb_ℤ, eqb_ℤ,
  is_neg, ◌+ℤ◌, ◌-ℤ◌, ◌*ℤ◌, ◌≤ℤ◌, quot, Text, codes, text_eq, is_digit, trim, split, starts_with,
  pad_start, replicate, is_space, Option-cases, int_laws,
}
use lasse_cash_migration_to.Prelude.Decimal.{print}
use lasse_cash_migration_to.Amount.{Amount, Error, from_units, sum_from}
use lasse_cash_migration_to.Market.Entry.{number_after, and_hbd, first_or_empty}

-- One contract call by the account, with what the contract answered.
pub record AccountCall : Type 0 where
  pub tx_id : Text
  pub height : ℕ
  pub time : Text
  pub action : Text
  pub payload : Text
  pub ok : Bool
  pub ret : Text

-- `/^claimed (\d+)/`
unfoldable pub parse_claimed : Text → Option ℕ
parse_claimed ret = elim (number_after (codes "claimed ") ret) [
  | none ↦ none
  | some (n, rest) ↦ some n
]

-- `^<prefix>(\d+) (?:LASSECASH|LC) and (\d+) HBD`
unfoldable pub liquidity_after : Text → Text → Option (ℕ × ℕ)
liquidity_after prefix ret = elim (number_after prefix ret) [
  | none ↦ none
  | some (lc, rest) ↦ elim (and_hbd rest) [
    | none ↦ none
    | some (hbd, rest') ↦ if starts_with (codes " HBD") rest' then some (lc, hbd) else none
  ]
]

unfoldable pub parse_liquidity : Text → Option (ℕ × ℕ)
parse_liquidity ret = elim (liquidity_after (codes "added ") ret) [
  | some found ↦ some found
  | none ↦ liquidity_after (codes "withdrew ") ret
]

-- The fields of `PoolTrade` that are read.
pub record PoolTrade : Type 0 where
  pub height : ℕ
  pub lc_reserve : Amount
  pub hbd_reserve : Amount

-- `!best || t.height >= best.height`
abbrev pub is_no_older : PoolTrade → Option PoolTrade → Bool
is_no_older t none = true
is_no_older t (some best) = leb best.height t.height

unfoldable pub best_from : ℕ → Option PoolTrade → List PoolTrade → Option PoolTrade
best_from height best [] = best
best_from height best (t ∷ trades) =
    best_from height (if leb t.height height && is_no_older t best then some t else best) trades

unfoldable pub reserves_at : List PoolTrade → ℕ → Option (Amount × Amount)
reserves_at trades height = elim (best_from height none trades) [
  | none ↦ none
  | some best ↦ some (best.lc_reserve, best.hbd_reserve)
]

-- `calls.sort((a, b) => a.height - b.height)`, which keeps the order of equal heights.
unfoldable pub insert_call : AccountCall → List AccountCall → List AccountCall
insert_call c [] = c ∷ []
insert_call c (d ∷ calls) =
    let rest = insert_call c calls in if ltb d.height c.height then d ∷ rest else c ∷ d ∷ calls

unfoldable pub by_age : List AccountCall → List AccountCall
by_age [] = []
by_age (c ∷ calls) = insert_call c (by_age calls)

abbrev pub is_done : Text → AccountCall → Bool
is_done action c = c.ok && text_eq c.action action

-- `c.payload.split("|")[0] === String(id)`
abbrev pub is_mine : ℕ → AccountCall → Bool
is_mine id c = text_eq (first_or_empty (split b'|' c.payload)) (print id)

-- `deposits[id - 1] ?? null`
abbrev pub deposit_of : ℕ → List AccountCall → Option AccountCall
deposit_of zero deposits = none
deposit_of (suc i) deposits = get_elem? deposits i

pub record Claim : Type 0 where
  pub tx_id : Text
  pub height : ℕ
  pub time : Text
  pub amount : Amount

-- The claims whose answer reads, with their amounts.
unfoldable pub claims_of : List AccountCall → List Claim
claims_of [] = []
claims_of (c ∷ calls) = elim (parse_claimed c.ret) [
  | none ↦ claims_of calls
  | some v ↦
      record { tx_id = c.tx_id; height = c.height; time = c.time; amount = from_units (pos v) }
      ∷ claims_of calls
]

pub record TrancheStory : Type 0 where
  pub id : ℕ
  pub deposit_tx_id : Option Text
  pub deposit_height : Option ℕ
  pub deposit_time : Option Text
  pub deposit_lc : Option Amount
  pub deposit_hbd : Option Amount
  pub claims : List Claim
  pub claimed_total : Amount
  pub withdraw_tx_id : Option Text
  pub withdraw_height : Option ℕ
  pub withdraw_time : Option Text
  pub withdraw_lc : Option Amount
  pub withdraw_hbd : Option Amount

-- `c ? parseLiquidity(c.ret) : null`
abbrev pub liquidity_of : Option AccountCall → Option (ℕ × ℕ)
liquidity_of none = none
liquidity_of (some c) = parse_liquidity c.ret

-- `x?.field ?? null`
abbrev pub field {ℓ κ} : {A : Type ℓ} {B : Type κ} → (A → B) → Option A → Option B
field f none = none
field f (some a) = some (f a)

unfoldable pub tranche_claims : ℕ → List AccountCall → List Claim
tranche_claims id calls =
    claims_of (filter (λ c. is_done (codes "claim_pool") c && is_mine id c) (by_age calls))

-- The story, with the total that the claims add up to.
unfoldable pub story_of : ℕ → List AccountCall → ℤ → TrancheStory
story_of id calls total =
    let sorted = by_age calls in
    let dep = deposit_of id (filter (is_done (codes "add_liquidity")) sorted) in
    let dep_amt = liquidity_of dep in
    let w = find? (λ c. is_done (codes "remove_liquidity") c && is_mine id c) sorted in
    let w_amt = liquidity_of w in
    record {
      id = id;
      deposit_tx_id = field (λ c. c.tx_id) dep;
      deposit_height = field (λ c. c.height) dep;
      deposit_time = field (λ c. c.time) dep;
      deposit_lc = field (λ a. from_units (pos a.0)) dep_amt;
      deposit_hbd = field (λ a. from_units (pos a.1)) dep_amt;
      claims = tranche_claims id calls;
      claimed_total = from_units total;
      withdraw_tx_id = field (λ c. c.tx_id) w;
      withdraw_height = field (λ c. c.height) w;
      withdraw_time = field (λ c. c.time) w;
      withdraw_lc = field (λ a. from_units (pos a.0)) w_amt;
      withdraw_hbd = field (λ a. from_units (pos a.1)) w_amt;
    }

-- `toUnits` of an amount may throw in the sum of the claims.
unfoldable pub tranche_story : ℕ → List AccountCall → Result Error TrancheStory
tranche_story id calls = do
  total ← sum_from (pos 0) (map (λ c. c.amount) (tranche_claims id calls))
  ok (story_of id calls total)
