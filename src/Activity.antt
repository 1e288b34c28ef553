-- ===== src/Activity.antt =====
-- api/src/activity.ts: the rows of "Recent activity". An allowance that a confirmed call of the same
-- transaction consumed is hidden, and the pool claims of one transaction become one row.
pub mod Shown
pub mod Grouped
mod Tests
use lasse_cash_migration_to.Prelude.{
  ◌∷◌, ◌++◌, [], ℕ, zero, suc, ◌+◌, ◌-◌, ◌*◌, ◌/◌, ◌%◌, ◌^◌, ◌≤◌, ◌<◌, ◌≡◌, refl, sym, ap, ◌∙◌,
  subst, ◌↔◌, ◌⊎◌, inl, inr, Bool, true, false, not, ◌&&◌, ◌||◌, Option, none, some, List, map,
  reverse, arith, ltb, leb, ◌==◌, if◌then◌else◌, Bool-cases, Result, ok, err, ◌>>=◌, length, take,
  drop, filter, find?, all, any, last?, All, ℤ, pos, negsuc, neg_ℕ, nat_abs, ltb_ℤ, eqb_ℤ, is_neg,
  ◌+ℤ◌, ◌-ℤ◌, ◌*ℤ◌, ◌≤ℤ◌, quot, Text, codes, text_eq, is_digit, trim, split, starts_with, pad_start,
  replicate, is_space, Option-cases, int_laws,
}
use lasse_cash_migration_to.Prelude.Decimal.{print}
use lasse_cash_migration_to.Market.Entry.{number_between}

pub data Status : Type 0 where
  confirmed failed pending : Status

-- `AccountOp`
pub record AccountOp : Type 0 where
  pub id : Text
  pub time : Text
  pub action : Text
  pub payload : Text
  pub status : Status
  pub ret : Option Text
  pub contract : Option Text

abbrev pub is_confirmed : AccountOp → Bool
is_confirmed o = elim o.status [ confirmed ↦ true | _ ↦ false ]

abbrev pub is_allowance : AccountOp → Bool
is_allowance o = text_eq o.action (codes "increaseAllowance")

-- The ids of the transactions in which something else than an allowance was confirmed: `consumed`.
unfoldable pub consumed_ids : List AccountOp → List Text
consumed_ids [] = []
consumed_ids (o ∷ ops) =
    let rest = consumed_ids ops in
    if not (is_allowance o) && is_confirmed o then o.id ∷ rest else rest

-- `consumed.has(id)`
abbrev pub is_consumed : List AccountOp → Text → Bool
is_consumed ops id = any (text_eq id) (consumed_ids ops)

unfoldable pub hide_spent_allowances : List AccountOp → List AccountOp
hide_spent_allowances ops =
    filter (λ o. not (is_allowance o && is_confirmed o && is_consumed ops o.id)) ops

abbrev pub is_claim : AccountOp → Bool
is_claim o = text_eq o.action (codes "claim_pool") && is_confirmed o

-- The map `groups`, in the order in which its keys were set.
pub record Group : Type 0 where
  pub key : Text
  pub claims : List AccountOp

-- `groups.get(id)`
unfoldable pub find_group : List Group → Text → Option (List AccountOp)
find_group [] id = none
find_group (g ∷ gs) id = if text_eq g.key id then some g.claims else find_group gs id

-- `g.push(o)` on the group of `o.id`.
unfoldable pub push_claim : List Group → AccountOp → List Group
push_claim [] o = []
push_claim (g ∷ gs) o =
    let rest = push_claim gs o in
    if text_eq g.key o.id then record g { claims = g.claims ++ o ∷ [] } ∷ gs else g ∷ rest

-- `out` and `groups`.
pub record Grouping : Type 0 where
  pub out : List AccountOp
  pub groups : List Group

-- One round of the loop.
unfoldable pub group_op : Grouping → AccountOp → Grouping
group_op s o =
    if not (is_claim o)
    then record s { out = s.out ++ o ∷ [] }
    else elim (find_group s.groups o.id) [
      | some g ↦ record s { groups = push_claim s.groups o }
      | none ↦ record {
        out = s.out ++ o ∷ [];
        groups = s.groups ++ record { key = o.id; claims = o ∷ [] } ∷ [];
      }
    ]

unfoldable pub group_all : Grouping → List AccountOp → Grouping
group_all s [] = s
group_all s (o ∷ ops) = group_all (group_op s o) ops

-- `c.ret ?? ""`
abbrev pub or_empty : Option Text → Text
or_empty none = []
or_empty (some s) = s

-- The number that a claim reports: `/^claimed (\d+)$/`.
abbrev pub paid_of : AccountOp → Option ℕ
paid_of c = number_between (codes "claimed ") [] (or_empty c.ret)

-- The sum of the figures, if none is missing.
unfoldable pub total_paid : List AccountOp → Option ℕ
total_paid [] = some 0
total_paid (c ∷ g) = elim (paid_of c) [
  | none ↦ none
  | some n ↦ elim (total_paid g) [ none ↦ none | some m ↦ some (n + m) ]
]

-- `payloads.join(",")`
unfoldable pub join_payloads : List AccountOp → Text
join_payloads [] = []
join_payloads (c ∷ []) = c.payload
join_payloads (c ∷ d ∷ g) = c.payload ++ b',' ∷ join_payloads (d ∷ g)

-- The row of a group, made from its first claim.
unfoldable pub merged_row : AccountOp → List AccountOp → AccountOp
merged_row o g = record o {
  payload = join_payloads g;
  ret = elim (total_paid g) [ none ↦ none | some n ↦ some (codes "claimed " ++ print n) ];
}

-- `if (!g || g.length < 2) return o;` and what follows.
unfoldable pub row_from : AccountOp → Option (List AccountOp) → AccountOp
row_from o none = o
row_from o (some g) = if ltb (length g) 2 then o else merged_row o g

unfoldable pub row_of : List Group → AccountOp → AccountOp
row_of groups o = row_from o (if is_claim o then find_group groups o.id else none)

unfoldable pub group_pool_claims : List AccountOp → List AccountOp
group_pool_claims ops =
    let s = group_all (record { out = []; groups = [] }) ops in map (row_of s.groups) s.out
