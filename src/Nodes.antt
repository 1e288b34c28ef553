-- ===== src/Nodes.antt =====
-- api/src/magi-nodes.ts: `magiFetch`, which asks one node after another. What a node answers within
-- its time is a parameter; a call asks each node once. The race between the nodes (`pickFastestNode`)
-- and the copy of the preferred node in the browser are left out.
pub mod Failover
mod Tests
use lasse_cash_migration_to.Prelude.{
  contains, get_elem?, ◌∷◌, ◌++◌, [], ℕ, zero, suc, ◌+◌, ◌-◌, ◌*◌, ◌/◌, ◌%◌, ◌^◌, ◌≤◌, ◌<◌, ◌≡◌,
  refl, sym, ap, ◌∙◌, subst, ◌↔◌, ◌⊎◌, inl, inr, Bool, true, false, not, ◌&&◌, ◌||◌, Option, none,
  some, List, map, reverse, arith, ltb, leb, ◌==◌, if◌then◌else◌, Bool-cases, Result, ok, err,
  ◌>>=◌, length, take, drop, filter, find?, all, any, last?, All, ℤ, pos, negsuc, neg_ℕ, nat_abs,
  ltb_ℤ, eqb_ℤ, is_neg, ◌+ℤ◌, ◌-ℤ◌, ◌*ℤ◌, ◌≤ℤ◌, quot, Text, codes, text_eq, is_digit, trim, split,
  starts_with, pad_start, replicate, is_space, Option-cases, int_laws,
}
use lasse_cash_migration_to.Prelude.Decimal.{print}

-- `MAGI_NODES`
abbrev pub magi_nodes : List Text
magi_nodes =
    codes "https://api.okinoko.io/api/v1/graphql"
    ∷ codes "https://vsc.techcoderx.com/api/v1/graphql"
    ∷ codes "https://api.vsc.eco/api/v1/graphql"
    ∷ []

-- A reply with its status and text, or the reason why there is none.
pub data Outcome : Type 0 where
  reply : ℕ → Text → Outcome
  no_reply : Text → Outcome

pub record Response : Type 0 where
  pub status : ℕ
  pub text : Text

-- `RATE_LIMITED` and `STATE_NOT_READY`
unfoldable pub rate_limited : Text → Bool
rate_limited = contains (codes "rate limit exceeded")

unfoldable pub state_not_ready : Text → Bool
state_not_ready = contains (codes "not found locally")

-- Why a reply is passed over, if it is: only while there is another node to ask.
unfoldable pub skip_reason : Bool → ℕ → Text → Option Text
skip_reason last status text =
    if leb 500 status && not last
    then some (codes "HTTP " ++ print status)
    else if rate_limited text && not last
    then some (codes "rate limited")
    else if state_not_ready text && not last
    then some (codes "block not fetched yet")
    else none

-- A node to ask, and its place in `MAGI_NODES`.
pub record Target : Type 0 where
  pub url : Text
  pub index : ℕ

-- How the loop ends: with a response, or with what was tried.
pub data Ended : Type 0 where
  answered : Target → Response → Ended
  unreachable : List (Text × Text) → Ended

abbrev pub is_last : List Target → Bool
is_last [] = true
is_last (t ∷ order) = false

-- `opts.url !== undefined && !MAGI_NODES.includes(opts.url)`
abbrev pub custom_url : Option Text → Option Text
custom_url none = none
custom_url (some url) = if any (text_eq url) magi_nodes then none else some url

abbrev pub node_at : ℕ → Text
node_at i = elim (get_elem? magi_nodes i) [ none ↦ [] | some url ↦ url ]

-- The public nodes, from the preferred one on.
abbrev pub target_at : ℕ → ℕ → Target
target_at preferred i = record { url = node_at ((preferred + i) % 3); index = (preferred + i) % 3 }

abbrev pub public_order : ℕ → List Target
public_order preferred = target_at preferred 0 ∷ target_at preferred 1 ∷ target_at preferred 2 ∷ []

-- The end of a call over the public nodes: the node that answered is preferred from now on, and the
-- next one where none did.
unfoldable pub settle : ℕ → Ended → Ended × ℕ
settle preferred (answered t r) = (answered t r, t.index)
settle preferred (unreachable tried) = (unreachable tried, (preferred + 1) % 3)

module _ (ask : Text → Outcome) where
  unfoldable pub try_nodes : List (Text × Text) → List Target → Ended
  try_nodes tried [] = unreachable tried
  try_nodes tried (t ∷ order) = elim (ask t.url) [
    | no_reply why ↦ try_nodes (tried ++ (t.url, why) ∷ []) order
    | reply status text ↦ elim (skip_reason (is_last order) status text) [
      | some why ↦ try_nodes (tried ++ (t.url, why) ∷ []) order
      | none ↦ answered t (record { status = status; text = text })
    ]
  ]

  unfoldable pub magi_fetch : Option Text → ℕ → Ended × ℕ
  magi_fetch url preferred = elim (custom_url url) [
    | some custom ↦ (try_nodes [] (record { url = custom; index = 0 } ∷ []), preferred)
    | none ↦ settle preferred (try_nodes [] (public_order preferred))
  ]
