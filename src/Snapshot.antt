-- ===== src/Snapshot.antt =====
-- api/src/snapshot-check.ts: who signed a row of the Hive-Engine history, and the shard of a name.
pub mod Shard
mod Tests
use lasse_cash_migration_to.Prelude.{
  get_elem?, ◌∷◌, ◌++◌, [], ℕ, zero, suc, ◌+◌, ◌-◌, ◌*◌, ◌/◌, ◌%◌, ◌^◌, ◌≤◌, ◌<◌, ◌≡◌, refl, sym,
  ap, ◌∙◌, subst, ◌↔◌, ◌⊎◌, inl, inr, Bool, true, false, not, ◌&&◌, ◌||◌, Option, none, some, List,
  map, reverse, arith, ltb, leb, ◌==◌, if◌then◌else◌, Bool-cases, Result, ok, err, ◌>>=◌, length,
  take, drop, filter, find?, all, any, last?, All, ℤ, pos, negsuc, neg_ℕ, nat_abs, ltb_ℤ, eqb_ℤ,
  is_neg, ◌+ℤ◌, ◌-ℤ◌, ◌*ℤ◌, ◌≤ℤ◌, quot, Text, codes, text_eq, is_digit, trim, split, starts_with,
  pad_start, replicate, is_space, Option-cases, int_laws,
}

-- The fields of `HeOp` that are read.
pub record HeOp : Type 0 where
  pub operation : Text
  pub from : Option Text

-- `set.has(s)`
abbrev pub has_text : List Text → Text → Bool
has_text set s = any (text_eq s) set

abbrev pub self_initiated : List Text
self_initiated =
    codes "tokens_unstakeStart"
    ∷ codes "tokens_undelegateStart"
    ∷ codes "tokens_cancelUnstake"
    ∷ codes "market_placeOrder"
    ∷ codes "market_cancel"
    ∷ codes "marketpools_swapTokens"
    ∷ codes "marketpools_addLiquidity"
    ∷ codes "marketpools_removeLiquidity"
    ∷ []

abbrev pub automatic : List Text
automatic = codes "tokens_unstakeDone" ∷ codes "tokens_undelegateDone" ∷ []

-- `o.from != null && o.from === account`
abbrev pub is_from : Option Text → Text → Bool
is_from none account = false
is_from (some from) account = text_eq from account

unfoldable pub self_signed : HeOp → Text → Bool
self_signed o account =
    if has_text automatic o.operation
    then false
    else if has_text self_initiated o.operation
    then true
    else is_from o.from account

abbrev pub alnum : Text
alnum = codes "abcdefghijklmnopqrstuvwxyz0123456789"

-- The characters of a shard's name at its two places.
abbrev pub is_first_char : ℕ → Bool
is_first_char c = any (λ d. c == d) alnum

abbrev pub is_second_char : ℕ → Bool
is_second_char c = any (λ d. c == d) (alnum ++ codes ".-")

-- `text.includes(c) ? c : "_"` of the character at a place; a text includes the empty text, which
-- stands for a missing character.
abbrev pub shard_char : (ℕ → Bool) → Option ℕ → Text
shard_char allowed none = []
shard_char allowed (some c) = if allowed c then c ∷ [] else b'_' ∷ []

unfoldable pub shard_of : Text → Text
shard_of name =
    shard_char is_first_char (get_elem? name 0) ++ shard_char is_second_char (get_elem? name 1)

-- `Shard` of node/migtree/migtree.go, which names the shards that are served, on code units for bytes.
-- `strings.IndexByte`, of which the code asks whether it finds anything.
unfoldable pub index_byte : Text → ℕ → Option ℕ
index_byte [] c = none
index_byte (d ∷ s) c =
    let rest = index_byte s c in
    if d == c then some 0 else elim rest [ none ↦ none | some i ↦ some (suc i) ]

abbrev pub is_found : Option ℕ → Bool
is_found none = false
is_found (some i) = true

-- The constant of the Go function, which is its own.
abbrev pub migtree_alnum : Text
migtree_alnum = codes "abcdefghijklmnopqrstuvwxyz0123456789"

-- `safe`, at an index.
abbrev pub safe_at : ℕ → Text
safe_at i = if i == 1 then migtree_alnum ++ codes ".-" else migtree_alnum

-- `out[i] = c`
abbrev pub set_byte : ℕ → ℕ → Text → Text
set_byte i c [] = []
set_byte zero c (b ∷ out) = c ∷ out
set_byte (suc i) c (b ∷ out) = b ∷ set_byte i c out

-- The loop from an index on, with what is left of the name.
unfoldable pub fill_shard : ℕ → Text → Text → Text
fill_shard i [] out = out
fill_shard i (c ∷ name) out =
    let next =
      fill_shard (suc i) name
        (if is_found (index_byte (safe_at i) c) then set_byte i c out else out) in
    if ltb i 2 then next else out

unfoldable pub migtree_shard : Text → Text
migtree_shard name = fill_shard 0 name (codes "__")
