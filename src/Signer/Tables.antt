-- ===== src/Signer/Tables.antt =====
-- api/src/aioha-signer.ts: the tables of `AiohaSigner`, by entrypoint. A table is a list of its own keys:
-- the properties that every JavaScript object inherits ("toString") are no entrypoints.
use lasse_cash_migration_to.Prelude.{
  ◌∷◌, [], ℕ, Option, none, some, List, if◌then◌else◌, any, Text, codes, text_eq,
}

abbrev pub lookup : Text → List (Text × ℕ) → Option ℕ
lookup key [] = none
lookup key ((k, v) ∷ table) = if text_eq key k then some v else lookup key table

-- `ACTIVE_OPS`
abbrev pub active_ops : List Text
active_ops =
    codes "transfer"
    ∷ codes "burn"
    ∷ codes "mint"
    ∷ codes "claim_mint"
    ∷ codes "good_accounting"
    ∷ codes "fund"
    ∷ codes "promote_post"
    ∷ codes "add_liquidity"
    ∷ codes "remove_liquidity"
    ∷ codes "claim_pool"
    ∷ codes "swap_lassecash_hbd"
    ∷ codes "swap_hbd_lassecash"
    ∷ codes "migrate"
    ∷ codes "migrate_batch"
    ∷ codes "claim_migration"
    ∷ []

-- `RC_LIMITS`
abbrev pub rc_limits : List (Text × ℕ)
rc_limits =
    (codes "transfer", 2_500)
    ∷ (codes "burn", 600)
    ∷ (codes "fund", 1_500)
    ∷ (codes "settle", 2_000)
    ∷ (codes "advance", 10_000)
    ∷ (codes "mint", 7_000)
    ∷ (codes "claim_mint", 7_000)
    ∷ (codes "sweep_mint", 7_000)
    ∷ (codes "good_accounting", 800)
    ∷ (codes "set_duration", 400)
    ∷ (codes "settle_pending", 6_000)
    ∷ (codes "promote", 3_000)
    ∷ (codes "set_param", 3_000)
    ∷ (codes "post", 3_000)
    ∷ (codes "comment", 5_000)
    ∷ (codes "promote_post", 2_500)
    ∷ (codes "vote", 7_000)
    ∷ (codes "payout", 4_000)
    ∷ (codes "claim_curation", 1_200)
    ∷ (codes "sweep_curation", 1_200)
    ∷ (codes "add_liquidity", 4_000)
    ∷ (codes "remove_liquidity", 4_000)
    ∷ (codes "claim_pool", 4_000)
    ∷ (codes "sweep_tranche", 4_000)
    ∷ (codes "swap_lassecash_hbd", 3_000)
    ∷ (codes "swap_hbd_lassecash", 3_000)
    ∷ (codes "claim_migration", 9_500)
    ∷ (codes "record_burn", 1_000)
    ∷ []

-- `HBD_DRAW_OPS` and `TOKEN_DEBIT_OPS`: which argument holds the amount.
abbrev pub hbd_draw_ops : List (Text × ℕ)
hbd_draw_ops = (codes "add_liquidity", 1) ∷ (codes "swap_hbd_lassecash", 0) ∷ []

abbrev pub token_debit_ops : List (Text × ℕ)
token_debit_ops =
    (codes "transfer", 1)
    ∷ (codes "burn", 0)
    ∷ (codes "fund", 1)
    ∷ (codes "mint", 0)
    ∷ (codes "promote_post", 2)
    ∷ (codes "add_liquidity", 0)
    ∷ (codes "swap_lassecash_hbd", 0)
    ∷ []

abbrev pub allowance_rc : ℕ
allowance_rc = 1_000

abbrev pub gas_per_rc : ℕ
gas_per_rc = 100_000

abbrev pub rc_headroom : ℕ
rc_headroom = 3

abbrev pub rc_ceiling : ℕ
rc_ceiling = 30_000

abbrev pub probe_margin_milli : ℕ
probe_margin_milli = 1_000

abbrev pub max_claim_all_batch : ℕ
max_claim_all_batch = 12

abbrev pub max_side_calls : ℕ
max_side_calls = 2

abbrev pub hive_custom_json_per_block : ℕ
hive_custom_json_per_block = 5

pub data KeyType : Type 0 where
  posting : KeyType
  active : KeyType

abbrev pub key_type : Text → KeyType
key_type entrypoint = if any (text_eq entrypoint) active_ops then active else posting

-- `RC_LIMITS[entrypoint] ?? this.rcLimit`
abbrev pub table_limit : ℕ → Text → ℕ
table_limit fallback entrypoint = elim (lookup entrypoint rc_limits) [
  | none ↦ fallback
  | some n ↦ n
]
