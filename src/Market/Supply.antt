-- ===== src/Market/Supply.antt =====
-- The supply figures (`supplyFigures`, `supplyJson`), and what they add up to.
use lasse_cash_migration_to.Prelude.{
  ◌*◌, Option, none, some, Text, codes, ℤ, pos, ltb_ℤ, ◌+ℤ◌, ◌-ℤ◌, if◌then◌else◌, is_empty,
}
use lasse_cash_migration_to.Prelude.BigInts.{big_int}
use lasse_cash_migration_to.Amount.{Amount, unit, from_units}

abbrev pub max_supply_units : ℤ
max_supply_units = pos (51_000_000 * unit)

pub record SupplyFigures : Type 0 where
  pub total : ℤ
  pub circulating : ℤ
  pub burned : ℤ
  pub emitted : ℤ
  pub unclaimed_migration : ℤ
  pub max : ℤ

-- A missing key reads back as `undefined`; `none` below means that `BigInt` throws.
abbrev pub RawState : Type 0
RawState = Text → Option Text

infixl 5 ◌>>=◌
abbrev ◌>>=◌ {ℓ κ} : {A : Type ℓ} {B : Type κ} → Option A → (A → Option B) → Option B
none >>= f = none
some a >>= f = f a

-- `BigInt(raw[k] || "0")`: an empty text is zero as well.
unfoldable pub state_units : RawState → Text → Option ℤ
state_units raw key = elim (raw key) [
  | none ↦ some (pos 0)
  | some s ↦ if is_empty s then some (pos 0) else big_int s
]

-- `burnedOverride ?? n("bal_hive:null")`
unfoldable pub burned_units : RawState → Option ℤ → Option ℤ
burned_units raw none = state_units raw (codes "bal_hive:null")
burned_units raw (some burned) = some burned

-- The figures of the five numbers that are read.
unfoldable pub figures_of : ℤ → ℤ → ℤ → ℤ → ℤ → SupplyFigures
figures_of migrated emitted burned committed claimed =
    let total = migrated +ℤ emitted in
    let unclaimed = committed -ℤ claimed in
    record {
      total = total;
      circulating = total -ℤ burned;
      burned = burned;
      emitted = emitted;
      unclaimed_migration = if ltb_ℤ (pos 0) unclaimed then unclaimed else pos 0;
      max = max_supply_units;
    }

unfoldable pub supply_figures : RawState → Option ℤ → Option SupplyFigures
supply_figures raw burned_override = do
  migrated ← state_units raw (codes "sup_migrated")
  emitted ← state_units raw (codes "sup_emitted")
  burned ← burned_units raw burned_override
  committed ← state_units raw (codes "cfg_migtotal")
  claimed ← state_units raw (codes "sup_claimed")
  some (figures_of migrated emitted burned committed claimed)

pub record SupplyJson : Type 0 where
  pub symbol : Text
  pub total_supply : Amount
  pub circulating_supply : Amount
  pub max_supply : Amount
  pub burned : Amount
  pub emitted_since_genesis : Amount
  pub unclaimed_migration : Amount
  pub note : Text

unfoldable pub supply_json : SupplyFigures → SupplyJson
supply_json s = record {
  symbol = codes "LASSECASH";
  total_supply = from_units s.total;
  circulating_supply = from_units s.circulating;
  max_supply = from_units s.max;
  burned = from_units s.burned;
  emitted_since_genesis = from_units s.emitted;
  unclaimed_migration = from_units s.unclaimed_migration;
  note =
      codes
        "burned value is held by hive:null (no keys exist), so it stays inside total_supply and out of circulating_supply";
}
