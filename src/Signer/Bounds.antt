-- ===== src/Signer/Bounds.antt =====
-- The limits that `sizeRc` of api/src/aioha-signer.ts gives.
use lasse_cash_migration_to.Prelude.{
  min, ℕ, ◌+◌, ◌≤◌, ◌≡◌, sym, ap, ◌∙◌, subst, Bool, true, false, Option, none, some, List, arith,
  if◌then◌else◌, ok, Text,
}
use lasse_cash_migration_to.Signer.Calls.{ceil_div, Intent, Simulated, passes, refuses}
use lasse_cash_migration_to.Signer.Tables.{
  lookup, hbd_draw_ops, rc_ceiling, gas_per_rc, probe_margin_milli,
}
use lasse_cash_migration_to.Signer.Sizing.{
  Wallet, size_rc, size_simulated, probe_of, limit_for, limit_blind, limit_beside_draw,
  limit_within, limit_when, limit_unread, floor_of, sized_of, draw_milli, draw_at, shared_draw,
}

beside_draw :
    (w : Wallet) (avail draw floor sized limit : ℕ)
    → limit_beside_draw w avail draw floor sized ≡ ok limit
    → (limit + draw + probe_margin_milli ≤ avail) × (limit ≤ sized) × (min sized floor ≤ limit)
unfolding limit_beside_draw
beside_draw w avail draw floor sized limit h = ground arith

within :
    (w : Wallet) (avail floor sized limit : ℕ)
    → limit_within w avail floor sized ≡ ok limit
    → (limit ≤ avail) × (limit ≤ sized) × (min sized floor ≤ limit)
unfolding limit_within
within w avail floor sized limit h = ground arith

unread :
    (confirm : Option (ℕ → Bool)) (floor sized limit : ℕ)
    → limit_unread confirm floor sized ≡ ok limit
    → (limit ≤ sized) × (min sized floor ≤ limit)
unread none floor sized limit h = ground arith
unread (some confirm) floor sized limit h = ground arith

-- What every limit behind a passing dry run keeps to.
when_bounds :
    (w : Wallet) (avail draw : Option ℕ) (floor sized limit : ℕ)
    → limit_when w avail draw floor sized ≡ ok limit
    → (limit ≤ sized) × (min sized floor ≤ limit)
when_bounds w none draw floor sized limit h = unread w.confirm_unreadable_rc floor sized limit h
when_bounds w (some avail) none floor sized limit h =
    let (below, above, least) = within w avail floor sized limit h in (above, least)
when_bounds w (some avail) (some draw) floor sized limit h =
    let (below, above, least) = beside_draw w avail draw floor sized limit h in (above, least)

when_available :
    (w : Wallet) (avail : ℕ) (draw : Option ℕ) (floor sized limit : ℕ)
    → limit_when w (some avail) draw floor sized ≡ ok limit
    → limit ≤ avail
when_available w avail none floor sized limit h = (within w avail floor sized limit h).0
when_available w avail (some draw) floor sized limit h =
    omega (arith, (beside_draw w avail draw floor sized limit h).0)

blind_available :
    (w : Wallet) (table limit avail : ℕ)
    → limit_blind w (some avail) table ≡ ok limit
    → limit ≤ avail
blind_available w table limit avail h = ground arith

-- `sizeRc` behind a dry run that passes, with the credits it found.
size_passes :
    (w : Wallet) (entrypoint args : Text) (intents : List Intent) (table gas limit : ℕ)
    → w.simulate (probe_of w entrypoint args intents table) ≡ some (passes gas)
    → size_rc w entrypoint args intents table ≡ ok limit
    → limit_when w w.available_rc
        (shared_draw entrypoint args)
        (floor_of entrypoint table (ceil_div gas gas_per_rc))
        (sized_of table (ceil_div gas gas_per_rc))
      ≡ ok limit
unfolding size_rc limit_for
size_passes w entrypoint args intents table gas limit dry h =
    sym (ap (λ sim. size_simulated w entrypoint args table sim) dry) ∙ h

simulated_available :
    (w : Wallet) (entrypoint args : Text) (table limit avail : ℕ) (sim : Option Simulated)
    → w.available_rc ≡ some avail
    → size_simulated w entrypoint args table sim ≡ ok limit
    → limit ≤ avail
unfolding limit_for
simulated_available w entrypoint args table limit avail none readable h =
    blind_available w table limit avail (subst (λ a. limit_blind w a table ≡ ok limit) readable h)
simulated_available w entrypoint args table limit avail (some (refuses msg hit)) readable h =
    absurd (ground arith)
simulated_available w entrypoint args table limit avail (some (passes gas)) readable h =
    let need = ceil_div gas gas_per_rc in
    when_available w avail (shared_draw entrypoint args) (floor_of entrypoint table need)
      (sized_of table need) limit
      (subst
        (λ a.
          limit_when w a (shared_draw entrypoint args) (floor_of entrypoint table need)
            (sized_of table need)
          ≡ ok limit)
        readable h)

-- A limit that `sizeRc` gives is never above the credits that the account has, where the meter can be
-- read.
size_rc-available :
    (w : Wallet) (entrypoint args : Text) (intents : List Intent) (table limit avail : ℕ)
    → w.available_rc ≡ some avail
    → size_rc w entrypoint args intents table ≡ ok limit
    → limit ≤ avail
unfolding size_rc
size_rc-available w entrypoint args intents table limit avail readable h =
    simulated_available w entrypoint args table limit avail
      (w.simulate (probe_of w entrypoint args intents table)) readable h

draws_at :
    (args : Text) (i : Option ℕ) (draw : ℕ)
    → draw_at args i ≡ some draw
    → (if elim i [ none ↦ false | some n ↦ true ] then draw_at args i else none) ≡ some draw
draws_at args none draw h = h
draws_at args (some i) draw h = h

draw-shared :
    (entrypoint args : Text) (draw : ℕ)
    → draw_milli entrypoint args ≡ some draw
    → shared_draw entrypoint args ≡ some draw
unfolding draw_milli
draw-shared entrypoint args draw h = draws_at args (lookup entrypoint hbd_draw_ops) draw h

-- Where the dry run passes, the meter can be read and the call draws HBD, the limit, the draw and the
-- margin together fit the credits.
pub size_rc-draw :
    (w : Wallet) (entrypoint args : Text) (intents : List Intent) (table gas draw limit avail : ℕ)
    → w.available_rc ≡ some avail
    → w.simulate (probe_of w entrypoint args intents table) ≡ some (passes gas)
    → draw_milli entrypoint args ≡ some draw
    → size_rc w entrypoint args intents table ≡ ok limit
    → limit + draw + probe_margin_milli ≤ avail
size_rc-draw w entrypoint args intents table gas draw limit avail readable dry draws h =
    let need = ceil_div gas gas_per_rc in
    let sized = size_passes w entrypoint args intents table gas limit dry h in
    let shared : limit_when w (some avail) (some draw) (floor_of entrypoint table need)
          (sized_of table need)
        ≡ ok limit =
      subst
        (λ d.
          limit_when w (some avail) d (floor_of entrypoint table need) (sized_of table need)
          ≡ ok limit)
        (draw-shared entrypoint args draw draws)
        (subst
          (λ a.
            limit_when w a (shared_draw entrypoint args) (floor_of entrypoint table need)
              (sized_of table need)
            ≡ ok limit)
          readable sized) in
    (beside_draw w avail draw (floor_of entrypoint table need) (sized_of table need) limit shared).0

-- Where the dry run passes, the limit is at most the ceiling of 30,000 credits, and at least the
-- ceiling or the floor, whichever is less: 1.3 times the simulated credits, and 60% of the table's
-- limit unless the call is `advance`, each rounded up.
pub size_rc-bounds :
    (w : Wallet) (entrypoint args : Text) (intents : List Intent) (table gas limit : ℕ)
    → w.simulate (probe_of w entrypoint args intents table) ≡ some (passes gas)
    → size_rc w entrypoint args intents table ≡ ok limit
    → (limit ≤ rc_ceiling)
      × (min rc_ceiling (floor_of entrypoint table (ceil_div gas gas_per_rc)) ≤ limit)
size_rc-bounds w entrypoint args intents table gas limit dry h =
    let need = ceil_div gas gas_per_rc in
    let (above, below) =
      when_bounds w w.available_rc (shared_draw entrypoint args) (floor_of entrypoint table need)
        (sized_of table need) limit (size_passes w entrypoint args intents table gas limit dry h) in
    (ground arith, ground arith)
