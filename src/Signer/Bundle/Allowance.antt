-- ===== src/Signer/Bundle/Allowance.antt =====
-- The intent of api/src/aioha-signer.ts against the milli-HBD of api/src/native-pool.ts.
use mathlib.Core.Option
use lasse_cash_migration_to.Prelude.{ℕ, ◌+◌, ◌≡◌, ap, ◌∙◌, some, pos, ◌+ℤ◌, quot, int_laws}
use lasse_cash_migration_to.Prelude.Decimal.{print, print-is_digits, value-print}
use lasse_cash_migration_to.Prelude.BigInts.{big_int, big_int_digits}
use lasse_cash_migration_to.NativePool.{milli_to_hbd, units_to_milli}
use lasse_cash_migration_to.Signer.Bundle.{hbd_limit, milli_text}

-- The limit of an intent, for an amount in base units, is the text that the native pool writes for the
-- same amount rounded up to milli-HBD.
pub hbd_limit-milli_to_hbd :
    (units : ℕ) → hbd_limit (print units) ≡ some (milli_to_hbd (units_to_milli units))
unfolding hbd_limit milli_to_hbd units_to_milli quot
hbd_limit-milli_to_hbd units =
    let read : big_int (print units) ≡ some (pos units) =
      big_int_digits (print units) (print-is_digits units)
      ∙ ap (λ n. some (pos n)) (value-print units) in
    let sum : pos units +ℤ pos 99_999 ≡ pos (units + 99_999) = omega int_laws in
    ap (λ n. Option.map (λ k. milli_text (quot (k +ℤ pos 99_999) 100_000)) n) read
    ∙ ap (λ k. some (milli_text (quot k 100_000))) sum
