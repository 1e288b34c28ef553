-- ===== src/Ledger/Outputs.antt =====
-- api/src/magi-backend.ts: `resultsByOp` and `resultFor`, which result of a contract output belongs to
-- which operation.
use lasse_cash_migration_to.Prelude.{
  get_elem?, ◌∷◌, [], ℕ, Bool, true, false, not, ◌&&◌, ◌||◌, Option, none, some, List, map, ◌==◌,
  if◌then◌else◌, length, take, drop, all, any, Text, text_eq,
}
use lasse_cash_migration_to.Prelude.Decimal.{is_digits, digits_value}

pub record OpResult : Type 0 where
  pub ok : Bool
  pub ret : Text

-- A result as the node answers it, and an output with its inputs.
pub record RawResult : Type 0 where
  pub ok : Bool
  pub ret : Option Text

pub record Output : Type 0 where
  pub block_height : ℕ
  pub inputs : List Text
  pub results : List RawResult

abbrev pub op_result : RawResult → OpResult
op_result r = record { ok = r.ok; ret = elim r.ret [ none ↦ [] | some ret ↦ ret ] }

-- The results of one transaction: by operation, the newest entry first, and by call.
pub record Slot : Type 0 where
  pub by_op : List (ℕ × OpResult)
  pub by_call : List OpResult

abbrev pub Results : Type 0
Results = List (Text × Slot)

abbrev pub empty_slot : Slot
empty_slot = record { by_op = []; by_call = [] }

-- A change of the slot of a transaction, which is made where there is none.
unfoldable pub alter : Text → (Slot → Slot) → Results → Results
alter tx f [] = (tx, f empty_slot) ∷ []
alter tx f ((t, s) ∷ rs) =
    let rest = alter tx f rs in if text_eq tx t then (t, f s) ∷ rs else (t, s) ∷ rest

unfoldable pub slot_of : Text → Results → Option Slot
slot_of tx [] = none
slot_of tx ((t, s) ∷ rs) = if text_eq tx t then some s else slot_of tx rs

-- `/^(.*)-(\d+)$/`: the part before the last dash and the digits behind it.
unfoldable pub split_suffix : Text → Option (Text × Text)
split_suffix [] = none
split_suffix (c ∷ s) = elim (split_suffix s) [
  | some (before, digits) ↦ some (c ∷ before, digits)
  | none ↦ if c == b'-' && is_digits s then some ([], s) else none
]

abbrev pub has_suffix : Text → Bool
has_suffix input = elim (split_suffix input) [ none ↦ false | some parts ↦ true ]

-- `i.replace(/-\d+$/, "")`
abbrev pub tx_of : Text → Text
tx_of input = elim (split_suffix input) [ none ↦ input | some (tx, digits) ↦ tx ]

abbrev pub op_of : Text → ℕ
op_of input = elim (split_suffix input) [ none ↦ 0 | some (tx, digits) ↦ digits_value digits ]

abbrev pub set_op : ℕ → OpResult → Slot → Slot
set_op k r s = record s { by_op = (k, r) ∷ s.by_op }

abbrev pub set_calls : List OpResult → Slot → Slot
set_calls rs s = record s { by_call = rs }

-- `inputs.forEach` over as many results.
unfoldable pub put_ops : List Text → List OpResult → Results → Results
put_ops [] results slots = slots
put_ops (input ∷ inputs) [] slots = slots
put_ops (input ∷ inputs) (r ∷ results) slots =
    put_ops inputs results (alter (tx_of input) (set_op (op_of input) r) slots)

-- All inputs are operations of one transaction.
abbrev pub same_tx : List Text → Bool
same_tx [] = false
same_tx (input ∷ inputs) = all (λ i. text_eq (tx_of i) (tx_of input)) inputs

abbrev pub by_operation : List Text → List OpResult → Bool
by_operation inputs results =
    not (length inputs == 0)
    && length inputs == length results
    && (any has_suffix inputs || length inputs == 1 || same_tx inputs)

-- An output of several transactions, cut by the number of each one's calls, where all are known.
unfoldable pub put_slices : (Text → Option ℕ) → List Text → List OpResult → Results → Results
put_slices call_count [] results slots = slots
put_slices call_count (id ∷ inputs) results slots = elim (call_count id) [
  | none ↦ slots
  | some n ↦
      put_slices call_count inputs (drop n results) (alter id (set_calls (take n results)) slots)
]

abbrev pub is_known : (Text → Option ℕ) → Text → Bool
is_known call_count id = elim (call_count id) [ none ↦ false | some n ↦ true ]

abbrev pub put_calls : (Text → Option ℕ) → List Text → List OpResult → Results → Results
put_calls call_count [] results slots = slots
put_calls call_count (id ∷ []) results slots = alter id (set_calls results) slots
put_calls call_count (id ∷ i ∷ inputs) results slots =
    if all (is_known call_count) (id ∷ i ∷ inputs)
    then put_slices call_count (id ∷ i ∷ inputs) results slots
    else slots

abbrev pub put_output : (Text → Option ℕ) → Output → Results → Results
put_output call_count o slots =
    let results = map op_result o.results in
    if by_operation o.inputs results
    then put_ops o.inputs results slots
    else put_calls call_count o.inputs results slots

abbrev put_outputs : (Text → Option ℕ) → List Output → Results → Results
put_outputs call_count [] slots = slots
put_outputs call_count (o ∷ outputs) slots =
    put_outputs call_count outputs (put_output call_count o slots)

-- `resultsByOp`
unfoldable pub results_by_op : (Text → Option ℕ) → List Output → Results
results_by_op call_count outputs = put_outputs call_count outputs []

-- `Map.prototype.get` by operation, of the newest entry.
abbrev pub at_op : ℕ → List (ℕ × OpResult) → Option OpResult
at_op k [] = none
at_op k ((j, r) ∷ rs) = if k == j then some r else at_op k rs

-- `resultFor`
abbrev pub slot_result : ℕ → ℕ → Option Slot → Option OpResult
slot_result op call none = none
slot_result op call (some s) = elim (at_op op s.by_op) [
  | none ↦ get_elem? s.by_call call
  | some r ↦ some r
]

unfoldable pub result_for : Results → Text → ℕ → ℕ → Option OpResult
result_for slots tx op call = slot_result op call (slot_of tx slots)
