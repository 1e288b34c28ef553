-- ===== src/Signer/Bundle/Carried.antt =====
-- What `submit` of api/src/aioha-signer.ts puts into one transaction.
use mathlib.Core.Option
use lasse_cash_migration_to.Prelude.{
  min, min-le, length-append, length-take-le, ◌∷◌, ◌++◌, [], ℕ, suc, ◌+◌, ◌-◌, ◌≤◌, ◌≡◌, refl, ap,
  subst, inl, inr, Option, none, some, List, arith, Result, ok, err, length, Text, Option-cases,
}
use lasse_cash_migration_to.Signer.Calls.{Intent, Call, TxResult}
use lasse_cash_migration_to.Signer.Tables.{max_side_calls, hive_custom_json_per_block}
use lasse_cash_migration_to.Signer.Sizing.{Wallet, size_rc, allowance_call}
use lasse_cash_migration_to.Signer.Bundle.{
  Rider, own_call, SubmitOptions, HiveVote, Plan, submission, submission_with, calls_of, plan_of,
  pre_of, side_of, accept_slice, accept_side, rider_limit, ahead_of, pre_wanted, side_wanted,
  pre_slots, intents_of, hive_vote, own_limit,
}

length-accept_slice :
    (r : Rider) (lim : Result TxResult ℕ) (rest : List Call)
    → length (accept_slice r lim rest) ≤ suc (length rest)
length-accept_slice r (ok limit) rest = omega arith
length-accept_slice r (err refusal) rest = omega arith

length-accept_side :
    (r : Rider) (lim : Result TxResult ℕ) (rest : List Call)
    → length (accept_side r lim rest) ≤ suc (length rest)
length-accept_side r (ok limit) rest = omega arith
length-accept_side r (err refusal) rest = omega arith

length-pre_of : (w : Wallet) (rs : List Rider) → length (pre_of w rs) ≤ length rs
length-pre_of w [] = omega arith
length-pre_of w (r ∷ rs) =
    omega (arith, length-accept_slice r (rider_limit w r) (pre_of w rs), length-pre_of w rs)

length-side_of : (w : Wallet) (rs : List Rider) → length (side_of w rs) ≤ length rs
length-side_of w [] = omega arith
length-side_of w (r ∷ rs) =
    omega (arith, length-accept_side r (rider_limit w r) (side_of w rs), length-side_of w rs)

length-plan_of :
    (entrypoint args : Text) (intents : List Intent) (pre side : List Call) (vote : Option HiveVote)
    (lim : Result TxResult ℕ)
    → length (calls_of (plan_of entrypoint args intents pre side vote lim))
      ≤ length pre + suc (length side)
length-plan_of entrypoint args intents pre side vote (err refusal) = ground arith
length-plan_of entrypoint args intents pre side vote (ok limit) =
    ground (arith, length-append pre (own_call entrypoint args intents limit ∷ side))

length-ahead_of : (call : Option Call) → length (ahead_of call) ≤ 1
length-ahead_of none = omega arith
length-ahead_of (some call) = omega arith

length-submission_with :
    (w : Wallet) (entrypoint args : Text) (opts : SubmitOptions) (ahead : List Call)
    (intents : List Intent)
    → length ahead ≤ 1
    → length (calls_of (submission_with w entrypoint args opts ahead intents))
      ≤ hive_custom_json_per_block
length-submission_with w entrypoint args opts ahead intents h = omega (
  arith,
  length-plan_of entrypoint args intents (ahead ++ pre_of w (pre_wanted ahead opts))
      (side_of w (side_wanted ahead opts)) (hive_vote w entrypoint args)
      (size_rc w entrypoint args intents (own_limit w entrypoint opts.rc_limit)),
  length-append ahead (pre_of w (pre_wanted ahead opts)),
  length-pre_of w (pre_wanted ahead opts),
  length-side_of w (side_wanted ahead opts),
  min-le max_side_calls (pre_slots ahead - length (pre_wanted ahead opts)),
  length-take-le (pre_slots ahead) opts.pre_calls,
  length-take-le (min max_side_calls (pre_slots ahead - length (pre_wanted ahead opts)))
      opts.side_calls,
)

some-injects {ℓ} : {A : Type ℓ} (a b : A) → some a ≡ some b → a ≡ b
some-injects a b h = cc

-- One transaction never carries more than five calls, the most that Hive takes of one account in a
-- block, whatever calls are to ride along.
pub submission-FitsBlock :
    (w : Wallet) (entrypoint args : Text) (opts : SubmitOptions) (plan : Plan)
    → submission w entrypoint args opts ≡ some plan
    → length (calls_of plan) ≤ hive_custom_json_per_block
unfolding submission
submission-FitsBlock w entrypoint args opts plan h =
    elim (Option-cases (intents_of entrypoint args)) [
      | inl throws ↦ let k = rw throws at h in absurd (ground arith)
      | inr (intents, given) ↦
          let ahead = ahead_of (allowance_call w entrypoint args) in
          let e : submission_with w entrypoint args opts ahead intents ≡ plan =
            some-injects _ plan (rw given at h) in
          subst (λ p. length (calls_of p) ≤ hive_custom_json_per_block) e
            (length-submission_with w entrypoint args opts ahead intents
              (length-ahead_of (allowance_call w entrypoint args)))
    ]

plan_of-carries :
    (entrypoint args : Text) (intents : List Intent) (pre side : List Call) (vote : Option HiveVote)
    (limit : ℕ)
    → calls_of (plan_of entrypoint args intents pre side vote (ok limit))
      ≡ pre ++ own_call entrypoint args intents limit ∷ side
plan_of-carries entrypoint args intents [] [] none limit = refl
plan_of-carries entrypoint args intents [] [] (some v) limit = refl
plan_of-carries entrypoint args intents [] (s ∷ side) vote limit = refl
plan_of-carries entrypoint args intents (p ∷ pre) side vote limit = refl

-- Where the call draws no HBD that cannot be read, and its own limit is found, the wallet is handed the
-- token's allowance, the slices up to the first refused one, the call itself with that limit, and the
-- settlements that are not refused, in this order.
pub submission-carries :
    (w : Wallet) (entrypoint args : Text) (opts : SubmitOptions) (intents : List Intent) (limit : ℕ)
    → intents_of entrypoint args ≡ some intents
    → size_rc w entrypoint args intents (own_limit w entrypoint opts.rc_limit) ≡ ok limit
    → Option.map calls_of (submission w entrypoint args opts)
      ≡ some (
          (ahead_of (allowance_call w entrypoint args)
            ++ pre_of w (pre_wanted (ahead_of (allowance_call w entrypoint args)) opts))
          ++ own_call entrypoint args intents limit
            ∷ side_of w (side_wanted (ahead_of (allowance_call w entrypoint args)) opts))
unfolding submission
submission-carries w entrypoint args opts intents limit given sized =
    rw (given, sized)
      (ap some (
        plan_of-carries entrypoint args intents
          (ahead_of (allowance_call w entrypoint args)
            ++ pre_of w (pre_wanted (ahead_of (allowance_call w entrypoint args)) opts))
          (side_of w (side_wanted (ahead_of (allowance_call w entrypoint args)) opts))
          (hive_vote w entrypoint args) limit))
