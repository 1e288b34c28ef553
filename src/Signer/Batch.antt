-- ===== src/Signer/Batch.antt =====
-- api/src/aioha-signer.ts: `claimAllOf`, several claims of one entrypoint in as few transactions as Hive
-- takes. What the wallet replies to a transaction, by the calls already sent, is a parameter.
pub mod Claimed
use lasse_cash_migration_to.Prelude.{
  ◌∷◌, ◌++◌, [], ℕ, zero, suc, ◌+◌, ◌-◌, ◌*◌, ◌/◌, ◌%◌, ◌^◌, ◌≤◌, ◌<◌, ◌≡◌, refl, sym, ap, ◌∙◌,
  subst, ◌↔◌, ◌⊎◌, inl, inr, Bool, true, false, not, ◌&&◌, ◌||◌, Option, none, some, List, map,
  reverse, arith, ltb, leb, ◌==◌, if◌then◌else◌, Bool-cases, Result, ok, err, ◌>>=◌, length, take,
  drop, filter, find?, all, any, last?, All, ℤ, pos, negsuc, neg_ℕ, nat_abs, ltb_ℤ, eqb_ℤ, is_neg,
  ◌+ℤ◌, ◌-ℤ◌, ◌*ℤ◌, ◌≤ℤ◌, quot, Text, codes, text_eq, is_digit, trim, split, starts_with, pad_start,
  replicate, is_space, Option-cases, int_laws,
}
use lasse_cash_migration_to.Prelude.Decimal.{print}
use lasse_cash_migration_to.Signer.Calls.{Call, TxResult, refusal}
use lasse_cash_migration_to.Signer.Tables.{
  table_limit, max_claim_all_batch, hive_custom_json_per_block,
}
use lasse_cash_migration_to.Signer.Sizing.{Wallet, size_rc}
use lasse_cash_migration_to.Signer.Bundle.{Rider, rider_call, is_none_left}

-- The claims that are sized before the first one that is refused, and that refusal.
pub record Sized : Type 0 where
  pub calls : List Call
  pub stopped : Option TxResult

abbrev pub claim_rider : Text → ℕ → Rider
claim_rider entrypoint id = record { entrypoint = entrypoint; args = print id }

abbrev pub claim_limit : Wallet → Text → ℕ → Result TxResult ℕ
claim_limit w entrypoint id = size_rc w entrypoint (print id) [] (table_limit w.rc_limit entrypoint)

abbrev pub size_next : Text → ℕ → Result TxResult ℕ → Sized → Sized
size_next entrypoint id (ok limit) rest = record {
  calls = rider_call (claim_rider entrypoint id) limit ∷ rest.calls;
  stopped = rest.stopped;
}
size_next entrypoint id (err refusal) rest = record { calls = []; stopped = some refusal }

unfoldable pub size_all : Wallet → Text → List ℕ → Sized
size_all w entrypoint [] = record { calls = []; stopped = none }
size_all w entrypoint (id ∷ ids) =
    let rest = size_all w entrypoint ids in
    size_next entrypoint id (claim_limit w entrypoint id) rest

-- The transactions that were sent, how many calls they claimed, and the last reply; a reply that is not
-- accepted ends the batch.
pub record Sent : Type 0 where
  pub chunks : List (List Call)
  pub claimed : ℕ
  pub reply : TxResult

abbrev pub nothing : TxResult
nothing = refusal (codes "nothing to claim")

module _ (broadcast : ℕ → List Call → TxResult) where
  abbrev pub join_chunk : Bool → List Call → ℕ → TxResult → Sent → Sent
  join_chunk true chunk sent reply rest = record {
    chunks = chunk ∷ rest.chunks;
    claimed = rest.claimed;
    reply = rest.reply;
  }
  join_chunk false chunk sent reply rest = record {
    chunks = chunk ∷ [];
    claimed = sent;
    reply = reply;
  }

  -- The loop over chunks of five calls: fuel for one round per call is enough.
  unfoldable pub send_chunks : ℕ → ℕ → TxResult → List Call → Sent
  send_chunks zero sent last calls = record { chunks = []; claimed = sent; reply = last }
  send_chunks (suc fuel) sent last [] = record { chunks = []; claimed = sent; reply = last }
  send_chunks (suc fuel) sent last (c ∷ calls) =
      let chunk = take hive_custom_json_per_block (c ∷ calls) in
      let reply = broadcast sent chunk in
      let rest =
        send_chunks fuel (sent + length chunk) reply
          (drop hive_custom_json_per_block (c ∷ calls)) in
      join_chunk reply.accepted chunk sent reply rest

  abbrev of_all : ℕ → ℕ → Text
  of_all sent wanted = codes "claimed " ++ print sent ++ codes " of " ++ print wanted

  abbrev pub with_msg : TxResult → Text → TxResult
  with_msg r msg = record { accepted = r.accepted; msg = msg; tx_id = r.tx_id }

  -- What is returned, by how many were wanted.
  abbrev pub batch_answer : ℕ → Sent → TxResult
  batch_answer wanted s =
      if s.reply.accepted
      then if ltb s.claimed wanted
        then with_msg s.reply (
            of_all s.claimed wanted
            ++ codes
                " — the rest refused for RC and can be claimed once it recovers, or after depositing more HBD")
        else s.reply
      else if ltb 0 s.claimed
      then with_msg s.reply (of_all s.claimed wanted ++ codes ", then: " ++ s.reply.msg)
      else s.reply

  unfoldable pub claim_sent : Wallet → Text → List ℕ → Sent
  claim_sent w entrypoint ids =
      let calls = (size_all w entrypoint (take max_claim_all_batch ids)).calls in
      send_chunks (length calls) 0 nothing calls

  abbrev pub refusal_or : TxResult → Option TxResult → TxResult
  refusal_or default none = default
  refusal_or default (some first_refusal) = first_refusal

  -- With no call to send: the first refusal, if there was one.
  unfoldable pub claim_all_of : Wallet → Text → List ℕ → TxResult
  claim_all_of w entrypoint ids =
      let sized = size_all w entrypoint (take max_claim_all_batch ids) in
      if is_none_left sized.calls
      then refusal_or nothing sized.stopped
      else batch_answer (length ids) (claim_sent w entrypoint ids)
