-- ===== src/Signer/Batch/Claimed.antt =====
-- What `claimAllOf` of api/src/aioha-signer.ts sends.
use lasse_cash_migration_to.Prelude.{
  length-drop-le, take-length-append, take-append-drop, length-append, length-take-le, ◌∷◌, ◌++◌,
  [], ℕ, zero, suc, ◌+◌, ◌≤◌, ◌≡◌, refl, ap, ◌∙◌, subst, ◌⊎◌, inl, inr, Bool, true, false, ◌&&◌,
  List, arith, leb, Result, ok, err, length, take, drop, all, Text,
}
use lasse_cash_migration_to.Signer.Calls.{Call, TxResult}
use lasse_cash_migration_to.Signer.Tables.{max_claim_all_batch, hive_custom_json_per_block}
use lasse_cash_migration_to.Signer.Sizing.{Wallet}
use lasse_cash_migration_to.Signer.Batch.{
  Sized, Sent, size_next, size_all, claim_limit, join_chunk, send_chunks, claim_sent, nothing,
}

length-size_next :
    (entrypoint : Text) (id : ℕ) (lim : Result TxResult ℕ) (rest : Sized)
    → length (size_next entrypoint id lim rest).calls ≤ suc (length rest.calls)
length-size_next entrypoint id (ok limit) rest = omega arith
length-size_next entrypoint id (err refusal) rest = omega arith

length-size_all :
    (w : Wallet) (entrypoint : Text) (ids : List ℕ)
    → length (size_all w entrypoint ids).calls ≤ length ids
unfolding size_all
length-size_all w entrypoint [] = omega arith
length-size_all w entrypoint (id ∷ ids) = omega (
  arith,
  length-size_next entrypoint id (claim_limit w entrypoint id) (size_all w entrypoint ids),
  length-size_all w entrypoint ids,
)

-- All the calls that were sent, in order.
abbrev pub flatten {ℓ} : {A : Type ℓ} → List (List A) → List A
flatten [] = []
flatten (xs ∷ xss) = xs ++ flatten xss

-- A chunk of one to five calls.
abbrev pub fits_block : List Call → Bool
fits_block chunk = leb 1 (length chunk) && leb (length chunk) hive_custom_json_per_block

module _ (broadcast : ℕ → List Call → TxResult) where
  -- The chunks are a prefix of the calls and each fits a block; they are all of the calls, and counted,
  -- if the last reply is accepted.
  abbrev pub Claims : ℕ → List Call → Sent → Type 0
  Claims sent calls s =
      (take (length (flatten s.chunks)) calls ≡ flatten s.chunks)
      × (all fits_block s.chunks ≡ true)
      × ((s.reply.accepted ≡ false)
          ⊎ ((flatten s.chunks ≡ calls) × (s.claimed ≡ sent + length calls)))

  join_chunk-Claims :
      (accepted : Bool) (chunk rest : List Call) (sent : ℕ) (reply : TxResult) (s : Sent)
      → reply.accepted ≡ accepted
      → fits_block chunk ≡ true
      → Claims (sent + length chunk) rest s
      → Claims sent (chunk ++ rest) (join_chunk broadcast accepted chunk sent reply s)
  join_chunk-Claims true chunk rest sent reply s h fits (front, fit, whole) = (
    take-length-append chunk (flatten s.chunks) rest ∙ ap (λ l. chunk ++ l) front,
    ground (arith, fits, fit),
    elim whole [
      | inl stopped ↦ inl stopped
      | inr (every, counted) ↦
          inr (ap (λ l. chunk ++ l) every, omega (arith, counted, length-append chunk rest))
    ],
  )
  join_chunk-Claims false chunk rest sent reply s h fits claims =
      (take-length-append chunk [] rest, ground (arith, fits), inl h)

  send_chunks-Claims :
      (fuel sent : ℕ) (reply : TxResult) (calls : List Call)
      → length calls ≤ fuel
      → Claims sent calls (send_chunks broadcast fuel sent reply calls)
  unfolding send_chunks
  send_chunks-Claims zero sent reply [] h = (refl, refl, inr (refl, omega arith))
  send_chunks-Claims zero sent reply (c ∷ calls) h = absurd (omega arith)
  send_chunks-Claims (suc fuel) sent reply [] h = (refl, refl, inr (refl, omega arith))
  send_chunks-Claims (suc fuel) sent reply (c ∷ calls) h =
      let chunk = take hive_custom_json_per_block (c ∷ calls) in
      let rest = drop hive_custom_json_per_block (c ∷ calls) in
      let s = send_chunks broadcast fuel (sent + length chunk) (broadcast sent chunk) rest in
      subst
        (λ l. Claims sent l (
          join_chunk broadcast (broadcast sent chunk).accepted chunk sent (broadcast sent chunk) s))
        (take-append-drop hive_custom_json_per_block (c ∷ calls))
        (join_chunk-Claims (broadcast sent chunk).accepted chunk rest sent (broadcast sent chunk) s
          refl (ground (arith, length-take-le 4 calls))
          (send_chunks-Claims fuel (sent + length chunk) (broadcast sent chunk) rest
            (omega (arith, length-drop-le 4 calls))))

  -- "Claim all" sends at most twelve calls, in transactions of one to five; what it sends is a prefix of
  -- the calls that it sized, in their order, and where the last transaction is accepted it is all of
  -- them, and their number is the one that it reports.
  pub claim_sent-Claims :
      (w : Wallet) (entrypoint : Text) (ids : List ℕ)
      → Claims 0
          (size_all w entrypoint (take max_claim_all_batch ids)).calls
          (claim_sent broadcast w entrypoint ids)
        × (length (size_all w entrypoint (take max_claim_all_batch ids)).calls
            ≤ max_claim_all_batch)
  unfolding claim_sent
  claim_sent-Claims w entrypoint ids =
      let calls = (size_all w entrypoint (take max_claim_all_batch ids)).calls in
      (
        send_chunks-Claims (length calls) 0 nothing calls (omega arith),
        omega (
          arith,
          length-size_all w entrypoint (take max_claim_all_batch ids),
          length-take-le max_claim_all_batch ids,
        ),
      )
