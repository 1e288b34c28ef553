-- ===== src/Positions/Tranche.antt =====
-- What a pool position's story reports as claimed.
use lasse_cash_migration_to.Prelude.{
  ◌∷◌, [], ℕ, ◌+◌, ◌≡◌, refl, ap, ◌∙◌, inl, inr, Bool, ◌&&◌, Option, none, some, List, map, arith,
  ltb, if◌then◌else◌, Bool-cases, ok, filter, pos, ◌+ℤ◌, codes, Option-cases, int_laws,
}
use lasse_cash_migration_to.Amount.{from_units, sum_from}
use lasse_cash_migration_to.Amount.RoundTrip.{to_units-from_units}
use lasse_cash_migration_to.Positions.{
  AccountCall, TrancheStory, parse_claimed, is_done, is_mine, insert_call, by_age, claims_of,
  tranche_claims, tranche_story, story_of,
}

abbrev or_none : Option ℕ → ℕ
or_none none = 0
or_none (some n) = n

-- A claim of the position that was carried out.
abbrev pub is_claim : ℕ → AccountCall → Bool
is_claim id c = is_done (codes "claim_pool") c && is_mine id c

-- What the contract's answers to the claims of a position add up to, in the order given.
abbrev pub total_claimed : ℕ → List AccountCall → ℕ
total_claimed id [] = 0
total_claimed id (c ∷ calls) =
    (if is_claim id c then or_none (parse_claimed c.ret) else 0) + total_claimed id calls

total-insert :
    (id : ℕ) (c : AccountCall) (calls : List AccountCall)
    → total_claimed id (insert_call c calls) ≡ total_claimed id (c ∷ calls)
unfolding insert_call
total-insert id c [] = refl
total-insert id c (d ∷ calls) = elim (Bool-cases (ltb d.height c.height)) [
  | inl later ↦ rw later (omega (arith, total-insert id c calls))
  | inr here ↦ rw here refl
]

-- Sorting the calls by age changes no sum.
total-by_age :
    (id : ℕ) (calls : List AccountCall) → total_claimed id (by_age calls) ≡ total_claimed id calls
unfolding by_age
total-by_age id [] = refl
total-by_age id (c ∷ calls) =
    total-insert id c (by_age calls) ∙ (omega (arith, total-by_age id calls))

-- A claim whose answer does not read is left out.
claims_of-unread :
    (c : AccountCall) (calls : List AccountCall)
    → parse_claimed c.ret ≡ none
    → claims_of (c ∷ calls) ≡ claims_of calls
unfolding claims_of
claims_of-unread c calls h = rw (claims_of, h) refl

claims_of-read :
    (c : AccountCall) (calls : List AccountCall) {v : ℕ}
    → parse_claimed c.ret ≡ some v
    → claims_of (c ∷ calls)
      ≡ record { tx_id = c.tx_id; height = c.height; time = c.time; amount = from_units (pos v) }
        ∷ claims_of calls
unfolding claims_of
claims_of-read c calls h = rw (claims_of, h) refl

sum-claims :
    (id n : ℕ) (calls : List AccountCall)
    → sum_from (pos n) (map (λ c. c.amount) (claims_of (filter (is_claim id) calls)))
      ≡ ok (pos (n + total_claimed id calls))
unfolding sum_from
sum-claims id n [] = unfold claims_of in ap (λ k. ok (pos k)) (omega arith)
sum-claims id n (c ∷ calls) = elim (Bool-cases (is_claim id c)) [
  | inr other ↦ rw other (sum-claims id n calls ∙ ap (λ k. ok (pos k)) (omega arith))
  | inl claim ↦ elim (Option-cases (parse_claimed c.ret)) [
    | inl unread ↦ rw claim (
        rw (unread, claims_of-unread c (filter (is_claim id) calls) unread)
          (sum-claims id n calls ∙ ap (λ k. ok (pos k)) (omega arith)))
    | inr (v, read) ↦
        let sum : pos n +ℤ pos v ≡ pos (n + v) = omega int_laws in
        rw claim (
          rw (read, claims_of-read c (filter (is_claim id) calls) read, to_units-from_units (pos v))
            (ap (λ z. sum_from z (map (λ c. c.amount) (claims_of (filter (is_claim id) calls)))) sum
              ∙ sum-claims id (n + v) calls
              ∙ ap (λ k. ok (pos k)) (omega arith)))
  ]
]

-- A story is told of every list of calls, and the total that it reports is the sum of what the
-- contract answered to the claims of the position.
pub tranche_story-total :
    (id : ℕ) (calls : List AccountCall)
    → (story : TrancheStory) × (tranche_story id calls ≡ ok story)
      × (story.claims ≡ tranche_claims id calls)
      × (story.claimed_total ≡ from_units (pos (total_claimed id calls)))
unfolding tranche_story tranche_claims story_of
tranche_story-total id calls =
    let n : ℕ = total_claimed id calls in
    let e : 0 + total_claimed id (by_age calls) ≡ n = omega (arith, total-by_age id calls) in
    let sum = sum-claims id 0 (by_age calls) ∙ ap (λ k. ok (pos k)) e in
    (story_of id calls (pos n), rw sum refl, refl, refl)
