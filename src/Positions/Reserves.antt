-- ===== src/Positions/Reserves.antt =====
-- Which trade the reserves at a height are those of.
use lasse_cash_migration_to.Prelude.{
  All-map, All-append, leb→le, append-nil, append_assoc, ◌∷◌, ◌++◌, [], ℕ, ◌≤◌, ◌<◌, ◌≡◌, refl, sym,
  ap, ◌∙◌, subst, ◌⊎◌, inl, inr, ◌&&◌, Option, none, some, List, arith, leb, if◌then◌else◌,
  Bool-cases, All,
}
use lasse_cash_migration_to.Amount.{Amount}
use lasse_cash_migration_to.Positions.{PoolTrade, is_no_older, best_from, reserves_at}

-- The latest trade of a list at or before a height; of several at one height, the last.
abbrev pub IsLatest : ℕ → List PoolTrade → Option PoolTrade → Type 0
IsLatest height trades none = All (λ u. height < u.height) trades
IsLatest height trades (some t) =
    (earlier : List PoolTrade) × (later : List PoolTrade) × (trades ≡ earlier ++ t ∷ later)
    × (t.height ≤ height)
    × All (λ u. (height < u.height) ⊎ (u.height ≤ t.height)) earlier
    × All (λ u. (height < u.height) ⊎ (u.height < t.height)) later

-- The reserves that a trade left.
abbrev pub reserves_of : Option PoolTrade → Option (Amount × Amount)
reserves_of none = none
reserves_of (some t) = some (t.lc_reserve, t.hbd_reserve)

abbrev next : ℕ → Option PoolTrade → PoolTrade → Option PoolTrade
next height best t = if leb t.height height && is_no_older t best then some t else best

snoc-IsLatest :
    (height : ℕ) (seen : List PoolTrade) (best : Option PoolTrade) (t : PoolTrade)
    → IsLatest height seen best
    → IsLatest height (seen ++ t ∷ []) (next height best t)
snoc-IsLatest height seen none t h = elim (Bool-cases (leb t.height height)) [
  | inl inside ↦
      rw inside
        (seen, [], refl, leb→le t.height height inside, All-map seen (λ u above. inl above) h, tt)
  | inr above ↦ rw above (All-append (λ u. height < u.height) seen (t ∷ []) h (ground arith, tt))
]
snoc-IsLatest height seen (some b) t (earlier, later, e, le, he, hl) =
    elim (Bool-cases (leb t.height height && leb b.height t.height)) [
      | inl newer ↦
          let t_le : t.height ≤ height = leb→le t.height height (ground arith) in
          let b_le : b.height ≤ t.height = leb→le b.height t.height (ground arith) in
          let P = λ (u : PoolTrade). (height < u.height) ⊎ (u.height ≤ t.height) in
          let front : All P earlier =
            All-map earlier
              (λ u s. elim s [ inl above ↦ inl above | inr below ↦ inr (omega arith) ]) he in
          let back : All P later =
            All-map later (λ u s. elim s [ inl above ↦ inl above | inr below ↦ inr (omega arith) ])
              hl in
          rw newer (
            seen,
            [],
            refl,
            t_le,
            subst (All P) (sym e) (All-append P earlier (b ∷ later) front (inr b_le, back)),
            tt,
          )
      | inr older ↦
          let P = λ (u : PoolTrade). (height < u.height) ⊎ (u.height < b.height) in
          let behind : P t = elim (Bool-cases (leb t.height height)) [
            | inl inside ↦ inr (ground arith)
            | inr above ↦ inl (ground arith)
          ] in
          rw older (
            earlier,
            later ++ t ∷ [],
            ap (λ ts. ts ++ t ∷ []) e ∙ append_assoc earlier (b ∷ later) (t ∷ []),
            le,
            he,
            All-append P later (t ∷ []) hl (behind, tt),
          )
    ]

best_from-IsLatest :
    (height : ℕ) (seen : List PoolTrade) (best : Option PoolTrade) (trades : List PoolTrade)
    → IsLatest height seen best
    → IsLatest height (seen ++ trades) (best_from height best trades)
unfolding best_from
best_from-IsLatest height seen best [] h = rw (append-nil seen) h
best_from-IsLatest height seen best (t ∷ trades) h = rw (append_assoc seen (t ∷ []) trades) at (
    best_from-IsLatest height (seen ++ t ∷ []) (next height best t) trades
      (snoc-IsLatest height seen best t h))

-- The reserves at a height are those that the latest trade at or before it left, the last one of
-- several at that height; and there are none when every trade is later.
pub reserves_at-IsLatest :
    (trades : List PoolTrade) (height : ℕ)
    → (best : Option PoolTrade) × IsLatest height trades best
      × (reserves_at trades height ≡ reserves_of best)
unfolding reserves_at
reserves_at-IsLatest trades height = (
  best_from height none trades,
  best_from-IsLatest height [] none trades tt,
  same (best_from height none trades),
)
  where
    same :
        (best : Option PoolTrade)
        → elim best [ none ↦ none | some b ↦ some (b.lc_reserve, b.hbd_reserve) ] ≡ reserves_of best
    same none = refl
    same (some b) = refl
