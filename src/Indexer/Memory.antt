-- ===== src/Indexer/Memory.antt =====
-- `MemoryIndexStore`: the transactions and the meta entries in insertion order, as a `Map` keeps
-- them, and the store that they make. The listing `all()` is left out.
use lasse_cash_migration_to.Prelude.{
  text_eq_apart, arith, ◌≡◌, refl, Bool, true, false, Option, none, some, List, [], ◌∷◌, filter,
  any, Text, text_eq, text_eq→eq, text_eq_refl, if◌then◌else◌, All, Bool-cases, inl, inr,
}
use lasse_cash_migration_to.Indexer.Store.{IndexedTx, IndexStore}

-- A stored entry of the meta map.
pub record Entry : Type 0 where
  pub key : Text
  pub value : Text

pub record Memory : Type 0 where
  pub txs : List IndexedTx
  pub meta : List Entry

-- `txs.has(id)`
unfoldable pub has_tx : List IndexedTx → Text → Bool
has_tx [] i = false
has_tx (t ∷ txs) i = if text_eq t.id i then true else has_tx txs i

-- `txs.set(t.id, t)`: in the place of the entry of that id, or behind the last.
unfoldable pub set_tx : List IndexedTx → IndexedTx → List IndexedTx
set_tx [] u = u ∷ []
set_tx (t ∷ txs) u = let rest = set_tx txs u in if text_eq t.id u.id then u ∷ txs else t ∷ rest

unfoldable pub set_all : List IndexedTx → List IndexedTx → List IndexedTx
set_all stored [] = stored
set_all stored (t ∷ txs) = set_all (set_tx stored t) txs

-- `meta.get(k) ?? null`
unfoldable pub get_entry : List Entry → Text → Option Text
get_entry [] k = none
get_entry (e ∷ es) k = if text_eq e.key k then some e.value else get_entry es k

-- `meta.set(k, v)`
unfoldable pub set_entry : List Entry → Text → Text → List Entry
set_entry [] k v = record { key = k; value = v } ∷ []
set_entry (e ∷ es) k v =
    let rest = set_entry es k v in
    if text_eq e.key k then record { key = e.key; value = v } ∷ es else e ∷ rest

-- Membership in `new Set(ids.filter((i) => this.txs.has(i)))`.
unfoldable pub known_of : List IndexedTx → List Text → Text → Bool
known_of txs ids i = any (text_eq i) (filter (has_tx txs) ids)

pub known_of-has :
    (txs : List IndexedTx) (ids : List Text) (i : Text)
    → known_of txs ids i ≡ true
    → has_tx txs i ≡ true
unfolding known_of
known_of-has txs [] i h = cc
known_of-has txs (j ∷ ids) i h = elim (Bool-cases (has_tx txs j)) [
  | inr unstored ↦ known_of-has txs ids i (rw unstored at h)
  | inl stored ↦ elim (Bool-cases (text_eq i j)) [
    | inl same ↦ let e : i ≡ j = text_eq→eq i j same in rw e stored
    | inr differs ↦ known_of-has txs ids i (rw (stored, differs) at h)
  ]
]

has_tx-set_tx :
    (txs : List IndexedTx) (u : IndexedTx) (i : Text)
    → has_tx (set_tx txs u) i ≡ (if text_eq u.id i then true else has_tx txs i)
unfolding has_tx set_tx
has_tx-set_tx [] u i = refl
has_tx-set_tx (t ∷ txs) u i = elim (Bool-cases (text_eq t.id u.id)) [
  | inl same ↦
      let e : t.id ≡ u.id = text_eq→eq t.id u.id same in
      rw same (elim (Bool-cases (text_eq u.id i)) [
        | inl hit ↦ rw hit refl
        | inr miss ↦ rw (e, miss) refl
      ])
  | inr differs ↦ rw (differs, has_tx-set_tx txs u i) (ground arith)
]

pub get_entry-set_entry :
    (es : List Entry) (k v j : Text)
    → get_entry (set_entry es k v) j ≡ (if text_eq k j then some v else get_entry es j)
unfolding get_entry set_entry
get_entry-set_entry [] k v j = refl
get_entry-set_entry (e ∷ es) k v j = elim (Bool-cases (text_eq e.key k)) [
  | inl same ↦
      let eq : e.key ≡ k = text_eq→eq e.key k same in
      rw same (elim (Bool-cases (text_eq k j)) [
        | inl hit ↦ rw (eq, hit) refl
        | inr miss ↦ rw (eq, miss) refl
      ])
  | inr differs ↦ elim (Bool-cases (text_eq e.key j)) [
    | inr miss ↦ rw (differs, miss) (get_entry-set_entry es k v j)
    | inl hit ↦
        let eq : e.key ≡ j = text_eq→eq e.key j hit in
        let other : text_eq k j ≡ false = text_eq_apart e.key k j differs hit in
        rw (differs, hit, other) refl
  ]
]

-- What an upsert stores, and what it keeps.
pub set_all-keeps :
    (stored txs : List IndexedTx) (i : Text)
    → has_tx stored i ≡ true
    → has_tx (set_all stored txs) i ≡ true
unfolding set_all
set_all-keeps stored [] i h = h
set_all-keeps stored (t ∷ txs) i h =
    set_all-keeps (set_tx stored t) txs i (rw (has_tx-set_tx stored t i, h) (ground arith))

pub set_all-has :
    (stored txs : List IndexedTx) → All (λ t. has_tx (set_all stored txs) t.id ≡ true) txs
unfolding set_all
set_all-has stored [] = tt
set_all-has stored (t ∷ txs) = (
  set_all-keeps (set_tx stored t) txs t.id
      (rw (has_tx-set_tx stored t t.id, text_eq_refl t.id) refl),
  set_all-has (set_tx stored t) txs,
)

-- The store in memory keeps the promises of the interface.
abbrev pub memory_index_store : IndexStore
memory_index_store = record {
  State = Memory;
  has = λ s i. has_tx s.txs i;
  known = λ s ids i. known_of s.txs ids i;
  upsert = λ s txs. record s { txs = set_all s.txs txs };
  get_meta = λ s k. get_entry s.meta k;
  set_meta = λ s k v. record s { meta = set_entry s.meta k v };
  known-has = λ s ids i h. known_of-has s.txs ids i h;
  upsert-has = λ s txs. set_all-has s.txs txs;
  upsert-keeps = λ s txs i h. set_all-keeps s.txs txs i h;
  upsert-meta = λ s txs k. refl;
  set_meta-has = λ s k v i. refl;
  set_meta-meta = λ s k v j. get_entry-set_entry s.meta k v j;
}
