-- ===== src/Client/Pool/Tranches.antt =====
-- The maps of `poolTrades` of api/src/client.ts: tranches by their key, and the number of each signer.
use lasse_cash_migration_to.Prelude.{
  text_eq→eq, text_eq_refl, ◌∷◌, ◌++◌, [], ℕ, suc, ◌≤◌, ◌≡◌, refl, sym, ap, ◌∙◌, subst, inl, inr,
  true, false, List, arith, Bool-cases, drop, all, All, ℤ, pos, ◌+ℤ◌, ◌-ℤ◌, Text, text_eq, is_digit,
  int_laws,
}
use lasse_cash_migration_to.Prelude.Decimal.{digits_value, value-print, print-digits, print}
use lasse_cash_migration_to.Client.Pool.{get, set, delete, tranche_key}

-- The shares of all tranches.
abbrev pub sum_shares : List (Text × ℤ) → ℤ
sum_shares [] = pos 0
sum_shares ((k, n) ∷ m) = n +ℤ sum_shares m

-- The key of a tranche that its signer has opened.
abbrev pub IsOpened : List (Text × ℕ) → Text × ℤ → Type 0
IsOpened next_id entry =
    (signer : Text) × (id : ℕ) × (entry.0 ≡ tranche_key signer (print id))
    × (id ≤ get 0 signer next_id)

pub sum-set :
    (key : Text) (n : ℤ) (m : List (Text × ℤ))
    → All (λ e. text_eq key e.0 ≡ false) m
    → sum_shares (set key n m) ≡ sum_shares m +ℤ n
sum-set key n [] fresh = omega int_laws
sum-set key n ((k, v) ∷ m) fresh = rw (fresh.0, sum-set key n m fresh.1) (omega int_laws)

pub sum-delete :
    (key : Text) (m : List (Text × ℤ))
    → sum_shares (delete key m) ≡ sum_shares m -ℤ get (pos 0) key m
sum-delete key [] = omega int_laws
sum-delete key ((k, v) ∷ m) = elim (Bool-cases (text_eq key k)) [
  | inl same ↦ rw same (omega int_laws)
  | inr other ↦ rw (other, sum-delete key m) (omega int_laws)
]

module _ (P : Text × ℤ → Type 0) where
  pub All-set :
      (key : Text) (n : ℤ) (m : List (Text × ℤ))
      → P (key, n)
      → ((k : Text) → text_eq key k ≡ true → P (k, n))
      → All P m
      → All P (set key n m)
  All-set key n [] new same h = (new, tt)
  All-set key n ((k, v) ∷ m) new same (h, hs) = elim (Bool-cases (text_eq key k)) [
    | inl equal ↦ rw equal (same k equal, hs)
    | inr other ↦ rw other (h, All-set key n m new same hs)
  ]

  pub All-delete : (key : Text) (m : List (Text × ℤ)) → All P m → All P (delete key m)
  All-delete key [] h = tt
  All-delete key ((k, v) ∷ m) (h, hs) = elim (Bool-cases (text_eq key k)) [
    | inl equal ↦ rw equal hs
    | inr other ↦ rw other (h, All-delete key m hs)
  ]

-- Behind a signer and its underscore, the digits tell the signer.
digits-underscore : (s d : Text) → all is_digit (s ++ b'_' ∷ d) ≡ false
digits-underscore [] d = refl
digits-underscore (c ∷ s) d = ground (arith, digits-underscore s d)

key-injective :
    (s s' d d' : Text)
    → all is_digit d ≡ true
    → all is_digit d' ≡ true
    → tranche_key s d ≡ tranche_key s' d'
    → (s ≡ s') × (d ≡ d')
key-injective [] [] d d' h h' e = (refl, ap (drop 1) e)
key-injective [] (c ∷ s') d d' h h' e =
    let tail : d ≡ s' ++ b'_' ∷ d' = ap (drop 1) e in
    let k : all is_digit (s' ++ b'_' ∷ d') ≡ true = subst (λ t. all is_digit t ≡ true) tail h in
    absurd (cc (digits-underscore s' d'))
key-injective (c ∷ s) [] d d' h h' e =
    let tail : s ++ b'_' ∷ d ≡ d' = ap (drop 1) e in
    let k : all is_digit (s ++ b'_' ∷ d) ≡ true =
      subst (λ t. all is_digit t ≡ true) (sym tail) h' in
    absurd (cc (digits-underscore s d))
key-injective (c ∷ s) (c' ∷ s') d d' h h' e =
    let tail : tranche_key s d ≡ tranche_key s' d' = ap (drop 1) e in
    let (same, digits) = key-injective s s' d d' h h' tail in
    let first : c ≡ c' = cc in (ap (λ x. x ∷ s) first ∙ ap (λ l. c' ∷ l) same, digits)

pub get-set_same : (key : Text) (n : ℕ) (m : List (Text × ℕ)) → get 0 key (set key n m) ≡ n
get-set_same key n [] = rw (text_eq_refl key) refl
get-set_same key n ((k, v) ∷ m) = elim (Bool-cases (text_eq key k)) [
  | inl same ↦ rw (same, same) refl
  | inr other ↦ rw (other, other) (get-set_same key n m)
]

-- Opening a tranche leaves no signer with fewer than before.
pub get-set-le :
    (key other : Text) (n : ℕ) (m : List (Text × ℕ))
    → get 0 key m ≤ n
    → get 0 other m ≤ get 0 other (set key n m)
get-set-le key other n [] h = omega arith
get-set-le key other n ((k, v) ∷ m) h = ground (arith, get-set-le key other n m)

pub fresh_key :
    (signer : Text) (next_id : List (Text × ℕ)) (entry : Text × ℤ)
    → IsOpened next_id entry
    → text_eq (tranche_key signer (print (suc (get 0 signer next_id)))) entry.0 ≡ false
fresh_key signer next_id entry (s, id, e, below) =
    let key = tranche_key signer (print (suc (get 0 signer next_id))) in
    elim (Bool-cases (text_eq key entry.0)) [
      | inr differs ↦ differs
      | inl same ↦
          let k : key ≡ tranche_key s (print id) = text_eq→eq key entry.0 same ∙ e in
          let (signers, digits) =
            key-injective signer s (print (suc (get 0 signer next_id))) (print id)
              (print-digits (suc (get 0 signer next_id))) (print-digits id) k in
          let ids : suc (get 0 signer next_id) ≡ id =
            sym (value-print (suc (get 0 signer next_id)))
            ∙ ap digits_value digits
            ∙ value-print id in
          let low : id ≤ get 0 signer next_id =
            subst (λ t. id ≤ get 0 t next_id) (sym signers) below in
          absurd (omega arith)
    ]
