-- ===== src/Prelude/Keys/Sorted.antt =====
-- What a stable sort keeps: keys, predicates of all elements, and that nothing stands behind what it
-- comes before.
use lasse_cash_migration_to.Prelude.{
  ◌∷◌, [], ℕ, zero, suc, ◌≡◌, refl, inl, inr, Bool, true, false, not, ◌&&◌, ◌||◌, List, arith,
  Bool-cases, take, All, Text,
}
use lasse_cash_migration_to.Prelude.Keys.{has_key, insert_stable, sort_onto, has_key-insert}

module _ {ℓ} {A : Type ℓ} (before : A → A → Bool) where
  -- No element comes before the one in front of it.
  abbrev pub in_order_behind : A → List A → Bool
  in_order_behind y [] = true
  in_order_behind y (x ∷ xs) = not (before x y) && in_order_behind x xs

  abbrev pub in_order : List A → Bool
  in_order [] = true
  in_order (x ∷ xs) = in_order_behind x xs

  in_order-take_behind :
      (n : ℕ) (y : A) (xs : List A)
      → in_order_behind y xs ≡ true
      → in_order_behind y (take n xs) ≡ true
  in_order-take_behind zero y xs h = refl
  in_order-take_behind (suc n) y [] h = refl
  in_order-take_behind (suc n) y (x ∷ xs) h = ground (arith, in_order-take_behind n x xs)

  pub in_order-take : (n : ℕ) (xs : List A) → in_order xs ≡ true → in_order (take n xs) ≡ true
  in_order-take zero xs h = refl
  in_order-take (suc n) [] h = refl
  in_order-take (suc n) (x ∷ xs) h = in_order-take_behind n x xs h

module _ {ℓ} {A : Type ℓ} (key_of : A → Text) (before : A → A → Bool) where
  pub has_key-sort :
      (key : Text) (xs sorted : List A)
      → has_key key_of key (sort_onto key_of before sorted xs)
        ≡ (has_key key_of key sorted || has_key key_of key xs)
  has_key-sort key [] sorted = ground arith
  has_key-sort key (x ∷ xs) sorted = ground (
    arith,
    has_key-insert key_of before key x sorted,
    has_key-sort key xs (insert_stable key_of before x sorted),
  )

  All-insert {κ} :
      (P : A → Type κ) (x : A) (ys : List A)
      → P x
      → All P ys
      → All P (insert_stable key_of before x ys)
  All-insert P x [] h hs = (h, tt)
  All-insert P x (y ∷ ys) h hs = elim (Bool-cases (before x y)) [
    | inl first ↦ rw first (h, hs)
    | inr later ↦ rw later (hs.0, All-insert P x ys h hs.1)
  ]

  pub All-sort {κ} :
      (P : A → Type κ) (xs sorted : List A)
      → All P sorted
      → All P xs
      → All P (sort_onto key_of before sorted xs)
  All-sort P [] sorted hs h = hs
  All-sort P (x ∷ xs) sorted hs h =
      All-sort P xs (insert_stable key_of before x sorted) (All-insert P x sorted h.0 hs) h.1

  module _ (one_way : (x y : A) → before x y ≡ true → before y x ≡ false) where
    in_order-insert_behind :
        (y x : A) (xs : List A)
        → before x y ≡ false
        → in_order_behind before y xs ≡ true
        → in_order_behind before y (insert_stable key_of before x xs) ≡ true
    in_order-insert_behind y x [] after h = rw after refl
    in_order-insert_behind y x (z ∷ zs) after h = elim (Bool-cases (before x z)) [
      | inl first ↦
          let back = one_way x z first in
          let rest : in_order_behind before z zs ≡ true = ground arith in
          rw (first, after, back, rest) refl
      | inr later ↦
          let next : before z y ≡ false = ground arith in
          let rest = in_order-insert_behind z x zs later (ground arith) in
          rw (later, next, rest) refl
    ]

    in_order-insert :
        (x : A) (xs : List A)
        → in_order before xs ≡ true
        → in_order before (insert_stable key_of before x xs) ≡ true
    in_order-insert x [] h = refl
    in_order-insert x (y ∷ ys) h = elim (Bool-cases (before x y)) [
      | inl first ↦ let back = one_way x y first in rw (first, back, h) refl
      | inr later ↦ rw later (in_order-insert_behind y x ys later h)
    ]

    pub in_order-sort :
        (xs sorted : List A)
        → in_order before sorted ≡ true
        → in_order before (sort_onto key_of before sorted xs) ≡ true
    in_order-sort [] sorted h = h
    in_order-sort (x ∷ xs) sorted h =
        in_order-sort xs (insert_stable key_of before x sorted) (in_order-insert x sorted h)
