-- ===== src/Prelude/Keys.antt =====
-- Lists whose elements have a text for a key: a `Set` of keys seen, and no key twice.
pub mod Sorted
use lasse_cash_migration_to.Prelude.{
  text_eq→eq, text_eq_refl, text_eq_sym, ◌∷◌, ◌++◌, [], ℕ, zero, suc, ◌≡◌, refl, subst, inl, inr,
  Bool, true, false, not, ◌&&◌, ◌||◌, List, arith, if◌then◌else◌, Bool-cases, take, any, All, Text,
  text_eq,
}

module _ {ℓ} {A : Type ℓ} (key_of : A → Text) where
  abbrev pub has_key : Text → List A → Bool
  has_key key xs = any (λ x. text_eq key (key_of x)) xs

  -- No key stands twice.
  abbrev pub distinct : List A → Bool
  distinct [] = true
  distinct (x ∷ xs) = not (has_key (key_of x) xs) && distinct xs

  -- `filter` with a set of the keys seen so far, which are those of `seen`.
  abbrev pub first_of_each : List Text → List A → List A
  first_of_each seen [] = []
  first_of_each seen (x ∷ xs) =
      let known = any (text_eq (key_of x)) seen in
      let rest = first_of_each (if known then seen else key_of x ∷ seen) xs in
      if known then rest else x ∷ rest

  has_key-append :
      (key : Text) (xs : List A) (x : A)
      → has_key key (xs ++ x ∷ []) ≡ (has_key key xs || text_eq key (key_of x))
  has_key-append key [] x = ground arith
  has_key-append key (y ∷ xs) x = ground (arith, has_key-append key xs x)

  apart-sym : (s t : Text) → text_eq s t ≡ false → text_eq t s ≡ false
  apart-sym s t h = elim (Bool-cases (text_eq t s)) [
    | inr differs ↦ differs
    | inl same ↦ let back = text_eq_sym t s same in absurd (ground arith)
  ]

  pub distinct-append :
      (xs : List A) (x : A)
      → distinct xs ≡ true
      → has_key (key_of x) xs ≡ false
      → distinct (xs ++ x ∷ []) ≡ true
  distinct-append [] x h fresh = refl
  distinct-append (y ∷ xs) x h fresh =
      let apart : text_eq (key_of y) (key_of x) ≡ false =
        apart-sym (key_of x) (key_of y) (ground arith) in
      ground (arith, has_key-append (key_of y) xs x, distinct-append xs x)

  -- Whatever is kept is not among the keys seen before.
  first_of_each-fresh :
      (seen : List Text) (xs : List A) (key : Text)
      → any (text_eq key) seen ≡ true
      → has_key key (first_of_each seen xs) ≡ false
  first_of_each-fresh seen [] key h = refl
  first_of_each-fresh seen (x ∷ xs) key h = elim (Bool-cases (any (text_eq (key_of x)) seen)) [
    | inl known ↦ rw known (first_of_each-fresh seen xs key h)
    | inr fresh ↦
        let apart : text_eq key (key_of x) ≡ false = elim (Bool-cases (text_eq key (key_of x))) [
          | inr differs ↦ differs
          | inl same ↦
              let e : key ≡ key_of x = text_eq→eq key (key_of x) same in
              let k : any (text_eq (key_of x)) seen ≡ true =
                subst (λ t. any (text_eq t) seen ≡ true) e h in
              absurd (ground arith)
        ] in
        let later = first_of_each-fresh (key_of x ∷ seen) xs key (ground arith) in
        rw fresh (ground arith)
  ]

  pub distinct-first_of_each :
      (seen : List Text) (xs : List A) → distinct (first_of_each seen xs) ≡ true
  distinct-first_of_each seen [] = refl
  distinct-first_of_each seen (x ∷ xs) = elim (Bool-cases (any (text_eq (key_of x)) seen)) [
    | inl known ↦ rw known (distinct-first_of_each seen xs)
    | inr fresh ↦
        let apart =
          first_of_each-fresh (key_of x ∷ seen) xs (key_of x)
            (ground (arith, text_eq_refl (key_of x))) in
        let rest = distinct-first_of_each (key_of x ∷ seen) xs in rw fresh (ground arith)
  ]

  -- A key that is not among those seen before is kept.
  pub has_key-first_of_each :
      (key : Text) (seen : List Text) (xs : List A)
      → has_key key xs ≡ true
      → any (text_eq key) seen ≡ false
      → has_key key (first_of_each seen xs) ≡ true
  has_key-first_of_each key seen [] h new = h
  has_key-first_of_each key seen (x ∷ xs) h new =
      elim (Bool-cases (any (text_eq (key_of x)) seen)) [
        | inl known ↦
            let apart : text_eq key (key_of x) ≡ false =
              elim (Bool-cases (text_eq key (key_of x))) [
                | inr differs ↦ differs
                | inl same ↦
                    let e : key ≡ key_of x = text_eq→eq key (key_of x) same in
                    let k : any (text_eq (key_of x)) seen ≡ false =
                      subst (λ t. any (text_eq t) seen ≡ false) e new in
                    absurd (ground arith)
              ] in
            rw known (has_key-first_of_each key seen xs (ground arith) new)
        | inr fresh ↦ rw fresh (elim (Bool-cases (text_eq key (key_of x))) [
          | inl same ↦ rw same refl
          | inr differs ↦
              let rest =
                has_key-first_of_each key (key_of x ∷ seen) xs (ground arith) (ground arith) in
              rw (differs, rest) refl
        ])
      ]

  pub All-first_of_each {κ} :
      (P : A → Type κ) (seen : List Text) (xs : List A) → All P xs → All P (first_of_each seen xs)
  All-first_of_each P seen [] h = tt
  All-first_of_each P seen (x ∷ xs) h = elim (Bool-cases (any (text_eq (key_of x)) seen)) [
    | inl known ↦ rw known (All-first_of_each P seen xs h.1)
    | inr fresh ↦ rw fresh (h.0, All-first_of_each P (key_of x ∷ seen) xs h.1)
  ]

  has_key-take :
      (n : ℕ) (xs : List A) (key : Text) → has_key key xs ≡ false → has_key key (take n xs) ≡ false
  has_key-take zero xs key h = refl
  has_key-take (suc n) [] key h = refl
  has_key-take (suc n) (x ∷ xs) key h = ground (arith, has_key-take n xs key)

  pub distinct-take : (n : ℕ) (xs : List A) → distinct xs ≡ true → distinct (take n xs) ≡ true
  distinct-take zero xs h = refl
  distinct-take (suc n) [] h = refl
  distinct-take (suc n) (x ∷ xs) h =
      ground (arith, distinct-take n xs, has_key-take n xs (key_of x))

  -- `sort` with a test of what comes first, which keeps the order of equals.
  module _ (before : A → A → Bool) where
    abbrev pub insert_stable : A → List A → List A
    insert_stable x [] = x ∷ []
    insert_stable x (y ∷ ys) =
        let rest = insert_stable x ys in if before x y then x ∷ y ∷ ys else y ∷ rest

    abbrev pub sort_onto : List A → List A → List A
    sort_onto sorted [] = sorted
    sort_onto sorted (x ∷ xs) = sort_onto (insert_stable x sorted) xs

    pub has_key-insert :
        (key : Text) (x : A) (ys : List A)
        → has_key key (insert_stable x ys) ≡ (text_eq key (key_of x) || has_key key ys)
    has_key-insert key x [] = ground arith
    has_key-insert key x (y ∷ ys) = ground (arith, has_key-insert key x ys)

    distinct-insert :
        (x : A) (ys : List A)
        → distinct ys ≡ true
        → has_key (key_of x) ys ≡ false
        → distinct (insert_stable x ys) ≡ true
    distinct-insert x [] h fresh = refl
    distinct-insert x (y ∷ ys) h fresh =
        let apart : text_eq (key_of y) (key_of x) ≡ false =
          apart-sym (key_of x) (key_of y) (ground arith) in
        ground (arith, has_key-insert (key_of y) x ys, distinct-insert x ys)

    -- None of these keys is among those.
    abbrev apart_from : List A → List A → Bool
    apart_from sorted [] = true
    apart_from sorted (x ∷ xs) = not (has_key (key_of x) sorted) && apart_from sorted xs

    apart_from-insert :
        (x : A) (sorted xs : List A)
        → apart_from sorted xs ≡ true
        → has_key (key_of x) xs ≡ false
        → apart_from (insert_stable x sorted) xs ≡ true
    apart_from-insert x sorted [] h fresh = refl
    apart_from-insert x sorted (y ∷ xs) h fresh =
        let apart : text_eq (key_of y) (key_of x) ≡ false =
          apart-sym (key_of x) (key_of y) (ground arith) in
        ground (arith, has_key-insert (key_of y) x sorted, apart_from-insert x sorted xs)

    sort_onto-distinct :
        (xs sorted : List A)
        → distinct sorted ≡ true
        → distinct xs ≡ true
        → apart_from sorted xs ≡ true
        → distinct (sort_onto sorted xs) ≡ true
    sort_onto-distinct [] sorted hs hx ha = hs
    sort_onto-distinct (x ∷ xs) sorted hs hx ha =
        sort_onto-distinct xs (insert_stable x sorted) (distinct-insert x sorted hs (ground arith))
          (ground arith) (apart_from-insert x sorted xs (ground arith) (ground arith))

    apart_from-nil : (xs : List A) → apart_from [] xs ≡ true
    apart_from-nil [] = refl
    apart_from-nil (x ∷ xs) = apart_from-nil xs

    pub distinct-sort : (xs : List A) → distinct xs ≡ true → distinct (sort_onto [] xs) ≡ true
    distinct-sort xs h = sort_onto-distinct xs [] refl h (apart_from-nil xs)
