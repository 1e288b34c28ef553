-- ===== src/Indexer/Resume/Pages.antt =====
-- Facts on lists: prefixes, pages, and filters.
use lasse_cash_migration_to.Prelude.{
  take-append-drop, ℕ, zero, suc, ◌+◌, ◌-◌, ◌≤◌, ◌<◌, ◌≡◌, refl, ap, Bool, true, not, List, [], ◌∷◌,
  ◌++◌, arith, take, drop, filter, length, All, All-append, Bool-cases, inl, inr,
}

module _ {A : Type 0} where
  take-nil : (n : ℕ) → take {A = A} n [] ≡ []
  take-nil zero = refl
  take-nil (suc n) = refl

  take-add : (m n : ℕ) (xs : List A) → take (m + n) xs ≡ take m xs ++ take n (drop m xs)
  take-add zero n xs = let e : 0 + n ≡ n = omega arith in rw e
  take-add (suc m) n [] = let e : suc m + n ≡ suc (m + n) = omega arith in rw (e, take-nil n)
  take-add (suc m) n (x ∷ xs) =
      let e : suc m + n ≡ suc (m + n) = omega arith in rw e (ap (λ l. x ∷ l) (take-add m n xs))

  take_whole : (n : ℕ) (xs : List A) → length (take n xs) < n → take n xs ≡ xs
  take_whole zero xs h = absurd (omega arith)
  take_whole (suc n) [] h = refl
  take_whole (suc n) (x ∷ xs) h = ap (λ l. x ∷ l) (take_whole n xs (omega arith))

  length-take_le : (n : ℕ) (xs : List A) → length (take n xs) ≤ length xs
  length-take_le zero xs = omega arith
  length-take_le (suc n) [] = omega arith
  length-take_le (suc n) (x ∷ xs) = omega (arith, length-take_le n xs)

  length-drop : (n : ℕ) (xs : List A) → length (drop n xs) ≡ length xs - n
  length-drop zero xs = omega arith
  length-drop (suc n) [] = omega arith
  length-drop (suc n) (x ∷ xs) = omega (arith, length-drop n xs)

  -- A page that reaches past the end is short.
  pub length-page :
      (n o : ℕ) (xs : List A) → 0 < n → length xs < o + n → length (take n (drop o xs)) < n
  length-page n o xs hn h = omega (arith, length-take_le n (drop o xs), length-drop o xs)

module _ {A : Type 0} (P : A → Type 0) where
  -- A prefix and the page behind it make the longer prefix.
  pub All-page :
      (m n : ℕ) (xs : List A)
      → All P (take m xs)
      → All P (take n (drop m xs))
      → All P (take (m + n) xs)
  All-page m n xs h k = rw (take-add m n xs) (All-append P (take m xs) (take n (drop m xs)) h k)

  -- Behind a short page there is nothing more.
  pub All-short_page :
      (m n : ℕ) (xs : List A)
      → All P (take m xs)
      → All P (take n (drop m xs))
      → length (take n (drop m xs)) < n
      → All P xs
  All-short_page m n xs h k short =
      let whole : All P (drop m xs) = rw (take_whole n (drop m xs) short) at k in
      rw (take-append-drop m xs) at (All-append P (take m xs) (drop m xs) h whole)

  -- What holds of the elements that a filter keeps, and of all that it drops, holds of all.
  pub All-filter :
      (p : A → Bool) (xs : List A)
      → ((x : A) → p x ≡ true → P x)
      → All P (filter (λ x. not (p x)) xs)
      → All P xs
  All-filter p [] f h = tt
  All-filter p (x ∷ xs) f h = elim (Bool-cases (p x)) [
    | inl dropped ↦ (f x dropped, All-filter p xs f (rw dropped at h))
    | inr kept ↦
        let h' : P x × All P (filter (λ y. not (p y)) xs) = rw kept at h in
        (h'.0, All-filter p xs f h'.1)
  ]
