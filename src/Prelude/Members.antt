-- ===== src/Prelude/Members.antt =====
-- What is a member of a list behind `any`, `map`, `filter` and `++`.
use mathlib.Core.List.{Memᴰ}
use mathlib.Core.List.Memᴰ
use mathlib.Core.List.Memᴰ.{head, tail}
use lasse_cash_migration_to.Prelude.{
  All-map, ◌∷◌, ◌++◌, [], ◌≡◌, refl, sym, ap, subst, ◌⊎◌, inl, inr, Bool, true, List, map, arith,
  Bool-cases, filter, any, All, Text,
}

-- `any` finds an element, and an element is found.
pub any-Mem {ℓ} :
    {A : Type ℓ} (p : A → Bool) (xs : List A) → any p xs ≡ true → (x : A) × Memᴰ x xs × (p x ≡ true)
any-Mem p [] h = absurd (ground arith)
any-Mem p (x ∷ xs) h = elim (Bool-cases (p x)) [
  | inl holds ↦ (x, head refl, holds)
  | inr fails ↦ let (y, m, holds) = any-Mem p xs (ground arith) in (y, tail m, holds)
]

pub Mem-any {ℓ} :
    {A : Type ℓ} (p : A → Bool) (x : A) (xs : List A) → Memᴰ x xs → p x ≡ true → any p xs ≡ true
Mem-any p x [] m h = elim m [ ]
Mem-any p x (y ∷ xs) (head e) h = let k : p y ≡ true = subst (λ z. p z ≡ true) e h in ground arith
Mem-any p x (y ∷ xs) (tail m) h = let k = Mem-any p x xs m h in ground arith

pub All-Mem {ℓ κ} : {A : Type ℓ} (P : A → Type κ) (x : A) (xs : List A) → All P xs → Memᴰ x xs → P x
All-Mem P x [] h m = elim m [ ]
All-Mem P x (y ∷ xs) h (head e) = subst P (sym e) h.0
All-Mem P x (y ∷ xs) h (tail m) = All-Mem P x xs h.1 m

pub All-self {ℓ} : {A : Type ℓ} (xs : List A) → All (λ x. Memᴰ x xs) xs
All-self [] = tt
All-self (x ∷ xs) = (head refl, All-map xs (λ y m. tail m) (All-self xs))

pub Mem-map {ℓ κ} :
    {A : Type ℓ} {B : Type κ} (f : A → B) (x : A) (xs : List A) → Memᴰ x xs → Memᴰ (f x) (map f xs)
Mem-map f x [] m = elim m [ ]
Mem-map f x (y ∷ xs) (head e) = head (ap f e)
Mem-map f x (y ∷ xs) (tail m) = tail (Mem-map f x xs m)

pub map-Mem {ℓ κ} :
    {A : Type ℓ} {B : Type κ} (f : A → B) (b : B) (xs : List A)
    → Memᴰ b (map f xs)
    → (x : A) × Memᴰ x xs × (b ≡ f x)
map-Mem f b [] m = elim m [ ]
map-Mem f b (x ∷ xs) (head e) = (x, head refl, e)
map-Mem f b (x ∷ xs) (tail m) = let (y, k, e) = map-Mem f b xs m in (y, tail k, e)

pub Mem-filter {ℓ} :
    {A : Type ℓ} (p : A → Bool) (x : A) (xs : List A)
    → Memᴰ x xs
    → p x ≡ true
    → Memᴰ x (filter p xs)
Mem-filter p x [] m h = elim m [ ]
Mem-filter p x (y ∷ xs) (head e) h =
    let k : p y ≡ true = subst (λ z. p z ≡ true) e h in rw k (head e)
Mem-filter p x (y ∷ xs) (tail m) h = elim (Bool-cases (p y)) [
  | inl keeps ↦ rw keeps (tail (Mem-filter p x xs m h))
  | inr drops ↦ rw drops (Mem-filter p x xs m h)
]

pub filter-Mem {ℓ} :
    {A : Type ℓ} (p : A → Bool) (x : A) (xs : List A)
    → Memᴰ x (filter p xs)
    → Memᴰ x xs × (p x ≡ true)
filter-Mem p x [] m = elim m [ ]
filter-Mem p x (y ∷ xs) m = elim (Bool-cases (p y)) [
  | inl keeps ↦ elim (Memᴰ.cases_cons (rw keeps at m)) [
    | inl e ↦ (head e, subst (λ z. p z ≡ true) (sym e) keeps)
    | inr k ↦ let (m', h) = filter-Mem p x xs k in (tail m', h)
  ]
  | inr drops ↦ let (m', h) = filter-Mem p x xs (rw drops at m) in (tail m', h)
]

pub append-Mem : (k : Text) (xs ys : List Text) → Memᴰ k (xs ++ ys) → Memᴰ k xs ⊎ Memᴰ k ys
append-Mem k [] ys m = inr m
append-Mem k (x ∷ xs) ys (head e) = inl (head e)
append-Mem k (x ∷ xs) ys (tail m) = elim (append-Mem k xs ys m) [
  | inl left ↦ inl (tail left)
  | inr right ↦ inr right
]
