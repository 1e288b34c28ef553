-- ===== src/Links/Slug.antt =====
-- api/src/magi-backend.ts: what `permlinkFor` returns is a slug, and stays as it is.
use lasse_cash_migration_to.Prelude.{
  ◌∷◌, [], ℕ, zero, suc, ◌≤◌, ◌≡◌, refl, Bool, true, false, not, ◌&&◌, ◌||◌, inl, inr, Option, none,
  some, arith, Bool-cases, leb, ◌==◌, length, take, length-take-le, all, Text, is_empty,
}
use lasse_cash_migration_to.Links.{
  is_alnum, is_gap, is_mark, slug_of, front_trimmed, end_trimmed, dash_trimmed, max_permlink,
  shortened, permlink_for, publish_permlink,
}

-- Letters and digits with single dashes between them; `half` allows a dash at the end.
abbrev pub half : Bool → Text → Bool
half behind_dash [] = true
half behind_dash (c ∷ s) =
    (c == b'-' && not behind_dash && half true s) || (is_alnum c && half false s)

abbrev pub dashed : Bool → Text → Bool
dashed behind_dash [] = not behind_dash
dashed behind_dash (c ∷ s) =
    (c == b'-' && not behind_dash && dashed true s) || (is_alnum c && dashed false s)

-- A slug of 80 characters at most, or nothing.
abbrev pub is_slug : Text → Bool
is_slug s = (is_empty s || dashed true s) && leb (length s) max_permlink

half_alnum :
    (b : Bool) (c : ℕ) (s : Text) → is_alnum c ≡ true → half false s ≡ true → half b (c ∷ s) ≡ true
half_alnum b c s alnum rest = rw (alnum, rest) (ground arith)

half_dash : (s : Text) → half true s ≡ true → half false (b'-' ∷ s) ≡ true
half_dash s rest = rw rest refl

slug_of-half : (last : Bool) (s : Text) → half last (slug_of last s) ≡ true
unfolding slug_of
slug_of-half last [] = refl
slug_of-half last (c ∷ s) = elim (Bool-cases (is_alnum c)) [
  | inl alnum ↦ rw alnum (half_alnum last c (slug_of false s) alnum (slug_of-half false s))
  | inr other ↦ rw other (elim (Bool-cases (is_gap c)) [
    | inr dropped ↦ rw dropped (slug_of-half last s)
    | inl gap ↦ rw gap (elim (Bool-cases last) [
      | inl again ↦ rw again (slug_of-half true s)
      | inr first ↦ rw first (half_dash (slug_of true s) (slug_of-half true s))
    ])
  ])
]

dashed-half : (b : Bool) (s : Text) → dashed b s ≡ true → half b s ≡ true
dashed-half b [] h = refl
dashed-half b (c ∷ s) h = ground (arith, dashed-half true s, dashed-half false s)

half-take : (b : Bool) (n : ℕ) (s : Text) → half b s ≡ true → half b (take n s) ≡ true
half-take b zero s h = refl
half-take b (suc n) [] h = refl
half-take b (suc n) (c ∷ s) h = ground (arith, half-take true n s, half-take false n s)

half-front : (s : Text) → half true s ≡ true → front_trimmed s ≡ s
unfolding front_trimmed
half-front [] h = refl
half-front (c ∷ s) h = ground arith

end_trimmed-dashed :
    (b : Bool) (s : Text)
    → half b s ≡ true
    → (is_empty (end_trimmed s) || dashed b (end_trimmed s)) ≡ true
unfolding end_trimmed
end_trimmed-dashed b [] h = refl
end_trimmed-dashed b (c ∷ s) h =
    ground (arith, end_trimmed-dashed true s, end_trimmed-dashed false s)

length-end_trimmed-le : (s : Text) → length (end_trimmed s) ≤ length s
unfolding end_trimmed
length-end_trimmed-le [] = omega arith
length-end_trimmed-le (c ∷ s) = ground (arith, length-end_trimmed-le s)

dashed-end : (b : Bool) (s : Text) → dashed b s ≡ true → end_trimmed s ≡ s
unfolding end_trimmed
dashed-end b [] h = refl
dashed-end b (c ∷ s) h = ground (arith, dashed-end true s, dashed-end false s)

slug_of-half_text : (b : Bool) (s : Text) → half b s ≡ true → slug_of b s ≡ s
unfolding slug_of
slug_of-half_text b [] h = refl
slug_of-half_text b (c ∷ s) h = ground (arith, slug_of-half_text true s, slug_of-half_text false s)

half-marks : (b : Bool) (s : Text) → half b s ≡ true → all is_mark s ≡ true
half-marks b [] h = refl
half-marks b (c ∷ s) h = ground (arith, half-marks true s, half-marks false s)

abbrev trimmed : Text → Bool
trimmed s = is_empty s || dashed true s

trimmed-half : (s : Text) → trimmed s ≡ true → half true s ≡ true
trimmed-half [] h = refl
trimmed-half (c ∷ s) h = dashed-half true (c ∷ s) h

dash_trimmed-trimmed : (s : Text) → half true s ≡ true → trimmed (dash_trimmed s) ≡ true
dash_trimmed-trimmed s h = rw (half-front s h) (end_trimmed-dashed true s h)

trimmed-stays : (s : Text) → trimmed s ≡ true → dash_trimmed s ≡ s
unfolding front_trimmed end_trimmed
trimmed-stays [] h = refl
trimmed-stays (c ∷ s) h =
    rw (half-front (c ∷ s) (dashed-half true (c ∷ s) h)) (dashed-end true (c ∷ s) h)

length-dash_trimmed-le : (s : Text) → half true s ≡ true → length (dash_trimmed s) ≤ length s
length-dash_trimmed-le s h = rw (half-front s h) (length-end_trimmed-le s)

within : (s : Text) → length s ≤ 80 → leb (length s) max_permlink ≡ true
within s h = ground arith

shortened-slug : (s : Text) → trimmed s ≡ true → is_slug (shortened s) ≡ true
unfolding shortened
shortened-slug s h = elim (Bool-cases (leb (length s) max_permlink)) [
  | inl fits ↦ rw fits (rw (h, fits) refl)
  | inr long ↦
      let cut = half-take true max_permlink s (trimmed-half s h) in
      let less = length-dash_trimmed-le (take max_permlink s) cut in
      let most = length-take-le max_permlink s in
      rw long (
        rw (dash_trimmed-trimmed (take max_permlink s) cut)
          (within (dash_trimmed (take max_permlink s)) (omega arith)))
]

module _ (to_lower_case : Text → Text) where
  permlink_for-slug : (title : Text) → is_slug (permlink_for to_lower_case title) ≡ true
  unfolding permlink_for
  permlink_for-slug title =
      let lowered = to_lower_case title in
      shortened-slug (dash_trimmed (slug_of true lowered))
        (dash_trimmed-trimmed (slug_of true lowered) (slug_of-half true lowered))

  publish_permlink-slug :
      (given : Option Text) (title : Text)
      → is_slug (publish_permlink to_lower_case given title) ≡ true
  unfolding publish_permlink
  publish_permlink-slug given title =
      let link : Text = elim given [ none ↦ [] | some l ↦ l ] in
      elim (Bool-cases (is_empty (permlink_for to_lower_case link))) [
        | inl nothing ↦ rw nothing (permlink_for-slug title)
        | inr short ↦ rw short (permlink_for-slug link)
      ]

  slug-stays :
      ((s : Text) → all is_mark s ≡ true → to_lower_case s ≡ s)
      → (s : Text) → is_slug s ≡ true
      → permlink_for to_lower_case s ≡ s
  unfolding permlink_for shortened
  slug-stays lowered s h =
      let fits : leb (length s) max_permlink ≡ true = ground arith in
      let clean : trimmed s ≡ true = ground arith in
      let parts = trimmed-half s clean in
      rw
        (
          lowered s (half-marks true s parts),
          slug_of-half_text true s parts,
          trimmed-stays s clean,
          fits,
        )
        refl

  -- Where lower-casing leaves lower-case letters, digits and dashes alone, the permlink of a new post
  -- is empty or a slug, of 80 characters at most: letters and digits with single dashes between them;
  -- and making a permlink of it again changes nothing.
  pub publish_permlink-IsSlug :
      ((s : Text) → all is_mark s ≡ true → to_lower_case s ≡ s)
      → (given : Option Text) (title : Text)
      → (is_slug (publish_permlink to_lower_case given title) ≡ true)
        × (permlink_for to_lower_case (publish_permlink to_lower_case given title)
            ≡ publish_permlink to_lower_case given title)
  publish_permlink-IsSlug lowered given title =
      let slug = publish_permlink-slug given title in
      (slug, slug-stays lowered (publish_permlink to_lower_case given title) slug)
