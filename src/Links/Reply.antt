-- ===== src/Links/Reply.antt =====
-- api/src/hive-metadata.ts: the permlink of a reply ends with its stamp, and tells replies apart.
use lasse_cash_migration_to.Prelude.{
  ◌∷◌, ◌++◌, [], ℕ, zero, suc, ◌≤◌, ◌-◌, ◌≡◌, refl, ap, sym, subst, ◌∙◌, Bool, true, false, ◌&&◌,
  inl, inr, arith, Bool-cases, leb, leb→le, ◌==◌, length, drop, length-append, length-parts, all,
  all-parts, map, Text, codes, is_digit,
}
use lasse_cash_migration_to.Links.{
  is_mark, mark_of, squeezed, stamp_of, front_trimmed, kept_end, bare_parent, comment_label,
  max_comment_permlink, comment_permlink,
}

-- What an end of a text is.
abbrev pub EndsWith : Text → Text → Type 0
EndsWith t s = (front : Text) × (s ≡ front ++ t)

stamp_of-digits : (iso : Text) → all is_digit (stamp_of iso) ≡ true
unfolding stamp_of
stamp_of-digits [] = refl
stamp_of-digits (c ∷ s) = elim (Bool-cases (is_digit c)) [
  | inl digit ↦ rw digit (rw digit (stamp_of-digits s))
  | inr other ↦ rw other (stamp_of-digits s)
]

mark_of-mark : (c : ℕ) → is_mark (mark_of c) ≡ true
mark_of-mark c = elim (Bool-cases (is_mark c)) [ inl m ↦ rw m m | inr o ↦ rw o refl ]

map-marks : (s : Text) → all is_mark (map mark_of s) ≡ true
map-marks [] = refl
map-marks (c ∷ s) = rw (mark_of-mark c, map-marks s) refl

digit-mark : (c : ℕ) → is_digit c ≡ true → is_mark c ≡ true
digit-mark c h = ground arith

digit-dash : (c : ℕ) → is_digit c ≡ true → (c == b'-') ≡ false
digit-dash c h = ground arith

squeezed-marks : (b : Bool) (s : Text) → all is_mark s ≡ true → all is_mark (squeezed b s) ≡ true
unfolding squeezed
squeezed-marks b [] h = refl
squeezed-marks b (c ∷ s) h =
    let m : is_mark c ≡ true = ground arith in
    let rest = squeezed-marks (c == b'-') s (ground arith) in
    elim (Bool-cases (c == b'-' && b)) [
      | inl again ↦ rw again rest
      | inr other ↦ rw other (rw (m, rest) refl)
    ]

-- Digits at the end are left as they are.
map-digits : (s : Text) → all is_digit s ≡ true → map mark_of s ≡ s
map-digits [] h = refl
map-digits (c ∷ s) h =
    let d : is_digit c ≡ true = ground arith in
    let m = digit-mark c d in rw (m, map-digits s (ground arith)) refl

map-end : (s t : Text) → map mark_of (s ++ t) ≡ map mark_of s ++ map mark_of t
map-end [] t = refl
map-end (c ∷ s) t = ap (λ l. mark_of c ∷ l) (map-end s t)

squeezed-digits : (b : Bool) (s : Text) → all is_digit s ≡ true → squeezed b s ≡ s
unfolding squeezed
squeezed-digits b [] h = refl
squeezed-digits b (c ∷ s) h =
    let d : is_digit c ≡ true = ground arith in
    let n = digit-dash c d in rw n (ap (λ l. c ∷ l) (squeezed-digits false s (ground arith)))

squeezed-end : (b : Bool) (s t : Text) → all is_digit t ≡ true → EndsWith t (squeezed b (s ++ t))
unfolding squeezed
squeezed-end b [] t h = ([], squeezed-digits b t h)
squeezed-end b (c ∷ s) t h =
    let (front, e) = squeezed-end (c == b'-') s t h in
    elim (Bool-cases (c == b'-' && b)) [
      | inl again ↦ rw again (front, e)
      | inr other ↦ rw other (c ∷ front, ap (λ l. c ∷ l) e)
    ]

-- An end of digits stays where dashes in front, or the first characters, are cut off.
front_trimmed-end : (s t : Text) → all is_digit t ≡ true → EndsWith t (front_trimmed (s ++ t))
unfolding front_trimmed
front_trimmed-end [] [] h = ([], refl)
front_trimmed-end [] (c ∷ t) h =
    let d : is_digit c ≡ true = ground arith in let n = digit-dash c d in rw n ([], refl)
front_trimmed-end (c ∷ s) t h = elim (Bool-cases (c == b'-')) [
  | inl dash ↦ rw dash (front_trimmed-end s t h)
  | inr other ↦ rw other (c ∷ s, refl)
]

drop-end : (n : ℕ) (s t : Text) → n ≤ length s → (front : Text) × (drop n (s ++ t) ≡ front ++ t)
drop-end zero s t h = (s, refl)
drop-end (suc n) [] t h = absurd (omega arith)
drop-end (suc n) (c ∷ s) t h = drop-end n s t (omega arith)

front_trimmed-marks : (s : Text) → all is_mark s ≡ true → all is_mark (front_trimmed s) ≡ true
unfolding front_trimmed
front_trimmed-marks [] h = refl
front_trimmed-marks (c ∷ s) h = elim (Bool-cases (c == b'-')) [
  | inl dash ↦ rw dash (front_trimmed-marks s (ground arith))
  | inr other ↦ rw other h
]

length-front_trimmed-le : (s : Text) → length (front_trimmed s) ≤ length s
unfolding front_trimmed
length-front_trimmed-le [] = omega arith
length-front_trimmed-le (c ∷ s) = ground (arith, length-front_trimmed-le s)

length-kept_end-le : (s : Text) → length (kept_end s) ≤ 255
unfolding kept_end
length-kept_end-le s = elim (Bool-cases (leb (length s) max_comment_permlink)) [
  | inl fits ↦ rw fits (leb→le (length s) max_comment_permlink fits)
  | inr long ↦
      let over : 255 ≤ length s = ground arith in
      let parts = length-parts 255 s over in
      let less = length-front_trimmed-le (drop (length s - 255) s) in rw long (omega arith)
]

kept_end-marks : (s : Text) → all is_mark s ≡ true → all is_mark (kept_end s) ≡ true
unfolding kept_end
kept_end-marks s h = elim (Bool-cases (leb (length s) max_comment_permlink)) [
  | inl fits ↦ rw fits h
  | inr long ↦
      let parts = all-parts is_mark (length s - 255) s h in
      rw long (front_trimmed-marks (drop (length s - 255) s) parts.1)
]

kept_end-end :
    (s t : Text) → all is_digit t ≡ true → length t ≤ 255 → EndsWith t (kept_end (s ++ t))
unfolding kept_end
kept_end-end s t h short = elim (Bool-cases (leb (length (s ++ t)) max_comment_permlink)) [
  | inl fits ↦ rw fits (s, refl)
  | inr long ↦
      let whole = length-append s t in
      let (front, e) = drop-end (length (s ++ t) - 255) s t (omega arith) in
      rw long (rw e (front_trimmed-end front t h))
]

drop-append : (s t : Text) → drop (length s) (s ++ t) ≡ t
drop-append [] t = refl
drop-append (c ∷ s) t = drop-append s t

-- Two ends of one text that are as long as each other.
ends-agree : (s t u : Text) → EndsWith t s → EndsWith u s → length t ≡ length u → t ≡ u
ends-agree s t u (f, e) (g, e') same =
    let whole : f ++ t ≡ g ++ u = sym e ∙ e' in
    let k = length-append f t in
    let k' = length-append g u in
    let count : length (f ++ t) ≡ length (g ++ u) = ap length whole in
    let fronts : length f ≡ length g = omega arith in
    sym (drop-append f t)
    ∙ ap (drop (length f)) whole
    ∙ ap (λ n. drop n (g ++ u)) fronts
    ∙ drop-append g u

module _ (to_lower_case : Text → Text) (iso_of : ℕ → Text)
    (lowered : (s digits : Text)
      → all is_digit digits ≡ true
      → to_lower_case (s ++ digits) ≡ to_lower_case s ++ digits) where
  -- Where lower-casing leaves digits at the end alone, and the time has at most 255 digits, the permlink
  -- of a reply has at most 255 characters, all of them lower-case letters, digits and dashes, and it
  -- ends with all the digits of the time, however long the parent's names are.
  pub comment_permlink-EndsWith :
      (author permlink : Text) (now : ℕ)
      → length (stamp_of (iso_of now)) ≤ 255
      → (length (comment_permlink to_lower_case iso_of author permlink now) ≤ 255)
        × (all is_mark (comment_permlink to_lower_case iso_of author permlink now) ≡ true)
        × EndsWith
            (stamp_of (iso_of now))
            (comment_permlink to_lower_case iso_of author permlink now)
  unfolding comment_permlink
  comment_permlink-EndsWith author permlink now short =
      let stamp = stamp_of (iso_of now) in
      let digits = stamp_of-digits (iso_of now) in
      let parent : Text = codes "re-" ++ bare_parent author ++ codes "-" ++ permlink ++ codes "-" in
      let label = to_lower_case (comment_label author permlink stamp) in
      let slug = squeezed false (map mark_of label) in
      let marks = squeezed-marks false (map mark_of label) (map-marks label) in
      let split : map mark_of label ≡ map mark_of (to_lower_case parent) ++ stamp =
        ap (map mark_of) (lowered parent stamp digits)
        ∙ map-end (to_lower_case parent) stamp
        ∙ ap (λ l. map mark_of (to_lower_case parent) ++ l) (map-digits stamp digits) in
      let (front, e) = squeezed-end false (map mark_of (to_lower_case parent)) stamp digits in
      let whole : slug ≡ front ++ stamp = ap (squeezed false) split ∙ e in
      (
        length-kept_end-le slug,
        kept_end-marks slug marks,
        subst (λ l. EndsWith stamp (kept_end l)) (sym whole)
            (kept_end-end front stamp digits short),
      )

  -- Where, besides, two times have the same number of digits, at most 255, replies with the same
  -- permlink were written at times with the same digits, whatever they answer.
  pub comment_permlink-stamp_of :
      (author permlink author' permlink' : Text) (now now' : ℕ)
      → length (stamp_of (iso_of now)) ≤ 255
      → length (stamp_of (iso_of now)) ≡ length (stamp_of (iso_of now'))
      → comment_permlink to_lower_case iso_of author permlink now
        ≡ comment_permlink to_lower_case iso_of author' permlink' now'
      → stamp_of (iso_of now) ≡ stamp_of (iso_of now')
  comment_permlink-stamp_of author permlink author' permlink' now now' short same equal =
      let (m, m', ends) = comment_permlink-EndsWith author permlink now short in
      let (k, k', ends') = comment_permlink-EndsWith author' permlink' now' (omega arith) in
      let there = subst (EndsWith (stamp_of (iso_of now))) equal ends in
      ends-agree (comment_permlink to_lower_case iso_of author' permlink' now')
        (stamp_of (iso_of now)) (stamp_of (iso_of now')) there ends' same
