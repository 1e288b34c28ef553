-- ===== src/Links/Tests.antt =====
-- Permlinks of titles, of short links and of replies.
use lasse_cash_migration_to.Prelude.{
  ◌∷◌, ◌++◌, [], ℕ, ◌≤◌, ◌≡◌, refl, ap, true, some, arith, ◌==◌, if◌then◌else◌, length, all, map,
  lower, Text, codes, is_digit,
}
use lasse_cash_migration_to.Links.{
  slug_of, front_trimmed, end_trimmed, shortened, squeezed, kept_end, is_mark, permlink_for,
  publish_permlink, stamp_of, comment_permlink,
}
use lasse_cash_migration_to.Links.Slug.{is_slug, publish_permlink-IsSlug}
use lasse_cash_migration_to.Links.Reply.{
  EndsWith, comment_permlink-EndsWith, comment_permlink-stamp_of,
}

-- Lower-casing of ASCII letters.
abbrev to_lower : Text → Text
to_lower s = map lower s

lower-mark : (c : ℕ) → is_mark c ≡ true → lower c ≡ c
lower-mark c h = ground arith

to_lower-marks : (s : Text) → all is_mark s ≡ true → to_lower s ≡ s
to_lower-marks [] h = refl
to_lower-marks (c ∷ s) h =
    let m : is_mark c ≡ true = ground arith in
    rw (lower-mark c m, to_lower-marks s (ground arith)) refl

to_lower-digits :
    (s digits : Text) → all is_digit digits ≡ true → to_lower (s ++ digits) ≡ to_lower s ++ digits
to_lower-digits [] digits h = to_lower-marks digits (digits-marks digits h)
  where
    digits-marks : (d : Text) → all is_digit d ≡ true → all is_mark d ≡ true
    digits-marks [] k = refl
    digits-marks (c ∷ d) k = ground (arith, digits-marks d)
to_lower-digits (c ∷ s) digits h = ap (λ l. lower c ∷ l) (to_lower-digits s digits h)

abbrev iso_of : ℕ → Text
iso_of now = if now == 0 then codes "1970-01-01T00:00:00.000Z" else codes "2026-08-22T10:20:30.456Z"

abbrev long_title : Text
long_title = codes "  Why Downvotes Are -- Theft!  "

title_slug : permlink_for to_lower long_title ≡ codes "why-downvotes-are-theft"
unfolding permlink_for shortened end_trimmed front_trimmed slug_of
title_slug = refl

short_link : publish_permlink to_lower (some (codes "My_Link")) long_title ≡ codes "my-link"
unfolding publish_permlink permlink_for shortened end_trimmed front_trimmed slug_of
short_link = refl

no_link : publish_permlink to_lower (some (codes "!!")) (codes "A 1") ≡ codes "a-1"
unfolding publish_permlink permlink_for shortened end_trimmed front_trimmed slug_of
no_link = refl

publish_permlink-IsSlug_example :
    (is_slug (publish_permlink to_lower (some (codes "My_Link")) long_title) ≡ true)
    × (permlink_for to_lower (publish_permlink to_lower (some (codes "My_Link")) long_title)
        ≡ publish_permlink to_lower (some (codes "My_Link")) long_title)
publish_permlink-IsSlug_example =
    publish_permlink-IsSlug to_lower to_lower-marks (some (codes "My_Link")) long_title

reply_link :
    comment_permlink to_lower iso_of (codes "hive:bob") (codes "my.post") 1
    ≡ codes "re-bob-my-post-20260822102030456"
unfolding comment_permlink kept_end squeezed stamp_of
reply_link = refl

comment_permlink-EndsWith_example :
    (length (comment_permlink to_lower iso_of (codes "hive:bob") (codes "my.post") 1) ≤ 255)
    × (all is_mark (comment_permlink to_lower iso_of (codes "hive:bob") (codes "my.post") 1) ≡ true)
    × EndsWith
        (stamp_of (iso_of 1))
        (comment_permlink to_lower iso_of (codes "hive:bob") (codes "my.post") 1)
unfolding stamp_of
comment_permlink-EndsWith_example =
    comment_permlink-EndsWith to_lower iso_of to_lower-digits (codes "hive:bob") (codes "my.post") 1
      (omega arith)

comment_permlink-stamp_of_example : stamp_of (iso_of 1) ≡ stamp_of (iso_of 1)
unfolding stamp_of comment_permlink
comment_permlink-stamp_of_example =
    comment_permlink-stamp_of to_lower iso_of to_lower-digits (codes "hive:bob") (codes "my.post")
      (codes "@bob") (codes "my-post") 1 1 (omega arith) refl refl
