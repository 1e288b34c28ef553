-- ===== src/Feed/Tests.antt =====
-- A new article, one of an author without shares, a reply, and one that is registered.
use lasse_cash_migration_to.Ledger.Account.{qualified}
use lasse_cash_migration_to.Prelude.Keys.{distinct}
use lasse_cash_migration_to.Prelude.{
  ◌∷◌, [], ℕ, ◌≡◌, refl, true, not, ◌||◌, Option, none, some, List, map, Result, ok, err, all, All,
  ℤ, pos, eqb_ℤ, if◌then◌else◌, Text, codes, text_eq,
}
use lasse_cash_migration_to.Feed.{
  null_value, Metadata, text, object, neither, TaggedPost, PostView, Runtime, key_of, post_key,
  hive_meta, iso_utc, is_too_old, merge_rows, merge_tagged, null_read,
}
use lasse_cash_migration_to.Feed.Offered.{IsReadable, IsOffered, is_taken, merge_tagged-Offers}

abbrev stamp : ℤ
stamp = pos 1_787_390_052_000

abbrev parse_date : Text → Option ℤ
parse_date s =
    if text_eq s (codes "2026-08-22T09:14:12Z") || text_eq s (codes "2026-08-22T09:14:12.000Z")
    then some stamp
    else (if text_eq s (codes "1970-01-01T00:00:00.000Z") then some (pos 0) else none)

abbrev to_iso : ℤ → Text
to_iso t =
    if eqb_ℤ t stamp then codes "2026-08-22T09:14:12.000Z" else codes "1970-01-01T00:00:00.000Z"

abbrev rt : Runtime
rt = record {
  parse_json = λ s. if text_eq s (codes "null") then some null_value else none;
  parse_date = parse_date;
  to_iso = to_iso;
  can_post = λ shares threshold. not (text_eq shares (codes "0"));
}

abbrev row_of : Text → Text → Option ℕ → Metadata → TaggedPost
row_of author permlink depth meta = record {
  author = author;
  permlink = permlink;
  title = none;
  body = some (codes "text");
  created = some (codes "2026-08-22T09:14:12");
  depth = depth;
  parent_author = none;
  json_metadata = meta;
}

abbrev plain : Metadata
plain = object (record { description = none; tags = some (codes "lassecash" ∷ []) })

abbrev rows : List TaggedPost
rows =
    row_of (codes "ann") (codes "new") (some 0) plain
    ∷ row_of (codes "bob") (codes "poor") (some 0) neither
    ∷ row_of (codes "ann") (codes "reply") (some 1) plain
    ∷ row_of (codes "ann") (codes "old") none (text (codes "{"))
    ∷ []

abbrev shares : Text → Option Text
shares a = if text_eq a (codes "hive:ann") then some (codes "5000") else none

abbrev registered : List (Text × Text)
registered = (codes "hive:ann", codes "old") ∷ []

abbrev keys_of : Result Text (List PostView) → List Text
keys_of r = elim r [ ok posts ↦ map post_key posts | err e ↦ [] ]

only_new :
    keys_of (merge_tagged rt registered rows shares (codes "1000") (pos 1_000))
    ≡ codes "hive:ann/new" ∷ []
unfolding merge_tagged merge_rows hive_meta qualified is_too_old iso_utc
only_new = refl

rows-IsReadable : All (IsReadable rt) rows
unfolding hive_meta qualified
rows-IsReadable =
    (((_, refl), refl), (((_, refl), refl), (((_, refl), refl), (((_, refl), refl), tt))))

-- Text that spells `null` is not read as malformed.
null_metadata : hive_meta rt (text (codes "null")) ≡ err null_read
unfolding hive_meta
null_metadata = refl

merge_tagged-Offers_example :
    (posts : List PostView) × (merge_tagged rt registered rows shares (codes "1000") (pos 1_000)
      ≡ ok posts)
    × All
        (IsOffered rt shares (codes "1000") (pos 1_000) (map (λ p. key_of p.0 p.1) registered))
        posts
    × (distinct post_key posts ≡ true)
    × (all
          (is_taken rt shares
            (codes "1000")
            (pos 1_000)
            (map (λ p. key_of p.0 p.1) registered)
            posts)
          rows
        ≡ true)
merge_tagged-Offers_example =
    merge_tagged-Offers rt shares (codes "1000") (pos 1_000) registered rows rows-IsReadable
