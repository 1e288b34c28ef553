-- ===== src/Feed/Offered.antt =====
-- api/src/magi-backend.ts: what `mergeTagged` offers.
use lasse_cash_migration_to.Ledger.Account.{qualified}
use lasse_cash_migration_to.Prelude.Keys.{distinct, has_key}
use lasse_cash_migration_to.Prelude.{
  ◌∷◌, [], ◌≡◌, refl, sym, ap, ◌∙◌, Bool, true, false, not, ◌&&◌, ◌||◌, inl, inr, Option, List, map,
  arith, Bool-cases, ok, any, all, All, All-map, ℤ, Text, text_eq, text_eq_sym, text_eq_refl,
  text_eq→eq, lacks, split, split-append,
}
use lasse_cash_migration_to.Feed.{
  Runtime, TaggedPost, PostView, HiveMeta, key_of, post_key, is_article, is_too_old, shares_of,
  hive_meta, post_of, merge_rows, merge_tagged,
}

-- Keys are the same only of the same authors, where no name has a slash.
first_part : List Text → Text
first_part [] = []
first_part (s ∷ ss) = s

key_of-author :
    (a p b q : Text)
    → lacks b'/' a ≡ true
    → lacks b'/' b ≡ true
    → text_eq (key_of a p) (key_of b q) ≡ true
    → a ≡ b
unfolding first_part
key_of-author a p b q ha hb h =
    let same : key_of a p ≡ key_of b q = text_eq→eq (key_of a p) (key_of b q) h in
    ap first_part (sym (split-append b'/' a p ha) ∙ ap (split b'/') same ∙ split-append b'/' b q hb)

abbrev pub row_key : TaggedPost → Text
row_key r = key_of (qualified r.author) r.permlink

module _ (rt : Runtime) where
  -- The metadata of the row can be read, and its author's name has no slash.
  abbrev pub IsReadable : TaggedPost → Type 0
  IsReadable r =
      ((meta : HiveMeta) × (hive_meta rt r.json_metadata ≡ ok meta))
      × (lacks b'/' (qualified r.author) ≡ true)

  module _ (shares : Text → Option Text) (threshold : Text) (not_before : ℤ) where
    -- A post is offered whose key is not known, and whose author may post.
    abbrev pub IsOffered : List Text → PostView → Type 0
    IsOffered known p =
        (any (text_eq (post_key p)) known ≡ false)
        × (rt.can_post (shares_of shares p.author) threshold ≡ true)
        × (p.registered ≡ false)

    abbrev pub may_post : TaggedPost → Bool
    may_post r = rt.can_post (shares_of shares (qualified r.author)) threshold

    -- An article, young enough, of an author who may post, is known or among the posts.
    abbrev pub is_taken : List Text → List PostView → TaggedPost → Bool
    is_taken known posts r =
        not (is_article r && not (is_too_old rt not_before r) && may_post r)
        || any (text_eq (row_key r)) known
        || has_key post_key (row_key r) posts

    is_taken-offered :
        (known : List Text) (p : PostView) (posts : List PostView) (rows : List TaggedPost)
        → all (is_taken (post_key p ∷ known) posts) rows ≡ true
        → all (is_taken known (p ∷ posts)) rows ≡ true
    is_taken-offered known p posts [] h = refl
    is_taken-offered known p posts (r ∷ rows) h =
        let rest = is_taken-offered known p posts rows (ground arith) in
        let now : is_taken (post_key p ∷ known) posts r ≡ true = ground arith in
        let then : is_taken known (p ∷ posts) r ≡ true = ground arith in rw (then, rest) refl

    is_taken-marked :
        (r0 : TaggedPost) (known : List Text) (posts : List PostView) (rows : List TaggedPost)
        → lacks b'/' (qualified r0.author) ≡ true
        → may_post r0 ≡ false
        → All IsReadable rows
        → all (is_taken (row_key r0 ∷ known) posts) rows ≡ true
        → all (is_taken known posts) rows ≡ true
    is_taken-marked r0 known posts [] l f m h = refl
    is_taken-marked r0 known posts (r ∷ rows) l f m h =
        let rest = is_taken-marked r0 known posts rows l f m.1 (ground arith) in
        let now : is_taken (row_key r0 ∷ known) posts r ≡ true = ground arith in
        let then : is_taken known posts r ≡ true =
          elim (Bool-cases (text_eq (row_key r) (row_key r0))) [
            | inr apart ↦ ground arith
            | inl same ↦
                let e : qualified r.author ≡ qualified r0.author =
                  key_of-author (qualified r.author) r.permlink (qualified r0.author) r0.permlink
                    m.0.1 l same in
                let f' : may_post r ≡ false =
                  ap (λ a. rt.can_post (shares_of shares a) threshold) e ∙ f in
                ground arith
          ] in
        rw (then, rest) refl

    abbrev pub Offers : List Text → List TaggedPost → Type 0
    Offers known rows =
        (posts : List PostView) × (merge_rows rt shares threshold not_before known rows ≡ ok posts)
        × All (IsOffered known) posts
        × (distinct post_key posts ≡ true)
        × (all (is_taken known posts) rows ≡ true)

    less_known :
        (key : Text) (known : List Text) (p : PostView)
        → IsOffered (key ∷ known) p
        → IsOffered known p
    less_known key known p h = (ground arith, h.1, h.2)

    fresh_key :
        (key : Text) (known : List Text) (posts : List PostView)
        → All (IsOffered (key ∷ known)) posts
        → has_key post_key key posts ≡ false
    fresh_key key known [] h = refl
    fresh_key key known (p ∷ posts) h =
        let rest = fresh_key key known posts h.1 in
        let away : text_eq (post_key p) key ≡ false = ground arith in
        elim (Bool-cases (text_eq key (post_key p))) [
          | inr apart ↦ rw (apart, rest) refl
          | inl same ↦ let back = text_eq_sym key (post_key p) same in absurd (ground arith)
        ]

    -- The row is looked at up to its author's shares.
    abbrev is_open : List Text → TaggedPost → Bool
    is_open known r =
        is_article r && not (any (text_eq (row_key r)) known) && not (is_too_old rt not_before r)

    merge_passed :
        (known : List Text) (r : TaggedPost) (rows : List TaggedPost)
        → is_open known r ≡ false
        → merge_rows rt shares threshold not_before known (r ∷ rows)
          ≡ merge_rows rt shares threshold not_before known rows
    unfolding merge_rows
    merge_passed known r rows h = elim (Bool-cases (is_article r)) [
      | inr reply ↦ rw reply refl
      | inl article ↦ elim (Bool-cases (any (text_eq (row_key r)) known)) [
        | inl seen ↦ rw (article, seen) refl
        | inr fresh ↦
            let old : is_too_old rt not_before r ≡ true = ground arith in
            rw (article, fresh, old) refl
      ]
    ]

    abbrev Open : List Text → TaggedPost → Type 0
    Open known r =
        (is_article r ≡ true)
        × (any (text_eq (row_key r)) known ≡ false)
        × (is_too_old rt not_before r ≡ false)

    is_open-Open : (known : List Text) (r : TaggedPost) → is_open known r ≡ true → Open known r
    is_open-Open known r h = (ground arith, ground arith, ground arith)

    merge_marked :
        (known : List Text) (r : TaggedPost) (rows : List TaggedPost)
        → Open known r
        → may_post r ≡ false
        → merge_rows rt shares threshold not_before known (r ∷ rows)
          ≡ merge_rows rt shares threshold not_before (row_key r ∷ known) rows
    unfolding merge_rows
    merge_marked known r rows (article, fresh, young) short = rw (article, fresh, young, short) refl

    merge_offered :
        (known : List Text) (r : TaggedPost) (rows : List TaggedPost) (meta : HiveMeta)
        (posts : List PostView)
        → Open known r
        → may_post r ≡ true
        → hive_meta rt r.json_metadata ≡ ok meta
        → merge_rows rt shares threshold not_before (row_key r ∷ known) rows ≡ ok posts
        → merge_rows rt shares threshold not_before known (r ∷ rows)
          ≡ ok (post_of rt r meta ∷ posts)
    unfolding merge_rows
    merge_offered known r rows meta posts (article, fresh, young) enough read e =
        rw (article, fresh, young, enough, read, e) refl

    merge_rows-Offers :
        (known : List Text) (rows : List TaggedPost) → All IsReadable rows → Offers known rows
    unfolding merge_rows
    merge_rows-Offers known [] h = ([], refl, tt, refl, refl)
    merge_rows-Offers known (r ∷ rows) h = elim (Bool-cases (is_open known r)) [
      | inr shut ↦
          let (posts, e, offered, apart, taken) = merge_rows-Offers known rows h.1 in
          let this : is_taken known posts r ≡ true = ground arith in
          (posts, merge_passed known r rows shut ∙ e, offered, apart, rw (this, taken) refl)
      | inl opened ↦
          let (posts, e, offered, apart, taken) = merge_rows-Offers (row_key r ∷ known) rows h.1 in
          let open_now = is_open-Open known r opened in
          let fewer = All-map posts (less_known (row_key r) known) offered in
          elim (Bool-cases (may_post r)) [
            | inr short ↦
                let this : is_taken known posts r ≡ true = ground arith in
                let others = is_taken-marked r known posts rows h.0.1 short h.1 taken in
                (
                  posts,
                  merge_marked known r rows open_now short ∙ e,
                  fewer,
                  apart,
                  rw (this, others) refl,
                )
            | inl enough ↦
                let (meta, read) = h.0.0 in
                let post = post_of rt r meta in
                let alone = fresh_key (row_key r) known posts offered in
                let itself = text_eq_refl (row_key r) in
                let this : is_taken known (post ∷ posts) r ≡ true = ground arith in
                let others = is_taken-offered known post posts rows taken in
                (
                  post ∷ posts,
                  merge_offered known r rows meta posts open_now enough read e,
                  ((open_now.1, enough, refl), fewer),
                  rw (alone, apart) refl,
                  rw (this, others) refl,
                )
          ]
    ]

  -- Where the metadata of every row can be read and no author's name has a slash, the merge returns
  -- posts of which no two have the same key and none is registered, each of an author with the shares
  -- to post; and every article that is young enough, of such an author, is registered or among them.
  pub merge_tagged-Offers :
      (shares : Text → Option Text) (threshold : Text) (not_before : ℤ)
      (registered : List (Text × Text)) (rows : List TaggedPost)
      → All IsReadable rows
      → (posts : List PostView) × (merge_tagged rt registered rows shares threshold not_before
          ≡ ok posts)
        × All (IsOffered shares threshold not_before (map (λ p. key_of p.0 p.1) registered)) posts
        × (distinct post_key posts ≡ true)
        × (all
              (is_taken shares threshold not_before (map (λ p. key_of p.0 p.1) registered) posts)
              rows
            ≡ true)
  unfolding merge_tagged
  merge_tagged-Offers shares threshold not_before registered rows h =
      merge_rows-Offers shares threshold not_before (map (λ p. key_of p.0 p.1) registered) rows h
