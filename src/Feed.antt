-- ===== src/Feed.antt =====
-- api/src/magi-backend.ts: `mergeTagged`, the tagged posts of Hive that the feed offers beside the
-- registered ones. `JSON.parse`, `Date.parse` and `toISOString` are the language's, and `canPost` the
-- engine's: parameters.
pub mod Offered
mod Tests
use lasse_cash_migration_to.Ledger.Account.{qualified}
use lasse_cash_migration_to.Prelude.{
  ◌∷◌, ◌++◌, [], ℕ, Bool, true, false, not, ◌&&◌, ◌||◌, Option, none, some, List, map, ltb, ◌==◌,
  if◌then◌else◌, Result, ok, err, ◌>>=◌, take, any, last?, ℤ, pos, ltb_ℤ, Text, codes, text_eq,
  is_empty,
}

-- What is read of an author's metadata: the fields that have the right type.
pub record Fields : Type 0 where
  pub description : Option Text
  pub tags : Option (List Text)

-- `JSON.parse` answers `null`, or a value with or without these fields.
pub data Parsed : Type 0 where
  null_value : Parsed
  value : Fields → Parsed

-- `json_metadata` as text, as an object, or as neither.
pub data Metadata : Type 0 where
  text : Text → Metadata
  object : Fields → Metadata
  neither : Metadata

-- `HiveTaggedPost`
pub record TaggedPost : Type 0 where
  pub author : Text
  pub permlink : Text
  pub title : Option Text
  pub body : Option Text
  pub created : Option Text
  pub depth : Option ℕ
  pub parent_author : Option Text
  pub json_metadata : Metadata

pub record HiveMeta : Type 0 where
  pub summary : Text
  pub tags : Option (List Text)

pub record PostView : Type 0 where
  pub author : Text
  pub permlink : Text
  pub window : Text
  pub created_height : ℕ
  pub created_time : Text
  pub payout_height : ℕ
  pub payout_time : Text
  pub rshares : Text
  pub payout_mode : ℕ
  pub parent_author : Text
  pub parent_permlink : Text
  pub promoted : Text
  pub title : Text
  pub summary : Text
  pub body_excerpt : Text
  pub tags : Option (List Text)
  pub votes : ℕ
  pub paid_out : Bool
  pub payable : Bool
  pub pending_payout : Text
  pub curator_pot : Text
  pub curation_expires_at : ℕ
  pub registered : Bool

-- The language and the engine.
pub record Runtime : Type 0 where
  pub parse_json : Text → Option Parsed
  pub parse_date : Text → Option ℤ
  pub to_iso : ℤ → Text
  pub can_post : Text → Text → Bool

abbrev pub key_of : Text → Text → Text
key_of author permlink = author ++ b'/' ∷ permlink

abbrev pub post_key : PostView → Text
post_key p = key_of p.author p.permlink

-- A text that is there and not empty.
abbrev pub given : Option Text → Bool
given o = elim o [ none ↦ false | some s ↦ not (is_empty s) ]

abbrev pub fields_meta : Fields → HiveMeta
fields_meta f = record {
  summary = elim f.description [ none ↦ [] | some d ↦ d ];
  tags = elim f.tags [ none ↦ none | some ts ↦ some (take 21 ts) ];
}

abbrev pub no_meta : HiveMeta
no_meta = record { summary = []; tags = none }

-- The error is the `TypeError` of reading a field of `null`.
abbrev pub null_read : Text
null_read = codes "TypeError"

-- Not a reply, and not without a name.
abbrev pub is_article : TaggedPost → Bool
is_article r =
    not (is_empty r.author || is_empty r.permlink)
    && not (elim r.depth [ none ↦ false | some d ↦ ltb 0 d ] || given r.parent_author)

-- `sharesByAuthor[author] || "0"`
abbrev pub shares_of : (Text → Option Text) → Text → Text
shares_of shares author = elim (shares author) [
  | none ↦ codes "0"
  | some s ↦ if is_empty s then codes "0" else s
]

module _ (rt : Runtime) where
  unfoldable pub hive_meta : Metadata → Result Text HiveMeta
  hive_meta (object f) = ok (fields_meta f)
  hive_meta neither = ok (fields_meta (record { description = none; tags = none }))
  hive_meta (text json) = elim (rt.parse_json (if is_empty json then codes "{}" else json)) [
    | none ↦ ok no_meta
    | some null_value ↦ err null_read
    | some (value f) ↦ ok (fields_meta f)
  ]

  abbrev ends_with_z : Text → Bool
  ends_with_z s = elim (last? s) [ none ↦ false | some c ↦ c == b'Z' ]

  unfoldable pub iso_utc : Option Text → Text
  iso_utc none = rt.to_iso (pos 0)
  iso_utc (some []) = rt.to_iso (pos 0)
  iso_utc (some (c ∷ s)) =
      elim (rt.parse_date (if ends_with_z (c ∷ s) then c ∷ s else (c ∷ s) ++ codes "Z")) [
        | none ↦ rt.to_iso (pos 0)
        | some t ↦ rt.to_iso t
      ]

  unfoldable pub is_too_old : ℤ → TaggedPost → Bool
  is_too_old not_before r =
      ltb_ℤ (pos 0) not_before
      && elim (rt.parse_date (iso_utc r.created)) [ none ↦ false | some t ↦ ltb_ℤ t not_before ]

  abbrev pub post_of : TaggedPost → HiveMeta → PostView
  post_of row meta = record {
    author = qualified row.author;
    permlink = row.permlink;
    window = codes "viral";
    created_height = 0;
    created_time = iso_utc row.created;
    payout_height = 0;
    payout_time = [];
    rshares = codes "0";
    payout_mode = 0;
    parent_author = [];
    parent_permlink = [];
    promoted = codes "0.00000000";
    title = elim row.title [
      | none ↦ row.permlink
      | some t ↦ if is_empty t then row.permlink else t
    ];
    summary = meta.summary;
    body_excerpt = take 2_000 (elim row.body [ none ↦ [] | some b ↦ b ]);
    tags = meta.tags;
    votes = 0;
    paid_out = false;
    payable = false;
    pending_payout = codes "0.00000000";
    curator_pot = codes "0.00000000";
    curation_expires_at = 0;
    registered = false;
  }

  module _ (shares : Text → Option Text) (threshold : Text) (not_before : ℤ) where
    -- The loop over the rows; a row is passed over, only marked as known, or offered.
    unfoldable pub merge_rows : List Text → List TaggedPost → Result Text (List PostView)
    merge_rows known [] = ok []
    merge_rows known (r ∷ rows) =
        let key = key_of (qualified r.author) r.permlink in
        let passed = merge_rows known rows in
        let marked = merge_rows (key ∷ known) rows in
        if not (is_article r)
        then passed
        else (if any (text_eq key) known
            then passed
            else (if is_too_old not_before r
                then passed
                else (if not (rt.can_post (shares_of shares (qualified r.author)) threshold)
                    then marked
                    else (hive_meta r.json_metadata >>= λ meta.
                        marked >>= λ later. ok (post_of r meta ∷ later)))))

  unfoldable pub merge_tagged :
      List (Text × Text)
      → List TaggedPost
      → (Text → Option Text)
      → Text
      → ℤ
      → Result Text (List PostView)
  merge_tagged registered rows shares threshold not_before =
      merge_rows shares threshold not_before (map (λ p. key_of p.0 p.1) registered) rows
