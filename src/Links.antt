-- ===== src/Links.antt =====
-- api/src/magi-backend.ts and api/src/hive-metadata.ts: the permlinks of posts (`permlinkFor`) and of
-- replies (`commentPermlink`). `toLowerCase` and `toISOString` are the language's, and parameters.
pub mod Slug
pub mod Reply
mod Tests
use lasse_cash_migration_to.Prelude.{
  ◌∷◌, ◌++◌, [], ℕ, ◌-◌, Bool, true, false, not, ◌&&◌, ◌||◌, Option, none, some, List, map, leb,
  ◌==◌, if◌then◌else◌, length, take, drop, filter, Text, codes, is_digit, is_empty, without_prefix,
}

-- `[a-z0-9]`
abbrev pub is_alnum : ℕ → Bool
is_alnum c = (leb b'a' c && leb c b'z') || is_digit c

abbrev pub is_gap : ℕ → Bool
is_gap c = c == b' ' || c == b'-' || c == b'_'

-- The loop over the title, with its `lastDash`: letters and digits kept, a run of gaps one dash.
unfoldable pub slug_of : Bool → Text → Text
slug_of last_dash [] = []
slug_of last_dash (c ∷ s) =
    let kept = slug_of false s in
    let gap = slug_of true s in
    let dropped = slug_of last_dash s in
    if is_alnum c
    then c ∷ kept
    else (if is_gap c then (if last_dash then dropped else b'-' ∷ gap) else dropped)

-- `out.replace(/^-+|-+$/g, "")`
unfoldable pub front_trimmed : Text → Text
front_trimmed [] = []
front_trimmed (c ∷ s) = let rest = front_trimmed s in if c == b'-' then rest else c ∷ s

unfoldable pub end_trimmed : Text → Text
end_trimmed [] = []
end_trimmed (c ∷ s) =
    let rest = end_trimmed s in if is_empty rest && c == b'-' then [] else c ∷ rest

abbrev pub dash_trimmed : Text → Text
dash_trimmed s = end_trimmed (front_trimmed s)

abbrev pub max_permlink : ℕ
max_permlink = 80

-- `slice(0, 80)` of a longer one, trimmed again.
unfoldable pub shortened : Text → Text
shortened out = if leb (length out) max_permlink then out else dash_trimmed (take max_permlink out)

module _ (to_lower_case : Text → Text) where
  unfoldable pub permlink_for : Text → Text
  permlink_for title = shortened (dash_trimmed (slug_of true (to_lower_case title)))

  -- The author's short link, or the title where it leaves nothing.
  unfoldable pub publish_permlink : Option Text → Text → Text
  publish_permlink given title =
      let short = permlink_for (elim given [ none ↦ [] | some link ↦ link ]) in
      if is_empty short then permlink_for title else short

-- `[a-z0-9-]`
abbrev pub is_mark : ℕ → Bool
is_mark c = is_alnum c || c == b'-'

-- `.replace(/[^a-z0-9-]/g, "-")`
abbrev pub mark_of : ℕ → ℕ
mark_of c = if is_mark c then c else b'-'

-- `.replace(/-+/g, "-")`, behind a dash or not.
unfoldable pub squeezed : Bool → Text → Text
squeezed behind_dash [] = []
squeezed behind_dash (c ∷ s) =
    let rest = squeezed (c == b'-') s in if c == b'-' && behind_dash then rest else c ∷ rest

-- The digits of the time.
unfoldable pub stamp_of : Text → Text
stamp_of iso = filter is_digit iso

abbrev pub bare_parent : Text → Text
bare_parent author = without_prefix (codes "@") (without_prefix (codes "hive:") author)

abbrev pub max_comment_permlink : ℕ
max_comment_permlink = 255

-- The last 255 of a longer one, without dashes in front.
unfoldable pub kept_end : Text → Text
kept_end slug =
    if leb (length slug) max_comment_permlink
    then slug
    else front_trimmed (drop (length slug - max_comment_permlink) slug)

abbrev pub comment_label : Text → Text → Text → Text
comment_label author permlink stamp =
    (codes "re-" ++ bare_parent author ++ codes "-" ++ permlink ++ codes "-") ++ stamp

module _ (to_lower_case : Text → Text) (iso_of : ℕ → Text) where
  unfoldable pub comment_permlink : Text → Text → ℕ → Text
  comment_permlink parent_author parent_permlink now =
      let label = comment_label parent_author parent_permlink (stamp_of (iso_of now)) in
      kept_end (squeezed false (map mark_of (to_lower_case label)))
