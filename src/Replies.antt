-- ===== src/Replies.antt =====
-- api/src/magi-backend.ts: `visibleHiveReplies`, which replies of Hive are shown below a post.
pub mod Bots
pub mod Rule
pub mod Loop
pub mod Visible
mod Tests
use lasse_cash_migration_to.Replies.Bots.{is_bot_commands_only}
use lasse_cash_migration_to.Prelude.{
  ◌∷◌, ◌++◌, [], ℕ, zero, suc, ◌+◌, ◌-◌, ◌*◌, ◌/◌, ◌%◌, ◌^◌, ◌≤◌, ◌<◌, ◌≡◌, refl, sym, ap, ◌∙◌,
  subst, ◌↔◌, ◌⊎◌, inl, inr, Bool, true, false, not, ◌&&◌, ◌||◌, Option, none, some, List, map,
  reverse, arith, ltb, leb, ◌==◌, if◌then◌else◌, Bool-cases, Result, ok, err, ◌>>=◌, length, take,
  drop, filter, find?, all, any, last?, All, ℤ, pos, negsuc, neg_ℕ, nat_abs, ltb_ℤ, eqb_ℤ, is_neg,
  ◌+ℤ◌, ◌-ℤ◌, ◌*ℤ◌, ◌≤ℤ◌, quot, Text, codes, text_eq, is_digit, trim, split, starts_with, pad_start,
  replicate, is_space, Option-cases, int_laws,
}

-- What the rule reads of a reply: its key, its parent's, and its text.
pub record View : Type 0 where
  pub author : Text
  pub permlink : Text
  pub parent_author : Text
  pub parent_permlink : Text
  pub body : Option Text
  pub body_excerpt : Text

pub record HiveReply : Type 0 where
  pub view : View
  pub qualifies : Bool

-- A reply as it is returned, with its two flags.
pub record ShownReply : Type 0 where
  pub view : View
  pub shown_for_context : Bool
  pub bot_commands : Bool

abbrev pub key_of : View → Text
key_of v = v.author ++ b'/' ∷ v.permlink

abbrev pub parent_key : View → Text
parent_key v = v.parent_author ++ b'/' ∷ v.parent_permlink

-- `text`
abbrev pub text_of : View → Text
text_of v = elim v.body [ none ↦ v.body_excerpt | some body ↦ body ]

-- `Set.prototype.has`, on a list.
abbrev pub has : Text → List Text → Bool
has key keys = any (text_eq key) keys

-- The keys that are shown before any parent is imported.
abbrev pub first_keys : List View → List HiveReply → List Text
first_keys registered hive =
    map (λ h. key_of h.view) (filter (λ h. h.qualifies) hive) ++ map key_of registered

-- `add`, where it is called.
abbrev pub add_if : Bool → Text → List Text → List Text
add_if true key keys = key ∷ keys
add_if false key keys = keys

module _ (registered : List View) (hive : List HiveReply) where
  abbrev pub hangs_below : Text → List Text → HiveReply → Bool
  hangs_below key visible o = has (key_of o.view) visible && text_eq (parent_key o.view) key

  abbrev pub has_visible_child : Text → List Text → Bool
  has_visible_child key visible =
      any (λ c. text_eq (parent_key c) key) registered || any (hangs_below key visible) hive

  -- Does the loop add this reply?
  abbrev pub adds : List Text → HiveReply → Bool
  adds visible h = not (has (key_of h.view) visible) && has_visible_child (key_of h.view) visible

  -- One run of the inner loop: the keys, and whether any was added.
  unfoldable pub run : List HiveReply → Bool → List Text → List Text × Bool
  run [] grew visible = (visible, grew)
  run (h ∷ todo) grew visible =
      let more = adds visible h in run todo (grew || more) (add_if more (key_of h.view) visible)

  -- The outer loop: each run but the last adds a key of `hive`, so that one run more than its length is
  -- enough fuel.
  unfoldable pub grow : ℕ → List Text → List Text
  grow zero visible = visible
  grow (suc fuel) visible =
      let (keys, grew) = run hive false visible in
      let rest = grow fuel keys in if grew then rest else keys

  unfoldable pub visible_keys : List Text
  visible_keys = grow (suc (length hive)) (first_keys registered hive)

  abbrev pub for_reader : HiveReply → ShownReply
  for_reader h = record { view = h.view; shown_for_context = not h.qualifies; bot_commands = false }

  abbrev pub talk_shown : List Text → List ShownReply
  talk_shown visible = map for_reader (filter (λ h. has (key_of h.view) visible) hive)

abbrev pub flagged : HiveReply → ShownReply
flagged h = record { view = h.view; shown_for_context = false; bot_commands = true }

abbrev pub bots_shown : List HiveReply → List Text → List ShownReply
bots_shown bots visible = map flagged (filter (λ h. has (parent_key h.view) visible) bots)

-- `visibleHiveReplies`
unfoldable pub visible_hive_replies : List View → List HiveReply → List ShownReply
visible_hive_replies registered hive_all =
    let hive = filter (λ h. not (is_bot_commands_only (text_of h.view))) hive_all in
    let bots = filter (λ h. is_bot_commands_only (text_of h.view)) hive_all in
    let visible = visible_keys registered hive in
    talk_shown registered hive visible ++ bots_shown bots visible
