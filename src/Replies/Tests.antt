-- ===== src/Replies/Tests.antt =====
-- A registered reply below one of Hive, which hangs below another, and a call of a tip bot.
use lasse_cash_migration_to.Replies.Bots.{is_link}
use lasse_cash_migration_to.Replies.Bots.{is_image}
use lasse_cash_migration_to.Replies.Bots.{is_footer}
use lasse_cash_migration_to.Replies.Bots.{runs}
use lasse_cash_migration_to.Replies.Bots.{is_commands}
use lasse_cash_migration_to.Prelude.{
  ◌∷◌, [], ◌≡◌, refl, ◌↔◌, true, false, some, List, Text, codes, trim, split, is_space,
}
use lasse_cash_migration_to.Replies.{View, HiveReply, key_of, has, visible_keys, run, grow}
use lasse_cash_migration_to.Replies.Rule.{Shown}
use lasse_cash_migration_to.Replies.Visible.{visible_keys-Shown}
use lasse_cash_migration_to.Replies.Bots.{is_bot_commands_only}

abbrev reply_of : Text → Text → Text → Text → Text → View
reply_of author permlink parent_author parent_permlink text = record {
  author = author;
  permlink = permlink;
  parent_author = parent_author;
  parent_permlink = parent_permlink;
  body = some text;
  body_excerpt = [];
}

abbrev answer : View
answer = reply_of (codes "hive:a") (codes "r1") (codes "hive:b") (codes "r2") (codes "yes")

abbrev quiet : HiveReply
quiet = record {
  view = reply_of (codes "hive:b") (codes "r2") (codes "hive:c") (codes "r3") (codes "why?");
  qualifies = false;
}

abbrev above : HiveReply
above = record {
  view = reply_of (codes "hive:c") (codes "r3") (codes "hive:d") (codes "post") (codes "look");
  qualifies = false;
}

abbrev thread : List HiveReply
thread = above ∷ quiet ∷ []

visible_keys-Shown_example :
    (has (key_of above.view) (visible_keys (answer ∷ []) thread) ≡ true)
    ↔ Shown (answer ∷ []) thread (key_of above.view)
visible_keys-Shown_example = visible_keys-Shown (answer ∷ []) thread (key_of above.view)

-- The second run finds what hangs below the reply that the first run added.
found_in_two_runs : has (key_of above.view) (visible_keys (answer ∷ []) thread) ≡ true
unfolding visible_keys grow run
found_in_two_runs = refl

called_bots : is_bot_commands_only (codes "!BEER !PIZZA 2\nPosted using LasseCash") ≡ true
unfolding is_bot_commands_only split trim is_space is_commands runs is_footer
called_bots = refl

said_more : is_bot_commands_only (codes "!BEER\nthank you all") ≡ false
unfolding is_bot_commands_only split trim is_space is_commands runs is_footer is_image is_link
said_more = refl
