-- ===== src/Nodes/Tests.antt =====
-- The first node is silent, the others reply.
use lasse_cash_migration_to.Prelude.{◌≡◌, refl, none, if◌then◌else◌, Text, codes, text_eq}
use lasse_cash_migration_to.Nodes.{Outcome, reply, no_reply, node_at, public_order, magi_fetch}
use lasse_cash_migration_to.Nodes.Failover.{EndsWell, next_preferred, magi_fetch-EndsWell}

abbrev ask : Text → Outcome
ask url = if text_eq url (node_at 0) then no_reply (codes "no response") else reply 200 (codes "{}")

magi_fetch-EndsWell_example :
    EndsWell ask (public_order 0) (magi_fetch ask none 0).0
    × ((magi_fetch ask none 0).1 ≡ next_preferred 0 (magi_fetch ask none 0).0)
magi_fetch-EndsWell_example = magi_fetch-EndsWell ask none 0 refl
