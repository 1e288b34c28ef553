-- ===== src/Snapshot/Tests.antt =====
-- Names of one character and of more.
use lasse_cash_migration_to.Prelude.{◌++◌, ◌-◌, ◌≡◌, refl, length, replicate, codes}
use lasse_cash_migration_to.Snapshot.{shard_of, migtree_shard, index_byte, fill_shard}
use lasse_cash_migration_to.Snapshot.Shard.{shard_of-migtree_shard}

shard_of-migtree_shard_example :
    migtree_shard (codes "x") ≡ shard_of (codes "x") ++ replicate (2 - length (codes "x")) b'_'
shard_of-migtree_shard_example = shard_of-migtree_shard (codes "x")

-- Unlike the shards that are served, a name of one character has a shard of one character.
one_char : (shard_of (codes "x") ≡ codes "x") × (migtree_shard (codes "x") ≡ codes "x_")
unfolding shard_of migtree_shard fill_shard index_byte
one_char = (refl, refl)

long_name :
    (shard_of (codes "A-a-r0n") ≡ codes "_-") × (migtree_shard (codes "A-a-r0n") ≡ codes "_-")
unfolding shard_of migtree_shard fill_shard index_byte
long_name = (refl, refl)
