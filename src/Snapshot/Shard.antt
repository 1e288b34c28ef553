-- ===== src/Snapshot/Shard.antt =====
-- The shard of a name, where it is looked up and where the shards are written.
use lasse_cash_migration_to.Prelude.{
  ◌∷◌, ◌++◌, [], ℕ, ◌-◌, ◌≡◌, refl, append-nil, inl, inr, arith, any, ◌==◌, Bool-cases, length,
  replicate, Text,
}
use lasse_cash_migration_to.Snapshot.{
  shard_of, migtree_shard, is_first_char, is_second_char, index_byte, is_found, safe_at, fill_shard,
}

-- `IndexByte` finds what `includes` says is there.
index_byte-any : (s : Text) (c : ℕ) → is_found (index_byte s c) ≡ any (λ d. c == d) s
unfolding index_byte
index_byte-any [] c = refl
index_byte-any (d ∷ s) c = ground (arith, index_byte-any s c)

safe_first : (c : ℕ) → is_found (index_byte (safe_at 0) c) ≡ is_first_char c
safe_first c = index_byte-any (safe_at 0) c

safe_second : (c : ℕ) → is_found (index_byte (safe_at 1) c) ≡ is_second_char c
safe_second c = index_byte-any (safe_at 1) c

-- From the third character on, nothing is written.
fill_shard-ends : (name out : Text) → fill_shard 2 name out ≡ out
unfolding fill_shard
fill_shard-ends [] out = refl
fill_shard-ends (c ∷ name) out = refl

-- The shard that the Go loop writes is the one looked up, filled up with `_` to two characters.
pub shard_of-migtree_shard :
    (name : Text) → migtree_shard name ≡ shard_of name ++ replicate (2 - length name) b'_'
unfolding shard_of migtree_shard fill_shard
shard_of-migtree_shard [] = refl
shard_of-migtree_shard (c ∷ []) = elim (Bool-cases (is_first_char c)) [
  | inl kept ↦ rw (safe_first c, kept) refl
  | inr cut ↦ rw (safe_first c, cut) refl
]
shard_of-migtree_shard (c ∷ d ∷ name) =
    let full : 2 - length (c ∷ d ∷ name) ≡ 0 = omega arith in
    rw (full, append-nil, fill_shard-ends)
      (elim (Bool-cases (is_first_char c)) [
        | inl kept ↦ elim (Bool-cases (is_second_char d)) [
          | inl kept' ↦ rw (safe_first c, safe_second d, kept, kept') refl
          | inr cut' ↦ rw (safe_first c, safe_second d, kept, cut') refl
        ]
        | inr cut ↦ elim (Bool-cases (is_second_char d)) [
          | inl kept' ↦ rw (safe_first c, safe_second d, cut, kept') refl
          | inr cut' ↦ rw (safe_first c, safe_second d, cut, cut') refl
        ]
      ])
