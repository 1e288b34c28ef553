-- ===== src/Replies/Visible.antt =====
-- The keys that `visibleHiveReplies` of api/src/magi-backend.ts shows, against the rule itself.
use mathlib.Core.List.{Memᴰ}
use mathlib.Core.List.Memᴰ
use lasse_cash_migration_to.Prelude.{
  text_eq_refl, length-filter-le, ℕ, zero, suc, ◌≡◌, sym, subst, ◌↔◌, inl, inr, true, false, not,
  List, map, arith, length, filter, any, Text, text_eq,
}
use lasse_cash_migration_to.Prelude.Members.{
  Mem-any, All-Mem, All-self, Mem-map, map-Mem, Mem-filter, filter-Mem, append-Mem,
}
use lasse_cash_migration_to.Replies.{
  View, HiveReply, key_of, parent_key, has, first_keys, hangs_below, adds, run, grow, visible_keys,
}
use lasse_cash_migration_to.Replies.Rule.{
  Shown, Shown.on_chain, Shown.by_author, Shown.above_registered, Shown.above_shown, IsSound,
  run-IsSound, has-Mem, Mem-has,
}
use lasse_cash_migration_to.Replies.Loop.{IsClosed, grow_cases, grow-IsClosed, grow-keeps}

module _ (registered : List View) (hive : List HiveReply) where
  grow-IsSound :
      (fuel : ℕ) (keys : List Text)
      → IsSound registered hive keys
      → IsSound registered hive (grow registered hive fuel keys)
  unfolding grow
  grow-IsSound zero keys sound = sound
  grow-IsSound (suc fuel) keys sound = elim (grow_cases registered hive fuel keys) [
    | inr (still, same) ↦ subst (IsSound registered hive) (sym same) sound
    | inl (grew, more) ↦ subst (IsSound registered hive) (sym more) (
        grow-IsSound fuel (run registered hive hive false keys).0
          (run-IsSound registered hive hive false keys (All-self hive) sound))
  ]

  first_keys-IsSound : IsSound registered hive (first_keys registered hive)
  first_keys-IsSound key m =
      let own = map (λ h. key_of h.view) (filter (λ h. h.qualifies) hive) in
      elim (append-Mem key own (map key_of registered) m) [
        | inl left ↦
            let (h, mh, e) =
              map-Mem (λ h. key_of h.view) key (filter (λ h. h.qualifies) hive) left in
            let (mem, qualifies) = filter-Mem (λ h. h.qualifies) h hive mh in
            subst (Shown registered hive) (sym e) (by_author h mem qualifies)
        | inr right ↦
            let (c, mc, e) = map-Mem key_of key registered right in
            subst (Shown registered hive) (sym e) (on_chain c mc)
      ]

  -- A closed set of keys that has the first ones has every key that the rule shows.
  closed-Shown :
      (keys : List Text) (key : Text)
      → ((k : Text) → Memᴰ k (first_keys registered hive) → Memᴰ k keys)
      → IsClosed registered hive keys
      → Shown registered hive key
      → has key keys ≡ true
  closed-Shown keys key first closed (on_chain c m) = Mem-has (key_of c) keys (
      first (key_of c) (
        Memᴰ.append_right (map (λ h. key_of h.view) (filter (λ h. h.qualifies) hive))
          (Mem-map key_of c registered m)))
  closed-Shown keys key first closed (by_author h m qualifies) = Mem-has (key_of h.view) keys (
      first (key_of h.view) (
        Memᴰ.append_left (map key_of registered) (
          Mem-map (λ h. key_of h.view) h (filter (λ h. h.qualifies) hive)
            (Mem-filter (λ h. h.qualifies) h hive m qualifies))))
  closed-Shown keys key first closed (above_registered c h mc mh e) =
      let still = All-Mem (λ h. adds registered hive keys h ≡ false) h hive closed mh in
      let found : any (λ c. text_eq (parent_key c) (key_of h.view)) registered ≡ true =
        Mem-any (λ c. text_eq (parent_key c) (key_of h.view)) c registered mc
          (subst (λ k. text_eq (parent_key c) k ≡ true) e (text_eq_refl (parent_key c))) in
      ground arith
  closed-Shown keys key first closed (above_shown o h mo mh shown e) =
      let still = All-Mem (λ h. adds registered hive keys h ≡ false) h hive closed mh in
      let below : has (key_of o.view) keys ≡ true =
        closed-Shown keys (key_of o.view) first closed shown in
      let same : text_eq (parent_key o.view) (key_of h.view) ≡ true =
        subst (λ k. text_eq (parent_key o.view) k ≡ true) e (text_eq_refl (parent_key o.view)) in
      let found : any (hangs_below registered hive (key_of h.view) keys) hive ≡ true =
        Mem-any (hangs_below registered hive (key_of h.view) keys) o hive mo (ground arith) in
      ground arith

  -- The loop ends with exactly the keys that the rule shows: those on chain, those whose author
  -- qualifies, and the parent of every shown reply, if that parent is a reply itself.
  pub visible_keys-Shown :
      (key : Text) → (has key (visible_keys registered hive) ≡ true) ↔ Shown registered hive key
  unfolding visible_keys
  visible_keys-Shown key = (
    (λ h.
        grow-IsSound (suc (length hive)) (first_keys registered hive) first_keys-IsSound key
          (has-Mem key (grow registered hive (suc (length hive)) (first_keys registered hive)) h)),
    λ shown.
        closed-Shown (grow registered hive (suc (length hive)) (first_keys registered hive)) key
          (λ k m. grow-keeps registered hive (suc (length hive)) k (first_keys registered hive) m)
          (grow-IsClosed registered hive (suc (length hive)) (first_keys registered hive) (
            omega (
              arith,
              length-filter-le (λ h. not (has (key_of h.view) (first_keys registered hive))) hive,
            )))
          shown,
  )
