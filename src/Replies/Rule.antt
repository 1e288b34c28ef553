-- ===== src/Replies/Rule.antt =====
-- The rule of `visibleHiveReplies` of api/src/magi-backend.ts, and that the loop keeps to it.
use mathlib.Core.List.{Memᴰ}
use mathlib.Core.List.Memᴰ
use mathlib.Core.List.Memᴰ.{head, tail}
use lasse_cash_migration_to.Prelude.{
  text_eq→eq, text_eq_refl, ◌∷◌, [], ◌≡◌, refl, sym, subst, inl, inr, Bool, true, false, ◌||◌, List,
  arith, Bool-cases, any, All, Text, text_eq,
}
use lasse_cash_migration_to.Prelude.Members.{any-Mem, Mem-any}
use lasse_cash_migration_to.Replies.{
  View, HiveReply, key_of, parent_key, has, add_if, hangs_below, has_visible_child, adds, run,
}

pub has-Mem : (key : Text) (keys : List Text) → has key keys ≡ true → Memᴰ key keys
has-Mem key keys h =
    let (k, m, same) = any-Mem (text_eq key) keys h in Memᴰ.cast (text_eq→eq key k same) m

pub Mem-has : (key : Text) (keys : List Text) → Memᴰ key keys → has key keys ≡ true
Mem-has key keys m = Mem-any (text_eq key) key keys m (text_eq_refl key)

-- The rule, as an inductive definition: what is on chain is shown, what qualifies is shown, and so is
-- the parent of what is shown.
module _ (registered : List View) (hive : List HiveReply) where
  pub data Shown : Text → Type 0 where
    on_chain : (c : View) → Memᴰ c registered → Shown (key_of c)
    by_author : (h : HiveReply) → Memᴰ h hive → h.qualifies ≡ true → Shown (key_of h.view)
    above_registered :
        (c : View) (h : HiveReply)
        → Memᴰ c registered
        → Memᴰ h hive
        → parent_key c ≡ key_of h.view
        → Shown (key_of h.view)
    above_shown :
        (o h : HiveReply)
        → Memᴰ o hive
        → Memᴰ h hive
        → Shown (key_of o.view)
        → parent_key o.view ≡ key_of h.view
        → Shown (key_of h.view)

  abbrev pub IsSound : List Text → Type 0
  IsSound keys = (key : Text) → Memᴰ key keys → Shown key

  pub child-Shown :
      (keys : List Text) (h : HiveReply)
      → IsSound keys
      → Memᴰ h hive
      → has_visible_child registered hive (key_of h.view) keys ≡ true
      → Shown (key_of h.view)
  child-Shown keys h sound m found =
      elim (Bool-cases (any (λ c. text_eq (parent_key c) (key_of h.view)) registered)) [
        | inl above ↦
            let (c, mc, same) =
              any-Mem (λ c. text_eq (parent_key c) (key_of h.view)) registered above in
            above_registered c h mc m (text_eq→eq (parent_key c) (key_of h.view) same)
        | inr none_above ↦
            let (o, mo, both) =
              any-Mem (hangs_below registered hive (key_of h.view) keys) hive (ground arith) in
            let shown : has (key_of o.view) keys ≡ true = ground arith in
            let same : text_eq (parent_key o.view) (key_of h.view) ≡ true = ground arith in
            above_shown o h mo m (sound (key_of o.view) (has-Mem (key_of o.view) keys shown))
              (text_eq→eq (parent_key o.view) (key_of h.view) same)
      ]

  pub add_if-IsSound :
      (keys : List Text) (h : HiveReply) (more : Bool)
      → IsSound keys
      → Memᴰ h hive
      → adds registered hive keys h ≡ more
      → IsSound (add_if more (key_of h.view) keys)
  add_if-IsSound keys h false sound m e key k = sound key k
  add_if-IsSound keys h true sound m e key (tail k) = sound key k
  add_if-IsSound keys h true sound m e key (head same) =
      subst Shown (sym same) (child-Shown keys h sound m (ground arith))

  pub run-IsSound :
      (todo : List HiveReply) (grew : Bool) (keys : List Text)
      → All (λ h. Memᴰ h hive) todo
      → IsSound keys
      → IsSound (run registered hive todo grew keys).0
  unfolding run
  run-IsSound [] grew keys ms sound = sound
  run-IsSound (h ∷ todo) grew keys ms sound =
      let more = adds registered hive keys h in
      run-IsSound todo (grew || more) (add_if more (key_of h.view) keys) ms.1
        (add_if-IsSound keys h more sound ms.0 refl)
