-- ===== src/Replies/Loop.antt =====
-- The loop of `visibleHiveReplies` of api/src/magi-backend.ts: it ends, and then nothing can be added.
use mathlib.Core.List.{Memᴰ}
use mathlib.Core.List.Memᴰ.{head, tail}
use lasse_cash_migration_to.Prelude.{
  text_eq_refl, ◌∷◌, [], ℕ, zero, suc, ◌≤◌, ◌<◌, ◌≡◌, refl, sym, ap, ◌∙◌, subst, ◌⊎◌, inl, inr,
  Bool, true, false, not, ◌||◌, List, arith, Bool-cases, length, filter, All, Text,
}
use lasse_cash_migration_to.Prelude.Members.{All-self}
use lasse_cash_migration_to.Replies.{View, HiveReply, key_of, has, add_if, adds, run, grow}

module _ (registered : List View) (hive : List HiveReply) where
  -- How many replies are not shown.
  abbrev pub hidden : List Text → List HiveReply → ℕ
  hidden keys hs = length (filter (λ h. not (has (key_of h.view) keys)) hs)

  pub hidden-add-le :
      (key : Text) (keys : List Text) (hs : List HiveReply)
      → hidden (key ∷ keys) hs ≤ hidden keys hs
  hidden-add-le key keys [] = omega arith
  hidden-add-le key keys (h ∷ hs) = ground (arith, hidden-add-le key keys hs)

  pub hidden-add-lt :
      (keys : List Text) (h : HiveReply) (hs : List HiveReply)
      → Memᴰ h hs
      → has (key_of h.view) keys ≡ false
      → hidden (key_of h.view ∷ keys) hs < hidden keys hs
  hidden-add-lt keys h [] m e = elim m [ ]
  hidden-add-lt keys h (h' ∷ hs) (head same) e =
      subst (λ z. hidden (key_of h.view ∷ keys) (z ∷ hs) < hidden keys (z ∷ hs)) same
        (ground (arith, text_eq_refl (key_of h.view), hidden-add-le (key_of h.view) keys hs))
  hidden-add-lt keys h (h' ∷ hs) (tail m) e = ground (arith, hidden-add-lt keys h hs m e)

  pub add_if-hidden :
      (keys : List Text) (h : HiveReply) (more : Bool)
      → Memᴰ h hive
      → adds registered hive keys h ≡ more
      → (hidden (add_if more (key_of h.view) keys) hive ≤ hidden keys hive)
        × ((more ≡ false) ⊎ (hidden (add_if more (key_of h.view) keys) hive < hidden keys hive))
  add_if-hidden keys h false m e = (omega arith, inl refl)
  add_if-hidden keys h true m e =
      let less = hidden-add-lt keys h hive m (ground arith) in (omega arith, inr less)

  -- A run that reports growth leaves fewer replies hidden.
  pub run-hidden :
      (todo : List HiveReply) (grew : Bool) (keys : List Text)
      → All (λ h. Memᴰ h hive) todo
      → (hidden (run registered hive todo grew keys).0 hive ≤ hidden keys hive)
        × (((run registered hive todo grew keys).1 ≡ grew)
            ⊎ (hidden (run registered hive todo grew keys).0 hive < hidden keys hive))
  unfolding run
  run-hidden [] grew keys ms = (omega arith, inl refl)
  run-hidden (h ∷ todo) grew keys ms =
      let more = adds registered hive keys h in
      let step = add_if-hidden keys h more ms.0 refl in
      let rest = run-hidden todo (grew || more) (add_if more (key_of h.view) keys) ms.1 in
      ground arith

  -- A run that reports none has added nothing, and nothing could be added.
  pub run-still :
      (todo : List HiveReply) (grew : Bool) (keys : List Text)
      → (run registered hive todo grew keys).1 ≡ false
      → (grew ≡ false)
        × ((run registered hive todo grew keys).0 ≡ keys)
        × All (λ h. adds registered hive keys h ≡ false) todo
  unfolding run
  run-still [] grew keys still = (still, refl, tt)
  run-still (h ∷ todo) grew keys still =
      let more = adds registered hive keys h in
      let (before, same, rest) =
        run-still todo (grew || more) (add_if more (key_of h.view) keys) still in
      let no_more : more ≡ false = ground arith in
      let kept : add_if more (key_of h.view) keys ≡ keys =
        ap (λ b. add_if b (key_of h.view) keys) no_more in
      (
        ground arith,
        same ∙ kept,
        (no_more, subst (λ l. All (λ x. adds registered hive l x ≡ false) todo) kept rest),
      )

  pub add_if-keeps :
      (more : Bool) (key k : Text) (keys : List Text) → Memᴰ k keys → Memᴰ k (add_if more key keys)
  add_if-keeps true key k keys m = tail m
  add_if-keeps false key k keys m = m

  pub run-keeps :
      (todo : List HiveReply) (grew : Bool) (k : Text) (keys : List Text)
      → Memᴰ k keys
      → Memᴰ k (run registered hive todo grew keys).0
  unfolding run
  run-keeps [] grew k keys m = m
  run-keeps (h ∷ todo) grew k keys m =
      let more = adds registered hive keys h in
      run-keeps todo (grew || more) k (add_if more (key_of h.view) keys)
        (add_if-keeps more (key_of h.view) k keys m)

  -- The keys that come out, or those that went in where nothing was added.
  pub grow_cases :
      (fuel : ℕ) (keys : List Text)
      → (((run registered hive hive false keys).1 ≡ true)
          × (grow registered hive (suc fuel) keys
              ≡ grow registered hive fuel (run registered hive hive false keys).0))
        ⊎ (((run registered hive hive false keys).1 ≡ false)
            × (grow registered hive (suc fuel) keys ≡ keys))
  unfolding grow
  grow_cases fuel keys = elim (Bool-cases (run registered hive hive false keys).1) [
    | inl grew ↦ inl (grew, ground arith)
    | inr still ↦
        let (before, same, rest) = run-still hive false keys still in inr (still, rw still same)
  ]

  abbrev pub IsClosed : List Text → Type 0
  IsClosed keys = All (λ h. adds registered hive keys h ≡ false) hive

  -- With more fuel than hidden replies, nothing can be added at the end.
  pub grow-IsClosed :
      (fuel : ℕ) (keys : List Text)
      → hidden keys hive < fuel
      → IsClosed (grow registered hive fuel keys)
  grow-IsClosed zero keys h = absurd (omega arith)
  grow-IsClosed (suc fuel) keys h = elim (grow_cases fuel keys) [
    | inr (still, same) ↦
        let (before, kept, closed) = run-still hive false keys still in
        subst IsClosed (sym same) closed
    | inl (grew, more) ↦
        let (fewer, less) = run-hidden hive false keys (All-self hive) in
        subst IsClosed (sym more)
          (grow-IsClosed fuel (run registered hive hive false keys).0 (ground arith))
  ]

  pub grow-keeps :
      (fuel : ℕ) (k : Text) (keys : List Text)
      → Memᴰ k keys
      → Memᴰ k (grow registered hive fuel keys)
  unfolding grow
  grow-keeps zero k keys m = m
  grow-keeps (suc fuel) k keys m = elim (grow_cases fuel keys) [
    | inr (still, same) ↦ subst (λ l. Memᴰ k l) (sym same) m
    | inl (grew, more) ↦
        subst (λ l. Memᴰ k l) (sym more)
          (grow-keeps fuel k (run registered hive hive false keys).0
            (run-keeps hive false k keys m))
  ]
