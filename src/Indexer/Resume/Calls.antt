-- ===== src/Indexer/Resume/Calls.antt =====
-- One call after another on a fixed history: what a call leaves behind, and what `complete` promises.
use lasse_cash_migration_to.Prelude.{
  All-take, ◌⊎◌, ◌∷◌, ℕ, [], ◌≡◌, refl, sym, ◌∙◌, ap, subst, Bool, true, false, not, ◌&&◌, ◌||◌,
  Option, some, List, take, drop, Bool-cases, inl, inr, ltb, if◌then◌else◌, Text, codes, ◌-◌,
}
use lasse_cash_migration_to.Prelude.Decimal.{value-print, print}
use lasse_cash_migration_to.Indexer.Store.{IndexedTx, IndexStore}
use lasse_cash_migration_to.Indexer.Sync.{
  Walk, walk_head, walk_back, backfill, walk, finish, sync_index, index_page, number_or_zero,
  is_one, done_key, offset_key, resume_at, start_walk,
}
use lasse_cash_migration_to.Indexer.Resume.Walks.{
  Stored, Extends, Stored-Extends, Covers, walk_head-Covers, walk_back-Covers,
}

module _ (store : IndexStore) (history : List IndexedTx) (fetch_page : ℕ → ℕ → List IndexedTx)
    (fixed : (k o : ℕ) → fetch_page k o ≡ take index_page (drop o history)) where
  open store use {State, has, get_meta, set_meta}

  abbrev pub Holds : State → List IndexedTx → Type 0
  Holds = Stored store history fetch_page fixed

  -- Between two calls: every row before the backfill offset is stored, and every row of the history
  -- unless the backfill is still to be done.
  pub record IsResumable (s : State) : Type 0 where
    pub so_far : Holds s (take (number_or_zero (get_meta s offset_key)) history)
    pub all_done : (is_one (get_meta s done_key) ≡ false) ⊎ Holds s history

  -- Setting a meta entry touches no transaction.
  Holds-set_meta :
      (s : State) (k v : Text) (txs : List IndexedTx) → Holds s txs → Holds (set_meta s k v) txs
  Holds-set_meta s k v [] h = tt
  Holds-set_meta s k v (t ∷ txs) h =
      (store.set_meta-has s k v t.id ∙ h.0, Holds-set_meta s k v txs h.1)

  abbrev W : Type 0
  W = Walk store fetch_page

  -- What a walk leaves behind for the end of the call.
  record Leaves (s : State) (w : W) : Type 0 where
    so_far : Holds w.state (take (number_or_zero (get_meta w.state offset_key)) history)
    whole : w.reached_end ≡ true → Holds w.state history
    same_done : get_meta w.state done_key ≡ get_meta s done_key
    keeps : (txs : List IndexedTx) → Holds s txs → Holds w.state txs

  abbrev head_of : ℕ → State → W
  head_of n s = walk_head store fetch_page n (start_walk store fetch_page s)

  head-Covers :
      (n : ℕ) (s : State)
      → Covers store history fetch_page fixed (head_of n s)
        × Extends store history fetch_page fixed s (head_of n s).state
  head-Covers n s =
      walk_head-Covers store history fetch_page fixed n (start_walk store fetch_page s)
        (record { before = tt; whole = λ e. cc })

  head-Leaves : (n : ℕ) (s : State) → IsResumable s → Leaves s (head_of n s)
  head-Leaves n s r =
      let (c, e) = head-Covers n s in
      record {
        so_far =
            subst (λ (m : Option Text). Holds (head_of n s).state (take (number_or_zero m) history))
              (sym (e.same_meta offset_key))
              (Stored-Extends store history fetch_page fixed s (head_of n s).state _ e r.so_far);
        whole = c.whole;
        same_done = e.same_meta done_key;
        keeps =
            λ txs h. Stored-Extends store history fetch_page fixed s (head_of n s).state txs e h;
      }

  -- The backfill starts at an offset before which every row is stored.
  resume_at-Holds :
      (s : State) (stored offset : ℕ)
      → Holds s (take stored history)
      → Holds s (take offset history)
      → Holds s (take (resume_at store fetch_page stored offset) history)
  resume_at-Holds s stored offset h k = elim (Bool-cases (ltb stored offset)) [
    | inl behind ↦ rw behind k
    | inr ahead ↦ rw ahead h
  ]

  backfill-Leaves :
      (n : ℕ) (s : State) (w : W)
      → Covers store history fetch_page fixed w
      → Leaves s w
      → Leaves s (backfill store fetch_page n w)
  unfolding backfill
  backfill-Leaves n s w c l =
      let start =
        resume_at store fetch_page (number_or_zero (get_meta w.state offset_key)) w.offset in
      let w0 : W = record w { offset = start } in
      let (c', e) = walk_back-Covers store history fetch_page fixed (n - w.pages) w0 (record {
        before =
            resume_at-Holds w.state (number_or_zero (get_meta w.state offset_key)) w.offset l.so_far
              c.before;
        whole = c.whole;
      }) in
      let w' = walk_back store fetch_page (n - w.pages) w0 in
      let written : get_meta (set_meta w'.state offset_key (print w'.offset)) offset_key
          ≡ some (print w'.offset) =
        store.set_meta-meta w'.state offset_key (print w'.offset) offset_key in
      record {
        so_far =
            subst
              (λ (k : ℕ). Holds (set_meta w'.state offset_key (print w'.offset)) (take k history))
              (sym (ap number_or_zero written ∙ value-print w'.offset))
              (Holds-set_meta w'.state offset_key (print w'.offset) (take w'.offset history)
                c'.before);
        whole = λ r. Holds-set_meta w'.state offset_key (print w'.offset) history (c'.whole r);
        same_done =
            store.set_meta-meta w'.state offset_key (print w'.offset) done_key
            ∙ e.same_meta done_key
            ∙ l.same_done;
        keeps = λ txs h.
            Holds-set_meta w'.state offset_key (print w'.offset) txs (
              Stored-Extends store history fetch_page fixed w.state w'.state txs e (l.keeps txs h));
      }

  walk-Leaves :
      (n : ℕ) (b : Bool) (s : State) → IsResumable s → Leaves s (walk store fetch_page n b s)
  unfolding walk
  walk-Leaves n b s r = elim (Bool-cases (not b && not (head_of n s).reached_end)) [
    | inl open_end ↦
        let e : walk store fetch_page n b s ≡ backfill store fetch_page n (head_of n s) =
          rw open_end in
        subst (Leaves s) (sym e)
          (backfill-Leaves n s (head_of n s) (head-Covers n s).0 (head-Leaves n s r))
    | inr closed ↦
        let e : walk store fetch_page n b s ≡ head_of n s = rw closed in
        subst (Leaves s) (sym e) (head-Leaves n s r)
  ]

  -- A state in which everything is stored is resumable.
  whole-IsResumable : (s : State) → Holds s history → IsResumable s
  whole-IsResumable s h = record {
    so_far = All-take (λ t. has s t.id ≡ true) _ history h;
    all_done = inr h;
  }

  done_whole : (s : State) → is_one (get_meta s done_key) ≡ true → IsResumable s → Holds s history
  done_whole s d r = elim r.all_done [ inl open_end ↦ cc | inr all ↦ all ]

  -- With the flag as before, what is resumable stays so.
  same_done-IsResumable : (s : State) (w : W) → IsResumable s → Leaves s w → IsResumable w.state
  same_done-IsResumable s w r l = record {
    so_far = l.so_far;
    all_done = elim r.all_done [
      | inl open_end ↦ inl (ap is_one l.same_done ∙ open_end)
      | inr all ↦ inr (l.keeps history all)
    ];
  }

  abbrev Ends : State → State → Bool → Type 0
  Ends s s' complete = IsResumable s' × (complete ≡ true → Holds s' history)

  -- The end of a call, by the two flags: the mark is set only once the whole history is stored.
  finish_cases :
      (reached_end backfilled : Bool) (s : State) (w : W)
      → w.reached_end ≡ reached_end
      → is_one (get_meta s done_key) ≡ backfilled
      → IsResumable s
      → Leaves s w
      → Ends s
          (if reached_end && not backfilled then set_meta w.state done_key (codes "1") else w.state)
          (reached_end || backfilled)
  finish_cases true false s w e d r l =
      let h = Holds-set_meta w.state done_key (codes "1") history (l.whole e) in
      (whole-IsResumable (set_meta w.state done_key (codes "1")) h, λ _. h)
  finish_cases true true s w e d r l = (same_done-IsResumable s w r l, λ _. l.whole e)
  finish_cases false true s w e d r l =
      (same_done-IsResumable s w r l, λ _. l.keeps history (done_whole s d r))
  finish_cases false false s w e d r l = (same_done-IsResumable s w r l, λ c. cc)

  ends :
      (n : ℕ) (s : State)
      → IsResumable s
      → let (s', out) = sync_index store fetch_page n s in Ends s s' out.complete
  unfolding sync_index finish
  ends n s r =
      finish_cases (walk store fetch_page n (is_one (get_meta s done_key)) s).reached_end
        (is_one (get_meta s done_key)) s (walk store fetch_page n (is_one (get_meta s done_key)) s)
        refl refl r (walk-Leaves n (is_one (get_meta s done_key)) s r)

  -- On a history that stays as it is, a call from a resumable state leaves a resumable state.
  pub sync_index-IsResumable :
      (max_pages : ℕ) (s : State)
      → IsResumable s
      → IsResumable (sync_index store fetch_page max_pages s).0
  sync_index-IsResumable n s r = (ends n s r).0

  -- On a history that stays as it is, when a call from a resumable state reports `complete`, every
  -- transaction of the history is stored.
  pub sync_index-complete :
      (max_pages : ℕ) (s : State)
      → IsResumable s
      → (sync_index store fetch_page max_pages s).1.complete ≡ true
      → Holds (sync_index store fetch_page max_pages s).0 history
  sync_index-complete n s r c = (ends n s r).1 c
