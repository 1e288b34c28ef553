-- ===== src/Client/Pool/Shares.antt =====
-- The shares in the replay of `poolTrades` of api/src/client.ts.
use lasse_cash_migration_to.Prelude.{
  All-map, text_eq→eq, bind-ok, ok-injects, ◌∷◌, [], suc, ◌≤◌, ◌≡◌, refl, sym, ap, ◌∙◌, subst, inl,
  inr, Bool, ◌&&◌, List, arith, if◌then◌else◌, Bool-cases, Result, ok, ◌>>=◌, All, ℤ, pos, ◌+ℤ◌,
  ◌-ℤ◌, Text, codes, text_eq, trim, split,
}
use lasse_cash_migration_to.Prelude.Decimal.{print}
use lasse_cash_migration_to.Ledger.Calls.{PoolOp}
use lasse_cash_migration_to.Market.Entry.{canonical_action}
use lasse_cash_migration_to.Amount.{from_units}
use lasse_cash_migration_to.Prelude.BigInts.{print_ℤ}
use lasse_cash_migration_to.Client.Pool.{
  Engine, ChainInfo, Swap, Replay, Thrown, get, set, tranche_key, empty_pool, deposited, withdrawn,
  close_tranche, add_liquidity, add_given, add_amount, add_quote, add_quoted, pay_out, pay_lc,
  remove_liquidity, swap, swap_amount, take_swap, replay_op, replay_ops, or_throw, units, argument,
  hbd_taken, shares_minted, is_positive_ℤ, text_at, swapped,
}
use lasse_cash_migration_to.Client.Pool.Tranches.{
  sum_shares, IsOpened, sum-set, sum-delete, All-set, All-delete, get-set_same, get-set-le,
  fresh_key,
}

-- The pool's shares are those of the open tranches.
abbrev pub IsBalanced : Replay → Type 0
IsBalanced st =
    (st.total_shares ≡ sum_shares st.tranche_shares) × All (IsOpened st.next_id) st.tranche_shares

deposited-IsBalanced :
    (engine : Engine) (info : ChainInfo) (op : PoolOp) (is_first : Bool) (d_lc d_hbd minted : ℤ)
    (st : Replay)
    → IsBalanced st
    → IsBalanced (deposited engine info op is_first d_lc d_hbd minted st)
deposited-IsBalanced engine info op is_first d_lc d_hbd minted st (total, opened) =
    let id = suc (get 0 op.signer st.next_id) in
    let key = tranche_key op.signer (print id) in
    let next_id = set op.signer id st.next_id in
    let own : id ≤ get 0 op.signer next_id = omega (arith, get-set_same op.signer id st.next_id) in
    let grown =
      All-map st.tranche_shares
        (λ entry (s, i, e, below).
          (s, i, e, omega (arith, below, get-set-le op.signer s id st.next_id (omega arith))))
        opened in
    (
      ap (λ t. t +ℤ minted) total
          ∙ sym (
              sum-set key minted st.tranche_shares
                (All-map st.tranche_shares (fresh_key op.signer st.next_id) opened)),
      All-set (IsOpened next_id) key minted st.tranche_shares (op.signer, id, refl, own)
          (λ k same. (op.signer, id, sym (text_eq→eq key k same), own)) grown,
    )

withdrawn-IsBalanced :
    (engine : Engine) (info : ChainInfo) (op : PoolOp) (key : Text) (out_lc out_hbd : ℤ)
    (st : Replay)
    → IsBalanced st
    → IsBalanced
        (withdrawn engine info op key (get (pos 0) key st.tranche_shares) out_lc out_hbd st)
withdrawn-IsBalanced engine info op key out_lc out_hbd st (total, opened) = (
  ap (λ t. t -ℤ get (pos 0) key st.tranche_shares) total ∙ sym (sum-delete key st.tranche_shares),
  All-delete (IsOpened st.next_id) key st.tranche_shares opened,
)

module _ (engine : Engine) (info : ChainInfo) where
  -- A step that ends well leaves the shares balanced.
  abbrev Keeps : Result Thrown Replay → Type 0
  Keeps r = (st' : Replay) → r ≡ ok st' → IsBalanced st'

  Keeps-ok : (st : Replay) → IsBalanced st → Keeps (ok st)
  Keeps-ok st balanced st' h = subst IsBalanced (ok-injects st st' h) balanced

  Keeps-bind {ℓ} :
      {A : Type ℓ} (r : Result Thrown A) (f : A → Result Thrown Replay)
      → ((a : A) → Keeps (f a))
      → Keeps (r >>= f)
  Keeps-bind r f keeps st' h = let (a, e, h') = bind-ok r f st' h in keeps a st' h'

  add_liquidity-Keeps :
      (op : PoolOp) (f : List Text) (st : Replay)
      → IsBalanced st
      → Keeps (add_liquidity engine info op f st)
  unfolding add_liquidity
  add_liquidity-Keeps op f st balanced =
      Keeps-bind (argument f 0) (add_given engine info op f st) (λ given.
        Keeps-bind (units (from_units given)) (add_amount engine info op f st) (λ d_lc.
          Keeps-bind
            (or_throw (
              engine.estimate_liquidity (print_ℤ d_lc) (print_ℤ st.lc) (print_ℤ st.hbd)
                (print_ℤ st.total_shares)))
            (add_quote engine info op f d_lc st)
            (λ q.
              Keeps-bind (hbd_taken engine info f q) (add_quoted engine info op f d_lc st q)
                (λ d_hbd.
                  Keeps-bind (shares_minted engine info d_lc q)
                    (λ minted.
                      ok (deposited engine info op q.is_first_deposit d_lc d_hbd minted st))
                    (λ minted.
                      Keeps-ok (deposited engine info op q.is_first_deposit d_lc d_hbd minted st) (
                        deposited-IsBalanced engine info op q.is_first_deposit d_lc d_hbd minted st
                          balanced))))))

  close_tranche-Keeps :
      (op : PoolOp) (key : Text) (st : Replay)
      → IsBalanced st
      → Keeps (close_tranche engine info op key (get (pos 0) key st.tranche_shares) st)
  close_tranche-Keeps op key st balanced =
      let held = get (pos 0) key st.tranche_shares in
      Keeps-bind
        (or_throw (
          engine.estimate_withdraw (print_ℤ held) (print_ℤ st.total_shares) (print_ℤ st.lc)
            (print_ℤ st.hbd)))
        (pay_out engine info op key held st)
        (λ w. Keeps-bind (units w.lc) (pay_lc engine info op key held st w) (λ out_lc.
          Keeps-bind (units w.hbd)
            (λ out_hbd. ok (withdrawn engine info op key held out_lc out_hbd st))
            (λ out_hbd.
              Keeps-ok (withdrawn engine info op key held out_lc out_hbd st)
                (withdrawn-IsBalanced engine info op key out_lc out_hbd st balanced))))

  remove_liquidity-Keeps :
      (op : PoolOp) (f : List Text) (st : Replay)
      → IsBalanced st
      → Keeps (remove_liquidity engine info op f st)
  unfolding remove_liquidity
  remove_liquidity-Keeps op f st balanced =
      let key = tranche_key op.signer (trim (text_at f 0)) in
      elim (Bool-cases (is_positive_ℤ (get (pos 0) key st.tranche_shares))) [
        | inl held ↦ rw held (close_tranche-Keeps op key st balanced)
        | inr unknown ↦ rw unknown (Keeps-ok st balanced)
      ]

  take_swap-Keeps :
      (op : PoolOp) (selling : Bool) (amount_in : ℤ) (st : Replay)
      → IsBalanced st
      → (q : Swap) → Keeps (take_swap engine info op selling amount_in st q)
  take_swap-Keeps op selling amount_in st balanced q = elim (Bool-cases q.ok) [
    | inl fair ↦ rw fair (
        Keeps-bind (units q.amount_out)
          (λ out. ok (swapped engine info op selling amount_in out q.amount_out st))
          (λ out. Keeps-ok (swapped engine info op selling amount_in out q.amount_out st) balanced))
    | inr refused ↦ rw refused (Keeps-ok st balanced)
  ]

  swap_amount-Keeps :
      (op : PoolOp) (selling : Bool) (st : Replay)
      → IsBalanced st
      → (amount_in : ℤ) → Keeps (swap_amount engine info op selling st amount_in)
  swap_amount-Keeps op selling st balanced amount_in =
      elim (Bool-cases (is_positive_ℤ amount_in && is_positive_ℤ st.lc && is_positive_ℤ st.hbd)) [
        | inl moves ↦ rw moves (
            Keeps-bind
              (or_throw (
                engine.estimate_swap (print_ℤ (if selling then st.lc else st.hbd))
                  (print_ℤ (if selling then st.hbd else st.lc)) (print_ℤ amount_in)))
              (take_swap engine info op selling amount_in st)
              (take_swap-Keeps op selling amount_in st balanced))
        | inr empty ↦ rw empty (Keeps-ok st balanced)
      ]

  swap-Keeps :
      (op : PoolOp) (f : List Text) (st : Replay) → IsBalanced st → Keeps (swap engine info op f st)
  unfolding swap
  swap-Keeps op f st balanced =
      let selling = text_eq (canonical_action op.action) (codes "swap_lassecash_hbd") in
      Keeps-bind (argument f 0) (swap_amount engine info op selling st)
        (swap_amount-Keeps op selling st balanced)

  replay_op-Keeps :
      (op : PoolOp) (st : Replay) → IsBalanced st → Keeps (replay_op engine info op st)
  replay_op-Keeps op st balanced =
      let f = split b'|' op.payload in
      elim (Bool-cases (text_eq op.action (codes "add_liquidity"))) [
        | inl adds ↦ rw adds (add_liquidity-Keeps op f st balanced)
        | inr other ↦ elim (Bool-cases (text_eq op.action (codes "remove_liquidity"))) [
          | inl removes ↦ rw (other, removes) (remove_liquidity-Keeps op f st balanced)
          | inr swaps ↦ rw (other, swaps) (swap-Keeps op f st balanced)
        ]
      ]

  replay_ops-Keeps :
      (ops : List PoolOp) (st : Replay) → IsBalanced st → Keeps (replay_ops engine info ops st)
  replay_ops-Keeps [] st balanced st' h = Keeps-ok st balanced st' h
  replay_ops-Keeps (op ∷ ops) st balanced st' h =
      let (st1, e, h1) = bind-ok (replay_op engine info op st) (replay_ops engine info ops) st' h in
      replay_ops-Keeps ops st1 (replay_op-Keeps op st balanced st1 e) st' h1

  -- Wherever a replay that does not throw ends, the pool's shares are the sum of the shares of the
  -- tranches that are open, and each of these has a number that its signer has been given: no deposit
  -- takes the place of another, and no withdrawal leaves shares behind.
  pub replay_ops-IsBalanced :
      (ops : List PoolOp) (st : Replay)
      → replay_ops engine info ops empty_pool ≡ ok st
      → IsBalanced st
  replay_ops-IsBalanced ops st h = replay_ops-Keeps ops empty_pool (refl, tt) st h
