-- ===== src/Repository/Wallet/Refunds.antt =====
-- `RefundWithdrawal` of wallet_repo.go: the refund of a withdrawal.
use mathlib.Core.Path.{fun_ext}
use mathlib.Core.Option
use mzl_payment_app.Common.{
  String, Bool, true, false, ◌≡◌, ◌≢◌, refl, sym, subst, ap, ◌∙◌, some, List, ◌⊎◌, inl, inr, arith,
  Bool-cases, eq_iff, ◌&&◌, if◌then◌else◌,
}
use mzl_payment_app.Common.Table.{find, find-update}
use mzl_payment_app.Go.{ok, Found-cases}
use mzl_payment_app.External.{Externals}
use mzl_payment_app.Schema.Tables.{Tables, TransactionStatus, is_failed, is_withdrawal}
use mzl_payment_app.Schema.Query.{done, transaction, find_query}
use mzl_payment_app.Schema.Assets.{increment}
use mzl_payment_app.Schema.Transactions.{
  withdrawal_by_code, has_tx_id, has_gateway_ref, update_status, set_statuses, with_status,
}
use mzl_payment_app.Schema.Ledger.{balances, adjust}
use mzl_payment_app.Schema.Ledger.Steps.{transaction-cons, transaction-nil}
use mzl_payment_app.Schema.Ledger.Effects.{update_asset-done, keyed_update-balance}
use mzl_payment_app.World.{World, bind, run_query}
use mzl_payment_app.World.Laws.{run_query-Ends, run_find-some, run_find-tables}
use mzl_payment_app.World.Ends.{Ends, returned, failed, Ends-weaken}
use mzl_payment_app.Repository.Wallet.{Row, refund_ops, refund_found, refund_withdrawal}
use mzl_payment_app.Repository.Wallet.Commits.{Kept}

module _ ⦃x : Externals⦄ where
  -- From `t` to `t'` the withdrawal with this transfer code was refunded: it was not failed, the
  -- amount went back to the asset it came from, and its row is failed now.
  pub record Refunded (code : String) (t t' : Tables x.F) : Type 0 where
    pub row : Row
    pub found : withdrawal_by_code code t ≡ some row
    pub not_failed : is_failed row.status ≡ false
    pub given_back :
        balances t' ≡ adjust row.wallet_id row.currency (increment row.amount) (balances t)
    pub marked :
        (r : Row) × (withdrawal_by_code code t' ≡ some r)
        × (is_failed r.status ≡ true)
        × (r.amount ≡ row.amount)
        × (r.wallet_id ≡ row.wallet_id)
        × (r.currency ≡ row.currency)

  status_set :
      (code : String) (row : Row) (t u : Tables x.F)
      → u.transactions ≡ t.transactions
      → withdrawal_by_code code t ≡ some row
      → withdrawal_by_code code (set_statuses (has_tx_id row.id) TransactionStatus.failed u)
        ≡ some (with_status TransactionStatus.failed u row)
  status_set code row t u same found =
      let p : Row → Bool = λ tx. has_gateway_ref code tx && is_withdrawal tx.type in
      let moved =
        find-update p (has_tx_id row.id) (with_status TransactionStatus.failed u) (λ a. refl)
          u.transactions in
      moved
      ∙ ap
          (λ (rows : List Row).
            Option.map
              (λ a. if has_tx_id row.id a then with_status TransactionStatus.failed u a else a)
              (find p rows))
          same
      ∙ ap
          (Option.map (λ (a : Row).
            if has_tx_id row.id a then with_status TransactionStatus.failed u a else a))
          found
      ∙ ap (λ (b : Bool). some (if b then with_status TransactionStatus.failed u row else row))
          ((eq_iff row.id row.id).1 refl)

  pub refund_ops-Refunded :
      (code : String) (row : Row) (t t' : Tables x.F)
      → withdrawal_by_code code t ≡ some row
      → is_failed row.status ≡ false
      → transaction (refund_ops row) t ≡ done tt t'
      → Refunded code t t'
  unfolding update_status
  refund_ops-Refunded code row t t' found open_row e =
      let (t1, e1, r1) = transaction-cons _ _ t t' e in
      let (t2, e2, r2) = transaction-cons _ _ t1 t' r1 in
      let (a, _, _, same) = update_asset-done _ _ t t1 e1 in
      let changed : t2 ≡ set_statuses (has_tx_id row.id) TransactionStatus.failed t1 =
        ground arith in
      rw (transaction-nil t2 t' r2, changed)
        (record {
          row = row;
          found = found;
          not_failed = open_row;
          given_back =
              ap balances same
              ∙ (fun_ext λ w. fun_ext λ c.
                  keyed_update-balance row.wallet_id row.currency (increment row.amount) t w c);
          marked = (
            with_status TransactionStatus.failed t1 row,
            status_set code row t t1 (ap (λ (u : Tables x.F). u.transactions) same) found,
            refl,
            refl,
            refl,
            refl,
          );
        })

  -- The refund of an open row, once it is found.
  pub refund_open-Ends :
      (code : String) (row : Row) (t : Tables x.F) (w : World x.F)
      → w.tables ≡ t
      → withdrawal_by_code code t ≡ some row
      → is_failed row.status ≡ false
      → Ends (λ _ w'. Refunded code t w'.tables) (Kept t) (refund_found (ok (some row)) w)
  refund_open-Ends code row t w h found open_row = rw open_row (
      Ends-weaken _ (λ _ w' d. refund_ops-Refunded code row t w'.tables found open_row (rw (← h) d))
        (λ _ _ same. same ∙ h) (run_query-Ends (transaction (refund_ops row)) w))

  refund_row-Ends :
      (code : String) (row : Row) (t : Tables x.F) (w : World x.F)
      → w.tables ≡ t
      → withdrawal_by_code code t ≡ some row
      → Ends
          (λ _ w'. (w'.tables ≡ t) ⊎ Refunded code t w'.tables)
          (Kept t)
          (refund_found (ok (some row)) w)
  refund_row-Ends code row t w h found = elim (Bool-cases (is_failed row.status)) [
    | inl done_before ↦ rw done_before (returned tt refl (inl h))
    | inr open_row ↦
        Ends-weaken _ (λ _ _ r. inr r) (λ _ _ k. k) (refund_open-Ends code row t w h found open_row)
  ]

  -- A refund that fails changes no table; one that returns without an error has refunded the
  -- withdrawal with the code as a whole, or has changed no table.
  pub refund_withdrawal-Ends :
      (code : String) (w : World x.F)
      → Ends
          (λ _ w'. (w'.tables ≡ w.tables) ⊎ Refunded code w.tables w'.tables)
          (Kept w.tables)
          (refund_withdrawal code w)
  unfolding refund_withdrawal bind
  refund_withdrawal-Ends code w =
      let w1 = (run_query (find_query (withdrawal_by_code code)) w).1 in
      let same = run_find-tables (withdrawal_by_code code) w in
      elim (Found-cases (run_query (find_query (withdrawal_by_code code)) w).0) [
        | inl (row, h) ↦ rw h (
            refund_row-Ends code row w.tables w1 same
              (run_find-some (withdrawal_by_code code) w row h))
        | inr (inl h) ↦ rw h (returned tt refl (inl same))
        | inr (inr (e, h)) ↦ rw h (returned tt refl (inl same))
      ]

  -- A refund of a withdrawal that is marked as failed changes no table and reports no error.
  pub refund_withdrawal_marked :
      (code : String) (row : Row) (w : World x.F)
      → withdrawal_by_code code w.tables ≡ some row
      → is_failed row.status ≡ true
      → ((refund_withdrawal code w).0 ≡ ok tt) × ((refund_withdrawal code w).1.tables ≡ w.tables)
  unfolding refund_withdrawal bind
  refund_withdrawal_marked code row w found closed =
      let w1 = (run_query (find_query (withdrawal_by_code code)) w).1 in
      let same = run_find-tables (withdrawal_by_code code) w in
      elim (Found-cases (run_query (find_query (withdrawal_by_code code)) w).0) [
        | inl (r, h) ↦
            let that : row ≡ r =
              let both = sym found ∙ run_find-some (withdrawal_by_code code) w r h in
              ground arith in
            let closed_r = subst (λ (a : Row). is_failed a.status ≡ true) that closed in
            rw (h, closed_r) (refl, same)
        | inr (inl h) ↦ rw h (refl, same)
        | inr (inr (e, h)) ↦ rw h (refl, same)
      ]

  -- A refund that changed a table has refunded the withdrawal.
  pub refund_withdrawal-Refunded :
      (code : String) (w : World x.F)
      → (refund_withdrawal code w).1.tables ≢ w.tables
      → Refunded code w.tables (refund_withdrawal code w).1.tables
  refund_withdrawal-Refunded code w moved = elim (refund_withdrawal-Ends code w) [
    | returned _ _ (inl same) ↦ absurd (moved same)
    | returned _ _ (inr r) ↦ r
    | failed _ _ same ↦ absurd (moved same)
  ]

  -- A withdrawal is refunded once: when a refund has changed a table, a second refund with the same
  -- transfer code, on the tables that the first has left, reports success and changes no table.
  pub refund_withdrawal_twice :
      (code : String) (w w' : World x.F)
      → (refund_withdrawal code w).1.tables ≢ w.tables
      → w'.tables ≡ (refund_withdrawal code w).1.tables
      → ((refund_withdrawal code w').0 ≡ ok tt) × ((refund_withdrawal code w').1.tables ≡ w'.tables)
  refund_withdrawal_twice code w w' moved same =
      let (row, found, closed, _, _, _) = (refund_withdrawal-Refunded code w moved).marked in
      refund_withdrawal_marked code row w' (ap (withdrawal_by_code code) same ∙ found) closed
