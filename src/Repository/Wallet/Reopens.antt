-- ===== src/Repository/Wallet/Reopens.antt =====
-- `RefundWithdrawal` and `UpdateTransactionStatus` of wallet_repo.go: a success that comes after the
-- refund of a withdrawal.
use mathlib.Core.Option
use mzl_payment_app.Common.{
  String, Bool, true, false, ◌≡◌, ◌≢◌, refl, sym, ap, ◌∙◌, some, arith, ◌&&◌, if◌then◌else◌,
}
use mzl_payment_app.Common.Table.{find-update, find-holds}
use mzl_payment_app.Go.{GoError, ok}
use mzl_payment_app.External.{Externals}
use mzl_payment_app.Schema.Tables.{Tables, TransactionStatus, is_failed, is_withdrawal}
use mzl_payment_app.Schema.Query.{find_query}
use mzl_payment_app.Schema.Assets.{increment}
use mzl_payment_app.Schema.Transactions.{
  withdrawal_by_code, has_gateway_ref, update_statuses, set_statuses, with_status,
}
use mzl_payment_app.Schema.Ledger.{Balances, balances, adjust}
use mzl_payment_app.World.{World, bind, run_query}
use mzl_payment_app.World.Laws.{run_query-ok, run_find-Ends, run_find-tables}
use mzl_payment_app.World.Ends.{Ends, returned, failed, Ends-weaken}
use mzl_payment_app.Repository.Wallet.{Row, refund_withdrawal, update_transaction_status}
use mzl_payment_app.Repository.Wallet.Refunds.{
  Refunded, refund_open-Ends, refund_withdrawal-Refunded,
}

module _ ⦃x : Externals⦄ where
  status_update-tables :
      (code : String) (status : TransactionStatus) (w : World x.F)
      → (update_transaction_status code status w).0 ≡ ok tt
      → (update_transaction_status code status w).1.tables
        ≡ set_statuses (has_gateway_ref code) status w.tables
  unfolding update_transaction_status update_statuses
  status_update-tables code status w e =
      let d = run_query-ok (update_statuses (has_gateway_ref code) status) w tt e in ground arith

  reopened :
      (code : String) (row : Row) (t : Tables x.F)
      → withdrawal_by_code code t ≡ some row
      → withdrawal_by_code code (set_statuses (has_gateway_ref code) TransactionStatus.success t)
        ≡ some (with_status TransactionStatus.success t row)
  reopened code row t found =
      let p : Row → Bool = λ tx. has_gateway_ref code tx && is_withdrawal tx.type in
      let holds : has_gateway_ref code row ≡ true =
        let both = find-holds p t.transactions row found in ground arith in
      find-update p (has_gateway_ref code) (with_status TransactionStatus.success t) (λ a. refl)
        t.transactions
      ∙ ap
          (Option.map (λ (a : Row).
            if has_gateway_ref code a then with_status TransactionStatus.success t a else a))
          found
      ∙ ap (λ (b : Bool). some (if b then with_status TransactionStatus.success t row else row))
          holds

  -- The database answers every query: it is done, or the schema refuses it.
  abbrev pub IsUp : Type 0
  IsUp = (e : GoError) → ¬ x.IsOutage e

  -- An open withdrawal is refunded, unless the schema refuses the refund.
  refund_withdrawal_open :
      (code : String) (row : Row) (w : World x.F)
      → IsUp
      → withdrawal_by_code code w.tables ≡ some row
      → is_failed row.status ≡ false
      → Ends
          (λ _ w'. Refunded code w.tables w'.tables)
          (λ _ w'. w'.tables ≡ w.tables)
          (refund_withdrawal code w)
  unfolding refund_withdrawal bind
  refund_withdrawal_open code row w up found open_row =
      let w1 = (run_query (find_query (withdrawal_by_code code)) w).1 in
      elim (run_find-Ends (withdrawal_by_code code) w row found) [
        | returned o h is ↦
            rw (h, is)
              (refund_open-Ends code row w.tables w1 (run_find-tables (withdrawal_by_code code) w)
                found open_row)
        | failed e h outage ↦ absurd (up e outage)
      ]

  -- What the refund of a row does to the balances.
  abbrev pub give_back : Row → Balances → Balances
  give_back row = adjust row.wallet_id row.currency (increment row.amount)

  give_back-same :
      (r row : Row) (b : Balances)
      → r.amount ≡ row.amount
      → r.wallet_id ≡ row.wallet_id
      → r.currency ≡ row.currency
      → give_back r b ≡ give_back row b
  give_back-same r row b amount wallet currency = rw (amount, wallet, currency) refl

  Refunded-row :
      (code : String) (row : Row) (t t' : Tables x.F)
      → withdrawal_by_code code t ≡ some row
      → (r : Refunded code t t') → r.row ≡ row
  Refunded-row code row t t' here r = let both = sym r.found ∙ here in ground arith

  Refunded-balances :
      (code : String) (row : Row) (t t' : Tables x.F)
      → withdrawal_by_code code t ≡ some row
      → Refunded code t t'
      → balances t' ≡ give_back row (balances t)
  Refunded-balances code row t t' here r =
      r.given_back ∙ ap (λ (a : Row). give_back a (balances t)) (Refunded-row code row t t' here r)

  -- What goes wrong when a success arrives for a withdrawal that was refunded. When the refund of a
  -- withdrawal has changed a table, and on the tables it left a success is recorded for the same
  -- transfer code without an error, and the database answers every query, the next refund gives the
  -- amount to the same asset a second time, unless the schema refuses that write, and then no table
  -- has changed.
  pub refund_again_after_success :
      (code : String) (row : Row) (w w1 w2 : World x.F)
      → IsUp
      → withdrawal_by_code code w.tables ≡ some row
      → (refund_withdrawal code w).1.tables ≢ w.tables
      → w1.tables ≡ (refund_withdrawal code w).1.tables
      → (update_transaction_status code TransactionStatus.success w1).0 ≡ ok tt
      → w2.tables ≡ (update_transaction_status code TransactionStatus.success w1).1.tables
      → Ends
          (λ _ w'. balances w'.tables ≡ give_back row (give_back row (balances w.tables)))
          (λ _ w'. w'.tables ≡ w2.tables)
          (refund_withdrawal code w2)
  refund_again_after_success code row w w1 w2 up here moved same1 e same2 =
      let first = refund_withdrawal-Refunded code w moved in
      let that = Refunded-row code row w.tables _ here first in
      let (r, found, _, amount, wallet, currency) = first.marked in
      let opened = same2 ∙ status_update-tables code TransactionStatus.success w1 e in
      let found2 : withdrawal_by_code code w2.tables
          ≡ some (with_status TransactionStatus.success w1.tables r) =
        ap (withdrawal_by_code code) opened
        ∙ reopened code r w1.tables (ap (withdrawal_by_code code) same1 ∙ found) in
      Ends-weaken _
        (λ _ w' again.
          Refunded-balances code _ w2.tables w'.tables found2 again
          ∙ give_back-same r row (balances w2.tables) (amount ∙ ap (λ (a : Row). a.amount) that)
              (wallet ∙ ap (λ (a : Row). a.wallet_id) that)
              (currency ∙ ap (λ (a : Row). a.currency) that)
          ∙ ap (give_back row) (
              ap balances opened
              ∙ ap balances same1
              ∙ Refunded-balances code row w.tables _ here first))
        (λ _ _ k. k) (refund_withdrawal_open code _ w2 up found2 refl)
