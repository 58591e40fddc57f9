-- ===== src/Repository/Wallet/Writes.antt =====
-- The interface `WalletRepository` of wallet_repo.go: what holds of every operation that writes.
use mzl_payment_app.Common.{String, ◌≡◌, refl, List, inl, inr}
use mzl_payment_app.Go.{GoError, err}
use mzl_payment_app.External.{Externals}
use mzl_payment_app.Schema.Tables.{Tables, TransactionType, TransactionStatus}
use mzl_payment_app.Schema.Query.{Query}
use mzl_payment_app.Repository.Wallet.Solvency.{
  IsSound, AllSafe, Ends-IsSound, transaction-IsSafe, run_query-IsSound, create_transaction-IsSafe,
  upsert_asset-IsSafe, update_id-IsSafe, refund_withdrawal-IsSound,
  update_transaction_status-IsSound,
}
use mzl_payment_app.World.{World, Action}
use mzl_payment_app.World.Laws.{run_query-err}
use mzl_payment_app.World.Ends.{Ends-err, Ends-weaken}
use mzl_payment_app.Repository.Wallet.{
  credit_wallet, credit_wallet_by_email, swap_funds, transfer_funds, debit_for_withdrawal,
  refund_withdrawal, update_transaction_status,
}
use mzl_payment_app.Repository.Wallet.Debits.{
  transfer_funds-Ends, swap_funds-Ends, debit_for_withdrawal-Ends,
}
use mzl_payment_app.Repository.Wallet.Deposits.{credit_wallet_by_email-Ends}
use mzl_payment_app.Repository.Wallet.Duplicates.{Deduplicated}
use mzl_payment_app.Repository.Wallet.Refunds.{refund_withdrawal-Ends}

module _ ⦃x : Externals⦄ where
  -- The calls of the interface that write, with their arguments.
  pub data WalletWrite : Type 0 where
    credit : String → String → x.F → String → String → TransactionType → WalletWrite
    credit_by_email : String → String → x.F → String → String → String → WalletWrite
    swap : String → String → String → x.F → x.F → String → String → WalletWrite
    transfer : String → String → String → x.F → String → String → String → WalletWrite
    debit : String → String → x.F → String → String → String → WalletWrite
    refund : String → WalletWrite
    set_status : String → TransactionStatus → WalletWrite

  unfoldable pub apply : WalletWrite → Action (Unit {0})
  apply (credit wallet_id currency amount reference d type) =
      credit_wallet wallet_id currency amount reference d type
  apply (credit_by_email email currency amount reference d provider) =
      credit_wallet_by_email email currency amount reference d provider
  apply (swap user_id from to amount_in amount_out reference d) =
      swap_funds user_id from to amount_in amount_out reference d
  apply (transfer user_id number currency amount reference ds dr) =
      transfer_funds user_id number currency amount reference ds dr
  apply (debit user_id currency amount reference code d) =
      debit_for_withdrawal user_id currency amount reference code d
  apply (refund code) = refund_withdrawal code
  apply (set_status reference status) = update_transaction_status reference status

  -- Every write of the repository is atomic: one that returns an error has changed no table.
  pub apply_atomic :
      (c : WalletWrite) (w : World x.F) (e : GoError)
      → (apply c w).0 ≡ err e
      → (apply c w).1.tables ≡ w.tables
  unfolding apply credit_wallet update_transaction_status
  apply_atomic (credit wallet_id currency amount reference d type) w e h = run_query-err _ w e h
  apply_atomic (credit_by_email email currency amount reference d provider) w e h =
      (Ends-err _ e (credit_wallet_by_email-Ends email currency amount reference d provider w) h).0
  apply_atomic (swap user_id from to amount_in amount_out reference d) w e h =
      Ends-err _ e (swap_funds-Ends user_id from to amount_in amount_out reference d _ w refl) h
  apply_atomic (transfer user_id number currency amount reference ds dr) w e h =
      Ends-err _ e (transfer_funds-Ends user_id number currency amount reference ds dr _ w refl) h
  apply_atomic (debit user_id currency amount reference code d) w e h =
      Ends-err _ e (debit_for_withdrawal-Ends user_id currency amount reference code d _ w refl) h
  apply_atomic (refund code) w e h = Ends-err _ e (refund_withdrawal-Ends code w) h
  apply_atomic (set_status reference status) w e h = run_query-err _ w e h

  deposit-IsSound :
      (ops : List (Query x.F (Unit {0}))) (t t' : Tables x.F)
      → AllSafe ops
      → IsSound t
      → Deduplicated ops t t'
      → IsSound t'
  deposit-IsSound ops t t' safe s (inl d) = transaction-IsSafe ops safe t t' d s
  deposit-IsSound ops t t' safe s (inr (_, same)) = rw same s

  -- No write overdraws: when no asset is below zero and the unique indexes hold, the same is true
  -- after every call of the interface that writes, whether it succeeds or fails.
  pub apply-IsSound :
      (c : WalletWrite) (w : World x.F) → IsSound w.tables → IsSound (apply c w).1.tables
  unfolding apply credit_wallet
  apply-IsSound (credit wallet_id currency amount reference d type) w s =
      run_query-IsSound _ w
        (transaction-IsSafe _
          (create_transaction-IsSafe _, (upsert_asset-IsSafe wallet_id currency amount, tt)))
        s
  apply-IsSound (credit_by_email email currency amount reference d provider) w s =
      Ends-IsSound w.tables _ s
        (λ _ w' (u, wallet, found, r).
          deposit-IsSound _ w.tables w'.tables
            (upsert_asset-IsSafe wallet.id currency amount, (create_transaction-IsSafe _, tt)) s r)
        (Ends-weaken _ (λ _ _ h. h) (λ _ _ h. h.0)
          (credit_wallet_by_email-Ends email currency amount reference d provider w))
  apply-IsSound (swap user_id from to amount_in amount_out reference d) w s =
      Ends-IsSound w.tables _ s
        (λ _ w' r.
          transaction-IsSafe _
            (
              update_id-IsSafe r.source.id _,
              (
                upsert_asset-IsSafe r.source.wallet_id to amount_out,
                (create_transaction-IsSafe _, (create_transaction-IsSafe _, tt)),
              ),
            )
            w.tables w'.tables r.committed s)
        (swap_funds-Ends user_id from to amount_in amount_out reference d w.tables w refl)
  apply-IsSound (transfer user_id number currency amount reference ds dr) w s =
      Ends-IsSound w.tables _ s
        (λ _ w' r.
          transaction-IsSafe _
            (
              update_id-IsSafe r.sender.id _,
              (
                upsert_asset-IsSafe r.receiver.0.id currency amount,
                (create_transaction-IsSafe _, (create_transaction-IsSafe _, tt)),
              ),
            )
            w.tables w'.tables r.committed s)
        (transfer_funds-Ends user_id number currency amount reference ds dr w.tables w refl)
  apply-IsSound (debit user_id currency amount reference code d) w s =
      Ends-IsSound w.tables _ s
        (λ _ w' r.
          transaction-IsSafe _ (update_id-IsSafe r.asset.id _, (create_transaction-IsSafe _, tt))
            w.tables w'.tables r.committed s)
        (debit_for_withdrawal-Ends user_id currency amount reference code d w.tables w refl)
  apply-IsSound (refund code) w s = refund_withdrawal-IsSound code w s
  apply-IsSound (set_status reference status) w s =
      update_transaction_status-IsSound reference status w s
