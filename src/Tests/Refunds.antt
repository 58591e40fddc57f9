-- ===== src/Tests/Refunds.antt =====
-- A withdrawal on the small database that fails, succeeds and fails again, and the history.
use mzl_payment_app.Common.{◌≡◌, ◌≢◌, ◌⊎◌, refl, some, arith, ap}
use mathlib.Core.List.{Permᴰ as IsPerm}
use mzl_payment_app.Common.{[], ◌∷◌}
use mzl_payment_app.Common.Table.{select}
use mzl_payment_app.Go.{ok}
use mzl_payment_app.Schema.Tables.{Transaction, TransactionStatus}
use mzl_payment_app.Schema.Transactions.{row_of}
use mzl_payment_app.Schema.Ledger.{balances}
use mzl_payment_app.World.{World}
use mzl_payment_app.World.Ends.{Ends}
use mzl_payment_app.Repository.Wallet.{refund_withdrawal, update_transaction_status, withdrawal_of}
use mzl_payment_app.Repository.Wallet.{get_transactions, in_wallet_of}
use mzl_payment_app.Repository.Wallet.History.{IsNewestFirst, get_transactions-Ends}
use mzl_payment_app.Repository.Wallet.Commits.{Kept}
use mzl_payment_app.Repository.Wallet.Refunds.{
  Refunded, refund_withdrawal-Ends, refund_withdrawal_twice,
}
use mzl_payment_app.Repository.Wallet.Reopens.{give_back, refund_again_after_success}
use mzl_payment_app.Tests.Int.{ℤ, pos}
use mzl_payment_app.Tests.Platform.{platform}
use mzl_payment_app.Tests.Repository.{start, withdrawn, wallet_runs, ada_ngn}

abbrev given_back : World ℤ
given_back = (refund_withdrawal "TRF" withdrawn).1

refund_withdrawal-Ends_example :
    Ends
      (λ _ w'. (w'.tables ≡ withdrawn.tables) ⊎ Refunded "TRF" withdrawn.tables w'.tables)
      (Kept withdrawn.tables)
      (refund_withdrawal "TRF" withdrawn)
refund_withdrawal-Ends_example = refund_withdrawal-Ends "TRF" withdrawn

moved : given_back.tables ≢ withdrawn.tables
unfolding wallet_runs
moved e = let both = ap (λ t. balances t "w1" "NGN") e in ground arith

refund_withdrawal_twice_example :
    ((refund_withdrawal "TRF" given_back).0 ≡ ok tt)
    × ((refund_withdrawal "TRF" given_back).1.tables ≡ given_back.tables)
refund_withdrawal_twice_example = refund_withdrawal_twice "TRF" withdrawn given_back moved refl

-- The withdrawal in the log.
abbrev row : Transaction ℤ
row = row_of (withdrawal_of ada_ngn "NGN" (pos 50) "WDR-1" "TRF" "rent") start.tables

-- Then a success arrives, and the failure once more.
abbrev reopened : World ℤ
reopened = (update_transaction_status "TRF" TransactionStatus.success given_back).1

refund_again_after_success_example :
    Ends
      (λ _ w'. balances w'.tables ≡ give_back row (give_back row (balances withdrawn.tables)))
      (λ _ w'. w'.tables ≡ reopened.tables)
      (refund_withdrawal "TRF" reopened)
unfolding wallet_runs
refund_again_after_success_example =
    refund_again_after_success "TRF" row withdrawn given_back reopened (λ e h. h) refl moved refl
      refl refl

-- Ada holds 100 after a single withdrawal of her 50.
given_twice_test : balances (refund_withdrawal "TRF" reopened).1.tables "w1" "NGN" ≡ some (pos 100)
unfolding wallet_runs
given_twice_test = refl

-- The log has an older and a newer row.
abbrev newer : Transaction ℤ
newer = record row { id = "t2"; reference = "WDR-2"; created_at = 2 }

abbrev logged : World ℤ
logged = record start { tables = record start.tables { transactions = row ∷ newer ∷ [] } }

get_transactions-Ends_example :
    Ends
      (λ rows _.
        IsNewestFirst rows
        × IsPerm rows (select (in_wallet_of "u1" logged.tables) (row ∷ newer ∷ [])))
      (λ _ w'. w'.tables ≡ logged.tables)
      (get_transactions "u1" logged)
get_transactions-Ends_example = get_transactions-Ends "u1" logged

history_test : (get_transactions "u1" logged).0 ≡ ok (newer ∷ row ∷ [])
unfolding wallet_runs get_transactions
history_test = refl
