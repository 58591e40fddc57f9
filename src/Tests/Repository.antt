-- ===== src/Tests/Repository.antt =====
-- The repository on a small database: Ada holds 50 NGN, Bola nothing.
use mzl_payment_app.Common.{◌==◌, false, ◌≡◌, refl, Option, none, some, [], ◌∷◌}
use mzl_payment_app.Go.{GoError, ok, err}
use mzl_payment_app.Schema.Tables.{User, Wallet, WalletAsset, TransactionType}
use mzl_payment_app.Schema.Query.{transaction}
use mzl_payment_app.Schema.Ledger.{IsWellFormed, Moves, credit, debit}
use mzl_payment_app.Repository.Wallet.Refines.{
  transfer_funds-Moves, swap_funds-Moves, debit_for_withdrawal-Moves,
}
use mzl_payment_app.Repository.Wallet.Deposits.{
  credit_wallet_by_email-Moves, credit_wallet_by_email_replay,
}
use mzl_payment_app.Repository.Wallet.Duplicates.{IsRecorded}
use mzl_payment_app.Schema.Assets.{Asset, asset_of_user, update_asset, upsert_asset, create_asset}
use mzl_payment_app.Schema.Transactions.{create_transaction, update_status, update_statuses}
use mzl_payment_app.World.Ends.{Ends}
use mzl_payment_app.World.{World, bind, run_query}
use mzl_payment_app.Repository.Wallet.{
  transfer_funds, swap_funds, debit_for_withdrawal, credit_wallet_by_email, credit_wallet,
  refund_withdrawal, update_transaction_status, get_asset_by_currency, get_wallet_by_account_number,
  found_or, exec_checked, exec_deduplicated, log_of, withdrawal_of, wallet_by_number,
  is_unique_constraint_error,
}
use mzl_payment_app.Repository.Wallet.Writes.{transfer, apply, apply_atomic, apply-IsSound}
use mzl_payment_app.Repository.Wallet.Solvency.{IsSound}
use mzl_payment_app.Tests.Int.{ℤ, pos, lt_ℤ}
use mzl_payment_app.Tests.Platform.{platform, platform-HasFreshIds}

abbrev pub ada : User
ada = record {
  id = "u1";
  email = "ada@x";
  password = "$pw";
  name = "Ada";
  transaction_pin = some "$1234";
}

abbrev pub bola : User
bola = record {
  id = "u2";
  email = "bola@x";
  password = "h";
  name = "Bola";
  transaction_pin = some "$1234";
}

abbrev pub ada_wallet : Wallet
ada_wallet = record { id = "w1"; account_number = "1000000001"; user_id = "u1"; created_at = 0 }

abbrev pub bola_wallet : Wallet
bola_wallet = record { id = "w2"; account_number = "1000000002"; user_id = "u2"; created_at = 0 }

abbrev pub ada_ngn : WalletAsset ℤ
ada_ngn = record { id = "a1"; wallet_id = "w1"; currency = "NGN"; balance = pos 50 }

abbrev pub start : World ℤ
start = record {
  calls = 0;
  tables = record {
    users = ada ∷ bola ∷ [];
    refresh_tokens = [];
    wallets = ada_wallet ∷ bola_wallet ∷ [];
    assets = ada_ngn ∷ [];
    transactions = [];
  };
  keys = λ _. none;
  requests = [];
  cached_rates = none;
  cache_expiry_time = 0;
}

-- The definitions that a run computes with.
unfoldable pub wallet_runs : Unit {0}
unfolding transfer_funds swap_funds debit_for_withdrawal credit_wallet_by_email credit_wallet
    refund_withdrawal update_transaction_status get_asset_by_currency get_wallet_by_account_number
    found_or exec_checked exec_deduplicated bind run_query transaction update_asset upsert_asset
    create_asset create_transaction update_status update_statuses apply
wallet_runs = tt

transfer_test : (transfer_funds "u1" "1000000002" "NGN" (pos 20) "r1" "to" "from" start).0 ≡ ok tt
unfolding wallet_runs
transfer_test = refl

-- More than Ada holds: the CHECK refuses it, and the message is the one of the race.
overdraft_test :
    (transfer_funds "u1" "1000000002" "NGN" (pos 60) "r1" "to" "from" start).0
    ≡ err (GoError.new "insufficient funds (race condition)")
unfolding wallet_runs
overdraft_test = refl

pub start-IsWellFormed : IsWellFormed start.tables
start-IsWellFormed = record { ids = (refl, tt); keys = (refl, tt); wallet_ids = (refl, (refl, tt)) }

transfer_funds-Moves_example :
    (s : Asset) × (r : Wallet × Option User) × (asset_of_user "u1" "NGN" start.tables ≡ some s)
    × (wallet_by_number "1000000002" start.tables ≡ some r)
    × ((r.0.user_id == "u1") ≡ false)
    × Moves
        (λ b. credit r.0.id "NGN" (pos 20) (debit s.wallet_id "NGN" (pos 20) b))
        (log_of s.wallet_id (pos 20) "NGN" TransactionType.transfer "r1-DEBIT" "to"
          ∷ log_of r.0.id (pos 20) "NGN" TransactionType.transfer "r1-CREDIT" "from"
          ∷ [])
        start.tables
        (transfer_funds "u1" "1000000002" "NGN" (pos 20) "r1" "to" "from" start).1.tables
unfolding wallet_runs
transfer_funds-Moves_example =
    transfer_funds-Moves "u1" "1000000002" "NGN" (pos 20) "r1" "to" "from" start start-IsWellFormed
      refl

swap_funds-Moves_example :
    (s : Asset) × (asset_of_user "u1" "NGN" start.tables ≡ some s)
    × (lt_ℤ s.balance (pos 30) ≡ false)
    × Moves
        (λ b. credit s.wallet_id "USD" (pos 2) (debit s.wallet_id "NGN" (pos 30) b))
        (log_of s.wallet_id (pos 30) "NGN" TransactionType.swap "r2-OUT" "swap"
          ∷ log_of s.wallet_id (pos 2) "USD" TransactionType.swap "r2-IN" "swap"
          ∷ [])
        start.tables
        (swap_funds "u1" "NGN" "USD" (pos 30) (pos 2) "r2" "swap" start).1.tables
unfolding wallet_runs
swap_funds-Moves_example =
    swap_funds-Moves "u1" "NGN" "USD" (pos 30) (pos 2) "r2" "swap" start start-IsWellFormed refl

-- A withdrawal of 50, which empties the asset.
abbrev pub withdrawn : World ℤ
withdrawn = (debit_for_withdrawal "u1" "NGN" (pos 50) "WDR-1" "TRF" "rent" start).1

debit_for_withdrawal-Moves_example :
    (s : Asset) × (asset_of_user "u1" "NGN" start.tables ≡ some s)
    × (lt_ℤ s.balance (pos 50) ≡ false)
    × Moves
        (debit s.wallet_id "NGN" (pos 50))
        (withdrawal_of s "NGN" (pos 50) "WDR-1" "TRF" "rent" ∷ [])
        start.tables
        withdrawn.tables
unfolding wallet_runs
debit_for_withdrawal-Moves_example =
    debit_for_withdrawal-Moves "u1" "NGN" (pos 50) "WDR-1" "TRF" "rent" start start-IsWellFormed
      refl

-- Bola pays in 7 USD, under the reference `p1`.
abbrev paid_in : World ℤ
paid_in = (credit_wallet_by_email "bola@x" "USD" (pos 7) "p1" "in" "PAYSTACK" start).1

credit_wallet_by_email-Moves_example : IsRecorded "p1" paid_in.tables
unfolding wallet_runs
credit_wallet_by_email-Moves_example =
    (credit_wallet_by_email-Moves "bola@x" "USD" (pos 7) "p1" "in" "PAYSTACK" start
      platform-HasFreshIds refl).3

credit_wallet_by_email_replay_example :
    Ends
      (λ _ w'. w'.tables ≡ paid_in.tables)
      (λ e w'. (w'.tables ≡ paid_in.tables) × (is_unique_constraint_error e ≡ false))
      (credit_wallet_by_email "ada@x" "NGN" (pos 9) "p1" "in" "PAYSTACK" paid_in)
unfolding wallet_runs
credit_wallet_by_email_replay_example =
    credit_wallet_by_email_replay "ada@x" "NGN" (pos 9) "p1" "in" "PAYSTACK" paid_in refl

-- Another deposit under the reference is answered with success.
replay_test : (credit_wallet_by_email "ada@x" "NGN" (pos 9) "p1" "in" "PAYSTACK" paid_in).0 ≡ ok tt
unfolding wallet_runs
replay_test = refl

apply_atomic_example :
    (apply (transfer "u1" "1000000002" "NGN" (pos 60) "r1" "to" "from") start).1.tables
    ≡ start.tables
unfolding wallet_runs
apply_atomic_example =
    apply_atomic (transfer "u1" "1000000002" "NGN" (pos 60) "r1" "to" "from") start
      (GoError.new "insufficient funds (race condition)") refl

apply-IsSound_example :
    IsSound (apply (transfer "u1" "1000000002" "NGN" (pos 60) "r1" "to" "from") start).1.tables
apply-IsSound_example =
    apply-IsSound (transfer "u1" "1000000002" "NGN" (pos 60) "r1" "to" "from") start
      (record { well_formed = start-IsWellFormed; solvent = refl })
