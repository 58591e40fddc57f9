-- ===== src/Repository/Wallet.antt =====
-- internals/repository/wallet_repo.go: `walletRepository`, method by method.
pub mod Commits
pub mod Debits
pub mod Quiet
pub mod Refines
pub mod Duplicates
pub mod Deposits
pub mod Refunds
pub mod Reopens
pub mod Solvency
pub mod Writes
pub mod History
use mzl_payment_app.Common.{
  String, Bool, false, Option, none, some, List, [], ◌∷◌, ◌==◌, ◌||◌, leb, if◌then◌else◌,
}
use mzl_payment_app.Common.Table.{find, select}
use mzl_payment_app.Common.Text.{◌+++◌}
use mzl_payment_app.Go.{GoError, Result, ok, err, mentions}
use mzl_payment_app.External.{Externals}
use mzl_payment_app.World.{Action, pure, fail, ◌>>=◌, ◌>>◌, attempt, fail_if, run_query}
use mzl_payment_app.Schema.Tables.{
  Tables, User, Wallet, Transaction, TransactionType, TransactionStatus, is_failed, has_key,
}
use mzl_payment_app.Schema.Query.{Query, find_query, many_query, transaction}
use mzl_payment_app.Schema.Assets.{
  Asset, asset_of_user, update_asset, upsert_asset, has_id, increment, decrement,
}
use mzl_payment_app.Schema.Transactions.{
  NewTransaction, create_transaction, has_reference, has_tx_id, has_gateway_ref, withdrawal_by_code,
  update_status, update_statuses,
}

module _ ⦃x : Externals⦄ where
  abbrev pub Row : Type 0
  Row = Transaction x.F

  -- The relations that a `With(….Fetch())` brings.
  abbrev pub assets_of : Wallet → Tables x.F → List Asset
  assets_of w t = select (λ a. a.wallet_id == w.id) t.assets

  abbrev pub user_of : Wallet → Tables x.F → Option User
  user_of w t = find (λ u. u.id == w.user_id) t.users

  abbrev pub wallet_of : User → Tables x.F → Option Wallet
  wallet_of u t = find (λ w. w.user_id == u.id) t.wallets

  abbrev pub attach : {A B : Type 0} → (A → Tables x.F → B) → Tables x.F → Option A → Option (A × B)
  attach f t none = none
  attach f t (some a) = some (a, f a t)

  unfoldable pub get_wallet_with_assets : String → Action (Option (Wallet × List Asset))
  get_wallet_with_assets user_id =
      run_query (find_query λ t. attach assets_of t (find (λ w. w.user_id == user_id) t.wallets))

  unfoldable pub get_asset_by_currency : String → String → Action (Option Asset)
  get_asset_by_currency user_id currency = run_query (find_query (asset_of_user user_id currency))

  unfoldable pub get_user_by_id : String → Action (Option User)
  get_user_by_id user_id = run_query (find_query λ t. find (λ u. u.id == user_id) t.users)

  abbrev pub wallet_by_number : String → Tables x.F → Option (Wallet × Option User)
  wallet_by_number number t = attach user_of t (find (λ w. w.account_number == number) t.wallets)

  unfoldable pub get_wallet_by_account_number : String → Action (Option (Wallet × Option User))
  get_wallet_by_account_number number = run_query (find_query (wallet_by_number number))

  -- `OrderBy(CreatedAt desc)`
  abbrev pub insert_desc : Row → List Row → List Row
  insert_desc tx [] = tx ∷ []
  insert_desc tx (a ∷ rows) =
      if leb a.created_at tx.created_at then tx ∷ a ∷ rows else a ∷ insert_desc tx rows

  abbrev pub order_desc : List Row → List Row
  order_desc [] = []
  order_desc (tx ∷ rows) = insert_desc tx (order_desc rows)

  abbrev pub in_wallet_of : String → Tables x.F → Row → Bool
  in_wallet_of user_id t tx = elim (find (λ (w : Wallet). w.id == tx.wallet_id) t.wallets) [
    | none ↦ false
    | some w ↦ w.user_id == user_id
  ]

  unfoldable pub get_transactions : String → Action (List Row)
  get_transactions user_id =
      run_query (many_query λ t. order_desc (select (in_wallet_of user_id t) t.transactions))

  abbrev pub wallet_of_row : Row → Tables x.F → Option Wallet
  wallet_of_row tx t = find (λ w. w.id == tx.wallet_id) t.wallets

  unfoldable pub get_transaction_by_reference : String → Action (Option (Row × Option Wallet))
  get_transaction_by_reference reference =
      run_query
        (find_query λ t. attach wallet_of_row t (find (has_reference reference) t.transactions))

  -- `if err != nil || row == nil { return e }`
  abbrev pub row_or : {A : Type 0} → GoError → Result (Option A) → Action A
  row_or e (ok (some a)) = pure a
  row_or e (ok none) = fail e
  row_or e (err _) = fail e

  -- `if err != nil && strings.Contains(err.Error(), "non_negative_balance")`, then `return err`
  abbrev pub check_as_race : Result (Unit {0}) → Action (Unit {0})
  check_as_race (ok u) = pure u
  check_as_race (err e) =
      if mentions e "non_negative_balance"
      then fail (GoError.new "insufficient funds (race condition)")
      else fail e

  -- `found, err := m`, then `if err != nil || found == nil { return e }`
  unfoldable pub found_or : {A : Type 0} → GoError → Action (Option A) → Action A
  found_or e m = do found ← attempt m; row_or e found

  -- `err = r.client.Prisma.Transaction(ops…).Exec(ctx)`, then the test of the three debits
  unfoldable pub exec_checked : List (Query x.F (Unit {0})) → Action (Unit {0})
  exec_checked ops = do committed ← attempt (run_query (transaction ops)); check_as_race committed

  abbrev pub log_of : String → x.F → String → TransactionType → String → String → NewTransaction
  log_of wallet_id amount currency type reference description = record {
    wallet_id = wallet_id;
    amount = amount;
    currency = currency;
    type = type;
    reference = reference;
    status = TransactionStatus.success;
    description = some description;
    provider = none;
    gateway_ref = none;
  }

  unfoldable pub credit_wallet :
      String → String → x.F → String → String → TransactionType → Action (Unit {0})
  credit_wallet wallet_id currency amount reference description type = run_query (
      transaction (
        create_transaction (log_of wallet_id amount currency type reference description)
        ∷ upsert_asset wallet_id currency amount
        ∷ []))

  abbrev pub swap_ops :
      Asset → String → String → x.F → x.F → String → String → List (Query x.F (Unit {0}))
  swap_ops source from to amount_in amount_out reference description =
      update_asset (has_id source.id) (decrement amount_in)
      ∷ upsert_asset source.wallet_id to amount_out
      ∷ create_transaction (
          log_of source.wallet_id amount_in from TransactionType.swap (reference +++ "-OUT")
            description)
      ∷ create_transaction (
          log_of source.wallet_id amount_out to TransactionType.swap (reference +++ "-IN")
            description)
      ∷ []

  unfoldable pub swap_funds :
      String → String → String → x.F → x.F → String → String → Action (Unit {0})
  swap_funds user_id from to amount_in amount_out reference description = do
    source ←
        found_or (GoError.new "insufficient funds: source wallet not found")
          (get_asset_by_currency user_id from)
    fail_if (x.lt source.balance amount_in) (GoError.new "insufficient balance")
    exec_checked (swap_ops source from to amount_in amount_out reference description)

  abbrev pub transfer_ops :
      Asset → Wallet → String → x.F → String → String → String → List (Query x.F (Unit {0}))
  transfer_ops sender receiver currency amount reference desc_sender desc_receiver =
      update_asset (has_id sender.id) (decrement amount)
      ∷ upsert_asset receiver.id currency amount
      ∷ create_transaction (
          log_of sender.wallet_id amount currency TransactionType.transfer (reference +++ "-DEBIT")
            desc_sender)
      ∷ create_transaction (
          log_of receiver.id amount currency TransactionType.transfer (reference +++ "-CREDIT")
            desc_receiver)
      ∷ []

  unfoldable pub transfer_funds :
      String → String → String → x.F → String → String → String → Action (Unit {0})
  transfer_funds from_user to_account currency amount reference desc_sender desc_receiver = do
    sender ← found_or (GoError.new "insufficient funds") (get_asset_by_currency from_user currency)
    receiver ←
        found_or (GoError.new "recipient not found") (get_wallet_by_account_number to_account)
    fail_if (receiver.0.user_id == from_user) (GoError.new "cannot transfer to self")
    exec_checked
        (transfer_ops sender receiver.0 currency amount reference desc_sender desc_receiver)

  abbrev pub withdrawal_of : Asset → String → x.F → String → String → String → NewTransaction
  withdrawal_of asset currency amount reference transfer_code description = record {
    wallet_id = asset.wallet_id;
    amount = amount;
    currency = currency;
    type = TransactionType.withdrawal;
    reference = reference;
    status = TransactionStatus.pending;
    description = some description;
    provider = some "PAYSTACK";
    gateway_ref = some transfer_code;
  }

  abbrev pub withdrawal_ops :
      Asset → String → x.F → String → String → String → List (Query x.F (Unit {0}))
  withdrawal_ops asset currency amount reference transfer_code description =
      update_asset (has_id asset.id) (decrement amount)
      ∷ create_transaction (withdrawal_of asset currency amount reference transfer_code description)
      ∷ []

  unfoldable pub debit_for_withdrawal :
      String → String → x.F → String → String → String → Action (Unit {0})
  debit_for_withdrawal user_id currency amount reference transfer_code description = do
    asset ← found_or (GoError.new "insufficient funds") (get_asset_by_currency user_id currency)
    fail_if (x.lt asset.balance amount) (GoError.new "insufficient funds")
    exec_checked (withdrawal_ops asset currency amount reference transfer_code description)

  -- `isUniqueConstraintError`, for an error that is not nil
  abbrev pub is_unique_constraint_error : GoError → Bool
  is_unique_constraint_error e = mentions e "Unique constraint failed" || mentions e "P2002"

  -- `if isUniqueConstraintError(err) { return nil }`, then `return err`
  abbrev pub duplicate_as_done : Result (Unit {0}) → Action (Unit {0})
  duplicate_as_done (ok u) = pure u
  duplicate_as_done (err e) = if is_unique_constraint_error e then pure tt else fail e

  -- `err = r.client.Prisma.Transaction(ops…).Exec(ctx)`, then the test for a duplicate
  unfoldable pub exec_deduplicated : List (Query x.F (Unit {0})) → Action (Unit {0})
  exec_deduplicated ops = do
    committed ← attempt (run_query (transaction ops))
    duplicate_as_done committed

  -- `user.Wallet()` on a user fetched with it
  abbrev pub wallet_or : GoError → Option Wallet → Action Wallet
  wallet_or e none = fail e
  wallet_or e (some w) = pure w

  abbrev pub user_by_email : String → Tables x.F → Option (User × Option Wallet)
  user_by_email email t = attach wallet_of t (find (λ u. u.email == email) t.users)

  abbrev pub deposit_of : Wallet → String → x.F → String → String → String → NewTransaction
  deposit_of wallet currency amount reference description provider = record {
    wallet_id = wallet.id;
    amount = amount;
    currency = currency;
    type = TransactionType.deposit;
    reference = reference;
    status = TransactionStatus.success;
    description = some description;
    provider = some provider;
    gateway_ref = none;
  }

  abbrev pub deposit_ops :
      Wallet → String → x.F → String → String → String → List (Query x.F (Unit {0}))
  deposit_ops wallet currency amount reference description provider =
      upsert_asset wallet.id currency amount
      ∷ create_transaction (deposit_of wallet currency amount reference description provider)
      ∷ []

  unfoldable pub credit_wallet_by_email :
      String → String → x.F → String → String → String → Action (Unit {0})
  credit_wallet_by_email email currency amount reference description provider = do
    user ← found_or (GoError.new "user not found") (run_query (find_query (user_by_email email)))
    wallet ← wallet_or (GoError.new "wallet not initialized") user.1
    exec_deduplicated (deposit_ops wallet currency amount reference description provider)

  abbrev pub refund_ops : Row → List (Query x.F (Unit {0}))
  refund_ops txn =
      update_asset (has_key txn.wallet_id txn.currency) (increment txn.amount)
      ∷ update_status (has_tx_id txn.id) TransactionStatus.failed
      ∷ []

  -- `if err != nil || txn == nil || txn.Status == FAILED { return nil }`
  abbrev pub refund_found : Result (Option Row) → Action (Unit {0})
  refund_found (err _) = pure tt
  refund_found (ok none) = pure tt
  refund_found (ok (some txn)) =
      if is_failed txn.status then pure tt else run_query (transaction (refund_ops txn))

  unfoldable pub refund_withdrawal : String → Action (Unit {0})
  refund_withdrawal transfer_code = do
    found ← attempt (run_query (find_query (withdrawal_by_code transfer_code)))
    refund_found found

  unfoldable pub update_transaction_status : String → TransactionStatus → Action (Unit {0})
  update_transaction_status reference status =
      run_query (update_statuses (has_gateway_ref reference) status)
