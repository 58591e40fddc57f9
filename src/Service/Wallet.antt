-- ===== src/Service/Wallet.antt =====
-- internals/service/wallet_service.go: `walletService`, method by method.
pub mod Keys
pub mod Transfers
pub mod Once
pub mod Swaps
pub mod Funding
pub mod Payouts
pub mod Fresh
use mzl_payment_app.Common.{
  ℕ, String, Bool, true, false, not, Option, none, some, List, ◌==◌, if◌then◌else◌,
}
use mzl_payment_app.Common.Text.{◌+++◌}
use mzl_payment_app.Go.{GoError, Result, ok, err}
use mzl_payment_app.External.{Externals}
use mzl_payment_app.External.Http.{Request}
use mzl_payment_app.External.Requests.{WithdrawalRequest}
use mzl_payment_app.External.Messages.{PaystackTransferResponse, ExchangeRateResponse}
use mzl_payment_app.World.{
  Action, pure, fail, ◌>>=◌, ◌>>◌, attempt, ignore, fail_if, lift, now, http_send, wrapped_as,
}
use mzl_payment_app.Schema.Tables.{User, Wallet, Transaction, TransactionType}
use mzl_payment_app.Schema.Assets.{Asset}
use mzl_payment_app.Queue.{delete, get_value, set_value, try_lock_idempotency_key, idempotency_key}
use mzl_payment_app.Repository.Wallet.{
  credit_wallet, get_asset_by_currency as find_asset, get_wallet_with_assets as find_wallet,
  swap_funds as swap_in_tables, transfer_funds as transfer_in_tables, debit_for_withdrawal,
  get_user_by_id, get_wallet_by_account_number, get_transactions,
}
use mzl_payment_app.Repository.User.{find_user_by_email_or_account}
use mzl_payment_app.Service.Payment.{wallet_key, history_key}
use mzl_payment_app.Service.Payment.Paystack.{create_transfer_recipient, initiate_transfer}

pub record UserLookupResult : Type 0 where
  pub name : String
  pub account_number : String

module _ ⦃x : Externals⦄ where
  pub record SwapResult : Type 0 where
    pub source_currency : String
    pub source_amount : x.F
    pub dest_currency : String
    pub dest_amount : x.F
    pub rate : x.F

  abbrev pub nil_as : {A : Type 0} → GoError → Option A → Action A
  nil_as e none = fail e
  nil_as e (some a) = pure a

  unfoldable pub read_wallet : String → Action (Wallet × List Asset)
  read_wallet user_id = do
    found ← find_wallet user_id
    wallet ← nil_as (GoError.new "wallet does not exist") found
    ignore (set_value x.wallet_codec (wallet_key user_id) wallet 300)
    pure wallet

  abbrev pub wallet_or_read : String → Result (Wallet × List Asset) → Action (Wallet × List Asset)
  wallet_or_read user_id (ok wallet) = pure wallet
  wallet_or_read user_id (err _) = read_wallet user_id

  unfoldable pub get_wallet_with_assets : String → Action (Wallet × List Asset)
  get_wallet_with_assets user_id = do
    cached ← attempt (get_value x.wallet_codec (wallet_key user_id))
    wallet_or_read user_id cached

  unfoldable pub get_asset_by_currency : String → String → Action Asset
  get_asset_by_currency user_id currency = do
    asset ← find_asset user_id currency
    nil_as GoError.wallet_not_found asset

  -- `locked, _ := s.redis.TryLockIdempotencyKey(…)`
  abbrev pub or_false : Result Bool → Bool
  or_false (ok b) = b
  or_false (err _) = false

  unfoldable pub acquire : String → Action (Unit {0})
  acquire reference = do
    locked ← attempt (try_lock_idempotency_key reference 300)
    fail_if (not (or_false locked)) GoError.transaction_already_processed

  -- `_ = s.redis.Delete(ctx, "idemp:" + reference)`
  unfoldable pub release : String → Action (Unit {0})
  release reference = ignore (delete (idempotency_key reference))

  -- `_ = s.redis.Set(ctx, "idemp:" + reference, "completed", 24*time.Hour)`
  unfoldable pub complete : String → Action (Unit {0})
  complete reference = ignore (set_value x.text_codec (idempotency_key reference) "completed" 86400)

  abbrev pub release_and_fail : {A : Type 0} → String → GoError → Action A
  release_and_fail reference e = do release reference; fail e

  -- `if err != nil { _ = Delete; return err }`
  abbrev pub value_or_release : {A : Type 0} → String → Result A → Action A
  value_or_release reference (ok a) = pure a
  value_or_release reference (err e) = release_and_fail reference e

  unfoldable pub or_release : {A : Type 0} → String → Action A → Action A
  or_release reference m = do r ← attempt m; value_or_release reference r

  -- The same, but a unique index keeps the key and is an earlier run of the request.
  abbrev pub done_or_release : String → Result (Unit {0}) → Action (Unit {0})
  done_or_release reference (ok u) = pure u
  done_or_release reference (err e) =
      if x.is_err_unique_constraint e
      then fail GoError.transaction_already_processed
      else release_and_fail reference e

  unfoldable pub commit_or_release : String → Action (Unit {0}) → Action (Unit {0})
  commit_or_release reference m = do r ← attempt m; done_or_release reference r

  unfoldable pub fund_wallet : String → String → x.F → String → String → Action (Unit {0})
  fund_wallet user_id currency amount reference description = do
    acquire reference
    found ← or_release reference (find_asset user_id currency)
    asset ← nil_as (GoError.panicked "nil pointer dereference") found
    commit_or_release reference (
        credit_wallet asset.wallet_id currency amount reference description TransactionType.deposit)
    complete reference
    ignore (delete (wallet_key user_id))

  abbrev pub rate_url : String → String
  rate_url currency = "https://open.er-api.com/v6/latest/" +++ currency

  -- `http.Get`
  abbrev pub get_page : String → Request x.F
  get_page url = record {
    method = "GET";
    url = url;
    authorization = "";
    content_type = "";
    body = List.[];
  }

  -- `if err != nil { return errors.New(text) }`
  abbrev pub value_or_new : {A : Type 0} → String → Result A → Action A
  value_or_new text (ok a) = pure a
  value_or_new text (err _) = fail (GoError.new text)

  unfoldable pub renamed_as : {A : Type 0} → String → Action A → Action A
  renamed_as text m = do r ← attempt m; value_or_new text r

  unfoldable pub read_rate : String → String → Action x.F
  read_rate from to = do
    resp ←
        renamed_as "failed to fetch exchange rates"
          (lift (x.new_request (rate_url from)) >> http_send (get_page (rate_url from)))
    rates ← renamed_as "failed to parse exchange rates" (lift (x.decode_rates resp.body))
    nil_as (GoError.new "currency pair not supported") (rates.rates to)

  unfoldable pub fetch_exchange_rate : String → String → Action x.F
  fetch_exchange_rate from to = if from == to then pure x.one_f else read_rate from to

  abbrev pub swap_description : String → String → x.F → String
  swap_description from to rate =
      "Swap " +++ (from +++ (" to " +++ (to +++ (" @ " +++ x.show rate))))

  unfoldable pub swap_funds : String → String → String → x.F → String → Action SwapResult
  swap_funds user_id from to amount_in reference = do
    acquire reference
    rate ← or_release reference (fetch_exchange_rate from to)
    commit_or_release reference (
        swap_in_tables user_id from to amount_in (x.mul amount_in rate) reference
          (swap_description from to rate))
    complete reference
    ignore (delete (wallet_key user_id))
    ignore (delete (history_key user_id))
    pure (record {
      source_currency = from;
      source_amount = amount_in;
      dest_currency = to;
      dest_amount = x.mul amount_in rate;
      rate = rate;
    })

  abbrev pub sender_name : Option User → String
  sender_name none = "Unknown User"
  sender_name (some user) = user.name

  abbrev pub receiver_name : Option User → String
  receiver_name none = "Unknown"
  receiver_name (some user) = user.name

  abbrev pub desc_sender : String → String → String
  desc_sender name user_desc =
      if user_desc == ""
      then "Transfer to " +++ name
      else ("Transfer to " +++ name) +++ (" / " +++ user_desc)

  abbrev pub desc_receiver : String → String → String
  desc_receiver name user_desc =
      if user_desc == ""
      then "Received from " +++ name
      else ("Received from " +++ name) +++ (" /DESCRIPTION: " +++ user_desc)

  -- `if err != nil { _ = Delete; return "", fmt.Errorf(prefix + ": %w", err) }`
  abbrev pub wrapped_or_release : {A : Type 0} → String → String → Result A → Action A
  wrapped_or_release reference prefix (ok a) = pure a
  wrapped_or_release reference prefix (err e) =
      release_and_fail reference (GoError.wrapped prefix e)

  abbrev pub nil_or_release : {A : Type 0} → String → GoError → Option A → Action A
  nil_or_release reference e none = release_and_fail reference e
  nil_or_release reference e (some a) = pure a

  abbrev pub release_if : String → Bool → GoError → Action (Unit {0})
  release_if reference c e = if c then release_and_fail reference e else pure tt

  unfoldable pub transfer_funds : String → String → String → x.F → String → String → Action String
  transfer_funds user_id to_account currency amount user_desc reference = do
    acquire reference
    looked_up ← attempt (get_user_by_id user_id)
    sender ← wrapped_or_release reference "failed to fetch sender details" looked_up
    found ← or_release reference (get_wallet_by_account_number to_account)
    receiver ← nil_or_release reference (GoError.new "recipient account number not found") found
    release_if reference (receiver.0.user_id == user_id)
        (GoError.new "cannot transfer money to yourself")
    commit_or_release reference (
        transfer_in_tables user_id to_account currency amount reference
          (desc_sender (receiver_name receiver.1) user_desc)
          (desc_receiver (sender_name sender) user_desc))
    complete reference
    ignore (delete (wallet_key user_id))
    ignore (delete (wallet_key receiver.0.user_id))
    ignore (delete (history_key user_id))
    pure (receiver_name receiver.1)

  unfoldable pub read_history : String → Action (List (Transaction x.F))
  read_history user_id = do
    transactions ← get_transactions user_id
    ignore (set_value x.history_codec (history_key user_id) transactions 600)
    pure transactions

  abbrev pub history_or_read :
      String → Result (List (Transaction x.F)) → Action (List (Transaction x.F))
  history_or_read user_id (ok transactions) = pure transactions
  history_or_read user_id (err _) = read_history user_id

  abbrev pub parse_or_read : String → Result String → Action (List (Transaction x.F))
  parse_or_read user_id (ok bytes) = history_or_read user_id (x.history_codec.unmarshal bytes)
  parse_or_read user_id (err _) = read_history user_id

  -- The cached value is read as bytes first, and these are read as the list.
  unfoldable pub get_transaction_history : String → Action (List (Transaction x.F))
  get_transaction_history user_id = do
    cached ← attempt (get_value x.bytes_codec (history_key user_id))
    parse_or_read user_id cached

  -- The payout, and then the debit.
  unfoldable pub pay_out : String → WithdrawalRequest x.F → String → Action (Unit {0})
  pay_out user_id req reference = do
    recipient ←
        wrapped_as "failed to create paystack recipient"
          (create_transfer_recipient req.account_name req.account_number req.bank_code req.currency)
    sent ←
        wrapped_as "failed to initiate paystack transfer"
          (initiate_transfer req.amount recipient reference req.reason)
    wrapped_as "withdrawal successful but db update failed" (
        debit_for_withdrawal user_id req.currency req.amount reference sent.transfer_code
          req.reason)

  unfoldable pub withdraw_funds : String → WithdrawalRequest x.F → Action (Unit {0})
  withdraw_funds user_id req = do
    nanos ← now
    pay_out user_id req ("WDR-" +++ x.show_int nanos)
    ignore (delete (wallet_key user_id))
    ignore (delete (history_key user_id))

  abbrev pub result_of : User × Option Wallet → Action UserLookupResult
  result_of (user, none) = fail GoError.not_found
  result_of (user, some wallet) =
      pure (record { name = user.name; account_number = wallet.account_number })

  unfoldable pub lookup_user : String → Action UserLookupResult
  lookup_user query = do
    found ← find_user_by_email_or_account query
    user ← nil_as (GoError.panicked "nil pointer dereference") found
    result_of user
