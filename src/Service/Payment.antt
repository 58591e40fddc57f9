-- ===== src/Service/Payment.antt =====
-- internals/service/payment_service.go: `paymentService`, method by method, and
-- internals/service/paystack.go: `Client.VerifyTransaction`.
pub mod Paystack
pub mod Events
use mzl_payment_app.Common.{
  ℕ, String, Bool, true, false, not, Option, none, some, List, [], ◌∷◌, ◌==◌, ◌&&◌, ◌||◌, eqb,
  if◌then◌else◌,
}
use mzl_payment_app.Common.Text.{◌+++◌}
use mzl_payment_app.Go.{GoError, Result, ok, err}
use mzl_payment_app.External.{Externals}
use mzl_payment_app.External.Messages.{PaystackEvent, VerifyResponse}
use mzl_payment_app.World.{
  Action, pure, fail, ◌>>=◌, ◌>>◌, attempt, ignore, fail_if, lift, wrapped_as,
}
use mzl_payment_app.Schema.Tables.{User, Wallet, Transaction, TransactionStatus}
use mzl_payment_app.Queue.{delete}
use mzl_payment_app.Repository.Wallet.{
  credit_wallet_by_email, refund_withdrawal, update_transaction_status,
  get_transaction_by_reference,
}
use mzl_payment_app.Repository.User.{find_user_by_email}
use Paystack.{verify_transaction, getenv}

abbrev pub wallet_key : String → String
wallet_key user_id = "wallet:" +++ user_id

abbrev pub history_key : String → String
history_key user_id = "tx_history:" +++ user_id

abbrev pub deposit_description : String → String
deposit_description currency = "Deposit via Paystack (" +++ (currency +++ ")")

module _ ⦃x : Externals⦄ where
  abbrev pub verify_paystack_signature : String → String → Bool
  verify_paystack_signature payload signature =
      let secret = getenv "PAYSTACK_SECRET_KEY" in
      if secret == "" then false else x.hmac_sha512_hex secret payload == signature

  -- `user, err := FindUserByEmail(…)`, then `if err == nil && user != nil`
  abbrev pub forget_user : Result (Option User) → Action (Unit {0})
  forget_user (err _) = pure tt
  forget_user (ok none) = pure tt
  forget_user (ok (some user)) = do
    ignore (delete (wallet_key user.id))
    ignore (delete (history_key user.id))

  unfoldable pub credit_charge : PaystackEvent x.F → Action (Unit {0})
  credit_charge event = do
    user ← attempt (find_user_by_email event.email)
    forget_user user
    credit_wallet_by_email event.email event.currency (x.div event.amount x.hundred_f)
        event.reference (deposit_description event.currency) "PAYSTACK"

  -- What the event asks for.
  unfoldable pub apply_event : PaystackEvent x.F → Action (Unit {0})
  apply_event event =
      if event.event == "charge.success" && event.status == "success"
      then credit_charge event
      else if event.event == "transfer.success"
      then update_transaction_status event.transfer_code TransactionStatus.success
      else if event.event == "transfer.failed" || event.event == "transfer.reversed"
      then refund_withdrawal event.transfer_code
      else pure tt

  unfoldable pub process_paystack_event : String → Action (Unit {0})
  process_paystack_event payload = do
    event ← wrapped_as "failed to parse webhook body" (lift (x.decode_event payload))
    apply_event event

  abbrev pub forget_wallet : Result (Option User) → Action (Unit {0})
  forget_wallet (err _) = pure tt
  forget_wallet (ok none) = pure tt
  forget_wallet (ok (some user)) = ignore (delete (wallet_key user.id))

  unfoldable pub credit_verified : String → VerifyResponse x.F → Action (Unit {0})
  credit_verified reference data_of =
      credit_wallet_by_email data_of.email data_of.currency (x.div data_of.amount x.hundred_f)
        reference (deposit_description data_of.currency) "PAYSTACK"

  -- `secret_key` is the key that `NewClient` was given.
  unfoldable pub verify_and_credit :
      String → String → Action (Option (Transaction x.F × Option Wallet))
  verify_and_credit secret_key reference = do
    data_of ← wrapped_as "paystack verification failed" (verify_transaction secret_key reference)
    fail_if (not (data_of.payment_status == "success")) (GoError.new "payment failed or abandoned")
    credit_verified reference data_of
    user ← attempt (find_user_by_email data_of.email)
    forget_wallet user
    get_transaction_by_reference reference
