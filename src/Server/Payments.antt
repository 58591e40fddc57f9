-- ===== src/Server/Payments.antt =====
-- internals/server/payment_handler.go, and `InitiatePaymentHandler` of
-- internals/server/paystack_handler.go.
pub mod Withdrawals
use mzl_payment_app.Common.{ℕ, String, Option, none, some, [], ◌∷◌, ◌==◌}
use mzl_payment_app.Common.Text.{◌+++◌}
use mzl_payment_app.Go.{GoError, message}
use mzl_payment_app.External.{Externals}
use mzl_payment_app.External.Messages.{PaystackInitResponse}
use mzl_payment_app.World.{fail, now}
use mzl_payment_app.Config.{load}
use mzl_payment_app.Service.Auth.{verify_transaction_pin, get_user_by_id}
use mzl_payment_app.Service.Payment.{verify_and_credit}
use mzl_payment_app.Service.Payment.Paystack.{
  initialize_transaction, get_bank_list, resolve_bank_account, create_transfer_recipient,
  initiate_transfer, or_empty,
}
use mzl_payment_app.Service.Wallet.{withdraw_funds}
use mzl_payment_app.Server.Http.{
  Leaf, Value, Reply, Handler, Handling, field, json, error_json, ◌>>=◌, ◌>>◌, refuse_if,
  decoded_or, read_body, call, perform, answer, run,
}
use mzl_payment_app.Server.Transfers.{wrong_pin}
use mzl_payment_app.Server.Wallets.{success_of}

module _ ⦃x : Externals⦄ where
  -- An error whose text is the answer.
  abbrev pub refused_as : ℕ → GoError → Reply x.F
  refused_as status e = error_json status (message e)

  -- The same, behind a prefix.
  abbrev pub refused_wrapped : ℕ → String → GoError → Reply x.F
  refused_wrapped status prefix e = error_json status (message (GoError.wrapped prefix e))

  unfoldable pub get_banks_detail_handler : Handler
  get_banks_detail_handler r = run do
    banks ← call (get_bank_list (r.query "currency")) (refused_as 502)
    answer (json 200 (field "status" "success" ∷ ("data", Value.leaf (Leaf.texts banks)) ∷ []))

  abbrev pub account_answer : String → String → Reply x.F
  account_answer name number = json 200 (
      field "status" "success"
      ∷ (
        "data",
        Value.object (("account_name", Leaf.text name) ∷ ("account_number", Leaf.text number) ∷ []),
      )
      ∷ [])

  unfoldable pub resolve_account_details_handler : Handler
  resolve_account_details_handler r = run do
    req ←
        decoded_or (λ _. error_json 400 "invalid request")
          (read_body x.decode_resolve_account r.body)
    name ← call (resolve_bank_account req.account_number req.bank_code) (refused_as 400)
    answer (account_answer name req.account_number)

  -- `r.Context().Value(middlewares.UserIDKey).(string)`
  unfoldable pub context_user_or_panic : Option String → Handling String
  context_user_or_panic (some user_id) k = k user_id
  context_user_or_panic none k = fail (GoError.panicked "interface conversion")

  unfoldable pub withdrawal_handler : Handler
  withdrawal_handler r = run do
    req ← decoded_or (λ _. error_json 400 "invalid request") (read_body x.decode_withdrawal r.body)
    user_id ← context_user_or_panic r.user_id
    call (verify_transaction_pin user_id req.pin) wrong_pin
    recipient_code ←
        call
          (create_transfer_recipient req.account_name req.account_number req.bank_code req.currency)
          (refused_wrapped 502 "recipient creation failed")
    nanos ← perform now
    sent ←
        call (initiate_transfer req.amount recipient_code ("WDR-" +++ x.show_int nanos) req.reason)
          (refused_wrapped 502 "transfer failed")
    call (withdraw_funds user_id req) (λ _. error_json 500 "system error processing withdrawal")
    answer (success_of "Withdrawal processing" (Leaf.transfer sent))

  unfoldable pub verify_payment_handler : Handler
  verify_payment_handler r = run do
    let reference = r.query "reference"
    refuse_if (reference == "") 400 "reference is required"
    result ← call (verify_and_credit load.paystack_secret_key reference) (refused_as 400)
    answer (success_of "Payment verified successfully" (Leaf.payment result))

  abbrev pub initiate_answer : PaystackInitResponse → Reply x.F
  initiate_answer data_of = json 200 (
      field "status" "success"
      ∷ (
        "data",
        Value.object (
            ("authorization_url", Leaf.text data_of.authorization_url)
            ∷ ("reference", Leaf.text data_of.reference)
            ∷ []),
      )
      ∷ [])

  -- `userID, _ := val.(string)`
  unfoldable pub initiate_payment_handler : Handler
  initiate_payment_handler r = run do
    user ← call (get_user_by_id (or_empty r.user_id)) (refused_as 500)
    req ← decoded_or (λ _. error_json 400 "invalid request") (read_body x.decode_initiate r.body)
    data_of ← call (initialize_transaction user.email req.currency req.amount) (refused_as 400)
    answer (initiate_answer data_of)
