-- ===== src/Server/Transfers.antt =====
-- internals/server/transfer_handler.go and internals/server/swap_handler.go.
pub mod Checked
pub mod Swapping
use mzl_payment_app.Common.{String, [], ◌∷◌, ◌==◌, ◌||◌, if◌then◌else◌}
use mzl_payment_app.Go.{GoError, message, is_already_processed}
use mzl_payment_app.External.{Externals}
use mzl_payment_app.External.Requests.{TransferRequest}
use mzl_payment_app.Service.Auth.{verify_transaction_pin}
use mzl_payment_app.Service.Wallet.{SwapResult, transfer_funds, swap_funds}
use mzl_payment_app.Server.Http.{
  Leaf, Value, Reply, Handler, field, json, error_json, ◌>>=◌, ◌>>◌, refuse_if, decoded_or,
  read_body, user_or_refuse, call, answer, run,
}

module _ ⦃x : Externals⦄ where
  abbrev pub wrong_pin : GoError → Reply x.F
  wrong_pin _ = error_json 401 "incorrect transaction pin"

  abbrev pub transfer_repeated : TransferRequest x.F → Reply x.F
  transfer_repeated req = json 200 (
      field "status" "success"
      ∷ field "message" "transfer already processed"
      ∷ (
        "data",
        Value.object (
            ("recipient", Leaf.text req.account_number)
            ∷ ("amount", Leaf.number req.amount)
            ∷ ("currency", Leaf.text req.currency)
            ∷ []),
      )
      ∷ [])

  abbrev pub transfer_refused : TransferRequest x.F → GoError → Reply x.F
  transfer_refused req e =
      if is_already_processed e
      then transfer_repeated req
      else if message e == "insufficient balance"
          || message e == "recipient account number not found"
      then error_json 400 (message e)
      else error_json 500 "transfer processing failed"

  abbrev pub transfer_answer : TransferRequest x.F → String → Reply x.F
  transfer_answer req receiver_name = json 200 (
      field "status" "success"
      ∷ field "message" "transfer successful"
      ∷ (
        "data",
        Value.object (
            ("recipient", Leaf.text req.account_number)
            ∷ ("amount", Leaf.number req.amount)
            ∷ ("currency", Leaf.text req.currency)
            ∷ ("receipientName", Leaf.text receiver_name)
            ∷ []),
      )
      ∷ [])

  unfoldable pub transfer_funds_handler : Handler
  transfer_funds_handler r = run do
    let key = r.header "Idempotency-Key"
    refuse_if (key == "") 400 "missing Idempotency-Key header"
    req ←
        decoded_or (λ _. error_json 400 "invalid request body")
          (read_body x.decode_transfer_funds r.body)
    refuse_if (x.le req.amount x.zero_f) 400 "amount must be greater than zero"
    refuse_if (req.account_number == "" || req.currency == "") 400
        "account number and currency are required"
    user_id ← user_or_refuse r.user_id
    refuse_if (req.pin == "") 400 "transaction pin is required"
    call (verify_transaction_pin user_id req.pin) wrong_pin
    receiver_name ←
        call (transfer_funds user_id req.account_number req.currency req.amount req.description key)
          (transfer_refused req)
    answer (transfer_answer req receiver_name)

  abbrev pub swap_repeated : Reply x.F
  swap_repeated =
      json 200
        (field "status" "success" ∷ field "message" "swap already processed (idempotent)" ∷ [])

  abbrev pub swap_refused : GoError → Reply x.F
  swap_refused e = if is_already_processed e then swap_repeated else error_json 400 (message e)

  abbrev pub swap_answer : SwapResult → Reply x.F
  swap_answer result = json 200 (
      field "status" "success"
      ∷ field "message" "swap successful"
      ∷ (
        "data",
        Value.object (
            ("source_currency", Leaf.text result.source_currency)
            ∷ ("source_amount", Leaf.number result.source_amount)
            ∷ ("dest_currency", Leaf.text result.dest_currency)
            ∷ ("dest_amount", Leaf.number result.dest_amount)
            ∷ ("rate", Leaf.number result.rate)
            ∷ []),
      )
      ∷ [])

  unfoldable pub swap_handler : Handler
  swap_handler r = run do
    let key = r.header "Idempotency-Key"
    refuse_if (key == "") 400 "missing Idempotency-Key header"
    req ← decoded_or (λ _. error_json 400 "invalid request body") (read_body x.decode_swap r.body)
    refuse_if (x.le req.amount x.zero_f) 400 "amount must be greater than zero"
    user_id ← user_or_refuse r.user_id
    call (verify_transaction_pin user_id req.pin) wrong_pin
    result ← call (swap_funds user_id req.from_currency req.to_currency req.amount key) swap_refused
    answer (swap_answer result)
