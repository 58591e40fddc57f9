-- ===== src/Server/Wallets.antt =====
-- internals/server/wallet_handler.go and internals/server/transaction_handler.go.
pub mod Funds
use mzl_payment_app.Common.{String, List, [], ◌∷◌, ◌==◌, ◌||◌, if◌then◌else◌}
use mzl_payment_app.Go.{GoError, is_already_processed, is_wallet_not_found, is_not_found}
use mzl_payment_app.External.{Externals}
use mzl_payment_app.External.Requests.{FundRequest}
use mzl_payment_app.Schema.Tables.{Wallet}
use mzl_payment_app.Schema.Assets.{Asset}
use mzl_payment_app.Service.Wallet.{
  get_asset_by_currency, get_wallet_with_assets, fund_wallet, get_transaction_history,
}
use mzl_payment_app.Server.Http.{
  Leaf, Value, Reply, Handler, Handling, field, json, error_json, ◌>>=◌, ◌>>◌, refuse_if,
  decoded_or, read_body, user_or_refuse, call, answer, run,
}

module _ ⦃x : Externals⦄ where
  abbrev pub internal_error : GoError → Reply x.F
  internal_error _ = error_json 500 "internal server error"

  abbrev pub asset_refused : GoError → Reply x.F
  asset_refused e =
      if is_wallet_not_found e || is_not_found e
      then error_json 404 "wallet asset not found for this currency"
      else internal_error e

  -- An answer with a message and one value.
  abbrev pub success_of : String → Leaf x.F → Reply x.F
  success_of text value =
      json 200 (field "status" "success" ∷ field "message" text ∷ ("data", Value.leaf value) ∷ [])

  unfoldable pub get_asset_handler : String → String → Handling (Reply x.F)
  get_asset_handler user_id currency = do
    asset ← call (get_asset_by_currency user_id currency) asset_refused
    answer (success_of "asset retrieved successfully" (Leaf.asset asset))

  abbrev pub wallet_refused : GoError → Reply x.F
  wallet_refused e = if is_not_found e then error_json 404 "wallet not found" else internal_error e

  abbrev pub wallet_answer : Wallet × List Asset → Reply x.F
  wallet_answer (wallet, found) = json 200 (
      field "status" "success"
      ∷ field "message" "wallet retrieved successfully"
      ∷ (
        "data",
        Value.object (
            ("id", Leaf.text wallet.id)
            ∷ ("account_number", Leaf.text wallet.account_number)
            ∷ ("assets", Leaf.assets found)
            ∷ []),
      )
      ∷ [])

  unfoldable pub get_whole_wallet_handler : String → Handling (Reply x.F)
  get_whole_wallet_handler user_id = do
    wallet ← call (get_wallet_with_assets user_id) wallet_refused
    answer (wallet_answer wallet)

  unfoldable pub get_wallet_handler : Handler
  get_wallet_handler r = run do
    user_id ← user_or_refuse r.user_id
    (if r.query "currency" == ""
        then get_whole_wallet_handler user_id
        else get_asset_handler user_id (r.query "currency"))

  abbrev pub fund_repeated : Reply x.F
  fund_repeated =
      json 200 (
        field "status" "success"
        ∷ field "message" "transaction already processed (idempotent)"
        ∷ [])

  abbrev pub fund_refused : GoError → Reply x.F
  fund_refused e =
      if is_already_processed e
      then fund_repeated
      else if is_wallet_not_found e
      then error_json 404 "wallet currency not supported "
      else internal_error e

  abbrev pub fund_answer : FundRequest x.F → String → Reply x.F
  fund_answer req key = json 200 (
      field "status" "success"
      ∷ field "message" "wallet funded successfully"
      ∷ (
        "data",
        Value.object (
            ("amount", Leaf.number req.amount)
            ∷ ("currency", Leaf.text req.currency)
            ∷ ("reference", Leaf.text key)
            ∷ []),
      )
      ∷ [])

  unfoldable pub fund_wallet_handler : Handler
  fund_wallet_handler r = run do
    let key = r.header "Idempotency-Key"
    refuse_if (key == "") 400 "missing Idempotency-Key header"
    req ← decoded_or (λ _. error_json 400 "invalid request body") (read_body x.decode_fund r.body)
    refuse_if (req.currency == "" || x.le req.amount x.zero_f) 400
        "valid currency and amount greater than 0 are required"
    user_id ← user_or_refuse r.user_id
    call (fund_wallet user_id req.currency req.amount key req.description) fund_refused
    answer (fund_answer req key)

  unfoldable pub get_transaction_history_handler : Handler
  get_transaction_history_handler r = run do
    user_id ← user_or_refuse r.user_id
    found ← call (get_transaction_history user_id) internal_error
    answer (success_of "transaction history retrieved" (Leaf.transactions found))
