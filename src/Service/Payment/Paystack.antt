-- ===== src/Service/Payment/Paystack.antt =====
-- internals/service/payment_service.go and internals/service/paystack.go: the calls of the Paystack
-- API.
use mzl_payment_app.Common.{
  String, not, Option, none, some, List, [], ◌∷◌, ◌==◌, eqb, if◌then◌else◌,
}
use mzl_payment_app.Common.Text.{◌+++◌}
use mzl_payment_app.Go.{GoError, Result, ok, err}
use mzl_payment_app.External.{Externals}
use mzl_payment_app.External.Http.{Field, Request}
use mzl_payment_app.External.Messages.{
  PaystackInitResponse, PaystackTransferResponse, VerifyResponse,
}
use mzl_payment_app.World.{
  Action, pure, fail, ◌>>=◌, ◌>>◌, attempt, ignore, fail_if, lift, wrapped_as, http_send,
}
use mzl_payment_app.Queue.{get_value, set_value}

abbrev pub or_empty : Option String → String
or_empty none = ""
or_empty (some s) = s

abbrev pub channels_of : String → List String
channels_of currency =
    if currency == "NGN"
    then "card" ∷ "bank_transfer" ∷ "ussd" ∷ "bank" ∷ "qr" ∷ "mobile_money" ∷ "apple_pay" ∷ []
    else if currency == "GHS"
    then "card" ∷ "mobile_money" ∷ []
    else if currency == "ZAR"
    then "card" ∷ "eft" ∷ []
    else if currency == "USD"
    then "card" ∷ "apple_pay" ∷ []
    else "card" ∷ []

abbrev pub recipient_type : String → String
recipient_type currency =
    if currency == "NGN"
    then "nuban"
    else if currency == "GHS"
    then "mobile_money"
    else if currency == "ZAR"
    then "basa"
    else "nuban"

module _ ⦃x : Externals⦄ where
  -- `os.Getenv`
  abbrev pub getenv : String → String
  getenv name = or_empty (x.lookup_env name)

  abbrev pub post : String → String → List (String × Field x.F) → Request x.F
  post url secret body = record {
    method = "POST";
    url = url;
    authorization = "Bearer " +++ secret;
    content_type = "application/json";
    body = body;
  }

  abbrev pub get_request : String → String → String → Request x.F
  get_request url secret content_type = record {
    method = "GET";
    url = url;
    authorization = "Bearer " +++ secret;
    content_type = content_type;
    body = [];
  }

  abbrev pub callback_url : String
  callback_url =
      let url = getenv "PAYSTACK_CALLBACK_URL" in
      if url == "" then "http://localhost:8080/webhooks/paystack" else url

  abbrev pub init_body : String → String → x.F → List (String × Field x.F)
  init_body email currency amount =
      ("email", Field.text email)
      ∷ ("amount", Field.float (x.mul amount x.hundred_f))
      ∷ ("currency", Field.text currency)
      ∷ ("callback_url", Field.text callback_url)
      ∷ ("channels", Field.texts (channels_of currency))
      ∷ []

  unfoldable pub initialize_transaction : String → String → x.F → Action PaystackInitResponse
  initialize_transaction email currency amount = do
    fail_if (getenv "PAYSTACK_SECRET_KEY" == "") (GoError.new "paystack secret key is missing")
    lift (x.new_request "https://api.paystack.co/transaction/initialize")
    resp ← http_send (
        post "https://api.paystack.co/transaction/initialize" (getenv "PAYSTACK_SECRET_KEY")
          (init_body email currency amount))
    result ← lift (x.decode_init resp.body)
    fail_if (not result.status) (GoError.new ("paystack error: " +++ result.message))
    pure result

  -- `req, _ := http.NewRequest(…)`, and `req` is used
  abbrev pub or_panic : Result (Unit {0}) → Action (Unit {0})
  or_panic (ok u) = pure u
  or_panic (err _) = fail (GoError.panicked "nil pointer dereference")

  abbrev pub currency_or_ngn : String → String
  currency_or_ngn currency = if currency == "" then "NGN" else currency

  -- What a cache hit spares.
  unfoldable pub fetch_bank_list : String → Action (List String)
  fetch_bank_list currency = do
    or_panic (x.new_request ("https://api.paystack.co/bank?currency=" +++ currency))
    resp ← http_send (
        get_request ("https://api.paystack.co/bank?currency=" +++ currency)
          (getenv "PAYSTACK_SECRET_KEY") "")
    result ← lift (x.decode_banks resp.body)
    fail_if (not result.status) (GoError.new ("paystack error: " +++ result.message))
    ignore (set_value x.banks_codec ("banks:" +++ currency) result.banks 86400)
    pure result.banks

  abbrev pub banks_or_fetch : String → Result (List String) → Action (List String)
  banks_or_fetch currency (ok banks) = pure banks
  banks_or_fetch currency (err _) = fetch_bank_list currency

  unfoldable pub get_bank_list : String → Action (List String)
  get_bank_list currency = do
    cached ← attempt (get_value x.banks_codec ("banks:" +++ currency_or_ngn currency))
    banks_or_fetch (currency_or_ngn currency) cached

  abbrev pub resolve_url : String → String → String
  resolve_url number bank_code =
      "https://api.paystack.co/bank/resolve?account_number="
      +++ (number +++ ("&bank_code=" +++ bank_code))

  unfoldable pub resolve_bank_account : String → String → Action String
  resolve_bank_account number bank_code = do
    lift (x.new_request (resolve_url number bank_code))
    resp ← http_send (get_request (resolve_url number bank_code) (getenv "PAYSTACK_SECRET_KEY") "")
    result ← lift (x.decode_resolve resp.body)
    fail_if (not result.status) (GoError.new ("could not resolve account: " +++ result.message))
    pure result.account_name

  abbrev pub recipient_body : String → String → String → String → List (String × Field x.F)
  recipient_body name number bank_code currency =
      ("type", Field.text (recipient_type currency))
      ∷ ("name", Field.text name)
      ∷ ("account_number", Field.text number)
      ∷ ("bank_code", Field.text bank_code)
      ∷ ("currency", Field.text currency)
      ∷ []

  unfoldable pub create_transfer_recipient : String → String → String → String → Action String
  create_transfer_recipient name number bank_code currency = do
    lift (x.new_request "https://api.paystack.co/transferrecipient")
    resp ← http_send (
        post "https://api.paystack.co/transferrecipient" (getenv "PAYSTACK_SECRET_KEY")
          (recipient_body name number bank_code currency))
    result ← lift (x.decode_recipient resp.body)
    fail_if (not result.status) (GoError.new ("paystack recipient error: " +++ result.message))
    pure result.recipient_code

  abbrev pub transfer_body : x.F → String → String → String → List (String × Field x.F)
  transfer_body amount recipient reference reason =
      ("source", Field.text "balance")
      ∷ ("amount", Field.float (x.mul amount x.hundred_f))
      ∷ ("recipient", Field.text recipient)
      ∷ ("reference", Field.text reference)
      ∷ ("reason", Field.text reason)
      ∷ []

  abbrev pub transfer_request : x.F → String → String → String → Request x.F
  transfer_request amount recipient reference reason =
      post "https://api.paystack.co/transfer" (getenv "PAYSTACK_SECRET_KEY")
        (transfer_body amount recipient reference reason)

  unfoldable pub initiate_transfer :
      x.F → String → String → String → Action PaystackTransferResponse
  initiate_transfer amount recipient reference reason = do
    lift (x.new_request "https://api.paystack.co/transfer")
    resp ← http_send (transfer_request amount recipient reference reason)
    result ← lift (x.decode_transfer resp.body)
    fail_if (not result.status) (GoError.new ("transfer error: " +++ result.message))
    pure result

  abbrev pub verify_url : String → String
  verify_url reference = "https://api.paystack.co/transaction/verify/" +++ reference

  unfoldable pub verify_transaction : String → String → Action (VerifyResponse x.F)
  verify_transaction secret_key reference = do
    lift (x.new_request (verify_url reference))
    resp ←
        wrapped_as "request failed"
          (http_send (get_request (verify_url reference) secret_key "application/json"))
    fail_if (not (eqb resp.status_code 200))
        (GoError.new ("paystack returned non-200 status: " +++ x.show_int resp.status_code))
    wrapped_as "failed to decode response" (lift (x.decode_verify resp.body))
