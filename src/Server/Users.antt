-- ===== src/Server/Users.antt =====
-- internals/server/user_handler.go and internals/server/transaction_pin.go.
use mzl_payment_app.Common.{
  String, Option, none, some, [], ◌∷◌, ◌==◌, if◌then◌else◌, ltb, Bool, false,
}
use mzl_payment_app.Go.{GoError, is_not_found}
use mzl_payment_app.External.{Externals}
use mzl_payment_app.Schema.Tables.{User}
use mzl_payment_app.Service.Auth.{get_user_by_id, set_transaction_pin}
use mzl_payment_app.Service.Wallet.{UserLookupResult, lookup_user}
use mzl_payment_app.Server.Http.{
  Leaf, Value, Reply, Handler, field, json, error_json, ◌>>=◌, ◌>>◌, refuse_if, decoded_or,
  read_body, user_or_refuse, call, answer, run,
}
use mzl_payment_app.Server.Wallets.{internal_error}
use mzl_payment_app.Server.Payments.{refused_as}

module _ ⦃x : Externals⦄ where
  -- `ok && len(pin) > 0`
  abbrev pub has_pin : Option String → Bool
  has_pin none = false
  has_pin (some pin) = ltb 0 (x.byte_length pin)

  abbrev pub profile_answer : User → Reply x.F
  profile_answer user = json 200 (
      field "status" "success"
      ∷ field "message" "user profile retrieved"
      ∷ (
        "data",
        Value.object (
            ("id", Leaf.text user.id)
            ∷ ("email", Leaf.text user.email)
            ∷ ("name", Leaf.text user.name)
            ∷ ("has_pin", Leaf.flag (has_pin user.transaction_pin))
            ∷ []),
      )
      ∷ [])

  unfoldable pub get_user_profile_handler : Handler
  get_user_profile_handler r = run do
    user_id ← user_or_refuse r.user_id
    user ← call (get_user_by_id user_id) internal_error
    answer (profile_answer user)

  abbrev pub lookup_refused : GoError → Reply x.F
  lookup_refused e = if is_not_found e then error_json 404 "user not found" else internal_error e

  abbrev pub lookup_answer : UserLookupResult → Reply x.F
  lookup_answer user = json 200 (
      field "status" "success"
      ∷ field "message" "user found"
      ∷ (
        "data",
        Value.object (
            ("name", Leaf.text user.name) ∷ ("account_number", Leaf.text user.account_number) ∷ []),
      )
      ∷ [])

  unfoldable pub lookup_user_handler : Handler
  lookup_user_handler r = run do
    let text = r.query "q"
    refuse_if (text == "") 400 "query parameter 'q' is required"
    user ← call (lookup_user text) lookup_refused
    answer (lookup_answer user)

  unfoldable pub set_pin_handler : Handler
  set_pin_handler r = run do
    req ← decoded_or (λ _. error_json 400 "invalid request") (read_body x.decode_set_pin r.body)
    user_id ← user_or_refuse r.user_id
    call (set_transaction_pin user_id req.pin) (refused_as 400)
    answer (
        json 200
          (field "status" "success" ∷ field "message" "transaction pin set successfully" ∷ []))
