-- ===== src/Tests/Handlers.antt =====
-- The handlers and the middlewares on the small database.
use mzl_payment_app.Common.{
  String, ◌≡◌, ◌≢◌, arith, ◌⊎◌, refl, Option, none, some, [], ◌∷◌, ◌==◌, if◌then◌else◌,
}
use mathlib.Core.List.Memᴰ.{head, tail}
use mzl_payment_app.Go.{ok}
use mzl_payment_app.Config.{load}
use mzl_payment_app.World.{World, http_send}
use mzl_payment_app.World.Ends.{Ends}
use mzl_payment_app.Service.Auth.{
  TokenPair, generate_token_pair, set_transaction_pin, verify_transaction_pin, hash_password,
}
use mzl_payment_app.Service.Auth.PinRoundtrip.{set_transaction_pin-verify_transaction_pin}
use mzl_payment_app.Service.Wallet.{swap_funds, fetch_exchange_rate, read_rate, renamed_as}
use mzl_payment_app.Service.Wallet.Swaps.{Exchanged, swap_funds-Ends}
use mzl_payment_app.Service.Wallet.Keys.{Dropped}
use mzl_payment_app.Queue.Locks.{IsHeld}
use mzl_payment_app.Repository.User.{update_transaction_pin, get_transaction_pin}
use mzl_payment_app.Schema.Users.{update_pin}
use mzl_payment_app.Middlewares.{middleware_auth_handler, with_user}
use mzl_payment_app.Middlewares.Tokens.{
  Decided, Authorised, Authorised-split, Unauthorised, after_clock, middleware_auth_handler-Decided,
}
use mzl_payment_app.Middlewares.Roundtrip.{generate_token_pair-middleware_auth_handler}
use mzl_payment_app.Server.Http.{Incoming, error_json}
use mzl_payment_app.Server.Transfers.{
  transfer_funds_handler, swap_handler, transfer_answer, swap_answer,
}
use mzl_payment_app.Server.Transfers.Checked.{Paid, IsRefusal, transfer_funds_handler-Ends}
use mzl_payment_app.Server.Transfers.Swapping.{Exchange, IsSwapRefusal, swap_handler-Ends}
use mzl_payment_app.Server.Payments.{withdrawal_handler}
use mzl_payment_app.Server.Payments.Withdrawals.{PaidTwice, withdrawal_handler-Ends}
use mzl_payment_app.Server.Wallets.{get_wallet_handler}
use mzl_payment_app.Server.Rates.{
  get_exchange_rates_handler, fetch_rates, read_cache, write_cache, rates_answer,
}
use mzl_payment_app.Server.Rates.Cache.{Expires, get_exchange_rates_handler_again}
use mzl_payment_app.Server.Routes.{route}
use mzl_payment_app.Server.Routes.Guarded.{routes_need_token}
use mzl_payment_app.Server.Http.{call, perform, refuse_if, decoded_or, user_or_refuse}
use mzl_payment_app.Tests.Int.{ℤ, pos, mul_ℤ}
use mzl_payment_app.Tests.Platform.{platform, platform-IsReliable}
use mzl_payment_app.Tests.Messages.{transfer_body}
use mzl_payment_app.Tests.Repository.{start}
use mzl_payment_app.Tests.Services.{service_runs}

unfoldable pub handler_runs : Unit {0}
unfolding service_runs generate_token_pair set_transaction_pin verify_transaction_pin hash_password
    update_transaction_pin update_pin middleware_auth_handler get_exchange_rates_handler fetch_rates
    read_cache write_cache call perform refuse_if decoded_or user_or_refuse transfer_funds_handler
    get_transaction_pin http_send swap_handler swap_funds fetch_exchange_rate read_rate renamed_as
handler_runs = tt

-- A request with a body, a header `Authorization` and an idempotency key.
abbrev pub request : String → String → Option String → Incoming
request authorization body user_id = record {
  method = "POST";
  header = λ name.
      if name == "Authorization"
      then authorization
      else if name == "Idempotency-Key"
      then "r1"
      else "";
  query = λ _. "";
  cookie = λ _. none;
  body = ok body;
  user_id = user_id;
}

-- Ada has the token `.u1`.
abbrev signed_in : Incoming
signed_in = request "Bearer .u1" "1234" none

middleware_auth_handler-Decided_example :
    Decided load get_wallet_handler signed_in start
      (middleware_auth_handler load get_wallet_handler signed_in start)
middleware_auth_handler-Decided_example =
    middleware_auth_handler-Decided load get_wallet_handler signed_in start

abbrev pair : TokenPair
pair = record { access_token = ".u1"; refresh_token = "/u1" }

generate_token_pair-middleware_auth_handler_example :
    middleware_auth_handler load get_wallet_handler signed_in start
    ≡ get_wallet_handler (with_user "u1" signed_in) (after_clock start)
unfolding handler_runs
generate_token_pair-middleware_auth_handler_example =
    generate_token_pair-middleware_auth_handler "secret" "u1" start start pair get_wallet_handler
      signed_in refl refl refl (omega arith)

no_header : (user_id : String) → ¬ Authorised load (request "" "" none) 0 user_id
no_header user_id h =
    let words = Authorised-split load (request "" "" none) 0 user_id h in absurd (ground arith)

routes_need_token_example :
    Unauthorised start (middleware_auth_handler load get_wallet_handler (request "" "" none) start)
routes_need_token_example =
    routes_need_token
      (route "Get Wallet" "GET" "/api/v1/wallet" (middleware_auth_handler load get_wallet_handler))
      (request "" "" none) start (tail (tail (tail (tail (tail (head refl)))))) refl
      (λ (user_id, h). no_header user_id h)

transfer_funds_handler-Ends_example :
    Ends
      (λ reply w'.
        Paid (request "" "1234" (some "u1")) start.tables w'.tables reply
        ⊎ (IsRefusal reply × (w'.tables ≡ start.tables)))
      (λ _ w'. w'.tables ≡ start.tables)
      (transfer_funds_handler (request "" "1234" (some "u1")) start)
transfer_funds_handler-Ends_example =
    transfer_funds_handler-Ends (request "" "1234" (some "u1")) start.tables start refl

-- The transfer that is answered as successful.
transfer_test :
    (transfer_funds_handler (request "" "1234" (some "u1")) start).0
    ≡ ok (transfer_answer (transfer_body "1234") "Bola")
unfolding handler_runs
transfer_test = refl

-- Another PIN is refused.
wrong_pin_test :
    (transfer_funds_handler (request "" "4321" (some "u1")) start).0
    ≡ ok (error_json 401 "incorrect transaction pin")
unfolding handler_runs
wrong_pin_test = refl

swap_handler-Ends_example :
    Ends
      (λ reply w'.
        Exchange (request "" "1234" (some "u1")) start.tables w'.tables reply
        ⊎ (IsSwapRefusal reply × (w'.tables ≡ start.tables)))
      (λ _ w'. w'.tables ≡ start.tables)
      (swap_handler (request "" "1234" (some "u1")) start)
swap_handler-Ends_example =
    swap_handler-Ends (request "" "1234" (some "u1")) start.tables start refl

swap_test :
    (swap_handler (request "" "1234" (some "u1")) start).0
    ≡ ok (
        swap_answer (record {
          source_currency = "NGN";
          source_amount = pos 20;
          dest_currency = "USD";
          dest_amount = pos 40;
          rate = pos 2;
        }))
unfolding handler_runs
swap_test = refl

swap_funds-Ends_example :
    Ends
      (λ result w'.
        Exchanged "r1" start.tables "u1" "NGN" "USD" (pos 20) result.rate w'.tables
        × (result.dest_amount ≡ mul_ℤ (pos 20) result.rate)
        × IsHeld "r1" w'.keys)
      (Dropped "r1" start.tables)
      (swap_funds "u1" "NGN" "USD" (pos 20) "r1" start)
swap_funds-Ends_example =
    swap_funds-Ends platform-IsReliable "r1" start.tables "u1" "NGN" "USD" (pos 20) start refl

withdrawal_handler-Ends_example :
    Ends
      (λ reply w'.
        ((reply.status ≡ 200) × PaidTwice (request "" "1234" (some "u1")) start.tables [] w')
        ⊎ ((reply.status ≢ 200) × (w'.tables ≡ start.tables)))
      (λ _ w'. w'.tables ≡ start.tables)
      (withdrawal_handler (request "" "1234" (some "u1")) start)
withdrawal_handler-Ends_example =
    withdrawal_handler-Ends (request "" "1234" (some "u1")) start.tables [] start (refl, refl)

-- Ada sets another PIN.
abbrev pin_changed : World ℤ
pin_changed = (set_transaction_pin "u1" "5678" start).1

set_transaction_pin-verify_transaction_pin_example :
    Ends
      (λ _ _. Unit {0})
      (λ e _. platform.IsOutage e)
      (verify_transaction_pin "u1" "5678" pin_changed)
unfolding handler_runs
set_transaction_pin-verify_transaction_pin_example =
    set_transaction_pin-verify_transaction_pin "u1" "5678" start pin_changed refl refl

abbrev rates_read : World ℤ
rates_read = (get_exchange_rates_handler signed_in start).1

get_exchange_rates_handler_again_example :
    ((get_exchange_rates_handler signed_in rates_read).0
      ≡ ok (rates_answer (some (("NGN", pos 1500) ∷ []))))
    × ((get_exchange_rates_handler signed_in rates_read).1.requests ≡ rates_read.requests)
    × Expires 0 rates_read
unfolding handler_runs
get_exchange_rates_handler_again_example =
    get_exchange_rates_handler_again signed_in signed_in start rates_read
      (rates_answer (some (("NGN", pos 1500) ∷ []))) (("NGN", pos 1500) ∷ []) refl refl refl refl
      (omega arith)
