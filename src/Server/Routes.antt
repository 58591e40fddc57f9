-- ===== src/Server/Routes.antt =====
-- internals/server/routes.go, internals/server/logger.go, `CORSMiddleware` and `RateLimit` of
-- internals/server/server.go. The router that the routes are registered with is chi's.
pub mod Guarded
pub mod Cors
use mzl_payment_app.Common.{
  ℕ, String, Bool, Option, none, some, List, [], ◌∷◌, ◌++◌, ◌==◌, ◌||◌, if◌then◌else◌,
}
use mzl_payment_app.External.{Externals}
use mzl_payment_app.World.{World, Action, pure, ◌>>=◌, now}
use mzl_payment_app.Config.{load}
use mzl_payment_app.Service.Payment.Paystack.{getenv}
use mzl_payment_app.Middlewares.{middleware_auth_handler, rate_limit_handler, add_middlewares}
use mzl_payment_app.Server.Http.{Incoming, Reply, Handler, json}
use mzl_payment_app.Server.Webhook.{paystack_webhook_handler}
use mzl_payment_app.Server.Transfers.{transfer_funds_handler, swap_handler}
use mzl_payment_app.Server.Sessions.{register_handler, login_handler, logout, refresh_token_handler}
use mzl_payment_app.Server.Wallets.{
  get_wallet_handler, fund_wallet_handler, get_transaction_history_handler,
}
use mzl_payment_app.Server.Payments.{
  get_banks_detail_handler, resolve_account_details_handler, withdrawal_handler,
  verify_payment_handler, initiate_payment_handler,
}
use mzl_payment_app.Server.Users.{get_user_profile_handler, lookup_user_handler, set_pin_handler}
use mzl_payment_app.Server.Rates.{get_exchange_rates_handler}
use mzl_payment_app.Server.Health.{handle_health}

module _ ⦃x : Externals⦄ where
  -- A status code alone is the answer of the webhook.
  unfoldable pub webhook : Handler
  webhook r = do
    status ← paystack_webhook_handler r.body (r.header "x-paystack-signature")
    pure (json status [])

  abbrev pub auth : Handler → Handler
  auth = middleware_auth_handler load

  -- `s.RateLimit(limit, time.Minute)`
  abbrev pub rate_limit : ℕ → Handler → Handler
  rate_limit limit = rate_limit_handler limit 60

  pub record Route : Type 0 where
    pub name : String
    pub method : String
    pub pattern : String
    pub handler_func : Handler

  abbrev pub route : String → String → String → Handler → Route
  route name method pattern handler = record {
    name = name;
    method = method;
    pattern = pattern;
    handler_func = handler;
  }

  abbrev pub routes : List Route
  routes =
      route "Health Check" "GET" "/health" handle_health
      ∷ route "Register User" "POST" "/api/v1/auth/register" register_handler
      ∷ route "Login User" "POST" "/api/v1/auth/login" login_handler
      ∷ route "Logout User" "POST" "/api/v1/auth/logout" logout
      ∷ route "Fund Wallet" "POST" "/api/v1/wallet/fund"
          (add_middlewares fund_wallet_handler (auth ∷ []))
      ∷ route "Get Wallet" "GET" "/api/v1/wallet" (add_middlewares get_wallet_handler (auth ∷ []))
      ∷ route "Swap Funds" "POST" "/api/v1/swap"
          (add_middlewares swap_handler (auth ∷ rate_limit 10 ∷ []))
      ∷ route "Transfer Funds" "POST" "/api/v1/wallet/transfer"
          (add_middlewares transfer_funds_handler (auth ∷ rate_limit 5 ∷ []))
      ∷ route "Transaction History" "GET" "/api/v1/transactions"
          (add_middlewares get_transaction_history_handler (auth ∷ []))
      ∷ route "Get Rate" "GET" "/api/v1/rates"
          (add_middlewares get_exchange_rates_handler (auth ∷ []))
      ∷ route "Get User Profile" "GET" "/api/v1/user"
          (add_middlewares get_user_profile_handler (auth ∷ []))
      ∷ route "Set PIN" "POST" "/api/v1/auth/pin" (add_middlewares set_pin_handler (auth ∷ []))
      ∷ route "Webhook Trigger" "POST" "/api/v1/webhooks/paystack" webhook
      ∷ route "Verify Payment" "GET" "/api/v1/transaction/verify"
          (add_middlewares verify_payment_handler (auth ∷ []))
      ∷ route "initiate paystack" "POST" "/api/v1/paystack/initiate"
          (add_middlewares initiate_payment_handler (auth ∷ []))
      ∷ route "GET Banks" "GET" "/api/v1/banks"
          (add_middlewares get_banks_detail_handler (auth ∷ []))
      ∷ route "GET Receipient detail" "POST" "/api/v1/banks/resolve"
          (add_middlewares resolve_account_details_handler (auth ∷ []))
      ∷ route "withdraw funds" "POST" "/api/v1/withdraw"
          (add_middlewares withdrawal_handler (auth ∷ rate_limit 5 ∷ []))
      ∷ route "rotate Refresh token" "POST" "/api/v1/auth/refresh" refresh_token_handler
      ∷ route "Look Up user" "GET" "/api/v1/users/lookup" lookup_user_handler
      ∷ []

  -- The request is handled between two looks at the clock; a panic goes past the second.
  unfoldable pub logger : Handler → Handler
  logger next r = do start ← now; reply ← next r; finish ← now; pure reply

  abbrev pub is_registered : String → Bool
  is_registered method =
      method == "GET" || method == "POST" || method == "PUT" || method == "DELETE"

  -- What the router is given: the method, the pattern and the handler.
  abbrev pub register_routes : List Route → List (String × String × Handler)
  register_routes [] = []
  register_routes (r ∷ rest) =
      let others = register_routes rest in
      if is_registered r.method
      then (r.method, r.pattern, logger r.handler_func) ∷ others
      else others

  abbrev pub allowed_origin : String → List (String × String)
  allowed_origin origin =
      if origin == "http://localhost:5173" || origin == getenv "FRONT_END_URL"
      then ("Access-Control-Allow-Origin", origin) ∷ []
      else []

  abbrev pub cors_headers : String → List (String × String)
  cors_headers origin =
      allowed_origin origin
      ++ ("Access-Control-Allow-Credentials", "true")
        ∷ ("Access-Control-Allow-Methods", "GET, POST, PUT, DELETE, OPTIONS")
        ∷ (
          "Access-Control-Allow-Headers",
          "Content-Type, Authorization, X-Requested-With, Idempotency-Key",
        )
        ∷ []

  abbrev pub with_headers : List (String × String) → Reply x.F → Reply x.F
  with_headers headers reply = record reply { headers = headers ++ reply.headers }

  abbrev pub serve_with : List (String × String) → Action (Reply x.F) → Action (Reply x.F)
  serve_with headers next = do reply ← next; pure (with_headers headers reply)

  unfoldable pub cors_middleware : Handler → Handler
  cors_middleware next r =
      let headers = cors_headers (r.header "Origin") in
      if r.method == "OPTIONS"
      then pure (with_headers headers (json 200 []))
      else serve_with headers (next r)
