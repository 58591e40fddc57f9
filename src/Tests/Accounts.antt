-- ===== src/Tests/Accounts.antt =====
-- Accounts, deposits, the queue and the CORS wrapper on the small database.
use mzl_payment_app.Common.{◌≡◌, ◌≢◌, ◌⊎◌, refl, none, List, some, arith, [], ◌∷◌}
use mzl_payment_app.Go.{GoError, ok, err}
use mzl_payment_app.World.{World}
use mzl_payment_app.World.Ends.{Ends}
use mzl_payment_app.Queue.{enqueue, worker_round}
use mzl_payment_app.Queue.Lists.{Holds}
use mzl_payment_app.Queue.Locks.{IsHeld}
use mzl_payment_app.Queue.Retries.{rounds}
use mzl_payment_app.Queue.Drains.{all_tries, SparesQueue, worker_round_drains}
use mzl_payment_app.Repository.User.{create_user_with_wallet}
use mzl_payment_app.Repository.User.Keys.{UserWrite, IsKeyed, apply_users, apply_users-IsKeyed}
use mzl_payment_app.Schema.Users.{create_user, create_wallet}
use mzl_payment_app.Schema.Assets.{create_asset}
use mzl_payment_app.Repository.Wallet.{credit_wallet, get_wallet_with_assets as find_wallet}
use mzl_payment_app.Service.Payment.{process_paystack_event}
use mzl_payment_app.Service.Auth.{register, login}
use mzl_payment_app.Service.Auth.Accounts.{Registered, Remains, SignedIn, register-Ends, login-Ends}
use mzl_payment_app.Service.Wallet.{fund_wallet, get_wallet_with_assets, read_wallet}
use mzl_payment_app.Service.Wallet.Keys.{Dropped}
use mzl_payment_app.Service.Wallet.Funding.{Funded, fund_wallet-Ends}
use mzl_payment_app.Service.Wallet.Fresh.{Write, run_write, Shown, get_wallet_after_write}
use mzl_payment_app.Server.Wallets.{fund_wallet_handler}
use mzl_payment_app.Server.Wallets.Funds.{Deposited, IsFundRefusal, fund_wallet_handler-Ends}
use mzl_payment_app.Server.Http.{Incoming, Reply, json, field}
use mzl_payment_app.Server.Health.{handle_health, connect, ping}
use mzl_payment_app.Server.Routes.{cors_middleware, cors_headers}
use mzl_payment_app.Server.Routes.Cors.{
  Preflight, Passed, TellsOrigin, origin_header, cors_middleware-Ends,
}
use mzl_payment_app.Server.Webhook.{paystack_webhook_handler}
use mzl_payment_app.Server.Webhook.Delivery.{paystack_webhook_handler-worker_round}
use mzl_payment_app.Tests.Int.{ℤ, pos}
use mzl_payment_app.Tests.Platform.{platform, platform-IsReliable}
use mzl_payment_app.Tests.Repository.{start, ada_wallet, ada_ngn}
use mzl_payment_app.Tests.Services.{refuse}
use mzl_payment_app.Tests.Handlers.{handler_runs, request}

unfoldable account_runs : Unit {0}
unfolding handler_runs register login create_user_with_wallet create_user create_wallet create_asset
    fund_wallet credit_wallet
account_runs = tt

-- The event `e` waits, and every try fails.
abbrev waiting : World ℤ
waiting = (enqueue "q" "e" start).1

refuse-SparesQueue : SparesQueue refuse "q"
refuse-SparesQueue = record { queue = λ payload w. refl; dead = λ payload w. refl }

worker_round_drains_example : Holds (rounds refuse "q" (all_tries (".e" ∷ [])) waiting).keys "q" []
unfolding handler_runs
worker_round_drains_example =
    worker_round_drains refuse "q" platform-IsReliable (".e" ∷ []) [] waiting refuse-SparesQueue
      (refl, refl) (refl, refl)

abbrev accepted : World ℤ
accepted = (paystack_webhook_handler (ok "p1") "secretp1" start).1

paystack_webhook_handler-worker_round_example :
    ((paystack_webhook_handler (ok "p1") "secretp1" start).0 ≡ ok 200)
    × ((w1 : World ℤ) × (w1.tables ≡ accepted.tables)
        × ((worker_round process_paystack_event "payment_webhooks" accepted).1.tables
            ≡ (process_paystack_event "p1" w1).1.tables))
unfolding handler_runs
paystack_webhook_handler-worker_round_example =
    paystack_webhook_handler-worker_round platform-IsReliable "p1" "secretp1" "p1" start accepted
      refl refl refl refl refl (refl, refl) refl

register-Ends_example :
    Ends
      (λ u w'. Registered start.tables "eve@x" "pw" "Eve" u w'.tables)
      (λ _ w'. Remains start.tables "eve@x" "pw" "Eve" w'.tables)
      (register "eve@x" "pw" "Eve" start)
register-Ends_example = register-Ends start.tables "eve@x" "pw" "Eve" start refl

login-Ends_example :
    Ends
      (λ pair w'. SignedIn start.tables "ada@x" "pw" pair w'.tables)
      (λ _ w'. w'.tables ≡ start.tables)
      (login "ada@x" "pw" start)
login-Ends_example = login-Ends start.tables "ada@x" "pw" start refl

fund_wallet-Ends_example :
    Ends
      (λ _ w'. Funded "r1" start.tables "u1" "NGN" (pos 20) "gift" w'.tables × IsHeld "r1" w'.keys)
      (Dropped "r1" start.tables)
      (fund_wallet "u1" "NGN" (pos 20) "r1" "gift" start)
fund_wallet-Ends_example =
    fund_wallet-Ends platform-IsReliable "r1" start.tables "u1" "NGN" (pos 20) "gift" start refl

fund_wallet_handler-Ends_example :
    Ends
      (λ reply w'.
        Deposited (request "" "NGN" (some "u1")) start.tables w'.tables reply
        ⊎ (IsFundRefusal reply × (w'.tables ≡ start.tables)))
      (λ _ w'. w'.tables ≡ start.tables)
      (fund_wallet_handler (request "" "NGN" (some "u1")) start)
fund_wallet_handler-Ends_example =
    fund_wallet_handler-Ends (request "" "NGN" (some "u1")) start.tables start refl

-- Ada's login, and the registration of another user under a free and under a taken email.
login_test :
    (login "ada@x" "pw" start).0 ≡ ok (record { access_token = ".u1"; refresh_token = "/u1" })
unfolding account_runs
login_test = refl

wrong_password_test : (login "ada@x" "word" start).0 ≡ err (GoError.new "invalid credentials")
unfolding account_runs
wrong_password_test = refl

taken_test : (register "ada@x" "pw" "Eve" start).0 ≡ err GoError.user_already_exists
unfolding account_runs
taken_test = refl

fund_test : (fund_wallet "u1" "NGN" (pos 20) "r1" "gift" start).0 ≡ ok tt
unfolding account_runs
fund_test = refl

-- Ada's wallet, which was cached before the funding.
abbrev cached : World ℤ
cached = (get_wallet_with_assets "u1" start).1

abbrev gift : Write
gift = Write.fund "NGN" (pos 20) "r1" "gift"

abbrev after_gift : World ℤ
after_gift = (run_write "u1" gift cached).1

stale_test : cached.keys "wallet:u1" ≢ none
unfolding account_runs get_wallet_with_assets read_wallet find_wallet
stale_test e = ground arith

get_wallet_after_write_example :
    Shown "u1" (ada_wallet, record ada_ngn { balance = pos 70 } ∷ []) after_gift
unfolding account_runs get_wallet_with_assets read_wallet find_wallet
get_wallet_after_write_example =
    get_wallet_after_write "u1" platform-IsReliable gift cached _ refl refl

-- A page of the front end asks for the state of the server.
abbrev page : Incoming
page = record (request "" "" none) { header = λ name. "http://localhost:5173" }

healthy_test : (handle_health page start).0 ≡ ok (json 200 (field "status" "healthy" ∷ []))
unfolding account_runs handle_health connect ping
healthy_test = refl

healthy_plain :
    (reply : Reply ℤ) → (handle_health page start).0 ≡ ok reply → origin_header reply.headers ≡ none
healthy_plain reply e =
    let same : json 200 (field "status" "healthy" ∷ []) ≡ reply = ground (arith, healthy_test) in
    rw (← same) refl

cors_middleware-Ends_example :
    Ends
      (λ reply w'.
        (Preflight page start reply w' ⊎ Passed handle_health page start reply w')
        × TellsOrigin page reply)
      (λ e w'. handle_health page start ≡ (err e, w'))
      (cors_middleware handle_health page start)
cors_middleware-Ends_example = cors_middleware-Ends handle_health page start healthy_plain

origin_test :
    (cors_middleware handle_health page start).0
    ≡ ok (record (json 200 (field "status" "healthy" ∷ [])) {
      headers = cors_headers "http://localhost:5173";
    })
unfolding account_runs cors_middleware handle_health connect ping
origin_test = refl

-- Another user registers, and Ada sets a PIN.
abbrev calls : List UserWrite
calls = UserWrite.create "eve@x" "$pw" "Eve" ∷ UserWrite.set_pin "u1" "$0000" ∷ []

start-IsKeyed : IsKeyed start.tables
start-IsKeyed = record { users = (refl, (refl, tt)); wallets = (refl, (refl, tt)); tokens = tt }

apply_users-IsKeyed_example : IsKeyed (apply_users calls start).tables
apply_users-IsKeyed_example = apply_users-IsKeyed calls start start-IsKeyed
