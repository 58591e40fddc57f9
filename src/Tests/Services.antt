-- ===== src/Tests/Services.antt =====
-- The services and the queue on the small database.
use mzl_payment_app.Common.{String, true, ◌≡◌, ◌≢◌, ◌≤◌, refl, [], ◌∷◌, ◌++◌}
use mzl_payment_app.Go.{GoError, ok, err}
use mzl_payment_app.World.{World, Action, run_command, fail, wrapped_as, now, random_below}
use mzl_payment_app.World.Ends.{Ends}
use mzl_payment_app.Schema.Users.{create_token, revoke_token}
use mzl_payment_app.Queue.{
  delete, set_value, get_value, try_lock_idempotency_key, is_rate_limited, enqueue, worker_round,
  max_retries, dead_letter,
}
use mzl_payment_app.Queue.Lists.{Holds}
use mzl_payment_app.Queue.Locks.{try_lock_idempotency_key_exclusive}
use mzl_payment_app.Queue.RateLimit.{admitted, is_rate_limited_bound}
use mzl_payment_app.Queue.Retries.{Reads, rounds, worker_round_gives_up}
use mzl_payment_app.Repository.User.{
  find_user_by_email, save_refresh_token, validate_refresh_token, revoke_refresh_token,
}
use mzl_payment_app.Repository.Wallet.{get_user_by_id}
use mzl_payment_app.Repository.User.Tokens.{revoke_refresh_token_final}
use mzl_payment_app.Service.Payment.{
  process_paystack_event, apply_event, credit_charge, verify_and_credit,
}
use mzl_payment_app.Service.Payment.Events.{IsCharge, payment_credited_once}
use mzl_payment_app.Service.Wallet.{
  transfer_funds, acquire, release, complete, or_release, commit_or_release,
}
use mzl_payment_app.Service.Wallet.Keys.{Dropped}
use mzl_payment_app.Service.Wallet.Transfers.{Done, transfer_funds-Ends}
use mzl_payment_app.Service.Wallet.Once.{fund, serve, serve_held, transfer_funds_once}
use mzl_payment_app.Service.Auth.{TokenPair, rotate_refresh_token, generate_token_pair}
use mzl_payment_app.Service.Auth.Rotation.{rotate_refresh_token_once}
use mzl_payment_app.Server.Webhook.{paystack_webhook_handler, paystack_webhook_handler_duplicate}
use mzl_payment_app.Utils.{generate_account_number, generate_account_number_bounds}
use mzl_payment_app.Tests.Int.{ℤ, pos}
use mzl_payment_app.Tests.Platform.{platform, platform-HasFreshIds, platform-IsReliable}
use mzl_payment_app.Tests.Messages.{charge}
use mzl_payment_app.Tests.Repository.{start, wallet_runs}

unfoldable pub service_runs : Unit {0}
unfolding wallet_runs get_user_by_id transfer_funds acquire release complete or_release
    commit_or_release delete set_value get_value try_lock_idempotency_key is_rate_limited enqueue
    worker_round run_command wrapped_as now random_below process_paystack_event apply_event
    credit_charge verify_and_credit find_user_by_email generate_account_number save_refresh_token
    validate_refresh_token revoke_refresh_token create_token revoke_token
service_runs = tt

transfer_funds-Ends_example :
    Ends
      (λ _. Done "r1" start.tables "u1" "1000000002" "NGN" (pos 20))
      (Dropped "r1" start.tables)
      (transfer_funds "u1" "1000000002" "NGN" (pos 20) "rent" "r1" start)
transfer_funds-Ends_example =
    transfer_funds-Ends platform-IsReliable "r1" start.tables "u1" "1000000002" "NGN" (pos 20)
      "rent" start refl

-- Ada has sent 20 NGN to Bola under the reference `r1`.
abbrev sent : World ℤ
sent = (transfer_funds "u1" "1000000002" "NGN" (pos 20) "rent" "r1" start).1

sent_test : (transfer_funds "u1" "1000000002" "NGN" (pos 20) "rent" "r1" start).0 ≡ ok "Bola"
unfolding service_runs
sent_test = refl

transfer_funds_once_example :
    ((serve (fund "u1" "NGN" (pos 9) "") "r1" sent).0 ≡ err GoError.transaction_already_processed)
    × ((serve (fund "u1" "NGN" (pos 9) "") "r1" sent).1.tables ≡ sent.tables)
unfolding service_runs
transfer_funds_once_example =
    transfer_funds_once platform-IsReliable "u1" "1000000002" "NGN" (pos 20) "rent" "r1" "Bola"
      (fund "u1" "NGN" (pos 9) "") start sent refl refl

serve_held_example :
    ((serve (fund "u1" "NGN" (pos 9) "") "r1" sent).0 ≡ err GoError.transaction_already_processed)
    × ((serve (fund "u1" "NGN" (pos 9) "") "r1" sent).1.tables ≡ sent.tables)
unfolding service_runs
serve_held_example = serve_held (fund "u1" "NGN" (pos 9) "") "r1" sent refl

try_lock_idempotency_key_exclusive_example :
    (try_lock_idempotency_key "k" 300 (try_lock_idempotency_key "k" 300 start).1).0 ≢ ok true
unfolding service_runs
try_lock_idempotency_key_exclusive_example =
    try_lock_idempotency_key_exclusive "k" 300 300 start (try_lock_idempotency_key "k" 300 start).1
      refl refl

is_rate_limited_bound_example : admitted 3 "u1" 2 60 start ≤ 2
is_rate_limited_bound_example = is_rate_limited_bound 3 "u1" 2 60 start

admitted_test : admitted 3 "u1" 2 60 start ≡ 2
unfolding service_runs
admitted_test = refl

abbrev pub refuse : String → Action (Unit {0})
refuse _ = fail (GoError.new "no")

worker_round_gives_up_example :
    let w' = rounds refuse "q" max_retries (enqueue "q" "e" start).1 in
    (s : String) × Reads s (record { payload = "e"; retries = max_retries })
    × Holds w'.keys "q" []
    × Holds w'.keys (dead_letter "q") ([] ++ s ∷ [])
worker_round_gives_up_example =
    worker_round_gives_up platform-IsReliable refuse "e" "q" [] start
      (λ w. (GoError.new "no", refl, refl)) (refl, refl) (refl, refl)

abbrev pub logged_in : World ℤ
logged_in = (save_refresh_token "u1" "xu1" 100 start).1

valid_test : (validate_refresh_token "xu1" logged_in).0 ≡ ok true
unfolding service_runs
valid_test = refl

revoke_refresh_token_final_example :
    (validate_refresh_token "xu1" (revoke_refresh_token "xu1" logged_in).1).0 ≢ ok true
unfolding service_runs
revoke_refresh_token_final_example =
    revoke_refresh_token_final "xu1" logged_in (revoke_refresh_token "xu1" logged_in).1 refl refl

generate_account_number_bounds_example : (1000000000 ≤ 1000000000) × (1000000000 ≤ 9999999999)
unfolding service_runs
generate_account_number_bounds_example = generate_account_number_bounds 1000000000 start refl

charge-IsCharge : IsCharge "body" charge
charge-IsCharge = record { decoded = refl; is_charge = refl }

abbrev credited : World ℤ
credited = (process_paystack_event "body" start).1

payment_credited_once_example :
    ((process_paystack_event "body" credited).1.tables ≡ credited.tables)
    × ((verify_and_credit "key" "p1" credited).1.tables ≡ credited.tables)
unfolding service_runs
payment_credited_once_example =
    payment_credited_once "body" charge "key" start credited platform-HasFreshIds charge-IsCharge
      refl refl

-- The token that the platform signs for a refresh is `/u1`.
abbrev rotated : World ℤ
rotated = (rotate_refresh_token "xu1" logged_in).1

abbrev next_pair : TokenPair
next_pair = record { access_token = ".u1"; refresh_token = "/u1" }

rotate_refresh_token_once_example : (rotate_refresh_token "xu1" rotated).0 ≢ ok next_pair
unfolding service_runs rotate_refresh_token generate_token_pair
rotate_refresh_token_once_example =
    rotate_refresh_token_once "xu1" logged_in rotated next_pair next_pair refl refl

-- The webhook of a payment whose body is its reference comes a second time.
abbrev seen : World ℤ
seen = (try_lock_idempotency_key "p1" 86400 start).1

paystack_webhook_handler_duplicate_example :
    let (r, w') = paystack_webhook_handler (ok "p1") "secretp1" seen in
    (r ≡ ok 200)
    × (w'.keys "payment_webhooks" ≡ seen.keys "payment_webhooks")
    × (w'.tables ≡ seen.tables)
unfolding service_runs
paystack_webhook_handler_duplicate_example =
    paystack_webhook_handler_duplicate "p1" "secretp1" "p1" seen refl refl refl refl refl
