-- ===== src/Server/Payments/Withdrawals.antt =====
-- internals/server/payment_handler.go: `WithdrawalHandler`.
use mzl_payment_app.Common.{
  String, Option, none, some, ◌≡◌, refl, ◌≢◌, ◌∙◌, ◌⊎◌, inl, inr, arith, List,
}
use mzl_payment_app.Common.Text.{◌+++◌}
use mzl_payment_app.Go.{ok}
use mzl_payment_app.External.{Externals}
use mzl_payment_app.External.Http.{Request}
use mzl_payment_app.External.Requests.{WithdrawalRequest}
use mzl_payment_app.Schema.Tables.{Tables}
use mzl_payment_app.World.{World, Action, now}
use mzl_payment_app.World.Ends.{Ends, returned, failed}
use mzl_payment_app.World.Keeps.{requests_of, both-Ends}
use mzl_payment_app.Service.Auth.{verify_transaction_pin}
use mzl_payment_app.Service.Auth.Pins.{
  PinMatches, verify_transaction_pin-Ends, verify_transaction_pin-Keeps,
}
use mzl_payment_app.Service.Wallet.Payouts.{
  At, PaidOut, payout, create_transfer_recipient-Ends, initiate_transfer-Ends, withdraw_funds-Ends,
}
use mzl_payment_app.Server.Http.{Incoming, Reply, read_body}
use mzl_payment_app.Server.Http.Ends.{decoded_or-Ends, call-Ends, perform-Ends}
use mzl_payment_app.Server.Payments.{withdrawal_handler, context_user_or_panic}

module _ ⦃x : Externals⦄ where
  -- The caller had proved to know the PIN, and the payout was sent a first time before the
  -- withdrawal of the service has sent it again and debited the wallet.
  pub record PaidTwice (r : Incoming) (t : Tables x.F) (sent : List (Request x.F)) (w : World x.F)
      : Type 0 where
    pub req : WithdrawalRequest x.F
    pub user_id : String
    pub recipient : String
    pub reference : String
    pub is_body : read_body x.decode_withdrawal r.body ≡ ok req
    pub is_caller : r.user_id ≡ some user_id
    pub pin : PinMatches user_id req.pin t
    pub second : PaidOut t (payout req sent recipient reference) user_id req w

  module _ (r : Incoming) (t : Tables x.F) (sent : List (Request x.F)) where
    known_user :
        {Q : Reply x.F → World x.F → Type 0} (user : Option String)
        (k : String → Action (Reply x.F)) (w : World x.F)
        → w.tables ≡ t
        → ((user_id : String) → user ≡ some user_id → Ends Q (λ _ w'. w'.tables ≡ t) (k user_id w))
        → Ends Q (λ _ w'. w'.tables ≡ t) (context_user_or_panic user k w)
    unfolding context_user_or_panic
    known_user none k w same h = failed _ refl same
    known_user (some user_id) k w same h = h user_id refl

    clock_read :
        (l : List (Request x.F)) (w : World x.F)
        → At t l w
        → Ends (λ _. At t l) (λ _ w'. w'.tables ≡ t) (now w)
    unfolding now
    clock_read l w h = returned _ refl h

    -- A withdrawal is answered with 200 only to a caller who is known and whose PIN matches; then
    -- the wallet was debited once, and two transfers of the amount were sent to Paystack. With any
    -- other answer, and after a panic, no table has changed.
    pub withdrawal_handler-Ends :
        (w : World x.F)
        → At t sent w
        → Ends
            (λ reply w'.
              ((reply.status ≡ 200) × PaidTwice r t sent w')
              ⊎ ((reply.status ≢ 200) × (w'.tables ≡ t)))
            (λ _ w'. w'.tables ≡ t)
            (withdrawal_handler r w)
    unfolding withdrawal_handler
    withdrawal_handler-Ends w (same, so_far) =
        decoded_or-Ends _ _ _ w (λ _ _. inr ((λ h. omega (arith, h)), same))
          λ req is_body. known_user _ _ w same λ user_id is_caller.
            call-Ends _ _ _ w
              (both-Ends requests_of (verify_transaction_pin user_id req.pin) w sent
                (verify_transaction_pin-Keeps user_id req.pin) so_far
                (verify_transaction_pin-Ends user_id req.pin w))
              (λ _ w1 ((pin, same1), so_far1).
                call-Ends _ _ _ w1
                  (create_transfer_recipient-Ends t sent req w1 (same1 ∙ same, so_far1))
                  (λ recipient w2 h2.
                    perform-Ends _ _ w2 (clock_read _ w2 h2)
                      (λ nanos w3 h3.
                        call-Ends _ _ _ w3
                          (initiate_transfer-Ends t _ req.amount recipient
                            ("WDR-" +++ x.show_int nanos) req.reason w3 h3)
                          (λ answer w4 h4.
                            call-Ends _ _ _ w4 (withdraw_funds-Ends t _ user_id req w4 h4)
                              (λ _ w5 second. returned _ refl (
                                inl (
                                  refl,
                                  record {
                                    req = req;
                                    user_id = user_id;
                                    recipient = recipient;
                                    reference = "WDR-" +++ x.show_int nanos;
                                    is_body = is_body;
                                    is_caller = is_caller;
                                    pin = rw (← same) pin;
                                    second = second;
                                  },
                                )))
                              (λ _ w5 kept _. inr ((λ h. omega (arith, h)), kept))
                              (λ _ _ kept _. kept))
                          (λ _ w4 kept _. inr ((λ h. omega (arith, h)), kept)) (λ _ _ kept _. kept))
                      (λ _ _ kept. kept))
                  (λ _ w2 kept _. inr ((λ h. omega (arith, h)), kept)) (λ _ _ kept _. kept))
              (λ _ w1 (kept, _) _. inr ((λ h. omega (arith, h)), (kept ∙ same)))
              (λ _ _ (kept, _) _. kept ∙ same)
