-- ===== src/Service/Wallet/Payouts.antt =====
-- internals/service/wallet_service.go: `WithdrawFunds`, and the calls of Paystack that it makes.
use mzl_payment_app.Common.{String, Bool, not, ◌≡◌, refl, ◌∙◌, ap, List, [], ◌∷◌, ◌++◌}
use mzl_payment_app.Common.Text.{◌+++◌}
use mzl_payment_app.Go.{GoError, Result, ok, err}
use mzl_payment_app.External.{Externals}
use mzl_payment_app.External.Http.{Request, Response}
use mzl_payment_app.External.Redis.{del}
use mzl_payment_app.External.Requests.{WithdrawalRequest}
use mzl_payment_app.Schema.Tables.{Tables}
use mzl_payment_app.World.{World, ignore, lift, fail_if, http_send, now}
use mzl_payment_app.World.Ends.{
  wrapped_as-Ends, Ends, returned, failed, bind-Ends, Ends-weaken, fail_if-Ends,
}
use mzl_payment_app.World.Keeps.{
  requests_of, both-Ends, http_send-requests, http_send-Keeps-tables, run_query-Keeps-requests,
  run_command-Keeps-requests, run_command-Keeps,
}
use mzl_payment_app.Queue.{delete}
use mzl_payment_app.Repository.Wallet.{debit_for_withdrawal}
use mzl_payment_app.Repository.Wallet.Debits.{Withdrawn, debit_for_withdrawal-Ends}
use mzl_payment_app.Repository.Wallet.Quiet.{debit_for_withdrawal-Keeps}
use mzl_payment_app.Service.Payment.{wallet_key, history_key}
use mzl_payment_app.Service.Payment.Paystack.{
  getenv, post, recipient_body, transfer_request, create_transfer_recipient, initiate_transfer,
}
use mzl_payment_app.Service.Wallet.{pay_out, withdraw_funds}

module _ ⦃x : Externals⦄ where
  -- These tables, and these requests sent so far.
  abbrev pub At : Tables x.F → List (Request x.F) → World x.F → Type 0
  At t sent w = (w.tables ≡ t) × (w.requests ≡ sent)

  module _ (t : Tables x.F) (sent : List (Request x.F)) where
    lift-At :
        {A : Type 0} (r : Result A) (w : World x.F)
        → At t sent w
        → Ends (λ _. At t sent) (λ _. At t sent) (lift r w)
    lift-At (ok a) w h = returned a refl h
    lift-At (err e) w h = failed e refl h

    -- A request is sent whether it is answered or not.
    sent-Ends :
        (r : Request x.F) (res : Result Response) (w : World x.F)
        → (http_send r w).0 ≡ res
        → At t sent w
        → Ends (λ _. At t (sent ++ r ∷ [])) (λ _ w'. w'.tables ≡ t) (http_send r w)
    sent-Ends r (ok a) w e (tables, requests) = returned a e (
      http_send-Keeps-tables r w ∙ tables,
      http_send-requests r w ∙ ap (λ l. l ++ r ∷ []) requests,
    )
    sent-Ends r (err f) w e (tables, requests) = failed f e (http_send-Keeps-tables r w ∙ tables)

    fail_if-At :
        (c : Bool) (e : GoError) (w : World x.F)
        → At t sent w
        → Ends (λ _. At t sent) (λ _ w'. w'.tables ≡ t) (fail_if c e w)
    fail_if-At c e w h = fail_if-Ends c e w (λ _. h) (λ _. h.0)

  abbrev pub recipient_request : WithdrawalRequest x.F → Request x.F
  recipient_request req =
      post "https://api.paystack.co/transferrecipient" (getenv "PAYSTACK_SECRET_KEY")
        (recipient_body req.account_name req.account_number req.bank_code req.currency)

  module _ (t : Tables x.F) (sent : List (Request x.F)) where
    pub create_transfer_recipient-Ends :
        (req : WithdrawalRequest x.F) (w : World x.F)
        → At t sent w
        → Ends
            (λ _. At t (sent ++ recipient_request req ∷ []))
            (λ _ w'. w'.tables ≡ t)
            (create_transfer_recipient req.account_name req.account_number req.bank_code
              req.currency w)
    unfolding create_transfer_recipient
    create_transfer_recipient-Ends req w h =
        bind-Ends _ _ (lift-At t sent _ w h)
          (λ _ w1 h1.
            bind-Ends _ _ (sent-Ends t sent (recipient_request req) _ w1 refl h1)
              (λ resp w2 h2.
                bind-Ends _ _ (lift-At t _ (x.decode_recipient resp.body) w2 h2)
                  (λ result w3 h3.
                    bind-Ends _ _ (fail_if-At t _ (not result.status) _ w3 h3)
                      (λ _ w4 h4. returned _ refl h4) (λ _ _ k. k))
                  (λ _ _ k. k.0))
              (λ _ _ k. k))
          (λ _ _ k. k.0)

    pub initiate_transfer-Ends :
        (amount : x.F) (recipient reference reason : String) (w : World x.F)
        → At t sent w
        → Ends
            (λ _. At t (sent ++ transfer_request amount recipient reference reason ∷ []))
            (λ _ w'. w'.tables ≡ t)
            (initiate_transfer amount recipient reference reason w)
    unfolding initiate_transfer
    initiate_transfer-Ends amount recipient reference reason w h =
        bind-Ends _ _ (lift-At t sent _ w h)
          (λ _ w1 h1.
            bind-Ends _ _
              (sent-Ends t sent (transfer_request amount recipient reference reason) _ w1 refl h1)
              (λ resp w2 h2.
                bind-Ends _ _ (lift-At t _ (x.decode_transfer resp.body) w2 h2)
                  (λ result w3 h3.
                    bind-Ends _ _ (fail_if-At t _ (not result.status) _ w3 h3)
                      (λ _ w4 h4. returned _ refl h4) (λ _ _ k. k))
                  (λ _ _ k. k.0))
              (λ _ _ k. k))
          (λ _ _ k. k.0)

  -- The requests of one payout.
  abbrev pub payout :
      WithdrawalRequest x.F → List (Request x.F) → String → String → List (Request x.F)
  payout req sent recipient reference =
      (sent ++ recipient_request req ∷ [])
      ++ transfer_request req.amount recipient reference req.reason ∷ []

  module _ (t : Tables x.F) (sent : List (Request x.F)) (user_id : String)
      (req : WithdrawalRequest x.F) where
    -- One payout was sent, and the wallet was debited for it.
    pub record PaidOut (w : World x.F) : Type 0 where
      pub recipient : String
      pub reference : String
      pub code : String
      pub requests : w.requests ≡ payout req sent recipient reference
      pub debited : Withdrawn user_id req.currency req.amount reference code req.reason t w.tables

    pay_out-Ends :
        (reference : String) (w : World x.F)
        → At t sent w
        → Ends (λ _. PaidOut) (λ _ w'. w'.tables ≡ t) (pay_out user_id req reference w)
    unfolding pay_out
    pay_out-Ends reference w h =
        bind-Ends _ _
          (wrapped_as-Ends _
            (create_transfer_recipient req.account_name req.account_number req.bank_code
              req.currency)
            w (create_transfer_recipient-Ends t sent req w h))
          (λ recipient w1 h1.
            bind-Ends _ _
              (wrapped_as-Ends _ (initiate_transfer req.amount recipient reference req.reason) w1
                (initiate_transfer-Ends t _ req.amount recipient reference req.reason w1 h1))
              (λ answer w2 h2.
                wrapped_as-Ends _
                  (debit_for_withdrawal user_id req.currency req.amount reference
                    answer.transfer_code req.reason)
                  w2
                  (Ends-weaken _
                    (λ _ _ (debited, requests). record {
                      recipient = recipient;
                      reference = reference;
                      code = answer.transfer_code;
                      requests = requests;
                      debited = debited;
                    })
                    (λ _ _ (kept, _). kept)
                    (both-Ends requests_of
                      (debit_for_withdrawal user_id req.currency req.amount reference
                        answer.transfer_code req.reason)
                      w2 _
                      (debit_for_withdrawal-Keeps requests_of (λ _. run_query-Keeps-requests)
                        user_id req.currency req.amount reference answer.transfer_code req.reason)
                      h2.1
                      (debit_for_withdrawal-Ends user_id req.currency req.amount reference
                        answer.transfer_code req.reason t w2 h2.0))))
              (λ _ _ k. k))
          (λ _ _ k. k)

    moved_on : (w w' : World x.F) → PaidOut w → At w.tables w.requests w' → PaidOut w'
    moved_on w w' p (tables, requests) = record {
      recipient = p.recipient;
      reference = p.reference;
      code = p.code;
      requests = requests ∙ p.requests;
      debited = rw tables p.debited;
    }

    forgotten :
        (key : String) (w : World x.F)
        → PaidOut w
        → Ends (λ _. PaidOut) (λ _ w'. w'.tables ≡ t) (ignore (delete key) w)
    unfolding delete
    forgotten key w p =
        returned tt refl
          (moved_on w _ p (run_command-Keeps (del key) w, run_command-Keeps-requests (del key) w))

    timed : (w : World x.F) → At t sent w → Ends (λ _. At t sent) (λ _ w'. w'.tables ≡ t) (now w)
    unfolding now
    timed w h = returned _ refl h

    -- A withdrawal that succeeds sends one payout to Paystack and debits the wallet once; where it
    -- fails no table has changed, although the payout may have been sent.
    pub withdraw_funds-Ends :
        (w : World x.F)
        → At t sent w
        → Ends (λ _. PaidOut) (λ _ w'. w'.tables ≡ t) (withdraw_funds user_id req w)
    unfolding withdraw_funds
    withdraw_funds-Ends w h =
        bind-Ends _ _ (timed w h)
          (λ nanos w1 h1.
            bind-Ends _ _ (pay_out-Ends ("WDR-" +++ x.show_int nanos) w1 h1)
              (λ _ w2 h2.
                bind-Ends _ _ (forgotten (wallet_key user_id) w2 h2)
                  (λ _ w3 h3. forgotten (history_key user_id) w3 h3) (λ _ _ k. k))
              (λ _ _ k. k))
          (λ _ _ k. k)
