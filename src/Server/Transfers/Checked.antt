-- ===== src/Server/Transfers/Checked.antt =====
-- internals/server/transfer_handler.go: what a transfer request does, by its answer.
use mzl_payment_app.Common.{
  ℕ, String, false, some, ◌==◌, ◌||◌, ◌≡◌, refl, ◌≢◌, ◌⊎◌, inl, inr, arith, ◌∙◌, Bool-cases,
}
use mzl_payment_app.Go.{GoError, ok, message, is_already_processed}
use mzl_payment_app.External.{Externals}
use mzl_payment_app.External.Requests.{TransferRequest}
use mzl_payment_app.Schema.Tables.{Tables}
use mzl_payment_app.World.{World}
use mzl_payment_app.World.Ends.{Ends, returned}
use mzl_payment_app.Service.Auth.Pins.{PinMatches, verify_transaction_pin-Ends}
use mzl_payment_app.Service.Wallet.Transfers.{Delivered, transfer_funds-Closed}
use mzl_payment_app.Server.Http.{Incoming, Reply, error_json, read_body}
use mzl_payment_app.Server.Http.Ends.{
  refuse_if-Ends, decoded_or-Ends, user_or_refuse-Ends, call-Ends,
}
use mzl_payment_app.Server.Transfers.{
  transfer_repeated, transfer_refused, transfer_answer, transfer_funds_handler,
}
use mzl_payment_app.Service.Wallet.Keys.{any-Releases}

module _ ⦃x : Externals⦄ where
  -- The answer of an error, or of a request that was seen before.
  abbrev pub IsRefusal : Reply x.F → Type 0
  IsRefusal reply =
      reply.status ≡ 200 → (req : TransferRequest x.F) × (reply ≡ transfer_repeated req)

  -- What has held before the transfer, and the transfer.
  pub record Paid (r : Incoming) (t t' : Tables x.F) (reply : Reply x.F) : Type 0 where
    pub req : TransferRequest x.F
    pub user_id : String
    pub name : String
    pub is_body : read_body x.decode_transfer_funds r.body ≡ ok req
    pub is_caller : r.user_id ≡ some user_id
    pub positive : x.le req.amount x.zero_f ≡ false
    pub pin : PinMatches user_id req.pin t
    pub paid :
        Delivered
          (r.header "Idempotency-Key")
          t
          user_id
          req.account_number
          req.currency
          req.amount
          t'
    pub is_answer : reply ≡ transfer_answer req name

  error_IsRefusal : (status : ℕ) (s : String) → status ≢ 200 → IsRefusal (error_json status s)
  error_IsRefusal status s ne e = absurd (ne e)

  transfer_refused-IsRefusal :
      (req : TransferRequest x.F) (e : GoError) → IsRefusal (transfer_refused req e)
  transfer_refused-IsRefusal req e = elim (Bool-cases (is_already_processed e)) [
    | inl b ↦ rw b (λ _. (req, refl))
    | inr b ↦
        elim (Bool-cases (
          message e == "insufficient balance"
          || message e == "recipient account number not found")) [
            | inl c ↦ rw (b, c) (error_IsRefusal 400 _ (λ h. omega (arith, h)))
            | inr c ↦ rw (b, c) (error_IsRefusal 500 _ (λ h. omega (arith, h)))
          ]
  ]

  module _ (r : Incoming) (t : Tables x.F) where
    abbrev Outcome : Reply x.F → World x.F → Type 0
    Outcome reply w' = Paid r t w'.tables reply ⊎ (IsRefusal reply × (w'.tables ≡ t))

    abbrev Same : GoError → World x.F → Type 0
    Same _ w' = w'.tables ≡ t

    refused :
        (status : ℕ) (s : String) (w : World x.F)
        → status ≢ 200
        → w.tables ≡ t
        → Outcome (error_json status s) w
    refused status s w ne same = inr (error_IsRefusal status s ne, same)

    -- A transfer request is answered as successful only where its body is a transfer of a positive
    -- amount, the caller is known and the PIN in the body matches the one that is stored for the
    -- caller, and then the tables are as the repository's transfer leaves them; with any other
    -- answer, which is an error or says that the request was seen before, and after a panic, no
    -- table has changed.
    pub transfer_funds_handler-Ends :
        (w : World x.F)
        → w.tables ≡ t
        → Ends
            (λ reply w'. Paid r t w'.tables reply ⊎ (IsRefusal reply × (w'.tables ≡ t)))
            (λ _ w'. w'.tables ≡ t)
            (transfer_funds_handler r w)
    unfolding transfer_funds_handler
    transfer_funds_handler-Ends w same =
        refuse_if-Ends _ _ _ _ w (λ _. refused 400 _ w (λ h. omega (arith, h)) same)
          λ _.
            decoded_or-Ends _ _ _ w (λ _ _. refused 400 _ w (λ h. omega (arith, h)) same)
              λ req is_body.
                refuse_if-Ends _ _ _ _ w (λ _. refused 400 _ w (λ h. omega (arith, h)) same)
                  λ positive.
                    refuse_if-Ends _ _ _ _ w (λ _. refused 400 _ w (λ h. omega (arith, h)) same)
                      λ _.
                        user_or_refuse-Ends _ _ w (refused 401 _ w (λ h. omega (arith, h)) same)
                          λ user_id is_caller.
                            refuse_if-Ends _ _ _ _ w
                              (λ _. refused 400 _ w (λ h. omega (arith, h)) same)
                              λ _.
                                call-Ends _ _ _ w (verify_transaction_pin-Ends user_id req.pin w)
                                  (λ _ w1 (pin, same1).
                                    call-Ends _ _ _ w1
                                      (transfer_funds-Closed (r.header "Idempotency-Key")
                                        (λ _. Unit {0}) (any-Releases _) t user_id
                                        req.account_number req.currency req.amount req.description
                                        w1 (same1 ∙ same))
                                      (λ name w2 (paid, _). returned _ refl (
                                        inl (record {
                                          req = req;
                                          user_id = user_id;
                                          name = name;
                                          is_body = is_body;
                                          is_caller = is_caller;
                                          positive = positive;
                                          pin = rw (← same) pin;
                                          paid = paid;
                                          is_answer = refl;
                                        })))
                                      (λ e w2 (same2, _) _.
                                        inr (transfer_refused-IsRefusal req e, same2))
                                      (λ _ _ (same2, _) _. same2))
                                  (λ _ w1 same1 _.
                                    refused 401 _ w1 (λ h. omega (arith, h)) (same1 ∙ same))
                                  (λ _ _ same1 _. same1 ∙ same)
