-- ===== src/Server/Transfers/Swapping.antt =====
-- internals/server/swap_handler.go: what a swap request does, by its answer.
use mzl_payment_app.Common.{
  String, false, some, ◌≡◌, refl, ◌≢◌, ◌⊎◌, inl, inr, arith, ◌∙◌, Bool-cases, ℕ,
}
use mzl_payment_app.Go.{GoError, ok, message, is_already_processed}
use mzl_payment_app.External.{Externals}
use mzl_payment_app.External.Requests.{SwapRequest}
use mzl_payment_app.Schema.Tables.{Tables}
use mzl_payment_app.World.{World}
use mzl_payment_app.World.Ends.{Ends, returned}
use mzl_payment_app.Service.Auth.Pins.{PinMatches, verify_transaction_pin-Ends}
use mzl_payment_app.Service.Wallet.{SwapResult}
use mzl_payment_app.Service.Wallet.Swaps.{Exchanged, swap_funds-Closed}
use mzl_payment_app.Server.Http.{Incoming, Reply, error_json, read_body}
use mzl_payment_app.Server.Http.Ends.{
  refuse_if-Ends, decoded_or-Ends, user_or_refuse-Ends, call-Ends,
}
use mzl_payment_app.Server.Transfers.{swap_repeated, swap_refused, swap_answer, swap_handler}
use mzl_payment_app.Service.Wallet.Keys.{any-Releases}

module _ ⦃x : Externals⦄ where
  -- The answer of an error, or of a request that was seen before.
  abbrev pub IsSwapRefusal : Reply x.F → Type 0
  IsSwapRefusal reply = reply.status ≡ 200 → reply ≡ swap_repeated

  -- What has held before the swap, and the swap.
  pub record Exchange (r : Incoming) (t t' : Tables x.F) (reply : Reply x.F) : Type 0 where
    pub req : SwapRequest x.F
    pub user_id : String
    pub result : SwapResult
    pub is_body : read_body x.decode_swap r.body ≡ ok req
    pub is_caller : r.user_id ≡ some user_id
    pub positive : x.le req.amount x.zero_f ≡ false
    pub pin : PinMatches user_id req.pin t
    pub paid :
        Exchanged
          (r.header "Idempotency-Key")
          t
          user_id
          req.from_currency
          req.to_currency
          req.amount
          result.rate
          t'
    pub rate_applied : result.dest_amount ≡ x.mul req.amount result.rate
    pub is_answer : reply ≡ swap_answer result

  error_IsSwapRefusal :
      (status : ℕ) (s : String) → status ≢ 200 → IsSwapRefusal (error_json status s)
  error_IsSwapRefusal status s ne e = absurd (ne e)

  swap_refused-IsSwapRefusal : (e : GoError) → IsSwapRefusal (swap_refused e)
  swap_refused-IsSwapRefusal e = elim (Bool-cases (is_already_processed e)) [
    | inl b ↦ rw b (λ _. refl)
    | inr b ↦ rw b (error_IsSwapRefusal 400 (message e) (λ h. omega (arith, h)))
  ]

  module _ (r : Incoming) (t : Tables x.F) where
    refused :
        (status : ℕ) (s : String) (w : World x.F)
        → status ≢ 200
        → w.tables ≡ t
        → Exchange r t w.tables (error_json status s)
          ⊎ (IsSwapRefusal (error_json status s) × (w.tables ≡ t))
    refused status s w ne same = inr (error_IsSwapRefusal status s ne, same)

    -- A swap request is answered as successful only where its body is a swap of a positive amount,
    -- the caller is known and the PIN in the body matches the one that is stored for the caller,
    -- and then the tables are as the repository's swap leaves them at the rate of the answer; with
    -- any other answer, which is an error or says that the request was seen before, and after a
    -- panic, no table has changed.
    pub swap_handler-Ends :
        (w : World x.F)
        → w.tables ≡ t
        → Ends
            (λ reply w'. Exchange r t w'.tables reply ⊎ (IsSwapRefusal reply × (w'.tables ≡ t)))
            (λ _ w'. w'.tables ≡ t)
            (swap_handler r w)
    unfolding swap_handler
    swap_handler-Ends w same =
        refuse_if-Ends _ _ _ _ w (λ _. refused 400 _ w (λ h. omega (arith, h)) same)
          λ _.
            decoded_or-Ends _ _ _ w (λ _ _. refused 400 _ w (λ h. omega (arith, h)) same)
              λ req is_body.
                refuse_if-Ends _ _ _ _ w (λ _. refused 400 _ w (λ h. omega (arith, h)) same)
                  λ positive.
                    user_or_refuse-Ends _ _ w (refused 401 _ w (λ h. omega (arith, h)) same)
                      λ user_id is_caller.
                        call-Ends _ _ _ w (verify_transaction_pin-Ends user_id req.pin w)
                          (λ _ w1 (pin, same1).
                            call-Ends _ _ _ w1
                              (swap_funds-Closed (r.header "Idempotency-Key") (λ _. Unit {0})
                                (any-Releases _) t user_id req.from_currency req.to_currency
                                req.amount w1 (same1 ∙ same))
                              (λ result w2 (paid, applied, _). returned _ refl (
                                inl (record {
                                  req = req;
                                  user_id = user_id;
                                  result = result;
                                  is_body = is_body;
                                  is_caller = is_caller;
                                  positive = positive;
                                  pin = rw (← same) pin;
                                  paid = paid;
                                  rate_applied = applied;
                                  is_answer = refl;
                                })))
                              (λ e w2 (same2, _) _. inr (swap_refused-IsSwapRefusal e, same2))
                              (λ _ _ (same2, _) _. same2))
                          (λ _ w1 same1 _. refused 401 _ w1 (λ h. omega (arith, h)) (same1 ∙ same))
                          (λ _ _ same1 _. same1 ∙ same)
