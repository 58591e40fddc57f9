-- ===== src/Server/Wallets/Funds.antt =====
-- internals/server/wallet_handler.go: what a funding request does, by its answer.
use mzl_payment_app.Common.{
  ℕ, String, Bool, true, false, Bool-cases, some, ◌==◌, ◌||◌, ◌≡◌, refl, ◌≢◌, ◌⊎◌, inl, inr, arith,
}
use mzl_payment_app.Go.{GoError, ok, is_already_processed, is_wallet_not_found}
use mzl_payment_app.External.{Externals}
use mzl_payment_app.External.Requests.{FundRequest}
use mzl_payment_app.Schema.Tables.{Tables}
use mzl_payment_app.World.{World}
use mzl_payment_app.World.Ends.{Ends, returned}
use mzl_payment_app.Service.Wallet.Funding.{Funded, fund_wallet-Closed}
use mzl_payment_app.Server.Http.{Incoming, Reply, error_json, read_body}
use mzl_payment_app.Server.Http.Ends.{
  refuse_if-Ends, decoded_or-Ends, user_or_refuse-Ends, call-Ends,
}
use mzl_payment_app.Server.Wallets.{fund_repeated, fund_refused, fund_answer, fund_wallet_handler}
use mzl_payment_app.Service.Wallet.Keys.{any-Releases}

module _ ⦃x : Externals⦄ where
  -- The answer of an error, or of a request that was seen before.
  abbrev pub IsFundRefusal : Reply x.F → Type 0
  IsFundRefusal reply = reply.status ≡ 200 → reply ≡ fund_repeated

  -- What has held before the funding, and the funding. No payment is among it.
  pub record Deposited (r : Incoming) (t t' : Tables x.F) (reply : Reply x.F) : Type 0 where
    pub req : FundRequest x.F
    pub user_id : String
    pub is_body : read_body x.decode_fund r.body ≡ ok req
    pub is_caller : r.user_id ≡ some user_id
    pub named : (req.currency == "") ≡ false
    pub positive : x.le req.amount x.zero_f ≡ false
    pub funded :
        Funded (r.header "Idempotency-Key") t user_id req.currency req.amount req.description t'
    pub is_answer : reply ≡ fund_answer req (r.header "Idempotency-Key")

  error_IsFundRefusal :
      (status : ℕ) (s : String) → status ≢ 200 → IsFundRefusal (error_json status s)
  error_IsFundRefusal status s ne e = absurd (ne e)

  fund_refused-IsFundRefusal : (e : GoError) → IsFundRefusal (fund_refused e)
  fund_refused-IsFundRefusal e = elim (Bool-cases (is_already_processed e)) [
    | inl b ↦ rw b (λ _. refl)
    | inr b ↦ elim (Bool-cases (is_wallet_not_found e)) [
      | inl c ↦ rw (b, c) (error_IsFundRefusal 404 _ (λ h. omega (arith, h)))
      | inr c ↦ rw (b, c) (error_IsFundRefusal 500 _ (λ h. omega (arith, h)))
    ]
  ]

  neither : (a b : Bool) → (a || b) ≡ false → (a ≡ false) × (b ≡ false)
  neither true b e = absurd (ground arith)
  neither false b e = (refl, e)

  module _ (r : Incoming) (t : Tables x.F) where
    refused :
        (status : ℕ) (s : String) (w : World x.F)
        → status ≢ 200
        → w.tables ≡ t
        → Deposited r t w.tables (error_json status s)
          ⊎ (IsFundRefusal (error_json status s) × (w.tables ≡ t))
    refused status s w ne same = inr (error_IsFundRefusal status s ne, same)

    -- A funding request is answered as successful only where its body names a currency and a
    -- positive amount and the caller is known, and then one log entry was added and one balance of
    -- the caller credited with that amount; with any other answer, which is an error or says that
    -- the request was seen before, and after a panic, no table has changed.
    pub fund_wallet_handler-Ends :
        (w : World x.F)
        → w.tables ≡ t
        → Ends
            (λ reply w'. Deposited r t w'.tables reply ⊎ (IsFundRefusal reply × (w'.tables ≡ t)))
            (λ _ w'. w'.tables ≡ t)
            (fund_wallet_handler r w)
    unfolding fund_wallet_handler
    fund_wallet_handler-Ends w same =
        refuse_if-Ends _ _ _ _ w (λ _. refused 400 _ w (λ h. omega (arith, h)) same)
          λ _.
            decoded_or-Ends _ _ _ w (λ _ _. refused 400 _ w (λ h. omega (arith, h)) same)
              λ req is_body.
                refuse_if-Ends _ _ _ _ w (λ _. refused 400 _ w (λ h. omega (arith, h)) same)
                  λ tested.
                    user_or_refuse-Ends _ _ w (refused 401 _ w (λ h. omega (arith, h)) same)
                      λ user_id is_caller.
                        let (named, positive) = neither _ _ tested in
                        call-Ends _ _ _ w
                          (fund_wallet-Closed (r.header "Idempotency-Key") (λ _. Unit {0})
                            (any-Releases _) t user_id req.currency req.amount req.description w
                            same)
                          (λ _ w1 (funded, _). returned _ refl (
                            inl (record {
                              req = req;
                              user_id = user_id;
                              is_body = is_body;
                              is_caller = is_caller;
                              named = named;
                              positive = positive;
                              funded = funded;
                              is_answer = refl;
                            })))
                          (λ e w1 (same1, _) _. inr (fund_refused-IsFundRefusal e, same1))
                          (λ _ _ (same1, _) _. same1)
