-- ===== src/Service/Wallet/Swaps.antt =====
-- internals/service/wallet_service.go: `SwapFunds`, from its idempotency key to its answer.
use mzl_payment_app.Common.{String, Bool-cases, inl, inr, ◌≡◌, refl, Option, none, some, ◌==◌}
use mzl_payment_app.Go.{GoError, Result, ok, err}
use mzl_payment_app.External.{Externals}
use mzl_payment_app.External.Redis.{Keyspace}
use mzl_payment_app.Schema.Tables.{Tables}
use mzl_payment_app.World.{World, Action, attempt, ignore, lift, http_send}
use mzl_payment_app.World.Ends.{Ends, returned, bind-Ends, Ends-weaken}
use mzl_payment_app.World.Commands.{IsReliable}
use mzl_payment_app.World.Keeps.{
  Keeps, keys_of, tables_of, Keeps-Ends, bind-Keeps, http_send-Keeps-keys, http_send-Keeps-tables,
}
use mzl_payment_app.Queue.{delete}
use mzl_payment_app.Queue.Locks.{IsHeld}
use mzl_payment_app.Repository.Wallet.{swap_funds as swap_in_tables}
use mzl_payment_app.Repository.Wallet.Debits.{Swapped, swap_funds-Ends as swap_in_tables-Ends}
use mzl_payment_app.Repository.Wallet.Quiet.{swap_funds-Keeps as swap_in_tables-Keeps}
use mzl_payment_app.Service.Payment.{wallet_key, history_key}
use mzl_payment_app.Service.Wallet.{
  swap_funds, swap_description, read_rate, fetch_exchange_rate, renamed_as, value_or_new, nil_as,
  rate_url, get_page, complete,
}
use mzl_payment_app.Service.Wallet.Keys.{
  Dropped, IsFree, Closed, Releases, reliable-Releases, acquire-Ends, or_release-Ends,
  commit_or_release-Ends, complete-Ends, forget-Ends, kept-Ends, wallet_key-ne, history_key-ne,
}

module _ ⦃x : Externals⦄ where
  module _ {B : Type 0} (part : World x.F → B) where
    value_or_new-Keeps : {A : Type 0} (s : String) (r : Result A) → Keeps part (value_or_new s r)
    value_or_new-Keeps s (ok a) w = refl
    value_or_new-Keeps s (err e) w = refl

    renamed_as-Keeps :
        {A : Type 0} (s : String) (m : Action A) → Keeps part m → Keeps part (renamed_as s m)
    unfolding renamed_as
    renamed_as-Keeps s m h = bind-Keeps part (attempt m) (value_or_new s) h (value_or_new-Keeps s)

    nil_as-Keeps : {A : Type 0} (e : GoError) (o : Option A) → Keeps part (nil_as e o)
    nil_as-Keeps e none w = refl
    nil_as-Keeps e (some a) w = refl

    -- The rate is read without a change to what a request leaves alone.
    read_rate-Keeps :
        (from to : String)
        → Keeps part (http_send (get_page (rate_url from)))
        → Keeps part (read_rate from to)
    unfolding read_rate
    read_rate-Keeps from to sent =
        bind-Keeps part _ _
          (renamed_as-Keeps _ _ (
            bind-Keeps part (lift (x.new_request (rate_url from)))
              (λ _. http_send (get_page (rate_url from))) (λ w. refl) (λ _. sent)))
          (λ resp.
            bind-Keeps part _ _ (renamed_as-Keeps _ (lift (x.decode_rates resp.body)) (λ w. refl))
              (λ rates. nil_as-Keeps _ (rates.rates to)))

    fetch_exchange_rate-Keeps :
        (from to : String)
        → Keeps part (http_send (get_page (rate_url from)))
        → Keeps part (fetch_exchange_rate from to)
    unfolding fetch_exchange_rate
    fetch_exchange_rate-Keeps from to sent w = elim (Bool-cases (from == to)) [
      | inl b ↦ rw b refl
      | inr b ↦ rw b (read_rate-Keeps from to sent w)
    ]

  module _ (reference : String) (t : Tables x.F) (user_id from to : String) (amount : x.F) where
    -- What a swap that succeeded at a rate has done to the tables.
    abbrev pub Exchanged : x.F → Tables x.F → Type 0
    Exchanged rate t' =
        Swapped user_id from to amount (x.mul amount rate) reference (swap_description from to rate)
          t t'

  module _ (reference : String) (Freed : Keyspace → Type 0) (releases : Releases reference Freed)
      (t : Tables x.F) (user_id from to : String) (amount : x.F) where
    -- The same as below, by what is known of a key that was given back.
    pub swap_funds-Closed :
        (w : World x.F)
        → w.tables ≡ t
        → Ends
            (λ result w'.
              Exchanged reference t user_id from to amount result.rate w'.tables
              × (result.dest_amount ≡ x.mul amount result.rate)
              × IsHeld reference w'.keys)
            (Closed Freed t)
            (swap_funds user_id from to amount reference w)
    unfolding swap_funds
    swap_funds-Closed w same =
        bind-Ends _ _ (acquire-Ends Freed reference t w same)
          (λ _ w1 (held1, same1).
            bind-Ends _ _
              (or_release-Ends reference Freed releases t (fetch_exchange_rate from to) w1
                (fetch_exchange_rate-Keeps keys_of from to (http_send-Keeps-keys _)) held1
                (Keeps-Ends tables_of (fetch_exchange_rate from to) w1 t
                  (fetch_exchange_rate-Keeps tables_of from to (http_send-Keeps-tables _)) same1))
              (λ rate w2 (same2, held2).
                bind-Ends _ _
                  (commit_or_release-Ends reference Freed releases t
                    (swap_in_tables user_id from to amount (x.mul amount rate) reference
                      (swap_description from to rate))
                    w2
                    (swap_in_tables-Keeps user_id from to amount (x.mul amount rate) reference
                      (swap_description from to rate))
                    held2
                    (Ends-weaken _ (λ _ _ h. h) (λ _ _ h. h)
                      (swap_in_tables-Ends user_id from to amount (x.mul amount rate) reference
                        (swap_description from to rate) t w2 same2)))
                  (λ _ w3 done3.
                    kept-Ends (Exchanged reference t user_id from to amount rate) reference
                      (complete reference) w3 _ done3 (complete-Ends reference w3 done3.1)
                      λ w4 done4.
                        kept-Ends (Exchanged reference t user_id from to amount rate) reference
                          (ignore (delete (wallet_key user_id))) w4 _ done4
                          (forget-Ends _ reference w4 (wallet_key-ne user_id reference) done4.1)
                          λ w5 done5.
                            kept-Ends (Exchanged reference t user_id from to amount rate) reference
                              (ignore (delete (history_key user_id))) w5 _ done5
                              (forget-Ends _ reference w5 (history_key-ne user_id reference)
                                done5.1)
                              λ w6 (done6, held6). returned _ refl (done6, refl, held6))
                  (λ _ _ h. h))
              (λ _ _ h. h))
          (λ _ _ h. h)

  module _ (reliable : IsReliable) (reference : String) (t : Tables x.F) (user_id from to : String)
      (amount : x.F) where
    -- With a Redis that answers every command, a swap of the service does what the repository's
    -- swap does at the rate of its answer and holds its idempotency key afterwards, or it fails and
    -- no table has changed; after a failure the key is free for another try, unless the request was
    -- refused as already processed.
    pub swap_funds-Ends :
        (w : World x.F)
        → w.tables ≡ t
        → Ends
            (λ result w'.
              Exchanged reference t user_id from to amount result.rate w'.tables
              × (result.dest_amount ≡ x.mul amount result.rate)
              × IsHeld reference w'.keys)
            (Dropped reference t)
            (swap_funds user_id from to amount reference w)
    swap_funds-Ends =
        swap_funds-Closed reference (IsFree reference) (reliable-Releases reliable reference) t
          user_id from to amount
