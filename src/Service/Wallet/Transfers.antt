-- ===== src/Service/Wallet/Transfers.antt =====
-- internals/service/wallet_service.go: `TransferFunds`, from its idempotency key to its answer.
use mzl_payment_app.Common.{String, Bool, true, false, ◌≡◌, refl, ◌∙◌, Option, none, some}
use mzl_payment_app.Go.{GoError, Result, ok, err}
use mzl_payment_app.External.{Externals}
use mzl_payment_app.External.Redis.{Keyspace}
use mzl_payment_app.Schema.Tables.{Tables, User, Wallet}
use mzl_payment_app.World.{World, Action, attempt, ignore, pure, ◌>>=◌, ◌>>◌}
use mzl_payment_app.World.Ends.{Ends, returned, bind-Ends, Ends-weaken}
use mzl_payment_app.World.Commands.{IsReliable}
use mzl_payment_app.World.Keeps.{Keeps, keys_of, tables_of, Keeps-Ends}
use mzl_payment_app.Queue.{delete}
use mzl_payment_app.Queue.Locks.{IsHeld}
use mzl_payment_app.Repository.Wallet.{
  transfer_funds as transfer_in_tables, get_user_by_id, get_wallet_by_account_number,
}
use mzl_payment_app.Repository.Wallet.Debits.{
  Transferred, transfer_funds-Ends as transfer_in_tables-Ends,
}
use mzl_payment_app.Repository.Wallet.Quiet.{
  get_user_by_id-Keeps, get_user_by_id-tables, get_wallet_by_account_number-Keeps,
  get_wallet_by_account_number-tables, transfer_funds-Keeps as transfer_in_tables-Keeps,
}
use mzl_payment_app.Service.Payment.{wallet_key, history_key}
use mzl_payment_app.Service.Wallet.{
  transfer_funds, wrapped_or_release, nil_or_release, release_if, receiver_name, complete,
  commit_or_release, or_release,
}
use mzl_payment_app.Service.Wallet.Keys.{
  Working, Dropped, IsFree, Closed, Releases, reliable-Releases, acquire-Ends, or_release-Ends,
  commit_or_release-Ends, complete-Ends, forget-Ends, kept-Ends, release_and_fail-Ends,
  wallet_key-ne, history_key-ne,
}

module _ ⦃x : Externals⦄ where
  -- A search of a request, whose result is tested next.
  attempt-Working :
      {A : Type 0} (m : Action A) (reference : String) (t : Tables x.F) (w : World x.F)
      → Keeps keys_of m
      → Keeps tables_of m
      → Working reference t w
      → Ends (λ _. Working reference t) (λ _ _. ⊥) (attempt m w)
  attempt-Working m reference t w keys tables (held, same) =
      returned _ refl (rw (keys w) held, tables w ∙ same)

  module _ (reference : String) (t : Tables x.F) where
    -- What a request that succeeded has done to the tables.
    abbrev pub Delivered : String → String → String → x.F → Tables x.F → Type 0
    Delivered user_id to_account currency amount t' =
        (ds : String) × (dr : String) × Transferred user_id to_account currency amount reference ds
          dr t t'

    abbrev pub Done : String → String → String → x.F → World x.F → Type 0
    Done user_id to_account currency amount w =
        Delivered user_id to_account currency amount w.tables × IsHeld reference w.keys

  module _ (reference : String) (Freed : Keyspace → Type 0) (releases : Releases reference Freed)
      (t : Tables x.F) where
    wrapped_or_release-Ends :
        {A : Type 0} (prefix : String) (r : Result A) (w : World x.F)
        → Working reference t w
        → Ends (λ _. Working reference t) (Closed Freed t) (wrapped_or_release reference prefix r w)
    wrapped_or_release-Ends prefix (ok a) w h = returned a refl h
    wrapped_or_release-Ends prefix (err e) w (held, same) =
        release_and_fail-Ends reference Freed releases t _ w same

    nil_or_release-Ends :
        {A : Type 0} (e : GoError) (o : Option A) (w : World x.F)
        → Working reference t w
        → Ends (λ _. Working reference t) (Closed Freed t) (nil_or_release reference e o w)
    nil_or_release-Ends e (some a) w h = returned a refl h
    nil_or_release-Ends e none w (held, same) =
        release_and_fail-Ends reference Freed releases t _ w same

    release_if-Ends :
        (c : Bool) (e : GoError) (w : World x.F)
        → Working reference t w
        → Ends (λ _. Working reference t) (Closed Freed t) (release_if reference c e w)
    release_if-Ends true e w (held, same) =
        release_and_fail-Ends reference Freed releases t _ w same
    release_if-Ends false e w h = returned tt refl h

    module _ (user_id to_account currency : String) (amount : x.F) where
      -- A step after the commit that keeps the key and the tables keeps what was done.
      step_kept :
          {B : Type 0} (m : Action (Unit {0})) (w : World x.F) (f : Unit {0} → Action B)
          → Done reference t user_id to_account currency amount w
          → Ends (λ _ w'. IsHeld reference w'.keys × (w'.tables ≡ w.tables)) (λ _ _. ⊥) (m w)
          → ((w' : World x.F)
              → Done reference t user_id to_account currency amount w'
              → Ends
                  (λ _. Done reference t user_id to_account currency amount)
                  (Closed Freed t)
                  (f tt w'))
          → Ends
              (λ _. Done reference t user_id to_account currency amount)
              (Closed Freed t)
              ((m >>= f) w)
      step_kept m w f =
          kept-Ends (Delivered reference t user_id to_account currency amount) reference m w f

      cleaned :
          (receiver : Wallet × Option User) (w : World x.F)
          → Done reference t user_id to_account currency amount w
          → Ends
              (λ _. Done reference t user_id to_account currency amount)
              (Closed Freed t)
              ((do
                complete reference
                ignore (delete (wallet_key user_id))
                ignore (delete (wallet_key receiver.0.user_id))
                ignore (delete (history_key user_id))
                pure (receiver_name receiver.1))
                w)
      cleaned receiver w h =
          step_kept (complete reference) w _ h (complete-Ends reference w h.1) λ w1 h1.
            step_kept (ignore (delete (wallet_key user_id))) w1 _ h1
              (forget-Ends _ reference w1 (wallet_key-ne user_id reference) h1.1)
              λ w2 h2.
                step_kept (ignore (delete (wallet_key receiver.0.user_id))) w2 _ h2
                  (forget-Ends _ reference w2 (wallet_key-ne receiver.0.user_id reference) h2.1)
                  λ w3 h3.
                    step_kept (ignore (delete (history_key user_id))) w3 _ h3
                      (forget-Ends _ reference w3 (history_key-ne user_id reference) h3.1)
                      λ w4 h4. returned _ refl h4

      committed :
          (ds dr : String) (w : World x.F)
          → Working reference t w
          → Ends
              (λ _. Done reference t user_id to_account currency amount)
              (Closed Freed t)
              (commit_or_release reference
                (transfer_in_tables user_id to_account currency amount reference ds dr)
                w)
      committed ds dr w (held, same) =
          commit_or_release-Ends reference Freed releases t
            (transfer_in_tables user_id to_account currency amount reference ds dr) w
            (transfer_in_tables-Keeps user_id to_account currency amount reference ds dr) held
            (Ends-weaken _ (λ _ _ h. (ds, dr, h)) (λ _ _ h. h)
              (transfer_in_tables-Ends user_id to_account currency amount reference ds dr t w same))

      looked_up :
          (w : World x.F)
          → Working reference t w
          → Ends
              (λ _. Working reference t)
              (Closed Freed t)
              (or_release reference (get_wallet_by_account_number to_account) w)
      looked_up w (held, same) =
          Ends-weaken _ (λ _ _ (a, b). (b, a)) (λ _ _ h. h)
            (or_release-Ends reference Freed releases t (get_wallet_by_account_number to_account) w
              (get_wallet_by_account_number-Keeps to_account) held
              (Keeps-Ends tables_of (get_wallet_by_account_number to_account) w t
                (get_wallet_by_account_number-tables to_account) same))

      -- A transfer, by what is known of a key that was given back.
      pub transfer_funds-Closed :
          (user_desc : String) (w : World x.F)
          → w.tables ≡ t
          → Ends
              (λ _. Done reference t user_id to_account currency amount)
              (Closed Freed t)
              (transfer_funds user_id to_account currency amount user_desc reference w)
      unfolding transfer_funds
      transfer_funds-Closed user_desc w same =
          bind-Ends _ _ (acquire-Ends Freed reference t w same)
            (λ _ w1 h1.
              bind-Ends _ _
                (attempt-Working (get_user_by_id user_id) reference t w1
                  (get_user_by_id-Keeps user_id) (get_user_by_id-tables user_id) h1)
                (λ r w2 h2.
                  bind-Ends _ _ (wrapped_or_release-Ends "failed to fetch sender details" r w2 h2)
                    (λ sender w3 h3.
                      bind-Ends _ _ (looked_up w3 h3)
                        (λ found w4 h4.
                          bind-Ends _ _ (nil_or_release-Ends _ found w4 h4)
                            (λ receiver w5 h5.
                              bind-Ends _ _ (release_if-Ends _ _ w5 h5)
                                (λ _ w6 h6.
                                  bind-Ends _ _ (committed _ _ w6 h6)
                                    (λ _ w7 h7. cleaned receiver w7 h7) (λ _ _ h. h))
                                (λ _ _ h. h))
                            (λ _ _ h. h))
                        (λ _ _ h. h))
                    (λ _ _ h. h))
                (λ _ _ h. absurd h))
            (λ _ _ h. h)

  module _ (reliable : IsReliable) (reference : String) (t : Tables x.F)
      (user_id to_account currency : String) (amount : x.F) where
    -- With a Redis that answers every command, a transfer of the service does what the
    -- repository's transfer does to the tables and holds its idempotency key afterwards, or it
    -- fails and no table has changed; after a failure the key is free for another try, unless
    -- the request was refused as already processed.
    pub transfer_funds-Ends :
        (user_desc : String) (w : World x.F)
        → w.tables ≡ t
        → Ends
            (λ _. Done reference t user_id to_account currency amount)
            (Dropped reference t)
            (transfer_funds user_id to_account currency amount user_desc reference w)
    transfer_funds-Ends =
        transfer_funds-Closed reference (IsFree reference) (reliable-Releases reliable reference) t
          user_id to_account currency amount
