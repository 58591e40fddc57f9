-- ===== src/Service/Wallet/Fresh.antt =====
-- internals/service/wallet_service.go: the cached wallet of a user after the user's own writes.
use mzl_payment_app.Common.{
  String, Option, none, some, List, ◌==◌, ◌≡◌, refl, arith, inl, inr, Bool-cases,
}
use mzl_payment_app.Common.Table.{find}
use mzl_payment_app.Go.{GoError, Result, ok, err}
use mzl_payment_app.External.{Externals}
use mzl_payment_app.External.Messages.{Codec}
use mzl_payment_app.External.Requests.{WithdrawalRequest}
use mzl_payment_app.External.Redis.{Keyspace, del, get, store}
use mzl_payment_app.External.Redis.Keys.{store_self}
use mzl_payment_app.Schema.Tables.{Tables, Wallet}
use mzl_payment_app.Schema.Assets.{Asset}
use mzl_payment_app.World.{World, Action, pure, bind, ◌>>◌, ignore}
use mzl_payment_app.World.Ends.{
  Ends, returned, failed, bind-Ends, attempt-Ends, ignore-Ends, Ends-ok, Ends-weaken,
}
use mzl_payment_app.World.Commands.{IsReliable, run_command-Ends, run_command_reliable}
use mzl_payment_app.World.Laws.{run_find-Ends}
use mzl_payment_app.Queue.{delete, get_value}
use mzl_payment_app.Repository.Wallet.{get_wallet_with_assets as find_wallet, attach, assets_of}
use mzl_payment_app.Service.Payment.{wallet_key}
use mzl_payment_app.Service.Wallet.{
  get_wallet_with_assets, read_wallet, fund_wallet, swap_funds, transfer_funds, withdraw_funds,
}
use mzl_payment_app.Service.Wallet.Keys.{delete-Ends, stored}

module _ ⦃x : Externals⦄ where
  -- A method that moves money of the user, with its arguments.
  pub data Write : Type 0 where
    fund : String → x.F → String → String → Write
    swap : String → String → x.F → String → Write
    transfer : String → String → x.F → String → String → Write
    withdraw : WithdrawalRequest x.F → Write

  abbrev pub run_write : String → Write → Action (Unit {0})
  run_write user_id (fund currency amount reference description) =
      fund_wallet user_id currency amount reference description
  run_write user_id (swap from to amount_in reference) =
      swap_funds user_id from to amount_in reference >> pure tt
  run_write user_id (transfer to_account currency amount user_desc reference) =
      transfer_funds user_id to_account currency amount user_desc reference >> pure tt
  run_write user_id (withdraw req) = withdraw_funds user_id req

  -- The user's wallet with its balances, in the tables.
  abbrev pub stored_wallet : String → Tables x.F → Option (Wallet × List Asset)
  stored_wallet user_id t = attach assets_of t (find (λ w. w.user_id == user_id) t.wallets)

  anything : {A : Type 0} (p : Result A × World x.F) → Ends (λ _ _. Unit {0}) (λ _ _. Unit {0}) p
  anything (ok a, w) = returned a refl tt
  anything (err e, w) = failed e refl tt

  -- A step whose outcome does not matter to what comes after it.
  then_Ends :
      {A B : Type 0} {P : B → World x.F → Type 0} (f : A → Action B) (p : Result A × World x.F)
      → ((a : A) (w : World x.F) → Ends P (λ _ _. Unit {0}) (f a w))
      → Ends P (λ _ _. Unit {0}) (bind f p)
  then_Ends f p k = bind-Ends f p (anything p) (λ a w _. k a w) (λ _ _ _. tt)

  get_missing :
      (key : String) (k k' : Keyspace) (reply : Option String)
      → k key ≡ none
      → get key k ≡ some (reply, k')
      → reply ≡ none
  get_missing key k k' reply missing e = ground arith

  -- What is not in the cache is not read from it.
  get_value-missing :
      {A : Type 0} (codec : Codec A) (key : String) (w : World x.F)
      → w.keys key ≡ none
      → Ends (λ _ _. ⊥) (λ _ w'. w'.tables ≡ w.tables) (get_value codec key w)
  unfolding get_value bind
  get_value-missing codec key w missing =
      bind-Ends _ _ (run_command-Ends (get key) w)
        (λ reply w1 (e, same).
          rw (get_missing key w.keys w1.keys reply missing e) (failed _ refl same))
        (λ _ _ (_, same). same)

  module _ (user_id : String) where
    abbrev IsUncached : World x.F → Type 0
    IsUncached w = w.keys (wallet_key user_id) ≡ none

    abbrev pub Shown : Wallet × List Asset → World x.F → Type 0
    Shown row w =
        Ends (λ found _. found ≡ row) (λ e _. x.IsOutage e) (get_wallet_with_assets user_id w)

    read_wallet-Ends :
        (w : World x.F) (row : Wallet × List Asset)
        → stored_wallet user_id w.tables ≡ some row
        → Ends (λ found _. found ≡ row) (λ e _. x.IsOutage e) (read_wallet user_id w)
    unfolding read_wallet find_wallet bind
    read_wallet-Ends w row here =
        bind-Ends _ _ (run_find-Ends (stored_wallet user_id) w row here)
          (λ o w1 is. rw is (returned row refl refl)) (λ _ _ outage. outage)

    get_wallet-Shown :
        (w : World x.F) (row : Wallet × List Asset)
        → IsUncached w
        → stored_wallet user_id w.tables ≡ some row
        → Shown row w
    unfolding get_wallet_with_assets
    get_wallet-Shown w row missing here =
        bind-Ends _ _
          (attempt-Ends (get_value x.wallet_codec (wallet_key user_id)) w
            {Q = λ r w1. ((e : GoError) × (r ≡ err e)) × (w1.tables ≡ w.tables)}
            (get_value-missing x.wallet_codec (wallet_key user_id) w missing) (λ _ _ h. absurd h)
            (λ e _ same. ((e, refl), same)))
          (λ r w1 ((e, is), same). rw is (read_wallet-Ends w1 row (rw same here)))
          (λ _ _ h. absurd h)

    absent_after :
        (key : String) (k : Keyspace)
        → k (wallet_key user_id) ≡ none
        → store key none k (wallet_key user_id) ≡ none
    absent_after key k missing = elim (Bool-cases (key == wallet_key user_id)) [
      | inl same ↦ rw same refl
      | inr other ↦ rw other missing
    ]

    -- A key that is dropped from the cache brings none back.
    delete-IsUncached :
        (key : String) (w : World x.F)
        → IsUncached w
        → Ends (λ _. IsUncached) (λ _ _. ⊥) (ignore (delete key) w)
    delete-IsUncached key w missing =
        ignore-Ends (delete key) w (delete-Ends key w)
          (λ u w' (e, _). rw (stored key w.keys w'.keys u e) (absent_after key w.keys missing))
          (λ _ w' (same, _). rw same missing)

    finished :
        {p : Result (Unit {0}) × World x.F}
        → Ends (λ _. IsUncached) (λ _ _. ⊥) p
        → Ends (λ _. IsUncached) (λ _ _. Unit {0}) p
    finished {p} e = Ends-weaken p (λ _ _ h. h) (λ _ _ h. absurd h) e

    bind_certain :
        {B : Type 0} (f : Unit {0} → Action B) (p : Result (Unit {0}) × World x.F)
        → Ends (λ _. IsUncached) (λ _ _. ⊥) p
        → ((u : Unit {0}) (w : World x.F)
            → IsUncached w
            → Ends (λ _. IsUncached) (λ _ _. Unit {0}) (f u w))
        → Ends (λ _. IsUncached) (λ _ _. Unit {0}) (bind f p)
    bind_certain f p e k = bind-Ends f p e k (λ _ _ h. absurd h)

    module _ (reliable : IsReliable) where
      dropped :
          (w : World x.F)
          → Ends (λ _. IsUncached) (λ _ _. ⊥) (ignore (delete (wallet_key user_id)) w)
      unfolding delete
      dropped w =
          let key = wallet_key user_id in
          let (_, gone) =
            run_command_reliable (del key) w tt (store key none w.keys) reliable refl in
          returned tt refl (rw gone (store_self key none w.keys))

      fund-Ends :
          (currency : String) (amount : x.F) (reference description : String) (w : World x.F)
          → Ends
              (λ _. IsUncached)
              (λ _ _. Unit {0})
              (fund_wallet user_id currency amount reference description w)
      unfolding fund_wallet
      fund-Ends currency amount reference description w = then_Ends _ _ λ _ w1.
          then_Ends _ _ λ _ w2.
            then_Ends _ _ λ _ w3. then_Ends _ _ λ _ w4. then_Ends _ _ λ _ w5. finished (dropped w5)

      swap-Ends :
          (from to : String) (amount_in : x.F) (reference : String) (w : World x.F)
          → Ends
              (λ _. IsUncached)
              (λ _ _. Unit {0})
              (swap_funds user_id from to amount_in reference w)
      unfolding swap_funds
      swap-Ends from to amount_in reference w = then_Ends _ _ λ _ w1. then_Ends _ _ λ _ w2.
          then_Ends _ _ λ _ w3. then_Ends _ _ λ _ w4.
            bind_certain _ _ (dropped w4)
              λ _ w5 h5. bind_certain _ _ (delete-IsUncached _ w5 h5) λ _ w6 h6. returned _ refl h6

      transfer-Ends :
          (to_account currency : String) (amount : x.F) (user_desc reference : String)
          (w : World x.F)
          → Ends
              (λ _. IsUncached)
              (λ _ _. Unit {0})
              (transfer_funds user_id to_account currency amount user_desc reference w)
      unfolding transfer_funds
      transfer-Ends to_account currency amount user_desc reference w = then_Ends _ _ λ _ w1.
          then_Ends _ _ λ _ w2. then_Ends _ _ λ _ w3. then_Ends _ _ λ _ w4.
            then_Ends _ _ λ receiver w5. then_Ends _ _ λ _ w6. then_Ends _ _ λ _ w7.
              then_Ends _ _ λ _ w8. bind_certain _ _ (dropped w8) λ _ w9 h9.
                bind_certain _ _ (delete-IsUncached _ w9 h9) λ _ w10 h10.
                  bind_certain _ _ (delete-IsUncached _ w10 h10) λ _ w11 h11. returned _ refl h11

      withdraw-Ends :
          (req : WithdrawalRequest x.F) (w : World x.F)
          → Ends (λ _. IsUncached) (λ _ _. Unit {0}) (withdraw_funds user_id req w)
      unfolding withdraw_funds
      withdraw-Ends req w = then_Ends _ _ λ _ w1.
          then_Ends _ _
            λ _ w2. bind_certain _ _ (dropped w2) λ _ w3 h3. finished (delete-IsUncached _ w3 h3)

      run_write-Ends :
          (write : Write) (w : World x.F)
          → Ends (λ _. IsUncached) (λ _ _. Unit {0}) (run_write user_id write w)
      run_write-Ends (fund c a r d) w = fund-Ends c a r d w
      run_write-Ends (swap f t a r) w =
          bind-Ends _ _ (swap-Ends f t a r w) (λ _ _ h. returned tt refl h) (λ _ _ _. tt)
      run_write-Ends (transfer n c a d r) w =
          bind-Ends _ _ (transfer-Ends n c a d r w) (λ _ _ h. returned tt refl h) (λ _ _ _. tt)
      run_write-Ends (withdraw req) w = withdraw-Ends req w

      -- With a Redis that answers every command, a user who has funded, swapped, sent or withdrawn
      -- money without an error and looks at the wallet next gets the balances that the tables
      -- hold, whatever was cached before; the only error is an outage of the database.
      pub get_wallet_after_write :
          (write : Write) (w : World x.F) (row : Wallet × List Asset)
          → (run_write user_id write w).0 ≡ ok tt
          → stored_wallet user_id (run_write user_id write w).1.tables ≡ some row
          → Shown row (run_write user_id write w).1
      get_wallet_after_write write w row succeeded here =
          get_wallet-Shown _ row (Ends-ok _ tt (run_write-Ends write w) succeeded) here
