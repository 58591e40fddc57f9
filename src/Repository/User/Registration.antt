-- ===== src/Repository/User/Registration.antt =====
-- internals/repository/user_repository.go: `CreateUserWithWallet`, whose inserts are on their own.
use mzl_payment_app.Common.{
  ℕ, suc, String, none, [], ◌∷◌, ◌++◌, ◌≡◌, refl, ap, ◌∙◌, ◌⊎◌, inl, inr, arith,
}
use mzl_payment_app.Common.Table.{find}
use mzl_payment_app.Go.{Result, ok, err}
use mzl_payment_app.External.{Externals}
use mzl_payment_app.Schema.Tables.{Tables, User, Wallet}
use mzl_payment_app.Schema.Query.{Query, done}
use mzl_payment_app.Schema.Assets.{Asset, create_asset, new_asset}
use mzl_payment_app.Schema.Users.{create_user, create_wallet, new_user, new_wallet, has_email}
use mzl_payment_app.World.{World, wrapped_as, run_query, attempt, random_below, bind}
use mzl_payment_app.World.Ends.{Ends, returned, bind-Ends, Ends-weaken, wrapped_as-Ends}
use mzl_payment_app.World.Keeps.{Keeps, tables_of, Keeps-Ends}
use mzl_payment_app.World.Laws.{run_query-Ends}
use mzl_payment_app.Utils.{generate_account_number, shifted}
use mzl_payment_app.Repository.User.{create_user_with_wallet, number_or}

module _ ⦃x : Externals⦄ where
  shifted-Keeps : (r : Result ℕ) → Keeps tables_of (shifted r)
  shifted-Keeps (ok n) w = refl
  shifted-Keeps (err e) w = refl

  pub number-Keeps : Keeps tables_of generate_account_number
  unfolding generate_account_number random_below bind
  number-Keeps w = shifted-Keeps (x.rand_int w.calls 9000000000) (record w { calls = suc w.calls })

  pub number_or-Keeps : (r : Result ℕ) → Keeps tables_of (number_or r)
  number_or-Keeps (ok n) w = refl
  number_or-Keeps (err e) w = refl

  module _ (t : Tables x.F) (email password name : String) where
    -- A user, and nothing else, was added.
    pub record UserAdded (u : User) (t' : Tables x.F) : Type 0 where
      pub email_free : find (has_email email) t.users ≡ none
      pub user_is : u ≡ new_user email password name t
      pub only_users : t' ≡ record t { users = t.users ++ u ∷ [] }

    -- A user with a wallet that has a balance of zero NGN was added.
    pub record AccountAdded (u : User) (t' : Tables x.F) : Type 0 where
      pub wallet : Wallet
      pub asset : Asset
      pub email_free : find (has_email email) t.users ≡ none
      pub email_is : u.email ≡ email
      pub name_is : u.name ≡ name
      pub password_is : u.password ≡ password
      pub users : t'.users ≡ t.users ++ u ∷ []
      pub wallets : t'.wallets ≡ t.wallets ++ wallet ∷ []
      pub assets : t'.assets ≡ t.assets ++ asset ∷ []
      pub owned : wallet.user_id ≡ u.id
      pub held : asset.wallet_id ≡ wallet.id
      pub in_naira : asset.currency ≡ "NGN"
      pub empty : asset.balance ≡ x.zero_f

    -- A user was added who has no balance to use.
    pub record LeftBehind (t' : Tables x.F) : Type 0 where
      pub user : User
      pub email_is : user.email ≡ email
      pub users : t'.users ≡ t.users ++ user ∷ []
      pub assets : t'.assets ≡ t.assets

    create_user-UserAdded :
        (u : User) (t' : Tables x.F)
        → create_user email password name t ≡ done u t'
        → UserAdded u t'
    unfolding create_user
    create_user-UserAdded u t' e = record {
      email_free = ground arith;
      user_is = ground arith;
      only_users = ground arith;
    }

    left_after_user : (u : User) (t' : Tables x.F) → UserAdded u t' → LeftBehind t'
    left_after_user u t' h = record {
      user = u;
      email_is = ap (λ (v : User). v.email) h.user_is;
      users = ap (λ (s : Tables x.F). s.users) h.only_users;
      assets = ap (λ (s : Tables x.F). s.assets) h.only_users;
    }

    record WalletAdded (u : User) (v : Wallet) (t' : Tables x.F) : Type 0 where
      before : Tables x.F
      user_added : UserAdded u before
      owner : v.user_id ≡ u.id
      only_wallets : t' ≡ record before { wallets = before.wallets ++ v ∷ [] }

    create_wallet-WalletAdded :
        (number : String) (u : User) (v : Wallet) (t1 t' : Tables x.F)
        → UserAdded u t1
        → create_wallet number u.id t1 ≡ done v t'
        → WalletAdded u v t'
    unfolding create_wallet
    create_wallet-WalletAdded number u v t1 t' h e = record {
      before = t1;
      user_added = h;
      owner =
          let is : v ≡ new_wallet number u.id t1 = ground arith in
          ap (λ (c : Wallet). c.user_id) is;
      only_wallets = ground arith;
    }

    create_asset-AccountAdded :
        (u : User) (v : Wallet) (t2 t' : Tables x.F)
        → WalletAdded u v t2
        → create_asset v.id "NGN" x.zero_f t2 ≡ done tt t'
        → AccountAdded u t'
    unfolding create_asset
    create_asset-AccountAdded u v t2 t' h e =
        let new = new_asset v.id "NGN" x.zero_f t2 in
        let all : t' ≡ record t2 { assets = t2.assets ++ new ∷ [] } = ground arith in
        let user = h.user_added in
        record {
          wallet = v;
          asset = new;
          email_free = user.email_free;
          email_is = ap (λ (c : User). c.email) user.user_is;
          name_is = ap (λ (c : User). c.name) user.user_is;
          password_is = ap (λ (c : User). c.password) user.user_is;
          users =
              ap (λ (s : Tables x.F). s.users) all
              ∙ ap (λ (s : Tables x.F). s.users) h.only_wallets
              ∙ ap (λ (s : Tables x.F). s.users) user.only_users;
          wallets =
              ap (λ (s : Tables x.F). s.wallets) all
              ∙ ap (λ (s : Tables x.F). s.wallets) h.only_wallets
              ∙ ap (λ (s : Tables x.F). s.wallets ++ v ∷ []) user.only_users;
          assets =
              ap (λ (s : Tables x.F). s.assets) all
              ∙ ap (λ (s : Tables x.F). s.assets ++ new ∷ []) h.only_wallets
              ∙ ap (λ (s : Tables x.F). s.assets ++ new ∷ []) user.only_users;
          owned = h.owner;
          held = refl;
          in_naira = refl;
          empty = refl;
        }

    left_after_wallet :
        (u : User) (v : Wallet) (t' : Tables x.F) → WalletAdded u v t' → LeftBehind t'
    left_after_wallet u v t' h =
        let before = left_after_user u h.before h.user_added in
        record {
          user = before.user;
          email_is = before.email_is;
          users = ap (λ (s : Tables x.F). s.users) h.only_wallets ∙ before.users;
          assets = ap (λ (s : Tables x.F). s.assets) h.only_wallets ∙ before.assets;
        }

    -- The ends of a registration in the tables.
    abbrev pub Unfinished : Tables x.F → Type 0
    Unfinished t' = (t' ≡ t) ⊎ LeftBehind t'

    -- A query of the registration, with the prefix of its error.
    step-Ends :
        {A : Type 0} {P : A → World x.F → Type 0} (text : String) (q : Query x.F A) (w : World x.F)
        → ((a : A) (w' : World x.F) → q w.tables ≡ done a w'.tables → P a w')
        → Unfinished w.tables
        → Ends P (λ _ w'. Unfinished w'.tables) (wrapped_as text (run_query q) w)
    step-Ends text q w good bad =
        wrapped_as-Ends text (run_query q) w
          (Ends-weaken _ good (λ _ w' kept. rw kept bad) (run_query-Ends q w))

    -- A registration adds a user with a wallet that holds zero NGN, if the email was free; where it
    -- fails, nothing has changed, or the user alone was added, or the user with a wallet that has
    -- no balance.
    pub create_user_with_wallet-Ends :
        (w : World x.F)
        → w.tables ≡ t
        → Ends
            (λ u w'. AccountAdded u w'.tables)
            (λ _ w'. Unfinished w'.tables)
            (create_user_with_wallet email password name w)
    unfolding create_user_with_wallet
    create_user_with_wallet-Ends w same =
        bind-Ends _ _
          (step-Ends "failed to create user" (create_user email password name) w
            (λ u w' d. create_user-UserAdded u w'.tables (rw (← same) d)) (inl same))
          (λ u w1 h1.
            bind-Ends _ _
              (Keeps-Ends tables_of (attempt generate_account_number) w1 w1.tables number-Keeps
                refl)
              (λ r w2 same2.
                bind-Ends _ _
                  (Keeps-Ends tables_of (number_or r) w2 w1.tables (number_or-Keeps r) same2)
                  (λ number w3 same3.
                    let h3 : UserAdded u w3.tables = rw same3 h1 in
                    bind-Ends _ _
                      (step-Ends "failed to create wallet" (create_wallet (x.show_int number) u.id)
                        w3 (λ v w' d. create_wallet-WalletAdded _ u v w3.tables w'.tables h3 d)
                        (inr (left_after_user u w3.tables h3)))
                      (λ v w4 h4.
                        bind-Ends _ _
                          (step-Ends "failed to create default asset"
                            (create_asset v.id "NGN" x.zero_f) w4
                            (λ _ w' d. create_asset-AccountAdded u v w4.tables w'.tables h4 d)
                            (inr (left_after_wallet u v w4.tables h4)))
                          (λ _ w5 h5. returned u refl h5) (λ _ _ k. k))
                      (λ _ _ k. k))
                  (λ _ w' k. rw k (inr (left_after_user u w1.tables h1))))
              (λ _ w' k. rw k (inr (left_after_user u w1.tables h1))))
          (λ _ _ k. k)
