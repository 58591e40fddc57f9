-- ===== src/Repository/User/Keys.antt =====
-- internals/repository/user_repository.go: the unique indexes of users, wallets and tokens under
-- every method that writes.
use mzl_payment_app.Common.{
  ℕ, String, Bool, none, List, [], ◌∷◌, ◌++◌, ◌==◌, ◌||◌, ◌≡◌, refl, arith, eq_iff, Bool-cases, inl,
  inr,
}
use mzl_payment_app.Common.Table.{find, update, IsDistinct, IsDistinct-append, IsDistinct-update}
use mzl_payment_app.Go.{Result}
use mzl_payment_app.External.{Externals}
use mzl_payment_app.Schema.Tables.{Tables, User, Wallet, RefreshToken}
use mzl_payment_app.Schema.Query.{Query, done}
use mzl_payment_app.Schema.Assets.{create_asset, new_asset}
use mzl_payment_app.Schema.Users.{
  create_user, create_wallet, update_pin, create_token, revoke_token, has_email, has_user_id,
  has_token, new_user, new_wallet, new_token, with_pin, with_revoked,
}
use mzl_payment_app.World.{World, Action, run_query, attempt, pure, ◌>>◌}
use mzl_payment_app.World.Ends.{Ends, returned, failed, bind-Ends, Ends-weaken, wrapped_as-Ends}
use mzl_payment_app.World.Keeps.{Keeps, tables_of, Keeps-Ends}
use mzl_payment_app.World.Laws.{run_query-Ends}
use mzl_payment_app.Repository.User.{
  number_or, create_user_with_wallet, update_transaction_pin, save_refresh_token,
  revoke_refresh_token,
}
use mzl_payment_app.Utils.{generate_account_number}
use mzl_payment_app.Repository.User.Registration.{number-Keeps, number_or-Keeps}

abbrev pub same_user : User → User → Bool
same_user a b = b.email == a.email || b.id == a.id

abbrev pub same_owner : Wallet → Wallet → Bool
same_owner a b = b.id == a.id || b.account_number == a.account_number || b.user_id == a.user_id

abbrev pub same_token : RefreshToken → RefreshToken → Bool
same_token a b = b.token == a.token

eq_swap : (a b : String) → (a == b) ≡ (b == a)
eq_swap a b = elim (Bool-cases (a == b)) [
  | inl e ↦ ground (arith, eq_iff a b, eq_iff b a)
  | inr e ↦ ground (arith, eq_iff a b, eq_iff b a)
]

find-or :
    {A : Type 0} (p q : A → Bool) (rows : List A)
    → find p rows ≡ none
    → find q rows ≡ none
    → find (λ a. p a || q a) rows ≡ none
find-or p q [] e f = refl
find-or p q (a ∷ rows) e f = ground (arith, find-or p q rows)

module _ ⦃x : Externals⦄ where
  -- No two users share an email or an id, no two wallets an id, an account number or a user, and
  -- no two refresh tokens their text.
  pub record IsKeyed (t : Tables x.F) : Type 0 where
    pub users : IsDistinct same_user t.users
    pub wallets : IsDistinct same_owner t.wallets
    pub tokens : IsDistinct same_token t.refresh_tokens

  Preserves : {A : Type 0} → Query x.F A → Type 0
  Preserves {A} q = (a : A) (t t' : Tables x.F) → q t ≡ done a t' → IsKeyed t → IsKeyed t'

  create_user-IsKeyed : (email password name : String) → Preserves (create_user email password name)
  unfolding create_user Preserves
  create_user-IsKeyed email password name a t t' e k =
      let u = new_user email password name t in
      let all : t' ≡ record t { users = t.users ++ u ∷ [] } = ground arith in
      rw all (record {
        users =
            IsDistinct-append same_user t.users u
              (λ b. rw (eq_swap u.email b.email, eq_swap u.id b.id) refl)
              (find-or (has_email email) (has_user_id u.id) t.users (ground arith) (ground arith))
              k.users;
        wallets = k.wallets;
        tokens = k.tokens;
      })

  create_wallet-IsKeyed : (number user_id : String) → Preserves (create_wallet number user_id)
  unfolding create_wallet Preserves
  create_wallet-IsKeyed number user_id a t t' e k =
      let v = new_wallet number user_id t in
      let all : t' ≡ record t { wallets = t.wallets ++ v ∷ [] } = ground arith in
      rw all (record {
        users = k.users;
        wallets =
            IsDistinct-append same_owner t.wallets v
              (λ b.
                rw
                  (
                    eq_swap v.id b.id,
                    eq_swap v.account_number b.account_number,
                    eq_swap v.user_id b.user_id,
                  )
                  refl)
              (ground arith) k.wallets;
        tokens = k.tokens;
      })

  create_token-IsKeyed :
      (user_id token : String) (expires_at : ℕ) → Preserves (create_token user_id token expires_at)
  unfolding create_token Preserves
  create_token-IsKeyed user_id token expires_at a t t' e k =
      let r = new_token user_id token expires_at t in
      let all : t' ≡ record t { refresh_tokens = t.refresh_tokens ++ r ∷ [] } = ground arith in
      rw all (record {
        users = k.users;
        wallets = k.wallets;
        tokens =
            IsDistinct-append same_token t.refresh_tokens r (λ b. eq_swap r.token b.token)
              (ground arith) k.tokens;
      })

  update_pin-IsKeyed : (user_id pin : String) → Preserves (update_pin user_id pin)
  unfolding update_pin Preserves
  update_pin-IsKeyed user_id pin a t t' e k =
      let all : t' ≡ record t { users = update (has_user_id user_id) (with_pin pin) t.users } =
        ground arith in
      rw all (record {
        users =
            IsDistinct-update same_user (has_user_id user_id) (with_pin pin) (λ _ _. refl)
              (λ _ _. refl) t.users k.users;
        wallets = k.wallets;
        tokens = k.tokens;
      })

  revoke_token-IsKeyed : (token : String) → Preserves (revoke_token token)
  unfolding revoke_token Preserves
  revoke_token-IsKeyed token a t t' e k =
      let all : t'
          ≡ record t { refresh_tokens = update (has_token token) with_revoked t.refresh_tokens } =
        ground arith in
      rw all (record {
        users = k.users;
        wallets = k.wallets;
        tokens =
            IsDistinct-update same_token (has_token token) with_revoked (λ _ _. refl) (λ _ _. refl)
              t.refresh_tokens k.tokens;
      })

  create_asset-IsKeyed :
      (wallet_id currency : String) (amount : x.F)
      → Preserves (create_asset wallet_id currency amount)
  unfolding create_asset Preserves
  create_asset-IsKeyed wallet_id currency amount a t t' e k =
      let all : t' ≡ record t { assets = t.assets ++ new_asset wallet_id currency amount t ∷ [] } =
        ground arith in
      rw all (record { users = k.users; wallets = k.wallets; tokens = k.tokens })

  abbrev Kept : {A : Type 0} → Result A × World x.F → Type 0
  Kept {A} p = Ends (λ (_ : A) w. IsKeyed w.tables) (λ _ w. IsKeyed w.tables) p

  query-Kept :
      {A : Type 0} (q : Query x.F A) (w : World x.F)
      → Preserves q
      → IsKeyed w.tables
      → Kept (run_query q w)
  unfolding Preserves
  query-Kept q w safe k =
      Ends-weaken _ (λ a w' d. safe a w.tables w'.tables d k) (λ _ _ same. rw same k)
        (run_query-Ends q w)

  unchanged-Kept :
      {A : Type 0} (m : Action A) (w : World x.F)
      → Keeps tables_of m
      → IsKeyed w.tables
      → Kept (m w)
  unchanged-Kept m w keeps k =
      Ends-weaken _ (λ _ _ same. rw same k) (λ _ _ same. rw same k)
        (Keeps-Ends tables_of m w w.tables keeps refl)

  create_user_with_wallet-Kept :
      (email password name : String) (w : World x.F)
      → IsKeyed w.tables
      → Kept (create_user_with_wallet email password name w)
  unfolding create_user_with_wallet
  create_user_with_wallet-Kept email password name w k =
      bind-Ends _ _
        (wrapped_as-Ends _ _ _ (query-Kept _ w (create_user-IsKeyed email password name) k))
        (λ u w1 k1.
          bind-Ends _ _ (unchanged-Kept (attempt generate_account_number) w1 number-Keeps k1)
            (λ drawn w2 k2.
              bind-Ends _ _ (unchanged-Kept (number_or drawn) w2 (number_or-Keeps drawn) k2)
                (λ number w3 k3.
                  bind-Ends _ _
                    (wrapped_as-Ends _ _ _
                      (query-Kept _ w3 (create_wallet-IsKeyed (x.show_int number) u.id) k3))
                    (λ wallet w4 k4.
                      bind-Ends _ _
                        (wrapped_as-Ends _ _ _
                          (query-Kept _ w4 (create_asset-IsKeyed wallet.id "NGN" x.zero_f) k4))
                        (λ _ _ k5. returned u refl k5) (λ _ _ h. h))
                    (λ _ _ h. h))
                (λ _ _ h. h))
            (λ _ _ h. h))
        (λ _ _ h. h)

  -- The calls of the interface that write, with their arguments.
  pub data UserWrite : Type 0 where
    create : String → String → String → UserWrite
    set_pin : String → String → UserWrite
    save_token : String → String → ℕ → UserWrite
    revoke : String → UserWrite

  unfoldable pub apply_user : UserWrite → Action (Unit {0})
  apply_user (create email password name) = create_user_with_wallet email password name >> pure tt
  apply_user (set_pin user_id pin) = update_transaction_pin user_id pin
  apply_user (save_token user_id token expires_at) = save_refresh_token user_id token expires_at
  apply_user (revoke token) = revoke_refresh_token token

  apply_user-Kept : (c : UserWrite) (w : World x.F) → IsKeyed w.tables → Kept (apply_user c w)
  unfolding apply_user update_transaction_pin save_refresh_token revoke_refresh_token
  apply_user-Kept (create email password name) w k =
      bind-Ends _ _ (create_user_with_wallet-Kept email password name w k)
        (λ _ _ h. returned tt refl h) (λ _ _ h. h)
  apply_user-Kept (set_pin user_id pin) w k = query-Kept _ w (update_pin-IsKeyed user_id pin) k
  apply_user-Kept (save_token user_id token expires_at) w k =
      query-Kept _ w (create_token-IsKeyed user_id token expires_at) k
  apply_user-Kept (revoke token) w k = query-Kept _ w (revoke_token-IsKeyed token) k

  either_end : {A : Type 0} (p : Result A × World x.F) → Kept p → IsKeyed p.1.tables
  either_end p (returned _ _ k) = k
  either_end p (failed _ _ k) = k

  abbrev pub apply_users : List UserWrite → World x.F → World x.F
  apply_users [] w = w
  apply_users (c ∷ rest) w = apply_users rest (apply_user c w).1

  -- After any sequence of calls that write users, wallets or refresh tokens, each of which may
  -- succeed or fail, no two users share an email or an id, no two wallets an id, an account number
  -- or a user, and no two refresh tokens their text, if this was so before.
  pub apply_users-IsKeyed :
      (calls : List UserWrite) (w : World x.F)
      → IsKeyed w.tables
      → IsKeyed (apply_users calls w).tables
  apply_users-IsKeyed [] w k = k
  apply_users-IsKeyed (c ∷ rest) w k =
      apply_users-IsKeyed rest (apply_user c w).1 (either_end _ (apply_user-Kept c w k))
