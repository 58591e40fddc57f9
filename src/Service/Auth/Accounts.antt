-- ===== src/Service/Auth/Accounts.antt =====
-- internals/service/auth_service.go: `Register` and `Login`.
use mzl_payment_app.Common.{
  ℕ, ◌+◌, String, true, false, not, Option, none, some, [], ◌∷◌, ◌++◌, ◌≡◌, refl, sym, ap, ◌∙◌, ◌⊎◌,
  inl, inr, arith, Bool-cases, eq_iff,
}
use mzl_payment_app.Common.Table.{find, find-append}
use mzl_payment_app.Go.{Result, ok, err}
use mzl_payment_app.External.{Externals}
use mzl_payment_app.Schema.Tables.{Tables, User, RefreshToken}
use mzl_payment_app.Schema.Query.{done}
use mzl_payment_app.Schema.Users.{has_email, has_token, create_token, new_token}
use mzl_payment_app.World.{World, attempt, now}
use mzl_payment_app.World.Ends.{
  Ends, returned, failed, bind-Ends, attempt-Ends, fail_if-Ends, Ends-weaken,
}
use mzl_payment_app.World.Keeps.{Keeps, tables_of, Keeps-Ends, bind-Keeps}
use mzl_payment_app.World.Laws.{run_find-tables, run_find-some, run_query-Ends}
use mzl_payment_app.Repository.User.{
  find_user_by_email, create_user_with_wallet, save_refresh_token,
}
use mzl_payment_app.Repository.User.Registration.{
  AccountAdded, Unfinished, create_user_with_wallet-Ends,
}
use mzl_payment_app.Service.Auth.{
  TokenPair, register, login, is_found, user_or_exists, user_or_invalid, generate_token_pair,
  refresh_time,
}
use mzl_payment_app.Service.Auth.PinRoundtrip.{IsHash, hashed-Ends}

module _ ⦃x : Externals⦄ where
  module _ (t : Tables x.F) (email password full_name : String) where
    -- The hash that is stored matches the password.
    pub record Registered (u : User) (t' : Tables x.F) : Type 0 where
      pub hash : String
      pub is_hash : IsHash password hash
      pub account : AccountAdded t email hash full_name u t'

    -- What a registration that fails may leave.
    abbrev pub Remains : Tables x.F → Type 0
    Remains t' = (t' ≡ t) ⊎ ((hash : String) × Unfinished t email hash full_name t')

    abbrev Finished : Result User → World x.F → Type 0
    Finished (ok u) w' = Registered u w'.tables
    Finished (err e) w' = Remains w'.tables

    user_or_exists-Ends :
        (r : Result User) (w : World x.F)
        → Finished r w
        → Ends (λ u w'. Registered u w'.tables) (λ _ w'. Remains w'.tables) (user_or_exists r w)
    user_or_exists-Ends (ok u) w h = returned u refl h
    user_or_exists-Ends (err e) w h = elim (Bool-cases (x.is_err_unique_constraint e)) [
      | inl b ↦ rw b (failed _ refl h)
      | inr b ↦ rw b (failed _ refl h)
    ]

    find-Keeps : Keeps tables_of (find_user_by_email email)
    unfolding find_user_by_email
    find-Keeps w = run_find-tables (λ s. find (has_email email) s.users) w

    -- A registration that succeeds adds a user under a free email with a hash that the password
    -- matches, with a wallet and a balance of zero NGN; where it fails, nothing has changed, or the
    -- user was added without a balance.
    pub register-Ends :
        (w : World x.F)
        → w.tables ≡ t
        → Ends
            (λ u w'. Registered u w'.tables)
            (λ _ w'. Remains w'.tables)
            (register email password full_name w)
    unfolding register
    register-Ends w same =
        bind-Ends _ _
          (Keeps-Ends tables_of (attempt (find_user_by_email email)) w t find-Keeps same)
          (λ existing w1 same1.
            bind-Ends _ _
              (fail_if-Ends {P = λ _ w2. w2.tables ≡ t} (is_found existing) _ w1 (λ _. same1)
                (λ _. inl same1))
              (λ _ w2 same2.
                bind-Ends _ _ (hashed-Ends t password w2 _ refl same2)
                  (λ hash w3 (is_hash, same3).
                    bind-Ends _ _
                      (attempt-Ends (create_user_with_wallet email hash full_name) w3 {Q = Finished}
                        (create_user_with_wallet-Ends t email hash full_name w3 same3)
                        (λ u _ account. record {
                          hash = hash;
                          is_hash = is_hash;
                          account = account;
                        })
                        (λ _ _ left. inr (hash, left)))
                      (λ r w4 h4. user_or_exists-Ends r w4 h4) (λ _ _ h. absurd h))
                  (λ _ _ kept. inl kept))
              (λ _ _ h. h))
          (λ _ _ kept. inl kept)

  module _ (t : Tables x.F) (email password : String) where
    -- The password is the user's, and the refresh token of the pair is on record, valid for seven
    -- days from a look at the clock.
    pub record SignedIn (pair : TokenPair) (t' : Tables x.F) : Type 0 where
      pub user : User
      pub saved_at : ℕ
      pub row : RefreshToken
      pub found : find (has_email email) t.users ≡ some user
      pub matches : x.bcrypt_matches user.password password ≡ true
      pub on_record : find (has_token pair.refresh_token) t'.refresh_tokens ≡ some row
      pub owner : row.user_id ≡ user.id
      pub fresh : row.revoked ≡ false
      pub expires : row.expires_at ≡ x.clock saved_at + refresh_time

    abbrev Looked : Result (Option User) → World x.F → Type 0
    Looked r w' =
        ((u : User) → r ≡ ok (some u) → find (has_email email) t.users ≡ some u) × (w'.tables ≡ t)

    found-Ends :
        (r : Result (Option User)) (w : World x.F)
        → Looked r w
        → Ends
            (λ u w'. (find (has_email email) t.users ≡ some u) × (w'.tables ≡ t))
            (λ _ w'. w'.tables ≡ t)
            (user_or_invalid r w)
    found-Ends (ok (some u)) w (found, same) = returned u refl (found u refl, same)
    found-Ends (ok none) w (found, same) = failed _ refl same
    found-Ends (err e) w (found, same) = failed _ refl same

    search-Looked :
        (w : World x.F)
        → w.tables ≡ t
        → Ends Looked (λ _ _. ⊥) (attempt (find_user_by_email email) w)
    unfolding find_user_by_email
    search-Looked w same = returned _ refl (
      λ u e.
          ap (λ (s : Tables x.F). find (has_email email) s.users) (sym same)
          ∙ run_find-some (λ s. find (has_email email) s.users) w u e,
      run_find-tables (λ s. find (has_email email) s.users) w ∙ same,
    )

    now-Keeps : Keeps tables_of now
    unfolding now
    now-Keeps w = refl

    timed-Ends :
        (w : World x.F)
        → w.tables ≡ t
        → Ends
            (λ time w'. (time ≡ x.clock w.calls) × (w'.tables ≡ t))
            (λ _ w'. w'.tables ≡ t)
            (now w)
    unfolding now
    timed-Ends w same = returned _ refl (refl, same)

    pair-Keeps : (user_id : String) → Keeps tables_of (generate_token_pair user_id)
    unfolding generate_token_pair
    pair-Keeps user_id = bind-Keeps tables_of _ _ now-Keeps (λ _.
        bind-Keeps tables_of _ _ (λ w. refl)
          (λ _.
            bind-Keeps tables_of _ _ now-Keeps
              (λ _. bind-Keeps tables_of _ _ (λ w. refl) (λ _ w. refl))))

    saved :
        (u : User) (pair : TokenPair) (n : ℕ) (t' : Tables x.F)
        → find (has_email email) t.users ≡ some u
        → x.bcrypt_matches u.password password ≡ true
        → create_token u.id pair.refresh_token (x.clock n + refresh_time) t ≡ done tt t'
        → SignedIn pair t'
    unfolding create_token
    saved u pair n t' found matches e =
        let expiry = x.clock n + refresh_time in
        let new = new_token u.id pair.refresh_token expiry t in
        let missing : find (has_token pair.refresh_token) t.refresh_tokens ≡ none = ground arith in
        let rows : t'.refresh_tokens ≡ t.refresh_tokens ++ new ∷ [] = ground arith in
        let own = (eq_iff pair.refresh_token pair.refresh_token).1 refl in
        let here = find-append (has_token pair.refresh_token) t.refresh_tokens new missing in
        record {
          user = u;
          saved_at = n;
          row = new;
          found = found;
          matches = matches;
          on_record = rw rows (ground (arith, here, own));
          owner = refl;
          fresh = refl;
          expires = refl;
        }

    stored :
        (u : User) (pair : TokenPair) (n time : ℕ) (w : World x.F)
        → find (has_email email) t.users ≡ some u
        → x.bcrypt_matches u.password password ≡ true
        → time ≡ x.clock n
        → w.tables ≡ t
        → Ends
            (λ _ w'. SignedIn pair w'.tables)
            (λ _ w'. w'.tables ≡ t)
            (save_refresh_token u.id pair.refresh_token (time + refresh_time) w)
    unfolding save_refresh_token
    stored u pair n time w found matches is same =
        Ends-weaken _ (λ _ w' d. saved u pair n w'.tables found matches (rw (← same, ← is) d))
          (λ _ _ kept. kept ∙ same)
          (run_query-Ends (create_token u.id pair.refresh_token (time + refresh_time)) w)

    -- A login succeeds only with the password of the user who has that email; then its refresh token
    -- is on record for that user, not revoked, for seven days from a look at the clock. Where it
    -- fails, no table has changed.
    pub login-Ends :
        (w : World x.F)
        → w.tables ≡ t
        → Ends (λ pair w'. SignedIn pair w'.tables) (λ _ w'. w'.tables ≡ t) (login email password w)
    unfolding login
    login-Ends w same =
        bind-Ends _ _ (search-Looked w same)
          (λ r w1 h1.
            bind-Ends _ _ (found-Ends r w1 h1)
              (λ u w2 (found, same2).
                bind-Ends _ _
                  (fail_if-Ends
                    {P = λ _ w3. (x.bcrypt_matches u.password password ≡ true) × (w3.tables ≡ t)}
                    (not (x.bcrypt_matches u.password password)) _ w2 (λ b. (ground arith, same2))
                    (λ _. same2))
                  (λ _ w3 (matches, same3).
                    bind-Ends _ _
                      (Keeps-Ends tables_of (generate_token_pair u.id) w3 t (pair-Keeps u.id) same3)
                      (λ pair w4 same4.
                        bind-Ends _ _ (timed-Ends w4 same4)
                          (λ time w5 (is, same5).
                            bind-Ends _ _ (stored u pair w4.calls time w5 found matches is same5)
                              (λ _ w6 h6. returned pair refl h6) (λ _ _ k. k))
                          (λ _ _ k. k))
                      (λ _ _ k. k))
                  (λ _ _ k. k))
              (λ _ _ k. k))
          (λ _ _ h. absurd h)
