-- ===== src/Service/Auth/Pins.antt =====
-- internals/service/auth_service.go: the transaction PIN, from its setting to its test.
use mzl_payment_app.Common.{
  String, true, false, not, Option, none, some, ◌==◌, ◌≡◌, refl, sym, ap, ◌∙◌, arith,
}
use mzl_payment_app.Common.Table.{find}
use mzl_payment_app.Go.{GoError, Result, ok, err}
use mzl_payment_app.External.{Externals}
use mzl_payment_app.Schema.Tables.{Tables, User}
use mzl_payment_app.Schema.Query.{find_query}
use mzl_payment_app.Schema.Users.{has_user_id}
use mzl_payment_app.World.{World, run_query, fail_if}
use mzl_payment_app.World.Keeps.{Keeps, requests_of, bind-Keeps, run_query-Keeps-requests}
use mzl_payment_app.World.Laws.{run_find-tables, run_find-some}
use mzl_payment_app.World.Ends.{Ends, returned, failed, bind-Ends, fail_if-Ends, Ends-weaken}
use mzl_payment_app.Repository.User.{get_transaction_pin, pin_of, pin_or_empty}
use mzl_payment_app.Service.Auth.{verify_transaction_pin}

module _ ⦃x : Externals⦄ where
  -- A user of that id is in the tables, and the PIN matches the hash that is stored for the user.
  pub record PinMatches (user_id pin : String) (t : Tables x.F) : Type 0 where
    pub user : User
    pub found : find (has_user_id user_id) t.users ≡ some user
    pub is_set : (pin_or_empty user.transaction_pin == "") ≡ false
    pub matches : x.bcrypt_matches (pin_or_empty user.transaction_pin) pin ≡ true

  find-Ends :
      {A : Type 0} (q : Tables x.F → Option A) (w : World x.F) (r : Result (Option A))
      → r ≡ (run_query (find_query q) w).0
      → Ends
          (λ o w'. ((a : A) → o ≡ some a → q w.tables ≡ some a) × (w'.tables ≡ w.tables))
          (λ _ w'. w'.tables ≡ w.tables)
          (run_query (find_query q) w)
  find-Ends q w (ok o) e =
      returned o (sym e) ((λ a s. run_find-some q w a (sym e ∙ ap ok s)), run_find-tables q w)
  find-Ends q w (err f) e = failed f (sym e) (run_find-tables q w)

  pin_of-Ends :
      (o : Option User) (w : World x.F)
      → Ends
          (λ pin w'.
            (u : User) × (o ≡ some u)
            × (pin ≡ pin_or_empty u.transaction_pin)
            × (w'.tables ≡ w.tables))
          (λ _ w'. w'.tables ≡ w.tables)
          (pin_of o w)
  pin_of-Ends none w = failed _ refl refl
  pin_of-Ends (some u) w = returned _ refl (u, refl, refl, refl)

  pin-Ends :
      (user_id : String) (w : World x.F)
      → Ends
          (λ pin w'.
            (u : User) × (find (has_user_id user_id) w.tables.users ≡ some u)
            × (pin ≡ pin_or_empty u.transaction_pin)
            × (w'.tables ≡ w.tables))
          (λ _ w'. w'.tables ≡ w.tables)
          (get_transaction_pin user_id w)
  unfolding get_transaction_pin
  pin-Ends user_id w =
      bind-Ends _ _ (find-Ends (λ t. find (has_user_id user_id) t.users) w _ refl)
        (λ o w1 (found, same).
          Ends-weaken _ (λ pin w2 (u, is, p, kept). (u, found u is, p, kept ∙ same))
            (λ _ _ kept. kept ∙ same) (pin_of-Ends o w1))
        (λ _ _ h. h)

  -- A PIN that is accepted matches the one of the user; the tables are left alone either way.
  pub verify_transaction_pin-Ends :
      (user_id pin : String) (w : World x.F)
      → Ends
          (λ _ w'. PinMatches user_id pin w.tables × (w'.tables ≡ w.tables))
          (λ _ w'. w'.tables ≡ w.tables)
          (verify_transaction_pin user_id pin w)
  unfolding verify_transaction_pin
  verify_transaction_pin-Ends user_id pin w =
      bind-Ends _ _ (pin-Ends user_id w)
        (λ hashed w1 (u, found, is, same).
          bind-Ends _ _
            (fail_if-Ends {P = λ _ w2. ((hashed == "") ≡ false) × (w2.tables ≡ w.tables)}
              (hashed == "") _ w1 (λ b. (b, same)) (λ b. same))
            (λ _ w2 (is_set, same2).
              fail_if-Ends (not (x.bcrypt_matches hashed pin)) _ w2
                (λ b. (
                  record {
                    user = u;
                    found = found;
                    is_set = rw (← is) is_set;
                    matches = rw (← is) (ground arith);
                  },
                  same2,
                ))
                (λ b. same2))
            (λ _ _ h. h))
        (λ _ _ h. h)

  pin_of-Keeps : (o : Option User) → Keeps requests_of (pin_of o)
  pin_of-Keeps none w = refl
  pin_of-Keeps (some u) w = refl

  get_transaction_pin-Keeps : (user_id : String) → Keeps requests_of (get_transaction_pin user_id)
  unfolding get_transaction_pin
  get_transaction_pin-Keeps user_id =
      bind-Keeps requests_of _ _ (run_query-Keeps-requests _) pin_of-Keeps

  -- The test of a PIN sends no request.
  pub verify_transaction_pin-Keeps :
      (user_id pin : String) → Keeps requests_of (verify_transaction_pin user_id pin)
  unfolding verify_transaction_pin
  verify_transaction_pin-Keeps user_id pin =
      bind-Keeps requests_of _ _ (get_transaction_pin-Keeps user_id) (λ hashed.
        bind-Keeps requests_of (fail_if (hashed == "") (GoError.new "transaction pin not set"))
          (λ _. fail_if (not (x.bcrypt_matches hashed pin)) (GoError.new "invalid transaction pin"))
          (λ w. refl) (λ _ w. refl))
