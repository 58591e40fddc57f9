-- ===== src/Service/Auth/PinRoundtrip.antt =====
-- internals/service/auth_service.go: the PIN that was set, at its test.
use mzl_payment_app.Common.{
  String, true, false, not, some, ◌==◌, ◌≡◌, refl, ap, ◌∙◌, arith, eqb, inl, inr, Option-cases,
}
use mzl_payment_app.Common.Table.{find, update, find-update, find-holds}
use mzl_payment_app.Go.{Result, ok, err}
use mzl_payment_app.External.{Externals}
use mzl_payment_app.Schema.Tables.{Tables, User}
use mzl_payment_app.Schema.Query.{done}
use mzl_payment_app.Schema.Users.{has_user_id, update_pin, with_pin}
use mzl_payment_app.World.{World, ignore}
use mzl_payment_app.World.Laws.{run_find-Ends, run_query-Ends}
use mzl_payment_app.World.Ends.{
  Ends, returned, failed, bind-Ends, fail_if-Ends, Ends-ok, Ends-weaken,
}
use mzl_payment_app.World.Keeps.{Keeps, tables_of, Keeps-Ends, run_command-Keeps}
use mzl_payment_app.Queue.{delete}
use mzl_payment_app.External.Redis.{del}
use mzl_payment_app.Repository.User.{get_transaction_pin, pin_or_empty, update_transaction_pin}
use mzl_payment_app.Service.Auth.{
  verify_transaction_pin, set_transaction_pin, hash_password, profile_key,
}
use mzl_payment_app.Service.Auth.Pins.{PinMatches}

module _ ⦃x : Externals⦄ where
  update_pin-PinMatches :
      (user_id pin hash : String) (t t' : Tables x.F)
      → update_pin user_id hash t ≡ done tt t'
      → (hash == "") ≡ false
      → x.bcrypt_matches hash pin ≡ true
      → PinMatches user_id pin t'
  unfolding update_pin
  update_pin-PinMatches user_id pin hash t t' e nonempty matches =
      elim (Option-cases (find (has_user_id user_id) t.users)) [
        | inl missing ↦ absurd (ground arith)
        | inr (u, here) ↦
            let rows : t'.users ≡ update (has_user_id user_id) (with_pin hash) t.users =
              ground arith in
            let moved =
              find-update (has_user_id user_id) (has_user_id user_id) (with_pin hash) (λ a. refl)
                t.users in
            let own = find-holds (has_user_id user_id) t.users u here in
            record {
              user = with_pin hash u;
              found = rw rows (ground (arith, moved, here, own));
              is_set = nonempty;
              matches = matches;
            }
      ]

  -- The hash that the PIN is stored as.
  abbrev pub IsHash : String → String → Type 0
  IsHash pin hash = ((hash == "") ≡ false) × (x.bcrypt_matches hash pin ≡ true)

  pub hashed-Ends :
      (t : Tables x.F) (pin : String) (w : World x.F) (res : Result String)
      → x.bcrypt_hash w.calls pin ≡ res
      → w.tables ≡ t
      → Ends
          (λ hash w'. IsHash pin hash × (w'.tables ≡ t))
          (λ _ w'. w'.tables ≡ t)
          (hash_password pin w)
  unfolding hash_password
  hashed-Ends t pin w (ok hash) e same =
      returned hash e
        ((x.bcrypt_hash_nonempty w.calls pin hash e, x.bcrypt_hashed w.calls pin hash e), same)
  hashed-Ends t pin w (err f) e same = failed f e same

  delete-Keeps : (key : String) → Keeps tables_of (ignore (delete key))
  unfolding delete
  delete-Keeps key = run_command-Keeps (del key)

  pub set_transaction_pin-Ends :
      (user_id pin : String) (w : World x.F)
      → Ends
          (λ _ w'. PinMatches user_id pin w'.tables)
          (λ _ w'. w'.tables ≡ w.tables)
          (set_transaction_pin user_id pin w)
  unfolding set_transaction_pin update_transaction_pin
  set_transaction_pin-Ends user_id pin w =
      bind-Ends _ _
        (fail_if-Ends {P = λ _ w1. w1.tables ≡ w.tables} (not (eqb (x.byte_length pin) 4)) _ w
          (λ _. refl) (λ _. refl))
        (λ _ w1 same1.
          bind-Ends _ _ (hashed-Ends w.tables pin w1 _ refl same1)
            (λ hash w2 ((nonempty, matches), same2).
              bind-Ends _ _
                (Keeps-Ends tables_of (ignore (delete (profile_key user_id))) w2 w.tables
                  (delete-Keeps (profile_key user_id)) same2)
                (λ _ w3 same3.
                  Ends-weaken _
                    (λ _ w4 d.
                      update_pin-PinMatches user_id pin hash w3.tables w4.tables d nonempty matches)
                    (λ _ _ kept. kept ∙ same3) (run_query-Ends (update_pin user_id hash) w3))
                (λ _ _ k. k))
            (λ _ _ k. k))
        (λ _ _ k. k)

  -- The PIN of a user who is in the tables.
  known :
      (user_id : String) (w : World x.F) (u : User)
      → find (has_user_id user_id) w.tables.users ≡ some u
      → Ends
          (λ hash _. hash ≡ pin_or_empty u.transaction_pin)
          (λ e _. x.IsOutage e)
          (get_transaction_pin user_id w)
  unfolding get_transaction_pin
  known user_id w u here =
      bind-Ends _ _ (run_find-Ends (λ t. find (has_user_id user_id) t.users) w u here)
        (λ o w1 is. rw is (returned _ refl refl)) (λ _ _ k. k)

  pin_accepted :
      (user_id pin : String) (w : World x.F)
      → PinMatches user_id pin w.tables
      → Ends (λ _ _. Unit {0}) (λ e _. x.IsOutage e) (verify_transaction_pin user_id pin w)
  unfolding verify_transaction_pin
  pin_accepted user_id pin w h =
      bind-Ends _ _ (known user_id w h.user h.found)
        (λ hash w1 is.
          let set : (hash == "") ≡ false = rw is h.is_set in
          let matches : x.bcrypt_matches hash pin ≡ true = rw is h.matches in
          bind-Ends _ _
            (fail_if-Ends {P = λ _ _. Unit {0}} (hash == "") _ w1 (λ _. tt)
              (λ b. absurd (ground (arith, b, set))))
            (λ _ w2 _.
              fail_if-Ends (not (x.bcrypt_matches hash pin)) _ w2 (λ _. tt)
                (λ b. absurd (ground (arith, b, matches))))
            (λ _ _ k. k))
        (λ _ _ k. k)

  -- A PIN that was set is accepted: while the users are those that the setting has left, testing
  -- the same PIN for the same user succeeds, unless the database cannot be used.
  pub set_transaction_pin-verify_transaction_pin :
      (user_id pin : String) (w w' : World x.F)
      → (set_transaction_pin user_id pin w).0 ≡ ok tt
      → w'.tables.users ≡ (set_transaction_pin user_id pin w).1.tables.users
      → Ends (λ _ _. Unit {0}) (λ e _. x.IsOutage e) (verify_transaction_pin user_id pin w')
  set_transaction_pin-verify_transaction_pin user_id pin w w' e same =
      let h = Ends-ok _ tt (set_transaction_pin-Ends user_id pin w) e in
      pin_accepted user_id pin w' (record {
        user = h.user;
        found = ap (find (has_user_id user_id)) same ∙ h.found;
        is_set = h.is_set;
        matches = h.matches;
      })
