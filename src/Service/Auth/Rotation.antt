-- ===== src/Service/Auth/Rotation.antt =====
-- internals/service/auth_service.go: the exchange of a refresh token.
use mzl_payment_app.Common.{
  ℕ, String, Bool, true, false, ◌≡◌, ◌≢◌, refl, sym, ◌∙◌, Option, none, some, List, [], ◌∷◌, ◌++◌,
  ◌==◌, arith, is_some, eq_iff,
}
use mzl_payment_app.Common.Table.{find, update, find-append, find-update}
use mzl_payment_app.Go.{GoError, Result, ok, err}
use mzl_payment_app.External.{Externals}
use mzl_payment_app.Schema.Tables.{Tables, RefreshToken}
use mzl_payment_app.Schema.Query.{done}
use mzl_payment_app.Schema.Users.{
  has_token, is_valid_token, with_revoked, revoke_token, create_token, new_token,
}
use mzl_payment_app.World.{World, now, attempt}
use mzl_payment_app.World.Ends.{
  Ends, returned, failed, bind-Ends, attempt-Ends, Ends-ok, Ends-weaken,
}
use mzl_payment_app.World.Laws.{run_query-Ends}
use mzl_payment_app.World.Keeps.{Keeps, tables_of, Keeps-Ends}
use mzl_payment_app.Repository.User.{
  revoke_refresh_token, save_refresh_token, validate_refresh_token,
}
use mzl_payment_app.Repository.User.Tokens.{revoked-none, validate_refresh_token-Ends}
use mzl_payment_app.Service.Auth.{
  TokenPair, rotate_refresh_token, valid_or_revoke, generate_token_pair, subject_or_fail,
}

module _ ⦃x : Externals⦄ where
  -- The token is in the table, and at no time it is valid.
  abbrev pub IsSpent : String → List RefreshToken → Type 0
  IsSpent token rows =
      (is_some (find (has_token token) rows) ≡ true)
      × ((time : ℕ) → find (is_valid_token token time) rows ≡ none)

  any_end : {A : Type 0} (p : Result A × World x.F) → Ends (λ _ _. Unit {0}) (λ _ _. Unit {0}) p
  any_end (ok a, w) = returned a refl tt
  any_end (err e, w) = failed e refl tt

  revoke_token-IsSpent :
      (token : String) (t t' : Tables x.F)
      → revoke_token token t ≡ done tt t'
      → IsSpent token t'.refresh_tokens
  unfolding revoke_token
  revoke_token-IsSpent token t t' e =
      let known : is_some (find (has_token token) t.refresh_tokens) ≡ true = ground arith in
      let rows : t'.refresh_tokens ≡ update (has_token token) with_revoked t.refresh_tokens =
        ground arith in
      let moved =
        find-update (has_token token) (has_token token) with_revoked (λ a. refl) t.refresh_tokens in
      rw rows (ground (arith, moved, known), λ time. revoked-none token time t.refresh_tokens)

  no_token :
      (token fresh : String) (rows : List RefreshToken)
      → find (has_token fresh) rows ≡ none
      → is_some (find (has_token token) rows) ≡ true
      → ¬ (fresh ≡ token)
  no_token token fresh rows missing known same =
      let here : find (has_token token) rows ≡ none = rw (← same) missing in ground arith

  is_some-append :
      (token : String) (r : RefreshToken) (rows : List RefreshToken)
      → is_some (find (has_token token) rows) ≡ true
      → is_some (find (has_token token) (rows ++ r ∷ [])) ≡ true
  is_some-append token r [] h = absurd (ground arith)
  is_some-append token r (y ∷ rows) h = ground (arith, is_some-append token r rows)

  cannot : {A : Type 0} {a : A} → ¬ (some a ≡ none)
  cannot e = cc

  failed_ne : (e : GoError) → ¬ (err e ≡ ok true)
  failed_ne e h = cc

  subject-Keeps : (r : Result (Option String)) → Keeps tables_of (subject_or_fail r)
  subject-Keeps (ok (some s)) w = refl
  subject-Keeps (ok none) w = refl
  subject-Keeps (err e) w = refl

  other_token :
      (token fresh : String) (rows : List RefreshToken)
      → find (has_token fresh) rows ≡ none
      → is_some (find (has_token token) rows) ≡ true
      → (fresh == token) ≡ false
  other_token token fresh rows missing known =
      let apart : (fresh ≢ token) = λ same. no_token token fresh rows missing known same in
      ground (arith, eq_iff fresh token)

  append-IsSpent :
      (token : String) (r : RefreshToken) (rows : List RefreshToken)
      → (r.token == token) ≡ false
      → IsSpent token rows
      → IsSpent token (rows ++ r ∷ [])
  append-IsSpent token r rows other (known, spent) = (
    is_some-append token r rows known,
    λ time.
        let added = find-append (is_valid_token token time) rows r (spent time) in
        ground (arith, added, other),
  )

  create_token-IsSpent :
      (token user_id fresh : String) (expires : ℕ) (t t' : Tables x.F)
      → create_token user_id fresh expires t ≡ done tt t'
      → IsSpent token t.refresh_tokens
      → IsSpent token t'.refresh_tokens
  unfolding create_token
  create_token-IsSpent token user_id fresh expires t t' e (known, spent) =
      let missing : find (has_token fresh) t.refresh_tokens ≡ none = ground arith in
      let rows : t'.refresh_tokens ≡ t.refresh_tokens ++ new_token user_id fresh expires t ∷ [] =
        ground arith in
      rw rows (
        append-IsSpent token (new_token user_id fresh expires t) t.refresh_tokens
          (other_token token fresh t.refresh_tokens missing known) (known, spent))

  saved :
      (token user_id fresh : String) (expires : ℕ) (w : World x.F)
      → IsSpent token w.tables.refresh_tokens
      → Ends
          (λ _ w'. IsSpent token w'.tables.refresh_tokens)
          (λ _ _. Unit {0})
          (save_refresh_token user_id fresh expires w)
  unfolding save_refresh_token
  saved token user_id fresh expires w spent =
      Ends-weaken _
        (λ _ w' d. create_token-IsSpent token user_id fresh expires w.tables w'.tables d spent)
        (λ _ _ _. tt) (run_query-Ends (create_token user_id fresh expires) w)

  revoked :
      (token : String) (w : World x.F)
      → Ends
          (λ _ w'. IsSpent token w'.tables.refresh_tokens)
          (λ _ _. Unit {0})
          (revoke_refresh_token token w)
  unfolding revoke_refresh_token
  revoked token w =
      Ends-weaken _ (λ _ w' d. revoke_token-IsSpent token w.tables w'.tables d) (λ _ _ _. tt)
        (run_query-Ends (revoke_token token) w)

  now-Keeps : Keeps tables_of now
  unfolding now
  now-Keeps w = refl

  timed :
      (token : String) (w : World x.F)
      → IsSpent token w.tables.refresh_tokens
      → Ends (λ _ w'. IsSpent token w'.tables.refresh_tokens) (λ _ _. Unit {0}) (now w)
  timed token w spent =
      Ends-weaken _ (λ _ w' same. rw same spent) (λ _ _ _. tt)
        (Keeps-Ends tables_of now w w.tables now-Keeps refl)

  -- A token that was exchanged is spent.
  pub rotate_refresh_token-IsSpent :
      (old : String) (w : World x.F)
      → Ends
          (λ _ w'. IsSpent old w'.tables.refresh_tokens)
          (λ _ _. Unit {0})
          (rotate_refresh_token old w)
  unfolding rotate_refresh_token
  rotate_refresh_token-IsSpent old w =
      bind-Ends _ _ (any_end (now w))
        (λ time w1 _.
          bind-Ends _ _ (any_end (subject_or_fail _ w1))
            (λ user_id w2 _.
              bind-Ends _ _ (any_end (attempt (validate_refresh_token old) w2))
                (λ valid w3 _.
                  bind-Ends _ _ (any_end (valid_or_revoke old valid w3))
                    (λ _ w4 _.
                      bind-Ends _ _ (any_end (generate_token_pair user_id w4))
                        (λ tokens w5 _.
                          bind-Ends _ _ (revoked old w5)
                            (λ _ w6 spent6.
                              bind-Ends _ _ (timed old w6 spent6)
                                (λ t w7 spent7.
                                  bind-Ends _ _ (saved old user_id tokens.refresh_token _ w7 spent7)
                                    (λ _ w8 spent8. returned tokens refl spent8) (λ _ _ _. tt))
                                (λ _ _ _. tt))
                            (λ _ _ _. tt))
                        (λ _ _ _. tt))
                    (λ _ _ _. tt))
                (λ _ _ _. tt))
            (λ _ _ _. tt))
        (λ _ _ _. tt)

  not_valid :
      (old : String) (w : World x.F)
      → IsSpent old w.tables.refresh_tokens
      → Ends (λ r _. r ≢ ok true) (λ _ _. ⊥) (attempt (validate_refresh_token old) w)
  not_valid old w (_, spent) =
      attempt-Ends (validate_refresh_token old) w {Q = λ r _. r ≢ ok true}
        (validate_refresh_token-Ends old w)
        (λ b _ (_, valid, _) _. absurd (cannot (sym valid.found ∙ spent _)))
        (λ e _ _ h. failed_ne e h)

  refused :
      (old : String) (r : Result Bool) (w : World x.F)
      → r ≢ ok true
      → Ends (λ _ _. ⊥) (λ _ _. Unit {0}) (valid_or_revoke old r w)
  refused old (ok true) w ne = absurd (ne refl)
  refused old (ok false) w ne =
      bind-Ends _ _ (any_end (revoke_refresh_token old w)) (λ _ w' _. failed _ refl tt)
        (λ _ _ _. tt)
  refused old (err e) w ne =
      bind-Ends _ _ (any_end (revoke_refresh_token old w)) (λ _ w' _. failed _ refl tt)
        (λ _ _ _. tt)

  spent_refused :
      (old : String) (w : World x.F)
      → IsSpent old w.tables.refresh_tokens
      → Ends (λ _ _. ⊥) (λ _ _. Unit {0}) (rotate_refresh_token old w)
  unfolding rotate_refresh_token
  spent_refused old w spent =
      bind-Ends _ _ (Keeps-Ends tables_of now w w.tables now-Keeps refl)
        (λ time w1 same1.
          bind-Ends _ _
            (Keeps-Ends tables_of (subject_or_fail _) w1 w.tables (subject-Keeps _) same1)
            (λ user_id w2 same2.
              bind-Ends _ _ (not_valid old w2 (rw same2 spent))
                (λ valid w3 ne.
                  bind-Ends _ _ (refused old valid w3 ne) (λ _ _ h. absurd h) (λ _ _ _. tt))
                (λ _ _ _. tt))
            (λ _ _ _. tt))
        (λ _ _ _. tt)

  -- A refresh token is exchanged once: after an exchange that succeeded no exchange of the same
  -- token does, while the table of the tokens is the one that the first has left.
  pub rotate_refresh_token_once :
      (old : String) (w w' : World x.F) (first second : TokenPair)
      → (rotate_refresh_token old w).0 ≡ ok first
      → w'.tables.refresh_tokens ≡ (rotate_refresh_token old w).1.tables.refresh_tokens
      → (rotate_refresh_token old w').0 ≢ ok second
  rotate_refresh_token_once old w w' first second e same again =
      let spent = Ends-ok _ first (rotate_refresh_token-IsSpent old w) e in
      Ends-ok _ second (spent_refused old w' (rw (same) spent)) again
