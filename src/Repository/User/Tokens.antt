-- ===== src/Repository/User/Tokens.antt =====
-- internals/repository/user_repository.go: the life of a refresh token.
use mzl_payment_app.Common.{
  ℕ, String, true, false, ◌≡◌, ◌≢◌, refl, none, some, List, [], ◌∷◌, arith, ◌<◌, ◌==◌, inl, inr,
}
use mzl_payment_app.Common.Table.{find, update, find-holds}
use mzl_payment_app.Go.{ok, Found-cases}
use mzl_payment_app.External.{Externals}
use mzl_payment_app.World.{World, bind, run_query, now}
use mzl_payment_app.World.Ends.{Ends, Ends-ok, returned, failed}
use mzl_payment_app.World.Laws.{run_query-ok, run_find-some, run_find-tables, run_find-ne_none}
use mzl_payment_app.Schema.Tables.{Tables, RefreshToken}
use mzl_payment_app.Schema.Query.{find_query}
use mzl_payment_app.Schema.Users.{has_token, is_valid_token, with_revoked, revoke_token}
use mzl_payment_app.Repository.User.{validate_refresh_token, revoke_refresh_token}

module _ ⦃x : Externals⦄ where
  pub revoked-none :
      (token : String) (time : ℕ) (rows : List RefreshToken)
      → find (is_valid_token token time) (update (has_token token) with_revoked rows) ≡ none
  revoked-none token time [] = refl
  revoked-none token time (r ∷ rows) = ground (arith, revoked-none token time rows)

  -- The row of the token that a positive answer rests on.
  pub record Valid (token : String) (time : ℕ) (t : Tables x.F) : Type 0 where
    pub row : RefreshToken
    pub found : find (is_valid_token token time) t.refresh_tokens ≡ some row
    pub named : (row.token == token) ≡ true
    pub not_revoked : row.revoked ≡ false
    pub not_expired : time < row.expires_at

  find-Valid :
      (token : String) (time : ℕ) (t : Tables x.F) (row : RefreshToken)
      → find (is_valid_token token time) t.refresh_tokens ≡ some row
      → Valid token time t
  find-Valid token time t row h =
      let holds = find-holds (is_valid_token token time) t.refresh_tokens row h in
      record {
        row = row;
        found = h;
        named = ground arith;
        not_revoked = ground arith;
        not_expired = ground arith;
      }

  -- The answer is never negative: it is positive on a row with the token that is not revoked and
  -- expires after the time of the clock, and there is an error on no such row.
  pub validate_refresh_token-Ends :
      (token : String) (w : World x.F)
      → Ends
          (λ b w'. (b ≡ true) × Valid token (x.clock w.calls) w.tables × (w'.tables ≡ w.tables))
          (λ _ w'. w'.tables ≡ w.tables)
          (validate_refresh_token token w)
  unfolding validate_refresh_token bind now
  validate_refresh_token-Ends token w =
      let q = λ (t : Tables x.F). find (is_valid_token token (x.clock w.calls)) t.refresh_tokens in
      let w1 = (now w).1 in
      let same = run_find-tables q w1 in
      elim (Found-cases (run_query (find_query q) w1).0) [
        | inl (row, h) ↦ rw h (
            returned true refl (
              refl,
              find-Valid token (x.clock w.calls) w.tables row (run_find-some q w1 row h),
              same,
            ))
        | inr (inl h) ↦ absurd (run_find-ne_none q w1 h)
        | inr (inr (e, h)) ↦ rw h (failed e refl same)
      ]

  -- A refresh token that was revoked is refused: whatever happens in between, it is not validated
  -- while the table of the tokens is the one that the revocation left.
  pub revoke_refresh_token_final :
      (token : String) (w w' : World x.F)
      → (revoke_refresh_token token w).0 ≡ ok tt
      → w'.tables.refresh_tokens ≡ (revoke_refresh_token token w).1.tables.refresh_tokens
      → (validate_refresh_token token w').0 ≢ ok true
  unfolding revoke_refresh_token revoke_token
  revoke_refresh_token_final token w w' revoked same accepted =
      let d = run_query-ok (revoke_token token) w tt revoked in
      let (_, valid, _) = Ends-ok _ true (validate_refresh_token-Ends token w') accepted in
      let gone = revoked-none token (x.clock w'.calls) w.tables.refresh_tokens in
      let found = valid.found in ground arith
