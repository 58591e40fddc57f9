-- ===== src/Middlewares/Roundtrip.antt =====
-- internals/utils/jwt.go and internals/middlewares/auth.go: a token from its signing to its test.
use mzl_payment_app.Common.{
  ℕ, String, ◌<◌, ◌+◌, none, some, ◌≡◌, refl, sym, ◌∙◌, ap, inl, inr, arith,
}
use mzl_payment_app.Common.Text.{◌+++◌}
use mzl_payment_app.Go.{ok}
use mzl_payment_app.External.{Externals}
use mzl_payment_app.World.{World, bind, now}
use mzl_payment_app.Config.{load}
use mzl_payment_app.Service.Auth.{TokenPair, generate_token_pair, access_time}
use mzl_payment_app.Service.Payment.Paystack.{getenv}
use mzl_payment_app.Server.Http.{Incoming, Handler}
use mzl_payment_app.Middlewares.{middleware_auth_handler, with_user}
use mzl_payment_app.Middlewares.Tokens.{
  Authorised, Authorised-split, after_clock, middleware_auth_handler-Decided,
}

module _ ⦃x : Externals⦄ where
  -- The secret that the tokens are signed with is the one of the configuration.
  same_secret :
      (secret : String)
      → x.lookup_env "JWT_ACCESS_SECRET" ≡ some secret
      → getenv "JWT_ACCESS_SECRET" ≡ load.jwt_secret
  same_secret secret e = rw e refl

  -- The access token of a pair is signed for the user, at the first look at the clock.
  generate_token_pair-signed :
      (user_id : String) (w : World x.F) (pair : TokenPair)
      → (generate_token_pair user_id w).0 ≡ ok pair
      → x.sign_token
          (getenv "JWT_ACCESS_SECRET")
          user_id
          (x.unix (x.clock w.calls + access_time))
          none
        ≡ ok pair.access_token
  unfolding generate_token_pair bind now
  generate_token_pair-signed user_id w pair e = ground arith

  -- The middleware reads one user in a header.
  Authorised-unique :
      (r : Incoming) (time : ℕ) (a b : String)
      → Authorised load r time a
      → Authorised load r time b
      → a ≡ b
  Authorised-unique r time a b h k =
      let first = Authorised-split load r time a h in
      let second = Authorised-split load r time b k in
      let same : h.token ≡ k.token = ground arith in
      let parsed : ok (some a) ≡ ok (some b) =
        sym h.parsed ∙ ap (x.parse_token load.jwt_secret time) same ∙ k.parsed in
      ground arith

  -- Where the access secret is set, the access token of a pair that was generated for a user lets
  -- every request that carries it through, under that user, until it expires.
  pub generate_token_pair-middleware_auth_handler :
      (secret user_id : String) (w w' : World x.F) (pair : TokenPair) (next : Handler)
      (r : Incoming)
      → x.lookup_env "JWT_ACCESS_SECRET" ≡ some secret
      → (generate_token_pair user_id w).0 ≡ ok pair
      → r.header "Authorization" ≡ "Bearer" +++ (" " +++ pair.access_token)
      → x.unix (x.clock w'.calls) < x.unix (x.clock w.calls + access_time)
      → middleware_auth_handler load next r w' ≡ next (with_user user_id r) (after_clock w')
  generate_token_pair-middleware_auth_handler secret user_id w w' pair next r set signed carries
        early =
      let made = generate_token_pair-signed user_id w pair signed in
      let exp = x.unix (x.clock w.calls + access_time) in
      let same = same_secret secret set in
      let valid : Authorised load r (x.clock w'.calls) user_id = record {
        token = pair.access_token;
        header = carries;
        one_word = x.token_no_space _ user_id pair.access_token exp none made;
        parsed =
            ap (λ key. x.parse_token key (x.clock w'.calls) pair.access_token) (sym same)
            ∙ x.token_read _ user_id pair.access_token exp (x.clock w'.calls) none made early;
      } in
      elim (middleware_auth_handler-Decided load next r w') [
        | inl (user_id', h, e) ↦
            e
            ∙ ap (λ u. next (with_user u r) (after_clock w'))
                (Authorised-unique r (x.clock w'.calls) user_id' user_id h valid)
        | inr (without, _) ↦ absurd (without user_id valid)
      ]
