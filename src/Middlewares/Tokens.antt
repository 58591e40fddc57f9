-- ===== src/Middlewares/Tokens.antt =====
-- internals/middlewares/auth.go: which requests the middleware lets through.
use mzl_payment_app.Common.{
  ℕ, suc, String, false, Bool-cases, Option, none, some, List, [], ◌∷◌, ◌==◌, eq_iff, ◌≡◌, refl,
  sym, ap, subst, ◌≢◌, ◌∙◌, ◌⊎◌, inl, inr, arith,
}
use mzl_payment_app.Common.Text.{◌+++◌}
use mzl_payment_app.Common.Words.{
  split, has_space, split_one, split_space, split-NoSpaces, NoSpaces, join, join-split,
}
use mzl_payment_app.Go.{Result, ok, err}
use mzl_payment_app.External.{Externals}
use mzl_payment_app.World.{World, bind, now}
use mzl_payment_app.Config.{Config}
use mzl_payment_app.Server.Http.{Incoming, Reply, Handler, error_json, refuse_if, perform}
use mzl_payment_app.Middlewares.{
  middleware_auth_handler, with_user, bearer_or_refuse, subject_or_refuse,
}

module _ ⦃x : Externals⦄ where
  -- The header is `Bearer` and a token, with one space between them, and the token is valid at
  -- that time and names `user_id`.
  pub record Authorised (config : Config) (r : Incoming) (time : ℕ) (user_id : String)
      : Type 0 where
    pub token : String
    pub header : r.header "Authorization" ≡ "Bearer" +++ (" " +++ token)
    pub one_word : has_space token ≡ false
    pub parsed : x.parse_token config.jwt_secret time token ≡ ok (some user_id)

  -- The answer is 401, and nothing has happened but that the clock was perhaps read.
  pub record Unauthorised (w : World x.F) (p : Result (Reply x.F) × World x.F) : Type 0 where
    pub reason : String
    pub answered : p.0 ≡ ok (error_json 401 reason)
    pub same_tables : p.1.tables ≡ w.tables
    pub same_keys : p.1.keys ≡ w.keys
    pub same_requests : p.1.requests ≡ w.requests

  abbrev pub after_clock : World x.F → World x.F
  after_clock w = record w { calls = suc w.calls }

  refused_at : (reason : String) (w : World x.F) → Unauthorised w (ok (error_json 401 reason), w)
  refused_at reason w = record {
    reason = reason;
    answered = refl;
    same_tables = refl;
    same_keys = refl;
    same_requests = refl;
  }

  refused_later :
      (reason : String) (w : World x.F) → Unauthorised w (ok (error_json 401 reason), after_clock w)
  refused_later reason w = record {
    reason = reason;
    answered = refl;
    same_tables = refl;
    same_keys = refl;
    same_requests = refl;
  }

  -- What the middleware reads of a header that it lets through.
  pub Authorised-split :
      (config : Config) (r : Incoming) (time : ℕ) (user_id : String)
      (h : Authorised config r time user_id)
      → split (r.header "Authorization") ≡ "Bearer" ∷ h.token ∷ []
  Authorised-split config r time user_id h =
      ap split h.header
      ∙ split_space "Bearer" h.token refl
      ∙ ap (λ l. "Bearer" ∷ l) (split_one h.token h.one_word)

  split-Authorised :
      (config : Config) (r : Incoming) (time : ℕ) (user_id token : String)
      → split (r.header "Authorization") ≡ "Bearer" ∷ token ∷ []
      → x.parse_token config.jwt_secret time token ≡ ok (some user_id)
      → Authorised config r time user_id
  split-Authorised config r time user_id token words parsed = record {
    token = token;
    header = sym (join-split (r.header "Authorization")) ∙ ap join words;
    one_word = (subst NoSpaces words (split-NoSpaces (r.header "Authorization"))).1.0;
    parsed = parsed;
  }

  no_token :
      (config : Config) (r : Incoming) (time : ℕ) (words : List String)
      → split (r.header "Authorization") ≡ words
      → ((token : String) → words ≢ "Bearer" ∷ token ∷ [])
      → (user_id : String) → ¬ Authorised config r time user_id
  no_token config r time words e ne user_id h =
      ne h.token (sym e ∙ Authorised-split config r time user_id h)

  -- A token that does not parse, or names nobody, authorises nobody.
  unparsed :
      (config : Config) (r : Incoming) (time : ℕ) (token : String) (res : Result (Option String))
      → split (r.header "Authorization") ≡ "Bearer" ∷ token ∷ []
      → x.parse_token config.jwt_secret time token ≡ res
      → ((user_id : String) → res ≢ ok (some user_id))
      → (user_id : String) → ¬ Authorised config r time user_id
  unparsed config r time token res words parsed ne user_id h =
      let words' = Authorised-split config r time user_id h in
      let same : h.token ≡ token = ground arith in
      ne user_id
        (sym parsed ∙ ap (λ t. x.parse_token config.jwt_secret time t) (sym same) ∙ h.parsed)

  -- The two ends of the middleware.
  abbrev pub Decided :
      Config → Handler → Incoming → World x.F → Result (Reply x.F) × World x.F → Type 0
  Decided config next r w p =
      ((user_id : String) × Authorised config r (x.clock w.calls) user_id
        × (p ≡ next (with_user user_id r) (after_clock w)))
      ⊎ (((user_id : String) → ¬ Authorised config r (x.clock w.calls) user_id) × Unauthorised w p)

  module _ (config : Config) (next : Handler) (r : Incoming) (w : World x.F) where
    named_user :
        (token : String) (res : Result (Option String))
        → split (r.header "Authorization") ≡ "Bearer" ∷ token ∷ []
        → x.parse_token config.jwt_secret (x.clock w.calls) token ≡ res
        → Decided config next r w
            (subject_or_refuse res (λ user_id. next (with_user user_id r)) (after_clock w))
    named_user token (ok (some user_id)) words parsed =
        inl (user_id, split-Authorised config r _ user_id token words parsed, refl)
    named_user token (ok none) words parsed = inr (
      unparsed config r _ token _ words parsed (λ user_id e. ground arith),
      refused_later "invalid user ID in token" w,
    )
    named_user token (err e) words parsed = inr (
      unparsed config r _ token _ words parsed (λ user_id e. ground arith),
      refused_later "invalid or expired token" w,
    )

    format_refused :
        (words : List String)
        → split (r.header "Authorization") ≡ words
        → ((token : String) → words ≢ "Bearer" ∷ token ∷ [])
        → Decided config next r w (ok (error_json 401 "invalid header format"), w)
    format_refused words e ne =
        inr (no_token config r (x.clock w.calls) words e ne, refused_at "invalid header format" w)

    split_words :
        (words : List String)
        → split (r.header "Authorization") ≡ words
        → Decided config next r w (
            bearer_or_refuse words
              (λ token w'.
                subject_or_refuse
                  (x.parse_token config.jwt_secret (x.clock w'.calls) token)
                  (λ user_id. next (with_user user_id r))
                  (after_clock w'))
              w)
    split_words [] e = format_refused [] e (λ token h. ground arith)
    split_words (word ∷ []) e = format_refused (word ∷ []) e (λ token h. ground arith)
    split_words (word ∷ token ∷ []) e = elim (Bool-cases (word == "Bearer")) [
      | inl b ↦
          let is : word ≡ "Bearer" = (eq_iff word "Bearer").0 b in
          rw b (named_user token _ (e ∙ ap (λ s. s ∷ token ∷ []) is) refl)
      | inr b ↦
          rw b (format_refused (word ∷ token ∷ []) e (λ t h. ground (arith, eq_iff word "Bearer")))
    ]
    split_words (word ∷ token ∷ more ∷ words) e =
        format_refused (word ∷ token ∷ more ∷ words) e (λ t h. ground arith)

    -- A request goes on to the next handler, under the user that its token names, exactly when its
    -- header is `Bearer`, a space and a token without spaces that is valid under the secret of the
    -- configuration; every other request is answered with 401 and nothing has changed.
    pub middleware_auth_handler-Decided :
        Decided config next r w (middleware_auth_handler config next r w)
    unfolding middleware_auth_handler refuse_if perform bind now
    middleware_auth_handler-Decided = elim (Bool-cases (r.header "Authorization" == "")) [
      | inl b ↦
          let empty : r.header "Authorization" ≡ "" = (eq_iff (r.header "Authorization") "").0 b in
          rw b (
            inr (
              no_token config r _ ("" ∷ []) (ap split empty) (λ token h. ground arith),
              refused_at "missing authorization header" w,
            ))
      | inr b ↦ rw b (split_words (split (r.header "Authorization")) refl)
    ]
