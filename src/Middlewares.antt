-- ===== src/Middlewares.antt =====
-- internals/middlewares: `AuthMiddleware`, and internals/server/middleware.go.
pub mod Tokens
pub mod Roundtrip
use mzl_payment_app.Common.{
  ℕ, String, Bool, true, false, Option, none, some, List, [], ◌∷◌, ◌==◌, if◌then◌else◌,
}
use mzl_payment_app.Common.Words.{split}
use mzl_payment_app.Go.{Result, ok, err}
use mzl_payment_app.External.{Externals}
use mzl_payment_app.World.{Action, pure, bind, attempt, now}
use mzl_payment_app.Config.{Config}
use mzl_payment_app.Queue.{is_rate_limited}
use mzl_payment_app.Server.Http.{
  Incoming, Reply, Handler, Handling, error_json, ◌>>=◌, ◌>>◌, refuse_if, perform, run,
}

module _ ⦃x : Externals⦄ where
  abbrev pub bad_format : Action (Reply x.F)
  bad_format = pure (error_json 401 "invalid header format")

  -- `len(parts) != 2 || parts[0] != "Bearer"`
  abbrev pub bearer_or_refuse : List String → Handling String
  bearer_or_refuse (scheme ∷ token ∷ []) k = if scheme == "Bearer" then k token else bad_format
  bearer_or_refuse [] k = bad_format
  bearer_or_refuse (_ ∷ []) k = bad_format
  bearer_or_refuse (_ ∷ _ ∷ _ ∷ _) k = bad_format

  -- `jwt.Parse` makes the claims a map.
  abbrev pub subject_or_refuse : Result (Option String) → Handling String
  subject_or_refuse (ok (some user_id)) k = k user_id
  subject_or_refuse (ok none) k = pure (error_json 401 "invalid user ID in token")
  subject_or_refuse (err _) k = pure (error_json 401 "invalid or expired token")

  -- `next.ServeHTTP(w, r)`, which is all that is left to do
  abbrev pub serve_next : Action (Reply x.F) → Handling (Reply x.F)
  serve_next m k = m

  -- `context.WithValue(r.Context(), UserIDKey, userID)`
  abbrev pub with_user : String → Incoming → Incoming
  with_user user_id r = record r { user_id = some user_id }

  unfoldable pub middleware_auth_handler : Config → Handler → Handler
  middleware_auth_handler config next r = run do
    let auth_header = r.header "Authorization"
    refuse_if (auth_header == "") 401 "missing authorization header"
    token_string ← bearer_or_refuse (split auth_header)
    time ← perform now
    user_id ← subject_or_refuse (x.parse_token config.jwt_secret time token_string)
    serve_next (next (with_user user_id r))

  abbrev pub next_or_refuse : Action (Reply x.F) → Result Bool → Action (Reply x.F)
  next_or_refuse next (err _) = next
  next_or_refuse next (ok true) =
      pure (error_json 429 "rate limit exceeded. please try again later")
  next_or_refuse next (ok false) = next

  abbrev pub limit_user : ℕ → ℕ → Action (Reply x.F) → Option String → Action (Reply x.F)
  limit_user limit window next none = next
  limit_user limit window next (some user_id) =
      λ w. bind (next_or_refuse next) (attempt (is_rate_limited user_id limit window) w)

  unfoldable pub rate_limit_handler : ℕ → ℕ → Handler → Handler
  rate_limit_handler limit window next r = limit_user limit window (next r) r.user_id

  -- `AddMiddlewaresToHandler`: the first one is outermost.
  abbrev pub add_middlewares : Handler → List (Handler → Handler) → Handler
  add_middlewares handler [] = handler
  add_middlewares handler (middleware ∷ middlewares) =
      middleware (add_middlewares handler middlewares)
