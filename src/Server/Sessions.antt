-- ===== src/Server/Sessions.antt =====
-- internals/server/auth_handler.go.
use mzl_payment_app.Common.{
  String, true, false, Option, none, some, [], ◌∷◌, ◌==◌, ◌||◌, if◌then◌else◌,
}
use mzl_payment_app.Go.{GoError, message, is_user_already_exists}
use mzl_payment_app.External.{Externals}
use mzl_payment_app.World.{Action, ignore, pure}
use mzl_payment_app.Schema.Tables.{User}
use mzl_payment_app.Repository.User.{revoke_refresh_token}
use mzl_payment_app.Service.Payment.Paystack.{getenv}
use mzl_payment_app.Service.Auth.{register, login, rotate_refresh_token}
use mzl_payment_app.Server.Http.{
  Leaf, Value, MaxAge, Cookie, Reply, Handler, Handling, field, json, error_json, ◌>>=◌, ◌>>◌,
  refuse_if, decoded_or, read_body, call, perform, answer, run,
}

module _ ⦃x : Externals⦄ where
  abbrev pub register_refused : GoError → Reply x.F
  register_refused e =
      if is_user_already_exists e
      then error_json 409 "this email is already registered"
      else error_json 500 (message e)

  abbrev pub register_answer : User → Reply x.F
  register_answer user = json 201 (
      field "status" "success"
      ∷ field "message" "user registered successfully"
      ∷ (
        "data",
        Value.object (
            ("id", Leaf.text user.id)
            ∷ ("email", Leaf.text user.email)
            ∷ ("name", Leaf.text user.name)
            ∷ []),
      )
      ∷ [])

  unfoldable pub register_handler : Handler
  register_handler r = run do
    req ← decoded_or (λ e. error_json 400 (message e)) (read_body x.decode_register r.body)
    refuse_if (req.email == "" || req.password == "" || req.full_name == "") 400
        "all fields are required"
    user ← call (register req.email req.password req.full_name) register_refused
    answer (register_answer user)

  abbrev pub refresh_cookie : String → Cookie
  refresh_cookie refresh_token = record {
    name = "refresh_token";
    value = refresh_token;
    path = "/";
    max_age = MaxAge.seconds 604800;
    http_only = true;
    secure = getenv "APP_ENV" == "production";
    same_site_none = true;
  }

  -- The cookie is a header of the answer that is written next.
  abbrev pub set_refresh_cookie : String → Reply x.F → Reply x.F
  set_refresh_cookie refresh_token reply = record reply {
    cookies = refresh_cookie refresh_token ∷ reply.cookies;
  }

  abbrev pub expired_cookie : Cookie
  expired_cookie = record {
    name = "refresh_token";
    value = "";
    path = "/";
    max_age = MaxAge.expired;
    http_only = true;
    secure = false;
    same_site_none = false;
  }

  abbrev pub clear_refresh_cookie : Reply x.F → Reply x.F
  clear_refresh_cookie reply = record reply { cookies = expired_cookie ∷ reply.cookies }

  unfoldable pub login_handler : Handler
  login_handler r = run do
    req ← decoded_or (λ e. error_json 400 (message e)) (read_body x.decode_login r.body)
    token ← call (login req.email req.password) (λ _. error_json 401 "invalid email or password")
    answer
        (set_refresh_cookie token.refresh_token (json 200 (field "token" token.access_token ∷ [])))

  -- `cookie, err := r.Cookie("refresh_token")`
  abbrev pub cookie_or_refuse : Option String → Handling String
  cookie_or_refuse (some value) k = k value
  cookie_or_refuse none k = pure (error_json 401 "no refresh token found")

  unfoldable pub refresh_token_handler : Handler
  refresh_token_handler r = run do
    refresh_token ← cookie_or_refuse (r.cookie "refresh_token")
    new_tokens ←
        call (rotate_refresh_token refresh_token)
          (λ _. clear_refresh_cookie (error_json 401 "session expired"))
    answer (
        set_refresh_cookie new_tokens.refresh_token
          (json 200 (field "status" "success" ∷ field "access_token" new_tokens.access_token ∷ [])))

  unfoldable pub logout : Handler
  logout r = run do
    value ← cookie_or_refuse (r.cookie "refresh_token")
    perform (ignore (revoke_refresh_token value))
    answer (clear_refresh_cookie (json 200 (field "message" "logged out successfully" ∷ [])))

  abbrev pub revoke_present : Option String → Action (Unit {0})
  revoke_present none = pure tt
  revoke_present (some value) = if value == "" then pure tt else ignore (revoke_refresh_token value)

  -- `LogoutHandler`, which no route uses.
  unfoldable pub logout_handler : Handler
  logout_handler r = run do
    perform (revoke_present (r.cookie "refresh_token"))
    answer (
        clear_refresh_cookie
          (json 200 (field "status" "success" ∷ field "message" "logged out successfully" ∷ [])))
