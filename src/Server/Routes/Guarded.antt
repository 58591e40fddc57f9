-- ===== src/Server/Routes/Guarded.antt =====
-- internals/server/routes.go: which routes a request needs a token for.
use mzl_payment_app.Common.{
  String, Bool, true, false, List, [], ◌∷◌, ◌==◌, ◌||◌, ◌≡◌, refl, inl, inr, ap, sym, subst, arith,
}
use mathlib.Core.List.{Memᴰ as Mem}
use mathlib.Core.List.Memᴰ.{not-nil, cases_cons}
use mzl_payment_app.External.{Externals}
use mzl_payment_app.World.{World}
use mzl_payment_app.Config.{load}
use mzl_payment_app.Server.Http.{Incoming, Handler}
use mzl_payment_app.Server.Routes.{Route, routes, auth}
use mzl_payment_app.Middlewares.Tokens.{Authorised, Unauthorised, middleware_auth_handler-Decided}

-- The patterns that the table of routes leaves to anybody; swagger.yaml wants a token for the
-- lookup of a user.
abbrev pub is_public : String → Bool
is_public pattern =
    pattern == "/health"
    || pattern == "/api/v1/auth/register"
    || pattern == "/api/v1/auth/login"
    || pattern == "/api/v1/auth/logout"
    || pattern == "/api/v1/webhooks/paystack"
    || pattern == "/api/v1/auth/refresh"
    || pattern == "/api/v1/users/lookup"

module _ ⦃x : Externals⦄ where
  abbrev pub HasToken : Incoming → World x.F → Type 0
  HasToken r w = (user_id : String) × Authorised load r (x.clock w.calls) user_id

  -- A handler that lets no request without a token through.
  abbrev pub IsGuarded : Handler → Type 0
  IsGuarded handler = (r : Incoming) (w : World x.F) → ¬ HasToken r w → Unauthorised w (handler r w)

  auth-IsGuarded : (handler : Handler) → IsGuarded (auth handler)
  auth-IsGuarded handler r w without = elim (middleware_auth_handler-Decided load handler r w) [
    | inl (user_id, h, _) ↦ absurd (without (user_id, h))
    | inr (_, h) ↦ h
  ]

  data AllGuarded : List Route → Type 0 where
    none_left : AllGuarded []
    open_to_all :
        (route : Route) (rest : List Route)
        → is_public route.pattern ≡ true
        → AllGuarded rest
        → AllGuarded (route ∷ rest)
    guarded :
        (route : Route) (rest : List Route)
        → IsGuarded route.handler_func
        → AllGuarded rest
        → AllGuarded (route ∷ rest)

  infixr 5 ◌then◌
  abbrev ◌then◌ : {A B : Type 0} → (A → B) → A → B
  f then a = f a

  routes-AllGuarded : AllGuarded routes
  routes-AllGuarded =
      open_to_all _ _ refl
      then open_to_all _ _ refl
      then open_to_all _ _ refl
      then open_to_all _ _ refl
      then guarded _ _ (auth-IsGuarded _)
      then guarded _ _ (auth-IsGuarded _)
      then guarded _ _ (auth-IsGuarded _)
      then guarded _ _ (auth-IsGuarded _)
      then guarded _ _ (auth-IsGuarded _)
      then guarded _ _ (auth-IsGuarded _)
      then guarded _ _ (auth-IsGuarded _)
      then guarded _ _ (auth-IsGuarded _)
      then open_to_all _ _ refl
      then guarded _ _ (auth-IsGuarded _)
      then guarded _ _ (auth-IsGuarded _)
      then guarded _ _ (auth-IsGuarded _)
      then guarded _ _ (auth-IsGuarded _)
      then guarded _ _ (auth-IsGuarded _)
      then open_to_all _ _ refl
      then open_to_all _ _ refl
      then none_left

  AllGuarded-Mem :
      (all : List Route) (route : Route)
      → AllGuarded all
      → Mem route all
      → is_public route.pattern ≡ false
      → IsGuarded route.handler_func
  AllGuarded-Mem [] route none_left m private = absurd (not-nil m)
  AllGuarded-Mem (_ ∷ _) route (open_to_all first rest is_open others) m private =
      elim (cases_cons m) [
        | inl same ↦ absurd (ground (arith, ap (λ (r : Route). is_public r.pattern) same))
        | inr later ↦ AllGuarded-Mem rest route others later private
      ]
  AllGuarded-Mem (_ ∷ _) route (guarded first rest is_guarded others) m private =
      elim (cases_cons m) [
        | inl same ↦ subst (λ (r : Route). IsGuarded r.handler_func) (sym same) is_guarded
        | inr later ↦ AllGuarded-Mem rest route others later private
      ]

  -- A request to any route but the seven public ones that has no valid token is answered with 401,
  -- and it changes no table and no key of Redis and sends no request.
  pub routes_need_token :
      (route : Route) (r : Incoming) (w : World x.F)
      → Mem route routes
      → is_public route.pattern ≡ false
      → ¬ HasToken r w
      → Unauthorised w (route.handler_func r w)
  routes_need_token route r w m private without =
      AllGuarded-Mem routes route routes-AllGuarded m private r w without
