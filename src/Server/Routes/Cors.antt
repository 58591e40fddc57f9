-- ===== src/Server/Routes/Cors.antt =====
-- internals/server/server.go: which origins the CORS wrapper lets read an answer.
use mzl_payment_app.Common.{
  String, Bool, true, Option, none, some, List, [], ◌∷◌, ◌++◌, ◌==◌, ◌||◌, ◌≡◌, ◌≢◌, ◌⊎◌, inl, inr,
  refl, if◌then◌else◌, Bool-cases, arith, eq_iff, sym, ◌∙◌,
}
use mzl_payment_app.Go.{Result, ok, err}
use mzl_payment_app.External.{Externals}
use mzl_payment_app.World.{World, bind}
use mzl_payment_app.World.Ends.{Ends, returned, failed, Ends-weaken}
use mzl_payment_app.Service.Payment.Paystack.{getenv}
use mzl_payment_app.Server.Http.{Handler, Incoming, Reply}
use mzl_payment_app.Server.Routes.{cors_middleware, cors_headers, serve_with}

-- The first value of a header.
abbrev pub header_of : String → List (String × String) → Option String
header_of name [] = none
header_of name ((other, value) ∷ rest) = if other == name then some value else header_of name rest

abbrev pub origin_header : List (String × String) → Option String
origin_header = header_of "Access-Control-Allow-Origin"

module _ ⦃x : Externals⦄ where
  abbrev pub IsAllowed : String → Type 0
  IsAllowed origin = (origin ≡ "http://localhost:5173") ⊎ (origin ≡ getenv "FRONT_END_URL")

  abbrev is_listed : String → Bool
  is_listed origin = origin == "http://localhost:5173" || origin == getenv "FRONT_END_URL"

  cors_headers-origin :
      (origin : String) (rest : List (String × String))
      → origin_header (cors_headers origin ++ rest)
        ≡ (if is_listed origin then some origin else origin_header rest)
  cors_headers-origin origin rest = elim (Bool-cases (is_listed origin)) [
    | inl listed ↦ rw listed refl
    | inr other ↦ rw other refl
  ]

  is_listed-IsAllowed : (origin : String) → is_listed origin ≡ true → IsAllowed origin
  is_listed-IsAllowed origin e = elim (Bool-cases (origin == "http://localhost:5173")) [
    | inl local ↦ inl (ground (arith, eq_iff origin "http://localhost:5173"))
    | inr other ↦ inr (ground (arith, eq_iff origin (getenv "FRONT_END_URL")))
  ]

  allowed :
      (origin : String) (rest : List (String × String)) (o : String)
      → origin_header rest ≡ none
      → origin_header (cors_headers origin ++ rest) ≡ some o
      → (o ≡ origin) × IsAllowed o
  allowed origin rest o plain e =
      let is = sym (cors_headers-origin origin rest) ∙ e in
      elim (Bool-cases (is_listed origin)) [
        | inl listed ↦
            let same : o ≡ origin = ground arith in
            (same, rw same (is_listed-IsAllowed origin listed))
        | inr other ↦ absurd (ground arith)
      ]

  -- An answer to a preflight request, which the handler does not see.
  pub record Preflight (r : Incoming) (w : World x.F) (reply : Reply x.F) (w' : World x.F)
      : Type 0 where
    pub is_options : r.method ≡ "OPTIONS"
    pub status_ok : reply.status ≡ 200
    pub untouched : w' ≡ w

  -- The handler's answer with more headers.
  pub record Passed (next : Handler) (r : Incoming) (w : World x.F) (reply : Reply x.F)
      (w' : World x.F) : Type 0 where
    pub not_options : r.method ≢ "OPTIONS"
    pub inner : Reply x.F
    pub handled : next r w ≡ (ok inner, w')
    pub same_status : reply.status ≡ inner.status
    pub same_cookies : reply.cookies ≡ inner.cookies
    pub same_body : reply.body ≡ inner.body

  -- What the browser is told of the origin.
  abbrev pub TellsOrigin : Incoming → Reply x.F → Type 0
  TellsOrigin r reply =
      (o : String) → origin_header reply.headers ≡ some o → (o ≡ r.header "Origin") × IsAllowed o

  module _ (next : Handler) (r : Incoming) (w : World x.F) where
    served :
        (p : Result (Reply x.F) × World x.F)
        → next r w ≡ p
        → r.method ≢ "OPTIONS"
        → ((reply : Reply x.F) → p.0 ≡ ok reply → origin_header reply.headers ≡ none)
        → Ends
            (λ reply w'. Passed next r w reply w' × TellsOrigin r reply)
            (λ e w'. next r w ≡ (err e, w'))
            (serve_with (cors_headers (r.header "Origin")) (next r) w)
    unfolding bind
    served (ok reply, w') e other plain = rw e (
        returned _ refl (
          record {
            not_options = other;
            inner = reply;
            handled = e;
            same_status = refl;
            same_cookies = refl;
            same_body = refl;
          },
          λ o h. allowed (r.header "Origin") reply.headers o (plain reply refl) h,
        ))
    served (err f, w') e other plain = rw e (failed f refl refl)

    -- A preflight request is answered with 200 and changes nothing; any other request is answered
    -- by the handler, and gets its status, cookies and body. Where the handler does not set the
    -- header itself, the answer allows an origin only if it is the request's and one of the two
    -- that are allowed.
    pub cors_middleware-Ends :
        ((reply : Reply x.F) → (next r w).0 ≡ ok reply → origin_header reply.headers ≡ none)
        → Ends
            (λ reply w'. (Preflight r w reply w' ⊎ Passed next r w reply w') × TellsOrigin r reply)
            (λ e w'. next r w ≡ (err e, w'))
            (cors_middleware next r w)
    unfolding cors_middleware
    cors_middleware-Ends plain = elim (Bool-cases (r.method == "OPTIONS")) [
      | inl options ↦ rw options (
          returned _ refl (
            inl (record {
              is_options = ground (arith, eq_iff r.method "OPTIONS");
              status_ok = refl;
              untouched = refl;
            }),
            λ o h. allowed (r.header "Origin") [] o refl h,
          ))
      | inr other ↦ rw other (
          Ends-weaken _ (λ _ _ (passed, tells). (inr passed, tells)) (λ _ _ h. h)
            (served (next r w) refl (λ e. ground (arith, eq_iff r.method "OPTIONS")) plain))
    ]
