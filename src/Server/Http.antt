-- ===== src/Server/Http.antt =====
-- What a handler of internals/server reads of a request, the answer it writes, and
-- internals/utils/response.go. A handler fails only where the code panics.
pub mod Ends
use mzl_payment_app.Common.{ℕ, String, Bool, Option, none, some, List, [], ◌∷◌, if◌then◌else◌}
use mzl_payment_app.Go.{GoError, is_panic, Result, ok, err}
use mzl_payment_app.External.{Externals}
use mzl_payment_app.External.Messages.{PaystackTransferResponse}
use mzl_payment_app.External.Requests.{Rates}
use mzl_payment_app.World.{Action, bind, pure, fail, attempt}
use mzl_payment_app.Schema.Tables.{Wallet, WalletAsset, Transaction}

-- `http.Request`: `header` and the query give the empty text for what is missing; `user_id` is the
-- value of the context under `UserIDKey`.
pub record Incoming : Type 0 where
  pub method : String
  pub header : String → String
  pub query : String → String
  pub cookie : String → Option String
  pub body : Result String
  pub user_id : Option String

-- `MaxAge`: a time in seconds, or -1.
pub data MaxAge : Type 0 where
  seconds : ℕ → MaxAge
  expired : MaxAge

pub record Cookie : Type 0 where
  pub name : String
  pub value : String
  pub path : String
  pub max_age : MaxAge
  pub http_only : Bool
  pub secure : Bool
  pub same_site_none : Bool

-- A value of the JSON object in an answer that is no object itself.
pub data Leaf (F : Type 0) : Type 0 where
  text : String → Leaf F
  number : F → Leaf F
  flag : Bool → Leaf F
  texts : List String → Leaf F
  rates : Option (Rates F) → Leaf F
  asset : WalletAsset F → Leaf F
  assets : List (WalletAsset F) → Leaf F
  transactions : List (Transaction F) → Leaf F
  payment : Option (Transaction F × Option Wallet) → Leaf F
  transfer : PaystackTransferResponse → Leaf F

pub data Value (F : Type 0) : Type 0 where
  leaf : Leaf F → Value F
  object : List (String × Leaf F) → Value F

pub record Reply (F : Type 0) : Type 0 where
  pub status : ℕ
  pub headers : List (String × String)
  pub cookies : List Cookie
  pub body : List (String × Value F)

module _ ⦃x : Externals⦄ where
  abbrev pub Handler : Type 0
  Handler = Incoming → Action (Reply x.F)

  -- A field of an answer whose value is a text.
  abbrev pub field : String → String → String × Value x.F
  field name s = (name, Value.leaf (Leaf.text s))

  abbrev pub json : ℕ → List (String × Value x.F) → Reply x.F
  json status payload = record { status = status; headers = []; cookies = []; body = payload }

  abbrev pub error_json : ℕ → String → Reply x.F
  error_json status reason =
      json status (field "error" reason ∷ field "status" (x.status_text status) ∷ [])

  -- The body of a handler: what is left of it is the argument, which an early return drops.
  abbrev pub Handling : Type 0 → Type 0
  Handling A = (A → Action (Reply x.F)) → Action (Reply x.F)

  infixl 5 ◌>>=◌ ◌>>◌
  abbrev pub ◌>>=◌ : {A B : Type 0} → Handling A → (A → Handling B) → Handling B
  (m >>= f) k = m λ a. f a k

  abbrev pub ◌>>◌ : {A B : Type 0} → Handling A → Handling B → Handling B
  m >> n = m >>= λ _. n

  -- `if condition { utils.ErrorJSON(…); return }`
  unfoldable pub refuse_if : Bool → ℕ → String → Handling (Unit {0})
  refuse_if condition status reason k = if condition then pure (error_json status reason) else k tt

  -- `if err := json.NewDecoder(r.Body).Decode(&req); err != nil { …; return }`
  unfoldable pub decoded_or : {A : Type 0} → (GoError → Reply x.F) → Result A → Handling A
  decoded_or on_error (ok a) k = k a
  decoded_or on_error (err e) k = pure (on_error e)

  abbrev pub read_body : {A : Type 0} → (String → Result A) → Result String → Result A
  read_body decode (ok body) = decode body
  read_body decode (err e) = err e

  -- `userID, ok := val.(string)`
  unfoldable pub user_or_refuse : Option String → Handling String
  user_or_refuse (some user_id) k = k user_id
  user_or_refuse none k = pure (error_json 401 "unauthorized")

  abbrev pub go_on :
      {A : Type 0}
      → (GoError → Reply x.F)
      → (A → Action (Reply x.F))
      → Result A
      → Action (Reply x.F)
  go_on on_error k (ok a) = k a
  go_on on_error k (err e) = if is_panic e then fail e else pure (on_error e)

  -- `value, err := m; if err != nil { …; return }`; a panic of `m` goes past the handler.
  unfoldable pub call : {A : Type 0} → Action A → (GoError → Reply x.F) → Handling A
  call m on_error k w = bind (go_on on_error k) (attempt m w)

  -- A call that returns no error.
  unfoldable pub perform : {A : Type 0} → Action A → Handling A
  perform m k w = bind k (m w)

  -- The last line of a handler.
  abbrev pub answer : Reply x.F → Handling (Reply x.F)
  answer reply k = k reply

  abbrev pub run : Handling (Reply x.F) → Action (Reply x.F)
  run handling = handling pure
