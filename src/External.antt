-- ===== src/External.antt =====
-- What the program uses and does not implement, as one record of operations with the documented
-- behaviour that the program relies on: `float64`, the generated Prisma client over PostgreSQL,
-- the go-redis client and its server, the http client, the clock and the environment.
pub mod Redis
pub mod Http
pub mod Requests
pub mod Messages
use mzl_payment_app.Common.{
  ℕ, suc, ◌≤◌, ◌<◌, String, Bool, true, false, ◌≡◌, ◌⊎◌, Option, none, some, List, ◌==◌,
}
use mzl_payment_app.Common.Words.{has_space}
use mzl_payment_app.Go.{GoError, mentions, Result, ok, err}
use mzl_payment_app.Schema.Tables.{Tables}
use mzl_payment_app.Schema.Query.{Violation, Outcome, done, violates, Query}
use Redis.{Command, Keyspace}
use Http.{Request, Response}
use Messages.{Json}

-- `float64`; no law is assumed of it.
pub record Float64 : Type 1 where
  pub F : Type 0
  pub zero_f : F
  pub one_f : F
  pub hundred_f : F
  pub add : F → F → F
  pub sub : F → F → F
  pub mul : F → F → F
  pub div : F → F → F
  pub lt : F → F → Bool
  pub le : F → F → Bool
  -- `%f`
  pub show : F → String

-- A query is committed, or the schema refuses it, or the database cannot be used; in the last two
-- cases nothing has changed.
abbrev pub Ran :
    {F A : Type 0}
    → (Violation → GoError)
    → (GoError → Type 0)
    → Outcome F A
    → Tables F
    → Result A × Tables F
    → Type 0
Ran {F} {A} error_of IsOutage out t r =
    ((a : A) × (t' : Tables F) × (out ≡ done a t') × (r ≡ (ok a, t')))
    ⊎ ((v : Violation) × (out ≡ violates v) × (r ≡ (err (error_of v), t)))
    ⊎ ((e : GoError) × IsOutage e × (r ≡ (err e, t)))

-- The text of an error names neither a unique index nor the CHECK.
abbrev pub IsUnrelated : GoError → Type 0
IsUnrelated e =
    (mentions e "Unique constraint failed" ≡ false)
    × (mentions e "P2002" ≡ false)
    × (mentions e "non_negative_balance" ≡ false)

-- The generated client; the number counts the calls that the program has made outside.
pub record Prisma (F : Type 0) : Type 1 where
  pub exec : (A : Type 0) → ℕ → Query F A → Tables F → Result A × Tables F
  -- the defaults `uuid()` and `now()` of the schema
  pub uuid : Tables F → String
  pub now_default : Tables F → ℕ
  -- `db.IsErrUniqueConstraint`
  pub is_err_unique_constraint : GoError → Bool
  -- The error of a refused query: its text may depend on the query and on the call, since the
  -- client reports the error of `Prisma.Transaction` in another form than that of a single query.
  pub violation_error : (A : Type 0) → ℕ → Query F A → Violation → GoError
  pub IsOutage : GoError → Type 0
  pub exec-Ran :
      (A : Type 0) (n : ℕ) (q : Query F A) (t : Tables F)
      → Ran (violation_error A n q) IsOutage (q t) t (exec A n q t)
  -- The texts of the engine that the program searches for.
  pub missing_unrelated :
      (A : Type 0) (n : ℕ) (q : Query F A) → IsUnrelated (violation_error A n q Violation.missing)
  pub unique_recognised :
      (A : Type 0) (n : ℕ) (q : Query F A)
      → mentions (violation_error A n q Violation.unique) "Unique constraint failed" ≡ true
  pub check_recognised :
      (A : Type 0) (n : ℕ) (q : Query F A)
      → (mentions (violation_error A n q Violation.check) "non_negative_balance" ≡ true)
        × (mentions (violation_error A n q Violation.check) "Unique constraint failed" ≡ false)
        × (mentions (violation_error A n q Violation.check) "P2002" ≡ false)
  pub outage_unrelated : (e : GoError) → IsOutage e → IsUnrelated e

-- A command is answered, or an error comes back and nothing has changed.
abbrev pub Answered : {R : Type 0} → Option (R × Keyspace) → Keyspace → Result R × Keyspace → Type 0
Answered {R} out k r =
    ((a : R) × (k' : Keyspace) × (out ≡ some (a, k')) × (r ≡ (ok a, k')))
    ⊎ ((e : GoError) × (r ≡ (err e, k)))

-- go-redis
pub record RedisClient : Type 1 where
  pub send : (R : Type 0) → ℕ → Command R → Keyspace → Result R × Keyspace
  pub send-Answered :
      (R : Type 0) (n : ℕ) (c : Command R) (k : Keyspace) → Answered (c k) k (send R n c k)

-- `net/http`, the environment, the clock and `crypto`; the number counts the calls made outside.
pub record Host (F : Type 0) : Type 0 where
  pub http_do : ℕ → Request F → Result Response
  -- `http.NewRequest` refuses a malformed address
  pub new_request : String → Result (Unit {0})
  -- `os.LookupEnv`
  pub lookup_env : String → Option String
  -- `time.Now()`, in nanoseconds
  pub clock : ℕ → ℕ
  -- `%d`
  pub show_int : ℕ → String
  -- `rand.Int(rand.Reader, max)`, for a positive `max`
  pub rand_int : ℕ → ℕ → Result ℕ
  pub rand_int_below : (n max v : ℕ) → rand_int n (suc max) ≡ ok v → v ≤ max
  -- `len` of a text, in bytes
  pub byte_length : String → ℕ
  -- `t.Unix()`
  pub unix : ℕ → ℕ
  -- `bcrypt.GenerateFromPassword`, which draws a salt, and `bcrypt.CompareHashAndPassword`
  pub bcrypt_hash : ℕ → String → Result String
  pub bcrypt_matches : String → String → Bool
  pub bcrypt_hashed :
      (n : ℕ) (password hash : String)
      → bcrypt_hash n password ≡ ok hash
      → bcrypt_matches hash password ≡ true
  -- a hash is never the empty text
  pub bcrypt_hash_nonempty :
      (n : ℕ) (password hash : String) → bcrypt_hash n password ≡ ok hash → (hash == "") ≡ false
  -- a token signed with HS256: the secret, `sub`, `exp` and `type`
  pub sign_token : String → String → ℕ → Option String → Result String
  -- `jwt.Parse` with a secret at a time; the answer is the claim `sub` when it is a text
  pub parse_token : String → ℕ → String → Result (Option String)
  -- a token is read with the secret that signed it until it expires, and it has no space
  pub token_read :
      (secret sub token : String) (exp time : ℕ) (type : Option String)
      → sign_token secret sub exp type ≡ ok token
      → unix time < exp
      → parse_token secret time token ≡ ok (some sub)
  pub token_no_space :
      (secret sub token : String) (exp : ℕ) (type : Option String)
      → sign_token secret sub exp type ≡ ok token
      → has_space token ≡ false
  -- `http.StatusText`
  pub status_text : ℕ → String
  -- the errors that `Connect` of the database and the ping of Redis come back with
  pub connect : ℕ → Result (Unit {0})
  pub ping : ℕ → Result (Unit {0})
  -- the hex digits of HMAC-SHA512 of a payload under a key
  pub hmac_sha512_hex : String → String → String

pub record Externals : Type 1 where
  pub float : Float64
  pub open float use *
  pub prisma : Prisma F
  pub open prisma use *
  pub redis : RedisClient
  pub open redis use *
  pub json : Json F
  pub open json use *
  pub host : Host F
  pub open host use *
