-- ===== src/Config.antt =====
-- internals/config/config.go. The environment is as `godotenv.Load` has left it.
use mzl_payment_app.Common.{String, Option, none, some}
use mzl_payment_app.External.{Externals}

pub record Config : Type 0 where
  pub port : String
  pub database_url : String
  pub jwt_secret : String
  pub paystack_secret_key : String
  pub redis_url : String

module _ ⦃x : Externals⦄ where
  abbrev pub value_or : Option String → String → String
  value_or (some value) fallback = value
  value_or none fallback = fallback

  abbrev pub get_env : String → String → String
  get_env key fallback = value_or (x.lookup_env key) fallback

  abbrev pub load : Config
  load = record {
    port = get_env "PORT" "8080";
    database_url = get_env "DATABASE_URL" "";
    jwt_secret = get_env "JWT_ACCESS_SECRET" "super-secret";
    paystack_secret_key = get_env "PAYSTACK_SECRET_KEY" "";
    redis_url = get_env "REDIS_URL" "";
  }
