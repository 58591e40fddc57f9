-- ===== src/Tests/Platform.antt =====
-- A platform that is always reachable and that runs every query and command as documented.
use mzl_payment_app.Common.{
  ℕ, zero, suc, String, Bool, true, false, ◌≡◌, refl, Option, none, some, List, [], ◌∷◌, ◌++◌, inl,
  inr, arith,
}
use Prim.Native.String.{count}
use text.Mathlib.TextLemmas.{length-append, cons-ne-nil}
use mzl_payment_app.Common.{◌==◌, ◌<◌, ◌≤◌, ◌≢◌, eq_iff, ap, sym, ◌∙◌}
use mzl_payment_app.Common.Table.{find}
use mzl_payment_app.Repository.Wallet.Duplicates.{HasFreshIds}
use mzl_payment_app.Common.Text.{◌+++◌}
use mzl_payment_app.Go.{GoError, Result, ok, err}
use mzl_payment_app.Schema.Tables.{Tables, WalletAsset, Transaction, RefreshToken}
use mzl_payment_app.Schema.Query.{Outcome, done, violates, Violation}
use mzl_payment_app.External.{Float64, Prisma, RedisClient, Externals, Ran, Answered}
use mzl_payment_app.External.{Host}
use mzl_payment_app.External.Redis.{Keyspace}
use mzl_payment_app.Common.Words.{has_space}
use mzl_payment_app.Common.{eqb, if◌then◌else◌}
use mzl_payment_app.World.Commands.{IsReliable}
use mzl_payment_app.Tests.Int.{ℤ, pos, add_ℤ, sub_ℤ, mul_ℤ, div_ℤ, lt_ℤ, le_ℤ}
use mzl_payment_app.Tests.Messages.{messages}

abbrev pub whole : Float64
whole = record {
  F = ℤ;
  zero_f = pos 0;
  one_f = pos 1;
  hundred_f = pos 100;
  add = add_ℤ;
  sub = sub_ℤ;
  mul = mul_ℤ;
  div = div_ℤ;
  lt = lt_ℤ;
  le = le_ℤ;
  show = λ _. "1.000000";
}

abbrev pub violation_error : Violation → GoError
violation_error Violation.unique =
    GoError.client "Unique constraint failed on the fields: (`reference`)"
violation_error Violation.check =
    GoError.client "violates check constraint \"non_negative_balance\""
violation_error Violation.missing = GoError.not_found

abbrev pub is_unique : GoError → Bool
is_unique (GoError.client s) = mzl_payment_app.Common.contains s "Unique"
is_unique _ = false

abbrev pub settle : {A : Type 0} → Tables ℤ → Outcome ℤ A → Result A × Tables ℤ
settle t (done a t') = (ok a, t')
settle t (violates v) = (err (violation_error v), t)

abbrev pub NoOutage : GoError → Type 0
NoOutage _ = ⊥

pub settle-Ran :
    {A : Type 0} (t : Tables ℤ) (out : Outcome ℤ A)
    → Ran violation_error NoOutage out t (settle t out)
settle-Ran t (done a t') = inl (a, t', refl, refl)
settle-Ran t (violates v) = inr (inl (v, refl, refl))

-- An id that is longer than all ids in use together.
module _ {A : Type 0} (id : A → String) where
  abbrev pub joined : List A → String
  joined [] = ""
  joined (a ∷ rows) = id a +++ joined rows

  pub joined_fresh :
      (rows : List A) (s : String)
      → count (joined rows) < count s
      → find (λ a. id a == s) rows ≡ none
  joined_fresh [] s h = refl
  joined_fresh (a ∷ rows) s h =
      let both = length-append (id a) (joined rows) in
      let apart : (id a ≢ s) = λ e. omega (arith, ap count e) in
      ground (arith, eq_iff (id a) s, joined_fresh rows s (omega arith))

abbrev pub fresh_id : Tables ℤ → String
fresh_id t =
    joined (λ (a : WalletAsset ℤ). a.id) t.assets
    +++ (joined (λ (a : Transaction ℤ). a.id) t.transactions
        +++ (joined (λ (a : RefreshToken). a.id) t.refresh_tokens +++ "x"))

abbrev pub database : Prisma ℤ
database = record {
  exec = λ A n q t. settle t (q t);
  uuid = fresh_id;
  now_default = λ t. 0;
  is_err_unique_constraint = is_unique;
  violation_error = λ A n q. violation_error;
  IsOutage = NoOutage;
  exec-Ran = λ A n q t. settle-Ran t (q t);
  missing_unrelated = λ A n q. (refl, refl, refl);
  unique_recognised = λ A n q. refl;
  check_recognised = λ A n q. (refl, refl, refl);
  outage_unrelated = λ e h. absurd h;
}

abbrev pub reply : {R : Type 0} → Keyspace → Option (R × Keyspace) → Result R × Keyspace
reply k none = (err (GoError.client "WRONGTYPE"), k)
reply k (some (a, k')) = (ok a, k')

pub reply-Answered :
    {R : Type 0} (k : Keyspace) (out : Option (R × Keyspace)) → Answered out k (reply k out)
reply-Answered k none = inr (GoError.client "WRONGTYPE", refl)
reply-Answered k (some (a, k')) = inl (a, k', refl, refl)

abbrev pub cache : RedisClient
cache = record {
  send = λ R n c k. reply k (c k);
  send-Answered = λ R n c k. reply-Answered k (c k);
}

pub below_zero : (max v : ℕ) → ok 0 ≡ ok v → v ≤ max
below_zero max v e = ground arith

-- The hash of a password is the password behind a mark.
abbrev pub hash_of : String → String
hash_of password = String.◌∷◌ "$" password

pub hashed_matches :
    (password hash : String) → ok (hash_of password) ≡ ok hash → (hash == hash_of password) ≡ true
hashed_matches password hash e = ground (arith, eq_iff hash (hash_of password))

pub hashed_nonempty :
    (password hash : String) → ok (hash_of password) ≡ ok hash → (hash == "") ≡ false
hashed_nonempty password hash e =
    let is : hash_of password ≡ hash = ground arith in
    let apart : (hash ≢ "") = λ empty. cons-ne-nil "$" password (is ∙ empty) in
    ground (arith, eq_iff hash "")

-- A token is the subject behind a mark for the type; no subject has a space.
abbrev pub sign : String → String → ℕ → Option String → Result String
sign secret sub exp none = if has_space sub then err (GoError.new "") else ok (String.◌∷◌ "." sub)
sign secret sub exp (some type) =
    if has_space sub then err (GoError.new "") else ok (String.◌∷◌ "/" sub)

abbrev pub unsigned : String → String
unsigned String.[] = ""
unsigned (String.◌∷◌ c s) = s

pub sign-unsigned :
    (secret sub token : String) (exp time : ℕ) (type : Option String)
    → sign secret sub exp type ≡ ok token
    → time < exp
    → ok (some (unsigned token)) ≡ ok (some sub)
sign-unsigned secret sub token exp time none e h =
    let is : String.◌∷◌ "." sub ≡ token = ground arith in ap (λ t. ok (some (unsigned t))) (sym is)
sign-unsigned secret sub token exp time (some type) e h =
    let is : String.◌∷◌ "/" sub ≡ token = ground arith in ap (λ t. ok (some (unsigned t))) (sym is)

pub sign-one_word :
    (secret sub token : String) (exp : ℕ) (type : Option String)
    → sign secret sub exp type ≡ ok token
    → has_space token ≡ false
sign-one_word secret sub token exp none e =
    let is : String.◌∷◌ "." sub ≡ token = ground arith in
    let one : has_space sub ≡ false = ground arith in sym (ap has_space is) ∙ one
sign-one_word secret sub token exp (some type) e =
    let is : String.◌∷◌ "/" sub ≡ token = ground arith in
    let one : has_space sub ≡ false = ground arith in sym (ap has_space is) ∙ one

abbrev pub machine : Host ℤ
machine = record {
  http_do = λ n r. ok (record { status_code = 200; body = r.url });
  new_request = λ _. ok tt;
  lookup_env = λ _. some "secret";
  clock = λ n. n;
  show_int = λ n. "0";
  rand_int = λ n max. ok 0;
  rand_int_below = λ n. below_zero;
  byte_length = count;
  unix = λ n. n;
  bcrypt_hash = λ _ password. ok (hash_of password);
  bcrypt_matches = λ hash password. hash == hash_of password;
  bcrypt_hashed = λ _ password hash. hashed_matches password hash;
  bcrypt_hash_nonempty = λ _ password hash. hashed_nonempty password hash;
  sign_token = sign;
  parse_token = λ secret time token. ok (some (unsigned token));
  token_read = sign-unsigned;
  token_no_space = sign-one_word;
  status_text = λ _. "status";
  connect = λ _. ok tt;
  ping = λ _. ok tt;
  hmac_sha512_hex = λ key payload. key +++ payload;
}

instance abbrev pub platform : Externals
platform = record {
  float = whole;
  prisma = database;
  redis = cache;
  json = messages;
  host = machine;
}

pub platform-HasFreshIds : (t : Tables ℤ) → HasFreshIds t
platform-HasFreshIds t =
    let assets = joined (λ (a : WalletAsset ℤ). a.id) t.assets in
    let transactions = joined (λ (a : Transaction ℤ). a.id) t.transactions in
    let tokens = joined (λ (a : RefreshToken). a.id) t.refresh_tokens in
    let outer = length-append assets (transactions +++ (tokens +++ "x")) in
    let inner = length-append transactions (tokens +++ "x") in
    let last = length-append tokens "x" in
    (
      joined_fresh (λ (a : WalletAsset ℤ). a.id) t.assets (fresh_id t) (omega arith),
      joined_fresh (λ (a : Transaction ℤ). a.id) t.transactions (fresh_id t) (omega arith),
    )

reply-some :
    {R : Type 0} (k k' : Keyspace) (out : Option (R × Keyspace)) (a : R)
    → out ≡ some (a, k')
    → reply k out ≡ (ok a, k')
reply-some k k' out a e = rw e refl

pub platform-IsReliable : IsReliable
platform-IsReliable R n c k k' a e = reply-some k k' (c k) a e
