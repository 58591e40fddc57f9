-- ===== src/World/Keeps.antt =====
-- Calls that leave a part of the state alone, composed along `do` blocks.
use mzl_payment_app.Common.{String, ◌≡◌, refl, ◌∙◌, List, [], ◌∷◌, ◌++◌}
use mzl_payment_app.Go.{GoError, Result, ok, err}
use mzl_payment_app.External.{Externals}
use mzl_payment_app.External.Redis.{Command, Keyspace}
use mzl_payment_app.External.Http.{Request}
use mzl_payment_app.Schema.Tables.{Tables}
use mzl_payment_app.Schema.Query.{Query}
use mzl_payment_app.World.Ends.{Ends, returned, failed}
use mzl_payment_app.World.{
  World, Action, bind, ◌>>=◌, run_query, run_command, http_send, attempt, wrapped_as, or_wrapped,
}

module _ ⦃x : Externals⦄ where
  -- `part` of the state is the same after `m`, however it ends.
  abbrev pub Keeps : {B A : Type 0} → (World x.F → B) → Action A → Type 0
  Keeps part m = (w : World x.F) → part (m w).1 ≡ part w

  module _ {B : Type 0} (part : World x.F → B) where
    bind-part :
        {A C : Type 0} (f : A → Action C) (p : Result A × World x.F)
        → ((a : A) → Keeps part (f a))
        → part (bind f p).1 ≡ part p.1
    unfolding bind
    bind-part f (ok a, w) k = k a w
    bind-part f (err e, w) k = refl

    pub bind-Keeps :
        {A C : Type 0} (m : Action A) (f : A → Action C)
        → Keeps part m
        → ((a : A) → Keeps part (f a))
        → Keeps part (m >>= f)
    bind-Keeps m f h k w = bind-part f (m w) k ∙ h w

    pub or_wrapped-Keeps : {A : Type 0} (s : String) (r : Result A) → Keeps part (or_wrapped s r)
    or_wrapped-Keeps s (ok a) w = refl
    or_wrapped-Keeps s (err e) w = refl

    pub wrapped_as-Keeps :
        {A : Type 0} (s : String) (m : Action A) → Keeps part m → Keeps part (wrapped_as s m)
    unfolding wrapped_as
    wrapped_as-Keeps s m h = bind-Keeps (attempt m) (or_wrapped s) h (or_wrapped-Keeps s)

  abbrev pub keys_of : World x.F → Keyspace
  keys_of w = w.keys

  abbrev pub tables_of : World x.F → Tables x.F
  tables_of w = w.tables

  abbrev pub requests_of : World x.F → List (Request x.F)
  requests_of w = w.requests

  pub run_query-Keeps-requests : {A : Type 0} (q : Query x.F A) → Keeps requests_of (run_query q)
  unfolding run_query
  run_query-Keeps-requests q w = refl

  pub run_command-Keeps-requests : {R : Type 0} (c : Command R) → Keeps requests_of (run_command c)
  unfolding run_command
  run_command-Keeps-requests c w = refl

  -- A request that is sent, whatever the answer.
  pub http_send-requests :
      (r : Request x.F) (w : World x.F) → (http_send r w).1.requests ≡ w.requests ++ r ∷ []
  unfolding http_send
  http_send-requests r w = refl

  pub run_query-Keeps : {A : Type 0} (q : Query x.F A) → Keeps keys_of (run_query q)
  unfolding run_query
  run_query-Keeps q w = refl

  pub run_command-Keeps : {R : Type 0} (c : Command R) → Keeps tables_of (run_command c)
  unfolding run_command
  run_command-Keeps c w = refl

  pub http_send-Keeps-keys : (r : Request x.F) → Keeps keys_of (http_send r)
  unfolding http_send
  http_send-Keeps-keys r w = refl

  pub http_send-Keeps-tables : (r : Request x.F) → Keeps tables_of (http_send r)
  unfolding http_send
  http_send-Keeps-tables r w = refl

  either_end :
      {A : Type 0} {P : World x.F → Type 0} (p : Result A × World x.F)
      → P p.1
      → Ends (λ _. P) (λ _. P) p
  either_end (ok a, w) h = returned a refl h
  either_end (err e, w) h = failed e refl h

  -- What a call keeps holds at both of its ends.
  pub Keeps-Ends :
      {B A : Type 0} (part : World x.F → B) (m : Action A) (w : World x.F) (b : B)
      → Keeps part m
      → part w ≡ b
      → Ends (λ _ w'. part w' ≡ b) (λ _ w'. part w' ≡ b) (m w)
  Keeps-Ends part m w b keeps same = either_end {P = λ w'. part w' ≡ b} (m w) (keeps w ∙ same)

  -- `m` leaves these tables alone, and perhaps no others.
  abbrev pub Stays : {A : Type 0} → Tables x.F → Action A → Type 0
  Stays t m = (w : World x.F) → w.tables ≡ t → (m w).1.tables ≡ t

  pub Keeps-Stays : {A : Type 0} (t : Tables x.F) (m : Action A) → Keeps tables_of m → Stays t m
  Keeps-Stays t m keeps w same = keeps w ∙ same

  bind-tables :
      {A C : Type 0} (t : Tables x.F) (f : A → Action C) (p : Result A × World x.F)
      → ((a : A) → Stays t (f a))
      → p.1.tables ≡ t
      → (bind f p).1.tables ≡ t
  unfolding bind
  bind-tables t f (ok a, w) k same = k a w same
  bind-tables t f (err e, w) k same = same

  pub bind-Stays :
      {A C : Type 0} (t : Tables x.F) (m : Action A) (f : A → Action C)
      → Stays t m
      → ((a : A) → Stays t (f a))
      → Stays t (m >>= f)
  bind-Stays t m f h k w same = bind-tables t f (m w) k (h w same)

  -- Both what is known of the ends of a call and what it keeps.
  pub both-Ends :
      {B A : Type 0} {P : A → World x.F → Type 0} {E : GoError → World x.F → Type 0}
      (part : World x.F → B) (m : Action A) (w : World x.F) (b : B)
      → Keeps part m
      → part w ≡ b
      → Ends P E (m w)
      → Ends (λ a w'. P a w' × (part w' ≡ b)) (λ e w'. E e w' × (part w' ≡ b)) (m w)
  both-Ends part m w b keeps same (returned a q h) = returned a q (h, keeps w ∙ same)
  both-Ends part m w b keeps same (failed e q h) = failed e q (h, keeps w ∙ same)
