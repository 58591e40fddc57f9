-- ===== src/Server/Http/Ends.antt =====
-- How the steps of a handler end, as statements that compose along its body.
use mzl_payment_app.Common.{
  ℕ, String, Bool, true, false, Bool-cases, Option, none, some, ◌≡◌, refl, subst, sym, inl, inr,
}
use mzl_payment_app.Go.{GoError, is_panic, Result, ok, err}
use mzl_payment_app.External.{Externals}
use mzl_payment_app.World.{World, Action, bind}
use mzl_payment_app.World.Ends.{Ends, returned, failed, bind-Ends}
use mzl_payment_app.Server.Http.{
  Reply, error_json, refuse_if, decoded_or, user_or_refuse, go_on, call, perform,
}

module _ ⦃x : Externals⦄ {Q : Reply x.F → World x.F → Type 0}
    {E : GoError → World x.F → Type 0} where
  pub refuse_if-Ends :
      (condition : Bool) (status : ℕ) (text : String) (k : Unit {0} → Action (Reply x.F))
      (w : World x.F)
      → (condition ≡ true → Q (error_json status text) w)
      → (condition ≡ false → Ends Q E (k tt w))
      → Ends Q E (refuse_if condition status text k w)
  unfolding refuse_if
  refuse_if-Ends true status text k w h l = returned _ refl (h refl)
  refuse_if-Ends false status text k w h l = l refl

  pub decoded_or-Ends :
      {A : Type 0} (on_error : GoError → Reply x.F) (r : Result A) (k : A → Action (Reply x.F))
      (w : World x.F)
      → ((e : GoError) → r ≡ err e → Q (on_error e) w)
      → ((a : A) → r ≡ ok a → Ends Q E (k a w))
      → Ends Q E (decoded_or on_error r k w)
  unfolding decoded_or
  decoded_or-Ends on_error (ok a) k w h l = l a refl
  decoded_or-Ends on_error (err e) k w h l = returned _ refl (h e refl)

  pub user_or_refuse-Ends :
      (user : Option String) (k : String → Action (Reply x.F)) (w : World x.F)
      → Q (error_json 401 "unauthorized") w
      → ((user_id : String) → user ≡ some user_id → Ends Q E (k user_id w))
      → Ends Q E (user_or_refuse user k w)
  unfolding user_or_refuse
  user_or_refuse-Ends none k w h l = returned _ refl h
  user_or_refuse-Ends (some user_id) k w h l = l user_id refl

  error-Ends :
      {A : Type 0} (on_error : GoError → Reply x.F) (k : A → Action (Reply x.F)) (e : GoError)
      (w : World x.F)
      → (is_panic e ≡ false → Q (on_error e) w)
      → (is_panic e ≡ true → E e w)
      → Ends Q E (go_on on_error k (err e) w)
  error-Ends on_error k e w h l = elim (Bool-cases (is_panic e)) [
    | inl b ↦ rw b (failed e refl (l b))
    | inr b ↦ rw b (returned _ refl (h b))
  ]

  -- The rule of a call whose error is answered.
  pub call-Ends :
      {A : Type 0} {P : A → World x.F → Type 0} {E' : GoError → World x.F → Type 0} (m : Action A)
      (on_error : GoError → Reply x.F) (k : A → Action (Reply x.F)) (w : World x.F)
      → Ends P E' (m w)
      → ((a : A) (w' : World x.F) → P a w' → Ends Q E (k a w'))
      → ((e : GoError) (w' : World x.F) → E' e w' → is_panic e ≡ false → Q (on_error e) w')
      → ((e : GoError) (w' : World x.F) → E' e w' → is_panic e ≡ true → E e w')
      → Ends Q E (call m on_error k w)
  unfolding call bind
  call-Ends m on_error k w (returned a q h) l f g =
      subst (λ r. Ends Q E (go_on on_error k r (m w).1)) (sym q) (l a _ h)
  call-Ends m on_error k w (failed e q h) l f g =
      subst (λ r. Ends Q E (go_on on_error k r (m w).1)) (sym q)
        (error-Ends on_error k e _ (f e _ h) (g e _ h))

  pub perform-Ends :
      {A : Type 0} {P : A → World x.F → Type 0} {E' : GoError → World x.F → Type 0} (m : Action A)
      (k : A → Action (Reply x.F)) (w : World x.F)
      → Ends P E' (m w)
      → ((a : A) (w' : World x.F) → P a w' → Ends Q E (k a w'))
      → ((e : GoError) (w' : World x.F) → E' e w' → E e w')
      → Ends Q E (perform m k w)
  unfolding perform
  perform-Ends m k w h l g = bind-Ends k (m w) h l g
