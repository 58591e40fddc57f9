-- ===== src/World/Ends.antt =====
-- Both ways in which a Go function ends, as one statement that composes along `do` blocks.
use mzl_payment_app.Common.{String, Bool, true, false, ◌≡◌, refl, sym, subst, arith}
use mzl_payment_app.Go.{GoError, Result, ok, err}
use mzl_payment_app.External.{Externals}
use mzl_payment_app.World.{World, Action, bind, fail_if, ignore, attempt, lift, wrapped_as}

module _ ⦃x : Externals⦄ where
  -- It returns `a` and `P a` holds of the state after it, or fails with `e` and `E e` does.
  pub data Ends {A : Type 0} (P : A → World x.F → Type 0) (E : GoError → World x.F → Type 0)
      (p : Result A × World x.F) : Type 0 where
    returned : (a : A) → p.0 ≡ ok a → P a p.1 → Ends P E p
    failed : (e : GoError) → p.0 ≡ err e → E e p.1 → Ends P E p

  module _ {A : Type 0} {P : A → World x.F → Type 0} {E : GoError → World x.F → Type 0} where
    pub Ends-ok : (p : Result A × World x.F) (a : A) → Ends P E p → p.0 ≡ ok a → P a p.1
    Ends-ok p a (returned b q h) e = let same : b ≡ a = ground arith in rw (← same) h
    Ends-ok p a (failed f q h) e = ground arith

    pub Ends-err : (p : Result A × World x.F) (e : GoError) → Ends P E p → p.0 ≡ err e → E e p.1
    Ends-err p e (returned b q h) r = ground arith
    Ends-err p e (failed f q h) r = let same : f ≡ e = ground arith in rw (← same) h

    pub Ends-weaken :
        {P' : A → World x.F → Type 0} {E' : GoError → World x.F → Type 0} (p : Result A × World x.F)
        → ((a : A) (w : World x.F) → P a w → P' a w)
        → ((e : GoError) (w : World x.F) → E e w → E' e w)
        → Ends P E p
        → Ends P' E' p
    Ends-weaken p f g (returned a q h) = returned a q (f a p.1 h)
    Ends-weaken p f g (failed e q h) = failed e q (g e p.1 h)

    -- The rule of `m >>= f`.
    pub bind-Ends :
        {B : Type 0} {Q : B → World x.F → Type 0} {E' : GoError → World x.F → Type 0}
        (f : A → Action B) (p : Result A × World x.F)
        → Ends P E p
        → ((a : A) (w : World x.F) → P a w → Ends Q E' (f a w))
        → ((e : GoError) (w : World x.F) → E e w → E' e w)
        → Ends Q E' (bind f p)
    unfolding bind
    bind-Ends {Q} {E'} f p (returned a q h) k l =
        subst (λ r. Ends Q E' (bind f (r, p.1))) (sym q) (k a p.1 h)
    bind-Ends {Q} {E'} f p (failed e q h) k l =
        subst (λ r. Ends Q E' (bind f (r, p.1))) (sym q) (failed e refl (l e p.1 h))

  pub fail_if-Ends :
      {P : Unit {0} → World x.F → Type 0} {E : GoError → World x.F → Type 0} (c : Bool)
      (e : GoError) (w : World x.F)
      → (c ≡ false → P tt w)
      → (c ≡ true → E e w)
      → Ends P E (fail_if c e w)
  fail_if-Ends false e w h k = returned tt refl (h refl)
  fail_if-Ends true e w h k = failed e refl (k refl)

  pub lift-Ends :
      {A : Type 0} (r : Result A) (w : World x.F)
      → Ends (λ a w'. (r ≡ ok a) × (w' ≡ w)) (λ e w'. (r ≡ err e) × (w' ≡ w)) (lift r w)
  lift-Ends (ok a) w = returned a refl (refl, refl)
  lift-Ends (err e) w = failed e refl (refl, refl)

  -- What holds after either end holds after a call whose error is dropped.
  module _ {A : Type 0} {P : A → World x.F → Type 0} {E : GoError → World x.F → Type 0}
      (m : Action A) (w : World x.F) where
    pub ignore-Ends :
        {Q : World x.F → Type 0}
        → Ends P E (m w)
        → ((a : A) (w' : World x.F) → P a w' → Q w')
        → ((e : GoError) (w' : World x.F) → E e w' → Q w')
        → Ends (λ _. Q) (λ _ _. ⊥) (ignore m w)
    ignore-Ends (returned a q h) f g = returned tt refl (f a _ h)
    ignore-Ends (failed e q h) f g = returned tt refl (g e _ h)

    pub attempt-Ends :
        {Q : Result A → World x.F → Type 0}
        → Ends P E (m w)
        → ((a : A) (w' : World x.F) → P a w' → Q (ok a) w')
        → ((e : GoError) (w' : World x.F) → E e w' → Q (err e) w')
        → Ends Q (λ _ _. ⊥) (attempt m w)
    attempt-Ends {Q} (returned a q h) f g =
        returned _ refl (subst (λ r. Q r (m w).1) (sym q) (f a _ h))
    attempt-Ends {Q} (failed e q h) f g =
        returned _ refl (subst (λ r. Q r (m w).1) (sym q) (g e _ h))

  -- A prefix to the error changes nothing else.
  pub wrapped_as-Ends :
      {A : Type 0} {P : A → World x.F → Type 0} {E : World x.F → Type 0} (s : String) (m : Action A)
      (w : World x.F)
      → Ends P (λ _. E) (m w)
      → Ends P (λ _. E) (wrapped_as s m w)
  unfolding wrapped_as bind
  wrapped_as-Ends s m w (returned a q h) = rw q (returned a refl h)
  wrapped_as-Ends s m w (failed e q h) = rw q (failed _ refl h)
