-- ===== src/Common/Table.antt =====
-- A table of the database as a list of rows, in the order in which a query scans it.
use mathlib.Core.Path.{◌≡◌, refl, sym, ap, ◌∙◌}
use mathlib.Core.Bool.{Bool, true, false}
use mathlib.Core.Option
use mathlib.Core.Option.{Option, none, some}
use mathlib.Core.List.{List, [], ◌∷◌, ◌++◌}
use native.Mathlib.Omega.{arith}
use mathlib.Core.Logic.{inl, inr}
use mzl_payment_app.Common.Tests.{if◌then◌else◌, Bool-cases}

module _ {A : Type 0} where
  -- The first row that passes the test.
  abbrev pub find : (A → Bool) → List A → Option A
  find p [] = none
  find p (a ∷ rows) = if p a then some a else find p rows

  -- `UPDATE … WHERE p`
  abbrev pub update : (A → Bool) → (A → A) → List A → List A
  update p g [] = []
  update p g (a ∷ rows) = (if p a then g a else a) ∷ update p g rows

  -- All rows that pass the test.
  abbrev pub select : (A → Bool) → List A → List A
  select p [] = []
  select p (a ∷ rows) = if p a then a ∷ select p rows else select p rows

  -- No two rows agree under `r`: a unique index.
  abbrev pub IsDistinct : (A → A → Bool) → List A → Type 0
  IsDistinct r [] = Unit {0}
  IsDistinct r (a ∷ rows) = (find (r a) rows ≡ none) × IsDistinct r rows

  pub find-holds : (p : A → Bool) (rows : List A) (a : A) → find p rows ≡ some a → p a ≡ true
  find-holds p [] a e = cc
  find-holds p (x ∷ rows) a e = ground (arith, find-holds p rows a)

  pub find-none_at :
      (p q : A → Bool) (rows : List A) (a : A)
      → find p rows ≡ none
      → find q rows ≡ some a
      → p a ≡ false
  find-none_at p q [] a n e = cc
  find-none_at p q (x ∷ rows) a n e = ground (arith, find-none_at p q rows a)

  -- An update that a test does not notice commutes with the search.
  pub find-update :
      (p q : A → Bool) (g : A → A)
      → ((a : A) → p (g a) ≡ p a)
      → (rows : List A)
      → find p (update q g rows) ≡ Option.map (λ a. if q a then g a else a) (find p rows)
  find-update p q g same [] = refl
  find-update p q g same (x ∷ rows) = ground (arith, same x, find-update p q g same rows)

  pub find-append :
      (p : A → Bool) (rows : List A) (a : A)
      → find p rows ≡ none
      → find p (rows ++ a ∷ []) ≡ (if p a then some a else none)
  find-append p [] a e = refl
  find-append p (x ∷ rows) a e = ground (arith, find-append p rows a)

  pub find-append_old :
      (p : A → Bool) (rows : List A) (a b : A)
      → find p rows ≡ some b
      → find p (rows ++ a ∷ []) ≡ some b
  find-append_old p [] a b e = cc
  find-append_old p (x ∷ rows) a b e = ground (arith, find-append_old p rows a b)

  -- The row found by any test is the one that its own key finds.
  pub find_self :
      (r : A → A → Bool)
      → ((a : A) → r a a ≡ true)
      → ((a b : A) → r a b ≡ r b a)
      → (p : A → Bool) (rows : List A) (a : A) → IsDistinct r rows
      → find p rows ≡ some a
      → find (r a) rows ≡ some a
  find_self r self swap p [] a d e = cc
  find_self r self swap p (x ∷ rows) a d e =
      ground (
        arith,
        self x,
        swap a x,
        find_self r self swap p rows a d.1,
        find-none_at (r x) p rows a d.0,
      )

  -- Two rows of a unique index with the same key are one row.
  pub eq_of_same_key :
      (r : A → A → Bool)
      → ((a : A) → r a a ≡ true)
      → ((a b : A) → r a b ≡ r b a)
      → (p q : A → Bool) (rows : List A) (a b : A) → IsDistinct r rows
      → find p rows ≡ some a
      → find q rows ≡ some b
      → r a ≡ r b
      → a ≡ b
  eq_of_same_key r self swap p q rows a b d e f same =
      let both : some a ≡ some b =
        sym (find_self r self swap p rows a d e)
        ∙ ap (λ k. find k rows) same
        ∙ find_self r self swap q rows b d f in
      cc

  -- A search that fails still fails after an update, under any test that agrees with the first.
  find-update-none :
      (p p' q : A → Bool) (g : A → A)
      → ((a : A) → p' a ≡ p a)
      → ((a : A) → p' (g a) ≡ p' a)
      → (rows : List A) → find p rows ≡ none
      → find p' (update q g rows) ≡ none
  find-update-none p p' q g agree same [] e = refl
  find-update-none p p' q g agree same (x ∷ rows) e =
      ground (arith, agree x, same x, find-update-none p p' q g agree same rows)

  -- An update that keeps the keys keeps a unique index.
  pub IsDistinct-update :
      (r : A → A → Bool) (q : A → Bool) (g : A → A)
      → ((a b : A) → r (g a) b ≡ r a b)
      → ((a b : A) → r b (g a) ≡ r b a)
      → (rows : List A) → IsDistinct r rows
      → IsDistinct r (update q g rows)
  IsDistinct-update r q g left right [] d = tt
  IsDistinct-update r q g left right (x ∷ rows) d = (
    elim (Bool-cases (q x)) [
      | inl e ↦ rw e (find-update-none (r x) (r (g x)) q g (left x) (λ a. right a (g x)) rows d.0)
      | inr e ↦ rw e (find-update-none (r x) (r x) q g (λ a. refl) (λ a. right a x) rows d.0)
    ],
    IsDistinct-update r q g left right rows d.1,
  )

  -- A new row whose key is not there keeps it too.
  pub IsDistinct-append :
      (r : A → A → Bool) (rows : List A) (a : A)
      → ((b : A) → r b a ≡ r a b)
      → find (r a) rows ≡ none
      → IsDistinct r rows
      → IsDistinct r (rows ++ a ∷ [])
  IsDistinct-append r [] a swap e d = (refl, tt)
  IsDistinct-append r (x ∷ rows) a swap e d =
      ground (arith, swap x, find-append (r x) rows a d.0, IsDistinct-append r rows a swap)
