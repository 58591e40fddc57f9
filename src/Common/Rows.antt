-- ===== src/Common/Rows.antt =====
-- A change of the one row that a unique key finds.
use mzl_payment_app.Common.{
  Bool, false, ◌≡◌, refl, none, some, List, [], ◌∷◌, ◌++◌, arith, Bool-cases, inl, inr,
}
use mzl_payment_app.Common.Table.{find, update, IsDistinct}

module _ {A : Type 0} where
  find-none_ext :
      (p q : A → Bool) (rows : List A)
      → ((a : A) → p a ≡ q a)
      → find q rows ≡ none
      → find p rows ≡ none
  find-none_ext p q [] same e = refl
  find-none_ext p q (y ∷ rows) same e = ground (arith, same y, find-none_ext p q rows same)

  update-none :
      (p : A → Bool) (g : A → A) (rows : List A) → find p rows ≡ none → update p g rows ≡ rows
  update-none p g [] e = refl
  update-none p g (y ∷ rows) e = ground (arith, update-none p g rows)

  -- No row is bad after the change of the row that the key finds, when none was before and the
  -- changed one is not.
  pub update-find-none :
      (r : A → A → Bool) (p : A → Bool) (g : A → A) (bad : A → Bool) (rows : List A) (a : A)
      → IsDistinct r rows
      → ((b : A) → p b ≡ r a b)
      → find p rows ≡ some a
      → bad (g a) ≡ false
      → find bad rows ≡ none
      → find bad (update p g rows) ≡ none
  update-find-none r p g bad [] a d same found good e = refl
  update-find-none r p g bad (y ∷ rows) a d same found good e = elim (Bool-cases (p y)) [
    | inl c ↦
        let here : y ≡ a = ground arith in
        let rest : find p rows ≡ none = find-none_ext p (r y) rows (λ b. rw (here) (same b)) d.0 in
        let old = update-none p g rows rest in ground arith
    | inr c ↦ ground (arith, update-find-none r p g bad rows a d.1 same)
  ]

  pub find-none-append :
      (bad : A → Bool) (rows : List A) (a : A)
      → bad a ≡ false
      → find bad rows ≡ none
      → find bad (rows ++ a ∷ []) ≡ none
  find-none-append bad [] a good e = ground arith
  find-none-append bad (y ∷ rows) a good e = ground (arith, find-none-append bad rows a)
