-- ===== src/Common/Words.antt =====
-- Texts cut at their spaces: `strings.Split(s, " ")`.
use Prim.Native.Char.{Char}
use mzl_payment_app.Common.{
  String, Bool, true, false, ◌||◌, List, [], ◌∷◌, ◌≡◌, refl, ◌∙◌, ap, sym, ◌==◌, eq_iff, Bool-cases,
  inl, inr, if◌then◌else◌, arith,
}
use mzl_payment_app.Common.Text.{◌+++◌}
use text.Mathlib.TextLemmas.{nil-append, cons-append, head-eq_of_cons-eq}

abbrev pub is_space : Char → Bool
is_space c = String.◌∷◌ c "" == " "

abbrev pub has_space : String → Bool
has_space String.[] = false
has_space (String.◌∷◌ c s) = is_space c || has_space s

-- The character goes before the first word.
abbrev pub before_first : Char → List String → List String
before_first c [] = String.◌∷◌ c "" ∷ []
before_first c (word ∷ words) = String.◌∷◌ c word ∷ words

abbrev pub split : String → List String
split String.[] = "" ∷ []
split (String.◌∷◌ c s) = let rest = split s in if is_space c then "" ∷ rest else before_first c rest

-- A text without a space is one word.
pub split_one : (s : String) → has_space s ≡ false → split s ≡ s ∷ []
split_one String.[] h = refl
split_one (String.◌∷◌ c s) h = let rest = split_one s (ground arith) in ground (arith, rest)

-- What is before the first space, which it does not contain itself, is the first word.
pub split_space : (s t : String) → has_space s ≡ false → split (s +++ (" " +++ t)) ≡ s ∷ split t
split_space String.[] t h = rw (nil-append (" " +++ t), cons-append " " "" t, nil-append t) refl
split_space (String.◌∷◌ c s) t h =
    let rest = split_space s t (ground arith) in
    rw (cons-append c s (" " +++ t)) (ground (arith, rest))

-- `strings.Join(words, " ")`
abbrev pub join : List String → String
join [] = ""
join (word ∷ []) = word
join (word ∷ next ∷ words) = word +++ (" " +++ join (next ∷ words))

abbrev pub NoSpaces : List String → Type 0
NoSpaces [] = Unit
NoSpaces (word ∷ words) = (has_space word ≡ false) × NoSpaces words

before_first-NoSpaces :
    (c : Char) (words : List String)
    → is_space c ≡ false
    → NoSpaces words
    → NoSpaces (before_first c words)
before_first-NoSpaces c [] h k = (ground arith, tt)
before_first-NoSpaces c (word ∷ words) h (k, l) = (ground arith, l)

-- No word has a space.
pub split-NoSpaces : (s : String) → NoSpaces (split s)
split-NoSpaces String.[] = (refl, tt)
split-NoSpaces (String.◌∷◌ c s) = elim (Bool-cases (is_space c)) [
  | inl e ↦ rw e (refl, split-NoSpaces s)
  | inr e ↦ rw e (before_first-NoSpaces c (split s) e (split-NoSpaces s))
]

join-before_first :
    (c : Char) (words : List String) → join (before_first c words) ≡ String.◌∷◌ c (join words)
join-before_first c [] = refl
join-before_first c (word ∷ []) = refl
join-before_first c (word ∷ next ∷ words) = cons-append c word (" " +++ join (next ∷ words))

split-ne_nil : (s : String) → (word : String) × (words : List String) × (split s ≡ word ∷ words)
split-ne_nil String.[] = ("", [], refl)
split-ne_nil (String.◌∷◌ c s) = elim (Bool-cases (is_space c)) [
  | inl e ↦ ("", split s, rw e refl)
  | inr e ↦
      let (word, words, same) = split-ne_nil s in (String.◌∷◌ c word, words, rw (e, same) refl)
]

-- An empty word in front is a space in front.
join-empty : (s : String) → join ("" ∷ split s) ≡ " " +++ join (split s)
join-empty s =
    let (word, words, same) = split-ne_nil s in rw same (nil-append (" " +++ join (word ∷ words)))

is_space-eq : (c : Char) → is_space c ≡ true → c ≡ " "
is_space-eq c e = head-eq_of_cons-eq ((eq_iff (String.◌∷◌ c "") " ").0 e)

-- The words of a text, with a space between each two, are the text.
pub join-split : (s : String) → join (split s) ≡ s
join-split String.[] = refl
join-split (String.◌∷◌ c s) = elim (Bool-cases (is_space c)) [
  | inl e ↦ rw e (
      join-empty s
      ∙ ap (λ t. " " +++ t) (join-split s)
      ∙ cons-append " " "" s
      ∙ ap (λ t. String.◌∷◌ " " t) (nil-append s)
      ∙ ap (λ d. String.◌∷◌ d s) (sym (is_space-eq c e)))
  | inr e ↦ rw e (join-before_first c (split s) ∙ ap (String.◌∷◌ c) (join-split s))
]
