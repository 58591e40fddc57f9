-- ===== src/Common/Text.antt =====
-- Texts that are put together from a fixed part and a variable one.
use Prim.Native.Char.{Char}
use Prim.Native.String
use Prim.Native.String.{String, ◌∷◌}
use mathlib.Core.Path.{sym, ◌∙◌}
use mathlib.Core.Logic.{◌≢◌}
use text.Mathlib.TextLemmas.{cons-append, head-eq_of_cons-eq}

infixr 66 ◌+++◌
-- Concatenation of texts, Go's `+`.
abbrev pub ◌+++◌ : String → String → String
s +++ t = String.◌++◌ s t

-- Two texts that begin with different characters differ, whatever follows.
pub append-ne_of_head : (c d : Char) (s t r u : String) → c ≢ d → ((c ∷ s) +++ r) ≢ ((d ∷ t) +++ u)
append-ne_of_head c d s t r u ne e =
    ne (head-eq_of_cons-eq (sym (cons-append c s r) ∙ e ∙ cons-append d t u))
