-- ===== src/Base/Text.antt =====
-- Texts as lists of characters. The names that the code cuts are ASCII, so a character is a byte.
use Prim.Native.String.{String}
use Prim.Native.Char.{Char}
use Prim.Native.Nat.{ℕ, ◌+◌}
use mathlib.Core.Path.{◌≡◌, refl, ap, ◌∙◌}
use mathlib.Core.List.{List, [], ◌∷◌, ◌++◌}
use text.Mathlib.TextLemmas.{nil-append, cons-append}
use mathlib.Core.Bool.{Bool}
use toolchain_common.Base.Equality.{◌==◌, string_eq}
use toolchain_common.Base.Lists.{length, length-append}

abbrev pub chars : String → List Char
chars String.[] = []
chars (String.◌∷◌ c s) = c ∷ chars s

abbrev pub of_chars : List Char → String
of_chars [] = ""
of_chars (c ∷ cs) = String.◌∷◌ c (of_chars cs)

pub chars-of_chars : (cs : List Char) → chars (of_chars cs) ≡ cs
chars-of_chars [] = refl
chars-of_chars (c ∷ cs) = ap (◌∷◌ c) (chars-of_chars cs)

pub of_chars-chars : (s : String) → of_chars (chars s) ≡ s
of_chars-chars String.[] = refl
of_chars-chars (String.◌∷◌ c s) = ap (String.◌∷◌ c) (of_chars-chars s)

-- `len(s)`
abbrev pub text_length : String → ℕ
text_length s = length (chars s)

pub chars-append : (s t : String) → chars (Prim.Native.String.◌++◌ s t) ≡ chars s ++ chars t
chars-append String.[] t = ap chars (nil-append t)
chars-append (String.◌∷◌ c s) t = ap chars (cons-append c s t) ∙ ap (◌∷◌ c) (chars-append s t)

pub text_length-append :
    (s t : String) → text_length (Prim.Native.String.◌++◌ s t) ≡ text_length s + text_length t
text_length-append s t = ap length (chars-append s t) ∙ length-append (chars s) (chars t)

-- Characters are compared as texts of one character.
unfoldable pub same_char : Char → Char → Bool
same_char a b = of_chars (a ∷ []) == of_chars (b ∷ [])
