-- ===== src/Base/Strings.antt =====
-- What the code uses of Go's package strings, on texts.
use Prim.Native.String.{String}
use Prim.Native.Char.{Char}
use mathlib.Core.Bool.{Bool, true, false}
use mathlib.Core.Option.{Option, none, some}
use mathlib.Core.List.{List, [], ◌∷◌, ◌++◌, map}
use toolchain_common.Base.Equality.{if◌then◌else◌}
use toolchain_common.Base.Lists.{is_some}
use toolchain_common.Base.Text.{chars, of_chars, same_char}

-- A character in front of the first part.
abbrev pub onto_first : Char → List (List Char) → List (List Char)
onto_first c [] = (c ∷ []) ∷ []
onto_first c (part ∷ parts) = (c ∷ part) ∷ parts

unfoldable pub split_chars : Char → List Char → List (List Char)
split_chars separator [] = [] ∷ []
split_chars separator (c ∷ s) =
    let rest = split_chars separator s in
    if same_char c separator then [] ∷ rest else onto_first c rest

-- strings.Split(s, c), for a text c of one character
unfoldable pub split : Char → String → List String
unfolding split_chars
split separator s = map of_chars (split_chars separator (chars s))

-- What follows a prefix, if it is one.
unfoldable pub after_prefix : List Char → List Char → Option (List Char)
after_prefix [] s = some s
after_prefix (p ∷ prefix) [] = none
after_prefix (p ∷ prefix) (c ∷ s) =
    let rest = after_prefix prefix s in if same_char c p then rest else none

abbrev pub all_empty : Option (List Char) → Bool
all_empty (some []) = true
all_empty _ = false

abbrev pub and_before : Char → Option (List Char) → Option (List Char)
and_before c none = none
and_before c (some s) = some (c ∷ s)

-- What stands before a suffix, if it is one.
unfoldable pub before_suffix : List Char → List Char → Option (List Char)
unfolding after_prefix
before_suffix suffix [] = if all_empty (after_prefix suffix []) then some [] else none
before_suffix suffix (c ∷ s) =
    let rest = before_suffix suffix s in
    if all_empty (after_prefix suffix (c ∷ s)) then some [] else and_before c rest

abbrev pub text_or : String → Option (List Char) → String
text_or s none = s
text_or s (some cs) = of_chars cs

-- strings.HasPrefix(s, prefix)
unfoldable pub has_prefix : String → String → Bool
unfolding after_prefix
has_prefix s prefix = is_some (after_prefix (chars prefix) (chars s))

-- strings.TrimPrefix(s, prefix)
unfoldable pub trim_prefix : String → String → String
unfolding after_prefix
trim_prefix s prefix = text_or s (after_prefix (chars prefix) (chars s))

-- strings.TrimSuffix(s, suffix)
unfoldable pub trim_suffix : String → String → String
unfolding before_suffix
trim_suffix s suffix = text_or s (before_suffix (chars suffix) (chars s))

unfoldable pub replace_chars : List Char → List Char → List Char → List Char
unfolding after_prefix
replace_chars old new [] = elim (after_prefix old []) [ some rest ↦ new ++ rest | none ↦ [] ]
replace_chars old new (c ∷ s) =
    let rest' = replace_chars old new s in
    elim (after_prefix old (c ∷ s)) [ some rest ↦ new ++ rest | none ↦ c ∷ rest' ]

-- strings.Replace(s, old, new, 1)
unfoldable pub replace_first : String → String → String → String
unfolding replace_chars
replace_first s old new = of_chars (replace_chars (chars old) (chars new) (chars s))
