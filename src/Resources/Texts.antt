-- ===== src/Resources/Texts.antt =====
-- pkg/utils/stringhelper.go: the parts of a comma separated list.
use mathlib.Core.Path.{ap₂, subst}
use mathlib.Core.List.{◌++◌}
use Prim.Native.Char.{Char}
use toolchain_common.Base.{
  String, ◌≡◌, refl, ◌∙◌, ap, sym, Bool, true, false, not, ◌&&◌, List, [], ◌∷◌, map, ◌==◌,
  string_eq, if◌then◌else◌, chars, of_chars, chars-of_chars, of_chars-chars, same_char, split,
  split_chars, onto_first, eq_of_==, arith,
}

unfoldable pub split_comma_separated_list : String → List String
split_comma_separated_list s = if s == "" then [] else split "," s

-- The parts with a separator between them.
abbrev pub join_chars : Char → List (List Char) → List Char
join_chars c [] = []
join_chars c (part ∷ []) = part
join_chars c (part ∷ next ∷ parts) = part ++ (c ∷ join_chars c (next ∷ parts))

abbrev pub join : Char → List String → String
join c parts = of_chars (join_chars c (map chars parts))

same_char_eq : (c d : Char) → same_char c d ≡ true → c ≡ d
unfolding same_char
same_char_eq c d same = ap head (
    sym (chars-of_chars (c ∷ []))
    ∙ ap chars (eq_of_== (of_chars (c ∷ [])) (of_chars (d ∷ [])) same)
    ∙ chars-of_chars (d ∷ []))
  where
    head : List Char → Char
    head [] = d
    head (x ∷ _) = x

join-onto_first :
    (sep c : Char) (parts : List (List Char))
    → join_chars sep (onto_first c parts) ≡ c ∷ join_chars sep parts
join-onto_first sep c [] = refl
join-onto_first sep c (part ∷ []) = refl
join-onto_first sep c (part ∷ next ∷ parts) = refl

join-empty :
    (sep : Char) (parts : List (List Char)) (part : List Char) (more : List (List Char))
    → parts ≡ part ∷ more
    → join_chars sep ([] ∷ parts) ≡ sep ∷ join_chars sep parts
join-empty sep [] part more some_part = ground arith
join-empty sep (p ∷ ps) part more some_part = refl

split_nonempty :
    (sep : Char) (s : List Char)
    → (part : List Char) × (more : List (List Char)) × (split_chars sep s ≡ part ∷ more)
unfolding split_chars
split_nonempty sep [] = ([], [], refl)
split_nonempty sep (c ∷ s) = by_test (same_char c sep)
  where
    started :
        (parts : List (List Char))
        → (part : List Char) × (more : List (List Char)) × (onto_first c parts ≡ part ∷ more)
    started [] = (c ∷ [], [], refl)
    started (p ∷ ps) = (c ∷ p, ps, refl)

    by_test :
        (b : Bool)
        → (part : List Char) × (more : List (List Char)) × ((if b
              then [] ∷ split_chars sep s
              else onto_first c (split_chars sep s))
            ≡ part ∷ more)
    by_test true = ([], split_chars sep s, refl)
    by_test false = started (split_chars sep s)

join-split_chars : (sep : Char) (s : List Char) → join_chars sep (split_chars sep s) ≡ s
unfolding split_chars
join-split_chars sep [] = refl
join-split_chars sep (c ∷ s) = by_test (join-split_chars sep s) (same_char c sep) refl
  where
    by_test :
        join_chars sep (split_chars sep s) ≡ s
        → (b : Bool) → same_char c sep ≡ b
        → join_chars sep (if b then [] ∷ split_chars sep s else onto_first c (split_chars sep s))
          ≡ c ∷ s
    by_test ih true same =
        let (part, more, is) = split_nonempty sep s in
        join-empty sep (split_chars sep s) part more is ∙ ap₂ ◌∷◌ (sym (same_char_eq c sep same)) ih
    by_test ih false other = join-onto_first sep c (split_chars sep s) ∙ ap (◌∷◌ c) ih

map-chars : (parts : List (List Char)) → map chars (map of_chars parts) ≡ parts
map-chars [] = refl
map-chars (p ∷ ps) = ap₂ ◌∷◌ (chars-of_chars p) (map-chars ps)

-- A text without the separator.
abbrev pub is_free : Char → List Char → Bool
is_free sep [] = true
is_free sep (c ∷ s) = not (same_char c sep) && is_free sep s

abbrev pub AreFree : Char → List (List Char) → Type 0
AreFree sep [] = Unit
AreFree sep (part ∷ parts) = (is_free sep part ≡ true) × AreFree sep parts

onto_first-AreFree :
    (sep c : Char) (parts : List (List Char))
    → same_char c sep ≡ false
    → AreFree sep parts
    → AreFree sep (onto_first c parts)
onto_first-AreFree sep c [] other free = (ground arith, tt)
onto_first-AreFree sep c (part ∷ parts) other (first, free) = (ground arith, free)

split_chars-AreFree : (sep : Char) (s : List Char) → AreFree sep (split_chars sep s)
unfolding split_chars
split_chars-AreFree sep [] = (refl, tt)
split_chars-AreFree sep (c ∷ s) = by_test (split_chars-AreFree sep s) (same_char c sep) refl
  where
    by_test :
        AreFree sep (split_chars sep s)
        → (b : Bool) → same_char c sep ≡ b
        → AreFree sep (if b then [] ∷ split_chars sep s else onto_first c (split_chars sep s))
    by_test free true same = (refl, free)
    by_test free false other = onto_first-AreFree sep c (split_chars sep s) other free

-- The parts of a comma separated list have no comma, and joined with commas they give the list again; the
-- empty list has no parts.
pub join-split_comma_separated_list :
    (s : String)
    → (join "," (split_comma_separated_list s) ≡ s)
      × AreFree "," (map chars (split_comma_separated_list s))
      × (split_comma_separated_list "" ≡ [])
unfolding split_comma_separated_list split string_eq
join-split_comma_separated_list s = (joined (s == "") refl, free (s == ""), refl)
  where
    joined :
        (b : Bool)
        → (s == "") ≡ b
        → join "," (if b then [] else map of_chars (split_chars "," (chars s))) ≡ s
    joined true empty = sym (eq_of_== s "" empty)
    joined false other =
        ap (λ cs. of_chars (join_chars "," cs)) (map-chars (split_chars "," (chars s)))
        ∙ ap of_chars (join-split_chars "," (chars s))
        ∙ of_chars-chars s

    free :
        (b : Bool)
        → AreFree "," (map chars (if b then [] else map of_chars (split_chars "," (chars s))))
    free true = tt
    free false =
        subst (λ parts. AreFree "," parts) (sym (map-chars (split_chars "," (chars s))))
          (split_chars-AreFree "," (chars s))
