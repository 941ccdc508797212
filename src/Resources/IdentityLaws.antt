-- ===== src/Resources/IdentityLaws.antt =====
-- Identities of different users have different names.
use Prim.Native.Char.{Char}
use mathlib.Core.Path.{ap₂}
use mathlib.Core.List.{◌++◌}
use toolchain_common.Base.{
  String, ◌<>◌, ◌≡◌, ◌≢◌, refl, ◌∙◌, ap, sym, Bool, true, false, not, ◌||◌, List, [], ◌∷◌,
  string_eq, if◌then◌else◌, arith, chars, of_chars, of_chars-chars, chars-append, same_char,
}
use toolchain_common.Resources.Identity.{
  NamingStandard, contains_any, is_identity_name_compliant, username, identity_name,
}

-- Whether a text has a colon.
abbrev pub has_colon : List Char → Bool
has_colon [] = false
has_colon (c ∷ s) = same_char c ":" || has_colon s

abbrev head_or : Char → List Char → Char
head_or d [] = d
head_or d (c ∷ s) = c

abbrev tail : List Char → List Char
tail [] = []
tail (c ∷ s) = s

or_left : (a b : Bool) → (a || b) ≡ false → a ≡ false
or_left false b none = refl
or_left true b none = none

or_right : (a b : Bool) → (a || b) ≡ false → b ≡ false
or_right false b none = none
or_right true b none = ground arith

colon_ne : (c : Char) → ":" ≡ c → same_char c ":" ≢ false
unfolding same_char string_eq
colon_ne c same is = true_or_false (ap (λ x. same_char x ":") same ∙ is)
  where
    true_or_false : true ≡ false → ⊥
    true_or_false e = ground arith

-- What stands in front of the first colon, and behind it.
cut :
    (xs ys xs' ys' : List Char)
    → has_colon xs ≡ false
    → has_colon xs' ≡ false
    → xs ++ (":" ∷ ys) ≡ xs' ++ (":" ∷ ys')
    → (xs ≡ xs') × (ys ≡ ys')
cut [] ys [] ys' free free' same = (refl, ap tail same)
cut [] ys (c ∷ xs') ys' free free' same =
    absurd (colon_ne c (ap (head_or c) same) (or_left (same_char c ":") (has_colon xs') free'))
cut (c ∷ xs) ys [] ys' free free' same =
    absurd (colon_ne c (sym (ap (head_or c) same)) (or_left (same_char c ":") (has_colon xs) free))
cut (c ∷ xs) ys (d ∷ xs') ys' free free' same =
    let left = or_right (same_char c ":") (has_colon xs) free in
    let right = or_right (same_char d ":") (has_colon xs') free' in
    let (front, rest) = cut xs ys xs' ys' left right (ap tail same) in
    (ap₂ ◌∷◌ (ap (head_or c) same) front, rest)

-- A text with a colon has one of the two characters that are not compliant.
colon_any : (s : List Char) → contains_any s ≡ false → has_colon s ≡ false
unfolding contains_any
colon_any [] free = refl
colon_any (c ∷ s) free = ground (arith, colon_any s)

chars_inj : (s t : String) → chars s ≡ chars t → s ≡ t
chars_inj s t same = sym (of_chars-chars s) ∙ ap of_chars same ∙ of_chars-chars t

-- The names that `username` makes have a colon only behind `b64`.
encoded_ne : (plain text : String) → contains_any (chars plain) ≡ false → plain ≢ "b64:" <> text
unfolding contains_any same_char string_eq
encoded_ne plain text free same =
    absurd (true_or_false (sym (ap contains_any (ap chars same ∙ chars-append "b64:" text)) ∙ free))
  where
    true_or_false : true ≡ false → ⊥
    true_or_false e = ground arith

append_inj : (prefix : List Char) (xs ys : List Char) → prefix ++ xs ≡ prefix ++ ys → xs ≡ ys
append_inj [] xs ys same = same
append_inj (c ∷ prefix) xs ys same = append_inj prefix xs ys (ap tail same)

module _ (encode : String → String) (inj : (a b : String) → encode a ≡ encode b → a ≡ b) where
  encoded_inj : (a b : String) → "b64:" <> encode a ≡ "b64:" <> encode b → a ≡ b
  encoded_inj a b same = inj a b (
      chars_inj (encode a) (encode b) (
        append_inj (chars "b64:") (chars (encode a)) (chars (encode b))
          (sym (chars-append "b64:" (encode a)) ∙ ap chars same ∙ chars-append "b64:" (encode b))))

  abbrev name_of : Bool → String → String
  name_of bad user = if not (not bad) then "b64:" <> encode user else user

  name_of_inj :
      (a b : String) (p q : Bool)
      → contains_any (chars a) ≡ p
      → contains_any (chars b) ≡ q
      → name_of p a ≡ name_of q b
      → a ≡ b
  name_of_inj a b true true is is' same = encoded_inj a b same
  name_of_inj a b true false is is' same = absurd (encoded_ne b (encode a) is' (sym same))
  name_of_inj a b false true is is' same = absurd (encoded_ne a (encode b) is same)
  name_of_inj a b false false is is' same = same

  username_inj :
      (s t : NamingStandard) → username encode s ≡ username encode t → s.user_id ≡ t.user_id
  unfolding username is_identity_name_compliant
  username_inj s t same =
      name_of_inj s.user_id t.user_id (contains_any (chars s.user_id))
        (contains_any (chars t.user_id)) refl refl same

  -- If the encoding keeps texts apart and neither provider has a colon, then two users have one
  -- identity name only if they have one provider and one user ID.
  pub identity_name_inj :
      (s t : NamingStandard)
      → has_colon (chars s.provider) ≡ false
      → has_colon (chars t.provider) ≡ false
      → identity_name encode s ≡ identity_name encode t
      → (s.provider ≡ t.provider) × (s.user_id ≡ t.user_id)
  unfolding identity_name
  identity_name_inj s t free free' same =
      let (providers, names) =
        cut (chars s.provider) (chars (username encode s)) (chars t.provider)
          (chars (username encode t)) free free' (sym (parts s) ∙ ap chars same ∙ parts t) in
      (
        chars_inj s.provider t.provider providers,
        username_inj s t (chars_inj (username encode s) (username encode t) names),
      )
    where
      parts :
          (s : NamingStandard)
          → chars (s.provider <> (":" <> username encode s))
            ≡ chars s.provider ++ (":" ∷ chars (username encode s))
      parts s =
          chars-append s.provider (":" <> username encode s)
          ∙ ap (λ cs. chars s.provider ++ cs) (chars-append ":" (username encode s))
