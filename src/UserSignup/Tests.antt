-- ===== src/UserSignup/Tests.antt =====
-- Runs of pkg/usersignup/usersignup.go on the inputs of its Go tests, and its theorems at concrete data.
use Prim.Native.Char.{code}
use toolchain_common.Base.{
  ℕ, ◌+◌, ◌≤◌, ◌≡◌, refl, Bool, false, ◌&&◌, List, [], ◌∷◌, nat_eq, String, if◌then◌else◌, ltb,
  length, map, arith, chars,
}
use toolchain_common.UserSignup.Text.{
  is_alphanumeric, before_at, replace_special, replace_at, only_numbers, contains_dashes,
  replace_dashes, has_prefix, has_suffix, same_text, trim,
}
use toolchain_common.UserSignup.Username.{
  collapse_dashes, compliant, avoid_prefixes, transform_username,
}
use toolchain_common.UserSignup.Identifier.{encode_user_identifier}
use toolchain_common.UserSignup.NameText.{IsName, ends_well, starts_well}
use toolchain_common.UserSignup.NameLaws.{LabelsEndWell, transform_username-IsName}
use toolchain_common.UserSignup.LengthLaws.{
  contains_dashes-collapse_dashes, starts_forbidden, ends_forbidden, length-transform_username,
}
use toolchain_common.UserSignup.IdentifierLaws.{
  IsKept, encode_user_identifier-IsKept, encode_user_identifier_clean,
}

abbrev codes : String → List ℕ
codes s = map code (chars s)

-- A check for labels that knows their characters and that no dash stands at the ends.
abbrev is_label : List ℕ → Bool
is_label s = starts_well s && ends_well s

is_label-LabelsEndWell : LabelsEndWell is_label
is_label-LabelsEndWell s h = ground arith

abbrev prefixes : List (List ℕ)
prefixes = codes "openshift" ∷ codes "kube" ∷ []

abbrev suffixes : List (List ℕ)
suffixes = codes "admin" ∷ []

transform : String → List ℕ
unfolding transform_username nat_eq
transform s = transform_username is_label (codes s) prefixes suffixes

transform_runs :
    (transform "so:#$%!$%^&me" ≡ codes "so-me")
    × (transform "@email.com" ≡ codes "at-email-com")
    × (transform ":#$%!$%^&" ≡ codes "crt-crt")
    × (transform "12345" ≡ codes "crt-12345")
    × (transform "_me_" ≡ codes "crt-me-crt")
    × (transform "isexactly21characte-r" ≡ codes "isexactly21characte")
    × (transform "kubesaw" ≡ codes "crt-kubesaw")
    × (transform "cluster-admin" ≡ codes "cluster-admin-crt")
unfolding transform has_suffix has_prefix only_numbers replace_special before_at is_alphanumeric
    contains_dashes replace_dashes replace_at trim
transform_runs = (refl, refl, refl, refl, refl, refl, refl, refl)

-- A name of 20 characters with a forbidden prefix becomes one of 21.
transform_long : transform "openshift-is-the-b-st" ≡ codes "crt-nshift-is-the-b-s"
unfolding transform has_suffix has_prefix only_numbers replace_special before_at is_alphanumeric
    contains_dashes
transform_long = refl

transform_username-IsName_example : IsName (transform "_me_")
unfolding transform
transform_username-IsName_example =
    transform_username-IsName is_label (codes "_me_") prefixes suffixes is_label-LabelsEndWell

contains_dashes-collapse_dashes_example :
    contains_dashes (collapse_dashes 9 (codes "a-----b--")) ≡ false
contains_dashes-collapse_dashes_example =
    contains_dashes-collapse_dashes 9 (codes "a-----b--") (omega arith)

long_name : List ℕ
long_name = codes "openshift-is-the-b-st"

length-transform_username_example :
    let name = compliant is_label long_name in
    let start = avoid_prefixes prefixes name in
    let result = transform_username is_label long_name prefixes suffixes in
    (length name ≤ 20)
    × (length start ≡ (
        if starts_forbidden prefixes name
        then if ltb 16 (length name) then length name + 1 else length name + 4
        else length name))
    × (length result ≡ (
        if ends_forbidden suffixes start
        then if ltb 16 (length start) then 20 else length start + 4
        else length start))
    × (length result ≤ 21)
length-transform_username_example = length-transform_username is_label long_name prefixes suffixes

abbrev low : List ℕ → List ℕ
low s = s

abbrev hex : List ℕ → List ℕ
hex s = codes "c0177ca4"

encode_run : encode_user_identifier low hex (codes "abcde*-12345") ≡ codes "c0177ca4-abcde-12345"
unfolding encode_user_identifier nat_eq same_text trim
encode_run = refl

hex-IsKept : IsKept (codes "c0177ca4")
unfolding nat_eq
hex-IsKept = (refl, (refl, (refl, (refl, (refl, (refl, (refl, (refl, tt))))))))

encode_user_identifier-IsKept_example :
    (length (encode_user_identifier low hex (codes "a*b")) ≤ 63)
    × IsKept (encode_user_identifier low hex (codes "a*b"))
encode_user_identifier-IsKept_example =
    encode_user_identifier-IsKept low hex (codes "a*b") hex-IsKept

encode_user_identifier_clean_example : encode_user_identifier low hex (codes "a-b") ≡ codes "a-b"
unfolding nat_eq
encode_user_identifier_clean_example =
    encode_user_identifier_clean low hex (codes "a-b") refl (refl, (refl, (refl, tt))) refl refl

-- What is cut ends with a dash here.
cut_at_dash :
    encode_user_identifier low hex
      (codes "aaaaaaaaaaaaaaaaaaaaaaaaaaaaaaaaaaaaaaaaaaaaaaaaaaaaaaaaaaaaaa-b")
    ≡ codes "aaaaaaaaaaaaaaaaaaaaaaaaaaaaaaaaaaaaaaaaaaaaaaaaaaaaaaaaaaaaaa-"
unfolding nat_eq encode_user_identifier toolchain_common.UserSignup.Text.same_text
    toolchain_common.UserSignup.Text.trim
cut_at_dash = refl
