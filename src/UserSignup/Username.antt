-- ===== src/UserSignup/Username.antt =====
-- `TransformUsername`. The check `validation.IsDNS1123Label` of Kubernetes is a parameter.
use toolchain_common.Base.{
  ℕ, zero, suc, ◌-◌, Bool, not, List, [], ◌∷◌, ◌++◌, ◌==◌, nat_eq, if◌then◌else◌, ltb, length, take,
  drop,
}
use toolchain_common.UserSignup.Text.{
  dash, before_at, replace_special, replace_at, only_numbers, contains_dashes, replace_dashes,
  has_prefix, has_suffix, trim,
}

abbrev pub max_length : ℕ
max_length = 20

abbrev pub max_length_with_prefix : ℕ
max_length_with_prefix = max_length - 4

abbrev pub crt : List ℕ
crt = b'c' ∷ b'r' ∷ b't' ∷ []

-- `for strings.Contains(s, "--") { s = strings.ReplaceAll(s, "--", "-") }`, with fuel.
unfoldable pub collapse_dashes : ℕ → List ℕ → List ℕ
collapse_dashes zero s = s
collapse_dashes (suc fuel) s =
    let rest = collapse_dashes fuel (replace_dashes s) in if contains_dashes s then rest else s

-- The name up to the check for numbers.
unfoldable pub replaced : List ℕ → List ℕ
replaced username =
    let name = replace_special (before_at username) in
    replace_special (if length name == 0 then replace_at username else name)

unfoldable pub mark_number : List ℕ → List ℕ
mark_number name = if only_numbers name then crt ++ (dash ∷ name) else name

unfoldable pub mark_start : List ℕ → List ℕ
mark_start name = if has_prefix name (dash ∷ []) then crt ++ name else name

unfoldable pub mark_end : List ℕ → List ℕ
mark_end name = if has_suffix name (dash ∷ []) then name ++ crt else name

-- The loops over the forbidden prefixes and suffixes, left at the first that fits.
unfoldable pub avoid_prefixes : List (List ℕ) → List ℕ → List ℕ
avoid_prefixes [] name = name
avoid_prefixes (prefix ∷ prefixes) name =
    if has_prefix name prefix
    then if ltb max_length_with_prefix (length name)
      then crt ++ (dash ∷ drop 3 name)
      else crt ++ (dash ∷ name)
    else avoid_prefixes prefixes name

unfoldable pub avoid_suffixes : List (List ℕ) → List ℕ → List ℕ
avoid_suffixes [] name = name
avoid_suffixes (suffix ∷ suffixes) name =
    if has_suffix name suffix
    then if ltb max_length_with_prefix (length name)
      then take max_length_with_prefix name ++ (dash ∷ crt)
      else name ++ (dash ∷ crt)
    else avoid_suffixes suffixes name

module _ (is_dns1123_label : List ℕ → Bool) where
  unfoldable pub shorten : List ℕ → List ℕ
  shorten name =
      let cut = take max_length name in
      if ltb max_length (length name)
      then if not (is_dns1123_label cut) then trim cut else cut
      else name

  -- The name up to the check for forbidden prefixes. A text has fewer pairs of dashes than characters.
  unfoldable pub compliant : List ℕ → List ℕ
  unfolding replaced mark_number collapse_dashes mark_start mark_end shorten
  compliant username =
      let marked = mark_number (replaced username) in
      shorten (mark_end (mark_start (collapse_dashes (length marked) marked)))

  unfoldable pub transform_username : List ℕ → List (List ℕ) → List (List ℕ) → List ℕ
  unfolding compliant avoid_prefixes avoid_suffixes
  transform_username username forbidden_prefixes forbidden_suffixes =
      avoid_suffixes forbidden_suffixes (avoid_prefixes forbidden_prefixes (compliant username))
