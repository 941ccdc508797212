-- ===== src/UserSignup/Text.antt =====
-- What pkg/usersignup/usersignup.go uses of Go's packages strings and regexp, on lists of code points.
use toolchain_common.Base.{
  ℕ, Bool, true, false, ◌&&◌, ◌||◌, List, [], ◌∷◌, ◌==◌, nat_eq, if◌then◌else◌, leb,
}

abbrev pub dash : ℕ
dash = b'-'

abbrev pub is_digit : ℕ → Bool
is_digit c = leb b'0' c && leb c b'9'

abbrev pub is_lower : ℕ → Bool
is_lower c = leb b'a' c && leb c b'z'

abbrev pub is_upper : ℕ → Bool
is_upper c = leb b'A' c && leb c b'Z'

-- The characters that `[^A-Za-z0-9]` does not match.
unfoldable pub is_alphanumeric : ℕ → Bool
is_alphanumeric c = is_upper c || (is_lower c || is_digit c)

-- strings.Split(s, "@")[0]
unfoldable pub before_at : List ℕ → List ℕ
before_at [] = []
before_at (c ∷ s) = let rest = before_at s in if c == b'@' then [] else c ∷ rest

-- specialCharRegexp.ReplaceAllString(s, "-")
unfoldable pub replace_special : List ℕ → List ℕ
replace_special [] = []
replace_special (c ∷ s) = (if is_alphanumeric c then c else dash) ∷ replace_special s

-- strings.ReplaceAll(s, "@", "at-")
unfoldable pub replace_at : List ℕ → List ℕ
replace_at [] = []
replace_at (c ∷ s) =
    let rest = replace_at s in if c == b'@' then b'a' ∷ b't' ∷ dash ∷ rest else c ∷ rest

-- onlyNumbers.MatchString(s), for `^[0-9]*$`
unfoldable pub only_numbers : List ℕ → Bool
only_numbers [] = true
only_numbers (c ∷ s) = is_digit c && only_numbers s

-- strings.Contains(s, "--")
unfoldable pub contains_dashes : List ℕ → Bool
contains_dashes (c ∷ d ∷ s) = (c == dash && d == dash) || contains_dashes (d ∷ s)
contains_dashes _ = false

-- strings.ReplaceAll(s, "--", "-")
unfoldable pub replace_dashes : List ℕ → List ℕ
replace_dashes (c ∷ d ∷ s) =
    let rest = replace_dashes s in
    let rest' = replace_dashes (d ∷ s) in if c == dash && d == dash then dash ∷ rest else c ∷ rest'
replace_dashes s = s

unfoldable pub has_prefix : List ℕ → List ℕ → Bool
has_prefix s [] = true
has_prefix [] (p ∷ prefix) = false
has_prefix (c ∷ s) (p ∷ prefix) = c == p && has_prefix s prefix

unfoldable pub same_text : List ℕ → List ℕ → Bool
same_text [] [] = true
same_text (a ∷ s) (b ∷ t) = a == b && same_text s t
same_text _ _ = false

unfoldable pub has_suffix : List ℕ → List ℕ → Bool
unfolding same_text
has_suffix [] suffix = same_text [] suffix
has_suffix (c ∷ s) suffix = same_text (c ∷ s) suffix || has_suffix s suffix

-- strings.TrimLeft and TrimRight with "-", and strings.Trim.
unfoldable pub trim_left : List ℕ → List ℕ
trim_left [] = []
trim_left (c ∷ s) = let rest = trim_left s in if c == dash then rest else c ∷ s

-- A character before a text that is trimmed at its end.
unfoldable pub cons_trimmed : ℕ → List ℕ → List ℕ
cons_trimmed c [] = if c == dash then [] else c ∷ []
cons_trimmed c (d ∷ s) = c ∷ d ∷ s

unfoldable pub trim_right : List ℕ → List ℕ
unfolding cons_trimmed
trim_right [] = []
trim_right (c ∷ s) = cons_trimmed c (trim_right s)

unfoldable pub trim : List ℕ → List ℕ
unfolding trim_left trim_right
trim s = trim_right (trim_left s)
