-- ===== src/UserSignup/LengthLaws.antt =====
-- How long the names of `TransformUsername` are, and that its loop over dashes ends.
use toolchain_common.Base.{
  ℕ, zero, suc, ◌+◌, ◌≤◌, ◌<◌, ◌≡◌, refl, Bool, true, false, ◌||◌, List, [], ◌∷◌, ◌++◌, nat_eq,
  if◌then◌else◌, ltb, length, take, arith, Bool-cases, inl, inr, length-append, length-take,
  length-drop,
}
use toolchain_common.UserSignup.Text.{
  dash, contains_dashes, replace_dashes, has_prefix, has_suffix, trim, trim_left, trim_right,
  cons_trimmed,
}
use toolchain_common.UserSignup.Username.{
  max_length, crt, collapse_dashes, replaced, mark_number, mark_start, mark_end, avoid_prefixes,
  avoid_suffixes, shorten, compliant, transform_username,
}

length-replace_dashes-le : (s : List ℕ) → length (replace_dashes s) ≤ length s
unfolding replace_dashes
length-replace_dashes-le [] = omega arith
length-replace_dashes-le (c ∷ []) = omega arith
length-replace_dashes-le (c ∷ d ∷ s) =
    ground (arith, length-replace_dashes-le s, length-replace_dashes-le (d ∷ s))

length-replace_dashes-lt :
    (s : List ℕ) → contains_dashes s ≡ true → length (replace_dashes s) < length s
unfolding replace_dashes contains_dashes
length-replace_dashes-lt [] h = cc
length-replace_dashes-lt (c ∷ []) h = cc
length-replace_dashes-lt (c ∷ d ∷ s) h =
    ground (arith, length-replace_dashes-le s, length-replace_dashes-lt (d ∷ s))

contains_dashes_short : (s : List ℕ) → length s ≤ 1 → contains_dashes s ≡ false
unfolding contains_dashes
contains_dashes_short [] h = refl
contains_dashes_short (c ∷ []) h = refl
contains_dashes_short (c ∷ d ∷ s) h = absurd (omega arith)

-- Fuel for each character is enough for the loop that removes double dashes: it ends by its test, so
-- that two dashes never follow one another in what it leaves.
pub contains_dashes-collapse_dashes :
    (fuel : ℕ) (s : List ℕ) → length s ≤ fuel → contains_dashes (collapse_dashes fuel s) ≡ false
unfolding collapse_dashes
contains_dashes-collapse_dashes zero s h = contains_dashes_short s (omega arith)
contains_dashes-collapse_dashes (suc fuel) s h = elim (Bool-cases (contains_dashes s)) [
  | inl e ↦ rw e (
      contains_dashes-collapse_dashes fuel (replace_dashes s)
        (omega (arith, length-replace_dashes-lt s e)))
  | inr e ↦ rw (e, e) refl
]

length-trim_left : (s : List ℕ) → length (trim_left s) ≤ length s
unfolding trim_left
length-trim_left [] = omega arith
length-trim_left (c ∷ s) = ground (arith, length-trim_left s)

length-cons_trimmed : (c : ℕ) (s : List ℕ) → length (cons_trimmed c s) ≤ suc (length s)
unfolding cons_trimmed
length-cons_trimmed c [] = ground arith
length-cons_trimmed c (d ∷ s) = omega arith

length-trim_right : (s : List ℕ) → length (trim_right s) ≤ length s
unfolding trim_right
length-trim_right [] = omega arith
length-trim_right (c ∷ s) = omega (arith, length-trim_right s, length-cons_trimmed c (trim_right s))

pub length-trim : (s : List ℕ) → length (trim s) ≤ length s
unfolding trim
length-trim s = omega (arith, length-trim_left s, length-trim_right (trim_left s))

-- A forbidden prefix fits.
abbrev pub starts_forbidden : List (List ℕ) → List ℕ → Bool
starts_forbidden [] name = false
starts_forbidden (prefix ∷ prefixes) name = has_prefix name prefix || starts_forbidden prefixes name

abbrev pub ends_forbidden : List (List ℕ) → List ℕ → Bool
ends_forbidden [] name = false
ends_forbidden (suffix ∷ suffixes) name = has_suffix name suffix || ends_forbidden suffixes name

length-avoid_prefixes :
    (prefixes : List (List ℕ)) (name : List ℕ)
    → length (avoid_prefixes prefixes name) ≡ (
        if starts_forbidden prefixes name
        then if ltb 16 (length name) then length name + 1 else length name + 4
        else length name)
unfolding avoid_prefixes
length-avoid_prefixes [] name = refl
length-avoid_prefixes (p ∷ ps) name =
    ground (arith, length-avoid_prefixes ps name, length-drop 3 name)

length_behind : (name : List ℕ) → length (name ++ (dash ∷ crt)) ≡ length name + 4
length_behind name = omega (arith, length-append name (dash ∷ crt))

length_cut_behind :
    (name : List ℕ) → ltb 16 (length name) ≡ true → length (take 16 name ++ (dash ∷ crt)) ≡ 20
length_cut_behind name h =
    let long : 16 < length name = ground arith in
    omega (arith, length_behind (take 16 name), length-take 16 name, long)

length-avoid_suffixes :
    (suffixes : List (List ℕ)) (name : List ℕ)
    → length (avoid_suffixes suffixes name) ≡ (
        if ends_forbidden suffixes name
        then if ltb 16 (length name) then 20 else length name + 4
        else length name)
unfolding avoid_suffixes
length-avoid_suffixes [] name = refl
length-avoid_suffixes (p ∷ ps) name = elim (Bool-cases (has_suffix name p)) [
  | inl e ↦ rw e (elim (Bool-cases (ltb 16 (length name))) [
    | inl l ↦ rw l (length_cut_behind name l)
    | inr l ↦ rw l (length_behind name)
  ])
  | inr e ↦ rw e (length-avoid_suffixes ps name)
]

length-shorten :
    (is_dns1123_label : List ℕ → Bool) (s : List ℕ)
    → length (shorten is_dns1123_label s) ≤ max_length
unfolding shorten
length-shorten is_dns1123_label s = ground (arith, length-take 20 s, length-trim (take 20 s))

module _ (is_dns1123_label : List ℕ → Bool) where
  pub length-compliant :
      (username : List ℕ) → length (compliant is_dns1123_label username) ≤ max_length
  unfolding compliant
  length-compliant username =
      let marked = mark_number (replaced username) in
      length-shorten is_dns1123_label
        (mark_end (mark_start (collapse_dashes (length marked) marked)))

  -- The length of a transformed name, from that of the name before the forbidden prefixes and
  -- suffixes are replaced, which is 20 at most: a forbidden prefix adds four characters to a name of
  -- up to 16 and one to a longer one, and a forbidden suffix adds four or cuts the name to 20. So a
  -- name of 20 characters with a forbidden prefix and without a forbidden suffix gets 21, and 21 is
  -- never passed.
  pub length-transform_username :
      (username : List ℕ) (prefixes suffixes : List (List ℕ))
      → let name = compliant is_dns1123_label username in
        let start = avoid_prefixes prefixes name in
        let result = transform_username is_dns1123_label username prefixes suffixes in
        (length name ≤ max_length)
        × (length start ≡ (
            if starts_forbidden prefixes name
            then if ltb 16 (length name) then length name + 1 else length name + 4
            else length name))
        × (length result ≡ (
            if ends_forbidden suffixes start
            then if ltb 16 (length start) then max_length else length start + 4
            else length start))
        × (length result ≤ max_length + 1)
  unfolding transform_username
  length-transform_username username prefixes suffixes =
      let name = compliant is_dns1123_label username in
      let start = avoid_prefixes prefixes name in
      let a = length-compliant username in
      let b = length-avoid_prefixes prefixes name in
      let c = length-avoid_suffixes suffixes start in (a, b, c, ground (arith, a, b, c))
