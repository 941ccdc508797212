-- ===== src/UserSignup/Identifier.antt =====
-- `EncodeUserIdentifier`. `strings.ToLower` and the CRC-32 printed by `%x` are parameters.
use toolchain_common.Base.{
  ℕ, Bool, ◌||◌, List, [], ◌∷◌, ◌++◌, ◌==◌, nat_eq, if◌then◌else◌, length, take, ltb,
}
use toolchain_common.UserSignup.Text.{dash, is_digit, is_lower, same_text, trim}

abbrev pub dns1123_name_maximum_length : ℕ
dns1123_name_maximum_length = 63

abbrev pub is_kept : ℕ → Bool
is_kept r = is_digit r || (is_lower r || r == dash)

-- The loop that writes the runes to keep.
unfoldable pub keep_runes : List ℕ → List ℕ
keep_runes [] = []
keep_runes (r ∷ s) = let rest = keep_runes s in if is_kept r then r ∷ rest else rest

module _ (to_lower checksum_hex : List ℕ → List ℕ) where
  unfoldable pub sanitize_dns1123 : List ℕ → List ℕ
  unfolding keep_runes
  sanitize_dns1123 str = trim (keep_runes (to_lower str))

  unfoldable pub encode_user_identifier : List ℕ → List ℕ
  unfolding sanitize_dns1123
  encode_user_identifier subject =
      let sanitized = sanitize_dns1123 subject in
      let encoded =
        if same_text sanitized subject
        then sanitized
        else checksum_hex subject ++ (dash ∷ sanitized) in
      if ltb dns1123_name_maximum_length (length encoded)
      then take dns1123_name_maximum_length encoded
      else encoded
