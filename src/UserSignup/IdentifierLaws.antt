-- ===== src/UserSignup/IdentifierLaws.antt =====
-- What `EncodeUserIdentifier` makes of a subject.
use toolchain_common.Base.{
  ℕ, zero, suc, ◌≤◌, ◌≡◌, refl, ap, Bool, true, List, [], ◌∷◌, ◌++◌, ◌==◌, nat_eq, if◌then◌else◌,
  ltb, length, take, arith, All, Bool-cases, inl, inr, length-take,
}
use toolchain_common.UserSignup.Text.{dash, same_text, trim, trim_left, trim_right, cons_trimmed}
use toolchain_common.UserSignup.Identifier.{
  is_kept, keep_runes, sanitize_dns1123, encode_user_identifier,
}
use toolchain_common.UserSignup.NameText.{starts_well, ends_well}

abbrev pub IsKept : List ℕ → Type 0
IsKept = All (λ c. is_kept c ≡ true)

keep_runes-IsKept : (s : List ℕ) → IsKept (keep_runes s)
unfolding keep_runes
keep_runes-IsKept [] = tt
keep_runes-IsKept (r ∷ s) = elim (Bool-cases (is_kept r)) [
  | inl e ↦ rw e (e, keep_runes-IsKept s)
  | inr e ↦ rw e (keep_runes-IsKept s)
]

module _ (p : ℕ → Bool) where
  trim_left-All : (s : List ℕ) → All (λ c. p c ≡ true) s → All (λ c. p c ≡ true) (trim_left s)
  unfolding trim_left
  trim_left-All [] h = h
  trim_left-All (c ∷ s) (x, h) = elim (Bool-cases (c == dash)) [
    | inl e ↦ rw e (trim_left-All s h)
    | inr e ↦ rw e (x, h)
  ]

  cons_trimmed-All :
      (c : ℕ) (s : List ℕ)
      → p c ≡ true
      → All (λ c. p c ≡ true) s
      → All (λ c. p c ≡ true) (cons_trimmed c s)
  unfolding cons_trimmed
  cons_trimmed-All c [] x h = elim (Bool-cases (c == dash)) [
    | inl e ↦ rw e tt
    | inr e ↦ rw e (x, tt)
  ]
  cons_trimmed-All c (d ∷ s) x h = (x, h)

  trim_right-All : (s : List ℕ) → All (λ c. p c ≡ true) s → All (λ c. p c ≡ true) (trim_right s)
  unfolding trim_right
  trim_right-All [] h = h
  trim_right-All (c ∷ s) (x, h) = cons_trimmed-All c (trim_right s) x (trim_right-All s h)

  trim-All : (s : List ℕ) → All (λ c. p c ≡ true) s → All (λ c. p c ≡ true) (trim s)
  unfolding trim
  trim-All s h = trim_right-All (trim_left s) (trim_left-All s h)

  append-All :
      (s t : List ℕ)
      → All (λ c. p c ≡ true) s
      → All (λ c. p c ≡ true) t
      → All (λ c. p c ≡ true) (s ++ t)
  append-All [] t h k = k
  append-All (c ∷ s) t (x, h) k = (x, append-All s t h k)

  take-All : (n : ℕ) (s : List ℕ) → All (λ c. p c ≡ true) s → All (λ c. p c ≡ true) (take n s)
  take-All zero s h = tt
  take-All (suc n) [] h = tt
  take-All (suc n) (c ∷ s) (x, h) = (x, take-All n s h)

same_text_iff : (s t : List ℕ) → same_text s t ≡ true → s ≡ t
unfolding same_text
same_text_iff [] [] h = refl
same_text_iff [] (b ∷ t) h = cc
same_text_iff (a ∷ s) [] h = cc
same_text_iff (a ∷ s) (b ∷ t) h = ground (arith, same_text_iff s t)

same_text_refl : (s : List ℕ) → same_text s s ≡ true
unfolding same_text
same_text_refl [] = refl
same_text_refl (a ∷ s) = ground (arith, same_text_refl s)

keep_runes-eq_self : (s : List ℕ) → IsKept s → keep_runes s ≡ s
unfolding keep_runes
keep_runes-eq_self [] h = refl
keep_runes-eq_self (r ∷ s) (x, h) = rw x (ap (◌∷◌ r) (keep_runes-eq_self s h))

trim_left-eq_self : (s : List ℕ) → starts_well s ≡ true → trim_left s ≡ s
unfolding trim_left
trim_left-eq_self [] h = refl
trim_left-eq_self (c ∷ s) h = ground arith

cons_trimmed-cons : (c d : ℕ) (s r : List ℕ) → r ≡ d ∷ s → cons_trimmed c r ≡ c ∷ d ∷ s
unfolding cons_trimmed
cons_trimmed-cons c d s r e = rw e

trim_right-eq_self : (s : List ℕ) → ends_well s ≡ true → trim_right s ≡ s
unfolding trim_right
trim_right-eq_self [] h = refl
trim_right-eq_self (c ∷ []) h = unfold cons_trimmed in ground arith
trim_right-eq_self (c ∷ d ∷ s) h =
    cons_trimmed-cons c d s (trim_right (d ∷ s)) (trim_right-eq_self (d ∷ s) h)

module _ (to_lower checksum_hex : List ℕ → List ℕ) where
  sanitize-eq_self :
      (subject : List ℕ)
      → to_lower subject ≡ subject
      → IsKept subject
      → starts_well subject ≡ true
      → ends_well subject ≡ true
      → sanitize_dns1123 to_lower checksum_hex subject ≡ subject
  unfolding sanitize_dns1123 trim
  sanitize-eq_self subject low kept st en =
      rw (low, keep_runes-eq_self subject kept, trim_left-eq_self subject st)
        (trim_right-eq_self subject en)

  -- An encoded subject has at most 63 characters, and if the checksum is written in kept characters,
  -- as hexadecimal digits are, then all its characters are lower case letters, digits and dashes.
  pub encode_user_identifier-IsKept :
      (subject : List ℕ)
      → IsKept (checksum_hex subject)
      → (length (encode_user_identifier to_lower checksum_hex subject) ≤ 63)
        × IsKept (encode_user_identifier to_lower checksum_hex subject)
  unfolding encode_user_identifier
  encode_user_identifier-IsKept subject h =
      let sanitized = sanitize_dns1123 to_lower checksum_hex subject in
      let clean : IsKept sanitized =
        trim-All is_kept (keep_runes (to_lower subject)) (keep_runes-IsKept (to_lower subject)) in
      cut
        (if same_text sanitized subject
          then sanitized
          else checksum_hex subject ++ (dash ∷ sanitized))
        (elim (Bool-cases (same_text sanitized subject)) [
          | inl e ↦ rw e clean
          | inr e ↦
              rw e
                (append-All is_kept (checksum_hex subject) (dash ∷ sanitized) h (kept_dash, clean))
        ])
    where
      kept_dash : is_kept dash ≡ true
      kept_dash = ground arith

      cut :
          (s : List ℕ)
          → IsKept s
          → (length (if ltb 63 (length s) then take 63 s else s) ≤ 63)
            × IsKept (if ltb 63 (length s) then take 63 s else s)
      cut s k = elim (Bool-cases (ltb 63 (length s))) [
        | inl l ↦ rw l (omega (arith, length-take 63 s), take-All is_kept 63 s k)
        | inr l ↦ rw l (ground arith, k)
      ]

  -- A nonempty subject of lower case letters, digits and dashes with no dash at either end, which
  -- lowering leaves alone, gets no checksum: it is cut to 63 characters, and is its own encoding if it has
  -- no more.
  pub encode_user_identifier_clean :
      (subject : List ℕ)
      → to_lower subject ≡ subject
      → IsKept subject
      → starts_well subject ≡ true
      → ends_well subject ≡ true
      → encode_user_identifier to_lower checksum_hex subject
        ≡ (if ltb 63 (length subject) then take 63 subject else subject)
  unfolding encode_user_identifier
  encode_user_identifier_clean subject low kept st en =
      let same : sanitize_dns1123 to_lower checksum_hex subject ≡ subject =
        sanitize-eq_self subject low kept st en in
      rw same (rw same_text_refl refl)
