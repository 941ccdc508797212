-- ===== src/UserSignup/NameText.antt =====
-- The characters of the names that `TransformUsername` makes, up to the mark at the start.
use toolchain_common.Base.{
  ℕ, zero, suc, ◌≡◌, ◌≢◌, refl, Bool, true, false, not, ◌&&◌, ◌||◌, List, [], ◌∷◌, ◌++◌, ◌==◌,
  nat_eq, take, drop, arith, All, Bool-cases, inl, inr,
}
use toolchain_common.UserSignup.Text.{
  dash, is_alphanumeric, replace_special, only_numbers, contains_dashes, replace_dashes, has_prefix,
}
use toolchain_common.UserSignup.Username.{crt, collapse_dashes, mark_number, mark_start}

abbrev pub is_name_char : ℕ → Bool
is_name_char c = is_alphanumeric c || c == dash

abbrev pub IsNameText : List ℕ → Type 0
IsNameText = All (λ c. is_name_char c ≡ true)

abbrev pub starts_well : List ℕ → Bool
starts_well [] = false
starts_well (c ∷ s) = not (c == dash)

abbrev pub ends_well : List ℕ → Bool
ends_well [] = false
ends_well (c ∷ []) = not (c == dash)
ends_well (c ∷ d ∷ s) = ends_well (d ∷ s)

pub record IsName (s : List ℕ) : Type 0 where
  pub text : IsNameText s
  pub starts : starts_well s ≡ true
  pub ends : ends_well s ≡ true

pub crt-IsNameText : IsNameText crt
unfolding is_alphanumeric
crt-IsNameText = (refl, (refl, (refl, tt)))

pub append-IsNameText : (s t : List ℕ) → IsNameText s → IsNameText t → IsNameText (s ++ t)
append-IsNameText [] t h k = k
append-IsNameText (c ∷ s) t (x, h) k = (x, append-IsNameText s t h k)

pub take-IsNameText : (n : ℕ) (s : List ℕ) → IsNameText s → IsNameText (take n s)
take-IsNameText zero s h = tt
take-IsNameText (suc n) [] h = tt
take-IsNameText (suc n) (c ∷ s) (x, h) = (x, take-IsNameText n s h)

pub drop-IsNameText : (n : ℕ) (s : List ℕ) → IsNameText s → IsNameText (drop n s)
drop-IsNameText zero s h = h
drop-IsNameText (suc n) [] h = tt
drop-IsNameText (suc n) (c ∷ s) (x, h) = drop-IsNameText n s h

pub replace_special-IsNameText : (s : List ℕ) → IsNameText (replace_special s)
unfolding replace_special
replace_special-IsNameText [] = tt
replace_special-IsNameText (c ∷ s) = (
  elim (Bool-cases (is_alphanumeric c)) [ inl e ↦ rw (e, e) refl | inr e ↦ rw e (ground arith) ],
  replace_special-IsNameText s,
)

replace_dashes-IsNameText : (s : List ℕ) → IsNameText s → IsNameText (replace_dashes s)
unfolding replace_dashes
replace_dashes-IsNameText [] h = h
replace_dashes-IsNameText (c ∷ []) h = h
replace_dashes-IsNameText (c ∷ d ∷ s) (x, (y, h)) = elim (Bool-cases (c == dash && d == dash)) [
  | inl e ↦ rw e (ground arith, replace_dashes-IsNameText s h)
  | inr e ↦ rw e (x, replace_dashes-IsNameText (d ∷ s) (y, h))
]

replace_dashes-ne-nil : (s : List ℕ) → s ≢ [] → replace_dashes s ≢ []
unfolding replace_dashes
replace_dashes-ne-nil [] h = h
replace_dashes-ne-nil (c ∷ []) h = h
replace_dashes-ne-nil (c ∷ d ∷ s) h = ground arith

pub collapse_dashes-IsNameText :
    (fuel : ℕ) (s : List ℕ) → IsNameText s → IsNameText (collapse_dashes fuel s)
unfolding collapse_dashes
collapse_dashes-IsNameText zero s h = h
collapse_dashes-IsNameText (suc fuel) s h = elim (Bool-cases (contains_dashes s)) [
  | inl e ↦
      rw e (collapse_dashes-IsNameText fuel (replace_dashes s) (replace_dashes-IsNameText s h))
  | inr e ↦ rw e h
]

pub collapse_dashes-ne-nil : (fuel : ℕ) (s : List ℕ) → s ≢ [] → collapse_dashes fuel s ≢ []
unfolding collapse_dashes
collapse_dashes-ne-nil zero s h = h
collapse_dashes-ne-nil (suc fuel) s h = elim (Bool-cases (contains_dashes s)) [
  | inl e ↦ rw e (collapse_dashes-ne-nil fuel (replace_dashes s) (replace_dashes-ne-nil s h))
  | inr e ↦ rw e h
]

pub mark_number-IsNameText : (s : List ℕ) → IsNameText s → IsNameText (mark_number s)
unfolding mark_number
mark_number-IsNameText s h = elim (Bool-cases (only_numbers s)) [
  | inl e ↦ rw e (append-IsNameText crt (dash ∷ s) crt-IsNameText (ground arith, h))
  | inr e ↦ rw e h
]

pub mark_number-ne-nil : (s : List ℕ) → mark_number s ≢ []
unfolding mark_number only_numbers
mark_number-ne-nil [] = ground arith
mark_number-ne-nil (c ∷ s) = ground arith

pub mark_start-IsNameText : (s : List ℕ) → IsNameText s → IsNameText (mark_start s)
unfolding mark_start
mark_start-IsNameText s h = elim (Bool-cases (has_prefix s (dash ∷ []))) [
  | inl e ↦ rw e (append-IsNameText crt s crt-IsNameText h)
  | inr e ↦ rw e h
]

pub mark_start_starts : (s : List ℕ) → s ≢ [] → starts_well (mark_start s) ≡ true
unfolding mark_start has_prefix
mark_start_starts [] ne = absurd (ne refl)
mark_start_starts (c ∷ s) ne = ground arith
