-- ===== src/UserSignup/NameLaws.antt =====
-- The shape of the names that `TransformUsername` makes: letters, digits and dashes, with no dash at
-- either end.
use toolchain_common.Base.{
  ℕ, zero, suc, ◌<◌, ◌≡◌, ◌≢◌, refl, Bool, true, false, List, [], ◌∷◌, ◌++◌, ◌==◌, nat_eq, ltb,
  length, take, drop, arith, Bool-cases, ◌⊎◌, inl, inr,
}
use toolchain_common.UserSignup.Text.{
  dash, is_alphanumeric, has_prefix, has_suffix, same_text, trim, trim_left, trim_right,
  cons_trimmed,
}
use toolchain_common.UserSignup.Username.{
  max_length, max_length_with_prefix, crt, collapse_dashes, replaced, mark_number, mark_start,
  mark_end, avoid_prefixes, avoid_suffixes, shorten, compliant, transform_username,
}
use toolchain_common.UserSignup.NameText.{
  IsNameText, starts_well, ends_well, IsName, crt-IsNameText, append-IsNameText, take-IsNameText,
  drop-IsNameText, replace_special-IsNameText, collapse_dashes-IsNameText, collapse_dashes-ne-nil,
  mark_number-IsNameText, mark_number-ne-nil, mark_start-IsNameText, mark_start_starts,
}

ends_well_of_suffix : (s : List ℕ) → s ≢ [] → has_suffix s (dash ∷ []) ≡ false → ends_well s ≡ true
unfolding has_suffix same_text
ends_well_of_suffix [] ne h = absurd (ne refl)
ends_well_of_suffix (c ∷ []) ne h = ground arith
ends_well_of_suffix (c ∷ d ∷ s) ne h = ends_well_of_suffix (d ∷ s) (λ p. cc) (ground arith)

ends_well-append : (s t : List ℕ) → ends_well t ≡ true → ends_well (s ++ t) ≡ true
ends_well-append [] t h = h
ends_well-append (c ∷ []) (d ∷ t) h = h
ends_well-append (c ∷ []) [] h = cc
ends_well-append (c ∷ d ∷ s) t h = ends_well-append (d ∷ s) t h

starts_well-append : (s t : List ℕ) → starts_well s ≡ true → starts_well (s ++ t) ≡ true
starts_well-append [] t h = cc
starts_well-append (c ∷ s) t h = h

ne-nil : (s : List ℕ) → starts_well s ≡ true → s ≢ []
ne-nil s st p = ground arith

mark_end-IsName : (s : List ℕ) → IsNameText s → starts_well s ≡ true → IsName (mark_end s)
unfolding mark_end
mark_end-IsName s h st = elim (Bool-cases (has_suffix s (dash ∷ []))) [
  | inl e ↦ rw e (record {
    text = append-IsNameText s crt h crt-IsNameText;
    starts = starts_well-append s crt st;
    ends = ends_well-append s crt (ground arith);
  })
  | inr e ↦ rw e (record { text = h; starts = st; ends = ends_well_of_suffix s (ne-nil s st) e })
]

trim_right-IsNameText : (s : List ℕ) → IsNameText s → IsNameText (trim_right s)
unfolding trim_right
trim_right-IsNameText [] h = tt
trim_right-IsNameText (c ∷ s) (x, h) = on_rest (trim_right s) (trim_right-IsNameText s h)
  where
    on_rest : (r : List ℕ) → IsNameText r → IsNameText (cons_trimmed c r)
    on_rest [] k = elim (Bool-cases (c == dash)) [ inl e ↦ rw e tt | inr e ↦ rw e (x, tt) ]
    on_rest (d ∷ r) k = (x, k)

trim_right_ends : (s : List ℕ) → (trim_right s ≡ []) ⊎ (ends_well (trim_right s) ≡ true)
unfolding trim_right
trim_right_ends [] = inl refl
trim_right_ends (c ∷ s) = on_rest (trim_right s) (trim_right_ends s)
  where
    on_rest :
        (r : List ℕ)
        → (r ≡ []) ⊎ (ends_well r ≡ true)
        → (cons_trimmed c r ≡ []) ⊎ (ends_well (cons_trimmed c r) ≡ true)
    on_rest [] k = elim (Bool-cases (c == dash)) [
      | inl e ↦ inl (rw e)
      | inr e ↦ inr (rw e (rw e refl))
    ]
    on_rest (d ∷ r) k = ground arith

starts_well-trim_right : (s : List ℕ) → starts_well s ≡ true → starts_well (trim_right s) ≡ true
unfolding trim_right
starts_well-trim_right [] st = cc
starts_well-trim_right (c ∷ s) st = on_rest (trim_right s)
  where
    on_rest : (r : List ℕ) → starts_well (cons_trimmed c r) ≡ true
    on_rest [] = ground arith
    on_rest (d ∷ r) = st

trim_left_of_start : (s : List ℕ) → starts_well s ≡ true → trim_left s ≡ s
unfolding trim_left
trim_left_of_start [] st = cc
trim_left_of_start (c ∷ s) st = ground arith

trim-IsName : (s : List ℕ) → IsNameText s → starts_well s ≡ true → IsName (trim s)
unfolding trim
trim-IsName s h st = rw (trim_left_of_start s st) (record {
  text = trim_right-IsNameText s h;
  starts = starts_well-trim_right s st;
  ends = elim (trim_right_ends s) [
    | inl e ↦ absurd (ne-nil (trim_right s) (starts_well-trim_right s st) e)
    | inr e ↦ e
  ];
})

starts_well-take : (n : ℕ) (s : List ℕ) → starts_well s ≡ true → starts_well (take (suc n) s) ≡ true
starts_well-take n [] h = h
starts_well-take n (c ∷ s) h = h

ends_well-drop :
    (n : ℕ) (s : List ℕ) → n < length s → ends_well s ≡ true → ends_well (drop n s) ≡ true
ends_well-drop zero s l h = h
ends_well-drop (suc n) [] l h = h
ends_well-drop (suc n) (c ∷ []) l h = absurd (omega arith)
ends_well-drop (suc n) (c ∷ d ∷ s) l h = ends_well-drop n (d ∷ s) (omega arith) h

ends_well-cons : (c : ℕ) (s : List ℕ) → ends_well s ≡ true → ends_well (c ∷ s) ≡ true
ends_well-cons c [] h = cc
ends_well-cons c (d ∷ s) h = h

-- A prefix put before a text that ends well, and a suffix behind one that starts well.
crt_before-IsName : (s : List ℕ) → IsNameText s → ends_well s ≡ true → IsName (crt ++ (dash ∷ s))
unfolding is_alphanumeric nat_eq
crt_before-IsName s h e = record {
  text = append-IsNameText crt (dash ∷ s) crt-IsNameText (refl, h);
  starts = refl;
  ends = ends_well-append crt (dash ∷ s) (ends_well-cons dash s e);
}

crt_behind-IsName : (s : List ℕ) → IsNameText s → starts_well s ≡ true → IsName (s ++ (dash ∷ crt))
unfolding is_alphanumeric nat_eq
crt_behind-IsName s h st = record {
  text = append-IsNameText s (dash ∷ crt) h (refl, crt-IsNameText);
  starts = starts_well-append s (dash ∷ crt) st;
  ends = ends_well-append s (dash ∷ crt) refl;
}

avoid_prefixes-IsName :
    (prefixes : List (List ℕ)) (s : List ℕ) → IsName s → IsName (avoid_prefixes prefixes s)
unfolding avoid_prefixes
avoid_prefixes-IsName [] s n = n
avoid_prefixes-IsName (p ∷ ps) s n = elim (Bool-cases (has_prefix s p)) [
  | inl e ↦ rw e (elim (Bool-cases (ltb max_length_with_prefix (length s))) [
    | inl l ↦ rw l (
        crt_before-IsName (drop 3 s) (drop-IsNameText 3 s n.text)
          (ends_well-drop 3 s (ground arith) n.ends))
    | inr l ↦ rw l (crt_before-IsName s n.text n.ends)
  ])
  | inr e ↦ rw e (avoid_prefixes-IsName ps s n)
]

avoid_suffixes-IsName :
    (suffixes : List (List ℕ)) (s : List ℕ) → IsName s → IsName (avoid_suffixes suffixes s)
unfolding avoid_suffixes
avoid_suffixes-IsName [] s n = n
avoid_suffixes-IsName (p ∷ ps) s n = elim (Bool-cases (has_suffix s p)) [
  | inl e ↦ rw e (elim (Bool-cases (ltb max_length_with_prefix (length s))) [
    | inl l ↦ rw l (
        crt_behind-IsName (take 16 s) (take-IsNameText 16 s n.text)
          (starts_well-take 15 s n.starts))
    | inr l ↦ rw l (crt_behind-IsName s n.text n.starts)
  ])
  | inr e ↦ rw e (avoid_suffixes-IsName ps s n)
]

module _ (is_dns1123_label : List ℕ → Bool) where
  -- A DNS-1123 label does not end with a dash.
  abbrev pub LabelsEndWell : Type 0
  LabelsEndWell = (s : List ℕ) → is_dns1123_label s ≡ true → ends_well s ≡ true

  shorten-IsName : LabelsEndWell → (s : List ℕ) → IsName s → IsName (shorten is_dns1123_label s)
  unfolding shorten
  shorten-IsName labels s n = elim (Bool-cases (ltb max_length (length s))) [
    | inl l ↦ rw l (elim (Bool-cases (is_dns1123_label (take 20 s))) [
      | inl e ↦ rw e (record {
        text = take-IsNameText 20 s n.text;
        starts = starts_well-take 19 s n.starts;
        ends = labels (take 20 s) e;
      })
      | inr e ↦
          rw e
            (trim-IsName (take 20 s) (take-IsNameText 20 s n.text) (starts_well-take 19 s n.starts))
    ])
    | inr l ↦ rw l n
  ]

  replaced-IsNameText : (username : List ℕ) → IsNameText (replaced username)
  unfolding replaced
  replaced-IsNameText username = replace_special-IsNameText _

  compliant-IsName :
      LabelsEndWell → (username : List ℕ) → IsName (compliant is_dns1123_label username)
  unfolding compliant
  compliant-IsName labels username =
      let marked = mark_number (replaced username) in
      let collapsed = collapse_dashes (length marked) marked in
      let text : IsNameText collapsed =
        collapse_dashes-IsNameText (length marked) marked
          (mark_number-IsNameText (replaced username) (replaced-IsNameText username)) in
      shorten-IsName labels (mark_end (mark_start collapsed)) (
        mark_end-IsName (mark_start collapsed) (mark_start-IsNameText collapsed text) (
          mark_start_starts collapsed (
            collapse_dashes-ne-nil (length marked) marked
              (mark_number-ne-nil (replaced username)))))

  -- Whatever the user name and the forbidden prefixes and suffixes are, if no DNS-1123 label ends with
  -- a dash, then the transformed name consists of ASCII letters, digits and dashes, has at least one
  -- character, and neither starts nor ends with a dash.
  pub transform_username-IsName :
      (username : List ℕ) (prefixes suffixes : List (List ℕ))
      → LabelsEndWell
      → IsName (transform_username is_dns1123_label username prefixes suffixes)
  unfolding transform_username
  transform_username-IsName username prefixes suffixes labels =
      avoid_suffixes-IsName suffixes (avoid_prefixes prefixes (compliant is_dns1123_label username))
        (avoid_prefixes-IsName prefixes (compliant is_dns1123_label username)
          (compliant-IsName labels username))
