-- ===== src/Tiers/ReferenceLaws.antt =====
-- The parameters through which an NSTemplateTier refers to the TierTemplates.
use Prim.Native.Char.{Char}
use toolchain_common.Base.{
  String, ◌<>◌, ◌≡◌, refl, ◌∙◌, ap, Bool, true, false, some, List, [], ◌∷◌, ◌++◌, ◌==◌, string_eq,
  if◌then◌else◌, arith, In, inl, inr, eq_of_==, ==_refl, Bool-cases, chars, chars-append, same_char,
}
use toolchain_common.Base.Dict.{Dict, lookup, insert, lookup-insert}
use toolchain_common.Tiers.Files.{TierTemplate}
use toolchain_common.Tiers.TierTemplates.{Generator}
use toolchain_common.Tiers.NsTemplateTiers.{reference_key, reference_params, tier_params}

-- The documented keys: CLUSTER_TEMPL_REF for the cluster resources, and else the type in upper case.
abbrev pub key_of : {B O P : Type 0} → Generator B O P → TierTemplate O → String
key_of t tmpl =
    if tmpl.type == t.cluster_resources_template_type
    then "CLUSTER_TEMPL_REF"
    else t.to_upper tmpl.type <> "_TEMPL_REF"

-- No TierTemplate of the list has the key.
abbrev pub IsFreeKey : {B O P : Type 0} → Generator B O P → String → List (TierTemplate O) → Type 0
IsFreeKey t k [] = Unit
IsFreeKey t k (x ∷ xs) = ((k == key_of t x) ≡ false) × IsFreeKey t k xs

abbrev pub DistinctKeys : {B O P : Type 0} → Generator B O P → List (TierTemplate O) → Type 0
DistinctKeys t [] = Unit
DistinctKeys t (x ∷ xs) = IsFreeKey t (key_of t x) xs × DistinctKeys t xs

-- The keys end in another letter than NAMESPACE.
abbrev last : Char → List Char → Char
last c [] = c
last c (d ∷ s) = last d s

last-append :
    (c : Char) (xs : List Char) (d : Char) (ys : List Char) → last c (xs ++ (d ∷ ys)) ≡ last d ys
last-append c [] d ys = refl
last-append c (x ∷ xs) d ys = last-append x xs d ys

-- The last letter of a text tells it from NAMESPACE.
ends_in_e : String → Bool
ends_in_e s = same_char (last "." (chars s)) "E"

ends_in_e-append : (u : String) → ends_in_e (u <> "_TEMPL_REF") ≡ false
unfolding ends_in_e same_char string_eq
ends_in_e-append u =
    ap (λ cs. same_char (last "." cs) "E") (chars-append u "_TEMPL_REF")
    ∙ ap (λ c. same_char c "E") (last-append "." (chars u) "_" (chars "TEMPL_REF"))

key_ne : (key : String) → ends_in_e key ≡ false → ("NAMESPACE" == key) ≡ false
unfolding ends_in_e same_char string_eq
key_ne key other = elim (Bool-cases ("NAMESPACE" == key)) [
  | inl same ↦ absurd (true_or_false (ap ends_in_e (eq_of_== "NAMESPACE" key same) ∙ other))
  | inr different ↦ different
]
  where
    true_or_false : true ≡ false → ⊥
    true_or_false e = ground arith

module _ {B O P : Type 0} (t : Generator B O P) where
  reference_key-eq-key_of : (x : TierTemplate O) → reference_key t x.type ≡ key_of t x
  unfolding reference_key
  reference_key-eq-key_of x = refl

  lookup-reference_params_free :
      (k : String) (xs : List (TierTemplate O)) (params : Dict String String)
      → IsFreeKey t k xs
      → lookup k (reference_params t xs params) ≡ lookup k params
  unfolding reference_params
  lookup-reference_params_free k [] params free = refl
  lookup-reference_params_free k (x ∷ xs) params (other, free) =
      lookup-reference_params_free k xs (insert (reference_key t x.type) x.name params) free
      ∙ lookup-insert k (reference_key t x.type) x.name params
      ∙ ground (arith, reference_key-eq-key_of x)

  lookup-reference_params :
      (xs : List (TierTemplate O)) (params : Dict String String) (x : TierTemplate O)
      → DistinctKeys t xs
      → In x xs
      → lookup (key_of t x) (reference_params t xs params) ≡ some x.name
  unfolding reference_params
  lookup-reference_params [] params x distinct there = absurd there
  lookup-reference_params (y ∷ xs) params x (free, distinct) (inr later) =
      lookup-reference_params xs (insert (reference_key t y.type) y.name params) x distinct later
  lookup-reference_params (y ∷ xs) params x (free, distinct) (inl now) =
      ap (λ z. lookup (key_of t z) (reference_params t (y ∷ xs) params)) now
      ∙ lookup-reference_params_free (key_of t y) xs (insert (reference_key t y.type) y.name params)
          free
      ∙ lookup-insert (key_of t y) (reference_key t y.type) y.name params
      ∙ ground (arith, reference_key-eq-key_of y, ==_refl (key_of t y), now)

  key_of_ne : (x : TierTemplate O) → ("NAMESPACE" == key_of t x) ≡ false
  unfolding string_eq
  key_of_ne x = choose (x.type == t.cluster_resources_template_type)
    where
      choose :
          (b : Bool)
          → ("NAMESPACE" == (if b then "CLUSTER_TEMPL_REF" else t.to_upper x.type <> "_TEMPL_REF"))
            ≡ false
      choose true = refl
      choose false =
          key_ne (t.to_upper x.type <> "_TEMPL_REF") (ends_in_e-append (t.to_upper x.type))

  namespace_free : (xs : List (TierTemplate O)) → IsFreeKey t "NAMESPACE" xs
  namespace_free [] = tt
  namespace_free (x ∷ xs) = (key_of_ne x, namespace_free xs)

  -- The parameters of an NSTemplateTier give to NAMESPACE the generator's namespace. If no two of the tier's
  -- TierTemplates have one key, they give to the key of each its name: to CLUSTER_TEMPL_REF that of the
  -- cluster resources, and to the type in upper case with _TEMPL_REF that of any other.
  pub lookup-tier_params :
      (xs : List (TierTemplate O))
      → (lookup "NAMESPACE" (tier_params t xs) ≡ some t.namespace)
        × (DistinctKeys t xs
            → (x : TierTemplate O) → In x xs
            → lookup (key_of t x) (tier_params t xs) ≡ some x.name)
  unfolding tier_params
  lookup-tier_params xs = (
    lookup-reference_params_free "NAMESPACE" xs (insert "NAMESPACE" t.namespace [])
          (namespace_free xs)
        ∙ lookup-insert "NAMESPACE" "NAMESPACE" t.namespace []
        ∙ rw (==_refl {A = String} "NAMESPACE") refl,
    λ distinct x there.
        lookup-reference_params xs (insert "NAMESPACE" t.namespace []) x distinct there,
  )
