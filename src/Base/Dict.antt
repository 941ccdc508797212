-- ===== src/Base/Dict.antt =====
-- Go maps as association lists. Proofs elsewhere go by the laws; only tests unfold the operations.
use mathlib.Core.Path.{◌≡◌, refl, ◌∙◌, ap, sym}
use mathlib.Core.Option.{Option, none, some}
use mathlib.Core.List.{List, [], ◌∷◌, ◌++◌, map, append-nil, append_assoc}
use native.Mathlib.Omega.{arith}
use toolchain_common.Base.Equality.{Eq, ◌==◌, if◌then◌else◌}

abbrev pub Dict {ℓ κ} : Type ℓ → Type κ → Type (ℓ ⊔ κ)
Dict K V = List (K × V)

unfoldable pub values {ℓ κ} : {K : Type ℓ} {V : Type κ} → Dict K V → List V
values d = map (λ (_, v). v) d

module _ {ℓ κ} {K : Type ℓ} {V : Type κ} ⦃e : Eq K⦄ where
  unfoldable pub lookup : K → Dict K V → Option V
  lookup k [] = none
  lookup k ((j, v) ∷ d) = if k == j then some v else lookup k d

  -- `d[k] = v`
  unfoldable pub insert : K → V → Dict K V → Dict K V
  insert k v [] = (k, v) ∷ []
  insert k v ((j, w) ∷ d) = if k == j then (k, v) ∷ d else (j, w) ∷ insert k v d

  -- `delete(d, k)`
  unfoldable pub erase : K → Dict K V → Dict K V
  erase k [] = []
  erase k ((j, w) ∷ d) = let rest = erase k d in if k == j then rest else (j, w) ∷ rest

  -- `for k, v := range src { dst[k] = v }`
  unfoldable pub insert_all : Dict K V → Dict K V → Dict K V
  insert_all [] dst = dst
  insert_all ((k, v) ∷ src) dst = insert_all src (insert k v dst)

  -- A map holds a key once.
  abbrev pub NodupKeys : Dict K V → Type κ
  NodupKeys [] = Unit
  NodupKeys ((k, _) ∷ d) = (lookup k d ≡ none) × NodupKeys d

  pub lookup-nil : (k : K) → lookup k [] ≡ none
  unfolding lookup
  lookup-nil k = refl

  pub lookup-cons :
      (j k : K) (v : V) (d : Dict K V)
      → lookup j ((k, v) ∷ d) ≡ (if j == k then some v else lookup j d)
  unfolding lookup
  lookup-cons j k v d = refl

  pub lookup-insert :
      (j k : K) (v : V) (d : Dict K V)
      → lookup j (insert k v d) ≡ (if j == k then some v else lookup j d)
  unfolding insert lookup
  lookup-insert j k v [] = refl
  lookup-insert j k v (_ ∷ d) = ground (arith, lookup-insert j k v d)

  pub lookup-erase :
      (j k : K) (d : Dict K V) → lookup j (erase k d) ≡ (if j == k then none else lookup j d)
  unfolding erase lookup
  lookup-erase j k [] = ground arith
  lookup-erase j k (_ ∷ d) = ground (arith, lookup-erase j k d)

  pub insert-NodupKeys : (k : K) (v : V) (d : Dict K V) → NodupKeys d → NodupKeys (insert k v d)
  unfolding insert
  insert-NodupKeys k v [] _ = (lookup-nil k, tt)
  insert-NodupKeys k v ((j, _) ∷ d) (fresh, u) =
      ground (arith, insert-NodupKeys k v d u, lookup-insert j k v d)

  pub erase-NodupKeys : (k : K) (d : Dict K V) → NodupKeys d → NodupKeys (erase k d)
  unfolding erase
  erase-NodupKeys k [] u = u
  erase-NodupKeys k ((j, _) ∷ d) (fresh, u) =
      ground (arith, erase-NodupKeys k d u, lookup-erase j k d)

  -- The entries of the source win.
  pub lookup-insert_all :
      (j : K) (src dst : Dict K V)
      → NodupKeys src
      → lookup j (insert_all src dst)
        ≡ (elim (lookup j src) [ none ↦ lookup j dst | some v ↦ some v ])
  unfolding insert_all lookup
  lookup-insert_all j [] dst u = refl
  lookup-insert_all j ((k, v) ∷ src) dst (fresh, u) =
      ground (arith, lookup-insert_all j src (insert k v dst) u, lookup-insert j k v dst)

  pub lookup-append :
      (j : K) (d rest : Dict K V)
      → lookup j (d ++ rest) ≡ (elim (lookup j d) [ none ↦ lookup j rest | some v ↦ some v ])
  unfolding lookup
  lookup-append j [] rest = refl
  lookup-append j ((k, v) ∷ d) rest = ground (arith, lookup-append j d rest)

  -- A new key goes to the end.
  pub insert_fresh :
      (k : K) (v : V) (d : Dict K V) → lookup k d ≡ none → insert k v d ≡ d ++ ((k, v) ∷ [])
  unfolding insert lookup
  insert_fresh k v [] _ = refl
  insert_fresh k v ((j, w) ∷ d) fresh = ground (arith, insert_fresh k v d)

  -- No key of the first map is a key of the second.
  abbrev pub Fresh : Dict K V → Dict K V → Type κ
  Fresh [] d = Unit
  Fresh ((k, _) ∷ src) d = (lookup k d ≡ none) × Fresh src d

  Fresh-append :
      (k : K) (v : V) (src d : Dict K V)
      → Fresh src d
      → lookup k src ≡ none
      → Fresh src (d ++ ((k, v) ∷ []))
  unfolding lookup
  Fresh-append k v [] d _ _ = tt
  Fresh-append k v ((j, w) ∷ src) d (fresh, rest) absent =
      ground (arith, lookup-append j d ((k, v) ∷ []), Fresh-append k v src d rest)

  insert_all_append :
      (src dst : Dict K V) → NodupKeys src → Fresh src dst → insert_all src dst ≡ dst ++ src
  unfolding insert_all
  insert_all_append [] dst _ _ = sym (append-nil dst)
  insert_all_append ((k, v) ∷ src) dst (absent, u) (fresh, rest) =
      ap (insert_all src) (insert_fresh k v dst fresh)
      ∙ insert_all_append src (dst ++ ((k, v) ∷ [])) u (Fresh-append k v src dst rest absent)
      ∙ append_assoc dst ((k, v) ∷ []) src

  Fresh-nil : (src : Dict K V) → Fresh src []
  Fresh-nil [] = tt
  Fresh-nil ((k, _) ∷ src) = (lookup-nil k, Fresh-nil src)

  -- A map copied entry by entry is the map.
  pub insert_all-nil : (src : Dict K V) → NodupKeys src → insert_all src [] ≡ src
  insert_all-nil src u = insert_all_append src [] u (Fresh-nil src)
