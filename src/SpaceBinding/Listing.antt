-- ===== src/SpaceBinding/Listing.antt =====
-- `ListForSpace`: what it returns over a chain of parents, when it ends, and its errors.
use toolchain_common.Base.{
  ℕ, zero, suc, ◌≤◌, ◌<◌, String, ◌≡◌, refl, ap, ◌∙◌, true, false, Option, none, some, List, [],
  ◌∷◌, string_eq, arith, Result, ok, err, Error, wrapped, length, All, Bool-cases, inl, inr, ◌≢◌,
}
use toolchain_common.SpaceBinding.{
  SpaceBinding, Space, Lister, Listed, is_top, list_from_space, list_for_space,
  merge_space_bindings,
}
use toolchain_common.SpaceBinding.Merge.{
  binding_of, NodupUsers, first_of_two, binding_of-merge, merge-NodupUsers,
}

module _ (l : Lister) where
  -- The Spaces from a Space up to the one where the search stops, with their listed bindings.
  pub data Chain : Space → List (List SpaceBinding) → Type 0 where
    top :
        {s : Space} {bs : List SpaceBinding}
        → is_top s ≡ true
        → l.list_space_bindings s.name ≡ ok bs
        → Chain s (bs ∷ [])
    up :
        {s p : Space} {bs : List SpaceBinding} {rest : List (List SpaceBinding)}
        → is_top s ≡ false
        → l.list_space_bindings s.name ≡ ok bs
        → l.get_space s.parent_space ≡ ok p
        → Chain p rest
        → Chain s (bs ∷ rest)

  -- The Spaces from a Space up to the one at which an error stops the search.
  pub data Broken : Space → List (List SpaceBinding) → Error → Type 0 where
    unlisted : {s : Space} {e : Error} → l.list_space_bindings s.name ≡ err e → Broken s [] e
    unfetched :
        {s : Space} {bs : List SpaceBinding} {e : Error}
        → is_top s ≡ false
        → l.list_space_bindings s.name ≡ ok bs
        → l.get_space s.parent_space ≡ err e
        → Broken s (bs ∷ []) (wrapped "unable to get parent-space" e)
    above :
        {s p : Space} {bs : List SpaceBinding} {rest : List (List SpaceBinding)} {e : Error}
        → is_top s ≡ false
        → l.list_space_bindings s.name ≡ ok bs
        → l.get_space s.parent_space ≡ ok p
        → Broken p rest e
        → Broken s (bs ∷ rest) e

-- The binding of a user that stands nearest to the start of a chain.
abbrev pub nearest : String → List (List SpaceBinding) → Option SpaceBinding
nearest user [] = none
nearest user (bs ∷ rest) = first_of_two (binding_of user bs) (nearest user rest)

-- All lists of the chain, merged in its order.
merge_all : List SpaceBinding → List (List SpaceBinding) → List SpaceBinding
merge_all found [] = found
merge_all found (bs ∷ rest) = merge_all (merge_space_bindings found bs) rest

merge_all-NodupUsers :
    (found : List SpaceBinding) (lists : List (List SpaceBinding))
    → NodupUsers found
    → All NodupUsers lists
    → NodupUsers (merge_all found lists)
unfolding merge_all
merge_all-NodupUsers found [] n ns = n
merge_all-NodupUsers found (bs ∷ rest) n (m, ns) =
    merge_all-NodupUsers (merge_space_bindings found bs) rest (merge-NodupUsers found bs n m) ns

first_of_two_assoc :
    (a b c : Option SpaceBinding)
    → first_of_two (first_of_two a b) c ≡ first_of_two a (first_of_two b c)
first_of_two_assoc none b c = refl
first_of_two_assoc (some a) b c = refl

binding_of-merge_all :
    (user : String) (found : List SpaceBinding) (lists : List (List SpaceBinding))
    → All NodupUsers lists
    → binding_of user (merge_all found lists)
      ≡ first_of_two (binding_of user found) (nearest user lists)
unfolding merge_all
binding_of-merge_all user found [] ns = ground arith
binding_of-merge_all user found (bs ∷ rest) (m, ns) =
    binding_of-merge_all user (merge_space_bindings found bs) rest ns
    ∙ (ap (λ o. first_of_two o (nearest user rest)) (binding_of-merge found bs m user)
        ∙ first_of_two_assoc (binding_of user found) (binding_of user bs) (nearest user rest))

module _ (l : Lister) where
  list_for_space-merge_all :
      {s : Space} {lists : List (List SpaceBinding)}
      → Chain l s lists
      → (fuel : ℕ) (found : List SpaceBinding) → length lists ≤ fuel
      → list_for_space fuel l s found ≡ some (merge_all found lists, none)
  unfolding list_for_space merge_all
  list_for_space-merge_all (top t e) zero found h = absurd (omega arith)
  list_for_space-merge_all (top t e) (suc fuel) found h = ground arith
  list_for_space-merge_all (up t e g c) zero found h = absurd (omega arith)
  list_for_space-merge_all (up {bs = bs} t e g c) (suc fuel) found h =
      ground (arith, list_for_space-merge_all c fuel (merge_space_bindings found bs))

  -- If every Space from the given one up to the top can be read and has at most one binding for a
  -- user, then with fuel for each of them the search succeeds, no user has two bindings in its
  -- result, and each user has there the binding nearest to the given Space, if there is any.
  pub list_for_space-nearest :
      (s : Space) (lists : List (List SpaceBinding)) (fuel : ℕ)
      → Chain l s lists
      → All NodupUsers lists
      → length lists ≤ fuel
      → (bs : List SpaceBinding) × (list_for_space fuel l s [] ≡ some (bs, none))
        × NodupUsers bs
        × ((user : String) → binding_of user bs ≡ nearest user lists)
  unfolding binding_of
  list_for_space-nearest s lists fuel c ns h = (
    merge_all [] lists,
    list_for_space-merge_all c fuel [] h,
    merge_all-NodupUsers [] lists tt ns,
    λ user. binding_of-merge_all user [] lists ns,
  )

  list_for_space-Broken_from :
      {s : Space} {lists : List (List SpaceBinding)} {e : Error}
      → Broken l s lists e
      → (fuel : ℕ) (found : List SpaceBinding) → length lists < fuel
      → list_for_space fuel l s found ≡ some (merge_all found lists, some e)
  unfolding list_for_space merge_all
  list_for_space-Broken_from (unlisted f) zero found h = absurd (omega arith)
  list_for_space-Broken_from (unlisted f) (suc fuel) found h = ground arith
  list_for_space-Broken_from (unfetched t f g) zero found h = absurd (omega arith)
  list_for_space-Broken_from (unfetched t f g) (suc fuel) found h = ground arith
  list_for_space-Broken_from (above t f g c) zero found h = absurd (omega arith)
  list_for_space-Broken_from (above {bs = bs} t f g c) (suc fuel) found h =
      ground (arith, list_for_space-Broken_from c fuel (merge_space_bindings found bs))

  list_from_space-ne-none :
      (list_parent : Space → List SpaceBinding → Option Listed) (s : Space)
      (found : List SpaceBinding) (r : Result (List SpaceBinding)) (parent : Result Space)
      → l.get_space s.parent_space ≡ parent
      → (is_top s ≡ false
          → (p : Space) → parent ≡ ok p
          → (f : List SpaceBinding) → list_parent p f ≢ none)
      → list_from_space l list_parent s found r ≢ none
  unfolding list_from_space
  list_from_space-ne-none list_parent s found (err e) parent g returns = cc
  list_from_space-ne-none list_parent s found (ok bs) (err e) g returns = ground arith
  list_from_space-ne-none list_parent s found (ok bs) (ok p) g returns =
      elim (Bool-cases (is_top s)) [
        | inl t ↦ ground arith
        | inr t ↦ ground (arith, returns t p refl (merge_space_bindings found bs))
      ]

  -- If a rank falls from every Space to the parent that is fetched for it, then more fuel than the
  -- rank of the given Space lets the search return, with bindings or with an error beside them.
  pub list_for_space-ne-none :
      (rank : Space → ℕ)
      → ((s p : Space) → is_top s ≡ false → l.get_space s.parent_space ≡ ok p → rank p < rank s)
      → (fuel : ℕ) (s : Space) (found : List SpaceBinding) → rank s < fuel
      → list_for_space fuel l s found ≢ none
  unfolding list_for_space
  list_for_space-ne-none rank falls zero s found h = absurd (omega arith)
  list_for_space-ne-none rank falls (suc fuel) s found h =
      list_from_space-ne-none (list_for_space fuel l) s found (l.list_space_bindings s.name)
        (l.get_space s.parent_space) refl
        λ t p e f. list_for_space-ne-none rank falls fuel p f (omega (arith, falls s p t e))

  -- If every Space of a kind is listed without error, has a parent and inherits from it, and that
  -- parent can be fetched and is of the kind too, as on a cycle of parents, then no fuel lets the
  -- search from such a Space return.
  pub list_for_space_cycle :
      (Kind : Space → Type 0)
      → ((s : Space)
          → Kind s
          → (is_top s ≡ false)
            × ((bs : List SpaceBinding) × (l.list_space_bindings s.name ≡ ok bs))
            × ((p : Space) × (l.get_space s.parent_space ≡ ok p) × Kind p))
      → (fuel : ℕ) (s : Space) (found : List SpaceBinding) → Kind s
      → list_for_space fuel l s found ≡ none
  unfolding list_for_space
  list_for_space_cycle Kind step zero s found k = refl
  list_for_space_cycle Kind step (suc fuel) s found k =
      let (t, (bs, e), (p, g, kp)) = step s k in
      ground (arith, list_for_space_cycle Kind step fuel p (merge_space_bindings found bs) kp)

  -- If the chain breaks with an error, the error comes back, wrapped if it is that of a fetch, beside
  -- the bindings of the Spaces read until then: no user has two, and each has the nearest one.
  pub list_for_space-Broken :
      (s : Space) (lists : List (List SpaceBinding)) (e : Error) (fuel : ℕ)
      → Broken l s lists e
      → All NodupUsers lists
      → length lists < fuel
      → (bs : List SpaceBinding) × (list_for_space fuel l s [] ≡ some (bs, some e))
        × NodupUsers bs
        × ((user : String) → binding_of user bs ≡ nearest user lists)
  unfolding binding_of
  list_for_space-Broken s lists e fuel b ns h = (
    merge_all [] lists,
    list_for_space-Broken_from b fuel [] h,
    merge_all-NodupUsers [] lists tt ns,
    λ user. binding_of-merge_all user [] lists ns,
  )
