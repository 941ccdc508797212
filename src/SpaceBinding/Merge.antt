-- ===== src/SpaceBinding/Merge.antt =====
-- `mergeSpaceBindings`: the bindings found first override those of the parents, user by user.
use toolchain_common.Base.{
  String, ◌≡◌, ◌≢◌, refl, true, false, Option, none, some, List, [], ◌∷◌, ◌++◌, ◌==◌, string_eq,
  if◌then◌else◌, arith,
}
use toolchain_common.SpaceBinding.{
  SpaceBinding, remove_last, remove_overridden, merge_space_bindings,
}

-- The first binding of a user.
unfoldable pub binding_of : String → List SpaceBinding → Option SpaceBinding
binding_of user [] = none
binding_of user (b ∷ bs) = if b.master_user_record == user then some b else binding_of user bs

-- No user has two bindings.
abbrev pub NodupUsers : List SpaceBinding → Type 0
NodupUsers [] = Unit
NodupUsers (b ∷ bs) = (binding_of b.master_user_record bs ≡ none) × NodupUsers bs

abbrev pub first_of_two : Option SpaceBinding → Option SpaceBinding → Option SpaceBinding
first_of_two none o = o
first_of_two (some b) o = some b

binding_of-append :
    (user : String) (xs ys : List SpaceBinding)
    → binding_of user (xs ++ ys) ≡ first_of_two (binding_of user xs) (binding_of user ys)
unfolding binding_of
binding_of-append user [] ys = refl
binding_of-append user (x ∷ xs) ys = ground (arith, binding_of-append user xs ys)

removed-remove_last :
    (user : String) (bs : List SpaceBinding)
    → (remove_last user bs).1 ≡ false
    → binding_of user bs ≡ none
unfolding binding_of remove_last
removed-remove_last user [] h = refl
removed-remove_last user (b ∷ bs) h = ground (arith, removed-remove_last user bs)

kept-remove_last :
    (user : String) (bs : List SpaceBinding)
    → (remove_last user bs).1 ≡ false
    → (remove_last user bs).0 ≡ bs
unfolding remove_last
kept-remove_last user [] h = refl
kept-remove_last user (b ∷ bs) h = ground (arith, kept-remove_last user bs)

binding_of-ne-none :
    (user : String) (bs : List SpaceBinding)
    → (remove_last user bs).1 ≡ true
    → binding_of user bs ≢ none
unfolding binding_of remove_last
binding_of-ne-none user [] h = cc
binding_of-ne-none user (b ∷ bs) h = ground (arith, binding_of-ne-none user bs)

binding_of-remove_last :
    (user u : String) (bs : List SpaceBinding)
    → NodupUsers bs
    → binding_of u (remove_last user bs).0 ≡ (if user == u then none else binding_of u bs)
unfolding binding_of remove_last
binding_of-remove_last user u [] n = ground arith
binding_of-remove_last user u (b ∷ bs) (fresh, n) = ground (
  arith,
  binding_of-remove_last user u bs n,
  removed-remove_last user bs,
  binding_of-ne-none user bs,
)

NodupUsers-remove_last :
    (user : String) (bs : List SpaceBinding) → NodupUsers bs → NodupUsers (remove_last user bs).0
unfolding remove_last
NodupUsers-remove_last user [] n = n
NodupUsers-remove_last user (b ∷ bs) (fresh, n) =
    ground (
      arith,
      NodupUsers-remove_last user bs n,
      binding_of-remove_last user b.master_user_record bs n,
    )

binding_of-remove_overridden :
    (u : String) (found parents : List SpaceBinding)
    → NodupUsers parents
    → binding_of u (remove_overridden found parents)
      ≡ (elim (binding_of u found) [ none ↦ binding_of u parents | some _ ↦ none ])
unfolding binding_of remove_overridden
binding_of-remove_overridden u [] parents n = refl
binding_of-remove_overridden u (b ∷ found) parents n = ground (
  arith,
  binding_of-remove_overridden u found (remove_last b.master_user_record parents).0
      (NodupUsers-remove_last b.master_user_record parents n),
  binding_of-remove_last b.master_user_record u parents n,
)

NodupUsers-remove_overridden :
    (found parents : List SpaceBinding)
    → NodupUsers parents
    → NodupUsers (remove_overridden found parents)
unfolding remove_overridden
NodupUsers-remove_overridden [] parents n = n
NodupUsers-remove_overridden (b ∷ found) parents n =
    NodupUsers-remove_overridden found (remove_last b.master_user_record parents).0
      (NodupUsers-remove_last b.master_user_record parents n)

NodupUsers-append :
    (xs ys : List SpaceBinding)
    → NodupUsers xs
    → NodupUsers ys
    → ((u : String) (b : SpaceBinding) → binding_of u xs ≡ some b → binding_of u ys ≡ none)
    → NodupUsers (xs ++ ys)
unfolding binding_of
NodupUsers-append [] ys n m apart = m
NodupUsers-append (x ∷ xs) ys (fresh, n) m apart = (
  rw binding_of-append (ground (arith, apart x.master_user_record x)),
  NodupUsers-append xs ys n m (λ u b e. ground (arith, apart u b, apart x.master_user_record x)),
)

module _ (found parents : List SpaceBinding) where
  -- If no user has two bindings from the parent, the merged list holds for each user the binding
  -- found before, if there is one, and otherwise that of the parent.
  pub binding_of-merge :
      NodupUsers parents
      → (user : String)
      → binding_of user (merge_space_bindings found parents)
        ≡ first_of_two (binding_of user found) (binding_of user parents)
  unfolding merge_space_bindings
  binding_of-merge n user = ground (
    arith,
    binding_of-append user found (remove_overridden found parents),
    binding_of-remove_overridden user found parents n,
  )

  -- Merging lists in which no user has two bindings gives such a list.
  pub merge-NodupUsers :
      NodupUsers found → NodupUsers parents → NodupUsers (merge_space_bindings found parents)
  unfolding merge_space_bindings
  merge-NodupUsers nf np =
      NodupUsers-append found (remove_overridden found parents) nf
        (NodupUsers-remove_overridden found parents np)
        λ u b e. ground (arith, binding_of-remove_overridden u found parents np)
