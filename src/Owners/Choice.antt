-- ===== src/Owners/Choice.antt =====
-- Which reference pkg/owners/fetcher.go follows.
use toolchain_common.Base.{
  ◌≡◌, ◌≢◌, Option, none, some, List, [], ◌∷◌, ◌==◌, string_eq, if◌then◌else◌, arith, All, or_else,
}
use toolchain_common.Owners.{
  OwnerReference, no_reference, is_controller, find_owners, owner_reference,
}

-- The first controller.
abbrev pub controller : List OwnerReference → Option OwnerReference
controller [] = none
controller (ref ∷ owners) = if is_controller ref then some ref else controller owners

abbrev pub first : List OwnerReference → Option OwnerReference
first [] = none
first (ref ∷ owners) = some ref

abbrev pub AreNamed : List OwnerReference → Type 0
AreNamed owners = All (λ ref. ref.name ≢ "") owners

-- The controller, or else the reference that was already found.
find_owners_found :
    (owners : List OwnerReference) (found : OwnerReference)
    → AreNamed owners
    → found.name ≢ ""
    → (let (c, n) = find_owners owners found in if c.name == "" then n else c)
      ≡ (elim (controller owners) [ none ↦ found | some ref ↦ ref ])
unfolding find_owners
find_owners_found [] found _ named = ground arith
find_owners_found (ref ∷ owners) found (named, all_named) found_named =
    ground (arith, find_owners_found owners found all_named found_named)

-- For references that have names, the owner that is followed is the first controller, or the first of
-- all references when none is a controller, or no reference when there is none.
pub owner_reference_lem :
    (owners : List OwnerReference)
    → AreNamed owners
    → owner_reference owners
      ≡ (elim (or_else (controller owners) (first owners)) [ none ↦ no_reference | some ref ↦ ref ])
unfolding owner_reference find_owners
owner_reference_lem [] _ = ground arith
owner_reference_lem (ref ∷ owners) (named, all_named) =
    ground (arith, find_owners_found owners ref all_named named)
