-- ===== src/Owners/Chains.antt =====
-- What `GetOwners` of pkg/owners/fetcher.go returns: the chain of owners, and that it returns.
use toolchain_common.Base.{
  ℕ, zero, suc, ◌<◌, ◌≡◌, refl, ◌∙◌, ap, sym, Option, none, some, List, [], ◌∷◌, ◌++◌, Result, ok,
  err, Error, arith, string_eq,
}
use toolchain_common.ResourceCache.{ResourceCache}
use toolchain_common.ResourceCache.Listing.{gvr_for_kind_stable}
use toolchain_common.Owners.{
  Object, ObjectWithGvr, OwnerFetcher, Owners, owner_reference, next_owner, append_owner,
  get_owners, follow,
}

-- The owner of an object: none, the object that owns it, or the error on the way to it.
abbrev pub owner_of : OwnerFetcher → ResourceCache → Object → Option (Result ObjectWithGvr)
owner_of o rc obj = (next_owner o obj rc).0

-- The owners of an object are those of its owner and the owner behind them; the error is the one
-- that ends the chain.
pub data Chain (step : Object → Option (Result ObjectWithGvr)) : Object → Owners → Type 0 where
  top : (obj : Object) → step obj ≡ none → Chain step obj ([], none)
  broken : (obj : Object) (e : Error) → step obj ≡ some (err e) → Chain step obj ([], some e)
  owned :
      (obj : Object) (owner : ObjectWithGvr) (owners : List ObjectWithGvr) (e : Option Error)
      → step obj ≡ some (ok owner)
      → Chain step owner.object (owners, e)
      → Chain step obj (owners ++ (owner ∷ []), e)

-- The lookups of one call do not change what the next finds.
next_owner_stable :
    (o : OwnerFetcher) (obj obj' : Object) (rc : ResourceCache)
    → (next_owner o obj (next_owner o obj' rc).1).0 ≡ (next_owner o obj rc).0
unfolding next_owner
next_owner_stable o obj obj' rc = ground (
  arith,
  gvr_for_kind_stable o.discovery (owner_reference obj.owner_references).kind
      (owner_reference obj.owner_references).api_version
      (owner_reference obj'.owner_references).kind
      (owner_reference obj'.owner_references).api_version rc,
)

-- The result of a call that returns.
abbrev pub IsChain :
    (Object → Option (Result ObjectWithGvr)) → Object → Option (Owners × ResourceCache) → Type 0
IsChain step obj none = ⊥
IsChain step obj (some (r, rc)) = Chain step obj r

module _ (o : OwnerFetcher) (step : Object → Option (Result ObjectWithGvr)) (rank : Object → ℕ)
    (descends : (obj : Object) (owner : ObjectWithGvr)
      → step obj ≡ some (ok owner)
      → rank owner.object < rank obj) where
  IsChain-append_owner :
      (obj : Object) (owner : ObjectWithGvr) (r : Option (Owners × ResourceCache))
      → step obj ≡ some (ok owner)
      → IsChain step owner.object r
      → IsChain step obj (append_owner owner r)
  IsChain-append_owner obj owner none _ m = elim m [ ]
  IsChain-append_owner obj owner (some ((owners, e), rc)) found chain =
      owned obj owner owners e found chain

  follow-IsChain :
      (fuel : ℕ) (obj : Object) (next : Option (Result ObjectWithGvr) × ResourceCache)
      → next.0 ≡ step obj
      → ((owner : Object)
          → rank owner < rank obj
          → IsChain step owner (get_owners fuel o owner next.1))
      → IsChain step obj (follow (λ owner rc. get_owners fuel o owner rc) next)
  unfolding follow
  follow-IsChain fuel obj (none, rc) agrees recurse = top obj (sym agrees)
  follow-IsChain fuel obj (some (err e), rc) agrees recurse = broken obj e (sym agrees)
  follow-IsChain fuel obj (some (ok owner), rc) agrees recurse =
      IsChain-append_owner obj owner (get_owners fuel o owner.object rc) (sym agrees)
        (recurse owner.object (descends obj owner (sym agrees)))

  get_owners-IsChain_from :
      (fuel : ℕ) (obj : Object) (rc : ResourceCache)
      → ((x : Object) → owner_of o rc x ≡ step x)
      → rank obj < fuel
      → IsChain step obj (get_owners fuel o obj rc)
  unfolding get_owners
  get_owners-IsChain_from zero obj rc agrees enough = omega arith
  get_owners-IsChain_from (suc fuel) obj rc agrees enough =
      follow-IsChain fuel obj (next_owner o obj rc) (agrees obj) (λ owner lower.
        get_owners-IsChain_from fuel owner (next_owner o obj rc).1
          (λ x. next_owner_stable o x obj rc ∙ agrees x) (omega arith))

-- When a rank falls from every object to its owner, so that no chain of references is circular, a call
-- on more fuel than the rank of the object returns; and it returns the chain from the top owner to the
-- object's own, with the error that ended it if one did.
pub get_owners-IsChain :
    (o : OwnerFetcher) (rank : Object → ℕ) (rc : ResourceCache)
    → ((obj : Object) (owner : ObjectWithGvr)
        → owner_of o rc obj ≡ some (ok owner)
        → rank owner.object < rank obj)
    → (obj : Object) (fuel : ℕ) → rank obj < fuel
    → IsChain (owner_of o rc) obj (get_owners fuel o obj rc)
get_owners-IsChain o rank rc descends obj fuel enough =
    get_owners-IsChain_from o (owner_of o rc) rank descends fuel obj rc (λ x. refl) enough

follow_endless :
    (recurse : Object → ResourceCache → Option (Owners × ResourceCache))
    (next : Option (Result ObjectWithGvr) × ResourceCache) (owner : ObjectWithGvr)
    → next.0 ≡ some (ok owner)
    → recurse owner.object next.1 ≡ none
    → follow recurse next ≡ none
unfolding follow
follow_endless recurse (none, rc) owner found endless = ground arith
follow_endless recurse (some (err e), rc) owner found endless = ground arith
follow_endless recurse (some (ok x), rc) owner found endless = ground arith

-- A call on an object that is its own owner does not return: no fuel is enough.
pub get_owners_circular :
    (fuel : ℕ) (o : OwnerFetcher) (rc : ResourceCache) (obj : Object) (owner : ObjectWithGvr)
    → owner_of o rc obj ≡ some (ok owner)
    → owner.object ≡ obj
    → get_owners fuel o obj rc ≡ none
unfolding get_owners
get_owners_circular zero o rc obj owner own same = refl
get_owners_circular (suc fuel) o rc obj owner own same =
    follow_endless (λ x rc'. get_owners fuel o x rc') (next_owner o obj rc) owner own
      (ap (λ x. get_owners fuel o x (next_owner o obj rc).1) same
        ∙ get_owners_circular fuel o (next_owner o obj rc).1 obj owner
            (next_owner_stable o obj obj rc ∙ own) same)
