-- ===== src/Owners.antt =====
-- pkg/owners/fetcher.go: the owners of a Kubernetes object, from the top one to its own. The recursion
-- is on fuel, since the references can be circular: none is a call that has not returned.
pub mod Choice
pub mod Chains
pub mod Tests
use toolchain_common.Base.{
  ℕ, zero, suc, String, ◌<>◌, Bool, true, false, Option, none, some, List, [], ◌∷◌, ◌++◌, ◌==◌,
  string_eq, if◌then◌else◌, Result, ok, err, Error, failed, wrapped,
}
use toolchain_common.ResourceCache.{Discovery, ResourceCache, GroupVersionResource, gvr_for_kind}

-- The fields of metav1.OwnerReference that are read.
pub record OwnerReference : Type 0 where
  pub api_version : String
  pub kind : String
  pub name : String
  pub controller : Option Bool

abbrev pub no_reference : OwnerReference
no_reference = record { api_version = ""; kind = ""; name = ""; controller = none }

-- What is read of a metav1.Object.
pub record Object : Type 0 where
  pub name : String
  pub namespace : String
  pub owner_references : List OwnerReference

pub record ObjectWithGvr : Type 0 where
  pub object : Object
  pub gvr : GroupVersionResource

-- The discovery client, and the dynamic client, which gets an object of a resource by its namespace,
-- if it has one, and its name; `gvr_text` is the `String` method of a resource.
pub record OwnerFetcher : Type 0 where
  pub discovery : Discovery
  pub get_object : GroupVersionResource → Option String → String → Result Object
  pub gvr_text : GroupVersionResource → String

abbrev pub is_controller : OwnerReference → Bool
is_controller ref = elim ref.controller [ none ↦ false | some b ↦ b ]

-- The loop over the references: the controller owner, and the first one that is none.
unfoldable pub find_owners : List OwnerReference → OwnerReference → OwnerReference × OwnerReference
find_owners [] non_controller = (no_reference, non_controller)
find_owners (ref ∷ owners) non_controller =
    let rest = find_owners owners (if non_controller.name == "" then ref else non_controller) in
    if is_controller ref then (ref, non_controller) else rest

unfoldable pub owner_reference : List OwnerReference → OwnerReference
unfolding find_owners
owner_reference owners =
    let (controller, non_controller) = find_owners owners no_reference in
    if controller.name == "" then non_controller else controller

unfoldable pub fetched : String → GroupVersionResource → Result Object → Result ObjectWithGvr
fetched message gvr (err e) = err (wrapped message e)
fetched message gvr (ok object) = ok (record { object = object; gvr = gvr })

-- The owner object, in the namespace of its dependent if its resource has namespaces.
unfoldable pub fetch_owner :
    OwnerFetcher
    → OwnerReference
    → Object
    → Result (Option (GroupVersionResource × Bool))
    → Result ObjectWithGvr
unfolding fetched
fetch_owner o ref obj (err e) = err e
fetch_owner o ref obj (ok none) =
    err (failed ("no resource found for kind " <> (ref.kind <> (" in " <> ref.api_version))))
fetch_owner o ref obj (ok (some (gvr, namespaced))) =
    let nsd_name = if namespaced then obj.namespace <> ("/" <> ref.name) else ref.name in
    fetched ("failed to fetch owner object " <> (nsd_name <> (" " <> o.gvr_text gvr))) gvr
      (o.get_object gvr (if namespaced then some obj.namespace else none) ref.name)

-- What one call does before it calls itself: no owner, the owner object, or the error.
unfoldable pub next_owner :
    OwnerFetcher → Object → ResourceCache → Option (Result ObjectWithGvr) × ResourceCache
unfolding owner_reference fetch_owner gvr_for_kind
next_owner o obj rc =
    let ref = owner_reference obj.owner_references in
    let (found, rc') = gvr_for_kind o.discovery ref.kind ref.api_version rc in
    if ref.name == "" then (none, rc) else (some (fetch_owner o ref obj found), rc')

-- The owners and the error beside them.
abbrev pub Owners : Type 0
Owners = List ObjectWithGvr × Option Error

-- The append behind the recursive call.
abbrev pub append_owner :
    ObjectWithGvr → Option (Owners × ResourceCache) → Option (Owners × ResourceCache)
append_owner owner none = none
append_owner owner (some ((owners, e), rc)) = some ((owners ++ (owner ∷ []), e), rc)

-- The end of a call, with the call of itself as an argument.
unfoldable pub follow :
    (Object → ResourceCache → Option (Owners × ResourceCache))
    → Option (Result ObjectWithGvr) × ResourceCache
    → Option (Owners × ResourceCache)
follow recurse (none, rc) = some (([], none), rc)
follow recurse (some (err e), rc) = some (([], some e), rc)
follow recurse (some (ok owner), rc) = append_owner owner (recurse owner.object rc)

unfoldable pub get_owners :
    ℕ → OwnerFetcher → Object → ResourceCache → Option (Owners × ResourceCache)
unfolding follow next_owner
get_owners zero o obj rc = none
get_owners (suc fuel) o obj rc =
    follow (λ owner rc'. get_owners fuel o owner rc') (next_owner o obj rc)
