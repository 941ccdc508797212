-- ===== src/Owners/Tests.antt =====
-- Runs of pkg/owners and pkg/client/resource_cache.go, and their theorems at concrete data: a pod that
-- a replica set owns, which a deployment owns.
use toolchain_common.Base.{
  ℕ, ◌<◌, String, ◌≡◌, refl, Bool, true, false, Option, none, some, List, [], ◌∷◌, ◌==◌, string_eq,
  ne_of_==, if◌then◌else◌, Result, ok, err, not_found, arith, or_else,
}
use toolchain_common.ResourceCache.{
  ApiResource, Discovery, GroupVersionResource, new_resource_cache, gvr_for_kind, gvk_for_gr,
}
use toolchain_common.ResourceCache.Listing.{gvr_for_kind_stable}
use toolchain_common.Owners.{
  OwnerReference, no_reference, Object, ObjectWithGvr, OwnerFetcher, owner_reference, next_owner,
  get_owners, fetched, fetch_owner,
}
use toolchain_common.Owners.Choice.{controller, first, owner_reference_lem}
use toolchain_common.Owners.Chains.{owner_of, IsChain, get_owners-IsChain, get_owners_circular}

abbrev reference : String → String → Option Bool → OwnerReference
reference kind name is = record {
  api_version = "apps/v1";
  kind = kind;
  name = name;
  controller = is;
}

abbrev deployment : Object
deployment = record { name = "d"; namespace = "ns"; owner_references = [] }

abbrev replica_set : Object
replica_set = record {
  name = "rs";
  namespace = "ns";
  owner_references = reference "Deployment" "d" (some true) ∷ [];
}

abbrev pod_references : List OwnerReference
pod_references = reference "Job" "j" none ∷ reference "ReplicaSet" "rs" (some true) ∷ []

abbrev pod : Object
pod = record { name = "p"; namespace = "ns"; owner_references = pod_references }

-- An object that owns itself.
abbrev knot : Object
knot = record { name = "k"; namespace = "ns"; owner_references = reference "Knot" "k" none ∷ [] }

abbrev resource : String → String → ApiResource
resource name kind = record { name = name; kind = kind; namespaced = true }

abbrev discovery : Discovery
discovery = record {
  parse_group_version = λ text. ok (record { group = "apps"; version = "v1" });
  server_preferred_resources = ok (
      some (
        record {
          group_version = "apps/v1";
          resources =
              resource "deployments" "Deployment"
              ∷ resource "replicasets" "ReplicaSet"
              ∷ resource "knots" "Knot"
              ∷ [];
        }
        ∷ []));
}

abbrev get_object : String → Result Object
get_object name =
    if name == "d"
    then ok deployment
    else (if name == "rs"
        then ok replica_set
        else (if name == "k" then ok knot else err (not_found name)))

abbrev fetcher : OwnerFetcher
fetcher = record {
  discovery = discovery;
  get_object = λ gvr namespace name. get_object name;
  gvr_text = λ gvr. gvr.resource;
}

abbrev apps : String → GroupVersionResource
apps resource = record { group = "apps"; version = "v1"; resource = resource }

owners_of_pod :
    get_owners 3 fetcher pod new_resource_cache
    ≡ some (
      (
        record { object = deployment; gvr = apps "deployments" }
            ∷ record { object = replica_set; gvr = apps "replicasets" }
            ∷ [],
        none,
      ),
      record {
        resource_lists = elim discovery.server_preferred_resources [ err e ↦ none | ok l ↦ l ];
      },
    )
unfolding get_owners string_eq
owners_of_pod = refl

unknown_kind : (gvr_for_kind discovery "Route" "apps/v1" new_resource_cache).0 ≡ ok none
unfolding gvr_for_kind string_eq
unknown_kind = refl

kind_of_resource :
    (gvk_for_gr discovery "apps" "knots" new_resource_cache).0
    ≡ ok (some (record { group = "apps"; version = "v1"; kind = "Knot" }))
unfolding gvk_for_gr string_eq
kind_of_resource = refl

owner_reference_example :
    owner_reference pod_references
    ≡ (elim (or_else (controller pod_references) (first pod_references)) [
      | none ↦ no_reference
      | some ref ↦ ref
    ])
unfolding string_eq
owner_reference_example =
    owner_reference_lem pod_references (ne_of_== "j" "" refl, (ne_of_== "rs" "" refl, tt))

get_owners_circular_example : get_owners 9 fetcher knot new_resource_cache ≡ none
unfolding next_owner string_eq
get_owners_circular_example =
    get_owners_circular 9 fetcher new_resource_cache knot
      (record { object = knot; gvr = apps "knots" }) refl refl

gvr_for_kind_stable_example :
    (gvr_for_kind discovery "Knot" "apps/v1"
      (gvr_for_kind discovery "Pod" "v1" new_resource_cache).1).0
    ≡ (gvr_for_kind discovery "Knot" "apps/v1" new_resource_cache).0
gvr_for_kind_stable_example =
    gvr_for_kind_stable discovery "Knot" "apps/v1" "Pod" "v1" new_resource_cache

-- Every owner is the deployment, which has none.
abbrev flat : OwnerFetcher
flat = record {
  discovery = discovery;
  get_object = λ gvr namespace name. ok deployment;
  gvr_text = λ gvr. gvr.resource;
}

abbrev height : List OwnerReference → ℕ
height [] = 0
height (ref ∷ owners) = 1

fetch_owner-flat :
    (ref : OwnerReference) (obj : Object) (found : Result (Option (GroupVersionResource × Bool)))
    (owner : ObjectWithGvr)
    → fetch_owner flat ref obj found ≡ ok owner
    → height owner.object.owner_references ≡ 0
unfolding fetch_owner fetched
fetch_owner-flat ref obj (err e) owner found = ground arith
fetch_owner-flat ref obj (ok none) owner found = ground arith
fetch_owner-flat ref obj (ok (some (gvr, true))) owner found = ground arith
fetch_owner-flat ref obj (ok (some (gvr, false))) owner found = ground arith

owner_of-flat :
    (references : List OwnerReference) (name namespace : String) (owner : ObjectWithGvr)
    → owner_of flat new_resource_cache
        (record { name = name; namespace = namespace; owner_references = references })
      ≡ some (ok owner)
    → height owner.object.owner_references < height references
unfolding next_owner
owner_of-flat [] name namespace owner found = ground arith
owner_of-flat (ref ∷ references) name namespace owner found = ground (
  arith,
  fetch_owner-flat (owner_reference (ref ∷ references))
      (record { name = name; namespace = namespace; owner_references = ref ∷ references })
      (gvr_for_kind discovery (owner_reference (ref ∷ references)).kind
        (owner_reference (ref ∷ references)).api_version new_resource_cache).0
      owner,
)

get_owners-IsChain_example :
    IsChain (owner_of flat new_resource_cache) pod (get_owners 2 flat pod new_resource_cache)
get_owners-IsChain_example =
    get_owners-IsChain flat (λ obj. height obj.owner_references) new_resource_cache
      (λ obj owner found. owner_of-flat obj.owner_references obj.name obj.namespace owner found) pod
      2 (omega arith)
