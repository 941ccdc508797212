-- ===== src/ResourceCache.antt =====
-- pkg/client/resource_cache.go: the API resources of a cluster, listed once. A nil list is `none`.
-- The lock around the listing makes it one step.
pub mod Listing
use toolchain_common.Base.{
  String, ◌<>◌, Bool, true, false, Option, none, some, List, [], ◌∷◌, ◌==◌, string_eq,
  if◌then◌else◌, Result, ok, err, Error, wrapped, or_else,
}

pub record ApiResource : Type 0 where
  pub name : String
  pub kind : String
  pub namespaced : Bool

pub record ApiResourceList : Type 0 where
  pub group_version : String
  pub resources : List ApiResource

pub record GroupVersion : Type 0 where
  pub group : String
  pub version : String

pub record GroupVersionResource : Type 0 where
  pub group : String
  pub version : String
  pub resource : String

pub record GroupVersionKind : Type 0 where
  pub group : String
  pub version : String
  pub kind : String

-- What the cache asks of its libraries: `schema.ParseGroupVersion`, and what the discovery client
-- answers, which does not change during a call.
pub record Discovery : Type 0 where
  pub parse_group_version : String → Result GroupVersion
  pub server_preferred_resources : Result (Option (List ApiResourceList))

pub record ResourceCache : Type 0 where
  pub resource_lists : Option (List ApiResourceList)

abbrev pub new_resource_cache : ResourceCache
new_resource_cache = record { resource_lists = none }

abbrev pub listed : ResourceCache → List ApiResourceList
listed rc = elim rc.resource_lists [ none ↦ [] | some lists ↦ lists ]

unfoldable pub store_resources :
    ResourceCache → Result (Option (List ApiResourceList)) → Option Error × ResourceCache
store_resources rc (err e) = (some e, rc)
store_resources rc (ok lists) = (none, record { resource_lists = lists })

unfoldable pub ensure_resource_list : Discovery → ResourceCache → Option Error × ResourceCache
unfolding store_resources
ensure_resource_list d rc = elim rc.resource_lists [
  | none ↦ store_resources rc d.server_preferred_resources
  | some lists ↦ (none, rc)
]

-- The loop over the resources of one list.
unfoldable pub find_kind :
    String → GroupVersion → List ApiResource → Option (GroupVersionResource × Bool)
find_kind kind gv [] = none
find_kind kind gv (res ∷ resources) =
    let rest = find_kind kind gv resources in
    if res.kind == kind
    then some
        (record { group = gv.group; version = gv.version; resource = res.name }, res.namespaced)
    else rest

unfoldable pub search_kind :
    String → String → GroupVersion → List ApiResourceList → Option (GroupVersionResource × Bool)
unfolding find_kind
search_kind kind api_version gv [] = none
search_kind kind api_version gv (list ∷ lists) =
    let rest = search_kind kind api_version gv lists in
    if list.group_version == api_version
    then or_else (find_kind kind gv list.resources) rest
    else rest

unfoldable pub search_version :
    String
    → String
    → Result GroupVersion
    → List ApiResourceList
    → Result (Option (GroupVersionResource × Bool))
unfolding search_kind
search_version kind api_version (err e) lists =
    err (wrapped ("failed to parse APIVersion " <> api_version) e)
search_version kind api_version (ok gv) lists = ok (search_kind kind api_version gv lists)

abbrev answer : {A : Type 0} → Option Error → Result A → Result A
answer (some e) found = err e
answer none found = found

-- `GVRForKind`: the resource and whether it has a namespace, none if it is not found, or the error.
unfoldable pub gvr_for_kind :
    Discovery
    → String
    → String
    → ResourceCache
    → Result (Option (GroupVersionResource × Bool)) × ResourceCache
unfolding ensure_resource_list search_version
gvr_for_kind d kind api_version rc =
    let (e, rc') = ensure_resource_list d rc in
    (
      answer e (search_version kind api_version (d.parse_group_version api_version) (listed rc')),
      rc',
    )

unfoldable pub find_resource : String → GroupVersion → List ApiResource → Option GroupVersionKind
find_resource resource gv [] = none
find_resource resource gv (res ∷ resources) =
    let rest = find_resource resource gv resources in
    if res.name == resource
    then some (record { group = gv.group; version = gv.version; kind = res.kind })
    else rest

-- One turn of the loop in `GVKForGR`, with what the turns behind it give.
unfoldable pub search_list :
    String
    → String
    → ApiResourceList
    → Result GroupVersion
    → Result (Option GroupVersionKind)
    → Result (Option GroupVersionKind)
unfolding find_resource
search_list group resource list (err e) rest =
    err (wrapped ("failed to parse GroupVersion " <> list.group_version) e)
search_list group resource list (ok gv) rest =
    if gv.group == group
    then elim (find_resource resource gv list.resources) [ none ↦ rest | some gvk ↦ ok (some gvk) ]
    else rest

unfoldable pub search_resource :
    Discovery → String → String → List ApiResourceList → Result (Option GroupVersionKind)
unfolding search_list
search_resource d group resource [] = ok none
search_resource d group resource (list ∷ lists) =
    search_list group resource list (d.parse_group_version list.group_version)
      (search_resource d group resource lists)

unfoldable pub gvk_for_gr :
    Discovery → String → String → ResourceCache → Result (Option GroupVersionKind) × ResourceCache
unfolding ensure_resource_list search_resource
gvk_for_gr d group resource rc =
    let (e, rc') = ensure_resource_list d rc in
    (answer e (search_resource d group resource (listed rc')), rc')
