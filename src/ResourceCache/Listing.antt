-- ===== src/ResourceCache/Listing.antt =====
-- What the cache of pkg/client/resource_cache.go promises: one listing serves all calls.
use toolchain_common.Base.{String, ◌≡◌, refl, none, string_eq, arith}
use toolchain_common.ResourceCache.{
  Discovery, ResourceCache, store_resources, ensure_resource_list, gvr_for_kind,
}

store_resources_again :
    (d : Discovery) (rc : ResourceCache)
    → rc.resource_lists ≡ none
    → ensure_resource_list d (store_resources rc d.server_preferred_resources).1
      ≡ store_resources rc d.server_preferred_resources
unfolding ensure_resource_list store_resources
store_resources_again d rc nil = ground arith

-- A second listing finds what the first found.
pub ensure_resource_list_idempotent :
    (d : Discovery) (rc : ResourceCache)
    → ensure_resource_list d (ensure_resource_list d rc).1 ≡ ensure_resource_list d rc
unfolding ensure_resource_list store_resources
ensure_resource_list_idempotent d rc = ground arith

-- Once a kind has been looked up, every other kind is found as it would have been found before.
pub gvr_for_kind_stable :
    (d : Discovery) (kind version kind' version' : String) (rc : ResourceCache)
    → (gvr_for_kind d kind version (gvr_for_kind d kind' version' rc).1).0
      ≡ (gvr_for_kind d kind version rc).0
unfolding gvr_for_kind
gvr_for_kind_stable d kind version kind' version' rc =
    rw (ensure_resource_list_idempotent d rc) refl
