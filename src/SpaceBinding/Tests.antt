-- ===== src/SpaceBinding/Tests.antt =====
-- Runs of pkg/spacebinding, and its theorems at concrete data.
use toolchain_common.Base.{
  ℕ, ◌≤◌, ◌<◌, String, ◌≡◌, ◌≢◌, refl, false, none, some, List, [], ◌∷◌, map, ◌==◌, string_eq,
  if◌then◌else◌, arith, ok, err, not_found, wrapped, ne_of_==, ==_refl, text_length,
}
use toolchain_common.Base.Dict.{lookup}
use toolchain_common.SpaceBinding.{
  SpaceBinding, Space, Lister, MasterUserRecord, BindingNames, space_binding_name,
  new_space_binding, with_role, merge_space_bindings, list_for_space, is_top, remove_last,
  remove_overridden,
}
use toolchain_common.SpaceBinding.Merge.{binding_of, NodupUsers, binding_of-merge, merge-NodupUsers}
use toolchain_common.SpaceBinding.Listing.{
  Chain, top, up, Broken, unfetched, nearest, list_for_space-nearest, list_for_space-ne-none,
  list_for_space_cycle, list_for_space-Broken,
}
use toolchain_common.SpaceBinding.Naming.{text_length-space_binding_name, new_space_binding_lem}

abbrev binding : String → String → String → SpaceBinding
binding space user role = record {
  namespace = "host";
  name = "b";
  labels = [];
  master_user_record = user;
  space = space;
  space_role = role;
}

abbrev space : String → String → Space
space name parent = record { name = name; parent_space = parent; disable_inheritance = false }

-- A child, its parent, a Space that is its own parent, and one whose parent is missing.
abbrev lister : Lister
lister = record {
  list_space_bindings = λ name.
      if name == "child"
      then ok (binding "child" "ann" "viewer" ∷ [])
      else if name == "parent"
      then ok (binding "parent" "ann" "admin" ∷ binding "parent" "bob" "admin" ∷ [])
      else ok [];
  get_space = λ name.
      if name == "parent"
      then ok (space "parent" "")
      else if name == "loop"
      then ok (space "loop" "loop")
      else err (not_found name);
}

child_run :
    list_for_space 2 lister (space "child" "parent") []
    ≡ some (binding "child" "ann" "viewer" ∷ binding "parent" "bob" "admin" ∷ [], none)
unfolding list_for_space merge_space_bindings remove_overridden remove_last string_eq
child_run = refl

abbrev of_child : List SpaceBinding
of_child = binding "child" "ann" "viewer" ∷ []

abbrev of_parent : List SpaceBinding
of_parent = binding "parent" "ann" "admin" ∷ binding "parent" "bob" "admin" ∷ []

of_child-NodupUsers : NodupUsers of_child
unfolding binding_of
of_child-NodupUsers = (refl, tt)

of_parent-NodupUsers : NodupUsers of_parent
unfolding binding_of string_eq
of_parent-NodupUsers = (refl, (refl, tt))

binding_of-merge_example :
    binding_of "ann" (merge_space_bindings of_child of_parent)
    ≡ some (binding "child" "ann" "viewer")
unfolding binding_of string_eq
binding_of-merge_example = binding_of-merge of_child of_parent of_parent-NodupUsers "ann"

merge-NodupUsers_example : NodupUsers (merge_space_bindings of_child of_parent)
merge-NodupUsers_example =
    merge-NodupUsers of_child of_parent of_child-NodupUsers of_parent-NodupUsers

child_Chain : Chain lister (space "child" "parent") (of_child ∷ of_parent ∷ [])
unfolding string_eq
child_Chain = up {p = space "parent" ""} refl refl refl (top refl refl)

list_for_space-nearest_example :
    (bs : List SpaceBinding) × (list_for_space 2 lister (space "child" "parent") []
      ≡ some (bs, none))
    × NodupUsers bs
    × ((user : String) → binding_of user bs ≡ nearest user (of_child ∷ of_parent ∷ []))
list_for_space-nearest_example =
    list_for_space-nearest lister (space "child" "parent") (of_child ∷ of_parent ∷ []) 2 child_Chain
      (of_child-NodupUsers, (of_parent-NodupUsers, tt)) (omega arith)

-- Every parent that the getter below gives has no parent itself.
abbrev flat_lister : Lister
flat_lister = record lister { get_space = λ name. ok (space name "") }

abbrev rank : Space → ℕ
rank s = if is_top s then 0 else 1

flat_rank :
    (s p : Space) → is_top s ≡ false → flat_lister.get_space s.parent_space ≡ ok p → rank p < rank s
flat_rank s p t e = ground (arith, ==_refl {A = String} "")

list_for_space-ne-none_example : list_for_space 2 flat_lister (space "child" "parent") [] ≢ none
unfolding string_eq
list_for_space-ne-none_example =
    list_for_space-ne-none flat_lister rank flat_rank 2 (space "child" "parent") [] (omega arith)

abbrev IsLoop : Space → Type 0
IsLoop s = s ≡ space "loop" "loop"

IsLoop-step :
    (s : Space)
    → IsLoop s
    → (is_top s ≡ false)
      × ((bs : List SpaceBinding) × (lister.list_space_bindings s.name ≡ ok bs))
      × ((p : Space) × (lister.get_space s.parent_space ≡ ok p) × IsLoop p)
unfolding string_eq
IsLoop-step s e = rw e (refl, ([], refl), (space "loop" "loop", refl, refl))

list_for_space_cycle_example : list_for_space 9 lister (space "loop" "loop") [] ≡ none
list_for_space_cycle_example =
    list_for_space_cycle lister IsLoop IsLoop-step 9 (space "loop" "loop") [] refl

orphan_Broken :
    Broken lister
      (space "child" "gone")
      (of_child ∷ [])
      (wrapped "unable to get parent-space" (not_found "gone"))
unfolding string_eq
orphan_Broken = unfetched refl refl refl

list_for_space-Broken_example :
    (bs : List SpaceBinding) × (list_for_space 2 lister (space "child" "gone") []
      ≡ some (bs, some (wrapped "unable to get parent-space" (not_found "gone"))))
    × NodupUsers bs
    × ((user : String) → binding_of user bs ≡ nearest user (of_child ∷ []))
list_for_space-Broken_example =
    list_for_space-Broken lister (space "child" "gone") (of_child ∷ [])
      (wrapped "unable to get parent-space" (not_found "gone")) 2 orphan_Broken
      (of_child-NodupUsers, tt) (omega arith)

abbrev names : BindingNames
names = record {
  checksum_hex = λ s. "89abcdef";
  creator_label = "space-creator";
  user_label = "masteruserrecord";
  space_label = "space";
}

text_length-space_binding_name_example : text_length (space_binding_name names "team" "ann") ≤ 59
text_length-space_binding_name_example =
    text_length-space_binding_name names "team" "ann" (λ s. omega arith)

abbrev ann : MasterUserRecord
ann = record { namespace = "host"; name = "ann" }

new_space_binding_example :
    let sb =
      new_space_binding names ann (space "team" "") "creator" (map with_role ("viewer" ∷ [])) in
    (sb.master_user_record ≡ "ann")
    × (sb.space ≡ "team")
    × (sb.namespace ≡ "host")
    × (sb.name ≡ space_binding_name names "team" "ann")
    × (sb.space_role ≡ "viewer")
    × (lookup "space-creator" sb.labels ≡ some "creator")
    × (lookup "masteruserrecord" sb.labels ≡ some sb.master_user_record)
    × (lookup "space" sb.labels ≡ some sb.space)
unfolding string_eq
new_space_binding_example =
    new_space_binding_lem names ann (space "team" "") "creator" ("viewer" ∷ [])
      (ne_of_== "space-creator" "masteruserrecord" refl) (ne_of_== "space-creator" "space" refl)
      (ne_of_== "masteruserrecord" "space" refl)
