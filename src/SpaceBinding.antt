-- ===== src/SpaceBinding.antt =====
-- pkg/spacebinding: spacebinding.go makes SpaceBindings, spacebindinglister.go lists those of a Space
-- and of its parents. The listing and the getter that a Lister holds are functions into results. A
-- returned slice belongs to the caller, so the in-place removals of `mergeSpaceBindings` are removals
-- from a value.
pub mod Merge
pub mod Listing
pub mod Naming
pub mod Tests
use Prim.Native.String.{String}
use toolchain_common.Base.{
  ℕ, zero, suc, ◌<>◌, Bool, true, false, ◌||◌, Option, none, some, List, [], ◌∷◌, ◌++◌, ◌==◌,
  string_eq, if◌then◌else◌, Result, ok, err, Error, wrapped, ltb, take, chars, of_chars,
  text_length,
}
use toolchain_common.Base.Dict.{Dict}

-- The fields of toolchainv1alpha1.SpaceBinding and Space that the code uses.
pub record SpaceBinding : Type 0 where
  pub namespace : String
  pub name : String
  pub labels : Dict String String
  pub master_user_record : String
  pub space : String
  pub space_role : String

pub record Space : Type 0 where
  pub name : String
  pub parent_space : String
  pub disable_inheritance : Bool

pub record MasterUserRecord : Type 0 where
  pub namespace : String
  pub name : String

pub record Lister : Type 0 where
  pub list_space_bindings : String → Result (List SpaceBinding)
  pub get_space : String → Result Space

-- The loop from back to front that removes the last binding of the user, and whether it removed one.
unfoldable pub remove_last : String → List SpaceBinding → List SpaceBinding × Bool
remove_last user [] = ([], false)
remove_last user (binding ∷ rest) =
    let (rest', removed) = remove_last user rest in
    if removed
    then (binding ∷ rest', true)
    else if binding.master_user_record == user
    then (rest, true)
    else (binding ∷ rest, false)

unfoldable pub remove_overridden : List SpaceBinding → List SpaceBinding → List SpaceBinding
remove_overridden [] parents = parents
remove_overridden (binding ∷ found) parents =
    remove_overridden found (remove_last binding.master_user_record parents).0

unfoldable pub merge_space_bindings : List SpaceBinding → List SpaceBinding → List SpaceBinding
merge_space_bindings found parents = found ++ remove_overridden found parents

-- Whether the search stops at a Space.
abbrev pub is_top : Space → Bool
is_top space = space.parent_space == "" || space.disable_inheritance

-- The returned bindings and the error, where the bindings found so far come back beside an error.
abbrev pub Listed : Type 0
Listed = List SpaceBinding × Option Error

-- The end of the function, with the recursive call as `list_parent`.
unfoldable pub list_from_parent :
    (Space → List SpaceBinding → Option Listed) → List SpaceBinding → Result Space → Option Listed
list_from_parent list_parent found (err e) =
    some (found, some (wrapped "unable to get parent-space" e))
list_from_parent list_parent found (ok parent) = list_parent parent found

-- The body behind the listing of the Space itself.
unfoldable pub list_from_space :
    Lister
    → (Space → List SpaceBinding → Option Listed)
    → Space
    → List SpaceBinding
    → Result (List SpaceBinding)
    → Option Listed
unfolding list_from_parent
list_from_space l list_parent space found (err e) = some (found, some e)
list_from_space l list_parent space found (ok parents) =
    let merged = merge_space_bindings found parents in
    if is_top space
    then some (merged, none)
    else list_from_parent list_parent merged (l.get_space space.parent_space)

-- The recursion goes from Space to parent, without end if the parents form a cycle, so it takes fuel:
-- `none` means that the fuel ran out.
unfoldable pub list_for_space : ℕ → Lister → Space → List SpaceBinding → Option Listed
unfolding list_from_space
list_for_space zero l space found = none
list_for_space (suc fuel) l space found =
    list_from_space l (list_for_space fuel l) space found (l.list_space_bindings space.name)

abbrev pub default_space_role : String
default_space_role = "admin"

-- `checksum_hex` is the CRC-32 of a text, printed by `%x`; the three label keys are constants of the
-- API module.
pub record BindingNames : Type 0 where
  pub checksum_hex : String → String
  pub creator_label : String
  pub user_label : String
  pub space_label : String

module _ (n : BindingNames) where
  unfoldable pub space_binding_name : String → String → String
  space_binding_name space user =
      let c = n.checksum_hex (space <> ("-" <> user)) in
      if ltb 50 (text_length space)
      then of_chars (take 50 (chars space)) <> ("-" <> c)
      else space <> ("-" <> c)

  -- An option changes the binding that is made.
  unfoldable pub apply_options : List (SpaceBinding → SpaceBinding) → SpaceBinding → SpaceBinding
  apply_options [] sb = sb
  apply_options (option ∷ options) sb = apply_options options (option sb)

  unfoldable pub new_space_binding :
      MasterUserRecord → Space → String → List (SpaceBinding → SpaceBinding) → SpaceBinding
  unfolding apply_options
  new_space_binding mur space creator options = apply_options options (record {
    namespace = mur.namespace;
    name = space_binding_name space.name mur.name;
    labels =
        (n.creator_label, creator) ∷ (n.user_label, mur.name) ∷ (n.space_label, space.name) ∷ [];
    master_user_record = mur.name;
    space = space.name;
    space_role = default_space_role;
  })

unfoldable pub with_role : String → SpaceBinding → SpaceBinding
with_role role sb = record sb { space_role = role }
