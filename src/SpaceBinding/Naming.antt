-- ===== src/SpaceBinding/Naming.antt =====
-- `NewSpaceBinding` and the name that it gives.
use toolchain_common.Base.{
  ◌≤◌, String, ◌<>◌, ◌≡◌, refl, ◌≢◌, some, List, [], ◌∷◌, map, string_eq, arith, take, length-take,
  chars, of_chars, chars-of_chars, text_length, text_length-append,
}
use toolchain_common.Base.Dict.{lookup}
use toolchain_common.SpaceBinding.{
  SpaceBinding, Space, MasterUserRecord, BindingNames, space_binding_name, apply_options,
  new_space_binding, with_role, default_space_role,
}

module _ (n : BindingNames) where
  -- If a checksum has at most eight digits, a name has at most 59 characters, so that it fits into
  -- the 63 of a label, however long the names of the Space and the user are.
  pub text_length-space_binding_name :
      (space user : String)
      → ((s : String) → text_length (n.checksum_hex s) ≤ 8)
      → text_length (space_binding_name n space user) ≤ 59
  unfolding space_binding_name
  text_length-space_binding_name space user h =
      let c = n.checksum_hex (space <> ("-" <> user)) in
      let cut = of_chars (take 50 (chars space)) in
      let cut_length : text_length cut ≤ 50 =
        rw chars-of_chars (omega (arith, length-take 50 (chars space))) in
      ground (
        arith,
        h (space <> ("-" <> user)),
        text_length-append cut ("-" <> c),
        text_length-append space ("-" <> c),
        text_length-append "-" c,
        cut_length,
      )

  abbrev last_role : String → List String → String
  last_role role [] = role
  last_role role (r ∷ rs) = last_role r rs

  apply_options-with_role :
      (roles : List String) (sb : SpaceBinding)
      → apply_options n (map with_role roles) sb
        ≡ record sb { space_role = last_role sb.space_role roles }
  unfolding apply_options with_role
  apply_options-with_role [] sb = refl
  apply_options-with_role (r ∷ rs) sb = apply_options-with_role rs (record sb { space_role = r })

  -- With any roles as options and different label keys, the binding ties the Space to the user in its
  -- fields and in its labels, stands in the user's namespace under the generated name, and has the
  -- role of the last option, `admin` if there is none.
  pub new_space_binding_lem :
      (mur : MasterUserRecord) (space : Space) (creator : String) (roles : List String)
      → n.creator_label ≢ n.user_label
      → n.creator_label ≢ n.space_label
      → n.user_label ≢ n.space_label
      → let sb = new_space_binding n mur space creator (map with_role roles) in
        (sb.master_user_record ≡ mur.name)
        × (sb.space ≡ space.name)
        × (sb.namespace ≡ mur.namespace)
        × (sb.name ≡ space_binding_name n space.name mur.name)
        × (sb.space_role ≡ last_role default_space_role roles)
        × (lookup n.creator_label sb.labels ≡ some creator)
        × (lookup n.user_label sb.labels ≡ some sb.master_user_record)
        × (lookup n.space_label sb.labels ≡ some sb.space)
  unfolding new_space_binding lookup
  new_space_binding_lem mur space creator roles a b c = rw apply_options-with_role (ground arith)
