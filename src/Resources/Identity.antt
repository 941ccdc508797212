-- ===== src/Resources/Identity.antt =====
-- pkg/identity/identity_naming_standard.go: the name of an OpenShift identity. The unpadded base64
-- encoding is a parameter.
use Prim.Native.Char.{Char}
use toolchain_common.Base.{
  String, ◌<>◌, Bool, false, not, ◌||◌, List, [], ◌∷◌, if◌then◌else◌, chars, same_char,
}

pub record NamingStandard : Type 0 where
  pub user_id : String
  pub provider : String

-- The fields of a user.openshift.io Identity that are set.
pub record Identity : Type 0 where
  pub name : String
  pub provider_name : String
  pub provider_user_name : String

-- strings.ContainsAny(s, ":/")
unfoldable pub contains_any : List Char → Bool
contains_any [] = false
contains_any (c ∷ s) = same_char c ":" || (same_char c "/" || contains_any s)

unfoldable pub is_identity_name_compliant : String → Bool
unfolding contains_any
is_identity_name_compliant name = not (contains_any (chars name))

module _ (encode : String → String) where
  unfoldable pub username : NamingStandard → String
  unfolding is_identity_name_compliant
  username s =
      if not (is_identity_name_compliant s.user_id) then "b64:" <> encode s.user_id else s.user_id

  unfoldable pub identity_name : NamingStandard → String
  unfolding username
  identity_name s = s.provider <> (":" <> username s)

  unfoldable pub apply_to_identity : NamingStandard → Identity → Identity
  unfolding identity_name username
  apply_to_identity s identity = record {
    name = identity_name s;
    provider_name = s.provider;
    provider_user_name = username s;
  }
