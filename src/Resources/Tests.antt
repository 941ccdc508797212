-- ===== src/Resources/Tests.antt =====
-- Runs of the small packages, and their theorems at concrete data.
use mathlib.Core.Path.{subst}
use toolchain_common.Base.{
  map, chars, split, String, ◌≡◌, refl, ap, sym, ◌∙◌, Option, none, some, List, [], ◌∷◌, ◌==◌,
  string_eq, Result, ok, In, inl, inr, arith, ne_of_==, eq_of_==, ==_refl, ◌&&◌, same_char, ok_inj,
  true, false, Bool,
}
use toolchain_common.Base.Dict.{lookup, insert}
use toolchain_common.Resources.Identity.{NamingStandard, username, identity_name}
use toolchain_common.Resources.IdentityLaws.{identity_name_inj}
use toolchain_common.Resources.BannedUser.{
  UserSignup, BannedUser, LabelKeys, with_phone_hash, new_banned_user, get_banned_user,
}
use toolchain_common.Resources.BannedUserLaws.{
  AreDistinct, IsListing, get_banned_user-new_banned_user,
}
use toolchain_common.Resources.Objects.{Object, sort_objects_by_name}
use toolchain_common.Resources.ObjectsLaws.{AreReturned, sort_objects_by_name_lem}
use toolchain_common.Resources.Texts.{
  split_comma_separated_list, join, AreFree, join-split_comma_separated_list,
}
use toolchain_common.Resources.Workspace.{with_owner, new_workspace}

abbrev encode : String → String
encode s = s

abbrev ann : NamingStandard
ann = record { user_id = "ann:1"; provider = "rhd" }

identity_name_inj_example : (ann.provider ≡ ann.provider) × (ann.user_id ≡ ann.user_id)
unfolding same_char string_eq
identity_name_inj_example = identity_name_inj encode (λ a b same. same) ann ann refl refl refl

encoded : identity_name encode ann ≡ "rhd:b64:ann:1"
unfolding identity_name username same_char string_eq
encoded = refl

abbrev keys : LabelKeys
keys = record {
  user_signup_user_email_hash = "email";
  user_signup_user_phone_hash = "phone";
  email_hash = "email-hash";
  banned_by = "banned-by";
  phone_number_hash = "phone-hash";
}

keys-AreDistinct : AreDistinct keys
unfolding string_eq
keys-AreDistinct = record {
  banned_by = ne_of_== "email-hash" "banned-by" refl;
  phone = ne_of_== "email-hash" "phone-hash" refl;
}

abbrev signup : UserSignup
signup = record {
  namespace = "host";
  name = "ann";
  labels = ("email", "abc") ∷ [];
  email = "ann@acme";
}

abbrev banned : BannedUser
banned = record {
  namespace = "host";
  name = "banneduser-abc";
  labels = ("email-hash", "abc") ∷ ("banned-by", "admin") ∷ [];
  email = "ann@acme";
  reason = "spam";
}

-- The cluster is one BannedUser.
abbrev has : Option String → String → Bool
has none value = false
has (some found) value = found == value

abbrev pick : Bool → BannedUser → Result (List BannedUser)
pick true s = ok (s ∷ [])
pick false s = ok []

abbrev list : BannedUser → String → String → String → Result (List BannedUser)
list s key value namespace = pick (has (lookup key s.labels) value && s.namespace == namespace) s

abbrev Stored : BannedUser → BannedUser → Type 0
Stored b s = b ≡ s

pick_sound :
    (t : Bool) (s b : BannedUser) (items : List BannedUser)
    → pick t s ≡ ok items
    → In b items
    → (t ≡ true) × (b ≡ s)
pick_sound true s b items got inside = elim (subst (λ l. In b l) (sym (ok_inj got)) inside) [
  | inl same ↦ (refl, same)
  | inr never ↦ absurd never
]
pick_sound false s b items got inside = absurd (subst (λ l. In b l) (sym (ok_inj got)) inside)

pick_complete :
    (t : Bool) (s b : BannedUser) (items : List BannedUser)
    → pick t s ≡ ok items
    → b ≡ s
    → t ≡ true
    → In b items
pick_complete true s b items got same found = subst (λ l. In b l) (ok_inj got) (inl same)
pick_complete false s b items got same found = absurd (true_or_false found)
  where
    true_or_false : false ≡ true → ⊥
    true_or_false e = ground arith

has_lem : (found : Option String) (value : String) → has found value ≡ true → found ≡ some value
has_lem none value is = ground arith
has_lem (some v) value is = ap some (eq_of_== v value is)

list-IsListing : IsListing Stored list
list-IsListing = record {
  sound = λ s key value namespace items b got inside.
      let (found, same) =
        pick_sound (has (lookup key s.labels) value && s.namespace == namespace) s b items got
          inside in
      (
        ap (λ x. lookup key x.labels) same
            ∙ has_lem (lookup key s.labels) value (ground (arith, found)),
        ap (λ x. x.namespace) same ∙ eq_of_== s.namespace namespace (ground (arith, found)),
      );
  complete = λ s key value namespace items b got same labelled at.
      pick_complete (has (lookup key s.labels) value && s.namespace == namespace) s b items got same
        (ap (λ x. has (lookup key x.labels) value && x.namespace == namespace) (sym same)
          ∙ ap (λ o. has o value && b.namespace == namespace) labelled
          ∙ ground (arith, ==_refl value, ==_refl namespace));
}

get_banned_user-new_banned_user_example :
    (found : BannedUser) × (get_banned_user keys list "abc" banned "host" ≡ ok (some found))
    × (lookup "email-hash" found.labels ≡ some "abc")
    × (found.namespace ≡ "host")
unfolding new_banned_user with_phone_hash lookup insert string_eq
get_banned_user-new_banned_user_example =
    get_banned_user-new_banned_user keys keys-AreDistinct Stored list list-IsListing signup "admin"
      "spam" banned "abc" banned (banned ∷ []) refl refl refl refl

workspace :
    (new_workspace {B = String} "toolchain.dev/" "home"
      (with_owner "ann" ∷ with_owner "bob" ∷ [])).owner
    ≡ "bob"
unfolding new_workspace
workspace = refl

join-split_comma_separated_list_example :
    (join "," (split_comma_separated_list "a,b") ≡ "a,b")
    × AreFree "," (map chars (split_comma_separated_list "a,b"))
    × (split_comma_separated_list "" ≡ [])
join-split_comma_separated_list_example = join-split_comma_separated_list "a,b"

parts : split_comma_separated_list "a,,b" ≡ "a" ∷ "" ∷ "b" ∷ []
unfolding split_comma_separated_list string_eq split same_char
parts = refl

abbrev object : String → String → Object String
object kind name = record {
  gvk = record { group = ""; version = "v1"; kind = kind };
  namespace = "ns";
  name = name;
  body = "";
}

-- The sorting of the tests keeps the order.
abbrev sort_strings : List String → List String
sort_strings ks = ks

sorts : (k : String) (ks : List String) → In k (sort_strings ks) → In k ks
sorts k ks there = there

abbrev some_objects : List (Object String)
some_objects = object "Role" "a" ∷ object "Service" "b" ∷ object "Service" "a" ∷ []

sort_objects_by_name_lem_example :
    AreReturned some_objects
      ("ns,a" ∷ "ns,b" ∷ "ns,a" ∷ [])
      (sort_objects_by_name sort_strings some_objects)
sort_objects_by_name_lem_example = sort_objects_by_name_lem sort_strings sorts some_objects

-- Of two objects with one name the second is lost.
lost :
    sort_objects_by_name sort_strings (object "Role" "a" ∷ object "Service" "a" ∷ [])
    ≡ some (object "Role" "a") ∷ some (object "Role" "a") ∷ []
unfolding sort_objects_by_name string_eq
lost = refl
