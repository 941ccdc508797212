-- ===== src/Resources/BannedUserLaws.antt =====
-- A user who was banned is found.
use toolchain_common.Base.{
  ok_inj, String, ◌<>◌, ◌≡◌, ◌≢◌, refl, ◌∙◌, ap, sym, Option, none, some, List, [], ◌∷◌, string_eq,
  Result, ok, arith, In, inl, ==_refl, eq_of_==,
}
use toolchain_common.Base.Dict.{lookup, insert, lookup-insert}
use toolchain_common.Resources.BannedUser.{
  UserSignup, BannedUser, LabelKeys, with_phone_hash, banned_with, new_banned_user, first_of,
  get_banned_user,
}

-- The keys of a BannedUser are told apart.
pub record AreDistinct (keys : LabelKeys) : Type 0 where
  pub banned_by : keys.email_hash ≢ keys.banned_by
  pub phone : keys.email_hash ≢ keys.phone_number_hash

-- What is documented of a listing by a label in a namespace: it gives the stored objects of the namespace
-- that have the label, all of them and no others.
pub record IsListing {S : Type 0} (stored : BannedUser → S → Type 0)
    (list : S → String → String → String → Result (List BannedUser)) : Type 0 where
  pub sound :
      (s : S) (key value namespace : String) (items : List BannedUser) (b : BannedUser)
      → list s key value namespace ≡ ok items
      → In b items
      → (lookup key b.labels ≡ some value) × (b.namespace ≡ namespace)
  pub complete :
      (s : S) (key value namespace : String) (items : List BannedUser) (b : BannedUser)
      → list s key value namespace ≡ ok items
      → stored b s
      → lookup key b.labels ≡ some value
      → b.namespace ≡ namespace
      → In b items

module _ (keys : LabelKeys) (distinct : AreDistinct keys) where
  hash-with_phone_hash :
      (phone : Option String) (user : BannedUser)
      → lookup keys.email_hash (with_phone_hash keys phone user).labels
        ≡ lookup keys.email_hash user.labels
  unfolding with_phone_hash
  hash-with_phone_hash none user = refl
  hash-with_phone_hash (some hash) user = ground (
    arith,
    lookup-insert keys.email_hash keys.phone_number_hash hash user.labels,
    distinct.phone,
    eq_of_== keys.email_hash keys.phone_number_hash,
  )

  namespace-with_phone_hash :
      (phone : Option String) (user : BannedUser)
      → (with_phone_hash keys phone user).namespace ≡ user.namespace
  unfolding with_phone_hash
  namespace-with_phone_hash none user = refl
  namespace-with_phone_hash (some hash) user = refl

  new_banned_user_lem :
      (signup : UserSignup) (banned_by reason : String) (b : BannedUser) (hash : String)
      → new_banned_user keys signup banned_by reason ≡ ok b
      → lookup keys.user_signup_user_email_hash signup.labels ≡ some hash
      → (lookup keys.email_hash b.labels ≡ some hash) × (b.namespace ≡ signup.namespace)
  unfolding new_banned_user
  new_banned_user_lem signup banned_by reason b hash made labelled =
      let phone = lookup keys.user_signup_user_phone_hash signup.labels in
      let user : BannedUser = record {
        namespace = signup.namespace;
        name = "banneduser-" <> hash;
        labels = insert keys.banned_by banned_by (insert keys.email_hash hash []);
        email = signup.email;
        reason = reason;
      } in
      let same =
        ok_inj (sym (ap (λ h. banned_with keys signup banned_by reason h) labelled) ∙ made) in
      (
        ap (λ x. lookup keys.email_hash x.labels) (sym same)
            ∙ hash-with_phone_hash phone user
            ∙ lookup-insert keys.email_hash keys.banned_by banned_by
                (insert keys.email_hash hash [])
            ∙ ground (
              arith,
              distinct.banned_by,
              eq_of_== keys.email_hash keys.banned_by,
              lookup-insert {V = String} keys.email_hash keys.email_hash hash [],
              ==_refl keys.email_hash,
            ),
        ap (λ x. x.namespace) (sym same) ∙ namespace-with_phone_hash phone user,
      )

  -- If the label keys of a BannedUser differ and a listing gives the stored objects of a namespace
  -- that have a label: once a BannedUser made from a UserSignup is stored, looking up the e-mail
  -- hash of the UserSignup in its namespace finds a BannedUser with that hash, unless the listing
  -- fails.
  pub get_banned_user-new_banned_user :
      {S : Type 0} (stored : BannedUser → S → Type 0)
      (list : S → String → String → String → Result (List BannedUser))
      → IsListing stored list
      → (signup : UserSignup) (banned_by reason : String) (b : BannedUser) (hash : String) (s : S)
        (items : List BannedUser)
      → new_banned_user keys signup banned_by reason ≡ ok b
      → lookup keys.user_signup_user_email_hash signup.labels ≡ some hash
      → stored b s
      → list s keys.email_hash hash signup.namespace ≡ ok items
      → (found : BannedUser) × (get_banned_user keys list hash s signup.namespace ≡ ok (some found))
        × (lookup keys.email_hash found.labels ≡ some hash)
        × (found.namespace ≡ signup.namespace)
  unfolding get_banned_user
  get_banned_user-new_banned_user stored list listing signup banned_by reason b hash s items made
        labelled there listed =
      let (hashed, at) = new_banned_user_lem signup banned_by reason b hash made labelled in
      by_items items listed
        (listing.complete s keys.email_hash hash signup.namespace items b listed there hashed at)
    where
      by_items :
          (items : List BannedUser)
          → list s keys.email_hash hash signup.namespace ≡ ok items
          → In b items
          → (found : BannedUser) × (first_of keys (list s keys.email_hash hash signup.namespace)
              ≡ ok (some found))
            × (lookup keys.email_hash found.labels ≡ some hash)
            × (found.namespace ≡ signup.namespace)
      by_items [] listed inside = absurd inside
      by_items (found ∷ more) listed inside =
          let (hashed, at) =
            listing.sound s keys.email_hash hash signup.namespace (found ∷ more) found listed
              (inl refl) in
          (found, ap (first_of keys) listed, hashed, at)
