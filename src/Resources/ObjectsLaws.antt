-- ===== src/Resources/ObjectsLaws.antt =====
-- Which objects `SortObjectsByName` of pkg/client/object.go returns, and in which order.
use toolchain_common.Base.{
  String, ◌<>◌, ◌≡◌, ◌≢◌, refl, ◌∙◌, ap, sym, Bool, true, false, Option, some, List, [], ◌∷◌, map,
  ◌==◌, string_eq, if◌then◌else◌, arith, In, inl, inr, ◌⊎◌, All, eq_of_==, ne_of_==, ==_refl,
  some_inj,
}
use toolchain_common.Resources.Objects.{Object, name_key, first_named, sort_objects_by_name}

-- The namespace and the name of an object, with a comma between them.
abbrev pub place_text : {U : Type 0} → Object U → String
place_text x = x.namespace <> ("," <> x.name)

module _ {U : Type 0} where
  -- The object is in the list, behind none with its namespace and name.
  abbrev pub IsFirst : List (Object U) → Object U → Type 0
  IsFirst [] x = ⊥
  IsFirst (y ∷ ys) x = (y ≡ x) ⊎ ((place_text y ≢ place_text x) × IsFirst ys x)

  first_named-IsFirst :
      (name : String) (objects : List (Object U)) (x : Object U)
      → first_named name objects ≡ some x
      → IsFirst objects x × (place_text x ≡ name)
  unfolding first_named name_key
  first_named-IsFirst name [] x found = ground arith
  first_named-IsFirst name (y ∷ ys) x found =
      by_test (λ rest. first_named-IsFirst name ys x rest) (name_key y == name) refl found
    where
      by_test :
          (first_named name ys ≡ some x → IsFirst ys x × (place_text x ≡ name))
          → (b : Bool) → (name_key y == name) ≡ b
          → (if b then some y else first_named name ys) ≡ some x
          → IsFirst (y ∷ ys) x × (place_text x ≡ name)
      by_test ih true same found =
          let is = some_inj found in
          (inl is, ap place_text (sym is) ∙ eq_of_== (name_key y) name same)
      by_test ih false other found =
          let (first, is) = ih found in
          (inr (λ same. ne_of_== (name_key y) name other (same ∙ is), first), is)

  -- Every name of an object is found.
  first_named-some :
      (name : String) (objects : List (Object U))
      → In name (map name_key objects)
      → (x : Object U) × (first_named name objects ≡ some x)
  unfolding first_named
  first_named-some name [] there = absurd there
  first_named-some name (y ∷ ys) (inl here) = (y, ground (arith, ==_refl (name_key y)))
  first_named-some name (y ∷ ys) (inr later) =
      by_test (first_named-some name ys later) (name_key y == name)
    where
      by_test :
          (x : Object U) × (first_named name ys ≡ some x)
          → (b : Bool) → (x : Object U) × ((if b then some y else first_named name ys) ≡ some x)
      by_test found true = (y, refl)
      by_test found false = found

  -- The objects that are returned, for names in an order.
  abbrev pub AreReturned : List (Object U) → List String → List (Option (Object U)) → Type 0
  AreReturned objects names returned =
      (xs : List (Object U)) × (returned ≡ map some xs)
      × (map place_text xs ≡ names)
      × All (IsFirst objects) xs

  AreReturned-names :
      (objects : List (Object U)) (names : List String)
      → ((k : String) → In k names → In k (map name_key objects))
      → AreReturned objects names (map (λ name. first_named name objects) names)
  AreReturned-names objects [] known = ([], refl, refl, tt)
  AreReturned-names objects (k ∷ ks) known =
      let (x, found) = first_named-some k objects (known k (inl refl)) in
      let (xs, same, named, firsts) =
        AreReturned-names objects ks (λ j there. known j (inr there)) in
      let (first, is) = first_named-IsFirst k objects x found in
      (x ∷ xs, cc (found, same), cc (is, named), (first, firsts))

-- If sorting makes up no element, then what is returned are objects, no nil, whose texts of namespace and
-- name are the sorted texts of the given ones, in that order; and each is the first of the given
-- objects with its text. So no object behind another with the same text is returned.
pub sort_objects_by_name_lem :
    {U : Type 0} (sort_strings : List String → List String)
    → ((k : String) (ks : List String) → In k (sort_strings ks) → In k ks)
    → (objects : List (Object U))
    → AreReturned objects
        (sort_strings (map place_text objects))
        (sort_objects_by_name sort_strings objects)
unfolding sort_objects_by_name name_key
sort_objects_by_name_lem sort_strings sorts objects =
    AreReturned-names objects (sort_strings (map name_key objects))
      (λ k there. sorts k (map name_key objects) there)
