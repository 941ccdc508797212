-- ===== src/Resources/Predicate.antt =====
-- pkg/predicate/predicate.go: which events lead to a reconciliation.
use toolchain_common.Base.{
  ℕ, ◌≡◌, Bool, true, false, not, ◌||◌, Option, none, some, ◌==◌, nat_eq, arith,
}

-- What is read of an object: its generation, and its labels `L`.
pub record Object (L : Type 0) : Type 0 where
  pub generation : ℕ
  pub labels : L

-- The objects of an update event; none for nil.
pub record UpdateEvent (L : Type 0) : Type 0 where
  pub object_old : Option (Object L)
  pub object_new : Option (Object L)

-- The four methods of EitherUpdateWhenGenerationNotChangedOrDelete.
unfoldable pub update : {L : Type 0} → UpdateEvent L → Bool
update e = elim e.object_old [
  | none ↦ false
  | some old ↦ elim e.object_new [ none ↦ false | some new ↦ new.generation == old.generation ]
]

unfoldable pub create : {L : Type 0} → Option (Object L) → Bool
create e = false

unfoldable pub delete : {L : Type 0} → Option (Object L) → Bool
delete e = true

unfoldable pub generic : {L : Type 0} → Option (Object L) → Bool
generic e = false

-- The method of LabelsAndGenerationPredicate, with `reflect.DeepEqual` of labels.
unfoldable pub update_labels_and_generation : {L : Type 0} → (L → L → Bool) → UpdateEvent L → Bool
update_labels_and_generation deep_equal e = elim e.object_old [
  | none ↦ false
  | some old ↦ elim e.object_new [
    | none ↦ false
    | some new ↦ not (deep_equal old.labels new.labels) || not (new.generation == old.generation)
  ]
]

-- An update event with both objects passes one of the two predicates at least, and both only if the
-- labels have changed.
pub update_or_labels :
    {L : Type 0} (deep_equal : L → L → Bool) (old new : Object L)
    → let e : UpdateEvent L = record { object_old = some old; object_new = some new } in
      ((update e || update_labels_and_generation deep_equal e) ≡ true)
      × ((update e ≡ true)
          → update_labels_and_generation deep_equal e ≡ not (deep_equal old.labels new.labels))
unfolding update update_labels_and_generation
update_or_labels deep_equal old new = (ground arith, λ same. ground arith)
