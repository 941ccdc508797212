-- ===== src/Condition/Lookup.antt =====
-- The conditions of pkg/condition/condition.go seen as a table from condition types to conditions.
use toolchain_common.Base.{
  String, ◌≡◌, refl, Bool, true, not, ◌&&◌, Option, none, some, List, [], ◌∷◌, ◌==◌, string_eq,
  if◌then◌else◌, arith, ℕ,
}
use toolchain_common.Condition.{Condition, find_condition_by_type, keep_transition, stamp}

-- What `FindConditionByType` says of a type.
unfoldable pub view : List Condition → String → Option Condition
unfolding find_condition_by_type
view conditions t =
    let (c, found) = find_condition_by_type conditions t in if found then some c else none

pub view-nil : (t : String) → view [] t ≡ none
unfolding view
view-nil t = refl

pub view-cons :
    (c : Condition) (cs : List Condition) (t : String)
    → view (c ∷ cs) t ≡ (if c.type == t then some c else view cs t)
unfolding view
view-cons c cs t = ground arith

-- No two conditions have one type.
abbrev pub NodupTypes : List Condition → Type 0
NodupTypes [] = Unit
NodupTypes (c ∷ cs) = (view cs c.type ≡ none) × NodupTypes cs

-- Whether two conditions say the same.
abbrev pub agree : Condition → Condition → Bool
agree old new = old.status == new.status && (old.reason == new.reason && old.message == new.message)

-- The condition that takes the place of an old one, or none, under its type.
abbrev pub merged : Bool → Option Condition → Condition → Condition
merged forced none new = new
merged forced (some old) new =
    if not forced && agree old new
    then old
    else (if new.status == old.status
        then record new { last_transition_time = old.last_transition_time }
        else new)

-- Whether that is reported as a change.
abbrev pub changed : Bool → Option Condition → Condition → Bool
changed forced none new = true
changed forced (some old) new = not (not forced && agree old new)

pub type-keep_transition : (old new : Condition) → (keep_transition old new).type ≡ new.type
unfolding keep_transition
type-keep_transition old new = ground arith

pub type-stamp : (c : Condition) (forced : Bool) (now : ℕ) → (stamp c forced now).type ≡ c.type
unfolding stamp
type-stamp c forced now = refl
