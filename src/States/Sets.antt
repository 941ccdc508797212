-- ===== src/States/Sets.antt =====
-- `setState` on a slice that holds no state twice: the slice is a set.
use toolchain_common.Base.{
  String, ◌≡◌, refl, Bool, false, not, ◌&&◌, ◌||◌, List, [], ◌∷◌, ◌++◌, ◌==◌, string_eq,
  if◌then◌else◌, arith,
}
use toolchain_common.States.{contains_state, remove, set_state}

abbrev pub NodupStates : List String → Type 0
NodupStates [] = Unit
NodupStates (a ∷ s) = (contains_state s a ≡ false) × NodupStates s

contains_state-append :
    (s : List String) (a t : String)
    → contains_state (s ++ (a ∷ [])) t ≡ (contains_state s t || a == t)
unfolding contains_state
contains_state-append [] a t = ground arith
contains_state-append (b ∷ s) a t = ground (arith, contains_state-append s a t)

NodupStates-append :
    (s : List String) (a : String)
    → NodupStates s
    → contains_state s a ≡ false
    → NodupStates (s ++ (a ∷ []))
unfolding contains_state
NodupStates-append [] a u h = (refl, tt)
NodupStates-append (b ∷ s) a (fresh, u) h =
    ground (arith, NodupStates-append s a u, contains_state-append s a b)

contains_state-remove :
    (s : List String) (a t : String)
    → NodupStates s
    → contains_state (remove s a) t ≡ (not (a == t) && contains_state s t)
unfolding contains_state remove
contains_state-remove [] a t u = ground arith
contains_state-remove (b ∷ s) a t (fresh, u) = ground (arith, contains_state-remove s a t u)

NodupStates-remove : (s : List String) (a : String) → NodupStates s → NodupStates (remove s a)
unfolding remove
NodupStates-remove [] a u = tt
NodupStates-remove (b ∷ s) a (fresh, u) =
    ground (arith, NodupStates-remove s a u, contains_state-remove s a b u)

remove-absent : (s : List String) (a : String) → contains_state s a ≡ false → remove s a ≡ s
unfolding contains_state remove
remove-absent [] a h = refl
remove-absent (b ∷ s) a h = ground (arith, remove-absent s a)

module _ (s : List String) (a : String) (val : Bool) (u : NodupStates s) where
  -- Of the state that is set, the slice tells the value given; of all others, what it told before.
  pub contains-set_state :
      (t : String)
      → contains_state (set_state s a val) t ≡ (if a == t then val else contains_state s t)
  unfolding set_state
  contains-set_state t = ground (arith, contains_state-append s a t, contains_state-remove s a t u)

  -- No state is listed twice.
  pub set_state-NodupStates : NodupStates (set_state s a val)
  unfolding set_state
  set_state-NodupStates = ground (arith, NodupStates-append s a u, NodupStates-remove s a u)

  -- Setting a state again changes nothing, not even the order.
  pub set_state_idempotent : set_state (set_state s a val) a val ≡ set_state s a val
  unfolding set_state
  set_state_idempotent = ground (arith, contains_state-append s a a, contains_state-remove s a a u)
