-- ===== src/States/Setters.antt =====
-- The five setters of pkg/states/state_manager.go: what each leaves of the five states, and the
-- invariants that they keep.
use toolchain_common.Base.{
  String, ◌≡◌, refl, ap, sym, ◌∙◌, Bool, true, false, ◌&&◌, List, [], ◌∷◌, ◌==◌, string_eq,
  if◌then◌else◌, arith,
}
use mathlib.Core.Path.{subst}
use toolchain_common.States.{
  StateNames, AreDistinct, contains_state, set_state, approved_manually, set_approved_manually,
  verification_required, set_verification_required, deactivating, set_deactivating, deactivated,
  set_deactivated, rejected, set_rejected,
}
use toolchain_common.States.Sets.{NodupStates, contains-set_state, set_state-NodupStates}

-- The five states of a UserSignup, as the five readers tell them.
pub record Flags : Type 0 where
  pub approved : Bool
  pub verification_required : Bool
  pub deactivating : Bool
  pub deactivated : Bool
  pub rejected : Bool

module _ (names : StateNames) where
  abbrev pub flags : List String → Flags
  flags s = record {
    approved = approved_manually names s;
    verification_required = verification_required names s;
    deactivating = deactivating names s;
    deactivated = deactivated names s;
    rejected = rejected names s;
  }

-- The calls of the five setters.
pub data Call : Type 0 where
  approve verify begin_deactivation deactivate reject : Bool → Call

abbrev pub run : StateNames → List String → Call → List String
run names s (approve b) = set_approved_manually names s b
run names s (verify b) = set_verification_required names s b
run names s (begin_deactivation b) = set_deactivating names s b
run names s (deactivate b) = set_deactivated names s b
run names s (reject b) = set_rejected names s b

-- The intended effect of a call on the five states.
abbrev pub effect : Call → Flags → Flags
effect (approve true) f = record f {
  approved = true;
  verification_required = false;
  deactivating = false;
  deactivated = false;
}
effect (approve false) f = record f { approved = false }
effect (verify b) f = record f { verification_required = b }
effect (begin_deactivation true) f = record f { deactivating = true; deactivated = false }
effect (begin_deactivation false) f = record f { deactivating = false }
effect (deactivate true) f = record f { deactivated = true; approved = false; deactivating = false }
effect (deactivate false) f = record f { deactivated = false }
effect (reject b) f = record f { rejected = b }

-- Setting some states one after another.
set_states : List (String × Bool) → List String → List String
set_states [] s = s
set_states ((a, b) ∷ rest) s = set_states rest (set_state s a b)

set_states-NodupStates :
    (l : List (String × Bool)) (s : List String) → NodupStates s → NodupStates (set_states l s)
unfolding set_states
set_states-NodupStates [] s u = u
set_states-NodupStates ((a, b) ∷ l) s u =
    set_states-NodupStates l (set_state s a b) (set_state-NodupStates s a b u)

abbrev final : List (String × Bool) → String → Bool → Bool
final [] t old = old
final ((a, b) ∷ l) t old = final l t (if a == t then b else old)

contains-set_states :
    (l : List (String × Bool)) (s : List String) (t : String)
    → NodupStates s
    → contains_state (set_states l s) t ≡ final l t (contains_state s t)
unfolding set_states
contains-set_states [] s t u = refl
contains-set_states ((a, b) ∷ l) s t u =
    contains-set_states l (set_state s a b) t (set_state-NodupStates s a b u)
    ∙ ap (final l t) (contains-set_state s a b u t)

-- The states that a call sets, in the order of the code.
abbrev assignments : StateNames → Call → List (String × Bool)
assignments n (approve true) =
    (n.approved, true)
    ∷ (n.verification_required, false)
    ∷ (n.deactivating, false)
    ∷ (n.deactivated, false)
    ∷ []
assignments n (approve false) = (n.approved, false) ∷ []
assignments n (verify b) = (n.verification_required, b) ∷ []
assignments n (begin_deactivation true) = (n.deactivating, true) ∷ (n.deactivated, false) ∷ []
assignments n (begin_deactivation false) = (n.deactivating, false) ∷ []
assignments n (deactivate true) =
    (n.deactivated, true) ∷ (n.approved, false) ∷ (n.deactivating, false) ∷ []
assignments n (deactivate false) = (n.deactivated, false) ∷ []
assignments n (reject b) = (n.rejected, b) ∷ []

run-eq-set_states :
    (n : StateNames) (c : Call) (s : List String) → run n s c ≡ set_states (assignments n c) s
unfolding set_states set_approved_manually set_verification_required set_deactivating
    set_deactivated set_rejected
run-eq-set_states n (approve true) s = refl
run-eq-set_states n (approve false) s = refl
run-eq-set_states n (verify b) s = refl
run-eq-set_states n (begin_deactivation true) s = refl
run-eq-set_states n (begin_deactivation false) s = refl
run-eq-set_states n (deactivate true) s = refl
run-eq-set_states n (deactivate false) s = refl
run-eq-set_states n (reject b) s = refl

contains-run :
    (n : StateNames) (c : Call) (s : List String)
    → NodupStates s
    → (t : String) → contains_state (run n s c) t ≡ final (assignments n c) t (contains_state s t)
contains-run n c s u t = rw run-eq-set_states (contains-set_states (assignments n c) s t u)

-- No call lists a state twice, if none was.
pub run-NodupStates :
    (n : StateNames) (c : Call) (s : List String) → NodupStates s → NodupStates (run n s c)
run-NodupStates n c s u = rw run-eq-set_states (set_states-NodupStates (assignments n c) s u)

-- If the states have different names and none is listed twice, a call of a setter has its intended
-- effect on the five states: what it sets and what it clears beside that, and nothing else.
pub flags-run :
    (n : StateNames)
    → AreDistinct n
    → (c : Call) (s : List String) → NodupStates s
    → flags n (run n s c) ≡ effect c (flags n s)
unfolding approved_manually verification_required deactivating deactivated rejected
flags-run n d (approve true) s u =
    let at = contains-run n (approve true) s u in
    ground (
      arith,
      at n.approved,
      at n.verification_required,
      at n.deactivating,
      at n.deactivated,
      at n.rejected,
    )
flags-run n d c s u =
    let at = contains-run n c s u in
    ground (
      arith,
      at n.approved,
      at n.verification_required,
      at n.deactivating,
      at n.deactivated,
      at n.rejected,
    )

-- The setters, called one after another.
abbrev pub run_all : StateNames → List String → List Call → List String
run_all n s [] = s
run_all n s (c ∷ cs) = run_all n (run n s c) cs

pub record IsConsistent (f : Flags) : Type 0 where
  pub approved_or_deactivated : (f.approved && f.deactivated) ≡ false
  pub deactivating_or_deactivated : (f.deactivating && f.deactivated) ≡ false

effect-IsConsistent : (c : Call) (f : Flags) → IsConsistent f → IsConsistent (effect c f)
effect-IsConsistent (approve true) f h = ground arith
effect-IsConsistent (begin_deactivation true) f h = ground arith
effect-IsConsistent (deactivate true) f h = ground arith
effect-IsConsistent c f h = ground arith

-- If the states have different names, then from a slice that lists none twice and has neither
-- `approved` nor `deactivating` beside `deactivated`, every sequence of setter calls leads to such a
-- slice.
pub run_all-IsConsistent :
    (n : StateNames)
    → AreDistinct n
    → (cs : List Call) (s : List String) → NodupStates s
    → IsConsistent (flags n s)
    → NodupStates (run_all n s cs) × IsConsistent (flags n (run_all n s cs))
run_all-IsConsistent n d [] s u h = (u, h)
run_all-IsConsistent n d (c ∷ cs) s u h =
    run_all-IsConsistent n d cs (run n s c) (run-NodupStates n c s u)
      (subst IsConsistent (sym (flags-run n d c s u)) (effect-IsConsistent c (flags n s) h))
