-- ===== src/Base/Outcome.antt =====
-- Go's `(value, error)` results. The value beside an error is modelled only where a caller of the
-- code can see it.
use Prim.Native.String.{String}
use mathlib.Core.Bool.{Bool, true, false}
use mathlib.Core.Path.{◌≡◌, ap}
use mathlib.Core.Option.{Option, none, some}

-- `not_found` is what `apierrors.IsNotFound` recognises, also under wrapped errors; `failed` is any other
-- error of a callee; `wrapped` is `errors.Wrap` and `fmt.Errorf` with `%w`.
pub data Error : Type 0 where
  not_found : String → Error
  failed : String → Error
  wrapped : String → Error → Error

abbrev pub is_not_found : Error → Bool
is_not_found (not_found _) = true
is_not_found (failed _) = false
is_not_found (wrapped _ e) = is_not_found e

pub data Result {ℓ} (A : Type ℓ) : Type ℓ where
  ok : A → Result A
  err : Error → Result A

pub ok_inj : {A : Type 0} {a b : A} → ◌≡◌ {A = Result A} (ok a) (ok b) → a ≡ b
ok_inj {A} {a} {b} same = ap (λ (r : Result A). elim r [ ok x ↦ x | err _ ↦ a ]) same

pub some_inj : {A : Type 0} {a b : A} → ◌≡◌ {A = Option A} (some a) (some b) → a ≡ b
some_inj {A} {a} {b} same = ap (λ (o : Option A). elim o [ none ↦ a | some x ↦ x ]) same
