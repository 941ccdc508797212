-- ===== src/Templates/Process.antt =====
-- pkg/template/processor.go and filter.go: the parameters of a template are set, the template is
-- processed, and its objects are filtered.
use toolchain_common.Base.{
  ℕ, zero, suc, String, Bool, true, false, not, Option, none, some, List, [], ◌∷◌, ◌==◌, string_eq,
  if◌then◌else◌, Result, ok, err, failed, wrapped,
}
use toolchain_common.Base.Dict.{Dict}

-- `rest` is what the code does not read.
pub record Parameter : Type 0 where
  pub name : String
  pub value : String
  pub generate : String
  pub rest : String

pub record Template (O : Type 0) : Type 0 where
  pub parameters : List Parameter
  pub objects : List O

-- What openshift/library-go and the scheme do: the place in a list of parameters to which
-- `GetParameterByName` gives a pointer, `Process`, `Convert`, and the assertion that an object is a
-- client object `P`. `kind` is the kind of an object.
pub record Library (O P : Type 0) : Type 0 where
  pub get_parameter_by_name : List Parameter → String → Option ℕ
  pub process : Template O → Result (Template O)
  pub convert : Template O → Result (Template O)
  pub cast : O → Option P
  pub kind : O → String

-- The loop over the filters: whether each lets an object pass.
unfoldable pub passes : {O : Type 0} → List (O → Bool) → O → Bool
passes [] obj = true
passes (filter ∷ filters) obj = if not (filter obj) then false else passes filters obj

-- `Filter`
unfoldable pub filter : {O : Type 0} → List (O → Bool) → List O → List O
unfolding passes
filter filters [] = []
filter filters (obj ∷ objs) =
    let rest = filter filters objs in if passes filters obj then obj ∷ rest else rest

-- The two assignments through the pointer.
unfoldable pub set_at : ℕ → String → List Parameter → List Parameter
set_at i val [] = []
set_at zero val (p ∷ ps) = record p { value = val; generate = "" } ∷ ps
set_at (suc i) val (p ∷ ps) = p ∷ set_at i val ps

module _ {O P : Type 0} (lib : Library O P) where
  unfoldable pub retain_namespaces : O → Bool
  retain_namespaces obj = lib.kind obj == "Namespace"

  unfoldable pub retain_all_but_namespaces : O → Bool
  retain_all_but_namespaces obj = not (lib.kind obj == "Namespace")

  unfoldable pub inject : Dict String String → List Parameter → List Parameter
  unfolding set_at
  inject [] ps = ps
  inject ((param, val) ∷ values) ps = elim (lib.get_parameter_by_name ps param) [
    | none ↦ inject values ps
    | some i ↦ inject values (set_at i val ps)
  ]

  abbrev pub and_cast : Option P → Result (List P) → Result (List P)
  and_cast none rest = err (failed "unable to cast of the object to client.Object")
  and_cast (some obj) (err e) = err e
  and_cast (some obj) (ok objs) = ok (obj ∷ objs)

  unfoldable pub cast_all : List O → Result (List P)
  cast_all [] = ok []
  cast_all (obj ∷ objs) = and_cast (lib.cast obj) (cast_all objs)

  abbrev pub converted : Result (Template O) → List (O → Bool) → Result (List P)
  converted (err e) filters =
      err (wrapped "failed to convert template to external template object" e)
  converted (ok result) filters = cast_all (filter filters result.objects)

  abbrev pub processed : Result (Template O) → List (O → Bool) → Result (List P)
  processed (err e) filters = err (wrapped "unable to process template" e)
  processed (ok tmpl) filters = converted (lib.convert tmpl) filters

  unfoldable pub process : Template O → Dict String String → List (O → Bool) → Result (List P)
  unfolding inject cast_all filter
  process tmpl values filters =
      processed (lib.process (record tmpl { parameters = inject values tmpl.parameters })) filters
