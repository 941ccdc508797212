-- ===== src/Tiers/ParameterLaws.antt =====
-- What setting parameters does to a template: `setParams` here, and the loop of `Process`.
use mathlib.Core.Path.{subst}
use toolchain_common.Base.{
  String, ◌≡◌, refl, ◌∙◌, ap, sym, false, List, [], ◌∷◌, map, ◌==◌, string_eq, if◌then◌else◌, arith,
  Bool-cases, eq_of_==, inl, inr,
}
use toolchain_common.Templates.Process.{Parameter}
use toolchain_common.Tiers.TierTemplates.{set_param, set_params}

-- No parameter of the list has the name.
abbrev pub IsFreeName : String → List Parameter → Type 0
IsFreeName name [] = Unit
IsFreeName name (p ∷ ps) = ((p.name == name) ≡ false) × IsFreeName name ps

abbrev pub NodupNames : List Parameter → Type 0
NodupNames [] = Unit
NodupNames (p ∷ ps) = IsFreeName p.name ps × NodupNames ps

-- The last value that a list of parameters gives to a name, or another one.
abbrev pub last_value : String → List Parameter → String → String
last_value name [] old = old
last_value name (s ∷ ss) old = last_value name ss (if name == s.name then s.value else old)

abbrev pub overridden : List Parameter → Parameter → Parameter
overridden parameters p = record p { value = last_value p.name parameters p.value }

set_param_free : (s : Parameter) (ps : List Parameter) → IsFreeName s.name ps → set_param s ps ≡ ps
unfolding set_param
set_param_free s [] free = refl
set_param_free s (p ∷ ps) (other, free) = ground (arith, set_param_free s ps free)

IsFreeName-set_param :
    (name : String) (s : Parameter) (ps : List Parameter)
    → IsFreeName name ps
    → IsFreeName name (set_param s ps)
unfolding set_param
IsFreeName-set_param name s [] free = tt
IsFreeName-set_param name s (p ∷ ps) (other, free) =
    ground (arith, IsFreeName-set_param name s ps free)

NodupNames-set_param :
    (s : Parameter) (ps : List Parameter) → NodupNames ps → NodupNames (set_param s ps)
unfolding set_param
NodupNames-set_param s [] nodup = tt
NodupNames-set_param s (p ∷ ps) (free, nodup) =
    ground (arith, NodupNames-set_param s ps nodup, IsFreeName-set_param p.name s ps free)

map-overridden-nil : (ps : List Parameter) → map (overridden []) ps ≡ ps
map-overridden-nil [] = refl
map-overridden-nil (p ∷ ps) = ap (◌∷◌ p) (map-overridden-nil ps)

map-overridden_free :
    (s : Parameter) (ss ps : List Parameter)
    → IsFreeName s.name ps
    → map (overridden ss) ps ≡ map (overridden (s ∷ ss)) ps
map-overridden_free s ss [] free = refl
map-overridden_free s ss (p ∷ ps) (other, free) = ground (arith, map-overridden_free s ss ps free)

map-overridden-set_param :
    (s : Parameter) (ss ps : List Parameter)
    → NodupNames ps
    → map (overridden ss) (set_param s ps) ≡ map (overridden (s ∷ ss)) ps
unfolding set_param
map-overridden-set_param s ss [] nodup = refl
map-overridden-set_param s ss (p ∷ ps) (free, nodup) = elim (Bool-cases (p.name == s.name)) [
  | inl same ↦
      let ne = subst (λ n. IsFreeName n ps) (eq_of_== p.name s.name same) free in
      ground (arith, map-overridden_free s ss ps ne)
  | inr other ↦ ground (arith, map-overridden-set_param s ss ps nodup)
]

-- Where no two parameters of a template have one name, `setParams` gives to each parameter the last
-- value that the list has for its name, if there is any, and keeps all else, the generator of a value
-- included; names that the template does not have are left out.
pub set_params-eq-map :
    (parameters ps : List Parameter)
    → NodupNames ps
    → set_params parameters ps ≡ map (overridden parameters) ps
unfolding set_params
set_params-eq-map [] ps nodup = sym (map-overridden-nil ps)
set_params-eq-map (s ∷ ss) ps nodup =
    set_params-eq-map ss (set_param s ps) (NodupNames-set_param s ps nodup)
    ∙ map-overridden-set_param s ss ps nodup
