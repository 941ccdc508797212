-- ===== src/Templates/FilterLaws.antt =====
-- What `Filter` of pkg/template/filter.go retains.
use toolchain_common.Base.{
  ◌+◌, ◌≡◌, ◌↔◌, refl, Bool, true, List, [], ◌∷◌, string_eq, arith, length, all, In,
}
use toolchain_common.Templates.Process.{
  Library, passes, filter, retain_namespaces, retain_all_but_namespaces,
}

module _ {O : Type 0} where
  passes-eq-all : (fs : List (O → Bool)) (x : O) → passes fs x ≡ all (λ f. f x) fs
  unfolding passes
  passes-eq-all [] x = refl
  passes-eq-all (f ∷ fs) x = ground (arith, passes-eq-all fs x)

  -- An object is retained exactly if it is there and every filter accepts it.
  pub In-filter :
      (fs : List (O → Bool)) (objs : List O) (x : O)
      → In x (filter fs objs) ↔ (In x objs × (all (λ f. f x) fs ≡ true))
  unfolding filter
  In-filter fs [] x = (λ h. absurd h, λ (h, _). absurd h)
  In-filter fs (obj ∷ objs) x = ground (arith, In-filter fs objs x, passes-eq-all fs obj)

-- The namespaces and the rest are all objects, each of which one of the two filters retains.
pub filter-partition :
    {O P : Type 0} (lib : Library O P) (objs : List O)
    → length (filter (retain_namespaces lib ∷ []) objs)
        + length (filter (retain_all_but_namespaces lib ∷ []) objs)
      ≡ length objs
unfolding filter passes retain_namespaces retain_all_but_namespaces
filter-partition lib [] = refl
filter-partition lib (obj ∷ objs) = ground (arith, filter-partition lib objs)
