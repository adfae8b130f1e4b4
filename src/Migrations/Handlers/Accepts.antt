-- ===== src/Migrations/Handlers/Accepts.antt =====
-- `is_type_compatible` against the rules for which typehints accept which.
use mountaineer.Base.{
  ℕ, zero, suc, ◌≡◌, ◌⊎◌, inl, inr, refl, sym, subst, true, Option, none, some, List, Eq, ◌==◌,
  contains, if◌then◌else◌, string_eq, nat_eq, option_eq, bool_eq, Bool-cases, index_from,
}
use mountaineer.Base.Exec.{Result, ok}
use mountaineer.Base.Results.{◌>>=◌}
use mountaineer.Migrations.Handlers.{
  Hint, Hints, class, instance_of, sequence, union, generic, no_hints, hint, Distance, max,
  fold_distances, each, each_pair, first_arg, class_distance, mro_distance, generic_distance,
  plain_distance, type_distance, is_type_compatible,
}
use mountaineer.Migrations.Handlers.Finite.{
  Finite, FiniteResult, bind-Finite, fold_max-Finite, fold_min-Finite, if-Finite,
  contains-index_from, equal, each-All, each-Any, each_pair-All, Member, Zipped,
}

module _ {C : Type 0} where
  module _ ⦃eq : Eq C⦄ (type_class alias_class : C) (mro : C → List C) where
    abbrev pub class_of : Hint C → Option C
    class_of (class c) = some c
    class_of (instance_of c) = some c
    class_of (sequence c items) = none
    class_of (union args) = none
    class_of (generic c args) = some alias_class

    -- A value or a typehint is one of those that a typehint stands for.
    pub data Accepts : Hint C → Hint C → Type 0 where
      all_of :
          (us : Hints C) (t : Hint C)
          → ((h : Hint C) → Member h us → Accepts h t)
          → Accepts (union us) t
      one_of : (g h : Hint C) (us : Hints C) → Member h us → Accepts g h → Accepts g (union us)
      the_class :
          (g h : Hint C) (hs : Hints C) → Accepts g h → Accepts g (generic type_class (hint h hs))
      arguments :
          (c : C) (gs hs : Hints C)
          → ((g h : Hint C) → Zipped g h gs hs → Accepts g h)
          → Accepts (generic c gs) (generic c hs)
      items :
          (c : C) (gs hs : Hints C) (t : Hint C)
          → ((g : Hint C) → Member g gs → Accepts g t)
          → Accepts (sequence c gs) (generic c (hint t hs))
      subclass :
          (g : Hint C) (c d : C)
          → class_of g ≡ some c
          → (c ≡ d) ⊎ (contains (mro c) d ≡ true)
          → Accepts g (class d)

    in_mro :
        (c d : C)
        → Finite (mro_distance type_class alias_class mro c d)
        → (c ≡ d) ⊎ (contains (mro c) d ≡ true)
    unfolding mro_distance
    in_mro c d f = elim (Bool-cases (c == d)) [
      | inl same ↦ inl (equal c d same)
      | inr differ ↦ inr (
          contains-index_from d 0 (mro c) (
            subst (λ b. Finite (if b then some 0 else index_from (λ e. e == d) 0 (mro c))) differ
              f))
    ]

    class_distance-Accepts :
        (g : Hint C) (d : C)
        → Finite (class_distance type_class alias_class mro g d)
        → Accepts g (class d)
    unfolding class_distance
    class_distance-Accepts (class c) d f = Accepts.subclass (class c) c d refl (in_mro c d f)
    class_distance-Accepts (instance_of c) d f =
        Accepts.subclass (instance_of c) c d refl (in_mro c d f)
    class_distance-Accepts (sequence c gs) d f = absurd f
    class_distance-Accepts (union us) d f = absurd f
    class_distance-Accepts (generic c gs) d f =
        Accepts.subclass (generic c gs) alias_class d refl (in_mro alias_class d f)

    module _ (rec : Hint C → Hint C → Result Distance)
        (sound : (g h : Hint C) → FiniteResult (rec g h) → Accepts g h) where
      the_class-Accepts :
          (g : Hint C) (hs : Hints C)
          → FiniteResult (first_arg hs (rec g))
          → Accepts g (generic type_class hs)
      the_class-Accepts g no_hints f = absurd f
      the_class-Accepts g (hint h hs) f = Accepts.the_class g h hs (sound g h f)

      sequence-Accepts :
          (c : C) (gs hs : Hints C)
          → FiniteResult (each (λ g. first_arg hs (rec g)) gs >>= fold_distances max)
          → Accepts (sequence c gs) (generic c hs)
      unfolding each
      sequence-Accepts c no_hints no_hints f = absurd f
      sequence-Accepts c (hint g gs) no_hints f = absurd f
      sequence-Accepts c gs (hint h hs) f =
          let (ds, found, folded) = bind-Finite (each (λ g. rec g h) gs) _ f in
          Accepts.items c gs hs h
            (λ g m. sound g h (each-All (λ x. rec x h) gs ds found (fold_max-Finite ds folded) g m))

      generic_distance-Accepts :
          (g : Hint C) (c : C) (hs : Hints C)
          → FiniteResult (generic_distance type_class alias_class mro rec g c hs)
          → Accepts g (generic c hs)
      unfolding generic_distance
      generic_distance-Accepts (class d) c hs f = absurd f
      generic_distance-Accepts (instance_of d) c hs f = absurd f
      generic_distance-Accepts (union us) c hs f = absurd f
      generic_distance-Accepts (generic d gs) c hs f = elim (if-Finite (d == c) _ _ f) [
        | inl (same, fin) ↦
            let (ds, found, folded) = bind-Finite (each_pair rec gs hs) _ fin in
            subst (λ x. Accepts (generic d gs) (generic x hs)) (equal d c same)
              (Accepts.arguments d gs hs (λ g h z.
                sound g h (each_pair-All rec gs hs ds found (fold_max-Finite ds folded) g h z)))
        | inr (differ, fin) ↦ absurd fin
      ]
      generic_distance-Accepts (sequence d gs) c hs f = elim (if-Finite (d == c) _ _ f) [
        | inl (same, fin) ↦
            subst (λ x. Accepts (sequence d gs) (generic x hs)) (equal d c same)
              (sequence-Accepts d gs hs fin)
        | inr (differ, fin) ↦ absurd fin
      ]

      plain_distance-Accepts :
          (g h : Hint C)
          → FiniteResult (plain_distance type_class alias_class mro rec g h)
          → Accepts g h
      unfolding plain_distance
      plain_distance-Accepts g (class c) f = class_distance-Accepts g c f
      plain_distance-Accepts g (instance_of c) f = absurd f
      plain_distance-Accepts g (sequence c hs) f = absurd f
      plain_distance-Accepts g (union us) f =
          let (ds, found, folded) = bind-Finite (each (rec g) us) _ f in
          let (h, m, fin) = each-Any (rec g) us ds found (fold_min-Finite ds folded) in
          Accepts.one_of g h us m (sound g h fin)
      plain_distance-Accepts g (generic c hs) f = elim (if-Finite (c == type_class) _ _ f) [
        | inl (same, fin) ↦
            subst (λ x. Accepts g (generic x hs)) (sym (equal c type_class same))
              (the_class-Accepts g hs fin)
        | inr (differ, fin) ↦ generic_distance-Accepts g c hs fin
      ]

      type_distance-Accepts :
          (g h : Hint C)
          → FiniteResult (type_distance type_class alias_class mro rec g h)
          → Accepts g h
      unfolding type_distance
      type_distance-Accepts (class c) h f = plain_distance-Accepts (class c) h f
      type_distance-Accepts (instance_of c) h f = plain_distance-Accepts (instance_of c) h f
      type_distance-Accepts (sequence c gs) h f = plain_distance-Accepts (sequence c gs) h f
      type_distance-Accepts (generic c gs) h f = plain_distance-Accepts (generic c gs) h f
      type_distance-Accepts (union us) h f =
          let (ds, found, folded) = bind-Finite (each (λ g. rec g h) us) _ f in
          Accepts.all_of us h
            (λ g m. sound g h (each-All (λ x. rec x h) us ds found (fold_max-Finite ds folded) g m))

    finite_Accepts :
        (fuel : ℕ) (g h : Hint C)
        → FiniteResult (is_type_compatible type_class alias_class mro fuel g h)
        → Accepts g h
    unfolding is_type_compatible
    finite_Accepts zero g h f = absurd f
    finite_Accepts (suc fuel) g h f =
        type_distance-Accepts (is_type_compatible type_class alias_class mro fuel)
          (finite_Accepts fuel) g h f

    -- Where `is_type_compatible` returns a finite distance, the target type accepts the object.
    pub is_type_compatible-Accepts :
        (fuel : ℕ) (obj_type target_type : Hint C) (d : ℕ)
        → is_type_compatible type_class alias_class mro fuel obj_type target_type ≡ ok (some d)
        → Accepts obj_type target_type
    is_type_compatible-Accepts fuel g h d e =
        finite_Accepts fuel g h (subst FiniteResult (sym e) tt)
