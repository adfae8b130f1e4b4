-- ===== src/Migrations/Handlers/Fuel.antt =====
-- The fuel of `is_type_compatible`.
use mountaineer.Base.{
  ℕ, zero, suc, ◌+◌, ◌≤◌, ◌<◌, arith, ◌≢◌, Bool, true, false, List, [], ◌∷◌, Eq, ◌==◌,
  if◌then◌else◌, string_eq, nat_eq, option_eq, bool_eq,
}
use mountaineer.Base.Exec.{Result, ok, err, out_of_fuel}
use mountaineer.Base.Results.{◌>>=◌}
use mountaineer.Migrations.Handlers.{
  Hint, Hints, class, instance_of, sequence, union, generic, no_hints, hint, Distance, min, max,
  fold_distances, each, each_pair, first_arg, generic_distance, plain_distance, type_distance,
  is_type_compatible,
}

-- It has ended: it returned, or it raised what Python raises.
abbrev pub Ended : {A : Type 0} → Result A → Type 0
Ended (ok a) = Unit
Ended (err e) = e ≢ out_of_fuel

bind-Ended :
    {A B : Type 0} (first : Result A) (rest : A → Result B)
    → Ended first
    → ((a : A) → Ended (rest a))
    → Ended (first >>= rest)
bind-Ended (ok a) rest f r = r a
bind-Ended (err e) rest f r = f

fold_distances-Ended :
    (f : Distance → Distance → Distance) (ds : List Distance) → Ended (fold_distances f ds)
fold_distances-Ended f [] = λ h. cc
fold_distances-Ended f (d ∷ []) = tt
fold_distances-Ended f (d ∷ e ∷ ds) =
    bind-Ended (fold_distances f (e ∷ ds)) _ (fold_distances-Ended f (e ∷ ds)) (λ a. tt)

if-Ended : {A : Type 0} (b : Bool) (r s : Result A) → Ended r → Ended s → Ended (if b then r else s)
if-Ended true r s e f = e
if-Ended false r s e f = f

then_folded :
    (r : Result (List Distance)) (f : Distance → Distance → Distance)
    → Ended r
    → Ended (r >>= fold_distances f)
then_folded r f ended = bind-Ended r _ ended (fold_distances-Ended f)

module _ {C : Type 0} where
  unfoldable mutual
    pub size : Hint C → ℕ
    size (class c) = 1
    size (instance_of c) = 1
    size (sequence c items) = suc (size_all items)
    size (union args) = suc (size_all args)
    size (generic c args) = suc (size_all args)

    pub size_all : Hints C → ℕ
    size_all no_hints = 0
    size_all (hint h hs) = size h + size_all hs

  each-Ended :
      (f : Hint C → Result Distance) (hs : Hints C)
      → ((h : Hint C) → size h ≤ size_all hs → Ended (f h))
      → Ended (each f hs)
  unfolding each size
  each-Ended f no_hints ended = tt
  each-Ended f (hint h hs) ended = bind-Ended (f h) _ (ended h (omega arith)) (λ d.
      bind-Ended (each f hs) _ (each-Ended f hs (λ g small. ended g (omega arith))) (λ ds. tt))

  each_pair-Ended :
      (f : Hint C → Hint C → Result Distance) (gs hs : Hints C)
      → ((g h : Hint C) → size g ≤ size_all gs → size h ≤ size_all hs → Ended (f g h))
      → Ended (each_pair f gs hs)
  unfolding each_pair size
  each_pair-Ended f no_hints hs ended = tt
  each_pair-Ended f (hint g gs) no_hints ended = tt
  each_pair-Ended f (hint g gs) (hint h hs) ended =
      bind-Ended (f g h) _ (ended g h (omega arith) (omega arith)) (λ d.
        bind-Ended (each_pair f gs hs) _
          (each_pair-Ended f gs hs (λ a b small small'. ended a b (omega arith) (omega arith)))
          (λ ds. tt))

  first_arg-Ended :
      (hs : Hints C) (f : Hint C → Result Distance)
      → ((h : Hint C) → size h ≤ size_all hs → Ended (f h))
      → Ended (first_arg hs f)
  unfolding size
  first_arg-Ended no_hints f ended = λ h. cc
  first_arg-Ended (hint h hs) f ended = ended h (omega arith)

  module _ ⦃eq : Eq C⦄ (type_class alias_class : C) (mro : C → List C)
      (rec : Hint C → Hint C → Result Distance) where
    generic_distance-Ended :
        (g : Hint C) (c : C) (args : Hints C)
        → ((a b : Hint C) → size a + size b < size g + suc (size_all args) → Ended (rec a b))
        → Ended (generic_distance type_class alias_class mro rec g c args)
    unfolding generic_distance size
    generic_distance-Ended (class d) c args ended = tt
    generic_distance-Ended (instance_of d) c args ended = tt
    generic_distance-Ended (union us) c args ended = tt
    generic_distance-Ended (generic d us) c args ended =
        if-Ended (d == c) _ _
          (then_folded (each_pair rec us args) max
            (each_pair-Ended rec us args (λ g h small small'. ended g h (omega arith))))
          tt
    generic_distance-Ended (sequence d us) c args ended =
        if-Ended (d == c) _ _
          (then_folded (each (λ h. first_arg args (rec h)) us) max (
            each-Ended (λ h. first_arg args (rec h)) us
              (λ g small. first_arg-Ended args (rec g) (λ h small'. ended g h (omega arith)))))
          tt

    plain_distance-Ended :
        (g h : Hint C)
        → ((a b : Hint C) → size a + size b < size g + size h → Ended (rec a b))
        → Ended (plain_distance type_class alias_class mro rec g h)
    unfolding plain_distance size
    plain_distance-Ended g (class c) ended = tt
    plain_distance-Ended g (instance_of c) ended = tt
    plain_distance-Ended g (sequence c items) ended = tt
    plain_distance-Ended g (union args) ended =
        then_folded (each (rec g) args) min
          (each-Ended (rec g) args (λ h small. ended g h (omega arith)))
    plain_distance-Ended g (generic c args) ended =
        if-Ended (c == type_class) _ _
          (first_arg-Ended args (rec g) (λ h small. ended g h (omega arith)))
          (generic_distance-Ended g c args ended)

    type_distance-Ended :
        (g h : Hint C)
        → ((a b : Hint C) → size a + size b < size g + size h → Ended (rec a b))
        → Ended (type_distance type_class alias_class mro rec g h)
    unfolding type_distance size
    type_distance-Ended (class c) h ended = plain_distance-Ended (class c) h ended
    type_distance-Ended (instance_of c) h ended = plain_distance-Ended (instance_of c) h ended
    type_distance-Ended (sequence c items) h ended = plain_distance-Ended (sequence c items) h ended
    type_distance-Ended (generic c args) h ended = plain_distance-Ended (generic c args) h ended
    type_distance-Ended (union args) h ended =
        then_folded (each (λ g. rec g h) args) max
          (each-Ended (λ g. rec g h) args (λ g small. ended g h (omega arith)))

  -- With fuel beyond the size of both typehints, `is_type_compatible` ends: it returns a distance,
  -- or it raises what Python raises.
  pub is_type_compatible-Ended :
      ⦃eq : Eq C⦄ (type_class alias_class : C) (mro : C → List C) (fuel : ℕ)
      (obj_type target_type : Hint C)
      → size obj_type + size target_type < fuel
      → Ended (is_type_compatible type_class alias_class mro fuel obj_type target_type)
  unfolding is_type_compatible
  is_type_compatible-Ended type_class alias_class mro zero g h small = absurd (omega arith)
  is_type_compatible-Ended type_class alias_class mro (suc fuel) g h small =
      type_distance-Ended type_class alias_class mro _ g h
        (λ a b less. is_type_compatible-Ended type_class alias_class mro fuel a b (omega arith))
