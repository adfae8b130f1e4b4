-- ===== src/Migrations/Handlers.antt =====
-- mountaineer/migrations/generics.py, mountaineer/generics.py, and `register_handler` and
-- `delegate` of mountaineer/migrations/db_memory_serializer.py. A typehint or a value is what
-- `isinstance`, `get_origin` and `get_args` tell of it; the classes and their method resolution
-- orders belong to Python. A distance of `none` is infinite.
pub mod Fuel
pub mod Typevars
pub mod Finite
pub mod Accepts
pub mod Delegation
use mountaineer.Base.{
  ℕ, zero, suc, ◌+◌, ◌-◌, ◌*◌, ◌≤◌, ◌<◌, ltb, leb, ltb→lt, leb→le, lt→ltb, arith, ◌≡◌, ◌≢◌, ◌↔◌,
  ◌⊎◌, inl, inr, refl, sym, ap, subst, ◌∙◌, ◌≡⟨◌⟩◌, ◌∎, ite, dite, if_pos, if_neg, Bool, true,
  false, not, ◌&&◌, ◌||◌, false≢true, Option, none, some, List, [], ◌∷◌, ◌++◌, map, String, ◌<>◌,
  Eq, ◌==◌, ==-true, ==-false, contains, if◌then◌else◌, string_eq, nat_eq, option_eq, bool_eq,
  Bool-cases, Option-cases, length, drop, get_elem?, index_from, CutAt, index_from-CutAt, all, All,
  All-append, All-suffix, all-append, length-append,
}
use mountaineer.Base.Exec.{
  Error, Result, ok, err, value_error, type_error, key_error, attribute_error, assertion_error,
  not_implemented_error, cycle_error, invalid_request_error, database_error, result_error,
  index_error, out_of_fuel, Exec, pure, raise, lift, continue, guard, when, for_each, ok-injective,
  Result-cases, >>=-eq-ok,
}
use mountaineer.Base.Results.{◌>>=◌}

mutual
  pub data Hint (C : Type 0) : Type 0 where
    -- a class
    class : C → Hint C
    -- an instance of a class, other than the next
    instance_of : C → Hint C
    -- a list, a set or a tuple, with its class
    sequence : C → Hints C → Hint C
    -- `A | B`
    union : Hints C → Hint C
    -- `origin[args]`
    generic : C → Hints C → Hint C

  pub data Hints (C : Type 0) : Type 0 where
    no_hints : Hints C
    hint : Hint C → Hints C → Hints C

abbrev pub Distance : Type 0
Distance = Option ℕ

abbrev pub min : Distance → Distance → Distance
min none e = e
min (some m) none = some m
min (some m) (some n) = if ltb n m then some n else some m

abbrev pub max : Distance → Distance → Distance
max none e = none
max (some m) none = none
max (some m) (some n) = if ltb m n then some n else some m

-- `min(xs)` and `max(xs)`
abbrev pub fold_distances : (Distance → Distance → Distance) → List Distance → Result Distance
fold_distances f [] = err value_error
fold_distances f (d ∷ []) = ok d
fold_distances f (d ∷ e ∷ ds) = do rest ← fold_distances f (e ∷ ds); ok (f d rest)

module _ {C : Type 0} where
  -- `(f(h) for h in hints)`
  unfoldable pub each : (Hint C → Result Distance) → Hints C → Result (List Distance)
  each f no_hints = ok []
  each f (hint h hs) = do d ← f h; ds ← each f hs; ok (d ∷ ds)

  -- `(f(g, h) for g, h in zip(gs, hs))`
  unfoldable pub each_pair :
      (Hint C → Hint C → Result Distance) → Hints C → Hints C → Result (List Distance)
  each_pair f no_hints hs = ok []
  each_pair f (hint g gs) no_hints = ok []
  each_pair f (hint g gs) (hint h hs) = do d ← f g h; ds ← each_pair f gs hs; ok (d ∷ ds)

  -- `get_args(target_type)[0]`
  abbrev first_arg : Hints C → (Hint C → Result Distance) → Result Distance
  first_arg no_hints f = err index_error
  first_arg (hint h hs) f = f h

  -- The class `type`, the class of all generic types (Python has `types.GenericAlias` and those of
  -- `typing`), and each class's `mro`. No class is a metaclass: the `mro` of one cannot be called so.
  module _ ⦃eq : Eq C⦄ (type_class alias_class : C) (mro : C → List C) where
    abbrev index_of : C → List C → Option ℕ
    index_of c cs = index_from (λ d. d == c) 0 cs

    unfoldable pub mro_distance : C → C → Distance
    mro_distance obj_type target_type =
        if obj_type == target_type then some 0 else index_of target_type (mro obj_type)

    -- Where the target is a class
    unfoldable pub class_distance : Hint C → C → Distance
    class_distance (class c) d = mro_distance c d
    class_distance (instance_of c) d = mro_distance c d
    class_distance (sequence c items) d = none
    class_distance (union args) d = none
    class_distance (generic c args) d = mro_distance alias_class d

    module _ (is_compatible : Hint C → Hint C → Result Distance) where
      -- Where the target is `target_origin[target_args]`, for another origin than `type`
      unfoldable pub generic_distance : Hint C → C → Hints C → Result Distance
      generic_distance (generic c args) target_origin target_args =
          if c == target_origin
          then (each_pair is_compatible args target_args >>= fold_distances max)
          else ok none
      generic_distance (sequence c items) target_origin target_args =
          if c == target_origin
          then (each (λ h. first_arg target_args (is_compatible h)) items >>= fold_distances max)
          else ok none
      generic_distance (class c) target_origin target_args = ok none
      generic_distance (instance_of c) target_origin target_args = ok none
      generic_distance (union args) target_origin target_args = ok none

      -- Where the object is no union
      unfoldable pub plain_distance : Hint C → Hint C → Result Distance
      plain_distance h (union args) = each (is_compatible h) args >>= fold_distances min
      plain_distance h (generic c args) =
          if c == type_class then first_arg args (is_compatible h) else generic_distance h c args
      plain_distance h (class c) = ok (class_distance h c)
      plain_distance h (instance_of c) = ok none
      plain_distance h (sequence c items) = ok none

      -- The body of `is_type_compatible`, over its recursive calls
      unfoldable pub type_distance : Hint C → Hint C → Result Distance
      type_distance (union args) target_type =
          each (λ h. is_compatible h target_type) args >>= fold_distances max
      type_distance (class c) target_type = plain_distance (class c) target_type
      type_distance (instance_of c) target_type = plain_distance (instance_of c) target_type
      type_distance (sequence c items) target_type = plain_distance (sequence c items) target_type
      type_distance (generic c args) target_type = plain_distance (generic c args) target_type

    -- On fuel
    unfoldable pub is_type_compatible : ℕ → Hint C → Hint C → Result Distance
    is_type_compatible zero obj_type target_type = err out_of_fuel
    is_type_compatible (suc fuel) obj_type target_type =
        type_distance (is_type_compatible fuel) obj_type target_type
