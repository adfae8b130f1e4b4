-- ===== src/Tests/Typehints.antt =====
-- Typehints, the handlers that fit them, and type variables. The classes are numbers.
use mountaineer.Base.{
  ℕ, ◌<◌, arith, ◌≡◌, refl, false, Option, none, some, List, [], ◌∷◌, String, ◌==◌, contains,
  if◌then◌else◌, string_eq, nat_eq, option_eq, bool_eq, index_from, All,
}
use mountaineer.Base.Exec.{Result, ok, err, value_error}
use mountaineer.Base.Dict.{Dict, keys, lookup, insert}
use mountaineer.Base.TopologicalSorter.{keep}
use mountaineer.Base.Sorting.{sorted}
use mountaineer.Migrations.Handlers.{
  Hint, class, sequence, union, generic, no_hints, hint, Distance, is_type_compatible, each,
  each_pair, mro_distance, class_distance, generic_distance, plain_distance, type_distance,
}
use mountaineer.Migrations.Handlers.Fuel.{Ended, size, is_type_compatible-Ended}
use mountaineer.Migrations.Handlers.Accepts.{Accepts, is_type_compatible-Accepts}
use mountaineer.Migrations.Handlers.Delegation.{
  register_handler, raw_candidates, min_priority, find_handler, delegate, node_set,
  all_dependencies,
}
use mountaineer.Migrations.Handlers.Delegation.Closest.{ClosestAt, find_handler_lem}
use mountaineer.Migrations.Handlers.Typevars.{
  TypeValue, typevar, type_value, OrigBase, zip_dict, update_mapping, add_bases,
  get_typevar_mapping, expand, expand_values, expand_typevars,
}
use mountaineer.Migrations.Handlers.Typevars.Expansion.{Ranked, AllFinal, expand_typevars-AllFinal}

-- 0 is `object`, 1 is `type`, 2 is `int`, 3 is `bool`, 4 is `list`, 5 is `str`, 6 is the alias class.
abbrev mro : ℕ → List ℕ
mro n = if n == 3 then 3 ∷ 2 ∷ 0 ∷ [] else n ∷ 0 ∷ []

abbrev ints : Hint ℕ
ints = generic 4 (hint (class 2) no_hints)

-- `list[bool]` and `list[int] | str`
abbrev bools : Hint ℕ
bools = generic 4 (hint (class 3) no_hints)

abbrev ints_or_str : Hint ℕ
ints_or_str = union (hint ints (hint (class 5) no_hints))

abbrev distance : Hint ℕ → Hint ℕ → Result Distance
distance = is_type_compatible 1 6 mro 9

bools_fit : distance bools ints_or_str ≡ ok (some 1)
unfolding is_type_compatible type_distance plain_distance generic_distance class_distance
    mro_distance each each_pair index_from nat_eq
bools_fit = refl

-- An empty list and `list[int]`
empty_list : distance (sequence 4 no_hints) ints ≡ err value_error
unfolding is_type_compatible type_distance plain_distance generic_distance each nat_eq
empty_list = refl

is_type_compatible-Accepts_example : Accepts 1 6 mro bools ints_or_str
is_type_compatible-Accepts_example =
    is_type_compatible-Accepts 1 6 mro 9 bools ints_or_str 1 bools_fit

is_type_compatible-Ended_example : Ended (is_type_compatible 1 6 mro 9 bools ints_or_str)
is_type_compatible-Ended_example =
    is_type_compatible-Ended 1 6 mro 9 bools ints_or_str (unfold size in omega arith)

abbrev registered : Dict (Hint ℕ) String
registered = (class 2, "int") ∷ (class 5, "str") ∷ (class 0, "object") ∷ []

picked : find_handler (distance (class 3)) registered ≡ ok "int"
unfolding find_handler raw_candidates min_priority keep is_type_compatible type_distance
    plain_distance class_distance mro_distance index_from nat_eq
picked = refl

find_handler_lem_example : (d : ℕ) × ClosestAt (distance (class 3)) d registered "int"
find_handler_lem_example = find_handler_lem (distance (class 3)) registered "int" picked

registered_twice :
    register_handler {T = String} {H = ℕ} (some "int") 1 (("int", 0) ∷ []) ≡ err value_error
unfolding register_handler lookup string_eq
registered_twice = refl

yielded : delegate (distance (class 3)) (λ h. ok []) registered [] ≡ ok []
unfolding delegate find_handler raw_candidates min_priority keep is_type_compatible type_distance
    plain_distance class_distance mro_distance index_from nat_eq
yielded = refl

no_dependencies : all_dependencies [] [] ≡ []
unfolding all_dependencies node_set sorted
no_dependencies = refl

-- `class A(Generic[T])`, `class B(A[U], Generic[U])`, `class C(B[int])`: T to U, and U to `int`
abbrev classes : List (Option (List (Option (OrigBase String String))))
classes =
    none
    ∷ some (
        some (record { base_params = "T" ∷ []; instantiated_params = typevar "U" ∷ [] })
        ∷ none
        ∷ [])
    ∷ some
        (some (record { base_params = "U" ∷ []; instantiated_params = type_value "int" ∷ [] }) ∷ [])
    ∷ []

abbrev raw : Dict String (TypeValue String String)
raw = ("T", typevar "U") ∷ ("U", type_value "int") ∷ []

mapped : get_typevar_mapping [] classes ≡ raw
unfolding get_typevar_mapping add_bases update_mapping zip_dict insert lookup string_eq
mapped = refl

expanded : expand_typevars 4 raw ≡ ok (("T", type_value "int") ∷ ("U", type_value "int") ∷ [])
unfolding expand_values expand insert lookup string_eq
expanded = refl

abbrev rank : TypeValue String String → ℕ
rank (typevar t) = if t == "T" then 2 else if t == "U" then 1 else 0
rank (type_value c) = 0

U_is_not_T : ◌==◌ {A = String} "U" "T" ≡ false
unfolding string_eq
U_is_not_T = refl

raw-Ranked : Ranked raw rank
unfolding lookup
raw-Ranked (typevar t) w h = ground (arith, U_is_not_T)
raw-Ranked (type_value c) w h = absurd (ground arith)

raw_small : All (λ (k, v). rank v < 4) raw
unfolding string_eq
raw_small = ground arith

expand_typevars-AllFinal_example :
    (out : Dict String (TypeValue String String)) × (expand_typevars 4 raw ≡ ok out)
    × AllFinal raw out
    × ((k : String) → contains (keys out) k ≡ contains (keys raw) k)
expand_typevars-AllFinal_example = expand_typevars-AllFinal raw rank 4 raw-Ranked raw_small
