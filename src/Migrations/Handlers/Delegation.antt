-- ===== src/Migrations/Handlers/Delegation.antt =====
-- mountaineer/migrations/db_memory_serializer.py: `register_handler` and `delegate`. What a handler
-- makes of an object is a parameter, and so is the type variable that `get_typevar_mapping` finds
-- for a handler class.
pub mod Closest
use mountaineer.Base.{
  ℕ, zero, suc, ◌+◌, ◌-◌, ◌*◌, ◌≤◌, ◌<◌, ltb, leb, ltb→lt, leb→le, lt→ltb, arith, ◌≡◌, ◌≢◌, ◌↔◌,
  ◌⊎◌, inl, inr, refl, sym, ap, subst, ◌∙◌, ◌≡⟨◌⟩◌, ◌∎, ite, dite, if_pos, if_neg, Bool, true,
  false, not, ◌&&◌, ◌||◌, false≢true, Option, none, some, List, [], ◌∷◌, ◌++◌, map, String, ◌<>◌,
  Eq, ◌==◌, ==-true, ==-false, contains, if◌then◌else◌, string_eq, nat_eq, option_eq, bool_eq,
  Bool-cases, Option-cases, length, drop, get_elem?, index_from, CutAt, index_from-CutAt, all, All,
  All-append, All-suffix, all-append, length-append,
}
use mountaineer.Base.Exec.{
  Error, Result, ok, err, value_error, type_error, key_error, attribute_error, assertion_error,
  not_implemented_error, cycle_error, invalid_request_error, database_error, result_error,
  index_error, out_of_fuel, Exec, pure, raise, lift, continue, guard, when, for_each, ok-injective,
  Result-cases, >>=-eq-ok,
}
use mountaineer.Base.Dict.{
  Dict, keys, values, lookup, insert, erase, NodupKeys, lookup-insert, lookup-erase,
  insert-NodupKeys, erase-NodupKeys, lookup-insert_cases, lookup-insert_known, lookup-insert_self,
}
use mountaineer.Base.Results.{◌>>=◌}
use mountaineer.Base.Sorting.{sorted, string_le}
use mountaineer.Base.TopologicalSorter.{keep}
use mountaineer.Migrations.Stubs.{
  DbObject, DbObjectPointer, column_pointer, type_pointer, same_object,
}
use mountaineer.Migrations.Serializer.Ordering.{Node, object, pointer, node_name, Item}
use mountaineer.Migrations.Handlers.{Distance}

-- `registered_next`, `handler` and `priority`
abbrev pub Candidate : Type 0 → Type 0 → Type 0
Candidate T H = T × H × ℕ

module _ {T H : Type 0} where
  -- `mapping[N]` is `none` where the mapping has no `N`
  unfoldable pub register_handler : ⦃eq : Eq T⦄ → Option T → H → Dict T H → Result (Dict T H)
  register_handler none handler handlers = err value_error
  register_handler (some next) handler handlers = elim (lookup next handlers) [
    | some h ↦ err value_error
    | none ↦ ok (insert next handler handlers)
  ]

  abbrev add_candidate : T → H → Distance → List (Candidate T H) → List (Candidate T H)
  add_candidate t h none candidates = candidates
  add_candidate t h (some n) candidates = (t, h, n) ∷ candidates

  -- `raw_candidates`, where `type_priority` compares the object with a type
  unfoldable pub raw_candidates : (T → Result Distance) → Dict T H → Result (List (Candidate T H))
  raw_candidates type_priority [] = ok []
  raw_candidates type_priority ((t, h) ∷ handlers) = do
    d ← type_priority t
    rest ← raw_candidates type_priority handlers
    ok (add_candidate t h d rest)

  -- `min`, from the priority of the first candidate
  unfoldable pub min_priority : ℕ → List (Candidate T H) → ℕ
  min_priority best [] = best
  min_priority best ((t, h, n) ∷ candidates) =
      let next = if ltb n best then n else best in min_priority next candidates

  abbrev the_only : List (Candidate T H) → Result H
  the_only [] = err index_error
  the_only ((t, h, n) ∷ []) = ok h
  the_only (c ∷ d ∷ candidates) = err value_error

  abbrev is_best : ℕ → Candidate T H → Bool
  is_best best (t, h, n) = n == best

  abbrev pub most_specific : List (Candidate T H) → Result H
  most_specific [] = err value_error
  most_specific ((t, h, n) ∷ candidates) =
      the_only (keep (is_best (min_priority n candidates)) ((t, h, n) ∷ candidates))

  -- The handler that `delegate` picks
  unfoldable pub find_handler : (T → Result Distance) → Dict T H → Result H
  find_handler type_priority handlers = raw_candidates type_priority handlers >>= most_specific

abbrev same_pointer : DbObjectPointer → DbObjectPointer → Bool
same_pointer (column_pointer t c) (column_pointer u d) = t == u && c == d
same_pointer (type_pointer n) (type_pointer m) = n == m
same_pointer _ _ = false

abbrev same_node : Node → Node → Bool
same_node (object o) (object p) = same_object o p
same_node (pointer p) (pointer q) = same_pointer p q
same_node _ _ = false

-- `set(nodes)`, over the nodes that stand in it already
unfoldable pub node_set : List Node → List Node → List Node
node_set set [] = set
node_set set (n ∷ ns) = elim (all (λ m. not (same_node m n)) set) [
  | true ↦ node_set (set ++ n ∷ []) ns
  | false ↦ node_set set ns
]

-- `sorted(set(dependencies) | set(dependent_on or []), key=...)`
unfoldable pub all_dependencies : List Node → List Node → List Node
all_dependencies dependencies dependent_on =
    sorted (λ n m. string_le (node_name n) (node_name m))
      (node_set [] (dependencies ++ dependent_on))

-- The results that `delegate` yields
unfoldable pub delegate :
    {T H : Type 0}
    → (T → Result Distance)
    → (H → Result (List Item))
    → Dict T H
    → List Node
    → Result (List Item)
delegate type_priority convert handlers dependent_on = do
  handler ← find_handler type_priority handlers
  results ← convert handler
  ok (map (λ (n, dependencies). (n, all_dependencies dependencies dependent_on)) results)
