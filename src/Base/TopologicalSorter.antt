-- ===== src/Base/TopologicalSorter.antt =====
-- The standard library's `graphlib.TopologicalSorter`, for a graph that gives each of its nodes the
-- list of its predecessors. The nodes that are ready stand in a queue; a node is put into it when
-- the last of its predecessors is done. `prepare` raises for a cycle before anything is returned,
-- which is the case where the queue runs empty early.
pub mod Queue
pub mod Order
use Prim.Native.Nat.{ℕ, zero, suc}
use mathlib.Core.Bool.{Bool, true, false, not, ◌&&◌, ◌||◌}
use mathlib.Core.Option.{Option, none, some}
use mathlib.Core.List.{List, [], ◌∷◌, ◌++◌}
use mountaineer.Base.Equality.{Eq, ◌==◌, contains, if◌then◌else◌, nat_eq}
use mountaineer.Base.Dict.{
  Dict, keys, values, lookup, insert, erase, NodupKeys, lookup-insert, lookup-erase,
  insert-NodupKeys, erase-NodupKeys, lookup-insert_cases, lookup-insert_known, lookup-insert_self,
  contains-keys-insert, contains-keys_found,
}
use mountaineer.Base.Exec.{
  Error, Result, ok, err, value_error, type_error, key_error, attribute_error, assertion_error,
  not_implemented_error, cycle_error, invalid_request_error, database_error, result_error,
  index_error, out_of_fuel, Exec, pure, raise, lift, continue, ◌>>=◌, ◌>>◌, guard, when, for_each,
  ok-injective, Result-cases, >>=-eq-ok,
}
use mountaineer.Base.FrozenSets.{is_subset}
use mountaineer.Base.Lists.{length}

-- `[x for x in xs if p(x)]`
unfoldable pub keep {ℓ} : {A : Type ℓ} → (A → Bool) → List A → List A
keep p [] = []
keep p (x ∷ xs) = let rest = keep p xs in if p x then x ∷ rest else rest

module _ {A : Type 0} ⦃eq : Eq A⦄ where
  abbrev pub or_empty : Option (List A) → List A
  or_empty none = []
  or_empty (some l) = l

  abbrev pub predecessors : Dict A (List A) → A → List A
  predecessors graph n = or_empty (lookup n graph)

  -- The nodes that are ready once `n` is done, where `done` has `n` and all that were done before.
  unfoldable pub released : Dict A (List A) → List A → A → List A
  released graph done n =
      keep (λ m. contains (predecessors graph m) n && is_subset (predecessors graph m) done)
        (keys graph)

  abbrev pub is_source : Dict A (List A) → A → Bool
  is_source graph n = is_subset (predecessors graph n) []

  -- The nodes in the order in which they are done, on fuel.
  unfoldable pub drain : Dict A (List A) → ℕ → List A → List A → List A
  drain graph fuel done [] = done
  drain graph zero done (n ∷ queue) = done
  drain graph (suc fuel) done (n ∷ queue) =
      let done' = done ++ n ∷ [] in drain graph fuel done' (queue ++ released graph done' n)

  abbrev pub add_node : List A → A → List A
  add_node nodes n = if contains nodes n then nodes else nodes ++ n ∷ []

  abbrev pub add_nodes : List A → List A → List A
  add_nodes nodes [] = nodes
  add_nodes nodes (n ∷ ns) = add_nodes (add_node nodes n) ns

  -- Each node when it is first heard of: a node stands before its predecessors.
  unfoldable pub nodes_of : List A → Dict A (List A) → List A
  nodes_of nodes [] = nodes
  nodes_of nodes ((n, ps) ∷ graph) = nodes_of (add_nodes (add_node nodes n) ps) graph

  abbrev pub is_ready : Dict A (List A) → A → Bool
  is_ready graph n = contains (keys graph) n && is_source graph n

  -- `static_order`, for a graph in which every predecessor is a key
  unfoldable pub static_order : Dict A (List A) → Result (List A)
  static_order graph =
      let order = drain graph (length graph) [] (keep (is_ready graph) (nodes_of [] graph)) in
      if length order == length graph then ok order else err cycle_error
