-- ===== src/Migrations/Serializer/Ordering/Places.antt =====
-- `order_db_objects`: the dict of the merged objects, and the places that are counted over it.
use mountaineer.Base.{
  ℕ, suc, arith, ◌≡◌, inl, inr, refl, sym, ap, subst, ◌∙◌, true, Option, none, some, List, [], ◌∷◌,
  ◌++◌, map, String, contains, string_eq, nat_eq, option_eq, bool_eq,
}
use mountaineer.Base.Exec.{ok, value_error, ok-injective}
use mountaineer.Base.Dict.{Dict, keys, lookup, insert, lookup-insert_cases, contains-keys_found}
use mountaineer.Base.Results.{or_key_error, bind-ok, check}
use mountaineer.Base.FrozenSets.{is_subset}
use mountaineer.Base.TopologicalSorter.{static_order, or_empty}
use mountaineer.Base.TopologicalSorter.Queue.{Distinct}
use mountaineer.Base.TopologicalSorter.Order.{static_order_sound}
use mountaineer.Migrations.Stubs.{DbObject, representation}
use mountaineer.Migrations.Stubs.Merging.{representation-merge}
use mountaineer.Migrations.Serializer.Ordering.{
  Node, object, pointer, node_name, Item, merge_into, merge_by_name, pointers_resolve, graph_edges,
  enumerate_objects, order_db_objects,
}
use mountaineer.Migrations.Serializer.Ordering.Dependencies.{
  item_name, LastFor, ordered_split, graph_edges-NodupKeys, graph_edges-keys, graph_edges-last,
}

abbrev pub placed : List (DbObject × ℕ) → List String
placed = map (λ (o, i). representation o)

-- The places count from `i`.
abbrev pub Counts : ℕ → List (DbObject × ℕ) → Type 0
Counts i [] = Unit
Counts i ((o, n) ∷ order) = (n ≡ i) × Counts (suc i) order

-- Each object stands under its name.
abbrev Named : Dict String DbObject → Type 0
Named d = (k : String) (o : DbObject) → lookup k d ≡ some o → representation o ≡ k

representation-merge_into :
    (current : Option DbObject) (o merged : DbObject)
    → ((c : DbObject) → current ≡ some c → representation c ≡ representation o)
    → merge_into current o ≡ ok merged
    → representation merged ≡ representation o
representation-merge_into none o merged same h = ap representation (sym (ok-injective h))
representation-merge_into (some c) o merged same h = representation-merge c o merged h ∙ same c refl

merge_by_name-Named :
    (d e : Dict String DbObject) (items : List Item)
    → Named d
    → merge_by_name d items ≡ ok e
    → Named e
unfolding merge_by_name
merge_by_name-Named d e [] named h = subst Named (ok-injective h) named
merge_by_name-Named d e ((pointer p, ns) ∷ items) named h = merge_by_name-Named d e items named h
merge_by_name-Named d e ((object o, ns) ∷ items) named h =
    let name = representation o in
    let (merged, joined, rest) = bind-ok (merge_into (lookup name d) o) _ e h in
    let same = representation-merge_into (lookup name d) o merged (named name) joined in
    merge_by_name-Named (insert name merged d) e items
      (λ k p found. elim (lookup-insert_cases k name merged p d found) [
        | inl (here, is) ↦ ap representation (sym is) ∙ same ∙ sym here
        | inr there ↦ named k p there
      ])
      rest

enumerate_objects-placed :
    (d : Dict String DbObject) (i : ℕ) (names : List String) (order : List (DbObject × ℕ))
    → Named d
    → enumerate_objects d i names ≡ ok order
    → (placed order ≡ names) × Counts i order
unfolding enumerate_objects
enumerate_objects-placed d i [] order named h =
    subst (λ o. (placed o ≡ []) × Counts i o) (ok-injective h) (refl, tt)
enumerate_objects-placed d i (name ∷ names) order named h =
    let (o, found, h1) = bind-ok (or_key_error (lookup name d)) _ order h in
    let (rest, later, h2) = bind-ok (enumerate_objects d (suc i) names) _ order h1 in
    let (same, counts) = enumerate_objects-placed d (suc i) names rest named later in
    let here : representation o ≡ name = named name o (ground arith) in
    subst (λ l. (placed l ≡ name ∷ names) × Counts i l) (ok-injective h2)
      (rw (here, same) refl, (refl, counts))

-- Once the graph is ordered, what is given last for a node stands before it.
placed_after :
    (items : List Item) (n : Node) (dependencies : List Node) (d : Dict String DbObject)
    (g : Dict String (List String)) (names : List String)
    → LastFor items n dependencies
    → graph_edges d [] items ≡ ok g
    → static_order g ≡ ok names
    → (before : List String) × (after : List String) × (names ≡ before ++ node_name n ∷ after)
      × (is_subset (map node_name dependencies) before ≡ true)
placed_after items n dependencies d g names last edges ordered =
    let (pre, post, split, other) = last in
    let once = graph_edges-NodupKeys d [] items g tt edges in
    let (_, behind, same) = static_order_sound g names once ordered in
    let found =
      graph_edges-last d [] pre post n dependencies g other
        (ap (graph_edges d []) (sym split) ∙ edges) in
    let here : contains names (node_name n) ≡ true =
      same (node_name n) ∙ contains-keys_found (node_name n) (map node_name dependencies) g found in
    let (before, after, at, sub) = ordered_split g [] names (node_name n) behind here in
    (before, after, at, subst (λ o. is_subset (or_empty o) before ≡ true) found sub)

-- When `order_db_objects` returns, each object that the generator gave, alone or as a pointer,
-- stands in the order once and nothing else does, the places count up from 0, and all that the
-- generator gave last as the dependencies of an object stand before it.
pub order_db_objects_lem :
    (items : List Item) (order : List (DbObject × ℕ))
    → order_db_objects items ≡ ok order
    → Distinct (placed order)
      × Counts 0 order
      × ((m : String) → contains (placed order) m ≡ contains (map item_name items) m)
      × ((n : Node) (dependencies : List Node)
          → LastFor items n dependencies
          → (before : List String) × (after : List String) × (placed order
              ≡ before ++ node_name n ∷ after)
            × (is_subset (map node_name dependencies) before ≡ true))
unfolding order_db_objects lookup contains keys
order_db_objects_lem items order h =
    let (d, merged, h1) = bind-ok (merge_by_name [] items) _ order h in
    let (_, _, h2) = bind-ok (check value_error (pointers_resolve d items)) _ order h1 in
    let (g, edges, h3) = bind-ok (graph_edges d [] items) _ order h2 in
    let (names, ordered, h4) = bind-ok (static_order g) _ order h3 in
    let named = merge_by_name-Named [] d items (λ k o found. absurd (ground arith)) merged in
    let (same, counts) = enumerate_objects-placed d 0 names order named h4 in
    let once = graph_edges-NodupKeys d [] items g tt edges in
    let (distinct, _, known) = static_order_sound g names once ordered in
    (
      subst Distinct (sym same) distinct,
      counts,
      λ m.
          ap (λ l. contains l m) same
          ∙ known m
          ∙ ground (arith, graph_edges-keys d [] items g m edges),
      λ n dependencies last.
          let (before, after, at, sub) =
            placed_after items n dependencies d g names last edges ordered in
          (before, after, same ∙ at, sub),
    )
