-- ===== src/Migrations/Serializer/Ordering/Complete.antt =====
-- `order_db_objects`: when it returns.
use mountaineer.Base.{
  ℕ, suc, ◌<◌, arith, ◌≡◌, refl, sym, ap, subst, ◌∙◌, true, ◌||◌, some, List, [], ◌∷◌, map, String,
  contains, string_eq, nat_eq, option_eq, bool_eq, all, All,
}
use mountaineer.Base.Exec.{ok, ok-injective}
use mountaineer.Base.Dict.{
  Dict, keys, lookup, insert, lookup-insert, lookup-insert_self, contains-keys-insert,
  contains-keys_found,
}
use mountaineer.Base.Results.{bind-ok}
use mountaineer.Base.TopologicalSorter.{predecessors, or_empty}
use mountaineer.Base.TopologicalSorter.Order.{static_order_sound, static_order_complete, IsRanked}
use mountaineer.Migrations.Stubs.{DbObject, representation}
use mountaineer.Migrations.Serializer.Ordering.{
  Node, object, pointer, node_name, Item, merge_into, merge_by_name, is_known, pointers_resolve,
  resolve_names, graph_edges, enumerate_objects, order_db_objects,
}
use mountaineer.Migrations.Serializer.Ordering.Dependencies.{
  item_name, graph_edges-NodupKeys, graph_edges-keys,
}

-- A name has its object.
abbrev pub Named : Dict String DbObject → String → Type 0
Named d name = (o : DbObject) × (lookup name d ≡ some o)

-- Every object and every dependency has its object, and the dependencies have a lower rank.
abbrev pub Resolved : Dict String DbObject → (String → ℕ) → List Item → Type 0
Resolved d rank = All (λ (n, ns).
    Named d (node_name n)
    × All (λ m. Named d (node_name m) × (rank (node_name m) < rank (node_name n))) ns)

resolve_names-Named :
    (d : Dict String DbObject) (rank : String → ℕ) (bound : ℕ) (ns : List Node)
    → All (λ m. Named d (node_name m) × (rank (node_name m) < bound)) ns
    → resolve_names d ns ≡ ok (map node_name ns)
unfolding resolve_names
resolve_names-Named d rank bound [] h = refl
resolve_names-Named d rank bound (n ∷ ns) (((o, found), low), h) =
    rw (found, resolve_names-Named d rank bound ns h) refl

-- The predecessors in the graph
abbrev Below : Dict String DbObject → (String → ℕ) → Dict String (List String) → Type 0
Below d rank graph =
    (n p : String) → contains (predecessors graph n) p ≡ true → Named d p × (rank p < rank n)

Below-names :
    (d : Dict String DbObject) (rank : String → ℕ) (n : String) (ns : List Node) (p : String)
    → All (λ m. Named d (node_name m) × (rank (node_name m) < rank n)) ns
    → contains (map node_name ns) p ≡ true
    → Named d p × (rank p < rank n)
unfolding contains
Below-names d rank n [] p h here = absurd (ground arith)
Below-names d rank n (m ∷ ns) p (known, h) here = elim (string_eq.dec p (node_name m)) [
  | yes e ↦ subst (λ q. Named d q × (rank q < rank n)) (sym e) known
  | no ne ↦ Below-names d rank n ns p h (ground arith)
]

Below-insert :
    (d : Dict String DbObject) (rank : String → ℕ) (n : Node) (ns : List Node)
    (graph : Dict String (List String))
    → All (λ m. Named d (node_name m) × (rank (node_name m) < rank (node_name n))) ns
    → Below d rank graph
    → Below d rank (insert (node_name n) (map node_name ns) graph)
Below-insert d rank n ns graph h below k p here = elim (string_eq.dec k (node_name n)) [
  | yes e ↦
      subst (λ q. Named d p × (rank p < rank q)) (sym e)
        (Below-names d rank (node_name n) ns p h (
          subst (λ o. contains (or_empty o) p ≡ true)
            (ap (λ q. lookup q (insert (node_name n) (map node_name ns) graph)) e
              ∙ lookup-insert_self (node_name n) (map node_name ns) graph)
            here))
  | no ne ↦
      let same : lookup k (insert (node_name n) (map node_name ns) graph) ≡ lookup k graph =
        ground (arith, lookup-insert k (node_name n) (map node_name ns) graph) in
      below k p (subst (λ o. contains (or_empty o) p ≡ true) same here)
]

Below-none : (d : Dict String DbObject) (rank : String → ℕ) → Below d rank []
unfolding lookup contains
Below-none d rank n p here = absurd (ground arith)

graph_edges-Below :
    (d : Dict String DbObject) (rank : String → ℕ) (graph : Dict String (List String))
    (items : List Item)
    → Resolved d rank items
    → Below d rank graph
    → (g : Dict String (List String)) × (graph_edges d graph items ≡ ok g) × Below d rank g
unfolding graph_edges
graph_edges-Below d rank graph [] h below = (graph, refl, below)
graph_edges-Below d rank graph ((n, ns) ∷ items) (((o, found), known), h) below =
    let (g, rest, done) =
      graph_edges-Below d rank (insert (node_name n) (map node_name ns) graph) items h
        (Below-insert d rank n ns graph known below) in
    (g, rw (found, resolve_names-Named d rank (rank (node_name n)) ns known) rest, done)

merge_by_name-keys :
    (d e : Dict String DbObject) (items : List Item) (name : String)
    → merge_by_name d items ≡ ok e
    → contains (keys e) name ≡ true
    → (contains (keys d) name || contains (map item_name items) name) ≡ true
unfolding merge_by_name contains node_name
merge_by_name-keys d e [] name h here =
    let same = ap (λ x. contains (keys x) name) (ok-injective h) in ground arith
merge_by_name-keys d e ((pointer p, ns) ∷ items) name h here =
    ground (arith, merge_by_name-keys d e items name h here)
merge_by_name-keys d e ((object o, ns) ∷ items) name h here =
    let (merged, _, rest) = bind-ok (merge_into (lookup (representation o) d) o) _ e h in
    ground (
      arith,
      merge_by_name-keys (insert (representation o) merged d) e items name rest here,
      contains-keys-insert name (representation o) merged d,
    )

Resolved-Named :
    (d : Dict String DbObject) (rank : String → ℕ) (items : List Item) (name : String)
    → Resolved d rank items
    → contains (map item_name items) name ≡ true
    → Named d name
unfolding contains
Resolved-Named d rank [] name h here = absurd (ground arith)
Resolved-Named d rank ((n, ns) ∷ items) name ((known, _), h) here =
    elim (string_eq.dec name (node_name n)) [
      | yes e ↦ subst (Named d) (sym e) known
      | no ne ↦ Resolved-Named d rank items name h (ground arith)
    ]

is_known-Named : (d : Dict String DbObject) (n : Node) → Named d (node_name n) → is_known d n ≡ true
unfolding node_name
is_known-Named d (object o) known = refl
is_known-Named d (pointer p) (o, found) = ground arith

pointers_resolve-Resolved :
    (d : Dict String DbObject) (rank : String → ℕ) (items : List Item)
    → Resolved d rank items
    → pointers_resolve d items ≡ true
unfolding pointers_resolve
pointers_resolve-Resolved d rank [] h = refl
pointers_resolve-Resolved d rank ((n, ns) ∷ items) ((_, known), h) =
    rw (all_known (rank (node_name n)) ns known, pointers_resolve-Resolved d rank items h) refl
  where
    all_known :
        (bound : ℕ) (ns : List Node)
        → All (λ m. Named d (node_name m) × (rank (node_name m) < bound)) ns
        → all (is_known d) ns ≡ true
    all_known bound [] known = refl
    all_known bound (m ∷ ms) ((named, low), known) =
        rw (is_known-Named d m named, all_known bound ms known) refl

enumerate_objects-Named :
    (d : Dict String DbObject) (i : ℕ) (names : List String)
    → ((name : String) → contains names name ≡ true → Named d name)
    → (order : List (DbObject × ℕ)) × (enumerate_objects d i names ≡ ok order)
unfolding enumerate_objects contains
enumerate_objects-Named d i [] known = ([], refl)
enumerate_objects-Named d i (name ∷ names) known =
    let (o, found) = known name (ground arith) in
    let (rest, later) =
      enumerate_objects-Named d (suc i) names (λ n here. known n (ground arith)) in
    ((o, i) ∷ rest, rw (found, later) refl)

-- If the objects of one name merge, each object and each dependency has its object, and a rank puts
-- the dependencies of an object below it, `order_db_objects` returns an order.
pub order_db_objects_complete :
    (items : List Item) (d : Dict String DbObject) (rank : String → ℕ)
    → merge_by_name [] items ≡ ok d
    → Resolved d rank items
    → (order : List (DbObject × ℕ)) × (order_db_objects items ≡ ok order)
unfolding order_db_objects contains keys
order_db_objects_complete items d rank merged resolved =
    let (g, edges, below) = graph_edges-Below d rank [] items resolved (Below-none d rank) in
    let once = graph_edges-NodupKeys d [] items g tt edges in
    let ranked : IsRanked g rank = λ n p key here.
      let ((o, found), low) = below n p here in
      let in_items = merge_by_name-keys [] d items p merged (contains-keys_found p o d found) in
      (low, graph_edges-keys d [] items g p edges ∙ ground arith) in
    let (names, ordered) = static_order_complete g rank once ranked in
    let (_, _, same) = static_order_sound g names once ordered in
    let (order, placed) = enumerate_objects-Named d 0 names (λ name here.
      Resolved-Named d rank items name resolved
        (ground (arith, same name, graph_edges-keys d [] items g name edges))) in
    (order, rw (merged, pointers_resolve-Resolved d rank items resolved, edges, ordered) placed)
