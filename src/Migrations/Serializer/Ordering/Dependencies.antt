-- ===== src/Migrations/Serializer/Ordering/Dependencies.antt =====
-- `order_db_objects`: the graph of the dependencies.
use mountaineer.Base.{
  arith, ◌≡◌, ◌≢◌, sym, ap, subst, ◌∙◌, true, ◌||◌, some, List, [], ◌∷◌, ◌++◌, map, String,
  contains, string_eq, nat_eq, option_eq, bool_eq, All,
}
use mountaineer.Base.Exec.{ok, ok-injective}
use mountaineer.Base.Dict.{
  Dict, keys, lookup, insert, NodupKeys, lookup-insert, insert-NodupKeys, lookup-insert_self,
  contains-keys-insert,
}
use mountaineer.Base.FrozenSets.{is_subset}
use mountaineer.Base.TopologicalSorter.{predecessors}
use mountaineer.Base.TopologicalSorter.Queue.{IsOrdered}
use mathlib.Core.List.{append-nil, append_assoc}
use mountaineer.Base.Results.{or_key_error, bind-ok}
use mountaineer.Migrations.Stubs.{DbObject}
use mountaineer.Migrations.Serializer.Ordering.{Node, node_name, Item, resolve_names, graph_edges}

abbrev pub item_name : Item → String
item_name item = node_name item.0

-- `dependencies` are given last for `n`.
abbrev pub LastFor : List Item → Node → List Node → Type 0
LastFor items n dependencies =
    (pre : List Item) × (post : List Item) × (items ≡ pre ++ (n, dependencies) ∷ post)
    × All (λ item. item_name item ≢ node_name n) post

-- Where an ordered list has a node, its predecessors stand before it.
pub ordered_split :
    (graph : Dict String (List String)) (seen names : List String) (n : String)
    → IsOrdered graph seen names
    → contains names n ≡ true
    → (before : List String) × (after : List String) × (names ≡ before ++ n ∷ after)
      × (is_subset (predecessors graph n) (seen ++ before) ≡ true)
unfolding contains
ordered_split graph seen [] n o h = absurd (ground arith)
ordered_split graph seen (x ∷ names) n (here, o) h = elim (string_eq.dec n x) [
  | yes e ↦ ([], names, ap (λ y. y ∷ names) (sym e), rw (append-nil, e) here)
  | no ne ↦
      let (before, after, split, sub) =
        ordered_split graph (seen ++ x ∷ []) names n o (ground arith) in
      (
        x ∷ before,
        after,
        ap (◌∷◌ x) split,
        subst (λ l. is_subset (predecessors graph n) l ≡ true) (append_assoc seen (x ∷ []) before)
            sub,
      )
]

resolve_names-ok :
    (d : Dict String DbObject) (ns : List Node) (names : List String)
    → resolve_names d ns ≡ ok names
    → names ≡ map node_name ns
unfolding resolve_names
resolve_names-ok d [] names h = sym (ok-injective h)
resolve_names-ok d (n ∷ ns) names h =
    let (o, _, h1) = bind-ok (or_key_error (lookup (node_name n) d)) _ names h in
    let (later, found, h2) = bind-ok (resolve_names d ns) _ names h1 in
    sym (ok-injective h2) ∙ ap (◌∷◌ (node_name n)) (resolve_names-ok d ns later found)

-- Later items leave what they do not name as it is.
graph_edges-kept :
    (d : Dict String DbObject) (graph : Dict String (List String)) (items : List Item)
    (g : Dict String (List String)) (n : String)
    → All (λ item. item_name item ≢ n) items
    → graph_edges d graph items ≡ ok g
    → lookup n g ≡ lookup n graph
unfolding graph_edges
graph_edges-kept d graph [] g n other h = ap (lookup n) (sym (ok-injective h))
graph_edges-kept d graph ((m, ns) ∷ items) g n (differs, other) h =
    let (o, _, h1) = bind-ok (or_key_error (lookup (node_name m) d)) _ g h in
    let (names, _, h2) = bind-ok (resolve_names d ns) _ g h1 in
    let same = graph_edges-kept d (insert (node_name m) names graph) items g n other h2 in
    ground (arith, lookup-insert n (node_name m) names graph)

pub graph_edges-NodupKeys :
    (d : Dict String DbObject) (graph : Dict String (List String)) (items : List Item)
    (g : Dict String (List String))
    → NodupKeys graph
    → graph_edges d graph items ≡ ok g
    → NodupKeys g
unfolding graph_edges
graph_edges-NodupKeys d graph [] g once h = subst NodupKeys (ok-injective h) once
graph_edges-NodupKeys d graph ((m, ns) ∷ items) g once h =
    let (o, _, h1) = bind-ok (or_key_error (lookup (node_name m) d)) _ g h in
    let (names, _, h2) = bind-ok (resolve_names d ns) _ g h1 in
    graph_edges-NodupKeys d (insert (node_name m) names graph) items g
      (insert-NodupKeys (node_name m) names graph once) h2

pub graph_edges-keys :
    (d : Dict String DbObject) (graph : Dict String (List String)) (items : List Item)
    (g : Dict String (List String)) (m : String)
    → graph_edges d graph items ≡ ok g
    → contains (keys g) m ≡ (contains (map item_name items) m || contains (keys graph) m)
unfolding graph_edges contains
graph_edges-keys d graph [] g m h = ap (λ x. contains (keys x) m) (sym (ok-injective h))
graph_edges-keys d graph ((n, ns) ∷ items) g m h =
    let (o, _, h1) = bind-ok (or_key_error (lookup (node_name n) d)) _ g h in
    let (names, _, h2) = bind-ok (resolve_names d ns) _ g h1 in
    let later = graph_edges-keys d (insert (node_name n) names graph) items g m h2 in
    ground (arith, contains-keys-insert m (node_name n) names graph)

pub graph_edges-last :
    (d : Dict String DbObject) (graph : Dict String (List String)) (pre post : List Item) (n : Node)
    (dependencies : List Node) (g : Dict String (List String))
    → All (λ item. item_name item ≢ node_name n) post
    → graph_edges d graph (pre ++ (n, dependencies) ∷ post) ≡ ok g
    → lookup (node_name n) g ≡ some (map node_name dependencies)
unfolding graph_edges
graph_edges-last d graph [] post n dependencies g other h =
    let (o, _, h1) = bind-ok (or_key_error (lookup (node_name n) d)) _ g h in
    let (names, found, h2) = bind-ok (resolve_names d dependencies) _ g h1 in
    graph_edges-kept d (insert (node_name n) names graph) post g (node_name n) other h2
    ∙ lookup-insert_self (node_name n) names graph
    ∙ ap some (resolve_names-ok d dependencies names found)
graph_edges-last d graph ((m, ns) ∷ pre) post n dependencies g other h =
    let (o, _, h1) = bind-ok (or_key_error (lookup (node_name m) d)) _ g h in
    let (names, _, h2) = bind-ok (resolve_names d ns) _ g h1 in
    graph_edges-last d (insert (node_name m) names graph) pre post n dependencies g other h2
