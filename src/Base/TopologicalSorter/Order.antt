-- ===== src/Base/TopologicalSorter/Order.antt =====
-- The order that `static_order` returns, and when it returns.
use mathlib.Core.List.{append-nil}
use mountaineer.Base.{
  ℕ, zero, suc, ◌<◌, arith, ◌≡◌, inl, inr, refl, sym, subst, ◌∙◌, true, false, ◌&&◌, ◌||◌, none,
  List, [], ◌∷◌, ◌++◌, Eq, ◌==◌, contains, string_eq, nat_eq, option_eq, bool_eq, Bool-cases,
  length,
}
use mountaineer.Base.Exec.{ok}
use mountaineer.Base.Dict.{Dict, keys, lookup, NodupKeys}
use mountaineer.Base.FrozenSets.{is_subset-intro, contains-append}
use mountaineer.Base.TopologicalSorter.{
  keep, predecessors, is_source, is_ready, add_node, add_nodes, nodes_of, drain, static_order,
}
use mountaineer.Base.TopologicalSorter.Queue.{
  Distinct, Distinct-append, IsOrdered, contains-keep, keep-Distinct, length_le_of_Distinct, Inv,
  Inv-drain,
}

module _ {A : Type 0} ⦃eq : Eq A⦄ (graph : Dict A (List A)) where
  keys-Distinct : (d : Dict A (List A)) → NodupKeys d → Distinct (keys d)
  unfolding keys lookup contains
  keys-Distinct [] once = tt
  keys-Distinct ((k, v) ∷ d) (fresh, once) = (contains-keys k d fresh, keys-Distinct d once)
    where
      contains-keys :
          (k : A) (d : Dict A (List A)) → lookup k d ≡ none → contains (keys d) k ≡ false
      contains-keys k [] h = refl
      contains-keys k ((j, v) ∷ d) h = ground (arith, contains-keys k d)

  length-keys : (d : Dict A (List A)) → length (keys d) ≡ length d
  unfolding keys
  length-keys [] = refl
  length-keys (x ∷ d) = omega (arith, length-keys d)

  contains-add_node :
      (nodes : List A) (n a : A) → contains (add_node nodes n) a ≡ (contains nodes a || a == n)
  unfolding contains
  contains-add_node nodes n a = elim (Bool-cases (contains nodes n)) [
    | inl here ↦ ground arith
    | inr fresh ↦ ground (arith, contains-append a nodes (n ∷ []))
  ]

  add_node-Distinct : (nodes : List A) (n : A) → Distinct nodes → Distinct (add_node nodes n)
  unfolding contains
  add_node-Distinct nodes n d = elim (Bool-cases (contains nodes n)) [
    | inl here ↦ rw here d
    | inr fresh ↦ rw fresh (Distinct-append nodes (n ∷ []) d (refl, tt) (λ a m. ground arith))
  ]

  add_nodes-Distinct : (nodes ns : List A) → Distinct nodes → Distinct (add_nodes nodes ns)
  add_nodes-Distinct nodes [] d = d
  add_nodes-Distinct nodes (n ∷ ns) d =
      add_nodes-Distinct (add_node nodes n) ns (add_node-Distinct nodes n d)

  add_nodes-contains :
      (nodes ns : List A) (a : A) → contains nodes a ≡ true → contains (add_nodes nodes ns) a ≡ true
  add_nodes-contains nodes [] a m = m
  add_nodes-contains nodes (n ∷ ns) a m =
      add_nodes-contains (add_node nodes n) ns a (ground (arith, contains-add_node nodes n a))

  nodes_of-Distinct :
      (nodes : List A) (g : Dict A (List A)) → Distinct nodes → Distinct (nodes_of nodes g)
  unfolding nodes_of
  nodes_of-Distinct nodes [] d = d
  nodes_of-Distinct nodes ((n, ps) ∷ g) d =
      nodes_of-Distinct (add_nodes (add_node nodes n) ps) g
        (add_nodes-Distinct (add_node nodes n) ps (add_node-Distinct nodes n d))

  -- Every key is among the nodes.
  nodes_of-contains :
      (nodes : List A) (g : Dict A (List A)) (a : A)
      → (contains nodes a || contains (keys g) a) ≡ true
      → contains (nodes_of nodes g) a ≡ true
  unfolding nodes_of keys contains
  nodes_of-contains nodes [] a m = ground arith
  nodes_of-contains nodes ((n, ps) ∷ g) a m =
      let added = contains-add_node nodes n a in
      let kept = add_nodes-contains (add_node nodes n) ps a in
      nodes_of-contains (add_nodes (add_node nodes n) ps) g a (ground arith)

  sources : List A
  sources = keep (is_ready graph) (nodes_of [] graph)

  contains-sources : (a : A) → contains sources a ≡ (contains (keys graph) a && is_source graph a)
  unfolding sources
  contains-sources a =
      let there = contains-keep (is_ready graph) (nodes_of [] graph) a in
      elim (Bool-cases (contains (keys graph) a)) [
        | inl key ↦ let node = nodes_of-contains [] graph a (ground arith) in ground arith
        | inr other ↦ ground arith
      ]

  Inv-start : Inv graph [] sources
  Inv-start = record {
    distinct =
        unfold sources in keep-Distinct _ (nodes_of [] graph) (nodes_of-Distinct [] graph tt);
    ordered = tt;
    ready = λ a m. ground (arith, contains-sources a);
    known = λ a m. ground (arith, contains-sources a);
    closed = λ a k sub. ground (arith, contains-sources a);
  }

  -- As many distinct nodes as there are keys are all of them.
  all_keys :
      (order : List A) (a : A)
      → Distinct order
      → ((b : A) → contains order b ≡ true → contains (keys graph) b ≡ true)
      → length order ≡ length graph
      → contains (keys graph) a ≡ true
      → contains order a ≡ true
  unfolding contains
  all_keys order a d sub size k = elim (Bool-cases (contains order a)) [
    | inl here ↦ here
    | inr missing ↦
        let bound =
          length_le_of_Distinct (a ∷ order) (keys graph) (missing, d)
            (λ b m. ground (arith, sub b)) in
        absurd (omega (arith, length-keys graph))
  ]

  done-Distinct : (done rest : List A) → Distinct (done ++ rest) → Distinct done
  unfolding contains
  done-Distinct [] rest d = tt
  done-Distinct (x ∷ done) rest (fresh, d) =
      let later = done-Distinct done rest d in (ground (arith, contains-append x done rest), later)

  -- The order that is returned has each key once, behind its predecessors.
  pub static_order_sound :
      (order : List A)
      → NodupKeys graph
      → static_order graph ≡ ok order
      → Distinct order
        × IsOrdered graph [] order
        × ((a : A) → contains order a ≡ contains (keys graph) a)
  unfolding static_order
  static_order_sound order once h =
      let d = keys-Distinct graph once in
      let (rest, inv, _) = Inv-drain graph (length graph) [] sources d Inv-start in
      let out : drain graph (length graph) [] sources ≡ order = unfold sources in ground arith in
      let size : length order ≡ length graph = ground arith in
      let distinct = subst Distinct out (done-Distinct _ rest inv.distinct) in
      let sub : (b : A) → contains order b ≡ true → contains (keys graph) b ≡ true = λ b m.
        inv.known b
          (ground (arith, contains-append b (drain graph (length graph) [] sources) rest)) in
      (
        distinct,
        subst (IsOrdered graph []) out inv.ordered,
        λ a. elim (Bool-cases (contains (keys graph) a)) [
          | inl k ↦ all_keys order a distinct sub size k ∙ sym k
          | inr other ↦ ground (arith, sub a)
        ],
      )

  -- `rank` puts every predecessor below its node, so that there is no cycle; and every predecessor
  -- is a key.
  abbrev pub IsRanked : (A → ℕ) → Type 0
  IsRanked rank =
      (n p : A)
      → contains (keys graph) n ≡ true
      → contains (predecessors graph n) p ≡ true
      → (rank p < rank n) × (contains (keys graph) p ≡ true)

  all_done :
      (rank : A → ℕ) (done : List A)
      → IsRanked rank
      → Inv graph done []
      → (bound : ℕ) (a : A) → rank a < bound
      → contains (keys graph) a ≡ true
      → contains done a ≡ true
  all_done rank done ranked inv zero a low k = absurd (omega arith)
  all_done rank done ranked inv (suc bound) a low k =
      let sub = is_subset-intro (predecessors graph a) done (λ p m.
        let (below, key) = ranked a p k m in
        all_done rank done ranked inv bound p (omega arith) key) in
      rw (sym (append-nil done)) (inv.closed a k sub)

  -- No cycle, no error.
  pub static_order_complete :
      (rank : A → ℕ)
      → NodupKeys graph
      → IsRanked rank
      → (order : List A) × (static_order graph ≡ ok order)
  unfolding static_order
  static_order_complete rank once ranked =
      let d = keys-Distinct graph once in
      let out = drain graph (length graph) [] sources in
      let (rest, inv, ended) = Inv-drain graph (length graph) [] sources d Inv-start in
      let whole : length out ≡ length graph = elim ended [
        | inr size ↦ omega arith
        | inl empty ↦
            let inv' = subst (Inv graph out) empty inv in
            let below =
              length_le_of_Distinct out (keys graph) (done-Distinct out [] inv'.distinct)
                (λ a m. inv'.known a (ground (arith, contains-append a out []))) in
            let above =
              length_le_of_Distinct (keys graph) out d
                (λ a k. all_done rank out ranked inv' (suc (rank a)) a (omega arith) k) in
            omega (arith, length-keys graph)
      ] in
      (out, unfold sources in ground arith)
