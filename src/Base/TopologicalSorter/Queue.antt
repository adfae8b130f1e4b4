-- ===== src/Base/TopologicalSorter/Queue.antt =====
-- The queue of `static_order`, from one node that is done to the next.
use mathlib.Core.List.{append-nil, append_assoc}
use mountaineer.Base.{
  ℕ, zero, suc, ◌+◌, ◌≤◌, ◌<◌, arith, ◌≡◌, ◌⊎◌, inl, inr, refl, sym, ap, subst, Bool, true, false,
  not, ◌&&◌, ◌||◌, List, [], ◌∷◌, ◌++◌, Eq, ◌==◌, contains, string_eq, nat_eq, option_eq, bool_eq,
  Bool-cases, length, length-append,
}
use mountaineer.Base.Dict.{Dict, keys}
use mountaineer.Base.FrozenSets.{is_subset, is_subset-intro, contains-is_subset, contains-append}
use mountaineer.Base.TopologicalSorter.{keep, predecessors, released, drain}

module _ {A : Type 0} ⦃eq : Eq A⦄ where
  -- No item stands behind an equal one.
  abbrev pub Distinct : List A → Type 0
  Distinct [] = Unit
  Distinct (x ∷ xs) = (contains xs x ≡ false) × Distinct xs

  -- Every node stands behind its predecessors, where `seen` stand before the list.
  abbrev pub IsOrdered : Dict A (List A) → List A → List A → Type 0
  IsOrdered graph seen [] = Unit
  IsOrdered graph seen (n ∷ ns) =
      (is_subset (predecessors graph n) seen ≡ true) × IsOrdered graph (seen ++ n ∷ []) ns

  pub contains-keep :
      (p : A → Bool) (xs : List A) (a : A) → contains (keep p xs) a ≡ (contains xs a && p a)
  unfolding keep contains
  contains-keep p [] a = refl
  contains-keep p (x ∷ xs) a = ground (arith, contains-keep p xs a)

  pub keep-Distinct : (p : A → Bool) (xs : List A) → Distinct xs → Distinct (keep p xs)
  unfolding keep contains
  keep-Distinct p [] d = tt
  keep-Distinct p (x ∷ xs) (fresh, d) =
      let rest = keep-Distinct p xs d in ground (arith, contains-keep p xs x)

  pub Distinct-append :
      (xs ys : List A)
      → Distinct xs
      → Distinct ys
      → ((a : A) → contains xs a ≡ true → contains ys a ≡ false)
      → Distinct (xs ++ ys)
  unfolding contains
  Distinct-append [] ys d e apart = e
  Distinct-append (x ∷ xs) ys (fresh, d) e apart =
      let rest = Distinct-append xs ys d e (λ a m. apart a (ground arith)) in
      let here : contains ys x ≡ false = apart x (ground arith) in
      (ground (arith, contains-append x xs ys), rest)

  is_subset-append : (xs ys zs : List A) → is_subset xs ys ≡ true → is_subset xs (ys ++ zs) ≡ true
  is_subset-append xs ys zs h =
      is_subset-intro xs (ys ++ zs)
        (λ a m. ground (arith, contains-append a ys zs, contains-is_subset a xs ys h m))

  IsOrdered-append :
      (graph : Dict A (List A)) (seen xs : List A) (n : A)
      → IsOrdered graph seen xs
      → is_subset (predecessors graph n) (seen ++ xs) ≡ true
      → IsOrdered graph seen (xs ++ n ∷ [])
  IsOrdered-append graph seen [] n o h = (rw append-nil at h, tt)
  IsOrdered-append graph seen (x ∷ xs) n (here, o) h = (
    here,
    IsOrdered-append graph (seen ++ x ∷ []) xs n o (
        subst (λ l. is_subset (predecessors graph n) l ≡ true) (sym (append_assoc seen (x ∷ []) xs))
          h),
  )

  -- Distinct items of a list are no more than it is long.
  without : A → List A → List A
  without x ys = keep (λ y. not (y == x)) ys

  length-without : (x : A) (ys : List A) → length (without x ys) ≤ length ys
  unfolding without keep
  length-without x [] = omega arith
  length-without x (y ∷ ys) = ground (arith, length-without x ys)

  length-without_lt :
      (x : A) (ys : List A) → contains ys x ≡ true → length (without x ys) < length ys
  unfolding without keep contains
  length-without_lt x [] h = absurd (ground arith)
  length-without_lt x (y ∷ ys) h = ground (arith, length-without x ys, length-without_lt x ys)

  pub length_le_of_Distinct :
      (xs ys : List A)
      → Distinct xs
      → ((a : A) → contains xs a ≡ true → contains ys a ≡ true)
      → length xs ≤ length ys
  unfolding contains without
  length_le_of_Distinct [] ys d sub = omega arith
  length_le_of_Distinct (x ∷ xs) ys (fresh, d) sub =
      let here : contains ys x ≡ true = sub x (ground arith) in
      let rest = length_le_of_Distinct xs (without x ys) d (λ a m.
        let known : contains ys a ≡ true = sub a (ground arith) in
        ground (arith, contains-keep (λ y. not (y == x)) ys a)) in
      omega (arith, length-without_lt x ys here)

module _ {A : Type 0} ⦃eq : Eq A⦄ (graph : Dict A (List A)) where
  -- What holds of the nodes that are done and those in the queue.
  pub record Inv (done queue : List A) : Type 0 where
    pub distinct : Distinct (done ++ queue)
    pub ordered : IsOrdered graph [] done
    pub ready :
        (a : A) → contains (done ++ queue) a ≡ true → is_subset (predecessors graph a) done ≡ true
    pub known : (a : A) → contains (done ++ queue) a ≡ true → contains (keys graph) a ≡ true
    pub closed :
        (a : A)
        → contains (keys graph) a ≡ true
        → is_subset (predecessors graph a) done ≡ true
        → contains (done ++ queue) a ≡ true

  is_subset-without_last :
      (l done : List A) (n : A)
      → is_subset l (done ++ n ∷ []) ≡ true
      → contains l n ≡ false
      → is_subset l done ≡ true
  is_subset-without_last l done n h other = is_subset-intro l done (λ a m.
      unfold contains in
      ground (arith, contains-is_subset a l (done ++ n ∷ []) h m, contains-append a done (n ∷ [])))

  middle_fresh :
      (done queue : List A) (n : A) → Distinct (done ++ n ∷ queue) → contains done n ≡ false
  unfolding contains
  middle_fresh [] queue n d = refl
  middle_fresh (x ∷ done) queue n (fresh, d) =
      let rest = middle_fresh done queue n d in ground (arith, contains-append x done (n ∷ queue))

  contains-step :
      (done queue more : List A) (n a : A)
      → contains ((done ++ n ∷ []) ++ (queue ++ more)) a
        ≡ (contains (done ++ n ∷ queue) a || contains more a)
  unfolding contains
  contains-step done queue more n a = ground (
    arith,
    contains-append a (done ++ n ∷ []) (queue ++ more),
    contains-append a done (n ∷ []),
    contains-append a queue more,
    contains-append a done (n ∷ queue),
  )

  contains-released :
      (done : List A) (n a : A)
      → contains (released graph done n) a ≡ (
          contains (keys graph) a
          && (contains (predecessors graph a) n && is_subset (predecessors graph a) done))
  unfolding released
  contains-released done n a = contains-keep _ (keys graph) a

  released-Distinct :
      (done : List A) (n : A) → Distinct (keys graph) → Distinct (released graph done n)
  unfolding released
  released-Distinct done n once = keep-Distinct _ (keys graph) once

  regroup :
      (done queue more : List A) (n : A)
      → (done ++ n ∷ queue) ++ more ≡ (done ++ n ∷ []) ++ (queue ++ more)
  regroup [] queue more n = refl
  regroup (x ∷ done) queue more n = ap (◌∷◌ x) (regroup done queue more n)

  Inv-step :
      (done queue : List A) (n : A)
      → Distinct (keys graph)
      → Inv done (n ∷ queue)
      → Inv (done ++ n ∷ []) (queue ++ released graph (done ++ n ∷ []) n)
  unfolding contains
  Inv-step done queue n once inv =
      let done' = done ++ n ∷ [] in
      let more = released graph done' n in
      let grown = λ (a : A). contains-step done queue more n a in
      let new = λ (a : A). contains-released done' n a in
      let fresh = middle_fresh done queue n inv.distinct in
      let old : (a : A)
          → contains (done ++ n ∷ queue) a ≡ true
          → contains (predecessors graph a) n ≡ false =
        λ a m. ground (arith, contains-is_subset n (predecessors graph a) done (inv.ready a m)) in
      record {
        distinct = subst Distinct (regroup done queue more n) (
            Distinct-append (done ++ n ∷ queue) more inv.distinct (released-Distinct done' n once)
              (λ a m. ground (arith, new a, old a m)));
        ordered =
            IsOrdered-append graph [] done n inv.ordered
              (inv.ready n (ground (arith, contains-append n done (n ∷ queue))));
        ready = λ a m. elim (Bool-cases (contains (done ++ n ∷ queue) a)) [
          | inl here ↦ is_subset-append (predecessors graph a) done (n ∷ []) (inv.ready a here)
          | inr later ↦ ground (arith, grown a, new a)
        ];
        known = λ a m. elim (Bool-cases (contains (done ++ n ∷ queue) a)) [
          | inl here ↦ inv.known a here
          | inr later ↦ ground (arith, grown a, new a)
        ];
        closed = λ a k sub. elim (Bool-cases (contains (predecessors graph a) n)) [
          | inl here ↦ ground (arith, grown a, new a)
          | inr other ↦
              let before = is_subset-without_last (predecessors graph a) done n sub other in
              let there = inv.closed a k before in ground (arith, grown a)
        ];
      }

  pub Inv-drain :
      (fuel : ℕ) (done queue : List A)
      → Distinct (keys graph)
      → Inv done queue
      → (rest : List A) × Inv (drain graph fuel done queue) rest
        × ((rest ≡ []) ⊎ (length (drain graph fuel done queue) ≡ length done + fuel))
  unfolding drain
  Inv-drain fuel done [] once inv = ([], inv, inl refl)
  Inv-drain zero done (n ∷ queue) once inv = (n ∷ queue, inv, inr (omega arith))
  Inv-drain (suc fuel) done (n ∷ queue) once inv =
      let (rest, kept, ended) =
        Inv-drain fuel (done ++ n ∷ []) (queue ++ released graph (done ++ n ∷ []) n) once
          (Inv-step done queue n once inv) in
      (
        rest,
        kept,
        elim ended [
          | inl empty ↦ inl empty
          | inr size ↦ inr (omega (arith, length-append done (n ∷ [])))
        ],
      )
