-- ===== src/Migrations/Handlers/Delegation/Closest.antt =====
-- The handler that `delegate` picks, against the distances of all that are registered.
use mountaineer.Base.{
  ℕ, ◌≤◌, ◌<◌, ltb, arith, ◌≡◌, ◌⊎◌, inl, inr, refl, sym, ap, subst, ◌∙◌, none, some, List, [], ◌∷◌,
  ◌++◌, ◌==◌, if◌then◌else◌, string_eq, nat_eq, option_eq, bool_eq, Bool-cases, All,
}
use mountaineer.Base.Exec.{Result, ok, ok-injective}
use mountaineer.Base.Dict.{Dict}
use mountaineer.Base.Results.{bind-ok}
use mountaineer.Base.TopologicalSorter.{keep}
use mountaineer.Migrations.Handlers.{Distance}
use mountaineer.Migrations.Handlers.Delegation.{
  Candidate, add_candidate, raw_candidates, min_priority, most_specific, find_handler, the_only,
  is_best,
}

module _ {T H : Type 0} where
  abbrev picked : Candidate T H → H
  picked (t, h, n) = h

  abbrev priority : Candidate T H → ℕ
  priority (t, h, n) = n

  the_only-kept :
      (cs : List (Candidate T H)) (h : H)
      → the_only cs ≡ ok h
      → (c : Candidate T H) × (cs ≡ c ∷ []) × (picked c ≡ h)
  the_only-kept [] h found = absurd (ground arith)
  the_only-kept ((t, k, n) ∷ []) h found = ((t, k, n), refl, ok-injective found)
  the_only-kept (c ∷ d ∷ cs) h found = absurd (ground arith)

  min_priority-bounds :
      (best : ℕ) (cs : List (Candidate T H))
      → (min_priority best cs ≤ best) × All (λ c. min_priority best cs ≤ priority c) cs
  unfolding min_priority
  min_priority-bounds best [] = (omega arith, tt)
  min_priority-bounds best ((t, h, n) ∷ cs) =
      let next = if ltb n best then n else best in
      let (below, bounds) = min_priority-bounds next cs in (ground arith, (ground arith, bounds))

module _ {T H : Type 0} (type_priority : T → Result Distance) where
  -- An entry does not fit, or not as well as `d`.
  abbrev pub Beaten : ℕ → T × H → Type 0
  Beaten d (t, h) =
      (type_priority t ≡ ok none) ⊎ ((n : ℕ) × (type_priority t ≡ ok (some n)) × (d < n))

  add_candidate-Beaten :
      (d : ℕ) (t : T) (h : H) (p : Distance) (rest : List (Candidate T H))
      → type_priority t ≡ ok p
      → All (λ c. d < priority c) (add_candidate t h p rest)
      → Beaten d (t, h) × All (λ c. d < priority c) rest
  add_candidate-Beaten d t h none rest here far = (inl here, far)
  add_candidate-Beaten d t h (some n) rest here (behind, far) = (inr (n, here, behind), far)

  raw_candidates-Beaten :
      (d : ℕ) (handlers : Dict T H) (cs : List (Candidate T H))
      → raw_candidates type_priority handlers ≡ ok cs
      → All (λ c. d < priority c) cs
      → All (Beaten d) handlers
  unfolding raw_candidates
  raw_candidates-Beaten d [] cs found far = tt
  raw_candidates-Beaten d ((t, h) ∷ handlers) cs found far =
      let (p, here, found1) = bind-ok (type_priority t) _ cs found in
      let (rest, there, found2) = bind-ok (raw_candidates type_priority handlers) _ cs found1 in
      let (beaten, later) =
        add_candidate-Beaten d t h p rest here
          (subst (All (λ c. d < priority c)) (sym (ok-injective found2)) far) in
      (beaten, raw_candidates-Beaten d handlers rest there later)

  -- One entry alone fits best.
  abbrev pub ClosestAt : ℕ → Dict T H → H → Type 0
  ClosestAt d handlers h =
      (t : T) × (pre : Dict T H) × (post : Dict T H) × (handlers ≡ pre ++ (t, h) ∷ post)
      × (type_priority t ≡ ok (some d))
      × All (Beaten d) pre
      × All (Beaten d) post

  prepend :
      (t : T) (h k : H) (d : ℕ) (handlers : Dict T H)
      → Beaten d (t, h)
      → ClosestAt d handlers k
      → ClosestAt d ((t, h) ∷ handlers) k
  prepend t h k d handlers beaten (u, pre, post, split, fits, before, behind) =
      (u, (t, h) ∷ pre, post, ap (◌∷◌ (t, h)) split, fits, (beaten, before), behind)

  none_kept :
      (d : ℕ) (cs : List (Candidate T H))
      → keep (is_best d) cs ≡ []
      → All (λ c. d ≤ priority c) cs
      → All (λ c. d < priority c) cs
  unfolding keep
  none_kept d [] kept bounds = tt
  none_kept d ((t, h, n) ∷ cs) kept (bound, bounds) = elim (Bool-cases (n == d)) [
    | inl same ↦ absurd (ground arith)
    | inr differ ↦ (ground arith, none_kept d cs (ground arith) bounds)
  ]

  add_candidate-ClosestAt :
      (d : ℕ) (t : T) (h : H) (p : Distance) (rest : List (Candidate T H)) (handlers : Dict T H)
      (c : Candidate T H)
      → type_priority t ≡ ok p
      → raw_candidates type_priority handlers ≡ ok rest
      → keep (is_best d) (add_candidate t h p rest) ≡ c ∷ []
      → All (λ c. d ≤ priority c) (add_candidate t h p rest)
      → (keep (is_best d) rest ≡ c ∷ []
          → All (λ c. d ≤ priority c) rest
          → ClosestAt d handlers (picked c))
      → ClosestAt d ((t, h) ∷ handlers) (picked c)
  unfolding keep
  add_candidate-ClosestAt d t h none rest handlers c here there kept bounds later =
      prepend t h (picked c) d handlers (inl here) (later kept bounds)
  add_candidate-ClosestAt d t h (some n) rest handlers c here there kept (bound, bounds) later =
      elim (Bool-cases (n == d)) [
        | inl same ↦
            let is : (t, h, n) ≡ c = ground arith in
            let alone : keep (is_best d) rest ≡ [] = ground arith in
            let at : n ≡ d = ground arith in
            subst (λ x. ClosestAt d ((t, h) ∷ handlers) (picked x)) is
              (
                t,
                [],
                handlers,
                refl,
                here ∙ ap (λ m. ok (some m)) at,
                tt,
                raw_candidates-Beaten d handlers rest there (none_kept d rest alone bounds),
              )
        | inr differ ↦
            prepend t h (picked c) d handlers (inr (n, here, ground arith))
              (later (ground arith) bounds)
      ]

  raw_candidates-ClosestAt :
      (d : ℕ) (handlers : Dict T H) (cs : List (Candidate T H)) (c : Candidate T H)
      → raw_candidates type_priority handlers ≡ ok cs
      → keep (is_best d) cs ≡ c ∷ []
      → All (λ c. d ≤ priority c) cs
      → ClosestAt d handlers (picked c)
  unfolding raw_candidates keep
  raw_candidates-ClosestAt d [] cs c found kept bounds = absurd (ground arith)
  raw_candidates-ClosestAt d ((t, h) ∷ handlers) cs c found kept bounds =
      let (p, here, found1) = bind-ok (type_priority t) _ cs found in
      let (rest, there, found2) = bind-ok (raw_candidates type_priority handlers) _ cs found1 in
      let same = sym (ok-injective found2) in
      add_candidate-ClosestAt d t h p rest handlers c here there
        (ap (keep (is_best d)) (sym same) ∙ kept) (subst (All (λ c. d ≤ priority c)) same bounds)
        (raw_candidates-ClosestAt d handlers rest c there)

  most_specific-kept :
      (cs : List (Candidate T H)) (h : H)
      → most_specific cs ≡ ok h
      → (d : ℕ) × (c : Candidate T H) × (keep (is_best d) cs ≡ c ∷ [])
        × All (λ c. d ≤ priority c) cs
        × (picked c ≡ h)
  most_specific-kept [] h found = absurd (ground arith)
  most_specific-kept ((t, k, n) ∷ cs) h found =
      let best = min_priority n cs in
      let (below, bounds) = min_priority-bounds n cs in
      let (c, kept, at) = the_only-kept (keep (is_best best) ((t, k, n) ∷ cs)) h found in
      (best, c, kept, (below, bounds), at)

  -- The handler that `delegate` picks is registered for a type with a finite distance, and every
  -- other registered type is further away or does not fit at all.
  pub find_handler_lem :
      (handlers : Dict T H) (h : H)
      → find_handler type_priority handlers ≡ ok h
      → (d : ℕ) × ClosestAt d handlers h
  unfolding find_handler
  find_handler_lem handlers h found =
      let (cs, raw, picks) = bind-ok (raw_candidates type_priority handlers) _ h found in
      let (d, c, kept, bounds, at) = most_specific-kept cs h picks in
      (
        d,
        subst (ClosestAt d handlers) at (raw_candidates-ClosestAt d handlers cs c raw kept bounds),
      )
