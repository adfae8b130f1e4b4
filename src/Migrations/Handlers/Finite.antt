-- ===== src/Migrations/Handlers/Finite.antt =====
-- `is_type_compatible`: where the distances of several typehints come out finite.
use mountaineer.Base.{
  ℕ, suc, arith, ◌≡◌, ◌⊎◌, inl, inr, refl, sym, subst, Bool, true, false, none, some, List, [], ◌∷◌,
  Eq, ◌==◌, contains, if◌then◌else◌, string_eq, nat_eq, option_eq, bool_eq, Bool-cases, index_from,
  All,
}
use mountaineer.Base.Exec.{Result, ok, err, ok-injective}
use mountaineer.Base.Results.{◌>>=◌, bind-ok}
use mountaineer.Migrations.Handlers.{
  Hint, Hints, no_hints, hint, Distance, min, max, fold_distances, each, each_pair,
}

abbrev pub Finite : Distance → Type 0
Finite none = ⊥
Finite (some n) = Unit

abbrev pub FiniteResult : Result Distance → Type 0
FiniteResult (ok d) = Finite d
FiniteResult (err e) = ⊥

min-Finite : (d e : Distance) → Finite (min d e) → Finite d ⊎ Finite e
min-Finite none e f = inr f
min-Finite (some m) e f = inl tt

max-Finite : (d e : Distance) → Finite (max d e) → Finite d × Finite e
max-Finite none e f = absurd f
max-Finite (some m) none f = absurd f
max-Finite (some m) (some n) f = (tt, tt)

pub bind-Finite :
    {A : Type 0} (first : Result A) (rest : A → Result Distance)
    → FiniteResult (first >>= rest)
    → (a : A) × (first ≡ ok a) × FiniteResult (rest a)
bind-Finite (ok a) rest f = (a, refl, f)
bind-Finite (err e) rest f = absurd f

pub fold_max-Finite : (ds : List Distance) → FiniteResult (fold_distances max ds) → All Finite ds
fold_max-Finite [] f = tt
fold_max-Finite (d ∷ []) f = (f, tt)
fold_max-Finite (d ∷ e ∷ ds) f =
    let (r, folded, fin) = bind-Finite (fold_distances max (e ∷ ds)) _ f in
    let (fd, fr) = max-Finite d r fin in
    (fd, fold_max-Finite (e ∷ ds) (subst FiniteResult (sym folded) fr))

abbrev pub AnyFinite : List Distance → Type 0
AnyFinite [] = ⊥
AnyFinite (d ∷ ds) = Finite d ⊎ AnyFinite ds

pub fold_min-Finite : (ds : List Distance) → FiniteResult (fold_distances min ds) → AnyFinite ds
fold_min-Finite [] f = f
fold_min-Finite (d ∷ []) f = inl f
fold_min-Finite (d ∷ e ∷ ds) f =
    let (r, folded, fin) = bind-Finite (fold_distances min (e ∷ ds)) _ f in
    elim (min-Finite d r fin) [
      | inl fd ↦ inl fd
      | inr fr ↦ inr (fold_min-Finite (e ∷ ds) (subst FiniteResult (sym folded) fr))
    ]

pub if-Finite :
    (b : Bool) (r s : Result Distance)
    → FiniteResult (if b then r else s)
    → ((b ≡ true) × FiniteResult r) ⊎ ((b ≡ false) × FiniteResult s)
if-Finite true r s f = inl (refl, f)
if-Finite false r s f = inr (refl, f)

pub contains-index_from :
    {C : Type 0} ⦃eq : Eq C⦄ (d : C) (i : ℕ) (cs : List C)
    → Finite (index_from (λ e. e == d) i cs)
    → contains cs d ≡ true
unfolding index_from contains
contains-index_from d i [] f = absurd f
contains-index_from d i (c ∷ cs) f = elim (Bool-cases (c == d)) [
  | inl here ↦ ground arith
  | inr later ↦
      let rest =
        contains-index_from d (suc i) cs (
          subst (λ b. Finite (if b then some i else index_from (λ e. e == d) (suc i) cs)) later
            f) in
      ground arith
]

pub equal : {C : Type 0} ⦃eq : Eq C⦄ (c d : C) → (c == d) ≡ true → c ≡ d
equal c d h = ground arith

module _ {C : Type 0} where
  abbrev pub Member : Hint C → Hints C → Type 0
  Member h no_hints = ⊥
  Member h (hint g gs) = (h ≡ g) ⊎ Member h gs

  abbrev pub Zipped : Hint C → Hint C → Hints C → Hints C → Type 0
  Zipped g h no_hints hs = ⊥
  Zipped g h (hint g' gs) no_hints = ⊥
  Zipped g h (hint g' gs) (hint h' hs) = ((g ≡ g') × (h ≡ h')) ⊎ Zipped g h gs hs

  pub each-All :
      (f : Hint C → Result Distance) (hs : Hints C) (ds : List Distance)
      → each f hs ≡ ok ds
      → All Finite ds
      → (h : Hint C) → Member h hs
      → FiniteResult (f h)
  unfolding each
  each-All f no_hints ds found fin h m = absurd m
  each-All f (hint g gs) ds found fin h m =
      let (d, here, found1) = bind-ok (f g) _ ds found in
      let (es, there, found2) = bind-ok (each f gs) _ ds found1 in
      let (fd, fes) = subst (All Finite) (sym (ok-injective found2)) fin in
      elim m [
        | inl e ↦ subst (λ x. FiniteResult (f x)) (sym e) (subst FiniteResult (sym here) fd)
        | inr later ↦ each-All f gs es there fes h later
      ]

  pub each-Any :
      (f : Hint C → Result Distance) (hs : Hints C) (ds : List Distance)
      → each f hs ≡ ok ds
      → AnyFinite ds
      → (h : Hint C) × Member h hs × FiniteResult (f h)
  unfolding each
  each-Any f no_hints ds found fin = absurd (subst AnyFinite (sym (ok-injective found)) fin)
  each-Any f (hint g gs) ds found fin =
      let (d, here, found1) = bind-ok (f g) _ ds found in
      let (es, there, found2) = bind-ok (each f gs) _ ds found1 in
      elim (subst AnyFinite (sym (ok-injective found2)) fin) [
        | inl fd ↦ (g, inl refl, subst FiniteResult (sym here) fd)
        | inr later ↦ let (h, m, fh) = each-Any f gs es there later in (h, inr m, fh)
      ]

  pub each_pair-All :
      (f : Hint C → Hint C → Result Distance) (gs hs : Hints C) (ds : List Distance)
      → each_pair f gs hs ≡ ok ds
      → All Finite ds
      → (g h : Hint C) → Zipped g h gs hs
      → FiniteResult (f g h)
  unfolding each_pair
  each_pair-All f no_hints hs ds found fin g h z = absurd z
  each_pair-All f (hint a gs) no_hints ds found fin g h z = absurd z
  each_pair-All f (hint a gs) (hint b hs) ds found fin g h z =
      let (d, here, found1) = bind-ok (f a b) _ ds found in
      let (es, there, found2) = bind-ok (each_pair f gs hs) _ ds found1 in
      let (fd, fes) = subst (All Finite) (sym (ok-injective found2)) fin in
      elim z [
        | inl (e, e') ↦
            subst (λ x. FiniteResult (f x h)) (sym e)
              (subst (λ y. FiniteResult (f a y)) (sym e') (subst FiniteResult (sym here) fd))
        | inr later ↦ each_pair-All f gs hs es there fes g h later
      ]
