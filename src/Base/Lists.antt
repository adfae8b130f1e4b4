-- ===== src/Base/Lists.antt =====
-- Lists measured and indexed by native numbers, and predicates that hold along a list.
use Prim.Native.Nat.{ℕ, zero, suc, ◌+◌}
use mathlib.Core.Path.{◌≡◌, refl, ap}
use mathlib.Core.Bool.{Bool, true, ◌&&◌}
use mathlib.Core.List.{List, [], ◌∷◌, ◌++◌}
use mathlib.Core.Option.{Option, none, some}
use mathlib.Core.Logic.{inl, inr}
use mountaineer.Base.Equality.{Bool-cases, if◌then◌else◌}
use native.Mathlib.Omega.{arith}

module _ {ℓ} {A : Type ℓ} where
  abbrev pub length : List A → ℕ
  length [] = 0
  length (x ∷ xs) = suc (length xs)

  abbrev pub drop : ℕ → List A → List A
  drop zero xs = xs
  drop (suc n) [] = []
  drop (suc n) (x ∷ xs) = drop n xs

  abbrev pub get_elem? : List A → ℕ → Option A
  get_elem? [] i = none
  get_elem? (x ∷ xs) zero = some x
  get_elem? (x ∷ xs) (suc i) = get_elem? xs i

  abbrev pub all : (A → Bool) → List A → Bool
  all p [] = true
  all p (x ∷ xs) = p x && all p xs

  -- `for i, x in enumerate(xs): if p(x): break`, counting from `i`
  unfoldable pub index_from : (A → Bool) → ℕ → List A → Option ℕ
  index_from p i [] = none
  index_from p i (x ∷ xs) = if p x then some i else index_from p (suc i) xs

  -- Where a list is cut at its `j`-th item `x`.
  abbrev pub CutAt : List A → ℕ → A → Type ℓ
  CutAt xs j x =
      (pre : List A) × (post : List A) × (xs ≡ pre ++ x ∷ post)
      × (drop j xs ≡ x ∷ post)
      × (get_elem? xs j ≡ some x)

  pub index_from-CutAt :
      (p : A → Bool) (i : ℕ) (xs : List A) (n : ℕ)
      → index_from p i xs ≡ some n
      → (j : ℕ) × (x : A) × (n ≡ i + j) × (p x ≡ true) × CutAt xs j x
  unfolding index_from
  index_from-CutAt p i [] n h = absurd (ground arith)
  index_from-CutAt p i (y ∷ xs) n h = elim (Bool-cases (p y)) [
    | inl here ↦ (0, y, ground arith, here, ([], xs, refl, refl, refl))
    | inr later ↦
        let (j, x, e, q, (pre, post, split, cut, at_j)) =
          index_from-CutAt p (suc i) xs n (ground arith) in
        (suc j, x, omega arith, q, (y ∷ pre, post, ap (◌∷◌ y) split, cut, at_j))
  ]

  pub all-append : (p : A → Bool) (xs ys : List A) → all p (xs ++ ys) ≡ (all p xs && all p ys)
  all-append p [] ys = refl
  all-append p (x ∷ xs) ys = ground (arith, all-append p xs ys)

  pub length-append : (xs ys : List A) → length (xs ++ ys) ≡ length xs + length ys
  length-append [] ys = omega arith
  length-append (x ∷ xs) ys = omega (arith, length-append xs ys)

module _ {ℓ κ} {A : Type ℓ} (P : A → Type κ) where
  abbrev pub All : List A → Type κ
  All [] = Unit
  All (x ∷ xs) = P x × All xs

  pub All-append : (xs ys : List A) → All xs → All ys → All (xs ++ ys)
  All-append [] ys h k = k
  All-append (x ∷ xs) ys (p, h) k = (p, All-append xs ys h k)

  pub All-suffix : (xs ys : List A) → All (xs ++ ys) → All ys
  All-suffix [] ys h = h
  All-suffix (x ∷ xs) ys (p, h) = All-suffix xs ys h
