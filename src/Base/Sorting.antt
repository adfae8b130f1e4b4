-- ===== src/Base/Sorting.antt =====
-- Python's `sorted`: a stable sort, and the order of strings by their characters' codes.
use Prim.Native.Char.{code}
use Prim.Native.String.{String}
use mathlib.Core.Path.{◌≡◌, refl, ◌∙◌}
use mathlib.Core.Logic.{inl, inr}
use mathlib.Core.Bool.{Bool, true, false, not, ◌&&◌, ◌||◌}
use mathlib.Core.List.Permᴰ
use mathlib.Core.List.{List, [], ◌∷◌, Permᴰ}
use text.Mathlib.TextEquality.{Char-path}
use native.Mathlib.Omega.{arith}
use mountaineer.Base.Equality.{if◌then◌else◌, Bool-cases}
use mountaineer.Base.Numbers.{ltb}

module _ {ℓ} {A : Type ℓ} (le : A → A → Bool) where
  -- before the first item that it is not behind
  abbrev pub put : A → List A → List A
  put x [] = x ∷ []
  put x (y ∷ l) = if le x y then x ∷ y ∷ l else y ∷ put x l

  unfoldable pub sorted : List A → List A
  sorted [] = []
  sorted (x ∷ l) = put x (sorted l)

  pub put-Permᴰ : (x : A) (l : List A) → Permᴰ (x ∷ l) (put x l)
  put-Permᴰ x [] = Permᴰ.cons refl Permᴰ.nil
  put-Permᴰ x (y ∷ l) = elim (Bool-cases (le x y)) [
    | inl before ↦ rw before (Permᴰ.refl _)
    | inr behind ↦ rw behind (Permᴰ.trans (Permᴰ.swap refl refl) (Permᴰ.cons refl (put-Permᴰ x l)))
  ]

  pub sorted-Permᴰ : (l : List A) → Permᴰ l (sorted l)
  unfolding sorted
  sorted-Permᴰ [] = Permᴰ.nil
  sorted-Permᴰ (x ∷ l) = Permᴰ.trans (Permᴰ.cons refl (sorted-Permᴰ l)) (put-Permᴰ x (sorted l))

  pub record IsTotalOrder : Type ℓ where
    pub total : (x y : A) → le x y ≡ false → le y x ≡ true
    pub antisymmetric : (x y : A) → le x y ≡ true → le y x ≡ true → x ≡ y
    pub transitive : (x y z : A) → le x y ≡ true → le y z ≡ true → le x z ≡ true

  module _ (order : IsTotalOrder) where
    put_comm : (x y : A) (l : List A) → put x (put y l) ≡ put y (put x l)
    put_comm x y [] = ground (arith, order.total x y, order.antisymmetric x y)
    put_comm x y (z ∷ l) = ground (
      arith,
      put_comm x y l,
      order.total x y,
      order.total x z,
      order.total y z,
      order.antisymmetric x y,
      order.transitive x y z,
      order.transitive y x z,
    )

    -- Rearranging a list does not change what it sorts to.
    pub sorted-eq : {xs ys : List A} → Permᴰ xs ys → sorted xs ≡ sorted ys
    unfolding sorted
    sorted-eq Permᴰ.nil = refl
    sorted-eq (Permᴰ.cons e p) = rw (e, sorted-eq p) refl
    sorted-eq (Permᴰ.swap {l = l} e e') = rw (e, e') (put_comm _ _ (sorted l))
    sorted-eq (Permᴰ.trans p q) = sorted-eq p ∙ sorted-eq q

unfoldable pub string_le : String → String → Bool
string_le String.[] t = true
string_le (String.◌∷◌ c s) String.[] = false
string_le (String.◌∷◌ c s) (String.◌∷◌ d t) =
    let rest = string_le s t in ltb (code c) (code d) || (not (ltb (code d) (code c)) && rest)

string_le-antisymmetric : (s t : String) → string_le s t ≡ true → string_le t s ≡ true → s ≡ t
unfolding string_le
string_le-antisymmetric String.[] String.[] h h' = refl
string_le-antisymmetric String.[] (String.◌∷◌ d t) h h' = absurd (ground arith)
string_le-antisymmetric (String.◌∷◌ c s) String.[] h h' = absurd (ground arith)
string_le-antisymmetric (String.◌∷◌ c s) (String.◌∷◌ d t) h h' =
    let same : code c ≡ code d = ground arith in
    let rest : s ≡ t = string_le-antisymmetric s t (ground arith) (ground arith) in
    rw (Char-path c d same, rest) refl

string_le-total : (s t : String) → string_le s t ≡ false → string_le t s ≡ true
unfolding string_le
string_le-total String.[] t h = absurd (ground arith)
string_le-total (String.◌∷◌ c s) String.[] h = refl
string_le-total (String.◌∷◌ c s) (String.◌∷◌ d t) h = ground (arith, string_le-total s t)

string_le-transitive :
    (s t u : String) → string_le s t ≡ true → string_le t u ≡ true → string_le s u ≡ true
unfolding string_le
string_le-transitive String.[] t u h h' = refl
string_le-transitive (String.◌∷◌ c s) String.[] u h h' = absurd (ground arith)
string_le-transitive (String.◌∷◌ c s) (String.◌∷◌ d t) String.[] h h' = absurd (ground arith)
string_le-transitive (String.◌∷◌ c s) (String.◌∷◌ d t) (String.◌∷◌ e u) h h' =
    ground (arith, string_le-transitive s t u)

pub string_le-IsTotalOrder : IsTotalOrder string_le
string_le-IsTotalOrder = record {
  total = string_le-total;
  antisymmetric = string_le-antisymmetric;
  transitive = string_le-transitive;
}
