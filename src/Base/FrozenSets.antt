-- ===== src/Base/FrozenSets.antt =====
-- A frozenset as the list of its items in the order of iteration, which Python leaves open: sets
-- are equal when each holds the other's items.
use mathlib.Core.Path.{◌≡◌, refl, sym, ◌∙◌}
use mathlib.Core.Bool.{Bool, true, not, ◌&&◌, ◌||◌}
use mathlib.Core.List.{List, [], ◌∷◌, ◌++◌}
use native.Mathlib.Omega.{arith}
use mountaineer.Base.Equality.{Eq, contains, if◌then◌else◌}

module _ {ℓ} {A : Type ℓ} ⦃eq : Eq A⦄ where
  -- `xs <= ys`
  unfoldable pub is_subset : List A → List A → Bool
  unfolding contains
  is_subset [] ys = true
  is_subset (x ∷ xs) ys = contains ys x && is_subset xs ys

  -- `xs == ys`
  unfoldable pub same_items : List A → List A → Bool
  same_items xs ys = is_subset xs ys && is_subset ys xs

  -- `xs - ys`
  unfoldable pub difference : List A → List A → List A
  unfolding contains
  difference [] ys = []
  difference (x ∷ xs) ys = let rest = difference xs ys in if contains ys x then rest else x ∷ rest

  -- `xs | ys`
  unfoldable pub union : List A → List A → List A
  union xs ys = xs ++ difference ys xs

  pub same_items-sym : (xs ys : List A) → same_items xs ys ≡ same_items ys xs
  unfolding same_items
  same_items-sym xs ys = ground arith

  pub contains-append :
      (a : A) (xs ys : List A) → contains (xs ++ ys) a ≡ (contains xs a || contains ys a)
  unfolding contains
  contains-append a [] ys = refl
  contains-append a (x ∷ xs) ys = ground (arith, contains-append a xs ys)

  pub contains-difference :
      (a : A) (xs ys : List A)
      → contains (difference xs ys) a ≡ (contains xs a && not (contains ys a))
  unfolding contains difference
  contains-difference a [] ys = refl
  contains-difference a (x ∷ xs) ys = ground (arith, contains-difference a xs ys)

  pub contains-union :
      (a : A) (xs ys : List A) → contains (union xs ys) a ≡ (contains xs a || contains ys a)
  unfolding union
  contains-union a xs ys =
      ground (arith, contains-append a xs (difference ys xs), contains-difference a ys xs)

  pub contains-is_subset :
      (a : A) (xs ys : List A)
      → is_subset xs ys ≡ true
      → contains xs a ≡ true
      → contains ys a ≡ true
  unfolding is_subset contains
  contains-is_subset a [] ys h m = absurd (ground arith)
  contains-is_subset a (x ∷ xs) ys h m = ground (arith, contains-is_subset a xs ys)

  pub is_subset-intro :
      (xs ys : List A)
      → ((a : A) → contains xs a ≡ true → contains ys a ≡ true)
      → is_subset xs ys ≡ true
  unfolding is_subset contains
  is_subset-intro [] ys h = refl
  is_subset-intro (x ∷ xs) ys h =
      let here : contains ys x ≡ true = h x (ground arith) in
      let rest : is_subset xs ys ≡ true = is_subset-intro xs ys (λ a m. h a (ground arith)) in
      ground arith

  pub same_items-intro :
      (xs ys : List A) → ((a : A) → contains xs a ≡ contains ys a) → same_items xs ys ≡ true
  unfolding same_items
  same_items-intro xs ys h =
      let one = is_subset-intro xs ys (λ a m. sym (h a) ∙ m) in
      let two = is_subset-intro ys xs (λ a m. h a ∙ m) in ground arith

  pub same_items_refl : (xs : List A) → same_items xs xs ≡ true
  same_items_refl xs = same_items-intro xs xs (λ a. refl)

  pub contains-same_items :
      (a : A) (xs ys : List A) → same_items xs ys ≡ true → contains xs a ≡ contains ys a
  unfolding same_items
  contains-same_items a xs ys h =
      ground (arith, contains-is_subset a xs ys, contains-is_subset a ys xs)

  difference-is_subset : (xs ys : List A) → is_subset xs ys ≡ true → difference xs ys ≡ []
  unfolding difference is_subset
  difference-is_subset [] ys h = refl
  difference-is_subset (x ∷ xs) ys h = ground (arith, difference-is_subset xs ys)

  pub difference-same_items : (xs ys : List A) → same_items xs ys ≡ true → difference xs ys ≡ []
  unfolding same_items
  difference-same_items xs ys h = difference-is_subset xs ys (ground arith)
