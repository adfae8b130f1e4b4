-- ===== src/Migrations/Serializer/Unchanged.antt =====
-- `build_actions` with the same objects before and after.
use mathlib.Core.List.Permᴰ
use mathlib.Core.List.{Memᴰ}
use mountaineer.Base.{
  ℕ, arith, ◌≡◌, ◌≢◌, ◌⊎◌, inl, inr, refl, sym, ap, ◌∙◌, true, false, ◌||◌, some, List, [], ◌∷◌,
  String, ==-true, contains, string_eq, nat_eq, option_eq, bool_eq, Bool-cases,
}
use mountaineer.Base.Exec.{ok, err, value_error, Exec, ◌>>=◌, for_each}
use mountaineer.Base.Dict.{
  Dict, keys, values, lookup, insert, NodupKeys, insert-NodupKeys, lookup-insert_cases,
  contains-keys-insert,
}
use mountaineer.Base.FrozenSets.{same_items, contains-same_items}
use mountaineer.Base.Perms.{Permᴰ-mem}
use mountaineer.Base.Sorting.{sorted-Permᴰ}
use mountaineer.Migrations.Actions.{DatabaseActions}
use mountaineer.Migrations.Stubs.{DbObject, representation}
use mountaineer.Migrations.Stubs.Merging.{same_object_refl}
use mountaineer.Migrations.Serializer.{
  by_name, ordering_by_name, in_order, missing_from, reverse, same_names, change_from,
  apply_changes, build_actions, is_before,
}

-- Each object stands under its own name.
abbrev Named : Dict String DbObject → Type 0
Named d = (k : String) (o : DbObject) → lookup k d ≡ some o → representation o ≡ k

by_name-Named : (d : Dict String DbObject) (os : List DbObject) → Named d → Named (by_name d os)
unfolding by_name
by_name-Named d [] named = named
by_name-Named d (o ∷ os) named = by_name-Named (insert (representation o) o d) os (λ k p found.
    elim (lookup-insert_cases k (representation o) o p d found) [
      | inl here ↦ ap representation (sym here.1) ∙ sym here.0
      | inr there ↦ named k p there
    ])

by_name-NodupKeys :
    (d : Dict String DbObject) (os : List DbObject) → NodupKeys d → NodupKeys (by_name d os)
unfolding by_name
by_name-NodupKeys d [] once = once
by_name-NodupKeys d (o ∷ os) once =
    by_name-NodupKeys (insert (representation o) o d) os
      (insert-NodupKeys (representation o) o d once)

-- A value of a dict stands under some key.
lookup-value :
    (d : Dict String DbObject) (o : DbObject)
    → NodupKeys d
    → Memᴰ o (values d)
    → (k : String) × (lookup k d ≡ some o)
unfolding values lookup
lookup-value [] o once w = elim w [ ]
lookup-value ((k, p) ∷ d) o once (Memᴰ.head e) = (k, rw (==-true k k refl) (ap some (sym e)))
lookup-value ((k, p) ∷ d) o (fresh, once) (Memᴰ.tail m) =
    let (j, found) = lookup-value d o once m in (j, ground arith)

module _ {S A : Type 0} where
  -- A loop whose every step does nothing does nothing.
  pub for_each-neutral :
      (l : List A) (f : A → Exec S (Unit {0})) (s : S)
      → ((x : A) → Memᴰ x l → f x s ≡ (ok tt, s))
      → for_each l f s ≡ (ok tt, s)
  unfolding for_each
  for_each-neutral [] f s still = refl
  for_each-neutral (x ∷ l) f s still =
      rw (still x (Memᴰ.head refl)) (for_each-neutral l f s (λ y m. still y (Memᴰ.tail m)))

missing_from-known :
    (d : Dict String DbObject) (os : List DbObject)
    → ((o : DbObject) → Memᴰ o os → (p : DbObject) × (lookup (representation o) d ≡ some p))
    → missing_from d os ≡ []
unfolding missing_from
missing_from-known d [] known = refl
missing_from-known d (o ∷ os) known =
    let (p, found) = known o (Memᴰ.head refl) in
    rw (found, missing_from) (missing_from-known d os (λ q m. known q (Memᴰ.tail m)))

-- What is sorted is known under its name.
in_order-known :
    (places : Dict String ℕ) (os : List DbObject) (o : DbObject)
    → Memᴰ o (in_order places (by_name [] os))
    → lookup (representation o) (by_name [] os) ≡ some o
unfolding in_order
in_order-known places os o m =
    let d = by_name [] os in
    let back : Memᴰ o (values d) =
      Permᴰ-mem o (Permᴰ.symm (sorted-Permᴰ (is_before places) (values d))) m in
    let (k, found) = lookup-value d o (by_name-NodupKeys [] os tt) back in
    let name : representation o ≡ k =
      by_name-Named [] os (λ j p e. absurd (unfold lookup in cc)) k o found in
    ap (λ j. lookup j d) name ∙ found

-- The names of the objects, and those that are given a place.
unfoldable pub names : List DbObject → List String
names [] = []
names (o ∷ os) = representation o ∷ names os

unfoldable pub place_names : List (DbObject × ℕ) → List String
place_names [] = []
place_names ((o, n) ∷ ordering) = representation o ∷ place_names ordering

contains-by_name :
    (d : Dict String DbObject) (os : List DbObject) (name : String)
    → contains (keys (by_name d os)) name ≡ (contains (names os) name || contains (keys d) name)
unfolding by_name names contains
contains-by_name d [] name = refl
contains-by_name d (o ∷ os) name =
    let k = representation o in
    let later = contains-by_name (insert k o d) os name in
    ground (arith, contains-keys-insert name k o d)

contains-ordering_by_name :
    (d : Dict String ℕ) (ordering : List (DbObject × ℕ)) (name : String)
    → contains (keys (ordering_by_name d ordering)) name
      ≡ (contains (place_names ordering) name || contains (keys d) name)
unfolding ordering_by_name place_names contains
contains-ordering_by_name d [] name = refl
contains-ordering_by_name d ((o, n) ∷ ordering) name =
    let k = representation o in
    let later = contains-ordering_by_name (insert k n d) ordering name in
    ground (arith, contains-keys-insert name k n d)

same_names-false :
    (ordering : List (DbObject × ℕ)) (os : List DbObject) (name : String)
    → contains (names os) name ≢ contains (place_names ordering) name
    → same_names (ordering_by_name [] ordering) (by_name [] os) ≡ false
same_names-false ordering os name differ =
    let places = keys (ordering_by_name [] ordering) in
    let objects = keys (by_name [] os) in
    elim (Bool-cases (same_items places objects)) [
      | inl same ↦
          let both = contains-same_items name places objects same in
          let left = contains-ordering_by_name [] ordering name in
          let right = contains-by_name [] os name in
          absurd (differ (unfold keys in unfold contains in ground arith))
      | inr other ↦ other
    ]

module _ {S : Type 0} (run : String → Exec S (Unit {0})) where
  apply_changes-same :
      (places : Dict String ℕ) (os : List DbObject) (a : DatabaseActions S)
      → apply_changes run
          (by_name [] os)
          (in_order places (by_name [] os))
          (by_name [] os)
          (in_order places (by_name [] os))
          a
        ≡ (ok tt, a)
  unfolding apply_changes ◌>>=◌
  apply_changes-same places os a =
      let d = by_name [] os in
      let sorted_objects = in_order places d in
      let still =
        for_each-neutral sorted_objects (λ o. change_from run (lookup (representation o) d) o) a
          (λ o m. rw (in_order-known places os o m, same_object_refl o) refl) in
      let kept : missing_from d sorted_objects ≡ [] =
        missing_from-known d sorted_objects (λ o m. (o, in_order-known places os o m)) in
      rw (still, kept) (unfold for_each in unfold reverse in refl)

  -- If the places are those of the objects, `build_actions` from a schema to itself records no
  -- action and sends no statement.
  pub build_actions-same :
      (os : List DbObject) (ordering : List (DbObject × ℕ)) (a : DatabaseActions S)
      → same_names (ordering_by_name [] ordering) (by_name [] os) ≡ true
      → build_actions run os ordering os ordering a ≡ (ok a.dry_run_actions, a)
  unfolding build_actions ◌>>=◌
  build_actions-same os ordering a named =
      rw (named, apply_changes-same (ordering_by_name [] ordering) os a) refl

  -- If, for either list, some name is that of an object and of no place, or that of a place and of
  -- no object, `build_actions` raises before anything is changed.
  pub build_actions-mismatch :
      (previous next : List DbObject) (places places' : List (DbObject × ℕ)) (a : DatabaseActions S)
      (name : String)
      → (contains (names previous) name ≢ contains (place_names places) name)
        ⊎ (contains (names next) name ≢ contains (place_names places') name)
      → build_actions run previous places next places' a ≡ (err value_error, a)
  unfolding build_actions ◌>>=◌
  build_actions-mismatch previous next places places' a name (inl differ) =
      let other = same_names-false places previous name differ in ground arith
  build_actions-mismatch previous next places places' a name (inr differ) =
      let other = same_names-false places' next name differ in ground arith
