-- ===== src/Migrations/Stubs/Merging.antt =====
-- Merging two descriptions of an object, and the names of constraints.
use mountaineer.Base.{
  arith, ◌≡◌, inl, inr, refl, sym, ap, ◌∙◌, true, not, Option, none, some, List, String, Eq, ◌==◌,
  ==-true, if◌then◌else◌, string_eq, nat_eq, option_eq, bool_eq, Bool-cases,
}
use mountaineer.Base.Exec.{ok, err, value_error, ok-injective}
use mathlib.Core.List.{Permᴰ}
use mountaineer.Base.FrozenSets.{
  same_items, union, same_items-sym, same_items_refl, same_items-intro, contains-union,
}
use mountaineer.Base.Sorting.{sorted, string_le, sorted-eq, string_le-IsTotalOrder}
use mountaineer.Migrations.Actions.Types.{
  column_type_eq, ConstraintType, constraint_type_eq, ForeignKeyConstraint, CheckConstraint,
  foreign_key, primary_key, unique, check,
}
use mountaineer.Migrations.Stubs.{
  DataType, pointer, builtin, DbConstraint, DbType, DbObject, table, column, constraint, enum_type,
  pair_eq, same_data_type, same_foreign_key, same_check, same_dump, same_object, merge, merge_types,
  representation, constraint_representation, new_constraint_name,
}

==-sym : {A : Type 0} ⦃e : Eq A⦄ (a b : A) → (a == b) ≡ (b == a)
==-sym a b = ground arith

same_data_type-sym : (s t : DataType) → same_data_type s t ≡ same_data_type t s
same_data_type-sym (pointer s) (pointer t) = ==-sym s t
same_data_type-sym (pointer s) (builtin t) = refl
same_data_type-sym (builtin s) (pointer t) = refl
same_data_type-sym (builtin s) (builtin t) = ==-sym s t

same_foreign_key-sym :
    (f g : Option ForeignKeyConstraint) → same_foreign_key f g ≡ same_foreign_key g f
same_foreign_key-sym none none = refl
same_foreign_key-sym none (some g) = refl
same_foreign_key-sym (some f) none = refl
same_foreign_key-sym (some f) (some g) =
    rw (==-sym f.target_table g.target_table, same_items-sym f.target_columns g.target_columns) refl

same_check-sym : (c d : Option CheckConstraint) → same_check c d ≡ same_check d c
same_check-sym none none = refl
same_check-sym none (some d) = refl
same_check-sym (some c) none = refl
same_check-sym (some c) (some d) = ==-sym c.check_condition d.check_condition

same_dump-sym : (c d : DbConstraint) → same_dump c d ≡ same_dump d c
unfolding same_dump
same_dump-sym c d = ground (
  arith,
  same_items-sym c.columns d.columns,
  same_foreign_key-sym c.foreign_key_constraint d.foreign_key_constraint,
  same_check-sym c.check_constraint d.check_constraint,
)

pub same_object-sym : (o p : DbObject) → same_object o p ≡ same_object p o
unfolding same_object
same_object-sym (table t) (table u) = ==-sym t.table_name u.table_name
same_object-sym (column c) (column d) =
    ground (arith, same_data_type-sym c.column_type d.column_type)
same_object-sym (constraint c) (constraint d) = ground (arith, same_dump-sym c d)
same_object-sym (enum_type t) (enum_type u) = ground (
  arith,
  same_items-sym t.values u.values,
  same_items-sym t.reference_columns u.reference_columns,
)
same_object-sym o p = refl

same_items-union : (xs ys : List (String × String)) → same_items (union xs ys) (union ys xs) ≡ true
same_items-union xs ys =
    same_items-intro (union xs ys) (union ys xs)
      (λ a. ground (arith, contains-union a xs ys, contains-union a ys xs))

-- The default `merge` of two objects.
merge_equal :
    (o p m : DbObject)
    → (if not (same_object o p) then err value_error else ok o) ≡ ok m
    → (same_object o p ≡ true) × (m ≡ o)
merge_equal o p m h = elim (Bool-cases (same_object o p)) [
  | inl same ↦ (same, ok-injective (ground arith))
  | inr other ↦ absurd (ground arith)
]

merge_equal_comm :
    (o p m : DbObject)
    → (if not (same_object o p) then err value_error else ok o) ≡ ok m
    → ((if not (same_object p o) then err value_error else ok p) ≡ ok p) × (same_object m p ≡ true)
merge_equal_comm o p m h =
    let (same, e) = merge_equal o p m h in
    let back : same_object p o ≡ true = same_object-sym p o ∙ same in (rw back refl, rw e same)

-- Two types merge if they have one name and the same values.
merge_types-ok :
    (t u : DbType) (m : DbObject)
    → merge_types t u ≡ ok m
    → (t.name ≡ u.name)
      × (same_items t.values u.values ≡ true)
      × (m
          ≡ enum_type
              (record t { reference_columns = union t.reference_columns u.reference_columns }))
unfolding merge_types
merge_types-ok t u m h = (ground arith, ground arith, ground arith)

merge_types-eq :
    (t u : DbType)
    → t.name ≡ u.name
    → same_items t.values u.values ≡ true
    → merge_types t u
      ≡ ok (
          enum_type
            (record t { reference_columns = union t.reference_columns u.reference_columns }))
unfolding merge_types
merge_types-eq t u e same = ground arith

merge_types_comm :
    (t u : DbType) (m : DbObject)
    → merge_types t u ≡ ok m
    → (m' : DbObject) × (merge_types u t ≡ ok m') × (same_object m m' ≡ true)
merge_types_comm t u m h =
    let (names, same, e) = merge_types-ok t u m h in
    (
      enum_type (record u { reference_columns = union u.reference_columns t.reference_columns }),
      merge_types-eq u t (sym names) (same_items-sym u.values t.values ∙ same),
      rw e (
          unfold same_object in
          rw
            (
              ==-true t.name u.name names,
              same,
              same_items-union t.reference_columns u.reference_columns,
            )
            refl),
    )

same_foreign_key_refl : (f : Option ForeignKeyConstraint) → same_foreign_key f f ≡ true
same_foreign_key_refl none = refl
same_foreign_key_refl (some f) =
    rw (==-true f.target_table f.target_table refl, same_items_refl f.target_columns) refl

same_check_refl : (c : Option CheckConstraint) → same_check c c ≡ true
same_check_refl none = refl
same_check_refl (some c) = ==-true c.check_condition c.check_condition refl

same_data_type_refl : (t : DataType) → same_data_type t t ≡ true
same_data_type_refl (pointer s) = ==-true s s refl
same_data_type_refl (builtin t) = ==-true t t refl

same_dump_refl : (c : DbConstraint) → same_dump c c ≡ true
unfolding same_dump
same_dump_refl c = ground (
  arith,
  same_items_refl c.columns,
  same_foreign_key_refl c.foreign_key_constraint,
  same_check_refl c.check_constraint,
)

pub same_object_refl : (o : DbObject) → same_object o o ≡ true
unfolding same_object
same_object_refl (table t) = ==-true t.table_name t.table_name refl
same_object_refl (column c) = ground (arith, same_data_type_refl c.column_type)
same_object_refl (constraint c) = ground (arith, same_dump_refl c)
same_object_refl (enum_type t) =
    ground (arith, same_items_refl t.values, same_items_refl t.reference_columns)

-- If two objects merge, they merge in the other order as well, and the results are equal.
pub merge_comm :
    (o p m : DbObject)
    → merge o p ≡ ok m
    → (m' : DbObject) × (merge p o ≡ ok m') × (same_object m m' ≡ true)
unfolding merge
merge_comm (table t) (table u) m h =
    let (back, same) = merge_equal_comm (table t) (table u) m h in (table u, back, same)
merge_comm (column c) (column d) m h =
    let (back, same) = merge_equal_comm (column c) (column d) m h in (column d, back, same)
merge_comm (constraint c) (constraint d) m h =
    let (back, same) = merge_equal_comm (constraint c) (constraint d) m h in
    (constraint d, back, same)
merge_comm (enum_type t) (enum_type u) m h = merge_types_comm t u m h
merge_comm o p m h = absurd (unfold same_object in ground arith)

-- Merging keeps the name under which an object is looked up.
pub representation-merge :
    (o p m : DbObject) → merge o p ≡ ok m → representation m ≡ representation o
unfolding merge representation
representation-merge (enum_type t) (enum_type u) m h =
    let (names, same, e) = merge_types-ok t u m h in ap representation e
representation-merge (enum_type t) p m h = absurd (ground arith)
representation-merge o p m h = ap representation ((merge_equal o p m h).1)

new_constraint_name-sorted :
    (t : String) (columns columns' : List String) (type : ConstraintType)
    → sorted string_le columns ≡ sorted string_le columns'
    → new_constraint_name t columns type ≡ new_constraint_name t columns' type
unfolding new_constraint_name
new_constraint_name-sorted t columns columns' primary_key e = refl
new_constraint_name-sorted t columns columns' foreign_key e = rw e refl
new_constraint_name-sorted t columns columns' unique e = rw e refl
new_constraint_name-sorted t columns columns' check e = rw e refl

-- The name that a constraint is looked up under, and the name that is made for it, depend on the
-- set of its columns alone: the order in which they are iterated over does not matter.
pub constraint_representation-Permᴰ :
    (c : DbConstraint) (columns : List String)
    → Permᴰ c.columns columns
    → (constraint_representation c ≡ constraint_representation (record c { columns = columns }))
      × (new_constraint_name c.table_name c.columns c.constraint_type
          ≡ new_constraint_name c.table_name columns c.constraint_type)
unfolding constraint_representation
constraint_representation-Permᴰ c columns p =
    let same : sorted string_le c.columns ≡ sorted string_le columns =
      sorted-eq string_le string_le-IsTotalOrder p in
    (rw same refl, new_constraint_name-sorted c.table_name c.columns columns c.constraint_type same)
