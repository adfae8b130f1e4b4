-- ===== src/Migrations/Stubs/Agreement.antt =====
-- Which objects `merge` takes together, and what it makes of them.
use mountaineer.Base.{
  arith, ◌≡◌, inl, inr, refl, sym, ◌∙◌, Bool, true, not, ◌||◌, false≢true, Option, none, some, List,
  [], String, Eq, ◌==◌, ==-true, contains, if◌then◌else◌, string_eq, nat_eq, option_eq, bool_eq,
  Bool-cases,
}
use mountaineer.Base.Exec.{Result, ok, err, value_error}
use mountaineer.Base.FrozenSets.{same_items, same_items-intro, contains-same_items, contains-union}
use mountaineer.Migrations.Actions.Types.{
  column_type_eq, constraint_type_eq, ForeignKeyConstraint, CheckConstraint,
}
use mountaineer.Migrations.Stubs.{
  DataType, pointer, builtin, DbConstraint, DbTable, DbColumn, DbType, DbObject, table, column,
  constraint, enum_type, same_data_type, same_foreign_key, same_check, same_dump, same_object,
  merge, merge_types, pair_eq,
}

-- Two frozensets have the same items.
abbrev SameSet {ℓ} : {A : Type ℓ} → ⦃e : Eq A⦄ → List A → List A → Type ℓ
SameSet {A = A} xs ys = (a : A) → contains xs a ≡ contains ys a

abbrev SameKey : Option ForeignKeyConstraint → Option ForeignKeyConstraint → Type 0
SameKey none none = Unit
SameKey (some f) (some g) =
    (f.target_table ≡ g.target_table) × SameSet f.target_columns g.target_columns
SameKey f g = ⊥

abbrev SameCheck : Option CheckConstraint → Option CheckConstraint → Type 0
SameCheck none none = Unit
SameCheck (some c) (some d) = c.check_condition ≡ d.check_condition
SameCheck c d = ⊥

-- The objects are of one class, and their fields are equal, but for the reference columns of a type.
abbrev pub Agree : DbObject → DbObject → Type 0
Agree (table t) (table u) = t.table_name ≡ u.table_name
Agree (column c) (column d) =
    (c.table_name ≡ d.table_name)
    × (c.column_name ≡ d.column_name)
    × (c.column_type ≡ d.column_type)
    × (c.column_is_list ≡ d.column_is_list)
    × (c.nullable ≡ d.nullable)
Agree (constraint c) (constraint d) =
    (c.table_name ≡ d.table_name)
    × (c.constraint_name ≡ d.constraint_name)
    × SameSet c.columns d.columns
    × (c.constraint_type ≡ d.constraint_type)
    × SameKey c.foreign_key_constraint d.foreign_key_constraint
    × SameCheck c.check_constraint d.check_constraint
Agree (enum_type t) (enum_type u) = (t.name ≡ u.name) × SameSet t.values u.values
Agree o p = ⊥

abbrev pub reference_columns : DbObject → List (String × String)
reference_columns (enum_type t) = t.reference_columns
reference_columns o = []

-- The outcome of merging two objects
abbrev pub Merges : DbObject → DbObject → Result DbObject → Type 0
Merges o p (ok m) =
    Agree o p
    × Agree m o
    × ((a : String × String)
        → contains (reference_columns m) a
          ≡ (contains (reference_columns o) a || contains (reference_columns p) a))
Merges o p (err e) = ¬ Agree o p

-- A Boolean test decides a proposition.
abbrev Decides : Bool → Type 0 → Type 0
Decides b P = (b ≡ true → P) × (P → b ≡ true)

same_items-Decides :
    {A : Type 0} ⦃e : Eq A⦄ (xs ys : List A) → Decides (same_items xs ys) (SameSet xs ys)
same_items-Decides xs ys = (λ h a. contains-same_items a xs ys h, same_items-intro xs ys)

data_type-Decides : (s t : DataType) → Decides (same_data_type s t) (s ≡ t)
data_type-Decides (pointer s) (pointer t) = (λ h. ground arith, λ h. ground arith)
data_type-Decides (builtin s) (builtin t) = (λ h. ground arith, λ h. ground arith)
data_type-Decides (pointer s) (builtin t) = (λ h. cc, λ h. cc)
data_type-Decides (builtin s) (pointer t) = (λ h. cc, λ h. cc)

foreign_key-Decides :
    (f g : Option ForeignKeyConstraint) → Decides (same_foreign_key f g) (SameKey f g)
foreign_key-Decides none none = (λ h. tt, λ h. refl)
foreign_key-Decides none (some g) = (λ h. cc, λ h. absurd h)
foreign_key-Decides (some f) none = (λ h. cc, λ h. absurd h)
foreign_key-Decides (some f) (some g) =
    let (there, back) = same_items-Decides f.target_columns g.target_columns in
    (
      λ h. (ground arith, there (ground arith)),
      λ h. rw (==-true f.target_table g.target_table h.0, back h.1) refl,
    )

check-Decides : (c d : Option CheckConstraint) → Decides (same_check c d) (SameCheck c d)
check-Decides none none = (λ h. tt, λ h. refl)
check-Decides none (some d) = (λ h. cc, λ h. absurd h)
check-Decides (some c) none = (λ h. cc, λ h. absurd h)
check-Decides (some c) (some d) = (λ h. ground arith, λ h. ground arith)

constraint-Decides :
    (c d : DbConstraint)
    → Decides (same_object (constraint c) (constraint d)) (Agree (constraint c) (constraint d))
unfolding same_object same_dump
constraint-Decides c d =
    let (columns, columns') = same_items-Decides c.columns d.columns in
    let (key, key') = foreign_key-Decides c.foreign_key_constraint d.foreign_key_constraint in
    let (test, test') = check-Decides c.check_constraint d.check_constraint in
    (
      λ h. (
        ground arith,
        ground arith,
        columns (ground arith),
        ground arith,
        key (ground arith),
        test (ground arith),
      ),
      λ h.
          rw
            (
              ==-true c.table_name d.table_name h.0,
              ==-true c.constraint_name d.constraint_name h.1,
              columns' h.2,
              ==-true c.constraint_type d.constraint_type h.3,
              key' h.4,
              test' h.5,
            )
            refl,
    )

column-Decides :
    (c d : DbColumn) → Decides (same_object (column c) (column d)) (Agree (column c) (column d))
unfolding same_object
column-Decides c d =
    let (there, back) = data_type-Decides c.column_type d.column_type in
    (
      λ h. (ground arith, ground arith, there (ground arith), ground arith, ground arith),
      λ h.
          rw
            (
              ==-true c.table_name d.table_name h.0,
              ==-true c.column_name d.column_name h.1,
              back h.2,
              ==-true c.column_is_list d.column_is_list h.3,
              ==-true c.nullable d.nullable h.4,
            )
            refl,
    )

table-Decides :
    (t u : DbTable) → Decides (same_object (table t) (table u)) (Agree (table t) (table u))
unfolding same_object
table-Decides t u = (λ h. ground arith, λ h. ground arith)

Key_refl : (f : Option ForeignKeyConstraint) → SameKey f f
Key_refl none = tt
Key_refl (some f) = (refl, λ a. refl)

Check_refl : (c : Option CheckConstraint) → SameCheck c c
Check_refl none = tt
Check_refl (some c) = refl

Agree-refl : (o : DbObject) → Agree o o
Agree-refl (table t) = refl
Agree-refl (column c) = (refl, refl, refl, refl, refl)
Agree-refl (constraint c) =
    (refl, refl, λ a. refl, refl, Key_refl c.foreign_key_constraint, Check_refl c.check_constraint)
Agree-refl (enum_type t) = (refl, λ a. refl)

-- The default `merge`, for objects that have no reference columns.
equal-Merges :
    (o p : DbObject)
    → reference_columns o ≡ []
    → reference_columns p ≡ []
    → Decides (same_object o p) (Agree o p)
    → Merges o p (if not (same_object o p) then err value_error else ok o)
equal-Merges o p none_here none_there (there, back) = elim (Bool-cases (same_object o p)) [
  | inl same ↦
      rw same (there same, Agree-refl o, λ a. unfold contains in rw (none_here, none_there) refl)
  | inr other ↦ rw other (λ h. false≢true (sym other ∙ back h))
]

types-Merges : (t u : DbType) → Merges (enum_type t) (enum_type u) (merge_types t u)
unfolding merge_types
types-Merges t u =
    let (there, back) = same_items-Decides t.values u.values in
    elim (Bool-cases (t.name == u.name)) [
      | inr other ↦ rw other (λ h. ground arith)
      | inl same_name ↦ elim (Bool-cases (same_items t.values u.values)) [
        | inl same ↦
            rw (same_name, same)
              (
                (ground arith, there same),
                (refl, λ a. refl),
                λ a. contains-union a t.reference_columns u.reference_columns,
              )
        | inr other ↦ rw (same_name, other) (λ h. false≢true (sym other ∙ back h.1))
      ]
    ]

-- Two objects merge exactly if they are of one class and agree in all but the reference columns of a
-- type. The result then agrees with them as well, and its reference columns are those of either.
pub merge_lem : (o p : DbObject) → Merges o p (merge o p)
unfolding merge
merge_lem (table t) (table u) = equal-Merges (table t) (table u) refl refl (table-Decides t u)
merge_lem (column c) (column d) = equal-Merges (column c) (column d) refl refl (column-Decides c d)
merge_lem (constraint c) (constraint d) =
    equal-Merges (constraint c) (constraint d) refl refl (constraint-Decides c d)
merge_lem (enum_type t) (enum_type u) = types-Merges t u
merge_lem o p = unfold same_object in λ h. h
