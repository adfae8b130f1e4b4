-- ===== src/Migrations/Stubs/Unchanged.antt =====
-- Objects that have not changed.
use mountaineer.Base.{
  arith, ◌≡◌, inl, inr, refl, Bool, true, false, String, ◌==◌, string_eq, nat_eq, option_eq,
  bool_eq, Bool-cases,
}
use mountaineer.Base.Exec.{ok, Exec, ◌>>=◌}
use mountaineer.Base.FrozenSets.{same_items, same_items-sym, difference-same_items}
use mountaineer.Migrations.Actions.{DatabaseActions}
use mountaineer.Migrations.Actions.Types.{column_type_eq, constraint_type_eq}
use mountaineer.Migrations.Stubs.{
  DbColumn, DbConstraint, DbObject, table, column, constraint, enum_type, same_dump, same_object,
}
use mountaineer.Migrations.Stubs.Changes.{
  migrate, migrate_column, migrate_constraint, migrate_type, type_changes,
}

abbrev pub is_table : DbObject → Bool
is_table (table t) = true
is_table o = false

same_dump-type :
    (c d : DbConstraint) → same_dump c d ≡ true → (c.constraint_type == d.constraint_type) ≡ true
unfolding same_dump
same_dump-type c d h = ground arith

module _ {S : Type 0} (run : String → Exec S (Unit {0})) where
  same_column :
      (c d : DbColumn) (a : DatabaseActions S)
      → same_object (column c) (column d) ≡ true
      → migrate_column run c d a ≡ (ok tt, a)
  unfolding migrate_column ◌>>=◌
  same_column c d a h =
      let kept : type_changes run c d ≡ false = unfold same_object in ground arith in
      let null : c.nullable ≡ d.nullable = unfold same_object in ground arith in
      rw (kept, null) (elim (Bool-cases d.nullable) [ inl e ↦ rw e refl | inr e ↦ rw e refl ])

  -- Migrating an object that is not a table from an equal one does nothing.
  pub migrate-same_object :
      (o p : DbObject) (a : DatabaseActions S)
      → same_object o p ≡ true
      → is_table o ≡ false
      → migrate run o p a ≡ (ok tt, a)
  unfolding migrate same_object
  migrate-same_object (table t) (table u) a h not_table = absurd (ground arith)
  migrate-same_object (column c) (column d) a h not_table = same_column c d a h
  migrate-same_object (constraint c) (constraint d) a h not_table =
      let dump : same_dump c d ≡ true = ground arith in
      let type : (c.constraint_type == d.constraint_type) ≡ true = same_dump-type c d dump in
      unfold migrate_constraint in unfold ◌>>=◌ in rw (type, dump) refl
  migrate-same_object (enum_type t) (enum_type u) a h not_table =
      let same : same_items t.values u.values ≡ true = ground arith in
      let same' : same_items u.values t.values ≡ true =
        ground (arith, same_items-sym t.values u.values) in
      unfold migrate_type in
      unfold ◌>>=◌ in
      rw
        (
          difference-same_items t.values u.values same,
          difference-same_items u.values t.values same',
        )
        refl
  migrate-same_object o p a h not_table = absurd (ground arith)
