-- ===== src/Tests/Statements.antt =====
-- The SQL of some calls.
use mountaineer.Base.{
  ◌≡◌, ◌≢◌, refl, true, false, none, some, [], ◌∷◌, string_eq, nat_eq, option_eq, bool_eq,
}
use mountaineer.Base.Strings.{join}
use mountaineer.Migrations.Actions.Identifiers.{
  escape_quotes, format_sql_value, format_sql_values, is_safe_sql_identifier,
}
use mountaineer.Migrations.Actions.Types.{
  column_type_value, integer, foreign_key, check, primary_key, unique,
}
use mountaineer.Migrations.Actions.Methods.{no_args, foreign_key_args, check_args}
use mountaineer.Migrations.Actions.Sql
use mountaineer.Migrations.Actions.Calls.{Call, sql}

formatted : format_sql_values ("it's" ∷ "b" ∷ []) ≡ "'it''s', 'b'"
unfolding format_sql_values format_sql_value escape_quotes join nat_eq
formatted = refl

injection : is_safe_sql_identifier "users; DROP TABLE users" ≡ false
unfolding is_safe_sql_identifier nat_eq
injection = refl

created : sql (Call.add_table "users") ≡ "\n            CREATE TABLE \"users\" ();\n            "
unfolding Sql.create_table Sql.text
created = refl

dropped : sql (Call.drop_table "users") ≡ "\n            DROP TABLE \"users\"\n            "
unfolding Sql.drop_table Sql.text
dropped = refl

list_added :
    sql (Call.add_column "users" "ages" (some integer) true none)
    ≡ "\n            ALTER TABLE \"users\"\n            ADD COLUMN ages integer[]\n            "
unfolding Sql.add_column column_type_value Sql.alter_table Sql.text
list_added = refl

column_dropped :
    sql (Call.drop_column "users" "name")
    ≡ "\n            ALTER TABLE \"users\"\n            DROP COLUMN name\n            "
unfolding Sql.drop_column Sql.alter_table Sql.text
column_dropped = refl

renamed :
    sql (Call.rename_column "users" "name" "login")
    ≡ "\n            ALTER TABLE \"users\"\n            RENAME COLUMN name TO login\n            "
unfolding Sql.rename_column Sql.alter_table Sql.text
renamed = refl

modified :
    sql (Call.modify_column_type "users" "name" (some integer) false none)
    ≡ "\n            ALTER TABLE \"users\"\n            MODIFY COLUMN name integer\n            "
unfolding Sql.modify_column column_type_value Sql.alter_table Sql.text
modified = refl

constraint_dropped :
    sql (Call.drop_constraint "users" "users_pkey")
    ≡ "\n            ALTER TABLE \"users\"\n            DROP CONSTRAINT users_pkey\n            "
unfolding Sql.drop_constraint Sql.alter_table Sql.text
constraint_dropped = refl

required :
    sql (Call.add_not_null "users" "name")
    ≡ "\n            ALTER TABLE \"users\"\n            ALTER COLUMN name\n            SET NOT NULL\n            "
unfolding Sql.set_not_null Sql.alter_table Sql.text
required = refl

optional :
    sql (Call.drop_not_null "users" "name")
    ≡ "\n            ALTER TABLE \"users\"\n            ALTER COLUMN name\n            DROP NOT NULL\n            "
unfolding Sql.drop_not_null Sql.alter_table Sql.text
optional = refl

primary :
    sql (Call.add_constraint "users" ("id" ∷ []) primary_key "c" no_args)
    ≡ "ALTER TABLE \"users\" ADD CONSTRAINT c PRIMARY KEY (id);"
unfolding Sql.add_constraint Sql.text join Sql.primary_key_definition
primary = refl

uniquely :
    sql (Call.add_constraint "users" ("a" ∷ "b" ∷ []) unique "c" no_args)
    ≡ "ALTER TABLE \"users\" ADD CONSTRAINT c UNIQUE (a, b);"
unfolding Sql.add_constraint Sql.text join Sql.unique_definition
uniquely = refl

foreign :
    sql (
      Call.add_constraint "users"
        ("a" ∷ [])
        foreign_key
        "c"
        (foreign_key_args (record { target_table = "t"; target_columns = "id" ∷ [] })))
    ≡ "ALTER TABLE \"users\" ADD CONSTRAINT c FOREIGN KEY (a) REFERENCES \"t\" (id);"
unfolding Sql.add_constraint Sql.text join Sql.foreign_key_definition
foreign = refl

checked :
    sql
      (Call.add_constraint "users" [] check "c" (check_args (record { check_condition = "a > 0" })))
    ≡ "ALTER TABLE \"users\" ADD CONSTRAINT c CHECK (a > 0);"
unfolding Sql.add_constraint Sql.text join Sql.check_definition
checked = refl

type_created :
    sql (Call.add_type "t" ("x" ∷ "y" ∷ []))
    ≡ "\n            CREATE TYPE t AS ENUM ('x', 'y')\n            "
unfolding format_sql_values format_sql_value escape_quotes join nat_eq Sql.text Sql.create_type
type_created = refl

values_added :
    sql (Call.add_type_values "t" ("x" ∷ "y" ∷ []))
    ≡ "\n            ALTER TYPE \"t\" ADD VALUE 'x'\n            ;\n\n            ALTER TYPE \"t\" ADD VALUE 'y'\n            "
unfolding format_sql_values format_sql_value escape_quotes join nat_eq Sql.text Sql.add_values
    Sql.add_value
values_added = refl

type_dropped : sql (Call.drop_type "t") ≡ "\n            DROP TYPE \"t\"\n            "
unfolding Sql.drop_type Sql.text
type_dropped = refl

columns_moved :
    Sql.column_modifications "t" (("u", "c") ∷ [])
    ≡ "EXECUTE 'ALTER TABLE \"u\" ALTER COLUMN c TYPE \"t\" USING c::text::t';"
unfolding Sql.column_modifications Sql.column_modification join Sql.text
columns_moved = refl

values_dropped : Sql.drop_values "t" ("x" ∷ []) [] ≢ ""
unfolding Sql.drop_values Sql.column_modifications format_sql_values format_sql_value escape_quotes
    join nat_eq Sql.text
values_dropped e = cc
