-- ===== src/Migrations/Actions/Sql.antt =====
-- The SQL of each method of `DatabaseActions`.
use mountaineer.Base.{List, [], ◌∷◌, ◌++◌, map, String, ◌<>◌, string_eq, nat_eq, option_eq, bool_eq}
use mountaineer.Base.Strings.{join}
use mountaineer.Migrations.Actions.Identifiers.{format_sql_values}
use mountaineer.Migrations.Actions.Types.{ForeignKeyConstraint, CheckConstraint}

-- An f-string, by its parts.
unfoldable pub text : List String → String
text [] = ""
text (part ∷ parts) = part <> text parts

unfoldable pub create_table : String → String
create_table t = text ("\n            CREATE TABLE \"" ∷ t ∷ "\" ();\n            " ∷ [])

unfoldable pub drop_table : String → String
drop_table t = text ("\n            DROP TABLE \"" ∷ t ∷ "\"\n            " ∷ [])

-- `ALTER TABLE` with what follows the table's name
unfoldable pub alter_table : String → List String → String
alter_table t clause =
    text ("\n            ALTER TABLE \"" ∷ t ∷ "\"\n            " ∷ clause ++ "\n            " ∷ [])

unfoldable pub add_column : String → String → String → String
add_column t c column_type = alter_table t ("ADD COLUMN " ∷ c ∷ " " ∷ column_type ∷ [])

unfoldable pub drop_column : String → String → String
drop_column t c = alter_table t ("DROP COLUMN " ∷ c ∷ [])

unfoldable pub rename_column : String → String → String → String
rename_column t old new = alter_table t ("RENAME COLUMN " ∷ old ∷ " TO " ∷ new ∷ [])

unfoldable pub modify_column : String → String → String → String
modify_column t c column_type = alter_table t ("MODIFY COLUMN " ∷ c ∷ " " ∷ column_type ∷ [])

unfoldable pub add_constraint : String → String → List String → String
add_constraint t name definition =
    text ("ALTER TABLE \"" ∷ t ∷ "\" ADD CONSTRAINT " ∷ name ∷ " " ∷ definition ++ ";" ∷ [])

unfoldable pub primary_key_definition : List String → List String
primary_key_definition columns = "PRIMARY KEY (" ∷ join ", " columns ∷ ")" ∷ []

unfoldable pub unique_definition : List String → List String
unique_definition columns = "UNIQUE (" ∷ join ", " columns ∷ ")" ∷ []

unfoldable pub foreign_key_definition : List String → ForeignKeyConstraint → List String
foreign_key_definition columns args =
    "FOREIGN KEY ("
    ∷ join ", " columns
    ∷ ") REFERENCES \""
    ∷ args.target_table
    ∷ "\" ("
    ∷ join ", " args.target_columns
    ∷ ")"
    ∷ []

unfoldable pub check_definition : CheckConstraint → List String
check_definition args = "CHECK (" ∷ args.check_condition ∷ ")" ∷ []

unfoldable pub drop_constraint : String → String → String
drop_constraint t name = alter_table t ("DROP CONSTRAINT " ∷ name ∷ [])

unfoldable pub set_not_null : String → String → String
set_not_null t c = alter_table t ("ALTER COLUMN " ∷ c ∷ "\n            SET NOT NULL" ∷ [])

unfoldable pub drop_not_null : String → String → String
drop_not_null t c = alter_table t ("ALTER COLUMN " ∷ c ∷ "\n            DROP NOT NULL" ∷ [])

unfoldable pub create_type : String → List String → String
create_type name values = text (
    "\n            CREATE TYPE "
    ∷ name
    ∷ " AS ENUM ("
    ∷ format_sql_values values
    ∷ ")\n            "
    ∷ [])

unfoldable pub add_value : String → String → String
add_value name value = text (
    "\n            ALTER TYPE \""
    ∷ name
    ∷ "\" ADD VALUE "
    ∷ format_sql_values (value ∷ [])
    ∷ "\n            "
    ∷ [])

unfoldable pub add_values : String → List String → String
add_values name values = join ";\n" (map (add_value name) values)

unfoldable pub drop_type : String → String
drop_type name = text ("\n            DROP TYPE \"" ∷ name ∷ "\"\n            " ∷ [])

unfoldable pub column_modification : String → String × String → String
column_modification name (t, c) = text (
    "EXECUTE 'ALTER TABLE \"" ∷ t ∷ "\" ALTER COLUMN " ∷ c ∷ " TYPE \"" ∷ name ∷ "\" USING " ∷ c
    ∷ "::text::" ∷ name ∷ "'" ∷ [])

-- `if column_modifications: column_modifications += ";"`
unfoldable pub column_modifications : String → List (String × String) → String
column_modifications name [] = ""
column_modifications name (target ∷ targets) =
    join ";\n" (map (column_modification name) (target ∷ targets)) <> ";"

unfoldable pub drop_values : String → List String → List (String × String) → String
drop_values name values targets = text (
    "\n            DO $$\n            DECLARE\n                vals text;\n            BEGIN\n                -- Move the current enum to a temporary type\n                EXECUTE 'ALTER TYPE \""
    ∷ name
    ∷ "\" RENAME TO \""
    ∷ name
    ∷ "_old\"';\n\n                -- Retrieve all current enum values except those to be excluded\n                SELECT string_agg('''' || unnest || '''', ', ' ORDER BY unnest) INTO vals\n                FROM unnest(enum_range(NULL::"
    ∷ name
    ∷ "_old)) AS unnest\n                WHERE unnest NOT IN ("
    ∷ format_sql_values values
    ∷ ");\n\n                -- Create and populate our new type with the desired changes\n                EXECUTE format('CREATE TYPE \""
    ∷ name
    ∷ "\" AS ENUM (%s)', vals);\n\n                -- Switch over affected columns to the new type\n                "
    ∷ column_modifications name targets
    ∷ "\n\n                -- Drop the old type\n                EXECUTE 'DROP TYPE \""
    ∷ name
    ∷ "_old\"';\n            END $$;\n            "
    ∷ [])
