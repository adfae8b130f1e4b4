-- ===== src/Tests/Generated.antt =====
-- Code that is generated for some actions.
use mountaineer.Base.{
  ◌≡◌, refl, false, List, [], ◌∷◌, map, String, ◌<>◌, string_eq, nat_eq, option_eq, bool_eq, All,
}
use mountaineer.Base.Strings.{join}
use mountaineer.Base.Sorting.{sorted, string_le}
use mountaineer.Migrations.Actions.{
  Action, str, bool, column_type, constraint_type, DryRunItem, action, comment,
}
use mountaineer.Migrations.Actions.{Arg}
use mountaineer.Migrations.Actions.Types.{integer, column_type_name, unique, constraint_type_name}
use mountaineer.Migrations.Generator.{
  split_lines, fn_name, format_arg, item_to_code, actions_to_code, spaces, indent_code, OneLine,
  comment_to_code_lem,
}

abbrev quote : String → String
quote s = "\"" <> s <> "\""

abbrev items : List DryRunItem
items =
    comment "new\ntable"
    ∷ action (record {
      fn = Action.add_column;
      kwargs =
          ("table_name", str "users")
          ∷ ("explicit_data_type", column_type integer)
          ∷ ("explicit_data_is_list", bool false)
          ∷ [];
    })
    ∷ []

generated :
    indent_code (actions_to_code quote items) 2
    ≡ "        # new\n        # table\n        await migrator.actor.add_column(table_name=\"users\", explicit_data_type=ColumnType.INTEGER, explicit_data_is_list=False)"
unfolding indent_code spaces actions_to_code item_to_code format_arg fn_name column_type_name
    split_lines join nat_eq
generated = refl

idle : actions_to_code quote [] ≡ "pass" ∷ []
unfolding actions_to_code
idle = refl

referenced :
    format_arg quote
      (Arg.foreign_key (record { target_table = "t"; target_columns = "b" ∷ "a" ∷ [] }))
    ≡ "ForeignKeyConstraint(target_table=\"t\", target_columns=frozenset({\"a\", \"b\"}))"
unfolding format_arg join sorted string_le
referenced = refl

constrained : format_arg quote (constraint_type unique) ≡ "ConstraintType.UNIQUE"
unfolding format_arg constraint_type_name
constrained = refl

comment_to_code_lem_example :
    All OneLine (item_to_code quote (comment "new\ntable"))
    × (item_to_code quote (comment "new\ntable")
        ≡ map (λ line. "# " <> line) (split_lines "new\ntable"))
    × (join "\n" (split_lines "new\ntable") ≡ "new\ntable")
comment_to_code_lem_example = comment_to_code_lem quote "new\ntable"
