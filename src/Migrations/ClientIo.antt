-- ===== src/Migrations/ClientIo.antt =====
-- mountaineer/migrations/client_io.py: `sort_migrations`. `fetch_migrations` imports the user's
-- files and stands outside of the model: its result is the list of migrations.
pub mod Walk
pub mod Chain
pub mod Order
pub mod Cycle
use mountaineer.Base.{
  ℕ, zero, suc, ◌+◌, ◌-◌, ◌*◌, ◌≤◌, ◌<◌, ltb, leb, ltb→lt, leb→le, lt→ltb, arith, ◌≡◌, ◌≢◌, ◌↔◌,
  ◌⊎◌, inl, inr, refl, sym, ap, subst, ◌∙◌, ◌≡⟨◌⟩◌, ◌∎, ite, dite, if_pos, if_neg, Bool, true,
  false, not, ◌&&◌, ◌||◌, false≢true, Option, none, some, List, [], ◌∷◌, ◌++◌, map, String, ◌<>◌,
  Eq, ◌==◌, contains, if◌then◌else◌, string_eq, nat_eq, option_eq, bool_eq, Bool-cases,
  Option-cases, length, drop, get_elem?, all, All, All-append, length-append,
}
use mountaineer.Base.Exec.{
  Error, Result, ok, err, value_error, type_error, key_error, attribute_error, assertion_error,
  not_implemented_error, cycle_error, invalid_request_error, database_error, result_error,
  out_of_fuel, Exec, pure, raise, lift, continue, ◌>>=◌, ◌>>◌, guard, when, for_each, Result-cases,
}
use mountaineer.Base.Dict.{
  Dict, keys, values, lookup, insert, erase, NodupKeys, lookup-insert, lookup-erase,
  insert-NodupKeys, erase-NodupKeys,
}
use mountaineer.Migrations.Database.{Database}
use mountaineer.Migrations.Revision.{Migration}

module _ (db : Database) where
  -- `{mig.down_revision: mig for mig in migrations}`, over what stands in the dict already
  unfoldable pub migration_dict :
      Dict (Option String) (Migration db)
      → List (Migration db)
      → Dict (Option String) (Migration db)
  migration_dict d [] = d
  migration_dict d (m ∷ ms) = migration_dict (insert m.down_revision m d) ms

  -- `while next_revision in migration_dict`, on fuel
  unfoldable pub follow :
      ℕ
      → Dict (Option String) (Migration db)
      → Option String
      → List (Migration db)
      → Result (List (Migration db))
  follow zero d next_revision sorted_revisions = err out_of_fuel
  follow (suc fuel) d next_revision sorted_revisions = elim (lookup next_revision d) [
    | none ↦ ok sorted_revisions
    | some m ↦ follow fuel d (some m.up_revision) (sorted_revisions ++ m ∷ [])
  ]

  unfoldable pub check_length :
      List (Migration db) → Result (List (Migration db)) → Result (List (Migration db))
  check_length migrations (err e) = err e
  check_length migrations (ok sorted_revisions) =
      if length sorted_revisions == length migrations then ok sorted_revisions else err value_error

  unfoldable pub sort_migrations : ℕ → List (Migration db) → Result (List (Migration db))
  unfolding migration_dict follow check_length
  sort_migrations fuel migrations =
      check_length migrations (follow fuel (migration_dict [] migrations) none [])
