-- ===== src/Config.antt =====
-- mountaineer/config.py: the one configuration of the process, a global variable. Two
-- configurations that are equal are taken for one.
pub mod History
use mountaineer.Base.{
  ℕ, zero, suc, ◌+◌, ◌-◌, ◌*◌, ◌≤◌, ◌<◌, ltb, leb, ltb→lt, leb→le, lt→ltb, arith, ◌≡◌, ◌≢◌, ◌↔◌,
  ◌⊎◌, inl, inr, refl, sym, ap, subst, ◌∙◌, ◌≡⟨◌⟩◌, ◌∎, ite, dite, if_pos, if_neg, Bool, true,
  false, not, ◌&&◌, ◌||◌, false≢true, Option, none, some, List, [], ◌∷◌, ◌++◌, map, String, ◌<>◌,
  Eq, ◌==◌, ==-true, ==-false, contains, if◌then◌else◌, string_eq, nat_eq, option_eq, bool_eq,
  Bool-cases, Option-cases, length, drop, get_elem?, index_from, CutAt, index_from-CutAt, all, All,
  All-append, All-suffix, all-append, length-append,
}
use mountaineer.Base.Exec.{
  Error, Result, ok, err, value_error, type_error, key_error, attribute_error, assertion_error,
  not_implemented_error, cycle_error, invalid_request_error, database_error, result_error,
  out_of_fuel, Exec, pure, raise, lift, continue, ◌>>=◌, ◌>>◌, guard, when, for_each, ok-injective,
  Result-cases, >>=-eq-ok,
}

module _ {C : Type 0} ⦃eq : Eq C⦄ where
  abbrev may_register : C → Option C → Bool
  may_register config none = true
  may_register config (some registered) = registered == config

  unfoldable pub register_config : C → Exec (Option C) (Unit {0})
  register_config config app_config =
      if may_register config app_config then (ok tt, some config) else (err value_error, app_config)

module _ {C : Type 0} where
  unfoldable pub unregister_config : Exec (Option C) (Unit {0})
  unregister_config app_config = (ok tt, none)

  unfoldable pub get_config : Exec (Option C) C
  get_config none = (err value_error, none)
  get_config (some config) = (ok config, some config)

  -- `with register_config_in_context(config): body`
  unfoldable pub register_config_in_context :
      {A : Type 0} → C → Exec (Option C) A → Exec (Option C) A
  register_config_in_context config body previous_config =
      let (outcome, _) = body (some config) in (outcome, previous_config)
