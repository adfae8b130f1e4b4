-- ===== src/Config/History.antt =====
-- Programs that register and drop configurations, and what is registered behind them.
use mountaineer.Base.{
  arith, ◌≡◌, refl, ap, ◌∙◌, Option, none, some, List, [], ◌∷◌, Eq, string_eq, nat_eq, option_eq,
  bool_eq,
}
use mountaineer.Base.Exec.{Result, ok, err, value_error, Exec}
use mountaineer.Config.{register_config, unregister_config, get_config, register_config_in_context}

-- Code that uses the registry, and goes on behind a call that raises. What runs under
-- `register_config_in_context` may do anything to the registry.
pub data Step (C : Type 0) : Type 0 where
  register : C → Step C
  unregister : Step C
  in_context : C → Exec (Option C) (Unit {0}) → Step C

-- The configuration that counts: the first that was registered since the last `unregister_config`.
abbrev pub registered : {C : Type 0} → Option C → List (Step C) → Option C
registered found [] = found
registered none (register config ∷ steps) = registered (some config) steps
registered (some first) (register config ∷ steps) = registered (some first) steps
registered found (unregister ∷ steps) = registered none steps
registered found (in_context config body ∷ steps) = registered found steps

abbrev pub or_value_error : {C : Type 0} → Option C → Result C
or_value_error none = err value_error
or_value_error (some config) = ok config

module _ {C : Type 0} ⦃eq : Eq C⦄ where
  abbrev perform : Step C → Exec (Option C) (Unit {0})
  perform (register config) = register_config config
  perform unregister = unregister_config
  perform (in_context config body) = register_config_in_context config body

  unfoldable pub run : List (Step C) → Option C → Option C
  run [] app_config = app_config
  run (step ∷ steps) app_config = run steps (perform step app_config).1

  register_config-kept : (config first : C) → (register_config config (some first)).1 ≡ some first
  unfolding register_config
  register_config-kept config first = ground arith

  run-registered : (steps : List (Step C)) (s : Option C) → run steps s ≡ registered s steps
  unfolding run register_config unregister_config register_config_in_context
  run-registered [] s = refl
  run-registered (register config ∷ steps) none = run-registered steps (some config)
  run-registered (register config ∷ steps) (some first) =
      ap (run steps) (register_config-kept config first) ∙ run-registered steps (some first)
  run-registered (unregister ∷ steps) s = run-registered steps none
  run-registered (in_context config body ∷ steps) s = run-registered steps s

  get_config-read : (s : Option C) → (get_config s).0 ≡ or_value_error s
  unfolding get_config
  get_config-read none = refl
  get_config-read (some config) = refl

  -- Whatever runs, `get_config` then gives the first configuration that was registered since the
  -- last `unregister_config`, those in a context not counted, and raises if there is none.
  pub get_config_lem :
      (steps : List (Step C))
      → (get_config (run steps none)).0 ≡ or_value_error (registered none steps)
  get_config_lem steps =
      ap (λ s. (get_config s).0) (run-registered steps none)
      ∙ get_config-read (registered none steps)
