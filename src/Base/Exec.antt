-- ===== src/Base/Exec.antt =====
-- Code that changes a state and may raise. An exception does not undo what was written before it:
-- it comes back with the state that it leaves. It keeps its class and not its message.
use mathlib.Core.Path.{◌≡◌, refl}
use native.Mathlib.Omega.{arith}
use mathlib.Core.Logic.{◌⊎◌, inl, inr}
use mathlib.Core.Bool.{Bool, true, false}
use mathlib.Core.List.{List, [], ◌∷◌}

pub data Error : Type 0 where
  value_error type_error key_error attribute_error assertion_error not_implemented_error : Error
  cycle_error invalid_request_error database_error result_error index_error : Error
  -- not a Python exception: a loop that has not ended within its fuel
  out_of_fuel : Error

pub data Result {ℓ} (A : Type ℓ) : Type ℓ where
  ok : A → Result A
  err : Error → Result A

pub Result-cases {ℓ} :
    {A : Type ℓ} (r : Result A) → ((a : A) × (r ≡ ok a)) ⊎ ((e : Error) × (r ≡ err e))
Result-cases (ok a) = inl (a, refl)
Result-cases (err e) = inr (e, refl)

pub ok-injective {ℓ} : {A : Type ℓ} {a b : A} → ok a ≡ ok b → a ≡ b
ok-injective h = cc

-- Code that reads and writes a state `S`.
abbrev pub Exec : Type 0 → Type 0 → Type 0
Exec S A = S → Result A × S

-- What has been raised is passed on; what has been returned goes to the rest of the code.
abbrev pub continue : {S A B : Type 0} → Result A → (A → Exec S B) → Exec S B
continue (err e) rest state = (err e, state)
continue (ok a) rest state = rest a state

infixl 10 ◌>>=◌ ◌>>◌
unfoldable pub ◌>>=◌ : {S A B : Type 0} → Exec S A → (A → Exec S B) → Exec S B
◌>>=◌ first rest state = let (outcome, after) = first state in continue outcome rest after

abbrev pub ◌>>◌ : {S A B : Type 0} → Exec S A → Exec S B → Exec S B
first >> second = first >>= λ _. second

-- `return a`
abbrev pub pure : {S A : Type 0} → A → Exec S A
pure a state = (ok a, state)

-- `raise e`
abbrev pub raise : {S A : Type 0} → Error → Exec S A
raise e state = (err e, state)

-- code that touches no state
abbrev pub lift : {S A : Type 0} → Result A → Exec S A
lift outcome state = (outcome, state)

module _ {S A B : Type 0} where
  -- A block that does not raise has run its first step without raising.
  pub >>=-eq-ok :
      (m : Exec S A) (f : A → Exec S B) (s : S) (b : B)
      → ((m >>= f) s).0 ≡ ok b
      → (a : A) × ((m s).0 ≡ ok a) × ((m >>= f) s ≡ f a (m s).1)
  unfolding ◌>>=◌
  >>=-eq-ok m f s b h = elim (Result-cases (m s).0) [
    | inl (a, e) ↦ (a, e, rw e)
    | inr (c, e) ↦ absurd (ground arith)
  ]

-- `if not b: raise e`
abbrev pub guard : {S : Type 0} → Bool → Error → Exec S (Unit {0})
guard true e s = (ok tt, s)
guard false e s = (err e, s)

-- `if b: m`
abbrev pub when : {S : Type 0} → Bool → Exec S (Unit {0}) → Exec S (Unit {0})
when true m s = m s
when false m s = (ok tt, s)

-- `for x in xs: f(x)`
unfoldable pub for_each : {S A : Type 0} → List A → (A → Exec S (Unit {0})) → Exec S (Unit {0})
for_each [] f s = (ok tt, s)
for_each (x ∷ xs) f s = let (r, s') = f x s in continue r (λ _. for_each xs f) s'
