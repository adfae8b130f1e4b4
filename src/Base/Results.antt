-- ===== src/Base/Results.antt =====
-- Code that touches no state and may raise.
use mathlib.Core.Path.{◌≡◌, refl}
use mathlib.Core.List.{List, [], ◌∷◌}
use mathlib.Core.Option.{Option, none, some}
use mathlib.Core.Bool.{Bool, true, false}
use mountaineer.Base.Exec.{Error, Result, ok, err, key_error}

infixl 10 ◌>>=◌
abbrev pub ◌>>=◌ : {A B : Type 0} → Result A → (A → Result B) → Result B
err e >>= rest = err e
ok a >>= rest = rest a

-- What does not raise has raised nowhere.
pub bind-ok :
    {A B : Type 0} (first : Result A) (rest : A → Result B) (b : B)
    → (first >>= rest) ≡ ok b
    → (a : A) × (first ≡ ok a) × (rest a ≡ ok b)
bind-ok (ok a) rest b h = (a, refl, h)
bind-ok (err e) rest b h = cc

-- `d[k]` of what `d.get(k)` found
abbrev pub or_key_error : {A : Type 0} → Option A → Result A
or_key_error none = err key_error
or_key_error (some a) = ok a

-- `if not b: raise e`
abbrev pub check : Error → Bool → Result (Unit {0})
check e true = ok tt
check e false = err e

-- `[f(x) for x in xs]`
unfoldable pub map_results : {A B : Type 0} → (A → Result B) → List A → Result (List B)
map_results f [] = ok []
map_results f (x ∷ xs) = do y ← f x; ys ← map_results f xs; ok (y ∷ ys)
