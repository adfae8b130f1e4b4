-- ===== src/ClientBuilder/Models/Gathered.antt =====
-- The list that `gather_all_models` returns.
use mountaineer.Base.{
  ℕ, arith, ◌≡◌, inl, inr, refl, subst, Bool, false, Option, none, some, List, [], ◌∷◌, String,
  ◌==◌, contains, string_eq, nat_eq, option_eq, bool_eq, Bool-cases,
}
use mountaineer.Base.Exec.{Result, ok, err, ok-injective}
use mountaineer.Base.TopologicalSorter.Queue.{Distinct}
use mountaineer.ClientBuilder.{Property}
use mountaineer.ClientBuilder.Models.{
  walk_models, model_set, Base, schema, definition, returned, models_of, gather_all_models,
}
use mountaineer.ClientBuilder.Models.Titles.{property_title, titles, walk_models-Good}

returned-ok :
    {A B : Type 0} (f : A → B) (r : Result A) (b : B)
    → returned f r ≡ ok b
    → (a : A) × (r ≡ ok a) × (f a ≡ b)
returned-ok f (ok a) b h = (a, refl, ok-injective h)
returned-ok f (err e) b h = absurd (ground arith)

contains-titles-model_set :
    (same : Property → Property → Bool) (seen ms : List Property) (a : String)
    → contains (titles ms) a ≡ false
    → contains (titles (model_set same seen ms)) a ≡ false
unfolding contains titles model_set
contains-titles-model_set same seen [] a h = refl
contains-titles-model_set same seen (m ∷ ms) a h =
    ground (arith, contains-titles-model_set same (m ∷ seen) ms a)

titles-model_set-Distinct :
    (same : Property → Property → Bool) (seen ms : List Property)
    → Distinct (titles ms)
    → Distinct (titles (model_set same seen ms))
unfolding titles model_set
titles-model_set-Distinct same seen [] d = tt
titles-model_set-Distinct same seen (m ∷ ms) d = elim (Bool-cases (property_title m == "")) [
  | inl untitled ↦
      let rest = titles-model_set-Distinct same (m ∷ seen) ms (ground arith) in ground arith
  | inr titled ↦
      let rest = titles-model_set-Distinct same (m ∷ seen) ms (ground arith) in
      ground (arith, contains-titles-model_set same (m ∷ seen) ms (property_title m))
]

models_of-Distinct :
    (same : Property → Property → Bool) (resolve_ref : String → Result Property) (fuel : ℕ)
    (p : Property) (ms : List Property)
    → models_of same resolve_ref fuel p ≡ ok ms
    → Distinct (titles ms)
models_of-Distinct same resolve_ref fuel p ms h =
    let (found, walked, is) =
      returned-ok (model_set same []) (walk_models resolve_ref fuel p []).0 ms h in
    let (distinct, _, _, _) = walk_models-Good resolve_ref fuel p [] found walked in
    subst (λ l. Distinct (titles l)) is (titles-model_set-Distinct same [] found distinct)

-- No two of the models that `gather_all_models` returns have the same title, unless it is empty or
-- missing.
pub gather_all_models-Distinct :
    (same : Property → Property → Bool) (resolve_ref : String → Result Property) (fuel : ℕ)
    (base : Base) (limit_schema : Option Property) (ms : List Property)
    → gather_all_models same resolve_ref fuel base limit_schema ≡ ok ms
    → Distinct (titles ms)
unfolding gather_all_models
gather_all_models-Distinct same resolve_ref fuel base (some p) ms h =
    models_of-Distinct same resolve_ref fuel p ms h
gather_all_models-Distinct same resolve_ref fuel (schema p) none ms h =
    models_of-Distinct same resolve_ref fuel p ms h
gather_all_models-Distinct same resolve_ref fuel definition none ms h = absurd (ground arith)
