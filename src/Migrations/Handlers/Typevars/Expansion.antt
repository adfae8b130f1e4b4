-- ===== src/Migrations/Handlers/Typevars/Expansion.antt =====
-- When `expand_typevars` ends.
use mountaineer.Base.{
  ℕ, zero, suc, ◌<◌, arith, ◌≡◌, inl, inr, refl, ap, subst, ◌∙◌, ◌||◌, none, some, [], ◌∷◌, Eq,
  contains, string_eq, nat_eq, option_eq, bool_eq, Option-cases, All,
}
use mountaineer.Base.Exec.{ok, err, out_of_fuel}
use mountaineer.Base.Dict.{Dict, keys, lookup, insert, lookup-insert_cases, contains-keys-insert}
use mountaineer.Base.Results.{◌>>=◌}
use mountaineer.Migrations.Handlers.Typevars.{
  TypeValue, typevar, bound_to, continue_with, expand, expand_values, expand_typevars,
}

module _ {T C : Type 0} ⦃eq : Eq T⦄ (raw : Dict T (TypeValue T C)) where
  -- Each bound variable leads to a value of lower rank.
  abbrev pub Ranked : (TypeValue T C → ℕ) → Type 0
  Ranked rank = (v w : TypeValue T C) → bound_to raw v ≡ some w → rank w < rank v

  abbrev pub Final : TypeValue T C → Type 0
  Final v = bound_to raw v ≡ none

  expand-Final :
      (rank : TypeValue T C → ℕ) (fuel : ℕ) (v : TypeValue T C)
      → Ranked rank
      → rank v < fuel
      → (w : TypeValue T C) × (expand fuel raw v ≡ ok w) × Final w
  unfolding expand
  expand-Final rank zero v ranked small = absurd (omega arith)
  expand-Final rank (suc fuel) v ranked small = elim (Option-cases (bound_to raw v)) [
    | inl free ↦ (v, ap (λ o. continue_with o v (expand fuel raw)) free, free)
    | inr (next, bound) ↦
        let (w, ends, final) =
          expand-Final rank fuel next ranked (omega (arith, ranked v next bound)) in
        (w, ap (λ o. continue_with o v (expand fuel raw)) bound ∙ ends, final)
  ]

  abbrev pub AllFinal : Dict T (TypeValue T C) → Type 0
  AllFinal d = (k : T) (v : TypeValue T C) → lookup k d ≡ some v → Final v

  -- However long it runs, a type variable that is bound to itself is not expanded.
  pub expand-loops :
      (t : T) (fuel : ℕ)
      → lookup t raw ≡ some (typevar t)
      → expand fuel raw (typevar t) ≡ err out_of_fuel
  unfolding expand
  expand-loops t zero loop = refl
  expand-loops t (suc fuel) loop =
      ap (λ o. continue_with o (typevar t) (expand fuel raw)) loop ∙ expand-loops t fuel loop

  expand_values-AllFinal :
      (rank : TypeValue T C → ℕ) (fuel : ℕ) (final items : Dict T (TypeValue T C))
      → Ranked rank
      → All (λ (k, v). rank v < fuel) items
      → AllFinal final
      → (out : Dict T (TypeValue T C)) × (expand_values fuel raw final items ≡ ok out)
        × AllFinal out
        × ((k : T) → contains (keys out) k ≡ (contains (keys final) k || contains (keys items) k))
  unfolding expand_values contains keys
  expand_values-AllFinal rank fuel final [] ranked small done =
      (final, refl, done, λ k. ground arith)
  expand_values-AllFinal rank fuel final ((key, v) ∷ items) ranked (here, small) done =
      let (w, ends, free) = expand-Final rank fuel v ranked here in
      let (out, rest, all_final, same) =
        expand_values-AllFinal rank fuel (insert key w final) items ranked small (λ k u found.
          elim (lookup-insert_cases k key w u final found) [
            | inl (at, is) ↦ subst Final is free
            | inr there ↦ done k u there
          ]) in
      (
        out,
        ap (λ r. r >>= λ f. expand_values fuel raw (insert key f final) items) ends ∙ rest,
        all_final,
        λ k. ground (arith, same k, contains-keys-insert k key w final),
      )

  -- If each bound variable leads to a value of lower rank, and the fuel is beyond the ranks,
  -- `expand_typevars` returns: it keeps the keys, and none of its values is bound.
  pub expand_typevars-AllFinal :
      (rank : TypeValue T C → ℕ) (fuel : ℕ)
      → Ranked rank
      → All (λ (k, v). rank v < fuel) raw
      → (out : Dict T (TypeValue T C)) × (expand_typevars fuel raw ≡ ok out)
        × AllFinal out
        × ((k : T) → contains (keys out) k ≡ contains (keys raw) k)
  unfolding contains keys lookup
  expand_typevars-AllFinal rank fuel ranked small =
      expand_values-AllFinal rank fuel [] raw ranked small (λ k v h. absurd (ground arith))
