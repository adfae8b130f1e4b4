-- ===== src/ClientBuilder/Models/Titles.antt =====
-- The titles of the models that `gather_all_models` finds.
use mountaineer.Base.{
  ℕ, zero, suc, arith, ◌≡◌, inl, inr, refl, sym, ap, subst, ◌∙◌, Bool, true, false, Option, none,
  some, List, [], ◌∷◌, ◌++◌, String, ◌==◌, contains, if◌then◌else◌, string_eq, nat_eq, option_eq,
  bool_eq, Bool-cases, All, All-append,
}
use mountaineer.Base.Exec.{Result, ok, err, pure, ◌>>=◌, ok-injective, >>=-eq-ok}
use mountaineer.Base.FrozenSets.{contains-append}
use mountaineer.Base.TopologicalSorter.Queue.{Distinct, Distinct-append}
use mountaineer.ClientBuilder.{
  Property, PropertyInfo, MaybeProperty, Properties, NamedProperties, empty_property, property,
  no_property, some_property, no_properties, one_more, no_names, named,
}
use mountaineer.ClientBuilder.Models.{
  Walk, own_model, title_of, is_seen, add_title, chain, all_walks, named_walks, maybe_walks,
  ref_walks, walk_result, visit, walk_models,
}

abbrev pub property_title : Property → String
property_title (empty_property d) = ""
property_title (property i properties additional items any_of all_of prefix) = title_of i.title

-- The titles, without those that are empty
unfoldable pub titles : List Property → List String
titles [] = []
titles (p ∷ ps) =
    let rest = titles ps in if property_title p == "" then rest else property_title p ∷ rest

titles-append : (ms ns : List Property) → titles (ms ++ ns) ≡ titles ms ++ titles ns
unfolding titles
titles-append [] ns = refl
titles-append (m ∷ ms) ns = ground (arith, titles-append ms ns)

-- What a walk finds is new and is seen afterwards.
abbrev pub Fresh : List String → List String → List String → Type 0
Fresh seen found after =
    Distinct found
    × ((a : String) → contains found a ≡ true → contains seen a ≡ false)
    × ((a : String) → contains found a ≡ true → contains after a ≡ true)
    × ((a : String) → contains seen a ≡ true → contains after a ≡ true)

Fresh-append :
    (seen between after found later : List String)
    → Fresh seen found between
    → Fresh between later after
    → Fresh seen (found ++ later) after
Fresh-append seen between after found later (d, new, known, kept) (d', new', known', kept') = (
  Distinct-append found later d d' (λ a m. ground (arith, known a, new' a)),
  λ a m. ground (arith, contains-append a found later, new a, new' a, kept a),
  λ a m. ground (arith, contains-append a found later, known a, known' a, kept' a),
  λ a m. kept' a (kept a m),
)

Fresh-none : (seen : List String) → Fresh seen (titles []) seen
unfolding titles contains
Fresh-none seen = (tt, λ a m. absurd (ground arith), λ a m. absurd (ground arith), λ a m. m)

abbrev pub Good : Walk → Type 0
Good walk =
    (seen : List String) (ms : List Property)
    → (walk seen).0 ≡ ok ms
    → Fresh seen (titles ms) (walk seen).1

chain-Good : (walks : List Walk) → All Good walks → Good (chain walks)
unfolding chain
chain-Good [] good seen ms h =
    subst (λ l. Fresh seen (titles l) seen) (ok-injective h) (Fresh-none seen)
chain-Good (walk ∷ walks) (here, good) seen out h =
    let (ms, first, step) = >>=-eq-ok walk _ seen out h in
    let (ns, second, step') =
      >>=-eq-ok (chain walks) (λ ns. pure (ms ++ ns)) (walk seen).1 out
        (sym (ap (λ r. r.0) step) ∙ h) in
    let both =
      Fresh-append seen (walk seen).1 (chain walks (walk seen).1).1 (titles ms) (titles ns)
        (here seen ms first) (chain-Good walks good (walk seen).1 ns second) in
    let is : ms ++ ns ≡ out = ok-injective (sym (ap (λ r. r.0) (step ∙ step')) ∙ h) in
    subst (λ l. Fresh seen (titles l) (chain (walk ∷ walks) seen).1) is
      (subst (Fresh seen (titles (ms ++ ns))) (sym (ap (λ r. r.1) (step ∙ step')))
        (subst (λ l. Fresh seen l (chain walks (walk seen).1).1) (sym (titles-append ms ns)) both))

title-Fresh :
    (own : Bool) (title : String) (p : Property) (seen : List String)
    → property_title p ≡ title
    → is_seen title seen ≡ false
    → Fresh seen (titles (if own then p ∷ [] else [])) (add_title title seen)
unfolding titles contains
title-Fresh false title p seen same new =
    (tt, λ a m. absurd (ground arith), λ a m. absurd (ground arith), λ a m. ground arith)
title-Fresh true title p seen same new =
    rw same (ground arith, λ a m. ground arith, λ a m. ground arith, λ a m. ground arith)

own_walk-Good :
    (p : Property) (i : PropertyInfo) (walks : List Walk) (seen : List String) (ms : List Property)
    → property_title p ≡ title_of i.title
    → is_seen (title_of i.title) seen ≡ false
    → All Good walks
    → (chain (pure (own_model p i) ∷ walks) (add_title (title_of i.title) seen)).0 ≡ ok ms
    → Fresh seen
        (titles ms)
        (chain (pure (own_model p i) ∷ walks) (add_title (title_of i.title) seen)).1
unfolding chain ◌>>=◌
own_walk-Good p i walks seen out same new good h =
    let start = add_title (title_of i.title) seen in
    let own = own_model p i in
    let (ns, second, step) = >>=-eq-ok (chain walks) (λ ns. pure (own ++ ns)) start out h in
    let both =
      Fresh-append seen start (chain walks start).1 (titles own) (titles ns)
        (title-Fresh _ (title_of i.title) p seen same new)
        (chain-Good walks good start ns second) in
    let is : own ++ ns ≡ out = ok-injective (sym (ap (λ r. r.0) step) ∙ h) in
    subst (λ l. Fresh seen (titles l) (chain (pure own ∷ walks) start).1) is
      (subst (Fresh seen (titles (own ++ ns))) (sym (ap (λ r. r.1) step))
        (subst (λ l. Fresh seen l (chain walks start).1) (sym (titles-append own ns)) both))

module _ (walk : Property → Walk) (good : (p : Property) → Good (walk p)) where
  all_walks-Good : (ps : Properties) → All Good (all_walks walk ps)
  all_walks-Good no_properties = tt
  all_walks-Good (one_more p ps) = (good p, all_walks-Good ps)

  named_walks-Good : (ps : NamedProperties) → All Good (named_walks walk ps)
  named_walks-Good no_names = tt
  named_walks-Good (named name p ps) = (good p, named_walks-Good ps)

  maybe_walks-Good : (m : MaybeProperty) → All Good (maybe_walks walk m)
  maybe_walks-Good no_property = tt
  maybe_walks-Good (some_property p) = (good p, tt)

  walk_result-Good :
      (resolve_ref : String → Result Property) (r : Result Property)
      → Good (walk_result resolve_ref walk r)
  walk_result-Good resolve_ref (ok p) = good p
  walk_result-Good resolve_ref (err e) = λ seen ms h. absurd (ground arith)

  ref_walks-Good :
      (resolve_ref : String → Result Property) (ref : Option String)
      → All Good (ref_walks resolve_ref walk ref)
  ref_walks-Good resolve_ref none = tt
  ref_walks-Good resolve_ref (some ref) = (walk_result-Good resolve_ref (resolve_ref ref), tt)

visit-Good :
    (p : Property) (i : PropertyInfo) (walks : List Walk)
    → property_title p ≡ title_of i.title
    → All Good walks
    → Good (visit p i walks)
unfolding visit
visit-Good p i walks same good seen ms h = elim (Bool-cases (is_seen (title_of i.title) seen)) [
  | inl old ↦
      let is = ap (λ b. if b then (ok [], seen) else full) old in
      subst (λ r. Fresh seen (titles ms) r.1) (sym is)
        (subst (λ l. Fresh seen (titles l) seen) (ok-injective (sym (ap (λ r. r.0) is) ∙ h))
          (Fresh-none seen))
  | inr new ↦
      let is = ap (λ b. if b then (ok [], seen) else full) new in
      subst (λ r. Fresh seen (titles ms) r.1) (sym is)
        (own_walk-Good p i walks seen ms same new good (sym (ap (λ r. r.0) is) ∙ h))
]
  where
    full : Result (List Property) × List String
    full = chain (pure (own_model p i) ∷ walks) (add_title (title_of i.title) seen)

pub walk_models-Good :
    (resolve_ref : String → Result Property) (fuel : ℕ) (p : Property)
    → Good (walk_models resolve_ref fuel p)
unfolding walk_models
walk_models-Good resolve_ref zero p = λ seen ms h. absurd (ground arith)
walk_models-Good resolve_ref (suc fuel) (empty_property d) =
    λ seen ms h. subst (λ l. Fresh seen (titles l) seen) (ok-injective h) (Fresh-none seen)
walk_models-Good resolve_ref (suc fuel)
      (property i properties additional items any_of all_of prefix) =
    let walk = walk_models resolve_ref fuel in
    let good = walk_models-Good resolve_ref fuel in
    visit-Good (property i properties additional items any_of all_of prefix) i _ refl (
      All-append Good _ _ (ref_walks-Good walk good resolve_ref i.ref) (
        All-append Good _ _ (maybe_walks-Good walk good items) (
          All-append Good _ _ (all_walks-Good walk good any_of) (
            All-append Good _ _ (all_walks-Good walk good all_of) (
              All-append Good _ _ (named_walks-Good walk good properties)
                (maybe_walks-Good walk good additional))))))
