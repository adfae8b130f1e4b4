-- ===== src/ClientBuilder/Links/Parts.antt =====
-- The parameters of a link, split by where they go.
use mountaineer.Base.{
  ℕ, arith, ◌≡◌, inl, inr, refl, sym, ap, subst, ◌∙◌, Bool, true, false, ◌&&◌, ◌||◌, Option, List,
  [], ◌∷◌, String, ◌==◌, contains, if◌then◌else◌, string_eq, nat_eq, option_eq, bool_eq, Bool-cases,
}
use mountaineer.Base.Exec.{Result, ok, ok-injective}
use mountaineer.Base.Dict.{Dict, keys, contains-keys-insert}
use mountaineer.Base.Results.{◌>>=◌, bind-ok}
use mountaineer.ClientBuilder.{Payload, Property}
use mountaineer.ClientBuilder.Parameters.{
  ParameterLocation, path, query, cookie, header, UrlParameterDefinition,
  get_typehint_for_parameter,
}
use mountaineer.ClientBuilder.Links.{
  LinkParameters, no_parameters, add_parameter, supported, is_query, is_path, insert_if,
  link_parameters,
}

abbrev is_at : ParameterLocation → ParameterLocation → Bool
is_at query query = true
is_at path path = true
is_at cookie cookie = true
is_at header header = true
is_at l other = false

-- Some parameter with the name goes to the place.
abbrev pub goes : ParameterLocation → List UrlParameterDefinition → String → Bool
goes l [] name = false
goes l (q ∷ qs) name = (is_at l q.in_location && name == q.name) || goes l qs name

pub is_query_lem : (l : ParameterLocation) → is_query l ≡ is_at query l
is_query_lem path = refl
is_query_lem query = refl
is_query_lem cookie = refl
is_query_lem header = refl

pub is_path_lem : (l : ParameterLocation) → is_path l ≡ is_at path l
is_path_lem path = refl
is_path_lem query = refl
is_path_lem cookie = refl
is_path_lem header = refl

pub supported_lem : (l : ParameterLocation) → supported l ≡ (is_at query l || is_at path l)
supported_lem path = refl
supported_lem query = refl
supported_lem cookie = refl
supported_lem header = refl

pub contains-keys-insert_if :
    (b : Bool) (name k : String) (d : Dict String String)
    → contains (keys (insert_if b k d)) name ≡ ((b && name == k) || contains (keys d) name)
contains-keys-insert_if true name k d = contains-keys-insert name k k d
contains-keys-insert_if false name k d = refl

-- What has been put into the parts, and what else goes there
abbrev Holds : LinkParameters → List UrlParameterDefinition → LinkParameters → String → Type 0
Holds parts ps out name =
    (contains (keys out.input_parameters) name
      ≡ (contains (keys parts.input_parameters) name || goes query ps name || goes path ps name))
    × (contains (keys out.query_parameters) name
        ≡ (contains (keys parts.query_parameters) name || goes query ps name))
    × (contains (keys out.path_parameters) name
        ≡ (contains (keys parts.path_parameters) name || goes path ps name))

module _ (str : Payload → String) (base : Option (String → Result Property)) (fuel : ℕ) where
  add_parameter-Holds :
      (p : UrlParameterDefinition) (typehint : String × String) (parts : LinkParameters)
      (ps : List UrlParameterDefinition) (out : LinkParameters) (name : String)
      → supported p.in_location ≡ true
      → Holds (add_parameter p typehint parts) ps out name
      → Holds parts (p ∷ ps) out name
  add_parameter-Holds p (k, v) parts ps out name here (h, i, j) =
      let places = supported_lem p.in_location in
      let in_query = is_query_lem p.in_location in
      let in_path = is_path_lem p.in_location in
      (
        ground (arith, contains-keys-insert name p.name p.name parts.input_parameters),
        ground (
          arith,
          contains-keys-insert_if (is_query p.in_location) name p.name parts.query_parameters,
        ),
        ground (
          arith,
          contains-keys-insert_if (is_path p.in_location) name p.name parts.path_parameters,
        ),
      )

  unsupported-Holds :
      (p : UrlParameterDefinition) (parts : LinkParameters) (ps : List UrlParameterDefinition)
      (out : LinkParameters) (name : String)
      → supported p.in_location ≡ false
      → Holds parts ps out name
      → Holds parts (p ∷ ps) out name
  unsupported-Holds p parts ps out name elsewhere (h, i, j) =
      let places = supported_lem p.in_location in (ground arith, ground arith, ground arith)

  link_parameters-Holds :
      (parts : LinkParameters) (ps : List UrlParameterDefinition) (out : LinkParameters)
      → link_parameters str base fuel parts ps ≡ ok out
      → (name : String) → Holds parts ps out name
  unfolding link_parameters
  link_parameters-Holds parts [] out h name =
      subst (λ o. Holds parts [] o name) (ok-injective h) (ground arith, ground arith, ground arith)
  link_parameters-Holds parts (p ∷ ps) out h name = elim (Bool-cases (supported p.in_location)) [
    | inl here ↦
        let (typehint, _, rest) = bind-ok (get_typehint_for_parameter str base fuel p) _ out (
          sym (
            ap
              (λ b.
                if b
                then (get_typehint_for_parameter str base fuel p >>= λ t.
                    link_parameters str base fuel (add_parameter p t parts) ps)
                else link_parameters str base fuel parts ps)
              here)
          ∙ h) in
        add_parameter-Holds p typehint parts ps out name here
          (link_parameters-Holds (add_parameter p typehint parts) ps out rest name)
    | inr elsewhere ↦ unsupported-Holds p parts ps out name elsewhere (
        link_parameters-Holds parts ps out
          (sym (
              ap
                (λ b.
                  if b
                  then (get_typehint_for_parameter str base fuel p >>= λ t.
                      link_parameters str base fuel (add_parameter p t parts) ps)
                  else link_parameters str base fuel parts ps)
                elsewhere)
            ∙ h)
          name)
  ]

  -- When the parameters of a link are collected, the function takes exactly those of the query and
  -- of the path, puts exactly those of the query into the query, and those of the path into the path.
  pub link_parameters_lem :
      (ps : List UrlParameterDefinition) (out : LinkParameters)
      → link_parameters str base fuel no_parameters ps ≡ ok out
      → (name : String)
      → (contains (keys out.input_parameters) name ≡ goes query ps name || goes path ps name)
        × (contains (keys out.query_parameters) name ≡ goes query ps name)
        × (contains (keys out.path_parameters) name ≡ goes path ps name)
  unfolding contains keys
  link_parameters_lem ps out h name = link_parameters-Holds no_parameters ps out h name
