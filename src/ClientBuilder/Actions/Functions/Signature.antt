-- ===== src/ClientBuilder/Actions/Functions/Signature.antt =====
-- The text of a signature, as a list of names with their types.
use mountaineer.Base.{
  arith, ◌≡◌, inl, inr, refl, sym, ap, ◌∙◌, Bool, true, false, Option, none, some, List, [], ◌∷◌,
  String, ◌<>◌, ◌==◌, ==-true, if◌then◌else◌, string_eq, nat_eq, option_eq, bool_eq, Bool-cases,
}
use mountaineer.Base.Exec.{Result, ok, ok-injective}
use mountaineer.Base.Dict.{Dict, keys, insert}
use mountaineer.Base.Results.{◌>>=◌, bind-ok}
use mountaineer.Base.Strings.{join}
use mountaineer.ClientBuilder.{dict}
use mountaineer.ClientBuilder.Typescript.{entry_lines, python_payload_to_typescript}
use mountaineer.ClientBuilder.Parameters.{UrlParameterDefinition}
use mountaineer.ClientBuilder.Actions.{named_entries, some_items}
use mountaineer.ClientBuilder.Actions.Functions.{FunctionParts, add_function_part, add_body}

-- Each name stands for itself.
abbrev pub SelfNamed : Dict String String → Type 0
SelfNamed [] = Unit
SelfNamed ((k, v) ∷ d) = (v ≡ k) × SelfNamed d

insert-SelfNamed : (k : String) (d : Dict String String) → SelfNamed d → SelfNamed (insert k k d)
unfolding insert
insert-SelfNamed k [] own = (refl, tt)
insert-SelfNamed k ((j, v) ∷ d) (here, own) = elim (Bool-cases (k == j)) [
  | inl same ↦ rw same (ground arith, own)
  | inr other ↦ rw other (here, insert-SelfNamed k d own)
]

pub add_function_part-SelfNamed :
    (b : Bool) (p : UrlParameterDefinition) (typehint : String × String) (parts : FunctionParts)
    → SelfNamed parts.parameters
    → SelfNamed (add_function_part b p typehint parts).parameters
add_function_part-SelfNamed true p (k, v) parts own = insert-SelfNamed p.name parts.parameters own
add_function_part-SelfNamed false p typehint parts own = own

pub add_body-SelfNamed :
    (ref : Option String) (parts : FunctionParts)
    → SelfNamed parts.parameters
    → SelfNamed (add_body ref parts).parameters
add_body-SelfNamed none parts own = own
add_body-SelfNamed (some ref) parts own = insert-SelfNamed "requestBody" parts.parameters own

-- A destructured argument with its types
abbrev pub declaration : List String → String → String
declaration [] types = ""
declaration (name ∷ names) types =
    ("{" <> ("\n" <> (join ",\n" (name ∷ names) <> ("\n" <> "}")))) <> (": " <> types)

entry_lines-named_entries :
    (d : Dict String String) → SelfNamed d → entry_lines (named_entries d) ≡ ok (keys d)
unfolding entry_lines named_entries keys
entry_lines-named_entries [] own = refl
entry_lines-named_entries ((k, v) ∷ d) (here, own) =
    rw (here, ==-true (some k) (some k) refl, entry_lines-named_entries d own) refl

dict-named_entries :
    (k v : String) (d : Dict String String)
    → SelfNamed ((k, v) ∷ d)
    → python_payload_to_typescript (dict (named_entries ((k, v) ∷ d)))
      ≡ ok ("{" <> ("\n" <> (join ",\n" (k ∷ keys d) <> ("\n" <> "}"))))
unfolding python_payload_to_typescript keys
dict-named_entries k v d own =
    let lines = entry_lines-named_entries ((k, v) ∷ d) own in rw lines refl

pub shown-declaration :
    (d : Dict String String) (typehints : Result String) (signature : String)
    → SelfNamed d
    → (if some_items d
        then (python_payload_to_typescript (dict (named_entries d)) >>= λ names.
            (typehints >>= λ types. ok (names <> (": " <> types))))
        else ok "")
      ≡ ok signature
    → (types : String) × (signature ≡ declaration (keys d) types)
unfolding keys
shown-declaration [] typehints signature own h = ("", sym (ok-injective h))
shown-declaration ((k, v) ∷ d) typehints signature own h =
    let (names, listed, h1) =
      bind-ok (python_payload_to_typescript (dict (named_entries ((k, v) ∷ d)))) _ signature h in
    let (types, made, h2) = bind-ok typehints _ signature h1 in
    let same = ok-injective (sym (dict-named_entries k v d own) ∙ listed) in
    (types, sym (ok-injective h2) ∙ ap (λ n. n <> (": " <> types)) (sym same))
