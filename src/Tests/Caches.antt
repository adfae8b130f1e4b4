-- ===== src/Tests/Caches.antt =====
-- Caches with room for one and two entries, and two event loops.
use mountaineer.Base.{
  ℕ, arith, ◌≡◌, ◌≢◌, refl, sym, ap, ◌∙◌, Bool, true, false, Option, none, some, List, [], ◌∷◌,
  String, ◌<>◌, string_eq, nat_eq, option_eq, bool_eq,
}
use mountaineer.Base.Exec.{Result, ok, err, type_error}
use mountaineer.Base.Results.{◌>>=◌}
use mountaineer.Base.Dict.{lookup, insert, erase}
use mountaineer.Cache.{
  LruCache, Json, model, plain, Serialized, dumped, as_is, Arguments, serialize_kwargs,
  serialize_each, serialize_args, hash_key, move_to_end, get, exceeds, evict, put, clear,
  call_and_keep, wrapper,
}
use mountaineer.Cache.Entries.{IsValid, put-IsValid, get_lem, put_lem}
use mountaineer.Cache.Transparency.{Coherent, Transparent, wrapper_lem}
use mountaineer.Cache.Loops
use mountaineer.Cache.Loops.{
  LoopCache, set, lock, cleanup, no_loops, get_obj, set_obj, get_lock, cleanup_loop, get_obj-run,
}

abbrev two : LruCache ℕ
two = record { cache = ("a", some 1) ∷ ("b", some 2) ∷ []; capacity = 2; max_size_bytes = some 10 }

two-IsValid : IsValid two
unfolding lookup string_eq
two-IsValid = ((refl, (refl, tt)), omega arith)

fits : exceeds (some 10) 4 ≡ false
unfolding exceeds
fits = refl

-- The entry that was used last stays.
oldest : (put "c" (some 3) 4 (get "a" two).1).cache ≡ ("a", some 1) ∷ ("c", some 3) ∷ []
unfolding put get move_to_end exceeds evict lookup insert erase string_eq
oldest = refl

emptied : (clear two).cache ≡ []
unfolding clear
emptied = refl

put-IsValid_example : IsValid (put "c" (some 3) 4 two)
put-IsValid_example = put-IsValid "c" (some 3) 4 two two-IsValid

get_lem_example :
    IsValid (get "a" two).1
    × ((j : String) → lookup j (get "a" two).1.cache ≡ lookup j two.cache)
    × ((get "a" two).0 ≡ elim (lookup "a" two.cache) [ none ↦ none | some v ↦ v ])
get_lem_example = get_lem "a" two two-IsValid

put_lem_example :
    (lookup "c" (put "c" (some 3) 4 two).cache ≡ some (some 3))
    × ((j : String) (w : Option ℕ)
        → j ≢ "c"
        → lookup j (put "c" (some 3) 4 two).cache ≡ some w
        → lookup j two.cache ≡ some w)
put_lem_example = put_lem "c" (some 3) 4 two two-IsValid fits (omega arith)

-- A text with its number is a model. JSON takes texts, and no other value.
abbrev join_parts : List (Option String × Serialized Bool) → Result String
join_parts [] = ok ""
join_parts ((key, dumped text) ∷ parts) = elim (join_parts parts) [
  | ok rest ↦ ok (text <> ("," <> rest))
  | err e ↦ err e
]
join_parts ((key, as_is value) ∷ parts) = err type_error

abbrev json : Json String Bool
json = record { model_dump_json = λ m. ok m; json_dumps = join_parts; hexdigest = λ s. s }

abbrev one_model : String → Arguments String Bool
one_model s = record { args = model s ∷ []; kwargs = [] }

abbrev echo : Arguments String Bool → Result (Option String)
echo x = hash_key json x >>= λ key. ok (some key)

abbrev empty : LruCache String
empty = record { cache = []; capacity = 2; max_size_bytes = none }

abbrev size : Option String → Result ℕ
size v = ok 1

empty-Coherent : Coherent json size echo empty
unfolding lookup
empty-Coherent x key v made h = cc

wrapper_lem_example :
    Transparent json size echo
      (one_model "x")
      empty
      (ok "x,")
      (wrapper json size echo true (one_model "x") empty)
unfolding hash_key serialize_args serialize_each serialize_kwargs
wrapper_lem_example =
    wrapper_lem json size echo true (one_model "x") empty
      (λ x y key e f. ap (λ r. r >>= λ key. ok (some key)) (e ∙ sym f)) (λ v. (1, refl))
      empty-Coherent (tt, omega arith)

-- A flag has no text, whether the cache is used or not.
not_serialized :
    wrapper json size echo false (record { args = []; kwargs = ("flag", plain true) ∷ [] }) empty
    ≡ (err type_error, empty)
unfolding wrapper hash_key serialize_args serialize_each serialize_kwargs
not_serialized = refl

served :
    (wrapper json size echo true
      (one_model "x")
      (wrapper json size echo true (one_model "x") empty).1).1.cache
    ≡ ("x,", some "x,") ∷ []
unfolding wrapper hash_key serialize_args serialize_each serialize_kwargs call_and_keep put get
    move_to_end exceeds evict lookup insert erase string_eq
served = refl

given : (get_lock {T = String} 1 (set_obj 1 "s" no_loops)).0 ≡ some "s"
unfolding get_lock set_obj get_obj lookup insert nat_eq
given = refl

get_obj-run_example :
    get_obj {T = String} 1 (Loops.run (set 1 "s" ∷ lock 1 ∷ set 2 "t" ∷ cleanup 2 ∷ []) no_loops)
    ≡ Loops.latest 1 (set 1 "s" ∷ lock 1 ∷ set 2 "t" ∷ cleanup 2 ∷ []) (get_obj 1 no_loops)
get_obj-run_example =
    get_obj-run {T = String} 1 (set 1 "s" ∷ lock 1 ∷ set 2 "t" ∷ cleanup 2 ∷ []) no_loops
      (tt, tt, tt)
