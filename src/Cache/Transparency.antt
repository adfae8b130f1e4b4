-- ===== src/Cache/Transparency.antt =====
-- The wrapper of `extended_lru_cache` against the function that it wraps.
use mathlib.Core.Option.{none-ne-some}
use mountaineer.Base.{
  ℕ, ◌≡◌, inl, inr, refl, sym, ap, ◌∙◌, Bool, true, false, Option, none, some, String, string_eq,
  nat_eq, option_eq, bool_eq, Option-cases,
}
use mountaineer.Base.Exec.{Result, ok, err, Result-cases}
use mountaineer.Base.Dict.{lookup}
use mountaineer.Cache.{LruCache, Json, Arguments, hash_key, get, call_and_keep, with_key, wrapper}
use mountaineer.Cache.Entries.{IsValid, get_lem, put-IsValid, put-known}

module _ {Model Value V : Type 0} (json : Json Model Value) (json_size : Option V → Result ℕ)
    (func : Arguments Model Value → Result (Option V)) where
  -- Whatever is cached for a call is what the function returns for it.
  abbrev pub Coherent : LruCache V → Type 0
  Coherent c =
      (x : Arguments Model Value) (key : String) (v : Option V)
      → hash_key json x ≡ ok key
      → lookup key c.cache ≡ some v
      → func x ≡ ok v

  -- Calls with one key have one result: the keys do not collide, and the function looks at nothing
  -- but its arguments.
  abbrev pub OneResult : Type 0
  OneResult =
      (x y : Arguments Model Value) (key : String)
      → hash_key json x ≡ ok key
      → hash_key json y ≡ ok key
      → func x ≡ func y

  -- JSON can express every result.
  abbrev pub Sized : Type 0
  Sized = (v : Option V) → (n : ℕ) × (json_size v ≡ ok n)

  -- What comes of a call with the given key, or of one whose arguments cannot be serialized
  abbrev pub Transparent :
      Arguments Model Value → LruCache V → Result String → Result (Option V) × LruCache V → Type 0
  Transparent x c (ok key) r = (r.0 ≡ func x) × Coherent r.1 × IsValid r.1
  Transparent x c (err e) r = r ≡ (err e, c)

  call_and_keep-Transparent :
      (x : Arguments Model Value) (key : String) (c : LruCache V)
      → hash_key json x ≡ ok key
      → OneResult
      → Sized
      → Coherent c
      → IsValid c
      → Transparent x c (ok key) (call_and_keep json json_size func true key x c)
  unfolding call_and_keep
  call_and_keep-Transparent x key c made one sized coherent valid = elim (Result-cases (func x)) [
    | inr (e, raised) ↦ rw raised (refl, coherent, valid)
    | inl (v, returned) ↦
        let (n, size) = sized v in
        rw (returned, size)
          (
            refl,
            λ y k w made_too found. elim (put-known k key v w n c valid found) [
              | inl (same, e) ↦ one y x key (made_too ∙ ap ok same) made ∙ returned ∙ ap ok e
              | inr there ↦ coherent y k w made_too there
            ],
            put-IsValid key v n c valid,
          )
  ]

  abbrev found_or_none : Option (Option V) → Option V
  found_or_none o = elim o [ none ↦ none | some v ↦ v ]

  hit_lem :
      (x : Arguments Model Value) (key : String) (v : V) (c : LruCache V)
      → hash_key json x ≡ ok key
      → Coherent c
      → found_or_none (lookup key c.cache) ≡ some v
      → ok (some v) ≡ func x
  hit_lem x key v c made coherent h = elim (Option-cases (lookup key c.cache)) [
    | inl missing ↦ absurd (none-ne-some v (sym (ap found_or_none missing) ∙ h))
    | inr (w, found) ↦ sym (coherent x key w made found ∙ ap ok (sym (ap found_or_none found) ∙ h))
  ]

  with_key-Transparent :
      (use_cache : Bool) (x : Arguments Model Value) (c : LruCache V) (made : Result String)
      → hash_key json x ≡ made
      → OneResult
      → Sized
      → Coherent c
      → IsValid c
      → Transparent x c made (with_key json json_size func use_cache x made c)
  with_key-Transparent use_cache x c (err e) made one sized coherent valid = refl
  with_key-Transparent false x c (ok key) made one sized coherent valid =
      unfold call_and_keep in (refl, coherent, valid)
  with_key-Transparent true x c (ok key) made one sized coherent valid =
      let (kept, same, reply) = get_lem key c valid in
      let still : Coherent (get key c).1 =
        λ y k v made_too found. coherent y k v made_too (sym (same k) ∙ found) in
      elim (Option-cases (get key c).0) [
        | inl missed ↦
            rw missed (call_and_keep-Transparent x key (get key c).1 made one sized still kept)
        | inr (v, hit) ↦ rw hit (hit_lem x key v c made coherent (sym reply ∙ hit), still, kept)
      ]

  -- If calls with one key have one result, and JSON can express every result, then a call through a
  -- valid and coherent cache, with or without `use_cache`, raises what serializing its arguments
  -- raises and leaves the cache as it was, or, if they can be serialized, returns or raises what the
  -- function does and leaves the cache valid and coherent.
  pub wrapper_lem :
      (use_cache : Bool) (x : Arguments Model Value) (c : LruCache V)
      → OneResult
      → Sized
      → Coherent c
      → IsValid c
      → Transparent x c (hash_key json x) (wrapper json json_size func use_cache x c)
  unfolding wrapper
  wrapper_lem use_cache x c one sized coherent valid =
      with_key-Transparent use_cache x c (hash_key json x) refl one sized coherent valid
