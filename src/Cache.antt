-- ===== src/Cache.antt =====
-- mountaineer/cache.py: `LRUCache`, the wrapper of `extended_lru_cache`, and
-- `AsyncLoopObjectCache`. Parameters are what pydantic, `json` and `hashlib` do: the JSON of a model
-- and that of the serialized arguments, both of which may raise, SHA-256, and the size of a result
-- as JSON, which raises for what JSON cannot express.
pub mod Entries
pub mod Transparency
pub mod Loops
use mountaineer.Base.{
  ℕ, zero, suc, ◌+◌, ◌-◌, ◌*◌, ◌≤◌, ◌<◌, ltb, leb, ltb→lt, leb→le, lt→ltb, arith, ◌≡◌, ◌≢◌, ◌↔◌,
  ◌⊎◌, inl, inr, refl, sym, ap, subst, ◌∙◌, ◌≡⟨◌⟩◌, ◌∎, ite, dite, if_pos, if_neg, Bool, true,
  false, not, ◌&&◌, ◌||◌, false≢true, Option, none, some, List, [], ◌∷◌, ◌++◌, map, String, ◌<>◌,
  Eq, ◌==◌, ==-true, ==-false, contains, if◌then◌else◌, string_eq, nat_eq, option_eq, bool_eq,
  Bool-cases, Option-cases, length, drop, get_elem?, index_from, CutAt, index_from-CutAt, all, All,
  All-append, All-suffix, all-append, length-append,
}
use mountaineer.Base.Exec.{
  Error, Result, ok, err, value_error, type_error, key_error, attribute_error, assertion_error,
  not_implemented_error, cycle_error, invalid_request_error, database_error, result_error,
  index_error, out_of_fuel, Exec, pure, raise, lift, continue, ◌>>=◌, ◌>>◌, guard, when, for_each,
  ok-injective, Result-cases, >>=-eq-ok,
}
use mountaineer.Base.Dict.{
  Dict, keys, values, lookup, insert, erase, NodupKeys, lookup-insert, lookup-erase,
  insert-NodupKeys, erase-NodupKeys, lookup-insert_cases, lookup-insert_known, lookup-insert_self,
  contains-keys-insert, contains-keys_found,
}

-- A cached value may be `None`. The entries stand in the order of their last use.
pub record LruCache (V : Type 0) : Type 0 where
  pub cache : Dict String (Option V)
  pub capacity : ℕ
  pub max_size_bytes : Option ℕ

-- `max_size_bytes and size_bytes > max_size_bytes`
unfoldable pub exceeds : Option ℕ → ℕ → Bool
exceeds none size_bytes = false
exceeds (some zero) size_bytes = false
exceeds (some (suc n)) size_bytes = ltb (suc n) size_bytes

module _ {V : Type 0} where
  abbrev pub moved : Option (Option V) → String → Dict String (Option V) → Dict String (Option V)
  moved none key d = d
  moved (some v) key d = erase key d ++ (key, v) ∷ []

  -- `move_to_end`, when the key is there
  unfoldable pub move_to_end : String → Dict String (Option V) → Dict String (Option V)
  move_to_end key d = moved (lookup key d) key d

  abbrev pub got : Option (Option V) → String → LruCache V → Option V × LruCache V
  got none key c = (none, c)
  got (some v) key c = (v, record c { cache = move_to_end key c.cache })

  -- `get`: `None` for a missing key
  unfoldable pub get : String → LruCache V → Option V × LruCache V
  get key c = got (lookup key c.cache) key c

  -- `if len(cache) > capacity: cache.popitem(last=False)`
  unfoldable pub evict : ℕ → Dict String (Option V) → Dict String (Option V)
  evict capacity d = if ltb capacity (length d) then drop 1 d else d

  unfoldable pub put : String → Option V → ℕ → LruCache V → LruCache V
  put key value size_bytes c =
      if exceeds c.max_size_bytes size_bytes
      then c
      else record c { cache = evict c.capacity (insert key value (move_to_end key c.cache)) }

  unfoldable pub clear : LruCache V → LruCache V
  clear c = record c { cache = [] }

-- An argument of a call: a pydantic model, or anything else
pub data Argument (Model Value : Type 0) : Type 0 where
  model : Model → Argument Model Value
  plain : Value → Argument Model Value

-- What is left of it for `json`
pub data Serialized (Value : Type 0) : Type 0 where
  dumped : String → Serialized Value
  as_is : Value → Serialized Value

-- The arguments of a call, those with a keyword behind the others
pub record Arguments (Model Value : Type 0) : Type 0 where
  pub args : List (Argument Model Value)
  pub kwargs : Dict String (Argument Model Value)

-- Python's `json` and `hashlib`, and pydantic. An item of the list that is serialized has a key if
-- it is a pair.
pub record Json (Model Value : Type 0) : Type 0 where
  pub model_dump_json : Model → Result String
  pub json_dumps : List (Option String × Serialized Value) → Result String
  pub hexdigest : String → String

module _ {Model Value : Type 0} (json : Json Model Value) where
  abbrev dumped_or_err : Result String → Result (Serialized Value)
  dumped_or_err (ok text) = ok (dumped text)
  dumped_or_err (err e) = err e

  abbrev serialize_arg : Argument Model Value → Result (Serialized Value)
  serialize_arg (model m) = dumped_or_err (json.model_dump_json m)
  serialize_arg (plain v) = ok (as_is v)

  abbrev with_serialized :
      Option String
      → Result (Serialized Value)
      → Result (List (Option String × Serialized Value))
      → Result (List (Option String × Serialized Value))
  with_serialized key (ok s) (ok rest) = ok ((key, s) ∷ rest)
  with_serialized key (ok s) (err e) = err e
  with_serialized key (err e) rest = err e

  -- The loop over `kwargs.items()`
  unfoldable pub serialize_kwargs :
      Dict String (Argument Model Value) → Result (List (Option String × Serialized Value))
  serialize_kwargs [] = ok []
  serialize_kwargs ((key, value) ∷ kwargs) =
      with_serialized (some key) (serialize_arg value) (serialize_kwargs kwargs)

  -- The loop over `args`, and then that over `kwargs`
  unfoldable pub serialize_each :
      List (Argument Model Value)
      → Dict String (Argument Model Value)
      → Result (List (Option String × Serialized Value))
  serialize_each [] kwargs = serialize_kwargs kwargs
  serialize_each (arg ∷ args) kwargs =
      with_serialized none (serialize_arg arg) (serialize_each args kwargs)

  abbrev dump_or_err : Result (List (Option String × Serialized Value)) → Result String
  dump_or_err (ok serialized) = json.json_dumps serialized
  dump_or_err (err e) = err e

  unfoldable pub serialize_args : Arguments Model Value → Result String
  serialize_args a = dump_or_err (serialize_each a.args a.kwargs)

  abbrev digest_or_err : Result String → Result String
  digest_or_err (ok serialized) = ok (json.hexdigest serialized)
  digest_or_err (err e) = err e

  unfoldable pub hash_key : Arguments Model Value → Result String
  hash_key a = digest_or_err (serialize_args a)

-- The wrapper around `func`, in the state of its cache.
module _ {Model Value V : Type 0} (json : Json Model Value) (json_size : Option V → Result ℕ)
    (func : Arguments Model Value → Result (Option V)) where
  abbrev pub keep : String → Option V → Result ℕ → Exec (LruCache V) (Option V)
  keep key result (err e) c = (err e, c)
  keep key result (ok size_bytes) c = (ok result, put key result size_bytes c)

  abbrev pub keep_result : String → Result (Option V) → Exec (LruCache V) (Option V)
  keep_result key (err e) c = (err e, c)
  keep_result key (ok result) c = keep key result (json_size result) c

  -- `func` is called, and its result kept if the cache is used.
  unfoldable pub call_and_keep :
      Bool → String → Arguments Model Value → Exec (LruCache V) (Option V)
  call_and_keep false key args c = (func args, c)
  call_and_keep true key args c = keep_result key (func args) c

  abbrev pub serve :
      String → Arguments Model Value → Option V × LruCache V → Result (Option V) × LruCache V
  serve key args (some result, c) = (ok (some result), c)
  serve key args (none, c) = call_and_keep true key args c

  abbrev pub with_key : Bool → Arguments Model Value → Result String → Exec (LruCache V) (Option V)
  with_key use_cache args (err e) c = (err e, c)
  with_key true args (ok key) c = serve key args (get key c)
  with_key false args (ok key) c = call_and_keep false key args c

  -- The key is made before `use_cache` is looked at.
  unfoldable pub wrapper : Bool → Arguments Model Value → Exec (LruCache V) (Option V)
  wrapper use_cache args c = with_key use_cache args (hash_key json args) c
