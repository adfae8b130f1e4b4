-- ===== src/Cache/Entries.antt =====
-- The entries of the cache: their number, and which one is found.
use mountaineer.Base.{
  ℕ, ◌+◌, ◌≤◌, ◌<◌, arith, ◌≡◌, ◌≢◌, ◌⊎◌, inl, inr, refl, sym, ap, ◌∙◌, false, Option, none, some,
  [], ◌∷◌, ◌++◌, String, ◌==◌, ==-true, if◌then◌else◌, string_eq, nat_eq, option_eq, bool_eq,
  Bool-cases, Option-cases, length, drop, length-append,
}
use mountaineer.Base.Dict.{Dict, lookup, insert, erase, NodupKeys, lookup-erase, erase-NodupKeys}
use mountaineer.Cache.{LruCache, move_to_end, get, exceeds, evict, put}

module _ {V : Type 0} where
  -- One entry to a key, and no more than the capacity.
  abbrev pub IsValid : LruCache V → Type 0
  IsValid c = NodupKeys c.cache × (length c.cache ≤ c.capacity)

  lookup-append :
      (k j : String) (v : Option V) (d : Dict String (Option V))
      → lookup k (d ++ (j, v) ∷ [])
        ≡ elim (lookup k d) [ some w ↦ some w | none ↦ if k == j then some v else none ]
  unfolding lookup
  lookup-append k j v [] = ground arith
  lookup-append k j v ((i, w) ∷ d) = ground (arith, lookup-append k j v d)

  append-NodupKeys :
      (k : String) (v : Option V) (d : Dict String (Option V))
      → NodupKeys d
      → lookup k d ≡ none
      → NodupKeys (d ++ (k, v) ∷ [])
  unfolding lookup
  append-NodupKeys k v [] once fresh = (refl, tt)
  append-NodupKeys k v ((i, w) ∷ d) (first, once) fresh =
      let rest = append-NodupKeys k v d once (ground arith) in
      (ground (arith, lookup-append i k v d), rest)

  erase_missing : (k : String) (d : Dict String (Option V)) → lookup k d ≡ none → erase k d ≡ d
  unfolding lookup erase
  erase_missing k [] h = refl
  erase_missing k ((i, w) ∷ d) h = ground (arith, erase_missing k d)

  length-erase : (k : String) (d : Dict String (Option V)) → length (erase k d) ≤ length d
  unfolding erase
  length-erase k [] = omega arith
  length-erase k ((i, w) ∷ d) = ground (arith, length-erase k d)

  length-erase_known :
      (k : String) (v : Option V) (d : Dict String (Option V))
      → lookup k d ≡ some v
      → length (erase k d) + 1 ≡ length d
  unfolding erase lookup
  length-erase_known k v [] h = absurd (ground arith)
  length-erase_known k v ((i, w) ∷ d) h = ground (arith, length-erase_known k v d)

  insert-append :
      (k : String) (v w : Option V) (d : Dict String (Option V))
      → lookup k d ≡ none
      → insert k v (d ++ (k, w) ∷ []) ≡ d ++ (k, v) ∷ []
  unfolding lookup insert
  insert-append k v w [] h = ground arith
  insert-append k v w ((i, u) ∷ d) h = ground (arith, insert-append k v w d)

  insert_new :
      (k : String) (v : Option V) (d : Dict String (Option V))
      → lookup k d ≡ none
      → insert k v d ≡ d ++ (k, v) ∷ []
  unfolding lookup insert
  insert_new k v [] h = refl
  insert_new k v ((i, u) ∷ d) h = ground (arith, insert_new k v d)

  lookup-erase_self :
      (k : String) (d : Dict String (Option V)) → NodupKeys d → lookup k (erase k d) ≡ none
  lookup-erase_self k d once = rw (lookup-erase k k d once, ==-true k k refl) refl

  -- What `put` writes stands behind all other entries.
  pub put-entries :
      (k : String) (v : Option V) (d : Dict String (Option V))
      → NodupKeys d
      → insert k v (move_to_end k d) ≡ erase k d ++ (k, v) ∷ []
  unfolding move_to_end
  put-entries k v d once = elim (Option-cases (lookup k d)) [
    | inl missing ↦
        rw missing
          (insert_new k v d missing ∙ ap (λ e. e ++ (k, v) ∷ []) (sym (erase_missing k d missing)))
    | inr (w, found) ↦ rw found (insert-append k v w (erase k d) (lookup-erase_self k d once))
  ]

  entries-NodupKeys :
      (k : String) (v : Option V) (d : Dict String (Option V))
      → NodupKeys d
      → NodupKeys (erase k d ++ (k, v) ∷ [])
  entries-NodupKeys k v d once =
      append-NodupKeys k v (erase k d) (erase-NodupKeys k d once) (lookup-erase_self k d once)

  drop-NodupKeys : (d : Dict String (Option V)) → NodupKeys d → NodupKeys (drop 1 d)
  drop-NodupKeys [] once = tt
  drop-NodupKeys (x ∷ d) (first, once) = once

  length-drop : (d : Dict String (Option V)) (n : ℕ) → length d ≤ n + 1 → length (drop 1 d) ≤ n
  length-drop [] n h = omega arith
  length-drop (x ∷ d) n h = omega arith

  evict-valid :
      (n : ℕ) (d : Dict String (Option V))
      → NodupKeys d
      → length d ≤ n + 1
      → NodupKeys (evict n d) × (length (evict n d) ≤ n)
  unfolding evict
  evict-valid n d once small = ground (arith, drop-NodupKeys d once, length-drop d n small)

  put-length :
      (k : String) (v : Option V) (d : Dict String (Option V)) (n : ℕ)
      → length d ≤ n
      → length (erase k d ++ (k, v) ∷ []) ≤ n + 1
  put-length k v d n small =
      omega (arith, length-append (erase k d) ((k, v) ∷ []), length-erase k d)

  -- Writing keeps one entry to a key, and no more entries than the capacity.
  pub put-IsValid :
      (k : String) (v : Option V) (size : ℕ) (c : LruCache V) → IsValid c → IsValid (put k v size c)
  unfolding put
  put-IsValid k v size c (once, small) = elim (Bool-cases (exceeds c.max_size_bytes size)) [
    | inl large ↦ rw large (once, small)
    | inr fits ↦
        rw (fits, put-entries k v c.cache once)
          (evict-valid c.capacity (erase k c.cache ++ (k, v) ∷ [])
            (entries-NodupKeys k v c.cache once) (put-length k v c.cache c.capacity small))
  ]

  -- What is found once an entry has been moved or written.
  lookup-entries :
      (j k : String) (v : Option V) (d : Dict String (Option V))
      → NodupKeys d
      → lookup j (erase k d ++ (k, v) ∷ []) ≡ (if j == k then some v else lookup j d)
  lookup-entries j k v d once =
      ground (arith, lookup-append j k v (erase k d), lookup-erase j k d once)

  evict-known :
      (n : ℕ) (j : String) (w : Option V) (d : Dict String (Option V))
      → NodupKeys d
      → lookup j (evict n d) ≡ some w
      → lookup j d ≡ some w
  unfolding evict lookup
  evict-known n j w [] once h = ground arith
  evict-known n j w ((i, u) ∷ d) once h = ground arith

  evict-last :
      (n : ℕ) (k : String) (v : Option V) (d : Dict String (Option V))
      → lookup k d ≡ none
      → 0 < n
      → lookup k (evict n (d ++ (k, v) ∷ [])) ≡ some v
  unfolding evict lookup
  evict-last n k v [] h room = ground arith
  evict-last n k v ((i, u) ∷ d) h room = ground (arith, lookup-append k k v d)

  lookup-moved :
      (j k : String) (v : Option V) (d : Dict String (Option V))
      → NodupKeys d
      → lookup k d ≡ some v
      → lookup j (erase k d ++ (k, v) ∷ []) ≡ lookup j d
  lookup-moved j k v d once found = ground (arith, lookup-entries j k v d once)

  length-moved :
      (k : String) (v : Option V) (d : Dict String (Option V))
      → lookup k d ≡ some v
      → length (erase k d ++ (k, v) ∷ []) ≡ length d
  length-moved k v d found =
      omega (arith, length-append (erase k d) ((k, v) ∷ []), length-erase_known k v d found)

  -- Reading a valid cache keeps it valid, keeps what is found under every key, and returns what is
  -- found, or `None`.
  pub get_lem :
      (k : String) (c : LruCache V)
      → IsValid c
      → IsValid (get k c).1
        × ((j : String) → lookup j (get k c).1.cache ≡ lookup j c.cache)
        × ((get k c).0 ≡ elim (lookup k c.cache) [ none ↦ none | some v ↦ v ])
  unfolding get move_to_end
  get_lem k c (once, small) = elim (Option-cases (lookup k c.cache)) [
    | inl missing ↦ rw missing ((once, small), λ j. refl, refl)
    | inr (v, found) ↦
        rw (found, found)
          (
            (entries-NodupKeys k v c.cache once, omega (arith, length-moved k v c.cache found)),
            λ j. lookup-moved j k v c.cache once found,
            refl,
          )
  ]

  -- A write that is not too large, to a valid cache with room for one entry, is found, and any
  -- other key that is found afterwards was found with that value before.
  pub put_lem :
      (k : String) (v : Option V) (size : ℕ) (c : LruCache V)
      → IsValid c
      → exceeds c.max_size_bytes size ≡ false
      → 0 < c.capacity
      → (lookup k (put k v size c).cache ≡ some v)
        × ((j : String) (w : Option V)
            → j ≢ k
            → lookup j (put k v size c).cache ≡ some w
            → lookup j c.cache ≡ some w)
  unfolding put
  put_lem k v size c (once, small) fits room =
      let d = erase k c.cache ++ (k, v) ∷ [] in
      rw (fits, put-entries k v c.cache once)
        (
          evict-last c.capacity k v (erase k c.cache) (lookup-erase_self k c.cache once) room,
          λ j w other found.
              let there : lookup j d ≡ some w =
                evict-known c.capacity j w d (entries-NodupKeys k v c.cache once) found in
              ground (arith, lookup-entries j k v c.cache once),
        )

  -- What is found after a write was written, or was there.
  pub put-known :
      (j k : String) (v w : Option V) (size : ℕ) (c : LruCache V)
      → IsValid c
      → lookup j (put k v size c).cache ≡ some w
      → ((j ≡ k) × (v ≡ w)) ⊎ (lookup j c.cache ≡ some w)
  unfolding put
  put-known j k v w size c (once, small) = elim (Bool-cases (exceeds c.max_size_bytes size)) [
    | inl large ↦ rw large (λ found. inr found)
    | inr fits ↦
        rw (fits, put-entries k v c.cache once)
          (λ found.
            let d = erase k c.cache ++ (k, v) ∷ [] in
            let there : lookup j d ≡ some w =
              evict-known c.capacity j w d (entries-NodupKeys k v c.cache once) found in
            ground (arith, lookup-entries j k v c.cache once))
  ]
