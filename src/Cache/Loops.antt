-- ===== src/Cache/Loops.antt =====
-- `AsyncLoopObjectCache`: objects that belong to an event loop, by the loop's id. The running loop
-- is an argument; a lock and a finalizer are known by their loop alone.
use mountaineer.Base.{
  ℕ, ◌≡◌, refl, ap, ◌∙◌, Option, none, some, List, [], ◌∷◌, ◌==◌, if◌then◌else◌, string_eq, nat_eq,
  option_eq, bool_eq,
}
use mountaineer.Base.Dict.{
  Dict, lookup, insert, erase, NodupKeys, lookup-insert, lookup-erase, insert-NodupKeys,
  erase-NodupKeys,
}

pub record LoopCache (T : Type 0) : Type 0 where
  pub loop_caches : Dict ℕ T
  pub loop_locks : Dict ℕ ℕ
  pub event_loop_refs : Dict ℕ ℕ

abbrev ensured : Option ℕ → ℕ → Dict ℕ ℕ → Dict ℕ ℕ
ensured none loop locks = insert loop loop locks
ensured (some lock) loop locks = locks

module _ {T : Type 0} where
  -- `__init__`
  abbrev pub no_loops : LoopCache T
  no_loops = record { loop_caches = []; loop_locks = []; event_loop_refs = [] }

  unfoldable pub get_obj : ℕ → LoopCache T → Option T
  get_obj loop c = lookup loop c.loop_caches

  unfoldable pub set_obj : ℕ → T → LoopCache T → LoopCache T
  set_obj loop obj c = record c {
    loop_caches = insert loop obj c.loop_caches;
    event_loop_refs = insert loop loop c.event_loop_refs;
  }

  -- `get_lock`, up to its `yield`, once the lock is held
  unfoldable pub get_lock : ℕ → LoopCache T → Option T × LoopCache T
  get_lock loop c =
      let c' = record c { loop_locks = ensured (lookup loop c.loop_locks) loop c.loop_locks } in
      (get_obj loop c', c')

  unfoldable pub cleanup_loop : ℕ → LoopCache T → LoopCache T
  cleanup_loop loop_id c = record {
    loop_caches = erase loop_id c.loop_caches;
    loop_locks = erase loop_id c.loop_locks;
    event_loop_refs = erase loop_id c.event_loop_refs;
  }

  abbrev pub IsValid : LoopCache T → Type 0
  IsValid c = NodupKeys c.loop_caches × NodupKeys c.loop_locks × NodupKeys c.event_loop_refs

ensured-NodupKeys :
    (o : Option ℕ) (loop : ℕ) (locks : Dict ℕ ℕ)
    → NodupKeys locks
    → NodupKeys (ensured o loop locks)
ensured-NodupKeys none loop locks once = insert-NodupKeys loop loop locks once
ensured-NodupKeys (some l) loop locks once = once

-- What happens to the cache, loop by loop.
pub data Event (T : Type 0) : Type 0 where
  set : ℕ → T → Event T
  lock : ℕ → Event T
  cleanup : ℕ → Event T

module _ {T : Type 0} where
  abbrev pub step : Event T → LoopCache T → LoopCache T
  step (set loop obj) c = set_obj loop obj c
  step (lock loop) c = (get_lock loop c).1
  step (cleanup loop) c = cleanup_loop loop c

  abbrev pub run : List (Event T) → LoopCache T → LoopCache T
  run [] c = c
  run (e ∷ events) c = run events (step e c)

  -- The object that was set last for a loop and since the loop's last cleanup.
  abbrev pub latest : ℕ → List (Event T) → Option T → Option T
  latest loop [] o = o
  latest loop (set l obj ∷ events) o = latest loop events (if loop == l then some obj else o)
  latest loop (lock l ∷ events) o = latest loop events o
  latest loop (cleanup l ∷ events) o = latest loop events (if loop == l then none else o)

  step-IsValid : (e : Event T) (c : LoopCache T) → IsValid c → IsValid (step e c)
  unfolding set_obj get_lock cleanup_loop
  step-IsValid (set loop obj) c (caches, locks, refs) = (
    insert-NodupKeys loop obj c.loop_caches caches,
    locks,
    insert-NodupKeys loop loop c.event_loop_refs refs,
  )
  step-IsValid (lock loop) c (caches, locks, refs) =
      (caches, ensured-NodupKeys (lookup loop c.loop_locks) loop c.loop_locks locks, refs)
  step-IsValid (cleanup loop) c (caches, locks, refs) = (
    erase-NodupKeys loop c.loop_caches caches,
    erase-NodupKeys loop c.loop_locks locks,
    erase-NodupKeys loop c.event_loop_refs refs,
  )

  -- From a cache with one entry to a loop, whatever happens, a loop is given the object that was
  -- set last for it and since its last cleanup.
  pub get_obj-run :
      (loop : ℕ) (events : List (Event T)) (c : LoopCache T)
      → IsValid c
      → get_obj loop (run events c) ≡ latest loop events (get_obj loop c)
  unfolding get_obj set_obj get_lock cleanup_loop
  get_obj-run loop [] c valid = refl
  get_obj-run loop (set l obj ∷ events) c valid =
      get_obj-run loop events (set_obj l obj c) (step-IsValid (set l obj) c valid)
      ∙ ap (latest loop events) (lookup-insert loop l obj c.loop_caches)
  get_obj-run loop (lock l ∷ events) c valid =
      get_obj-run loop events (get_lock l c).1 (step-IsValid (lock l) c valid)
  get_obj-run loop (cleanup l ∷ events) c valid =
      get_obj-run loop events (cleanup_loop l c) (step-IsValid (cleanup l) c valid)
      ∙ ap (latest loop events) (lookup-erase loop l c.loop_caches valid.0)
