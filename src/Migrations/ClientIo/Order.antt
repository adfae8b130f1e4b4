-- ===== src/Migrations/ClientIo/Order.antt =====
-- The order of the migrations that `sort_migrations` returns.
use mathlib.Core.List.{Memᴰ, Perm, Permᴰ, Nodup}
use mathlib.Core.List.Permᴰ
use mathlib.Core.Option.{none-ne-some}
use mountaineer.Base.Perms.{Memᴰ-cast, Permᴰ-mem, Permᴰ-length, perm_of_Nodup}
use mountaineer.Base.{
  ℕ, ◌<◌, arith, ◌≡◌, ◌≢◌, ◌⊎◌, inl, inr, refl, sym, ap, subst, ◌∙◌, Option, none, some, List, [],
  ◌∷◌, String, string_eq, nat_eq, option_eq, bool_eq, Option-cases, length,
}
use mountaineer.Base.Exec.{ok}
use mountaineer.Base.Dict.{
  Dict, lookup, insert, lookup-insert_cases, lookup-insert_known, lookup-insert_self,
}
use mountaineer.Migrations.Database.{Database}
use mountaineer.Migrations.Revision.{Migration}
use mountaineer.Migrations.ClientIo.{migration_dict, follow, check_length, sort_migrations}
use mountaineer.Migrations.ClientIo.Walk.{
  Follows, visited, follow-Follows, Follows-follow, visited-Nodup,
}
use mountaineer.Migrations.ClientIo.Chain.{
  IsChain, chain-Nodup, down-injective, last_revision, last-ne-down,
}

module _ (db : Database) where
  abbrev M : Type 0
  M = Migration db

  -- What the dict holds under a key is a migration with that down revision.
  pub lookup-migration_dict :
      (d : Dict (Option String) M) (ms : List M) (k : Option String) (m : M)
      → lookup k (migration_dict db d ms) ≡ some m
      → (lookup k d ≡ some m) ⊎ (Memᴰ m ms × (m.down_revision ≡ k))
  unfolding migration_dict
  lookup-migration_dict d [] k m h = inl h
  lookup-migration_dict d (x ∷ ms) k m h =
      elim (lookup-migration_dict (insert x.down_revision x d) ms k m h) [
        | inl found ↦ elim (lookup-insert_cases k x.down_revision x m d found) [
          | inl (e, same) ↦ inr (Memᴰ.head (sym same), ap (λ r. r.down_revision) (sym same) ∙ sym e)
          | inr old ↦ inl old
        ]
        | inr (there, e) ↦ inr (Memᴰ.tail there, e)
      ]

  -- A migration's down revision is a key.
  pub migration_dict-known :
      (d : Dict (Option String) M) (ms : List M) (k : Option String)
      → (lookup k d ≢ none) ⊎ ((m : M) × Memᴰ m ms × (m.down_revision ≡ k))
      → lookup k (migration_dict db d ms) ≢ none
  unfolding migration_dict
  migration_dict-known d [] k (inl h) = h
  migration_dict-known d [] k (inr (m, here, e)) = elim here [ ]
  migration_dict-known d (x ∷ ms) k (inl h) =
      migration_dict-known (insert x.down_revision x d) ms k
        (inl (lookup-insert_known k x.down_revision x d h))
  migration_dict-known d (x ∷ ms) k (inr (m, Memᴰ.head here, e)) =
      migration_dict-known (insert x.down_revision x d) ms k (
        inl (λ gone.
          let own : k ≡ x.down_revision = sym e ∙ ap (λ r. r.down_revision) here in
          none-ne-some x (sym gone ∙ rw own (lookup-insert_self x.down_revision x d))))
  migration_dict-known d (x ∷ ms) k (inr (m, Memᴰ.tail there, e)) =
      migration_dict-known (insert x.down_revision x d) ms k (inr (m, there, e))

  Follows-IsChain :
      (ms : List M) (k : Option String) (s : List M)
      → Follows db (migration_dict db [] ms) k s
      → IsChain db k s × ((a : M) → Memᴰ a s → Memᴰ a ms)
  Follows-IsChain ms k [] p = (tt, λ a m. elim m [ ])
  Follows-IsChain ms k (x ∷ s) (here, p) =
      let (chain, sub) = Follows-IsChain ms (some x.up_revision) s p in
      elim (lookup-migration_dict [] ms k x here) [
        | inl none_there ↦ unfold lookup in cc
        | inr (found, e) ↦ (
          (e, chain),
          λ a. elim [ Memᴰ.head same ↦ Memᴰ-cast same found | Memᴰ.tail m ↦ sub a m ],
        )
      ]

  -- If the sort returns, its result is a rearrangement of the migrations that starts at no
  -- revision, goes on from revision to revision, and never comes back to one.
  pub sort_migrations_sound :
      (fuel : ℕ) (ms t : List M)
      → sort_migrations db fuel ms ≡ ok t
      → Perm t ms × IsChain db none t × Nodup (visited db none t)
  unfolding sort_migrations check_length
  sort_migrations_sound fuel ms t h =
      let walked : follow db fuel (migration_dict db [] ms) none [] ≡ ok t = ground arith in
      let size : length t ≡ length ms = ground arith in
      let (s, e, p) = follow-Follows db fuel (migration_dict db [] ms) none [] t walked in
      let q = subst (Follows db (migration_dict db [] ms) none) (sym e) p in
      let (chain, sub) = Follows-IsChain ms none t q in
      let nodup = visited-Nodup db (migration_dict db [] ms) none t q in
      (perm_of_Nodup t ms (chain-Nodup db none t chain nodup) sub (omega arith), chain, nodup)

  -- The dict finds each migration under its down revision, if no other has the same.
  lookup-own :
      (ms : List M) (m : M)
      → Memᴰ m ms
      → ((m' : M) → Memᴰ m' ms → m'.down_revision ≡ m.down_revision → m' ≡ m)
      → lookup m.down_revision (migration_dict db [] ms) ≡ some m
  lookup-own ms m here only =
      elim (Option-cases (lookup m.down_revision (migration_dict db [] ms))) [
        | inl missing ↦
            absurd (migration_dict-known [] ms m.down_revision (inr (m, here, refl)) missing)
        | inr (m', found) ↦ elim (lookup-migration_dict [] ms m.down_revision m' found) [
          | inl none_there ↦ unfold lookup in cc
          | inr (there, e) ↦ found ∙ ap some (only m' there e)
        ]
      ]

  lookup-unknown :
      (ms : List M) (k : Option String)
      → ((m : M) → Memᴰ m ms → m.down_revision ≢ k)
      → lookup k (migration_dict db [] ms) ≡ none
  lookup-unknown ms k other = elim (Option-cases (lookup k (migration_dict db [] ms))) [
    | inl missing ↦ missing
    | inr (m, found) ↦ elim (lookup-migration_dict [] ms k m found) [
      | inl none_there ↦ unfold lookup in cc
      | inr (there, e) ↦ absurd (other m there e)
    ]
  ]

  chain-Follows :
      (ms : List M) (k : Option String) (s : List M)
      → IsChain db k s
      → ((m : M) → Memᴰ m s → lookup m.down_revision (migration_dict db [] ms) ≡ some m)
      → lookup (last_revision db k s) (migration_dict db [] ms) ≡ none
      → Follows db (migration_dict db [] ms) k s
  chain-Follows ms k [] c own end = end
  chain-Follows ms k (x ∷ s) (e, c) own end = (
    subst (λ j. lookup j (migration_dict db [] ms) ≡ some x) e (own x (Memᴰ.head refl)),
    chain-Follows ms (some x.up_revision) s c (λ m w. own m (Memᴰ.tail w)) end,
  )

  -- With fuel beyond the number of migrations, any arrangement of a chain that starts at no revision
  -- and never comes back to one is sorted into that chain.
  pub sort_migrations_complete :
      (fuel : ℕ) (ms t : List M)
      → length ms < fuel
      → Permᴰ t ms
      → IsChain db none t
      → Nodup (visited db none t)
      → sort_migrations db fuel ms ≡ ok t
  unfolding sort_migrations check_length
  sort_migrations_complete fuel ms t enough p c d =
      let back = λ (m : M) (w : Memᴰ m ms). Permᴰ-mem m (Permᴰ.symm p) w in
      let own = λ (m : M) (w : Memᴰ m t).
        lookup-own ms m (Permᴰ-mem m p w)
          (λ m' w' e. down-injective db none t m' m c d (back m' w') w e) in
      let end =
        lookup-unknown ms (last_revision db none t)
          (λ m w. last-ne-down db none t m c d (back m w)) in
      let walked =
        Follows-follow db fuel (migration_dict db [] ms) none [] t (omega (arith, Permᴰ-length p))
          (chain-Follows ms none t c own end) in
      ground (arith, walked, Permᴰ-length p)
