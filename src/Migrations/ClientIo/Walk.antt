-- ===== src/Migrations/ClientIo/Walk.antt =====
-- The loop of `sort_migrations` as a path through the dict.
use mathlib.Core.List.{Memᴰ, append_assoc, append-nil, Nodup, Nodup-cons, Nodup-nil, not-mem-nil}
use mathlib.Core.HLevel.{⊥_prop}
use mathlib.Core.Logic.{∥∥₁_elim}
use mathlib.Core.Option.{some-injective}
use native.Mathlib.Nat.{le_of_eq}
use mountaineer.Base.{
  ℕ, zero, suc, ◌≤◌, ◌<◌, arith, ◌≡◌, inl, inr, refl, sym, ap, subst, ◌∙◌, Option, none, some, List,
  [], ◌∷◌, ◌++◌, String, string_eq, nat_eq, option_eq, bool_eq, Option-cases, length,
}
use mountaineer.Base.Exec.{ok}
use mountaineer.Base.Dict.{Dict, lookup}
use mountaineer.Migrations.Database.{Database}
use mountaineer.Migrations.Revision.{Migration}
use mountaineer.Migrations.ClientIo.{follow}

module _ (db : Database) where
  -- `s` is the path from `k` to a revision that the dict does not know.
  abbrev pub Follows :
      Dict (Option String) (Migration db) → Option String → List (Migration db) → Type 0
  Follows d k [] = lookup k d ≡ none
  Follows d k (m ∷ s) = (lookup k d ≡ some m) × Follows d (some m.up_revision) s

  -- The revisions on the way, the last one included.
  abbrev pub visited : Option String → List (Migration db) → List (Option String)
  visited k [] = k ∷ []
  visited k (m ∷ s) = k ∷ visited (some m.up_revision) s

  pub follow-Follows :
      (fuel : ℕ) (d : Dict (Option String) (Migration db)) (k : Option String)
      (acc t : List (Migration db))
      → follow db fuel d k acc ≡ ok t
      → (s : List (Migration db)) × (t ≡ acc ++ s) × Follows d k s
  unfolding follow
  follow-Follows zero d k acc t h = ground arith
  follow-Follows (suc fuel) d k acc t h = elim (Option-cases (lookup k d)) [
    | inl last ↦ let e : acc ≡ t = ground arith in ([], sym e ∙ sym (append-nil acc), last)
    | inr (m, next) ↦
        let step : follow db fuel d (some m.up_revision) (acc ++ m ∷ []) ≡ ok t = ground arith in
        let (s, e, p) = follow-Follows fuel d (some m.up_revision) (acc ++ m ∷ []) t step in
        (m ∷ s, e ∙ append_assoc acc (m ∷ []) s, (next, p))
  ]

  pub Follows-follow :
      (fuel : ℕ) (d : Dict (Option String) (Migration db)) (k : Option String)
      (acc s : List (Migration db))
      → length s < fuel
      → Follows d k s
      → follow db fuel d k acc ≡ ok (acc ++ s)
  unfolding follow
  Follows-follow zero d k acc s h p = absurd (omega arith)
  Follows-follow (suc fuel) d k acc [] h p = rw (p, follow) (ap ok (sym (append-nil acc)))
  Follows-follow (suc fuel) d k acc (m ∷ s) h p =
      rw (p.0, follow)
        (Follows-follow fuel d (some m.up_revision) (acc ++ m ∷ []) s (omega arith) p.1
          ∙ ap ok (append_assoc acc (m ∷ []) s))

  pub Follows-length :
      (d : Dict (Option String) (Migration db)) (k : Option String) (s t : List (Migration db))
      → Follows d k s
      → Follows d k t
      → length s ≡ length t
  Follows-length d k [] [] p q = refl
  Follows-length d k [] (y ∷ t) p q = ground arith
  Follows-length d k (x ∷ s) [] p q = ground arith
  Follows-length d k (x ∷ s) (y ∷ t) p q =
      let same : y ≡ x = some-injective y x (sym q.0 ∙ p.0) in
      ap suc (
        Follows-length d (some x.up_revision) s t p.1
          (subst (λ m. Follows d (some m.up_revision) t) same q.1))

  -- A revision on the way is at most as far from the end as the start is.
  visited-length-le :
      (d : Dict (Option String) (Migration db)) (j k : Option String) (s t : List (Migration db))
      → Follows d k s
      → Follows d j t
      → Memᴰ j (visited k s)
      → length t ≤ length s
  visited-length-le d j k [] t p q (Memᴰ.head e) =
      le_of_eq (Follows-length d k t [] (subst (λ r. Follows d r t) e q) p)
  visited-length-le d j k [] t p q (Memᴰ.tail m) = elim m [ ]
  visited-length-le d j k (x ∷ s) t p q (Memᴰ.head e) =
      le_of_eq (Follows-length d k t (x ∷ s) (subst (λ r. Follows d r t) e q) p)
  visited-length-le d j k (x ∷ s) t p q (Memᴰ.tail m) =
      omega (arith, visited-length-le d j (some x.up_revision) s t p.1 q m)

  -- No revision is met twice.
  pub visited-Nodup :
      (d : Dict (Option String) (Migration db)) (k : Option String) (s : List (Migration db))
      → Follows d k s
      → Nodup (visited k s)
  visited-Nodup d k [] p = Nodup-cons.1 (not-mem-nil, Nodup-nil)
  visited-Nodup d k (x ∷ s) p = Nodup-cons.1 (
    (λ m.
        ∥∥₁_elim m ⊥_prop
          λ w. omega (arith, visited-length-le d k (some x.up_revision) s (x ∷ s) p.1 p w)),
    visited-Nodup d (some x.up_revision) s p.1,
  )
