-- ===== src/Migrations/ClientIo/Chain.antt =====
-- Chains of migrations.
use mathlib.Core.List.{Memᴰ, Nodup, Nodup-cons, Nodup-nil}
use mathlib.Core.HLevel.{⊥_prop}
use mathlib.Core.Logic.{∥∥₁_elim}
use mountaineer.Base.Perms.{Memᴰ-cast}
use mountaineer.Base.{
  ◌≡◌, ◌≢◌, refl, sym, ap, ◌∙◌, Option, some, List, [], ◌∷◌, String, string_eq, nat_eq, option_eq,
  bool_eq,
}
use mountaineer.Migrations.Database.{Database}
use mountaineer.Migrations.Revision.{Migration}
use mountaineer.Migrations.ClientIo.Walk.{visited}

module _ (db : Database) where
  abbrev M : Type 0
  M = Migration db

  -- Each migration goes up from where the one before it ended, the first from `k`.
  abbrev pub IsChain : Option String → List M → Type 0
  IsChain k [] = Unit
  IsChain k (m ∷ s) = (m.down_revision ≡ k) × IsChain (some m.up_revision) s

  pub mem-visited :
      (k : Option String) (s : List M) (m : M)
      → IsChain k s
      → Memᴰ m s
      → Memᴰ m.down_revision (visited db k s)
  mem-visited k [] m c w = elim w [ ]
  mem-visited k (x ∷ s) m (e, c) (Memᴰ.head same) = Memᴰ.head (ap (λ r. r.down_revision) same ∙ e)
  mem-visited k (x ∷ s) m (e, c) (Memᴰ.tail w) =
      Memᴰ.tail (mem-visited (some x.up_revision) s m c w)

  pub chain-Nodup :
      (k : Option String) (s : List M) → IsChain k s → Nodup (visited db k s) → Nodup s
  chain-Nodup k [] c d = Nodup-nil
  chain-Nodup k (x ∷ s) (e, c) d =
      let (fresh, rest) = Nodup-cons.0 d in
      Nodup-cons.1 (
        (λ m.
            ∥∥₁_elim m ⊥_prop
              λ w. fresh ∣ Memᴰ-cast (sym e) (mem-visited (some x.up_revision) s x c w) ∣₁),
        chain-Nodup (some x.up_revision) s c rest,
      )

  -- In a chain with no revision twice, a down revision belongs to one migration.
  pub down-injective :
      (k : Option String) (s : List M) (m m' : M)
      → IsChain k s
      → Nodup (visited db k s)
      → Memᴰ m s
      → Memᴰ m' s
      → m.down_revision ≡ m'.down_revision
      → m ≡ m'
  down-injective k [] m m' c d w w' r = elim w [ ]
  down-injective k (x ∷ s) m m' (e, c) d (Memᴰ.head p) (Memᴰ.head q) r = p ∙ sym q
  down-injective k (x ∷ s) m m' (e, c) d (Memᴰ.head p) (Memᴰ.tail w) r = absurd (
      (Nodup-cons.0 d).0
        ∣ Memᴰ-cast (sym e ∙ ap (λ z. z.down_revision) (sym p) ∙ r)
          (mem-visited (some x.up_revision) s m' c w) ∣₁)
  down-injective k (x ∷ s) m m' (e, c) d (Memᴰ.tail w) (Memᴰ.head q) r = absurd (
      (Nodup-cons.0 d).0
        ∣ Memᴰ-cast (sym e ∙ ap (λ z. z.down_revision) (sym q) ∙ sym r)
          (mem-visited (some x.up_revision) s m c w) ∣₁)
  down-injective k (x ∷ s) m m' (e, c) d (Memᴰ.tail w) (Memᴰ.tail w') r =
      down-injective (some x.up_revision) s m m' c (Nodup-cons.0 d).1 w w' r

  -- The revision at which a chain ends.
  abbrev pub last_revision : Option String → List M → Option String
  last_revision k [] = k
  last_revision k (m ∷ s) = last_revision (some m.up_revision) s

  pub mem-last : (k : Option String) (s : List M) → Memᴰ (last_revision k s) (visited db k s)
  mem-last k [] = Memᴰ.head refl
  mem-last k (x ∷ s) = Memᴰ.tail (mem-last (some x.up_revision) s)

  pub last-ne-down :
      (k : Option String) (s : List M) (m : M)
      → IsChain k s
      → Nodup (visited db k s)
      → Memᴰ m s
      → m.down_revision ≢ last_revision k s
  last-ne-down k [] m c d w r = elim w [ ]
  last-ne-down k (x ∷ s) m (e, c) d (Memᴰ.head p) r =
      (Nodup-cons.0 d).0
        ∣ Memᴰ-cast (sym e ∙ ap (λ z. z.down_revision) (sym p) ∙ r)
          (mem-last (some x.up_revision) s) ∣₁
  last-ne-down k (x ∷ s) m (e, c) d (Memᴰ.tail w) r =
      last-ne-down (some x.up_revision) s m c (Nodup-cons.0 d).1 w r
