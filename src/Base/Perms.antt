-- ===== src/Base/Perms.antt =====
-- Rearrangements with their evidence kept, measured by native lengths.
use Prim.Native.Nat.{suc, ◌≤◌}
use mathlib.Core.Nat
use mathlib.Core.List
use mathlib.Core.List.Nodup
use mathlib.Core.List.Subperm
use mathlib.Core.List.Perm
use mathlib.Core.List.Permᴰ
use mathlib.Core.List.{List, [], ◌∷◌, Memᴰ, Mem, Permᴰ, Perm, Nodup}
use mathlib.Core.Path.{◌≡◌, refl, ◌∙◌, ap}
use mathlib.Core.Logic.{∥∥₁_map}
use native.Mathlib.Omega.{arith}
use mountaineer.Base.Lists.{length}

module _ {ℓ} {A : Type ℓ} where
  pub Memᴰ-cast : {a b : A} {l : List A} → a ≡ b → Memᴰ b l → Memᴰ a l
  Memᴰ-cast e (Memᴰ.head e') = Memᴰ.head (e ∙ e')
  Memᴰ-cast e (Memᴰ.tail d) = Memᴰ.tail (Memᴰ-cast e d)

  pub Permᴰ-mem : {l l' : List A} (a : A) → Permᴰ l l' → Memᴰ a l → Memᴰ a l'
  Permᴰ-mem a Permᴰ.nil m = m
  Permᴰ-mem a (Permᴰ.cons e p) (Memᴰ.head e') = Memᴰ.head (e' ∙ e)
  Permᴰ-mem a (Permᴰ.cons e p) (Memᴰ.tail m) = Memᴰ.tail (Permᴰ-mem a p m)
  Permᴰ-mem a (Permᴰ.swap e e') (Memᴰ.head h) = Memᴰ.tail (Memᴰ.head (h ∙ e))
  Permᴰ-mem a (Permᴰ.swap e e') (Memᴰ.tail (Memᴰ.head h)) = Memᴰ.head (h ∙ e')
  Permᴰ-mem a (Permᴰ.swap e e') (Memᴰ.tail (Memᴰ.tail m)) = Memᴰ.tail (Memᴰ.tail m)
  Permᴰ-mem a (Permᴰ.trans p q) m = Permᴰ-mem a q (Permᴰ-mem a p m)

  pub Permᴰ-length : {l l' : List A} → Permᴰ l l' → length l ≡ length l'
  Permᴰ-length Permᴰ.nil = refl
  Permᴰ-length (Permᴰ.cons e p) = ap suc (Permᴰ-length p)
  Permᴰ-length (Permᴰ.swap e e') = refl
  Permᴰ-length (Permᴰ.trans p q) = Permᴰ-length p ∙ Permᴰ-length q

  length-le : (xs ys : List A) → length xs ≤ length ys → Nat.◌≤◌ (List.length xs) (List.length ys)
  length-le [] ys h = Nat.zero-le
  length-le (x ∷ xs) [] h = absurd (omega arith)
  length-le (x ∷ xs) (y ∷ ys) h = Nat.suc-le-suc (length-le xs ys (omega arith))

  -- As many different items of `ys` as `ys` is long are a rearrangement of `ys`.
  pub perm_of_Nodup :
      (xs ys : List A)
      → Nodup xs
      → ((a : A) → Memᴰ a xs → Memᴰ a ys)
      → length ys ≤ length xs
      → Perm xs ys
  perm_of_Nodup xs ys d sub h =
      Subperm.perm_of_length_le (Nodup.subperm d (λ a m. ∥∥₁_map m (sub a))) (length-le ys xs h)
