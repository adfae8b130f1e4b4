-- ===== src/Controllers/Unique.antt =====
-- Merging metadata against the plain list of what the pages give, without repetitions.
use mountaineer.Base.{
  arith, ◌≡◌, inl, inr, refl, sym, ◌∙◌, Bool, true, false, ◌||◌, Option, none, List, [], ◌∷◌, ◌++◌,
  String, if◌then◌else◌, string_eq, nat_eq, option_eq, bool_eq, Bool-cases, All,
}
use mathlib.Core.List.{append_assoc, append-nil}
use mountaineer.Controllers.{
  MetaAttribute, LinkAttribute, ScriptAttribute, Metadata, is_truthy, same_meta, same_link,
  same_script, any, unseen, or_else, empty_metadata, merge_rest, merge_metadatas,
}

module _ {A : Type 0} (same : A → A → Bool) where
  -- What has nothing like it in `seen` or before it
  unfoldable pub firsts : List A → List A → List A
  unfolding any
  firsts seen [] = []
  firsts seen (x ∷ xs) =
      let rest = firsts (seen ++ x ∷ []) xs in if any (same x) seen then rest else x ∷ rest

  -- Nothing has its like before it in the list.
  abbrev pub Unrepeated : List A → Type 0
  Unrepeated [] = Unit
  Unrepeated (x ∷ xs) = All (λ y. same y x ≡ false) xs × Unrepeated xs

  any-snoc :
      (y x : A) (seen : List A) → any (same y) (seen ++ x ∷ []) ≡ (any (same y) seen || same y x)
  unfolding any
  any-snoc y x [] = ground arith
  any-snoc y x (z ∷ seen) = ground (arith, any-snoc y x seen)

  unseen-snoc :
      (seen : List A) (x : A) (xs : List A)
      → All (λ y. same y x ≡ false) xs
      → unseen same (seen ++ x ∷ []) xs ≡ unseen same seen xs
  unfolding unseen
  unseen-snoc seen x [] fresh = refl
  unseen-snoc seen x (y ∷ xs) (here, fresh) =
      ground (arith, any-snoc y x seen, unseen-snoc seen x xs fresh)

  unseen-firsts : (seen xs : List A) → Unrepeated xs → unseen same seen xs ≡ firsts seen xs
  unfolding unseen firsts
  unseen-firsts seen [] u = refl
  unseen-firsts seen (x ∷ xs) (fresh, u) =
      let rest = sym (unseen-snoc seen x xs fresh) ∙ unseen-firsts (seen ++ x ∷ []) xs u in
      rw rest refl

  firsts-append :
      (seen xs ys : List A) → firsts seen (xs ++ ys) ≡ firsts seen xs ++ firsts (seen ++ xs) ys
  unfolding firsts
  firsts-append seen [] ys = rw append-nil refl
  firsts-append seen (x ∷ xs) ys =
      let rest = firsts-append (seen ++ x ∷ []) xs ys in
      let same_seen = append_assoc seen (x ∷ []) xs in rw (rest, same_seen) (ground arith)

  merged_part :
      (final seen xs ys : List A)
      → Unrepeated xs
      → (final ++ unseen same seen xs) ++ firsts (seen ++ xs) ys ≡ final ++ firsts seen (xs ++ ys)
  merged_part final seen xs ys u =
      rw (unseen-firsts seen xs u, firsts-append seen xs ys) (append_assoc final _ _)

-- `[x for m in metadatas for x in m.field]`
abbrev pub gather : {A B : Type 0} → (A → List B) → List A → List B
gather field [] = []
gather field (m ∷ ms) = field m ++ gather field ms

module _ {Response : Type 0} where
  abbrev pub first_title : Option String → List (Metadata Response) → Option String
  first_title found [] = found
  first_title found (m ∷ ms) = if is_truthy found then found else first_title m.title ms

  abbrev pub UnrepeatedEach : List (Metadata Response) → Type 0
  UnrepeatedEach = All (λ m.
      Unrepeated same_meta m.metas
      × Unrepeated same_link m.links
      × Unrepeated same_script m.scripts)

  first_title-truthy :
      (found : Option String) (ms : List (Metadata Response))
      → is_truthy found ≡ true
      → first_title found ms ≡ found
  first_title-truthy found [] h = refl
  first_title-truthy found (m ∷ ms) h = rw h refl

  first_title-or_else :
      (a b : Option String) (ms : List (Metadata Response))
      → first_title (or_else a b) ms ≡ (if is_truthy a then a else first_title b ms)
  first_title-or_else a b ms = elim (Bool-cases (is_truthy a)) [
    | inl t ↦ rw t (first_title-truthy a ms t)
    | inr f ↦ rw f refl
  ]

  merge_rest_lem :
      (final : Metadata Response) (metas : List MetaAttribute) (links : List LinkAttribute)
      (scripts : List ScriptAttribute) (ms : List (Metadata Response))
      → UnrepeatedEach ms
      → let out = merge_rest final metas links scripts ms in
        (out.title ≡ first_title final.title ms)
        × (out.metas ≡ final.metas ++ firsts same_meta metas (gather (λ m. m.metas) ms))
        × (out.links ≡ final.links ++ firsts same_link links (gather (λ m. m.links) ms))
        × (out.scripts ≡ final.scripts ++ firsts same_script scripts (gather (λ m. m.scripts) ms))
  unfolding merge_rest firsts
  merge_rest_lem final metas links scripts [] u =
      (refl, sym (append-nil _), sym (append-nil _), sym (append-nil _))
  merge_rest_lem final metas links scripts (m ∷ ms) (here, u) =
      let (ms_once, ls_once, ss_once) = here in
      let (t, a, b, c) =
        merge_rest_lem
          (record {
            title = or_else final.title m.title;
            metas = final.metas ++ unseen same_meta metas m.metas;
            links = final.links ++ unseen same_link links m.links;
            scripts = final.scripts ++ unseen same_script scripts m.scripts;
            explicit_response = final.explicit_response;
            ignore_global_metadata = final.ignore_global_metadata;
          })
          (metas ++ m.metas) (links ++ m.links) (scripts ++ m.scripts) ms u in
      (
        t ∙ first_title-or_else final.title m.title ms,
        a ∙ merged_part same_meta final.metas metas m.metas (gather (λ n. n.metas) ms) ms_once,
        b ∙ merged_part same_link final.links links m.links (gather (λ n. n.links) ms) ls_once,
        c
            ∙ merged_part same_script final.scripts scripts m.scripts (gather (λ n. n.scripts) ms)
                ss_once,
      )

  -- If no page repeats a meta, link or script of its own, merging keeps of each kind exactly those,
  -- in order, that have none like them before, and the title is the first that is not empty.
  pub merge_metadatas_lem :
      (ms : List (Metadata Response))
      → UnrepeatedEach ms
      → ((merge_metadatas ms).title ≡ first_title none ms)
        × ((merge_metadatas ms).metas ≡ firsts same_meta [] (gather (λ m. m.metas) ms))
        × ((merge_metadatas ms).links ≡ firsts same_link [] (gather (λ m. m.links) ms))
        × ((merge_metadatas ms).scripts ≡ firsts same_script [] (gather (λ m. m.scripts) ms))
  merge_metadatas_lem ms u = merge_rest_lem empty_metadata [] [] [] ms u
