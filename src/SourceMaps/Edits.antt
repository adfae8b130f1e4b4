-- ===== src/SourceMaps/Edits.antt =====
-- The replacements of `map_exception`, against a text in pieces.
use mountaineer.Base.{
  ℕ, ◌+◌, ◌<◌, arith, ◌≡◌, refl, sym, ap, subst, ◌∙◌, List, [], ◌∷◌, ◌++◌, string_eq, nat_eq,
  option_eq, bool_eq, length, drop, All, All-append, length-append,
}
use mathlib.Core.List.{append_assoc}
use mountaineer.Base.Sorting.{sorted, put}
use mountaineer.SourceMaps.{
  Text, Edit, edit_start, take, replace_span, replace_each, later_first, apply_replacements,
}

-- A text that stays, a text that is replaced, and what it is replaced by
pub record Piece : Type 0 where
  pub gap : Text
  pub old : Text
  pub new : Text

abbrev pub source : List Piece → Text → Text
source [] tail = tail
source (p ∷ ps) tail = p.gap ++ (p.old ++ source ps tail)

abbrev pub result : List Piece → Text → Text
result [] tail = tail
result (p ∷ ps) tail = p.gap ++ (p.new ++ result ps tail)

-- The replacements, where the pieces start at `i`
abbrev pub edits_of : ℕ → List Piece → List Edit
edits_of i [] = []
edits_of i (p ∷ ps) =
    let start = i + length p.gap in
    let end = start + length p.old in ((start, end), p.new) ∷ edits_of end ps

abbrev pub NonemptyOld : List Piece → Type 0
NonemptyOld = All (λ p. 0 < length p.old)

take-append : (s t : Text) → take (length s) (s ++ t) ≡ s
take-append [] t = take-zero t
  where
    take-zero : (t : Text) → take 0 t ≡ []
    take-zero t = refl
take-append (c ∷ s) t = ap (◌∷◌ c) (take-append s t)

drop-append : (s t : Text) → drop (length s) (s ++ t) ≡ t
drop-append [] t = refl
drop-append (c ∷ s) t = drop-append s t

drop-both : (s t r : Text) → drop (length s + length t) (s ++ (t ++ r)) ≡ r
drop-both s t r =
    subst (λ n. drop n (s ++ (t ++ r)) ≡ r) (length-append s t)
      (subst (λ l. drop (length (s ++ t)) l ≡ r) (append_assoc s t r) (drop-append (s ++ t) r))

replace_each-append :
    (es fs : List Edit) (s : Text) → replace_each (es ++ fs) s ≡ replace_each fs (replace_each es s)
unfolding replace_each
replace_each-append [] fs s = refl
replace_each-append (e ∷ es) fs s = replace_each-append es fs (replace_span e s)

replace_span-middle :
    (before old new rest : Text)
    → replace_span ((length before, length before + length old), new) (before ++ (old ++ rest))
      ≡ before ++ (new ++ rest)
unfolding replace_span
replace_span-middle before old new rest =
    rw (take-append before (old ++ rest), drop-both before old rest) refl

-- An edit that starts first is put behind all others.
put-last :
    (e : Edit) (es : List Edit)
    → All (λ f. edit_start e < edit_start f) es
    → put later_first e es ≡ es ++ e ∷ []
put-last e [] h = refl
put-last e (f ∷ es) (here, h) = ground (arith, put-last e es h)

-- The edits in the reverse order
abbrev rev : List Edit → List Edit
rev [] = []
rev (e ∷ es) = rev es ++ e ∷ []

All-rev : (P : Edit → Type 0) (es : List Edit) → All P es → All P (rev es)
All-rev P [] h = tt
All-rev P (e ∷ es) (here, h) = All-append P (rev es) (e ∷ []) (All-rev P es h) (here, tt)

edits_of-later : (i j : ℕ) (ps : List Piece) → i < j → All (λ f. i < edit_start f) (edits_of j ps)
edits_of-later i j [] less = tt
edits_of-later i j (p ∷ ps) less =
    (omega arith, edits_of-later i (j + length p.gap + length p.old) ps (omega arith))

sorted-edits_of :
    (i : ℕ) (ps : List Piece)
    → NonemptyOld ps
    → sorted later_first (edits_of i ps) ≡ rev (edits_of i ps)
unfolding sorted
sorted-edits_of i [] h = refl
sorted-edits_of i (p ∷ ps) (here, h) =
    let start = i + length p.gap in
    let end = start + length p.old in
    let rest = sorted-edits_of end ps h in
    let e : Edit = ((start, end), p.new) in
    ap (put later_first e) rest
    ∙ put-last e (rev (edits_of end ps)) (
        All-rev (λ f. start < edit_start f) (edits_of end ps)
          (edits_of-later start end ps (omega arith)))

replace_rev :
    (before : Text) (ps : List Piece) (tail : Text)
    → replace_each (rev (edits_of (length before) ps)) (before ++ source ps tail)
      ≡ before ++ result ps tail
unfolding replace_each
replace_rev before [] tail = refl
replace_rev before (p ∷ ps) tail =
    let until = before ++ p.gap in
    let rest = result ps tail in
    let e : Edit =
      ((length before + length p.gap, length before + length p.gap + length p.old), p.new) in
    let at : length until ≡ length before + length p.gap = length-append before p.gap in
    let after : length (until ++ p.old) ≡ length before + length p.gap + length p.old =
      length-append until p.old ∙ ap (λ n. n + length p.old) at in
    let later =
      ap (replace_each (rev (edits_of (length (until ++ p.old)) ps))) (
        sym (
          append_assoc until p.old (source ps tail)
          ∙ append_assoc before p.gap (p.old ++ source ps tail)))
      ∙ replace_rev (until ++ p.old) ps tail
      ∙ append_assoc until p.old rest in
    let here : replace_span e (until ++ (p.old ++ rest)) ≡ until ++ (p.new ++ rest) =
      subst
        (λ n.
          replace_span ((n, n + length p.old), p.new) (until ++ (p.old ++ rest))
          ≡ until ++ (p.new ++ rest))
        at (replace_span-middle until p.old p.new rest) in
    replace_each-append (rev (edits_of (length before + length p.gap + length p.old) ps)) (e ∷ [])
      (before ++ source (p ∷ ps) tail)
    ∙ ap (replace_span e) (
        subst
          (λ n.
            replace_each (rev (edits_of n ps)) (before ++ source (p ∷ ps) tail)
            ≡ until ++ (p.old ++ rest))
          after later)
    ∙ here
    ∙ append_assoc before p.gap (p.new ++ rest)

-- Replacing the spans of a text one after the other, from its end, leaves what stands between them
-- and puts each replacement in the place of its span, if no span is empty.
pub apply_replacements-pieces :
    (ps : List Piece) (tail : Text)
    → NonemptyOld ps
    → apply_replacements (edits_of 0 ps) (source ps tail) ≡ result ps tail
apply_replacements-pieces ps tail h =
    ap (λ es. replace_each es (source ps tail)) (sorted-edits_of 0 ps h) ∙ replace_rev [] ps tail
