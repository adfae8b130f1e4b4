-- ===== src/Tests/Traces.antt =====
-- The places in an exception.
use mountaineer.Base.{
  ℕ, arith, ◌≡◌, refl, ◌&&◌, Option, none, some, List, [], ◌∷◌, String, ◌==◌, if◌then◌else◌,
  string_eq, nat_eq, option_eq, bool_eq,
}
use mountaineer.Base.Exec.{ok}
use mountaineer.Base.Sorting.{sorted}
use mountaineer.SourceMaps.{
  Text, span, int, match_frame, find_frames, MapMetadata, replace_span, replace_each,
  apply_replacements, text_replacements, map_exception,
}
use mountaineer.SourceMaps.Edits.{Piece, source, result, edits_of, apply_replacements-pieces}

abbrev chars : String → Text
chars String.[] = []
chars (String.◌∷◌ c s) = c ∷ chars s

abbrev str : Option ℕ → Text
str none = chars "None"
str (some n) = if n == 12 then chars "12" else chars "3"

abbrev mappings : ℕ × ℕ → Option MapMetadata
mappings (line, column) =
    if line == 1 && column == 20
    then some (record { source_index = some 0; source_line = some 12; source_column = some 3 })
    else none

mapped :
    map_exception str
      (λ s. s)
      (chars "page.tsx" ∷ [])
      mappings
      (chars "at f (main:1:20), g (main:1:21)")
    ≡ ok (chars "at f (page.tsx:12:3), g (main:1:21)")
unfolding map_exception text_replacements find_frames match_frame span int sorted replace_each
    replace_span nat_eq
mapped = refl

-- `(ab:1)`, where `ab` and `1` are replaced
abbrev pieces : List Piece
pieces =
    record { gap = chars "("; old = chars "ab"; new = chars "c.tsx" }
    ∷ record { gap = chars ":"; old = chars "1"; new = chars "12" }
    ∷ []

apply_replacements-pieces_example :
    apply_replacements (edits_of 0 pieces) (source pieces (chars ")")) ≡ result pieces (chars ")")
apply_replacements-pieces_example =
    apply_replacements-pieces pieces (chars ")") (omega arith, (omega arith, tt))
