-- ===== src/SourceMaps.antt =====
-- mountaineer/js_compiler/source_maps.py: the places in an exception. A text is the list of its
-- characters; of the digits of `\d`, those of ASCII. Native code parses the mappings.
pub mod Edits
use mountaineer.Base.{
  ℕ, zero, suc, ◌+◌, ◌-◌, ◌*◌, ◌≤◌, ◌<◌, ltb, leb, ltb→lt, leb→le, lt→ltb, arith, ◌≡◌, ◌≢◌, ◌↔◌,
  ◌⊎◌, inl, inr, refl, sym, ap, subst, ◌∙◌, ◌≡⟨◌⟩◌, ◌∎, ite, dite, if_pos, if_neg, Bool, true,
  false, not, ◌&&◌, ◌||◌, false≢true, Option, none, some, List, [], ◌∷◌, ◌++◌, map, String, ◌<>◌,
  Eq, ◌==◌, ==-true, ==-false, contains, if◌then◌else◌, string_eq, nat_eq, option_eq, bool_eq,
  Bool-cases, Option-cases, length, drop, get_elem?, index_from, CutAt, index_from-CutAt, all, All,
  All-append, All-suffix, all-append, length-append,
}
use mountaineer.Base.Exec.{
  Error, Result, ok, err, value_error, type_error, key_error, attribute_error, assertion_error,
  not_implemented_error, cycle_error, invalid_request_error, database_error, result_error,
  index_error, out_of_fuel, Exec, pure, raise, lift, continue, guard, when, for_each, ok-injective,
  Result-cases, >>=-eq-ok,
}
use Prim.Native.Char.{Char, code}
use mountaineer.Base.Results.{◌>>=◌}
use mountaineer.Base.Sorting.{sorted}

abbrev pub Text : Type 0
Text = List Char

abbrev between : ℕ → ℕ → ℕ → Bool
between low high n = leb low n && leb n high

abbrev is_digit : Char → Bool
is_digit c = between b'0' b'9' (code c)

-- `[<>A-Za-z0-9]`
abbrev is_name : Char → Bool
is_name c =
    code c == b'<'
    || code c == b'>'
    || between b'A' b'Z' (code c)
    || between b'a' b'z' (code c)
    || is_digit c

-- The longest first part of characters of a kind, and the rest
unfoldable pub span : (Char → Bool) → Text → Text × Text
span p [] = ([], [])
span p (c ∷ s) = let (run, rest) = span p s in if p c then (c ∷ run, rest) else ([], c ∷ s)

abbrev after : ℕ → Text → Option Text
after n [] = none
after n (c ∷ s) = if code c == n then some s else none

unfoldable pub int : ℕ → Text → ℕ
int n [] = n
int n (c ∷ s) = int (n * 10 + (code c - b'0')) s

-- The three groups of a match of `\(([<>A-Za-z0-9]+?):(\d+?):(\d+?)\)`
pub record Match : Type 0 where
  pub file : Text
  pub line : Text
  pub column : Text

abbrev group_of : Text → Option Text → (Text → Text → Option Match) → Option Match
group_of [] rest next = none
group_of (c ∷ run) none next = none
group_of (c ∷ run) (some rest) next = next (c ∷ run) rest

-- One group, up to the character that follows it
abbrev group : (Char → Bool) → ℕ → Text → (Text → Text → Option Match) → Option Match
group p closing s next = let (run, rest) = span p s in group_of run (after closing rest) next

abbrev match_inside : Option Text → Option Match
match_inside none = none
match_inside (some s) = group is_name b':' s (λ file rest. group is_digit b':' rest (λ line rest'.
    group is_digit b')' rest'
      (λ column rest''. some (record { file = file; line = line; column = column }))))

-- A match at the start of the text
unfoldable pub match_frame : Text → Option Match
match_frame s = match_inside (after b'(' s)

abbrev at_place : ℕ → Option Match → List (ℕ × Match) → List (ℕ × Match)
at_place i none matches = matches
at_place i (some m) matches = (i, m) ∷ matches

-- `re_finditer`, with the place of each match. There is no parenthesis within a match, so that no
-- two matches overlap.
unfoldable pub find_frames : ℕ → Text → List (ℕ × Match)
find_frames i [] = []
find_frames i (c ∷ s) = at_place i (match_frame (c ∷ s)) (find_frames (suc i) s)

pub record MapMetadata : Type 0 where
  pub source_index : Option ℕ
  pub source_line : Option ℕ
  pub source_column : Option ℕ

-- `((start, end), replacement)`
abbrev pub Edit : Type 0
Edit = (ℕ × ℕ) × Text

abbrev pub edit_start : Edit → ℕ
edit_start e = e.0.0

abbrev pub take : ℕ → Text → Text
take zero s = []
take (suc n) [] = []
take (suc n) (c ∷ s) = c ∷ take n s

-- `exception[:start] + replacement + exception[end:]`
unfoldable pub replace_span : Edit → Text → Text
replace_span ((start, end), replacement) s = take start s ++ (replacement ++ drop end s)

unfoldable pub replace_each : List Edit → Text → Text
replace_each [] s = s
replace_each (e ∷ edits) s = replace_each edits (replace_span e s)

-- `sorted(..., key=lambda x: x[0][0], reverse=True)`
abbrev pub later_first : Edit → Edit → Bool
later_first e f = leb (edit_start f) (edit_start e)

abbrev pub apply_replacements : List Edit → Text → Text
apply_replacements edits = replace_each (sorted later_first edits)

module _ (str : Option ℕ → Text) (convert_relative_path : Text → Text) (sources : List Text)
    (parsed_mappings : ℕ × ℕ → Option MapMetadata) where
  abbrev source_edits : ℕ → Match → MapMetadata → Option Text → Result (List Edit)
  source_edits i m original none = err index_error
  source_edits i m original (some source) =
      let file = suc i in
      let line = suc (file + length m.file) in
      let column = suc (line + length m.line) in
      ok (
        ((file, file + length m.file), convert_relative_path source)
        ∷ ((line, line + length m.line), str original.source_line)
        ∷ ((column, column + length m.column), str original.source_column)
        ∷ [])

  abbrev source_of : ℕ → Match → MapMetadata → Option ℕ → Result (List Edit)
  source_of i m original none = ok []
  source_of i m original (some source_index) =
      source_edits i m original (get_elem? sources source_index)

  abbrev frame_edits : ℕ → Match → Option MapMetadata → Result (List Edit)
  frame_edits i m none = ok []
  frame_edits i m (some original) = source_of i m original original.source_index

  unfoldable pub text_replacements : List (ℕ × Match) → Result (List Edit)
  text_replacements [] = ok []
  text_replacements ((i, m) ∷ matches) = do
    edits ← frame_edits i m (parsed_mappings (int 0 m.line, int 0 m.column))
    rest ← text_replacements matches
    ok (edits ++ rest)

  -- `map_exception` of a parser that has parsed its map
  unfoldable pub map_exception : Text → Result Text
  map_exception exception = do
    edits ← text_replacements (find_frames 0 exception)
    ok (apply_replacements edits exception)
