-- ===== src/Controllers/Header.antt =====
-- mountaineer/controller.py: `_build_header`.
use mountaineer.Base.{
  Bool, true, false, Option, none, some, List, [], ◌∷◌, ◌++◌, map, String, ◌<>◌, if◌then◌else◌,
  string_eq, nat_eq, option_eq, bool_eq,
}
use mountaineer.Base.Dict.{Dict, insert}
use mountaineer.Base.Strings.{join}
use mountaineer.Controllers.{MetaAttribute, LinkAttribute, ScriptAttribute, Metadata, is_truthy}

-- `str | bool | None`
pub data AttributeValue : Type 0 where
  text : String → AttributeValue
  flag : Bool → AttributeValue
  absent : AttributeValue

abbrev text_or_absent : Option String → AttributeValue
text_or_absent none = absent
text_or_absent (some s) = text s

-- `attributes`, over what stands in the list already
unfoldable pub format_items : List String → Dict String AttributeValue → List String
format_items attributes [] = attributes
format_items attributes ((key, text value) ∷ payload) =
    format_items (attributes ++ (key <> ("=\"" <> (value <> "\""))) ∷ []) payload
format_items attributes ((key, flag true) ∷ payload) = format_items (attributes ++ key ∷ []) payload
format_items attributes ((key, flag false) ∷ payload) = format_items attributes payload
format_items attributes ((key, absent) ∷ payload) = format_items attributes payload

abbrev pub format_optional_keys : Dict String AttributeValue → String
format_optional_keys payload = join " " (format_items [] payload)

-- `{**payload, **optional_attributes}`
unfoldable pub with_optional :
    Dict String AttributeValue → Dict String String → Dict String AttributeValue
with_optional payload [] = payload
with_optional payload ((k, v) ∷ optional_attributes) =
    with_optional (insert k (text v) payload) optional_attributes

abbrev pub meta_attributes : MetaAttribute → Dict String AttributeValue
meta_attributes m =
    with_optional (("name", text_or_absent m.name) ∷ ("content", text_or_absent m.content) ∷ [])
      m.optional_attributes

abbrev pub meta_tag : MetaAttribute → String
meta_tag m = "<meta " <> (format_optional_keys (meta_attributes m) <> " />")

abbrev pub script_attributes : ScriptAttribute → Dict String AttributeValue
script_attributes s =
    with_optional
      (("src", text s.src) ∷ ("async", flag s.asynchronous) ∷ ("defer", flag s.defer) ∷ [])
      s.optional_attributes

abbrev pub script_tag : ScriptAttribute → String
script_tag s = "<script " <> (format_optional_keys (script_attributes s) <> "></script>")

abbrev pub link_attributes : LinkAttribute → Dict String AttributeValue
link_attributes l =
    with_optional (("rel", text l.rel) ∷ ("href", text l.href) ∷ []) l.optional_attributes

abbrev pub link_tag : LinkAttribute → String
link_tag l = "<link " <> (format_optional_keys (link_attributes l) <> " />")

abbrev title_text : Option String → String
title_text none = ""
title_text (some t) = t

unfoldable pub title_tags : Option String → List String
title_tags title =
    if is_truthy title then ("<title>" <> (title_text title <> "</title>")) ∷ [] else []

unfoldable pub build_header : {Response : Type 0} → Metadata Response → List String
build_header m =
    title_tags m.title ++ map meta_tag m.metas ++ map script_tag m.scripts ++ map link_tag m.links
