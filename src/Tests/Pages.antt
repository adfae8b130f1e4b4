-- ===== src/Tests/Pages.antt =====
-- The metadata of pages, and the configuration.
use mountaineer.Base.{
  ◌≡◌, refl, true, false, Option, none, some, List, [], ◌∷◌, String, string_eq, nat_eq, option_eq,
  bool_eq,
}
use mountaineer.Base.Dict.{lookup, insert}
use mountaineer.Base.Strings.{join}
use mountaineer.Controllers.{
  MetaAttribute, Metadata, is_truthy, theme_color_meta, viewport_meta, same_meta, same_link,
  same_script, merge_metadatas,
}
use mountaineer.Controllers.Unique.{
  firsts, gather, first_title, UnrepeatedEach, merge_metadatas_lem,
}
use mountaineer.Controllers.Header.{format_items, with_optional, title_tags, build_header}
use mountaineer.Controllers.Page.{
  Controller, html, RenderContext, render_base, generate_html, generate_html-ignores_global,
  dump_contexts,
}
use mountaineer.Config.{unregister_config, get_config}
use mountaineer.Config.History.{
  Step, register, in_context, registered, or_value_error, run, get_config_lem,
}

abbrev theme : MetaAttribute
theme = theme_color_meta "white" (some "light") []

abbrev zoom : MetaAttribute
zoom = viewport_meta "device-width" "1.0" "2.0" true []

abbrev own : Metadata String
own = record {
  title = none;
  metas = theme ∷ [];
  links = [];
  scripts = [];
  explicit_response = none;
  ignore_global_metadata = true;
}

abbrev shared : Metadata String
shared = record {
  title = some "Home";
  metas = theme ∷ zoom ∷ [];
  links = [];
  scripts = [];
  explicit_response = none;
  ignore_global_metadata = false;
}

pages_unrepeated : UnrepeatedEach (own ∷ shared ∷ [])
unfolding theme_color_meta viewport_meta lookup string_eq option_eq
pages_unrepeated = (((tt, tt), tt, tt), ((((refl, tt), (tt, tt)), tt, tt), tt))

merge_metadatas_lem_example :
    ((merge_metadatas (own ∷ shared ∷ [])).title ≡ first_title none (own ∷ shared ∷ []))
    × ((merge_metadatas (own ∷ shared ∷ [])).metas
        ≡ firsts same_meta [] (gather (λ m. m.metas) (own ∷ shared ∷ [])))
    × ((merge_metadatas (own ∷ shared ∷ [])).links
        ≡ firsts same_link [] (gather (λ m. m.links) (own ∷ shared ∷ [])))
    × ((merge_metadatas (own ∷ shared ∷ [])).scripts
        ≡ firsts same_script [] (gather (λ m. m.scripts) (own ∷ shared ∷ [])))
merge_metadatas_lem_example = merge_metadatas_lem (own ∷ shared ∷ []) pages_unrepeated

abbrev titled : Metadata String
titled = record {
  title = some "Home";
  metas = theme ∷ [];
  links = [];
  scripts = [];
  explicit_response = none;
  ignore_global_metadata = false;
}

header :
    build_header titled
    ≡ "<title>Home</title>" ∷ "<meta name=\"theme-color\" content=\"white\" media=\"light\" />" ∷ []
unfolding build_header title_tags is_truthy theme_color_meta with_optional format_items insert join
    string_eq
header = refl

abbrev steps : List (Step String)
steps = register "first" ∷ in_context "other" unregister_config ∷ register "second" ∷ []

get_config_lem_example : (get_config (run steps none)).0 ≡ or_value_error (registered none steps)
get_config_lem_example = get_config_lem steps

abbrev home : Controller
home = record {
  name = "Home";
  ssr_script = some "";
  source_map = none;
  bundled_scripts = "home.js" ∷ [];
}

abbrev home_data : RenderContext String String
home_data = record { dump = "{}"; metadata = some own }

abbrev layout : Option (Metadata String) → RenderContext String String
layout metadata = record { dump = "[]"; metadata = metadata }

same_dumps :
    dump_contexts [] ((home.name, home_data) ∷ ("Layout", layout none) ∷ [])
    ≡ dump_contexts [] ((home.name, home_data) ∷ ("Layout", layout (some shared)) ∷ [])
unfolding dump_contexts
same_dumps = refl

generate_html-ignores_global_example :
    generate_html "{}"
      (λ d. "")
      (λ script d. html "<p/>")
      home
      (render_base home_data)
      (("Layout", layout none) ∷ [])
      none
    ≡ generate_html "{}"
        (λ d. "")
        (λ script d. html "<p/>")
        home
        (render_base home_data)
        (("Layout", layout (some shared)) ∷ [])
        (some shared)
generate_html-ignores_global_example =
    generate_html-ignores_global "{}" (λ d. "") (λ script d. html "<p/>") home home_data
      (("Layout", layout none) ∷ []) (("Layout", layout (some shared)) ∷ []) none (some shared) refl
      same_dumps
