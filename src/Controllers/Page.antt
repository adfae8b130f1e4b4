-- ===== src/Controllers/Page.antt =====
-- mountaineer/controller.py: `_generate_html` and `_generate_ssr_html`. `render_ssr` is native
-- code, the script is read from a file, and pydantic and `json` write the data of the page.
use mountaineer.Base.{
  ◌≡◌, refl, ap, ◌∙◌, Bool, true, false, Option, none, some, List, [], ◌∷◌, ◌++◌, map, String, ◌<>◌,
  if◌then◌else◌, string_eq, nat_eq, option_eq, bool_eq,
}
use mountaineer.Base.Dict.{Dict, insert}
use mountaineer.Base.Strings.{join}
use mountaineer.Controllers.{Metadata, merge_metadatas}
use mountaineer.Controllers.Header.{build_header}

pub record Controller : Type 0 where
  pub name : String
  -- the text of the script, where there is one
  pub ssr_script : Option String
  -- `map_exception` of the parsed source map
  pub source_map : Option (String → String)
  pub bundled_scripts : List String

pub data SsrResult : Type 0 where
  html : String → SsrResult
  v8_error : String → SsrResult
  timed_out : SsrResult

pub data Page (Response : Type 0) : Type 0 where
  html_response : String → Page Response
  explicit : Response → Page Response
  not_render_base : Page Response
  no_ssr_path : Page Response
  v8_runtime_error : String → Page Response
  timeout_error : Page Response

pub record RenderContext (Response J : Type 0) : Type 0 where
  pub dump : J
  pub metadata : Option (Metadata Response)

-- what `render` returns
pub data Rendered (Response J : Type 0) : Type 0 where
  nothing : Rendered Response J
  render_base : RenderContext Response J → Rendered Response J
  other : Rendered Response J

abbrev script_tags : List String → String
script_tags names = join "\n" (map (λ n. "<script src='/static/" <> (n <> "'></script>")) names)

abbrev page_contents : String → String → String → String → String
page_contents header_str ssr_html server_data_json optional_scripts =
    "\n        <html>\n        <head>\n        "
    <> (header_str
        <> ("\n        </head>\n        <body>\n        <div id=\"root\">"
            <> (ssr_html
                <> ("</div>\n        <script type=\"text/javascript\">\n        const SERVER_DATA = "
                    <> (server_data_json
                        <> (";\n        </script>\n        "
                            <> (optional_scripts
                                <> "\n        </body>\n        </html>\n        ")))))))

module _ {Response : Type 0} where
  abbrev or_nil : Option (Metadata Response) → List (Metadata Response)
  or_nil none = []
  or_nil (some m) = m ∷ []

  abbrev pub ignores_global : Option (Metadata Response) → Bool
  ignores_global none = false
  ignores_global (some m) = m.ignore_global_metadata

  abbrev explicit_response : Option (Metadata Response) → Option Response
  explicit_response none = none
  explicit_response (some m) = m.explicit_response

  abbrev raise_v8 : Option (String → String) → String → Page Response
  raise_v8 none message = v8_runtime_error message
  raise_v8 (some map_exception) message = v8_runtime_error (map_exception message)

module _ {Response J : Type 0} where
  -- The metadata of the contexts that have some
  unfoldable pub context_metadatas :
      Dict String (RenderContext Response J) → List (Metadata Response)
  context_metadatas [] = []
  context_metadatas ((key, context) ∷ contexts) =
      or_nil context.metadata ++ context_metadatas contexts

  -- `metadatas`
  unfoldable pub page_metadatas :
      Option (Metadata Response)
      → Dict String (RenderContext Response J)
      → Option (Metadata Response)
      → List (Metadata Response)
  page_metadatas own other_render_contexts global_metadata =
      or_nil own
      ++ (if ignores_global own then [] else context_metadatas other_render_contexts)
      ++ (if ignores_global own then [] else or_nil global_metadata)

  page_metadatas-ignored :
      (own : Option (Metadata Response)) (others others' : Dict String (RenderContext Response J))
      (g g' : Option (Metadata Response))
      → ignores_global own ≡ true
      → page_metadatas own others g ≡ page_metadatas own others' g'
  unfolding page_metadatas
  page_metadatas-ignored own others others' g g' ignores = rw ignores refl

  -- `server_data_json`, over what stands in the dict already
  unfoldable pub dump_contexts :
      Dict String J → Dict String (RenderContext Response J) → Dict String J
  dump_contexts server_data_json [] = server_data_json
  dump_contexts server_data_json ((key, context) ∷ contexts) =
      dump_contexts (insert key context.dump server_data_json) contexts

  module _ (render_null : J) (json_dumps : Dict String J → String)
      (render_ssr : String → Dict String J → SsrResult) where
    abbrev finish_page : Controller → Metadata Response → Dict String J → SsrResult → Page Response
    finish_page c metadata server_data_json (v8_error message) = raise_v8 c.source_map message
    finish_page c metadata server_data_json timed_out = timeout_error
    finish_page c metadata server_data_json (html ssr_html) = html_response (
        page_contents (join "\n" (build_header metadata)) ssr_html (json_dumps server_data_json)
          (script_tags c.bundled_scripts))

    -- `_generate_ssr_html`, and what follows it
    abbrev generate_ssr_html :
        Controller → Option String → Metadata Response → Dict String J → Page Response
    generate_ssr_html c none metadata server_data_json = no_ssr_path
    generate_ssr_html c (some script) metadata server_data_json =
        finish_page c metadata server_data_json (render_ssr script server_data_json)

    abbrev respond :
        Controller → Option Response → List (Metadata Response) → Dict String J → Page Response
    respond c (some response) metadatas server_data_json = explicit response
    respond c none metadatas server_data_json =
        generate_ssr_html c c.ssr_script (merge_metadatas metadatas) server_data_json

    abbrev generate_from :
        Controller
        → RenderContext Response J
        → Dict String (RenderContext Response J)
        → Option (Metadata Response)
        → Page Response
    generate_from c server_data others global_metadata =
        respond c (explicit_response server_data.metadata)
          (page_metadatas server_data.metadata others global_metadata)
          (dump_contexts [] ((c.name, server_data) ∷ others))

    unfoldable pub generate_html :
        Controller
        → Rendered Response J
        → Dict String (RenderContext Response J)
        → Option (Metadata Response)
        → Page Response
    generate_html c nothing others global_metadata =
        generate_from c (record { dump = render_null; metadata = none }) others global_metadata
    generate_html c (render_base server_data) others global_metadata =
        generate_from c server_data others global_metadata
    generate_html c other others global_metadata = not_render_base

    -- A page whose metadata ignores the global metadata comes out the same whatever the global
    -- metadata and the metadata of the other contexts are.
    pub generate_html-ignores_global :
        (c : Controller) (server_data : RenderContext Response J)
        (others others' : Dict String (RenderContext Response J))
        (global_metadata global_metadata' : Option (Metadata Response))
        → ignores_global server_data.metadata ≡ true
        → dump_contexts [] ((c.name, server_data) ∷ others)
          ≡ dump_contexts [] ((c.name, server_data) ∷ others')
        → generate_html c (render_base server_data) others global_metadata
          ≡ generate_html c (render_base server_data) others' global_metadata'
    unfolding generate_html
    generate_html-ignores_global c server_data others others' g g' ignores dumps =
        let metadatas = page_metadatas-ignored server_data.metadata others others' g g' ignores in
        ap
          (λ ms.
            respond c (explicit_response server_data.metadata) ms
              (dump_contexts [] ((c.name, server_data) ∷ others)))
          metadatas
        ∙ ap
            (respond c (explicit_response server_data.metadata)
              (page_metadatas server_data.metadata others' g'))
            dumps
