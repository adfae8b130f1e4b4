-- ===== src/Controllers.antt =====
-- mountaineer/render.py and mountaineer/controller.py: the metadata of a page. A dict compares
-- without the order of its keys. A float is the text that `str` gives for it.
pub mod Header
pub mod Unique
pub mod Page
use mountaineer.Base.{
  ℕ, zero, suc, ◌+◌, ◌-◌, ◌*◌, ◌≤◌, ◌<◌, ltb, leb, ltb→lt, leb→le, lt→ltb, arith, ◌≡◌, ◌≢◌, ◌↔◌,
  ◌⊎◌, inl, inr, refl, sym, ap, subst, ◌∙◌, ◌≡⟨◌⟩◌, ◌∎, ite, dite, if_pos, if_neg, Bool, true,
  false, not, ◌&&◌, ◌||◌, false≢true, Option, none, some, List, [], ◌∷◌, ◌++◌, map, String, ◌<>◌,
  Eq, ◌==◌, ==-true, ==-false, contains, if◌then◌else◌, string_eq, nat_eq, option_eq, bool_eq,
  Bool-cases, Option-cases, length, drop, get_elem?, index_from, CutAt, index_from-CutAt, all, All,
  All-append, All-suffix, all-append, length-append,
}
use mountaineer.Base.Dict.{
  Dict, keys, values, lookup, insert, erase, NodupKeys, lookup-insert, lookup-erase,
  insert-NodupKeys, erase-NodupKeys, lookup-insert_cases, lookup-insert_known, lookup-insert_self,
}

-- The fields that a subclass of `MetaAttribute` adds
pub data MetaClass : Type 0 where
  meta_attribute : MetaClass
  theme_color : (color : String) (media : Option String) → MetaClass
  viewport : (width initial_scale maximum_scale : String) (user_scalable : Bool) → MetaClass

pub record MetaAttribute : Type 0 where
  pub meta_class : MetaClass
  pub name : Option String
  pub content : Option String
  pub optional_attributes : Dict String String

pub record LinkAttribute : Type 0 where
  pub rel : String
  pub href : String
  pub optional_attributes : Dict String String

pub record ScriptAttribute : Type 0 where
  pub src : String
  pub asynchronous : Bool
  pub defer : Bool
  pub optional_attributes : Dict String String

pub record Metadata (Response : Type 0) : Type 0 where
  pub title : Option String
  pub metas : List MetaAttribute
  pub links : List LinkAttribute
  pub scripts : List ScriptAttribute
  pub explicit_response : Option Response
  pub ignore_global_metadata : Bool

-- `bool(s)` of an optional string
unfoldable pub is_truthy : Option String → Bool
is_truthy none = false
is_truthy (some s) = not (s == "")

abbrev media_attributes : Option String → Dict String String → Dict String String
media_attributes none otherwise = otherwise
media_attributes (some media) otherwise = if media == "" then otherwise else ("media", media) ∷ []

-- `ThemeColorMeta.create_attribute`
unfoldable pub theme_color_meta : String → Option String → Dict String String → MetaAttribute
theme_color_meta color media optional_attributes = record {
  meta_class = theme_color color media;
  name = some "theme-color";
  content = some color;
  optional_attributes = media_attributes media optional_attributes;
}

abbrev yes_or_no : Bool → String
yes_or_no true = "yes"
yes_or_no false = "no"

-- `ViewportMeta.create_attribute`
unfoldable pub viewport_meta : String → String → String → Bool → Dict String String → MetaAttribute
viewport_meta width initial_scale maximum_scale user_scalable optional_attributes = record {
  meta_class = viewport width initial_scale maximum_scale user_scalable;
  name = some "viewport";
  content = some (
      "width="
      <> (width
          <> (", initial-scale="
              <> (initial_scale
                  <> (", maximum-scale="
                      <> (maximum_scale <> (", user-scalable=" <> yes_or_no user_scalable)))))));
  optional_attributes = optional_attributes;
}

abbrev same_attributes : Dict String String → Dict String String → Bool
same_attributes d e = all (λ (k, v). lookup k e == some v) d && length d == length e

abbrev same_meta_class : MetaClass → MetaClass → Bool
same_meta_class meta_attribute meta_attribute = true
same_meta_class (theme_color c m) (theme_color d n) = c == d && m == n
same_meta_class (viewport w i x s) (viewport v j y t) = w == v && i == j && x == y && s == t
same_meta_class _ _ = false

-- `__eq__` of the attributes, which the sets decide by
abbrev pub same_meta : MetaAttribute → MetaAttribute → Bool
same_meta a b =
    same_meta_class a.meta_class b.meta_class
    && a.name == b.name
    && a.content == b.content
    && same_attributes a.optional_attributes b.optional_attributes

abbrev pub same_link : LinkAttribute → LinkAttribute → Bool
same_link a b =
    a.rel == b.rel
    && a.href == b.href
    && same_attributes a.optional_attributes b.optional_attributes

abbrev pub same_script : ScriptAttribute → ScriptAttribute → Bool
same_script a b =
    a.src == b.src
    && a.asynchronous == b.asynchronous
    && a.defer == b.defer
    && same_attributes a.optional_attributes b.optional_attributes

-- `x in xs`
unfoldable pub any {ℓ} : {A : Type ℓ} → (A → Bool) → List A → Bool
any p [] = false
any p (x ∷ xs) = p x || any p xs

-- `[element for element in elements if element not in seen]`
unfoldable pub unseen : {A : Type 0} → (A → A → Bool) → List A → List A → List A
unseen same seen [] = []
unseen same seen (x ∷ xs) =
    let rest = unseen same seen xs in if any (same x) seen then rest else x ∷ rest

-- `a or b`
abbrev pub or_else : Option String → Option String → Option String
or_else a b = if is_truthy a then a else b

module _ {Response : Type 0} where
  abbrev pub empty_metadata : Metadata Response
  empty_metadata = record {
    title = none;
    metas = [];
    links = [];
    scripts = [];
    explicit_response = none;
    ignore_global_metadata = false;
  }

  -- The loop of `_merge_metadatas`, over what has been merged and the three sets
  unfoldable pub merge_rest :
      Metadata Response
      → List MetaAttribute
      → List LinkAttribute
      → List ScriptAttribute
      → List (Metadata Response)
      → Metadata Response
  merge_rest final metas links scripts [] = final
  merge_rest final metas links scripts (m ∷ metadatas) =
      merge_rest
        (record {
          title = or_else final.title m.title;
          metas = final.metas ++ unseen same_meta metas m.metas;
          links = final.links ++ unseen same_link links m.links;
          scripts = final.scripts ++ unseen same_script scripts m.scripts;
          explicit_response = final.explicit_response;
          ignore_global_metadata = final.ignore_global_metadata;
        })
        (metas ++ m.metas) (links ++ m.links) (scripts ++ m.scripts) metadatas

  abbrev pub merge_metadatas : List (Metadata Response) → Metadata Response
  merge_metadatas = merge_rest empty_metadata [] [] []
