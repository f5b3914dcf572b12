-- ===== src/Inventory/ExportPath.antt =====
-- internal/inventory/export_path.go and hashcache.go: the path of an export, and the cache of the last
-- hash of each object. `text/template` is a parameter: a text that parses gives a function of the data.
pub mod Laws
use accord.Base.{
  [], ◌∷◌, ◌++◌, Bytes, codes, ◌==◌, Option, none, some, if◌then◌else◌, Outcome, ok, err,
}
use accord.Strings.{to_lower, slash}
use accord.Dict.{Dict, lookup, insert, erase}

-- The reconcilers pass the two kinds only; `to_lower` is that of ASCII, in which every kind is written.
unfoldable pub argo_plural_kind : Bytes → Bytes
argo_plural_kind kind =
    if kind == codes "Application"
    then codes "applications"
    else if kind == codes "ApplicationSet"
    then codes "applicationsets"
    else to_lower kind ++ codes "s"

pub record ExportPathData : Type 0 where
  pub plural_kind : Bytes
  pub namespace : Bytes
  pub name : Bytes

pub data RenderError : Type 0 where
  parse_template_failed execute_template_failed : RenderError

-- `template.New(…).Parse`, and `Execute` of what it gives.
abbrev pub TemplateParser : Type 0
TemplateParser = Bytes → Option (ExportPathData → Option Bytes)

abbrev pub execute : Option Bytes → Outcome RenderError Bytes
execute none = err execute_template_failed
execute (some path) = ok path

unfoldable pub render_export_path :
    TemplateParser → Bytes → Bytes → Bytes → Bytes → Outcome RenderError Bytes
render_export_path parse tmpl_str kind namespace name = elim (parse tmpl_str) [
  | none ↦ err parse_template_failed
  | some tmpl ↦
      execute
        (tmpl (record { plural_kind = argo_plural_kind kind; namespace = namespace; name = name }))
]

abbrev pub HashCache : Type 0
HashCache = Dict Bytes

abbrev pub new_hash_cache : HashCache
new_hash_cache = []

unfoldable pub cache_get : Bytes → HashCache → Option Bytes
cache_get key c = lookup key c

unfoldable pub cache_set : Bytes → Bytes → HashCache → HashCache
cache_set key hash c = insert key hash c

unfoldable pub cache_delete : Bytes → HashCache → HashCache
cache_delete key c = erase key c

unfoldable pub export_object_cache_key : Bytes → Bytes → Bytes → Bytes
export_object_cache_key kind namespace name =
    argo_plural_kind kind ++ slash ∷ (namespace ++ slash ∷ name)
