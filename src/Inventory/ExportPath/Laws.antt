-- ===== src/Inventory/ExportPath/Laws.antt =====
-- The exported path names its resource, and cache keys are different for different resources.
use accord.Base.{
  [], ◌∷◌, ◌++◌, Bytes, codes, ◌==◌, Option, some, ok, ◌≡◌, ◌≢◌, refl, arith, ◌⊎◌, inl, inr, false,
}
use accord.Strings.{slash, dot, has_suffix}
use accord.Strings.Parts.{Lacks}
use accord.Strings.Cleaning.{IsPlain}
use accord.Sync.Path.{ParsedInventoryPath, yml, parse_inventory_export_path, argo_kind_from_plural}
use accord.Sync.Path.RoundTrip.{live_path, IsPlural, parse-live_path}
use accord.Config.{default_export_path_template}
use accord.Inventory.ExportPath.{
  argo_plural_kind, ExportPathData, TemplateParser, render_export_path, export_object_cache_key,
}

-- What `text/template` does with the default template: the three fields are put in their places.
abbrev pub RendersDefault : TemplateParser → Type 0
RendersDefault parse =
    (tmpl : ExportPathData → Option Bytes) × (parse default_export_path_template ≡ some tmpl)
    × ((d : ExportPathData) → tmpl d ≡ some (live_path d.plural_kind d.namespace d.name))

-- The kinds that the controller watches.
abbrev pub IsArgoKind : Bytes → Type 0
IsArgoKind kind = (kind ≡ codes "Application") ⊎ (kind ≡ codes "ApplicationSet")

pub IsPlural-argo_plural_kind : (kind : Bytes) → IsArgoKind kind → IsPlural (argo_plural_kind kind)
unfolding argo_plural_kind ◌==◌
IsPlural-argo_plural_kind kind (inl e) = rw e (inl refl)
IsPlural-argo_plural_kind kind (inr e) = rw e (inr refl)

-- The directory of a kind stands for that kind.
pub argo_kind_from_plural-argo_plural_kind :
    (kind : Bytes) → IsArgoKind kind → argo_kind_from_plural (argo_plural_kind kind) ≡ ok kind
unfolding argo_plural_kind argo_kind_from_plural ◌==◌
argo_kind_from_plural-argo_plural_kind kind (inl e) = rw e
argo_kind_from_plural-argo_plural_kind kind (inr e) = rw e

pub render_default :
    (parse : TemplateParser) (kind ns name : Bytes)
    → RendersDefault parse
    → render_export_path parse default_export_path_template kind ns name
      ≡ ok (live_path (argo_plural_kind kind) ns name)
unfolding render_export_path
render_default parse kind ns name (tmpl, e, d) = rw (e, render_export_path, d)

-- The two operators agree on where a resource lives. With the default template, the path that the
-- inventory-controller exports a resource to is always rendered, the sync-operator manages it, and it
-- reads from it the kind, namespace and name of the resource. The namespace is a plain path element;
-- the name holds no slash, is neither empty nor ".", and does not end in ".yml".
pub parse-render_default :
    (parse : TemplateParser) (kind ns name : Bytes)
    → RendersDefault parse
    → IsArgoKind kind
    → IsPlain ns
    → Lacks slash name
    → name ≢ []
    → name ≢ dot
    → has_suffix name yml ≡ false
    → (path : Bytes) × (parsed : ParsedInventoryPath) × (render_export_path parse
          default_export_path_template kind ns name
        ≡ ok path)
      × (parse_inventory_export_path path ≡ some parsed)
      × (argo_kind_from_plural parsed.plural_kind ≡ ok kind)
      × (parsed.namespace ≡ ns)
      × (parsed.name ≡ name)
parse-render_default parse kind ns name r k n l named undotted other = (
  live_path (argo_plural_kind kind) ns name,
  record { plural_kind = argo_plural_kind kind; namespace = ns; name = name },
  render_default parse kind ns name r,
  parse-live_path (argo_plural_kind kind) ns name (IsPlural-argo_plural_kind kind k) n l named
      undotted other,
  argo_kind_from_plural-argo_plural_kind kind k,
  refl,
  refl,
)

cut_at_slash :
    (a b x y : Bytes)
    → Lacks slash a
    → Lacks slash b
    → a ++ slash ∷ x ≡ b ++ slash ∷ y
    → (a ≡ b) × (x ≡ y)
cut_at_slash [] [] x y h k e = ground arith
cut_at_slash [] (d ∷ b) x y h k e = ground arith
cut_at_slash (c ∷ a) [] x y h k e = ground arith
cut_at_slash (c ∷ a) (d ∷ b) x y h k e = ground (arith, cut_at_slash a b x y)

-- Two resources share a cache key only if they have one plural kind, one namespace and one name, where
-- plural kinds and namespaces hold no slash.
pub export_object_cache_key_injective :
    (kind kind' ns ns' name name' : Bytes)
    → Lacks slash (argo_plural_kind kind)
    → Lacks slash (argo_plural_kind kind')
    → Lacks slash ns
    → Lacks slash ns'
    → export_object_cache_key kind ns name ≡ export_object_cache_key kind' ns' name'
    → (argo_plural_kind kind ≡ argo_plural_kind kind') × (ns ≡ ns') × (name ≡ name')
unfolding export_object_cache_key
export_object_cache_key_injective kind kind' ns ns' name name' p p' n n' e =
    let (plural, rest) =
      cut_at_slash (argo_plural_kind kind) (argo_plural_kind kind') (ns ++ slash ∷ name)
        (ns' ++ slash ∷ name') p p' e in
    let (same_ns, same_name) = cut_at_slash ns ns' name name' n n' rest in
    (plural, same_ns, same_name)
