-- ===== src/Tests/Paths.antt =====
-- The Application guestbook in the namespace argocd, and the paths of its files.
use accord.Base.{true, ◌⊎◌, ◌++◌, some, Bytes, codes, ok, ◌≡◌, ◌≢◌, refl, inl, arith, false, ◌==◌}
use accord.Strings.{slash, has_suffix, strings}
use accord.Strings.Parts.{Lacks}
use accord.Strings.Cleaning.{IsPlain}
use accord.Config.{default_export_path_template}
use accord.Sync.Path.{
  ParsedInventoryPath, yml, applications, parse_inventory_export_path, argo_kind_from_plural,
  three_parts, check_parts, file_stem,
}
use accord.Sync.Path.RoundTrip.{live_path, parse-live_path-yml}
use accord.Sync.Path.Soundness.{IsManaged, parse_sound}
use accord.Inventory.ExportPath.{argo_plural_kind, TemplateParser, render_export_path}
use accord.Inventory.ExportPath.Laws.{parse-render_default}
use accord.Git.ArchivePath.{archive_relative_path}

abbrev pub argocd : Bytes
argocd = codes "argocd"

abbrev pub guestbook : Bytes
guestbook = codes "guestbook"

abbrev guestbook_resource : ParsedInventoryPath
guestbook_resource = record { plural_kind = applications; namespace = argocd; name = guestbook }

abbrev guestbook_yaml : Bytes
guestbook_yaml = codes "/inventory/applications/x/../argocd/guestbook.yaml"

abbrev archived : Bytes
archived = codes "inventory/archive/applications/argocd/guestbook.yaml"

abbrev pub default_parser : TemplateParser
default_parser text = some (λ d. some (live_path d.plural_kind d.namespace d.name))

pub argocd-IsPlain : IsPlain argocd
argocd-IsPlain = ground arith

pub guestbook-Lacks : Lacks slash guestbook
guestbook-Lacks = ground arith

pub guestbook-no_yml : has_suffix guestbook yml ≡ false
unfolding strings
guestbook-no_yml = refl

guestbook_yaml-parsed : parse_inventory_export_path guestbook_yaml ≡ some guestbook_resource
unfolding strings parse_inventory_export_path three_parts check_parts file_stem
guestbook_yaml-parsed = refl

guestbook-archived : archive_relative_path (live_path applications argocd guestbook) ≡ ok archived
unfolding strings archive_relative_path live_path
guestbook-archived = refl

applications-Lacks : Lacks slash (argo_plural_kind (codes "Application"))
unfolding argo_plural_kind ◌==◌
applications-Lacks = ground arith

parse-live_path-yml_example :
    (guestbook ++ yml ≢ guestbook)
    × (parse_inventory_export_path (live_path applications argocd (guestbook ++ yml))
        ≡ some guestbook_resource)
    × ((has_suffix guestbook yml ≡ true)
        ⊎ (parse_inventory_export_path (live_path applications argocd guestbook)
            ≡ parse_inventory_export_path (live_path applications argocd (guestbook ++ yml))))
parse-live_path-yml_example =
    parse-live_path-yml applications argocd guestbook (inl refl) argocd-IsPlain guestbook-Lacks
      (ground arith) (ground arith)

parse_sound_example : IsManaged guestbook_yaml guestbook_resource
parse_sound_example = parse_sound guestbook_yaml guestbook_yaml-parsed

parse-render_default_example :
    (path : Bytes) × (parsed : ParsedInventoryPath) × (render_export_path default_parser
        default_export_path_template
        (codes "Application")
        argocd
        guestbook
      ≡ ok path)
    × (parse_inventory_export_path path ≡ some parsed)
    × (argo_kind_from_plural parsed.plural_kind ≡ ok (codes "Application"))
    × (parsed.namespace ≡ argocd)
    × (parsed.name ≡ guestbook)
parse-render_default_example =
    parse-render_default default_parser (codes "Application") argocd guestbook (_, refl, λ d. refl)
      (inl refl) argocd-IsPlain guestbook-Lacks (ground arith) (ground arith) guestbook-no_yml
