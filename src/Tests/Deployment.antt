-- ===== src/Tests/Deployment.antt =====
-- The handler with the concrete cluster.
use accord.Base.{
  [], ◌∷◌, List, some, true, Bytes, codes, ◌==◌, if◌then◌else◌, contains, ok, ◌≡◌, ◌↔◌, ◌⊎◌, refl,
  arith,
}
use accord.Strings.{strings}
use accord.Collections.Sorting.{contains-add}
use accord.Dict.{lookup, dicts}
use accord.Hex.{hex_digit, encode_hex}
use accord.Json.{get, delete}
use accord.Inventory.Normalize.{
  first_yaml_document, material_hash_from_normalized_yaml, normalize_kubernetes_object,
  normalize_fields, sync_content_hash_annotation_key,
}
use accord.Sync.Path.{
  parse_inventory_export_path, three_parts, check_parts, file_stem, argo_kind_from_plural,
}
use accord.Sync.GitHub.{PushPaths}
use accord.Sync.Fetch.Laws.{IsFetched, fetch_iff}
use accord.Sync.Fetch.{raw_url, bearer, fetch_github_raw_file}
use accord.Sync.Apply.{validate_names, validate_path_manifest_identity, with_hash, prepare}
use accord.Sync.Apply.Laws.{IsPermitted, prepare-IsPermitted}
use accord.Sync.Webhook.{Rejection, rejected, process_push, answer, serve_http}
use accord.Sync.Webhook.Access.{IsAccepted, serve_cases}
use accord.Sync.Webhook.Effects.{KeptByPatches, KeptByDeletions, serve-keeps}
use accord.Tests.Cluster.{
  Manifest, first_entries, guestbook, manifests, manifests-IsLawful, protected, constant_codec,
  file, handler, request, resource,
}

pub file-parsed : parse_inventory_export_path file ≡ some resource
unfolding strings parse_inventory_export_path three_parts check_parts file_stem
file-parsed = refl

abbrev pub sent : Manifest
sent = record guestbook { stored = (sync_content_hash_annotation_key, codes "7b7d") ∷ [] }

pub file-prepared : prepare manifests constant_codec resource (codes "kind: Application") ≡ ok sent
unfolding prepare material_hash_from_normalized_yaml first_yaml_document normalize_kubernetes_object
    normalize_fields delete get encode_hex hex_digit validate_path_manifest_identity validate_names
    argo_kind_from_plural with_hash first_entries strings dicts
file-prepared = refl

prepare-IsPermitted_example :
    IsPermitted manifests resource sent
    × ((hash json : Bytes) × (manifest : Manifest) × (material_hash_from_normalized_yaml
            constant_codec
            (codes "kind: Application")
          ≡ ok hash)
        × (constant_codec.yaml_to_json (first_yaml_document (codes "kind: Application"))
            ≡ some json)
        × (manifests.unmarshal_json json ≡ some manifest)
        × ((k : Bytes)
            → lookup k (manifests.annotations sent) ≡ (
                if sync_content_hash_annotation_key == k
                then some hash
                else lookup k (manifests.annotations manifest))))
prepare-IsPermitted_example =
    prepare-IsPermitted manifests manifests-IsLawful constant_codec resource
      (codes "kind: Application") sent file-prepared

serve_cases_example :
    ((e : Rejection) × (serve_http manifests protected handler request [] ≡ (rejected e, [])))
    ⊎ ((paths : PushPaths) × IsAccepted handler request paths
        × (serve_http manifests protected handler request []
            ≡ answer manifests protected handler
                (process_push manifests protected handler paths [])))
serve_cases_example = serve_cases manifests protected handler request []

-- The application shop is in the cluster.
abbrev pub HasShop : List Bytes → Type 0
HasShop s = contains s (codes "shop") ≡ true

pub shop-patched : (paths : PushPaths) → KeptByPatches manifests protected handler HasShop paths
unfolding KeptByPatches
shop-patched paths p raw parsed o s listed managed fetched good x =
    ground (arith, contains-add o.name (codes "shop") s)

pub shop-not_deleted :
    (paths : PushPaths) → KeptByDeletions manifests protected handler HasShop paths
unfolding KeptByDeletions
shop-not_deleted paths p kind parsed s listed managed known x = x

pub shop-there : HasShop (codes "shop" ∷ [])
unfolding dicts
shop-there = refl

serve-keeps_example : HasShop (serve_http manifests protected handler request (codes "shop" ∷ [])).1
serve-keeps_example =
    serve-keeps manifests protected handler HasShop request (codes "shop" ∷ [])
      (λ paths a. shop-patched paths) (λ paths a. shop-not_deleted paths) shop-there

fetch_iff_example :
    (fetch_github_raw_file handler.http_client [] (codes "team/config") (codes "abc") file
      ≡ ok (codes "kind: Application"))
    ↔ ((handler.http_client.is_url (raw_url (codes "team/config") (codes "abc") file) ≡ true)
        × IsFetched
            (handler.http_client.send (record {
              url = raw_url (codes "team/config") (codes "abc") file;
              authorization = bearer [];
            }))
            (codes "kind: Application"))
fetch_iff_example =
    fetch_iff handler.http_client [] (codes "team/config") (codes "abc") file
      (codes "kind: Application")
