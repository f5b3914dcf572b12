-- ===== src/Tests/Controller.antt =====
-- The guestbook is applied, the shop is deleted, and a tick of the worker exports both.
use accord.Base.{some, true, false, ok, refl, [], ◌∷◌, Bytes, codes, contains, All, ◌≡◌, inl, arith}
use accord.Strings.{strings}
use accord.Strings.Cleaning.{IsPlain}
use accord.Strings.Rooted.{directory}
use accord.Dict.{Dict, lookup, dicts}
use accord.Hex.{hex_digit, encode_hex}
use accord.Json.{get, delete}
use accord.Sync.Path.{applications}
use accord.Sync.Path.RoundTrip.{live_path}
use accord.Inventory.Normalize.{
  normalize_fields, normalize_kubernetes_object, normalized_map_from_runtime_object,
  normalized_yaml_and_material_hash,
}
use accord.Inventory.ExportPath.{
  render_export_path, cache_get, cache_set, cache_delete, argo_plural_kind, export_object_cache_key,
}
use accord.Inventory.Reconciler.{
  ObjectKey, found, not_found, matches, application, cache_key, export_path, handle_hash, handle,
  reconcile,
}
use accord.Git.ArchivePath.{archive_relative_path}
use accord.Git.Queue.{
  PendingExport, write, archive, published, enqueue, enqueue_archive, flush_start,
}
use accord.Git.Export.{
  clone_options, join_path, flush_batch, export_batch, in_clone, publish, commit_and_push,
  export_ops, export_op, archive_inventory_file_in_clone, move_file,
}
use accord.Git.Export.Pushed.{IsPushed}
use accord.Git.Export.Files.{touched_by, Holds}
use accord.Git.Worker.{tick}
use accord.InventoryProcess.{
  IsResourceKey, InventoryProcess, begin, after_event, event, background, Run, fresh, later,
}
use accord.InventoryProcess.Published.{published-Holds}
use accord.InventoryProcess.Resurrected.{published-resurrected}
use accord.Tests.Commits.{config}
use accord.Tests.Events.{key, deps, version, marshal_spec}
use accord.Tests.Files.{disk, disk-IsFileSystem}

-- What an event and a tick run through.
unfoldable reconcilers : Unit {0}
unfolding normalized_yaml_and_material_hash normalized_map_from_runtime_object
    normalize_kubernetes_object normalize_fields delete get marshal_spec encode_hex hex_digit dicts
    reconcile handle handle_hash export_path render_export_path argo_plural_kind cache_key
    export_object_cache_key cache_get cache_set cache_delete matches enqueue enqueue_archive
    flush_start strings live_path
reconcilers = tt

abbrev shop_key : ObjectKey
shop_key = record { namespace = codes "argocd"; name = codes "shop" }

abbrev two_events : InventoryProcess disk config deps
two_events = after_event disk config deps application shop_key not_found (
    after_event disk config deps application key (found (version (codes "v1")))
      (begin disk config deps []))

abbrev ticked : InventoryProcess disk config deps
ticked = record two_events {
  git = record two_events.git { worker = flush_start two_events.git.worker };
}

abbrev exported : Dict PendingExport
exported =
    (live_path applications (codes "argocd") (codes "guestbook"), write (codes "v1"))
    ∷ (live_path applications (codes "argocd") (codes "shop"), archive)
    ∷ []

abbrev temporary : Bytes
temporary = directory (codes "tmp" ∷ codes "clone" ∷ [])

run : Run disk config deps [] ticked
unfolding reconcilers
run =
    later
      (later
        (later fresh
          (event application key (found (version (codes "v1"))) (inl refl) key_plain refl))
        (event application shop_key not_found (inl refl) shop_plain refl))
      (background (tick refl refl refl) refl refl)
  where
    key_plain : IsResourceKey key
    key_plain = record { namespace_plain = ground arith; name_plain = ground arith }

    shop_plain : IsResourceKey shop_key
    shop_plain = record { namespace_plain = ground arith; name_plain = ground arith }

in_flight : ticked.git.worker.in_flight ≡ some exported
unfolding reconcilers
in_flight = refl

made : (disk.mkdir_temp ticked.git.host).1 ≡ some temporary
unfolding strings
made = refl

temporary-IsPlain : All IsPlain (codes "tmp" ∷ codes "clone" ∷ [])
temporary-IsPlain = (ground arith, (ground arith, tt))

all_out : (flush_batch disk config exported ticked.git.host).1 ≡ published
unfolding flush_batch export_batch in_clone publish commit_and_push export_ops export_op
    archive_inventory_file_in_clone move_file archive_relative_path join_path live_path dicts
    strings
all_out = refl

published-Holds_example :
    (cloned filled : Dict Bytes) × (disk.clone
        (disk.mkdir_temp ticked.git.host).0
        (clone_options config)
        temporary
      ≡ (cloned, true))
    × All (Holds temporary (λ p. lookup p cloned) (λ p. lookup p filled)) exported
    × ((q : Bytes)
        → contains (touched_by temporary exported) q ≡ false
        → lookup q filled ≡ lookup q cloned)
    × IsPushed disk config exported temporary filled
        (flush_batch disk config exported ticked.git.host).0
published-Holds_example =
    published-Holds disk config disk-IsFileSystem deps [] ticked exported (codes "tmp")
      (codes "clone" ∷ []) (_, refl, λ d. refl) refl run in_flight made temporary-IsPlain all_out

written :
    lookup (live_path applications (codes "argocd") (codes "guestbook")) exported
    ≡ some (write (codes "v1"))
unfolding dicts live_path strings
written = refl

published-resurrected_example :
    (cloned filled : Dict Bytes) × (disk.clone
        (disk.mkdir_temp ticked.git.host).0
        (clone_options config)
        temporary
      ≡ (cloned, true))
    × (lookup
          (join_path temporary (live_path applications (codes "argocd") (codes "guestbook")))
          filled
        ≡ some (codes "v1"))
    × ((to : Bytes) × (archive_relative_path
            (live_path applications (codes "argocd") (codes "guestbook"))
          ≡ ok to)
        × (lookup (join_path temporary to) filled ≡ lookup (join_path temporary to) cloned))
    × IsPushed disk config exported temporary filled
        (flush_batch disk config exported ticked.git.host).0
published-resurrected_example =
    published-resurrected disk config disk-IsFileSystem deps [] ticked exported (codes "tmp")
      (codes "clone" ∷ []) (live_path applications (codes "argocd") (codes "guestbook"))
      (codes "v1") (_, refl, λ d. refl) refl run in_flight made temporary-IsPlain all_out written
