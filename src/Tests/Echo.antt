-- ===== src/Tests/Echo.antt =====
-- The guestbook is exported, applied from its file, and seen again.
use accord.Base.{[], ◌∷◌, Bytes, some, true, false, codes, ok, ◌≡◌, refl, inl, arith}
use accord.Strings.{strings}
use accord.Dict.{lookup, dicts}
use accord.Inventory.Normalize.{first_part, first_yaml_document}
use accord.Inventory.ExportPath.{cache_get, cache_set, cache_delete}
use accord.Inventory.Reconciler.{application, cache_key, GetAnswer, reconcile, matches, handle}
use accord.Inventory.Reconciler.Laws.{is_annotated, is_cached, is_skipped}
use accord.Git.Queue.{enqueue, enqueue_archive}
use accord.Git.ArchivePath.{archive_relative_path}
use accord.Sync.Fetch.{fetch_github_raw_file, check_response, take}
use accord.Sync.Webhook.{
  WebhookHandler, applied, no_detail, ignored, not_managed, result, apply_path, process_push,
}
use accord.Sync.Apply.{with_hash}
use accord.Echo.Deleted.{answered, resource, deletion_returns}
use accord.Echo.Loop.{IsReadable, Describes, loop_closes}
use accord.Tests.Cluster.{
  first_entries, guestbook, handler, protected, manifests, manifests-IsLawful,
}
use accord.Tests.Renames.{keeper, with_guestbook}
use accord.Tests.Events.{
  spec_codec, version, synced, deps, key, path, rendered, idle, v1, v1_normal, v1-map, v1-ReadsBack,
}

-- Every file of the repository is the one that was exported, and the server takes every object.
abbrev receiver : WebhookHandler
receiver = record handler {
  http_client = record {
    is_url = λ u. true;
    send = λ r. some (record { status_code = 200; body = some (codes "v1") });
  };
  codec = spec_codec;
}

v1-fetched :
    fetch_github_raw_file receiver.http_client [] (codes "team/config") (codes "abc") path
    ≡ ok (codes "v1")
unfolding fetch_github_raw_file check_response take strings
v1-fetched = refl

v1-Describes : Describes manifests spec_codec key application (codes "v1") guestbook
unfolding first_yaml_document first_part strings
v1-Describes = record {
  json = codes "v1";
  converted = refl;
  decoded = refl;
  api_version = refl;
  kind_same = refl;
  namespace = refl;
  name = refl;
}

key-IsReadable : IsReadable key
unfolding strings
key-IsReadable = record {
  namespace_plain = ground arith;
  name_plain = ground arith;
  named = ground arith;
  undotted = ground arith;
  other_ending = refl;
}

v1-new : is_skipped deps key application (version (codes "v1")) (codes "7631") idle ≡ false
unfolding is_skipped is_annotated is_cached cache_get matches lookup
v1-new = refl

loop_closes_example :
    (handle deps key application (version (codes "v1")) idle ≡ (
      ok tt,
      record {
        cache = cache_set (cache_key deps key application) (codes "7631") idle.cache;
        git_queue = enqueue (record { path = path; content = codes "v1" }) idle.git_queue;
      },
    ))
    × (apply_path manifests protected receiver (codes "team/config") (codes "abc") path [] ≡ (
      result path applied no_detail,
      (protected.patch [] (with_hash manifests (codes "7631") guestbook)).0,
    ))
    × (handle deps key application (synced (codes "v1") (codes "7631")) idle ≡ (ok tt, idle))
unfolding with_hash first_entries dicts
loop_closes_example =
    loop_closes deps key application manifests protected receiver manifests-IsLawful
      (version (codes "v1")) (synced (codes "v1") (codes "7631")) v1_normal (codes "v1")
      (codes "7631") path (codes "team/config") (codes "abc") guestbook idle idle []
      (_, refl, λ d. refl) refl (inl refl) key-IsReadable rendered v1-map v1-ReadsBack v1 v1-new
      refl v1-fetched v1-Describes refl v1-map refl

-- The guestbook was created again before the push that archives its file.
deletion_returns_example :
    (reconcile deps key application GetAnswer.not_found idle ≡ (
      ok tt,
      record {
        cache = cache_delete (cache_key deps key application) idle.cache;
        git_queue = enqueue_archive path idle.git_queue;
      },
    ))
    × ((to : Bytes) × (archive_relative_path path ≡ ok to)
        × (process_push manifests keeper receiver
              (record {
                full_name = codes "team/config";
                head_sha = codes "abc";
                added_modified = to ∷ [];
                removed = path ∷ [];
              })
              with_guestbook
            ≡ (
              result to ignored not_managed
                  ∷ answered path (keeper.delete with_guestbook (resource deps key application)).1
                  ∷ [],
              (keeper.delete with_guestbook (resource deps key application)).0,
            )))
deletion_returns_example =
    deletion_returns deps key application manifests keeper receiver (codes "team/config")
      (codes "abc") path idle with_guestbook (_, refl, λ d. refl) refl (inl refl) key-IsReadable
      rendered
