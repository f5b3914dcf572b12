-- ===== src/Sync/Webhook/Renamed.antt =====
-- A push that renames the file of a resource, of which both endings name the same one.
use accord.Base.{[], ◌∷◌, none, some, Bytes, ok, ◌≡◌, refl, sym, ap, ◌∙◌, ok-injective, arith}
use accord.Sync.Path.{ParsedInventoryPath, parse_inventory_export_path}
use accord.Sync.Fetch.{fetch_github_raw_file}
use accord.Sync.Apply.{Objects, Cluster, accepted, prepare, send_patch, apply_inventory_yaml}
use accord.Sync.Apply.Laws.{IsLawful, prepare-IsPermitted}
use accord.Sync.Webhook.{
  WebhookHandler, applied, deleted, no_detail, result, apply_result, apply_managed, apply_path,
  delete_target, delete_result, delete_path, apply_paths, delete_paths, process_push,
}
use accord.Sync.Webhook.Results.{delete_path_managed}
use accord.Sync.Webhook.Told.{target_of}

module _ (O : Objects) (K : Cluster O) (h : WebhookHandler) (L : IsLawful O) where
  module _ (full_name sha p raw : Bytes) (parsed : ParsedInventoryPath) (sent : O.Object)
      (s : K.State) (first : parse_inventory_export_path p ≡ some parsed)
      (fetched : fetch_github_raw_file h.http_client h.github_token full_name sha p ≡ ok raw)
      (good : prepare O h.codec parsed raw ≡ ok sent) (taken : (K.patch s sent).1 ≡ none) where
    sent_first : apply_inventory_yaml O h.codec K parsed raw s ≡ ((K.patch s sent).0, none)
    unfolding apply_inventory_yaml send_patch
    sent_first =
        let prepared : apply_inventory_yaml O h.codec K parsed raw s
            ≡ send_patch O h.codec K s sent =
          rw (good, apply_inventory_yaml) refl in
        prepared ∙ rw (taken, send_patch) refl

    pub apply_path-taken :
        apply_path O K h full_name sha p s ≡ (result p applied no_detail, (K.patch s sent).0)
    unfolding apply_path apply_managed apply_result
    apply_path-taken =
        let reached : apply_path O K h full_name sha p s
            ≡ apply_result O K h p (apply_inventory_yaml O h.codec K parsed raw s) =
          rw (first, apply_path, fetched, apply_managed) refl in
        reached ∙ ap (apply_result O K h p) sent_first

  module _ (q raw : Bytes) (parsed : ParsedInventoryPath) (sent : O.Object) (s : K.State)
      (second : parse_inventory_export_path q ≡ some parsed)
      (good : prepare O h.codec parsed raw ≡ ok sent)
      (away : (K.delete (K.patch s sent).0 (target_of O sent)).1 ≡ accepted) where
    deleted_then :
        delete_path O K h q (K.patch s sent).0
        ≡ (result q deleted no_detail, (K.delete (K.patch s sent).0 (target_of O sent)).0)
    unfolding delete_target delete_result
    deleted_then =
        let s₁ = (K.patch s sent).0 in
        let permitted = (prepare-IsPermitted O L h.codec parsed raw sent good).0 in
        let (kind, known, e) = delete_path_managed O K h q parsed s₁ second in
        let same_kind : kind ≡ O.kind sent = ok-injective (sym known ∙ permitted.kind) in
        let same : delete_target parsed kind ≡ target_of O sent =
          ground (arith, permitted.namespace, permitted.name) in
        e
        ∙ ap (λ t. delete_result O K h q (K.delete s₁ t)) same
        ∙ ap (λ a. delete_result O K h q ((K.delete s₁ (target_of O sent)).0, a)) away

  -- A push that adds one path of a resource and removes another path of the same resource, as a rename
  -- from ".yaml" to ".yml" does, applies the resource and then deletes it, and reports "applied" and
  -- "deleted". The file is fetched and accepted for the resource, and the API server takes the patch and
  -- accepts the deletion.
  pub process_push-renamed :
      (full_name sha p q raw : Bytes) (parsed : ParsedInventoryPath) (sent : O.Object) (s : K.State)
      → parse_inventory_export_path p ≡ some parsed
      → parse_inventory_export_path q ≡ some parsed
      → fetch_github_raw_file h.http_client h.github_token full_name sha p ≡ ok raw
      → prepare O h.codec parsed raw ≡ ok sent
      → (K.patch s sent).1 ≡ none
      → (K.delete (K.patch s sent).0 (target_of O sent)).1 ≡ accepted
      → process_push O K h
          (record {
            full_name = full_name;
            head_sha = sha;
            added_modified = p ∷ [];
            removed = q ∷ [];
          })
          s
        ≡ (
          result p applied no_detail ∷ result q deleted no_detail ∷ [],
          (K.delete (K.patch s sent).0 (target_of O sent)).0,
        )
  unfolding process_push apply_paths delete_paths
  process_push-renamed full_name sha p q raw parsed sent s first second fetched good taken away =
      rw (apply_path-taken full_name sha p raw parsed sent s first fetched good taken)
        (rw (deleted_then q raw parsed sent s second good away) refl)
