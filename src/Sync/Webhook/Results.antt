-- ===== src/Sync/Webhook/Results.antt =====
-- The results of a push: one for each path, and what each status says.
use mathlib.Core.List.{map, map-append}
use accord.Base.{
  [], ◌∷◌, ◌++◌, List, Option, none, some, Bytes, codes, ◌==◌, ok, ◌≡◌, inl, inr, refl, ◌∙◌,
  Option-cases, Outcome-cases,
}
use accord.Sync.Path.{ParsedInventoryPath, parse_inventory_export_path, argo_kind_from_plural}
use accord.Sync.Path.RoundTrip.{IsPlural}
use accord.Sync.Path.Soundness.{parse_sound}
use accord.Sync.GitHub.{PushPaths}
use accord.Sync.Fetch.{fetch_github_raw_file}
use accord.Sync.Apply.{
  Objects, Cluster, DeleteAnswer, accepted, not_found, refused, ApplyError, prepare, send_patch,
  apply_inventory_yaml,
}
use accord.Sync.Webhook.{
  WebhookHandler, applied, WebhookResult, apply_result, apply_managed, apply_path, delete_target,
  delete_result, delete_managed, delete_path, apply_paths, delete_paths, process_push,
}

abbrev pub path_of : WebhookResult → Bytes
path_of r = r.path

-- The kind of a directory of the inventory.
abbrev pub HasKind : Bytes → Bytes → Type 0
HasKind plural kind = argo_kind_from_plural plural ≡ ok kind

kind_of_plural : (plural : Bytes) → IsPlural plural → (kind : Bytes) × HasKind plural kind
unfolding argo_kind_from_plural ◌==◌
kind_of_plural plural (inl e) = (codes "Application", rw e)
kind_of_plural plural (inr e) = (codes "ApplicationSet", rw e)

module _ (O : Objects) (K : Cluster O) (h : WebhookHandler) where
  apply_result-path :
      (p : Bytes) (a : K.State × Option ApplyError) → (apply_result O K h p a).0.path ≡ p
  unfolding apply_result
  apply_result-path p (s, none) = refl
  apply_result-path p (s, some e) = refl

  pub apply_path-path :
      (full_name sha p : Bytes) (s : K.State) → (apply_path O K h full_name sha p s).0.path ≡ p
  unfolding apply_path apply_managed
  apply_path-path full_name sha p s = elim (Option-cases (parse_inventory_export_path p)) [
    | inl unmanaged ↦ rw (unmanaged, apply_path)
    | inr (parsed, managed) ↦
        elim (Outcome-cases (fetch_github_raw_file h.http_client h.github_token full_name sha p)) [
          | inr (e, lost) ↦ rw (managed, apply_path, lost, apply_managed)
          | inl (raw, fetched) ↦
              rw (managed, apply_path, fetched, apply_managed)
                (apply_result-path p (apply_inventory_yaml O h.codec K parsed raw s))
        ]
  ]

  delete_result-path :
      (p : Bytes) (a : K.State × DeleteAnswer) → (delete_result O K h p a).0.path ≡ p
  unfolding delete_result
  delete_result-path p (s, accepted) = refl
  delete_result-path p (s, not_found) = refl
  delete_result-path p (s, refused e) = refl

  -- A removed path that is managed is always answered by a deletion of the resource that it names:
  -- its directory has a kind.
  pub delete_path_managed :
      (p : Bytes) (parsed : ParsedInventoryPath) (s : K.State)
      → parse_inventory_export_path p ≡ some parsed
      → (kind : Bytes) × HasKind parsed.plural_kind kind
        × (delete_path O K h p s ≡ delete_result O K h p (K.delete s (delete_target parsed kind)))
  unfolding delete_path delete_managed
  delete_path_managed p parsed s managed =
      let (kind, known) = kind_of_plural parsed.plural_kind (parse_sound p managed).plural in
      (kind, known, rw (managed, delete_path, known, delete_managed))

  pub delete_path-path : (p : Bytes) (s : K.State) → (delete_path O K h p s).0.path ≡ p
  unfolding delete_path
  delete_path-path p s = elim (Option-cases (parse_inventory_export_path p)) [
    | inl unmanaged ↦ rw (unmanaged, delete_path)
    | inr (parsed, managed) ↦
        let (kind, known, e) = delete_path_managed p parsed s managed in
        rw e (delete_result-path p (K.delete s (delete_target parsed kind)))
  ]

  apply_paths-path :
      (full_name sha : Bytes) (paths : List Bytes) (s : K.State)
      → map path_of (apply_paths O K h full_name sha paths s).0 ≡ paths
  unfolding apply_paths
  apply_paths-path full_name sha [] s = refl
  apply_paths-path full_name sha (p ∷ paths) s =
      rw (apply_path-path full_name sha p s, apply_paths-path full_name sha paths)

  delete_paths-path :
      (paths : List Bytes) (s : K.State) → map path_of (delete_paths O K h paths s).0 ≡ paths
  unfolding delete_paths
  delete_paths-path [] s = refl
  delete_paths-path (p ∷ paths) s = rw (delete_path-path p s, delete_paths-path paths)

  -- A push is processed to its end whatever happens on the way: there is one result for each path, the
  -- added or modified ones first, each in the order of the push.
  pub process_push-path :
      (push : PushPaths) (s : K.State)
      → map path_of (process_push O K h push s).0 ≡ push.added_modified ++ push.removed
  unfolding process_push
  process_push-path push s =
      map-append path_of (apply_paths O K h push.full_name push.head_sha push.added_modified s).0
        (delete_paths O K h push.removed
          (apply_paths O K h push.full_name push.head_sha push.added_modified s).1).0
      ∙ rw (
        apply_paths-path push.full_name push.head_sha push.added_modified s,
        delete_paths-path push.removed,
      )

  apply_result-applied :
      (p : Bytes) (a : K.State × Option ApplyError)
      → (apply_result O K h p a).0.status ≡ applied
      → (a.1 ≡ none) × ((apply_result O K h p a).1 ≡ a.0)
  unfolding apply_result
  apply_result-applied p (s, none) e = (refl, refl)
  apply_result-applied p (s, some x) e = cc

  send_patch-none :
      (s : K.State) (sent : O.Object)
      → (send_patch O h.codec K s sent).1 ≡ none
      → ((K.patch s sent).1 ≡ none) × ((send_patch O h.codec K s sent).0 ≡ (K.patch s sent).0)
  unfolding send_patch
  send_patch-none s sent e = elim (Option-cases (K.patch s sent).1) [
    | inl taken ↦ (taken, rw (taken, send_patch))
    | inr (message, refusal) ↦ absurd (cc (rw (refusal, send_patch) at e))
  ]

  apply_inventory_yaml-none :
      (parsed : ParsedInventoryPath) (raw : Bytes) (s : K.State)
      → (apply_inventory_yaml O h.codec K parsed raw s).1 ≡ none
      → (sent : O.Object) × (prepare O h.codec parsed raw ≡ ok sent)
        × ((K.patch s sent).1 ≡ none)
        × ((apply_inventory_yaml O h.codec K parsed raw s).0 ≡ (K.patch s sent).0)
  unfolding apply_inventory_yaml
  apply_inventory_yaml-none parsed raw s e = elim (Outcome-cases (prepare O h.codec parsed raw)) [
    | inr (x, bad) ↦ absurd (cc (rw (bad, apply_inventory_yaml) at e))
    | inl (sent, good) ↦
        let (taken, left) = send_patch-none s sent (rw (good, apply_inventory_yaml) at e) in
        (sent, good, taken, rw (good, apply_inventory_yaml) left)
  ]

  -- "applied" is reported only for a managed path whose file was fetched, whose manifest was accepted
  -- for the path, and whose patch the cluster took; the cluster is then as the patch left it.
  pub apply_path-applied :
      (full_name sha p : Bytes) (s : K.State)
      → (apply_path O K h full_name sha p s).0.status ≡ applied
      → (parsed : ParsedInventoryPath) × (raw : Bytes) × (sent : O.Object)
        × (parse_inventory_export_path p ≡ some parsed)
        × (fetch_github_raw_file h.http_client h.github_token full_name sha p ≡ ok raw)
        × (prepare O h.codec parsed raw ≡ ok sent)
        × ((K.patch s sent).1 ≡ none)
        × ((apply_path O K h full_name sha p s).1 ≡ (K.patch s sent).0)
  unfolding apply_path apply_managed
  apply_path-applied full_name sha p s e = elim (Option-cases (parse_inventory_export_path p)) [
    | inl unmanaged ↦ absurd (cc (rw (unmanaged, apply_path) at e))
    | inr (parsed, managed) ↦
        elim (Outcome-cases (fetch_github_raw_file h.http_client h.github_token full_name sha p)) [
          | inr (x, lost) ↦ absurd (cc (rw (managed, apply_path, lost, apply_managed) at e))
          | inl (raw, fetched) ↦
              let (clear, left) =
                apply_result-applied p (apply_inventory_yaml O h.codec K parsed raw s)
                  (rw (managed, apply_path, fetched, apply_managed) at e) in
              let (sent, good, taken, patched) = apply_inventory_yaml-none parsed raw s clear in
              (
                parsed,
                raw,
                sent,
                managed,
                fetched,
                good,
                taken,
                rw (managed, apply_path, fetched, apply_managed) (left ∙ patched),
              )
        ]
  ]
