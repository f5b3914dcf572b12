-- ===== src/Sync/Webhook/Effects.antt =====
-- What the handler can do to the cluster: whatever holds of it, and is kept by the calls that a push
-- entitles the handler to make, holds after the request.
use accord.Base.{
  [], ◌∷◌, List, true, Option, none, some, Bytes, eq_refl, contains, ok, ◌≡◌, arith, Option-cases,
  Outcome-cases, inl, inr,
}
use accord.Sync.Path.{ParsedInventoryPath, parse_inventory_export_path}
use accord.Sync.GitHub.{PushPaths}
use accord.Sync.Fetch.{fetch_github_raw_file}
use accord.Sync.Apply.{
  Objects, Cluster, DeleteAnswer, accepted, not_found, refused, ApplyError, prepare, send_patch,
  apply_inventory_yaml,
}
use accord.Sync.Webhook.{
  WebhookHandler, Request, apply_result, apply_managed, apply_path, delete_target, delete_result,
  delete_path, apply_paths, delete_paths, process_push, serve_http,
}
use accord.Sync.Webhook.Results.{HasKind, delete_path_managed}
use accord.Sync.Webhook.Access.{IsAccepted, serve_cases}

module _ (O : Objects) (K : Cluster O) (h : WebhookHandler) (P : K.State → Type 0) where
  -- The property outlasts the patches for the listed paths: what is sent is prepared from the file at
  -- the path, for the resource that the path names.
  unfoldable pub KeptByPatches : PushPaths → Type 0
  KeptByPatches push =
      (p raw : Bytes) (parsed : ParsedInventoryPath) (sent : O.Object) (s : K.State)
      → contains push.added_modified p ≡ true
      → parse_inventory_export_path p ≡ some parsed
      → fetch_github_raw_file h.http_client h.github_token push.full_name push.head_sha p ≡ ok raw
      → prepare O h.codec parsed raw ≡ ok sent
      → P s
      → P (K.patch s sent).0

  -- The property outlasts the deletions of the resources that the removed paths name.
  unfoldable pub KeptByDeletions : PushPaths → Type 0
  KeptByDeletions push =
      (p kind : Bytes) (parsed : ParsedInventoryPath) (s : K.State)
      → contains push.removed p ≡ true
      → parse_inventory_export_path p ≡ some parsed
      → HasKind parsed.plural_kind kind
      → P s
      → P (K.delete s (delete_target parsed kind)).0

  send_patch-state :
      (s : K.State) (sent : O.Object) → P (K.patch s sent).0 → P (send_patch O h.codec K s sent).0
  unfolding send_patch
  send_patch-state s sent x = elim (Option-cases (K.patch s sent).1) [
    | inl taken ↦ rw (taken, send_patch) x
    | inr (e, refusal) ↦ rw (refusal, send_patch) x
  ]

  apply_result-state :
      (p : Bytes) (a : K.State × Option ApplyError) → P a.0 → P (apply_result O K h p a).1
  unfolding apply_result
  apply_result-state p (s, none) x = x
  apply_result-state p (s, some e) x = x

  delete_result-state :
      (p : Bytes) (a : K.State × DeleteAnswer) → P a.0 → P (delete_result O K h p a).1
  unfolding delete_result
  delete_result-state p (s, accepted) x = x
  delete_result-state p (s, not_found) x = x
  delete_result-state p (s, refused e) x = x

  module _ (push : PushPaths) (patches : KeptByPatches push)
      (deletions : KeptByDeletions push) where
    pub apply_path-keeps :
        (p : Bytes) (s : K.State)
        → contains push.added_modified p ≡ true
        → P s
        → P (apply_path O K h push.full_name push.head_sha p s).1
    unfolding apply_path apply_managed apply_inventory_yaml KeptByPatches
    apply_path-keeps p s listed x = elim (Option-cases (parse_inventory_export_path p)) [
      | inl unmanaged ↦ rw (unmanaged, apply_path) x
      | inr (parsed, managed) ↦
          elim (Outcome-cases
            (fetch_github_raw_file h.http_client h.github_token push.full_name push.head_sha p)) [
              | inr (e, lost) ↦ rw (managed, apply_path, lost, apply_managed) x
              | inl (raw, fetched) ↦ elim (Outcome-cases (prepare O h.codec parsed raw)) [
                | inr (e, bad) ↦
                    rw (managed, apply_path, fetched, apply_managed)
                      (apply_result-state p _ (rw (bad, apply_inventory_yaml) x))
                | inl (sent, good) ↦
                    rw (managed, apply_path, fetched, apply_managed)
                      (apply_result-state p _ (
                        rw (good, apply_inventory_yaml)
                          (send_patch-state s sent
                            (patches p raw parsed sent s listed managed fetched good x))))
              ]
            ]
    ]

    pub delete_path-keeps :
        (p : Bytes) (s : K.State)
        → contains push.removed p ≡ true
        → P s
        → P (delete_path O K h p s).1
    unfolding delete_path KeptByDeletions
    delete_path-keeps p s listed x = elim (Option-cases (parse_inventory_export_path p)) [
      | inl unmanaged ↦ rw (unmanaged, delete_path) x
      | inr (parsed, managed) ↦
          let (kind, known, e) = delete_path_managed O K h p parsed s managed in
          rw e (delete_result-state p _ (deletions p kind parsed s listed managed known x))
    ]

    -- `all` says that the paths still to come are listed in the push.
    apply_paths-keeps :
        (paths : List Bytes) (s : K.State)
        → ((p : Bytes) → contains paths p ≡ true → contains push.added_modified p ≡ true)
        → P s
        → P (apply_paths O K h push.full_name push.head_sha paths s).1
    unfolding apply_paths
    apply_paths-keeps [] s all x = x
    apply_paths-keeps (p ∷ paths) s all x =
        apply_paths-keeps paths _ (λ q l. all q (ground arith))
          (apply_path-keeps p s (all p (ground (arith, eq_refl p))) x)

    delete_paths-keeps :
        (paths : List Bytes) (s : K.State)
        → ((p : Bytes) → contains paths p ≡ true → contains push.removed p ≡ true)
        → P s
        → P (delete_paths O K h paths s).1
    unfolding delete_paths
    delete_paths-keeps [] s all x = x
    delete_paths-keeps (p ∷ paths) s all x =
        delete_paths-keeps paths _ (λ q l. all q (ground arith))
          (delete_path-keeps p s (all p (ground (arith, eq_refl p))) x)

    process_push-keeps : (s : K.State) → P s → P (process_push O K h push s).1
    unfolding process_push
    process_push-keeps s x =
        delete_paths-keeps push.removed _ (λ p l. l)
          (apply_paths-keeps push.added_modified s (λ p l. l) x)

  -- The handler touches the cluster only on behalf of an accepted push, and only by patches for added
  -- or modified paths and deletions for removed paths: any property of the cluster that these calls
  -- keep, for every push that the request could be accepted as, is kept by the request.
  pub serve-keeps :
      (r : Request) (s : K.State)
      → ((push : PushPaths) → IsAccepted h r push → KeptByPatches push)
      → ((push : PushPaths) → IsAccepted h r push → KeptByDeletions push)
      → P s
      → P (serve_http O K h r s).1
  serve-keeps r s patches deletions x = elim (serve_cases O K h r s) [
    | inl (e, rejection) ↦ rw rejection x
    | inr (push, granted, e) ↦
        rw e (process_push-keeps push (patches push granted) (deletions push granted) s x)
  ]
