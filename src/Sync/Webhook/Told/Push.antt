-- ===== src/Sync/Webhook/Told/Push.antt =====
-- The results of a whole push, path by path.
use mathlib.Core.Path.{subst}
use accord.Base.{
  [], ◌∷◌, ◌++◌, List, Option, some, Bytes, ◌≡◌, inl, inr, refl, sym, ap, ◌∙◌, Option-cases,
  Outcome-cases,
}
use accord.Sync.Path.{ParsedInventoryPath, parse_inventory_export_path}
use accord.Sync.GitHub.{PushPaths}
use accord.Sync.Fetch.{fetch_github_raw_file}
use accord.Sync.Apply.{
  Objects, Cluster, Target, DeleteAnswer, accepted, not_found, refused, prepare,
  apply_inventory_yaml,
}
use accord.Sync.Apply.Laws.{IsLawful}
use accord.Sync.Webhook.{
  WebhookHandler, ignored, error, not_managed, fetch_failed, apply_failed, delete_failed,
  WebhookResult, apply_result, apply_managed, apply_path, delete_target, delete_result, delete_path,
  apply_paths, delete_paths, process_push,
}
use accord.Sync.Webhook.Results.{HasKind, delete_path_managed}
use accord.Sync.Webhook.Told.{
  IsServer, Names, Names-unique, Told, TellsOf, quiet-Told, open-Told, sent-Told,
}

module _ (O : Objects) (K : Cluster O) (h : WebhookHandler) (L : IsLawful O) (V : IsServer O K)
    (push : PushPaths) (t : Target) where
  abbrev Tells : WebhookResult × K.State → K.State → Type 0
  Tells = TellsOf O K h L V push t

  apply_path-Told :
      (p : Bytes) (s : K.State) → Tells (apply_path O K h push.full_name push.head_sha p s) s
  unfolding apply_path apply_managed apply_inventory_yaml apply_result
  apply_path-Told p s = elim (Option-cases (parse_inventory_export_path p)) [
    | inl unmanaged ↦
        rw (unmanaged, apply_path)
          (quiet-Told O K h L V push t p ignored not_managed _ _ (cc) (cc) refl)
    | inr (parsed, managed) ↦
        elim (Outcome-cases
          (fetch_github_raw_file h.http_client h.github_token push.full_name push.head_sha p)) [
            | inr (e, lost) ↦
                rw (managed, apply_path, lost, apply_managed)
                  (quiet-Told O K h L V push t p error (fetch_failed e) _ _ (cc) (cc) refl)
            | inl (raw, fetched) ↦ elim (Outcome-cases (prepare O h.codec parsed raw)) [
              | inr (e, bad) ↦
                  rw (managed, apply_path, fetched, apply_managed, bad, apply_inventory_yaml)
                    (quiet-Told O K h L V push t p error (apply_failed e) _ _ (cc) (cc) refl)
              | inl (sent, good) ↦
                  rw (managed, apply_path, fetched, apply_managed, good, apply_inventory_yaml)
                    (sent-Told O K h L V push t p raw parsed sent managed fetched good s)
            ]
          ]
  ]

  module _ (p kind : Bytes) (parsed : ParsedInventoryPath) (s : K.State)
      (managed : parse_inventory_export_path p ≡ some parsed)
      (known : HasKind parsed.plural_kind kind) where
    abbrev target : Target
    target = delete_target parsed kind

    elsewhere : (Names p t → ⊥) → V.seen (K.delete s target).0 t ≡ V.seen s t
    elsewhere n = V.removed_elsewhere s target t (λ e. n (parsed, kind, managed, known, e))

    same_target : Names p t → t ≡ target
    same_target n = Names-unique p t managed known n

    removed-Told :
        (why : DeleteAnswer)
        → (K.delete s target).1 ≡ why
        → Tells (delete_result O K h p ((K.delete s target).0, why)) s
    unfolding delete_result
    removed-Told accepted e = record {
      other_path = elsewhere;
      when_applied = λ x n. cc;
      when_deleted = λ x n.
          let same = same_target n in
          inl (
            ap (V.seen (K.delete s target).0) same
            ∙ V.removed s target e
            ∙ ap (λ u. V.marked (V.seen s u)) (sym same));
      when_ignored = λ x. cc;
      when_failed = λ x c. cc;
    }
    removed-Told not_found e = record {
      other_path = elsewhere;
      when_applied = λ x n. cc;
      when_deleted = λ x n.
          let same = same_target n in
          let (before, after) = V.missing s target e in
          inr (ap (V.seen s) same ∙ before, ap (V.seen (K.delete s target).0) same ∙ after);
      when_ignored = λ x. cc;
      when_failed = λ x c. cc;
    }
    removed-Told (refused e) x = open-Told O K h L V push t p (delete_failed e) _ _ refl elsewhere

  delete_path-Told : (p : Bytes) (s : K.State) → Tells (delete_path O K h p s) s
  unfolding delete_path
  delete_path-Told p s = elim (Option-cases (parse_inventory_export_path p)) [
    | inl unmanaged ↦
        rw (unmanaged, delete_path)
          (quiet-Told O K h L V push t p ignored not_managed _ _ (cc) (cc) refl)
    | inr (parsed, managed) ↦
        let (kind, known, e) = delete_path_managed O K h p parsed s managed in
        subst (λ a. Tells a s) (sym e)
          (removed-Told p kind parsed s managed known (K.delete s (delete_target parsed kind)).1
            refl)
  ]

  -- The results, one after the other, tell how the resource came from its first state to its last one.
  abbrev pub Follows : List WebhookResult → Option V.Entry → Option V.Entry → Type 0
  Follows [] before after = after ≡ before
  Follows (r ∷ rs) before after =
      (mid : Option V.Entry) × Told O K h L V push t r before mid × Follows rs mid after

  Follows-append :
      (rs ds : List WebhookResult) (before mid after : Option V.Entry)
      → Follows rs before mid
      → Follows ds mid after
      → Follows (rs ++ ds) before after
  Follows-append [] ds before mid after e f = subst (λ o. Follows ds o after) e f
  Follows-append (r ∷ rs) ds before mid after (first, told, rest) f =
      (first, told, Follows-append rs ds first mid after rest f)

  apply_paths-Follows :
      (paths : List Bytes) (s : K.State)
      → let (rs, s') = apply_paths O K h push.full_name push.head_sha paths s in
        Follows rs (V.seen s t) (V.seen s' t)
  unfolding apply_paths
  apply_paths-Follows [] s = refl
  apply_paths-Follows (p ∷ paths) s = (_, apply_path-Told p s, apply_paths-Follows paths _)

  delete_paths-Follows :
      (paths : List Bytes) (s : K.State)
      → let (rs, s') = delete_paths O K h paths s in Follows rs (V.seen s t) (V.seen s' t)
  unfolding delete_paths
  delete_paths-Follows [] s = refl
  delete_paths-Follows (p ∷ paths) s = (_, delete_path-Told p s, delete_paths-Follows paths _)

  -- The results of a push tell what has become of every resource. Its paths in their order, a resource
  -- stays as it is where another one is named, where the path is ignored, and where the processing fails
  -- before the API server is asked; at "applied" the object prepared from the file of that commit is
  -- merged into it; at "deleted" it is marked as deleted, or it was not there and still is not. It rests
  -- on what the API server does to one resource, and on the getters and setters of objects.
  pub process_push-Follows :
      (s : K.State)
      → let (rs, s') = process_push O K h push s in Follows rs (V.seen s t) (V.seen s' t)
  unfolding process_push
  process_push-Follows s =
      let middle = (apply_paths O K h push.full_name push.head_sha push.added_modified s).1 in
      Follows-append (apply_paths O K h push.full_name push.head_sha push.added_modified s).0
        (delete_paths O K h push.removed middle).0 (V.seen s t) (V.seen middle t)
        (V.seen (delete_paths O K h push.removed middle).1 t)
        (apply_paths-Follows push.added_modified s) (delete_paths-Follows push.removed middle)
