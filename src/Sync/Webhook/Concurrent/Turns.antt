-- ===== src/Sync/Webhook/Concurrent/Turns.antt =====
-- A job that is never interrupted does what the handler does in one go.
use mathlib.Core.Path.{subst}
use accord.Base.{[], ◌∷◌, ◌++◌, List, Bytes, refl, append-nil, append_assoc}
use accord.Sync.GitHub.{PushPaths}
use accord.Sync.Apply.{Objects, Cluster}
use accord.Sync.Webhook.{
  WebhookHandler, WebhookResult, apply_path, delete_path, apply_paths, delete_paths, process_push,
}
use accord.Sync.Webhook.Concurrent.{Job, new_job, turn, Alone, rest, more}

abbrev job : PushPaths → List Bytes → List Bytes → List WebhookResult → Job
job push adds dels rs = record {
  push = push;
  to_apply = adds;
  to_delete = dels;
  results_so_far = rs;
}

module _ (O : Objects) (K : Cluster O) (h : WebhookHandler) (push : PushPaths) where
  Alone-trans :
      {j k l : Job} {s t u : K.State}
      → Alone O K h j s k t
      → Alone O K h k t l u
      → Alone O K h j s l u
  Alone-trans rest b = b
  Alone-trans (more e a) b = more e (Alone-trans a b)

  deletes-Alone :
      (paths : List Bytes) (rs : List WebhookResult) (s : K.State)
      → let (ds, s') = delete_paths O K h paths s in
        Alone O K h (job push [] paths rs) s (job push [] [] (rs ++ ds)) s'
  unfolding delete_paths turn
  deletes-Alone [] rs s = rw append-nil rest
  deletes-Alone (p ∷ paths) rs s =
      let (r, s₁) = delete_path O K h p s in
      more refl (
        subst
          (λ all.
            Alone O K h (job push [] paths (rs ++ (r ∷ []))) s₁ (job push [] [] all)
              (delete_paths O K h paths s₁).1)
          (append_assoc rs (r ∷ []) (delete_paths O K h paths s₁).0)
          (deletes-Alone paths (rs ++ (r ∷ [])) s₁))

  applies-Alone :
      (paths dels : List Bytes) (rs : List WebhookResult) (s : K.State)
      → let (as', s') = apply_paths O K h push.full_name push.head_sha paths s in
        Alone O K h (job push paths dels rs) s (job push [] dels (rs ++ as')) s'
  unfolding apply_paths turn
  applies-Alone [] dels rs s = rw append-nil rest
  applies-Alone (p ∷ paths) dels rs s =
      let (r, s₁) = apply_path O K h push.full_name push.head_sha p s in
      more refl (
        subst
          (λ all.
            Alone O K h (job push paths dels (rs ++ (r ∷ []))) s₁ (job push [] dels all)
              (apply_paths O K h push.full_name push.head_sha paths s₁).1)
          (append_assoc rs (r ∷ []) (apply_paths O K h push.full_name push.head_sha paths s₁).0)
          (applies-Alone paths dels (rs ++ (r ∷ [])) s₁))

  -- A push that is processed without interruption ends, by turns, in the cluster and with the results of
  -- the handler's two loops.
  pub Alone-process_push :
      (s : K.State)
      → let (rs, s') = process_push O K h push s in
        Alone O K h (new_job push) s (job push [] [] rs) s'
  unfolding process_push
  Alone-process_push s =
      let (rs, s₁) = apply_paths O K h push.full_name push.head_sha push.added_modified s in
      Alone-trans (applies-Alone push.added_modified push.removed [] s)
        (deletes-Alone push.removed rs s₁)
