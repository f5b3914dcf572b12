-- ===== src/Sync/Webhook/Told.antt =====
-- What the results of a push tell of the cluster, seen as a map from resources to what the API server
-- keeps of them.
pub mod Push
pub mod Again
use mathlib.Core.Path.{subst}
use accord.Base.{
  [], ◌∷◌, ◌++◌, List, Bool, true, false, Option, none, some, Bytes, codes, ok, ◌≡◌, ◌≢◌, ◌⊎◌, inl,
  inr, refl, sym, ap, ◌∙◌, Option-cases, Outcome-cases, ok-injective, arith,
}
use accord.Sync.Path.{ParsedInventoryPath, parse_inventory_export_path}
use accord.Sync.GitHub.{PushPaths}
use accord.Sync.Fetch.{fetch_github_raw_file}
use accord.Sync.Apply.{
  Objects, Cluster, Target, DeleteAnswer, accepted, not_found, refused, ApplyError, patch_failed,
  argo_expected_api_version, prepare, send_patch, apply_inventory_yaml,
}
use accord.Sync.Apply.Laws.{IsLawful, IsPermitted, prepare-IsPermitted}
use accord.Sync.Webhook.{
  WebhookHandler, Status, applied, deleted, ignored, error, result, Detail, no_detail, apply_failed,
  delete_failed, WebhookResult, apply_result, apply_managed, apply_path, delete_target,
  delete_result, delete_path, apply_paths, delete_paths, process_push,
}
use accord.Sync.Webhook.Results.{HasKind, delete_path_managed}

-- The resource that an object of Argo CD is.
abbrev pub target_of : (O : Objects) → O.Object → Target
target_of O obj = record {
  group = codes "argoproj.io";
  version = codes "v1alpha1";
  kind = O.kind obj;
  namespace = O.namespace obj;
  name = O.name obj;
}

-- What the API server does to the resources that it keeps. A patch that it takes merges the object into
-- its resource; a deletion that it accepts removes the resource or marks it for removal. Whatever it
-- answers, other resources stay as they are.
pub record IsServer (O : Objects) (K : Cluster O) : Type 1 where
  pub Entry : Type 0
  pub seen : K.State → Target → Option Entry
  pub merged : Option Entry → O.Object → Option Entry
  pub marked : Option Entry → Option Entry
  pub patched :
      (s : K.State) (obj : O.Object)
      → O.api_version obj ≡ argo_expected_api_version
      → (K.patch s obj).1 ≡ none
      → seen (K.patch s obj).0 (target_of O obj) ≡ merged (seen s (target_of O obj)) obj
  pub patched_elsewhere :
      (s : K.State) (obj : O.Object) (t : Target)
      → O.api_version obj ≡ argo_expected_api_version
      → t ≢ target_of O obj
      → seen (K.patch s obj).0 t ≡ seen s t
  pub removed :
      (s : K.State) (t : Target)
      → (K.delete s t).1 ≡ accepted
      → seen (K.delete s t).0 t ≡ marked (seen s t)
  pub missing :
      (s : K.State) (t : Target)
      → (K.delete s t).1 ≡ not_found
      → (seen s t ≡ none) × (seen (K.delete s t).0 t ≡ none)
  pub removed_elsewhere : (s : K.State) (t u : Target) → u ≢ t → seen (K.delete s t).0 u ≡ seen s u

-- The path names the resource.
abbrev pub Names : Bytes → Target → Type 0
Names p t =
    (parsed : ParsedInventoryPath) × (kind : Bytes) × (parse_inventory_export_path p ≡ some parsed)
    × HasKind parsed.plural_kind kind
    × (t ≡ delete_target parsed kind)

-- An error that the API server reports leaves open what it has done.
abbrev pub is_open : Detail → Bool
is_open (apply_failed (patch_failed e)) = true
is_open (delete_failed e) = true
is_open _ = false

pub Names-unique :
    (p : Bytes) (t : Target) {kind : Bytes} {parsed : ParsedInventoryPath}
    → parse_inventory_export_path p ≡ some parsed
    → HasKind parsed.plural_kind kind
    → Names p t
    → t ≡ delete_target parsed kind
unfolding delete_target
Names-unique p t managed known (parsed', kind', managed', known', e) = cc

module _ (O : Objects) (K : Cluster O) (h : WebhookHandler) (L : IsLawful O)
    (V : IsServer O K) where
  -- The object was prepared from the file at the path, in the commit of the push.
  abbrev pub IsSent : PushPaths → Bytes → O.Object → Type 0
  IsSent push p sent =
      (parsed : ParsedInventoryPath) × (raw : Bytes) × (parse_inventory_export_path p ≡ some parsed)
      × (fetch_github_raw_file h.http_client h.github_token push.full_name push.head_sha p ≡ ok raw)
      × (prepare O h.codec parsed raw ≡ ok sent)

  -- What a result tells of a resource, before and after.
  pub record Told (push : PushPaths) (t : Target) (r : WebhookResult)
      (before after : Option V.Entry) : Type 0 where
    pub other_path : (Names r.path t → ⊥) → after ≡ before
    pub when_applied :
        r.status ≡ applied
        → Names r.path t
        → (sent : O.Object) × IsSent push r.path sent × (after ≡ V.merged before sent)
    pub when_deleted :
        r.status ≡ deleted
        → Names r.path t
        → (after ≡ V.marked before) ⊎ ((before ≡ none) × (after ≡ none))
    pub when_ignored : r.status ≡ ignored → after ≡ before
    pub when_failed : r.status ≡ error → is_open r.detail ≡ false → after ≡ before

  module _ (push : PushPaths) (t : Target) where
    -- A result tells of the resource in the states before and after it.
    abbrev pub TellsOf : WebhookResult × K.State → K.State → Type 0
    TellsOf (r, s') s = Told push t r (V.seen s t) (V.seen s' t)

    -- A result that is neither "applied" nor "deleted" tells that nothing has changed.
    pub quiet-Told :
        (p : Bytes) (status : Status) (why : Detail) (before after : Option V.Entry)
        → status ≢ applied
        → status ≢ deleted
        → after ≡ before
        → Told push t (result p status why) before after
    quiet-Told p status why before after a d same = record {
      other_path = λ n. same;
      when_applied = λ e n. absurd (a e);
      when_deleted = λ e n. absurd (d e);
      when_ignored = λ e. same;
      when_failed = λ e o. same;
    }

    -- A patch that the server does not take leaves other resources alone.
    pub open-Told :
        (p : Bytes) (why : Detail) (before after : Option V.Entry)
        → is_open why ≡ true
        → ((Names p t → ⊥) → after ≡ before)
        → Told push t (result p error why) before after
    open-Told p why before after o other = record {
      other_path = other;
      when_applied = λ e n. cc;
      when_deleted = λ e n. cc;
      when_ignored = λ e. cc;
      when_failed = λ e c. cc;
    }

    module _ (p raw : Bytes) (parsed : ParsedInventoryPath) (sent : O.Object)
        (managed : parse_inventory_export_path p ≡ some parsed)
        (fetched : fetch_github_raw_file h.http_client h.github_token push.full_name push.head_sha p
          ≡ ok raw)
        (good : prepare O h.codec parsed raw ≡ ok sent) where
      permitted : IsPermitted O parsed sent
      permitted = (prepare-IsPermitted O L h.codec parsed raw sent good).0

      sent_target : target_of O sent ≡ delete_target parsed (O.kind sent)
      unfolding delete_target
      sent_target = ground (arith, permitted.namespace, permitted.name)

      not_sent : (Names p t → ⊥) → t ≢ target_of O sent
      not_sent n e = n (parsed, O.kind sent, managed, permitted.kind, e ∙ sent_target)

      named_sent : Names p t → t ≡ target_of O sent
      named_sent n = Names-unique p t managed permitted.kind n ∙ sym sent_target

      taken-Told :
          (s : K.State)
          → (K.patch s sent).1 ≡ none
          → Told push t (result p applied no_detail) (V.seen s t) (V.seen (K.patch s sent).0 t)
      taken-Told s taken = record {
        other_path = λ n. V.patched_elsewhere s sent t permitted.api_version (not_sent n);
        when_applied = λ e n.
            let same = named_sent n in
            (
              sent,
              (parsed, raw, managed, fetched, good),
              ap (V.seen (K.patch s sent).0) same
                  ∙ V.patched s sent permitted.api_version taken
                  ∙ ap (λ u. V.merged (V.seen s u) sent) (sym same),
            );
        when_deleted = λ e n. cc;
        when_ignored = λ e. cc;
        when_failed = λ e c. cc;
      }

      patch_answer :
          (s : K.State) (answer : Option Bytes)
          → (K.patch s sent).1 ≡ answer
          → send_patch O h.codec K s sent
            ≡ ((K.patch s sent).0, elim answer [ none ↦ none | some e ↦ some (patch_failed e) ])
      unfolding send_patch
      patch_answer s none e = rw (e, send_patch) refl
      patch_answer s (some x) e = rw (e, send_patch) refl

      pub sent-Told :
          (s : K.State) → TellsOf (apply_result O K h p (send_patch O h.codec K s sent)) s
      unfolding apply_result
      sent-Told s = elim (Option-cases (K.patch s sent).1) [
        | inl taken ↦
            subst (λ a. TellsOf (apply_result O K h p a) s) (sym (patch_answer s none taken))
              (taken-Told s taken)
        | inr (e, refusal) ↦
            subst (λ a. TellsOf (apply_result O K h p a) s) (sym (patch_answer s (some e) refusal))
              (open-Told p (apply_failed (patch_failed e)) _ _ refl
                (λ n. V.patched_elsewhere s sent t permitted.api_version (not_sent n)))
      ]
