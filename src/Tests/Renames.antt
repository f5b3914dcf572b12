-- ===== src/Tests/Renames.antt =====
-- A cluster that keeps the last manifest of each resource, and pushes that rename the file of one.
use mathlib.Core.List.{map}
use mathlib.Core.Path.{subst}
use mathlib.Core.Logic.{ite, if_pos, if_neg}
use native.Mathlib.Decide.{ℕ_discrete}
use accord.Base.{
  All, List, sym, ◌∙◌, [], ◌∷◌, Option, none, some, Bytes, codes, ok, ap, ◌≡◌, ◌≢◌, refl, inl,
  arith,
}
use accord.Strings.{strings}
use accord.Sync.Path.{applications, argo_kind_from_plural, parse_inventory_export_path}
use accord.Sync.Path.Endings.{yml_path, parse-yml_path}
use accord.Sync.Fetch.{fetch_github_raw_file, check_response, take}
use accord.Sync.Apply.{Target, Cluster, DeleteAnswer, accepted, not_found}
use accord.Sync.Webhook.{
  WebhookResult, applied, deleted, error, no_detail, result, delete_target, apply_paths,
  delete_paths, process_push,
}
use accord.Sync.GitHub.{PushPaths}
use accord.Sync.Webhook.Told.{target_of, IsServer}
use accord.Sync.Webhook.Told.Push.{Follows, process_push-Follows}
use accord.Sync.Webhook.Told.Again.{IsSettled, status_of, process_push-again}
use accord.Sync.Webhook.Results.{HasKind}
use accord.Sync.Webhook.Renamed.{process_push-renamed, apply_path-taken}
use accord.Tests.Cluster.{
  Manifest, manifests, manifests-IsLawful, handler, push, resource, file, guestbook,
}
use accord.Tests.Deployment.{file-parsed, file-prepared, sent}

bytes-discrete : Discrete Bytes
bytes-discrete = hlevel ℕ_discrete

pub Target-discrete : Discrete Target
Target-discrete = hlevel bytes-discrete

abbrev Kept : Type 0
Kept = Target → Option Manifest

abbrev set_at : Target → Option Manifest → Kept → Kept
set_at t o s u = ite (Target-discrete u t) o (s u)

abbrev answer_for : Option Manifest → DeleteAnswer
answer_for none = not_found
answer_for (some o) = accepted

abbrev pub keeper : Cluster manifests
keeper = record {
  State = Kept;
  patch = λ s o. (set_at (target_of manifests o) (some o) s, none);
  delete = λ s t. (set_at t none s, answer_for (s t));
}

answer_of_none : (o : Option Manifest) → answer_for o ≡ not_found → o ≡ none
answer_of_none none e = refl
answer_of_none (some o) e = cc

kept_there : (t : Target) (o : Option Manifest) (s : Kept) → set_at t o s t ≡ o
kept_there t o s = if_pos (Target-discrete t t) refl _ _

kept_elsewhere : (t u : Target) (o : Option Manifest) (s : Kept) → u ≢ t → set_at t o s u ≡ s u
kept_elsewhere t u o s n = if_neg (Target-discrete u t) n _ _

abbrev keeper-IsServer : IsServer manifests keeper
keeper-IsServer = record {
  Entry = Manifest;
  seen = λ s t. s t;
  merged = λ o m. some m;
  marked = λ o. none;
  patched = λ s o a e. kept_there (target_of manifests o) (some o) s;
  patched_elsewhere = λ s o t a n. kept_elsewhere (target_of manifests o) t (some o) s n;
  removed = λ s t e. kept_there t none s;
  missing = λ s t e. (answer_of_none (s t) e, kept_there t none s);
  removed_elsewhere = λ s t u n. kept_elsewhere t u none s n;
}

abbrev nothing : Kept
nothing t = none

process_push-Follows_example :
    let (rs, s) = process_push manifests keeper handler push nothing in
    Follows manifests keeper handler manifests-IsLawful keeper-IsServer push
      (target_of manifests guestbook)
      rs
      none
      (s (target_of manifests guestbook))
process_push-Follows_example =
    process_push-Follows manifests keeper handler manifests-IsLawful keeper-IsServer push
      (target_of manifests guestbook) nothing

abbrev renamed_file : Bytes
renamed_file = yml_path applications (codes "argocd") (codes "guestbook")

renamed_file-parsed : parse_inventory_export_path renamed_file ≡ some resource
renamed_file-parsed =
    parse-yml_path applications (codes "argocd") (codes "guestbook") (inl refl) (ground arith)
      (ground arith) (ground arith) (ground arith)

renamed_file-fetched :
    fetch_github_raw_file handler.http_client [] (codes "team/config") (codes "abc") renamed_file
    ≡ ok (codes "kind: Application")
unfolding fetch_github_raw_file check_response take strings
renamed_file-fetched = refl

abbrev pub with_guestbook : Kept
with_guestbook = (keeper.patch nothing sent).0

guestbook_away : (keeper.delete with_guestbook (target_of manifests sent)).1 ≡ accepted
guestbook_away = ap answer_for (kept_there (target_of manifests sent) (some sent) nothing)

process_push-renamed_example :
    process_push manifests keeper handler
      (record {
        full_name = codes "team/config";
        head_sha = codes "abc";
        added_modified = renamed_file ∷ [];
        removed = file ∷ [];
      })
      nothing
    ≡ (
      result renamed_file applied no_detail ∷ result file deleted no_detail ∷ [],
      (keeper.delete with_guestbook (target_of manifests sent)).0,
    )
process_push-renamed_example =
    process_push-renamed manifests keeper handler manifests-IsLawful (codes "team/config")
      (codes "abc") renamed_file file (codes "kind: Application") resource sent nothing
      renamed_file-parsed file-parsed renamed_file-fetched file-prepared refl guestbook_away

keeper-IsSettled : IsSettled keeper-IsServer
keeper-IsSettled = record {
  merged_again = λ o m. refl;
  marked_again = λ o. refl;
  marked_none = refl;
}

abbrev one_file : PushPaths
one_file = record {
  full_name = codes "team/config";
  head_sha = codes "abc";
  added_modified = file ∷ [];
  removed = [];
}

file-fetched :
    fetch_github_raw_file handler.http_client [] (codes "team/config") (codes "abc") file
    ≡ ok (codes "kind: Application")
unfolding fetch_github_raw_file check_response take strings
file-fetched = refl

once_applied :
    (s : Kept)
    → (process_push manifests keeper handler one_file s).0 ≡ result file applied no_detail ∷ []
unfolding process_push delete_paths apply_paths
once_applied s =
    rw
      (apply_path-taken manifests keeper handler manifests-IsLawful (codes "team/config")
        (codes "abc") file (codes "kind: Application") resource sent s file-parsed file-fetched
        file-prepared refl)
      refl

once_fine :
    (rs : List WebhookResult)
    → rs ≡ result file applied no_detail ∷ []
    → All (λ r. r.status ≢ error) rs
once_fine rs e = subst (All (λ r. r.status ≢ error)) (sym e) ((λ x. cc x), tt)

application_known : HasKind applications (codes "Application")
unfolding argo_kind_from_plural strings
application_known = refl

guestbook-named : target_of manifests guestbook ≡ delete_target resource (codes "Application")
unfolding delete_target
guestbook-named = refl

process_push-again_example :
    (process_push manifests keeper handler one_file
        (process_push manifests keeper handler one_file nothing).1).1
      (target_of manifests guestbook)
    ≡ (process_push manifests keeper handler one_file nothing).1 (target_of manifests guestbook)
process_push-again_example =
    process_push-again manifests keeper handler manifests-IsLawful keeper-IsServer keeper-IsSettled
      one_file (target_of manifests guestbook) nothing
      (inl ((resource, codes "Application", file-parsed, application_known, guestbook-named), tt))
      (once_fine _ (once_applied nothing))
      (ap (map status_of) (once_applied _ ∙ sym (once_applied nothing)))
