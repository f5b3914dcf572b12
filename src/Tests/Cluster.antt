-- ===== src/Tests/Cluster.antt =====
-- A concrete cluster for the handler: a list of the names that were applied, in which nothing may be
-- deleted. An object holds its identity and its annotations.
use accord.Base.{
  [], ◌∷◌, List, none, some, true, Bytes, codes, ◌==◌, if◌then◌else◌, ◌≡◌, refl, ◌∙◌, ap,
}
use accord.Collections.{add}
use accord.Collections.Sorting.{Distinct}
use accord.Dict.{Dict, lookup, insert, keys}
use accord.Dict.Laws.{lookup-insert, insert-Distinct}
use accord.Json.{object, no_fields, Codec}
use accord.Sync.Path.{ParsedInventoryPath, applications}
use accord.Sync.GitHub.{PushEvent, PushPaths}
use accord.Sync.Apply.{Objects, Cluster, refused}
use accord.Sync.Apply.Laws.{IsLawful}
use accord.Sync.Webhook.{WebhookHandler, Request}

pub record Manifest : Type 0 where
  pub api_version : Bytes
  pub kind : Bytes
  pub namespace : Bytes
  pub name : Bytes
  pub stored : Dict Bytes

-- The first entry of each key.
unfoldable pub first_entries : Dict Bytes → Dict Bytes
first_entries [] = []
first_entries ((k, v) ∷ m) = insert k v (first_entries m)

lookup-first_entries : (k : Bytes) (m : Dict Bytes) → lookup k (first_entries m) ≡ lookup k m
unfolding first_entries lookup
lookup-first_entries k [] = refl
lookup-first_entries k ((j, v) ∷ m) =
    lookup-insert k j v (first_entries m)
    ∙ ap (λ o. if j == k then some v else o) (lookup-first_entries k m)

first_entries-Distinct : (m : Dict Bytes) → Distinct (keys (first_entries m))
unfolding first_entries keys
first_entries-Distinct [] = tt
first_entries-Distinct ((k, v) ∷ m) =
    insert-Distinct k v (first_entries m) (first_entries-Distinct m)

abbrev pub guestbook : Manifest
guestbook = record {
  api_version = codes "argoproj.io/v1alpha1";
  kind = codes "Application";
  namespace = codes "argocd";
  name = codes "guestbook";
  stored = [];
}

abbrev pub manifests : Objects
manifests = record {
  Object = Manifest;
  unmarshal_json = λ s. some guestbook;
  api_version = λ o. o.api_version;
  kind = λ o. o.kind;
  namespace = λ o. o.namespace;
  name = λ o. o.name;
  annotations = λ o. first_entries o.stored;
  set_annotations = λ o a. record o { stored = a };
}

pub manifests-IsLawful : IsLawful manifests
manifests-IsLawful = record {
  lookup-set_annotations = λ o a k. lookup-first_entries k a;
  api_version_kept = λ o a. refl;
  kind_kept = λ o a. refl;
  namespace_kept = λ o a. refl;
  name_kept = λ o a. refl;
  annotations-Distinct = λ o. first_entries-Distinct o.stored;
}

abbrev pub protected : Cluster manifests
protected = record {
  State = List Bytes;
  patch = λ s o. (add o.name s, none);
  delete = λ s t. (s, refused (codes "denied"));
}

abbrev pub constant_codec : Codec
constant_codec = record {
  yaml_to_json = λ s. some s;
  json_to_yaml = λ s. some s;
  unmarshal_object = λ s. some (object no_fields);
  marshal = λ v. some (codes "{}");
  sha256 = λ s. s;
}

abbrev pub file : Bytes
file = codes "inventory/applications/argocd/guestbook.yaml"

abbrev pub event : PushEvent
event = record {
  full_name = codes "team/config";
  head_commit = some (codes "abc");
  after = codes "abc";
  commits = record { added = file ∷ []; modified = []; removed = codes "README.md" ∷ [] } ∷ [];
}

abbrev pub push : PushPaths
push = record {
  full_name = codes "team/config";
  head_sha = codes "abc";
  added_modified = file ∷ [];
  removed = codes "README.md" ∷ [];
}

abbrev pub handler : WebhookHandler
handler = record {
  github_token = [];
  webhook_secret = codes "s3cret";
  http_client = record {
    is_url = λ u. true;
    send = λ r. some (record { status_code = 200; body = some (codes "kind: Application") });
  };
  codec = constant_codec;
  decode_push = λ body. some event;
  hmac_sha256 = λ k m. 255 ∷ [];
}

abbrev pub request : Request
request = record { method = codes "POST"; signature = codes "sha256=ff"; body = some (codes "{}") }

abbrev pub resource : ParsedInventoryPath
resource = record {
  plural_kind = applications;
  namespace = codes "argocd";
  name = codes "guestbook";
}
