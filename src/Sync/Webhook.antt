-- ===== src/Sync/Webhook.antt =====
-- internal/sync/webhook.go: the handler of push events. A response is an HTTP error, or the results
-- of all paths in order; the texts of errors are kept as error values.
pub mod Access
pub mod Results
pub mod Effects
pub mod Told
pub mod Concurrent
pub mod Renamed
use accord.Base.{
  ℕ, ◌*◌, ◌^◌, [], ◌∷◌, ◌++◌, List, Bool, true, false, Option, none, some, Bytes, codes, ◌==◌,
  if◌then◌else◌, Outcome, ok, err, not,
}
use accord.Json.{Codec}
use accord.Sync.Path.{
  ParsedInventoryPath, parse_inventory_export_path, KindError, argo_kind_from_plural,
}
use accord.Sync.GitHub.{PushEvent, PushPaths, PushError, parse_github_push_paths}
use accord.Sync.Hmac.{verify_hmac_signature}
use accord.Sync.Fetch.{HttpClient, FetchError, take, fetch_github_raw_file}
use accord.Sync.Apply.{
  Objects, Cluster, Target, DeleteAnswer, accepted, not_found, refused, ApplyError,
  apply_inventory_yaml,
}

-- The fields of the handler, and the parameters that stand for the libraries it calls.
pub record WebhookHandler : Type 0 where
  pub github_token : Bytes
  pub webhook_secret : Bytes
  pub http_client : HttpClient
  pub codec : Codec
  pub decode_push : Bytes → Option PushEvent
  pub hmac_sha256 : Bytes → Bytes → Bytes

-- The header is "" where it is missing; `body` is `none` where reading it fails.
pub record Request : Type 0 where
  pub method : Bytes
  pub signature : Bytes
  pub body : Option Bytes

pub data Status : Type 0 where
  applied deleted ignored error : Status

pub data Detail : Type 0 where
  no_detail not_managed already_gone : Detail
  bad_kind : KindError → Detail
  fetch_failed : FetchError → Detail
  apply_failed : ApplyError → Detail
  delete_failed : Bytes → Detail

pub record WebhookResult : Type 0 where
  pub path : Bytes
  pub status : Status
  pub detail : Detail

pub data Rejection : Type 0 where
  method_not_allowed unreadable_body unauthorized : Rejection
  bad_push : PushError → Rejection

pub data Response : Type 0 where
  rejected : Rejection → Response
  results : List WebhookResult → Response

-- The status codes of `http.Error`, and of the results.
unfoldable pub status_code : Response → ℕ
status_code (rejected method_not_allowed) = 405
status_code (rejected unreadable_body) = 400
status_code (rejected unauthorized) = 401
status_code (rejected (bad_push e)) = 400
status_code (results rs) = 200

abbrev pub result : Bytes → Status → Detail → WebhookResult
result p status detail = record { path = p; status = status; detail = detail }

abbrev pub body_limit : ℕ
body_limit = 32 * 2 ^ 20

unfoldable pub delete_target : ParsedInventoryPath → Bytes → Target
delete_target parsed kind = record {
  group = codes "argoproj.io";
  version = codes "v1alpha1";
  kind = kind;
  namespace = parsed.namespace;
  name = parsed.name;
}

module _ (O : Objects) (K : Cluster O) (h : WebhookHandler) where
  -- The answer of `ApplyInventoryYAML` as a result.
  unfoldable pub apply_result : Bytes → K.State × Option ApplyError → WebhookResult × K.State
  apply_result p (s, none) = (result p applied no_detail, s)
  apply_result p (s, some e) = (result p error (apply_failed e), s)

  unfoldable pub apply_managed :
      Bytes → Bytes → Bytes → ParsedInventoryPath → K.State → WebhookResult × K.State
  apply_managed full_name sha p parsed s =
      elim (fetch_github_raw_file h.http_client h.github_token full_name sha p) [
        | err e ↦ (result p error (fetch_failed e), s)
        | ok raw ↦ apply_result p (apply_inventory_yaml O h.codec K parsed raw s)
      ]

  -- A round of the loop over `addedPaths`.
  unfoldable pub apply_path : Bytes → Bytes → Bytes → K.State → WebhookResult × K.State
  apply_path full_name sha p s = elim (parse_inventory_export_path p) [
    | none ↦ (result p ignored not_managed, s)
    | some parsed ↦ apply_managed full_name sha p parsed s
  ]

  unfoldable pub delete_result : Bytes → K.State × DeleteAnswer → WebhookResult × K.State
  delete_result p (s, accepted) = (result p deleted no_detail, s)
  delete_result p (s, not_found) = (result p deleted already_gone, s)
  delete_result p (s, refused e) = (result p error (delete_failed e), s)

  unfoldable pub delete_managed : Bytes → ParsedInventoryPath → K.State → WebhookResult × K.State
  delete_managed p parsed s = elim (argo_kind_from_plural parsed.plural_kind) [
    | err e ↦ (result p ignored (bad_kind e), s)
    | ok kind ↦ delete_result p (K.delete s (delete_target parsed kind))
  ]

  -- A round of the loop over `removedPaths`.
  unfoldable pub delete_path : Bytes → K.State → WebhookResult × K.State
  delete_path p s = elim (parse_inventory_export_path p) [
    | none ↦ (result p ignored not_managed, s)
    | some parsed ↦ delete_managed p parsed s
  ]

  unfoldable pub apply_paths : Bytes → Bytes → List Bytes → K.State → List WebhookResult × K.State
  apply_paths full_name sha [] s = ([], s)
  apply_paths full_name sha (p ∷ paths) s =
      let (r, s') = apply_path full_name sha p s in
      let (rs, s'') = apply_paths full_name sha paths s' in (r ∷ rs, s'')

  unfoldable pub delete_paths : List Bytes → K.State → List WebhookResult × K.State
  delete_paths [] s = ([], s)
  delete_paths (p ∷ paths) s =
      let (r, s') = delete_path p s in let (rs, s'') = delete_paths paths s' in (r ∷ rs, s'')

  -- The two loops, added paths first.
  unfoldable pub process_push : PushPaths → K.State → List WebhookResult × K.State
  process_push push s =
      let (rs, s') = apply_paths push.full_name push.head_sha push.added_modified s in
      let (ds, s'') = delete_paths push.removed s' in (rs ++ ds, s'')

  abbrev pub answer : List WebhookResult × K.State → Response × K.State
  answer (rs, s) = (results rs, s)

  unfoldable pub serve_push : Bytes → K.State → Response × K.State
  serve_push body s = elim (parse_github_push_paths h.decode_push body) [
    | err e ↦ (rejected (bad_push e), s)
    | ok push ↦ answer (process_push push s)
  ]

  unfoldable pub serve_body : Bytes → Bytes → K.State → Response × K.State
  serve_body signature body s =
      elim (verify_hmac_signature h.hmac_sha256 h.webhook_secret signature body) [
        | err e ↦ (rejected unauthorized, s)
        | ok _ ↦ serve_push body s
      ]

  unfoldable pub serve_http : Request → K.State → Response × K.State
  serve_http r s =
      if not (r.method == codes "POST") then (rejected method_not_allowed, s) else elim r.body [
        | none ↦ (rejected unreadable_body, s)
        | some body ↦ serve_body r.signature (take body_limit body) s
      ]
