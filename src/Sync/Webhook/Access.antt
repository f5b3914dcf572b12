-- ===== src/Sync/Webhook/Access.antt =====
-- Who gets through: a request is rejected and changes nothing, or it is an authentic push.
use accord.Base.{
  [], some, Bytes, codes, ◌==◌, eq_iff, ok, ◌≡◌, ◌≢◌, ◌⊎◌, inl, inr, Option-cases, Outcome-cases,
  Bool-cases,
}
use accord.Sync.GitHub.{PushPaths, parse_github_push_paths}
use accord.Sync.Hmac.{verify_hmac_signature}
use accord.Sync.Hmac.Laws.{IsSignature, verify_iff}
use accord.Sync.Fetch.{take}
use accord.Sync.Apply.{Objects, Cluster}
use accord.Sync.Webhook.{
  WebhookHandler, Request, Rejection, method_not_allowed, unreadable_body, unauthorized, bad_push,
  rejected, body_limit, process_push, answer, serve_push, serve_body, serve_http,
}

-- The request is a POST, its body was read, a secret is configured, the signature is that of the
-- body under the secret, and the body is the push event with these paths.
pub record IsAccepted (h : WebhookHandler) (r : Request) (push : PushPaths) : Type 0 where
  pub body : Bytes
  pub post : r.method ≡ codes "POST"
  pub readable : r.body ≡ some body
  pub configured : h.webhook_secret ≢ []
  pub signed : IsSignature r.signature (h.hmac_sha256 h.webhook_secret (take body_limit body))
  pub parsed : parse_github_push_paths h.decode_push (take body_limit body) ≡ ok push

module _ (O : Objects) (K : Cluster O) (h : WebhookHandler) (r : Request) (s : K.State) where
  serve_push_cases :
      (body : Bytes)
      → ((e : Rejection) × (serve_push O K h body s ≡ (rejected e, s)))
        ⊎ ((push : PushPaths) × (parse_github_push_paths h.decode_push body ≡ ok push)
            × (serve_push O K h body s ≡ answer O K h (process_push O K h push s)))
  unfolding serve_push
  serve_push_cases body = elim (Outcome-cases (parse_github_push_paths h.decode_push body)) [
    | inl (push, good) ↦ inr (push, good, rw (good, serve_push))
    | inr (e, bad) ↦ inl (bad_push e, rw (bad, serve_push))
  ]

  -- Every request is answered in one of two ways. It is rejected, and the cluster stays as it is; or
  -- it is an accepted push, and the response holds the results of processing its paths.
  pub serve_cases :
      ((e : Rejection) × (serve_http O K h r s ≡ (rejected e, s)))
      ⊎ ((push : PushPaths) × IsAccepted h r push
          × (serve_http O K h r s ≡ answer O K h (process_push O K h push s)))
  unfolding serve_http serve_body
  serve_cases = elim (Bool-cases (r.method == codes "POST")) [
    | inr other ↦ inl (method_not_allowed, rw other)
    | inl post ↦ elim (Option-cases r.body) [
      | inl unreadable ↦ inl (unreadable_body, rw (post, unreadable, serve_http))
      | inr (body, readable) ↦
          elim (Outcome-cases (
            verify_hmac_signature h.hmac_sha256 h.webhook_secret r.signature
              (take body_limit body))) [
                | inr (e, forged) ↦
                    inl (unauthorized, rw (post, readable, serve_http, forged, serve_body))
                | inl (u, verified) ↦ elim (serve_push_cases (take body_limit body)) [
                  | inl (e, bad) ↦
                      inl (e, rw (post, readable, serve_http, verified, serve_body) bad)
                  | inr (push, parsed, good) ↦
                      let (configured, signed) = (verify_iff _ _ _ _).0 verified in
                      inr (
                        push,
                        record {
                          body = body;
                          post = (eq_iff r.method (codes "POST")).0 post;
                          readable = readable;
                          configured = configured;
                          signed = signed;
                          parsed = parsed;
                        },
                        rw (post, readable, serve_http, verified, serve_body) good,
                      )
                ]
              ]
    ]
  ]
