-- ===== src/Sync/Fetch.antt =====
-- internal/sync/fetch.go: a file of the repository at a commit, over HTTP. The HTTP client is a
-- parameter; its requests carry the bearer token, if there is one.
pub mod Laws
use accord.Base.{
  ℕ, zero, suc, ◌*◌, ◌^◌, Bool, [], ◌∷◌, ◌++◌, Option, none, some, Bytes, codes, ◌==◌, eqb,
  if◌then◌else◌, Outcome, ok, err, not,
}
use accord.Strings.{trim_prefix, trim_space, slash}

pub record HttpRequest : Type 0 where
  pub url : Bytes
  pub authorization : Option Bytes

-- `body` is `none` where reading it fails.
pub record HttpResponse : Type 0 where
  pub status_code : ℕ
  pub body : Option Bytes

-- `http.NewRequestWithContext` refuses a URL that does not parse; `Do` fails with `none`.
pub record HttpClient : Type 0 where
  pub is_url : Bytes → Bool
  pub send : HttpRequest → Option HttpResponse

pub data FetchError : Type 0 where
  build_failed get_failed read_failed : FetchError
  bad_status : ℕ → Bytes → FetchError

-- `io.LimitReader`
unfoldable pub take : ℕ → Bytes → Bytes
take zero s = []
take (suc n) [] = []
take (suc n) (c ∷ s) = c ∷ take n s

abbrev pub fetch_limit : ℕ
fetch_limit = 8 * 2 ^ 20

-- `Bearer <token>`, unless the token is blank.
unfoldable pub bearer : Bytes → Option Bytes
bearer token = if trim_space token == [] then none else some (codes "Bearer " ++ token)

unfoldable pub raw_url : Bytes → Bytes → Bytes → Bytes
raw_url full_name sha file_path =
    let p = trim_prefix (trim_space file_path) (slash ∷ []) in
    codes "https://raw.githubusercontent.com/" ++ (full_name ++ slash ∷ (sha ++ slash ∷ p))

-- The status is looked at only after the body was read.
unfoldable pub check_response : Bytes → Option HttpResponse → Outcome FetchError Bytes
check_response url none = err get_failed
check_response url (some r) = elim r.body [
  | none ↦ err read_failed
  | some body ↦
      if not (eqb r.status_code 200)
      then err (bad_status r.status_code url)
      else ok (take fetch_limit body)
]

unfoldable pub fetch_github_raw_file :
    HttpClient → Bytes → Bytes → Bytes → Bytes → Outcome FetchError Bytes
fetch_github_raw_file client token full_name sha file_path =
    let url = raw_url full_name sha file_path in
    if not (client.is_url url)
    then err build_failed
    else check_response url (client.send (record { url = url; authorization = bearer token }))
