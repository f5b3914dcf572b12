-- ===== src/Sync/Fetch/Laws.antt =====
-- What a fetch yields, and how much of it.
use mathlib.Core.Path.{subst}
use accord.Base.{
  ◌++◌, ◌⊎◌, append-nil, eqb_iff, ℕ, zero, suc, ◌≤◌, Bool, true, false, not, [], ◌∷◌, Option, none,
  some, Bytes, length, eqb, if◌then◌else◌, Outcome, ok, err, ok-injective, ◌≡◌, ◌↔◌, refl, ap, ◌∙◌,
  arith, Bool-cases, Option-cases, inl, inr,
}
use accord.Sync.Fetch.{
  HttpResponse, HttpClient, FetchError, bad_status, take, fetch_limit, bearer, raw_url,
  check_response, fetch_github_raw_file,
}

length-take : (n : ℕ) (s : Bytes) → length (take n s) ≤ n
unfolding take
length-take zero s = omega arith
length-take (suc n) [] = omega arith
length-take (suc n) (c ∷ s) = omega (arith, length-take n s)

take_all : (n : ℕ) (s : Bytes) → length s ≤ n → take n s ≡ s
unfolding take
take_all zero [] h = refl
take_all zero (c ∷ s) h = absurd (omega (arith, h))
take_all (suc n) [] h = refl
take_all (suc n) (c ∷ s) h = ap (λ t. c ∷ t) (take_all n s (omega (arith, h)))

take-append : (n : ℕ) (s t : Bytes) → length s ≡ n → take n (s ++ t) ≡ s
unfolding take
take-append zero [] t h = refl
take-append zero (c ∷ s) t h = absurd (omega (arith, h))
take-append (suc n) [] t h = absurd (omega (arith, h))
take-append (suc n) (c ∷ s) t h = ap (λ u. c ∷ u) (take-append n s t (omega (arith, h)))

-- The first `limit` bytes of a text, or the whole text if it has no more.
pub record IsStart (limit : ℕ) (body raw : Bytes) : Type 0 where
  pub behind : Bytes
  pub split : body ≡ raw ++ behind
  pub bounded : length raw ≤ limit
  pub full : (length raw ≡ limit) ⊎ (behind ≡ [])

full_suc : (n m : ℕ) (behind : Bytes) → (m ≡ n) ⊎ (behind ≡ []) → (suc m ≡ suc n) ⊎ (behind ≡ [])
full_suc n m behind (inl e) = inl (ap suc e)
full_suc n m behind (inr e) = inr e

take-IsStart : (n : ℕ) (s : Bytes) → IsStart n s (take n s)
unfolding take
take-IsStart zero s = record { behind = s; split = refl; bounded = omega arith; full = inl refl }
take-IsStart (suc n) [] = record {
  behind = [];
  split = refl;
  bounded = omega arith;
  full = inr refl;
}
take-IsStart (suc n) (c ∷ s) =
    let x = take-IsStart n s in
    record {
      behind = x.behind;
      split = ap (λ t. c ∷ t) x.split;
      bounded = omega (arith, x.bounded);
      full = full_suc n (length (take n s)) x.behind x.full;
    }

take_only : (n : ℕ) (s raw : Bytes) → IsStart n s raw → take n s ≡ raw
take_only n s raw x = ap (take n) x.split ∙ elim x.full [
  | inl all ↦ take-append n raw x.behind all
  | inr nothing ↦
      ap (λ t. take n (raw ++ t)) nothing ∙ ap (take n) (append-nil raw) ∙ take_all n raw x.bounded
]

-- The server answered with status 200 and a body, of which this is the start.
pub record IsFetched (answer : Option HttpResponse) (raw : Bytes) : Type 0 where
  pub response : HttpResponse
  pub body : Bytes
  pub answered : answer ≡ some response
  pub status_ok : response.status_code ≡ 200
  pub readable : response.body ≡ some body
  pub start : IsStart fetch_limit body raw

abbrev check_body : Bool → ℕ → Bytes → Bytes → Outcome FetchError Bytes
check_body good code url body =
    if not good then err (bad_status code url) else ok (take fetch_limit body)

check_body_ok :
    (good : Bool) (code : ℕ) (url body raw : Bytes)
    → check_body good code url body ≡ ok raw
    → (good ≡ true) × (take fetch_limit body ≡ raw)
check_body_ok true code url body raw h = (refl, ok-injective h)
check_body_ok false code url body raw h = cc

check_response_ok :
    (url : Bytes) (answer : Option HttpResponse) (raw : Bytes)
    → check_response url answer ≡ ok raw
    → IsFetched answer raw
unfolding check_response
check_response_ok url none raw h = cc
check_response_ok url (some r) raw h = elim (Option-cases r.body) [
  | inl unreadable ↦ absurd (cc (rw unreadable at h))
  | inr (body, readable) ↦
      let (good, same) =
        check_body_ok (eqb r.status_code 200) r.status_code url body raw (rw readable at h) in
      record {
        response = r;
        body = body;
        answered = refl;
        status_ok = (eqb_iff r.status_code 200).0 good;
        readable = readable;
        start = subst (IsStart fetch_limit body) same (take-IsStart fetch_limit body);
      }
]

check_response_fetched :
    (url : Bytes) (answer : Option HttpResponse) (raw : Bytes)
    → IsFetched answer raw
    → check_response url answer ≡ ok raw
unfolding check_response
check_response_fetched url answer raw x =
    rw (x.answered, check_response, x.readable, x.status_ok)
      (ap ok (take_only fetch_limit x.body raw x.start))

module _ (client : HttpClient) (token full_name sha path : Bytes) where
  -- A fetch succeeds exactly where the URL can be parsed and the server answers the request, which
  -- carries the token unless that is blank, with status 200 and a body that can be read; and it yields
  -- that body or, of a longer one, the first 8 MiB.
  pub fetch_iff :
      (raw : Bytes)
      → (fetch_github_raw_file client token full_name sha path ≡ ok raw) ↔ (
          (client.is_url (raw_url full_name sha path) ≡ true)
          × IsFetched
              (client.send
                (record { url = raw_url full_name sha path; authorization = bearer token }))
              raw)
  unfolding fetch_github_raw_file
  fetch_iff raw = elim (Bool-cases (client.is_url (raw_url full_name sha path))) [
    | inl good ↦ (
      λ h. (good, check_response_ok _ _ raw (rw good at h)),
      λ x. rw (fetch_github_raw_file, good) (check_response_fetched _ _ raw x.1),
    )
    | inr bad ↦ (λ h. absurd (cc (rw bad at h)), λ x. absurd (cc (x.0, bad)))
  ]
