-- ===== src/Sync/GitHub/Paths.antt =====
-- The reported paths, described by what the commits of the push list.
use accord.Base.{
  ◌&&◌, ◌||◌, not, Bool, List, [], ◌∷◌, Option, some, ◌≡◌, ◌≢◌, refl, ◌∙◌, arith, Bytes, ◌==◌,
  eq_iff, contains, any, ok, ◌∙◌, Option-cases, inl, inr,
}
use accord.Collections.{add, delete}
use accord.Collections.Sorting.{
  Distinct, IsSorted, contains-add, add-Distinct, contains-delete, delete-Distinct,
  contains-sort_strings, sort_strings-IsSorted,
}
use accord.Sync.GitHub.{
  Commit, PushEvent, PushPaths, zero_sha, head_sha, add_paths, seen_added, seen_removed, delete_all,
  push_paths, check_event, parse_github_push_paths,
}

-- Some commit of the push adds or modifies the path.
abbrev pub is_written : List Commit → Bytes → Bool
is_written commits p = any (λ c. contains c.added p || contains c.modified p) commits

-- Some commit of the push removes the path.
abbrev pub is_removed : List Commit → Bytes → Bool
is_removed commits p = any (λ c. contains c.removed p) commits

contains-add_paths :
    (paths seen : List Bytes) (q : Bytes)
    → contains (add_paths paths seen) q ≡ (contains seen q || not (q == []) && contains paths q)
unfolding add_paths
contains-add_paths [] seen q = ground arith
contains-add_paths (p ∷ paths) seen q = ground (
  arith,
  contains-add_paths paths seen q,
  contains-add_paths paths (add p seen) q,
  contains-add p q seen,
  eq_iff p [],
  eq_iff q [],
  eq_iff p q,
)

add_paths-Distinct : (paths seen : List Bytes) → Distinct seen → Distinct (add_paths paths seen)
unfolding add_paths
add_paths-Distinct [] seen d = d
add_paths-Distinct (p ∷ paths) seen d =
    add_paths-Distinct paths _ (ground (arith, add-Distinct p seen d))

contains-seen_added :
    (commits : List Commit) (seen : List Bytes) (q : Bytes)
    → contains (seen_added commits seen) q
      ≡ (contains seen q || not (q == []) && is_written commits q)
unfolding seen_added
contains-seen_added [] seen q = ground arith
contains-seen_added (c ∷ commits) seen q = ground (
  arith,
  contains-seen_added commits (add_paths c.modified (add_paths c.added seen)) q,
  contains-add_paths c.modified (add_paths c.added seen) q,
  contains-add_paths c.added seen q,
)

seen_added-Distinct :
    (commits : List Commit) (seen : List Bytes) → Distinct seen → Distinct (seen_added commits seen)
unfolding seen_added
seen_added-Distinct [] seen d = d
seen_added-Distinct (c ∷ commits) seen d =
    seen_added-Distinct commits _
      (add_paths-Distinct c.modified _ (add_paths-Distinct c.added seen d))

contains-seen_removed :
    (commits : List Commit) (seen : List Bytes) (q : Bytes)
    → contains (seen_removed commits seen) q
      ≡ (contains seen q || not (q == []) && is_removed commits q)
unfolding seen_removed
contains-seen_removed [] seen q = ground arith
contains-seen_removed (c ∷ commits) seen q = ground (
  arith,
  contains-seen_removed commits (add_paths c.removed seen) q,
  contains-add_paths c.removed seen q,
)

seen_removed-Distinct :
    (commits : List Commit) (seen : List Bytes)
    → Distinct seen
    → Distinct (seen_removed commits seen)
unfolding seen_removed
seen_removed-Distinct [] seen d = d
seen_removed-Distinct (c ∷ commits) seen d =
    seen_removed-Distinct commits _ (add_paths-Distinct c.removed seen d)

contains-delete_all :
    (paths seen : List Bytes) (q : Bytes)
    → contains (delete_all paths seen) q ≡ (contains seen q && not (contains paths q))
unfolding delete_all
contains-delete_all [] seen q = ground arith
contains-delete_all (p ∷ paths) seen q =
    ground (arith, contains-delete_all paths (delete p seen) q, contains-delete p q seen)

delete_all-Distinct : (paths seen : List Bytes) → Distinct seen → Distinct (delete_all paths seen)
unfolding delete_all
delete_all-Distinct [] seen d = d
delete_all-Distinct (p ∷ paths) seen d =
    delete_all-Distinct paths (delete p seen) (delete-Distinct p seen d)

-- What the parser reports of an event.
pub record Reports (ev : PushEvent) (out : PushPaths) : Type 0 where
  pub full_name : out.full_name ≡ ev.full_name
  pub head_sha : out.head_sha ≡ head_sha ev
  pub added_modified :
      (p : Bytes) → contains out.added_modified p ≡ (not (p == []) && is_written ev.commits p)
  pub removed :
      (p : Bytes)
      → contains out.removed p
        ≡ (not (p == []) && is_removed ev.commits p && not (is_written ev.commits p))
  pub added_sorted : IsSorted out.added_modified
  pub removed_sorted : IsSorted out.removed

pub push_paths-Reports : (ev : PushEvent) → Reports ev (push_paths ev)
unfolding push_paths
push_paths-Reports ev =
    let added = seen_added ev.commits [] in
    let removed = seen_removed ev.commits [] in
    record {
      full_name = refl;
      head_sha = refl;
      added_modified = λ p. contains-sort_strings added p ∙ contains-seen_added ev.commits [] p;
      removed = λ p. ground (
        arith,
        contains-sort_strings (delete_all added removed) p,
        contains-delete_all added removed p,
        contains-seen_added ev.commits [] p,
        contains-seen_removed ev.commits [] p,
      );
      added_sorted = sort_strings-IsSorted added (seen_added-Distinct ev.commits [] tt);
      removed_sorted =
          sort_strings-IsSorted (delete_all added removed)
            (delete_all-Distinct added removed (seen_removed-Distinct ev.commits [] tt));
    }

check_event_sound :
    (ev : PushEvent) {out : PushPaths}
    → check_event ev ≡ ok out
    → (out ≡ push_paths ev) × (ev.full_name ≢ []) × (head_sha ev ≢ []) × (head_sha ev ≢ zero_sha)
unfolding check_event
check_event_sound ev h =
    ground (arith, eq_iff ev.full_name [], eq_iff (head_sha ev) [], eq_iff (head_sha ev) zero_sha)

module _ (decode : Bytes → Option PushEvent) (body : Bytes) where
  -- A push event that names its repository and a commit other than the zero hash is always
  -- parsed. The added paths are those that are not empty and that some commit adds or modifies, the
  -- removed paths those that are not empty and that some commit removes and none adds or modifies;
  -- both lists are strictly ascending.
  pub parse-Reports :
      (ev : PushEvent)
      → decode body ≡ some ev
      → ev.full_name ≢ []
      → head_sha ev ≢ []
      → head_sha ev ≢ zero_sha
      → (out : PushPaths) × (parse_github_push_paths decode body ≡ ok out) × Reports ev out
  unfolding parse_github_push_paths check_event
  parse-Reports ev e named present nonzero = (
    push_paths ev,
    rw (e, parse_github_push_paths)
        (ground
          (arith, eq_iff ev.full_name [], eq_iff (head_sha ev) [], eq_iff (head_sha ev) zero_sha)),
    push_paths-Reports ev,
  )

  -- Nothing else is parsed: where the parser succeeds the body is a push event, it names its
  -- repository and a commit other than the zero hash, and the paths are those of the event.
  pub parse_only :
      {out : PushPaths}
      → parse_github_push_paths decode body ≡ ok out
      → (ev : PushEvent) × (decode body ≡ some ev)
        × (out.full_name ≢ [])
        × (out.head_sha ≢ [])
        × (out.head_sha ≢ zero_sha)
        × Reports ev out
  unfolding parse_github_push_paths push_paths
  parse_only {out} h = elim (Option-cases (decode body)) [
    | inl missing ↦ absurd (cc (rw (missing, parse_github_push_paths) at h))
    | inr (ev, found) ↦
        let (shape, named, present, nonzero) =
          check_event_sound ev (rw (found, parse_github_push_paths) at h) in
        rw shape (ev, found, named, present, nonzero, push_paths-Reports ev)
  ]
