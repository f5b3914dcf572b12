-- ===== src/Tests/Push.antt =====
-- Pushes of two commits, and a cluster that is a list of names.
use accord.Base.{[], ◌∷◌, Option, some, Bytes, codes, ok, ◌≡◌, ◌≢◌, refl, arith}
use accord.Dict.{dicts}
use accord.Sync.GitHub.{
  PushEvent, PushPaths, zero_sha, head_sha, push_paths, check_event, parse_github_push_paths,
}
use accord.Sync.GitHub.Paths.{Reports, parse-Reports, parse_only}

abbrev guestbook : Bytes
guestbook = codes "inventory/applications/argocd/guestbook.yaml"

abbrev shop : Bytes
shop = codes "inventory/applications/argocd/shop.yaml"

-- The first commit adds two files, the second one removes one of them and a third one.
abbrev event : PushEvent
event = record {
  full_name = codes "team/config";
  head_commit = some (codes "abc");
  after = zero_sha;
  commits =
      record { added = guestbook ∷ shop ∷ []; modified = []; removed = [] }
      ∷ record { added = []; modified = []; removed = shop ∷ codes "README.md" ∷ [] }
      ∷ [];
}

abbrev decode : Bytes → Option PushEvent
decode body = some event

head-present : head_sha event ≢ []
unfolding head_sha
head-present = ground arith

head-nonzero : head_sha event ≢ zero_sha
unfolding head_sha
head-nonzero = ground arith

event-parsed : parse_github_push_paths decode [] ≡ ok (push_paths event)
unfolding parse_github_push_paths check_event head_sha dicts
event-parsed = refl

parse-Reports_example :
    (out : PushPaths) × (parse_github_push_paths decode [] ≡ ok out) × Reports event out
parse-Reports_example = parse-Reports decode [] event refl (ground arith) head-present head-nonzero

parse_only_example :
    (ev : PushEvent) × (decode [] ≡ some ev)
    × ((push_paths event).full_name ≢ [])
    × ((push_paths event).head_sha ≢ [])
    × ((push_paths event).head_sha ≢ zero_sha)
    × Reports ev (push_paths event)
parse_only_example = parse_only decode [] event-parsed
