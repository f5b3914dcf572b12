-- ===== src/Sync/GitHub.antt =====
-- internal/sync/github.go: the paths that a GitHub push touches. `json.Unmarshal` into the event is a
-- parameter, which fails on a body that is no such JSON.
pub mod Paths
use accord.Base.{
  ◌||◌, List, [], ◌∷◌, ◌++◌, Option, none, some, Bytes, codes, ◌==◌, if◌then◌else◌, Outcome, ok,
  err,
}
use accord.Collections.{add, delete, sort_strings}

pub record Commit : Type 0 where
  pub added : List Bytes
  pub modified : List Bytes
  pub removed : List Bytes

-- `head_commit` is a pointer to a struct with the field `id`.
pub record PushEvent : Type 0 where
  pub full_name : Bytes
  pub head_commit : Option Bytes
  pub after : Bytes
  pub commits : List Commit

pub record PushPaths : Type 0 where
  pub full_name : Bytes
  pub head_sha : Bytes
  pub added_modified : List Bytes
  pub removed : List Bytes

pub data PushError : Type 0 where
  bad_json missing_full_name missing_sha : PushError

abbrev pub zero_sha : Bytes
zero_sha = codes "0000000000000000000000000000000000000000"

-- The id of the head commit, or `after` where that is absent or empty.
abbrev pub or_after : Bytes → Bytes → Bytes
or_after [] after = after
or_after (c ∷ id) after = c ∷ id

abbrev pub commit_id : Option Bytes → Bytes
commit_id none = []
commit_id (some id) = id

unfoldable pub head_sha : PushEvent → Bytes
head_sha ev = or_after (commit_id ev.head_commit) ev.after

-- One of the loops `for _, p := range paths { if p != "" { seen[p] = struct{}{} } }`.
unfoldable pub add_paths : List Bytes → List Bytes → List Bytes
add_paths [] seen = seen
add_paths (p ∷ paths) seen = add_paths paths (if p == [] then seen else add p seen)

unfoldable pub seen_added : List Commit → List Bytes → List Bytes
seen_added [] seen = seen
seen_added (c ∷ commits) seen = seen_added commits (add_paths c.modified (add_paths c.added seen))

unfoldable pub seen_removed : List Commit → List Bytes → List Bytes
seen_removed [] seen = seen
seen_removed (c ∷ commits) seen = seen_removed commits (add_paths c.removed seen)

-- `for p := range seenAdded { delete(seenRemoved, p) }`
unfoldable pub delete_all : List Bytes → List Bytes → List Bytes
delete_all [] seen = seen
delete_all (p ∷ paths) seen = delete_all paths (delete p seen)

unfoldable pub push_paths : PushEvent → PushPaths
push_paths ev =
    let added = seen_added ev.commits [] in
    let removed = delete_all added (seen_removed ev.commits []) in
    record {
      full_name = ev.full_name;
      head_sha = head_sha ev;
      added_modified = sort_strings added;
      removed = sort_strings removed;
    }

unfoldable pub check_event : PushEvent → Outcome PushError PushPaths
check_event ev =
    if ev.full_name == []
    then err missing_full_name
    else if head_sha ev == [] || head_sha ev == zero_sha
    then err missing_sha
    else ok (push_paths ev)

unfoldable pub parse_github_push_paths :
    (Bytes → Option PushEvent) → Bytes → Outcome PushError PushPaths
parse_github_push_paths decode body = elim (decode body) [
  | none ↦ err bad_json
  | some ev ↦ check_event ev
]
