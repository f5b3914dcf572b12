-- ===== src/Git/Message.antt =====
-- internal/git/worker.go: the message of the commit of a batch. A batch is a map, so its order is that
-- of a `range`.
pub mod Order
pub mod Body
pub mod SkipCi
use accord.Base.{
  ℕ, zero, suc, Bool, true, false, List, [], ◌∷◌, ◌++◌, Option, none, some, Bytes, codes, ◌==◌,
  if◌then◌else◌, length,
}
use accord.Strings.{trim_suffix}
use accord.Collections.{sort_strings}
use accord.Decimal.{decimal}
use accord.Dict.{Dict, lookup, keys}
use accord.Git.ArchivePath.{resource_name_from_inventory_path}
use accord.Git.Queue.{PendingExport, write, archive}

abbrev pub newline : Bytes
newline = b'\n' ∷ []

abbrev pub max_paths : ℕ
max_paths = 10

-- `[skip ci]` keeps the push from starting a build.
unfoldable pub commit_subject : ℕ → Bytes
commit_subject n = codes "chore(inventory): sync " ++ (decimal n ++ codes " resources [skip ci]")

-- The lines of the first paths, and one that counts those left out.
unfoldable pub body_lines : ℕ → List Bytes → Bytes
body_lines room [] = []
body_lines zero (p ∷ paths) =
    codes "... and " ++ (decimal (length (p ∷ paths)) ++ (codes " more" ++ newline))
body_lines (suc room) (p ∷ paths) = p ++ (newline ++ body_lines room paths)

unfoldable pub commit_body : List Bytes → Bytes
commit_body paths = trim_suffix (body_lines max_paths paths) newline

unfoldable pub sorted_keys_batch : Dict PendingExport → List Bytes
sorted_keys_batch m = sort_strings (keys m)

-- The kind of `m[p]`: a write, where the key is missing.
abbrev pub is_archive : Option PendingExport → Bool
is_archive none = false
is_archive (some (write content)) = false
is_archive (some archive) = true

unfoldable pub writes_of : Dict PendingExport → List Bytes → List Bytes
writes_of batch [] = []
writes_of batch (p ∷ paths) =
    let rest = writes_of batch paths in if is_archive (lookup p batch) then rest else p ∷ rest

unfoldable pub archives_of : Dict PendingExport → List Bytes → List Bytes
archives_of batch [] = []
archives_of batch (p ∷ paths) =
    let rest = archives_of batch paths in if is_archive (lookup p batch) then p ∷ rest else rest

abbrev pub archive_subject : Bytes → Bytes
archive_subject what =
    codes "feat(archive): move deleted resource " ++ (what ++ codes " to archive [skip ci]")

abbrev pub mixed_subject : ℕ → ℕ → Bytes
mixed_subject w a =
    codes "chore(inventory): sync "
    ++ (decimal w ++ (codes " and archive " ++ (decimal a ++ codes " resources [skip ci]")))

abbrev pub mixed_body : Bytes → Bytes → Bytes
mixed_body b1 b2 =
    if b1 == []
    then codes "archive:" ++ (newline ++ b2)
    else if b2 == []
    then codes "write:" ++ (newline ++ b1)
    else codes "write:" ++ (newline ++ (b1 ++ (newline ++ (codes "archive:" ++ (newline ++ b2)))))

-- The subject and the body, from the paths that are written and those that are archived.
unfoldable pub message_of : List Bytes → List Bytes → Bytes × Bytes
message_of [] [] = (mixed_subject 0 0, mixed_body (commit_body []) (commit_body []))
message_of [] (a ∷ []) =
    (archive_subject (resource_name_from_inventory_path a), commit_body (a ∷ []))
message_of [] (a ∷ b ∷ archives) = (
  archive_subject (decimal (length (a ∷ b ∷ archives)) ++ codes " resources"),
  commit_body (a ∷ b ∷ archives),
)
message_of (w ∷ writes) [] = (commit_subject (length (w ∷ writes)), commit_body (w ∷ writes))
message_of (w ∷ writes) (a ∷ archives) = (
  mixed_subject (length (w ∷ writes)) (length (a ∷ archives)),
  mixed_body (commit_body (w ∷ writes)) (commit_body (a ∷ archives)),
)

unfoldable pub commit_message_for_batch : Dict PendingExport → List Bytes → Bytes × Bytes
commit_message_for_batch batch sorted_paths =
    message_of (writes_of batch sorted_paths) (archives_of batch sorted_paths)

-- `fullMsg` of `exportBatch`.
abbrev pub with_body : Bytes × Bytes → Bytes
with_body (subject, body) =
    if body == [] then subject else subject ++ (newline ++ (newline ++ body))

unfoldable pub full_message : Dict PendingExport → Bytes
full_message batch = with_body (commit_message_for_batch batch (sorted_keys_batch batch))
