-- ===== src/Tests/Queue.antt =====
-- The batch worker: a guestbook that is written, deleted while the batch is exported, and retried.
use accord.Base.{[], ◌∷◌, List, none, Bytes, codes, ◌≡◌, refl}
use accord.Collections.Sorting.{Distinct}
use accord.Dict.{lookup, keys, dicts}
use accord.Git.Queue.{PendingExport, write, archive, BatchWorker, failed}
use accord.Git.Queue.Debounce.{Call, archive_call, last_op}
use accord.Git.Queue.Retry.{flush, left_over, lookup-flush}

abbrev file : Bytes
file = codes "inventory/applications/argocd/guestbook.yaml"

abbrev other : Bytes
other = codes "inventory/applications/argocd/shop.yaml"

abbrev first_version : PendingExport
first_version = write (codes "v1")

abbrev loaded : BatchWorker
loaded = record { pending = (file, first_version) ∷ (other, archive) ∷ []; in_flight = none }

abbrev deletion : List Call
deletion = archive_call file ∷ []

loaded-Distinct : Distinct (keys loaded.pending)
unfolding dicts
loaded-Distinct = (refl, (refl, tt))

lookup-flush_example :
    lookup file (flush failed deletion loaded).pending
    ≡ left_over failed (lookup file loaded.pending) (last_op file deletion none)
lookup-flush_example = lookup-flush failed file deletion loaded refl loaded-Distinct
