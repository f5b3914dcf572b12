-- ===== src/Git/Queue/Debounce.antt =====
-- The last operation on a path wins.
use accord.Base.{[], ◌∷◌, List, Bytes, ◌==◌, if◌then◌else◌, Option, some, ◌≡◌, refl, ◌∙◌}
use accord.Dict.{lookup, keys}
use accord.Dict.Laws.{lookup-insert, insert-Distinct}
use accord.Collections.Sorting.{Distinct}
use accord.Git.Queue.{
  PendingExport, write, archive, ExportJob, BatchWorker, enqueue, enqueue_archive,
}

-- A call of the reconcilers.
pub data Call : Type 0 where
  export_call : ExportJob → Call
  archive_call : Bytes → Call

unfoldable pub run_call : Call → BatchWorker → BatchWorker
run_call (export_call job) w = enqueue job w
run_call (archive_call path) w = enqueue_archive path w

unfoldable pub run_calls : List Call → BatchWorker → BatchWorker
run_calls [] w = w
run_calls (c ∷ calls) w = run_calls calls (run_call c w)

-- What the calls, read from the first to the last, leave to do for a path: the last call on the path
-- decides, and without one what was there before.
abbrev pub on_path : Bytes → Call → Option PendingExport → Option PendingExport
on_path p (export_call job) old = if job.path == p then some (write job.content) else old
on_path p (archive_call path) old = if path == p then some archive else old

unfoldable pub last_op : Bytes → List Call → Option PendingExport → Option PendingExport
last_op p [] old = old
last_op p (c ∷ calls) old = last_op p calls (on_path p c old)

pub lookup-run_call :
    (p : Bytes) (c : Call) (w : BatchWorker)
    → lookup p (run_call c w).pending ≡ on_path p c (lookup p w.pending)
unfolding run_call enqueue enqueue_archive
lookup-run_call p (export_call job) w = lookup-insert p job.path (write job.content) w.pending
lookup-run_call p (archive_call path) w = lookup-insert p path archive w.pending

-- Between two flushes every path has one pending operation at most, and it is the last one that was
-- asked for: however many calls there were, a write or an archive replaces what was pending.
pub lookup-run_calls :
    (p : Bytes) (calls : List Call) (w : BatchWorker)
    → lookup p (run_calls calls w).pending ≡ last_op p calls (lookup p w.pending)
unfolding run_calls last_op
lookup-run_calls p [] w = refl
lookup-run_calls p (c ∷ calls) w =
    lookup-run_calls p calls (run_call c w) ∙ rw (lookup-run_call p c w)

pub run_calls-Distinct :
    (calls : List Call) (w : BatchWorker)
    → Distinct (keys w.pending)
    → Distinct (keys (run_calls calls w).pending)
unfolding run_calls run_call enqueue enqueue_archive
run_calls-Distinct [] w d = d
run_calls-Distinct (export_call job ∷ calls) w d =
    run_calls-Distinct calls _ (insert-Distinct job.path (write job.content) w.pending d)
run_calls-Distinct (archive_call path ∷ calls) w d =
    run_calls-Distinct calls _ (insert-Distinct path archive w.pending d)
