-- ===== src/Git/Queue.antt =====
-- internal/git/worker.go: the pending operations of the batch worker and its flush. The lock is free
-- while a batch is exported, so the flush is two steps with other calls between them.
pub mod Debounce
pub mod Retry
use accord.Base.{[], ◌∷◌, List, Bool, true, false, Bytes, Option, none, some}
use accord.Dict.{Dict, insert, copy_into}

-- `pendingExport`: the kind of the operation, with the content of a write.
pub data PendingExport : Type 0 where
  write : Bytes → PendingExport
  archive : PendingExport

pub record ExportJob : Type 0 where
  pub path : Bytes
  pub content : Bytes

-- The worker, and the batch that a flush has taken and is exporting.
pub record BatchWorker : Type 0 where
  pub pending : Dict PendingExport
  pub in_flight : Option (Dict PendingExport)

abbrev pub new_batch_worker : BatchWorker
new_batch_worker = record { pending = []; in_flight = none }

-- Only the elected replica pushes.
abbrev pub need_leader_election : BatchWorker → Bool
need_leader_election w = true

unfoldable pub enqueue : ExportJob → BatchWorker → BatchWorker
enqueue job w = record w { pending = insert job.path (write job.content) w.pending }

unfoldable pub enqueue_archive : Bytes → BatchWorker → BatchWorker
enqueue_archive rel_path w = record w { pending = insert rel_path archive w.pending }

-- `len(w.pending) == 0` returns; else the pending map becomes the batch. A worker has one flush at a
-- time, since its only caller is the loop of `Start`.
abbrev pub start_batch : Dict PendingExport → BatchWorker → BatchWorker
start_batch [] w = w
start_batch (e ∷ batch) w = record { pending = []; in_flight = some (e ∷ batch) }

unfoldable pub flush_start : BatchWorker → BatchWorker
flush_start w = elim w.in_flight [ none ↦ start_batch w.pending w | some batch ↦ w ]

-- How a flush ends: without a repository the batch is dropped, an error puts it back.
pub data FlushEnd : Type 0 where
  dropped published failed : FlushEnd

-- `for p, c := range batch { w.pending[p] = c }` after a failure.
abbrev pub end_batch : FlushEnd → Dict PendingExport → Dict PendingExport → Dict PendingExport
end_batch dropped batch pending = pending
end_batch published batch pending = pending
end_batch failed batch pending = copy_into batch pending

unfoldable pub flush_end : FlushEnd → BatchWorker → BatchWorker
flush_end how w = elim w.in_flight [
  | none ↦ w
  | some batch ↦ record { pending = end_batch how batch w.pending; in_flight = none }
]
