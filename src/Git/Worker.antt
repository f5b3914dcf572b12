-- ===== src/Git/Worker.antt =====
-- internal/git/worker.go: the batch worker as a process. `Start` waits for a tick or for the end of its
-- context and flushes at each tick; the reconcilers call the worker at any time.
pub mod History
pub mod Runs
pub mod Draining
use accord.Base.{Bool, true, false, List, [], ◌∷◌, Option, none, some, ℕ, zero, suc, ◌≡◌}
use accord.Dict.{Dict, copy_into}
use accord.Config.{InventoryControllerConfig}
use accord.Git.Queue.{
  PendingExport, BatchWorker, new_batch_worker, flush_start, FlushEnd, dropped, published, failed,
  flush_end,
}
use accord.Git.Queue.Debounce.{Call, run_call}
use accord.Git.Export.{Host, flush_batch}

module _ (H : Host) (cfg : InventoryControllerConfig) where
  -- The worker, the state of the host, and whether `Start` has returned.
  pub record Process : Type 0 where
    pub worker : BatchWorker
    pub host : H.State
    pub stopped : Bool

  abbrev pub started : H.State → Process
  started h = record { worker = new_batch_worker; host = h; stopped = false }

  -- The second half of `flush`, for the batch in flight.
  abbrev pub finish_flush : Dict PendingExport → Process → Process
  finish_flush batch s =
      let (h, how) = flush_batch H cfg batch s.host in
      record s { worker = flush_end how s.worker; host = h }

  -- The two cases of the select of `Start`. A flush that a tick starts ends in a later step; at the end
  -- of its context `Start` returns.
  abbrev pub on_tick : Process → Process
  on_tick s = record s { worker = flush_start s.worker }

  unfoldable pub on_done : Process → Process
  on_done s = record s { stopped = true }

  -- A call, a tick, the end of a flush, the end of the context. The loop waits in its select only while
  -- no flush runs and `Start` has not returned.
  pub data Step (s t : Process) : Type 0 where
    call : (c : Call) → t ≡ record s { worker = run_call c s.worker } → Step s t
    tick : s.stopped ≡ false → s.worker.in_flight ≡ none → t ≡ on_tick s → Step s t
    finish :
        (batch : Dict PendingExport)
        → s.worker.in_flight ≡ some batch
        → t ≡ finish_flush batch s
        → Step s t
    stop : s.stopped ≡ false → s.worker.in_flight ≡ none → t ≡ on_done s → Step s t

  pub data Steps (s : Process) : Process → Type 0 where
    here : Steps s s
    further : {t u : Process} → Steps s t → Step t u → Steps s u
