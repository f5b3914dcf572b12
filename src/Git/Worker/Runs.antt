-- ===== src/Git/Worker/Runs.antt =====
-- Any run of the worker with its reconcilers, in any order of calls, ticks and ends of flushes.
use accord.Base.{arith, Bytes, true, false, [], ◌∷◌, none, ◌==◌, ◌≡◌, ◌≢◌, refl, ◌∙◌, ok, err}
use accord.Strings.{trim_space}
use accord.Dict.{Dict, lookup, keys}
use accord.Dict.Laws.{is_present, lookup-insert}
use accord.Config.{InventoryControllerConfig}
use accord.Git.Queue.{
  PendingExport, write, archive, BatchWorker, flush_start, start_batch, dropped, flush_end, enqueue,
  enqueue_archive,
}
use accord.Git.Queue.Debounce.{Call, export_call, archive_call, run_call}
use accord.Git.Export.{Host, Reply, flush_batch, end_of, export_batch}
use accord.Git.Worker.{
  Process, started, on_done, Step, Steps, here, further, call, tick, finish, stop,
}
use accord.Git.Worker.History.{
  Log, empty_log, log_end, in_flight_of, Accounts, call-Accounts, tick-Accounts, finish-Accounts,
}

run_call-in_flight : (c : Call) (w : BatchWorker) → (run_call c w).in_flight ≡ w.in_flight
unfolding run_call enqueue enqueue_archive
run_call-in_flight (export_call job) w = refl
run_call-in_flight (archive_call path) w = refl

in_flight_of-run_call : (c : Call) (w : BatchWorker) → in_flight_of (run_call c w) ≡ in_flight_of w
unfolding run_call enqueue enqueue_archive
in_flight_of-run_call (export_call job) w = refl
in_flight_of-run_call (archive_call path) w = refl

run_call-pending :
    (p : Bytes) (c : Call) (w : BatchWorker)
    → is_present (lookup p w.pending) ≡ true
    → is_present (lookup p (run_call c w).pending) ≡ true
unfolding run_call enqueue enqueue_archive
run_call-pending p (export_call job) w m =
    ground (arith, lookup-insert p job.path (write job.content) w.pending)
run_call-pending p (archive_call path) w m = ground (arith, lookup-insert p path archive w.pending)

-- What a tick makes of an idle worker.
start_batch-layers :
    (pending : Dict PendingExport) (w : BatchWorker)
    → w.in_flight ≡ none
    → w.pending ≡ pending
    → ((start_batch pending w).pending ≡ []) × (in_flight_of (start_batch pending w) ≡ pending)
start_batch-layers [] w idle e = (e, rw idle)
start_batch-layers (x ∷ pending) w idle e = (refl, refl)

flush_start-layers :
    (w : BatchWorker)
    → w.in_flight ≡ none
    → ((flush_start w).pending ≡ []) × (in_flight_of (flush_start w) ≡ w.pending)
unfolding flush_start
flush_start-layers w idle = rw (flush_start, idle) (start_batch-layers w.pending w idle refl)

module _ (H : Host) (cfg : InventoryControllerConfig) where
  -- What a step adds to the log.
  abbrev pub log_step : {s t : Process H cfg} → Step H cfg s t → Log → Log
  log_step (call c e) l = record l { asked = c ∷ l.asked }
  log_step (tick running idle e) l = l
  log_step {s} (finish batch busy e) l = log_end (flush_batch H cfg batch s.host).1 batch l
  log_step (stop running idle e) l = l

  abbrev pub log_steps : {s t : Process H cfg} → Steps H cfg s t → Log → Log
  log_steps here l = l
  log_steps (further r x) l = log_step x (log_steps r l)

  pub data Reach (h : H.State) : Log → Process H cfg → Type 0 where
    start : Reach h empty_log (started H cfg h)
    next :
        {l : Log} {s t : Process H cfg}
        → Reach h l s
        → (x : Step H cfg s t) → Reach h (log_step x l) t

  abbrev pub AccountsOf : Log → Process H cfg → Type 0
  AccountsOf l s = Accounts l s.worker.pending (in_flight_of s.worker)

  end_of-ne-dropped : (r : Reply H) → (end_of H r).1 ≢ dropped
  end_of-ne-dropped (s, ok u) e = cc
  end_of-ne-dropped (s, err x) e = cc

  flush_batch-ne-dropped :
      (batch : Dict PendingExport) (h : H.State)
      → (trim_space cfg.git_repo_url == []) ≡ false
      → (flush_batch H cfg batch h).1 ≢ dropped
  unfolding flush_batch
  flush_batch-ne-dropped batch h set =
      rw (flush_batch, set) (end_of-ne-dropped (export_batch H cfg batch h))

  log_step-Accounts :
      {s t : Process H cfg} (l : Log) (x : Step H cfg s t)
      → (trim_space cfg.git_repo_url == []) ≡ false
      → AccountsOf l s
      → AccountsOf (log_step x l) t
  unfolding flush_end on_done
  log_step-Accounts {s} l (call c e) set a =
      rw (e, in_flight_of-run_call c s.worker)
        (call-Accounts c l s.worker (in_flight_of s.worker) a)
  log_step-Accounts {s} l (tick running idle e) set a =
      let (none_left, taken) = flush_start-layers s.worker idle in
      rw (e, none_left, taken) (tick-Accounts l s.worker.pending (rw idle at a))
  log_step-Accounts {s} l (finish batch busy e) set a =
      rw (e, flush_end, busy)
        (finish-Accounts l s.worker.pending batch (flush_batch H cfg batch s.host).1
          (flush_batch-ne-dropped batch s.host set) (rw busy at a))
  log_step-Accounts {s} l (stop running idle e) set a = rw e a

  started-Accounts : (h : H.State) → AccountsOf empty_log (started H cfg h)
  unfolding lookup keys
  started-Accounts h = record {
    pending_distinct = tt;
    flight_distinct = tt;
    located = λ p. refl;
    latest = λ clean p. refl;
  }

  -- In every run of a worker that has a repository, whatever fails, a path is pending, in flight or
  -- exported exactly if some call named it. And where no flush has failed, the operation found for a
  -- path, in what is pending, else in what is in flight, else in what was exported last, is that of the
  -- newest call on it.
  pub Reach-Accounts :
      (h : H.State) {l : Log} {s : Process H cfg}
      → (trim_space cfg.git_repo_url == []) ≡ false
      → Reach h l s
      → AccountsOf l s
  Reach-Accounts h set start = started-Accounts h
  Reach-Accounts h set (next {l} r x) = log_step-Accounts l x set (Reach-Accounts h set r)

  -- `Start` has returned, the host is as it was, and what was pending still is.
  record IsOver (s t : Process H cfg) : Type 0 where
    over : t.stopped ≡ true
    idle_then : t.worker.in_flight ≡ none
    host_kept : t.host ≡ s.host
    still_pending :
        (p : Bytes)
        → is_present (lookup p s.worker.pending) ≡ true
        → is_present (lookup p t.worker.pending) ≡ true

  further-IsOver : {s t u : Process H cfg} → Step H cfg t u → IsOver s t → IsOver s u
  further-IsOver {s} {t} (call c e) a = rw e (record {
    over = a.over;
    idle_then = run_call-in_flight c t.worker ∙ a.idle_then;
    host_kept = a.host_kept;
    still_pending = λ p m. run_call-pending p c t.worker (a.still_pending p m);
  })
  further-IsOver (tick running idle e) a = cc (running, a.over)
  further-IsOver (finish batch busy e) a = cc (busy, a.idle_then)
  further-IsOver (stop running idle e) a = cc (running, a.over)

  on_done-IsOver : (s : Process H cfg) → s.worker.in_flight ≡ none → IsOver s (on_done H cfg s)
  unfolding on_done
  on_done-IsOver s idle = record {
    over = refl;
    idle_then = idle;
    host_kept = refl;
    still_pending = λ p m. m;
  }

  Steps-IsOver :
      (s : Process H cfg) {t : Process H cfg}
      → s.worker.in_flight ≡ none
      → Steps H cfg (on_done H cfg s) t
      → IsOver s t
  Steps-IsOver s idle here = on_done-IsOver s idle
  Steps-IsOver s idle (further r x) = further-IsOver x (Steps-IsOver s idle r)

  -- What is pending when the context of the worker ends is not exported any more. From the end of the context
  -- on, at which no flush runs, whatever is called and whatever time passes: the state of the host stays
  -- as it is, and every path with a pending operation still has one.
  pub on_done-pending :
      (s : Process H cfg) {t : Process H cfg} (p : Bytes)
      → s.worker.in_flight ≡ none
      → Steps H cfg (on_done H cfg s) t
      → is_present (lookup p s.worker.pending) ≡ true
      → (t.host ≡ s.host) × (is_present (lookup p t.worker.pending) ≡ true)
  on_done-pending s p idle r m = let o = Steps-IsOver s idle r in (o.host_kept, o.still_pending p m)
