-- ===== src/Git/Worker/History.antt =====
-- What a worker has been asked for, and what it has exported, along any run.
use accord.Base.{
  Bool, ◌||◌, List, [], ◌∷◌, Bytes, Option, none, some, ℕ, suc, ◌≡◌, ◌≢◌, refl, arith,
}
use accord.Dict.{Dict, lookup, keys, copy_into}
use accord.Dict.Laws.{is_present, or_else, lookup-copy_into, copy_into-Distinct}
use accord.Collections.Sorting.{Distinct}
use accord.Git.Queue.{PendingExport, BatchWorker, FlushEnd, dropped, published, failed, end_batch}
use accord.Git.Queue.Debounce.{
  Call, export_call, archive_call, run_call, run_calls, on_path, lookup-run_call,
  run_calls-Distinct,
}

-- The calls, the newest first; what was exported, the newest export of a path before an older one; and
-- how many flushes failed.
pub record Log : Type 0 where
  pub asked : List Call
  pub exported : Dict PendingExport
  pub failures : ℕ

abbrev pub empty_log : Log
empty_log = record { asked = []; exported = []; failures = 0 }

-- The operation that the newest call on a path asks for.
abbrev pub newest : Bytes → List Call → Option PendingExport
newest p [] = none
newest p (c ∷ asked) = on_path p c (newest p asked)

abbrev pub log_end : FlushEnd → Dict PendingExport → Log → Log
log_end dropped batch l = l
log_end published batch l = record l { exported = copy_into batch l.exported }
log_end failed batch l = record l { failures = suc l.failures }

abbrev pub in_flight_of : BatchWorker → Dict PendingExport
in_flight_of w = elim w.in_flight [ none ↦ [] | some batch ↦ batch ]

-- A path is somewhere exactly if it was asked for; and where no flush has failed, the newest operation
-- is found in what is pending, else in what is in flight, else in what was exported.
pub record Accounts (l : Log) (pending flight : Dict PendingExport) : Type 0 where
  pub pending_distinct : Distinct (keys pending)
  pub flight_distinct : Distinct (keys flight)
  pub located :
      (p : Bytes)
      → is_present (newest p l.asked) ≡ (
          is_present (lookup p pending)
          || (is_present (lookup p flight) || is_present (lookup p l.exported)))
  pub latest :
      l.failures ≡ 0
      → (p : Bytes)
      → or_else (lookup p pending) (or_else (lookup p flight) (lookup p l.exported))
        ≡ newest p l.asked

present-on_path :
    (p : Bytes) (c : Call) (o : Option PendingExport) (b : Bool) (q : Option PendingExport)
    → is_present q ≡ (is_present o || b)
    → is_present (on_path p c q) ≡ (is_present (on_path p c o) || b)
present-on_path p (export_call job) o b q h = ground arith
present-on_path p (archive_call path) o b q h = ground arith

latest-on_path :
    (p : Bytes) (c : Call) (o older q : Option PendingExport)
    → or_else o older ≡ q
    → or_else (on_path p c o) older ≡ on_path p c q
latest-on_path p (export_call job) o older q h = ground arith
latest-on_path p (archive_call path) o older q h = ground arith

pub call-Accounts :
    (c : Call) (l : Log) (w : BatchWorker) (flight : Dict PendingExport)
    → Accounts l w.pending flight
    → Accounts (record l { asked = c ∷ l.asked }) (run_call c w).pending flight
unfolding run_calls
call-Accounts c l w flight a = record {
  pending_distinct = run_calls-Distinct (c ∷ []) w a.pending_distinct;
  flight_distinct = a.flight_distinct;
  located = λ p.
      rw (lookup-run_call p c w)
        (present-on_path p c (lookup p w.pending) _ (newest p l.asked) (a.located p));
  latest = λ clean p.
      rw (lookup-run_call p c w)
        (latest-on_path p c (lookup p w.pending) _ (newest p l.asked) (a.latest clean p));
}

-- A batch is taken: what was pending is in flight.
pub tick-Accounts :
    (l : Log) (pending : Dict PendingExport) → Accounts l pending [] → Accounts l [] pending
unfolding lookup keys
tick-Accounts l pending a = record {
  pending_distinct = tt;
  flight_distinct = a.pending_distinct;
  located = λ p. a.located p;
  latest = λ clean p. a.latest clean p;
}

published-Accounts :
    (l : Log) (pending batch : Dict PendingExport)
    → Accounts l pending batch
    → Accounts (log_end published batch l) pending []
unfolding lookup keys
published-Accounts l pending batch a = record {
  pending_distinct = a.pending_distinct;
  flight_distinct = tt;
  located = λ p. ground (arith, a.located p, lookup-copy_into p batch l.exported a.flight_distinct);
  latest = λ clean p.
      ground (arith, a.latest clean p, lookup-copy_into p batch l.exported a.flight_distinct);
}

failed-Accounts :
    (l : Log) (pending batch : Dict PendingExport)
    → Accounts l pending batch
    → Accounts (log_end failed batch l) (copy_into batch pending) []
unfolding lookup keys
failed-Accounts l pending batch a = record {
  pending_distinct = copy_into-Distinct batch pending a.pending_distinct;
  flight_distinct = tt;
  located = λ p. ground (arith, a.located p, lookup-copy_into p batch pending a.flight_distinct);
  latest = λ clean p. absurd (omega (arith, clean));
}

pub finish-Accounts :
    (l : Log) (pending batch : Dict PendingExport) (how : FlushEnd)
    → how ≢ dropped
    → Accounts l pending batch
    → Accounts (log_end how batch l) (end_batch how batch pending) []
finish-Accounts l pending batch dropped kept a = absurd (kept refl)
finish-Accounts l pending batch published kept a = published-Accounts l pending batch a
finish-Accounts l pending batch failed kept a = failed-Accounts l pending batch a
