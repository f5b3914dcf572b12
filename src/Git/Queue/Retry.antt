-- ===== src/Git/Queue/Retry.antt =====
-- A flush loses nothing by a failure, but what it puts back replaces what came in meanwhile.
use accord.Base.{[], ◌∷◌, List, Bytes, Option, none, some, ◌≡◌, refl, ◌∙◌, ap}
use accord.Dict.{Dict, lookup, keys}
use accord.Dict.Laws.{lookup-copy_into, or_else}
use accord.Collections.Sorting.{Distinct}
use accord.Git.Queue.{
  PendingExport, BatchWorker, enqueue, enqueue_archive, flush_start, FlushEnd, dropped, published,
  failed, end_batch, flush_end, new_batch_worker,
}
use accord.Git.Queue.Debounce.{
  Call, export_call, archive_call, run_call, run_calls, last_op, lookup-run_calls,
}

-- A whole flush of an idle worker, with the calls that come in while the batch is exported.
unfoldable pub flush : FlushEnd → List Call → BatchWorker → BatchWorker
flush how calls w = flush_end how (run_calls calls (flush_start w))

-- Calls leave the batch alone.
run_calls-in_flight :
    (calls : List Call) (w : BatchWorker) → (run_calls calls w).in_flight ≡ w.in_flight
unfolding run_calls run_call enqueue enqueue_archive
run_calls-in_flight [] w = refl
run_calls-in_flight (export_call job ∷ calls) w = run_calls-in_flight calls _
run_calls-in_flight (archive_call path ∷ calls) w = run_calls-in_flight calls _

-- What a flush of the pending operations leaves for a path, from what was and what came in.
abbrev pub left_over : FlushEnd → Option PendingExport → Option PendingExport → Option PendingExport
left_over failed batch new = or_else batch new
left_over dropped batch new = new
left_over published batch new = new

lookup-end_batch :
    (how : FlushEnd) (p : Bytes) (batch pending : Dict PendingExport)
    → Distinct (keys batch)
    → lookup p (end_batch how batch pending) ≡ left_over how (lookup p batch) (lookup p pending)
lookup-end_batch dropped p batch pending d = refl
lookup-end_batch published p batch pending d = refl
lookup-end_batch failed p batch pending d = lookup-copy_into p batch pending d

left_over-none : (how : FlushEnd) (o : Option PendingExport) → left_over how none o ≡ o
left_over-none dropped o = refl
left_over-none published o = refl
left_over-none failed o = refl

lookup-flush_from :
    (how : FlushEnd) (p : Bytes) (calls : List Call) (pending : Dict PendingExport)
    → Distinct (keys pending)
    → lookup p (flush how calls (record { pending = pending; in_flight = none })).pending
      ≡ left_over how (lookup p pending) (last_op p calls none)
unfolding flush flush_start lookup flush_end
lookup-flush_from how p calls [] d =
    let w = record new_batch_worker { pending = [] } in
    rw (flush_end, run_calls-in_flight calls w, left_over-none how (last_op p calls none))
      (lookup-run_calls p calls w)
lookup-flush_from how p calls (e ∷ batch) d =
    let w : BatchWorker = record { pending = []; in_flight = some (e ∷ batch) } in
    rw (flush_end, run_calls-in_flight calls w)
      (lookup-end_batch how p (e ∷ batch) (run_calls calls w).pending d
        ∙ ap (left_over how (lookup p (e ∷ batch))) (lookup-run_calls p calls w))

-- After the flush of an idle worker the pending operation of a path is the last one that came in
-- while the batch was exported, where the batch was published or dropped. Where it failed, the
-- operation of the batch comes first, and the one that came in counts only for a path that the batch
-- does not have.
pub lookup-flush :
    (how : FlushEnd) (p : Bytes) (calls : List Call) (w : BatchWorker)
    → w.in_flight ≡ none
    → Distinct (keys w.pending)
    → lookup p (flush how calls w).pending
      ≡ left_over how (lookup p w.pending) (last_op p calls none)
lookup-flush how p calls w idle d =
    let e : w ≡ record { pending = w.pending; in_flight = none } =
      λ i. record { pending = w.pending; in_flight = idle i } in
    ap (λ v. lookup p (flush how calls v).pending) e ∙ lookup-flush_from how p calls w.pending d

-- A flush that fails while nothing comes in leaves every path with the operation that it had: nothing
-- is lost, and the next flush tries it again.
pub flush-failed_keeps :
    (p : Bytes) (w : BatchWorker)
    → w.in_flight ≡ none
    → Distinct (keys w.pending)
    → lookup p (flush failed [] w).pending ≡ lookup p w.pending
unfolding last_op
flush-failed_keeps p w idle d =
    lookup-flush failed p [] w idle d ∙ or_else-none (lookup p w.pending)
  where
    or_else-none : (o : Option PendingExport) → or_else o none ≡ o
    or_else-none none = refl
    or_else-none (some v) = refl
