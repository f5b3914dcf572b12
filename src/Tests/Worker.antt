-- ===== src/Tests/Worker.antt =====
-- A run of the worker: two operations on different paths, a tick, a third one during the flush, its end.
use accord.Base.{some, none, true, refl, [], ◌∷◌, Bytes, ◌≡◌}
use accord.Strings.{strings}
use accord.Dict.{Dict, lookup, dicts}
use accord.Dict.Laws.{is_present}
use accord.Git.Queue.{PendingExport, archive, flush_start, enqueue_archive}
use accord.Git.Export.{
  join_path, flush_batch, export_batch, in_clone, export_ops, export_op,
  archive_inventory_file_in_clone, move_file, publish, commit_and_push,
}
use accord.Git.ArchivePath.{archive_relative_path}
use accord.Git.Queue.Debounce.{archive_call, run_call}
use accord.Git.Worker.{Process, started, on_done, here, further, call, tick, finish, finish_flush}
use accord.Git.Worker.Runs.{Reach, start, next, AccountsOf, Reach-Accounts, on_done-pending}
use accord.Git.Worker.History.{Log}
use accord.Tests.Commits.{config, shop, guestbook}
use accord.Tests.Files.{disk}

abbrev called : Bytes → Process disk config → Process disk config
called path s = record s { worker = run_call (archive_call path) s.worker }

abbrev ticked : Process disk config → Process disk config
ticked s = record s { worker = flush_start s.worker }

abbrev in_flush : Process disk config
in_flush = ticked (called guestbook (called shop (started disk config [])))

abbrev taken : Dict PendingExport
taken = (shop, archive) ∷ (guestbook, archive) ∷ []

abbrev busy_flush : in_flush.worker.in_flight ≡ some taken
unfolding run_call enqueue_archive flush_start dicts strings
busy_flush = refl

abbrev at_end : Process disk config
at_end = finish_flush disk config taken (called shop in_flush)

abbrev log : Log
log = record {
  asked = archive_call shop ∷ archive_call guestbook ∷ archive_call shop ∷ [];
  exported = taken;
  failures = 0;
}

abbrev one_flush : Reach disk config [] log at_end
unfolding join_path run_call enqueue_archive flush_start dicts strings flush_batch export_batch
    in_clone export_ops export_op archive_inventory_file_in_clone archive_relative_path move_file
    publish commit_and_push
one_flush =
    next
      (next
        (next
          (next (next start (call (archive_call shop) refl)) (call (archive_call guestbook) refl))
          (tick refl refl refl))
        (call (archive_call shop) refl))
      (finish taken refl refl)

Reach-Accounts_example : AccountsOf disk config log at_end
unfolding strings
Reach-Accounts_example = Reach-Accounts disk config [] refl one_flush

abbrev one_asked : Process disk config
one_asked = called shop (started disk config [])

shop_pending : is_present (lookup shop one_asked.worker.pending) ≡ true
unfolding run_call enqueue_archive dicts
shop_pending = refl

one_idle : one_asked.worker.in_flight ≡ none
unfolding run_call enqueue_archive
one_idle = refl

abbrev later_call : Process disk config
later_call = called guestbook (on_done disk config one_asked)

on_done-pending_example :
    (later_call.host ≡ []) × (is_present (lookup shop later_call.worker.pending) ≡ true)
on_done-pending_example =
    on_done-pending disk config one_asked {t = later_call} shop one_idle
      (further here (call (archive_call guestbook) refl)) shop_pending

abbrev asked : Process disk config
asked = called guestbook (called shop (started disk config []))

abbrev asked_log : Log
asked_log = record {
  asked = archive_call guestbook ∷ archive_call shop ∷ [];
  exported = [];
  failures = 0;
}
