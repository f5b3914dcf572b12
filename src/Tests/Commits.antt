-- ===== src/Tests/Commits.antt =====
-- The commit of a batch that writes one file and archives another.
use accord.Base.{
  some, true, false, ◌⊎◌, [], ◌∷◌, ◌++◌, List, Bytes, codes, ◌≡◌, refl, arith, eq_iff,
}
use accord.Strings.{strings}
use accord.Collections.Sorting.{Distinct}
use accord.Dict.{Dict, lookup, keys, dicts}
use accord.Config.{InventoryControllerConfig, with_interval, pos}
use accord.Git.ArchivePath.{archive_relative_path}
use accord.Git.Export.{Host, missing, basic_auth, export_batch}
use accord.Git.Export.Remote.{OutlastsLocal, export_batch-push}
use accord.Git.Export.Ready.{AreArchivable}
use accord.Git.Queue.{PendingExport, write, archive}
use accord.Git.Message.{sorted_keys_batch, full_message}
use accord.Git.Message.{newline, commit_message_for_batch}
use accord.Git.Message.SkipCi.{IsTagged, full_message-IsTagged}
use accord.Git.Message.Order.{full_message_unordered}

abbrev pub shop : Bytes
shop = codes "inventory/applications/argocd/shop.yaml"

abbrev pub guestbook : Bytes
guestbook = codes "inventory/applications/argocd/guestbook.yaml"

abbrev pub batch : Dict PendingExport
batch = (shop, write (codes "v1")) ∷ (guestbook, archive) ∷ []

abbrev other_order : Dict PendingExport
other_order = (guestbook, archive) ∷ (shop, write (codes "v1")) ∷ []

same_batch : (p : Bytes) → lookup p batch ≡ lookup p other_order
unfolding lookup
same_batch p = ground (arith, eq_iff shop p, eq_iff guestbook p)

batch-Distinct : Distinct (keys batch)
unfolding dicts
batch-Distinct = (refl, (refl, tt))

other_order-Distinct : Distinct (keys other_order)
unfolding dicts
other_order-Distinct = (refl, (refl, tt))

full_message_unordered_example : full_message batch ≡ full_message other_order
full_message_unordered_example =
    full_message_unordered batch other_order same_batch batch-Distinct other_order-Distinct

full_message-IsTagged_example :
    IsTagged (commit_message_for_batch batch (sorted_keys_batch batch)).0
    × ((full_message batch ≡ (commit_message_for_batch batch (sorted_keys_batch batch)).0)
        ⊎ (full_message batch
            ≡ (commit_message_for_batch batch (sorted_keys_batch batch)).0
              ++ (newline
                  ++ (newline ++ (commit_message_for_batch batch (sorted_keys_batch batch)).1))))
full_message-IsTagged_example = full_message-IsTagged batch

-- A host whose state is the list of the messages pushed and of the one committed.
abbrev pub host : Host
host = record {
  State = List Bytes;
  mkdir_temp = λ s. (s, some (codes "/tmp/clone"));
  clone = λ s o d. (s, true);
  mkdir_all = λ s p. (s, true);
  write_file = λ s p c. (s, true);
  stat = λ s p. missing;
  remove = λ s p. s;
  rename = λ s src dest. (s, true);
  opened = λ s d. true;
  has_worktree = λ s d. true;
  add_all = λ s d. (s, true);
  is_clean = λ s d. some false;
  commit = λ s d m. (s, true);
  push = λ s d auth. (codes "pushed" ∷ s, true);
  remove_all = λ s d. s;
}

abbrev NothingPushed : List Bytes → Type 0
NothingPushed s = s ≡ []

host-OutlastsLocal : OutlastsLocal host NothingPushed
host-OutlastsLocal = record {
  mkdir_temp = λ s x. x;
  clone = λ s o d x. x;
  mkdir_all = λ s p x. x;
  write_file = λ s p c x. x;
  remove = λ s p x. x;
  rename = λ s src dest x. x;
  add_all = λ s d x. x;
  commit = λ s d m x. x;
  remove_all = λ s d x. x;
}

abbrev pub config : InventoryControllerConfig
config = with_interval (λ variable. codes "x") (pos 10)

pub batch-AreArchivable : AreArchivable batch
unfolding archive_relative_path strings
batch-AreArchivable = ((_, refl), ((_, refl), tt))

export_batch-push_example :
    NothingPushed (export_batch host config batch []).0
    ⊎ ((dir : Bytes) × (s : List Bytes) × NothingPushed s
        × ((export_batch host config batch []).0
            ≡ host.remove_all (host.push s dir (basic_auth config)).0 dir))
export_batch-push_example =
    export_batch-push host NothingPushed host-OutlastsLocal config batch [] refl
