-- ===== src/Git/Message/Order.antt =====
-- The message of a commit depends on the batch as a map only.
use accord.Base.{
  Bool, true, false, some, none, eq_iff, [], ◌∷◌, List, Bytes, Option, contains, ◌≡◌, refl, ◌∙◌,
  arith, ◌&&◌, not,
}
use accord.Collections.Sorting.{Distinct, contains-sort_strings}
use accord.Dict.{Dict, lookup, keys}
use accord.Dict.Laws.{sorted_keys-same, is_present, contains-keys}
use accord.Git.Queue.{PendingExport, write, archive}
use accord.Git.Message.{
  sorted_keys_batch, is_archive, writes_of, archives_of, commit_message_for_batch, full_message,
}

module _ (a b : Dict PendingExport) (same : (p : Bytes) → lookup p a ≡ lookup p b) where
  sorted_keys_batch-same :
      Distinct (keys a) → Distinct (keys b) → sorted_keys_batch a ≡ sorted_keys_batch b
  unfolding sorted_keys_batch
  sorted_keys_batch-same d d' = sorted_keys-same a b same d d'

  writes_of-same : (paths : List Bytes) → writes_of a paths ≡ writes_of b paths
  unfolding writes_of
  writes_of-same [] = refl
  writes_of-same (p ∷ paths) = rw (same p, writes_of-same paths) refl

  archives_of-same : (paths : List Bytes) → archives_of a paths ≡ archives_of b paths
  unfolding archives_of
  archives_of-same [] = refl
  archives_of-same (p ∷ paths) = rw (same p, archives_of-same paths) refl

  -- Two batches with the same pending operation for every path have the same commit message, in
  -- whatever order a range meets their paths. Each batch has every path once.
  pub full_message_unordered :
      Distinct (keys a) → Distinct (keys b) → full_message a ≡ full_message b
  unfolding full_message commit_message_for_batch
  full_message_unordered d d' =
      rw
        (
          sorted_keys_batch-same d d',
          writes_of-same (sorted_keys_batch b),
          archives_of-same (sorted_keys_batch b),
        )
        refl

contains-archives_of :
    (batch : Dict PendingExport) (paths : List Bytes) (p : Bytes)
    → contains (archives_of batch paths) p ≡ (contains paths p && is_archive (lookup p batch))
unfolding archives_of
contains-archives_of batch [] p = refl
contains-archives_of batch (q ∷ paths) p =
    ground (arith, contains-archives_of batch paths p, eq_iff q p)

contains-writes_of :
    (batch : Dict PendingExport) (paths : List Bytes) (p : Bytes)
    → contains (writes_of batch paths) p ≡ (contains paths p && not (is_archive (lookup p batch)))
unfolding writes_of
contains-writes_of batch [] p = refl
contains-writes_of batch (q ∷ paths) p =
    ground (arith, contains-writes_of batch paths p, eq_iff q p)

abbrev pub is_write : Option PendingExport → Bool
is_write none = false
is_write (some (write content)) = true
is_write (some archive) = false

present_write : (o : Option PendingExport) → (is_present o && not (is_archive o)) ≡ is_write o
present_write none = refl
present_write (some (write content)) = refl
present_write (some archive) = refl

present_archive : (o : Option PendingExport) → (is_present o && is_archive o) ≡ is_archive o
present_archive none = refl
present_archive (some (write content)) = refl
present_archive (some archive) = refl

contains-sorted_keys_batch :
    (batch : Dict PendingExport) (p : Bytes)
    → contains (sorted_keys_batch batch) p ≡ is_present (lookup p batch)
unfolding sorted_keys_batch
contains-sorted_keys_batch batch p = contains-sort_strings (keys batch) p ∙ contains-keys batch p

-- The message tells writes from archives as the batch has them: a path counts as written exactly when
-- its pending operation is a write, and as archived exactly when it is an archive.
pub contains-message_paths :
    (batch : Dict PendingExport) (p : Bytes)
    → (contains (writes_of batch (sorted_keys_batch batch)) p ≡ is_write (lookup p batch))
      × (contains (archives_of batch (sorted_keys_batch batch)) p ≡ is_archive (lookup p batch))
contains-message_paths batch p = (
  contains-writes_of batch (sorted_keys_batch batch) p
      ∙ rw (contains-sorted_keys_batch batch p) (present_write (lookup p batch)),
  contains-archives_of batch (sorted_keys_batch batch) p
      ∙ rw (contains-sorted_keys_batch batch p) (present_archive (lookup p batch)),
)
