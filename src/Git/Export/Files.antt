-- ===== src/Git/Export/Files.antt =====
-- The files of a batch, whatever the order in which a range meets its entries.
use mathlib.Core.Path.{subst}
use accord.Base.{
  true, false, Option, none, some, [], ◌∷◌, ◌++◌, List, Bytes, contains, contains-append, All, ok,
  eq_iff, eq_refl, ◌≡◌, refl, ◌∙◌, arith,
}
use accord.Collections.Sorting.{Distinct}
use accord.Dict.{Dict}
use accord.Dict.Laws.{or_else}
use accord.Git.ArchivePath.{archive_relative_path}
use accord.Git.Queue.{PendingExport, write, archive}
use accord.Git.Export.{join_path}
use accord.Git.Export.Content.{touched_at, touched, after_at, after_op}

pub Distinct-append :
    (xs ys : List Bytes)
    → Distinct (xs ++ ys)
    → Distinct xs × Distinct ys × ((p : Bytes) → contains xs p ≡ true → contains ys p ≡ false)
Distinct-append [] ys d = (tt, d, λ p h. absurd (ground arith))
Distinct-append (x ∷ xs) ys (h, d) =
    let (dx, dy, apart) = Distinct-append xs ys d in
    (
      (ground (arith, contains-append xs ys x), dx),
      dy,
      λ p k. ground (arith, contains-append xs ys x, eq_iff x p, apart p),
    )

module _ (dir : Bytes) where
  -- All files that a batch names.
  abbrev pub touched_by : Dict PendingExport → List Bytes
  touched_by [] = []
  touched_by (e ∷ batch) = touched dir e ++ touched_by batch

  abbrev pub MovedAt : Bytes → (Bytes → Option Bytes) → (Bytes → Option Bytes) → Bytes → Type 0
  MovedAt rel before after to =
      (after (join_path dir rel) ≡ none)
      × (after (join_path dir to)
          ≡ or_else (before (join_path dir rel)) (before (join_path dir to)))

  -- What the files hold is what one entry makes of them: a written file has the content of the write,
  -- and an archived one is gone and found, if it was there, in the archive.
  abbrev pub Holds :
      (Bytes → Option Bytes) → (Bytes → Option Bytes) → Bytes × PendingExport → Type 0
  Holds before after (rel, write c) = after (join_path dir rel) ≡ some c
  Holds before after (rel, archive) =
      (to : Bytes) × (archive_relative_path rel ≡ ok to) × MovedAt rel before after to

  -- The path of an entry that is archived has a path in the archive.
  abbrev pub IsMovable : Bytes × PendingExport → Type 0
  IsMovable (rel, write c) = Unit
  IsMovable (rel, archive) = (to : Bytes) × (archive_relative_path rel ≡ ok to)

  after_op-untouched :
      (e : Bytes × PendingExport) (before : Bytes → Option Bytes) (q : Bytes)
      → contains (touched dir e) q ≡ false
      → after_op dir e before q ≡ before q
  after_op-untouched (rel, write c) before q h = ground arith
  after_op-untouched (rel, archive) before q h = ground arith

  unfoldable pub after_ops : Dict PendingExport → (Bytes → Option Bytes) → Bytes → Option Bytes
  after_ops [] before = before
  after_ops (e ∷ batch) before = after_ops batch (after_op dir e before)

  pub after_ops-untouched :
      (batch : Dict PendingExport) (before : Bytes → Option Bytes) (q : Bytes)
      → contains (touched_by batch) q ≡ false
      → after_ops batch before q ≡ before q
  unfolding after_ops
  after_ops-untouched [] before q h = refl
  after_ops-untouched (e ∷ batch) before q h =
      after_ops-untouched batch (after_op dir e before) q
        (ground (arith, contains-append (touched dir e) (touched_by batch) q))
      ∙ after_op-untouched e before q
          (ground (arith, contains-append (touched dir e) (touched_by batch) q))

  moved-MovedAt :
      (rel to : Bytes) (before after : Bytes → Option Bytes)
      → Distinct (touched_at dir rel (ok to))
      → ((q : Bytes)
          → contains (touched_at dir rel (ok to)) q ≡ true
          → after q ≡ after_at dir rel (ok to) before q)
      → MovedAt rel before after to
  moved-MovedAt rel to before after (apart, d) same =
      let (src, dest) : Bytes × Bytes = (join_path dir rel, join_path dir to) in
      (ground (arith, same src, eq_refl src), ground (arith, same dest, eq_refl dest))

  -- An entry holds for the files right after it, and for later ones that agree on what it names.
  after_op-Holds :
      (e : Bytes × PendingExport) (before after : Bytes → Option Bytes)
      → IsMovable e
      → Distinct (touched dir e)
      → ((q : Bytes) → contains (touched dir e) q ≡ true → after q ≡ after_op dir e before q)
      → Holds before after e
  after_op-Holds (rel, write c) before after m d same =
      ground (arith, same (join_path dir rel), eq_refl (join_path dir rel))
  after_op-Holds (rel, archive) before after (to, known) d same = (
    to,
    known,
    moved-MovedAt rel to before after (subst (λ r. Distinct (touched_at dir rel r)) known d) (
        subst
          (λ r.
            (q : Bytes)
            → contains (touched_at dir rel r) q ≡ true
            → after q ≡ after_at dir rel r before q)
          known same),
  )

  Holds-same :
      (e : Bytes × PendingExport) (before between after : Bytes → Option Bytes)
      → ((q : Bytes) → contains (touched dir e) q ≡ true → between q ≡ before q)
      → Holds between after e
      → Holds before after e
  Holds-same (rel, write c) before between after same h = h
  Holds-same (rel, archive) before between after same (to, known, (gone, there)) =
      let (src, dest) : Bytes × Bytes = (join_path dir rel, join_path dir to) in
      let same' : (q : Bytes) → contains (src ∷ dest ∷ []) q ≡ true → between q ≡ before q =
        subst (λ r. (q : Bytes) → contains (touched_at dir rel r) q ≡ true → between q ≡ before q)
          known same in
      (to, known, (gone, ground (arith, there, same' src, same' dest, eq_refl src, eq_refl dest)))

  All-Holds-same :
      (batch : Dict PendingExport) (before between after : Bytes → Option Bytes)
      → ((q : Bytes) → contains (touched_by batch) q ≡ true → between q ≡ before q)
      → All (Holds between after) batch
      → All (Holds before after) batch
  All-Holds-same [] before between after same h = tt
  All-Holds-same (e ∷ batch) before between after same (h, hs) = (
    Holds-same e before between after
        (λ q k. same q (ground (arith, contains-append (touched dir e) (touched_by batch) q))) h,
    All-Holds-same batch before between after
        (λ q k. same q (ground (arith, contains-append (touched dir e) (touched_by batch) q))) hs,
  )

  pub after_ops-Holds :
      (batch : Dict PendingExport) (before : Bytes → Option Bytes)
      → All IsMovable batch
      → Distinct (touched_by batch)
      → All (Holds before (after_ops batch before)) batch
  unfolding after_ops
  after_ops-Holds [] before m d = tt
  after_ops-Holds (e ∷ batch) before (m, ms) d =
      let (own, others, apart) = Distinct-append (touched dir e) (touched_by batch) d in
      (
        after_op-Holds e before (after_ops batch (after_op dir e before)) m own
            (λ q k. after_ops-untouched batch (after_op dir e before) q (apart q k)),
        All-Holds-same batch before (after_op dir e before)
            (after_ops batch (after_op dir e before))
            (λ q k. after_op-untouched e before q (ground (arith, apart q)))
            (after_ops-Holds batch (after_op dir e before) ms others),
      )
