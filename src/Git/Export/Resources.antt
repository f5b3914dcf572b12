-- ===== src/Git/Export/Resources.antt =====
-- A batch of operations on exported resources names no file twice.
use mathlib.Core.Path.{subst}
use accord.Base.{
  true, false, List, [], ◌∷◌, ◌++◌, ◌≡◌, ◌≢◌, refl, sym, Bytes, ◌==◌, eq_iff, eq_refl, contains,
  contains-append, All, arith, some, Bool-cases, inl, inr,
}
use accord.Collections.Sorting.{Distinct}
use accord.Dict.{Dict, keys, lookup}
use accord.Strings.Cleaning.{IsPlain}
use accord.Strings.Rooted.{directory}
use accord.Git.Queue.{PendingExport, write, archive}
use accord.Git.Export.Content.{touched}
use accord.Git.Export.Files.{touched_by}
use accord.Git.Export.Places.{
  IsLive, archive_of_live, live_file, archived_file, live_file_injective,
  live_file-ne-archived_file, archived_file_injective,
}

ne-false : (a b : Bytes) → a ≢ b → (a == b) ≡ false
ne-false a b h = ground (arith, eq_iff a b)

-- Every path of the batch is that of a resource.
abbrev pub AreLive : Dict PendingExport → Type 0
AreLive batch = (p : Bytes) → contains (keys batch) p ≡ true → IsLive p

module _ (d : Bytes) (ds : List Bytes) (plain : All IsPlain (d ∷ ds)) where
  abbrev dir : Bytes
  dir = directory (d ∷ ds)

  abbrev live : Bytes → Bytes
  live = live_file d ds plain

  abbrev archived : {path : Bytes} → IsLive path → Bytes
  archived l = archived_file d ds plain l

  touched-archive : {q : Bytes} (k : IsLive q) → touched dir (q, archive) ≡ live q ∷ archived k ∷ []
  touched-archive {q} k = rw (archive_of_live k) refl

  -- An entry names no file but the two of its resource.
  touched-other :
      {q : Bytes} (k : IsLive q) (op : PendingExport) (x : Bytes)
      → live q ≢ x
      → archived k ≢ x
      → contains (touched dir (q, op)) x ≡ false
  touched-other {q} k (write c) x h g = rw (ne-false (live q) x h) refl
  touched-other {q} k archive x h g =
      rw (touched-archive k, ne-false (live q) x h, ne-false (archived k) x g) refl

  -- A file that belongs to no resource of the batch is not named.
  touched_by-other :
      (batch : Dict PendingExport) (x : Bytes)
      → AreLive batch
      → ((q : Bytes) (k : IsLive q)
          → contains (keys batch) q ≡ true
          → (live q ≢ x) × (archived k ≢ x))
      → contains (touched_by dir batch) x ≡ false
  unfolding keys
  touched_by-other [] x a h = refl
  touched_by-other ((q, op) ∷ batch) x a h =
      let here : contains (q ∷ keys batch) q ≡ true = ground (arith, eq_refl q) in
      let k = a q here in
      let (first, second) = h q k here in
      ground (
        arith,
        contains-append (touched dir (q, op)) (touched_by dir batch) x,
        touched-other k op x first second,
        touched_by-other batch x (λ p m. a p (ground arith)) (λ p l m. h p l (ground arith)),
      )

  -- Neither file of a resource is named by operations on other resources.
  others :
      (batch : Dict PendingExport) {p : Bytes} (l : IsLive p)
      → AreLive batch
      → contains (keys batch) p ≡ false
      → (contains (touched_by dir batch) (live p) ≡ false)
        × (contains (touched_by dir batch) (archived l) ≡ false)
  others batch {p} l a absent =
      let ne : (q : Bytes) → contains (keys batch) q ≡ true → q ≢ p = λ q m e. cc (m, absent, e) in
      (
        touched_by-other batch (live p) a (λ q k m. (
          (λ e. ne q m (live_file_injective d ds plain k l e)),
          (λ e. live_file-ne-archived_file d ds plain l k (sym e)),
        )),
        touched_by-other batch (archived l) a (λ q k m. (
          (λ e. live_file-ne-archived_file d ds plain k l e),
          (λ e. ne q m (archived_file_injective d ds plain k l e)),
        )),
      )

  entry-Distinct :
      {q : Bytes} (k : IsLive q) (op : PendingExport) (rest : List Bytes)
      → contains rest (live q) ≡ false
      → contains rest (archived k) ≡ false
      → Distinct rest
      → Distinct (touched dir (q, op) ++ rest)
  entry-Distinct k (write c) rest h g r = (h, r)
  entry-Distinct {q} k archive rest h g r = rw (touched-archive k) (
    rw (ne-false (archived k) (live q) (λ e. live_file-ne-archived_file d ds plain k k (sym e))) h,
    (g, r),
  )

  -- No two operations of the batch name the same file of the clone.
  pub touched_by-Distinct :
      (batch : Dict PendingExport)
      → AreLive batch
      → Distinct (keys batch)
      → Distinct (touched_by dir batch)
  unfolding keys
  touched_by-Distinct [] a u = tt
  touched_by-Distinct ((q, op) ∷ batch) a (absent, u) =
      let k = a q (ground (arith, eq_refl q)) in
      let tail : AreLive batch = λ p m. a p (ground arith) in
      let (free, shelf_free) = others batch k tail absent in
      entry-Distinct k op (touched_by dir batch) free shelf_free (touched_by-Distinct batch tail u)

  -- A write of one resource does not name the file that the resource is archived to.
  pub touched_by-written :
      (batch : Dict PendingExport) {p : Bytes} (c : Bytes) (l : IsLive p)
      → AreLive batch
      → Distinct (keys batch)
      → lookup p batch ≡ some (write c)
      → contains (touched_by dir batch) (archived l) ≡ false
  unfolding keys lookup
  touched_by-written [] c l a u h = cc
  touched_by-written ((q, op) ∷ batch) {p} c l a (absent, u) h =
      let tail : AreLive batch = λ r m. a r (ground arith) in
      let first : contains (touched dir (q, op)) (archived l) ≡ false = elim (Bool-cases (q == p)) [
        | inl same ↦
            let written : op ≡ write c = cc (rw same at h) in
            let free : (live q == archived l) ≡ false =
              ne-false (live q) (archived l)
                (live_file-ne-archived_file d ds plain (a q (ground (arith, eq_refl q))) l) in
            rw (written, free) refl
        | inr other ↦
            let k = a q (ground (arith, eq_refl q)) in
            touched-other k op (archived l) (live_file-ne-archived_file d ds plain k l)
              (λ e. absurd (ground (arith, eq_iff q p, archived_file_injective d ds plain k l e)))
      ] in
      let rest : contains (touched_by dir batch) (archived l) ≡ false = elim (Bool-cases (q == p)) [
        | inl same ↦
            let away : contains (keys batch) p ≡ false =
              subst (λ r. contains (keys batch) r ≡ false) ((eq_iff q p).0 same) absent in
            (others batch l tail away).1
        | inr other ↦ touched_by-written batch c l tail u (rw other at h)
      ] in
      ground (arith, contains-append (touched dir (q, op)) (touched_by dir batch) (archived l))
