-- ===== src/InventoryProcess/Resurrected.antt =====
-- internal/git/worker.go, the write of a resource that was archived before.
use mathlib.Core.Path.{subst}
use accord.Base.{
  [], ◌∷◌, List, Bytes, Option, true, ok, some, ◌≡◌, inl, inr, refl, ◌==◌, eq_iff, ap, sym, ◌∙◌,
  All, Bool-cases,
}
use accord.Dict.{Dict, lookup}
use accord.Dict.Laws.{contains-keys}
use accord.Strings.Cleaning.{IsPlain}
use accord.Strings.Rooted.{directory}
use accord.Config.{InventoryControllerConfig, default_export_path_template}
use accord.Inventory.ExportPath.Laws.{RendersDefault}
use accord.Inventory.Reconciler.{ReconcileDeps}
use accord.Git.ArchivePath.{archive_relative_path}
use accord.Git.Queue.{PendingExport, write, published}
use accord.Git.Export.{Host, clone_options, join_path, flush_batch}
use accord.Git.Export.Content.{IsFileSystem}
use accord.Git.Export.Pushed.{IsPushed}
use accord.Git.Export.Files.{Holds}
use accord.Git.Export.Places.{IsLive, archive_of_live}
use accord.Git.Export.Resources.{touched_by-written}
use accord.InventoryProcess.{InventoryProcess, Run}
use accord.InventoryProcess.Published.{published-Holds, published-export, flight-resources}

written-held :
    (dir : Bytes) (before after : Bytes → Option Bytes) (batch : Dict PendingExport) (p c : Bytes)
    → lookup p batch ≡ some (write c)
    → All (Holds dir before after) batch
    → after (join_path dir p) ≡ some c
unfolding lookup
written-held dir before after [] p c h held = cc
written-held dir before after ((q, op) ∷ batch) p c h (first, rest) = elim (Bool-cases (q == p)) [
  | inl same ↦
      let written : op ≡ write c = cc (rw same at h) in
      let there : Holds dir before after (q, write c) =
        subst (λ o. Holds dir before after (q, o)) written first in
      ap (λ r. after (join_path dir r)) (sym ((eq_iff q p).0 same)) ∙ there
  | inr other ↦ written-held dir before after batch p c (rw other at h) rest
]

module _ (H : Host) (cfg : InventoryControllerConfig) where
  -- A resource that was archived, and is exported again: in the clone that a flush has committed and
  -- pushed, unless nothing had changed, its live file holds the export, and its archived file is what it
  -- was in the repository, so the repository keeps both. The
  -- run, the template, the operating system and the temporary directory are those for which every
  -- published batch makes its changes and no other.
  pub published-resurrected :
      (F : IsFileSystem H) (d : ReconcileDeps) (h : H.State) (s : InventoryProcess H cfg d)
      (batch : Dict PendingExport) (top : Bytes) (below : List Bytes) (path content : Bytes)
      → RendersDefault d.parse_template
      → d.export_path_tmpl ≡ default_export_path_template
      → Run H cfg d h s
      → s.git.worker.in_flight ≡ some batch
      → (H.mkdir_temp s.git.host).1 ≡ some (directory (top ∷ below))
      → All IsPlain (top ∷ below)
      → (flush_batch H cfg batch s.git.host).1 ≡ published
      → lookup path batch ≡ some (write content)
      → (cloned filled : H.State) × (H.clone
            (H.mkdir_temp s.git.host).0
            (clone_options cfg)
            (directory (top ∷ below))
          ≡ (cloned, true))
        × (F.content filled (join_path (directory (top ∷ below)) path) ≡ some content)
        × ((to : Bytes) × (archive_relative_path path ≡ ok to)
            × (F.content filled (join_path (directory (top ∷ below)) to)
                ≡ F.content cloned (join_path (directory (top ∷ below)) to)))
        × IsPushed H cfg batch
            (directory (top ∷ below))
            filled
            (flush_batch H cfg batch s.git.host).0
  published-resurrected F d h s batch top below path content renders usual run busy made plain done
        asked =
      let (set, exported) = published-export H cfg batch s.git.host done in
      let (live, each) = flight-resources H cfg d h s batch renders usual run set busy in
      let l : IsLive path = live path (rw (contains-keys batch path, asked) refl) in
      let (cloned, filled, from, held, kept, out) =
        published-Holds H cfg F d h s batch top below renders usual run busy made plain done in
      (
        cloned,
        filled,
        from,
        written-held (directory (top ∷ below)) (F.content cloned) (F.content filled) batch path
            content asked held,
        (
          _,
          archive_of_live l,
          kept _ (touched_by-written top below plain batch content l live each asked),
        ),
        out,
      )
