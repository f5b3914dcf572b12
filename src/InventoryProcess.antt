-- ===== src/InventoryProcess.antt =====
-- internal/inventory/reconciler.go and internal/git/worker.go together: the inventory controller as a
-- process. Events of resources reach the reconcilers at any time, also while a batch is exported, and
-- the worker that they call has its own steps.
pub mod Asked
pub mod Published
pub mod Resurrected
use accord.Base.{Bool, true, false, Bytes, ◌≡◌}
use accord.Strings.{slash}
use accord.Strings.Parts.{Lacks}
use accord.Strings.Cleaning.{IsPlain}
use accord.Config.{InventoryControllerConfig}
use accord.Inventory.ExportPath.{HashCache, new_hash_cache}
use accord.Inventory.ExportPath.Laws.{IsArgoKind}
use accord.Inventory.Reconciler.{ReconcileDeps, ReconcileState, ObjectKey, GetAnswer, reconcile}
use accord.Git.Export.{Host}
use accord.Git.Worker.{Process, started, Step, call, tick, finish, stop}

-- Namespaces and names as Kubernetes has them are elements of a path.
pub record IsResourceKey (req : ObjectKey) : Type 0 where
  pub namespace_plain : IsPlain req.namespace
  pub name_plain : Lacks slash req.name

module _ (H : Host) (cfg : InventoryControllerConfig) (d : ReconcileDeps) where
  pub record InventoryProcess : Type 0 where
    pub cache : HashCache
    pub git : Process H cfg

  abbrev pub begin : H.State → InventoryProcess
  begin h = record { cache = new_hash_cache; git = started H cfg h }

  -- What the reconcilers share: the cache and the worker.
  abbrev pub shared : InventoryProcess → ReconcileState
  shared s = record { cache = s.cache; git_queue = s.git.worker }

  abbrev pub after_event : Bytes → ObjectKey → GetAnswer → InventoryProcess → InventoryProcess
  after_event kind req answer s =
      let st = (reconcile d req kind answer (shared s)).1 in
      record { cache = st.cache; git = record s.git { worker = st.git_queue } }

  -- The step is a call of the worker, which only a reconciler makes.
  abbrev pub is_call : {s t : Process H cfg} → Step H cfg s t → Bool
  is_call (call c e) = true
  is_call (tick running idle e) = false
  is_call (finish batch busy e) = false
  is_call (stop running idle e) = false

  pub data Change (s t : InventoryProcess) : Type 0 where
    event :
        (kind : Bytes) (req : ObjectKey) (answer : GetAnswer)
        → IsArgoKind kind
        → IsResourceKey req
        → t ≡ after_event kind req answer s
        → Change s t
    background : (x : Step H cfg s.git t.git) → is_call x ≡ false → t.cache ≡ s.cache → Change s t

  pub data Run (h : H.State) : InventoryProcess → Type 0 where
    fresh : Run h (begin h)
    later : {s t : InventoryProcess} → Run h s → Change s t → Run h t
