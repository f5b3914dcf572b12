-- ===== src/Api.antt =====
-- api/v1alpha1/mirrorupgraderequest_types.go: the resource MirrorUpgradeRequest, and the memory that its
-- values point into. A struct is a value; a pointer is the address of a cell. The types of the package
-- metav1 are a parameter, and so is what their values point to.
pub mod DeepCopy
pub mod Copies
pub mod Copiers
pub mod Apart
use accord.Base.{ℕ, ◌+◌, Bool, List, Option, none, some, Bytes, eqb, if◌then◌else◌}

pub record MirrorUpgradeRequestSpec : Type 0 where
  pub target_cluster : Bytes
  pub target_namespace : Bytes
  pub current_version : Bytes
  pub desired_version : Bytes
  pub approval_mode : Bytes
  pub auto_collect_logs : Bool
  pub log_archive_path : Bytes

-- `*metav1.Time`, which can be nil, and every other pointer.
abbrev pub Pointer : Type 0
Pointer = Option ℕ

pub record MirrorUpgradeRequestStatus : Type 0 where
  pub phase : Bytes
  pub message : Bytes
  pub started_at : Pointer
  pub completed_at : Pointer
  pub job_ref : Bytes

-- The types of metav1; `Cell` is what the metadata of an object or of a list points to.
pub record Metadata : Type 1 where
  pub Time : Type 0
  pub TypeMeta : Type 0
  pub ObjectMeta : Type 0
  pub ListMeta : Type 0
  pub Cell : Type 0

pub record MirrorUpgradeRequest (M : Metadata) : Type 0 where
  pub type_meta : M.TypeMeta
  pub object_meta : M.ObjectMeta
  pub spec : MirrorUpgradeRequestSpec
  pub status : MirrorUpgradeRequestStatus

-- A slice is nil, or it is the array that it points to.
pub record MirrorUpgradeRequestList (M : Metadata) : Type 0 where
  pub type_meta : M.TypeMeta
  pub list_meta : M.ListMeta
  pub items : Pointer

pub data Cell (M : Metadata) : Type 0 where
  time : M.Time → Cell M
  request : MirrorUpgradeRequest M → Cell M
  request_list : MirrorUpgradeRequestList M → Cell M
  request_spec : MirrorUpgradeRequestSpec → Cell M
  request_status : MirrorUpgradeRequestStatus → Cell M
  array : List (MirrorUpgradeRequest M) → Cell M
  of_metadata : M.Cell → Cell M

module _ (M : Metadata) where
  abbrev pub Store : Type 0
  Store = ℕ → Option (Cell M)

  -- Cells from `next` on have not been allocated.
  pub record Heap : Type 0 where
    pub next : ℕ
    pub cell : Store

module _ {M : Metadata} where
  -- An allocation: the address of a new cell, and the heap with the cell still to be written.
  unfoldable pub reserve : Heap M → ℕ × Heap M
  reserve h = (h.next, record h { next = h.next + 1 })

  unfoldable pub store : ℕ → Cell M → Heap M → Heap M
  store p c h = record h { cell = λ q. if eqb p q then some c else h.cell q }
