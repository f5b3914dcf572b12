-- ===== src/Tests/Memory.antt =====
-- A list of one request in memory, and its deep copy.
use accord.Base.{
  ℕ, ◌+◌, [], ◌∷◌, Option, some, none, false, Bytes, codes, ◌≡◌, refl, arith, eqb, if◌then◌else◌,
}
use accord.Api.{
  Pointer, Metadata, MirrorUpgradeRequest, MirrorUpgradeRequestList, Cell, time, request_list,
  array, of_metadata, Heap,
}
use accord.Api.DeepCopy.{list_object, Copiers, as_object, list_deep_copy_object}
use accord.Api.Copies.{IsDeepCopy, IsThere, plain}
use accord.Api.Apart.{IsLawful}
use accord.Api.Apart.Lists.{list_at, ListPointerFits, list_deep_copy_object-Copied}

-- The metadata of an object are the address of its labels.
abbrev meta : Metadata
meta = record { Time = ℕ; TypeMeta = Bytes; ObjectMeta = ℕ; ListMeta = Bytes; Cell = Bytes }

abbrev copy_cell : ℕ → Heap meta → ℕ × Heap meta
copy_cell p h =
    (h.next, record { next = h.next + 1; cell = λ q. if eqb h.next q then h.cell p else h.cell q })

abbrev copiers : Copiers meta
copiers = record { object_meta = copy_cell; list_meta = λ a h. (a, h); time = copy_cell }

abbrev says : ℕ → (ℕ → Option (Cell meta)) → Option (Cell meta)
says p f = f p

copy_cell-IsDeepCopy :
    (p : ℕ) (h : Heap meta) → IsDeepCopy h (copy_cell p h).1 (says p) (says (copy_cell p h).0)
copy_cell-IsDeepCopy p h = record {
  grown = record { longer = omega arith; kept = λ q b. ground arith };
  same = ground arith;
  apart = λ f agree. agree h.next (omega arith) (omega arith);
}

abbrev copiers-IsLawful : IsLawful meta copiers
copiers-IsLawful = record {
  ObjectView = Option (Cell meta);
  ListView = Bytes;
  object_view = says;
  list_view = λ a f. a;
  object_meta = λ a h t. copy_cell-IsDeepCopy a h;
  list_meta = λ a h t. plain h a;
  time = λ p h t. copy_cell-IsDeepCopy p h;
}

abbrev upgrade : MirrorUpgradeRequest meta
upgrade = record {
  type_meta = codes "MirrorUpgradeRequest";
  object_meta = 2;
  spec = record {
    target_cluster = codes "mirror";
    target_namespace = codes "argocd";
    current_version = codes "v2.9.0";
    desired_version = codes "v2.10.0";
    approval_mode = codes "Manual";
    auto_collect_logs = false;
    log_archive_path = [];
  };
  status = record {
    phase = codes "Running";
    message = [];
    started_at = some 1;
    completed_at = none;
    job_ref = codes "job";
  };
}

abbrev upgrades : MirrorUpgradeRequestList meta
upgrades = record { type_meta = codes "List"; list_meta = codes "12"; items = some 3 }

abbrev memory : Heap meta
memory = record {
  next = 5;
  cell = λ p.
      if eqb p 1
      then some (time 1700)
      else if eqb p 2
      then some (of_metadata (codes "app=argocd"))
      else if eqb p 3
      then some (array (upgrade ∷ []))
      else if eqb p 4
      then some (request_list upgrades)
      else none;
}

upgrades-Fit : ListPointerFits meta copiers copiers-IsLawful (some 4) memory
upgrades-Fit = (
  omega arith,
  upgrades,
  refl,
  (
    λ f agree. refl,
    (
      omega arith,
      upgrade ∷ [],
      refl,
      ((λ f agree. agree 2 (omega arith) (omega arith), ((omega arith, 1700, refl), tt)), tt),
    ),
  ),
)

list_deep_copy_object-Copied_example :
    (q : Pointer) × (h' : Heap meta) × (list_deep_copy_object copiers (some 4) memory
      ≡ some (as_object list_object q, h'))
    × IsDeepCopy memory h'
        (list_at meta copiers copiers-IsLawful (some 4))
        (list_at meta copiers copiers-IsLawful q)
    × IsThere memory (list_at meta copiers copiers-IsLawful (some 4))
list_deep_copy_object-Copied_example =
    list_deep_copy_object-Copied meta copiers copiers-IsLawful (some 4) memory upgrades-Fit
