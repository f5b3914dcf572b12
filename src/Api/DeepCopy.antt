-- ===== src/Api/DeepCopy.antt =====
-- api/v1alpha1/zz_generated.deepcopy.go. A function `DeepCopyInto` is modelled by the value that it
-- leaves in `*out`; it has no result at a pointer to a cell of another type, which Go excludes. The
-- deep copies of the package metav1 are a parameter.
use accord.Base.{ℕ, List, [], ◌∷◌, Option, none, some}
use accord.Api.{
  MirrorUpgradeRequestSpec, Pointer, MirrorUpgradeRequestStatus, Metadata, MirrorUpgradeRequest,
  MirrorUpgradeRequestList, Cell, request, request_list, request_spec, request_status, array, Heap,
  reserve, store,
}

-- `time` is `(*Time).DeepCopy`, at an address.
pub record Copiers (M : Metadata) : Type 0 where
  pub object_meta : M.ObjectMeta → Heap M → M.ObjectMeta × Heap M
  pub list_meta : M.ListMeta → Heap M → M.ListMeta × Heap M
  pub time : ℕ → Heap M → ℕ × Heap M

-- A value of the interface `runtime.Object` that is not nil.
pub data Object : Type 0 where
  request_object : ℕ → Object
  list_object : ℕ → Object

-- `if c := in.DeepCopy(); c != nil { return c }; return nil`
abbrev pub as_object : (ℕ → Object) → Pointer → Option Object
as_object object none = none
as_object object (some q) = some (object q)

abbrev pub Run : Metadata → Type 0 → Type 0
Run M A = Heap M → Option (A × Heap M)

-- How the values of a type stand in cells.
pub record Held (M : Metadata) (A : Type 0) : Type 0 where
  pub hold : A → Cell M
  pub held : Cell M → Option A

module _ {M : Metadata} where
  abbrev pub pure : {A : Type 0} → A → Run M A
  pure a h = some (a, h)

  infixl 5 ◌>>=◌ ◌>>◌
  abbrev pub ◌>>=◌ : {A B : Type 0} → Run M A → (A → Run M B) → Run M B
  ◌>>=◌ m f h = elim (m h) [ none ↦ none | some (a, h') ↦ f a h' ]

  abbrev pub ◌>>◌ : {B : Type 0} → Run M (Unit {0}) → Run M B → Run M B
  m >> k = m >>= λ _. k

  abbrev pub call : {A : Type 0} → (Heap M → A × Heap M) → Run M A
  call f h = some (f h)

  abbrev pub write : ℕ → Cell M → Run M (Unit {0})
  write p c h = some (tt, store p c h)

  abbrev pub load_from : {A : Type 0} → (Cell M → Option A) → Option (Cell M) → Run M A
  load_from held none h = none
  load_from held (some c) h = elim (held c) [ none ↦ none | some a ↦ some (a, h) ]

  abbrev pub load : {A : Type 0} → Held M A → ℕ → Run M A
  load t p h = load_from t.held (h.cell p) h

  abbrev held_request : Cell M → Option (MirrorUpgradeRequest M)
  held_request (request r) = some r
  held_request _ = none

  abbrev held_list : Cell M → Option (MirrorUpgradeRequestList M)
  held_list (request_list l) = some l
  held_list _ = none

  abbrev held_spec : Cell M → Option MirrorUpgradeRequestSpec
  held_spec (request_spec s) = some s
  held_spec _ = none

  abbrev held_status : Cell M → Option MirrorUpgradeRequestStatus
  held_status (request_status s) = some s
  held_status _ = none

  abbrev held_array : Cell M → Option (List (MirrorUpgradeRequest M))
  held_array (array rs) = some rs
  held_array _ = none

  abbrev pub requests : Held M (MirrorUpgradeRequest M)
  requests = record { hold = request; held = held_request }

  abbrev pub request_lists : Held M (MirrorUpgradeRequestList M)
  request_lists = record { hold = request_list; held = held_list }

  abbrev pub request_specs : Held M MirrorUpgradeRequestSpec
  request_specs = record { hold = request_spec; held = held_spec }

  abbrev pub request_statuses : Held M MirrorUpgradeRequestStatus
  request_statuses = record { hold = request_status; held = held_status }

  abbrev pub arrays : Held M (List (MirrorUpgradeRequest M))
  arrays = record { hold = array; held = held_array }

  -- `out := new(T)`, then `*in` is copied into `*out`.
  unfoldable pub copy_to_new : {A : Type 0} → Held M A → (A → Run M A) → ℕ → Run M ℕ
  copy_to_new t into p = do q ← call reserve; a ← load t p; b ← into a; write q (t.hold b); pure q

  -- A nil pointer stays nil.
  unfoldable pub unless_nil : (ℕ → Run M ℕ) → Pointer → Run M Pointer
  unless_nil copy none = pure none
  unless_nil copy (some p) = do q ← copy p; pure (some q)

  module _ (C : Copiers M) where
    unfoldable pub copy_time : Pointer → Run M Pointer
    copy_time = unless_nil (λ p. call (C.time p))

    unfoldable pub status_deep_copy_into :
        MirrorUpgradeRequestStatus → Run M MirrorUpgradeRequestStatus
    status_deep_copy_into s = do
      started ← copy_time s.started_at
      completed ← copy_time s.completed_at
      pure (record s { started_at = started; completed_at = completed })

    unfoldable pub request_deep_copy_into : MirrorUpgradeRequest M → Run M (MirrorUpgradeRequest M)
    request_deep_copy_into r = do
      meta ← call (C.object_meta r.object_meta)
      status ← status_deep_copy_into r.status
      pure (record r { object_meta = meta; status = status })

    -- `for i := range *in { (*in)[i].DeepCopyInto(&(*out)[i]) }`
    unfoldable pub copy_items :
        List (MirrorUpgradeRequest M) → Run M (List (MirrorUpgradeRequest M))
    copy_items [] = pure []
    copy_items (r ∷ rs) = do r' ← request_deep_copy_into r; rs' ← copy_items rs; pure (r' ∷ rs')

    -- The new array is allocated first, and read by nobody until it is full.
    unfoldable pub list_deep_copy_into :
        MirrorUpgradeRequestList M → Run M (MirrorUpgradeRequestList M)
    list_deep_copy_into l = do
      meta ← call (C.list_meta l.list_meta)
      items ← unless_nil (copy_to_new arrays copy_items) l.items
      pure (record l { list_meta = meta; items = items })

    unfoldable pub request_deep_copy : Pointer → Run M Pointer
    request_deep_copy = unless_nil (copy_to_new requests request_deep_copy_into)

    unfoldable pub list_deep_copy : Pointer → Run M Pointer
    list_deep_copy = unless_nil (copy_to_new request_lists list_deep_copy_into)

    unfoldable pub status_deep_copy : Pointer → Run M Pointer
    status_deep_copy = unless_nil (copy_to_new request_statuses status_deep_copy_into)

    unfoldable pub request_deep_copy_object : Pointer → Run M (Option Object)
    request_deep_copy_object p = do c ← request_deep_copy p; pure (as_object request_object c)

    unfoldable pub list_deep_copy_object : Pointer → Run M (Option Object)
    list_deep_copy_object p = do c ← list_deep_copy p; pure (as_object list_object c)

  unfoldable pub spec_deep_copy_into : MirrorUpgradeRequestSpec → Run M MirrorUpgradeRequestSpec
  spec_deep_copy_into s = pure s

  unfoldable pub spec_deep_copy : Pointer → Run M Pointer
  spec_deep_copy = unless_nil (copy_to_new request_specs spec_deep_copy_into)
