-- ===== src/Inventory/Normalize/NormalForm.antt =====
-- The normal form of an object: taken twice it is the same, and it does not see the status, the
-- volatile metadata and the two annotations of the tools.
use accord.Base.{
  ◌≡◌, refl, ◌∙◌, ap, true, false, Option, none, some, Bytes, ◌==◌, contains, inl, inr, ◌⊎◌,
}
use accord.Json.{Json, object, Fields, no_fields, get, delete, set, as_object}
use accord.Json.Maps.{
  get-delete, delete_absent, delete-set, delete-set_ne, delete_comm, delete_idem,
}
use accord.Inventory.Normalize.{
  strip_metadata_keys, last_applied_annotation, sync_content_hash_annotation_key, delete_keys,
  annotations, metadata, status, normalize_annotations, normalize_metadata, normalize_fields,
  normalize_kubernetes_object,
}
use accord.Inventory.Normalize.Nested.{
  put_back, nested, nested-some, nested-none, nested-set, nested_idem, delete-nested, get-nested,
  delete_keys_idem, delete_keys-nested, delete_keys-set, delete_keys-set_ne, get-delete_keys,
}

clean_annotations : Fields → Fields
clean_annotations ann = delete sync_content_hash_annotation_key (delete last_applied_annotation ann)

clean_annotations_idem :
    (ann : Fields) → clean_annotations (clean_annotations ann) ≡ clean_annotations ann
unfolding clean_annotations
clean_annotations_idem ann =
    rw
      (
        delete_comm last_applied_annotation sync_content_hash_annotation_key
            (delete last_applied_annotation ann),
        delete_idem last_applied_annotation ann,
      )
      (delete_idem sync_content_hash_annotation_key (delete last_applied_annotation ann))

-- Setting the content hash is undone.
clean_annotations-set :
    (h : Json) (ann : Fields)
    → clean_annotations (set sync_content_hash_annotation_key h ann) ≡ clean_annotations ann
unfolding clean_annotations
clean_annotations-set h ann =
    delete_comm sync_content_hash_annotation_key last_applied_annotation _
    ∙ ap (delete last_applied_annotation) (delete-set sync_content_hash_annotation_key h ann)
    ∙ delete_comm last_applied_annotation sync_content_hash_annotation_key ann

normalize_metadata-nested :
    (meta : Fields)
    → normalize_metadata meta
      ≡ nested clean_annotations annotations (delete_keys strip_metadata_keys meta)
unfolding normalize_metadata normalize_annotations nested put_back clean_annotations
normalize_metadata-nested meta = refl

normalize_fields-nested :
    (obj : Fields) → normalize_fields obj ≡ nested normalize_metadata metadata obj
unfolding normalize_fields nested put_back
normalize_fields-nested obj = refl

annotations_kept : contains strip_metadata_keys annotations ≡ false
unfolding ◌==◌
annotations_kept = refl

status-ne-metadata : (status == metadata) ≡ false
unfolding ◌==◌
status-ne-metadata = refl

normalize_metadata_idem :
    (meta : Fields) → normalize_metadata (normalize_metadata meta) ≡ normalize_metadata meta
normalize_metadata_idem meta =
    rw
      (
        normalize_metadata-nested (normalize_metadata meta),
        normalize_metadata-nested meta,
        delete_keys-nested strip_metadata_keys clean_annotations annotations
            (delete_keys strip_metadata_keys meta) annotations_kept,
        delete_keys_idem strip_metadata_keys meta,
      )
      (nested_idem clean_annotations annotations clean_annotations_idem
        (delete_keys strip_metadata_keys meta))

-- Normalising twice is normalising once.
pub normalize_idempotent :
    (v : Json)
    → normalize_kubernetes_object (normalize_kubernetes_object v) ≡ normalize_kubernetes_object v
unfolding normalize_kubernetes_object
normalize_idempotent (object obj) = ap object (
    rw
      (
        normalize_fields-nested (delete status obj),
        normalize_fields-nested,
        delete-nested normalize_metadata metadata status (delete status obj) status-ne-metadata,
        delete_idem status obj,
      )
      (nested_idem normalize_metadata metadata normalize_metadata_idem (delete status obj)))
normalize_idempotent _ = refl

-- The status does not count.
pub normalize-set_status :
    (v : Json) (obj : Fields)
    → normalize_kubernetes_object (object (set status v obj))
      ≡ normalize_kubernetes_object (object obj)
unfolding normalize_kubernetes_object
normalize-set_status v obj = rw (delete-set status v obj)

-- Two metadata maps with one normal form give two objects with one normal form.
normalize_fields-set :
    (obj meta meta' : Fields)
    → get metadata obj ≡ some (object meta)
    → normalize_metadata meta' ≡ normalize_metadata meta
    → normalize_kubernetes_object (object (set metadata (object meta') obj))
      ≡ normalize_kubernetes_object (object obj)
unfolding normalize_kubernetes_object
normalize_fields-set obj meta meta' found same = rw (
  delete-set_ne status metadata (object meta') obj status-ne-metadata,
  normalize_fields-nested (set metadata (object meta') (delete status obj)),
  normalize_fields-nested (delete status obj),
  nested-set normalize_metadata metadata meta' (delete status obj),
  same,
  nested-some normalize_metadata metadata meta (delete status obj)
      (rw (get-delete metadata status obj, status-ne-metadata, found)),
)

-- Metadata that the cluster fills in does not count: setting one of the seven stripped keys leaves
-- the normal form of an object with metadata as it is.
pub normalize-set_volatile :
    (obj meta : Fields) (k : Bytes) (v : Json)
    → get metadata obj ≡ some (object meta)
    → contains strip_metadata_keys k ≡ true
    → normalize_kubernetes_object (object (set metadata (object (set k v meta)) obj))
      ≡ normalize_kubernetes_object (object obj)
normalize-set_volatile obj meta k v found volatile =
    normalize_fields-set obj meta (set k v meta) found (
      rw (
        normalize_metadata-nested (set k v meta),
        normalize_metadata-nested meta,
        delete_keys-set strip_metadata_keys k v meta volatile,
      ))

-- The metadata with the content hash among its annotations.
abbrev or_no_fields : Option Fields → Fields
or_no_fields none = no_fields
or_no_fields (some fs) = fs

unfoldable pub annotate : Json → Fields → Fields
annotate h meta =
    let ann = or_no_fields (as_object (get annotations meta)) in
    set annotations (object (set sync_content_hash_annotation_key h ann)) meta

abbrev pub HasAnnotations : Fields → Type 0
HasAnnotations meta = (ann : Fields) × (get annotations meta ≡ some (object ann))

normalize_metadata-set :
    (ann meta : Fields)
    → normalize_metadata (set annotations (object ann) meta)
      ≡ put_back annotations (clean_annotations ann) (delete_keys strip_metadata_keys meta)
normalize_metadata-set ann meta =
    rw
      (
        normalize_metadata-nested (set annotations (object ann) meta),
        delete_keys-set_ne strip_metadata_keys annotations (object ann) meta annotations_kept,
      )
      (nested-set clean_annotations annotations ann (delete_keys strip_metadata_keys meta))

clean_annotations-empty : clean_annotations no_fields ≡ no_fields
unfolding clean_annotations delete
clean_annotations-empty = refl

normalize_metadata-annotate :
    (h : Json) (meta : Fields)
    → (get annotations meta ≡ none) ⊎ HasAnnotations meta
    → normalize_metadata (annotate h meta) ≡ normalize_metadata meta
unfolding put_back annotate
normalize_metadata-annotate h meta c =
    let kept = get-delete_keys strip_metadata_keys annotations meta annotations_kept in
    let left = delete_keys strip_metadata_keys meta in
    let ann = or_no_fields (as_object (get annotations meta)) in
    normalize_metadata-set (set sync_content_hash_annotation_key h ann) meta
    ∙ rw (clean_annotations-set h ann, normalize_metadata-nested meta)
        (elim c [
          | inl missing ↦ rw (
            missing,
            clean_annotations-empty,
            put_back,
            delete_absent annotations left (kept ∙ missing),
            nested-none clean_annotations annotations left (rw (kept, missing)),
          )
          | inr (old, found) ↦
              rw (found, nested-some clean_annotations annotations old left (rw (kept, found)))
        ])

-- The content hash that the sync-operator writes does not count, whether the object had other
-- annotations or none.
pub normalize-annotate :
    (obj meta : Fields) (h : Json)
    → get metadata obj ≡ some (object meta)
    → (get annotations meta ≡ none) ⊎ HasAnnotations meta
    → normalize_kubernetes_object (object (set metadata (object (annotate h meta)) obj))
      ≡ normalize_kubernetes_object (object obj)
normalize-annotate obj meta h found c =
    normalize_fields-set obj meta (annotate h meta) found (normalize_metadata-annotate h meta c)

-- Every other field of the object is kept.
pub get-normalize :
    (obj : Fields) (k : Bytes)
    → (status == k) ≡ false
    → (metadata == k) ≡ false
    → get k (normalize_fields (delete status obj)) ≡ get k obj
get-normalize obj k h j = rw (
  normalize_fields-nested (delete status obj),
  get-nested normalize_metadata metadata k (delete status obj) j,
  get-delete k status obj,
  h,
)
