-- ===== src/Echo.antt =====
-- internal/inventory/reconciler.go and internal/sync/apply.go together: what the sync operator applies
-- comes back to the inventory controller as an event.
pub mod Loop
pub mod Deleted
use accord.Base.{
  true, some, Option, Bytes, ok, eq_refl, ◌≡◌, refl, sym, ap, ◌∙◌, if◌then◌else◌, ok-injective,
}
use accord.Dict.{lookup}
use accord.Json.{Json, Codec}
use accord.Inventory.Normalize.{
  sync_content_hash_annotation_key, normalized_map_from_runtime_object,
  normalized_yaml_and_material_hash, material_hash_from_normalized_yaml,
}
use accord.Inventory.Normalize.Exported.{ReadsBack, material_hash-export}
use accord.Inventory.Reconciler.{ReconcileDeps, ReconcileState, ObjectKey, Watched, matches, handle}
use accord.Inventory.Reconciler.Laws.{is_annotated, is_skipped, handle-skipped}
use accord.Sync.Path.{ParsedInventoryPath}
use accord.Sync.Apply.{Objects, prepare}
use accord.Sync.Apply.Laws.{IsLawful, prepare-IsPermitted}

-- The text and the hash of an object are those of its normal form.
hash-normalized :
    (c : Codec) (a b : Option Bytes) (m : Json)
    → normalized_map_from_runtime_object c a ≡ ok m
    → normalized_map_from_runtime_object c b ≡ ok m
    → normalized_yaml_and_material_hash c a ≡ normalized_yaml_and_material_hash c b
unfolding normalized_yaml_and_material_hash
hash-normalized c a b m h k = rw (normalized_yaml_and_material_hash, h, k) refl

module _ (d : ReconcileDeps) (req : ObjectKey) (kind : Bytes) where
  -- The sync operator stamps the object with the hash that the inventory controller takes of it.
  stamped :
      (O : Objects) (L : IsLawful O) (parsed : ParsedInventoryPath) (yaml hash : Bytes)
      (sent : O.Object)
      → material_hash_from_normalized_yaml d.codec yaml ≡ ok hash
      → prepare O d.codec parsed yaml ≡ ok sent
      → lookup sync_content_hash_annotation_key (O.annotations sent) ≡ some hash
  stamped O L parsed yaml hash sent hashed prepared =
      let (permitted, (stamp, json, manifest, own, converted, decoded, all)) =
        prepare-IsPermitted O L d.codec parsed yaml sent prepared in
      let same : stamp ≡ hash = ok-injective (sym own ∙ hashed) in
      all sync_content_hash_annotation_key
      ∙ ap
          (λ b.
            if b
            then some stamp
            else lookup sync_content_hash_annotation_key (O.annotations manifest))
          (eq_refl sync_content_hash_annotation_key)
      ∙ ap some same

  annotated :
      (seen : Watched) (hash : Bytes)
      → lookup sync_content_hash_annotation_key seen.annotations ≡ some hash
      → is_annotated seen hash ≡ true
  unfolding is_annotated matches
  annotated seen hash e = ap (λ o. matches o hash) e ∙ eq_refl hash

  -- The two operators do not answer each other for ever: where the sync operator prepares an object from
  -- the file that the inventory controller exported for it, the event of an object that has the normal
  -- form of the exported one and the annotation that was sent succeeds without any effect, whatever is
  -- cached and pending then. The text format reads back the normal form, and the getters and setters of
  -- objects are lawful.
  pub handle-prepare :
      (O : Objects) (L : IsLawful O) (parsed : ParsedInventoryPath) (written seen : Watched)
      (m : Json) (yaml hash : Bytes) (sent : O.Object) (st : ReconcileState)
      → normalized_map_from_runtime_object d.codec written.marshalled ≡ ok m
      → ReadsBack d.codec m
      → normalized_yaml_and_material_hash d.codec written.marshalled ≡ ok (yaml, hash)
      → prepare O d.codec parsed yaml ≡ ok sent
      → normalized_map_from_runtime_object d.codec seen.marshalled ≡ ok m
      → lookup sync_content_hash_annotation_key seen.annotations
        ≡ lookup sync_content_hash_annotation_key (O.annotations sent)
      → handle d req kind seen st ≡ (ok tt, st)
  unfolding is_skipped
  handle-prepare O L parsed written seen m yaml hash sent st normal back exported prepared same_form
        same_stamp =
      let hashed =
        material_hash-export d.codec written.marshalled m yaml hash normal back exported in
      let stamp =
        annotated seen hash (same_stamp ∙ stamped O L parsed yaml hash sent hashed prepared) in
      handle-skipped d req kind seen yaml hash st
        (hash-normalized d.codec seen.marshalled written.marshalled m same_form normal ∙ exported)
        (rw stamp refl)
