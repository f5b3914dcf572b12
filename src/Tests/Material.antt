-- ===== src/Tests/Material.antt =====
-- The guestbook as an object, and its normal form.
use accord.Base.{none, some, Bytes, codes, true, ◌≡◌, refl, inl, contains}
use accord.Dict.{dicts}
use accord.Json.{object, text, null, Fields, no_fields, field, get, set}
use accord.Inventory.Normalize.{
  status, metadata, annotations, strip_metadata_keys, normalize_kubernetes_object,
}
use accord.Inventory.Normalize.NormalForm.{normalize-annotate, annotate}

abbrev meta : Fields
meta = field (codes "name") (text (codes "guestbook")) no_fields

abbrev guestbook : Fields
guestbook =
    field metadata (object meta)
      (field (codes "spec") (text (codes "v1")) (field status null no_fields))

abbrev spec : Bytes
spec = codes "spec"

guestbook-metadata : get metadata guestbook ≡ some (object meta)
unfolding dicts get
guestbook-metadata = refl

uid-IsVolatile : contains strip_metadata_keys (codes "uid") ≡ true
unfolding dicts
uid-IsVolatile = refl

meta-annotations : get annotations meta ≡ none
unfolding dicts get
meta-annotations = refl

normalize-annotate_example :
    normalize_kubernetes_object
      (object (set metadata (object (annotate (text (codes "7631")) meta)) guestbook))
    ≡ normalize_kubernetes_object (object guestbook)
normalize-annotate_example =
    normalize-annotate guestbook meta (text (codes "7631")) guestbook-metadata
      (inl meta-annotations)
