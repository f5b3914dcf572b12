-- ===== src/Api/Apart/Lists.antt =====
-- api/v1alpha1/zz_generated.deepcopy.go: a deep copy of a list, with the array of its items.
use accord.Base.{◌≡◌, refl, List, [], ◌∷◌, Option, some, All}
use accord.Api.{Pointer, Metadata, MirrorUpgradeRequest, MirrorUpgradeRequestList, Store, Heap}
use accord.Api.DeepCopy.{
  list_object, Copiers, ◌>>=◌, request_lists, arrays, copy_to_new, unless_nil, copy_items,
  list_deep_copy_into, list_deep_copy, as_object, list_deep_copy_object,
}
use accord.Api.Copies.{IsGrown, IsDeepCopy, IsThere, IsThere-later, plain, IsDeepCopy-map, both}
use accord.Api.Copiers.{
  Copied, IsCopier, pointer_view, PointerFits, unless_nil-IsCopier, at_view, AtFits,
  copy_to_new-IsCopier,
}
use accord.Api.Apart
use accord.Api.Apart.{IsLawful}

module _ (M : Metadata) (C : Copiers M) (L : IsLawful M C) where
  abbrev RequestView : Type 0
  RequestView = Apart.RequestView M C L

  abbrev request_view : MirrorUpgradeRequest M → Store M → RequestView
  request_view = Apart.request_view M C L

  abbrev RequestFits : MirrorUpgradeRequest M → Heap M → Type 0
  RequestFits = Apart.RequestFits M C L

  abbrev items_view : List (MirrorUpgradeRequest M) → Store M → List RequestView
  items_view [] f = []
  items_view (r ∷ rs) f = request_view r f ∷ items_view rs f

  abbrev ItemsFit : List (MirrorUpgradeRequest M) → Heap M → Type 0
  ItemsFit rs h = All (λ r. RequestFits r h) rs

  items-IsThere :
      (rs : List (MirrorUpgradeRequest M)) (h : Heap M) → ItemsFit rs h → IsThere h (items_view rs)
  items-IsThere [] h fit f agree = refl
  items-IsThere (r ∷ rs) h (first, rest) f agree = λ i.
      (Apart.request-IsCopier M C L).there r h first f agree i ∷ items-IsThere rs h rest f agree i

  items_keeps :
      (rs : List (MirrorUpgradeRequest M)) (h h' : Heap M)
      → ItemsFit rs h
      → IsGrown h h'
      → ItemsFit rs h'
  items_keeps [] h h' fit g = tt
  items_keeps (r ∷ rs) h h' (first, rest) g =
      ((Apart.request-IsCopier M C L).keeps r h h' first g, items_keeps rs h h' rest g)

  items_copies :
      (rs : List (MirrorUpgradeRequest M)) (h : Heap M)
      → ItemsFit rs h
      → Copied items_view (copy_items C rs) rs h
  unfolding copy_items
  items_copies [] h fit = ([], h, refl, plain h [])
  items_copies (r ∷ rs) h (first, rest) =
      let (a, h₁, ran, d) = (Apart.request-IsCopier M C L).copies r h first in
      let (as', h₂, ran', e) = items_copies rs h₁ (items_keeps rs h h₁ rest d.grown) in
      (
        a ∷ as',
        h₂,
        rw (◌>>=◌, ran, ran') refl,
        IsDeepCopy-map h h₂ (λ f. (request_view r f, items_view rs f))
            (λ f. (request_view a f, items_view as' f)) (λ (x, xs). x ∷ xs)
            (both h h₁ h₂ _ _ _ _ d (items-IsThere rs h rest) e),
      )

  abbrev array_view : Pointer → Store M → Option (Option (List RequestView))
  array_view = pointer_view (at_view arrays items_view)

  abbrev ArrayFits : Pointer → Heap M → Type 0
  ArrayFits = PointerFits (AtFits arrays ItemsFit)

  array-IsCopier : IsCopier array_view ArrayFits (unless_nil (copy_to_new arrays (copy_items C)))
  array-IsCopier = unless_nil-IsCopier _ _ _ (
      copy_to_new-IsCopier arrays (λ rs. refl) items_view ItemsFit _
        (record { there = items-IsThere; keeps = items_keeps; copies = items_copies }))

  abbrev ListFits : MirrorUpgradeRequestList M → Heap M → Type 0
  ListFits l h = IsThere h (L.list_view l.list_meta) × ArrayFits l.items h

  abbrev request_list_view :
      MirrorUpgradeRequestList M
      → Store M
      → M.TypeMeta × L.ListView × Option (Option (List RequestView))
  request_list_view l f = (l.type_meta, L.list_view l.list_meta f, array_view l.items f)

  list_copies :
      (l : MirrorUpgradeRequestList M) (h : Heap M)
      → ListFits l h
      → Copied request_list_view (list_deep_copy_into C l) l h
  unfolding list_deep_copy_into
  list_copies l h (meta, items) =
      let c = array-IsCopier in
      let (a, h₁) = C.list_meta l.list_meta h in
      let d = L.list_meta l.list_meta h meta in
      let (b, h₂, ran, e) = c.copies l.items h₁ (c.keeps l.items h h₁ items d.grown) in
      (
        record l { list_meta = a; items = b },
        h₂,
        rw (◌>>=◌, ran) refl,
        IsDeepCopy-map h h₂ (λ f. (L.list_view l.list_meta f, array_view l.items f))
            (λ f. (L.list_view a f, array_view b f)) (λ (x, y). (l.type_meta, x, y))
            (both h h₁ h₂ _ _ _ _ d (c.there l.items h items) e),
      )

  list-IsCopier : IsCopier request_list_view ListFits (list_deep_copy_into C)
  list-IsCopier = record {
    there = λ l h (meta, items) f agree.
        λ i. (l.type_meta, meta f agree i, array-IsCopier.there l.items h items f agree i);
    keeps = λ l h h' (meta, items) g. (
      (IsThere-later h h' (L.list_view l.list_meta) g meta).1,
      array-IsCopier.keeps l.items h h' items g,
    );
    copies = list_copies;
  }

  abbrev pub list_at :
      Pointer
      → Store M
      → Option (Option (M.TypeMeta × L.ListView × Option (Option (List RequestView))))
  list_at = pointer_view (at_view request_lists request_list_view)

  abbrev pub ListPointerFits : Pointer → Heap M → Type 0
  ListPointerFits = PointerFits (AtFits request_lists ListFits)

  list_pointer-IsCopier : IsCopier list_at ListPointerFits (list_deep_copy C)
  unfolding list_deep_copy
  list_pointer-IsCopier =
      unless_nil-IsCopier _ _ _
        (copy_to_new-IsCopier request_lists (λ l. refl) request_list_view ListFits _ list-IsCopier)

  -- DeepCopyObject of a list of requests always ends with a result. For nil it is nil; else it is a list
  -- that says the same as the old one, all of it (metadata, items, the times of their status) in memory
  -- that was not allocated before: no old cell has been written, no later write to an old cell is seen
  -- through the copy, and no write to a new one is seen through the original. The list, its array and its
  -- times are where their pointers point, and metav1 makes deep copies of its own types.
  pub list_deep_copy_object-Copied :
      (p : Pointer) (h : Heap M)
      → ListPointerFits p h
      → (q : Pointer) × (h' : Heap M) × (list_deep_copy_object C p h
          ≡ some (as_object list_object q, h'))
        × IsDeepCopy h h' (list_at p) (list_at q)
        × IsThere h (list_at p)
  unfolding list_deep_copy_object
  list_deep_copy_object-Copied p h fit =
      let c = list_pointer-IsCopier in
      let (q, h', ran, d) = c.copies p h fit in (q, h', rw (◌>>=◌, ran) refl, d, c.there p h fit)
