-- ===== src/Api/Apart.antt =====
-- api/v1alpha1/zz_generated.deepcopy.go: a deep copy says the same and shares no memory.
pub mod Lists
use accord.Base.{ℕ, ◌<◌, ◌≡◌, refl, ap, ◌∙◌, List, [], ◌∷◌, Option, none, some, Bytes, All, arith}
use accord.Api.{
  MirrorUpgradeRequestSpec, Pointer, MirrorUpgradeRequestStatus, Metadata, MirrorUpgradeRequest,
  MirrorUpgradeRequestList, Cell, time, Store, Heap,
}
use accord.Api.DeepCopy.{
  Object, request_object, Copiers, Run, ◌>>=◌, requests, copy_to_new, unless_nil, copy_time,
  status_deep_copy_into, request_deep_copy_into, request_deep_copy, as_object,
  request_deep_copy_object,
}
use accord.Api.Copies.{IsGrown, IsDeepCopy, IsThere, IsThere-later, plain, IsDeepCopy-map, both}
use accord.Api.Copiers.{
  Copied, IsCopier, pointer_view, PointerFits, unless_nil-IsCopier, at_view, AtFits,
  copy_to_new-IsCopier,
}

abbrev pub IsTime : {M : Metadata} → ℕ → Heap M → Type 0
IsTime {M} p h = (p < h.next) × (t : M.Time) × (h.cell p ≡ some (time t))

-- What metadata say, and that the package metav1 makes deep copies of its own types.
pub record IsLawful (M : Metadata) (C : Copiers M) : Type 1 where
  pub ObjectView : Type 0
  pub ListView : Type 0
  pub object_view : M.ObjectMeta → Store M → ObjectView
  pub list_view : M.ListMeta → Store M → ListView
  pub object_meta :
      (a : M.ObjectMeta) (h : Heap M)
      → IsThere h (object_view a)
      → IsDeepCopy h (C.object_meta a h).1 (object_view a) (object_view (C.object_meta a h).0)
  pub list_meta :
      (a : M.ListMeta) (h : Heap M)
      → IsThere h (list_view a)
      → IsDeepCopy h (C.list_meta a h).1 (list_view a) (list_view (C.list_meta a h).0)
  pub time :
      (p : ℕ) (h : Heap M)
      → IsTime p h
      → IsDeepCopy h (C.time p h).1 (λ f. f p) (λ f. f (C.time p h).0)

module _ (M : Metadata) (C : Copiers M) (L : IsLawful M C) where
  abbrev pub time_view : Pointer → Store M → Option (Option (Cell M))
  time_view = pointer_view (λ p f. f p)

  abbrev pub TimeFits : Pointer → Heap M → Type 0
  TimeFits = PointerFits IsTime

  time-IsCopier : IsCopier time_view TimeFits (copy_time C)
  unfolding copy_time
  time-IsCopier =
      unless_nil-IsCopier (λ p f. f p) IsTime (λ p h. some (C.time p h))
        (record {
          there = λ p h (old, t, at) f agree. agree p (omega arith) old;
          keeps = λ p h h' (old, t, at) g. (omega (arith, g.longer), t, g.kept p old ∙ at);
          copies = λ p h fit. ((C.time p h).0, (C.time p h).1, refl, L.time p h fit);
        })

  abbrev pub StatusView : Type 0
  StatusView = Bytes × Bytes × Option (Option (Cell M)) × Option (Option (Cell M)) × Bytes

  abbrev pub status_view : MirrorUpgradeRequestStatus → Store M → StatusView
  status_view s f =
      (s.phase, s.message, time_view s.started_at f, time_view s.completed_at f, s.job_ref)

  abbrev pub StatusFits : MirrorUpgradeRequestStatus → Heap M → Type 0
  StatusFits s h = TimeFits s.started_at h × TimeFits s.completed_at h

  status_copies :
      (s : MirrorUpgradeRequestStatus) (h : Heap M)
      → StatusFits s h
      → Copied status_view (status_deep_copy_into C s) s h
  unfolding status_deep_copy_into
  status_copies s h (started, completed) =
      let c = time-IsCopier in
      let (a, h₁, ran, d) = c.copies s.started_at h started in
      let (b, h₂, ran', e) =
        c.copies s.completed_at h₁ (c.keeps s.completed_at h h₁ completed d.grown) in
      (
        record s { started_at = a; completed_at = b },
        h₂,
        rw (◌>>=◌, ran, ran') refl,
        IsDeepCopy-map h h₂ (λ f. (time_view s.started_at f, time_view s.completed_at f))
            (λ f. (time_view a f, time_view b f)) (λ (x, y). (s.phase, s.message, x, y, s.job_ref))
            (both h h₁ h₂ _ _ _ _ d (c.there s.completed_at h completed) e),
      )

  status-IsCopier : IsCopier status_view StatusFits (status_deep_copy_into C)
  status-IsCopier = record {
    there = λ s h (started, completed) f agree. λ i. (
      s.phase,
      s.message,
      time-IsCopier.there s.started_at h started f agree i,
      time-IsCopier.there s.completed_at h completed f agree i,
      s.job_ref,
    );
    keeps = λ s h h' (started, completed) g. (
      time-IsCopier.keeps s.started_at h h' started g,
      time-IsCopier.keeps s.completed_at h h' completed g,
    );
    copies = status_copies;
  }

  abbrev pub RequestView : Type 0
  RequestView = M.TypeMeta × L.ObjectView × MirrorUpgradeRequestSpec × StatusView

  abbrev pub request_view : MirrorUpgradeRequest M → Store M → RequestView
  request_view r f = (r.type_meta, L.object_view r.object_meta f, r.spec, status_view r.status f)

  abbrev pub RequestFits : MirrorUpgradeRequest M → Heap M → Type 0
  RequestFits r h = IsThere h (L.object_view r.object_meta) × StatusFits r.status h

  request_copies :
      (r : MirrorUpgradeRequest M) (h : Heap M)
      → RequestFits r h
      → Copied request_view (request_deep_copy_into C r) r h
  unfolding request_deep_copy_into
  request_copies r h (meta, status) =
      let c = status-IsCopier in
      let (a, h₁) = C.object_meta r.object_meta h in
      let d = L.object_meta r.object_meta h meta in
      let (b, h₂, ran, e) = c.copies r.status h₁ (c.keeps r.status h h₁ status d.grown) in
      (
        record r { object_meta = a; status = b },
        h₂,
        rw (◌>>=◌, ran) refl,
        IsDeepCopy-map h h₂ (λ f. (L.object_view r.object_meta f, status_view r.status f))
            (λ f. (L.object_view a f, status_view b f)) (λ (x, y). (r.type_meta, x, r.spec, y))
            (both h h₁ h₂ _ _ _ _ d (c.there r.status h status) e),
      )

  pub request-IsCopier : IsCopier request_view RequestFits (request_deep_copy_into C)
  request-IsCopier = record {
    there = λ r h (meta, status) f agree. λ i.
        (r.type_meta, meta f agree i, r.spec, status-IsCopier.there r.status h status f agree i);
    keeps = λ r h h' (meta, status) g. (
      (IsThere-later h h' (L.object_view r.object_meta) g meta).1,
      status-IsCopier.keeps r.status h h' status g,
    );
    copies = request_copies;
  }

  abbrev pub request_at : Pointer → Store M → Option (Option RequestView)
  request_at = pointer_view (at_view requests request_view)

  request_pointer-IsCopier :
      IsCopier request_at (PointerFits (AtFits requests RequestFits)) (request_deep_copy C)
  unfolding request_deep_copy
  request_pointer-IsCopier =
      unless_nil-IsCopier _ _ _
        (copy_to_new-IsCopier requests (λ r. refl) request_view RequestFits _ request-IsCopier)

  -- DeepCopyObject of a request returns nil for nil, and else a request in new memory that says the same.
  request_deep_copy_object-Copied :
      (p : Pointer) (h : Heap M)
      → PointerFits (AtFits requests RequestFits) p h
      → (q : Pointer) × (h' : Heap M) × (request_deep_copy_object C p h
          ≡ some (as_object request_object q, h'))
        × IsDeepCopy h h' (request_at p) (request_at q)
  unfolding request_deep_copy_object
  request_deep_copy_object-Copied p h fit =
      let (q, h', ran, d) = request_pointer-IsCopier.copies p h fit in
      (q, h', rw (◌>>=◌, ran) refl, d)
