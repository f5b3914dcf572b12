-- ===== src/Api/Copiers.antt =====
-- How the copies of parts, of what a pointer points to, and of the elements of an array make up the
-- copies in api/v1alpha1/zz_generated.deepcopy.go.
use accord.Base.{ℕ, ◌<◌, ◌≡◌, refl, sym, ap, ◌∙◌, Option, none, some, arith}
use accord.Api.{Metadata, Cell, Pointer, Store, Heap, reserve, store}
use accord.Api.DeepCopy.{Run, Held, load_from, ◌>>=◌, copy_to_new, unless_nil}
use accord.Api.Copies.{IsGrown, IsDeepCopy, IsThere, plain, IsDeepCopy-map, into_new}

module _ {M : Metadata} where
  -- A run leaves a deep copy of `a` as its result.
  abbrev pub Copied : {A V : Type 0} → (A → Store M → V) → Run M A → A → Heap M → Type 0
  Copied {A} view m a h =
      (b : A) × (h' : Heap M) × (m h ≡ some (b, h')) × IsDeepCopy h h' (view a) (view b)

  -- `copy` makes deep copies of the values that fit a heap. What a fitting value says stands in the cells
  -- of the heap, and it fits every later heap.
  pub record IsCopier {A V : Type 0} (view : A → Store M → V) (Fits : A → Heap M → Type 0)
      (copy : A → Run M A) : Type 0 where
    pub there : (a : A) (h : Heap M) → Fits a h → IsThere h (view a)
    pub keeps : (a : A) (h h' : Heap M) → Fits a h → IsGrown h h' → Fits a h'
    pub copies : (a : A) (h : Heap M) → Fits a h → Copied view (copy a) a h

  abbrev pub pointer_view : {V : Type 0} → (ℕ → Store M → V) → Pointer → Store M → Option V
  pointer_view view none f = none
  pointer_view view (some p) f = some (view p f)

  abbrev pub PointerFits : (ℕ → Heap M → Type 0) → Pointer → Heap M → Type 0
  PointerFits Fits none h = Unit
  PointerFits Fits (some p) h = Fits p h

  module _ {V : Type 0} (view : ℕ → Store M → V) (Fits : ℕ → Heap M → Type 0) (copy : ℕ → Run M ℕ)
      (c : IsCopier view Fits copy) where
    pointer-IsThere :
        (p : Pointer) (h : Heap M) → PointerFits Fits p h → IsThere h (pointer_view view p)
    pointer-IsThere none h fit f agree = refl
    pointer-IsThere (some p) h fit f agree = ap some (c.there p h fit f agree)

    pointer_keeps :
        (p : Pointer) (h h' : Heap M) → PointerFits Fits p h → IsGrown h h' → PointerFits Fits p h'
    pointer_keeps none h h' fit g = tt
    pointer_keeps (some p) h h' fit g = c.keeps p h h' fit g

    pointer_copies :
        (p : Pointer) (h : Heap M)
        → PointerFits Fits p h
        → Copied (pointer_view view) (unless_nil copy p) p h
    unfolding unless_nil
    pointer_copies none h fit = (none, h, refl, plain h none)
    pointer_copies (some p) h fit =
        let (q, h', ran, d) = c.copies p h fit in
        (some q, h', rw (◌>>=◌, ran) refl, IsDeepCopy-map h h' (view p) (view q) some d)

    pub unless_nil-IsCopier : IsCopier (pointer_view view) (PointerFits Fits) (unless_nil copy)
    unless_nil-IsCopier = record {
      there = pointer-IsThere;
      keeps = pointer_keeps;
      copies = pointer_copies;
    }

  -- What a cell says that should hold a value of a type.
  abbrev pub content_view :
      {A V : Type 0} → Held M A → (A → Store M → V) → Option (Cell M) → Store M → Option V
  content_view t view none f = none
  content_view t view (some c) f = elim (t.held c) [ none ↦ none | some a ↦ some (view a f) ]

  abbrev pub at_view : {A V : Type 0} → Held M A → (A → Store M → V) → ℕ → Store M → Option V
  at_view t view p f = content_view t view (f p) f

  abbrev pub AtFits : {A : Type 0} → Held M A → (A → Heap M → Type 0) → ℕ → Heap M → Type 0
  AtFits {A} t Fits p h = (p < h.next) × (a : A) × (h.cell p ≡ some (t.hold a)) × Fits a h

  module _ {A V : Type 0} (t : Held M A) (holds : (a : A) → t.held (t.hold a) ≡ some a)
      (view : A → Store M → V) (Fits : A → Heap M → Type 0) (into : A → Run M A)
      (c : IsCopier view Fits into) where
    at_view-hold :
        (p : ℕ) (a : A) (f : Store M) → f p ≡ some (t.hold a) → at_view t view p f ≡ some (view a f)
    at_view-hold p a f e = rw (e, content_view, holds a) refl

    at-IsThere : (p : ℕ) (h : Heap M) → AtFits t Fits p h → IsThere h (at_view t view p)
    at-IsThere p h (old, a, at, fit) f agree =
        at_view-hold p a f (agree p (omega arith) old ∙ at)
        ∙ ap some (c.there a h fit f agree)
        ∙ sym (at_view-hold p a h.cell at)

    at_keeps : (p : ℕ) (h h' : Heap M) → AtFits t Fits p h → IsGrown h h' → AtFits t Fits p h'
    at_keeps p h h' (old, a, at, fit) g =
        (omega (arith, g.longer), a, g.kept p old ∙ at, c.keeps a h h' fit g)

    IsGrown-reserve : (h : Heap M) → IsGrown h (reserve h).1
    unfolding reserve
    IsGrown-reserve h = record { longer = omega arith; kept = λ p b. refl }

    at_copies :
        (p : ℕ) (h : Heap M)
        → AtFits t Fits p h
        → Copied (at_view t view) (copy_to_new t into p) p h
    unfolding copy_to_new reserve
    at_copies p h (old, a, at, fit) =
        let h₁ : Heap M = (reserve h).1 in
        let (b, h₂, ran, d) = c.copies a h₁ (c.keeps a h h₁ fit (IsGrown-reserve h)) in
        (
          h.next,
          store h.next (t.hold b) h₂,
          rw (at, load_from, holds a, ◌>>=◌, ran) refl,
          into_new h h₂ (view a) (view b) some (t.hold b) (at_view t view p) (at_view t view h.next)
              d (at_view-hold p a h.cell at) (λ f e. at_view-hold h.next b f e),
        )

    pub copy_to_new-IsCopier : IsCopier (at_view t view) (AtFits t Fits) (copy_to_new t into)
    copy_to_new-IsCopier = record { there = at-IsThere; keeps = at_keeps; copies = at_copies }
