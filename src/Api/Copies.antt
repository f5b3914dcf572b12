-- ===== src/Api/Copies.antt =====
-- What it is to be a deep copy, and how deep copies of parts make one of the whole.
use accord.Base.{ℕ, ◌+◌, ◌≤◌, ◌<◌, ◌≡◌, refl, sym, ap, ◌∙◌, some, arith}
use accord.Api.{Metadata, Cell, Store, Heap, reserve, store}

module _ {M : Metadata} where
  -- What a value says, with everything that it points to, as a function of the cells: here it is settled
  -- by the cells from `lo` up to `hi`, as the heap has them.
  abbrev pub IsSettled : {V : Type 0} → ℕ → ℕ → Heap M → (Store M → V) → Type 0
  IsSettled lo hi h x =
      (f : Store M) → ((p : ℕ) → lo ≤ p → p < hi → f p ≡ h.cell p) → x f ≡ x h.cell

  -- From `h` to `h'` cells are allocated, and no cell that was there is written.
  pub record IsGrown (h h' : Heap M) : Type 0 where
    pub longer : h.next ≤ h'.next
    pub kept : (p : ℕ) → p < h.next → h'.cell p ≡ h.cell p

  -- From `h` to `h'` the value that says `y` was made as a deep copy of the one that says `x`: it says
  -- the same, and all that it says stands in cells that are new.
  pub record IsDeepCopy {V : Type 0} (h h' : Heap M) (x y : Store M → V) : Type 0 where
    pub grown : IsGrown h h'
    pub same : y h'.cell ≡ x h.cell
    pub apart : IsSettled h.next h'.next h' y

  -- Whatever is written later elsewhere, a value that stands in old cells says what it said.
  abbrev pub IsThere : {V : Type 0} → Heap M → (Store M → V) → Type 0
  IsThere h x = IsSettled 0 h.next h x

  pub IsThere-later :
      {V : Type 0} (h h' : Heap M) (x : Store M → V)
      → IsGrown h h'
      → IsThere h x
      → (x h'.cell ≡ x h.cell) × IsThere h' x
  IsThere-later h h' x g t =
      let same : x h'.cell ≡ x h.cell = t h'.cell (λ p _ b. g.kept p b) in
      (same, λ f agree. t f (λ p l b. agree p l (omega (arith, g.longer)) ∙ g.kept p b) ∙ sym same)

  pub IsGrown-trans : (h₀ h₁ h₂ : Heap M) → IsGrown h₀ h₁ → IsGrown h₁ h₂ → IsGrown h₀ h₂
  IsGrown-trans h₀ h₁ h₂ g k = record {
    longer = omega (arith, g.longer, k.longer);
    kept = λ p b. k.kept p (omega (arith, g.longer)) ∙ g.kept p b;
  }

  pub IsGrown-refl : (h : Heap M) → IsGrown h h
  IsGrown-refl h = record { longer = omega arith; kept = λ p b. refl }

  -- A part that is a plain value is copied by an assignment.
  pub plain : {V : Type 0} (h : Heap M) (v : V) → IsDeepCopy h h (λ _. v) (λ _. v)
  plain h v = record { grown = IsGrown-refl h; same = refl; apart = λ f agree. refl }

  pub IsDeepCopy-map :
      {V W : Type 0} (h h' : Heap M) (x y : Store M → V) (k : V → W)
      → IsDeepCopy h h' x y
      → IsDeepCopy h h' (λ f. k (x f)) (λ f. k (y f))
  IsDeepCopy-map h h' x y k d = record {
    grown = d.grown;
    same = ap k d.same;
    apart = λ f agree. ap k (d.apart f agree);
  }

  -- Two parts, one copied after the other.
  pub both :
      {V W : Type 0} (h₀ h₁ h₂ : Heap M) (x y : Store M → V) (u v : Store M → W)
      → IsDeepCopy h₀ h₁ x y
      → IsThere h₀ u
      → IsDeepCopy h₁ h₂ u v
      → IsDeepCopy {V = V × W} h₀ h₂ (λ f. (x f, u f)) (λ f. (y f, v f))
  both h₀ h₁ h₂ x y u v d t e =
      let (old, _) = IsThere-later h₀ h₁ u d.grown t in
      let still : y h₂.cell ≡ y h₁.cell = d.apart h₂.cell (λ p l b. e.grown.kept p b) in
      record {
        grown = IsGrown-trans h₀ h₁ h₂ d.grown e.grown;
        same = λ i. ((still ∙ d.same) i, (e.same ∙ old) i);
        apart = λ f agree. λ i. (
          (d.apart f (λ p l b. agree p l (omega (arith, e.grown.longer)) ∙ e.grown.kept p b)
                ∙ sym still)
              i,
          e.apart f (λ p l b. agree p (omega (arith, d.grown.longer)) b) i,
        );
      }

  -- A copy that fills a cell allocated before it: what stands at the new address says the same.
  pub into_new :
      {V W : Type 0} (h h' : Heap M) (x y : Store M → V) (k : V → W) (c : Cell M)
      (old new : Store M → W)
      → IsDeepCopy (reserve h).1 h' x y
      → old h.cell ≡ k (x h.cell)
      → ((f : Store M) → f h.next ≡ some c → new f ≡ k (y f))
      → IsDeepCopy h (store h.next c h') old new
  unfolding reserve store
  into_new h h' x y k c old new d from reads =
      let g : Heap M = store h.next c h' in
      let above : (p : ℕ) → h.next + 1 ≤ p → g.cell p ≡ h'.cell p = λ p l. ground arith in
      let here : g.cell h.next ≡ some c = ground arith in
      let still : y g.cell ≡ y h'.cell = d.apart g.cell (λ p l b. above p l) in
      record {
        grown = record {
          longer = omega (arith, d.grown.longer);
          kept = λ p b. ground (arith, d.grown.kept p (omega arith));
        };
        same = reads g.cell here ∙ ap k (still ∙ d.same) ∙ sym from;
        apart = λ f agree.
            reads f (agree h.next (omega arith) (omega (arith, d.grown.longer)) ∙ here)
            ∙ ap k (d.apart f (λ p l b. agree p (omega arith) b ∙ above p l) ∙ sym still)
            ∙ sym (reads g.cell here);
      }
