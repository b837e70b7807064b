-- ===== src/Transformation/Scan.antt =====
-- The scan of app/transformation.py against a description of the images of a document.
use notifications_template_p.Prelude.{
  ℕ, zero, suc, ◌+◌, ◌≤◌, ◌<◌, ◌≡◌, refl, subst, ◌↔◌, inl, inr, Bool, true, false, List, [], ◌∷◌,
  length, Elem, ltb, arith, Bool-cases,
}
use notifications_template_p.Python.Errors.{ok}
use notifications_template_p.Python.Stream.{Bytes, BytesIo, rewind}
use notifications_template_p.Python.Text.{Text, is_in}
use notifications_template_p.External.{Libraries}
use notifications_template_p.Transformation.{
  images_contain, pages_contain, does_pdf_contain_colorspace,
}

is_not_both : (b : Bool) → b ≡ true → b ≡ false → ⊥
is_not_both b h k = ground arith

module _ (lib : Libraries) where
  open lib use {MuPage, open_document, get_page_images, colourspace}

  -- What can be read of the images of a document: on each page which images there are, and of each
  -- image the name of its colour space.
  pub record AreImages (doc : Bytes) (pages : ℕ) (images : ℕ → List ℕ) (space : ℕ → Text)
      : Type 0 where
    pub listed : (i : ℕ) → i < pages → get_page_images doc i ≡ ok (images i)
    pub named : (i x : ℕ) → i < pages → Elem x (images i) → colourspace doc x ≡ ok (space x)

  -- One of some images has a colour space whose name contains a text.
  abbrev Shows : Text → (ℕ → Text) → List ℕ → Type 0
  Shows wanted space xrefs = (x : ℕ) × Elem x xrefs × (is_in wanted (space x) ≡ true)

  -- One of the images of the pages does.
  abbrev pub HasImage : Text → ℕ → (ℕ → List ℕ) → (ℕ → Text) → Type 0
  HasImage wanted pages images space = (i : ℕ) × (i < pages) × Shows wanted space (images i)

  images_contain_lem :
      (wanted : Text) (doc : Bytes) (space : ℕ → Text) (xrefs : List ℕ)
      → ((x : ℕ) → Elem x xrefs → colourspace doc x ≡ ok (space x))
      → (b : Bool) × (images_contain lib wanted doc xrefs ≡ ok b)
        × ((b ≡ true) ↔ Shows wanted space xrefs)
  unfolding images_contain
  images_contain_lem wanted doc space [] named =
      (false, refl, (λ e. absurd (ground arith), λ (x, h, _). absurd h))
  images_contain_lem wanted doc space (x ∷ xrefs) named =
      elim (Bool-cases (is_in wanted (space x))) [
        | inl e ↦ (true, rw (named x (inl refl), e) refl, (λ _. (x, inl refl, e), λ _. refl))
        | inr e ↦
            let (b, run, iff) =
              images_contain_lem wanted doc space xrefs (λ y h. named y (inr h)) in
            (
              b,
              rw (named x (inl refl), e) run,
              (λ t. let (y, h, k) = iff.0 t in (y, inr h, k), λ (y, h, k). iff.1 (later y h k e)),
            )
      ]
    where
      later :
          (y : ℕ)
          → Elem y (x ∷ xrefs)
          → is_in wanted (space y) ≡ true
          → is_in wanted (space x) ≡ false
          → Shows wanted space xrefs
      later y (inl same) k e =
          let shown : is_in wanted (space x) ≡ true =
            subst (λ z. is_in wanted (space z) ≡ true) same k in
          absurd (ground arith)
      later y (inr h) k e = (y, h, k)

  pages_contain_lem :
      (wanted : Text) (doc : Bytes) (pages : ℕ) (images : ℕ → List ℕ) (space : ℕ → Text)
      → AreImages doc pages images space
      → (left i : ℕ) → i + left ≡ pages
      → (b : Bool) × (pages_contain lib wanted doc left i ≡ ok b)
        × ((b ≡ true) ↔ ((j : ℕ) × (i ≤ j) × (j < pages) × Shows wanted space (images j)))
  unfolding pages_contain
  pages_contain_lem wanted doc pages images space known zero i sum =
      (false, refl, (λ e. absurd (ground arith), λ (j, h, k, _). absurd (omega (arith, h, k, sum))))
  pages_contain_lem wanted doc pages images space known (suc left) i sum =
      let (found, run, iff) =
        images_contain_lem wanted doc space (images i)
          (λ x h. known.named i x (omega (arith, sum)) h) in
      let listed = known.listed i (omega (arith, sum)) in
      elim (Bool-cases found) [
        | inl e ↦ (
          true,
          rw (listed, run, e, pages_contain) refl,
          (λ _. (i, omega arith, omega (arith, sum), iff.0 e), λ _. refl),
        )
        | inr e ↦
            let (b, rest, iff') =
              pages_contain_lem wanted doc pages images space known left (suc i)
                (omega (arith, sum)) in
            (
              b,
              rw (listed, run, e, pages_contain) rest,
              (
                λ t. let (j, h, k, shows) = iff'.0 t in (j, omega (arith, h), k, shows),
                λ (j, h, k, shows).
                    iff'.1 (later j h k shows (λ here. is_not_both found (iff.1 here) e)),
              ),
            )
      ]
    where
      later :
          (j : ℕ)
          → i ≤ j
          → j < pages
          → Shows wanted space (images j)
          → ¬ Shows wanted space (images i)
          → (j : ℕ) × (suc i ≤ j) × (j < pages) × Shows wanted space (images j)
      later j h k shows hidden = elim (Bool-cases (ltb i j)) [
        | inl below ↦ (j, ground arith, k, shows)
        | inr not_below ↦
            let same : j ≡ i = ground arith in
            absurd (hidden (subst (λ l. Shows wanted space (images l)) same shows))
      ]

  pub does_pdf_contain_colorspace-scan :
      (wanted : Text) (f : BytesIo) (doc : List MuPage) (images : ℕ → List ℕ) (space : ℕ → Text)
      → open_document f.contents ≡ ok doc
      → AreImages f.contents (length doc) images space
      → (b : Bool) × (does_pdf_contain_colorspace lib wanted f ≡ ok (b, rewind f))
        × ((b ≡ true) ↔ HasImage wanted (length doc) images space)
  unfolding does_pdf_contain_colorspace
  does_pdf_contain_colorspace-scan wanted f doc images space opened known =
      let (b, run, iff) =
        pages_contain_lem wanted f.contents (length doc) images space known (length doc) 0
          (omega arith) in
      (
        b,
        rw (opened, run) refl,
        (
          λ t. let (j, _, k, shows) = iff.0 t in (j, k, shows),
          λ (j, k, shows). iff.1 (j, omega arith, k, shows),
        ),
      )
