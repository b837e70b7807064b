-- ===== src/Preview/Laws.antt =====
-- Which page of a PDF `png_from_pdf` draws, for each number that a request can ask for.
use Prim.Native.String.{◌++◌ as ◌<>◌}
use notifications_template_p.Prelude.{
  ℕ, zero, suc, ◌+◌, ◌-◌, ◌<◌, ◌≤◌, ltb, List, [], ◌∷◌, none, some, length, get_elem?, ◌≡◌, refl,
  ◌∙◌, subst, arith, ltb_iff, true,
}
use notifications_template_p.Prelude.Int.{ℤ, pos, negsuc, ◌-ℤ◌}
use notifications_template_p.Python.Errors.{Exn, ok, raised}
use notifications_template_p.Python.Stream.{BytesIo}
use notifications_template_p.External.{Libraries}
use notifications_template_p.Precompiled.Overlay.{pdf_reader}
use notifications_template_p.Preview.Pages.{
  get_page, page_or_abort, read_page, requested_page, str_ℤ,
}

module _ {ℓ} {A : Type ℓ} where
  get_elem?-bounded : (xs : List A) (k : ℕ) (x : A) → get_elem? xs k ≡ some x → k < length xs
  get_elem?-bounded [] k x h = ground arith
  get_elem?-bounded (y ∷ xs) zero x h = omega arith
  get_elem?-bounded (y ∷ xs) (suc k) x h = omega (arith, get_elem?-bounded xs k x h)

  get_elem?-outside : (xs : List A) (k : ℕ) → length xs ≤ k → get_elem? xs k ≡ none
  get_elem?-outside [] k h = refl
  get_elem?-outside (y ∷ xs) zero h = absurd (omega arith)
  get_elem?-outside (y ∷ xs) (suc k) h = get_elem?-outside xs k (omega (arith, h))

  -- An index from the end.
  get_page-negative :
      (xs : List A) (k j : ℕ) (x : A)
      → get_elem? xs k ≡ some x
      → j + suc k ≡ length xs
      → get_page xs (negsuc j) ≡ ok x
  unfolding get_page
  get_page-negative xs k j x h e =
      let below : ltb j (length xs) ≡ true = (ltb_iff j (length xs)).1 (omega arith) in
      let at : length xs - suc j ≡ k = omega arith in rw (below, at, h)

  get_page-far :
      (xs : List A) (j : ℕ) → length xs ≤ j → get_page xs (negsuc j) ≡ raised Exn.index_error
  unfolding get_page
  get_page-far xs j h = ground arith

  get_page-beyond :
      (xs : List A) (j : ℕ) → length xs ≤ j → get_page xs (pos j) ≡ raised Exn.index_error
  unfolding get_page
  get_page-beyond xs j h = rw (get_elem?-outside xs j h, get_page)

pos-suc : (m : ℕ) → pos (suc m) -ℤ pos 1 ≡ pos m
pos-suc m = ground arith

from_end : (n k : ℕ) → k < n → (pos (suc k) -ℤ pos n) -ℤ pos 1 ≡ negsuc (n - suc k)
from_end n k h = ground arith

negative : (m : ℕ) → (pos 0 -ℤ pos m) -ℤ pos 1 ≡ negsuc m
negative m = ground arith

module _ (lib : Libraries) (file f : BytesIo) (pages : List lib.Page)
    (readable : pdf_reader lib file ≡ ok (pages, f)) where
  requested_page-get_page :
      (n : ℤ) → requested_page lib file n ≡ page_or_abort n (get_page pages (n -ℤ pos 1))
  unfolding requested_page read_page
  requested_page-get_page n = rw (readable)

  drawn :
      (n i : ℤ) (page : lib.Page)
      → n -ℤ pos 1 ≡ i
      → get_page pages i ≡ ok page
      → requested_page lib file n ≡ ok page
  drawn n i page e h = requested_page-get_page n ∙ rw (e, h)

  refused :
      (n i : ℤ)
      → n -ℤ pos 1 ≡ i
      → get_page pages i ≡ raised Exn.index_error
      → requested_page lib file n
        ≡ raised (Exn.http_exception 400 ("Letter does not have a page " <> str_ℤ n))
  refused n i e h = requested_page-get_page n ∙ rw (e, h)

  -- Page k + 1 of a PDF that can be read is drawn for the number k + 1, and for the number k + 1 - n
  -- if the PDF has n pages; so 0 gives its last page, and -1 the one before that.
  pub requested_page-inside :
      (k : ℕ) (page : lib.Page)
      → get_elem? pages k ≡ some page
      → (requested_page lib file (pos (suc k)) ≡ ok page)
        × (requested_page lib file (pos (suc k) -ℤ pos (length pages)) ≡ ok page)
  unfolding get_page
  requested_page-inside k page h =
      let bound : k < length pages = get_elem?-bounded pages k page h in
      (
        drawn (pos (suc k)) (pos k) page (pos-suc k) (rw (h, get_page)),
        drawn (pos (suc k) -ℤ pos (length pages)) (negsuc (length pages - suc k)) page
            (from_end (length pages) k bound)
            (get_page-negative pages k (length pages - suc k) page h (omega arith)),
      )

  -- A number greater than n, or at most -n, of a PDF of n pages that can be read is refused with
  -- status 400.
  pub requested_page-outside :
      (k : ℕ)
      → (requested_page lib file (pos (length pages + suc k))
          ≡ raised (
              Exn.http_exception 400
                ("Letter does not have a page " <> str_ℤ (pos (length pages + suc k)))))
        × (requested_page lib file (pos 0 -ℤ pos (length pages + k))
            ≡ raised (
                Exn.http_exception 400
                  ("Letter does not have a page " <> str_ℤ (pos 0 -ℤ pos (length pages + k)))))
  unfolding get_page
  requested_page-outside k = (
    refused (pos (length pages + suc k)) (pos (length pages + k))
        (subst (λ m. pos m -ℤ pos 1 ≡ pos (length pages + k)) (omega arith)
          (pos-suc (length pages + k)))
        (get_page-beyond pages (length pages + k) (omega arith)),
    refused (pos 0 -ℤ pos (length pages + k)) (negsuc (length pages + k))
        (negative (length pages + k)) (get_page-far pages (length pages + k) (omega arith)),
  )
