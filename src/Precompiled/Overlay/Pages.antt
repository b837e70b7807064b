-- ===== src/Precompiled/Overlay/Pages.antt =====
-- Which overlay app/precompiled.py puts on which page.
use notifications_template_p.Prelude.{
  ℕ, zero, suc, ◌<◌, ◌==◌, ◌≡◌, refl, Bool, true, false, List, [], ◌∷◌, length, arith,
}
use notifications_template_p.Python.Errors.{ok}
use notifications_template_p.Python.Stream.{Bytes, BytesIo, rewind}
use notifications_template_p.External.{Libraries, IsFaithful}
use notifications_template_p.Geometry.Canvas.{
  content_page_overlay, address_page_overlay, no_print_overlay,
}
use notifications_template_p.Precompiled.Overlay.{
  pdf_reader, bytesio_from_pdf, drawn_page, merge_drawing, overlay_content_pages,
  overlay_letter_pages, overlay_printable_areas_with_white, colour_later_pages, colour_pages,
  colour_no_print_areas_of_page_in_red, overlay_template_pdf,
}

module _ (lib : Libraries) where
  open lib use {Page, parse, merge_page}

  -- Each page under the drawing that belongs to its index.
  abbrev pub overlaid : (ℕ → Page) → ℕ → List Page → List Page
  overlaid drawing i [] = []
  overlaid drawing i (p ∷ ps) = merge_page p (drawing i) ∷ overlaid drawing (suc i) ps

  -- One drawing for the first page, another one for all others.
  abbrev pub by_index : Page → Page → ℕ → Page
  by_index front other zero = front
  by_index front other (suc i) = other

  abbrev pub front_of : Bool → Page → Page → Page
  front_of true address content = content
  front_of false address content = address

  overlay_content_pages_lem :
      (front content : Page) (i : ℕ) (ps : List Page)
      → drawn_page lib content_page_overlay ≡ ok content
      → overlay_content_pages lib ps ≡ ok (overlaid (by_index front content) (suc i) ps)
  unfolding overlay_content_pages merge_drawing
  overlay_content_pages_lem front content i [] drawn = refl
  overlay_content_pages_lem front content i (p ∷ ps) drawn =
      rw (drawn, overlay_content_pages_lem front content (suc i) ps drawn) refl

  colour_later_pages_lem :
      (front other : Page) (i : ℕ) (ps : List Page)
      → drawn_page lib (no_print_overlay false) ≡ ok other
      → colour_later_pages lib ps ≡ ok (overlaid (by_index front other) (suc i) ps)
  unfolding colour_later_pages colour_no_print_areas_of_page_in_red merge_drawing
  colour_later_pages_lem front other i [] drawn = refl
  colour_later_pages_lem front other i (p ∷ ps) drawn =
      rw (drawn, colour_later_pages_lem front other (suc i) ps drawn) refl

  -- In the copy of a document whose printable areas are covered, every page is the page of the same
  -- index under a white overlay: that of the address page for the first page of a letter, and that
  -- of content for every other page of a letter and every page of an attachment. The document is
  -- handed back as it was, from its start. The drawings can be made, the document has a page, and
  -- pypdf reads the pages that it wrote.
  pub overlay_printable_areas_with_white-pages :
      IsFaithful lib
      → (f : BytesIo) (is_an_attachment : Bool) (p : Page) (ps : List Page) (address content : Page)
      → parse f.contents ≡ ok (p ∷ ps)
      → drawn_page lib address_page_overlay ≡ ok address
      → drawn_page lib content_page_overlay ≡ ok content
      → (copy : BytesIo) × (overlay_printable_areas_with_white lib f is_an_attachment
          ≡ ok (copy, rewind f))
        × (parse copy.contents
            ≡ ok (
                overlaid (by_index (front_of is_an_attachment address content) content) 0 (p ∷ ps)))
  unfolding overlay_printable_areas_with_white overlay_content_pages overlay_letter_pages
      merge_drawing pdf_reader bytesio_from_pdf
  overlay_printable_areas_with_white-pages faithful f true p ps address content read front other = (
    bytesio_from_pdf lib (overlaid (by_index content content) 0 (p ∷ ps)),
    rw (read, other, overlay_content_pages_lem content content 0 ps other) refl,
    faithful _ _,
  )
  overlay_printable_areas_with_white-pages faithful f false p ps address content read front other =
      (
        bytesio_from_pdf lib (overlaid (by_index address content) 0 (p ∷ ps)),
        rw (read, front, overlay_content_pages_lem address content 0 ps other) refl,
        faithful _ _,
      )

  -- In the document that /precompiled/overlay.pdf answers with, every page is the page of the same
  -- index under the red overlay of the areas that must stay clear: that of a first page for the
  -- first, and that of other pages for all others. The request has a body and no arguments, the
  -- drawings can be made, the document has a page, and pypdf reads the pages that it wrote.
  pub overlay_template_pdf-pages :
      IsFaithful lib
      → (encoded : Bytes) (p : Page) (ps : List Page) (front other : Page) → 0 < length encoded
      → parse encoded ≡ ok (p ∷ ps)
      → drawn_page lib (no_print_overlay true) ≡ ok front
      → drawn_page lib (no_print_overlay false) ≡ ok other
      → (coloured : BytesIo) × (overlay_template_pdf lib encoded false ≡ ok coloured)
        × (parse coloured.contents ≡ ok (overlaid (by_index front other) 0 (p ∷ ps)))
  unfolding overlay_template_pdf colour_pages colour_no_print_areas_of_page_in_red merge_drawing
      pdf_reader bytesio_from_pdf
  overlay_template_pdf-pages faithful encoded p ps front other some_body read d e =
      let has_body : (length encoded == 0) ≡ false = ground arith in
      (
        bytesio_from_pdf lib (overlaid (by_index front other) 0 (p ∷ ps)),
        rw (has_body, read, d, colour_later_pages_lem front other 0 ps e) refl,
        faithful _ _,
      )
