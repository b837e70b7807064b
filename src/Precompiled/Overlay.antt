-- ===== src/Precompiled/Overlay.antt =====
-- Readers, writers and overlays of app/precompiled.py. A function that moves the position of a
-- stream that it was handed returns the stream too. Of logging, `log_metadata_for_letter` is kept.
pub mod Pages
use notifications_template_p.Prelude.{
  String, Option, none, some, ◌==◌, Bool, true, false, List, [], ◌∷◌, length, if◌then◌else◌,
}
use notifications_template_p.Python.Errors.{Exn, Result, ok, raised, ◌>>=◌, ◌>>◌, raise_if, first}
use notifications_template_p.Python.Stream.{Bytes, BytesIo, bytes_io, rewind}
use notifications_template_p.External.{Libraries, DocumentInformation}
use notifications_template_p.Geometry.Canvas.{
  Canvas, content_page_overlay, address_page_overlay, no_print_overlay,
}
use mathlib.Core.Bool.{not}

-- What `log_metadata_for_letter` logs of a document: its creator and its producer, if it says so.
pub data MetadataLog : Type 0 where
  no_document_info : MetadataLog
  made_by : Option String → Option String → MetadataLog

abbrev logged_info : Option DocumentInformation → MetadataLog
logged_info none = no_document_info
logged_info (some info) = made_by info.creator info.producer

module _ (lib : Libraries) where
  open lib use {Page, parse, open_reader, left_at, metadata, merge_page, write, save}

  -- `PdfReader(stream)` and its `.pages`.
  unfoldable pub pdf_reader : BytesIo → Result (List Page × BytesIo)
  pdf_reader f = do
    pages ← parse f.contents
    ok (pages, record f { position = left_at f.contents f.position })

  unfoldable pub bytesio_from_pdf : List Page → BytesIo
  bytesio_from_pdf pages = bytes_io (write pages)

  -- `log_metadata_for_letter`: what is logged, but for the name of the file, and the stream after it.
  unfoldable pub log_metadata_for_letter : BytesIo → Result (MetadataLog × BytesIo)
  log_metadata_for_letter src_pdf = do
    (_, f) ← pdf_reader src_pdf
    info ← metadata src_pdf.contents
    ok (logged_info info, f)

  -- `PdfReader(can.get_bytes()).pages[0]`
  unfoldable pub drawn_page : Canvas → Result Page
  drawn_page can = do pages ← parse (save can); first pages

  -- `page.merge_page` of what a canvas draws.
  unfoldable pub merge_drawing : Canvas → Page → Result Page
  merge_drawing can page = do drawing ← drawn_page can; ok (merge_page page drawing)

  -- The same on `pdf.pages[0]`, with the other pages left alone.
  unfoldable pub merge_on_first : Canvas → List Page → Result (List Page)
  merge_on_first can [] = raised Exn.index_error
  merge_on_first can (p ∷ ps) = do q ← merge_drawing can p; ok (q ∷ ps)

  -- The loop of `_overlay_printable_areas_with_white` over the pages of content.
  unfoldable pub overlay_content_pages : List Page → Result (List Page)
  overlay_content_pages [] = ok []
  overlay_content_pages (p ∷ ps) = do
    q ← merge_drawing content_page_overlay p
    qs ← overlay_content_pages ps
    ok (q ∷ qs)

  -- `_overlay_printable_areas_of_address_block_page_with_white`, then the loop from page 1.
  unfoldable pub overlay_letter_pages : List Page → Result (List Page)
  overlay_letter_pages [] = raised Exn.index_error
  overlay_letter_pages (p ∷ ps) = do
    q ← merge_drawing address_page_overlay p
    qs ← overlay_content_pages ps
    ok (q ∷ qs)

  -- `_overlay_printable_areas_with_white`: the overlaid copy, and the source at its beginning.
  unfoldable pub overlay_printable_areas_with_white : BytesIo → Bool → Result (BytesIo × BytesIo)
  overlay_printable_areas_with_white src_pdf is_an_attachment = do
    (pages, src) ← pdf_reader src_pdf
    overlaid ← if is_an_attachment then overlay_content_pages pages else overlay_letter_pages pages
    ok (bytesio_from_pdf overlaid, rewind src)

  -- `_colour_no_print_areas_of_page_in_red`
  unfoldable pub colour_no_print_areas_of_page_in_red : Page → Bool → Result Page
  colour_no_print_areas_of_page_in_red page is_first_page =
      merge_drawing (no_print_overlay is_first_page) page

  -- `PdfReader(src_pdf)` under `except PdfReadError`, and its `.pages` outside of it; the text of the
  -- error is left out.
  unfoldable pub read_or_refuse : BytesIo → Result (List Page × BytesIo)
  read_or_refuse src_pdf = elim (open_reader src_pdf.contents) [
    | ok _ ↦ pdf_reader src_pdf
    | raised Exn.pdf_read_error ↦ raised (Exn.invalid_request "Unable to read the PDF data")
    | raised e ↦ raised e
  ]

  -- `_colour_no_print_areas_of_single_page_pdf_in_red`
  unfoldable pub colour_no_print_areas_of_single_page_pdf_in_red : BytesIo → Bool → Result BytesIo
  colour_no_print_areas_of_single_page_pdf_in_red src_pdf is_first_page = do
    (pages, src) ← read_or_refuse src_pdf
    raise_if (not (length pages == 1)) (
        Exn.invalid_request
          "_colour_no_print_areas_of_page_in_red should only be called for a one-page-pdf")
    page ← first pages
    coloured ← colour_no_print_areas_of_page_in_red page is_first_page
    ok (bytesio_from_pdf (coloured ∷ []))

  -- The loop of `overlay_template_pdf` over the pages after the first.
  unfoldable pub colour_later_pages : List Page → Result (List Page)
  colour_later_pages [] = ok []
  colour_later_pages (p ∷ ps) = do
    q ← colour_no_print_areas_of_page_in_red p false
    qs ← colour_later_pages ps
    ok (q ∷ qs)

  -- The whole loop, with `is_first_page=(i == 0)`.
  unfoldable pub colour_pages : List Page → Result (List Page)
  colour_pages [] = ok []
  colour_pages (p ∷ ps) = do
    q ← colour_no_print_areas_of_page_in_red p true
    qs ← colour_later_pages ps
    ok (q ∷ qs)

  -- `overlay_template_pdf`: the body of the request, and whether it has query arguments.
  unfoldable pub overlay_template_pdf : Bytes → Bool → Result BytesIo
  overlay_template_pdf encoded_string has_args = do
    raise_if (length encoded_string == 0) (Exn.invalid_request "no data received in POST")
    raise_if has_args
        (Exn.invalid_request "Did not expect any args. Did you mean to call overlay.png?")
    (pages, _) ← pdf_reader (bytes_io encoded_string)
    coloured ← colour_pages pages
    ok (bytesio_from_pdf coloured)
