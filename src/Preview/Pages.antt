-- ===== src/Preview/Pages.antt =====
-- `png_from_pdf` of app/preview.py: the page that is asked for, and its image.
use text.Mathlib.Text.{◌==◌ as eq_str}
use Prim.Native.String.{◌++◌ as ◌<>◌}
use notifications_template_p.Prelude.{
  suc, ◌-◌, ltb, String, Bool, List, [], ◌∷◌, none, some, length, get_elem?, if◌then◌else◌,
}
use notifications_template_p.Prelude.Int.{ℤ, pos, negsuc, ◌-ℤ◌}
use notifications_template_p.Python.Errors.{Exn, Result, ok, raised, ◌>>=◌}
use notifications_template_p.Python.Stream.{Bytes, BytesIo, bytes_io}
use notifications_template_p.Python.Text.{str}
use notifications_template_p.External.{Libraries}
use notifications_template_p.Precompiled.Overlay.{pdf_reader}

-- `pages[i]` of a sequence: a negative index counts from the end.
unfoldable pub get_page {ℓ} : {A : Type ℓ} → List A → ℤ → Result A
get_page pages (pos n) = elim (get_elem? pages n) [ none ↦ raised Exn.index_error | some p ↦ ok p ]
get_page pages (negsuc n) =
    if ltb n (length pages)
    then elim (get_elem? pages (length pages - suc n)) [
      | none ↦ raised Exn.index_error
      | some p ↦ ok p
    ]
    else raised Exn.index_error

-- `str` of an integer.
abbrev pub str_ℤ : ℤ → String
str_ℤ (pos n) = str n
str_ℤ (negsuc n) = "-" <> str (suc n)

-- The two `except` clauses of `png_from_pdf`.
abbrev pub page_or_abort {ℓ} : {A : Type ℓ} → ℤ → Result A → Result A
page_or_abort page_number (ok page) = ok page
page_or_abort page_number (raised Exn.index_error) =
    raised (Exn.http_exception 400 ("Letter does not have a page " <> str_ℤ page_number))
page_or_abort page_number (raised Exn.pdf_read_error) =
    raised (Exn.http_exception 400 "Could not read PDF")
page_or_abort page_number (raised e) = raised e

module _ (lib : Libraries) where
  open lib use {
    Page, write, loads, Raster, rasterised, white_cover, colour_space_of, transform_colorspace,
    composite, to_png,
  }

  -- `PdfReader(data).pages[page_number - 1]`
  unfoldable pub read_page : BytesIo → ℤ → Result Page
  read_page file page_number = do
    (pages, _) ← pdf_reader lib file
    get_page pages (page_number -ℤ pos 1)

  -- The `try` statement of `png_from_pdf`.
  unfoldable pub requested_page : BytesIo → ℤ → Result Page
  requested_page file page_number = page_or_abort page_number (read_page file page_number)

  -- `hide_notify_tag`
  unfoldable pub hide_notify_tag : Raster → Raster
  hide_notify_tag image =
      let cover = white_cover 130 50 in
      composite image
        (if eq_str (colour_space_of image) "cmyk" then transform_colorspace "cmyk" cover else cover)

  -- `_generate` of `png_from_pdf`
  unfoldable pub draw_page : Bytes → Bool → Result BytesIo
  draw_page serialised_page hide_notify = do
    raster ← rasterised (write (loads serialised_page ∷ []))
    png ← to_png (if hide_notify then hide_notify_tag raster else raster)
    ok (bytes_io png)
