-- ===== src/Precompiled/Validation.antt =====
-- The checks of app/precompiled.py that collect page numbers, from 1.
pub mod Pages
pub mod Messages
pub mod Accepts
use notifications_template_p.Prelude.{
  ℕ, zero, suc, ◌+◌, ◌*◌, ◌≤◌, ◌==◌, max, Bool, true, false, not, ◌&&◌, ◌||◌, String, List, [], ◌∷◌,
  Option, none, some, length, drop, leb, ltb, if◌then◌else◌,
}
use notifications_template_p.Prelude.Int.{ℤ, pos, eq_ℤ, dist, abs}
use notifications_template_p.Python.Errors.{Exn, Result, ok, raised, ◌>>=◌, ◌>>◌, raise_if, first}
use notifications_template_p.Python.Stream.{Bytes, BytesIo, bytes_io, rewind, read}
use notifications_template_p.External.{Libraries, ColourCount}
use notifications_template_p.Geometry.Layout.{mm, a4_height}
use notifications_template_p.Precompiled.Extraction.{has_notify_tag}
use notifications_template_p.Precompiled.Overlay.{pdf_reader, overlay_printable_areas_with_white}

-- `math.isclose(a, b, abs_tol=t)` with the default `rel_tol` of 1e-09.
unfoldable pub isclose : ℤ → ℤ → ℕ → Bool
isclose a b t = leb (dist a b * 1000000000) (max (abs a) (abs b)) || leb (dist a b) t

abbrev pub is_one_of : Option ℤ → ℤ → ℤ → Bool
is_one_of none a b = false
is_one_of (some r) a b = eq_ℤ r a || eq_ℤ r b

-- `rotation in [0, 180, None]`
abbrev pub is_upright : Option ℤ → Bool
is_upright none = true
is_upright (some r) = eq_ℤ r (pos 0) || eq_ℤ r (pos 180)

-- `_is_page_A4_portrait`
unfoldable pub is_page_a4_portrait : ℤ → ℤ → Option ℤ → Bool
is_page_a4_portrait page_height page_width rotation =
    if isclose page_height (pos a4_height) (2 * mm) && isclose page_width (pos (210 * mm)) (2 * mm)
    then is_upright rotation
    else if isclose page_width (pos a4_height) (2 * mm)
        && isclose page_height (pos (210 * mm)) (2 * mm)
    then is_one_of rotation (pos 90) (pos 270)
    else false

-- The numbers of the elements that fail a test, counted from `n`.
unfoldable pub failing_from {ℓ} : {A : Type ℓ} → (A → Bool) → ℕ → List A → List ℕ
failing_from test n [] = []
failing_from test n (x ∷ xs) =
    let rest = failing_from test (suc n) xs in if test x then rest else n ∷ rest

-- `for colour in colours: if str(colour[1]) != "(255, 255, 255)"`, for any of them.
abbrev pub is_white : ColourCount → Bool
is_white c = c.red == 255 && c.green == 255 && c.blue == 255

unfoldable pub all_white : List ColourCount → Bool
all_white [] = true
all_white (c ∷ cs) = is_white c && all_white cs

abbrev pub is_empty : List ℕ → Bool
is_empty [] = true
is_empty (n ∷ ns) = false

module _ (lib : Libraries) where
  open lib use {
    Page, MuPage, height, width, rotate, Image, convert_from_bytes, getcolors, open_document,
  }

  abbrev pub page_is_a4_portrait : Page → Bool
  page_is_a4_portrait page = is_page_a4_portrait (height page) (width page) (rotate page)

  -- `_get_pages_with_invalid_orientation_or_size`
  unfoldable pub get_pages_with_invalid_orientation_or_size : BytesIo → Result (List ℕ × BytesIo)
  get_pages_with_invalid_orientation_or_size src_pdf = do
    (pages, f) ← pdf_reader lib src_pdf
    ok (failing_from page_is_a4_portrait 1 pages, f)

  -- Whether a page of the overlaid document is all white; `none` stands for too many colours.
  unfoldable pub image_is_white : Image → Bool
  image_is_white image = elim (getcolors image) [ none ↦ false | some colours ↦ all_white colours ]

  -- `list(_get_out_of_bounds_pages(src_pdf_bytes))`
  unfoldable pub get_out_of_bounds_pages : BytesIo → Result (List ℕ × BytesIo)
  get_out_of_bounds_pages src_pdf_bytes = do
    let (rest, f) = read src_pdf_bytes
    images ← convert_from_bytes rest
    ok (failing_from image_is_white 1 images, rewind f)

  -- The comprehension of `_get_pages_with_notify_tag` over `doc.pages(start=…)`.
  unfoldable pub get_pages_with_notify_tag : BytesIo → Bool → Result (List ℕ × BytesIo)
  get_pages_with_notify_tag src_pdf_bytes is_an_attachment = do
    doc ← open_document src_pdf_bytes.contents
    let starting_page_index : ℕ = if is_an_attachment then 0 else 1
    -- `doc.pages` refuses a start behind the last page
    raise_if (ltb (length doc) starting_page_index) Exn.value_error
    let pages =
        if length doc == starting_page_index
        then []
        else failing_from (λ page. not (has_notify_tag lib page)) (suc starting_page_index)
            (drop starting_page_index doc)
    ok (pages, rewind src_pdf_bytes)

  -- `get_invalid_pages_with_message`. It works on copies but for the first check, after which the
  -- overlay puts the source back to its beginning.
  unfoldable pub get_invalid_pages_with_message :
      BytesIo → Bool → Result (String × List ℕ × BytesIo)
  get_invalid_pages_with_message src_pdf is_an_attachment = do
    (badly_sized, src) ← get_pages_with_invalid_orientation_or_size src_pdf
    if not (is_empty badly_sized)
        then ok ("letter-not-a4-portrait-oriented", badly_sized, src)
        else do
          (pdf_to_validate, src') ← overlay_printable_areas_with_white lib src is_an_attachment
          (out_of_bounds, overlaid) ← get_out_of_bounds_pages pdf_to_validate
          if not (is_empty out_of_bounds)
              then ok ("content-outside-printable-area", out_of_bounds, src')
              else do
                (tagged, _) ← get_pages_with_notify_tag overlaid is_an_attachment
                if not (is_empty tagged)
                    then ok ("notify-tag-found-in-content", tagged, src')
                    else ok ("", [], src')
