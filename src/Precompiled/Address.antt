-- ===== src/Precompiled/Address.antt =====
-- The address block and the "NOTIFY" tag of app/precompiled.py: what is read, what is refused and
-- what is drawn.
pub mod Laws
use notifications_template_p.Prelude.{
  ℕ, ◌+◌, ◌-◌, ◌*◌, Bool, true, false, not, String, List, [], ◌∷◌, ◌++◌, Option, none, some,
  if◌then◌else◌,
}
use notifications_template_p.Prelude.Int.{ℤ, pos, ◌-ℤ◌}
use notifications_template_p.Python.Errors.{Exn, Result, ok, raised, ◌>>=◌, ◌>>◌, first}
use notifications_template_p.Python.Stream.{BytesIo, bytes_io, rewind}
use notifications_template_p.Python.Text.{Text, count, codes}
use notifications_template_p.External.{Libraries, PostalAddress}
use notifications_template_p.Geometry.Layout.{
  pt, a4_height, address_left_from_left_of_page, address_right_from_left_of_page,
  address_top_from_top_of_page, address_bottom_from_top_of_page, address_bounding_box,
  address_font_size, address_line_height, address_rise, notify_tag_from_left_of_page,
  notify_tag_from_top_of_page, notify_tag_line_height, notify_tag_font_size,
}
use notifications_template_p.Geometry.Canvas.{
  Colour, white, black, Canvas, Lettering, lettering, notify_canvas, rect,
}
use notifications_template_p.Precompiled.Overlay.{
  pdf_reader, bytesio_from_pdf, drawn_page, merge_on_first,
}
use notifications_template_p.Precompiled.Extraction.{
  extract_text_from_first_page_of_pdf, notify_tag_text,
}

-- The text object of `add_address_to_precompiled_letter`: the origin is that of the first line, so
-- high that the last line stands at the foot of the window.
unfoldable pub address_text : Text → Lettering
address_text address =
    let bottom_left_corner_y = a4_height - address_bottom_from_top_of_page in
    let address_lines_after_first = count 10 address in
    record {
      ink = black;
      size = address_font_size;
      leading = address_line_height;
      rise = address_rise;
      x = address_left_from_left_of_page;
      y = pos (bottom_left_corner_y + address_line_height * address_lines_after_first);
      text = address;
    }

-- The canvas of `add_address_to_precompiled_letter`: a white cover, and the address on it.
unfoldable pub address_canvas : Text → Canvas
address_canvas address =
    let cover =
      rect (address_left_from_left_of_page, address_top_from_top_of_page)
        (address_right_from_left_of_page, address_bottom_from_top_of_page) (notify_canvas white) in
    record cover { shapes = cover.shapes ++ (lettering (address_text address) ∷ []) }

module _ (lib : Libraries) where
  open lib use {
    Page, MuPage, parse, top, merge_page, save, register_font, open_document, redact, to_bytes,
    is_truthy, has_enough_lines, has_too_many_lines,
    has_alphanumeric_character_in_address_lines_1_and_2, has_invalid_country_for_bfpo_address,
    has_valid_last_line, international, has_invalid_characters, has_no_fixed_abode_address,
    normalised,
  }

  -- `PrecompiledPostalAddress.error_code`
  unfoldable pub error_code : PostalAddress → Option String
  error_code a =
      if not (is_truthy a)
      then some "address-is-empty"
      else if not (has_enough_lines a)
      then some "not-enough-address-lines"
      else if has_too_many_lines a
      then some "too-many-address-lines"
      else if not (has_alphanumeric_character_in_address_lines_1_and_2 a)
      then some "invalid-address-line-1-or-2"
      else if has_invalid_country_for_bfpo_address a
      then some "has-country-for-bfpo-address"
      else if not (has_valid_last_line a)
      then (if a.allow_international_letters
          then some "not-a-real-uk-postcode-or-country"
          else if international a
          then some "cant-send-international-letters"
          else some "not-a-real-uk-postcode")
      else if has_invalid_characters a
      then some "invalid-char-in-address"
      else if has_no_fixed_abode_address a
      then some "no-fixed-abode-address"
      else none

  -- `extract_address_block`, with the `allow_international_letters` that its caller sets.
  unfoldable pub extract_address_block : BytesIo → Bool → Result (PostalAddress × BytesIo)
  extract_address_block pdf allow_international_letters = do
    (text, f) ← extract_text_from_first_page_of_pdf lib pdf address_bounding_box
    ok (record { raw_address = text; allow_international_letters = allow_international_letters }, f)

  unfoldable pub redact_first : List MuPage → Result (List MuPage)
  redact_first [] = raised Exn.index_error
  redact_first (first_page ∷ pages) = ok (redact first_page address_bounding_box ∷ pages)

  -- `redact_precompiled_letter_address_block`
  unfoldable pub redact_precompiled_letter_address_block : BytesIo → Result BytesIo
  redact_precompiled_letter_address_block pdf = do
    doc ← open_document pdf.contents
    redacted ← redact_first doc
    ok (bytes_io (to_bytes redacted))

  unfoldable pub merge_new : List Page → Page → Result (List Page)
  merge_new [] new_page = raised Exn.index_error
  merge_new (existing_page ∷ pages) new_page = ok (merge_page existing_page new_page ∷ pages)

  -- `overlay_first_page_of_pdf_with_new_content`
  unfoldable pub overlay_first_page_of_pdf_with_new_content : List Page → Canvas → Result BytesIo
  overlay_first_page_of_pdf_with_new_content old_pdf can = do
    new_page ← drawn_page lib can
    merged ← merge_new old_pdf new_page
    ok (bytesio_from_pdf lib merged)

  -- `add_address_to_precompiled_letter`
  unfoldable pub add_address_to_precompiled_letter : BytesIo → Text → Result BytesIo
  add_address_to_precompiled_letter pdf address = do
    (old_pdf, _) ← pdf_reader lib pdf
    _ ← register_font
    overlay_first_page_of_pdf_with_new_content old_pdf (address_canvas address)

  -- `rewrite_address_block`
  unfoldable pub rewrite_address_block : BytesIo → ℕ → Bool → Result (BytesIo × Text)
  rewrite_address_block pdf page_count allow_international_letters = do
    (address, f) ← extract_address_block pdf allow_international_letters
    elim (error_code address) [
      | some code ↦ raised (Exn.validation_failed code (some (1 ∷ [])) (some page_count))
      | none ↦ do
        redacted ← redact_precompiled_letter_address_block f
        out ← add_address_to_precompiled_letter redacted (normalised address)
        ok (out, normalised address)
    ]

  -- The canvas of `add_notify_tag_to_letter` for a page.
  unfoldable pub notify_tag_canvas : Page → Canvas
  notify_tag_canvas page = record (notify_canvas white) {
    shapes =
        lettering (record {
          ink = white;
          size = notify_tag_font_size;
          leading = 0;
          rise = 0;
          x = notify_tag_from_left_of_page;
          y = top page -ℤ pos (notify_tag_from_top_of_page + notify_tag_line_height);
          text = notify_tag_text;
        })
        ∷ [];
  }

  -- `add_notify_tag_to_letter`
  unfoldable pub add_notify_tag_to_letter : BytesIo → Result BytesIo
  add_notify_tag_to_letter src_pdf = do
    (pages, _) ← pdf_reader lib src_pdf
    page ← first pages
    _ ← register_font
    tagged ← merge_on_first lib (notify_tag_canvas page) pages
    ok (bytesio_from_pdf lib tagged)
