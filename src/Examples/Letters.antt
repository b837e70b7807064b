-- ===== src/Examples/Letters.antt =====
-- Letters that pass, and letters that are refused.
use notifications_template_p.Prelude.{◌≡◌, refl, false, [], ◌∷◌, none, some}
use notifications_template_p.Python.Errors.{ok}
use notifications_template_p.Python.Stream.{Bytes, BytesIo, bytes_io}
use notifications_template_p.Python.Text.{eq_text, join, is_in}
use notifications_template_p.Python.Base64.{b64encode}
use notifications_template_p.Transformation.{
  images_contain, pages_contain, does_pdf_contain_colorspace, does_pdf_contain_cmyk,
  does_pdf_contain_rgb, convert_pdf_to_cmyk,
}
use notifications_template_p.Fonts.{
  look_for_type3, get_entry, has_entry, add_entry, note_fonts, walk, walk_entries, walk_pages,
  contains_unembedded_fonts, embed_fonts, difference,
}
use notifications_template_p.Precompiled.Overlay.{
  log_metadata_for_letter, pdf_reader, bytesio_from_pdf, drawn_page, merge_drawing, merge_on_first,
  overlay_content_pages, overlay_letter_pages, overlay_printable_areas_with_white,
}
use notifications_template_p.Precompiled.Extraction.{
  insert_word, sort_words_onto, sort_words, put_in_group, group_by_line, words_in,
  extract_text_from_page, extract_text_from_first_page_of_pdf, has_notify_tag,
  is_notify_tag_present,
}
use notifications_template_p.Precompiled.Validation.{
  isclose, is_page_a4_portrait, failing_from, all_white, image_is_white,
  get_pages_with_invalid_orientation_or_size, get_out_of_bounds_pages, get_pages_with_notify_tag,
  get_invalid_pages_with_message,
}
use notifications_template_p.Precompiled.Address.{
  error_code, extract_address_block, redact_first, redact_precompiled_letter_address_block,
  merge_new, overlay_first_page_of_pdf_with_new_content, add_address_to_precompiled_letter,
  rewrite_address_block, add_notify_tag_to_letter,
}
use notifications_template_p.Precompiled.Sanitise.{
  SanitisationDetails, warn_if_filesize_has_grown, normalise_colours, normalise_fonts_and_colours,
  rewrite_pdf, rewrite_or_normalise, validate, try_to_sanitise, sanitise_file_contents,
}
use notifications_template_p.Examples.{toy}

-- A letter of two pages, addressed to "A".
abbrev pub good_letter : Bytes
good_letter = 2 ∷ 4 ∷ []

abbrev pub at_end : Bytes → BytesIo
at_end b = record { contents = b; position = 2 }

tag_read : is_notify_tag_present toy (bytes_io (13 ∷ 4 ∷ [])) ≡ ok (false, bytes_io (13 ∷ 4 ∷ []))
unfolding is_notify_tag_present extract_text_from_first_page_of_pdf extract_text_from_page words_in
    sort_words sort_words_onto insert_word group_by_line put_in_group join eq_text
tag_read = refl

pub good_pages :
    get_invalid_pages_with_message toy (at_end good_letter) false
    ≡ ok ("", [], bytes_io good_letter)
unfolding get_invalid_pages_with_message get_pages_with_invalid_orientation_or_size pdf_reader
    failing_from is_page_a4_portrait isclose overlay_printable_areas_with_white overlay_letter_pages
    overlay_content_pages merge_drawing drawn_page bytesio_from_pdf get_out_of_bounds_pages
    image_is_white all_white get_pages_with_notify_tag has_notify_tag extract_text_from_page
    words_in sort_words sort_words_onto insert_word group_by_line put_in_group join eq_text
good_pages = refl

pub normalised :
    normalise_fonts_and_colours toy (bytes_io (13 ∷ 4 ∷ [])) ≡ ok (bytes_io (13 ∷ 4 ∷ []))
unfolding normalise_fonts_and_colours normalise_colours does_pdf_contain_cmyk does_pdf_contain_rgb
    does_pdf_contain_colorspace pages_contain images_contain convert_pdf_to_cmyk
    contains_unembedded_fonts pdf_reader walk_pages walk note_fonts look_for_type3 add_entry
    get_entry has_entry walk_entries difference embed_fonts is_in
normalised = refl

address_rewritten :
    rewrite_address_block toy (bytes_io good_letter) 2 false
    ≡ ok (bytes_io (13 ∷ 4 ∷ []), b'A' ∷ [])
unfolding rewrite_address_block extract_address_block extract_text_from_first_page_of_pdf
    extract_text_from_page words_in sort_words sort_words_onto insert_word group_by_line
    put_in_group join error_code redact_precompiled_letter_address_block redact_first
    add_address_to_precompiled_letter pdf_reader overlay_first_page_of_pdf_with_new_content
    drawn_page merge_new bytesio_from_pdf
address_rewritten = refl

tagged : add_notify_tag_to_letter toy (bytes_io (13 ∷ 4 ∷ [])) ≡ ok (bytes_io (23 ∷ 4 ∷ []))
unfolding add_notify_tag_to_letter pdf_reader merge_on_first merge_drawing drawn_page
    bytesio_from_pdf
tagged = refl

-- The address is read from the whole document, wherever the stream stands.
rewritten_anywhere :
    rewrite_address_block toy (at_end good_letter) 2 false
    ≡ rewrite_address_block toy (bytes_io good_letter) 2 false
unfolding rewrite_address_block extract_address_block extract_text_from_first_page_of_pdf
rewritten_anywhere = refl

pub letter_rewritten :
    rewrite_pdf toy (bytes_io good_letter) 2 false ≡ ok (bytes_io (23 ∷ 4 ∷ []), b'A' ∷ [])
unfolding rewrite_pdf log_metadata_for_letter pdf_reader
letter_rewritten = rw (rewritten_anywhere, address_rewritten, normalised, tag_read, tagged)

pub validated : validate toy good_letter false ≡ ok (2, bytes_io good_letter)
unfolding validate
validated = rw good_pages

abbrev pub good_details : SanitisationDetails
good_details = record {
  page_count = some 2;
  recipient_address = some (b'A' ∷ []);
  message = none;
  invalid_pages = none;
  file = some (b64encode (23 ∷ 4 ∷ []));
}

good_try : try_to_sanitise toy good_letter false false ≡ ok good_details
unfolding try_to_sanitise rewrite_or_normalise warn_if_filesize_has_grown
good_try = rw (validated, letter_rewritten)

pub good_sanitised : sanitise_file_contents toy good_letter false false ≡ good_details
unfolding sanitise_file_contents
good_sanitised = rw (good_try, sanitise_file_contents)
