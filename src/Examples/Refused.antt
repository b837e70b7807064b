-- ===== src/Examples/Refused.antt =====
-- What the theorems on refused letters say of some letters with errors.
use notifications_template_p.Prelude.{
  ℕ, suc, ◌≤◌, ◌≡◌, refl, ◌↔◌, true, false, List, [], ◌∷◌, none, some, get_elem?, Elem, IsAscending,
  arith,
}
use notifications_template_p.Python.Errors.{ok}
use notifications_template_p.Python.Stream.{Bytes, BytesIo, bytes_io, rewind}
use notifications_template_p.Python.Text.{join, eq_text}
use notifications_template_p.External.{PostalAddress}
use notifications_template_p.Precompiled.Overlay.{
  pdf_reader, bytesio_from_pdf, drawn_page, merge_drawing, overlay_content_pages,
  overlay_letter_pages, overlay_printable_areas_with_white,
}
use notifications_template_p.Precompiled.Extraction.{
  insert_word, sort_words_onto, sort_words, put_in_group, group_by_line, words_in,
  extract_text_from_page, extract_text_from_first_page_of_pdf, has_notify_tag,
}
use notifications_template_p.Precompiled.Validation.{
  isclose, is_page_a4_portrait, failing_from, all_white, image_is_white,
  get_pages_with_invalid_orientation_or_size, get_out_of_bounds_pages, get_pages_with_notify_tag,
  get_invalid_pages_with_message,
}
use notifications_template_p.Precompiled.Validation.Messages.{
  PageIsA4Portrait, invalid_sizes_iff, tagged_pages_iff,
}
use notifications_template_p.Precompiled.Address.{error_code, extract_address_block}
use notifications_template_p.Precompiled.Sanitise.{validate, sanitise_file_contents}
use notifications_template_p.Precompiled.Sanitise.Outcome.{sanitise_file_contents-bad_address}
use notifications_template_p.Examples.{toy}

-- A letter without an address.
abbrev pub anonymous : Bytes
anonymous = 4 ∷ []

anonymous_pages :
    get_invalid_pages_with_message toy (record { contents = anonymous; position = 1 }) false
    ≡ ok ("", [], bytes_io anonymous)
unfolding get_invalid_pages_with_message get_pages_with_invalid_orientation_or_size pdf_reader
    failing_from is_page_a4_portrait isclose overlay_printable_areas_with_white overlay_letter_pages
    overlay_content_pages merge_drawing drawn_page bytesio_from_pdf get_out_of_bounds_pages
    image_is_white all_white get_pages_with_notify_tag
anonymous_pages = refl

anonymous_validated : validate toy anonymous false ≡ ok (1, bytes_io anonymous)
unfolding validate
anonymous_validated = rw anonymous_pages

abbrev no_address : PostalAddress
no_address = record { raw_address = []; allow_international_letters = true }

nothing_read :
    extract_address_block toy (bytes_io anonymous) true
    ≡ ok (no_address, rewind (bytes_io anonymous))
unfolding extract_address_block extract_text_from_first_page_of_pdf extract_text_from_page words_in
    sort_words sort_words_onto group_by_line join
nothing_read = refl

empty_address : error_code toy no_address ≡ some "address-is-empty"
unfolding error_code
empty_address = refl

sanitise_file_contents-bad_address_example :
    sanitise_file_contents toy anonymous true false ≡ record {
      page_count = some 1;
      recipient_address = none;
      message = some "address-is-empty";
      invalid_pages = some (1 ∷ []);
      file = none;
    }
sanitise_file_contents-bad_address_example =
    sanitise_file_contents-bad_address toy anonymous true 1 (bytes_io anonymous) anonymous none
      no_address "address-is-empty" anonymous_validated refl refl nothing_read empty_address

pub anonymous_refused : sanitise_file_contents toy anonymous true false ≡ record {
  page_count = some 1;
  recipient_address = none;
  message = some "address-is-empty";
  invalid_pages = some (1 ∷ []);
  file = none;
}
anonymous_refused =
    sanitise_file_contents-bad_address toy anonymous true 1 (bytes_io anonymous) anonymous none
      no_address "address-is-empty" anonymous_validated refl refl nothing_read empty_address

-- A document whose second page lies on its side.
abbrev sideways : BytesIo
sideways = bytes_io (4 ∷ 7 ∷ [])

invalid_sizes_iff_example :
    (ns : List ℕ) × (g : BytesIo) × (get_pages_with_invalid_orientation_or_size toy sideways
      ≡ ok (ns, g))
    × IsAscending 0 ns
    × ((n : ℕ)
        → Elem n ns ↔ (
            (i page : ℕ) × (n ≡ suc i)
            × (get_elem? (4 ∷ 7 ∷ []) i ≡ some page)
            × (¬ PageIsA4Portrait toy page)))
invalid_sizes_iff_example = invalid_sizes_iff toy sideways (4 ∷ 7 ∷ []) refl

sideways_reported :
    get_pages_with_invalid_orientation_or_size toy sideways
    ≡ ok (2 ∷ [], record sideways { position = 2 })
unfolding get_pages_with_invalid_orientation_or_size pdf_reader failing_from is_page_a4_portrait
    isclose
sideways_reported = refl

-- A document in which all pages carry the tag.
abbrev all_tagged : BytesIo
all_tagged = bytes_io (5 ∷ 5 ∷ [])

tagged_pages_iff_example :
    (ns : List ℕ) × (get_pages_with_notify_tag toy all_tagged false ≡ ok (ns, rewind all_tagged))
    × IsAscending 0 ns
    × ((n : ℕ)
        → Elem n ns ↔ (
            (i page : ℕ) × (n ≡ suc i)
            × (1 ≤ i)
            × (get_elem? (5 ∷ 5 ∷ []) i ≡ some page)
            × (has_notify_tag toy page ≡ true)))
tagged_pages_iff_example = tagged_pages_iff toy all_tagged false (5 ∷ 5 ∷ []) refl (omega arith)

all_tagged_reported : get_pages_with_notify_tag toy all_tagged false ≡ ok (2 ∷ [], all_tagged)
unfolding get_pages_with_notify_tag has_notify_tag failing_from extract_text_from_page words_in
    sort_words sort_words_onto insert_word group_by_line put_in_group join eq_text
all_tagged_reported = refl
