-- ===== src/Examples/Runs.antt =====
-- Runs of the tasks for templated letters and for attachments.
use notifications_template_p.Prelude.{inl, ◌≡◌, refl, true, false, [], ◌∷◌, ◌++◌, none, some, arith}
use notifications_template_p.Python.Errors.{Exn, ok, raised}
use notifications_template_p.Python.Stream.{Bytes, bytes_io}
use notifications_template_p.Python.Text.{is_in}
use notifications_template_p.Python.Base64.{b64encode}
use notifications_template_p.Storage.{counted, english}
use notifications_template_p.Transformation.{
  images_contain, pages_contain, does_pdf_contain_colorspace, does_pdf_contain_cmyk,
  does_pdf_contain_rgb, convert_pdf_to_cmyk,
}
use notifications_template_p.Fonts.{
  look_for_type3, get_entry, has_entry, add_entry, note_fonts, walk, walk_entries, walk_pages,
  contains_unembedded_fonts, embed_fonts, difference,
}
use notifications_template_p.Precompiled.Overlay.{
  pdf_reader, bytesio_from_pdf, drawn_page, merge_drawing, overlay_content_pages,
  overlay_printable_areas_with_white,
}
use notifications_template_p.Precompiled.Extraction.{
  insert_word, sort_words_onto, sort_words, put_in_group, group_by_line, words_in,
  extract_text_from_page, has_notify_tag,
}
use notifications_template_p.Python.Text.{join, eq_text}
use notifications_template_p.Precompiled.Validation.{
  isclose, is_page_a4_portrait, failing_from, all_white, image_is_white,
  get_pages_with_invalid_orientation_or_size, get_out_of_bounds_pages, get_pages_with_notify_tag,
  get_invalid_pages_with_message,
}
use notifications_template_p.Precompiled.Sanitise.{
  SanitisationDetails, warn_if_filesize_has_grown, normalise_colours, normalise_fonts_and_colours,
  rewrite_or_normalise, validate, try_to_sanitise, sanitise_file_contents,
}
use notifications_template_p.Templated.{
  generate_templated_pdf, create_in_languages, convert_for, attach, get_datetime_from_json,
}
use notifications_template_p.Tasks.{letters_queue, update_validation_failed_for_templated_letter}
use notifications_template_p.Tasks.Templated.{
  create_pdf_for_letter, write_or_retry, template_arguments, prepare_pdf,
  create_pdf_for_templated_letter, templated_task,
}
use notifications_template_p.Tasks.Templated.Routing.{create_pdf_for_templated_letter-too_long}
use notifications_template_p.Examples.{
  toy, services, services-IsLawful, Files, no_files, put_file, letter, plain_letter,
}
use notifications_template_p.Weasyprint.{write_pdf, report, evil_error, is_image_error}
use notifications_template_p.Python.Text.{starts_with}
use notifications_template_p.Examples.Store.{world}

-- An attachment of one page, of the name "n2".
abbrev attachment : Bytes
attachment = 4 ∷ []

attachment_pages :
    get_invalid_pages_with_message toy (record { contents = attachment; position = 1 }) true
    ≡ ok ("", [], bytes_io attachment)
unfolding get_invalid_pages_with_message get_pages_with_invalid_orientation_or_size pdf_reader
    failing_from is_page_a4_portrait isclose overlay_printable_areas_with_white
    overlay_content_pages merge_drawing drawn_page bytesio_from_pdf get_out_of_bounds_pages
    image_is_white all_white get_pages_with_notify_tag has_notify_tag extract_text_from_page
    words_in sort_words sort_words_onto insert_word group_by_line put_in_group join eq_text
attachment_pages = refl

attachment_normalised :
    normalise_fonts_and_colours toy (bytes_io attachment) ≡ ok (bytes_io attachment)
unfolding normalise_fonts_and_colours normalise_colours does_pdf_contain_cmyk does_pdf_contain_rgb
    does_pdf_contain_colorspace pages_contain images_contain convert_pdf_to_cmyk
    contains_unembedded_fonts pdf_reader walk_pages walk note_fonts look_for_type3 add_entry
    get_entry has_entry walk_entries difference embed_fonts is_in
attachment_normalised = refl

attachment_validated : validate toy attachment true ≡ ok (1, bytes_io attachment)
unfolding validate
attachment_validated = rw attachment_pages

abbrev attachment_details : SanitisationDetails
attachment_details = record {
  page_count = some 1;
  recipient_address = none;
  message = none;
  invalid_pages = none;
  file = some (b64encode attachment);
}

attachment_try : try_to_sanitise toy attachment false true ≡ ok attachment_details
unfolding try_to_sanitise rewrite_or_normalise warn_if_filesize_has_grown
attachment_try = rw (attachment_validated, attachment_normalised)

attachment_sanitised : sanitise_file_contents toy attachment false true ≡ attachment_details
unfolding sanitise_file_contents
attachment_sanitised = rw (attachment_try, sanitise_file_contents)

long_prepared :
    prepare_pdf toy
      (services true)
      (templated_task "s1" "long")
      (plain_letter "long")
      (world no_files)
    ≡ (ok (bytes_io (4 ∷ 4 ∷ 4 ∷ 4 ∷ [])), world no_files)
unfolding prepare_pdf generate_templated_pdf create_in_languages create_pdf_for_letter
    write_or_retry template_arguments convert_for convert_pdf_to_cmyk attach get_datetime_from_json
    is_in write_pdf report
long_prepared = refl

abbrev invalid : Files
invalid = put_file "invalid" "A.PDF" (ok (4 ∷ 4 ∷ 4 ∷ 4 ∷ [])) no_files

create_pdf_for_templated_letter-too_long_example :
    (create_pdf_for_templated_letter toy (services true) "s1" "long" (world no_files) ≡ (
      ok tt,
      record (world no_files) {
        s3 = invalid;
        sent =
            []
            ++ (record {
              name = update_validation_failed_for_templated_letter;
              payload = counted "n1" 4;
              queue = letters_queue;
              message_group_id = "s1";
            }
                ∷ []);
      },
    ))
    × (invalid "invalid" "A.PDF" ≡ ok (4 ∷ 4 ∷ 4 ∷ 4 ∷ []))
create_pdf_for_templated_letter-too_long_example =
    create_pdf_for_templated_letter-too_long toy (services true) (services-IsLawful true) "s1"
      "long" "2024" "A.PDF" (letter "2024/A.PDF" "long") (bytes_io (4 ∷ 4 ∷ 4 ∷ 4 ∷ []))
      (4 ∷ 4 ∷ 4 ∷ 4 ∷ []) (world no_files) (world no_files) invalid refl (inl refl)
      (refl, (refl, (refl, (refl, tt)))) (refl, (refl, (refl, (refl, (refl, tt))))) long_prepared
      refl (omega arith) refl

abbrev final : Files
final = put_file "pdf" "2024/A.PDF" (ok (4 ∷ [])) no_files

date_read : get_datetime_from_json (services true) (plain_letter "no image") ≡ ok none
unfolding get_datetime_from_json
date_read = refl

no_image :
    write_pdf (services true) (
      (services true).print_template
        (template_arguments toy (services true) (plain_letter "no image") english true none))
    ≡ raised Exn.weasyprint_error
unfolding template_arguments write_pdf report evil_error is_image_error starts_with
no_image = refl
