-- ===== src/Precompiled/Sanitise.antt =====
-- `sanitise_file_contents` of app/precompiled.py and the steps that rewrite a letter. Logging is
-- left out, but for what `_warn_if_filesize_has_grown` and `log_metadata_for_letter` log.
pub mod Rewrite
pub mod Outcome
use text.Mathlib.Text.{◌==◌ as eq_str}
use notifications_template_p.Prelude.{
  ℕ, ◌*◌, ◌-◌, ◌/◌, ltb, ◌==◌, Bool, true, false, not, String, List, [], ◌∷◌, Option, none, some,
  length, if◌then◌else◌,
}
use notifications_template_p.Python.Errors.{Exn, Result, ok, raised, ◌>>=◌, ◌>>◌, raise_if}
use notifications_template_p.Python.Stream.{Bytes, BytesIo, bytes_io, read}
use notifications_template_p.Python.Text.{Text}
use notifications_template_p.Python.Base64.{b64encode}
use notifications_template_p.External.{Libraries, Scalar}
use notifications_template_p.Transformation.{
  does_pdf_contain_cmyk, does_pdf_contain_rgb, convert_pdf_to_cmyk,
}
use notifications_template_p.Fonts.{contains_unembedded_fonts, embed_fonts}
use notifications_template_p.Precompiled.Overlay.{log_metadata_for_letter}
use notifications_template_p.Precompiled.Extraction.{is_notify_tag_present}
use notifications_template_p.Precompiled.Validation.{get_invalid_pages_with_message}
use notifications_template_p.Precompiled.Address.{rewrite_address_block, add_notify_tag_to_letter}

abbrev pub max_filesize : ℕ
max_filesize = 2 * 1024 * 1024

-- What is logged of a file that has grown: an error, or a warning with the percentage.
pub data FilesizeLog : Type 0 where
  over_max_filesize : FilesizeLog
  bigger_by_percent : ℕ → FilesizeLog

-- `_warn_if_filesize_has_grown`. `orig * (1 + 50 / 100) < new` is `3 * orig < 2 * new`.
unfoldable pub warn_if_filesize_has_grown : ℕ → ℕ → Result (Option FilesizeLog)
warn_if_filesize_has_grown orig_filesize new_filesize =
    if ltb max_filesize new_filesize
    then ok (some over_max_filesize)
    else if ltb (3 * orig_filesize) (2 * new_filesize)
    then (if orig_filesize == 0
        then raised Exn.zero_division_error
        else ok (some (bigger_by_percent ((new_filesize - orig_filesize) * 100 / orig_filesize))))
    else ok none

-- The dict that `sanitise_file_contents` returns; the file is in base64.
pub record SanitisationDetails : Type 0 where
  pub page_count : Option ℕ
  pub recipient_address : Option Text
  pub message : Option String
  pub invalid_pages : Option (List ℕ)
  pub file : Option Bytes

-- The two `except` clauses. A `PdfReadError` has no attributes of its own, so it is answered like
-- any other exception.
unfoldable pub failed : Exn → SanitisationDetails
failed (Exn.validation_failed message invalid_pages page_count) = record {
  page_count = page_count;
  recipient_address = none;
  message = some message;
  invalid_pages = invalid_pages;
  file = none;
}
failed _ = record {
  page_count = none;
  recipient_address = none;
  message = some "unable-to-read-the-file";
  invalid_pages = none;
  file = none;
}

-- `bool(details.get("message"))`
abbrev pub has_message : SanitisationDetails → Bool
has_message d = elim d.message [ none ↦ false | some m ↦ not (eq_str m "") ]

abbrev pub some_font : List Scalar → Bool
some_font [] = false
some_font (a ∷ xs) = true

module _ (lib : Libraries) where
  open lib use {left_at, pdf_page_count, is_letter_too_long}

  -- The colours part of `normalise_fonts_and_colours`.
  unfoldable pub normalise_colours : BytesIo → Result BytesIo
  normalise_colours file_data = do
    (cmyk, f) ← does_pdf_contain_cmyk lib file_data
    if not cmyk then convert_pdf_to_cmyk lib f else do
      (rgb, g) ← does_pdf_contain_rgb lib f
      if rgb then convert_pdf_to_cmyk lib g else ok g

  -- `normalise_fonts_and_colours`
  unfoldable pub normalise_fonts_and_colours : BytesIo → Result BytesIo
  normalise_fonts_and_colours file_data = do
    coloured ← normalise_colours file_data
    (unembedded, f) ← contains_unembedded_fonts lib coloured
    if some_font unembedded then embed_fonts lib f else ok f

  -- `rewrite_pdf`
  unfoldable pub rewrite_pdf : BytesIo → ℕ → Bool → Result (BytesIo × Text)
  rewrite_pdf file_data page_count allow_international_letters = do
    (_, f) ← log_metadata_for_letter lib file_data
    (addressed, recipient_address) ←
        rewrite_address_block lib f page_count allow_international_letters
    normalised ← normalise_fonts_and_colours addressed
    (present, g) ← is_notify_tag_present lib normalised
    if present
        then ok (g, recipient_address)
        else do tagged ← add_notify_tag_to_letter lib g; ok (tagged, recipient_address)

  -- The branch of `sanitise_file_contents` on `is_an_attachment`.
  unfoldable pub rewrite_or_normalise : BytesIo → ℕ → Bool → Bool → Result (BytesIo × Option Text)
  rewrite_or_normalise file_data page_count allow_international_letters is_an_attachment =
      if is_an_attachment then (do g ← normalise_fonts_and_colours file_data; ok (g, none)) else (do
        (g, address) ← rewrite_pdf file_data page_count allow_international_letters
        ok (g, some address))

  -- The checks at the beginning of the `try` block: the number of pages, and the stream.
  unfoldable pub validate : Bytes → Bool → Result (ℕ × BytesIo)
  validate encoded_string is_an_attachment = do
    page_count ← pdf_page_count encoded_string
    raise_if (is_letter_too_long page_count)
        (Exn.validation_failed "letter-too-long" none (some page_count))
    let opened = record (bytes_io encoded_string) { position = left_at encoded_string 0 }
    (message, invalid_pages, f) ← get_invalid_pages_with_message lib opened is_an_attachment
    raise_if (not (eq_str message ""))
        (Exn.validation_failed message (some invalid_pages) (some page_count))
    ok (page_count, f)

  -- The `try` block.
  unfoldable pub try_to_sanitise : Bytes → Bool → Bool → Result SanitisationDetails
  try_to_sanitise encoded_string allow_international_letters is_an_attachment = do
    (page_count, f) ← validate encoded_string is_an_attachment
    (file_data, recipient_address) ←
        rewrite_or_normalise f page_count allow_international_letters is_an_attachment
    let raw_file = (read file_data).0
    _ ← warn_if_filesize_has_grown (length encoded_string) (length raw_file)
    ok (record {
      page_count = some page_count;
      recipient_address = recipient_address;
      message = none;
      invalid_pages = none;
      file = some (b64encode raw_file);
    })

  -- `sanitise_file_contents`
  unfoldable pub sanitise_file_contents : Bytes → Bool → Bool → SanitisationDetails
  sanitise_file_contents encoded_string allow_international_letters is_an_attachment =
      elim (try_to_sanitise encoded_string allow_international_letters is_an_attachment) [
        | ok details ↦ details
        | raised e ↦ failed e
      ]

  -- `sanitise_precompiled_letter`: the body and the two query arguments.
  unfoldable pub sanitise_precompiled_letter :
      Bytes → Bool → Bool → Result (SanitisationDetails × ℕ)
  sanitise_precompiled_letter encoded_string allow_international_letters is_an_attachment = do
    raise_if (length encoded_string == 0) (Exn.invalid_request "no-encoded-string")
    let details = sanitise_file_contents encoded_string allow_international_letters is_an_attachment
    ok (details, if has_message details then 400 else 200)
