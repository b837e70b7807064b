-- ===== src/Templated.antt =====
-- app/templated.py and app/letter_attachments.py, with `stitch_pdfs`,
-- `get_transient_letter_file_location` and `get_datetime_from_json` of app/utils.py.
pub mod Frame
pub mod Pages
use Prim.Native.String.{◌++◌ as ◌<>◌}
use text.Mathlib.Text.{◌==◌ as eq_str}
use notifications_template_p.Prelude.{
  String, Bool, true, false, ◌++◌, Option, none, some, if◌then◌else◌,
}
use notifications_template_p.Python.Errors.{Result, ok, raised}
use notifications_template_p.Python.Stream.{BytesIo, rewind}
use notifications_template_p.External.{Libraries}
use notifications_template_p.Transformation.{convert_pdf_to_cmyk}
use notifications_template_p.Precompiled.Overlay.{bytesio_from_pdf}
use notifications_template_p.Storage.{
  Services, Action, ◌>>=◌, pure, lift, LetterDetails, Language, english, welsh,
}
use notifications_template_p.Cache.{caching_s3download}
use notifications_template_p.Json.{Json, index}

pub data PdfPurpose : Type 0 where
  preview print : PdfPurpose

-- `get_transient_letter_file_location`
unfoldable pub get_transient_letter_file_location : String → String → String
get_transient_letter_file_location service_id upload_id =
    "service-" <> (service_id <> ("/" <> (upload_id <> ".pdf")))

-- `letter_details["template"].get("letter_languages") == "welsh_then_english"`
abbrev pub is_bilingual : Option String → Bool
is_bilingual none = false
is_bilingual (some languages) = eq_str languages "welsh_then_english"

-- `stitch_pdfs`
unfoldable pub stitch_pdfs : (lib : Libraries) → BytesIo → BytesIo → Result BytesIo
stitch_pdfs lib first_pdf second_pdf = elim (lib.parse first_pdf.contents) [
  | raised e ↦ raised e
  | ok first_pages ↦ elim (lib.parse second_pdf.contents) [
    | raised e ↦ raised e
    | ok second_pages ↦ ok (bytesio_from_pdf lib (first_pages ++ second_pages))
  ]
]

-- `get_datetime_from_json`
unfoldable pub get_datetime_from_json : (V : Services) → LetterDetails → Result (Option V.Datetime)
get_datetime_from_json V details = elim details.date [
  | none ↦ ok none
  | some text ↦
      if eq_str text ""
      then ok none
      else elim (V.parse_date text) [ ok d ↦ ok (some d) | raised e ↦ raised e ]
]

module _ (lib : Libraries) (V : Services) where
  open V use {S3, config}

  -- A function that makes the PDF of a letter, of a language, with or without its first page.
  abbrev pub CreatePdf : Type 0
  CreatePdf = LetterDetails → Language → Bool → Action S3 BytesIo

  -- `get_attachment_pdf`
  unfoldable pub get_attachment_pdf : Json → Json → Action S3 BytesIo
  get_attachment_pdf service_id attachment_id =
      caching_s3download V config.letter_attachment_bucket_name
        ("service-" <> (V.format service_id <> ("/" <> (V.format attachment_id <> ".pdf"))))

  -- `add_attachment_to_letter`
  unfoldable pub add_attachment_to_letter : Json → BytesIo → Json → Action S3 BytesIo
  add_attachment_to_letter service_id templated_letter_pdf attachment_object = do
    id ← lift (index "id" attachment_object)
    attachment_pdf ← get_attachment_pdf service_id id
    lift (stitch_pdfs lib templated_letter_pdf attachment_pdf)

  -- The first step of `generate_templated_pdf`: one language, or Welsh and then English.
  unfoldable pub create_in_languages : LetterDetails → CreatePdf → Action S3 BytesIo
  create_in_languages details create_pdf_lambda =
      if is_bilingual details.letter_languages
      then (do
        welsh_pdf ← create_pdf_lambda details welsh true
        english_pdf ← create_pdf_lambda details english false
        lift (stitch_pdfs lib welsh_pdf english_pdf))
      else create_pdf_lambda details english true

  -- The second step: CMYK for print.
  unfoldable pub convert_for : PdfPurpose → BytesIo → Result BytesIo
  convert_for preview pdf = ok pdf
  convert_for print pdf = elim (convert_pdf_to_cmyk lib pdf) [
    | ok cmyk ↦ ok (rewind cmyk)
    | raised e ↦ raised e
  ]

  -- The last step: the attachment, if there is one.
  unfoldable pub attach : LetterDetails → BytesIo → Action S3 BytesIo
  attach details pdf = elim details.letter_attachment [
    | none ↦ pure pdf
    | some attachment ↦ do
      service_id ← lift (index "service" details.template)
      add_attachment_to_letter service_id pdf attachment
  ]

  -- `generate_templated_pdf`
  unfoldable pub generate_templated_pdf : LetterDetails → CreatePdf → PdfPurpose → Action S3 BytesIo
  generate_templated_pdf details create_pdf_lambda purpose = do
    pdf ← create_in_languages details create_pdf_lambda
    converted ← lift (convert_for purpose pdf)
    attach details converted
