-- ===== src/Preview/Letters.antt =====
-- `png_from_pdf` and the previews of templated letters of app/preview.py, behind the cache.
use Prim.Native.String.{◌++◌ as ◌<>◌}
use notifications_template_p.Prelude.{ℕ, String, Bool, true, Option, if◌then◌else◌}
use notifications_template_p.Prelude.Int.{ℤ}
use notifications_template_p.Python.Errors.{Result, ok, raised}
use notifications_template_p.Python.Stream.{BytesIo, bytes_io}
use notifications_template_p.External.{Libraries}
use notifications_template_p.Storage.{
  Services, Action, ◌>>=◌, pure, lift, LetterDetails, Language, TemplateArguments,
}
use notifications_template_p.Weasyprint.{write_pdf}
use notifications_template_p.Cache.{cache_key, cached_call}
use notifications_template_p.Templated.{get_datetime_from_json, generate_templated_pdf, preview}
use notifications_template_p.Tasks.Templated.{svg_name, values_or_none, get_page_count_for_pdf}
use notifications_template_p.Preview.Pages.{requested_page, draw_page}

-- `str` of a Boolean.
abbrev pub str_bool : Bool → String
str_bool b = if b then "True" else "False"

module _ (lib : Libraries) (V : Services) where
  open V use {S3, Datetime}
  open lib use {dumps, bytes_text}

  -- `png_from_pdf`
  unfoldable pub png_from_pdf : BytesIo → ℤ → Bool → Action S3 BytesIo
  png_from_pdf file page_number hide_notify = do
    page ← lift (requested_page lib file page_number)
    cached_call V (cache_key V "pngs" "png" (bytes_text (dumps page) <> str_bool hide_notify))
        (lift (draw_page lib (dumps page) hide_notify))

  -- The arguments of `LetterPreviewTemplate` in `get_html`; the address of the logos is always the
  -- configured one.
  abbrev pub preview_arguments :
      LetterDetails → Language → Bool → Option Datetime → TemplateArguments Datetime
  preview_arguments details language includes_first_page date = record {
    template = details.template;
    values = values_or_none details.values;
    contact_block = details.letter_contact_block;
    logo_file_name = svg_name details.logo_filename;
    language = language;
    includes_first_page = includes_first_page;
    date = date;
  }

  -- `get_html`
  unfoldable pub get_html : LetterDetails → Language → Bool → Result String
  get_html details language includes_first_page = elim (get_datetime_from_json V details) [
    | raised e ↦ raised e
    | ok date ↦
        ok (V.preview_template (preview_arguments details language includes_first_page date))
  ]

  -- `_get` of `get_pdf`
  unfoldable pub draw_letter : String → Result BytesIo
  draw_letter html = elim (write_pdf V html) [
    | ok bytes ↦ ok (bytes_io bytes)
    | raised e ↦ raised e
  ]

  -- `get_pdf`
  unfoldable pub get_pdf : String → Action S3 BytesIo
  get_pdf html = cached_call V (cache_key V "templated" "pdf" html) (lift (draw_letter html))

  -- `_get_pdf_from_letter_json`
  unfoldable pub get_pdf_from_letter_json : LetterDetails → Language → Bool → Action S3 BytesIo
  get_pdf_from_letter_json details language includes_first_page = do
    html ← lift (get_html details language includes_first_page)
    get_pdf html

  -- `prepare_pdf`
  unfoldable pub prepare_pdf : LetterDetails → Action S3 BytesIo
  prepare_pdf details = generate_templated_pdf lib V details get_pdf_from_letter_json preview

  -- `_preview_and_get_page_count`
  unfoldable pub preview_and_get_page_count : LetterDetails → Language → Action S3 ℕ
  preview_and_get_page_count details language = do
    pdf ← get_pdf_from_letter_json details language true
    (count, _) ← lift (get_page_count_for_pdf lib V pdf)
    pure count
