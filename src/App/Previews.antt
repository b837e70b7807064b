-- ===== src/App/Previews.antt =====
-- The endpoints of app/preview.py. The validator of JSON schemas is a parameter.
use text.Mathlib.Text.{◌==◌ as eq_str}
use Prim.Native.String.{◌++◌ as ◌<>◌}
use notifications_template_p.Prelude.{◌==◌, String, Bool, false, none, some, length, if◌then◌else◌}
use notifications_template_p.Prelude.Int.{ℤ, pos, ◌+ℤ◌, leb_ℤ}
use notifications_template_p.Python.Errors.{Exn, Result, ok, raised}
use notifications_template_p.Python.Stream.{BytesIo, bytes_io, read}
use notifications_template_p.Python.Base64.{b64decode}
use notifications_template_p.Json.{Json, index}
use notifications_template_p.Schemas.{
  Schema, preview_schema, letter_attachment_preview_schema, get_and_validate_json_from_request,
}
use notifications_template_p.External.{Libraries}
use notifications_template_p.Storage.{
  Services, Action, ◌>>=◌, pure, lift, LetterDetails, english, welsh,
}
use notifications_template_p.Templated.{is_bilingual, get_attachment_pdf}
use notifications_template_p.Tasks.Templated.{get_page_count_for_pdf}
use notifications_template_p.Preview.Details.{as_integer, letter_details}
use notifications_template_p.Preview.Pages.{str_ℤ}
use notifications_template_p.Preview.Letters.{png_from_pdf, prepare_pdf, preview_and_get_page_count}
use notifications_template_p.App.Http.{
  Request, Response, png, pdf, counts, success, find_arg, arg_or,
}

-- `abort(400, description)`
abbrev pub abort_400 : {S A : Type 0} → String → Action S A
abort_400 description = lift (raised (Exn.http_exception 400 description))

-- `send_file` of a stream, which it reads to its end.
abbrev pub send_png : {S : Type 0} → BytesIo → Action S Response
send_png f = pure (success (png (read f).0))

abbrev pub send_pdf : {S : Type 0} → BytesIo → Action S Response
send_pdf f = pure (success (pdf (read f).0))

module _ (validate : Schema → Json → Bool) (lib : Libraries) (V : Services) where
  open V use {S3}

  -- The JSON of a preview, validated, and what is read of it.
  unfoldable pub preview_details : Request → Result LetterDetails
  preview_details request =
      elim (get_and_validate_json_from_request validate request.json preview_schema) [
        | ok json ↦ letter_details json
        | raised e ↦ raised e
      ]

  -- `int(request.args.get("page", 1))`
  unfoldable pub page_argument : Request → Result ℤ
  page_argument request = elim (find_arg "page" request.args) [
    | none ↦ ok (pos 1)
    | some t ↦ V.int t
  ]

  -- `counts["attachment_page_count"]` of `page_count`
  unfoldable pub attachment_page_count : LetterDetails → Result ℤ
  attachment_page_count details = elim details.letter_attachment [
    | none ↦ ok (pos 0)
    | some attachment ↦ elim (index "page_count" attachment) [
      | ok n ↦ as_integer n
      | raised e ↦ raised e
    ]
  ]

  -- `page_count`
  unfoldable pub page_count : Request → Action S3 Response
  page_count request = do
    details ← lift (preview_details request)
    attached ← lift (attachment_page_count details)
    welsh_pages ←
        if is_bilingual details.letter_languages
        then preview_and_get_page_count lib V details welsh
        else pure 0
    english_pages ← preview_and_get_page_count lib V details english
    pure (
        success (
          counts (record {
            count = (pos english_pages +ℤ pos welsh_pages) +ℤ attached;
            welsh_page_count = pos welsh_pages;
            attachment_page_count = attached;
          })))

  -- `view_letter_template_png`
  unfoldable pub view_letter_template_png : Request → Action S3 Response
  view_letter_template_png request = do
    details ← lift (preview_details request)
    letter ← prepare_pdf lib V details
    requested_page ← lift (page_argument request)
    image ← png_from_pdf lib V letter requested_page false
    send_png image

  -- `view_letter_template_pdf`
  unfoldable pub view_letter_template_pdf : Request → Action S3 Response
  view_letter_template_pdf request = elim (find_arg "page" request.args) [
    | some _ ↦ abort_400 ""
    | none ↦ do
      details ← lift (preview_details request)
      letter ← prepare_pdf lib V details
      send_pdf letter
  ]

  -- The rest of `view_letter_attachment_preview`, behind the check of its argument.
  unfoldable pub attachment_page : Request → Json → Action S3 Response
  attachment_page request json = do
    requested_page ← lift (page_argument request)
    service_id ← lift (index "service_id" json)
    attachment_id ← lift (index "letter_attachment_id" json)
    attachment ← get_attachment_pdf lib V service_id attachment_id
    (count, f) ← lift (get_page_count_for_pdf lib V attachment)
    if leb_ℤ requested_page (pos count)
        then (do image ← png_from_pdf lib V f requested_page false; send_png image)
        else abort_400 ("Letter attachment does not have a page " <> str_ℤ requested_page)

  -- `view_letter_attachment_preview`
  unfoldable pub view_letter_attachment_preview : Request → Action S3 Response
  view_letter_attachment_preview request = elim (find_arg "page" request.args) [
    | none ↦ abort_400 ""
    | some _ ↦ do
      json ← lift (
          get_and_validate_json_from_request validate request.json letter_attachment_preview_schema)
      attachment_page request json
  ]

  -- The `try` block of `view_precompiled_letter`.
  unfoldable pub preview_precompiled : Request → Action S3 Response
  preview_precompiled request =
      if length request.body == 0 then abort_400 "" else elim (b64decode request.body) [
        | none ↦ lift (raised Exn.value_error)
        | some bytes ↦ do
          requested_page ← lift (page_argument request)
          image ←
              png_from_pdf lib V (bytes_io bytes) requested_page
                (eq_str (arg_or "hide_notify" "" request) "true")
          send_png image
      ]

  -- `view_precompiled_letter`
  unfoldable pub view_precompiled_letter : Request → Action S3 Response
  view_precompiled_letter request w =
      let (r, w') = preview_precompiled request w in
      elim r [
        | ok response ↦ (ok response, w')
        | raised Exn.missing_delegate_error ↦ (raised (Exn.http_exception 400 ""), w')
        | raised e ↦ (raised e, w')
      ]
